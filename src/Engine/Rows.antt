-- ===== src/Engine/Rows.antt =====
-- backend/engine.cc: the copies of setInput and outputAsFloat, between packed rows and the rows of
-- the device, which may be padded. A buffer is a function of the offset.
use rcdl.Common.{
  ℕ, zero, suc, ◌+◌, ◌-◌, ◌*◌, ◌≤◌, ◌<◌, ◌≡◌, ◌≢◌, ◌⊎◌, refl, ap, ◌∙◌, inl, inr, true, ◌&&◌, ltb,
  leb, ◌==◌, ==_iff, ==_false, Bool-cases, if◌then◌else◌, arith,
}
use native.Mathlib.Nat.{mul-le-mul_right}

module _ {ℓ} {A : Type ℓ} where
  -- memcpy(dst + to, src + from, n)
  unfoldable pub memcpy : (ℕ → A) → ℕ → (ℕ → A) → ℕ → ℕ → ℕ → A
  memcpy dst to src from n a = if leb to a && ltb a (to + n) then src (from + (a - to)) else dst a

  module _ (dst_row : ℕ) (src : ℕ → A) (src_row n : ℕ) where
    -- The loop over the rows, from row `r` on, with `k` rounds left.
    pub copy_rows : ℕ → ℕ → (ℕ → A) → ℕ → A
    copy_rows zero r dst = dst
    copy_rows (suc k) r dst = copy_rows k (suc r) (memcpy dst (r * dst_row) src (r * src_row) n)

    memcpy-outside :
        (dst : ℕ → A) (to from a : ℕ) → (a < to) ⊎ (to + n ≤ a) → memcpy dst to src from n a ≡ dst a
    unfolding memcpy
    memcpy-outside dst to from a out = ground (arith, out)

    -- Rows before the first are left alone.
    copy_rows-before :
        (k r : ℕ) (dst : ℕ → A) (a : ℕ) → a < r * dst_row → copy_rows k r dst a ≡ dst a
    unfolding copy_rows
    copy_rows-before zero r dst a h = refl
    copy_rows-before (suc k) r dst a h =
        copy_rows-before k (suc r) _ a (omega (arith, h))
        ∙ memcpy-outside dst (r * dst_row) (r * src_row) a (inl h)

    memcpy-inside :
        (dst : ℕ → A) (to from j : ℕ) → j < n → memcpy dst to src from n (to + j) ≡ src (from + j)
    unfolding memcpy
    memcpy-inside dst to from j h =
        let e : (leb to (to + j) && ltb (to + j) (to + n)) ≡ true = ground (arith, h) in
        rw e (ap (λ o. src (from + o)) (omega arith))

    pub copy_rows-from :
        (k s r j : ℕ) (dst : ℕ → A)
        → n ≤ dst_row
        → s ≤ r
        → r < s + k
        → j < n
        → copy_rows k s dst (r * dst_row + j) ≡ src (r * src_row + j)
    unfolding copy_rows
    copy_rows-from zero s r j dst fit ge lt h = absurd (omega (arith, ge, lt))
    copy_rows-from (suc k) s r j dst fit ge lt h = elim (Bool-cases (s == r)) [
      | inr later ↦
          let ne : s ≢ r = ==_false s r later in
          copy_rows-from k (suc s) r j _ fit (omega (arith, ne, ge)) (omega (arith, lt)) h
      | inl here ↦
          let e : s ≡ r = (==_iff s r).0 here in
          rw (← e) (
            copy_rows-before k (suc s) _ (s * dst_row + j) (omega (arith, h, fit))
            ∙ memcpy-inside dst (s * dst_row) (s * src_row) j h)
    ]

    -- Nothing after the last row is written.
    pub copy_rows-after :
        (k r : ℕ) (dst : ℕ → A) (a : ℕ)
        → n ≤ dst_row
        → (r + k) * dst_row ≤ a
        → copy_rows k r dst a ≡ dst a
    unfolding copy_rows
    copy_rows-after zero r dst a fit h = refl
    copy_rows-after (suc k) r dst a fit h =
        let row : (r + 1) * dst_row ≤ (r + suc k) * dst_row =
          mul-le-mul_right dst_row (omega arith) in
        copy_rows-after k (suc r) _ a fit (omega (arith, h))
        ∙ memcpy-outside dst (r * dst_row) (r * src_row) a (inr (omega (arith, row, h, fit)))
