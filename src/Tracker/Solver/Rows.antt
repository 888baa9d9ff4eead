-- ===== src/Tracker/Solver/Rows.antt =====
-- tracks/byte_tracker.cc: the augmenting path moves the rows to other columns, and loses none. This
-- needs nothing of the costs, nor of the path but that it ends.
use rcdl.Common.{
  ℕ, zero, suc, ◌+◌, ◌≤◌, ◌<◌, ◌≡◌, refl, sym, ap, subst, Bool-cases, inl, inr, false, some, leb,
  ◌==◌, ==_iff, if-cases, arith,
}
use rcdl.Common.Family.{bit, write, passing, passing-write, passing-none}
use rcdl.Tracker.Solver.{augment}

some-injective {ℓ} : {A : Type ℓ} {a b : A} → some a ≡ some b → a ≡ b
some-injective h = cc

-- To write at `i` what stands at `j` leaves `j` as it is.
write-same : (f : ℕ → ℕ) (i j : ℕ) → write f i (f j) j ≡ f j
write-same f i j = elim (Bool-cases (i == j)) [ inl e ↦ rw e refl | inr e ↦ rw e refl ]

-- How many of the columns 0..n hold row `r`.
abbrev pub holding_row : ℕ → (ℕ → ℕ) → ℕ → ℕ
holding_row n p r = passing (λ x. x == r) (suc n) p

-- The rows before and after, but for column j0 before and for column 0 after.
pub augment-rows :
    (n fuel : ℕ) (way p : ℕ → ℕ) (j0 : ℕ) {q : ℕ → ℕ}
    → ((j : ℕ) → way j ≤ n)
    → j0 ≤ n
    → augment fuel way p j0 ≡ some q
    → (r : ℕ) → holding_row n q r + bit (p j0 == r) ≡ holding_row n p r + bit (q 0 == r)
unfolding augment
augment-rows n zero way p j0 inside lt h r = cc
augment-rows n (suc fuel) way p j0 {q} inside lt h r =
    let p' : ℕ → ℕ = write p j0 (p (way j0)) in
    let moved : bit (p j0 == r) + holding_row n p' r ≡ bit (p (way j0) == r) + holding_row n p r =
      passing-write (λ x. x == r) p j0 (p (way j0)) (suc n) (omega (arith, lt)) in
    elim (if-cases (way j0 == 0) _ _ h) [
      | inl (end, e) ↦
          let first : way j0 ≡ 0 = (==_iff (way j0) 0).0 end in
          let same : bit (p' 0 == r) ≡ bit (p (way j0) == r) =
            ap (λ x. bit (x == r))
              (subst (λ j. write p j0 (p j) 0 ≡ p j) (sym first) (write-same p j0 0)) in
          subst (λ f. holding_row n f r + bit (p j0 == r) ≡ holding_row n p r + bit (f 0 == r))
            (some-injective e) (omega (arith, moved, same))
      | inr (go, e) ↦
          let rest : holding_row n q r + bit (p' (way j0) == r)
              ≡ holding_row n p' r + bit (q 0 == r) =
            augment-rows n fuel way p' (way j0) inside (inside j0) e r in
          let same : bit (p' (way j0) == r) ≡ bit (p (way j0) == r) =
            ap (λ x. bit (x == r)) (write-same p j0 (way j0)) in
          omega (arith, moved, rest, same)
    ]

-- After `k` of `n` rows: each of them stands in one column, and the other columns are free.
pub record Placed (n k : ℕ) (p : ℕ → ℕ) : Type 0 where
  pub rows : (r : ℕ) → 0 < r → holding_row n p r ≡ bit (p 0 == r) + bit (leb r k)
  pub free : holding_row n p 0 + k ≡ bit (p 0 == 0) + n

none_used : (n : ℕ) → holding_row n (λ j. 0) 0 + 0 ≡ 1 + n
unfolding passing
none_used zero = omega arith
none_used (suc n) = omega (arith, none_used n)

pub none-Placed : (n : ℕ) → Placed n 0 (λ j. 0)
none-Placed n = record {
  rows = λ r pos.
      let other : (0 == r) ≡ false = ground (arith, pos) in
      let late : leb r 0 ≡ false = ground (arith, pos) in
      rw (other, late, passing-none (λ x. x == r) 0 (suc n) other) refl;
  free = none_used n;
}

pub augment-Placed :
    (n k fuel : ℕ) (way p : ℕ → ℕ) (j0 : ℕ) {q : ℕ → ℕ}
    → ((j : ℕ) → way j ≤ n)
    → j0 ≤ n
    → Placed n k p
    → write p 0 (suc k) j0 ≡ 0
    → augment fuel way (write p 0 (suc k)) j0 ≡ some q
    → Placed n (suc k) q
augment-Placed n k fuel way p j0 {q} inside lt pl at_j0 h =
    let start : (r : ℕ)
        → bit (p 0 == r) + holding_row n (write p 0 (suc k)) r
          ≡ bit (suc k == r) + holding_row n p r =
      λ r. passing-write (λ x. x == r) p 0 (suc k) (suc n) (omega arith) in
    let moved = augment-rows n fuel way (write p 0 (suc k)) j0 inside lt h in
    let at_end : (r : ℕ) → bit (write p 0 (suc k) j0 == r) ≡ bit (0 == r) =
      λ r. ap (λ x. bit (x == r)) at_j0 in
    record {
      rows = λ r pos. ground (arith, start r, moved r, at_end r, pl.rows r pos, pos);
      free = ground (arith, start 0, moved 0, at_end 0, pl.free);
    }
