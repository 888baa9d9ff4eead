-- ===== src/Common/Family.antt =====
-- Vectors of a fixed size as functions: a write at one index, and the number of entries below `n`
-- that pass a test.
use Prim.Native.Nat.{ℕ, zero, suc, ◌+◌, ◌≤◌, ◌<◌}
use mathlib.Core.Path.{◌≡◌, refl, subst}
use mathlib.Core.Bool.{Bool, true, false}
use native.Mathlib.Omega.{arith}
use native.Mathlib.Decide.{dec_lt}
use mathlib.Core.Logic.{inl, inr}
use rcdl.Common.Tests.{◌==◌, ==_iff, Bool-cases, if◌then◌else◌}

abbrev pub bit : Bool → ℕ
bit true = 1
bit false = 0

module _ {ℓ} {A : Type ℓ} where
  abbrev pub write : (ℕ → A) → ℕ → A → ℕ → A
  write f i a j = if i == j then a else f j

  unfoldable pub passing : (A → Bool) → ℕ → (ℕ → A) → ℕ
  passing p zero f = 0
  passing p (suc n) f = bit (p (f n)) + passing p n f

module _ {ℓ} {A : Type ℓ} (p : A → Bool) (f : ℕ → A) (i : ℕ) (a : A) where
  passing-write_outside : (n : ℕ) → n ≤ i → passing p n (write f i a) ≡ passing p n f
  unfolding passing
  passing-write_outside zero out = refl
  passing-write_outside (suc n) out = ground (arith, passing-write_outside n)

  -- A write below `n` changes the number by the entry that it replaces and the one that it puts.
  pub passing-write :
      (n : ℕ) → i < n → bit (p (f i)) + passing p n (write f i a) ≡ bit (p a) + passing p n f
  unfolding passing
  passing-write zero inside = elim inside [ ]
  passing-write (suc n) inside = elim (dec_lt i n) [
    | no here ↦ ground (arith, passing-write_outside n)
    | yes earlier ↦ ground (arith, passing-write n earlier)
  ]

pub passing-none {ℓ} :
    {A : Type ℓ} (p : A → Bool) (a : A) (n : ℕ) → p a ≡ false → passing p n (λ _. a) ≡ 0
unfolding passing
passing-none p a zero h = refl
passing-none p a (suc n) h = rw (h, passing-none p a n h) refl

-- What holds of every entry holds after a write, if it holds of what is written.
pub write-all {ℓ κ} :
    {A : Type ℓ} (P : ℕ → A → Type κ) (f : ℕ → A) (i : ℕ) (a : A)
    → P i a
    → ((j : ℕ) → P j (f j))
    → (j : ℕ) → P j (write f i a j)
write-all P f i a h rest j = elim (Bool-cases (i == j)) [
  | inl e ↦ rw e (subst (λ k. P k a) ((==_iff i j).0 e) h)
  | inr e ↦ rw e (rest j)
]

pub passing-all_false {ℓ} :
    {A : Type ℓ} (p : A → Bool) (f : ℕ → A) (n : ℕ)
    → ((j : ℕ) → j < n → p (f j) ≡ false)
    → passing p n f ≡ 0
unfolding passing
passing-all_false p f zero h = refl
passing-all_false p f (suc n) h =
    rw (h n (omega arith), passing-all_false p f n (λ j lt. h j (omega (arith, lt)))) refl

pub passing-le {ℓ} : {A : Type ℓ} (p : A → Bool) (n : ℕ) (f : ℕ → A) → passing p n f ≤ n
unfolding passing
passing-le p zero f = omega arith
passing-le p (suc n) f = ground (arith, passing-le p n f)
