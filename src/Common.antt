-- ===== src/Common.antt =====
-- The names that the other modules share: the libraries', passed on, and those of the children.
mod Tests
mod Lists
pub mod Int
pub mod Assoc
pub mod Family
pub mod Loops
pub mod Pairwise
pub use Tests.*
pub use Lists.*
pub use Prim.Native.Nat.{ℕ, zero, suc, ◌+◌, ◌-◌, ◌*◌, ◌/◌, ◌%◌, ◌^◌, ◌≤◌, ◌<◌, min, max}
pub use mathlib.Core.Path.{◌≡◌, refl, sym, ap, subst, ◌∙◌}
pub use mathlib.Core.Logic.{◌≢◌, ◌↔◌, ◌⊎◌, inl, inr}
pub use mathlib.Core.Bool.{Bool, true, false, not, ◌&&◌, ◌||◌}
pub use mathlib.Core.Option.{Option, none, some}
pub use mathlib.Core.List.{List, [], ◌∷◌, ◌++◌, map}
pub use native.Mathlib.Omega.{arith}
unfoldable pub use native.Mathlib.Decide.{dec_lt, dec_le, ℕ_discrete}

-- What the source returns, or the reason `X` for which it throws.
pub data Result {ℓ κ} (X : Type κ) (A : Type ℓ) : Type (ℓ ⊔ κ) where
  ok : A → Result X A
  err : X → Result X A

-- RCDL_REQUIRE(cond, reason).
abbrev pub require {κ} : {X : Type κ} → Bool → X → Result X (Unit {0})
require false reason = err reason
require true reason = ok tt

infixl 5 ◌>>=◌ ◌>>◌
abbrev pub ◌>>=◌ {κ ℓ μ} :
    {X : Type κ} {A : Type ℓ} {C : Type μ} → Result X A → (A → Result X C) → Result X C
err reason >>= rest = err reason
ok v >>= rest = rest v

abbrev pub ◌>>◌ {κ ℓ} : {X : Type κ} {C : Type ℓ} → Result X (Unit {0}) → Result X C → Result X C
first >> rest = first >>= λ done. rest

-- When a chain succeeds, so did its first part, and the rest on what that part gave.
pub >>=-ok {κ ℓ μ} :
    {X : Type κ} {A : Type ℓ} {C : Type μ} (first : Result X A) (rest : A → Result X C) {c : C}
    → (first >>= rest) ≡ ok c
    → (v : A) × (first ≡ ok v) × (rest v ≡ ok c)
>>=-ok (err reason) rest h = cc
>>=-ok (ok v) rest h = (v, refl, h)

-- What follows a check runs only if the check holds.
pub require-ok {ℓ κ} :
    {X : Type κ} {A : Type ℓ} (b : Bool) (reason : X) (rest : Result X A) {a : A}
    → (require b reason >> rest) ≡ ok a
    → (b ≡ true) × (rest ≡ ok a)
require-ok true reason rest h = (refl, h)
require-ok false reason rest h = cc

pub ok-injective {ℓ μ} :
    {E : Type μ} {A : Type ℓ} {a b : A} → ◌≡◌ {A = Result E A} (ok a) (ok b) → a ≡ b
ok-injective h = cc

pub if-ok {ℓ μ} :
    {E : Type μ} {A : Type ℓ} (b : Bool) (x y : A) {r : A}
    → ◌≡◌ {A = Result E A} (ok (if b then x else y)) (ok r)
    → ((b ≡ true) × (r ≡ x)) ⊎ ((b ≡ false) × (r ≡ y))
if-ok true x y h = inl (refl, sym (ok-injective h))
if-ok false x y h = inr (refl, sym (ok-injective h))

-- Which branch gave the result.
pub if-cases {ℓ} :
    {A : Type ℓ} (b : Bool) (x y : A) {r : A}
    → (if b then x else y) ≡ r
    → ((b ≡ true) × (x ≡ r)) ⊎ ((b ≡ false) × (y ≡ r))
if-cases true x y h = inl (refl, h)
if-cases false x y h = inr (refl, h)

-- What holds of the branch that is taken.
pub if-split {ℓ κ} :
    {A : Type ℓ} (P : A → Type κ) (b : Bool) {x y : A}
    → (b ≡ true → P x)
    → (b ≡ false → P y)
    → P (if b then x else y)
if-split P true h k = h refl
if-split P false h k = k refl

-- What holds of both branches.
pub if-both {ℓ κ} :
    {A : Type ℓ} (P : A → Type κ) (b : Bool) {x y : A} → P x → P y → P (if b then x else y)
if-both P true h k = h
if-both P false h k = k

pub data NpuCore : Type 0 where
  auto core0 core1 core2 core01 core012 all : NpuCore
