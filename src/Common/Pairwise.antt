-- ===== src/Common/Pairwise.antt =====
-- Two lists that agree entry by entry.
use Prim.Native.Nat.{ℕ, zero, suc, ◌<◌}
use mathlib.Core.Path.{◌≡◌, refl, ap, subst}
use mathlib.Core.Logic.{◌⊎◌, inl, inr}
use mathlib.Core.List.{List, [], ◌∷◌, ◌++◌, map}
use mathlib.Core.Option.{some}
use native.Mathlib.Omega.{arith}
use rcdl.Common.Lists.{length, get_elem?}

pub some-injective {ℓ} : {A : Type ℓ} {x y : A} → some x ≡ some y → x ≡ y
some-injective h = cc

module _ {ℓ κ} {A : Type ℓ} {B : Type κ} (f : A → B) where
  pub length-map : (xs : List A) → length (map f xs) ≡ length xs
  length-map [] = refl
  length-map (x ∷ xs) = ap suc (length-map xs)

  pub map-snoc : (xs : List A) (a : A) → map f (xs ++ a ∷ []) ≡ map f xs ++ f a ∷ []
  map-snoc [] a = refl
  map-snoc (x ∷ xs) a = ap (λ (ys : List B). f x ∷ ys) (map-snoc xs a)

  pub get_elem?-map :
      (xs : List A) (k : ℕ) {a : A} → get_elem? xs k ≡ some a → get_elem? (map f xs) k ≡ some (f a)
  get_elem?-map [] k h = cc
  get_elem?-map (x ∷ xs) zero h = ap (λ (y : A). some (f y)) (some-injective h)
  get_elem?-map (x ∷ xs) (suc k) h = get_elem?-map xs k h

module _ {ℓ κ} {A : Type ℓ} {B : Type κ} (R : A → B → Type 0) where
  -- R holds of the entries at each position, and neither list is longer.
  abbrev pub Each : List A → List B → Type 0
  Each [] [] = Unit
  Each (a ∷ as') (b ∷ bs) = R a b × Each as' bs
  Each [] (b ∷ bs) = ⊥
  Each (a ∷ as') [] = ⊥

  pub Each-snoc :
      (xs : List A) (ys : List B) {a : A} {b : B}
      → R a b
      → Each xs ys
      → Each (xs ++ a ∷ []) (ys ++ b ∷ [])
  Each-snoc [] [] h v = (h, tt)
  Each-snoc (x ∷ xs) (y ∷ ys) h v = (v.0, Each-snoc xs ys h v.1)
  Each-snoc [] (y ∷ ys) h v = absurd v
  Each-snoc (x ∷ xs) [] h v = absurd v

  pub Each-length : (xs : List A) (ys : List B) → Each xs ys → length xs ≡ length ys
  Each-length [] [] v = refl
  Each-length (x ∷ xs) (y ∷ ys) v = ap suc (Each-length xs ys v.1)
  Each-length [] (y ∷ ys) v = absurd v
  Each-length (x ∷ xs) [] v = absurd v

  pub Each-get :
      (xs : List A) (ys : List B) (k : ℕ) {b : B}
      → Each xs ys
      → get_elem? ys k ≡ some b
      → (a : A) × (get_elem? xs k ≡ some a) × R a b
  Each-get [] [] k v h = cc
  Each-get (x ∷ xs) (y ∷ ys) zero {b} v h = (x, refl, subst (R x) (some-injective h) v.0)
  Each-get (x ∷ xs) (y ∷ ys) (suc k) v h = Each-get xs ys k v.1 h
  Each-get [] (y ∷ ys) k v h = absurd v
  Each-get (x ∷ xs) [] k v h = absurd v

module _ {ℓ} {A : Type ℓ} where
  -- An entry of a list with one more is an old one, or the last.
  pub get_elem?-snoc :
      (xs : List A) (x : A) (k : ℕ) {a : A}
      → get_elem? (xs ++ x ∷ []) k ≡ some a
      → (get_elem? xs k ≡ some a) ⊎ ((k ≡ length xs) × (x ≡ a))
  get_elem?-snoc [] x zero h = inr (refl, some-injective h)
  get_elem?-snoc [] x (suc k) h = cc
  get_elem?-snoc (y ∷ xs) x zero h = inl h
  get_elem?-snoc (y ∷ xs) x (suc k) h = elim (get_elem?-snoc xs x k h) [
    | inl old ↦ inl old
    | inr (last, same) ↦ inr (ap suc last, same)
  ]

  pub get_elem?-lt : (xs : List A) (k : ℕ) → k < length xs → (a : A) × (get_elem? xs k ≡ some a)
  get_elem?-lt [] k h = absurd (omega (arith, h))
  get_elem?-lt (x ∷ xs) zero h = (x, refl)
  get_elem?-lt (x ∷ xs) (suc k) h = get_elem?-lt xs k (omega (arith, h))
