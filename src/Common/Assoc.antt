-- ===== src/Common/Assoc.antt =====
-- A map with numbers for keys, as an association list in which a key stands once.
use Prim.Native.Nat.{ℕ, suc}
use mathlib.Core.Path.{◌≡◌, refl}
use mathlib.Core.List.{List, [], ◌∷◌}
use mathlib.Core.Option.{Option, none, some}
use native.Mathlib.Omega.{arith}
use rcdl.Common.Tests.{◌==◌, if◌then◌else◌}
use rcdl.Common.Lists.{length}

module _ {ℓ} {V : Type ℓ} where
  unfoldable pub find : ℕ → List (ℕ × V) → Option V
  find k [] = none
  find k ((j, v) ∷ m) = if j == k then some v else find k m

  abbrev pub insert_new : ℕ → V → List (ℕ × V) → Option V → List (ℕ × V)
  insert_new k v m none = (k, v) ∷ m
  insert_new k v m (some w) = m

  -- `emplace` leaves a key that is there alone.
  unfoldable pub emplace : ℕ → V → List (ℕ × V) → List (ℕ × V)
  emplace k v m = insert_new k v m (find k m)

  unfoldable pub erase : ℕ → List (ℕ × V) → List (ℕ × V)
  erase k [] = []
  erase k ((j, v) ∷ m) = if j == k then m else (j, v) ∷ erase k m

  abbrev pub Unique : List (ℕ × V) → Type ℓ
  Unique [] = Unit
  Unique ((j, v) ∷ m) = (find j m ≡ none) × Unique m

  pub emplace-new :
      (k : ℕ) (v : V) (m : List (ℕ × V)) → find k m ≡ none → emplace k v m ≡ (k, v) ∷ m
  unfolding emplace
  emplace-new k v m h = rw h

  pub find-emplace :
      (k j : ℕ) (v : V) (m : List (ℕ × V))
      → find k m ≡ none
      → find j (emplace k v m) ≡ (if k == j then some v else find j m)
  find-emplace k j v m h = rw (emplace-new k v m h) (unfold find in refl)

  pub emplace-Unique :
      (k : ℕ) (v : V) (m : List (ℕ × V)) → find k m ≡ none → Unique m → Unique (emplace k v m)
  emplace-Unique k v m h u = rw (emplace-new k v m h) (h, u)

  pub length-emplace :
      (k : ℕ) (v : V) (m : List (ℕ × V)) → find k m ≡ none → length (emplace k v m) ≡ suc (length m)
  length-emplace k v m h = rw (emplace-new k v m h)

  pub find-erase :
      (k j : ℕ) (m : List (ℕ × V))
      → Unique m
      → find j (erase k m) ≡ (if k == j then none else find j m)
  unfolding find erase
  find-erase k j [] u = ground arith
  find-erase k j ((i, v) ∷ m) u = ground (arith, find-erase k j m u.1, u.0)

  pub erase-Unique : (k : ℕ) (m : List (ℕ × V)) → Unique m → Unique (erase k m)
  unfolding find erase
  erase-Unique k [] u = u
  erase-Unique k ((i, v) ∷ m) u = ground (arith, erase-Unique k m u.1, find-erase k i m u.1)

  pub length-erase :
      (k : ℕ) (v : V) (m : List (ℕ × V)) → find k m ≡ some v → suc (length (erase k m)) ≡ length m
  unfolding find erase
  length-erase k v [] h = cc
  length-erase k v ((i, w) ∷ m) h = ground (arith, length-erase k v m)
