-- ===== src/Pool/Free.antt =====
-- The free list of the pool: lemmas on the scan and on writes, for the modules beside this one.
use rcdl.Common.{
  ℕ, zero, suc, ◌<◌, ◌≤◌, ◌≡◌, refl, ap, ◌⊎◌, inl, inr, Bool, true, false, List, [], ◌∷◌, Option,
  none, some, length, set, replicate, ltb, ◌==◌, if◌then◌else◌, arith,
}
use rcdl.Pool.{is_free, first_free}

-- How many contexts are free.
abbrev pub free_count : List Bool → ℕ
free_count [] = 0
free_count (true ∷ fs) = suc (free_count fs)
free_count (false ∷ fs) = free_count fs

pub free_count-le : (fs : List Bool) → free_count fs ≤ length fs
free_count-le [] = omega arith
free_count-le (true ∷ fs) = omega (arith, free_count-le fs)
free_count-le (false ∷ fs) = omega (arith, free_count-le fs)

pub free_count-replicate : (n : ℕ) → free_count (replicate n true) ≡ n
free_count-replicate zero = refl
free_count-replicate (suc n) = ap suc (free_count-replicate n)

pub is_free-lt : (fs : List Bool) (i : ℕ) → is_free fs i ≡ true → i < length fs
unfolding is_free
is_free-lt [] i h = cc
is_free-lt (b ∷ fs) zero h = omega arith
is_free-lt (b ∷ fs) (suc i) h = omega (arith, is_free-lt fs i h)

pub is_free-replicate : (n i : ℕ) → is_free (replicate n true) i ≡ ltb i n
unfolding is_free
is_free-replicate zero i = ground arith
is_free-replicate (suc n) zero = ground arith
is_free-replicate (suc n) (suc i) = ground (arith, is_free-replicate n i)

pub is_free-set :
    (fs : List Bool) (i j : ℕ) (b : Bool)
    → i < length fs
    → is_free (set fs i b) j ≡ (if i == j then b else is_free fs j)
unfolding is_free
is_free-set [] i j b h = elim h [ ]
is_free-set (x ∷ fs) zero zero b h = refl
is_free-set (x ∷ fs) zero (suc j) b h = ground arith
is_free-set (x ∷ fs) (suc i) zero b h = ground arith
is_free-set (x ∷ fs) (suc i) (suc j) b h = ground (arith, is_free-set fs i j b)

pub free_count-set-false :
    (fs : List Bool) (i : ℕ)
    → is_free fs i ≡ true
    → free_count fs ≡ suc (free_count (set fs i false))
unfolding is_free
free_count-set-false [] i h = cc
free_count-set-false (b ∷ fs) zero h = ground arith
free_count-set-false (true ∷ fs) (suc i) h = ap suc (free_count-set-false fs i h)
free_count-set-false (false ∷ fs) (suc i) h = free_count-set-false fs i h

pub free_count-set-true :
    (fs : List Bool) (i : ℕ)
    → i < length fs
    → is_free fs i ≡ false
    → free_count (set fs i true) ≡ suc (free_count fs)
unfolding is_free
free_count-set-true [] i l h = elim l [ ]
free_count-set-true (b ∷ fs) zero l h = ground arith
free_count-set-true (true ∷ fs) (suc i) l h = ap suc (free_count-set-true fs i (omega arith) h)
free_count-set-true (false ∷ fs) (suc i) l h = free_count-set-true fs i (omega arith) h

-- The scan finds the lowest free context, and fails only where none is free.
abbrev pub Scanned : List Bool → Option ℕ → Type 0
Scanned fs none = free_count fs ≡ 0
Scanned fs (some i) = (is_free fs i ≡ true) × ((j : ℕ) → j < i → is_free fs j ≡ false)

pub first_free-Scanned : (fs : List Bool) → Scanned fs (first_free fs)
unfolding first_free is_free
first_free-Scanned [] = refl
first_free-Scanned (true ∷ fs) = (refl, λ j h. elim h [ ])
first_free-Scanned (false ∷ fs) = lift (first_free fs) (first_free-Scanned fs)
  where
    below :
        (i : ℕ)
        → ((j : ℕ) → j < i → is_free fs j ≡ false)
        → (j : ℕ) → j < suc i
        → is_free (false ∷ fs) j ≡ false
    below i h zero l = refl
    below i h (suc j) l = h j (omega arith)

    lift :
        (o : Option ℕ)
        → Scanned fs o
        → Scanned (false ∷ fs) (elim o [ none ↦ none | some i ↦ some (suc i) ])
    lift none h = h
    lift (some i) h = (h.0, below i h.1)

pub first_free-cases :
    (fs : List Bool)
    → ((first_free fs ≡ none) × (free_count fs ≡ 0))
      ⊎ ((i : ℕ) × (first_free fs ≡ some i)
          × (is_free fs i ≡ true)
          × ((j : ℕ) → j < i → is_free fs j ≡ false))
first_free-cases fs = split (first_free fs) refl (first_free-Scanned fs)
  where
    split :
        (o : Option ℕ)
        → first_free fs ≡ o
        → Scanned fs o
        → ((first_free fs ≡ none) × (free_count fs ≡ 0))
          ⊎ ((i : ℕ) × (first_free fs ≡ some i)
              × (is_free fs i ≡ true)
              × ((j : ℕ) → j < i → is_free fs j ≡ false))
    split none e h = inl (e, h)
    split (some i) e h = inr (i, e, h.0, h.1)
