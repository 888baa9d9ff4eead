-- ===== src/Tracker/Lists/Apart.antt =====
-- tracks/byte_tracker.cc: removeDuplicateStracks leaves no near duplicates.
use rcdl.Common.{
  ℕ, ◌≡◌, refl, Bool, true, false, not, ◌||◌, Bool-cases, inl, inr, List, [], ◌∷◌, ◌==◌, ==_iff,
  subst, if-split, if◌then◌else◌, arith,
}
use rcdl.Common.Int.{ℤ, ltb_ℤ}
use rcdl.Tracker.Lists.{
  occurs, goes_left, goes_right, keep_left, keep_right, remove_duplicate_stracks,
}

either : (a b : Bool) → (a || b) ≡ true → (b ≡ false → a ≡ true)
either true b h n = refl
either false b h n = cc

neither : (a b : Bool) → (a || b) ≡ false → (a ≡ false) × (b ≡ false)
neither false b h = (refl, h)
neither true b h = cc

module _ (close : ℕ → ℕ → Bool) (age : ℕ → ℤ) where
  keep_left-occurs :
      (p : ℕ) (a b : List ℕ)
      → occurs p (keep_left close age a b) ≡ true
      → (occurs p a ≡ true) × (goes_left close age p b ≡ false)
  unfolding keep_left occurs
  keep_left-occurs p [] b = λ h. cc
  keep_left-occurs p (x ∷ xs) b =
      if-split
        (λ ys. occurs p ys ≡ true → (occurs p (x ∷ xs) ≡ true) × (goes_left close age p b ≡ false))
        (goes_left close age x b)
        (λ y h. let rest = keep_left-occurs p xs b h in (ground (arith, rest.0), rest.1))
        (λ stays h. elim (Bool-cases (x == p)) [
          | inl e ↦ (
            ground (arith, e),
            subst (λ l. goes_left close age l b ≡ false) ((==_iff x p).0 e) stays,
          )
          | inr e ↦
              let rest = keep_left-occurs p xs b (ground (arith, e, h)) in
              (ground (arith, rest.0), rest.1)
        ])

  keep_right-occurs :
      (a : List ℕ) (q : ℕ) (b : List ℕ)
      → occurs q (keep_right close age a b) ≡ true
      → (occurs q b ≡ true) × (goes_right close age a q ≡ false)
  unfolding keep_right occurs
  keep_right-occurs a q [] = λ h. cc
  keep_right-occurs a q (x ∷ xs) =
      if-split
        (λ ys. occurs q ys ≡ true → (occurs q (x ∷ xs) ≡ true) × (goes_right close age a q ≡ false))
        (goes_right close age a x)
        (λ y h. let rest = keep_right-occurs a q xs h in (ground (arith, rest.0), rest.1))
        (λ stays h. elim (Bool-cases (x == q)) [
          | inl e ↦ (
            ground (arith, e),
            subst (λ l. goes_right close age a l ≡ false) ((==_iff x q).0 e) stays,
          )
          | inr e ↦
              let rest = keep_right-occurs a q xs (ground (arith, e, h)) in
              (ground (arith, rest.0), rest.1)
        ])

  not_left :
      (p q : ℕ) (b : List ℕ)
      → occurs q b ≡ true
      → goes_left close age p b ≡ false
      → (if close p q then not (ltb_ℤ (age q) (age p)) else false) ≡ false
  unfolding goes_left occurs
  not_left p q [] h n = cc
  not_left p q (x ∷ xs) h n = elim (Bool-cases (x == q)) [
    | inl e ↦
        subst (λ k. (if close p k then not (ltb_ℤ (age k) (age p)) else false) ≡ false)
          ((==_iff x q).0 e) (neither _ _ n).0
    | inr e ↦ not_left p q xs (ground (arith, e, h)) (neither _ _ n).1
  ]

  not_right :
      (a : List ℕ) (p q : ℕ)
      → occurs p a ≡ true
      → goes_right close age a q ≡ false
      → (if close p q then ltb_ℤ (age q) (age p) else false) ≡ false
  unfolding goes_right occurs
  not_right [] p q h n = cc
  not_right (x ∷ xs) p q h n = elim (Bool-cases (x == p)) [
    | inl e ↦
        subst (λ k. (if close k q then ltb_ℤ (age q) (age k) else false) ≡ false) ((==_iff x p).0 e)
          (neither _ _ n).0
    | inr e ↦ not_right xs p q (ground (arith, e, h)) (neither _ _ n).1
  ]

  both_false :
      (c o : Bool)
      → (if c then not o else false) ≡ false
      → (if c then o else false) ≡ false
      → c ≡ false
  both_false true true h k = cc
  both_false true false h k = cc
  both_false false o h k = refl

  -- No track that stays in the one list is a near duplicate of a track that stays in the other.
  pub remove_duplicate_stracks-apart :
      (a b : List ℕ) (p q : ℕ)
      → occurs p (remove_duplicate_stracks close age a b).0 ≡ true
      → occurs q (remove_duplicate_stracks close age a b).1 ≡ true
      → close p q ≡ false
  unfolding remove_duplicate_stracks
  remove_duplicate_stracks-apart a b p q h k =
      let left = keep_left-occurs p a b h in
      let right = keep_right-occurs a q b k in
      both_false (close p q) (ltb_ℤ (age q) (age p)) (not_left p q b right.0 left.1)
        (not_right a p q left.0 right.1)
