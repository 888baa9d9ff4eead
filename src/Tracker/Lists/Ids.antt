-- ===== src/Tracker/Lists/Ids.antt =====
-- tracks/byte_tracker.cc: the ids in the lists of tracks, as jointStracks, subStracks and
-- removeDuplicateStracks leave them.
use rcdl.Common.{
  ℕ, ◌+◌, ◌≤◌, ◌≡◌, refl, Bool, false, Bool-cases, inl, inr, List, [], ◌∷◌, ◌++◌, map, ltb, ◌==◌,
  ==_iff, subst, if-split, if-both, weigh, weigh-append, arith,
}
use rcdl.Common.Int.{ℤ}
use rcdl.Common.Family.{bit}
use rcdl.Tracker.Lists.{
  occurs, join_unseen, joint_stracks, sub_stracks, goes_left, goes_right, keep_left, keep_right,
}

abbrev pub All : (ℕ → Type 0) → List ℕ → Type 0
All P [] = Unit
All P (x ∷ xs) = P x × All P xs

pub All-append : (P : ℕ → Type 0) (xs ys : List ℕ) → All P xs → All P ys → All P (xs ++ ys)
All-append P [] ys h k = k
All-append P (x ∷ xs) ys h k = (h.0, All-append P xs ys h.1 k)

-- How many objects of a list have the id `i`.
abbrev pub with_id : (ℕ → ℕ) → ℕ → List ℕ → ℕ
with_id id i = weigh (λ t. bit (id t == i))

module _ (id : ℕ → ℕ) where
  occurs-map : (i : ℕ) (a : List ℕ) → occurs i (map id a) ≡ ltb 0 (with_id id i a)
  unfolding occurs
  occurs-map i [] = refl
  occurs-map i (t ∷ ts) = ground (arith, occurs-map i ts)

  join_unseen-ids :
      (i : ℕ) (seen b : List ℕ) → with_id id i (join_unseen id seen b) + bit (occurs i seen) ≤ 1
  unfolding join_unseen occurs
  join_unseen-ids i seen [] = ground arith
  join_unseen-ids i seen (t ∷ ts) =
      if-split (λ xs. with_id id i xs + bit (occurs i seen) ≤ 1) (occurs (id t) seen)
        (λ y. join_unseen-ids i seen ts)
        (λ n.
          let rest = join_unseen-ids i (id t ∷ seen) ts in
          elim (Bool-cases (id t == i)) [
            | inl e ↦
                let absent : occurs i seen ≡ false =
                  subst (λ k. occurs k seen ≡ false) ((==_iff (id t) i).0 e) n in
                ground (arith, rest, e, absent)
            | inr e ↦ ground (arith, rest, e)
          ])

  -- No id stands twice in the join, if none does in the first list.
  pub joint-ids :
      (i : ℕ) (a b : List ℕ) → with_id id i a ≤ 1 → with_id id i (joint_stracks id a b) ≤ 1
  unfolding joint_stracks
  joint-ids i a b h = ground (
    arith,
    h,
    weigh-append (λ t. bit (id t == i)) a (join_unseen id (map id a) b),
    join_unseen-ids i (map id a) b,
    occurs-map i a,
  )

  join_unseen-All : (P : ℕ → Type 0) (seen b : List ℕ) → All P b → All P (join_unseen id seen b)
  unfolding join_unseen
  join_unseen-All P seen [] h = h
  join_unseen-All P seen (t ∷ ts) h =
      if-both (All P) (occurs (id t) seen) (join_unseen-All P seen ts h.1)
        (h.0, join_unseen-All P (id t ∷ seen) ts h.1)

  pub joint-All : (P : ℕ → Type 0) (a b : List ℕ) → All P a → All P b → All P (joint_stracks id a b)
  unfolding joint_stracks
  joint-All P a b h k = All-append P a _ h (join_unseen-All P (map id a) b k)

  pub sub-All : (P : ℕ → Type 0) (a b : List ℕ) → All P a → All P (sub_stracks id a b)
  unfolding sub_stracks
  sub-All P [] b h = h
  sub-All P (t ∷ ts) b h =
      if-both (All P) (occurs (id t) (map id b)) (sub-All P ts b h.1) (h.0, sub-All P ts b h.1)

  pub keep_left-ids :
      (close : ℕ → ℕ → Bool) (age : ℕ → ℤ) (i : ℕ) (a b : List ℕ)
      → with_id id i (keep_left close age a b) ≤ with_id id i a
  unfolding keep_left
  keep_left-ids close age i [] b = omega arith
  keep_left-ids close age i (p ∷ ps) b =
      if-both (λ xs. with_id id i xs ≤ bit (id p == i) + with_id id i ps) (goes_left close age p b)
        (omega (arith, keep_left-ids close age i ps b))
        (omega (arith, keep_left-ids close age i ps b))

pub keep_left-All :
    (close : ℕ → ℕ → Bool) (age : ℕ → ℤ) (P : ℕ → Type 0) (a b : List ℕ)
    → All P a
    → All P (keep_left close age a b)
unfolding keep_left
keep_left-All close age P [] b h = h
keep_left-All close age P (p ∷ ps) b h =
    if-both (All P) (goes_left close age p b) (keep_left-All close age P ps b h.1)
      (h.0, keep_left-All close age P ps b h.1)

pub keep_right-All :
    (close : ℕ → ℕ → Bool) (age : ℕ → ℤ) (P : ℕ → Type 0) (a b : List ℕ)
    → All P b
    → All P (keep_right close age a b)
unfolding keep_right
keep_right-All close age P a [] h = h
keep_right-All close age P a (q ∷ qs) h =
    if-both (All P) (goes_right close age a q) (keep_right-All close age P a qs h.1)
      (h.0, keep_right-All close age P a qs h.1)
