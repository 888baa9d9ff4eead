-- ===== src/Tracker/Lists.antt =====
-- tracks/byte_tracker.cc: jointStracks, subStracks and removeDuplicateStracks. A shared pointer is
-- the number of its object; the functions are given what they read of an object, its id first.
pub mod Ids
pub mod Apart
use rcdl.Common.{ℕ, Bool, false, not, ◌||◌, List, [], ◌∷◌, ◌++◌, map, ◌==◌, if◌then◌else◌}
use rcdl.Common.Int.{ltb_ℤ, ℤ}

-- std::find, and the inner loop of subStracks.
unfoldable pub occurs : ℕ → List ℕ → Bool
occurs x [] = false
occurs x (y ∷ ys) = (y == x) || occurs x ys

module _ (id : ℕ → ℕ) where
  -- The second loop of jointStracks, with the ids seen so far.
  unfoldable pub join_unseen : List ℕ → List ℕ → List ℕ
  join_unseen seen [] = []
  join_unseen seen (t ∷ ts) =
      if occurs (id t) seen then join_unseen seen ts else t ∷ join_unseen (id t ∷ seen) ts

  unfoldable pub joint_stracks : List ℕ → List ℕ → List ℕ
  joint_stracks a b = a ++ join_unseen (map id a) b

  unfoldable pub sub_stracks : List ℕ → List ℕ → List ℕ
  sub_stracks [] b = []
  sub_stracks (t ∷ ts) b =
      if occurs (id t) (map id b) then sub_stracks ts b else t ∷ sub_stracks ts b

-- Two lists, of which `close p q` tells the near duplicates and `age` how long an object lived.
module _ (close : ℕ → ℕ → Bool) (age : ℕ → ℤ) where
  -- Whether `p` goes in favour of one of `qs`.
  unfoldable pub goes_left : ℕ → List ℕ → Bool
  goes_left p [] = false
  goes_left p (q ∷ qs) =
      (if close p q then not (ltb_ℤ (age q) (age p)) else false) || goes_left p qs

  unfoldable pub goes_right : List ℕ → ℕ → Bool
  goes_right [] q = false
  goes_right (p ∷ ps) q = (if close p q then ltb_ℤ (age q) (age p) else false) || goes_right ps q

  unfoldable pub keep_left : List ℕ → List ℕ → List ℕ
  keep_left [] b = []
  keep_left (p ∷ ps) b = if goes_left p b then keep_left ps b else p ∷ keep_left ps b

  unfoldable pub keep_right : List ℕ → List ℕ → List ℕ
  keep_right a [] = []
  keep_right a (q ∷ qs) = if goes_right a q then keep_right a qs else q ∷ keep_right a qs

  unfoldable pub remove_duplicate_stracks : List ℕ → List ℕ → List ℕ × List ℕ
  remove_duplicate_stracks a b = (keep_left a b, keep_right a b)
