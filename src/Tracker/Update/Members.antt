-- ===== src/Tracker/Update/Members.antt =====
-- tracks/byte_tracker.cc: what the lists of a frame hold, and the ids that their objects keep.
use rcdl.Common.{
  ℕ, zero, suc, ◌+◌, ◌≤◌, ◌<◌, ◌≡◌, refl, Bool, true, ◌&&◌, List, [], ◌∷◌, ltb, leb, ◌==◌, ap,
  if-split, if-both, arith,
}
use rcdl.Common.Family.{bit}
use rcdl.Tracker.Scalars.{Scalars}
use rcdl.Tracker.Track.{STrack, is_tracked}
use rcdl.Tracker.Cost.{Config}
use rcdl.Tracker.Lists.Ids.{All, with_id}
use rcdl.Tracker.Update.{Heap}
use rcdl.Tracker.Update.Frame.{id_in, keep_tracked}
use rcdl.Tracker.Update.Tracker.{confirmed, unconfirmed, select, place_detections}

pub All-weaken : (P Q : ℕ → Type 0) (xs : List ℕ) → ((t : ℕ) → P t → Q t) → All P xs → All Q xs
All-weaken P Q [] more h = tt
All-weaken P Q (x ∷ xs) more h = (more x h.0, All-weaken P Q xs more h.1)

module _ (S : Scalars) where
  pub select-All :
      (test : S.F → Bool) (scores : ℕ → S.F) (next k i top : ℕ)
      → next + (i + k) ≤ top
      → All (λ t. (next ≤ t) × (t < top)) (select S test scores next k i)
  unfolding select
  select-All test scores next zero i top le = tt
  select-All test scores next (suc k) i top le =
      if-both (All (λ t. (next ≤ t) × (t < top))) (test (scores i))
        (
          (omega arith, omega (arith, le)),
          select-All test scores next k (suc i) top (omega (arith, le)),
        )
        (select-All test scores next k (suc i) top (omega (arith, le)))

  pub confirmed-All :
      (P : ℕ → Type 0) (heap : Heap S) (ts : List ℕ) → All P ts → All P (confirmed S heap ts)
  unfolding confirmed
  confirmed-All P heap [] h = h
  confirmed-All P heap (t ∷ ts) h =
      if-both (All P) (heap t).is_activated (h.0, confirmed-All P heap ts h.1)
        (confirmed-All P heap ts h.1)

  pub unconfirmed-All :
      (P : ℕ → Type 0) (heap : Heap S) (ts : List ℕ) → All P ts → All P (unconfirmed S heap ts)
  unfolding unconfirmed
  unconfirmed-All P heap [] h = h
  unconfirmed-All P heap (t ∷ ts) h =
      if-both (All P) (heap t).is_activated (unconfirmed-All P heap ts h.1)
        (h.0, unconfirmed-All P heap ts h.1)

  pub keep_tracked-All :
      (P : ℕ → Type 0) (cfg : Config S) (f : ℕ) (heap : Heap S) (ts : List ℕ)
      → All P ts
      → All P (keep_tracked S cfg f heap ts)
  unfolding keep_tracked
  keep_tracked-All P cfg f heap [] h = h
  keep_tracked-All P cfg f heap (t ∷ ts) h =
      if-both (All P) (is_tracked (heap t).state) (h.0, keep_tracked-All P cfg f heap ts h.1)
        (keep_tracked-All P cfg f heap ts h.1)

  pub keep_tracked-ids :
      (cfg : Config S) (f : ℕ) (heap : Heap S) (id : ℕ → ℕ) (i : ℕ) (ts : List ℕ)
      → with_id id i (keep_tracked S cfg f heap ts) ≤ with_id id i ts
  unfolding keep_tracked
  keep_tracked-ids cfg f heap id i [] = omega arith
  keep_tracked-ids cfg f heap id i (t ∷ ts) =
      if-both (λ xs. with_id id i xs ≤ bit (id t == i) + with_id id i ts)
        (is_tracked (heap t).state) (omega (arith, keep_tracked-ids cfg f heap id i ts))
        (omega (arith, keep_tracked-ids cfg f heap id i ts))

  pub same-ids :
      (heap heap' : Heap S) (next i : ℕ) (ts : List ℕ)
      → ((k : ℕ) → k < next → (heap' k).track_id ≡ (heap k).track_id)
      → All (λ t. t < next) ts
      → with_id (id_in S heap') i ts ≡ with_id (id_in S heap) i ts
  same-ids heap heap' next i [] same h = refl
  same-ids heap heap' next i (t ∷ ts) same h =
      let here : bit ((heap' t).track_id == i) ≡ bit ((heap t).track_id == i) =
        ap (λ id. bit (id == i)) (same t h.0) in
      omega (arith, here, same-ids heap heap' next i ts same h.1)

  pub placed-id :
      (heap : Heap S) (next n : ℕ) (made : ℕ → STrack S) (k : ℕ)
      → k < next
      → (place_detections S heap next n made k).track_id ≡ (heap k).track_id
  unfolding place_detections
  placed-id heap next n made k lt =
      if-split (λ (t : STrack S). t.track_id ≡ (heap k).track_id) (leb next k && ltb k (next + n))
        (λ y. absurd (too_early y)) (λ no. refl)
    where
      too_early : (leb next k && ltb k (next + n)) ≡ true → ⊥
      too_early y = ground (arith, y, lt)
