-- ===== src/Tracker/Update/Unique.antt =====
-- tracks/byte_tracker.cc: no id stands twice among the tracked objects, frame after frame.
use rcdl.Common.{
  ℕ, ◌+◌, ◌≤◌, ◌<◌, ◌≡◌, refl, not, ◌&&◌, inl, inr, List, [], ◌∷◌, Option, none, some, length, ◌==◌,
  ap, sym, ◌∙◌, subst, if-both, if-cases, weigh, Result, arith,
}
use rcdl.Common.Family.{bit}
use rcdl.Tracker.Scalars.{Scalars}
use rcdl.Tracker.Cost.{Config}
use rcdl.Tracker.Boost.{Detection}
use rcdl.Tracker.Lists.{remove_duplicate_stracks}
use rcdl.Tracker.Lists.Ids.{
  All, All-append, with_id, joint-ids, joint-All, sub-All, keep_left-ids, keep_left-All,
  keep_right-All,
}
use rcdl.Tracker.Update.{Heap, Work}
use rcdl.Tracker.Update.Frame.{
  Input, id_in, keep_tracked, merged_tracked, merged_lost, is_close, lifetime, merge,
}
use rcdl.Tracker.Update.Ids.{Fine, predict_all-ids}
use rcdl.Tracker.Update.Steps.{associations-Fine}
use rcdl.Tracker.Update.Tracker.{
  State, Track, Error, confirmed, settled, track, tracked_or, update, emitted, latch, max_time_lost,
}
use rcdl.Tracker.Update.Members.{
  All-weaken, select-All, confirmed-All, unconfirmed-All, keep_tracked-All, keep_tracked-ids,
  same-ids, placed-id,
}

module _ (S : Scalars) where
  -- The lists hold objects that exist, place 0 is the null pointer, and no id is tracked twice.
  pub record Wellformed (s : State S) : Type 0 where
    pub not_null : 0 < s.next
    pub tracked_below : All (λ t. t < s.next) s.tracked
    pub lost_below : All (λ t. t < s.next) s.lost
    pub unique : (i : ℕ) → with_id (id_in S s.heap) i s.tracked ≤ 1

  settled-Wellformed :
      (cfg : Config S) (s : State S) (n : ℕ) (x : Input) (o : Option (Work S)) {s' : State S}
      → Wellformed s
      → x.tracked ≡ s.tracked
      → x.lost ≡ s.lost
      → ((w : Work S) → o ≡ some w → Fine S s.next (s.next + n) s.heap w)
      → settled S cfg s n x o ≡ some s'
      → Wellformed s'
  unfolding merge merged_tracked merged_lost remove_duplicate_stracks
  settled-Wellformed cfg s n x none h tr lo fine e = cc
  settled-Wellformed cfg s n x (some w) {s'} h tr lo fine e =
      let good = fine w refl in
      let old : (ts : List ℕ) → All (λ t. t < s.next) ts → All (λ t. t < s.next + n) ts =
        λ ts. All-weaken _ _ ts (λ t lt. omega (arith, lt)) in
      let tracked : All (λ t. t < s.next) x.tracked =
        subst (All (λ t. t < s.next)) (sym tr) h.tracked_below in
      let lost : All (λ t. t < s.next) x.lost =
        subst (All (λ t. t < s.next)) (sym lo) h.lost_below in
      let kept : (i : ℕ) → with_id (id_in S w.heap) i x.tracked ≤ 1 = λ i.
        subst (λ m. m ≤ 1) (sym (same-ids S s.heap w.heap s.next i x.tracked good.ids tracked))
          (subst (λ ts. with_id (id_in S s.heap) i ts ≤ 1) (sym tr) (h.unique i)) in
      subst Wellformed (state-injective e) (record {
        not_null = omega (arith, h.not_null);
        tracked_below = keep_left-All _ _ _ _ _ (
            joint-All (id_in S w.heap) _ _ w.refind
              (joint-All (id_in S w.heap) _ _ w.activated
                (keep_tracked-All S _ cfg s.frame_id w.heap x.tracked (old x.tracked tracked))
                good.activated)
              good.refind);
        lost_below = keep_right-All _ _ _ _ _ (
            sub-All (id_in S w.heap) _ _ w.removed_now (
              All-append _ _ w.lost_now (sub-All (id_in S w.heap) _ x.lost _ (old x.lost lost))
                good.lost_now));
        unique = λ i.
            let id : ℕ → ℕ = id_in S w.heap in
            let f : ℕ = s.frame_id in
            let first : with_id id i (keep_tracked S cfg f w.heap x.tracked) ≤ 1 =
              omega (arith, keep_tracked-ids S cfg f w.heap id i x.tracked, kept i) in
            let joined : with_id id i (merged_tracked S cfg f x w) ≤ 1 =
              joint-ids id i _ w.refind (joint-ids id i _ w.activated first) in
            omega (
              arith,
              joined,
              keep_left-ids id (is_close S cfg f w.heap) (lifetime S cfg f w.heap) i
                  (merged_tracked S cfg f x w)
                  (merged_lost S cfg f x w (merged_tracked S cfg f x w)),
            );
      })
    where
      state-injective : {v t : State S} → ◌≡◌ {A = Option (State S)} (some v) (some t) → v ≡ t
      state-injective e = cc

  track-Wellformed :
      (cfg : Config S) (dets : List (Detection S)) (embeddings : List (List S.F)) (s : State S)
      {s' : State S}
      → Wellformed s
      → track S cfg dets embeddings s ≡ some s'
      → Wellformed s'
  unfolding track
  track-Wellformed cfg dets embeddings s {s'} h e =
      let top : ℕ = s.next + length dets in
      let old : (ts : List ℕ) → All (λ t. t < s.next) ts → All (λ t. t < top) ts =
        λ ts. All-weaken _ _ ts (λ t lt. omega (arith, lt)) in
      settled-Wellformed cfg s (length dets) _ _ h refl refl
        (λ w got.
          associations-Fine S cfg s.frame_id s.next top s.heap (omega (arith, h.not_null))
            (max_time_lost S cfg) _ _
            (record {
              pool =
                  joint-All (id_in S s.heap) _ (confirmed S s.heap s.tracked) s.lost
                    (confirmed-All S _ s.heap s.tracked (old s.tracked h.tracked_below))
                    (old s.lost h.lost_below);
              unconfirmed = unconfirmed-All S _ s.heap s.tracked (old s.tracked h.tracked_below);
              high = select-All S _ _ s.next (length dets) 0 top (omega arith);
            })
            (record {
              ids =
                  λ k lt. placed-id S _ s.next (length dets) _ k lt ∙ predict_all-ids S _ s.heap k;
              activated = tt;
              refind = tt;
              lost_now = tt;
            })
            got)
        e

  pair-injective : {x y : State S × Result Error (Unit {0})} → some x ≡ some y → x ≡ y
  pair-injective e = cc

  same-state :
      {x s' : State S} {q r : Result Error (Unit {0})}
      → ◌≡◌ {A = Option (State S × Result Error (Unit {0}))} (some (x, q)) (some (s', r))
      → Wellformed x
      → Wellformed s'
  same-state e h = subst Wellformed (ap (λ q. q.0) (pair-injective e)) h

  tracked_or-Wellformed :
      (c : State S) (o : Option (State S)) {s' : State S} {r : Result Error (Unit {0})}
      → ((t : State S) → o ≡ some t → Wellformed t)
      → tracked_or S c o ≡ some (s', r)
      → Wellformed s'
  tracked_or-Wellformed c none h e = cc
  tracked_or-Wellformed c (some t) h e = same-state e (h t refl)

  -- How many of the tracks that a frame returns have the id `i`.
  abbrev pub returned : ℕ → List (Track S) → ℕ
  returned i = weigh (λ (t : Track S). bit (t.track_id == i))

  pub emitted-ids :
      (heap : Heap S) (i : ℕ) (ts : List ℕ)
      → returned i (emitted S heap ts) ≤ with_id (id_in S heap) i ts
  unfolding emitted
  emitted-ids heap i [] = omega arith
  emitted-ids heap i (t ∷ ts) =
      if-both (λ xs. returned i xs ≤ bit ((heap t).track_id == i) + with_id (id_in S heap) i ts)
        (heap t).is_activated (omega (arith, emitted-ids heap i ts))
        (omega (arith, emitted-ids heap i ts))

  pub update-Wellformed :
      (cfg : Config S) (dets : List (Detection S)) (embeddings : List (List S.F)) (s s' : State S)
      (r : Result Error (Unit {0}))
      → Wellformed s
      → update S cfg dets embeddings s ≡ some (s', r)
      → Wellformed s'
  unfolding update
  update-Wellformed cfg dets embeddings s s' r h e =
      elim (if-cases (not (length embeddings == 0) && not (length embeddings == length dets)) _ _
        e) [
          | inl (bad, e') ↦ same-state e' counted
          | inr (parallel, e') ↦ elim (if-cases (not (latch S embeddings s.embed_dim).1) _ _ e') [
            | inl (bad, e'') ↦ same-state e'' latched
            | inr (fine, e'') ↦
                tracked_or-Wellformed (record s { frame_id = s.frame_id + 1 }) _
                  (λ t got. track-Wellformed cfg dets embeddings _ latched got) e''
          ]
        ]
    where
      counted : Wellformed (record s { frame_id = s.frame_id + 1 })
      counted = record {
        not_null = h.not_null;
        tracked_below = h.tracked_below;
        lost_below = h.lost_below;
        unique = h.unique;
      }

      latched : {d : ℕ} → Wellformed (record s { frame_id = s.frame_id + 1; embed_dim = d })
      latched = record {
        not_null = h.not_null;
        tracked_below = h.tracked_below;
        lost_below = h.lost_below;
        unique = h.unique;
      }
