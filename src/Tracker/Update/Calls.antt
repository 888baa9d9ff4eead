-- ===== src/Tracker/Update/Calls.antt =====
-- tracks/byte_tracker.h: a program's calls on one ByteTracker, and the ids that it is given.
use rcdl.Common.{
  ℕ, ◌≤◌, ◌≡◌, refl, List, [], ◌∷◌, Option, none, some, ◌∙◌, sym, if-both, not, ◌||◌, subst, arith,
  Result,
}
use rcdl.Tracker.Scalars.{Scalars, nat}
use rcdl.Tracker.Matrix.{Vec}
use rcdl.Tracker.Track.{STrack}
use rcdl.Tracker.Life.{camera_update, warp}
use rcdl.Tracker.Cost.{Config}
use rcdl.Tracker.Boost.{Detection}
use rcdl.Tracker.Update.{Heap}
use rcdl.Tracker.Update.Ids.{on_heap-id}
use rcdl.Tracker.Update.Tracker.{
  State, Error, update, reset, camera_all, apply_camera_motion, emitted,
}
use rcdl.Tracker.Update.Members.{same-ids}
use rcdl.Tracker.Update.Unique.{Wellformed, returned, emitted-ids, update-Wellformed}

module _ (S : Scalars) where
  pub data Call : Type 0 where
    frame : List (Detection S) → List (List S.F) → Call
    camera : Option (Vec S) → Call
    start_over : Call

  -- The state after a call, whether it threw or not.
  abbrev pub state_of : Option (State S × Result Error (Unit {0})) → Option (State S)
  state_of none = none
  state_of (some (s, r)) = some s

  unfoldable pub step : Config S → Call → State S → Option (State S)
  step cfg (frame dets embeddings) s = state_of (update S cfg dets embeddings s)
  step cfg (camera m) s = some (apply_camera_motion S m s)
  step cfg start_over s = some (reset S s)

  unfoldable pub run : Config S → List Call → Option (State S) → Option (State S)
  run cfg [] s = s
  run cfg (c ∷ cs) none = none
  run cfg (c ∷ cs) (some s) = run cfg cs (step cfg c s)

  warp-id : (x1 y1 x2 y2 : S.F) (u : STrack S) → (warp S x1 y1 x2 y2 u).track_id ≡ u.track_id
  warp-id x1 y1 x2 y2 u =
      if-both (λ (t : STrack S). t.track_id ≡ u.track_id)
        (S.le (S.sub x2 x1) (nat S 0) || S.le (S.sub y2 y1) (nat S 0)) refl refl

  camera_update-id : (m : Vec S) (u : STrack S) → (camera_update S m u).track_id ≡ u.track_id
  unfolding camera_update
  camera_update-id m u =
      if-both (λ (t : STrack S). t.track_id ≡ u.track_id) (not u.mean_set) refl (warp-id _ _ _ _ u)

  camera_all-ids :
      (m : Vec S) (ts : List ℕ) (heap : Heap S) (k : ℕ)
      → (camera_all S m ts heap k).track_id ≡ (heap k).track_id
  unfolding camera_all
  camera_all-ids m [] heap k = refl
  camera_all-ids m (t ∷ ts) heap k =
      camera_all-ids m ts _ k ∙ on_heap-id S (camera_update S m) t heap k (camera_update-id m)

  camera-Wellformed :
      (m : Option (Vec S)) (s : State S) → Wellformed S s → Wellformed S (apply_camera_motion S m s)
  unfolding apply_camera_motion
  camera-Wellformed none s h = h
  camera-Wellformed (some m) s h = record {
    not_null = h.not_null;
    tracked_below = h.tracked_below;
    lost_below = h.lost_below;
    unique = λ i.
        subst (λ n. n ≤ 1)
          (sym (
            same-ids S s.heap (camera_all S m s.lost (camera_all S m s.tracked s.heap)) s.next i
              s.tracked
              (λ k lt.
                camera_all-ids m s.lost (camera_all S m s.tracked s.heap) k
                ∙ camera_all-ids m s.tracked s.heap k)
              h.tracked_below))
          (h.unique i);
  }

  reset-Wellformed : (s : State S) → Wellformed S s → Wellformed S (reset S s)
  unfolding reset
  reset-Wellformed s h = record {
    not_null = h.not_null;
    tracked_below = tt;
    lost_below = tt;
    unique = λ i. omega arith;
  }

  state-injective : {v t : State S} → ◌≡◌ {A = Option (State S)} (some v) (some t) → v ≡ t
  state-injective e = cc

  state_of-Wellformed :
      (o : Option (State S × Result Error (Unit {0}))) {t : State S}
      → ((s : State S) (r : Result Error (Unit {0})) → o ≡ some (s, r) → Wellformed S s)
      → state_of o ≡ some t
      → Wellformed S t
  state_of-Wellformed none h e = cc
  state_of-Wellformed (some (s, r)) {t} h e = subst (Wellformed S) (state-injective e) (h s r refl)

  step-Wellformed :
      (cfg : Config S) (c : Call) (s : State S) {t : State S}
      → Wellformed S s
      → step cfg c s ≡ some t
      → Wellformed S t
  unfolding step
  step-Wellformed cfg (frame dets embeddings) s h e =
      state_of-Wellformed _ (λ t r got. update-Wellformed S cfg dets embeddings s t r h got) e
  step-Wellformed cfg (camera m) s h e =
      subst (Wellformed S) (state-injective e) (camera-Wellformed m s h)
  step-Wellformed cfg start_over s h e =
      subst (Wellformed S) (state-injective e) (reset-Wellformed s h)

  run-Wellformed :
      (cfg : Config S) (cs : List Call) (o : Option (State S)) {t : State S}
      → ((s : State S) → o ≡ some s → Wellformed S s)
      → run cfg cs o ≡ some t
      → Wellformed S t
  unfolding run
  run-Wellformed cfg [] o h e = h _ e
  run-Wellformed cfg (c ∷ cs) none h e = cc
  run-Wellformed cfg (c ∷ cs) (some s) h e =
      run-Wellformed cfg cs _ (λ t got. step-Wellformed cfg c s (h s refl) got) e

-- From a well-formed state, after any frames, camera motions and resets, calls that throw included,
-- the state is well-formed: the tracked and the lost list hold objects that exist and no id is
-- tracked twice; and so no id stands twice in what the last frame returns.
pub run_unique :
    (S : Scalars) (cfg : Config S) (cs : List (Call S)) (s t : State S)
    → Wellformed S s
    → run S cfg cs (some s) ≡ some t
    → Wellformed S t × ((i : ℕ) → returned S i (emitted S t.heap t.tracked) ≤ 1)
run_unique S cfg cs s t h e =
    let good : Wellformed S t =
      run-Wellformed S cfg cs (some s) (λ x q. subst (Wellformed S) (state-injective S q) h) e in
    (good, λ i. omega (arith, good.unique i, emitted-ids S t.heap i t.tracked))
