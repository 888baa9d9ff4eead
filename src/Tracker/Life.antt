-- ===== src/Tracker/Life.antt =====
-- tracks/byte_tracker.cc: how an STrack changes: prediction, activation, matches, camera motion; and
-- what is asked of its state.
use rcdl.Common.{ℕ, zero, suc, ◌+◌, ◌-◌, true, not, ◌||◌, ltb, ◌==◌, if◌then◌else◌}
use rcdl.Common.Int.{ℤ, pos, sub_ℕ, ltb_ℤ}
use rcdl.Tracker.Scalars.{Scalars, nat, lit, fmul, fadd}
use rcdl.Tracker.Kalman as Filter
use rcdl.Tracker.Kalman.{Gauss, Xyah, component, initiate, correct}
use rcdl.Tracker.Matrix.{Vec}
use rcdl.Tracker.Track.{
  tracked, lost, removed, is_tracked, STrack, Box, tlwh, tlbr, tlwh_to_xyah, update_features,
}

-- std::max(1, a - b)
unfoldable pub since : ℕ → ℕ → ℕ
since a b = if ltb (b + 1) a then a - b else 1

module _ (S : Scalars) where
  open S use {F}

  -- The element 7 is the velocity of the height.
  unfoldable pub predict : STrack S → STrack S
  predict t =
      let g : Gauss S =
        if is_tracked t.state
        then t.gauss
        else record t.gauss { mean = λ i. if i == 7 then nat S 0 else t.gauss.mean i } in
      record t { gauss = Filter.predict S g }

  unfoldable pub activate : ℕ → ℕ → STrack S → STrack S
  activate frame_id new_id t = record t {
    track_id = new_id;
    gauss = initiate S (tlwh_to_xyah S t.init);
    mean_set = true;
    tracklet_len = 0;
    state = tracked;
    is_activated = frame_id == 1;
    frame_id = frame_id;
    start_frame = frame_id;
    smooth_feat = t.curr_feat;
  }

  -- What `update` and `reActivate` share: the box, the features and the labels of the detection.
  abbrev pub absorb : STrack S → ℕ → F → STrack S → STrack S
  absorb det frame_id alpha t =
      let t' : STrack S = record t { gauss = correct S t.gauss (tlwh_to_xyah S (tlwh S det)) } in
      record (update_features S det.curr_feat alpha t') {
        state = tracked;
        is_activated = true;
        frame_id = frame_id;
        score = det.score;
        class_id = det.class_id;
      }

  unfoldable pub re_activate : STrack S → ℕ → F → STrack S → STrack S
  re_activate det frame_id alpha t = record (absorb det frame_id alpha t) { tracklet_len = 0 }

  unfoldable pub update : STrack S → ℕ → F → STrack S → STrack S
  update det frame_id alpha t = record (absorb det frame_id alpha t) {
    tracklet_len = t.tracklet_len + 1;
  }

  unfoldable pub mark_lost : STrack S → STrack S
  mark_lost t = record t { state = lost }

  unfoldable pub mark_removed : STrack S → STrack S
  mark_removed t = record t { state = removed }

  unfoldable pub confidence : ℕ → STrack S → F
  confidence frame_id t =
      let age : ℤ = sub_ℕ frame_id t.start_frame in
      if ltb_ℤ age (pos 7)
      then S.pow (lit S 9 10) (S.sub (nat S 7) (S.of_int age))
      else S.pow (lit S 9 10) (nat S (since frame_id t.frame_id - 1))

  -- The loop over the measured components, from `i` on.
  abbrev pub mahalanobis : STrack S → Xyah S → ℕ → ℕ → F → F
  mahalanobis t m zero i acc = if S.is_finite acc then acc else S.largest
  mahalanobis t m (suc k) i acc =
      let rest : F = mahalanobis t m k (suc i) (
        S.add acc (
          S.div
            (S.mul (S.sub (component S m i) (t.gauss.mean i))
              (S.sub (component S m i) (t.gauss.mean i)))
            (t.gauss.cov i i))) in
      if S.le (t.gauss.cov i i) (lit S 1 1_000_000_000_000) then S.largest else rest

  unfoldable pub mahalanobis_sq : Xyah S → STrack S → F
  mahalanobis_sq m t = if not t.mean_set then S.largest else mahalanobis t m 4 0 (nat S 0)

  -- The affine map, in the arithmetic of float, at a corner of the box.
  abbrev pub affine : Vec S → ℕ → F → F → F
  affine m row x y = fadd S (fadd S (fmul S (m row) x) (fmul S (m (row + 1)) y)) (m (row + 2))

  abbrev pub warp : F → F → F → F → STrack S → STrack S
  warp x1 y1 x2 y2 t =
      let w : F = S.sub x2 x1 in
      let h : F = S.sub y2 y1 in
      if S.le w (nat S 0) || S.le h (nat S 0) then t else record t {
        gauss = record t.gauss {
          mean = λ i.
              if i == 0
              then S.add x1 (S.div w (nat S 2))
              else if i == 1
              then S.add y1 (S.div h (nat S 2))
              else if i == 2
              then S.div w h
              else if i == 3
              then h
              else t.gauss.mean i;
        };
      }

  unfoldable pub camera_update : Vec S → STrack S → STrack S
  camera_update m t =
      let b : Box S = tlbr S t in
      if not t.mean_set
      then t
      else warp (affine m 0 b.x1 b.y1) (affine m 3 b.x1 b.y1) (affine m 0 b.x2 b.y2)
          (affine m 3 b.x2 b.y2) t
