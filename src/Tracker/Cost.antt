-- ===== src/Tracker/Cost.antt =====
-- tracks/byte_tracker.cc: the costs of matching a tracklet with a detection, and the similarities
-- that BoostTrack++ adds. A cost matrix, stored by rows, is a function of the row and the column.
use rcdl.Common.{ℕ, Bool, not, ◌&&◌, ◌||◌, List, [], ◌∷◌, length, ◌==◌, if◌then◌else◌}
use rcdl.Common.Int.{ℤ, leb_ℤ}
use rcdl.Common.Loops.{rounds}
use rcdl.Tracker.Scalars.{Scalars, max_of, min_of, nat, lit, float_lit, fadd, fsub, fmul, fdiv}
use rcdl.Tracker.Matrix.{Mat}
use rcdl.Tracker.Track.{STrack, Box, tlbr, is_empty}

module _ (S : Scalars) where
  open S use {F}

  pub record BoostConfig : Type 0 where
    pub rich_similarity : Bool
    pub soft_biou : Bool
    pub boost_detections : Bool
    pub lambda_iou : F
    pub lambda_mhd : F
    pub lambda_shape : F
    pub min_iou : F
    pub dlo_alpha : F
    pub vt_start : F
    pub vt_end : F
    pub vt_steps : ℤ
    pub duo : Bool
    pub duo_iou : F

  pub record Config : Type 0 where
    pub track_thresh : F
    pub high_thresh : F
    pub match_thresh : F
    pub track_buffer : ℤ
    pub frame_rate : ℤ
    pub proximity_thresh : F
    pub appearance_thresh : F
    pub ema_alpha : F
    pub boost : BoostConfig

  abbrev float0 : F
  float0 = float_lit S 0 1

  abbrev pub box_area : Box S → F
  box_area b = fmul S (max_of S float0 (fsub S b.x2 b.x1)) (max_of S float0 (fsub S b.y2 b.y1))

  -- rcdl::iou on two boxes.
  unfoldable pub box_iou : Box S → Box S → F
  box_iou a b =
      let iw : F = max_of S float0 (fsub S (min_of S a.x2 b.x2) (max_of S a.x1 b.x1)) in
      let ih : F = max_of S float0 (fsub S (min_of S a.y2 b.y2) (max_of S a.y1 b.y1)) in
      let inter : F = fmul S iw ih in
      let uni : F = fsub S (fadd S (box_area a) (box_area b)) inter in
      if S.lt float0 uni then fdiv S inter uni else float0

  abbrev pub Tracks : Type 0
  Tracks = ℕ → STrack S

  unfoldable pub iou_distance : Tracks → Tracks → Mat S
  iou_distance tracks dets i j = S.sub (nat S 1) (box_iou (tlbr S (tracks i)) (tlbr S (dets j)))

  unfoldable pub fuse_score : Mat S → Tracks → Mat S
  fuse_score cost dets i j = S.sub (nat S 1) (S.mul (S.sub (nat S 1) (cost i j)) (dets j).score)

  abbrev pub dot : List F → List F → F → F
  dot [] ys s = s
  dot (x ∷ xs) [] s = s
  dot (x ∷ xs) (y ∷ ys) s = dot xs ys (S.add s (S.mul x y))

  abbrev pub emb_dist : List F → List F → F
  emb_dist tf df = S.div (S.sub (nat S 1) (dot tf df (nat S 0))) (nat S 2)

  abbrev pub same_class : STrack S → STrack S → Bool
  same_class t d = leb_ℤ t.class_id d.class_id && leb_ℤ d.class_id t.class_id

  -- Whether a pair is left at its geometric cost.
  unfoldable pub no_appearance : Config → F → STrack S → STrack S → Bool
  no_appearance cfg raw t d =
      is_empty S t.smooth_feat
      || (is_empty S d.curr_feat || not (length d.curr_feat == length t.smooth_feat))
      || (not (same_class t d)
          || (S.lt cfg.proximity_thresh raw
              || S.lt cfg.appearance_thresh (emb_dist t.smooth_feat d.curr_feat)))

  unfoldable pub fuse_appearance : Config → Mat S → Mat S → Tracks → Tracks → Mat S
  fuse_appearance cfg cost raw tracks dets i j =
      if no_appearance cfg (raw i j) (tracks i) (dets j)
      then cost i j
      else min_of S (cost i j) (emb_dist (tracks i).smooth_feat (dets j).curr_feat)

  abbrev grown : F → F → F → F
  grown side slack k = S.mul (S.mul side slack) k

  -- Differences of the corners of a float box are float.
  unfoldable pub soft_biou : Box S → Box S → F → F
  soft_biou det trk track_conf =
      let slack : F = S.sub (nat S 1) track_conf in
      let dx : F = grown (fsub S det.x2 det.x1) slack (lit S 1 4) in
      let dy : F = grown (fsub S det.y2 det.y1) slack (lit S 1 4) in
      let tx : F = grown (fsub S trk.x2 trk.x1) slack (lit S 1 2) in
      let ty : F = grown (fsub S trk.y2 trk.y1) slack (lit S 1 2) in
      let ax1 : F = S.sub det.x1 dx in
      let ay1 : F = S.sub det.y1 dy in
      let ax2 : F = S.add det.x2 dx in
      let ay2 : F = S.add det.y2 dy in
      let bx1 : F = S.sub trk.x1 tx in
      let by1 : F = S.sub trk.y1 ty in
      let bx2 : F = S.add trk.x2 tx in
      let by2 : F = S.add trk.y2 ty in
      let w : F = max_of S (nat S 0) (S.sub (min_of S ax2 bx2) (max_of S ax1 bx1)) in
      let h : F = max_of S (nat S 0) (S.sub (min_of S ay2 by2) (max_of S ay1 by1)) in
      let inter : F = S.mul w h in
      let uni : F =
        S.sub
          (S.add (S.mul (S.sub ax2 ax1) (S.sub ay2 ay1)) (S.mul (S.sub bx2 bx1) (S.sub by2 by1)))
          inter in
      if S.lt (nat S 0) uni then S.div inter uni else nat S 0

  unfoldable pub shape_similarity : Box S → Box S → F
  shape_similarity det trk =
      let dw : F = fsub S det.x2 det.x1 in
      let dh : F = fsub S det.y2 det.y1 in
      let tw : F = fsub S trk.x2 trk.x1 in
      let th : F = fsub S trk.y2 trk.y1 in
      let mw : F = max_of S dw tw in
      let mh : F = max_of S dh th in
      if S.le mw (nat S 0) || S.le mh (nat S 0)
      then nat S 0
      else S.exp (S.neg (S.add (S.div (S.abs (S.sub dw tw)) mw) (S.div (S.abs (S.sub dh th)) mh)))

  abbrev pub mahalanobis_limit : F
  mahalanobis_limit = lit S 132_767 10_000

  abbrev pub column_sum : Mat S → ℕ → ℕ → F
  column_sum dist j r =
      rounds
        (λ i s.
          if S.le (dist i j) mahalanobis_limit
          then S.add s (S.exp (S.sub mahalanobis_limit (dist i j)))
          else s)
        r 0 (nat S 0)

  -- A softmax down each column of a matrix of `r` rows.
  unfoldable pub mahalanobis_similarity : Mat S → ℕ → Mat S
  mahalanobis_similarity dist r i j =
      if S.le (column_sum dist j r) (nat S 0) || not (S.le (dist i j) mahalanobis_limit)
      then nat S 0
      else S.div (S.exp (S.sub mahalanobis_limit (dist i j))) (column_sum dist j r)
