-- ===== src/Tracker/Track.antt =====
-- tracks/byte_tracker.cc: STrack, one tracklet or one detection on its way to become one.
use rcdl.Common.{ℕ, Bool, true, false, not, List, [], ◌∷◌, map, length, ◌==◌, if◌then◌else◌}
use rcdl.Common.Int.{ℤ}
use rcdl.Tracker.Scalars.{Scalars, nat, lit, fmul}
use rcdl.Tracker.Kalman.{Gauss, Xyah}

pub data TrackState : Type 0 where
  new tracked lost removed : TrackState

unfoldable pub is_tracked : TrackState → Bool
is_tracked tracked = true
is_tracked _ = false

unfoldable pub is_lost : TrackState → Bool
is_lost lost = true
is_lost _ = false

module _ (S : Scalars) where
  open S use {F}

  pub record Box : Type 0 where
    pub x1 : F
    pub y1 : F
    pub x2 : F
    pub y2 : F

  pub record Tlwh : Type 0 where
    pub x : F
    pub y : F
    pub w : F
    pub h : F

  pub record STrack : Type 0 where
    pub init : Tlwh
    pub gauss : Gauss S
    pub mean_set : Bool
    pub score : F
    pub class_id : ℤ
    pub curr_feat : List F
    pub smooth_feat : List F
    pub track_id : ℕ
    pub tracklet_len : ℕ
    pub frame_id : ℕ
    pub start_frame : ℕ
    pub is_activated : Bool
    pub state : TrackState

  abbrev pub sum_squares : List F → F → F
  sum_squares [] s = s
  sum_squares (x ∷ xs) s = sum_squares xs (S.add s (S.mul x x))

  unfoldable pub l2_normalize : List F → List F
  l2_normalize v =
      let norm : F = S.sqrt (sum_squares v (nat S 0)) in
      if S.le norm (nat S 0) then v else map (λ x. fmul S x (S.narrow (S.div (nat S 1) norm))) v

  unfoldable pub clamp_box_side : F → F
  clamp_box_side v = if S.lt (lit S 1 1000) v then v else lit S 1 1000

  -- The constructor.
  unfoldable pub candidate : F → F → F → F → F → ℤ → List F → STrack
  candidate x y w h score class_id feat = record {
    init = record { x = x; y = y; w = clamp_box_side w; h = clamp_box_side h };
    gauss = record { mean = λ i. nat S 0; cov = λ i j. nat S 0 };
    mean_set = false;
    score = score;
    class_id = class_id;
    curr_feat = l2_normalize feat;
    smooth_feat = [];
    track_id = 0;
    tracklet_len = 0;
    frame_id = 0;
    start_frame = 0;
    is_activated = false;
    state = new;
  }

  unfoldable pub tlwh : STrack → Tlwh
  tlwh t =
      if not t.mean_set
      then t.init
      else let w : F = S.mul (t.gauss.mean 2) (t.gauss.mean 3) in
        let h : F = t.gauss.mean 3 in
        record {
          x = S.sub (t.gauss.mean 0) (S.div w (nat S 2));
          y = S.sub (t.gauss.mean 1) (S.div h (nat S 2));
          w = w;
          h = h;
        }

  unfoldable pub tlbr : STrack → Box
  tlbr t =
      let b : Tlwh = tlwh t in
      record {
        x1 = S.narrow b.x;
        y1 = S.narrow b.y;
        x2 = S.narrow (S.add b.x b.w);
        y2 = S.narrow (S.add b.y b.h);
      }

  unfoldable pub tlwh_to_xyah : Tlwh → Xyah S
  tlwh_to_xyah t =
      let h : F = clamp_box_side t.h in
      record {
        cx = S.add t.x (S.div t.w (nat S 2));
        cy = S.add t.y (S.div h (nat S 2));
        a = S.div (clamp_box_side t.w) h;
        h = h;
      }

  abbrev pub blend : F → List F → List F → List F
  blend alpha [] ys = []
  blend alpha (x ∷ xs) [] = x ∷ xs
  blend alpha (x ∷ xs) (y ∷ ys) =
      S.narrow (S.add (S.mul alpha x) (S.mul (S.sub (nat S 1) alpha) y)) ∷ blend alpha xs ys

  abbrev pub is_empty : List F → Bool
  is_empty [] = true
  is_empty (x ∷ xs) = false

  unfoldable pub update_features : List F → F → STrack → STrack
  update_features feat alpha t =
      if is_empty feat
      then t
      else if not (length t.smooth_feat == length feat)
      then record t { curr_feat = feat; smooth_feat = feat }
      else record t {
        curr_feat = feat;
        smooth_feat = l2_normalize (blend alpha t.smooth_feat feat);
      }
