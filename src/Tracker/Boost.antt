-- ===== src/Tracker/Boost.antt =====
-- tracks/byte_tracker.cc: boostDetections and addBoostBonuses.
use rcdl.Common.{
  ℕ, zero, suc, ◌-◌, Bool, true, false, not, ◌&&◌, ◌||◌, List, [], ◌∷◌, ltb, ◌==◌, if◌then◌else◌,
}
use rcdl.Common.Int.{ℤ, pos, ltb_ℤ}
use rcdl.Common.Loops.{rounds}
use rcdl.Common.Family.{write}
use rcdl.Tracker.Scalars.{Scalars, max_of, min_of, nat, lit, float_lit, fadd, fsub, fmul, fdiv}
use rcdl.Tracker.Matrix.{Mat}
use rcdl.Tracker.Kalman.{Xyah}
use rcdl.Tracker.Track.{STrack, Box, tlbr, tlwh, tlwh_to_xyah}
use rcdl.Tracker.Life.{since, confidence, mahalanobis_sq}
use rcdl.Tracker.Cost.{
  BoostConfig, Config, Tracks, box_iou, soft_biou, shape_similarity, mahalanobis_limit,
  mahalanobis_similarity,
}

module _ (S : Scalars) where
  open S use {F}

  -- A Detection.
  pub record Detection : Type 0 where
    pub x1 : F
    pub y1 : F
    pub x2 : F
    pub y2 : F
    pub score : F
    pub class_id : ℤ

  abbrev pub box_of : Detection → Box S
  box_of d = record { x1 = d.x1; y1 = d.y1; x2 = d.x2; y2 = d.y2 }

  abbrev pub xyah_of : Detection → Xyah S
  xyah_of d =
      tlwh_to_xyah S (record { x = d.x1; y = d.y1; w = fsub S d.x2 d.x1; h = fsub S d.y2 d.y1 })

  -- The similarity of detection `i` and tracklet `j`, for `r` detections.
  unfoldable pub combined_similarity : (ℕ → Detection) → Tracks S → ℕ → ℕ → Mat S
  combined_similarity dets pool frame_id r i j =
      S.div
        (S.add
          (S.add
            (mahalanobis_similarity S (λ k l. mahalanobis_sq S (xyah_of (dets k)) (pool l)) r i j)
            (shape_similarity S (box_of (dets i)) (tlbr S (pool j))))
          (soft_biou S (box_of (dets i)) (tlbr S (pool j)) (confidence S frame_id (pool j))))
        (nat S 3)

  -- The threshold falls with the time that the tracklet went unmatched.
  abbrev pub varying : BoostConfig S → ℕ → STrack S → F
  varying b frame_id t =
      let steps : ℤ = if ltb_ℤ (pos 1) b.vt_steps then b.vt_steps else pos 1 in
      let step : F = fdiv S (fsub S b.vt_start b.vt_end) (S.narrow (S.of_int steps)) in
      max_of S (S.sub b.vt_start (S.mul (nat S (since frame_id t.frame_id - 1)) step)) b.vt_end

  -- The best similarity of a row, and whether a tracklet vouches for the detection.
  abbrev pub best_of : BoostConfig S → ℕ → Tracks S → (ℕ → F) → ℕ → F × Bool
  best_of b frame_id pool row c =
      rounds (λ j r. (max_of S r.0 (row j), r.1 || S.lt (varying b frame_id (pool j)) (row j))) c 0
        (nat S 0, false)

  unfoldable pub boosted : Config S → F → F × Bool → F
  boosted cfg score (best, vouched) =
      let soft : F =
        S.add (fmul S cfg.boost.dlo_alpha score)
          (S.mul (S.sub (nat S 1) cfg.boost.dlo_alpha) (S.pow best (lit S 3 2))) in
      let raised : F = S.narrow (max_of S score soft) in
      if vouched then max_of S raised (fadd S cfg.high_thresh (float_lit S 1 100_000)) else raised

  abbrev pub least_distance : Detection → Tracks S → ℕ → F
  least_distance d pool c =
      rounds (λ j m. min_of S m (mahalanobis_sq S (xyah_of d) (pool j))) c 0 S.largest

  -- A weak detection that no tracklet explains.
  abbrev pub is_candidate : Config S → (ℕ → Detection) → Tracks S → ℕ → (ℕ → F) → ℕ → Bool
  is_candidate cfg dets pool c scores i =
      not (S.le cfg.high_thresh (scores i))
      && S.lt (mahalanobis_limit S) (least_distance (dets i) pool c)

  abbrev pub candidates : (ℕ → Bool) → ℕ → ℕ → List ℕ
  candidates p zero i = []
  candidates p (suc k) i = if p i then i ∷ candidates p k (suc i) else candidates p k (suc i)

  -- Whether no other candidate of the cluster is stronger.
  abbrev pub best_of_cluster : Config S → (ℕ → Detection) → (ℕ → F) → ℕ → List ℕ → Bool
  best_of_cluster cfg dets scores a [] = true
  best_of_cluster cfg dets scores a (c ∷ cs) =
      let rest : Bool = best_of_cluster cfg dets scores a cs in
      if not (c == a)
        && (S.lt cfg.boost.duo_iou (box_iou S (box_of (dets a)) (box_of (dets c)))
            && (S.lt (scores a) (scores c) || (S.eq (scores c) (scores a) && ltb c a)))
      then false
      else rest

  -- The scores are raised in place, one candidate after the other.
  abbrev pub promote : Config S → (ℕ → Detection) → List ℕ → List ℕ → (ℕ → F) → ℕ → F
  promote cfg dets all [] scores = scores
  promote cfg dets all (a ∷ rest) scores = promote cfg dets all rest (
      if best_of_cluster cfg dets scores a all
      then write scores a (max_of S (scores a) (fadd S cfg.high_thresh (float_lit S 1 10_000)))
      else scores)

  -- Of `r` detections and `c` tracklets.
  unfoldable pub boost_detections :
      Config S → ℕ → (ℕ → Detection) → ℕ → Tracks S → ℕ → (ℕ → F) → ℕ → F
  boost_detections cfg frame_id dets r pool c scores =
      let raised : ℕ → F = λ i.
        boosted cfg (scores i)
          (best_of cfg.boost frame_id pool (combined_similarity dets pool frame_id r i) c) in
      let found : List ℕ = candidates (is_candidate cfg dets pool c raised) r 0 in
      if (r == 0) || (c == 0)
      then scores
      else if not cfg.boost.duo
      then raised
      else promote cfg dets found found raised

  -- The cost of tracklet `i` and detection `j`, of `c` detections.
  unfoldable pub add_boost_bonuses :
      BoostConfig S → ℕ → Mat S → Mat S → Tracks S → Tracks S → ℕ → Mat S
  add_boost_bonuses b frame_id cost raw tracks dets c i j =
      let mh : F =
        mahalanobis_similarity S
          (λ k l. mahalanobis_sq S (tlwh_to_xyah S (tlwh S (dets k))) (tracks l)) c j i in
      let overlap : F = S.sub (nat S 1) (raw i j) in
      let conf : F =
        if S.lt overlap b.min_iou
        then nat S 0
        else S.mul (confidence S frame_id (tracks i)) (dets j).score in
      S.sub (cost i j) (
        S.add (S.add (S.mul b.lambda_mhd mh) (S.mul (S.mul b.lambda_iou conf) overlap)) (
          S.mul (S.mul b.lambda_shape conf)
            (shape_similarity S (tlbr S (dets j)) (tlbr S (tracks i)))))
