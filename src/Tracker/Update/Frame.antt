-- ===== src/Tracker/Update/Frame.antt =====
-- tracks/byte_tracker.cc: the associations of one frame, in the order of ByteTracker::Impl::update.
use rcdl.Common.{ℕ, Bool, not, List, [], ◌∷◌, ◌++◌, Option, none, some, map, length, if◌then◌else◌}
use rcdl.Common.Int.{ℤ, sub_ℕ}
use rcdl.Tracker.Scalars.{Scalars, nat, lit}
use rcdl.Tracker.Matrix.{Mat}
use rcdl.Tracker.Track.{tlbr, is_tracked}
use rcdl.Tracker.Life.{confidence}
use rcdl.Tracker.Cost.{Config, Tracks, iou_distance, fuse_score, fuse_appearance, soft_biou}
use rcdl.Tracker.Boost.{add_boost_bonuses}
use rcdl.Tracker.Solver.{Assignment}
use rcdl.Tracker.Solver.Gate.{unused, linear_assignment, Kept, keep, no_match}
use rcdl.Tracker.Lists.{joint_stracks, sub_stracks, remove_duplicate_stracks}
use rcdl.Tracker.Update.{
  nth, Heap, Work, associate_all, still_tracked, lose_all, confirm_all, discard_all, spawn_all,
  expire_all,
}

-- What the frame works on.
pub record Input : Type 0 where
  pub has_embeddings : Bool
  pub tracked : List ℕ
  pub lost : List ℕ
  pub pool : List ℕ
  pub unconfirmed : List ℕ
  pub high : List ℕ
  pub low : List ℕ

module _ (S : Scalars) where
  abbrev pub at_heap : Heap S → List ℕ → Tracks S
  at_heap heap xs i = heap (nth xs i)

  abbrev pub id_in : Heap S → ℕ → ℕ
  id_in heap t = (heap t).track_id

module _ (S : Scalars) (cfg : Config S) (frame_id : ℕ) where
  -- The cost of the first association.
  unfoldable pub first_cost : Bool → ℕ → Tracks S → Tracks S → Mat S
  first_cost has_embeddings c tracks dets =
      let raw : Mat S = iou_distance S tracks dets in
      let base : Mat S =
        if cfg.boost.soft_biou
        then (λ i j.
            S.sub (nat S 1) (
              soft_biou S (tlbr S (dets j)) (tlbr S (tracks i)) (confidence S frame_id (tracks i))))
        else raw in
      let scored : Mat S = fuse_score S base dets in
      let fused : Mat S =
        if has_embeddings then fuse_appearance S cfg scored raw tracks dets else scored in
      if cfg.boost.rich_similarity
      then add_boost_bonuses S cfg.boost frame_id fused raw tracks dets c
      else fused

  -- The matches whose raw overlap is enough.
  unfoldable pub recheck_matches : Mat S → List (ℕ × ℕ) → Kept
  recheck_matches raw [] = no_match
  recheck_matches raw ((i, j) ∷ ms) =
      let rest : Kept = recheck_matches raw ms in
      if S.le cfg.boost.min_iou (S.sub (nat S 1) (raw i j)) then keep rest i j else rest

  abbrev pub rechecked : Kept → ℕ → ℕ → Assignment
  rechecked k r c = record {
    matches = k.matches;
    u_rows = unused k.row_used r 0;
    u_cols = unused k.col_used c 0;
  }

  unfoldable pub recheck : Mat S → ℕ → ℕ → Assignment → Assignment
  recheck raw r c a =
      if cfg.boost.rich_similarity then rechecked (recheck_matches raw a.matches) r c else a

  unfoldable pub first_association : Input → Heap S → Option Assignment
  first_association x heap =
      elim (linear_assignment S
        (first_cost x.has_embeddings (length x.high) (at_heap S heap x.pool)
          (at_heap S heap x.high))
        (length x.pool) (length x.high) cfg.match_thresh) [
          | none ↦ none
          | some a ↦ some (
              recheck (iou_distance S (at_heap S heap x.pool) (at_heap S heap x.high))
                (length x.pool) (length x.high) a)
        ]

  unfoldable pub second_association : List ℕ → Input → Heap S → Option Assignment
  second_association r_tracked x heap =
      linear_assignment S (iou_distance S (at_heap S heap r_tracked) (at_heap S heap x.low))
        (length r_tracked) (length x.low) (lit S 1 2)

  unfoldable pub third_association : List ℕ → Input → Heap S → Option Assignment
  third_association det_left x heap =
      let tracks : Tracks S = at_heap S heap x.unconfirmed in
      let dets : Tracks S = at_heap S heap det_left in
      let raw : Mat S = iou_distance S tracks dets in
      let scored : Mat S = fuse_score S raw dets in
      linear_assignment S
        (if x.has_embeddings then fuse_appearance S cfg scored raw tracks dets else scored)
        (length x.unconfirmed) (length det_left) (lit S 7 10)

  -- Step 2.
  abbrev pub settle_first : Input → Assignment → Work S → Work S
  settle_first x a w = associate_all S cfg frame_id x.pool x.high a.matches w

  -- Step 3.
  abbrev pub settle_second : List ℕ → Input → Assignment → Work S → Work S
  settle_second r_tracked x a w =
      lose_all S r_tracked a.u_rows (associate_all S cfg frame_id r_tracked x.low a.matches w)

  -- The unconfirmed tracks, step 4 and step 5.
  abbrev pub settle_third : ℤ → List ℕ → Input → Assignment → Work S → Work S
  settle_third max_time_lost det_left x a w = expire_all S max_time_lost frame_id x.lost (
      spawn_all S cfg frame_id det_left a.u_cols (
        discard_all S x.unconfirmed a.u_rows
          (confirm_all S cfg frame_id x.unconfirmed det_left a.matches w)))

  abbrev pub left_over : List ℕ → List ℕ → List ℕ
  left_over high u_cols = map (nth high) u_cols

  abbrev pub after_third : ℤ → List ℕ → Input → Work S → Option Assignment → Option (Work S)
  after_third max_time_lost det_left x w none = none
  after_third max_time_lost det_left x w (some a) = some (settle_third max_time_lost det_left x a w)

  abbrev pub after_second :
      ℤ → List ℕ → List ℕ → Input → Work S → Option Assignment → Option (Work S)
  after_second max_time_lost r_tracked det_left x w none = none
  after_second max_time_lost r_tracked det_left x w (some a) =
      let w' : Work S = settle_second r_tracked x a w in
      after_third max_time_lost det_left x w' (third_association det_left x w'.heap)

  abbrev pub after_first : ℤ → Input → Work S → Option Assignment → Option (Work S)
  after_first max_time_lost x w none = none
  after_first max_time_lost x w (some a) =
      let w' : Work S = settle_first x a w in
      let r_tracked : List ℕ = still_tracked S w'.heap x.pool a.u_rows in
      after_second max_time_lost r_tracked (left_over x.high a.u_cols) x w'
        (second_association r_tracked x w'.heap)

  unfoldable pub associations : ℤ → Input → Work S → Option (Work S)
  associations max_time_lost x w = after_first max_time_lost x w (first_association x w.heap)

  -- The tracked objects that still are, in the heap at the end.
  unfoldable pub keep_tracked : Heap S → List ℕ → List ℕ
  keep_tracked heap [] = []
  keep_tracked heap (t ∷ ts) =
      if is_tracked (heap t).state then t ∷ keep_tracked heap ts else keep_tracked heap ts

  unfoldable pub merged_tracked : Input → Work S → List ℕ
  merged_tracked x w =
      joint_stracks (id_in S w.heap)
        (joint_stracks (id_in S w.heap) (keep_tracked w.heap x.tracked) w.activated) w.refind

  unfoldable pub merged_lost : Input → Work S → List ℕ → List ℕ
  merged_lost x w new_tracked =
      sub_stracks (id_in S w.heap) (sub_stracks (id_in S w.heap) x.lost new_tracked ++ w.lost_now)
        w.removed_now

  -- An IoU distance that is not at least 0.15.
  abbrev pub is_close : Heap S → ℕ → ℕ → Bool
  is_close heap p q = not (S.le (lit S 15 100) (iou_distance S heap heap p q))

  abbrev pub lifetime : Heap S → ℕ → ℤ
  lifetime heap t = sub_ℕ (heap t).frame_id (heap t).start_frame

  -- The lists that stay: tracked and lost.
  unfoldable pub merge : Input → Work S → List ℕ × List ℕ
  merge x w =
      let new_tracked : List ℕ = merged_tracked x w in
      remove_duplicate_stracks (is_close w.heap) (lifetime w.heap) new_tracked
        (merged_lost x w new_tracked)
