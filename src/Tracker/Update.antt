-- ===== src/Tracker/Update.antt =====
-- tracks/byte_tracker.cc: ByteTracker::Impl, frame by frame. The STracks stand in a heap, and a
-- shared pointer is the number of its place there: a change through one list shows in all of them.
pub mod Ids
pub mod Steps
pub mod Members
pub mod Unique
pub mod Calls
pub mod Frame
pub mod Tracker
use rcdl.Common.{
  ℕ, zero, suc, ◌+◌, ◌-◌, Bool, true, false, not, ◌&&◌, ◌||◌, List, [], ◌∷◌, ◌++◌, Option, none,
  some, map, length, ltb, ◌==◌, if◌then◌else◌,
}
use rcdl.Common.Int.{ℤ, pos, negsuc, sub_ℕ, ltb_ℤ}
use rcdl.Common.Family.{write}
use rcdl.Tracker.Scalars.{Scalars, max_of, min_of, nat, lit}
use rcdl.Tracker.Track.{STrack, TrackState, is_tracked, is_lost}
use rcdl.Tracker.Life.{predict, activate, re_activate, update, mark_lost, mark_removed}
use rcdl.Tracker.Cost.{Config, Tracks}
use rcdl.Tracker.Solver.{Assignment}

-- `xs[i]`; indices out of range are not read.
unfoldable pub nth : List ℕ → ℕ → ℕ
nth [] i = 0
nth (x ∷ xs) zero = x
nth (x ∷ xs) (suc i) = nth xs i

module _ (S : Scalars) where
  open S use {F}

  abbrev pub Heap : Type 0
  Heap = ℕ → STrack S

  -- The heap, the ids that are given out, and the four lists of one frame.
  pub record Work : Type 0 where
    pub heap : Heap
    pub id_count : ℕ
    pub activated : List ℕ
    pub refind : List ℕ
    pub lost_now : List ℕ
    pub removed_now : List ℕ

  -- `t->change(...)`
  abbrev pub on_heap : (STrack S → STrack S) → ℕ → Heap → Heap
  on_heap change t heap = write heap t (change (heap t))

  unfoldable pub predict_all : List ℕ → Heap → Heap
  predict_all [] heap = heap
  predict_all (t ∷ ts) heap = predict_all ts (on_heap (predict S) t heap)

  -- emaAlpha
  unfoldable pub ema_alpha : Config S → F → F
  ema_alpha cfg score =
      let span : F = S.sub (nat S 1) cfg.track_thresh in
      let trust : F =
        if S.lt (lit S 1 1_000_000) span
        then S.div (S.sub score cfg.track_thresh) span
        else nat S 1 in
      -- std::clamp
      let clamped : F =
        if S.lt trust (nat S 0) then nat S 0 else if S.lt (nat S 1) trust then nat S 1 else trust in
      S.add cfg.ema_alpha (S.mul (S.sub (nat S 1) cfg.ema_alpha) (S.sub (nat S 1) clamped))

  -- A match of the first and of the second association.
  unfoldable pub associate : Config S → ℕ → ℕ → ℕ → Work → Work
  associate cfg frame_id t d w =
      let alpha : F = ema_alpha cfg (w.heap d).score in
      if is_tracked (w.heap t).state
      then record w {
        heap = on_heap (update S (w.heap d) frame_id alpha) t w.heap;
        activated = w.activated ++ t ∷ [];
      }
      else record w {
        heap = on_heap (re_activate S (w.heap d) frame_id alpha) t w.heap;
        refind = w.refind ++ t ∷ [];
      }

  unfoldable pub associate_all : Config S → ℕ → List ℕ → List ℕ → List (ℕ × ℕ) → Work → Work
  associate_all cfg frame_id tracks dets [] w = w
  associate_all cfg frame_id tracks dets ((i, j) ∷ ms) w =
      associate_all cfg frame_id tracks dets ms
        (associate cfg frame_id (nth tracks i) (nth dets j) w)

  -- The rows that are still tracked.
  unfoldable pub still_tracked : Heap → List ℕ → List ℕ → List ℕ
  still_tracked heap pool [] = []
  still_tracked heap pool (i ∷ is) =
      if is_tracked (heap (nth pool i)).state
      then nth pool i ∷ still_tracked heap pool is
      else still_tracked heap pool is

  unfoldable pub lose : ℕ → Work → Work
  lose t w =
      if is_lost (w.heap t).state
      then w
      else record w { heap = on_heap (mark_lost S) t w.heap; lost_now = w.lost_now ++ t ∷ [] }

  unfoldable pub lose_all : List ℕ → List ℕ → Work → Work
  lose_all tracks [] w = w
  lose_all tracks (i ∷ is) w = lose_all tracks is (lose (nth tracks i) w)

  -- A match of an unconfirmed track.
  unfoldable pub confirm : Config S → ℕ → ℕ → ℕ → Work → Work
  confirm cfg frame_id t d w =
      let alpha : F = ema_alpha cfg (w.heap d).score in
      record w {
        heap = on_heap (update S (w.heap d) frame_id alpha) t w.heap;
        activated = w.activated ++ t ∷ [];
      }

  unfoldable pub confirm_all : Config S → ℕ → List ℕ → List ℕ → List (ℕ × ℕ) → Work → Work
  confirm_all cfg frame_id tracks dets [] w = w
  confirm_all cfg frame_id tracks dets ((i, j) ∷ ms) w =
      confirm_all cfg frame_id tracks dets ms (confirm cfg frame_id (nth tracks i) (nth dets j) w)

  unfoldable pub discard : ℕ → Work → Work
  discard t w = record w {
    heap = on_heap (mark_removed S) t w.heap;
    removed_now = w.removed_now ++ t ∷ [];
  }

  unfoldable pub discard_all : List ℕ → List ℕ → Work → Work
  discard_all tracks [] w = w
  discard_all tracks (i ∷ is) w = discard_all tracks is (discard (nth tracks i) w)

  -- A detection that becomes a track, with the next id.
  unfoldable pub spawn : Config S → ℕ → ℕ → Work → Work
  spawn cfg frame_id d w = if S.lt (w.heap d).score cfg.high_thresh then w else record w {
    heap = on_heap (activate S frame_id (w.id_count + 1)) d w.heap;
    id_count = w.id_count + 1;
    activated = w.activated ++ d ∷ [];
  }

  unfoldable pub spawn_all : Config S → ℕ → List ℕ → List ℕ → Work → Work
  spawn_all cfg frame_id dets [] w = w
  spawn_all cfg frame_id dets (j ∷ js) w =
      spawn_all cfg frame_id dets js (spawn cfg frame_id (nth dets j) w)

  -- A lost track that the recovery buffer does not hold any longer.
  unfoldable pub expire : ℤ → ℕ → ℕ → Work → Work
  expire max_time_lost frame_id t w =
      if ltb_ℤ max_time_lost (sub_ℕ frame_id (w.heap t).frame_id) then discard t w else w

  unfoldable pub expire_all : ℤ → ℕ → List ℕ → Work → Work
  expire_all max_time_lost frame_id [] w = w
  expire_all max_time_lost frame_id (t ∷ ts) w =
      expire_all max_time_lost frame_id ts (expire max_time_lost frame_id t w)
