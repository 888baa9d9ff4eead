-- ===== src/Tracker/Update/Tracker.antt =====
-- tracks/byte_tracker.cc: ByteTracker and its Impl: a tracker, one frame, reset and camera motion.
use rcdl.Common.{
  ℕ, zero, suc, ◌+◌, ◌-◌, Bool, true, false, not, ◌&&◌, ◌||◌, List, [], ◌∷◌, Option, none, some,
  length, ltb, leb, ◌==◌, if◌then◌else◌, Result, ok, err,
}
use rcdl.Common.Int.{ℤ, pos, leb_ℤ}
use rcdl.Tracker.Scalars.{Scalars, nat, float_lit, fsub}
use rcdl.Tracker.Matrix.{Vec}
use rcdl.Tracker.Track.{STrack, Box, candidate, tlbr}
use rcdl.Tracker.Life.{camera_update}
use rcdl.Tracker.Cost.{Config}
use rcdl.Tracker.Boost.{Detection, boost_detections}
use rcdl.Tracker.Lists.{joint_stracks}
use rcdl.Tracker.Update.{Heap, Work, on_heap, predict_all}
use rcdl.Tracker.Update.Frame.{Input, associations, merge, at_heap, id_in}

pub data Error : Type 0 where
  not_parallel width_changed bad_frame_rate bad_ema_alpha : Error

module _ (S : Scalars) where
  open S use {F}

  -- Objects from `next` on do not exist yet.
  pub record State : Type 0 where
    pub heap : Heap S
    pub next : ℕ
    pub tracked : List ℕ
    pub lost : List ℕ
    pub frame_id : ℕ
    pub id_count : ℕ
    pub embed_dim : ℕ

  -- Impl(cfg): max_time_lost.
  unfoldable pub max_time_lost : Config S → ℤ
  max_time_lost cfg =
      S.lround (S.mul (S.div (S.of_int cfg.frame_rate) (nat S 30)) (S.of_int cfg.track_buffer))

  -- The checks of the constructor.
  unfoldable pub check_config : Config S → Option Error
  check_config cfg =
      if leb_ℤ cfg.frame_rate (pos 0)
      then some bad_frame_rate
      else if S.lt cfg.ema_alpha (float_lit S 0 1) || S.lt (float_lit S 1 1) cfg.ema_alpha
      then some bad_ema_alpha
      else none

  unfoldable pub reset : State → State
  reset s = record s { tracked = []; lost = []; frame_id = 0; id_count = 0; embed_dim = 0 }

  -- The widths of the embeddings, against the width that is latched; whether all agree.
  unfoldable pub latch : List (List F) → ℕ → ℕ × Bool
  latch [] d = (d, true)
  latch ([] ∷ es) d = latch es d
  latch ((x ∷ xs) ∷ es) d =
      let n : ℕ = length (x ∷ xs) in
      let d' : ℕ = if d == 0 then n else d in if n == d' then latch es d' else (d', false)

  unfoldable pub confirmed : Heap S → List ℕ → List ℕ
  confirmed heap [] = []
  confirmed heap (t ∷ ts) =
      if (heap t).is_activated then t ∷ confirmed heap ts else confirmed heap ts

  unfoldable pub unconfirmed : Heap S → List ℕ → List ℕ
  unconfirmed heap [] = []
  unconfirmed heap (t ∷ ts) =
      if (heap t).is_activated then unconfirmed heap ts else t ∷ unconfirmed heap ts

  abbrev pub feature_at : List (List F) → ℕ → List F
  feature_at [] i = []
  feature_at (e ∷ es) zero = e
  feature_at (e ∷ es) (suc i) = feature_at es i

  unfoldable pub make_strack : (ℕ → Detection S) → (ℕ → F) → List (List F) → ℕ → STrack S
  make_strack dets scores embeddings i =
      let d : Detection S = dets i in
      candidate S d.x1 d.y1 (fsub S d.x2 d.x1) (fsub S d.y2 d.y1) (scores i) d.class_id
        (feature_at embeddings i)

  -- The object of detection `i` is the one at `next + i`; one that no list has is never read.
  unfoldable pub place_detections : Heap S → ℕ → ℕ → (ℕ → STrack S) → Heap S
  place_detections heap next n made p =
      if leb next p && ltb p (next + n) then made (p - next) else heap p

  -- The pointers of the detections that pass a test, from `i` on.
  unfoldable pub select : (F → Bool) → (ℕ → F) → ℕ → ℕ → ℕ → List ℕ
  select test scores next zero i = []
  select test scores next (suc k) i =
      if test (scores i)
      then (next + i) ∷ select test scores next k (suc i)
      else select test scores next k (suc i)

  abbrev pub is_high : Config S → F → Bool
  is_high cfg score = S.lt cfg.track_thresh score

  abbrev pub is_low : Config S → F → Bool
  is_low cfg score = not (S.lt cfg.track_thresh score) && S.lt (float_lit S 1 10) score

  abbrev pub detection_at : List (Detection S) → ℕ → Detection S
  detection_at [] i = record {
    x1 = nat S 0;
    y1 = nat S 0;
    x2 = nat S 0;
    y2 = nat S 0;
    score = nat S 0;
    class_id = pos 0;
  }
  detection_at (d ∷ ds) zero = d
  detection_at (d ∷ ds) (suc i) = detection_at ds i

  abbrev pub scores_of : Config S → ℕ → List (Detection S) → List ℕ → Heap S → ℕ → F
  scores_of cfg frame_id dets pool heap =
      let plain : ℕ → F = λ i. (detection_at dets i).score in
      if cfg.boost.boost_detections
      then boost_detections S cfg frame_id (detection_at dets) (length dets) (at_heap S heap pool)
          (length pool) plain
      else plain

  -- The frame's lists, in the heap where the tracks are predicted.
  abbrev pub frame_input : Config S → State → Bool → List ℕ → (ℕ → F) → ℕ → Input
  frame_input cfg s has_embeddings pool scores n = record {
    has_embeddings = has_embeddings;
    tracked = s.tracked;
    lost = s.lost;
    pool = pool;
    unconfirmed = unconfirmed s.heap s.tracked;
    high = select (is_high cfg) scores s.next n 0;
    low = select (is_low cfg) scores s.next n 0;
  }

  abbrev pub no_work : Heap S → ℕ → Work S
  no_work heap id_count = record {
    heap = heap;
    id_count = id_count;
    activated = [];
    refind = [];
    lost_now = [];
    removed_now = [];
  }

  abbrev pub settled : Config S → State → ℕ → Input → Option (Work S) → Option State
  settled cfg s n x none = none
  settled cfg s n x (some w) =
      let (tracked, lost) = merge S cfg s.frame_id x w in
      some (record {
        heap = w.heap;
        next = s.next + n;
        tracked = tracked;
        lost = lost;
        frame_id = s.frame_id;
        id_count = w.id_count;
        embed_dim = s.embed_dim;
      })

  -- `update` from the prediction on, with `frame_id` counted up; `none` if an association does not
  -- end.
  unfoldable pub track : Config S → List (Detection S) → List (List F) → State → Option State
  track cfg dets embeddings s =
      let pool : List ℕ = joint_stracks (id_in S s.heap) (confirmed s.heap s.tracked) s.lost in
      let heap : Heap S = predict_all S pool s.heap in
      let scores : ℕ → F = scores_of cfg s.frame_id dets pool heap in
      let n : ℕ = length dets in
      let x : Input = frame_input cfg s (not (length embeddings == 0)) pool scores n in
      let placed : Heap S =
        place_detections heap s.next n (make_strack (detection_at dets) scores embeddings) in
      settled cfg s n x
        (associations S cfg s.frame_id (max_time_lost cfg) x (no_work placed s.id_count))

  abbrev pub tracked_or : State → Option State → Option (State × Result Error (Unit {0}))
  tracked_or s none = none
  tracked_or s (some s') = some (s', ok tt)

  -- `Impl::update`. A list of embeddings that is refused has already counted the frame.
  unfoldable pub update :
      Config S
      → List (Detection S)
      → List (List F)
      → State
      → Option (State × Result Error (Unit {0}))
  update cfg dets embeddings s =
      let counted : State = record s { frame_id = s.frame_id + 1 } in
      let (d, agree) = latch embeddings s.embed_dim in
      if not (length embeddings == 0) && not (length embeddings == length dets)
      then some (counted, err not_parallel)
      else if not agree
      then some (record counted { embed_dim = d }, err width_changed)
      else tracked_or counted (track cfg dets embeddings (record counted { embed_dim = d }))

  -- Track
  pub record Track : Type 0 where
    pub track_id : ℕ
    pub box : Box S
    pub score : F
    pub class_id : ℤ

  -- What `update` returns.
  unfoldable pub emitted : Heap S → List ℕ → List Track
  emitted heap [] = []
  emitted heap (t ∷ ts) =
      if (heap t).is_activated
      then record {
        track_id = (heap t).track_id;
        box = tlbr S (heap t);
        score = (heap t).score;
        class_id = (heap t).class_id;
      }
        ∷ emitted heap ts
      else emitted heap ts

  unfoldable pub camera_all : Vec S → List ℕ → Heap S → Heap S
  camera_all m [] heap = heap
  camera_all m (t ∷ ts) heap = camera_all m ts (on_heap S (camera_update S m) t heap)

  unfoldable pub apply_camera_motion : Option (Vec S) → State → State
  apply_camera_motion none s = s
  apply_camera_motion (some m) s = record s {
    heap = camera_all m s.lost (camera_all m s.tracked s.heap);
  }
