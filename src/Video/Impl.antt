-- ===== src/Video/Impl.antt =====
-- pipeline/async_video_detection_pipeline.cc: AsyncVideoDetectionPipeline::Impl. Each function is one
-- critical section, or what a thread does with the answer of a call. Times are left out.
use rcdl.Common.{
  ℕ, suc, ◌+◌, Bool, true, false, ◌||◌, List, [], ◌∷◌, ◌++◌, Option, none, some, leb, ◌==◌,
  if◌then◌else◌, Result, ok, err,
}
use rcdl.Common.Int.{ℤ, pos, ltb_ℤ, pos_part}
use rcdl.Async.Interface.{Stages}
use rcdl.Video.Channel.{Channel, open_channel, close}

-- What a std::exception says.
abbrev pub Text : Type 0
Text = List ℕ

unfoldable pub queue_slots : ℤ → ℕ
queue_slots queue_depth = if ltb_ℤ (pos 0) queue_depth then pos_part queue_depth else 1

-- The decoder's `extra_buffers`, raised to what the pipeline holds at once.
unfoldable pub size_pool : ℤ → ℤ → ℤ
size_pool extra_buffers queue_depth =
    let held = queue_slots queue_depth + 2 in
    if ltb_ℤ extra_buffers (pos held) then pos held else extra_buffers

abbrev pub max_empty_flushes : ℕ
max_empty_flushes = 20

pub record FrameMeta : Type 0 where
  pub pts_us : ℕ
  pub index : ℕ

-- std::deque::pop_back
abbrev pub pop_back : List FrameMeta → List FrameMeta
pop_back [] = []
pop_back (m ∷ []) = []
pop_back (m ∷ m' ∷ rest) = m ∷ pop_back (m' ∷ rest)

abbrev pub is_empty : Text → Bool
is_empty [] = true
is_empty (c ∷ what) = false

module _ (E : Stages) where
  -- A decoded frame: its view, and what the decoder says of it.
  pub record VideoFrame : Type 0 where
    pub source : E.Source
    pub pts_us : ℕ
    pub index : ℕ

  -- The decoder and the detector stand beside this record.
  pub record VideoPipeline : Type 0 where
    pub frames : Channel VideoFrame
    pub finished : Bool
    pub meta : List FrameMeta
    pub last_meta : FrameMeta
    pub input_done : Bool
    pub stopping : Bool
    pub error : Text

  -- What receive() or flush() answers: a frame, false with the decoder's end-of-stream flag, or an
  -- exception.
  pub data Answer : Type 0 where
    picture : VideoFrame → Answer
    nothing : Bool → Answer
    threw : Text → Answer

  -- Where the drain thread stands, with `empty_flushes`: before stopped(), before it reads
  -- input_done, before the call of the decoder, before the push, in fail(), before the last close.
  pub data Drain : Type 0 where
    polling : ℕ → Drain
    looking : ℕ → Drain
    asking : ℕ → Bool → Drain
    handing : VideoFrame → Drain
    failing : Text → Drain
    unblocking : Drain
    ending : Drain
    closing : Drain
    gone : Drain

  -- The constructor of Impl, on `queue_depth`.
  unfoldable pub start_video : ℤ → VideoPipeline
  start_video queue_depth = record {
    frames = open_channel (queue_slots queue_depth);
    finished = false;
    meta = [];
    last_meta = record { pts_us = 0; index = 0 };
    input_done = false;
    stopping = false;
    error = [];
  }

  -- The locked part of `fail`: the first failure is kept.
  unfoldable pub record_failure : VideoPipeline → Text → VideoPipeline
  record_failure p what = record p {
    error = if is_empty p.error then what else p.error;
    stopping = true;
  }

  abbrev pub close_frames : VideoPipeline → VideoPipeline
  close_frames p = record p { frames = close p.frames }

  unfoldable pub rethrow_failure : VideoPipeline → Result Text (Unit {0})
  rethrow_failure p = if is_empty p.error then ok tt else err p.error

  -- `drainStream`: the test of stopped().
  unfoldable pub look : VideoPipeline → ℕ → Drain
  look p empty_flushes = if p.stopping then closing else looking empty_flushes

  -- `drainStream`: what follows an answer. Only a flush counts as empty, and only the decoder's flag
  -- or the last attempt ends the stream.
  unfoldable pub after_answer : ℕ → Bool → Answer → Drain
  after_answer empty_flushes done (picture frame) = handing frame
  after_answer empty_flushes false (nothing end_of_stream) = polling empty_flushes
  after_answer empty_flushes true (nothing end_of_stream) =
      if end_of_stream || leb max_empty_flushes (suc empty_flushes)
      then closing
      else polling (suc empty_flushes)
  after_answer empty_flushes done (threw what) = failing what

  abbrev pub meta_of : VideoFrame → FrameMeta
  meta_of frame = record { pts_us = frame.pts_us; index = frame.index }

  unfoldable pub publish : VideoPipeline → VideoFrame → VideoPipeline
  publish p frame = record p { meta = p.meta ++ meta_of frame ∷ [] }

  unfoldable pub retract : VideoPipeline → VideoPipeline
  retract p = record p { meta = pop_back p.meta }

  abbrev pub take_front : VideoPipeline → List FrameMeta → VideoPipeline
  take_front p [] = p
  take_front p (m ∷ rest) = record p { last_meta = m; meta = rest }

  unfoldable pub pop_meta : VideoPipeline → VideoPipeline
  pop_meta p = take_front p p.meta

  -- The locked part of `shutdown`.
  unfoldable pub stop : VideoPipeline → VideoPipeline
  stop p = record p { stopping = true; input_done = true }

  unfoldable pub is_finished : VideoPipeline → Bool
  is_finished p = p.finished || p.stopping

  unfoldable pub finish_input : VideoPipeline → VideoPipeline
  finish_input p = if p.finished then p else record p { finished = true; input_done = true }

  -- The loop of `submit` after a refused attempt: the pipeline as each look finds it, and what the
  -- attempt after that look says. `none` while it goes on.
  unfoldable pub feed_until : List (VideoPipeline × Bool) → Option (Result Text Bool)
  unfolding is_finished rethrow_failure
  feed_until [] = none
  feed_until ((p, fed) ∷ rest) =
      let later = feed_until rest in
      if is_empty p.error
      then (if is_finished p then some (ok false) else if fed then some (ok true) else later)
      else some (err p.error)

  -- `submit` of `size` bytes (0 also for a null pointer), with the answer of the first feed(), and
  -- for an indefinite one what follows.
  unfoldable pub submit_bytes :
      VideoPipeline → ℕ → ℤ → Bool → List (VideoPipeline × Bool) → Option (Result Text Bool)
  unfolding rethrow_failure is_finished feed_until
  submit_bytes p size timeout_ms fed later =
      let waited = feed_until later in
      if is_empty p.error
      then (if is_finished p
          then some (ok false)
          else if size == 0
          then some (ok true)
          else if ltb_ℤ timeout_ms (pos 0)
          then (if fed then some (ok true) else waited)
          else some (ok fed))
      else some (err p.error)
