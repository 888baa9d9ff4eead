-- ===== src/Video/State.antt =====
-- pipeline/async_video_detection_pipeline.cc: where the letterbox thread, the drain thread and the
-- caller stand, and where a call that returned takes them. `received`, `committed_frames`, `shown`,
-- `thrown` and the lists of lost frames record the history, and a letterbox state keeps the whole
-- frame where the code has only its metadata left.
use rcdl.Common.{
  ℕ, ◌+◌, Bool, true, false, List, [], ◌∷◌, ◌++◌, Option, none, some, Result, ok, err,
}
use rcdl.Common.Int.{ℤ}
use rcdl.Pool.{Pool}
use rcdl.Async.Interface.{Stages}
use rcdl.Async.Impl.{Parked, Error}
use rcdl.Async.World.{World, initial}
use rcdl.Video.Channel.{Channel}
use rcdl.Video.Impl.{
  Text, FrameMeta, VideoFrame, VideoPipeline, Answer, picture, nothing, threw, Drain, polling,
  closing, start_video,
}

module _ (E : Stages) where
  -- Where the letterbox thread stands: before and inside acquireSlot, with a slot before pop(), with
  -- a slot to give back, with a frame, after letterboxIntoSlot threw or returned, after the metadata
  -- went out, after a false commitSlot, inside fail(), before the last finish().
  pub data Letterboxer : Type 0 where
    acquiring : Letterboxer
    admitted : Letterboxer
    claiming : ℕ → Letterboxer
    taking : ℕ → Letterboxer
    returning : ℕ → Letterboxer
    framed : ℕ → VideoFrame E → Letterboxer
    unwinding : ℕ → VideoFrame E → Text → Letterboxer
    boxed : ℕ → VideoFrame E → E.Geometry → Letterboxer
    published : ℕ → VideoFrame E → E.Geometry → Letterboxer
    retracting : Letterboxer
    broken : Text → Letterboxer
    clearing : Letterboxer
    leaving : Letterboxer
    left : Letterboxer

  -- The draining caller: between calls, past the first rethrow() and inside the detector's next(),
  -- if the mark is true, or its tryNext(), between that and popMeta, in the destructor.
  pub data Caller : Type 0 where
    idle : Caller
    calling_next : Bool → Caller
    owing : Parked E → Caller
    stopping : Caller
    joining : Caller

  -- A result that next() or tryNext() returned, the metadata of lastPtsUs() and lastFrameIndex() at
  -- that time, and how many results had made next() throw before.
  pub record Shown : Type 0 where
    pub result : Parked E
    pub meta : FrameMeta
    pub thrown : ℕ

  pub record VideoWorld : Type 0 where
    pub detect : World E
    pub impl : VideoPipeline E
    pub lb : Letterboxer
    pub drain : Drain E
    pub caller : Caller
    pub received : List (VideoFrame E)
    pub committed_frames : List (VideoFrame E)
    pub lost_by_lb : List (VideoFrame E)
    pub lost_by_drain : List (VideoFrame E)
    -- Published metadata whose frame is not committed.
    pub announced : List FrameMeta
    pub shown : List Shown
    pub thrown : ℕ

  abbrev pub video_initial : Pool → ℤ → ℤ → VideoWorld
  video_initial pool depth queue_depth = record {
    detect = initial E pool depth;
    impl = start_video E queue_depth;
    lb = acquiring;
    drain = polling 0;
    caller = idle;
    received = [];
    committed_frames = [];
    lost_by_lb = [];
    lost_by_drain = [];
    announced = [];
    shown = [];
    thrown = 0;
  }

  abbrev pub after_admit : Bool → Letterboxer
  after_admit true = admitted
  after_admit false = leaving

  abbrev pub after_claim : ℕ → Bool → Letterboxer
  after_claim i true = taking i
  after_claim i false = leaving

  abbrev pub after_pop : ℕ → Option (VideoFrame E) → Letterboxer
  after_pop i (some f) = framed i f
  after_pop i none = returning i

  abbrev pub after_letterbox :
      ℕ → VideoFrame E → Text → Result (Error E.Message) E.Geometry → Letterboxer
  after_letterbox i f what (ok g) = boxed i f g
  after_letterbox i f what (err e) = unwinding i f what

  abbrev pub after_commit : VideoWorld → VideoFrame E → Bool → VideoWorld
  after_commit w f true = record w {
    lb = acquiring;
    committed_frames = w.committed_frames ++ f ∷ [];
    announced = [];
  }
  after_commit w f false = record w { lb = retracting; lost_by_lb = w.lost_by_lb ++ f ∷ [] }

  abbrev pub after_push : VideoWorld → VideoFrame E → Channel (VideoFrame E) × Bool → VideoWorld
  after_push w f (c, true) = record w { impl = record w.impl { frames = c }; drain = polling 0 }
  after_push w f (c, false) = record w {
    impl = record w.impl { frames = c };
    drain = closing;
    lost_by_drain = w.lost_by_drain ++ f ∷ [];
  }

  abbrev pub frames_of : Answer E → List (VideoFrame E)
  frames_of (picture f) = f ∷ []
  frames_of (nothing end_of_stream) = []
  frames_of (threw what) = []

  -- deliver() throws for a result that carries an exception, so popMeta is not reached.
  abbrev pub after_next : VideoWorld → Parked E → Result E.Message E.Dets → VideoWorld
  after_next w r (ok dets) = record w { caller = owing r }
  after_next w r (err m) = record w { thrown = w.thrown + 1; caller = idle }

  abbrev pub with_detect : VideoWorld → World E → VideoWorld
  with_detect w d = record w { detect = d }
