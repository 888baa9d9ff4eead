-- ===== src/Video/Sources.antt =====
-- pipeline/async_video_detection_pipeline.cc: where each frame of the decoder is: committed, with the
-- letterbox thread, in the channel, with the drain thread, or lost when one of the two gave up.
pub mod Steps
use rcdl.Common.{
  ℕ, ◌≡◌, refl, sym, ap, subst, ◌∙◌, Bool, true, false, List, [], ◌∷◌, ◌++◌, Option, none, some,
  Result, ok, err, arith, Bool-cases, inl, inr, if-both, if-cases, ◌||◌, ◌⊎◌, length, ltb, leb, suc,
}
use mathlib.Core.List.{append-nil, append_assoc}
use rcdl.Async.Interface.{Stages}
use rcdl.Common.Int.{ℤ}
use rcdl.Pool.{Pool}
use rcdl.Async.Impl.{Parked, Error}
use rcdl.Video.Channel.{Channel, push, pop, pop_items, close, open_channel}
use rcdl.Video.Impl.{
  VideoFrame, VideoPipeline, Answer, picture, nothing, threw, Drain, polling, looking, asking,
  handing, failing, unblocking, ending, closing, gone, look, after_answer, record_failure, publish,
  retract, max_empty_flushes, FrameMeta, take_front, pop_meta, finish_input, stop, start_video,
}
use rcdl.Video.State.{
  Letterboxer, acquiring, admitted, claiming, taking, returning, framed, unwinding, boxed,
  published, retracting, broken, clearing, leaving, left, VideoWorld, after_admit, after_claim,
  after_pop, after_letterbox, after_commit, after_push, frames_of, after_next, with_detect,
  video_initial,
}
use rcdl.Video.World.{
  LetterboxStep, admits, takes, take_throws, claims, pops, gives_back, give_back_throws,
  letterboxes, unwinds, unwind_throws, publishes, commits, commit_throws, retracts, lb_fails,
  clears, leaves, DrainStep, looks, reads, hears, hands, drain_fails, unblocks, drain_ends,
  drain_closes, ClientStep, asks_next, gets_none, takes_next, pops_meta, finishes, stops,
  client_closes, client_ends, VideoStep, letterbox, draining, calling, worker, drops, VideoReach,
  here, and_then,
}

module _ (E : Stages) where
  Frames : Type 0
  Frames = List (VideoFrame E)

  abbrev pub in_lb : Letterboxer E → List (VideoFrame E)
  in_lb (framed i f) = f ∷ []
  in_lb (unwinding i f what) = f ∷ []
  in_lb (boxed i f g) = f ∷ []
  in_lb (published i f g) = f ∷ []
  in_lb _ = []

  abbrev pub in_drain : Drain E → List (VideoFrame E)
  in_drain (handing f) = f ∷ []
  in_drain _ = []

  -- The letterbox thread loses a frame only when it gives up, ...
  abbrev pub LbLost : Letterboxer E → List (VideoFrame E) → Type 0
  LbLost retracting lost = Unit
  LbLost (broken what) lost = Unit
  LbLost clearing lost = Unit
  LbLost leaving lost = Unit
  LbLost left lost = Unit
  LbLost _ lost = lost ≡ []

  -- ... and so does the drain thread.
  abbrev pub DrainLost : Drain E → List (VideoFrame E) → Type 0
  DrainLost closing lost = Unit
  DrainLost gone lost = Unit
  DrainLost _ lost = lost ≡ []

  pub lost_at :
      {a b : Letterboxer E} (lost : List (VideoFrame E)) → a ≡ b → LbLost a lost → LbLost b lost
  lost_at lost h = subst (λ (x : Letterboxer E). LbLost x lost) h

  pub drain_at :
      {a b : Drain E} (lost : List (VideoFrame E)) → a ≡ b → DrainLost a lost → DrainLost b lost
  drain_at lost h = subst (λ (x : Drain E). DrainLost x lost) h

  pub record Sources (received committed lost_by_lb : List (VideoFrame E)) (lb : Letterboxer E)
      (items : List (VideoFrame E)) (drain : Drain E) (lost_by_drain : List (VideoFrame E))
      : Type 0 where
    pub whole :
        received
        ≡ committed ++ (lost_by_lb ++ (in_lb lb ++ (items ++ (in_drain drain ++ lost_by_drain))))
    pub lb_lost : LbLost lb lost_by_lb
    pub drain_lost : DrainLost drain lost_by_drain

  abbrev pub SourcesOf : VideoWorld E → Type 0
  SourcesOf w =
      Sources w.received w.committed_frames w.lost_by_lb w.lb w.impl.frames.items w.drain
        w.lost_by_drain

  module _ {received committed lost_by_lb items : List (VideoFrame E)} {drain : Drain E}
      {lost_by_drain : List (VideoFrame E)} where
    -- The letterbox thread goes on with what it has.
    pub lb_moves :
        {a b a' : Letterboxer E}
        → a ≡ a'
        → in_lb a' ≡ in_lb b
        → (LbLost a' lost_by_lb → LbLost b lost_by_lb)
        → Sources received committed lost_by_lb a items drain lost_by_drain
        → Sources received committed lost_by_lb b items drain lost_by_drain
    lb_moves h same lost v = record {
      whole = v.whole ∙ rw h (rw same refl);
      lb_lost = lost (lost_at lost_by_lb h v.lb_lost);
      drain_lost = v.drain_lost;
    }

    -- The letterbox thread gives its frame up.
    pub lb_loses :
        {a a' b : Letterboxer E} (f : VideoFrame E)
        → a ≡ a'
        → in_lb a' ≡ f ∷ []
        → (LbLost a' lost_by_lb → lost_by_lb ≡ [])
        → in_lb b ≡ []
        → LbLost b (lost_by_lb ++ f ∷ [])
        → Sources received committed lost_by_lb a items drain lost_by_drain
        → Sources received committed (lost_by_lb ++ f ∷ []) b items drain lost_by_drain
    lb_loses f h was none_lost is gives v =
        let e = none_lost (lost_at lost_by_lb h v.lb_lost) in
        record {
          whole = v.whole ∙ rw h (rw was (rw is (rw e refl)));
          lb_lost = gives;
          drain_lost = v.drain_lost;
        }

  module _ {received committed lost_by_lb items : List (VideoFrame E)} {lb : Letterboxer E}
      {lost_by_drain : List (VideoFrame E)} where
    -- The drain thread goes on with what it has.
    pub drain_moves :
        {a a' b : Drain E}
        → a ≡ a'
        → in_drain a' ≡ in_drain b
        → (DrainLost a' lost_by_drain → DrainLost b lost_by_drain)
        → Sources received committed lost_by_lb lb items a lost_by_drain
        → Sources received committed lost_by_lb lb items b lost_by_drain
    drain_moves h same lost v = record {
      whole = v.whole ∙ rw h (rw same refl);
      lb_lost = v.lb_lost;
      drain_lost = lost (subst (λ (x : Drain E). DrainLost x lost_by_drain) h v.drain_lost);
    }
