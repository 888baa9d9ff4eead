-- ===== src/Video/Detector.antt =====
-- pipeline/async_video_detection_pipeline.cc: what the stages see of the detector is a run of its own
-- threads and callers.
use rcdl.Common.{
  ℕ, ◌≡◌, refl, ap, Bool, true, false, Option, none, some, Result, ok, err, ◌++◌, ◌∷◌, [],
}
use rcdl.Common.Int.{pos}
use rcdl.Common.Pairwise.{some-injective}
use rcdl.Async.Interface.{Stages}
use rcdl.Async.Impl.{Pipeline, Parked}
use rcdl.Async.Worker.{try_next}
use rcdl.Async.Calls.{next-result}
use rcdl.Async.World.{World, Reach, caller, worker, drained}
use rcdl.Async.World
use rcdl.Video.State.{VideoWorld, with_detect, after_commit, after_push, after_next}
use rcdl.Video.Channel.{Channel}
use rcdl.Video.Impl.{VideoFrame}
use rcdl.Video.World.{
  answer_of, LetterboxStep, admits, takes, take_throws, claims, pops, gives_back, give_back_throws,
  letterboxes, unwinds, unwind_throws, publishes, commits, commit_throws, retracts, lb_fails,
  clears, leaves, DrainStep, looks, reads, hears, hands, drain_fails, unblocks, drain_ends,
  drain_closes, ClientStep, asks_next, gets_none, takes_next, pops_meta, finishes, stops,
  client_closes, client_ends, VideoStep, letterbox, draining, calling, worker as works, drops,
}

module _ (E : Stages) where
  after_commit-detect :
      (w : VideoWorld E) (f : VideoFrame E) (b : Bool) → (after_commit E w f b).detect ≡ w.detect
  after_commit-detect w f true = refl
  after_commit-detect w f false = refl

  after_push-detect :
      (w : VideoWorld E) (f : VideoFrame E) (r : Channel (VideoFrame E) × Bool)
      → (after_push E w f r).detect ≡ w.detect
  after_push-detect w f (c, true) = refl
  after_push-detect w f (c, false) = refl

  after_next-detect :
      (w : VideoWorld E) (r : Parked E) (o : Result E.Message E.Dets)
      → (after_next E w r o).detect ≡ w.detect
  after_next-detect w r (ok dets) = refl
  after_next-detect w r (err m) = refl

  module _ {n : ℕ} {s : World E} where
    LetterboxStep-Reach :
        {w w' : VideoWorld E} → LetterboxStep E w w' → Reach E n s w.detect → Reach E n s w'.detect
    LetterboxStep-Reach (admits h e) r = r
    LetterboxStep-Reach (takes h e) r = World.next r (caller (World.takes e))
    LetterboxStep-Reach (take_throws what h e) r = r
    LetterboxStep-Reach (claims {k} {i} h e) r = World.next r (caller (World.claims k i e))
    LetterboxStep-Reach (pops h e) r = r
    LetterboxStep-Reach (gives_back {i = i} h e) r =
        World.next r (caller (World.releases (pos i) e))
    LetterboxStep-Reach (give_back_throws what h e) r = r
    LetterboxStep-Reach (letterboxes what {i} {f} h) r =
        World.next r (caller (World.letterboxes (pos i) f.source))
    LetterboxStep-Reach (unwinds {i = i} h e) r = World.next r (caller (World.releases (pos i) e))
    LetterboxStep-Reach (unwind_throws what h e) r = r
    LetterboxStep-Reach (publishes h) r = r
    LetterboxStep-Reach {w = w} (commits {i} {f} {g} {r = x} h e) r =
        rw (after_commit-detect (with_detect E w _) f x.2)
          (World.next r (caller (World.commits i g e)))
    LetterboxStep-Reach (commit_throws what h e) r = r
    LetterboxStep-Reach (retracts h) r = r
    LetterboxStep-Reach (lb_fails h) r = r
    LetterboxStep-Reach (clears h) r = r
    LetterboxStep-Reach (leaves h) r = World.next r (caller World.finishes)

    DrainStep-Reach :
        {w w' : VideoWorld E} → DrainStep E w w' → Reach E n s w.detect → Reach E n s w'.detect
    DrainStep-Reach (looks h) r = r
    DrainStep-Reach (reads h) r = r
    DrainStep-Reach (hears a h) r = r
    DrainStep-Reach {w = w} (hands {f} {r = x} h e) r = rw (after_push-detect w f x) r
    DrainStep-Reach (drain_fails h) r = r
    DrainStep-Reach (unblocks h) r = r
    DrainStep-Reach (drain_ends h) r = World.next r (caller World.finishes)
    DrainStep-Reach (drain_closes h) r = r

    ClientStep-Reach :
        {w w' : VideoWorld E} → ClientStep E w w' → Reach E n s w.detect → Reach E n s w'.detect
    ClientStep-Reach {w = w} (takes_next {r = x} h got) r =
        rw (after_next-detect (with_detect E w _) x x.outcome) (World.next r (caller World.drains))
    ClientStep-Reach (asks_next waits h e) r = r
    ClientStep-Reach (gets_none h e) r = r
    ClientStep-Reach (pops_meta h) r = r
    ClientStep-Reach (finishes h) r = r
    ClientStep-Reach (stops h) r = r
    ClientStep-Reach (client_closes h) r = r
    ClientStep-Reach (client_ends h) r = World.next r (caller World.finishes)

    pub VideoStep-Reach :
        {w w' : VideoWorld E} → VideoStep E n w w' → Reach E n s w.detect → Reach E n s w'.detect
    VideoStep-Reach (letterbox st) r = LetterboxStep-Reach st r
    VideoStep-Reach (draining st) r = DrainStep-Reach st r
    VideoStep-Reach (calling st) r = ClientStep-Reach st r
    VideoStep-Reach (works i lt st) r = World.next r (worker i lt st)
    VideoStep-Reach (drops k h) r = World.next r (caller (World.drops k h))

  -- A result that next() or tryNext() returned is the one that the detector owed.
  pub got-result :
      (waits : Bool) (p : Pipeline E) {q : Pipeline E} {r : Parked E}
      → answer_of E waits p ≡ some (q, some r)
      → (try_next E p).1 ≡ some r
  unfolding try_next
  got-result true p h = rw (next-result E p h) refl
  got-result false p h = ap (λ (x : Pipeline E × Option (Parked E)). x.1) (some-injective h)

  -- What a drained result does to the history.
  pub drained-history :
      (d : World E) (x : Pipeline E × Option (Parked E)) {r : Parked E}
      → x.1 ≡ some r
      → ((drained E d x).delivered ≡ d.delivered ++ r ∷ [])
        × ((drained E d x).expected ≡ d.expected)
  drained-history d (p, none) h = cc
  drained-history d (p, some y) h =
      (ap (λ (z : Parked E). d.delivered ++ z ∷ []) (some-injective h), refl)
