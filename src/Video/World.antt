-- ===== src/Video/World.antt =====
-- pipeline/async_video_detection_pipeline.cc: the steps of the letterbox thread, the drain thread and
-- the caller, interleaved with the workers of the detector.
use rcdl.Common.{
  ℕ, ◌<◌, ◌≡◌, Bool, true, false, [], ◌∷◌, ◌++◌, Option, none, some, length, get_elem?, set, ok,
  err,
}
use rcdl.Common.Int.{pos}
use rcdl.Pool.{Pool, Lease, vacant, holding, acquire, release}
use rcdl.Engine.{Error as PoolError}
use rcdl.Async.Interface.{Stages}
use rcdl.Async.Impl.{
  Pipeline, Parked, Error, admit, claim, letterbox_into_slot, commit_slot, release_slot,
}
use rcdl.Async.Worker.{try_next, next, finish}
use rcdl.Async.World.{World, with_pool, claimed, committed, drained, WorkerStep}
use rcdl.Video.Channel.{Channel, push, pop}
use rcdl.Video.Impl.{
  Text, VideoFrame, Answer, polling, looking, asking, handing, failing, unblocking, ending, closing,
  gone, record_failure, close_frames, rethrow_failure, look, after_answer, publish, retract,
  pop_meta, stop, finish_input, meta_of,
}
use rcdl.Video.State.{
  acquiring, admitted, claiming, taking, returning, framed, unwinding, boxed, published, retracting,
  broken, clearing, leaving, left, idle, calling_next, owing, stopping, joining, VideoWorld,
  after_admit, after_claim, after_pop, after_letterbox, after_commit, after_push, frames_of,
  after_next, with_detect,
}

module _ (E : Stages) where
  -- The letterbox thread. `what` is what the exception says.
  pub data LetterboxStep (w : VideoWorld E) : VideoWorld E → Type 0 where
    admits :
        {b : Bool}
        → w.lb ≡ acquiring
        → admit E w.detect.impl ≡ some b
        → LetterboxStep w (record w { lb = after_admit E b })
    takes :
        {q : Pool} {l : Lease}
        → w.lb ≡ admitted
        → acquire w.detect.impl.pool ≡ some (ok (q, l))
        → LetterboxStep w (record w {
          detect = record (with_pool E w.detect q) { taken = w.detect.taken ++ l ∷ [] };
          lb = claiming (length w.detect.taken);
        })
    take_throws :
        (what : Text) {e : PoolError}
        → w.lb ≡ admitted
        → acquire w.detect.impl.pool ≡ some (err e)
        → LetterboxStep w (record w { lb = broken what })
    claims :
        {k i : ℕ}
        → w.lb ≡ claiming k
        → get_elem? w.detect.taken k ≡ some (holding i)
        → LetterboxStep w (record w {
          detect = claimed E w.detect k i (claim E w.detect.impl i);
          lb = after_claim E i (claim E w.detect.impl i).1;
        })
    pops :
        {i : ℕ} {c : Channel (VideoFrame E)} {o : Option (VideoFrame E)}
        → w.lb ≡ taking i
        → pop w.impl.frames ≡ some (c, o)
        → LetterboxStep w (record w { impl = record w.impl { frames = c }; lb = after_pop E i o })
    gives_back :
        {i : ℕ} {p : Pipeline E} {l : Lease}
        → w.lb ≡ returning i
        → release_slot E w.detect.impl (pos i) ≡ ok (p, l)
        → LetterboxStep w (record w {
          detect = record w.detect { impl = p; dropped = w.detect.dropped ++ l ∷ [] };
          lb = leaving;
        })
    give_back_throws :
        (what : Text) {i : ℕ} {e : Error E.Message}
        → w.lb ≡ returning i
        → release_slot E w.detect.impl (pos i) ≡ err e
        → LetterboxStep w (record w { lb = broken what })
    letterboxes :
        (what : Text) {i : ℕ} {f : VideoFrame E}
        → w.lb ≡ framed i f
        → LetterboxStep w (record w {
          detect = record w.detect {
            impl = (letterbox_into_slot E w.detect.impl (pos i) f.source).0;
          };
          lb = after_letterbox E i f what (letterbox_into_slot E w.detect.impl (pos i) f.source).1;
        })
    unwinds :
        {i : ℕ} {f : VideoFrame E} {what : Text} {p : Pipeline E} {l : Lease}
        → w.lb ≡ unwinding i f what
        → release_slot E w.detect.impl (pos i) ≡ ok (p, l)
        → LetterboxStep w (record w {
          detect = record w.detect { impl = p; dropped = w.detect.dropped ++ l ∷ [] };
          lb = broken what;
          lost_by_lb = w.lost_by_lb ++ f ∷ [];
        })
    unwind_throws :
        (what' : Text) {i : ℕ} {f : VideoFrame E} {what : Text} {e : Error E.Message}
        → w.lb ≡ unwinding i f what
        → release_slot E w.detect.impl (pos i) ≡ err e
        → LetterboxStep w (record w { lb = broken what'; lost_by_lb = w.lost_by_lb ++ f ∷ [] })
    publishes :
        {i : ℕ} {f : VideoFrame E} {g : E.Geometry}
        → w.lb ≡ boxed i f g
        → LetterboxStep w (record w {
          impl = publish E w.impl f;
          lb = published i f g;
          announced = meta_of E f ∷ [];
        })
    commits :
        {i : ℕ} {f : VideoFrame E} {g : E.Geometry} {r : Pipeline E × Lease × Bool}
        → w.lb ≡ published i f g
        → commit_slot E w.detect.impl (pos i) g ≡ ok r
        → LetterboxStep w (
            after_commit E
              (with_detect E w (committed E w.detect (w.detect.impl.slots i).tensor g r))
              f
              r.2)
    commit_throws :
        (what : Text) {i : ℕ} {f : VideoFrame E} {g : E.Geometry} {e : Error E.Message}
        → w.lb ≡ published i f g
        → commit_slot E w.detect.impl (pos i) g ≡ err e
        → LetterboxStep w (record w { lb = broken what; lost_by_lb = w.lost_by_lb ++ f ∷ [] })
    retracts :
        w.lb ≡ retracting
        → LetterboxStep w (record w { impl = retract E w.impl; lb = leaving; announced = [] })
    lb_fails :
        {what : Text}
        → w.lb ≡ broken what
        → LetterboxStep w (record w { impl = record_failure E w.impl what; lb = clearing })
    clears :
        w.lb ≡ clearing → LetterboxStep w (record w { impl = close_frames E w.impl; lb = leaving })
    leaves :
        w.lb ≡ leaving
        → LetterboxStep w
            (record w { detect = record w.detect { impl = finish E w.detect.impl }; lb = left })

  -- The drain thread.
  pub data DrainStep (w : VideoWorld E) : VideoWorld E → Type 0 where
    looks : {k : ℕ} → w.drain ≡ polling k → DrainStep w (record w { drain = look E w.impl k })
    reads :
        {k : ℕ}
        → w.drain ≡ looking k
        → DrainStep w (record w { drain = asking k w.impl.input_done })
    hears :
        (a : Answer E) {k : ℕ} {done : Bool}
        → w.drain ≡ asking k done
        → DrainStep w
            (record w { drain = after_answer E k done a; received = w.received ++ frames_of E a })
    hands :
        {f : VideoFrame E} {r : Channel (VideoFrame E) × Bool}
        → w.drain ≡ handing f
        → push w.impl.frames f ≡ some r
        → DrainStep w (after_push E w f r)
    drain_fails :
        {what : Text}
        → w.drain ≡ failing what
        → DrainStep w (record w { impl = record_failure E w.impl what; drain = unblocking })
    unblocks :
        w.drain ≡ unblocking
        → DrainStep w (record w { impl = close_frames E w.impl; drain = ending })
    drain_ends :
        w.drain ≡ ending
        → DrainStep w (record w {
          detect = record w.detect { impl = finish E w.detect.impl };
          drain = closing;
        })
    drain_closes :
        w.drain ≡ closing → DrainStep w (record w { impl = close_frames E w.impl; drain = gone })

  -- What the detector's next() or its tryNext() comes back with; `none` while next() waits.
  abbrev pub answer_of : Bool → Pipeline E → Option (Pipeline E × Option (Parked E))
  answer_of true p = next E p
  answer_of false p = some (try_next E p)

  -- The caller: next() or tryNext() past its rethrow(), the detector's answer, popMeta, finish(), and
  -- the stretches of the destructor. Other threads run between any two of them, so that a failure
  -- may come while next() waits. A call that rethrows a failure changes nothing, and
  -- after a false answer next() is over, whether it rethrows or returns.
  pub data ClientStep (w : VideoWorld E) : VideoWorld E → Type 0 where
    asks_next :
        (waits : Bool)
        → w.caller ≡ idle
        → rethrow_failure E w.impl ≡ ok tt
        → ClientStep w (record w { caller = calling_next waits })
    gets_none :
        {waits : Bool} {p : Pipeline E}
        → w.caller ≡ calling_next waits
        → answer_of waits w.detect.impl ≡ some (p, none)
        → ClientStep w (record w { caller = idle })
    takes_next :
        {waits : Bool} {p : Pipeline E} {r : Parked E}
        → w.caller ≡ calling_next waits
        → answer_of waits w.detect.impl ≡ some (p, some r)
        → ClientStep w (
            after_next E
              (with_detect E w (drained E w.detect (try_next E w.detect.impl)))
              r
              r.outcome)
    pops_meta :
        {r : Parked E}
        → w.caller ≡ owing r
        → ClientStep w (record w {
          impl = pop_meta E w.impl;
          caller = idle;
          shown =
              w.shown
              ++ record { result = r; meta = (pop_meta E w.impl).last_meta; thrown = w.thrown }
                ∷ [];
        })
    finishes : w.caller ≡ idle → ClientStep w (record w { impl = finish_input E w.impl })
    stops : w.caller ≡ idle → ClientStep w (record w { impl = stop E w.impl; caller = stopping })
    client_closes :
        w.caller ≡ stopping
        → ClientStep w (record w { impl = close_frames E w.impl; caller = joining })
    client_ends :
        w.caller ≡ joining
        → ClientStep w (record w { detect = record w.detect { impl = finish E w.detect.impl } })

  -- A lease object of the detector's calls goes out of scope.
  abbrev pub released : World E → ℕ → Lease → World E
  released d k l = record (with_pool E d (release d.impl.pool l).0) {
    dropped = set d.dropped k vacant;
  }

  pub data VideoStep (n : ℕ) (w : VideoWorld E) : VideoWorld E → Type 0 where
    letterbox : {w' : VideoWorld E} → LetterboxStep w w' → VideoStep n w w'
    draining : {w' : VideoWorld E} → DrainStep w w' → VideoStep n w w'
    calling : {w' : VideoWorld E} → ClientStep w w' → VideoStep n w w'
    worker :
        (i : ℕ) {d : World E}
        → i < n
        → WorkerStep E i w.detect d
        → VideoStep n w (record w { detect = d })
    drops :
        (k : ℕ) {l : Lease}
        → get_elem? w.detect.dropped k ≡ some l
        → VideoStep n w (with_detect E w (released w.detect k l))

  pub data VideoReach (n : ℕ) (s : VideoWorld E) : VideoWorld E → Type 0 where
    here : VideoReach n s s
    and_then : {w w' : VideoWorld E} → VideoReach n s w → VideoStep n w w' → VideoReach n s w'
