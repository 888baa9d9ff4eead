-- ===== src/Video/Failure.antt =====
-- pipeline/async_video_detection_pipeline.cc: "Record the first failure and tear the pipeline down".
use rcdl.Common.{
  ℕ, ◌≡◌, ◌≢◌, refl, sym, subst, ◌∙◌, Bool, true, false, List, [], ◌∷◌, some, Result, ok, err,
  if-both,
}
use rcdl.Common.Int.{ℤ}
use rcdl.Pool.{Pool}
use rcdl.Async.Interface.{Stages}
use rcdl.Async.Impl.{Parked}
use rcdl.Video.Impl.{
  Text, FrameMeta, VideoFrame, VideoPipeline, is_empty, record_failure, rethrow_failure, publish,
  retract, take_front, pop_meta, finish_input, stop, submit_bytes, look, closing, start_video,
}
use rcdl.Video.State.{VideoWorld, video_initial, with_detect, after_commit, after_next}
use rcdl.Video.World.{
  LetterboxStep, admits, takes, take_throws, claims, pops, gives_back, give_back_throws,
  letterboxes, unwinds, unwind_throws, publishes, commits, commit_throws, retracts, lb_fails,
  clears, leaves, DrainStep, looks, reads, hears, hands, drain_fails, unblocks, drain_ends,
  drain_closes, ClientStep, asks_next, gets_none, takes_next, pops_meta, finishes, stops,
  client_closes, client_ends, VideoStep, letterbox, draining, calling, worker, drops, VideoReach,
  here, and_then,
}

nonempty : (what : Text) → what ≢ [] → is_empty what ≡ false
nonempty [] h = absurd (h refl)
nonempty (c ∷ what) h = refl

module _ (E : Stages) where
  -- The failure is kept, and the pipeline stays stopped.
  record Stays (p q : VideoPipeline E) : Type 0 where
    error : p.error ≢ [] → q.error ≡ p.error
    stopped : p.stopping ≡ true → q.stopping ≡ true
    halts : (p.error ≢ [] → p.stopping ≡ true) → q.error ≢ [] → q.stopping ≡ true

  same : {p q : VideoPipeline E} → q.error ≡ p.error → q.stopping ≡ p.stopping → Stays p q
  same e s = record {
    error = λ h. e;
    stopped = λ h. s ∙ h;
    halts = λ halted h. s ∙ halted (λ none_yet. absurd (h (e ∙ none_yet)));
  }

  record_failure-Stays : (p : VideoPipeline E) (what : Text) → Stays p (record_failure E p what)
  unfolding record_failure
  record_failure-Stays p what = record {
    error = λ h. rw (nonempty p.error h) refl;
    stopped = λ h. refl;
    halts = λ halted h. refl;
  }

  after_commit-impl :
      (w : VideoWorld E) (f : VideoFrame E) (b : Bool) → (after_commit E w f b).impl ≡ w.impl
  after_commit-impl w f true = refl
  after_commit-impl w f false = refl

  after_next-impl :
      (w : VideoWorld E) (r : Parked E) (o : Result E.Message E.Dets)
      → (after_next E w r o).impl ≡ w.impl
  after_next-impl w r (ok dets) = refl
  after_next-impl w r (err m) = refl

  LetterboxStep-Stays : {w w' : VideoWorld E} → LetterboxStep E w w' → Stays w.impl w'.impl
  unfolding publish retract
  LetterboxStep-Stays (admits h e) = same refl refl
  LetterboxStep-Stays (takes h e) = same refl refl
  LetterboxStep-Stays (take_throws what h e) = same refl refl
  LetterboxStep-Stays (claims h e) = same refl refl
  LetterboxStep-Stays (pops h e) = same refl refl
  LetterboxStep-Stays (gives_back h e) = same refl refl
  LetterboxStep-Stays (give_back_throws what h e) = same refl refl
  LetterboxStep-Stays (letterboxes what h) = same refl refl
  LetterboxStep-Stays (unwinds h e) = same refl refl
  LetterboxStep-Stays (unwind_throws what h e) = same refl refl
  LetterboxStep-Stays (publishes h) = same refl refl
  LetterboxStep-Stays {w = w} (commits {f = f} {r = r} h e) =
      rw (after_commit-impl (with_detect E w _) f r.2) (same refl refl)
  LetterboxStep-Stays (commit_throws what h e) = same refl refl
  LetterboxStep-Stays (retracts h) = same refl refl
  LetterboxStep-Stays {w = w} (lb_fails {what} h) = record_failure-Stays w.impl what
  LetterboxStep-Stays (clears h) = same refl refl
  LetterboxStep-Stays (leaves h) = same refl refl

  DrainStep-Stays : {w w' : VideoWorld E} → DrainStep E w w' → Stays w.impl w'.impl
  DrainStep-Stays (looks h) = same refl refl
  DrainStep-Stays (reads h) = same refl refl
  DrainStep-Stays (hears a h) = same refl refl
  DrainStep-Stays (hands {r = (c, true)} h e) = same refl refl
  DrainStep-Stays (hands {r = (c, false)} h e) = same refl refl
  DrainStep-Stays {w = w} (drain_fails {what} h) = record_failure-Stays w.impl what
  DrainStep-Stays (unblocks h) = same refl refl
  DrainStep-Stays (drain_ends h) = same refl refl
  DrainStep-Stays (drain_closes h) = same refl refl

  take_front-Stays : (p : VideoPipeline E) (meta : List FrameMeta) → Stays p (take_front E p meta)
  take_front-Stays p [] = same refl refl
  take_front-Stays p (m ∷ rest) = same refl refl

  ClientStep-Stays : {w w' : VideoWorld E} → ClientStep E w w' → Stays w.impl w'.impl
  unfolding pop_meta finish_input stop
  ClientStep-Stays {w = w} (takes_next {r = r} h got) =
      rw (after_next-impl (with_detect E w _) r r.outcome) (same refl refl)
  ClientStep-Stays (asks_next waits h e) = same refl refl
  ClientStep-Stays (gets_none h e) = same refl refl
  ClientStep-Stays {w = w} (pops_meta h) = take_front-Stays w.impl w.impl.meta
  ClientStep-Stays {w = w} (finishes h) =
      if-both (λ (q : VideoPipeline E). Stays w.impl q) w.impl.finished (same refl refl)
        (same refl refl)
  ClientStep-Stays (stops h) = record {
    error = λ h. refl;
    stopped = λ h. refl;
    halts = λ halted h. refl;
  }
  ClientStep-Stays (client_closes h) = same refl refl
  ClientStep-Stays (client_ends h) = same refl refl

  VideoStep-Stays : {n : ℕ} {w w' : VideoWorld E} → VideoStep E n w w' → Stays w.impl w'.impl
  VideoStep-Stays (letterbox st) = LetterboxStep-Stays st
  VideoStep-Stays (draining st) = DrainStep-Stays st
  VideoStep-Stays (calling st) = ClientStep-Stays st
  VideoStep-Stays (worker i lt st) = same refl refl
  VideoStep-Stays (drops k h) = same refl refl

  VideoReach-Stays : {n : ℕ} {w w' : VideoWorld E} → VideoReach E n w w' → Stays w.impl w'.impl
  VideoReach-Stays here = same refl refl
  VideoReach-Stays (and_then {w = v} r st) =
      let first : Stays _ v.impl = VideoReach-Stays r in
      let last : Stays v.impl _ = VideoStep-Stays st in
      record {
        error = λ h. last.error (λ e. absurd (h (sym (first.error h) ∙ e))) ∙ first.error h;
        stopped = λ h. last.stopped (first.stopped h);
        halts = λ halted. last.halts (first.halts halted);
      }

  stopped_throws :
      (p : VideoPipeline E)
      → p.error ≢ []
      → p.stopping ≡ true
      → (rethrow_failure E p ≡ err p.error)
        × ((size : ℕ) (timeout_ms : ℤ) (fed : Bool) (later : List (VideoPipeline E × Bool))
            → submit_bytes E p size timeout_ms fed later ≡ some (err p.error))
        × ((k : ℕ) → look E p k ≡ closing)
  unfolding rethrow_failure submit_bytes look
  stopped_throws p h stopped =
      let e : is_empty p.error ≡ false = nonempty p.error h in
      (rw e refl, λ size timeout_ms fed later. rw e refl, λ k. rw stopped refl)

  -- In a state that the pipeline reaches, once a thread has recorded a failure with a message that is
  -- not empty, then in every later state, whatever else fails or is called: next(), tryNext() and
  -- every submit() throw that message, and the drain thread ends at its next look.
  pub failure_stays :
      (pool : Pool) (depth queue_depth : ℤ) {n : ℕ} {w w' : VideoWorld E}
      → VideoReach E n (video_initial E pool depth queue_depth) w
      → w.impl.error ≢ []
      → VideoReach E n w w'
      → (rethrow_failure E w'.impl ≡ err w.impl.error)
        × ((size : ℕ) (timeout_ms : ℤ) (fed : Bool) (later : List (VideoPipeline E × Bool))
            → submit_bytes E w'.impl size timeout_ms fed later ≡ some (err w.impl.error))
        × ((k : ℕ) → look E w'.impl k ≡ closing)
  unfolding start_video
  failure_stays pool depth queue_depth {w = w} {w'} before failed after =
      let start : Stays _ w.impl = VideoReach-Stays before in
      let later : Stays w.impl w'.impl = VideoReach-Stays after in
      let kept = later.error failed in
      let stopped = later.stopped (start.halts (λ h. absurd (h refl)) failed) in
      subst
        (λ (what : Text).
          (rethrow_failure E w'.impl ≡ err what)
          × ((size : ℕ) (timeout_ms : ℤ) (fed : Bool) (later : List (VideoPipeline E × Bool))
              → submit_bytes E w'.impl size timeout_ms fed later ≡ some (err what))
          × ((k : ℕ) → look E w'.impl k ≡ closing))
        kept (stopped_throws w'.impl (λ e. absurd (failed (sym kept ∙ e))) stopped)
