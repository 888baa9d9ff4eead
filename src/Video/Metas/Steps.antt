-- ===== src/Video/Metas/Steps.antt =====
-- pipeline/async_video_detection_pipeline.cc: each step of the threads and callers keeps the metadata
-- in the order of the commits.
use rcdl.Common.{
  ℕ, ◌≡◌, ◌≤◌, ◌+◌, refl, ap, Bool, true, false, List, length, Option, none, some, Result, ok, err,
  arith, if-both,
}
use rcdl.Async.Interface.{Stages}
use rcdl.Async.Impl.{Parked, Error}
use rcdl.Video.Impl.{
  Text, FrameMeta, VideoFrame, VideoPipeline, publish, retract, pop_meta, finish_input, stop,
  record_failure,
}
use rcdl.Video.State.{
  Letterboxer, claiming, taking, framed, published, Shown, VideoWorld, with_detect, after_claim,
  after_pop, after_letterbox, after_commit, after_next,
}
use rcdl.Video.World.{
  LetterboxStep, admits, takes, take_throws, claims, pops, gives_back, give_back_throws,
  letterboxes, unwinds, unwind_throws, publishes, commits, commit_throws, retracts, lb_fails,
  clears, leaves, DrainStep, looks, reads, hears, hands, drain_fails, unblocks, drain_ends,
  drain_closes, ClientStep, asks_next, gets_none, takes_next, pops_meta, finishes, stops,
  client_closes, client_ends, VideoStep, letterbox, draining, calling, worker, drops,
}
use rcdl.Video.Metas.{
  Metas, MetasOf, owed, moves, publishes-Metas, commits-Metas, retracts-Metas, pops-Metas,
}

module _ (E : Stages) where
  module _ {committed : List (VideoFrame E)} {announced metas : List FrameMeta} {a : Letterboxer E}
      {shown : List (Shown E)} where
    after_claim-Metas :
        {k : ℕ} (i : ℕ) (b : Bool)
        → a ≡ claiming k
        → Metas E committed announced a shown metas
        → Metas E committed announced (after_claim E i b) shown metas
    after_claim-Metas i true h v = moves E h (λ x. x) v
    after_claim-Metas i false h v = moves E h (λ x. tt) v

    after_pop-Metas :
        {i : ℕ} (o : Option (VideoFrame E))
        → a ≡ taking i
        → Metas E committed announced a shown metas
        → Metas E committed announced (after_pop E i o) shown metas
    after_pop-Metas (some f) h v = moves E h (λ x. x) v
    after_pop-Metas none h v = moves E h (λ x. x) v

    after_letterbox-Metas :
        {i : ℕ} {f : VideoFrame E} (what : Text) (r : Result (Error E.Message) E.Geometry)
        → a ≡ framed i f
        → Metas E committed announced a shown metas
        → Metas E committed announced (after_letterbox E i f what r) shown metas
    after_letterbox-Metas what (ok g) h v = moves E h (λ x. x) v
    after_letterbox-Metas what (err e) h v = moves E h (λ x. x) v

  after_commit-Metas :
      (w : VideoWorld E) {i : ℕ} {f : VideoFrame E} {g : E.Geometry} (b : Bool)
      → w.lb ≡ published i f g
      → MetasOf E w
      → MetasOf E (after_commit E w f b)
  after_commit-Metas w true h v = commits-Metas E h v
  after_commit-Metas w false h v = moves E h (λ x. (_, x)) v

  LetterboxStep-Metas :
      {w w' : VideoWorld E}
      → LetterboxStep E w w'
      → length w.shown ≤ length w.committed_frames
      → MetasOf E w
      → MetasOf E w'
  unfolding publish retract record_failure
  LetterboxStep-Metas (admits {b = true} h e) few v = moves E h (λ x. x) v
  LetterboxStep-Metas (admits {b = false} h e) few v = moves E h (λ x. tt) v
  LetterboxStep-Metas (takes h e) few v = moves E h (λ x. x) v
  LetterboxStep-Metas (take_throws what h e) few v = moves E h (λ x. tt) v
  LetterboxStep-Metas (claims h e) few v = after_claim-Metas _ _ h v
  LetterboxStep-Metas (pops {o = o} h e) few v = after_pop-Metas o h v
  LetterboxStep-Metas (gives_back h e) few v = moves E h (λ x. tt) v
  LetterboxStep-Metas (give_back_throws what h e) few v = moves E h (λ x. tt) v
  LetterboxStep-Metas (letterboxes what h) few v = after_letterbox-Metas what _ h v
  LetterboxStep-Metas (unwinds h e) few v = moves E h (λ x. tt) v
  LetterboxStep-Metas (unwind_throws what h e) few v = moves E h (λ x. tt) v
  LetterboxStep-Metas (publishes h) few v = publishes-Metas E h v
  LetterboxStep-Metas {w = w} (commits {r = r} h e) few v =
      after_commit-Metas (with_detect E w _) r.2 h v
  LetterboxStep-Metas (commit_throws what h e) few v = moves E h (λ x. tt) v
  LetterboxStep-Metas (retracts h) few v = retracts-Metas E h few v
  LetterboxStep-Metas (lb_fails h) few v = moves E h (λ x. tt) v
  LetterboxStep-Metas (clears h) few v = moves E h (λ x. tt) v
  LetterboxStep-Metas (leaves h) few v = moves E h (λ x. tt) v

  DrainStep-Metas : {w w' : VideoWorld E} → DrainStep E w w' → MetasOf E w → MetasOf E w'
  unfolding record_failure
  DrainStep-Metas (looks h) v = v
  DrainStep-Metas (reads h) v = v
  DrainStep-Metas (hears a h) v = v
  DrainStep-Metas (hands {r = (c, true)} h e) v = v
  DrainStep-Metas (hands {r = (c, false)} h e) v = v
  DrainStep-Metas (drain_fails h) v = v
  DrainStep-Metas (unblocks h) v = v
  DrainStep-Metas (drain_ends h) v = v
  DrainStep-Metas (drain_closes h) v = v

  after_next-Metas :
      (w : VideoWorld E) (r : Parked E) (o : Result E.Message E.Dets)
      → MetasOf E w
      → MetasOf E (after_next E w r o)
  after_next-Metas w r (ok dets) v = v
  after_next-Metas w r (err m) v = v

  finish_input-meta : (p : VideoPipeline E) → (finish_input E p).meta ≡ p.meta
  unfolding finish_input
  finish_input-meta p = if-both (λ (q : VideoPipeline E). q.meta ≡ p.meta) p.finished refl refl

  ClientStep-Metas :
      {w w' : VideoWorld E}
      → ClientStep E w w'
      → length w.shown + owed E w.caller ≤ length w.committed_frames
      → MetasOf E w
      → MetasOf E w'
  unfolding pop_meta stop
  ClientStep-Metas {w = w} (takes_next {r = r} h got) few v =
      after_next-Metas (with_detect E w _) r r.outcome v
  ClientStep-Metas (asks_next waits h e) few v = v
  ClientStep-Metas (gets_none h e) few v = v
  ClientStep-Metas {w = w} (pops_meta {r = r} h) few v =
      pops-Metas E w.impl w.impl.meta r w.thrown (omega (arith, few, ap (owed E) h)) v
  ClientStep-Metas {w = w} (finishes h) few v = rw (finish_input-meta w.impl) v
  ClientStep-Metas (stops h) few v = v
  ClientStep-Metas (client_closes h) few v = v
  ClientStep-Metas (client_ends h) few v = v

  -- As long as no more results were shown or are owed than frames committed.
  pub VideoStep-Metas :
      {n : ℕ} {w w' : VideoWorld E}
      → VideoStep E n w w'
      → length w.shown + owed E w.caller ≤ length w.committed_frames
      → MetasOf E w
      → MetasOf E w'
  VideoStep-Metas (letterbox st) few v = LetterboxStep-Metas st (omega (arith, few)) v
  VideoStep-Metas (draining st) few v = DrainStep-Metas st v
  VideoStep-Metas (calling st) few v = ClientStep-Metas st few v
  VideoStep-Metas (worker i lt st) few v = v
  VideoStep-Metas (drops k h) few v = v
