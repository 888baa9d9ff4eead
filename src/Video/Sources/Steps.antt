-- ===== src/Video/Sources/Steps.antt =====
-- pipeline/async_video_detection_pipeline.cc: each step of the threads and callers moves the frames
-- from one place to the next.
use rcdl.Common.{
  ℕ, ◌≡◌, refl, sym, subst, ◌∙◌, Bool, true, false, List, [], ◌∷◌, ◌++◌, Option, none, some, Result,
  ok, err, inl, inr, if-both, if-cases, ◌||◌, ◌⊎◌, length, ltb, leb, suc,
}
use mathlib.Core.List.{append-nil, append_assoc}
use rcdl.Async.Interface.{Stages}
use rcdl.Common.Pairwise.{some-injective}
use rcdl.Common.Int.{ℤ}
use rcdl.Pool.{Pool}
use rcdl.Async.Impl.{Parked, Error}
use rcdl.Video.Channel.{Channel, push, pop, pop_items, close, open_channel}
use rcdl.Video.Impl.{
  VideoFrame, VideoPipeline, Answer, picture, nothing, threw, Drain, polling, asking, handing, look,
  after_answer, record_failure, publish, retract, max_empty_flushes, FrameMeta, take_front,
  pop_meta, finish_input, stop, start_video,
}
use rcdl.Video.State.{
  Letterboxer, claiming, taking, framed, published, VideoWorld, after_claim, after_pop,
  after_letterbox, after_commit, after_push, frames_of, after_next, with_detect, video_initial,
}
use rcdl.Video.World.{
  LetterboxStep, admits, takes, take_throws, claims, pops, gives_back, give_back_throws,
  letterboxes, unwinds, unwind_throws, publishes, commits, commit_throws, retracts, lb_fails,
  clears, leaves, DrainStep, looks, reads, hears, hands, drain_fails, unblocks, drain_ends,
  drain_closes, ClientStep, asks_next, gets_none, takes_next, pops_meta, finishes, stops,
  client_closes, client_ends, VideoStep, letterbox, draining, calling, worker, drops, VideoReach,
  here, and_then,
}
use rcdl.Video.Sources.{
  in_lb, lost_at, drain_at, Sources, SourcesOf, lb_moves, lb_loses, drain_moves,
}

none-some {ℓ} : {A : Type ℓ} {x : A} → ◌≡◌ {A = Option A} none (some x) → ⊥
none-some h = cc

module _ (E : Stages) where
  -- A frame that pop() gives is the front one.
  pop-items :
      (i : ℕ) (c : Channel (VideoFrame E)) (items : List (VideoFrame E))
      {c' : Channel (VideoFrame E)} {o : Option (VideoFrame E)}
      → c.items ≡ items
      → pop_items c items ≡ some (c', o)
      → c.items ≡ in_lb E (after_pop E i o) ++ c'.items
  pop-items i c (f ∷ rest) e h =
      e
      ∙ subst
          (λ (x : Channel (VideoFrame E) × Option (VideoFrame E)).
            f ∷ rest ≡ in_lb E (after_pop E i x.1) ++ x.0.items)
          (some-injective h) refl
  pop-items i c [] e h = elim (if-cases c.closed _ _ h) [
    | inl (shut, same) ↦
        subst
          (λ (x : Channel (VideoFrame E) × Option (VideoFrame E)).
            c.items ≡ in_lb E (after_pop E i x.1) ++ x.0.items)
          (some-injective same) refl
    | inr (opened, same) ↦ absurd (none-some same)
  ]

  after_pop-Sources :
      {received committed lost_by_lb items items' : List (VideoFrame E)} {drain : Drain E}
      {lost_by_drain : List (VideoFrame E)} {a : Letterboxer E} {i : ℕ} (o : Option (VideoFrame E))
      → a ≡ taking i
      → items ≡ in_lb E (after_pop E i o) ++ items'
      → Sources E received committed lost_by_lb a items drain lost_by_drain
      → Sources E received committed lost_by_lb (after_pop E i o) items' drain lost_by_drain
  after_pop-Sources {lost_by_lb = lost_by_lb} none h e v = record {
    whole = v.whole ∙ rw h (rw e refl);
    lb_lost = lost_at E lost_by_lb h v.lb_lost;
    drain_lost = v.drain_lost;
  }
  after_pop-Sources {lost_by_lb = lost_by_lb} (some f) h e v = record {
    whole = v.whole ∙ rw h (rw e refl);
    lb_lost = lost_at E lost_by_lb h v.lb_lost;
    drain_lost = v.drain_lost;
  }

  after_claim-Sources :
      {received committed lost_by_lb items : List (VideoFrame E)} {drain : Drain E}
      {lost_by_drain : List (VideoFrame E)} {a : Letterboxer E} {k : ℕ} (i : ℕ) (b : Bool)
      → a ≡ claiming k
      → Sources E received committed lost_by_lb a items drain lost_by_drain
      → Sources E received committed lost_by_lb (after_claim E i b) items drain lost_by_drain
  after_claim-Sources i true h v = lb_moves E h refl (λ x. x) v
  after_claim-Sources i false h v = lb_moves E h refl (λ x. tt) v

  after_letterbox-Sources :
      {received committed lost_by_lb items : List (VideoFrame E)} {drain : Drain E}
      {lost_by_drain : List (VideoFrame E)} {a : Letterboxer E} {i : ℕ} {f : VideoFrame E}
      (what : List ℕ) (r : Result (Error E.Message) E.Geometry)
      → a ≡ framed i f
      → Sources E received committed lost_by_lb a items drain lost_by_drain
      → Sources E received committed lost_by_lb
          (after_letterbox E i f what r)
          items
          drain
          lost_by_drain
  after_letterbox-Sources what (ok g) h v = lb_moves E h refl (λ x. x) v
  after_letterbox-Sources what (err e) h v = lb_moves E h refl (λ x. x) v

  after_commit-Sources :
      (w : VideoWorld E) {i : ℕ} {f : VideoFrame E} {g : E.Geometry} (b : Bool)
      → w.lb ≡ published i f g
      → SourcesOf E w
      → SourcesOf E (after_commit E w f b)
  after_commit-Sources w {f = f} true h v =
      let none_lost = lost_at E w.lost_by_lb h v.lb_lost in
      record {
        whole = v.whole ∙ rw h (rw none_lost (sym (append_assoc w.committed_frames (f ∷ []) _)));
        lb_lost = none_lost;
        drain_lost = v.drain_lost;
      }
  after_commit-Sources w {f = f} false h v = lb_loses E f h refl (λ x. x) refl tt v

  LetterboxStep-Sources :
      {w w' : VideoWorld E} → LetterboxStep E w w' → SourcesOf E w → SourcesOf E w'
  unfolding publish retract record_failure close pop
  LetterboxStep-Sources (admits {b = true} h e) v = lb_moves E h refl (λ x. x) v
  LetterboxStep-Sources (admits {b = false} h e) v = lb_moves E h refl (λ x. tt) v
  LetterboxStep-Sources (takes h e) v = lb_moves E h refl (λ x. x) v
  LetterboxStep-Sources (take_throws what h e) v = lb_moves E h refl (λ x. tt) v
  LetterboxStep-Sources (claims h e) v = after_claim-Sources _ _ h v
  LetterboxStep-Sources {w = w} (pops {i = i} h e) v =
      after_pop-Sources _ h (pop-items i w.impl.frames _ refl e) v
  LetterboxStep-Sources (gives_back h e) v = lb_moves E h refl (λ x. tt) v
  LetterboxStep-Sources (give_back_throws what h e) v = lb_moves E h refl (λ x. tt) v
  LetterboxStep-Sources (letterboxes what h) v = after_letterbox-Sources what _ h v
  LetterboxStep-Sources (unwinds {f = f} h e) v = lb_loses E f h refl (λ x. x) refl tt v
  LetterboxStep-Sources (unwind_throws what {f = f} h e) v = lb_loses E f h refl (λ x. x) refl tt v
  LetterboxStep-Sources (publishes h) v = lb_moves E h refl (λ x. x) v
  LetterboxStep-Sources {w = w} (commits {r = r} h e) v =
      after_commit-Sources (with_detect E w _) r.2 h v
  LetterboxStep-Sources (commit_throws what {f = f} h e) v = lb_loses E f h refl (λ x. x) refl tt v
  LetterboxStep-Sources (retracts h) v = lb_moves E h refl (λ x. tt) v
  LetterboxStep-Sources (lb_fails h) v = lb_moves E h refl (λ x. tt) v
  LetterboxStep-Sources (clears h) v = lb_moves E h refl (λ x. tt) v
  LetterboxStep-Sources (leaves h) v = lb_moves E h refl (λ x. tt) v

  look-Sources :
      {received committed lost_by_lb items lost_by_drain : List (VideoFrame E)} {lb : Letterboxer E}
      {a : Drain E} {k : ℕ} (p : VideoPipeline E)
      → a ≡ polling k
      → Sources E received committed lost_by_lb lb items a lost_by_drain
      → Sources E received committed lost_by_lb lb items (look E p k) lost_by_drain
  unfolding look
  look-Sources {received} {committed} {lost_by_lb} {items} {lost_by_drain} {lb} p h v =
      let P = λ (x : Drain E). Sources E received committed lost_by_lb lb items x lost_by_drain in
      if-both P p.stopping (drain_moves E h refl (λ x. tt) v) (drain_moves E h refl (λ x. x) v)

  hears-Sources :
      {received committed lost_by_lb items lost_by_drain : List (VideoFrame E)} {lb : Letterboxer E}
      {a : Drain E} {k : ℕ} (done : Bool) (x : Answer E)
      → a ≡ asking k done
      → Sources E received committed lost_by_lb lb items a lost_by_drain
      → Sources E
          (received ++ frames_of E x)
          committed
          lost_by_lb
          lb
          items
          (after_answer E k done x)
          lost_by_drain
  unfolding after_answer
  hears-Sources {received} {committed} {lost_by_lb} {items} {lost_by_drain} {lb} done (picture f) h
        v =
      let none_lost = drain_at E lost_by_drain h v.drain_lost in
      record {
        whole = rw v.whole (rw h (rw none_lost (simp (append_assoc, append-nil) refl)));
        lb_lost = v.lb_lost;
        drain_lost = none_lost;
      }
  hears-Sources {received} done (threw what) h v =
      rw (append-nil received) (drain_moves E h refl (λ x. x) v)
  hears-Sources {received} false (nothing eos) h v =
      rw (append-nil received) (drain_moves E h refl (λ x. x) v)
  hears-Sources {received} {committed} {lost_by_lb} {items} {lost_by_drain} {lb} {k = k} true
        (nothing eos) h v =
      let P = λ (x : Drain E). Sources E received committed lost_by_lb lb items x lost_by_drain in
      rw (append-nil received) (
        if-both P (eos || leb max_empty_flushes (suc k)) (drain_moves E h refl (λ x. tt) v)
          (drain_moves E h refl (λ x. x) v))

  push-cases :
      (c : Channel (VideoFrame E)) (f : VideoFrame E) {r : Channel (VideoFrame E) × Bool}
      → push c f ≡ some r
      → (r ≡ (c, false)) ⊎ (r ≡ (record c { items = c.items ++ f ∷ [] }, true))
  unfolding push
  push-cases c f h = elim (if-cases (ltb (length c.items) c.cap || c.closed) _ _ h) [
    | inr (full, e) ↦ absurd (none-some e)
    | inl (room, e) ↦ elim (if-cases c.closed _ _ (some-injective e)) [
      | inl (shut, e') ↦ inl (sym e')
      | inr (opened, e') ↦ inr (sym e')
    ]
  ]

  hands-Sources :
      (w : VideoWorld E) {f : VideoFrame E} {r : Channel (VideoFrame E) × Bool}
      → w.drain ≡ handing f
      → push w.impl.frames f ≡ some r
      → SourcesOf E w
      → SourcesOf E (after_push E w f r)
  hands-Sources w {f = f} h e v =
      let none_lost = drain_at E w.lost_by_drain h v.drain_lost in
      elim (push-cases w.impl.frames f e) [
        | inl shut ↦ rw shut (record {
          whole = v.whole ∙ rw h (rw none_lost refl);
          lb_lost = v.lb_lost;
          drain_lost = tt;
        })
        | inr sent ↦ rw sent (record {
          whole = v.whole ∙ rw h (rw none_lost (simp (append_assoc, append-nil) refl));
          lb_lost = v.lb_lost;
          drain_lost = none_lost;
        })
      ]

  DrainStep-Sources : {w w' : VideoWorld E} → DrainStep E w w' → SourcesOf E w → SourcesOf E w'
  unfolding record_failure close
  DrainStep-Sources {w = w} (looks h) v = look-Sources w.impl h v
  DrainStep-Sources (reads h) v = drain_moves E h refl (λ x. x) v
  DrainStep-Sources (hears a {done = done} h) v = hears-Sources done a h v
  DrainStep-Sources {w = w} (hands h e) v = hands-Sources w h e v
  DrainStep-Sources (drain_fails h) v = drain_moves E h refl (λ x. x) v
  DrainStep-Sources (unblocks h) v = drain_moves E h refl (λ x. x) v
  DrainStep-Sources (drain_ends h) v = drain_moves E h refl (λ x. tt) v
  DrainStep-Sources (drain_closes h) v = drain_moves E h refl (λ x. tt) v

  after_next-Sources :
      (w : VideoWorld E) (r : Parked E) (o : Result E.Message E.Dets)
      → SourcesOf E w
      → SourcesOf E (after_next E w r o)
  after_next-Sources w r (ok dets) v = v
  after_next-Sources w r (err m) v = v

  take_front-items :
      (p : VideoPipeline E) (meta : List FrameMeta) → (take_front E p meta).frames ≡ p.frames
  take_front-items p [] = refl
  take_front-items p (m ∷ rest) = refl

  finish_input-items : (p : VideoPipeline E) → (finish_input E p).frames ≡ p.frames
  unfolding finish_input
  finish_input-items p = if-both (λ (q : VideoPipeline E). q.frames ≡ p.frames) p.finished refl refl

  ClientStep-Sources : {w w' : VideoWorld E} → ClientStep E w w' → SourcesOf E w → SourcesOf E w'
  unfolding close stop pop_meta
  ClientStep-Sources {w = w} (takes_next {p} {r} h got) v =
      after_next-Sources (with_detect E w _) r r.outcome v
  ClientStep-Sources (asks_next waits h e) v = v
  ClientStep-Sources (gets_none h e) v = v
  ClientStep-Sources {w = w} (pops_meta h) v = rw (take_front-items w.impl w.impl.meta) v
  ClientStep-Sources {w = w} (finishes h) v = rw (finish_input-items w.impl) v
  ClientStep-Sources (stops h) v = v
  ClientStep-Sources (client_closes h) v = v
  ClientStep-Sources (client_ends h) v = v

  VideoStep-Sources :
      {n : ℕ} {w w' : VideoWorld E} → VideoStep E n w w' → SourcesOf E w → SourcesOf E w'
  VideoStep-Sources (letterbox st) v = LetterboxStep-Sources st v
  VideoStep-Sources (draining st) v = DrainStep-Sources st v
  VideoStep-Sources (calling st) v = ClientStep-Sources st v
  VideoStep-Sources (worker i lt st) v = v
  VideoStep-Sources (drops k h) v = v

  -- In every state that the pipeline's threads and callers reach, each frame that the decoder gave is
  -- in one place, in the decoder's order: committed, lost by the letterbox thread, with it, in the
  -- channel, with the drain thread, or lost by the drain thread; and a thread that has lost a frame
  -- has given up.
  pub VideoReach-Sources :
      (pool : Pool) (depth queue_depth : ℤ) {n : ℕ} {w : VideoWorld E}
      → VideoReach E n (video_initial E pool depth queue_depth) w
      → SourcesOf E w
  unfolding start_video open_channel
  VideoReach-Sources pool depth queue_depth here = record {
    whole = refl;
    lb_lost = refl;
    drain_lost = refl;
  }
  VideoReach-Sources pool depth queue_depth (and_then r st) =
      VideoStep-Sources st (VideoReach-Sources pool depth queue_depth r)
