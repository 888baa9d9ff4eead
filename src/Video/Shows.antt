-- ===== src/Video/Shows.antt =====
-- pipeline/async_video_detection_pipeline.cc: next() and tryNext() give the drained results one by one,
-- except for those that make them throw.
use rcdl.Common.{
  ℕ, ◌≡◌, ◌≤◌, ◌+◌, sym, subst, ap, ◌∙◌, Bool, true, false, List, [], ◌∷◌, ◌++◌, length, get_elem?,
  length-append, get_elem?-append_left, get_elem?-append_last, get_elem?-some_lt, some, Result, ok,
  err, arith, inl, inr,
}
use rcdl.Common.Pairwise.{get_elem?-snoc}
use rcdl.Pool.{Lease}
use rcdl.Async.Interface.{Stages}
use rcdl.Async.Impl.{Pipeline, Parked}
use rcdl.Async.Worker.{try_next}
use rcdl.Async.World.{World, committed, drained}
use rcdl.Async.Quiet.{WorkerStep-Quiet, claimed-Quiet}
use rcdl.Video.Impl.{VideoFrame, FrameMeta}
use rcdl.Video.State.{
  Caller, idle, calling_next, owing, stopping, joining, Shown, VideoWorld, with_detect,
  after_commit, after_next,
}
use rcdl.Video.World.{
  LetterboxStep, admits, takes, take_throws, claims, pops, gives_back, give_back_throws,
  letterboxes, unwinds, unwind_throws, publishes, commits, commit_throws, retracts, lb_fails,
  clears, leaves, DrainStep, looks, reads, hears, hands, drain_fails, unblocks, drain_ends,
  drain_closes, ClientStep, asks_next, gets_none, takes_next, pops_meta, finishes, stops,
  client_closes, client_ends, VideoStep, letterbox, draining, calling, worker, drops,
}
use rcdl.Video.Detector.{got-result, drained-history}
use rcdl.Video.Metas.{owed}

module _ (E : Stages) where
  abbrev pub Owes : List (Parked E) → ℕ → Caller E → Type 0
  Owes delivered k (owing r) = get_elem? delivered k ≡ some r
  Owes delivered k idle = Unit
  Owes delivered k (calling_next waits) = Unit
  Owes delivered k stopping = Unit
  Owes delivered k joining = Unit

  pub record Shows (delivered : List (Parked E)) (shown : List (Shown E)) (thrown : ℕ)
      (caller : Caller E) : Type 0 where
    pub count : length shown + thrown + owed E caller ≡ length delivered
    pub each :
        (k : ℕ) (s : Shown E)
        → get_elem? shown k ≡ some s
        → (s.thrown ≤ thrown) × (get_elem? delivered (k + s.thrown) ≡ some s.result)
    pub owes : Owes delivered (length shown + thrown) caller

  abbrev pub ShowsOf : VideoWorld E → Type 0
  ShowsOf w = Shows w.detect.delivered w.shown w.thrown w.caller

  -- An entry stays where it is when a list grows.
  kept :
      (delivered : List (Parked E)) (r : Parked E) (k : ℕ) {x : Parked E}
      → get_elem? delivered k ≡ some x
      → get_elem? (delivered ++ r ∷ []) k ≡ some x
  kept delivered r k h =
      get_elem?-append_left delivered (r ∷ []) k (get_elem?-some_lt delivered k h) ∙ h

  module _ {delivered : List (Parked E)} {shown : List (Shown E)} {thrown : ℕ} {c : Caller E}
      (r : Parked E) where
    -- A result comes out, ...
    takes-Shows :
        {waits : Bool}
        → c ≡ calling_next waits
        → Shows delivered shown thrown c
        → Shows (delivered ++ r ∷ []) shown thrown (owing r)
    takes-Shows h v =
        let n : length delivered ≡ length shown + thrown = omega (arith, v.count, ap (owed E) h) in
        record {
          count = omega (arith, n, length-append delivered (r ∷ []));
          each = λ k s at. let (few, e) = v.each k s at in (few, kept delivered r (k + s.thrown) e);
          owes =
              subst (λ (k : ℕ). get_elem? (delivered ++ r ∷ []) k ≡ some r) n
                (get_elem?-append_last delivered r);
        }

    -- ... or makes the call throw.
    throws-Shows :
        {waits : Bool}
        → c ≡ calling_next waits
        → Shows delivered shown thrown c
        → Shows (delivered ++ r ∷ []) shown (thrown + 1) idle
    throws-Shows h v = record {
      count = omega (arith, v.count, ap (owed E) h, length-append delivered (r ∷ []));
      each = λ k s at.
          let (few, e) = v.each k s at in (omega (arith, few), kept delivered r (k + s.thrown) e);
      owes = tt;
    }

    pops-Shows :
        (m : FrameMeta)
        → c ≡ owing r
        → Shows delivered shown thrown c
        → Shows delivered
            (shown ++ record { result = r; meta = m; thrown = thrown } ∷ [])
            thrown
            idle
    pops-Shows m h v =
        let s₀ : Shown E = record { result = r; meta = m; thrown = thrown } in
        record {
          count = omega (arith, v.count, ap (owed E) h, length-append shown (s₀ ∷ []));
          each = λ k s at. elim (get_elem?-snoc shown s₀ k at) [
            | inl old ↦ v.each k s old
            | inr (last, same) ↦
                subst
                  (λ (x : Shown E).
                    (x.thrown ≤ thrown) × (get_elem? delivered (k + x.thrown) ≡ some x.result))
                  same
                  (
                    omega arith,
                    subst (λ (j : ℕ). get_elem? delivered (j + thrown) ≡ some r) (sym last)
                        (subst (Owes delivered (length shown + thrown)) h v.owes),
                  )
          ];
          owes = tt;
        }

  after_commit-Shows :
      (w : VideoWorld E) (f : VideoFrame E) (t : E.Tensor) (g : E.Geometry)
      (r : Pipeline E × Lease × Bool)
      → ShowsOf w
      → ShowsOf (after_commit E (with_detect E w (committed E w.detect t g r)) f r.2)
  after_commit-Shows w f t g (p, l, true) v = v
  after_commit-Shows w f t g (p, l, false) v = v

  LetterboxStep-Shows : {w w' : VideoWorld E} → LetterboxStep E w w' → ShowsOf w → ShowsOf w'
  LetterboxStep-Shows (admits h e) v = v
  LetterboxStep-Shows (takes h e) v = v
  LetterboxStep-Shows (take_throws what h e) v = v
  LetterboxStep-Shows {w = w} (claims {k} {i} h e) v = rw (claimed-Quiet E w.detect k i).delivered v
  LetterboxStep-Shows (pops h e) v = v
  LetterboxStep-Shows (gives_back h e) v = v
  LetterboxStep-Shows (give_back_throws what h e) v = v
  LetterboxStep-Shows (letterboxes what h) v = v
  LetterboxStep-Shows (unwinds h e) v = v
  LetterboxStep-Shows (unwind_throws what h e) v = v
  LetterboxStep-Shows (publishes h) v = v
  LetterboxStep-Shows {w = w} (commits {i} {f} {g} {r = r} h e) v =
      after_commit-Shows w f (w.detect.impl.slots i).tensor g r v
  LetterboxStep-Shows (commit_throws what h e) v = v
  LetterboxStep-Shows (retracts h) v = v
  LetterboxStep-Shows (lb_fails h) v = v
  LetterboxStep-Shows (clears h) v = v
  LetterboxStep-Shows (leaves h) v = v

  DrainStep-Shows : {w w' : VideoWorld E} → DrainStep E w w' → ShowsOf w → ShowsOf w'
  DrainStep-Shows (looks h) v = v
  DrainStep-Shows (reads h) v = v
  DrainStep-Shows (hears a h) v = v
  DrainStep-Shows (hands {r = (c, true)} h e) v = v
  DrainStep-Shows (hands {r = (c, false)} h e) v = v
  DrainStep-Shows (drain_fails h) v = v
  DrainStep-Shows (unblocks h) v = v
  DrainStep-Shows (drain_ends h) v = v
  DrainStep-Shows (drain_closes h) v = v

  after_next-Shows :
      (w : VideoWorld E) (d : World E) (r : Parked E) (o : Result E.Message E.Dets) {waits : Bool}
      → d.delivered ≡ w.detect.delivered ++ r ∷ []
      → w.caller ≡ calling_next waits
      → ShowsOf w
      → ShowsOf (after_next E (with_detect E w d) r o)
  after_next-Shows w d r (ok dets) e h v = rw e (takes-Shows r h v)
  after_next-Shows w d r (err m) e h v = rw e (throws-Shows r h v)

  quiet_client :
      {delivered : List (Parked E)} {shown : List (Shown E)} {thrown : ℕ} {c c' : Caller E}
      → owed E c ≡ owed E c'
      → Owes delivered (length shown + thrown) c'
      → Shows delivered shown thrown c
      → Shows delivered shown thrown c'
  quiet_client same h v = record { count = omega (arith, v.count, same); each = v.each; owes = h }

  ClientStep-Shows : {w w' : VideoWorld E} → ClientStep E w w' → ShowsOf w → ShowsOf w'
  ClientStep-Shows {w = w} (takes_next {waits} {r = r} h got) v =
      let x = try_next E w.detect.impl in
      after_next-Shows w (drained E w.detect x) r r.outcome
        (drained-history E w.detect x (got-result E waits w.detect.impl got)).0 h v
  ClientStep-Shows (asks_next waits h e) v = quiet_client (ap (owed E) h) tt v
  ClientStep-Shows (gets_none h e) v = quiet_client (ap (owed E) h) tt v
  ClientStep-Shows (pops_meta {r = r} h) v = pops-Shows r _ h v
  ClientStep-Shows (finishes h) v = v
  ClientStep-Shows (stops h) v = quiet_client (ap (owed E) h) tt v
  ClientStep-Shows (client_closes h) v = quiet_client (ap (owed E) h) tt v
  ClientStep-Shows (client_ends h) v = v

  pub VideoStep-Shows : {n : ℕ} {w w' : VideoWorld E} → VideoStep E n w w' → ShowsOf w → ShowsOf w'
  VideoStep-Shows (letterbox st) v = LetterboxStep-Shows st v
  VideoStep-Shows (draining st) v = DrainStep-Shows st v
  VideoStep-Shows (calling st) v = ClientStep-Shows st v
  VideoStep-Shows (worker i lt st) v = rw (WorkerStep-Quiet E st).delivered v
  VideoStep-Shows (drops k h) v = v
