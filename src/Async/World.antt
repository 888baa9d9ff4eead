-- ===== src/Async/World.antt =====
-- pipeline/async_detection_pipeline.cc: the threads and their interleavings. A world is the
-- pipeline, where each worker stands, and the lease objects that callers have on their stacks.
-- `expected` and `delivered` record the history: for each committed frame, in the order of the
-- commits, the result of its own tensor and geometry; and the results that were drained.
use rcdl.Common.{
  ℕ, ◌<◌, ◌≡◌, Bool, true, false, List, [], ◌∷◌, ◌++◌, Option, none, some, get_elem?, set, ok,
}
use rcdl.Common.Int.{ℤ, pos}
use rcdl.Common.Family.{write}
use rcdl.Pool.{Pool, Lease, vacant, holding, acquire, release}
use rcdl.Async.Interface.{Stages}
use rcdl.Async.Impl.{Pipeline, Parked, start, claim, letterbox_into_slot, commit_slot, release_slot}
use rcdl.Async.Worker.{Wake, sleep, leave, frame, wake, work, park, try_next, finish, shut_down}

module _ (E : Stages) where
  open E use {Source, Tensor, Geometry, Dets, Message}

  -- Where a worker stands: at its wait, with a frame, with its result, with the lease that it
  -- returns after parking, or gone.
  pub data Worker : Type 0 where
    waiting : Worker
    running : ℕ → Geometry → Worker
    finished : ℕ → Parked E → Worker
    returning : Lease → Worker
    gone : Worker

  pub record World : Type 0 where
    pub impl : Pipeline E
    pub workers : ℕ → Worker
    -- Leases between `pool->acquire()` and the last section of acquireSlot.
    pub taken : List Lease
    -- Leases that wait for the end of their scope: acquireSlot's on -1, `dropped` elsewhere.
    pub dropped : List Lease
    pub expected : List (Parked E)
    pub delivered : List (Parked E)

  abbrev pub initial : Pool → ℤ → World
  initial pool depth = record {
    impl = start E pool depth;
    workers = λ _. waiting;
    taken = [];
    dropped = [];
    expected = [];
    delivered = [];
  }

  abbrev pub with_pool : World → Pool → World
  with_pool w pool = record w { impl = record w.impl { pool = pool } }

  -- `taken` after object `k` went into the slot, or into `dropped`.
  abbrev pub claimed : World → ℕ → ℕ → Pipeline E × Bool → World
  claimed w k i (p, true) = record w { impl = p; taken = set w.taken k vacant }
  claimed w k i (p, false) = record w {
    impl = p;
    taken = set w.taken k vacant;
    dropped = w.dropped ++ holding i ∷ [];
  }

  abbrev pub committed : World → Tensor → Geometry → Pipeline E × Lease × Bool → World
  committed w t lb (p, l, true) = record w {
    impl = p;
    dropped = w.dropped ++ l ∷ [];
    expected = w.expected ++ work E t lb ∷ [];
  }
  committed w t lb (p, l, false) = record w { impl = p; dropped = w.dropped ++ l ∷ [] }

  abbrev pub woken : World → ℕ → Wake E → World
  woken w i sleep = w
  woken w i (leave p) = record w { impl = p; workers = write w.workers i gone }
  woken w i (frame seq lb) = record w { workers = write w.workers i (running seq lb) }

  abbrev pub drained : World → Pipeline E × Option (Parked E) → World
  drained w (p, none) = record w { impl = p }
  drained w (p, some r) = record w { impl = p; delivered = w.delivered ++ r ∷ [] }

  -- One step of a caller. A call that throws changes nothing and is no step, except for a
  -- letterbox that throws after it has written.
  pub data CallerStep (w : World) : World → Type 0 where
    takes :
        {q : Pool} {l : Lease}
        → acquire w.impl.pool ≡ some (ok (q, l))
        → CallerStep w (record (with_pool w q) { taken = w.taken ++ l ∷ [] })
    claims :
        (k i : ℕ)
        → get_elem? w.taken k ≡ some (holding i)
        → CallerStep w (claimed w k i (claim E w.impl i))
    letterboxes :
        (slot : ℤ) (src : Source)
        → CallerStep w (record w { impl = (letterbox_into_slot E w.impl slot src).0 })
    commits :
        (i : ℕ) (lb : Geometry) {r : Pipeline E × Lease × Bool}
        → commit_slot E w.impl (pos i) lb ≡ ok r
        → CallerStep w (committed w (w.impl.slots i).tensor lb r)
    releases :
        (slot : ℤ) {p : Pipeline E} {l : Lease}
        → release_slot E w.impl slot ≡ ok (p, l)
        → CallerStep w (record w { impl = p; dropped = w.dropped ++ l ∷ [] })
    drops :
        (k : ℕ) {l : Lease}
        → get_elem? w.dropped k ≡ some l
        → CallerStep w
            (record (with_pool w (release w.impl.pool l).0) { dropped = set w.dropped k vacant })
    drains : CallerStep w (drained w (try_next E w.impl))
    finishes : CallerStep w (record w { impl = finish E w.impl })
    shuts_down : CallerStep w (record w { impl = shut_down E w.impl })

  -- One step of worker `i`.
  pub data WorkerStep (i : ℕ) (w : World) : World → Type 0 where
    wakes : w.workers i ≡ waiting → WorkerStep i w (woken w i (wake E w.impl i))
    infers :
        {seq : ℕ} {lb : Geometry}
        → w.workers i ≡ running seq lb
        → WorkerStep i w (record w {
          workers = write w.workers i (finished seq (work E (w.impl.slots i).tensor lb));
        })
    parks :
        {seq : ℕ} {r : Parked E}
        → w.workers i ≡ finished seq r
        → WorkerStep i w (record w {
          impl = (park E w.impl i seq r).0;
          workers = write w.workers i (returning (park E w.impl i seq r).1);
        })
    returns :
        {l : Lease}
        → w.workers i ≡ returning l
        → WorkerStep i w
            (record (with_pool w (release w.impl.pool l).0) { workers = write w.workers i waiting })

  -- The pool has `n` contexts, so there are `n` workers.
  pub data Step (n : ℕ) (w : World) : World → Type 0 where
    caller : {w' : World} → CallerStep w w' → Step n w w'
    worker : (i : ℕ) {w' : World} → i < n → WorkerStep i w w' → Step n w w'

  pub data Reach (n : ℕ) (s : World) : World → Type 0 where
    here : Reach n s s
    next : {w w' : World} → Reach n s w → Step n w w' → Reach n s w'
