-- ===== src/Async/Invariant.antt =====
-- pipeline/async_detection_pipeline.cc: what holds between any two steps of any threads.
mod Callers
mod Workers
mod Defs
pub use Defs.{Inv}
use rcdl.Common.{
  ℕ, zero, suc, ◌+◌, ◌<◌, ◌≤◌, ◌≡◌, ◌≢◌, refl, false, true, Bool, List, [], ◌∷◌, ◌++◌, Option, none,
  some, inl, inr, length, length-append, arith, ap, subst, Option-cases, ok,
}
use rcdl.Common.Int.{ℤ, pos}
use rcdl.Common.Assoc.{find}
use rcdl.Common.Family.{passing-none}
use rcdl.Pool.{Pool, size, Lease}
use rcdl.Pool.Leases.{Program}
use rcdl.Pool.Leases.Ownership.{Owned}
use rcdl.Async.Interface.{Stages}
use rcdl.Async.Impl.{Pipeline, Parked, Slot, commit_slot, claim, empty_slot, is_queued, start, u64}
use rcdl.Async.Worker.{Wake, sleep, leave, frame, wake, work, try_next}
use rcdl.Async.World.{
  World, initial, CallerStep, takes, claims, letterboxes, commits, releases, drops, drains,
  finishes, shuts_down, WorkerStep, wakes, infers, parks, returns, Step, caller, worker, Reach,
  here, next, claimed, committed, woken, drained,
}
use rcdl.Async.Complete.{queues}
use Callers.{
  takes-Inv, claims-Inv, letterboxes-Inv, commits-Inv, releases-Inv, drops-Inv, drains-Inv,
  shuts_down-Inv, finishes-Inv,
}
use Workers.{wakes-Inv, infers-Inv, parks-Inv, returns-Inv}

module _ (E : Stages) where
  drained-expected :
      (w : World E) (r : Pipeline E × Option (Parked E)) → (drained E w r).expected ≡ w.expected
  drained-expected w (p, none) = refl
  drained-expected w (p, some r) = refl

  claimed-expected :
      (w : World E) (k i : ℕ) (r : Pipeline E × Bool) → (claimed E w k i r).expected ≡ w.expected
  claimed-expected w k i (p, true) = refl
  claimed-expected w k i (p, false) = refl

  woken-expected : (w : World E) (i : ℕ) (x : Wake E) → (woken E w i x).expected ≡ w.expected
  woken-expected w i sleep = refl
  woken-expected w i (leave p) = refl
  woken-expected w i (frame seq lb) = refl

  committed-expected :
      (w : World E) (t : E.Tensor) (lb : E.Geometry) (r : Pipeline E × Lease × Bool)
      → length w.expected ≤ length (committed E w t lb r).expected
  committed-expected w t lb (p, l, true) =
      omega (arith, length-append w.expected (work E t lb ∷ []))
  committed-expected w t lb (p, l, false) = omega arith

  WorkerStep-grows :
      {i : ℕ} {w w' : World E} → WorkerStep E i w w' → length w.expected ≤ length w'.expected
  WorkerStep-grows {i} {w} (wakes h) =
      omega (arith, ap length (woken-expected w i (wake E w.impl i)))
  WorkerStep-grows (infers h) = omega arith
  WorkerStep-grows (parks h) = omega arith
  WorkerStep-grows (returns h) = omega arith

  -- The history of commits only grows.
  pub Step-grows : {n : ℕ} {w w' : World E} → Step E n w w' → length w.expected ≤ length w'.expected
  Step-grows (caller (takes h)) = omega arith
  Step-grows {w = w} (caller (claims k i h)) =
      omega (arith, ap length (claimed-expected w k i (claim E w.impl i)))
  Step-grows (caller (letterboxes slot src)) = omega arith
  Step-grows {w = w} (caller (commits i lb {r} h)) =
      committed-expected w (w.impl.slots i).tensor lb r
  Step-grows (caller (releases slot h)) = omega arith
  Step-grows (caller (drops k h)) = omega arith
  Step-grows {w = w} (caller drains) =
      omega (arith, ap length (drained-expected w (try_next E w.impl)))
  Step-grows (caller finishes) = omega arith
  Step-grows (caller shuts_down) = omega arith
  Step-grows (worker i lt st) = WorkerStep-grows st

  CallerStep-Inv :
      {n : ℕ} {w w' : World E}
      → CallerStep E w w'
      → length w'.expected < u64
      → Inv E n w
      → Inv E n w'
  CallerStep-Inv (takes h) small v = takes-Inv E v h
  CallerStep-Inv (claims k i h) small v = claims-Inv E v k i h
  CallerStep-Inv (letterboxes slot src) small v = letterboxes-Inv E v slot src
  CallerStep-Inv (commits i lb h) small v = commits-Inv E v i lb h small
  CallerStep-Inv (releases slot h) small v = releases-Inv E v slot h
  CallerStep-Inv (drops k h) small v = drops-Inv E v k h
  CallerStep-Inv {w = w} drains small v = drains-Inv E v (
      subst (λ (h : List (Parked E)). length h < u64) (drained-expected w (try_next E w.impl))
        small)
  CallerStep-Inv finishes small v = finishes-Inv E v
  CallerStep-Inv shuts_down small v = shuts_down-Inv E v

  pub WorkerStep-Inv :
      {n i : ℕ} {w w' : World E} → i < n → WorkerStep E i w w' → Inv E n w → Inv E n w'
  WorkerStep-Inv {i = i} lt (wakes h) v = wakes-Inv E v i h
  WorkerStep-Inv {i = i} lt (infers h) v = infers-Inv E v i h
  WorkerStep-Inv {i = i} lt (parks h) v = parks-Inv E v i lt h
  WorkerStep-Inv {i = i} lt (returns h) v = returns-Inv E v i h

  -- Every step of every thread keeps the invariant, as long as the sequence numbers do not wrap.
  pub Step-Inv :
      {n : ℕ} {w w' : World E} → Step E n w w' → length w'.expected < u64 → Inv E n w → Inv E n w'
  Step-Inv (caller st) small v = CallerStep-Inv st small v
  Step-Inv (worker i lt st) small v = WorkerStep-Inv lt st v

  -- A new pipeline on a pool whose contexts are all free.
  initial-Inv :
      (pool : Pool) (depth : ℤ)
      → Owned (record { pool = pool; leases = [] })
      → Inv E (size pool) (initial E pool depth)
  unfolding start find is_queued
  initial-Inv pool depth o = record {
    custody = record {
      sized = refl;
      balance = record { inv = o.inv; once = λ i. omega (arith, o.once i) };
      slot_lease = λ i. refl;
      worker_lease = λ i. tt;
    };
    order = record {
      bounded = omega arith;
      counted = refl;
      in_order = λ k lt. absurd (omega arith);
      unique = tt;
      parked = λ k r e. cc;
      slot = λ i e. cc;
      distinct = λ i j e. cc;
      worker = λ i. tt;
    };
    numbered = refl;
    complete = λ _. record {
      counted = omega (arith, passing-none (queues E) (empty_slot E) (size pool) refl);
      covered = λ k due made. absurd (omega arith);
      alive = λ i e. cc;
    };
  }

  -- After any steps of any threads, from a new pipeline on a pool with all contexts free, the
  -- invariant holds, as long as fewer than 2^64 frames were committed.
  pub Reach-Inv :
      (pool : Pool) (depth : ℤ) {w : World E}
      → Owned (record { pool = pool; leases = [] })
      → Reach E (size pool) (initial E pool depth) w
      → length w.expected < u64
      → Inv E (size pool) w
  Reach-Inv pool depth o here small = initial-Inv pool depth o
  Reach-Inv pool depth o (next {w = w} r st) small =
      Step-Inv st small (Reach-Inv pool depth o r (omega (arith, Step-grows st)))
