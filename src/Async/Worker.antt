-- ===== src/Async/Worker.antt =====
-- pipeline/async_detection_pipeline.cc: workerLoop, next, tryNext, finish and shutdown.
use rcdl.Common.{
  ℕ, ◌+◌, ◌-◌, ◌%◌, Bool, true, false, ◌&&◌, ◌||◌, Option, none, some, ◌==◌, if◌then◌else◌, Result,
  ok, err,
}
use rcdl.Common.Int.{ℤ, to_int}
use rcdl.Common.Assoc.{find, emplace, erase}
use rcdl.Common.Family.{write}
use rcdl.Pool.{Lease, release}
use rcdl.Async.Interface.{Stages}
use rcdl.Async.Impl.{Pipeline, Parked, free, is_held, is_queued, freed, Error, worker_failed, u64}

module _ (E : Stages) where
  open E use {Tensor, Geometry, Dets, Message}

  -- What a worker finds when it looks at its slot: it sleeps, leaves, or has a frame.
  pub data Wake : Type 0 where
    sleep : Wake
    leave : Pipeline E → Wake
    frame : ℕ → Geometry → Wake

  -- On the way out a worker returns the context of its slot, unless a caller holds the slot.
  unfoldable pub abandon : Pipeline E → ℕ → Pipeline E
  abandon p i =
      if is_held (p.slots i).state
      then p
      else let (pool, lease) = release p.pool (p.slots i).lease in
        record p {
          pool = pool;
          slots = write p.slots i (record (p.slots i) { lease = lease; state = free });
        }

  unfoldable pub wake : Pipeline E → ℕ → Wake
  wake p i =
      if is_queued (p.slots i).state || p.stopping
      then if p.stopping then leave (abandon p i) else frame (p.slots i).seq (p.slots i).lb
      else sleep

  -- infer() and postprocess(), with no lock held; an exception is kept in the result.
  unfoldable pub work : Tensor → Geometry → Parked E
  work t lb = record { lb = lb; outcome = E.infer_and_decode t lb }

  -- The parking step. The worker returns the lease afterwards, outside `mu`.
  unfoldable pub park : Pipeline E → ℕ → ℕ → Parked E → Pipeline E × Lease
  park p i seq r = (record (freed E p i) { pending = emplace seq r p.pending }, (p.slots i).lease)

  -- What `next` and `tryNext` do once they look for the result that they owe.
  abbrev pub pop : Pipeline E → Option (Parked E) → Pipeline E × Option (Parked E)
  pop p none = (p, none)
  pop p (some r) = (
    record p {
      pending = erase p.next_out p.pending;
      next_out = (p.next_out + 1) % u64;
      last_lb = r.lb;
    },
    some r,
  )

  unfoldable pub try_next : Pipeline E → Pipeline E × Option (Parked E)
  try_next p = pop p (find p.next_out p.pending)

  abbrev pub is_some : Option (Parked E) → Bool
  is_some none = false
  is_some (some r) = true

  -- `next` sleeps until its result is there, or will never be.
  unfoldable pub next : Pipeline E → Option (Pipeline E × Option (Parked E))
  unfolding try_next
  next p =
      if is_some (find p.next_out p.pending)
        || (p.stopping || (p.finished && p.next_out == p.next_in))
      then some (try_next p)
      else none

  -- The return value, with the detections put in `out`; `none` stands for false.
  abbrev pub outcome_of : Result Message Dets → Result (Error Message) (Option Dets)
  outcome_of (ok dets) = ok (some dets)
  outcome_of (err m) = err (worker_failed m)

  unfoldable pub deliver : Parked E → Result (Error Message) (Option Dets)
  deliver r = outcome_of r.outcome

  unfoldable pub finish : Pipeline E → Pipeline E
  finish p = record p { finished = true }

  -- `shutdown`, before it joins the threads.
  unfoldable pub shut_down : Pipeline E → Pipeline E
  shut_down p = record p { finished = true; stopping = true }

  -- The difference of two uint64_t, as an int.
  unfoldable pub in_flight : Pipeline E → ℤ
  in_flight p = to_int ((p.next_in + u64 - p.next_out) % u64)
