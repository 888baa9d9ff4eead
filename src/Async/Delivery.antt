-- ===== src/Async/Delivery.antt =====
-- pipeline/async_detection_pipeline.h: "returns results in SUBMISSION order", and what next() and
-- inFlight() say, in every state that the threads can reach.
use rcdl.Common.{
  ℕ, ap, ◌∙◌, ◌^◌, ◌%◌, ◌-◌, ◌<◌, ◌+◌, ◌<◌, ◌≤◌, ◌≡◌, true, false, List, [], none, some, length,
  get_elem?, err, arith,
}
use rcdl.Common.Int.{ℤ, pos, to_int, to_int-small}
use rcdl.Common.Family.{bit, passing}
use rcdl.Pool.{Pool, size, is_free}
use rcdl.Pool.Leases.Ownership.{Owned}
use rcdl.Common.{ltb}
use rcdl.Async.Interface.{Stages}
use rcdl.Async.Impl.{
  Pipeline, Parked, Slot, queued, slot_not_held, letterbox_into_slot, commit_slot, release_slot,
  u64,
}
use rcdl.Async.Worker.{next, in_flight}
use rcdl.Async.World.{World, Worker, waiting, running, finished, returning, gone, initial, Reach}
use rcdl.Async.Calls.{queued_refused, next-result, next-end}
use rcdl.Async.Custody.{queued-lt, in_custody}
use rcdl.Async.Order.{WorkerOrder}
use rcdl.Async.Complete.{queues}
use rcdl.Async.Invariant.{Inv, Reach-Inv}

-- The worker has a frame: it is in infer() or postprocess(), or about to park.
abbrev pub Busy : {E : Stages} → Worker E → Type 0
Busy waiting = ⊥
Busy (running seq lb) = Unit
Busy (finished seq r) = Unit
Busy (returning l) = ⊥
Busy gone = ⊥

Busy-queued :
    (E : Stages) (expected : List (Parked E)) (s : Slot E) (x : Worker E)
    → Busy x
    → WorkerOrder E expected s x
    → s.state ≡ queued
Busy-queued E expected s (running seq lb) busy h = h.0
Busy-queued E expected s (finished seq r) busy h = h.0
Busy-queued E expected s waiting busy h = absurd busy
Busy-queued E expected s (returning l) busy h = absurd busy
Busy-queued E expected s gone busy h = absurd busy

module _ (E : Stages) (pool : Pool) (depth : ℤ)
    (fresh : Owned (record { pool = pool; leases = [] })) {w : World E}
    (reach : Reach E (size pool) (initial E pool depth) w) (small : length w.expected < u64) where
  inv : Inv E (size pool) w
  inv = Reach-Inv E pool depth fresh reach small

  -- In every state that a new pipeline on a pool with all contexts free reaches with fewer than 2^64
  -- commits: no more results were drained than frames committed, and the k-th result drained is that
  -- of the k-th frame committed, computed from that frame's own tensor and geometry, however the
  -- threads interleave.
  pub delivered_in_order :
      (length w.delivered ≤ length w.expected)
      × ((k : ℕ) → k < length w.delivered → get_elem? w.delivered k ≡ get_elem? w.expected k)
  delivered_in_order = (
    omega (arith, inv.order.bounded, inv.order.counted),
    λ k lt. inv.order.in_order k (omega (arith, inv.order.counted)),
  )

  -- In the same states (a new pipeline on a pool with all contexts free, fewer than 2^64 commits): a
  -- result that next() is about to return is that of the next frame in the order of the commits.
  pub next_is_due :
      {p : Pipeline E} {r : Parked E}
      → next E w.impl ≡ some (p, some r)
      → get_elem? w.expected (length w.delivered) ≡ some r
  next_is_due {p} {r} h = rw inv.order.counted (inv.order.parked _ r (next-result E w.impl h)).0

  -- In the same states (a new pipeline on a pool with all contexts free, fewer than 2^64 commits),
  -- and until a shutdown, next() returns false only when the pipeline is finished and the results of
  -- all committed frames were drained.
  pub next_ends :
      {p : Pipeline E}
      → next E w.impl ≡ some (p, none)
      → w.impl.stopping ≡ false
      → (w.impl.finished ≡ true) × (length w.delivered ≡ length w.expected)
  next_ends h go =
      let (done, same) = next-end E w.impl h go in
      (done, omega (arith, same, inv.order.counted, inv.numbered))

  -- In the same states (a new pipeline on a pool with all contexts free, fewer than 2^64 commits),
  -- and until a shutdown, inFlight() is the number of frames that are parked or queued, provided that
  -- an int can hold it.
  pub in_flight-eq :
      w.impl.stopping ≡ false
      → length w.impl.pending + passing (queues E) (size pool) w.impl.slots < 2 ^ 31
      → in_flight E w.impl
        ≡ pos (length w.impl.pending + passing (queues E) (size pool) w.impl.slots)
  unfolding in_flight
  in_flight-eq go few =
      let counted : (w.impl.next_in + u64 - w.impl.next_out) % u64
          ≡ length w.impl.pending + passing (queues E) (size pool) w.impl.slots =
        omega (arith, inv.numbered, inv.order.bounded, (inv.complete go).counted) in
      ap to_int counted ∙ to_int-small _ few

  -- In every state that a new pipeline on a pool with all contexts free reaches with fewer than 2^64
  -- commits, each context of the pool is free, or with its slot, its worker or one caller: never with
  -- two of them, and never lost.
  pub context_once :
      (i : ℕ)
      → in_custody E w.impl.slots w.workers w.taken w.dropped i + bit (is_free w.impl.pool.free i)
        ≡ bit (ltb i (size pool))
  context_once i = rw (← inv.custody.sized) (inv.custody.balance.once i)

  -- In the same states (a new pipeline on a pool with all contexts free, fewer than 2^64 commits):
  -- while a worker has a frame its context's tensor is its own, since commitSlot and releaseSlot on
  -- that slot's handle throw, and letterboxIntoSlot leaves the pipeline as it was.
  pub Busy-refused :
      (i : ℕ) (src : E.Source) (lb : E.Geometry)
      → Busy (w.workers i)
      → (commit_slot E w.impl (pos i) lb ≡ err slot_not_held)
        × (release_slot E w.impl (pos i) ≡ err slot_not_held)
        × ((letterbox_into_slot E w.impl (pos i) src).0 ≡ w.impl)
  Busy-refused i src lb busy =
      let st : (w.impl.slots i).state ≡ queued =
        Busy-queued E w.expected (w.impl.slots i) (w.workers i) busy (inv.order.worker i) in
      queued_refused E w.impl i src lb (queued-lt E inv.custody i st) st
