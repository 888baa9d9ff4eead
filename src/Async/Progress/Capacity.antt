-- ===== src/Async/Progress/Capacity.antt =====
-- pipeline/async_detection_pipeline.cc: acquireSlot's wait for a context ends, "a leased context is
-- held by a worker that releases it as soon as its frame is parked".
use rcdl.Common.{ℕ, ◌<◌, ◌≡◌, ◌≢◌, refl, inl, inr, Bool, true, false, none, List, arith}
use rcdl.Pool.{holding, acquire, is_free}
use rcdl.Pool.Free.{free_count, free_count-set-false}
use rcdl.Pool.Invariant.{acquire-cases}
use rcdl.Pool.Leases.Weights.{holds, weigh}
use rcdl.Async.Interface.{Stages}
use rcdl.Async.Impl.{SlotState, free, held, queued}
use rcdl.Async.World.{World, waiting, returning, returns}
use rcdl.Async.Custody.{free-owner}
use rcdl.Async.Invariant.{Inv, WorkerStep-Inv}
use rcdl.Async.Progress.{WorkerRun, stay, more, Onward, onward, queued-Parks, write_self}

free_count-pos : (fs : List Bool) (i : ℕ) → is_free fs i ≡ true → 0 < free_count fs
free_count-pos fs i h = omega (arith, free_count-set-false fs i h)

module _ (E : Stages) where
  -- No caller has a context: none holds a slot, or a lease on its stack.
  pub record CallersIdle (w : World E) : Type 0 where
    pub no_slot : (i : ℕ) → (w.impl.slots i).state ≢ held
    pub no_taken : (i : ℕ) → weigh (holds i) w.taken ≡ 0
    pub no_dropped : (i : ℕ) → weigh (holds i) w.dropped ≡ 0

  acquire-ready :
      {n : ℕ} {w : World E} (i : ℕ)
      → Inv E n w
      → is_free w.impl.pool.free i ≡ true
      → acquire w.impl.pool ≢ none
  acquire-ready {w = w} i v h e = elim (acquire-cases w.impl.pool v.custody.balance.inv) [
    | inl (_, full) ↦
        omega (arith, v.custody.balance.inv.counted, full, free_count-pos w.impl.pool.free i h)
    | inr (j, e', t) ↦ cc
  ]

  returning-frees :
      {n : ℕ} {s w : World E} (i : ℕ)
      → i < n
      → Onward E n s w
      → w.workers i ≡ returning (holding i)
      → weigh (holds i) w.taken ≡ 0
      → weigh (holds i) w.dropped ≡ 0
      → (w' : World E) × WorkerRun E n s w' × (acquire w'.impl.pool ≢ none)
  returning-frees {n} {s} {w} i lt o h nt nd =
      let v' : Inv E n _ = WorkerStep-Inv E lt (returns h) o.inv in
      (
        _,
        more i o.run lt (returns h),
        acquire-ready i v' (
            ground (
              arith,
              v'.custody.balance.once i,
              v'.custody.sized,
              o.inv.custody.balance.once i,
              write_self E w.workers i waiting,
              h,
              nt,
              nd,
            )),
      )

  -- Where the invariant holds, the pool has a context, there is no shutdown and no caller has a
  -- context, acquireSlot's wait for one ends: the workers alone can reach a state in which the pool
  -- has one.
  pub acquire_unblocked :
      {n : ℕ} (w : World E)
      → Inv E n w
      → w.impl.stopping ≡ false
      → 0 < n
      → CallersIdle w
      → (w' : World E) × WorkerRun E n w w' × (acquire w'.impl.pool ≢ none)
  acquire_unblocked {n} w v go some_context idle = by_state (w.impl.slots 0).state refl
    where
      by_state :
          (st : SlotState)
          → (w.impl.slots 0).state ≡ st
          → (w' : World E) × WorkerRun E n w w' × (acquire w'.impl.pool ≢ none)
      by_state held h = absurd (idle.no_slot 0 h)
      by_state queued h =
          let (w', p) = queued-Parks E 0 some_context _ (onward E v go) h refl in
          returning-frees 0 some_context p.onward p.back (rw p.onward.taken (idle.no_taken 0))
            (rw p.onward.dropped (idle.no_dropped 0))
      by_state free h =
          elim (free-owner E v.custody 0 some_context h (idle.no_taken 0) (idle.no_dropped 0)) [
            | inl ready ↦ (w, stay, acquire-ready 0 v ready)
            | inr back ↦
                returning-frees 0 some_context (onward E v go) back (idle.no_taken 0)
                  (idle.no_dropped 0)
          ]
