-- ===== src/Async/Custody.antt =====
-- pipeline/async_detection_pipeline.cc: who has a context. The lease of context `i` lies in slot
-- `i`, with worker `i` on its way back, or on the stack of one caller; otherwise `i` is free.
pub mod Callers
pub mod Workers
use rcdl.Common.{
  ◌⊎◌, ℕ, ◌+◌, ◌<◌, ◌≡◌, ◌≢◌, refl, inl, inr, Bool, true, false, List, [], ◌∷◌, ◌++◌, Option, none,
  some, get_elem?, set, ltb, ◌==◌, if◌then◌else◌, Bool-cases, ok, Result, arith, ap, sym, subst,
  ◌∙◌,
}
use rcdl.Common.Family.{bit, write, write-all}
use rcdl.Engine.{Error}
use rcdl.Pool.{
  Pool, size, Lease, vacant, holding, take_context, acquire, is_free, release, assign_lease,
}
use rcdl.Pool.Invariant.{Inv, Takes, acquire-cases}
use rcdl.Pool.Leases.Weights.{holds, weigh, weigh-append, weigh-set}
use rcdl.Pool.Leases.Balance.{
  Balance, take_context-Balance, release-Balance, release-size, release-eq-vacant,
}
use rcdl.Async.Interface.{Stages}
use rcdl.Async.Impl.{Slot, SlotState, free, held, queued}
use rcdl.Async.World.{Worker, waiting, running, finished, returning, gone}

-- A slot in use has the lease of its context, a free one has none.
abbrev pub SlotLease : ℕ → SlotState → Lease → Type 0
SlotLease i free l = l ≡ vacant
SlotLease i held l = l ≡ holding i
SlotLease i queued l = l ≡ holding i

empty_slot-free :
    (i : ℕ) (st : SlotState) (l : Lease)
    → SlotLease i st l
    → holds i l ≡ 0
    → (st ≡ free) × (l ≡ vacant)
empty_slot-free i free l e z = (refl, e)
empty_slot-free i held l e z = absurd (ground (arith, e, z))
empty_slot-free i queued l e z = absurd (ground (arith, e, z))

SlotLease-elsewhere :
    (i j : ℕ) (st : SlotState) (l : Lease) → SlotLease i st l → i ≢ j → holds j l ≡ 0
SlotLease-elsewhere i j free l e ne = ground (arith, e)
SlotLease-elsewhere i j held l e ne = ground (arith, e)
SlotLease-elsewhere i j queued l e ne = ground (arith, e)

module _ (E : Stages) where
  abbrev pub worker_holds : ℕ → Worker E → ℕ
  worker_holds i (returning l) = holds i l
  worker_holds i waiting = 0
  worker_holds i (running seq lb) = 0
  worker_holds i (finished seq r) = 0
  worker_holds i gone = 0

  abbrev pub WorkerLease : ℕ → Worker E → Type 0
  WorkerLease i (returning l) = l ≡ holding i
  WorkerLease i waiting = Unit
  WorkerLease i (running seq lb) = Unit
  WorkerLease i (finished seq r) = Unit
  WorkerLease i gone = Unit

  WorkerLease-elsewhere : (i j : ℕ) (w : Worker E) → WorkerLease i w → i ≢ j → worker_holds j w ≡ 0
  WorkerLease-elsewhere i j (returning l) e ne = ground (arith, e)
  WorkerLease-elsewhere i j waiting e ne = refl
  WorkerLease-elsewhere i j _ e ne = refl

  abbrev pub in_custody : (ℕ → Slot E) → (ℕ → Worker E) → List Lease → List Lease → ℕ → ℕ
  in_custody slots workers taken dropped i =
      holds i (slots i).lease
      + worker_holds i (workers i)
      + weigh (holds i) taken
      + weigh (holds i) dropped

  pub record Custody (n : ℕ) (pool : Pool) (slots : ℕ → Slot E) (workers : ℕ → Worker E)
      (taken dropped : List Lease) : Type 0 where
    pub sized : size pool ≡ n
    pub balance : Balance pool (in_custody slots workers taken dropped)
    pub slot_lease : (i : ℕ) → SlotLease i (slots i).state (slots i).lease
    pub worker_lease : (i : ℕ) → WorkerLease i (workers i)

  module _ {n : ℕ} {pool : Pool} {slots : ℕ → Slot E} {workers : ℕ → Worker E}
      {taken dropped : List Lease} (c : Custody n pool slots workers taken dropped) where
    -- A slot holds no context but its own.
    pub slot_elsewhere : (i j : ℕ) → i ≢ j → holds j (slots i).lease ≡ 0
    slot_elsewhere i j ne =
        SlotLease-elsewhere i j (slots i).state (slots i).lease (c.slot_lease i) ne

    pub worker_elsewhere : (i j : ℕ) → i ≢ j → worker_holds j (workers i) ≡ 0
    worker_elsewhere i j ne = WorkerLease-elsewhere i j (workers i) (c.worker_lease i) ne

    -- The slot whose context a caller has leased is free and empty.
    pub taken-free :
        (k i : ℕ)
        → get_elem? taken k ≡ some (holding i)
        → ((slots i).state ≡ free) × ((slots i).lease ≡ vacant) × (i < n)
    taken-free k i h =
        let w : weigh (holds i) (set taken k vacant) + 1 ≡ weigh (holds i) taken =
          ground (arith, weigh-set (holds i) taken k (holding i) vacant h) in
        let (st, l) =
          empty_slot-free i (slots i).state (slots i).lease (c.slot_lease i)
            (ground (arith, w, c.balance.once i)) in
        (st, l, ground (arith, w, c.balance.once i, c.sized))

    -- While a worker returns its context the slot is not queued.
    pub returning-idle : (i : ℕ) {l : Lease} → workers i ≡ returning l → (slots i).state ≢ queued
    returning-idle i {l} h st =
        let a : l ≡ holding i = subst (WorkerLease i) h (c.worker_lease i) in
        let b : (slots i).lease ≡ holding i =
          subst (λ x. SlotLease i x (slots i).lease) st (c.slot_lease i) in
        ground (arith, c.balance.once i, a, b, h)

    worker-owner :
        (i : ℕ) (x : Worker E)
        → workers i ≡ x
        → worker_holds i x ≡ 1
        → workers i ≡ returning (holding i)
    worker-owner i (returning l) h one =
        h ∙ ap returning (subst (WorkerLease i) h (c.worker_lease i))
    worker-owner i waiting h one = absurd (omega arith)
    worker-owner i (running seq lb) h one = absurd (omega arith)
    worker-owner i (finished seq r) h one = absurd (omega arith)
    worker-owner i gone h one = absurd (omega arith)

    -- A context that is in no slot and with no caller is free, or with its worker.
    pub free-owner :
        (i : ℕ)
        → i < n
        → (slots i).state ≡ free
        → weigh (holds i) taken ≡ 0
        → weigh (holds i) dropped ≡ 0
        → (is_free pool.free i ≡ true) ⊎ (workers i ≡ returning (holding i))
    free-owner i lt st nt nd = elim (Bool-cases (is_free pool.free i)) [
      | inl yes' ↦ inl yes'
      | inr not_free ↦
          let e : (slots i).lease ≡ vacant =
            subst (λ x. SlotLease i x (slots i).lease) st (c.slot_lease i) in
          inr (
            worker-owner i (workers i) refl
              (ground (arith, c.balance.once i, c.sized, not_free, e, nt, nd, lt)))
    ]

    pub queued-lt : (i : ℕ) → (slots i).state ≡ queued → i < size pool
    queued-lt i st =
        let e : (slots i).lease ≡ holding i =
          subst (λ x. SlotLease i x (slots i).lease) st (c.slot_lease i) in
        ground (arith, c.balance.once i, e)
