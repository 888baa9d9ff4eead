-- ===== src/Async/Progress.antt =====
-- pipeline/async_detection_pipeline.cc: no deadlock. Whatever a caller waits for, the workers can
-- bring about by themselves.
pub mod Capacity
use rcdl.Common.{
  ℕ, suc, ◌+◌, ◌-◌, ◌<◌, ◌≤◌, ◌≡◌, ◌≢◌, refl, sym, ap, subst, ◌∙◌, ◌⊎◌, inl, inr, Bool, true, false,
  List, [], ◌∷◌, Option, none, some, length, ltb, ◌==◌, ==_iff, if◌then◌else◌, Bool-cases,
  Option-cases, ok, arith,
}
use mathlib.Core.Bool.{false≢true}
use rcdl.Common.Assoc.{find, emplace, find-emplace}
use rcdl.Common.Family.{bit, write}
use rcdl.Pool.{Pool, size, Lease, vacant, holding, acquire, is_free, release}
use rcdl.Pool.Leases.Weights.{holds, weigh}
use rcdl.Async.Interface.{Stages}
use rcdl.Async.Impl.{Pipeline, Parked, Slot, SlotState, free, held, queued, is_queued}
use rcdl.Async.Worker.{Wake, sleep, leave, frame, wake, work, park, next}
use rcdl.Async.World.{
  World, Worker, waiting, running, finished, returning, gone, with_pool, woken, WorkerStep, wakes,
  infers, parks, returns,
}
use rcdl.Async.Calls.{wake-cases}
use rcdl.Async.Custody.{returning-idle, SlotLease, WorkerLease, worker_holds}
use rcdl.Async.Order.{WorkerOrder}
use rcdl.Async.Invariant.{Inv, WorkerStep-Inv}

module _ (E : Stages) where
  -- Steps of workers alone.
  pub data WorkerRun (n : ℕ) (s : World E) : World E → Type 0 where
    stay : WorkerRun n s s
    more :
        {w w' : World E} (i : ℕ) → WorkerRun n s w → i < n → WorkerStep E i w w' → WorkerRun n s w'

  -- A world that workers alone reach, with the callers where they were.
  pub record Onward (n : ℕ) (s w : World E) : Type 0 where
    pub run : WorkerRun n s w
    pub inv : Inv E n w
    pub going : w.impl.stopping ≡ false
    pub due : w.impl.next_out ≡ s.impl.next_out
    pub taken : w.taken ≡ s.taken
    pub dropped : w.dropped ≡ s.dropped

  -- Frame `k` is parked, and worker `i` is on its way to return its context.
  pub record Parks (n i k : ℕ) (s w : World E) : Type 0 where
    pub onward : Onward n s w
    pub there : find k w.impl.pending ≢ none
    pub back : w.workers i ≡ returning (holding i)

  pub write_self {ℓ} : {A : Type ℓ} (f : ℕ → A) (i : ℕ) (a : A) → write f i a i ≡ a
  write_self f i a = ground arith

  -- What is found under the key that was just put in.
  emplaced :
      (seq k : ℕ) (r : Parked E) (pending : List (ℕ × Parked E))
      → find seq pending ≡ none
      → k ≡ seq
      → find k (emplace seq r pending) ≢ none
  emplaced seq k r pending new e = rw e λ h. ground (arith, find-emplace seq seq r pending new, h)

  pub onward : {n : ℕ} {w : World E} → Inv E n w → w.impl.stopping ≡ false → Onward n w w
  onward v go = record { run = stay; inv = v; going = go; due = refl; taken = refl; dropped = refl }

  module _ {n : ℕ} {s : World E} (i : ℕ) (lt : i < n) where
    finished-Parks :
        {w : World E} {seq : ℕ} {r : Parked E} (k : ℕ)
        → Onward n s w
        → (w.impl.slots i).seq ≡ k
        → w.workers i ≡ finished seq r
        → (w' : World E) × Parks n i k s w'
    unfolding park
    finished-Parks {w} {seq} {r} k o num h =
        let (st, same, found) =
          subst (WorkerOrder E w.expected (w.impl.slots i)) h (o.inv.order.worker i) in
        (
          _,
          record {
            onward = record {
              run = more i o.run lt (parks h);
              inv = WorkerStep-Inv E lt (parks h) o.inv;
              going = o.going;
              due = o.due;
              taken = o.taken;
              dropped = o.dropped;
            };
            there =
                emplaced seq k r w.impl.pending (rw (← same) (o.inv.order.slot i st).not_parked)
                  (sym num ∙ same);
            back =
                write_self w.workers i _
                ∙ ap returning (
                    subst (λ x. SlotLease i x (w.impl.slots i).lease) st
                      (o.inv.custody.slot_lease i));
          },
        )

    running-Parks :
        {w : World E} {seq : ℕ} {lb : E.Geometry} (k : ℕ)
        → Onward n s w
        → (w.impl.slots i).seq ≡ k
        → w.workers i ≡ running seq lb
        → (w' : World E) × Parks n i k s w'
    running-Parks {w} {seq} {lb} k o num h =
        finished-Parks k
          (record {
            run = more i o.run lt (infers h);
            inv = WorkerStep-Inv E lt (infers h) o.inv;
            going = o.going;
            due = o.due;
            taken = o.taken;
            dropped = o.dropped;
          })
          num (write_self w.workers i _)

    waiting-Parks :
        {w : World E} (k : ℕ)
        → Onward n s w
        → (w.impl.slots i).state ≡ queued
        → (w.impl.slots i).seq ≡ k
        → w.workers i ≡ waiting
        → (w' : World E) × Parks n i k s w'
    unfolding is_queued
    waiting-Parks {w} k o st num h = elim (wake-cases E w.impl i) [
      | inl (stop, e) ↦ absurd (false≢true (sym o.going ∙ stop))
      | inr (inr (go, idle, e)) ↦ absurd (false≢true (sym idle ∙ ap is_queued st))
      | inr (inl (go, st', e)) ↦
          let step : WorkerStep E i w
              (woken E w i (frame (w.impl.slots i).seq (w.impl.slots i).lb)) =
            subst (λ x. WorkerStep E i w (woken E w i x)) e (wakes h) in
          running-Parks k
            (record {
              run = more i o.run lt step;
              inv = WorkerStep-Inv E lt step o.inv;
              going = o.going;
              due = o.due;
              taken = o.taken;
              dropped = o.dropped;
            })
            num (write_self w.workers i _)
    ]

    -- A queued frame gets parked.
    pub queued-Parks :
        {w : World E} (k : ℕ)
        → Onward n s w
        → (w.impl.slots i).state ≡ queued
        → (w.impl.slots i).seq ≡ k
        → (w' : World E) × Parks n i k s w'
    queued-Parks {w} k o st num = by_worker (w.workers i) refl
      where
        by_worker : (x : Worker E) → w.workers i ≡ x → (w' : World E) × Parks n i k s w'
        by_worker waiting h = waiting-Parks k o st num h
        by_worker (running seq lb) h = running-Parks k o num h
        by_worker (finished seq r) h = finished-Parks k o num h
        by_worker (returning l) h = absurd (returning-idle E o.inv.custody i h st)
        by_worker gone h = absurd ((o.inv.complete o.going).alive i h)

  next-ready : (p : Pipeline E) → find p.next_out p.pending ≢ none → next E p ≢ none
  unfolding next
  next-ready p h = elim (Option-cases (find p.next_out p.pending)) [
    | inl e ↦ absurd (h e)
    | inr (r, e) ↦ rw e (λ q. cc)
  ]

  -- Where the invariant holds, and unless there is a shutdown, a caller of next() does not wait in
  -- vain: while a committed frame is not drained, the workers alone can reach a state in which next()
  -- returns.
  pub next_unblocked :
      {n : ℕ} (w : World E)
      → Inv E n w
      → w.impl.stopping ≡ false
      → length w.delivered < length w.expected
      → (w' : World E) × WorkerRun n w w' × (next E w'.impl ≢ none)
  next_unblocked {n} w v go behind =
      elim ((v.complete go).covered w.impl.next_out (omega arith)
        (omega (arith, v.order.counted))) [
          | inl there ↦ (w, stay, next-ready w.impl there)
          | inr (i, lt, st, num) ↦
              let (w', p) = queued-Parks i lt w.impl.next_out (onward v go) st num in
              (
                w',
                p.onward.run,
                next-ready w'.impl
                    (subst (λ m. find m w'.impl.pending ≢ none) (sym p.onward.due) p.there),
              )
        ]
