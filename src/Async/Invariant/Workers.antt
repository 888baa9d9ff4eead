-- ===== src/Async/Invariant/Workers.antt =====
-- Every step of a worker keeps the invariant.
use rcdl.Common.{ℕ, ◌<◌, ◌≡◌, refl, sym, subst, ◌∙◌, inl, inr, true, Bool-cases}
use rcdl.Common.Family.{write}
use rcdl.Pool.{Lease, release}
use rcdl.Async.Interface.{Stages}
use rcdl.Async.Impl.{Parked, queued, is_held}
use mathlib.Core.Bool.{false≢true}
use rcdl.Async.Worker.{leave, frame, abandon, wake, work, park}
use rcdl.Async.World.{World, Worker, waiting, running, finished, returning, gone, with_pool, woken}
use rcdl.Async.Custody.{worker_holds, SlotLease}
use rcdl.Async.Custody.Workers.{moves-Custody, abandons-Custody, parks-Custody, returns-Custody}
use rcdl.Async.Calls.{wake-cases}
use rcdl.Async.Order.{WorkerOrder}
use rcdl.Async.Order.Workers.{moves-Order, infers-Order, parks-Order, abandons-Order}
use rcdl.Async.Complete.{moves-Complete, parks-Complete}
use rcdl.Async.Invariant.Defs.{Inv}

module _ (E : Stages) {n : ℕ} {w : World E} (v : Inv E n w) (i : ℕ) where
  no_lease :
      {x : Worker E}
      → w.workers i ≡ x
      → ((j : ℕ) → worker_holds E j x ≡ 0)
      → (j : ℕ) → worker_holds E j (w.workers i) ≡ 0
  no_lease h z j = rw h (z j)

  -- A worker that finds its slot queued takes the frame.
  frame-Inv :
      w.workers i ≡ waiting
      → (w.impl.slots i).state ≡ queued
      → Inv E n (woken E w i (frame (w.impl.slots i).seq (w.impl.slots i).lb))
  frame-Inv h st = record {
    custody = moves-Custody E v.custody i _ (no_lease h (λ j. refl)) (λ j. refl) tt;
    order = moves-Order E v.order i _ (st, refl, refl);
    numbered = v.numbered;
    complete = λ go. moves-Complete E (v.complete go) i _ (λ e. cc);
  }

  -- A worker leaves only in a shutdown.
  leave-Inv :
      w.workers i ≡ waiting
      → w.impl.stopping ≡ true
      → Inv E n (woken E w i (leave (abandon E w.impl i)))
  unfolding abandon
  leave-Inv h stop = elim (Bool-cases (is_held (w.impl.slots i).state)) [
    | inl theirs ↦ rw theirs (record {
      custody = moves-Custody E v.custody i gone (no_lease h (λ j. refl)) (λ j. refl) tt;
      order = moves-Order E v.order i gone tt;
      numbered = v.numbered;
      complete = λ go. absurd (false≢true (sym go ∙ stop));
    })
    | inr ours ↦ rw ours (record {
      custody = abandons-Custody E v.custody i (no_lease h (λ j. refl));
      order = abandons-Order E v.order i _ (λ e. cc);
      numbered = v.numbered;
      complete = λ go. absurd (false≢true (sym go ∙ stop));
    })
  ]

  pub wakes-Inv : w.workers i ≡ waiting → Inv E n (woken E w i (wake E w.impl i))
  wakes-Inv h = elim (wake-cases E w.impl i) [
    | inl (stop, e) ↦ rw e (leave-Inv h stop)
    | inr (inl (go, st, e)) ↦ rw e (frame-Inv h st)
    | inr (inr (go, idle, e)) ↦ rw e v
  ]

  pub infers-Inv :
      {seq : ℕ} {lb : E.Geometry}
      → w.workers i ≡ running seq lb
      → Inv E n (record w {
        workers = write w.workers i (finished seq (work E (w.impl.slots i).tensor lb));
      })
  infers-Inv h = record {
    custody = moves-Custody E v.custody i _ (no_lease h (λ j. refl)) (λ j. refl) tt;
    order = infers-Order E v.order i h;
    numbered = v.numbered;
    complete = λ go. moves-Complete E (v.complete go) i _ (λ e. cc);
  }

  pub parks-Inv :
      {seq : ℕ} {r : Parked E}
      → i < n
      → w.workers i ≡ finished seq r
      → Inv E n (record w {
        impl = (park E w.impl i seq r).0;
        workers = write w.workers i (returning (park E w.impl i seq r).1);
      })
  unfolding park
  parks-Inv {seq} {r} lt h =
      let (st, same, found) =
        subst (WorkerOrder E w.expected (w.impl.slots i)) h (v.order.worker i) in
      record {
        custody =
            parks-Custody E v.custody i (no_lease h (λ j. refl))
              (subst (λ x. SlotLease i x (w.impl.slots i).lease) st (v.custody.slot_lease i));
        order = parks-Order E v.order i _ _ h (λ e. cc);
        numbered = v.numbered;
        complete = λ go.
            parks-Complete E (v.complete go) i _ seq r _ lt st same
              (rw (← same) (v.order.slot i st).not_parked) (λ e. cc) (λ e. cc);
      }

  pub returns-Inv :
      {l : Lease}
      → w.workers i ≡ returning l
      → Inv E n
          (record (with_pool E w (release w.impl.pool l).0) { workers = write w.workers i waiting })
  returns-Inv h = record {
    custody = returns-Custody E v.custody i h;
    order = moves-Order E v.order i waiting tt;
    numbered = v.numbered;
    complete = λ go. moves-Complete E (v.complete go) i waiting (λ e. cc);
  }
