-- ===== src/Async/Invariant/Defs.antt =====
-- The invariant of the asynchronous pipeline.
use rcdl.Common.{ℕ, ◌≡◌, false, length}
use rcdl.Async.Interface.{Stages}
use rcdl.Async.World.{World}
use rcdl.Async.Custody.{Custody}
use rcdl.Async.Order.{Order}
use rcdl.Async.Complete.{Complete}

-- The pool has `n` contexts.
pub record Inv (E : Stages) (n : ℕ) (w : World E) : Type 0 where
  pub custody : Custody E n w.impl.pool w.impl.slots w.workers w.taken w.dropped
  pub order : Order E w.expected w.delivered w.impl.next_out w.impl.pending w.impl.slots w.workers
  pub numbered : w.impl.next_in ≡ length w.expected
  pub complete :
      w.impl.stopping ≡ false
      → Complete E n w.expected w.impl.next_out w.impl.pending w.impl.slots w.workers
