-- ===== src/Async/Order/Workers.antt =====
-- pipeline/async_detection_pipeline.cc: workers take, finish, park and abandon frames.
use rcdl.Common.{ℕ, ◌≡◌, ◌≢◌, subst, inl, inr, List, none, ◌==◌, ==_false, Bool-cases, arith}
use rcdl.Common.Assoc.{find, emplace, find-emplace, emplace-Unique}
use rcdl.Common.Family.{write, write-all}
use rcdl.Pool.{Lease}
use rcdl.Async.Interface.{Stages}
use rcdl.Async.Impl.{Slot, queued, Parked}
use rcdl.Async.Worker.{work}
use rcdl.Async.World.{Worker, running, finished, returning, gone}
use rcdl.Async.Order.{Queued, WorkerOrder, Order}

module _ (E : Stages) where
  module _ {expected delivered : List (Parked E)} {next_out : ℕ} {pending : List (ℕ × Parked E)}
      {slots : ℕ → Slot E} {workers : ℕ → Worker E}
      (o : Order E expected delivered next_out pending slots workers) where
    -- A worker that moves on, with a claim on its slot that holds.
    pub moves-Order :
        (i : ℕ) (w : Worker E)
        → WorkerOrder E expected (slots i) w
        → Order E expected delivered next_out pending slots (write workers i w)
    moves-Order i w h = record {
      bounded = o.bounded;
      counted = o.counted;
      in_order = o.in_order;
      unique = o.unique;
      parked = o.parked;
      slot = o.slot;
      distinct = o.distinct;
      worker = write-all (λ j. WorkerOrder E expected (slots j)) workers i w h o.worker;
    }

    -- The result of the frame in the slot is the one that the history expects.
    pub infers-Order :
        (i : ℕ) {seq : ℕ} {lb : E.Geometry}
        → workers i ≡ running seq lb
        → Order E expected delivered next_out pending slots
            (write workers i (finished seq (work E (slots i).tensor lb)))
    infers-Order i {seq} {lb} h =
        let (st, same, geometry) = subst (WorkerOrder E expected (slots i)) h (o.worker i) in
        moves-Order i _ (st, same, rw (← same, ← geometry) (o.slot i st).result)

    -- Parking puts the result under its number, which was free, and empties the slot.
    pub parks-Order :
        (i : ℕ) (s : Slot E) (l : Lease) {seq : ℕ} {r : Parked E}
        → workers i ≡ finished seq r
        → s.state ≢ queued
        → Order E expected delivered next_out
            (emplace seq r pending)
            (write slots i s)
            (write workers i (returning l))
    parks-Order i s l {seq} {r} h is =
        let (st, same, found) = subst (WorkerOrder E expected (slots i)) h (o.worker i) in
        let new : find seq pending ≡ none = rw (← same) (o.slot i st).not_parked in
        record {
          bounded = o.bounded;
          counted = o.counted;
          in_order = o.in_order;
          unique = emplace-Unique seq r pending new o.unique;
          parked = λ k q e. ground (
            arith,
            find-emplace seq k r pending new,
            o.parked k q,
            found,
            (o.slot i st).due,
            same,
          );
          slot = λ j. elim (Bool-cases (i == j)) [
            | inl here ↦ rw here (λ e. absurd (is e))
            | inr other ↦ rw other λ e. record {
              result = (o.slot j e).result;
              due = (o.slot j e).due;
              not_parked = ground (
                arith,
                find-emplace seq (slots j).seq r pending new,
                (o.slot j e).not_parked,
                o.distinct i j st e,
                ==_false i j other,
                same,
              );
            }
          ];
          distinct = λ j k ej ek eq. ground (arith, o.distinct j k);
          worker = λ j. elim (Bool-cases (i == j)) [
            | inl here ↦ rw here tt
            | inr other ↦ rw other (o.worker j)
          ];
        }

    -- A worker that leaves empties its slot.
    pub abandons-Order :
        (i : ℕ) (s : Slot E)
        → s.state ≢ queued
        → Order E expected delivered next_out pending (write slots i s) (write workers i gone)
    abandons-Order i s is = record {
      bounded = o.bounded;
      counted = o.counted;
      in_order = o.in_order;
      unique = o.unique;
      parked = o.parked;
      slot =
          write-all (λ j (t : Slot E). t.state ≡ queued → Queued E expected next_out pending t)
            slots i s (λ e. absurd (is e)) o.slot;
      distinct = λ j k ej ek same. ground (arith, o.distinct j k);
      worker = λ j. elim (Bool-cases (i == j)) [
        | inl here ↦ rw here tt
        | inr other ↦ rw other (o.worker j)
      ];
    }
