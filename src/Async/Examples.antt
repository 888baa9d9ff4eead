-- ===== src/Async/Examples.antt =====
-- The asynchronous pipeline at concrete stages: a run of two workers, in which the second frame is
-- finished first, and the theorems there. Frame 13 makes the worker throw.
use rcdl.Common.{
  ℕ, ◌+◌, ◌<◌, ◌≤◌, ◌≡◌, ◌≢◌, refl, true, none, some, length, get_elem?, ltb, ◌==◌, if◌then◌else◌,
  ok, err, arith,
}
use rcdl.Common.Int.{pos}
use rcdl.Common.Assoc.{find, emplace, erase}
use rcdl.Common.Family.{bit, passing}
use rcdl.Pool.{is_free, acquire, take_context, scan, first_free, release, give_back, assign_lease}
use rcdl.Pool.Examples.{pair, pair-Owned}
use rcdl.Async.Interface.{Stages}
use rcdl.Async.Impl.{
  start, claim, commit_slot, checked_slot, release_slot, letterbox_into_slot, is_held, is_queued,
  slot_not_held,
}
use rcdl.Async.Worker.{wake, work, park, try_next, next, in_flight, finish}
use rcdl.Async.World.{
  World, initial, Reach, here, next as and_then, caller, worker, takes, claims, letterboxes,
  commits, drains, wakes, infers, parks, returns, finishes,
}
use rcdl.Async.Custody.{in_custody}
use rcdl.Async.Complete.{queues}
use rcdl.Async.Invariant.{Inv, Reach-Inv}
use rcdl.Async.Delivery.{
  delivered_in_order, next_is_due, next_ends, in_flight-eq, context_once, Busy-refused,
}
use rcdl.Async.Progress.{WorkerRun, next_unblocked}
use rcdl.Async.Progress.Capacity.{CallersIdle, acquire_unblocked}

abbrev pub adding : Stages
adding = record {
  Source = ℕ;
  Tensor = ℕ;
  Geometry = ℕ;
  Dets = ℕ;
  Message = ℕ;
  is_valid = λ s. ltb 0 s;
  letterbox = λ s t. (s, ok (s + 1));
  infer_and_decode = λ t lb. if t == 13 then err t else ok (t + lb);
  blank = 0;
  no_geometry = 0;
}

abbrev State : Type 0
State = (w : World adding) × Reach adding 2 (initial adding pair (pos 0)) w

-- Two frames are committed, 20 in slot 0 and 13 in slot 1.
two_committed : State
unfolding acquire scan first_free take_context start claim assign_lease release letterbox_into_slot
    checked_slot is_held commit_slot
two_committed = (
  _,
  and_then
      (and_then
        (and_then
          (and_then
            (and_then
              (and_then (and_then (and_then here (caller (takes refl))) (caller (claims 0 0 refl)))
                (caller (letterboxes (pos 0) 20)))
              (caller (commits 0 21 refl)))
            (caller (takes refl)))
          (caller (claims 1 1 refl)))
        (caller (letterboxes (pos 1) 13)))
      (caller (commits 1 14 refl)),
)

-- Worker 1 has parked its result, and returned its context; worker 0 is in infer().
second_first : State
unfolding two_committed acquire scan first_free take_context start claim assign_lease release
    give_back letterbox_into_slot checked_slot is_held is_queued commit_slot wake work park emplace
second_first = (
  _,
  and_then
      (and_then
        (and_then
          (and_then (and_then two_committed.1 (worker 1 (omega arith) (wakes refl)))
            (worker 1 (omega arith) (infers refl)))
          (worker 1 (omega arith) (parks refl)))
        (worker 1 (omega arith) (returns refl)))
      (worker 0 (omega arith) (wakes refl)),
)

-- Both results are parked, and both contexts free.
both_parked : State
unfolding two_committed second_first acquire scan first_free take_context start claim assign_lease
    release give_back letterbox_into_slot checked_slot is_held is_queued commit_slot wake work park
    emplace
both_parked = (
  _,
  and_then
      (and_then (and_then second_first.1 (worker 0 (omega arith) (infers refl)))
        (worker 0 (omega arith) (parks refl)))
      (worker 0 (omega arith) (returns refl)),
)

-- Both results were drained, in the order of the commits, and the pipeline is finished.
both_drained : State
unfolding two_committed second_first both_parked acquire scan first_free take_context start claim
    assign_lease release give_back letterbox_into_slot checked_slot is_held is_queued commit_slot
    wake work park emplace find erase try_next finish
both_drained = (
  _,
  and_then (and_then (and_then both_parked.1 (caller drains)) (caller drains)) (caller finishes),
)

second_first-Inv : Inv adding 2 second_first.0
unfolding second_first
second_first-Inv = Reach-Inv adding pair (pos 0) pair-Owned second_first.1 (omega arith)

delivered_in_order_example :
    (length both_drained.0.delivered ≤ length both_drained.0.expected)
    × ((k : ℕ)
        → k < length both_drained.0.delivered
        → get_elem? both_drained.0.delivered k ≡ get_elem? both_drained.0.expected k)
unfolding both_drained
delivered_in_order_example =
    delivered_in_order adding pair (pos 0) pair-Owned both_drained.1 (omega arith)

context_once_example :
    in_custody adding second_first.0.impl.slots second_first.0.workers second_first.0.taken
        second_first.0.dropped 0
      + bit (is_free second_first.0.impl.pool.free 0)
    ≡ 1
unfolding second_first
context_once_example = context_once adding pair (pos 0) pair-Owned second_first.1 (omega arith) 0

next_is_due_example :
    get_elem? both_parked.0.expected 0 ≡ some (record { lb = 21; outcome = ok 41 })
unfolding both_parked next try_next find
next_is_due_example = next_is_due adding pair (pos 0) pair-Owned both_parked.1 (omega arith) refl

next_ends_example :
    (both_drained.0.impl.finished ≡ true)
    × (length both_drained.0.delivered ≡ length both_drained.0.expected)
unfolding both_drained next try_next find
next_ends_example = next_ends adding pair (pos 0) pair-Owned both_drained.1 (omega arith) refl refl

in_flight-eq_example :
    in_flight adding second_first.0.impl
    ≡ pos (length second_first.0.impl.pending + passing (queues adding) 2 second_first.0.impl.slots)
unfolding second_first two_committed passing emplace wake work park claim commit_slot is_held
    is_queued checked_slot letterbox_into_slot release find
in_flight-eq_example =
    in_flight-eq adding pair (pos 0) pair-Owned second_first.1 (omega arith) refl (omega arith)

Busy-refused_example :
    (commit_slot adding second_first.0.impl (pos 0) 5 ≡ err slot_not_held)
    × (release_slot adding second_first.0.impl (pos 0) ≡ err slot_not_held)
    × ((letterbox_into_slot adding second_first.0.impl (pos 0) 9).0 ≡ second_first.0.impl)
unfolding second_first
Busy-refused_example =
    Busy-refused adding pair (pos 0) pair-Owned second_first.1 (omega arith) 0 9 5 tt

next_unblocked_example :
    (w' : World adding) × WorkerRun adding 2 second_first.0 w' × (next adding w'.impl ≢ none)
unfolding second_first
next_unblocked_example = next_unblocked adding second_first.0 second_first-Inv refl (omega arith)

second_first-CallersIdle : CallersIdle adding second_first.0
unfolding second_first
second_first-CallersIdle = record {
  no_slot = λ i. ground arith;
  no_taken = λ i. refl;
  no_dropped = λ i. refl;
}

acquire_unblocked_example :
    (w' : World adding) × WorkerRun adding 2 second_first.0 w' × (acquire w'.impl.pool ≢ none)
unfolding second_first
acquire_unblocked_example =
    acquire_unblocked adding second_first.0 second_first-Inv refl (omega arith)
      second_first-CallersIdle

Reach-Inv_example : Inv adding 2 both_drained.0
unfolding both_drained
Reach-Inv_example = Reach-Inv adding pair (pos 0) pair-Owned both_drained.1 (omega arith)
