-- ===== src/Pool/Examples.antt =====
-- Pools at concrete inputs: a runtime that always succeeds, a pool of two contexts on it, and the
-- theorems there.
use rcdl.Common.{ℕ, ◌+◌, ◌≡◌, refl, ◌⊎◌, true, List, [], ◌∷◌, none, some, ok, auto, core0, core1}
use rcdl.Common.Int.{pos}
use rcdl.Engine.{Engine, Runtime, dup, pin}
use rcdl.Pool.{
  Pool, size, core_for_index, pin_for, dup_rest, build, dup_pool, take_context, try_acquire,
  release, move_lease, assign_lease, acquire, is_free, give_back,
}
use rcdl.Pool.Build.{Built, dup_pool-Built, Built-Owned}
use rcdl.Pool.Invariant.{Takes, acquire-cases, give_back_twice}
use rcdl.Pool.Leases.{
  step, release_at, move_from, assign_to, Call, acquires, tries, releases, moves, assigns, run,
}
use rcdl.Pool.Leases.Ownership.{Owned, run-Owned, run-exclusive}

-- Context handles count up from the parent's.
abbrev pub easy : Runtime
easy = record {
  init = λ call path flags. ok 7;
  dup_context = λ call ctx. ok (ctx + call + 1);
  set_core_mask = λ ctx core. ok tt;
  register_custom_ops = λ ctx. ok tt;
  setup_io = λ ctx inputs. ok tt;
}

abbrev pub camera : Engine
camera = record { ctx = 7; path = 0; core = auto; float_inputs = [] }

abbrev pub engine_on_core0 : Engine
engine_on_core0 = record { ctx = 8; path = 0; core = core0; float_inputs = [] }

abbrev pub engine_on_core1 : Engine
engine_on_core1 = record { ctx = 10; path = 0; core = core1; float_inputs = [] }

abbrev pub pair : Pool
pair = record {
  engines = engine_on_core0 ∷ engine_on_core1 ∷ [];
  free = true ∷ true ∷ [];
  in_use = 0;
}

dup_pool-eq-pair : dup_pool easy camera (pos 2) true ≡ ok pair
unfolding dup_pool build dup_rest dup pin pin_for core_for_index
dup_pool-eq-pair = refl

pub pair-Owned : Owned (record { pool = pair; leases = [] })
pair-Owned = Built-Owned (dup_pool-Built easy camera (pos 2) true dup_pool-eq-pair)

dup_pool-Built_example : Built true core0 (pos 2) pair
unfolding pin_for core_for_index
dup_pool-Built_example = dup_pool-Built easy camera (pos 2) true dup_pool-eq-pair

abbrev history : List Call
history = acquires ∷ tries ∷ moves 0 ∷ releases 1 ∷ acquires ∷ assigns 1 2 ∷ []

run-Owned_example : Owned (run (record { pool = pair; leases = [] }) history)
run-Owned_example = run-Owned (record { pool = pair; leases = [] }) history pair-Owned

-- Object 0 was moved to 2, object 1 released and assigned over; two leases are left.
run-exclusive_example : ◌≡◌ {A = ℕ} 1 1
unfolding run step acquire try_acquire release_at move_from assign_to release move_lease
    assign_lease give_back
run-exclusive_example =
    run-exclusive (record { pool = pair; leases = [] }) history 0 1 1 pair-Owned refl refl

acquire-cases_example :
    ((acquire pair ≡ none) × (pair.in_use ≡ size pair))
    ⊎ ((i : ℕ) × (acquire pair ≡ some (ok (take_context pair i))) × Takes pair i)
acquire-cases_example = acquire-cases pair pair-Owned.inv

give_back_twice_example :
    give_back (give_back (take_context pair 0).0 (pos 0)) (pos 0)
    ≡ give_back (take_context pair 0).0 (pos 0)
unfolding take_context is_free
give_back_twice_example =
    give_back_twice (take_context pair 0).0 (pos 0) (record { sized = refl; counted = refl })
