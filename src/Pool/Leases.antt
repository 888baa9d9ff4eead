-- ===== src/Pool/Leases.antt =====
-- engine_pool.cc: a program that uses the pool, as the Lease objects that it has made, oldest
-- first. An object that was released, moved from or destroyed stays in the list, empty.
pub mod Weights
pub mod Balance
pub mod Ownership
use rcdl.Common.{
  ℕ, Bool, true, false, List, [], ◌∷◌, ◌++◌, Option, none, some, get_elem?, set, ◌==◌,
  if◌then◌else◌, Result, ok, err,
}
use rcdl.Engine.{Error}
use rcdl.Pool.{Pool, Lease, acquire, try_acquire, release, move_lease, assign_lease}

pub record Program : Type 0 where
  pub pool : Pool
  pub leases : List Lease

-- `acquires` that would sleep, or that throws, leaves the program where it was.
pub data Call : Type 0 where
  acquires : Call
  tries : Call
  releases : ℕ → Call
  moves : ℕ → Call
  assigns : ℕ → ℕ → Call

abbrev pub grant : Program → Pool × Lease → Program
grant s (p, l) = record { pool = p; leases = s.leases ++ l ∷ [] }

abbrev pub granted : Program → Option (Result Error (Pool × Lease)) → Program
granted s none = s
granted s (some (err e)) = s
granted s (some (ok r)) = grant s r

-- `release()` of an object, or its destructor.
unfoldable pub release_at : Program → ℕ → Lease → Program
release_at s k l = let (p, l') = release s.pool l in record { pool = p; leases = set s.leases k l' }

unfoldable pub move_from : Program → ℕ → Lease → Program
move_from s k l =
    let (new, old) = move_lease l in
    record { pool = s.pool; leases = set s.leases k old ++ new ∷ [] }

-- Assigning an object to itself does nothing.
unfoldable pub assign_to : Program → ℕ → Lease → ℕ → Lease → Program
assign_to s j self k other =
    if j == k
    then s
    else let (p, self', other') = assign_lease s.pool self other in
      record { pool = p; leases = set (set s.leases j self') k other' }

abbrev pub on_object : Program → Option Lease → (Lease → Program) → Program
on_object s none f = s
on_object s (some l) f = f l

unfoldable pub step : Program → Call → Program
step s acquires = granted s (acquire s.pool)
step s tries = grant s (try_acquire s.pool)
step s (releases k) = on_object s (get_elem? s.leases k) (release_at s k)
step s (moves k) = on_object s (get_elem? s.leases k) (move_from s k)
step s (assigns j k) =
    on_object s (get_elem? s.leases j)
      λ self. on_object s (get_elem? s.leases k) (assign_to s j self k)

unfoldable pub run : Program → List Call → Program
run s [] = s
run s (c ∷ cs) = run (step s c) cs
