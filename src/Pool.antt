-- ===== src/Pool.antt =====
-- backend/engine_pool.h, backend/engine_pool.cc: EnginePool and EnginePool::Lease. Each function is
-- one critical section under the pool's mutex. A call that would sleep on the condition variable
-- returns `none`: it is tried again after a `give_back`.
pub mod Build
pub mod Examples
pub mod Free
pub mod Leases
pub mod Invariant
use rcdl.Common.{
  ℕ, zero, suc, ◌+◌, ◌-◌, ◌%◌, Bool, true, false, List, [], ◌∷◌, ◌++◌, Option, none, some, length,
  get_elem?, set, replicate, ltb, leb, if◌then◌else◌, Result, ok, err, ◌>>=◌, ◌>>◌, require,
  NpuCore, auto, core0, core1, core2,
}
use rcdl.Common.Int.{ℤ, pos, negsuc, leb_ℤ, pos_part}
use rcdl.Engine.{
  Engine, Options, Runtime, Error, bad_size, out_of_range, disagree, empty_lease, load, dup,
}

-- `switch (i % 3)`, at the remainder.
unfoldable pub core_of_rest : ℕ → NpuCore
core_of_rest zero = core0
core_of_rest (suc zero) = core1
core_of_rest _ = core2

unfoldable pub core_for_index : ℕ → NpuCore
unfolding core_of_rest
core_for_index i = core_of_rest (i % 3)

pub record Pool : Type 0 where
  pub engines : List Engine
  pub free : List Bool
  pub in_use : ℕ

abbrev pub size : Pool → ℕ
size p = length p.engines

-- The core of a duplicate: `pin_cores ? coreForIndex(i) : NpuCore::Auto`.
unfoldable pub pin_for : Bool → ℕ → NpuCore
pin_for pin_cores i = if pin_cores then core_for_index i else auto

-- The loop of `build`, with `k` rounds left.
pub dup_rest : Runtime → Engine → Bool → ℕ → ℕ → List Engine → Result Error (List Engine)
dup_rest rt src pin_cores zero i engines = ok engines
dup_rest rt src pin_cores (suc k) i engines = do
  e ← dup rt i src (pin_for pin_cores i)
  dup_rest rt src pin_cores k (suc i) (engines ++ e ∷ [])

-- `build`, on the one engine that the constructor has put in.
pub build : Runtime → Engine → ℤ → Bool → Result Error Pool
build rt first size pin_cores = do
  require (leb_ℤ (pos 1) size) bad_size
  engines ← dup_rest rt first pin_cores (pos_part size - 1) 1 (first ∷ [])
  ok (record { engines = engines; free = replicate (length engines) true; in_use = 0 })

-- EnginePool(path, size, pin_cores, base)
pub load_pool : Runtime → Options → ℤ → Bool → Result Error Pool
load_pool rt base size pin_cores = do
  first ← load rt 0 (if pin_cores then record base { core = core_for_index 0 } else base)
  build rt first size pin_cores

-- EnginePool(primary, size, pin_cores)
pub dup_pool : Runtime → Engine → ℤ → Bool → Result Error Pool
dup_pool rt primary size pin_cores = do
  first ← dup rt 0 primary (pin_for pin_cores 0)
  build rt first size pin_cores

abbrev pub or_throw {ℓ} : {A : Type ℓ} → Option A → Error → Result Error A
or_throw none e = err e
or_throw (some a) e = ok a

-- `at`, with `checkIndex`.
unfoldable pub at : Pool → ℤ → Result Error Engine
at p (negsuc i) = err out_of_range
at p (pos i) = or_throw (get_elem? p.engines i) out_of_range

-- A Lease without a pool has index -1; the two fields change together.
pub data Lease : Type 0 where
  vacant : Lease
  holding : ℕ → Lease

unfoldable pub index : Lease → ℤ
index vacant = negsuc 0
index (holding i) = pos i

-- The scan of `free_` for the first free context.
unfoldable pub first_free : List Bool → Option ℕ
first_free [] = none
first_free (true ∷ fs) = some 0
first_free (false ∷ fs) = elim (first_free fs) [ none ↦ none | some i ↦ some (suc i) ]

-- The body that both `acquire` and `tryAcquire` run when the scan has found `i`.
unfoldable pub take_context : Pool → ℕ → Pool × Lease
take_context p i = (record p { free = set p.free i false; in_use = p.in_use + 1 }, holding i)

-- The scan of `acquire`, once `in_use_ < engines_.size()` holds.
unfoldable pub scan : Pool → Result Error (Pool × Lease)
scan p = elim (first_free p.free) [ none ↦ err disagree | some i ↦ ok (take_context p i) ]

unfoldable pub acquire : Pool → Option (Result Error (Pool × Lease))
unfolding scan take_context first_free
acquire p = if ltb p.in_use (size p) then some (scan p) else none

unfoldable pub try_acquire : Pool → Pool × Lease
unfolding take_context first_free
try_acquire p = elim (first_free p.free) [ none ↦ (p, vacant) | some i ↦ take_context p i ]

unfoldable pub is_free : List Bool → ℕ → Bool
is_free [] i = false
is_free (b ∷ fs) zero = b
is_free (b ∷ fs) (suc i) = is_free fs i

unfoldable pub give_back : Pool → ℤ → Pool
unfolding is_free
give_back p (negsuc i) = p
give_back p (pos i) =
    if leb (length p.free) i
    then p
    else if is_free p.free i
    then p
    else record p { free = set p.free i true; in_use = p.in_use - 1 }

unfoldable pub release : Pool → Lease → Pool × Lease
release p vacant = (p, vacant)
release p (holding i) = (give_back p (pos i), vacant)

-- Lease(Lease&&): the new lease, and what is left in the other.
unfoldable pub move_lease : Lease → Lease × Lease
move_lease other = (other, vacant)

-- operator=(Lease&&) between two objects: the pool, the target and the source afterwards.
unfoldable pub assign_lease : Pool → Lease → Lease → Pool × Lease × Lease
assign_lease p self other = let (q, _) = release p self in (q, other, vacant)

unfoldable pub engine_of : Pool → Lease → Result Error Engine
engine_of p vacant = err empty_lease
engine_of p (holding i) = at p (pos i)
