-- ===== src/Pool/Leases/Weights.antt =====
-- What the lease objects of a program count for, in sums over them.
use rcdl.Common.{ℕ, ◌==◌, if◌then◌else◌}
pub use rcdl.Common.{weigh, weigh-append, weigh-set}
use rcdl.Pool.{Lease, vacant, holding}

-- 1 if the lease holds context `i`.
abbrev pub holds : ℕ → Lease → ℕ
holds i vacant = 0
holds i (holding j) = if j == i then 1 else 0

-- 1 if the lease is valid.
abbrev pub is_valid : Lease → ℕ
is_valid vacant = 0
is_valid (holding j) = 1
