-- ===== src/Async/Impl.antt =====
-- pipeline/async_detection_pipeline.cc: AsyncDetectionPipeline and its Impl. Each function is one
-- critical section under `mu`, or a stretch that a thread runs with no lock on what it owns. A
-- section that would sleep on its condition variable returns `none`. Timing is left out.
use rcdl.Common.{
  ℕ, ◌+◌, ◌*◌, ◌%◌, ◌^◌, Bool, true, false, not, ◌||◌, List, [], Option, none, some, length, ltb,
  if◌then◌else◌, Result, ok, err, ◌>>=◌, ◌>>◌, require,
}
use rcdl.Common.Int.{ℤ, pos, negsuc, ltb_ℤ, pos_part}
use rcdl.Common.Family.{write}
use rcdl.Pool.{Pool, size, Lease, vacant, holding, assign_lease}
use rcdl.Async.Interface.{Stages}

pub data SlotState : Type 0 where
  free held queued : SlotState

pub data Error {ℓ} (M : Type ℓ) : Type ℓ where
  invalid_source : Error M
  slot_out_of_range : Error M
  slot_not_held : Error M
  -- What the letterbox threw, passed on.
  preproc_failed : M → Error M
  -- What the worker caught, thrown again by next().
  worker_failed : M → Error M

unfoldable pub is_held : SlotState → Bool
is_held held = true
is_held _ = false

unfoldable pub is_queued : SlotState → Bool
is_queued queued = true
is_queued _ = false

-- uint64_t
abbrev pub u64 : ℕ
u64 = 2 ^ 64

module _ (E : Stages) where
  open E use {Source, Tensor, Geometry, Dets, Message}

  -- A finished frame: its geometry, and its detections or the message of the exception.
  pub record Parked : Type 0 where
    pub lb : Geometry
    pub outcome : Result Message Dets

  -- The context's input tensor stands with the slot that writes it.
  pub record Slot : Type 0 where
    pub lease : Lease
    pub tensor : Tensor
    pub lb : Geometry
    pub seq : ℕ
    pub state : SlotState

  -- One slot for each context of the pool; slots from `size pool` on do not exist.
  pub record Pipeline : Type 0 where
    pub pool : Pool
    pub slots : ℕ → Slot
    pub pending : List (ℕ × Parked)
    pub reorder_depth : ℕ
    pub next_in : ℕ
    pub next_out : ℕ
    pub finished : Bool
    pub stopping : Bool
    pub last_lb : Geometry

  abbrev pub empty_slot : Slot
  empty_slot = record {
    lease = vacant;
    tensor = E.blank;
    lb = E.no_geometry;
    seq = 0;
    state = free;
  }

  -- The constructor of Impl, on a pool and `async.reorder_depth`.
  unfoldable pub start : Pool → ℤ → Pipeline
  start pool depth = record {
    pool = pool;
    slots = λ _. empty_slot;
    pending = [];
    reorder_depth = if ltb_ℤ (pos 0) depth then pos_part depth else size pool * 4;
    next_in = 0;
    next_out = 0;
    finished = false;
    stopping = false;
    last_lb = E.no_geometry;
  }

  abbrev pub closed : Pipeline → Bool
  closed p = p.finished || p.stopping

  -- `acquireSlot`, first section: sleep while the reorder buffer is full; then false means -1.
  unfoldable pub admit : Pipeline → Option Bool
  admit p =
      if closed p || ltb (length p.pending) p.reorder_depth then some (not (closed p)) else none

  -- `acquireSlot`, last section, with the lease that the pool gave: whether the slot is now the
  -- caller's. If not, the caller drops the lease and returns -1.
  unfoldable pub claim : Pipeline → ℕ → Pipeline × Bool
  claim p i =
      if closed p
      then (p, false)
      else let s = p.slots i in
        let (pool, lease, _) = assign_lease p.pool s.lease (holding i) in
        (
          record p {
            pool = pool;
            slots = write p.slots i (record s { lease = lease; state = held });
          },
          true,
        )

  unfoldable pub checked_slot : Pipeline → ℤ → Result (Error Message) ℕ
  checked_slot p (negsuc i) = err slot_out_of_range
  checked_slot p (pos i) = do
    require (ltb i (size p.pool)) slot_out_of_range
    require (is_held (p.slots i).state) slot_not_held
    ok i

  abbrev pub rethrow : Result Message Geometry → Result (Error Message) Geometry
  rethrow (ok lb) = ok lb
  rethrow (err m) = err (preproc_failed m)

  abbrev pub write_tensor :
      Pipeline → ℕ → Tensor × Result Message Geometry → Pipeline × Result (Error Message) Geometry
  write_tensor p i (t, r) =
      (record p { slots = write p.slots i (record (p.slots i) { tensor = t }) }, rethrow r)

  abbrev pub letterbox_at :
      Pipeline → Source → Result (Error Message) ℕ → Pipeline × Result (Error Message) Geometry
  letterbox_at p src (err e) = (p, err e)
  letterbox_at p src (ok i) = write_tensor p i (E.letterbox src (p.slots i).tensor)

  -- The caller owns a held slot, so its check and its write are taken together.
  unfoldable pub letterbox_into_slot :
      Pipeline → ℤ → Source → Pipeline × Result (Error Message) Geometry
  unfolding checked_slot
  letterbox_into_slot p slot src =
      if E.is_valid src then letterbox_at p src (checked_slot p slot) else (p, err invalid_source)

  -- `s.state = kFree`, the lease moved out.
  abbrev pub freed : Pipeline → ℕ → Pipeline
  freed p i = record p {
    slots = write p.slots i (record (p.slots i) { lease = vacant; state = free });
  }

  abbrev pub enqueue : Pipeline → ℕ → Geometry → Pipeline
  enqueue p i lb = record p {
    slots = write p.slots i (record (p.slots i) { lb = lb; seq = p.next_in; state = queued });
    next_in = (p.next_in + 1) % u64;
  }

  -- The pipeline, the lease that the caller drops afterwards, and the result.
  unfoldable pub commit_slot :
      Pipeline → ℤ → Geometry → Result (Error Message) (Pipeline × Lease × Bool)
  unfolding checked_slot
  commit_slot p slot lb = do
    i ← checked_slot p slot
    ok (if closed p then (freed p i, (p.slots i).lease, false) else (enqueue p i lb, vacant, true))

  unfoldable pub release_slot : Pipeline → ℤ → Result (Error Message) (Pipeline × Lease)
  unfolding checked_slot
  release_slot p slot = do i ← checked_slot p slot; ok (freed p i, (p.slots i).lease)
