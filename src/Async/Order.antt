-- ===== src/Async/Order.antt =====
-- pipeline/async_detection_pipeline.cc: sequence numbers. A committed frame that is not yet
-- delivered is queued in one slot or parked in the reorder buffer, with its own result.
pub mod Slots
pub mod Workers
pub mod Drain
use rcdl.Common.{ℕ, ◌<◌, ◌≤◌, ◌≡◌, List, Option, none, some, length, get_elem?}
use rcdl.Common.Assoc.{find, Unique}
use rcdl.Async.Interface.{Stages}
use rcdl.Async.Impl.{Slot, SlotState, queued, Parked}
use rcdl.Async.Worker.{work}
use rcdl.Async.World.{Worker, waiting, running, finished, returning, gone}

module _ (E : Stages) where
  -- A queued slot has the frame that was committed under its number.
  pub record Queued (expected : List (Parked E)) (next_out : ℕ) (pending : List (ℕ × Parked E))
      (s : Slot E) : Type 0 where
    pub result : get_elem? expected s.seq ≡ some (work E s.tensor s.lb)
    pub due : next_out ≤ s.seq
    pub not_parked : find s.seq pending ≡ none

  -- A worker with a frame has that of its slot, which stays queued until the worker parks.
  abbrev pub WorkerOrder : List (Parked E) → Slot E → Worker E → Type 0
  WorkerOrder expected s waiting = Unit
  WorkerOrder expected s (running seq lb) = (s.state ≡ queued) × (s.seq ≡ seq) × (s.lb ≡ lb)
  WorkerOrder expected s (finished seq r) =
      (s.state ≡ queued) × (s.seq ≡ seq) × (get_elem? expected seq ≡ some r)
  WorkerOrder expected s (returning l) = Unit
  WorkerOrder expected s gone = Unit

  pub record Order (expected delivered : List (Parked E)) (next_out : ℕ)
      (pending : List (ℕ × Parked E)) (slots : ℕ → Slot E) (workers : ℕ → Worker E) : Type 0 where
    pub bounded : next_out ≤ length expected
    pub counted : length delivered ≡ next_out
    pub in_order : (k : ℕ) → k < next_out → get_elem? delivered k ≡ get_elem? expected k
    pub unique : Unique pending
    pub parked :
        (k : ℕ) (r : Parked E)
        → find k pending ≡ some r
        → (get_elem? expected k ≡ some r) × (next_out ≤ k)
    pub slot : (i : ℕ) → (slots i).state ≡ queued → Queued expected next_out pending (slots i)
    pub distinct :
        (i j : ℕ)
        → (slots i).state ≡ queued
        → (slots j).state ≡ queued
        → (slots i).seq ≡ (slots j).seq
        → i ≡ j
    pub worker : (i : ℕ) → WorkerOrder expected (slots i) (workers i)
