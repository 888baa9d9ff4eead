-- ===== src/Dma.antt =====
-- core/dma_buf.h, core/dma_buf.cc: DmaBuf, which owns a dma-buf descriptor and its mapping. The
-- kernel's calls are a parameter; what a function asks of the kernel is the list of events that it
-- returns.
pub mod Program
pub mod Balance
pub mod Ownership
pub mod Examples
use rcdl.Common.{
  ℕ, ◌+◌, Bool, true, false, List, [], ◌∷◌, ◌++◌, Option, none, some, ◌==◌, if◌then◌else◌, Result,
  ok, err, ok-injective, ◌≡◌, ◌≢◌, refl, subst, inl, inr, Bool-cases,
}
use rcdl.Common.Int.{ℤ, pos, negsuc}

pub data Heap : Type 0 where
  system system_uncached cma cma_uncached system_dma32 system_uncached_dma32 : Heap

unfoldable pub heap_below_4g : Heap → Bool
heap_below_4g system_dma32 = true
heap_below_4g system_uncached_dma32 = true
heap_below_4g _ = false

-- No descriptor, -1, is `none`; so is a null mapping.
pub record Buf : Type 0 where
  pub fd : Option ℕ
  pub size : ℕ
  pub map : Option ℕ
  pub heap : Heap
  pub below_4g : Bool

pub data Event : Type 0 where
  opened : ℕ → Event
  closed : ℕ → Event
  -- An address, and the length of the mapping there.
  mapped : ℕ → ℕ → Event
  unmapped : ℕ → ℕ → Event
  -- A descriptor, and the flags.
  synced : ℕ → ℕ → Event

-- With the errno of the call that failed.
pub data Error : Type 0 where
  bad_size : Error
  bad_fd : Error
  empty_buffer : Error
  no_heap : ℕ → Error
  no_memory : ℕ → Error
  no_dup : ℕ → Error
  no_map : ℕ → Error
  no_sync : ℕ → Error

-- open(), DMA_HEAP_IOCTL_ALLOC, dup(), mmap() and DMA_BUF_IOCTL_SYNC, each with an errno or what it
-- gives. The first argument tells the calls of one run apart.
pub record Kernel : Type 0 where
  pub open_heap : ℕ → Heap → Result ℕ ℕ
  pub heap_alloc : ℕ → ℕ → ℕ → Result ℕ ℕ
  pub dup : ℕ → ℕ → Result ℕ ℕ
  pub mmap : ℕ → ℕ → ℕ → Result ℕ ℕ
  pub sync : ℕ → ℕ → ℕ → Result ℕ (Unit {0})

-- The heap's own descriptor is closed whether or not the allocation succeeds.
abbrev pub allocated : ℕ → Heap → ℕ → Result ℕ ℕ → List Event × Result Error Buf
allocated size heap heap_fd (err e) = (opened heap_fd ∷ closed heap_fd ∷ [], err (no_memory e))
allocated size heap heap_fd (ok fd) = (
  opened heap_fd ∷ opened fd ∷ closed heap_fd ∷ [],
  ok (record { fd = some fd; size = size; map = none; heap = heap; below_4g = heap_below_4g heap }),
)

abbrev pub heap_opened : Kernel → ℕ → ℕ → Heap → Result ℕ ℕ → List Event × Result Error Buf
heap_opened os call size heap (err e) = ([], err (no_heap e))
heap_opened os call size heap (ok heap_fd) =
    allocated size heap heap_fd (os.heap_alloc call heap_fd size)

unfoldable pub alloc : Kernel → ℕ → ℕ → Heap → List Event × Result Error Buf
alloc os call size heap =
    if size == 0 then ([], err bad_size) else heap_opened os call size heap (os.open_heap call heap)

abbrev pub duplicated : ℕ → Bool → Result ℕ ℕ → List Event × Result Error Buf
duplicated size below_4g (err e) = ([], err (no_dup e))
duplicated size below_4g (ok d) = (
  opened d ∷ [],
  ok (record { fd = some d; size = size; map = none; heap = system; below_4g = below_4g }),
)

unfoldable pub from_fd : Kernel → ℕ → ℤ → ℕ → Bool → List Event × Result Error Buf
from_fd os call (negsuc i) size below_4g = ([], err bad_fd)
from_fd os call (pos fd) size below_4g = duplicated size below_4g (os.dup call fd)

-- What a moved-from buffer is left with, and what `release` leaves.
abbrev pub emptied : Buf → Buf
emptied b = record b { fd = none; size = 0; map = none; below_4g = false }

abbrev pub unmap : Option ℕ → ℕ → List Event
unmap none size = []
unmap (some address) size = unmapped address size ∷ []

abbrev pub close : Option ℕ → List Event
close none = []
close (some fd) = closed fd ∷ []

unfoldable pub release : Buf → List Event × Buf
release b = (unmap b.map b.size ++ close b.fd, emptied b)

-- DmaBuf(DmaBuf&&): the new buffer, and what is left in the other.
unfoldable pub move_buf : Buf → Buf × Buf
move_buf other = (other, emptied other)

-- operator=(DmaBuf&&) between two objects.
unfoldable pub assign_buf : Buf → Buf → List Event × Buf × Buf
assign_buf self other = let (events, _) = release self in (events, other, emptied other)

abbrev pub mapped_now : Buf → Result ℕ ℕ → List Event × Result Error (Buf × ℕ)
mapped_now b (err e) = ([], err (no_map e))
mapped_now b (ok address) =
    (mapped address b.size ∷ [], ok (record b { map = some address }, address))

abbrev pub map_once : Kernel → ℕ → Buf → ℕ → Option ℕ → List Event × Result Error (Buf × ℕ)
map_once os call b fd (some address) = ([], ok (b, address))
map_once os call b fd none = mapped_now b (os.mmap call fd b.size)

abbrev pub data_at : Kernel → ℕ → Buf → Option ℕ → List Event × Result Error (Buf × ℕ)
data_at os call b none = ([], err empty_buffer)
data_at os call b (some fd) = map_once os call b fd b.map

-- The mapping is made on the first call.
unfoldable pub data_of : Kernel → ℕ → Buf → List Event × Result Error (Buf × ℕ)
data_of os call b = data_at os call b b.fd

-- DMA_BUF_SYNC_END is 4, DMA_BUF_SYNC_READ 1 and DMA_BUF_SYNC_WRITE 2.
unfoldable pub sync_flags : Bool → Bool → Bool → ℕ
sync_flags start read write =
    (if start then 0 else 4) + (if read then 1 else 0) + (if write then 2 else 0)

abbrev pub synced_now : ℕ → ℕ → Result ℕ (Unit {0}) → List Event × Result Error (Unit {0})
synced_now fd flags (err e) = ([], err (no_sync e))
synced_now fd flags (ok done) = (synced fd flags ∷ [], ok tt)

abbrev pub sync_at : Kernel → ℕ → ℕ → Option ℕ → List Event × Result Error (Unit {0})
sync_at os call flags none = ([], err empty_buffer)
sync_at os call flags (some fd) = synced_now fd flags (os.sync call fd flags)

unfoldable pub sync : Kernel → ℕ → Bool → Bool → Bool → Buf → List Event × Result Error (Unit {0})
sync os call start read write b = sync_at os call (sync_flags start read write) b.fd

-- What a new buffer is: of the size asked for, with a descriptor, and not mapped.
pub record Fresh (size : ℕ) (heap : Heap) (b : Buf) : Type 0 where
  pub sized : b.size ≡ size
  pub owns : b.fd ≢ none
  pub unmapped_yet : b.map ≡ none
  pub on_heap : b.below_4g ≡ heap_below_4g heap

pub alloc-Fresh :
    (os : Kernel) (call size : ℕ) (heap : Heap) {b : Buf}
    → (alloc os call size heap).1 ≡ ok b
    → Fresh size heap b
unfolding alloc
alloc-Fresh os call size heap {b} = elim (Bool-cases (size == 0)) [
  | inl empty ↦ rw empty (λ h. cc)
  | inr some_size ↦ rw some_size (by_heap (os.open_heap call heap))
]
  where
    by_alloc : (d : ℕ) (r : Result ℕ ℕ) → (allocated size heap d r).1 ≡ ok b → Fresh size heap b
    by_alloc d (err e) h = cc
    by_alloc d (ok fd) h =
        subst (Fresh size heap) (ok-injective h)
          (record { sized = refl; owns = λ e. cc; unmapped_yet = refl; on_heap = refl })

    by_heap : (r : Result ℕ ℕ) → (heap_opened os call size heap r).1 ≡ ok b → Fresh size heap b
    by_heap (err e) h = cc
    by_heap (ok d) h = by_alloc d (os.heap_alloc call d size) h
