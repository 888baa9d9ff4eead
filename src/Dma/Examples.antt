-- ===== src/Dma/Examples.antt =====
-- DmaBuf at a concrete kernel, whose descriptors and addresses follow from the number of the call,
-- and which has no memory for more than 4096 bytes.
use rcdl.Common.{◌+◌, ◌*◌, refl, false, true, List, [], ◌∷◌, ltb, if◌then◌else◌, ok, err}
use rcdl.Common.Int.{pos}
use rcdl.Dma.{Kernel, system_dma32, system}
use rcdl.Dma.Program.{Program, Call, allocs, wraps, moves, assigns, maps, syncs, releases, run}
use rcdl.Dma.Balance.{Conserved}
use rcdl.Dma.Ownership.{run-Conserved}

abbrev pub small_memory : Kernel
small_memory = record {
  open_heap = λ call heap. ok (2 * call);
  heap_alloc = λ call heap_fd size. if ltb 4096 size then err 12 else ok (2 * call + 1);
  dup = λ call fd. ok (2 * call);
  mmap = λ call fd size. ok (65536 * call);
  sync = λ call fd flags. ok tt;
}

abbrev no_buf : Program
no_buf = record { bufs = []; log = [] }

no_buf-Conserved : Conserved no_buf
no_buf-Conserved = record { fds = λ f. refl; mappings = λ a n. refl }

abbrev history : List Call
history =
    allocs 4096 system
    ∷ allocs 8192 system
    ∷ wraps (pos 9) 64 true
    ∷ maps 0
    ∷ syncs 0 true true false
    ∷ moves 0
    ∷ assigns 2 1
    ∷ allocs 16 system_dma32
    ∷ releases 2
    ∷ []

run-Conserved_example : Conserved (run small_memory 0 no_buf history)
run-Conserved_example = run-Conserved small_memory 0 no_buf history no_buf-Conserved
