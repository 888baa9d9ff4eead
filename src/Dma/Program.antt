-- ===== src/Dma/Program.antt =====
-- core/dma_buf.cc: a program that uses DmaBuf, as the objects that it has made, oldest first, and
-- what it has asked of the kernel so far.
use rcdl.Common.{
  ℕ, suc, Bool, List, [], ◌∷◌, ◌++◌, Option, none, some, get_elem?, set, ◌==◌, if◌then◌else◌,
  Result, ok, err,
}
use rcdl.Common.Int.{ℤ}
use rcdl.Dma.{
  Heap, Buf, Event, Error, Kernel, alloc, from_fd, release, move_buf, assign_buf, data_of, sync,
}

pub record Program : Type 0 where
  pub bufs : List Buf
  pub log : List Event

pub data Call : Type 0 where
  allocs : ℕ → Heap → Call
  wraps : ℤ → ℕ → Bool → Call
  moves : ℕ → Call
  assigns : ℕ → ℕ → Call
  maps : ℕ → Call
  syncs : ℕ → Bool → Bool → Bool → Call
  releases : ℕ → Call

abbrev pub noted : Program → List Event → Program
noted s events = record s { log = s.log ++ events }

abbrev pub made : Program → List Event × Result Error Buf → Program
made s (events, err e) = noted s events
made s (events, ok b) = record { bufs = s.bufs ++ b ∷ []; log = s.log ++ events }

abbrev pub mapped_at : Program → ℕ → List Event × Result Error (Buf × ℕ) → Program
mapped_at s k (events, err e) = noted s events
mapped_at s k (events, ok (b, address)) = record { bufs = set s.bufs k b; log = s.log ++ events }

abbrev pub on_buf : Program → Option Buf → (Buf → Program) → Program
on_buf s none f = s
on_buf s (some b) f = f b

-- `release()` of an object, or its destructor.
abbrev pub release_at : Program → ℕ → Buf → Program
release_at s k b = record { bufs = set s.bufs k (release b).1; log = s.log ++ (release b).0 }

abbrev pub move_from : Program → ℕ → Buf → Program
move_from s k b = record s { bufs = set s.bufs k (move_buf b).1 ++ (move_buf b).0 ∷ [] }

-- Assigning an object to itself does nothing.
abbrev pub assign_to : Program → ℕ → Buf → ℕ → Buf → Program
assign_to s j self k other =
    if j == k
    then s
    else let (events, self', other') = assign_buf self other in
      record { bufs = set (set s.bufs j self') k other'; log = s.log ++ events }

unfoldable pub step : Kernel → ℕ → Program → Call → Program
step os n s (allocs size heap) = made s (alloc os n size heap)
step os n s (wraps fd size below_4g) = made s (from_fd os n fd size below_4g)
step os n s (moves k) = on_buf s (get_elem? s.bufs k) (move_from s k)
step os n s (assigns j k) =
    on_buf s (get_elem? s.bufs j)
      (λ self. on_buf s (get_elem? s.bufs k) (λ other. assign_to s j self k other))
step os n s (maps k) = on_buf s (get_elem? s.bufs k) (λ b. mapped_at s k (data_of os n b))
step os n s (syncs k start read write) =
    on_buf s (get_elem? s.bufs k) (λ b. noted s (sync os n start read write b).0)
step os n s (releases k) = on_buf s (get_elem? s.bufs k) (release_at s k)

unfoldable pub run : Kernel → ℕ → Program → List Call → Program
run os n s [] = s
run os n s (c ∷ cs) = run os (suc n) (step os n s c) cs
