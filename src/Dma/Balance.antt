-- ===== src/Dma/Balance.antt =====
-- core/dma_buf.cc: the descriptors and mappings that each call opens, closes and leaves with an
-- object.
use rcdl.Common.{
  ℕ, ◌+◌, ◌≡◌, refl, inl, inr, Bool, ◌&&◌, List, [], ◌∷◌, ◌++◌, Option, none, some, ◌==◌,
  Bool-cases, Result, ok, err, arith, weigh, weigh-append,
}
use rcdl.Common.Int.{ℤ, pos, negsuc}
use rcdl.Common.Family.{bit}
use rcdl.Dma.{
  Heap, Buf, Event, opened, closed, mapped, unmapped, Error, Kernel, heap_opened, allocated, alloc,
  duplicated, from_fd, unmap, close, release,
}
use rcdl.Dma.Program.{Program, made}

-- What an event or an object counts for: the descriptor `f`.
abbrev pub opens : ℕ → Event → ℕ
opens f (opened g) = bit (g == f)
opens f _ = 0

abbrev pub closes : ℕ → Event → ℕ
closes f (closed g) = bit (g == f)
closes f _ = 0

abbrev pub is_fd : ℕ → Option ℕ → ℕ
is_fd f none = 0
is_fd f (some g) = bit (g == f)

abbrev pub has_fd : ℕ → Buf → ℕ
has_fd f b = is_fd f b.fd

-- The mapping of `n` bytes at address `a`.
abbrev pub maps_at : ℕ → ℕ → Event → ℕ
maps_at a n (mapped b m) = bit (b == a && m == n)
maps_at a n _ = 0

abbrev pub unmaps_at : ℕ → ℕ → Event → ℕ
unmaps_at a n (unmapped b m) = bit (b == a && m == n)
unmaps_at a n _ = 0

abbrev pub is_map : ℕ → ℕ → Option ℕ → ℕ → ℕ
is_map a n none m = 0
is_map a n (some b) m = bit (b == a && m == n)

abbrev pub has_map : ℕ → ℕ → Buf → ℕ
has_map a n b = is_map a n b.map b.size

-- Each descriptor was closed as often as it was opened, but for those that an object holds; and
-- each mapping was removed, with its length, as often as it was made, but for those of the objects.
pub record Conserved (s : Program) : Type 0 where
  pub fds : (f : ℕ) → weigh (opens f) s.log ≡ weigh (closes f) s.log + weigh (has_fd f) s.bufs
  pub mappings :
      (a n : ℕ)
      → weigh (maps_at a n) s.log ≡ weigh (unmaps_at a n) s.log + weigh (has_map a n) s.bufs

-- The events of one call add `fds f` descriptors `f`, and `mappings a n` mappings, to the objects.
pub record Adds (events : List Event) (fds : ℕ → ℕ) (mappings : ℕ → ℕ → ℕ) : Type 0 where
  pub opened_more : (f : ℕ) → weigh (opens f) events ≡ weigh (closes f) events + fds f
  pub mapped_more :
      (a n : ℕ) → weigh (maps_at a n) events ≡ weigh (unmaps_at a n) events + mappings a n

abbrev pub gained : Result Error Buf → (Buf → ℕ) → ℕ
gained (err e) w = 0
gained (ok b) w = w b

abbrev pub Makes : List Event × Result Error Buf → Type 0
Makes r = Adds r.0 (λ f. gained r.1 (has_fd f)) (λ a n. gained r.1 (has_map a n))

pub alloc-Makes : (os : Kernel) (n size : ℕ) (heap : Heap) → Makes (alloc os n size heap)
unfolding alloc
alloc-Makes os n size heap = elim (Bool-cases (size == 0)) [
  | inl empty ↦ rw empty (record { opened_more = λ f. refl; mapped_more = λ a m. refl })
  | inr some_size ↦ rw some_size (by_heap (os.open_heap n heap))
]
  where
    by_alloc : (h : ℕ) (r : Result ℕ ℕ) → Makes (allocated size heap h r)
    by_alloc h (err e) = record { opened_more = λ f. omega arith; mapped_more = λ a m. refl }
    by_alloc h (ok fd) = record { opened_more = λ f. omega arith; mapped_more = λ a m. refl }

    by_heap : (r : Result ℕ ℕ) → Makes (heap_opened os n size heap r)
    by_heap (err e) = record { opened_more = λ f. refl; mapped_more = λ a m. refl }
    by_heap (ok h) = by_alloc h (os.heap_alloc n h size)

pub from_fd-Makes :
    (os : Kernel) (n : ℕ) (fd : ℤ) (size : ℕ) (below : Bool) → Makes (from_fd os n fd size below)
unfolding from_fd
from_fd-Makes os n (negsuc i) size below = record {
  opened_more = λ f. refl;
  mapped_more = λ a m. refl;
}
from_fd-Makes os n (pos fd) size below = by_dup (os.dup n fd)
  where
    by_dup : (r : Result ℕ ℕ) → Makes (duplicated size below r)
    by_dup (err e) = record { opened_more = λ f. refl; mapped_more = λ a m. refl }
    by_dup (ok d) = record { opened_more = λ f. omega arith; mapped_more = λ a m. refl }

pub made-Conserved :
    (s : Program) (r : List Event × Result Error Buf) → Conserved s → Makes r → Conserved (made s r)
made-Conserved s (events, err e) c m = record {
  fds = λ f. omega (
    arith,
    c.fds f,
    m.opened_more f,
    weigh-append (opens f) s.log events,
    weigh-append (closes f) s.log events,
  );
  mappings = λ a n. omega (
    arith,
    c.mappings a n,
    m.mapped_more a n,
    weigh-append (maps_at a n) s.log events,
    weigh-append (unmaps_at a n) s.log events,
  );
}
made-Conserved s (events, ok b) c m = record {
  fds = λ f. omega (
    arith,
    c.fds f,
    m.opened_more f,
    weigh-append (opens f) s.log events,
    weigh-append (closes f) s.log events,
    weigh-append (has_fd f) s.bufs (b ∷ []),
  );
  mappings = λ a n. omega (
    arith,
    c.mappings a n,
    m.mapped_more a n,
    weigh-append (maps_at a n) s.log events,
    weigh-append (unmaps_at a n) s.log events,
    weigh-append (has_map a n) s.bufs (b ∷ []),
  );
}

-- `release` gives back what the object holds.
pub release-fds :
    (b : Buf) (f : ℕ)
    → (weigh (opens f) (release b).0 ≡ 0) × (weigh (closes f) (release b).0 ≡ has_fd f b)
unfolding release
release-fds b f = by_fields b.map b.fd
  where
    by_fields :
        (m d : Option ℕ)
        → (weigh (opens f) (unmap m b.size ++ close d) ≡ 0)
          × (weigh (closes f) (unmap m b.size ++ close d) ≡ is_fd f d)
    by_fields none none = (refl, refl)
    by_fields none (some d) = (refl, omega arith)
    by_fields (some m) none = (refl, refl)
    by_fields (some m) (some d) = (refl, omega arith)

pub release-maps :
    (b : Buf) (a n : ℕ)
    → (weigh (maps_at a n) (release b).0 ≡ 0)
      × (weigh (unmaps_at a n) (release b).0 ≡ has_map a n b)
unfolding release
release-maps b a n = by_fields b.map b.fd
  where
    by_fields :
        (m d : Option ℕ)
        → (weigh (maps_at a n) (unmap m b.size ++ close d) ≡ 0)
          × (weigh (unmaps_at a n) (unmap m b.size ++ close d) ≡ is_map a n m b.size)
    by_fields none none = (refl, refl)
    by_fields none (some d) = (refl, refl)
    by_fields (some m) none = (refl, omega arith)
    by_fields (some m) (some d) = (refl, omega arith)
