-- ===== src/Dma/Ownership.antt =====
-- core/dma_buf.h: "Owns the fd", and the mapping: whatever the program does, no descriptor and no
-- mapping is lost, and none is given back twice.
use rcdl.Common.{
  ℕ, suc, ◌≡◌, ◌≢◌, refl, ap, ◌∙◌, inl, inr, Bool, List, [], ◌∷◌, ◌++◌, Option, none, some,
  get_elem?, get_elem?-set_ne, set-set, get_elem?-set, set, ◌==◌, ==_false, Bool-cases, Result, ok,
  err, arith, weigh-append, weigh-set,
}
use rcdl.Dma.{
  Buf, Event, mapped, Kernel, emptied, release, move_buf, assign_buf, map_once, mapped_now, data_at,
  data_of, synced_now, sync_at, sync_flags, sync,
}
use rcdl.Dma.Program.{
  Program, Call, allocs, wraps, moves, assigns, maps, syncs, releases, noted, mapped_at, on_buf,
  move_from, assign_to, step, run,
}
use rcdl.Dma.Balance.{
  opens, closes, has_fd, maps_at, unmaps_at, is_map, has_map, Conserved, Adds, alloc-Makes,
  from_fd-Makes, made-Conserved, release-fds, release-maps,
}

release_at-Conserved :
    (s : Program) (k : ℕ) (b : Buf)
    → Conserved s
    → get_elem? s.bufs k ≡ some b
    → Conserved (record { bufs = set s.bufs k (emptied b); log = s.log ++ (release b).0 })
release_at-Conserved s k b c h = record {
  fds = λ f. omega (
    arith,
    c.fds f,
    release-fds b f,
    weigh-append (opens f) s.log (release b).0,
    weigh-append (closes f) s.log (release b).0,
    weigh-set (has_fd f) s.bufs k b (emptied b) h,
  );
  mappings = λ a n. omega (
    arith,
    c.mappings a n,
    release-maps b a n,
    weigh-append (maps_at a n) s.log (release b).0,
    weigh-append (unmaps_at a n) s.log (release b).0,
    weigh-set (has_map a n) s.bufs k b (emptied b) h,
  );
}

move_from-Conserved :
    (s : Program) (k : ℕ) (b : Buf)
    → Conserved s
    → get_elem? s.bufs k ≡ some b
    → Conserved (move_from s k b)
unfolding move_buf
move_from-Conserved s k b c h = record {
  fds = λ f. omega (
    arith,
    c.fds f,
    weigh-set (has_fd f) s.bufs k b (emptied b) h,
    weigh-append (has_fd f) (set s.bufs k (emptied b)) (b ∷ []),
  );
  mappings = λ a n. omega (
    arith,
    c.mappings a n,
    weigh-set (has_map a n) s.bufs k b (emptied b) h,
    weigh-append (has_map a n) (set s.bufs k (emptied b)) (b ∷ []),
  );
}

-- An exchange of an empty object and another.
swap-Conserved :
    (s : Program) (j k : ℕ) (self other : Buf)
    → Conserved s
    → j ≢ k
    → get_elem? s.bufs j ≡ some (emptied self)
    → get_elem? s.bufs k ≡ some other
    → Conserved (record s { bufs = set (set s.bufs j other) k (emptied other) })
swap-Conserved s j k self other c ne hj hk =
    let hk' : get_elem? (set s.bufs j other) k ≡ some other =
      get_elem?-set_ne s.bufs other ne ∙ hk in
    record {
      fds = λ f. omega (
        arith,
        c.fds f,
        weigh-set (has_fd f) s.bufs j (emptied self) other hj,
        weigh-set (has_fd f) (set s.bufs j other) k other (emptied other) hk',
      );
      mappings = λ a n. omega (
        arith,
        c.mappings a n,
        weigh-set (has_map a n) s.bufs j (emptied self) other hj,
        weigh-set (has_map a n) (set s.bufs j other) k other (emptied other) hk',
      );
    }

assign_to-Conserved :
    (s : Program) (j k : ℕ) (self other : Buf)
    → Conserved s
    → get_elem? s.bufs j ≡ some self
    → get_elem? s.bufs k ≡ some other
    → Conserved (assign_to s j self k other)
unfolding assign_buf
assign_to-Conserved s j k self other c hj hk = elim (Bool-cases (j == k)) [
  | inl same ↦ rw same c
  | inr apart ↦
      let ne : j ≢ k = ==_false j k apart in
      let mid : Program = record {
        bufs = set s.bufs j (emptied self);
        log = s.log ++ (release self).0;
      } in
      rw apart (
        rw (← set-set s.bufs j (emptied self) other) (
          swap-Conserved mid j k self other (release_at-Conserved s j self c hj) ne
            (get_elem?-set s.bufs j (emptied self) hj)
            (get_elem?-set_ne s.bufs (emptied self) ne ∙ hk)))
]

-- `data` maps once.
mapped_at-Conserved :
    (os : Kernel) (n : ℕ) (s : Program) (k : ℕ) (b : Buf)
    → Conserved s
    → get_elem? s.bufs k ≡ some b
    → Conserved (mapped_at s k (data_of os n b))
unfolding data_of
mapped_at-Conserved os n s k b c h = by_fd b.fd refl
  where
    same : (b' : Buf) → b' ≡ b → Conserved (record { bufs = set s.bufs k b'; log = s.log ++ [] })
    same b' e = rw e (record {
      fds = λ f. omega (
        arith,
        c.fds f,
        weigh-append (opens f) s.log [],
        weigh-append (closes f) s.log [],
        weigh-set (has_fd f) s.bufs k b b h,
      );
      mappings = λ a m. omega (
        arith,
        c.mappings a m,
        weigh-append (maps_at a m) s.log [],
        weigh-append (unmaps_at a m) s.log [],
        weigh-set (has_map a m) s.bufs k b b h,
      );
    })

    silent : Conserved (noted s [])
    silent = record {
      fds = λ f.
          omega (arith, c.fds f, weigh-append (opens f) s.log [], weigh-append (closes f) s.log []);
      mappings = λ a m. omega (
        arith,
        c.mappings a m,
        weigh-append (maps_at a m) s.log [],
        weigh-append (unmaps_at a m) s.log [],
      );
    }

    by_mmap : b.map ≡ none → (r : Result ℕ ℕ) → Conserved (mapped_at s k (mapped_now b r))
    by_mmap free (err e) = silent
    by_mmap free (ok address) =
        let b' : Buf = record b { map = some address } in
        let events : List Event = mapped address b.size ∷ [] in
        record {
          fds = λ f. omega (
            arith,
            c.fds f,
            weigh-append (opens f) s.log events,
            weigh-append (closes f) s.log events,
            weigh-set (has_fd f) s.bufs k b b' h,
          );
          mappings = λ a m.
              let none_yet : has_map a m b ≡ 0 = ap (λ x. is_map a m x b.size) free in
              omega (
                arith,
                c.mappings a m,
                none_yet,
                weigh-append (maps_at a m) s.log events,
                weigh-append (unmaps_at a m) s.log events,
                weigh-set (has_map a m) s.bufs k b b' h,
              );
        }

    by_map : (fd : ℕ) (m : Option ℕ) → b.map ≡ m → Conserved (mapped_at s k (map_once os n b fd m))
    by_map fd none e = by_mmap e (os.mmap n fd b.size)
    by_map fd (some address) e = same b refl

    by_fd : (d : Option ℕ) → b.fd ≡ d → Conserved (mapped_at s k (data_at os n b d))
    by_fd none e = silent
    by_fd (some fd) e = by_map fd b.map refl

synced-Conserved :
    (os : Kernel) (n : ℕ) (start read write : Bool) (s : Program) (b : Buf)
    → Conserved s
    → Conserved (noted s (sync os n start read write b).0)
unfolding sync
synced-Conserved os n start read write s b c = by_fd b.fd
  where
    flags : ℕ
    flags = sync_flags start read write

    silent : (es : List Event) → Adds es (λ f. 0) (λ a m. 0) → Conserved (noted s es)
    silent es q = record {
      fds = λ f. omega (
        arith,
        c.fds f,
        q.opened_more f,
        weigh-append (opens f) s.log es,
        weigh-append (closes f) s.log es,
      );
      mappings = λ a m. omega (
        arith,
        c.mappings a m,
        q.mapped_more a m,
        weigh-append (maps_at a m) s.log es,
        weigh-append (unmaps_at a m) s.log es,
      );
    }

    by_sync : (fd : ℕ) (r : Result ℕ (Unit {0})) → Conserved (noted s (synced_now fd flags r).0)
    by_sync fd (err e) = silent [] (record { opened_more = λ f. refl; mapped_more = λ a m. refl })
    by_sync fd (ok done) = silent _ (record { opened_more = λ f. refl; mapped_more = λ a m. refl })

    by_fd : (d : Option ℕ) → Conserved (noted s (sync_at os n flags d).0)
    by_fd none = silent [] (record { opened_more = λ f. refl; mapped_more = λ a m. refl })
    by_fd (some fd) = by_sync fd (os.sync n fd flags)

on_buf-Conserved :
    (s : Program) (m : Option Buf) (f : Buf → Program)
    → Conserved s
    → ((b : Buf) → m ≡ some b → Conserved (f b))
    → Conserved (on_buf s m f)
on_buf-Conserved s none f c h = c
on_buf-Conserved s (some b) f c h = h b refl

step-Conserved :
    (os : Kernel) (n : ℕ) (s : Program) (call : Call) → Conserved s → Conserved (step os n s call)
unfolding step release
step-Conserved os n s (allocs size heap) c = made-Conserved s _ c (alloc-Makes os n size heap)
step-Conserved os n s (wraps fd size below) c =
    made-Conserved s _ c (from_fd-Makes os n fd size below)
step-Conserved os n s (moves k) c =
    on_buf-Conserved s (get_elem? s.bufs k) _ c (λ b h. move_from-Conserved s k b c h)
step-Conserved os n s (assigns j k) c = on_buf-Conserved s (get_elem? s.bufs j) _ c λ self hj.
    on_buf-Conserved s (get_elem? s.bufs k) _ c
      λ other hk. assign_to-Conserved s j k self other c hj hk
step-Conserved os n s (maps k) c =
    on_buf-Conserved s (get_elem? s.bufs k) _ c (λ b h. mapped_at-Conserved os n s k b c h)
step-Conserved os n s (syncs k start read write) c =
    on_buf-Conserved s (get_elem? s.bufs k) _ c
      (λ b h. synced-Conserved os n start read write s b c)
step-Conserved os n s (releases k) c =
    on_buf-Conserved s (get_elem? s.bufs k) _ c (λ b h. release_at-Conserved s k b c h)

-- From a program in which it is so, whatever calls the program makes, whichever of them fail: each
-- descriptor was closed as often as it was opened, but for those that an object still holds, and each
-- mapping was removed, with the length it was made with, as often as it was made, but for those of
-- the objects.
pub run-Conserved :
    (os : Kernel) (n : ℕ) (s : Program) (cs : List Call) → Conserved s → Conserved (run os n s cs)
unfolding run
run-Conserved os n s [] c = c
run-Conserved os n s (call ∷ cs) c =
    run-Conserved os (suc n) (step os n s call) cs (step-Conserved os n s call c)
