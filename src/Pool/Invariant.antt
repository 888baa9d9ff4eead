-- ===== src/Pool/Invariant.antt =====
-- engine_pool.cc: the two records of what is leased, `in_use_` and `free_`, agree.
use rcdl.Common.{
  ℕ, ◌+◌, ◌-◌, ◌<◌, ◌≤◌, ◌≡◌, refl, ◌⊎◌, inl, inr, true, false, none, some, length, length-set, set,
  ok, arith, sym, subst, ◌∙◌, lt→ltb, dec_lt, Bool-cases,
}
use rcdl.Common.Int.{ℤ, pos, negsuc}
use rcdl.Pool.{Pool, size, vacant, take_context, scan, acquire, try_acquire, is_free, give_back}
use rcdl.Pool.Free.{
  free_count, free_count-le, is_free-lt, is_free-set, first_free-cases, free_count-set-false,
  free_count-set-true,
}

pub record Inv (p : Pool) : Type 0 where
  pub sized : length p.free ≡ size p
  pub counted : p.in_use + free_count p.free ≡ size p

pub take_context-Inv :
    (p : Pool) (i : ℕ) → is_free p.free i ≡ true → Inv p → Inv (take_context p i).0
unfolding take_context
take_context-Inv p i h v = record {
  sized = length-set p.free i false ∙ v.sized;
  counted = omega (arith, free_count-set-false p.free i h, v.counted);
}

-- What `take_context` takes: the lowest free context.
pub record Takes (p : Pool) (i : ℕ) : Type 0 where
  pub was_free : is_free p.free i ≡ true
  pub in_range : i < size p
  pub lowest : (j : ℕ) → j < i → is_free p.free j ≡ false

-- While fewer contexts are in use than there are, `acquire` neither sleeps nor throws: it leases
-- the lowest free context.
pub acquire-total :
    (p : Pool)
    → Inv p
    → p.in_use < size p
    → (i : ℕ) × (acquire p ≡ some (ok (take_context p i))) × Takes p i
unfolding acquire
acquire-total p v room = elim (first_free-cases p.free) [
  | inl (e, z) ↦ absurd (omega (arith, v.counted))
  | inr (i, e, h, low) ↦ (
    i,
    rw (lt→ltb _ _ room) (rw (e, scan) refl),
    record { was_free = h; in_range = omega (arith, is_free-lt p.free i h, v.sized); lowest = low },
  )
]

-- In a well-formed pool `acquire` sleeps only when every context is in use, and else leases the
-- lowest free one: it never throws.
pub acquire-cases :
    (p : Pool)
    → Inv p
    → ((acquire p ≡ none) × (p.in_use ≡ size p))
      ⊎ ((i : ℕ) × (acquire p ≡ some (ok (take_context p i))) × Takes p i)
unfolding acquire
acquire-cases p v = elim (dec_lt p.in_use (size p)) [
  | yes room ↦ inr (acquire-total p v room)
  | no full ↦ inl (ground arith, omega (arith, v.counted, free_count-le p.free))
]

-- `tryAcquire` leases the lowest free context, or gives an empty lease exactly when all are in use.
pub try_acquire-cases :
    (p : Pool)
    → Inv p
    → ((try_acquire p ≡ (p, vacant)) × (p.in_use ≡ size p))
      ⊎ ((i : ℕ) × (try_acquire p ≡ take_context p i) × Takes p i)
unfolding try_acquire
try_acquire-cases p v = elim (first_free-cases p.free) [
  | inl (e, z) ↦ inl (rw (e, try_acquire) refl, omega (arith, v.counted))
  | inr (i, e, h, low) ↦ inr (
    i,
    rw (e, try_acquire) refl,
    record { was_free = h; in_range = omega (arith, is_free-lt p.free i h, v.sized); lowest = low },
  )
]

-- Giving back a leased context frees it and lowers the count. Giving back one that is free, or an
-- index outside the pool, changes nothing.
pub give_back-cases :
    (p : Pool) (i : ℕ)
    → Inv p
    → ((give_back p (pos i) ≡ p) × ((is_free p.free i ≡ true) ⊎ (size p ≤ i)))
      ⊎ ((give_back p (pos i) ≡ record p { free = set p.free i true; in_use = p.in_use - 1 })
          × (is_free p.free i ≡ false)
          × (i < size p)
          × (0 < p.in_use))
unfolding give_back
give_back-cases p i v = elim (dec_lt i (length p.free)) [
  | yes inside ↦ elim (Bool-cases (is_free p.free i)) [
    | inl free ↦ inl (ground arith, inl free)
    | inr held ↦ inr (
      ground arith,
      held,
      omega (arith, v.sized),
      omega (
        arith,
        v.sized,
        v.counted,
        free_count-set-true p.free i inside held,
        free_count-le (set p.free i true),
        length-set p.free i true,
      ),
    )
  ]
  | no outside ↦ inl (ground arith, inr (omega (arith, v.sized)))
]

-- The invariant survives giving back any index, leased or not.
pub give_back-Inv : (p : Pool) (i : ℤ) → Inv p → Inv (give_back p i)
unfolding give_back
give_back-Inv p (negsuc i) v = v
give_back-Inv p (pos i) v = elim (give_back-cases p i v) [
  | inl (e, _) ↦ subst Inv (sym e) v
  | inr (e, held, inside, busy) ↦ subst Inv (sym e) (record {
    sized = length-set p.free i true ∙ v.sized;
    counted =
        omega
          (arith, v.sized, v.counted, free_count-set-true p.free i (omega (arith, v.sized)) held);
  })
]

give_back_free : (p : Pool) (i : ℕ) → is_free p.free i ≡ true → give_back p (pos i) ≡ p
unfolding give_back
give_back_free p i h = ground (arith, h)

-- In a well-formed pool a context can be given back only once: the second time changes nothing.
pub give_back_twice : (p : Pool) (i : ℤ) → Inv p → give_back (give_back p i) i ≡ give_back p i
give_back_twice p (negsuc i) v = unfold give_back in refl
give_back_twice p (pos i) v = elim (give_back-cases p i v) [
  | inl (e, _) ↦ rw e e
  | inr (e, held, inside, busy) ↦ rw e (
      give_back_free _ i
        (ground (arith, is_free-set p.free i i true (omega (arith, v.sized, inside)))))
]
