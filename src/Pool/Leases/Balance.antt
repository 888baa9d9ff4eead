-- ===== src/Pool/Leases/Balance.antt =====
-- A pool against what is held of each context: the facts that a program of lease objects and the
-- asynchronous pipeline share.
use rcdl.Common.{ℕ, ◌+◌, ◌≡◌, refl, inl, inr, true, false, ltb, arith}
use rcdl.Common.Int.{pos}
use rcdl.Common.Family.{bit}
use rcdl.Pool.{Pool, size, Lease, vacant, holding, take_context, is_free, give_back, release}
use rcdl.Pool.Free.{is_free-set, is_free-lt}
use rcdl.Pool.Invariant.{Inv, Takes, take_context-Inv, give_back-cases, give_back-Inv}
use rcdl.Pool.Leases.Weights.{holds, is_valid}

-- Of each context of the pool there is one: free, or held. `held i` counts who holds `i`.
pub record Balance (p : Pool) (held : ℕ → ℕ) : Type 0 where
  pub inv : Inv p
  pub once : (i : ℕ) → held i + bit (is_free p.free i) ≡ bit (ltb i (size p))

pub take_context-Balance :
    (p : Pool) (held : ℕ → ℕ) (i : ℕ)
    → Takes p i
    → Balance p held
    → Balance (take_context p i).0 (λ j. held j + holds j (holding i))
take_context-Balance p held i t b = record {
  inv = take_context-Inv p i t.was_free b.inv;
  once = λ j.
      unfold take_context in
      ground (
        arith,
        b.once j,
        is_free-set p.free i j false (is_free-lt p.free i t.was_free),
        t.was_free,
        t.in_range,
      );
}

-- A context that a lease holds is given back for good: it becomes free, and the count falls.
module _ (p : Pool) (held : ℕ → ℕ) (i : ℕ) (b : Balance p (λ j. held j + holds j (holding i))) where
  give_back-Balance : Balance (give_back p (pos i)) held
  give_back-Balance = elim (give_back-cases p i b.inv) [
    | inl (e, inl free) ↦ absurd (ground (arith, b.once i, free))
    | inl (e, inr out) ↦ absurd (ground (arith, b.once i, out))
    | inr (e, taken, inside, busy) ↦ record {
      inv = give_back-Inv p (pos i) b.inv;
      once = λ j. rw e (
          ground (
            arith,
            b.once j,
            taken,
            inside,
            b.inv.sized,
            is_free-set p.free i j true (omega (arith, b.inv.sized)),
          ));
    }
  ]

  give_back-in_use : (give_back p (pos i)).in_use + 1 ≡ p.in_use
  give_back-in_use = elim (give_back-cases p i b.inv) [
    | inl (e, inl free) ↦ absurd (ground (arith, b.once i, free))
    | inl (e, inr out) ↦ absurd (ground (arith, b.once i, out))
    | inr (e, taken, inside, busy) ↦ rw e (omega arith)
  ]

  give_back-size : size (give_back p (pos i)) ≡ size p
  give_back-size = elim (give_back-cases p i b.inv) [
    | inl (e, _) ↦ rw e refl
    | inr (e, taken, inside, busy) ↦ rw e refl
  ]

module _ (p : Pool) where
  pub release-Balance :
      (l : Lease) (held : ℕ → ℕ)
      → Balance p (λ j. held j + holds j l)
      → Balance (release p l).0 held
  unfolding release
  release-Balance vacant held b = record { inv = b.inv; once = λ j. omega (arith, b.once j) }
  release-Balance (holding i) held b = give_back-Balance p held i b

  pub release-in_use :
      (l : Lease) (held : ℕ → ℕ)
      → Balance p (λ j. held j + holds j l)
      → (release p l).0.in_use + is_valid l ≡ p.in_use
  unfolding release
  release-in_use vacant held b = omega arith
  release-in_use (holding i) held b = give_back-in_use p held i b

  pub release-size :
      (l : Lease) (held : ℕ → ℕ)
      → Balance p (λ j. held j + holds j l)
      → size (release p l).0 ≡ size p
  unfolding release
  release-size vacant held b = refl
  release-size (holding i) held b = give_back-size p held i b

  pub release-eq-vacant : (l : Lease) → (release p l).1 ≡ vacant
  unfolding release
  release-eq-vacant vacant = refl
  release-eq-vacant (holding i) = refl
