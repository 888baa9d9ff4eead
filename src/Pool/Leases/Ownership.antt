-- ===== src/Pool/Leases/Ownership.antt =====
-- engine_pool.h: "Exclusive use of one context."
use rcdl.Common.{
  ℕ, ◌+◌, ◌≤◌, ◌≡◌, ◌≢◌, refl, inl, inr, List, [], ◌∷◌, Option, none, some, get_elem?,
  get_elem?-set_ne, set, ltb, ◌==◌, Bool-cases, ==_false, ◌∙◌, arith, ℕ_discrete,
}
use rcdl.Pool.{
  Pool, size, Lease, vacant, holding, take_context, acquire, try_acquire, is_free, release,
  move_lease, assign_lease,
}
use rcdl.Pool.Invariant.{Inv, Takes, acquire-cases, try_acquire-cases}
use rcdl.Pool.Leases.{
  Program, Call, acquires, tries, releases, moves, assigns, grant, granted, release_at, move_from,
  assign_to, on_object, step, run,
}
use rcdl.Common.Family.{bit}
use rcdl.Pool.Leases.Balance.{
  Balance, take_context-Balance, release-Balance, release-in_use, release-eq-vacant,
}
use rcdl.Pool.Leases.Weights.{holds, is_valid, weigh, weigh-append, weigh-set}

-- Every context of the pool is free or held by one lease, never by two, and the pool's count is the
-- number of valid leases.
pub record Owned (s : Program) : Type 0 where
  pub inv : Inv s.pool
  pub once :
      (i : ℕ) → weigh (holds i) s.leases + bit (is_free s.pool.free i) ≡ bit (ltb i (size s.pool))
  pub counted : s.pool.in_use ≡ weigh is_valid s.leases

grant-Owned :
    (s : Program) (p : Pool) (l : Lease)
    → Balance p (λ j. weigh (holds j) s.leases + holds j l)
    → p.in_use ≡ weigh is_valid s.leases + is_valid l
    → Owned (grant s (p, l))
grant-Owned s p l b c = record {
  inv = b.inv;
  once = λ j. omega (arith, b.once j, weigh-append (holds j) s.leases (l ∷ []));
  counted = omega (arith, c, weigh-append is_valid s.leases (l ∷ []));
}

Owned-Balance : {s : Program} → Owned s → Balance s.pool (λ j. weigh (holds j) s.leases)
Owned-Balance o = record { inv = o.inv; once = o.once }

take-Owned :
    (s : Program) (i : ℕ) → Takes s.pool i → Owned s → Owned (grant s (take_context s.pool i))
unfolding take_context
take-Owned s i t o =
    grant-Owned s (take_context s.pool i).0 (holding i)
      (take_context-Balance s.pool _ i t (Owned-Balance o)) (omega (arith, o.counted))

acquires-Owned : (s : Program) → Owned s → Owned (granted s (acquire s.pool))
acquires-Owned s o = elim (acquire-cases s.pool o.inv) [
  | inl (e, _) ↦ rw e o
  | inr (i, e, t) ↦ rw e (take-Owned s i t o)
]

tries-Owned : (s : Program) → Owned s → Owned (grant s (try_acquire s.pool))
tries-Owned s o = elim (try_acquire-cases s.pool o.inv) [
  | inl (e, _) ↦ rw e (
      grant-Owned s s.pool vacant (record { inv = o.inv; once = λ j. omega (arith, o.once j) })
        (omega (arith, o.counted)))
  | inr (i, e, t) ↦ rw e (take-Owned s i t o)
]

module _ (s : Program) (o : Owned s) where
  -- The pool after the object `k`, which holds `l`, has released: the other objects still balance.
  after_release :
      (k : ℕ) (l : Lease)
      → get_elem? s.leases k ≡ some l
      → Balance (release s.pool l).0 (λ j. weigh (holds j) (set s.leases k vacant))
        × ((release s.pool l).0.in_use ≡ weigh is_valid (set s.leases k vacant))
  after_release k l h =
      let b : Balance s.pool (λ j. weigh (holds j) (set s.leases k vacant) + holds j l) = record {
        inv = o.inv;
        once = λ j. omega (arith, o.once j, weigh-set (holds j) s.leases k l vacant h);
      } in
      (
        release-Balance s.pool l _ b,
        omega (
          arith,
          o.counted,
          release-in_use s.pool l _ b,
          weigh-set is_valid s.leases k l vacant h,
        ),
      )

  -- Objects that weigh as much as those left when `k` has released.
  released-Owned :
      (k : ℕ) (l : Lease) (ls : List Lease)
      → get_elem? s.leases k ≡ some l
      → ((w : Lease → ℕ) → w vacant ≡ 0 → weigh w ls ≡ weigh w (set s.leases k vacant))
      → Owned (record { pool = (release s.pool l).0; leases = ls })
  released-Owned k l ls h same =
      let (b, c) = after_release k l h in
      record {
        inv = b.inv;
        once = λ j. omega (arith, b.once j, same (holds j) refl);
        counted = omega (arith, c, same is_valid refl);
      }

  releases-Owned : (k : ℕ) (l : Lease) → get_elem? s.leases k ≡ some l → Owned (release_at s k l)
  unfolding release_at
  releases-Owned k l h = rw (release-eq-vacant s.pool l) (released-Owned k l _ h (λ w z. refl))

  moves-Owned : (k : ℕ) (l : Lease) → get_elem? s.leases k ≡ some l → Owned (move_from s k l)
  unfolding move_from move_lease
  moves-Owned k l h = record {
    inv = o.inv;
    once = λ j. omega (
      arith,
      o.once j,
      weigh-set (holds j) s.leases k l vacant h,
      weigh-append (holds j) (set s.leases k vacant) (l ∷ []),
    );
    counted = omega (
      arith,
      o.counted,
      weigh-set is_valid s.leases k l vacant h,
      weigh-append is_valid (set s.leases k vacant) (l ∷ []),
    );
  }

  -- Writing `other` into object `j` and emptying `k` weighs as much as emptying `j`.
  weigh-assign :
      (w : Lease → ℕ) (j k : ℕ) {self other : Lease}
      → w vacant ≡ 0
      → j ≢ k
      → get_elem? s.leases j ≡ some self
      → get_elem? s.leases k ≡ some other
      → weigh w (set (set s.leases j other) k vacant) ≡ weigh w (set s.leases j vacant)
  weigh-assign w j k {self} {other} z ne hj hk = omega (
    arith,
    z,
    weigh-set w s.leases j self vacant hj,
    weigh-set w s.leases j self other hj,
    weigh-set w (set s.leases j other) k other vacant (get_elem?-set_ne s.leases other ne ∙ hk),
  )

  assigns-Owned :
      (j k : ℕ) (self other : Lease)
      → get_elem? s.leases j ≡ some self
      → get_elem? s.leases k ≡ some other
      → Owned (assign_to s j self k other)
  unfolding assign_to assign_lease
  assigns-Owned j k self other hj hk = elim (Bool-cases (j == k)) [
    | inl e ↦ rw e o
    | inr e ↦ rw e (
        released-Owned j self _ hj
          (λ w z. weigh-assign w j k z (omega (arith, ==_false j k e)) hj hk))
  ]

on_object-Owned :
    (s : Program) (found : Option Lease) (f : Lease → Program)
    → Owned s
    → ((l : Lease) → found ≡ some l → Owned (f l))
    → Owned (on_object s found f)
on_object-Owned s none f o h = o
on_object-Owned s (some l) f o h = h l refl

-- Every call on the pool and on its lease objects keeps each context free or held by exactly one
-- lease, and the pool's count equal to the number of valid leases.
pub step-Owned : (s : Program) (c : Call) → Owned s → Owned (step s c)
unfolding step
step-Owned s acquires o = acquires-Owned s o
step-Owned s tries o = tries-Owned s o
step-Owned s (releases k) o =
    on_object-Owned s (get_elem? s.leases k) _ o (λ l h. releases-Owned s o k l h)
step-Owned s (moves k) o =
    on_object-Owned s (get_elem? s.leases k) _ o (λ l h. moves-Owned s o k l h)
step-Owned s (assigns j k) o = on_object-Owned s (get_elem? s.leases j) _ o λ self hj.
    on_object-Owned s (get_elem? s.leases k) _ o λ other hk. assigns-Owned s o j k self other hj hk

-- From a program in which every context is free or held once, any calls lead to such a program: no
-- context is lost, none is leased twice, and the count of leases stays right.
pub run-Owned : (s : Program) (cs : List Call) → Owned s → Owned (run s cs)
unfolding run
run-Owned s [] o = o
run-Owned s (c ∷ cs) o = run-Owned (step s c) cs (step-Owned s c o)

holds-one : (ls : List Lease) (i a : ℕ) → get_elem? ls a ≡ some (holding i) → 1 ≤ weigh (holds i) ls
holds-one ls i a h = ground (arith, weigh-set (holds i) ls a (holding i) vacant h)

holds-two :
    (ls : List Lease) (i a b : ℕ)
    → a ≢ b
    → get_elem? ls a ≡ some (holding i)
    → get_elem? ls b ≡ some (holding i)
    → 2 ≤ weigh (holds i) ls
holds-two ls i a b ne ha hb = ground (
  arith,
  weigh-set (holds i) ls a (holding i) vacant ha,
  holds-one (set ls a vacant) i b (get_elem?-set_ne ls vacant ne ∙ hb),
)

-- Exclusive use: after any calls, from a program in which every context is free or held once, two
-- lease objects never hold the same context.
pub run-exclusive :
    (s : Program) (cs : List Call) (i a b : ℕ)
    → Owned s
    → get_elem? (run s cs).leases a ≡ some (holding i)
    → get_elem? (run s cs).leases b ≡ some (holding i)
    → a ≡ b
run-exclusive s cs i a b o ha hb = elim (ℕ_discrete a b) [
  | yes e ↦ e
  | no ne ↦
      absurd (ground (arith, holds-two (run s cs).leases i a b ne ha hb, (run-Owned s cs o).once i))
]
