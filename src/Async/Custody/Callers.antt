-- ===== src/Async/Custody/Callers.antt =====
-- pipeline/async_detection_pipeline.cc: callers take, move and drop leases.
use rcdl.Common.{
  ℕ, ◌+◌, ◌≡◌, refl, inl, inr, List, [], ◌∷◌, ◌++◌, Option, some, get_elem?, set, ok, Result, arith,
  sym, subst, ◌∙◌,
}
use rcdl.Common.Family.{write, write-all}
use rcdl.Engine.{Error}
use rcdl.Pool.{Pool, Lease, vacant, holding, take_context, acquire, release}
use rcdl.Pool.Invariant.{Takes, acquire-cases}
use rcdl.Pool.Leases.Weights.{holds, weigh-append, weigh-set}
use rcdl.Pool.Leases.Balance.{Balance, take_context-Balance, release-Balance, release-size}
use rcdl.Async.Interface.{Stages}
use rcdl.Async.Impl.{Slot, free, held}
use rcdl.Async.World.{Worker}
use rcdl.Async.Custody.{SlotLease, in_custody, Custody, slot_elsewhere, taken-free}

granted-injective :
    {r s : Pool × Lease}
    → ◌≡◌ {A = Option (Result Error (Pool × Lease))} (some (ok r)) (some (ok s))
    → r ≡ s
granted-injective h = cc

module _ (E : Stages) where
  module _ {n : ℕ} {pool : Pool} {slots : ℕ → Slot E} {workers : ℕ → Worker E}
      {taken dropped : List Lease} (c : Custody E n pool slots workers taken dropped) where
    take_context-Custody :
        (i : ℕ)
        → Takes pool i
        → Custody E n (take_context pool i).0 slots workers (taken ++ holding i ∷ []) dropped
    unfolding take_context
    take_context-Custody i t =
        let b : Balance (take_context pool i).0 _ = take_context-Balance pool _ i t c.balance in
        record {
          sized = c.sized;
          balance = record {
            inv = b.inv;
            once = λ j. omega (arith, b.once j, weigh-append (holds j) taken (holding i ∷ []));
          };
          slot_lease = c.slot_lease;
          worker_lease = c.worker_lease;
        }

    -- pool->acquire() in acquireSlot
    pub takes-Custody :
        {q : Pool} {l : Lease}
        → acquire pool ≡ some (ok (q, l))
        → Custody E n q slots workers (taken ++ l ∷ []) dropped
    unfolding take_context
    takes-Custody {q} {l} h = elim (acquire-cases pool c.balance.inv) [
      | inl (e, _) ↦ cc
      | inr (i, e, t) ↦
          subst (λ (r : Pool × Lease). Custody E n r.0 slots workers (taken ++ r.1 ∷ []) dropped)
            (granted-injective (sym e ∙ h)) (take_context-Custody i t)
    ]

    -- A caller's lease goes from `taken` to `dropped`.
    pub rejects-Custody :
        (k i : ℕ)
        → get_elem? taken k ≡ some (holding i)
        → Custody E n pool slots workers (set taken k vacant) (dropped ++ holding i ∷ [])
    rejects-Custody k i h = record {
      sized = c.sized;
      balance = record {
        inv = c.balance.inv;
        once = λ j. omega (
          arith,
          c.balance.once j,
          weigh-set (holds j) taken k (holding i) vacant h,
          weigh-append (holds j) dropped (holding i ∷ []),
        );
      };
      slot_lease = c.slot_lease;
      worker_lease = c.worker_lease;
    }

    -- The caller's lease goes into the slot, whose own lease, assigned over, is empty.
    pub claims-Custody :
        (k i : ℕ) (s : Slot E)
        → get_elem? taken k ≡ some (holding i)
        → s.state ≡ held
        → s.lease ≡ holding i
        → Custody E n pool (write slots i s) workers (set taken k vacant) dropped
    claims-Custody k i s h st l =
        let (_, le, _) = taken-free E c k i h in
        record {
          sized = c.sized;
          balance = record {
            inv = c.balance.inv;
            once = λ j.
                ground (
                  arith,
                  c.balance.once j,
                  weigh-set (holds j) taken k (holding i) vacant h,
                  le,
                  l,
                );
          };
          slot_lease =
              write-all (λ j (t : Slot E). SlotLease j t.state t.lease) slots i s (rw st l)
                c.slot_lease;
          worker_lease = c.worker_lease;
        }

    -- A slot written anew with the lease that it had, in a state that the lease allows.
    pub keeps-Custody :
        (i : ℕ) (s : Slot E)
        → s.lease ≡ (slots i).lease
        → SlotLease i s.state s.lease
        → Custody E n pool (write slots i s) workers taken dropped
    keeps-Custody i s l sl = record {
      sized = c.sized;
      balance = record { inv = c.balance.inv; once = λ j. ground (arith, c.balance.once j, l) };
      slot_lease =
          write-all (λ j (t : Slot E). SlotLease j t.state t.lease) slots i s sl c.slot_lease;
      worker_lease = c.worker_lease;
    }

    -- An empty lease on a caller's stack.
    pub spare-Custody : Custody E n pool slots workers taken (dropped ++ vacant ∷ [])
    spare-Custody = record {
      sized = c.sized;
      balance = record {
        inv = c.balance.inv;
        once = λ j. omega (arith, c.balance.once j, weigh-append (holds j) dropped (vacant ∷ []));
      };
      slot_lease = c.slot_lease;
      worker_lease = c.worker_lease;
    }

    -- A caller moves the lease out of its slot and drops it.
    pub unslots-Custody :
        (i : ℕ)
        → Custody E n pool
            (write slots i (record (slots i) { lease = vacant; state = free }))
            workers
            taken
            (dropped ++ (slots i).lease ∷ [])
    unslots-Custody i = record {
      sized = c.sized;
      balance = record {
        inv = c.balance.inv;
        once = λ j. ground (
          arith,
          c.balance.once j,
          weigh-append (holds j) dropped ((slots i).lease ∷ []),
          slot_elsewhere E c i j,
        );
      };
      slot_lease =
          write-all (λ j (t : Slot E). SlotLease j t.state t.lease) slots i _ refl c.slot_lease;
      worker_lease = c.worker_lease;
    }

    -- A dropped lease is released.
    pub drops-Custody :
        (k : ℕ) {l : Lease}
        → get_elem? dropped k ≡ some l
        → Custody E n (release pool l).0 slots workers taken (set dropped k vacant)
    drops-Custody k {l} h =
        let b : Balance pool
            (λ j. in_custody E slots workers taken (set dropped k vacant) j + holds j l) =
          record {
            inv = c.balance.inv;
            once = λ j. omega (arith, c.balance.once j, weigh-set (holds j) dropped k l vacant h);
          } in
        record {
          sized = release-size pool l _ b ∙ c.sized;
          balance = release-Balance pool l _ b;
          slot_lease = c.slot_lease;
          worker_lease = c.worker_lease;
        }
