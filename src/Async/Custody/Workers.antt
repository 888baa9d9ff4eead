-- ===== src/Async/Custody/Workers.antt =====
-- pipeline/async_detection_pipeline.cc: workers park, return and abandon leases.
use rcdl.Common.{ℕ, ◌+◌, ◌≡◌, refl, List, arith, ◌∙◌}
use rcdl.Common.Family.{write, write-all}
use rcdl.Pool.{Pool, Lease, vacant, holding, release}
use rcdl.Pool.Leases.Weights.{holds}
use rcdl.Pool.Leases.Balance.{Balance, release-Balance, release-size, release-eq-vacant}
use rcdl.Async.Interface.{Stages}
use rcdl.Async.Impl.{Slot, free}
use rcdl.Async.World.{Worker, waiting, returning, gone}
use rcdl.Async.Custody.{
  SlotLease, worker_holds, WorkerLease, in_custody, Custody, slot_elsewhere, worker_elsewhere,
}

module _ (E : Stages) where
  module _ {n : ℕ} {pool : Pool} {slots : ℕ → Slot E} {workers : ℕ → Worker E}
      {taken dropped : List Lease} (c : Custody E n pool slots workers taken dropped) where
    -- A worker that neither had nor gets a lease.
    pub moves-Custody :
        (i : ℕ) (w : Worker E)
        → ((j : ℕ) → worker_holds E j (workers i) ≡ 0)
        → ((j : ℕ) → worker_holds E j w ≡ 0)
        → WorkerLease E i w
        → Custody E n pool slots (write workers i w) taken dropped
    moves-Custody i w had gets l = record {
      sized = c.sized;
      balance = record {
        inv = c.balance.inv;
        once = λ j. ground (arith, c.balance.once j, had j, gets j);
      };
      slot_lease = c.slot_lease;
      worker_lease = write-all (WorkerLease E) workers i w l c.worker_lease;
    }

    -- On the way out a worker releases the lease of its slot.
    pub abandons-Custody :
        (i : ℕ)
        → ((j : ℕ) → worker_holds E j (workers i) ≡ 0)
        → Custody E n
            (release pool (slots i).lease).0
            (write slots i
              (record (slots i) { lease = (release pool (slots i).lease).1; state = free }))
            (write workers i gone)
            taken
            dropped
    abandons-Custody i had =
        let s : Slot E = record (slots i) { lease = vacant; state = free } in
        let b : Balance pool (λ j.
          in_custody E (write slots i s) (write workers i gone) taken dropped j
          + holds j (slots i).lease) =
          record {
            inv = c.balance.inv;
            once = λ j. ground (arith, c.balance.once j, had j, slot_elsewhere E c i j);
          } in
        rw (release-eq-vacant pool (slots i).lease) (record {
          sized = release-size pool _ _ b ∙ c.sized;
          balance = release-Balance pool _ _ b;
          slot_lease =
              write-all (λ j (t : Slot E). SlotLease j t.state t.lease) slots i s refl c.slot_lease;
          worker_lease = write-all (WorkerLease E) workers i gone tt c.worker_lease;
        })

    -- Parking moves the lease from the slot to its worker.
    pub parks-Custody :
        (i : ℕ)
        → ((j : ℕ) → worker_holds E j (workers i) ≡ 0)
        → (slots i).lease ≡ holding i
        → Custody E n pool
            (write slots i (record (slots i) { lease = vacant; state = free }))
            (write workers i (returning (slots i).lease))
            taken
            dropped
    parks-Custody i had l = record {
      sized = c.sized;
      balance = record { inv = c.balance.inv; once = λ j. ground (arith, c.balance.once j, had j) };
      slot_lease =
          write-all (λ j (t : Slot E). SlotLease j t.state t.lease) slots i _ refl c.slot_lease;
      worker_lease = write-all (WorkerLease E) workers i _ l c.worker_lease;
    }

    -- The worker returns the lease.
    pub returns-Custody :
        (i : ℕ) {l : Lease}
        → workers i ≡ returning l
        → Custody E n (release pool l).0 slots (write workers i waiting) taken dropped
    returns-Custody i {l} h =
        let b : Balance pool
            (λ j. in_custody E slots (write workers i waiting) taken dropped j + holds j l) =
          record {
            inv = c.balance.inv;
            once = λ j. ground (arith, c.balance.once j, h, worker_elsewhere E c i j);
          } in
        record {
          sized = release-size pool l _ b ∙ c.sized;
          balance = release-Balance pool l _ b;
          slot_lease = c.slot_lease;
          worker_lease = write-all (WorkerLease E) workers i waiting tt c.worker_lease;
        }
