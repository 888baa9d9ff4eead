-- ===== src/Async/Calls.antt =====
-- pipeline/async_detection_pipeline.cc: what each call of a caller does, on each of its branches.
use rcdl.Common.{
  ℕ, ◌<◌, ◌≡◌, refl, ◌⊎◌, inl, inr, Bool, true, false, none, some, ltb, ltb→lt, lt→ltb, Bool-cases,
  Result, sym, ok, err, >>=-ok, require-ok, if-ok, ok-injective, arith, ap, subst,
}
use rcdl.Common.Int.{ℤ, pos, negsuc}
use rcdl.Common.Family.{write}
use rcdl.Pool.{size, Lease, vacant, holding, release, assign_lease}
use rcdl.Async.Interface.{Stages}
use rcdl.Async.Impl.{
  Parked, Pipeline, SlotState, free, held, queued, is_held, is_queued, Error, slot_out_of_range,
  slot_not_held, closed, claim, checked_slot, letterbox_into_slot, freed, enqueue, commit_slot,
  release_slot,
}
use rcdl.Common.{Option-cases}
use rcdl.Common.Assoc.{find}
use rcdl.Async.Worker.{next, sleep, leave, frame, wake, abandon}

is_held-state : (st : SlotState) → is_held st ≡ true → st ≡ held
unfolding is_held
is_held-state held h = refl
is_held-state free h = cc
is_held-state queued h = cc

module _ (E : Stages) where
  -- A slot handle that passes the check: it is in range, and held.
  pub record Held (p : Pipeline E) (slot : ℤ) (i : ℕ) : Type 0 where
    pub handle : slot ≡ pos i
    pub in_range : i < size p.pool
    pub state : (p.slots i).state ≡ held

  pub checked_slot-Held :
      (p : Pipeline E) (slot : ℤ) {i : ℕ} → checked_slot E p slot ≡ ok i → Held p slot i
  unfolding checked_slot
  checked_slot-Held p (negsuc j) h = cc
  checked_slot-Held p (pos j) {i} h =
      let (inside, h1) = require-ok (ltb j (size p.pool)) slot_out_of_range _ h in
      let (ours, h2) = require-ok (is_held (p.slots j).state) slot_not_held (ok j) h1 in
      subst (Held p (pos j)) (ground (arith, h2)) (record {
        handle = refl;
        in_range = ltb→lt j (size p.pool) inside;
        state = is_held-state (p.slots j).state ours;
      })

  pub checked_slot-cases :
      (p : Pipeline E) (slot : ℤ)
      → ((i : ℕ) × (checked_slot E p slot ≡ ok i) × Held p slot i)
        ⊎ ((e : Error E.Message) × (checked_slot E p slot ≡ err e))
  checked_slot-cases p slot = split (checked_slot E p slot) refl
    where
      split :
          (r : Result (Error E.Message) ℕ)
          → checked_slot E p slot ≡ r
          → ((i : ℕ) × (checked_slot E p slot ≡ ok i) × Held p slot i)
            ⊎ ((e : Error E.Message) × (checked_slot E p slot ≡ err e))
      split (ok i) h = inl (i, h, checked_slot-Held p slot h)
      split (err e) h = inr (e, h)

  -- commitSlot on an open pipeline queues the frame under the next number; on a closed one it
  -- frees the slot and drops the lease.
  pub commit_slot-cases :
      (p : Pipeline E) (slot : ℤ) (lb : E.Geometry) {r : Pipeline E × Lease × Bool}
      → commit_slot E p slot lb ≡ ok r
      → (i : ℕ) × Held p slot i
        × (((closed E p ≡ true) × (r ≡ (freed E p i, (p.slots i).lease, false)))
            ⊎ ((closed E p ≡ false) × (r ≡ (enqueue E p i lb, vacant, true))))
  unfolding commit_slot
  commit_slot-cases p slot lb {r} h =
      let (i, e, h1) = >>=-ok (checked_slot E p slot) _ h in
      (i, checked_slot-Held p slot e, if-ok (closed E p) _ _ h1)

  -- releaseSlot frees the slot and drops the lease.
  pub release_slot-cases :
      (p : Pipeline E) (slot : ℤ) {q : Pipeline E} {l : Lease}
      → release_slot E p slot ≡ ok (q, l)
      → (i : ℕ) × Held p slot i × (q ≡ freed E p i) × (l ≡ (p.slots i).lease)
  unfolding release_slot
  release_slot-cases p slot h =
      let (i, e, h1) = >>=-ok (checked_slot E p slot) _ h in
      (
        i,
        checked_slot-Held p slot e,
        ap (λ (r : Pipeline E × Lease). r.0) (sym (ok-injective h1)),
        ap (λ (r : Pipeline E × Lease). r.1) (sym (ok-injective h1)),
      )

  -- letterboxIntoSlot writes the tensor of a held slot, or nothing at all.
  pub letterbox_into_slot-cases :
      (p : Pipeline E) (slot : ℤ) (src : E.Source)
      → ((letterbox_into_slot E p slot src).0 ≡ p)
        ⊎ ((i : ℕ) × Held p slot i
            × (t : E.Tensor) × ((letterbox_into_slot E p slot src).0
                ≡ record p { slots = write p.slots i (record (p.slots i) { tensor = t }) }))
  unfolding letterbox_into_slot
  letterbox_into_slot-cases p slot src = elim (Bool-cases (E.is_valid src)) [
    | inr bad ↦ inl (rw bad refl)
    | inl good ↦ elim (checked_slot-cases p slot) [
      | inr (x, e) ↦ inl (rw good (rw e refl))
      | inl (i, e, v) ↦ inr (i, v, (E.letterbox src (p.slots i).tensor).0, rw good (rw e refl))
    ]
  ]

  release-vacant : (p : Pipeline E) {l : Lease} → l ≡ vacant → (release p.pool l).0 ≡ p.pool
  unfolding release
  release-vacant p e = rw e refl

  -- acquireSlot puts the lease of a context into its free slot, or gives it back to be dropped.
  pub claim-cases :
      (p : Pipeline E) (i : ℕ)
      → (p.slots i).lease ≡ vacant
      → ((closed E p ≡ true) × (claim E p i ≡ (p, false)))
        ⊎ ((closed E p ≡ false)
            × (claim E p i ≡ (
              record p {
                slots = write p.slots i (record (p.slots i) { lease = holding i; state = held });
              },
              true,
            )))
  unfolding claim assign_lease
  claim-cases p i e = elim (Bool-cases (closed E p)) [
    | inl shut ↦ inl (shut, rw shut refl)
    | inr opened ↦ inr (opened, rw opened (rw (release-vacant p e) refl))
  ]

  is_queued-state : (st : SlotState) → is_queued st ≡ true → st ≡ queued
  unfolding is_queued
  is_queued-state queued h = refl
  is_queued-state free h = cc
  is_queued-state held h = cc

  -- A worker leaves exactly in a shutdown, and otherwise takes the frame of a queued slot.
  pub wake-cases :
      (p : Pipeline E) (i : ℕ)
      → ((p.stopping ≡ true) × (wake E p i ≡ leave (abandon E p i)))
        ⊎ (((p.stopping ≡ false)
              × ((p.slots i).state ≡ queued)
              × (wake E p i ≡ frame (p.slots i).seq (p.slots i).lb))
            ⊎ ((p.stopping ≡ false) × (is_queued (p.slots i).state ≡ false) × (wake E p i ≡ sleep)))
  unfolding wake
  wake-cases p i = elim (Bool-cases p.stopping) [
    | inl stop ↦ inl (stop, ground (arith, stop))
    | inr go ↦ elim (Bool-cases (is_queued (p.slots i).state)) [
      | inl ready ↦ inr (inl (go, is_queued-state _ ready, ground (arith, ready, go)))
      | inr idle ↦ inr (inr (go, idle, ground (arith, idle, go)))
    ]
  ]

  pub next-result :
      (p : Pipeline E) {q : Pipeline E} {r : Parked E}
      → next E p ≡ some (q, some r)
      → find p.next_out p.pending ≡ some r
  unfolding next
  next-result p {q} {r} h = elim (Option-cases (find p.next_out p.pending)) [
    | inl e ↦ ground (arith, e, h)
    | inr (x, e) ↦ ground (arith, e, h)
  ]

  pub next-end :
      (p : Pipeline E) {q : Pipeline E}
      → next E p ≡ some (q, none)
      → p.stopping ≡ false
      → (p.finished ≡ true) × (p.next_out ≡ p.next_in)
  unfolding next
  next-end p {q} h go = elim (Option-cases (find p.next_out p.pending)) [
    | inl e ↦ ground (arith, e, h, go)
    | inr (x, e) ↦ ground (arith, e, h)
  ]

  -- Every call with the handle of a queued slot is refused, and changes nothing.
  pub queued_refused :
      (p : Pipeline E) (i : ℕ) (src : E.Source) (lb : E.Geometry)
      → i < size p.pool
      → (p.slots i).state ≡ queued
      → (commit_slot E p (pos i) lb ≡ err slot_not_held)
        × (release_slot E p (pos i) ≡ err slot_not_held)
        × ((letterbox_into_slot E p (pos i) src).0 ≡ p)
  unfolding commit_slot release_slot letterbox_into_slot is_held
  queued_refused p i src lb lt st =
      let inside : ltb i (size p.pool) ≡ true = lt→ltb i (size p.pool) lt in
      (
        rw inside (rw st refl),
        rw inside (rw st refl),
        elim (Bool-cases (E.is_valid src)) [
          | inl good ↦ rw good (rw inside (rw st refl))
          | inr bad ↦ rw bad refl
        ],
      )
