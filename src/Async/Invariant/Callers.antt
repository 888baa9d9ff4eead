-- ===== src/Async/Invariant/Callers.antt =====
-- Every step of a caller keeps the invariant.
use rcdl.Common.{
  ℕ, ◌+◌, ◌<◌, ◌%◌, ◌≡◌, ◌≢◌, refl, sym, subst, inl, inr, Bool, true, [], ◌∷◌, ◌++◌, some, length,
  length-append, get_elem?, set, Option-cases, ok, arith,
}
use rcdl.Common.Int.{ℤ, pos}
use rcdl.Common.Assoc.{find}
use rcdl.Pool.{Pool, Lease, vacant, holding, acquire, release}
use rcdl.Async.Interface.{Stages}
use rcdl.Async.Impl.{
  Pipeline, SlotState, free, held, queued, claim, letterbox_into_slot, freed, enqueue, commit_slot,
  release_slot, u64,
}
use mathlib.Core.Bool.{false≢true}
use rcdl.Async.Worker.{work, try_next, finish, shut_down}
use rcdl.Async.World.{World, with_pool, claimed, committed, drained}
use rcdl.Async.Calls.{commit_slot-cases, release_slot-cases, letterbox_into_slot-cases, claim-cases}
use rcdl.Async.Custody.{SlotLease, taken-free}
use rcdl.Async.Custody.Callers.{
  takes-Custody, rejects-Custody, claims-Custody, keeps-Custody, spare-Custody, unslots-Custody,
  drops-Custody,
}
use rcdl.Async.Order.Slots.{writes-Order, commits-Order}
use rcdl.Async.Order.Drain.{due-bounded, drains-Order}
use rcdl.Async.Complete.{writes-Complete, commits-Complete, drains-Complete}
use rcdl.Async.Invariant.Defs.{Inv}

free≢queued : {st : SlotState} → st ≡ free → st ≢ queued
free≢queued e h = cc

held≢queued : {st : SlotState} → st ≡ held → st ≢ queued
held≢queued e h = cc

pos-injective : {i j : ℕ} → pos i ≡ pos j → j ≡ i
pos-injective h = cc

module _ (E : Stages) {n : ℕ} {w : World E} (v : Inv E n w) where
  pub takes-Inv :
      {q : Pool} {l : Lease}
      → acquire w.impl.pool ≡ some (ok (q, l))
      → Inv E n (record (with_pool E w q) { taken = w.taken ++ l ∷ [] })
  takes-Inv h = record {
    custody = takes-Custody E v.custody h;
    order = v.order;
    numbered = v.numbered;
    complete = v.complete;
  }

  pub claims-Inv :
      (k i : ℕ)
      → get_elem? w.taken k ≡ some (holding i)
      → Inv E n (claimed E w k i (claim E w.impl i))
  claims-Inv k i h =
      let (st, le, lt) = taken-free E v.custody k i h in
      elim (claim-cases E w.impl i le) [
        | inl (shut, e) ↦ rw e (record {
          custody = rejects-Custody E v.custody k i h;
          order = v.order;
          numbered = v.numbered;
          complete = v.complete;
        })
        | inr (opened, e) ↦ rw e (record {
          custody = claims-Custody E v.custody k i _ h refl refl;
          order = writes-Order E v.order i _ (free≢queued st) (held≢queued refl);
          numbered = v.numbered;
          complete =
              λ go. writes-Complete E (v.complete go) i _ lt (free≢queued st) (held≢queued refl);
        })
      ]

  pub letterboxes-Inv :
      (slot : ℤ) (src : E.Source)
      → Inv E n (record w { impl = (letterbox_into_slot E w.impl slot src).0 })
  letterboxes-Inv slot src = elim (letterbox_into_slot-cases E w.impl slot src) [
    | inl e ↦ rw e v
    | inr (i, ours, t, e) ↦ rw e (record {
      custody = keeps-Custody E v.custody i _ refl (v.custody.slot_lease i);
      order = writes-Order E v.order i _ (held≢queued ours.state) (held≢queued ours.state);
      numbered = v.numbered;
      complete = λ go.
          writes-Complete E (v.complete go) i _ (omega (arith, ours.in_range, v.custody.sized))
            (held≢queued ours.state) (held≢queued ours.state);
    })
  ]

  freed-Inv :
      (i : ℕ)
      → (w.impl.slots i).state ≡ held
      → i < n
      → Inv E n
          (record w { impl = freed E w.impl i; dropped = w.dropped ++ (w.impl.slots i).lease ∷ [] })
  freed-Inv i st lt = record {
    custody = unslots-Custody E v.custody i;
    order = writes-Order E v.order i _ (held≢queued st) (free≢queued refl);
    numbered = v.numbered;
    complete = λ go. writes-Complete E (v.complete go) i _ lt (held≢queued st) (free≢queued refl);
  }

  enqueued-Inv :
      (i : ℕ) (lb : E.Geometry)
      → (w.impl.slots i).state ≡ held
      → i < n
      → length w.expected + 1 < u64
      → Inv E n (committed E w (w.impl.slots i).tensor lb (enqueue E w.impl i lb, vacant, true))
  enqueued-Inv i lb st lt small = record {
    custody =
        keeps-Custody E (spare-Custody E v.custody) i _ refl
          (subst (λ x. SlotLease i x (w.impl.slots i).lease) st (v.custody.slot_lease i));
    order = commits-Order E v.order i _ (held≢queued st) v.numbered;
    numbered =
        omega
          (arith, v.numbered, length-append w.expected (work E (w.impl.slots i).tensor lb ∷ []));
    complete = λ go. commits-Complete E (v.complete go) i _ _ lt (held≢queued st) refl v.numbered;
  }

  pub commits-Inv :
      (i : ℕ) (lb : E.Geometry) {r : Pipeline E × Lease × Bool}
      → commit_slot E w.impl (pos i) lb ≡ ok r
      → length (committed E w (w.impl.slots i).tensor lb r).expected < u64
      → Inv E n (committed E w (w.impl.slots i).tensor lb r)
  commits-Inv i lb {r} h =
      let (j, ours, cases) = commit_slot-cases E w.impl (pos i) lb h in
      let same : j ≡ i = pos-injective ours.handle in
      let st : (w.impl.slots i).state ≡ held =
        subst (λ m. (w.impl.slots m).state ≡ held) same ours.state in
      let lt : i < n = omega (arith, ours.in_range, v.custody.sized, same) in
      elim cases [
        | inl (shut, e) ↦ rw (e, same) λ _. freed-Inv i st lt
        | inr (opened, e) ↦
            rw (e, same)
              λ small. enqueued-Inv i lb st lt (
                omega
                  (arith, small, length-append w.expected (work E (w.impl.slots i).tensor lb ∷ [])))
      ]

  pub releases-Inv :
      (slot : ℤ) {p : Pipeline E} {l : Lease}
      → release_slot E w.impl slot ≡ ok (p, l)
      → Inv E n (record w { impl = p; dropped = w.dropped ++ l ∷ [] })
  releases-Inv slot h =
      let (i, ours, ep, el) = release_slot-cases E w.impl slot h in
      rw (ep, el) (freed-Inv i ours.state (omega (arith, ours.in_range, v.custody.sized)))

  pub drops-Inv :
      (k : ℕ) {l : Lease}
      → get_elem? w.dropped k ≡ some l
      → Inv E n
          (record (with_pool E w (release w.impl.pool l).0) { dropped = set w.dropped k vacant })
  drops-Inv k h = record {
    custody = drops-Custody E v.custody k h;
    order = v.order;
    numbered = v.numbered;
    complete = v.complete;
  }

  pub drains-Inv : length w.expected < u64 → Inv E n (drained E w (try_next E w.impl))
  unfolding try_next
  drains-Inv small = elim (Option-cases (find w.impl.next_out w.impl.pending)) [
    | inl e ↦ rw e v
    | inr (r, e) ↦
        let wrap : (w.impl.next_out + 1) % u64 ≡ w.impl.next_out + 1 =
          omega (arith, due-bounded E v.order e) in
        rw e (record {
          custody = v.custody;
          order = rw wrap (drains-Order E v.order e);
          numbered = v.numbered;
          complete = λ go. rw wrap (drains-Complete E (v.complete go) v.order.unique e);
        })
  ]

  pub shuts_down-Inv : Inv E n (record w { impl = shut_down E w.impl })
  unfolding shut_down
  shuts_down-Inv = record {
    custody = v.custody;
    order = v.order;
    numbered = v.numbered;
    complete = λ go. absurd (false≢true (sym go));
  }

  pub finishes-Inv : Inv E n (record w { impl = finish E w.impl })
  unfolding finish
  finishes-Inv = record {
    custody = v.custody;
    order = v.order;
    numbered = v.numbered;
    complete = v.complete;
  }
