-- ===== src/Async/Quiet.antt =====
-- pipeline/async_detection_pipeline.cc: which steps leave the history and the input tensors alone.
use rcdl.Common.{
  ℕ, ◌≡◌, refl, true, false, ap, Bool, ok, err, subst, sym, Bool-cases, ◌==◌, Result, ok-injective,
  inl, inr, ◌∙◌, if-both, ==_iff,
}
use rcdl.Common.Family.{write}
use rcdl.Common.Int.{ℤ, pos}
use rcdl.Pool.{Lease}
use rcdl.Async.Interface.{Stages}
use rcdl.Async.Impl.{
  Pipeline, Slot, claim, commit_slot, release_slot, letterbox_into_slot, closed, rethrow,
  write_tensor,
}
use rcdl.Async.Worker.{wake, abandon, park}
use rcdl.Async.World.{World, WorkerStep, wakes, infers, parks, returns, woken, claimed}
use rcdl.Async.Calls.{wake-cases, release_slot-cases, commit_slot-cases, checked_slot-cases}

pos-injective : {i j : ℕ} → ◌≡◌ {A = ℤ} (pos i) (pos j) → i ≡ j
pos-injective h = cc

module _ (E : Stages) where
  -- The same history, and the same tensor in each slot.
  pub record Quiet (d d' : World E) : Type 0 where
    pub expected : d'.expected ≡ d.expected
    pub delivered : d'.delivered ≡ d.delivered
    pub tensors : (i : ℕ) → (d'.impl.slots i).tensor ≡ (d.impl.slots i).tensor

  -- A write that keeps the slot's tensor keeps all tensors.
  pub write-tensor :
      (slots : ℕ → Slot E) (i : ℕ) (s : Slot E)
      → s.tensor ≡ (slots i).tensor
      → (j : ℕ) → (write slots i s j).tensor ≡ (slots j).tensor
  write-tensor slots i s e j = elim (Bool-cases (i == j)) [
    | inl y ↦ rw y (e ∙ ap (λ (k : ℕ). (slots k).tensor) ((==_iff i j).0 y))
    | inr n ↦ rw n refl
  ]

  abbrev pub Keeps : Pipeline E → Pipeline E → Type 0
  Keeps p q = (j : ℕ) → (q.slots j).tensor ≡ (p.slots j).tensor

  abandon-Keeps : (p : Pipeline E) (i : ℕ) → Keeps p (abandon E p i)
  unfolding abandon
  abandon-Keeps p i = if-both (Keeps p) _ (λ j. refl) (write-tensor p.slots i _ refl)

  woken-Quiet : (d : World E) (i : ℕ) → Quiet d (woken E d i (wake E d.impl i))
  woken-Quiet d i = elim (wake-cases E d.impl i) [
    | inl (stop, e) ↦
        rw e (record { expected = refl; delivered = refl; tensors = abandon-Keeps d.impl i })
    | inr (inl (go, ready, e)) ↦
        rw e (record { expected = refl; delivered = refl; tensors = λ j. refl })
    | inr (inr (go, idle, e)) ↦
        rw e (record { expected = refl; delivered = refl; tensors = λ j. refl })
  ]

  pub WorkerStep-Quiet : {i : ℕ} {d d' : World E} → WorkerStep E i d d' → Quiet d d'
  unfolding park
  WorkerStep-Quiet {i = i} {d = d} (wakes h) = woken-Quiet d i
  WorkerStep-Quiet (infers h) = record { expected = refl; delivered = refl; tensors = λ j. refl }
  WorkerStep-Quiet {i = i} {d = d} (parks h) = record {
    expected = refl;
    delivered = refl;
    tensors = write-tensor d.impl.slots i _ refl;
  }
  WorkerStep-Quiet (returns h) = record { expected = refl; delivered = refl; tensors = λ j. refl }

  claim-Keeps : (p : Pipeline E) (i : ℕ) → Keeps p (claim E p i).0
  unfolding claim
  claim-Keeps p i = elim (Bool-cases (closed E p)) [
    | inl shut ↦ rw shut (λ j. refl)
    | inr opened ↦ rw opened (write-tensor p.slots i _ refl)
  ]

  claimed-history :
      (d : World E) (k i : ℕ) (x : Pipeline E × Bool)
      → Keeps d.impl x.0
      → Quiet d (claimed E d k i x)
  claimed-history d k i (p, true) h = record { expected = refl; delivered = refl; tensors = h }
  claimed-history d k i (p, false) h = record { expected = refl; delivered = refl; tensors = h }

  pub claimed-Quiet : (d : World E) (k i : ℕ) → Quiet d (claimed E d k i (claim E d.impl i))
  claimed-Quiet d k i = claimed-history d k i (claim E d.impl i) (claim-Keeps d.impl i)

  pub release_slot-Keeps :
      (p : Pipeline E) (slot : ℤ) {q : Pipeline E} {l : Lease}
      → release_slot E p slot ≡ ok (q, l)
      → Keeps p q
  release_slot-Keeps p slot h =
      let (i, held, e, same) = release_slot-cases E p slot h in
      subst (Keeps p) (sym e) (write-tensor p.slots i _ refl)

  -- A commit keeps the tensors, and adds its frame to the history exactly when it returns true.
  pub commit_slot-Keeps :
      (p : Pipeline E) (slot : ℤ) (lb : E.Geometry) {r : Pipeline E × Lease × Bool}
      → commit_slot E p slot lb ≡ ok r
      → Keeps p r.0
  commit_slot-Keeps p slot lb h =
      let (i, held, two) = commit_slot-cases E p slot lb h in
      let P = λ (x : Pipeline E × Lease × Bool). Keeps p x.0 in
      elim two [
        | inl (shut, e) ↦ subst P (sym e) (write-tensor p.slots i _ refl)
        | inr (opened, e) ↦ subst P (sym e) (write-tensor p.slots i _ refl)
      ]

  rethrow-ok : (r : Result E.Message E.Geometry) {g : E.Geometry} → rethrow E r ≡ ok g → r ≡ ok g
  rethrow-ok (ok g') h = ap ok (ok-injective h)
  rethrow-ok (err m) h = cc

  -- The write of the letterbox, where it returns a geometry.
  written :
      (p : Pipeline E) (i : ℕ) (x : E.Tensor × Result E.Message E.Geometry) {g : E.Geometry}
      → (write_tensor E p i x).1 ≡ ok g
      → x ≡ (((write_tensor E p i x).0.slots i).tensor, ok g)
  written p i (t, r) h = rw ((==_iff i i).1 refl) (rw (rethrow-ok r h) refl)

  -- What the letterbox wrote is in the slot, where it returns a geometry.
  pub letterbox_into_slot-ok :
      (p : Pipeline E) (i : ℕ) (src : E.Source) {g : E.Geometry}
      → (letterbox_into_slot E p (pos i) src).1 ≡ ok g
      → E.letterbox src (p.slots i).tensor
        ≡ (((letterbox_into_slot E p (pos i) src).0.slots i).tensor, ok g)
  unfolding letterbox_into_slot
  letterbox_into_slot-ok p i src = elim (Bool-cases (E.is_valid src)) [
    | inr bad ↦ rw bad (λ h. cc)
    | inl good ↦ elim (checked_slot-cases E p (pos i)) [
      | inl (j, e, held) ↦ rw good (
          rw e (
            rw (sym (pos-injective held.handle))
              (written p i (E.letterbox src (p.slots i).tensor))))
      | inr (x, e) ↦ rw good (rw e (λ h. cc))
    ]
  ]
