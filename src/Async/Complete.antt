-- ===== src/Async/Complete.antt =====
-- pipeline/async_detection_pipeline.cc: no frame is lost. Until shutdown() every committed frame
-- that is not delivered is parked or queued, and no worker has left.
use rcdl.Common.{
  ℕ, ◌+◌, ◌<◌, ◌≤◌, ◌≡◌, ◌≢◌, ◌⊎◌, refl, sym, ◌∙◌, subst, inl, inr, Bool, false, List, [], ◌∷◌,
  ◌++◌, none, some, length, length-append, ◌==◌, ==_false, Bool-cases, dec_lt, arith,
}
use rcdl.Common.Assoc.{
  find, Unique, emplace, find-emplace, length-emplace, erase, find-erase, length-erase,
}
use rcdl.Common.Family.{bit, write, passing, passing-write, write-all}
use rcdl.Async.Interface.{Stages}
use rcdl.Async.Impl.{Slot, SlotState, queued, is_queued, Parked}
use rcdl.Async.World.{Worker, gone}

module _ (E : Stages) where
  abbrev pub queues : Slot E → Bool
  queues s = is_queued s.state

  -- Where frame `k` is.
  abbrev pub Covered : ℕ → List (ℕ × Parked E) → (ℕ → Slot E) → ℕ → Type 0
  Covered n pending slots k =
      (find k pending ≢ none)
      ⊎ ((i : ℕ) × (i < n) × ((slots i).state ≡ queued) × ((slots i).seq ≡ k))

  pub record Complete (n : ℕ) (expected : List (Parked E)) (next_out : ℕ)
      (pending : List (ℕ × Parked E)) (slots : ℕ → Slot E) (workers : ℕ → Worker E) : Type 0 where
    pub counted : length expected ≡ next_out + length pending + passing queues n slots
    pub covered : (k : ℕ) → next_out ≤ k → k < length expected → Covered n pending slots k
    pub alive : (i : ℕ) → workers i ≢ gone

  idle-bit : (st : SlotState) → st ≢ queued → bit (is_queued st) ≡ 0
  unfolding is_queued
  idle-bit queued h = absurd (h refl)
  idle-bit _ h = refl

  queued-bit : (s : Slot E) → s.state ≡ queued → bit (queues s) ≡ 1
  unfolding is_queued
  queued-bit s e = rw e refl

  -- Slot `i` written anew leaves the frames of the other slots where they are.
  Covered-write :
      (n i k : ℕ) (pending : List (ℕ × Parked E)) (slots : ℕ → Slot E) (s : Slot E)
      → ((slots i).state ≡ queued → (slots i).seq ≢ k)
      → Covered n pending slots k
      → Covered n pending (write slots i s) k
  Covered-write n i k pending slots s other (inl p) = inl p
  Covered-write n i k pending slots s other (inr (j, lt, st, same)) =
      let ne : i ≢ j = λ e.
        other (subst (λ m. (slots m).state ≡ queued) (sym e) st)
          (subst (λ m. (slots m).seq ≡ k) (sym e) same) in
      inr (j, lt, ground arith, ground arith)

  Covered-emplace :
      (n : ℕ) (slots : ℕ → Slot E) (seq k : ℕ) (r : Parked E) (pending : List (ℕ × Parked E))
      → find seq pending ≡ none
      → (seq == k) ≡ false
      → Covered n pending slots k
      → Covered n (emplace seq r pending) slots k
  Covered-emplace n slots seq k r pending new other (inl p) =
      inl (rw (find-emplace seq k r pending new, other) p)
  Covered-emplace n slots seq k r pending new other (inr q) = inr q

  Covered-erase :
      (n : ℕ) (slots : ℕ → Slot E) (j k : ℕ) (pending : List (ℕ × Parked E))
      → Unique pending
      → j < k
      → Covered n pending slots k
      → Covered n (erase j pending) slots k
  Covered-erase n slots j k pending u lt (inl p) = inl (ground (arith, find-erase j k pending u, p))
  Covered-erase n slots j k pending u lt (inr q) = inr q

  module _ {n : ℕ} {expected : List (Parked E)} {next_out : ℕ} {pending : List (ℕ × Parked E)}
      {slots : ℕ → Slot E} {workers : ℕ → Worker E}
      (c : Complete n expected next_out pending slots workers) where
    pub writes-Complete :
        (i : ℕ) (s : Slot E)
        → i < n
        → (slots i).state ≢ queued
        → s.state ≢ queued
        → Complete n expected next_out pending (write slots i s) workers
    writes-Complete i s lt was is = record {
      counted = omega (
        arith,
        c.counted,
        passing-write queues slots i s n lt,
        idle-bit (slots i).state was,
        idle-bit s.state is,
      );
      covered = λ k due made.
          Covered-write n i k pending slots s (λ e. absurd (was e)) (c.covered k due made);
      alive = c.alive;
    }

    pub commits-Complete :
        (i : ℕ) (s : Slot E) (x : Parked E)
        → i < n
        → (slots i).state ≢ queued
        → s.state ≡ queued
        → s.seq ≡ length expected
        → Complete n (expected ++ x ∷ []) next_out pending (write slots i s) workers
    commits-Complete i s x lt was is new = record {
      counted = omega (
        arith,
        c.counted,
        length-append expected (x ∷ []),
        passing-write queues slots i s n lt,
        idle-bit (slots i).state was,
        queued-bit s is,
      );
      covered = λ k due made. elim (dec_lt k (length expected)) [
        | yes old ↦ Covered-write n i k pending slots s (λ e. absurd (was e)) (c.covered k due old)
        | no new' ↦
            inr (i, lt, ground (arith, is), ground (arith, new, length-append expected (x ∷ [])))
      ];
      alive = c.alive;
    }

    pub moves-Complete :
        (i : ℕ) (w : Worker E)
        → w ≢ gone
        → Complete n expected next_out pending slots (write workers i w)
    moves-Complete i w stays = record {
      counted = c.counted;
      covered = c.covered;
      alive = write-all (λ _ v. v ≢ gone) workers i w stays c.alive;
    }

    pub parks-Complete :
        (i : ℕ) (s : Slot E) (seq : ℕ) (r : Parked E) (w : Worker E)
        → i < n
        → (slots i).state ≡ queued
        → (slots i).seq ≡ seq
        → find seq pending ≡ none
        → s.state ≢ queued
        → w ≢ gone
        → Complete n expected next_out (emplace seq r pending) (write slots i s) (write workers i w)
    parks-Complete i s seq r w lt st same new is stays = record {
      counted = omega (
        arith,
        c.counted,
        length-emplace seq r pending new,
        passing-write queues slots i s n lt,
        queued-bit (slots i) st,
        idle-bit s.state is,
      );
      covered = λ k due made. elim (Bool-cases (seq == k)) [
        | inl here ↦ inl (rw (find-emplace seq k r pending new, here) (λ e. cc))
        | inr other ↦ Covered-emplace n (write slots i s) seq k r pending new other (
            Covered-write n i k pending slots s (λ _ e. ==_false seq k other (sym same ∙ e))
              (c.covered k due made))
      ];
      alive = write-all (λ _ v. v ≢ gone) workers i w stays c.alive;
    }

    pub drains-Complete :
        {r : Parked E}
        → Unique pending
        → find next_out pending ≡ some r
        → Complete n expected (next_out + 1) (erase next_out pending) slots workers
    drains-Complete {r} u h = record {
      counted = omega (arith, c.counted, length-erase next_out r pending h);
      covered = λ k due made.
          Covered-erase n slots next_out k pending u (omega arith) (c.covered k (omega arith) made);
      alive = c.alive;
    }
