-- ===== src/Async/Order/Slots.antt =====
-- pipeline/async_detection_pipeline.cc: callers claim, fill, release and commit slots.
use rcdl.Common.{
  ℕ, ◌<◌, ◌≡◌, ◌≢◌, sym, ◌∙◌, inl, inr, List, [], ◌∷◌, ◌++◌, none, length, get_elem?-some_lt,
  get_elem?-append_left, get_elem?-append_last, length-append, Option-cases, arith,
}
use rcdl.Common.Assoc.{find}
use rcdl.Common.Family.{write, write-all}
use rcdl.Async.Interface.{Stages}
use rcdl.Async.Impl.{Slot, queued, Parked}
use rcdl.Async.Worker.{work}
use rcdl.Async.World.{Worker, waiting, running, finished, returning, gone}
use rcdl.Async.Order.{Queued, WorkerOrder, Order}

module _ (E : Stages) where
  -- A worker whose slot is not queued has no frame, so it does not care what the slot becomes.
  WorkerOrder-idle :
      (expected : List (Parked E)) (s t : Slot E) (w : Worker E)
      → s.state ≢ queued
      → WorkerOrder E expected s w
      → WorkerOrder E expected t w
  WorkerOrder-idle expected s t waiting idle h = tt
  WorkerOrder-idle expected s t (running seq lb) idle h = absurd (idle h.0)
  WorkerOrder-idle expected s t (finished seq r) idle h = absurd (idle h.0)
  WorkerOrder-idle expected s t (returning l) idle h = tt
  WorkerOrder-idle expected s t gone idle h = tt

  -- More commits take nothing from a worker.
  WorkerOrder-append :
      (expected : List (Parked E)) (x : Parked E) (s : Slot E) (w : Worker E)
      → WorkerOrder E expected s w
      → WorkerOrder E (expected ++ x ∷ []) s w
  WorkerOrder-append expected x s waiting h = tt
  WorkerOrder-append expected x s (running seq lb) h = h
  WorkerOrder-append expected x s (finished seq r) h = (
    h.0,
    h.1,
    get_elem?-append_left expected (x ∷ []) seq (get_elem?-some_lt expected seq h.2) ∙ h.2,
  )
  WorkerOrder-append expected x s (returning l) h = tt
  WorkerOrder-append expected x s gone h = tt

  module _ {expected delivered : List (Parked E)} {next_out : ℕ} {pending : List (ℕ × Parked E)}
      {slots : ℕ → Slot E} {workers : ℕ → Worker E}
      (o : Order E expected delivered next_out pending slots workers) where
    -- A slot that is not queued, written anew and still not queued.
    pub writes-Order :
        (i : ℕ) (s : Slot E)
        → (slots i).state ≢ queued
        → s.state ≢ queued
        → Order E expected delivered next_out pending (write slots i s) workers
    writes-Order i s was is = record {
      bounded = o.bounded;
      counted = o.counted;
      in_order = o.in_order;
      unique = o.unique;
      parked = o.parked;
      slot =
          write-all (λ j (t : Slot E). t.state ≡ queued → Queued E expected next_out pending t)
            slots i s (λ e. absurd (is e)) o.slot;
      distinct = λ j k ej ek same. ground (arith, o.distinct j k);
      worker =
          write-all (λ j (t : Slot E). WorkerOrder E expected t (workers j)) slots i s
            (WorkerOrder-idle expected (slots i) s (workers i) was (o.worker i)) o.worker;
    }

    none-above : find (length expected) pending ≡ none
    none-above = elim (Option-cases (find (length expected) pending)) [
      | inl e ↦ e
      | inr (r, e) ↦
          absurd (omega (arith, get_elem?-some_lt expected (length expected) (o.parked _ r e).0))
    ]

    below : (i : ℕ) → (slots i).state ≡ queued → (slots i).seq < length expected
    below i e = get_elem?-some_lt expected (slots i).seq (o.slot i e).result

    -- A commit: the slot gets the next number, and the history its frame.
    pub commits-Order :
        (i : ℕ) (s : Slot E)
        → (slots i).state ≢ queued
        → s.seq ≡ length expected
        → Order E
            (expected ++ work E s.tensor s.lb ∷ [])
            delivered
            next_out
            pending
            (write slots i s)
            workers
    commits-Order i s was new =
        let x : Parked E = work E s.tensor s.lb in
        record {
          bounded = omega (arith, o.bounded, length-append expected (x ∷ []));
          counted = o.counted;
          in_order = λ k lt.
              o.in_order k lt
              ∙ sym (get_elem?-append_left expected (x ∷ []) k (omega (arith, o.bounded)));
          unique = o.unique;
          parked = λ k r e.
              let (found, due) = o.parked k r e in
              (
                get_elem?-append_left expected (x ∷ []) k (get_elem?-some_lt expected k found)
                    ∙ found,
                due,
              );
          slot =
              write-all
                (λ j (t : Slot E).
                  t.state ≡ queued → Queued E (expected ++ x ∷ []) next_out pending t)
                slots i s
                (λ _. record {
                  result = rw new (get_elem?-append_last expected x);
                  due = omega (arith, o.bounded);
                  not_parked = rw new none-above;
                })
                (λ j e. record {
                  result =
                      get_elem?-append_left expected (x ∷ []) (slots j).seq (below j e)
                      ∙ (o.slot j e).result;
                  due = (o.slot j e).due;
                  not_parked = (o.slot j e).not_parked;
                });
          distinct = λ j k ej ek same. ground (arith, o.distinct j k, below j, below k, new);
          worker =
              write-all (λ j (t : Slot E). WorkerOrder E (expected ++ x ∷ []) t (workers j)) slots i
                s
                (WorkerOrder-idle (expected ++ x ∷ []) (slots i) s (workers i) was
                  (WorkerOrder-append expected x (slots i) (workers i) (o.worker i)))
                (λ j. WorkerOrder-append expected x (slots j) (workers j) (o.worker j));
        }
