-- ===== src/Async/Order/Drain.antt =====
-- pipeline/async_detection_pipeline.cc: next() and tryNext() take the result that is due.
use rcdl.Common.{
  ℕ, ◌+◌, ◌<◌, ◌≡◌, sym, ◌∙◌, subst, inl, inr, List, [], ◌∷◌, ◌++◌, some, length, get_elem?,
  get_elem?-some_lt, get_elem?-append_left, get_elem?-append_last, length-append, ◌==◌, ==_iff,
  ==_false, Bool-cases, arith,
}
use rcdl.Common.Assoc.{find, erase, find-erase, erase-Unique}
use rcdl.Async.Interface.{Stages}
use rcdl.Async.Impl.{Slot, Parked}
use rcdl.Async.World.{Worker}
use rcdl.Async.Order.{Order}

module _ (E : Stages) where
  module _ {expected delivered : List (Parked E)} {next_out : ℕ} {pending : List (ℕ × Parked E)}
      {slots : ℕ → Slot E} {workers : ℕ → Worker E}
      (o : Order E expected delivered next_out pending slots workers) where
    -- The result that is due is that of the next frame of the history.
    pub due-bounded : {r : Parked E} → find next_out pending ≡ some r → next_out < length expected
    due-bounded {r} h = get_elem?-some_lt expected next_out (o.parked next_out r h).0

    pub drains-Order :
        {r : Parked E}
        → find next_out pending ≡ some r
        → Order E expected
            (delivered ++ r ∷ [])
            (next_out + 1)
            (erase next_out pending)
            slots
            workers
    drains-Order {r} h =
        let found : get_elem? expected next_out ≡ some r = (o.parked next_out r h).0 in
        record {
          bounded = omega (arith, due-bounded h);
          counted = omega (arith, o.counted, length-append delivered (r ∷ []));
          in_order = λ k lt. elim (Bool-cases (next_out == k)) [
            | inl now ↦
                subst (λ m. get_elem? (delivered ++ r ∷ []) m ≡ get_elem? expected m)
                  ((==_iff next_out k).0 now)
                  (subst (λ m. get_elem? (delivered ++ r ∷ []) m ≡ some r) o.counted
                      (get_elem?-append_last delivered r)
                    ∙ sym found)
            | inr before ↦
                let earlier : k < next_out = omega (arith, ==_false next_out k before) in
                get_elem?-append_left delivered (r ∷ []) k (omega (arith, o.counted))
                ∙ o.in_order k earlier
          ];
          unique = erase-Unique next_out pending o.unique;
          parked = λ k q e. ground (arith, find-erase next_out k pending o.unique, o.parked k q);
          slot = λ i e. record {
            result = (o.slot i e).result;
            due = ground (arith, (o.slot i e).due, (o.slot i e).not_parked, h);
            not_parked = ground (
              arith,
              find-erase next_out (slots i).seq pending o.unique,
              (o.slot i e).not_parked,
            );
          };
          distinct = o.distinct;
          worker = o.worker;
        }
