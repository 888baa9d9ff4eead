-- ===== src/Tracker/Solver/Standing.antt =====
-- tracks/byte_tracker.cc: after the rows of linearAssignment, each row stands in one column.
use rcdl.Common.{
  ℕ, zero, suc, ◌+◌, ◌≤◌, ◌<◌, ◌≡◌, refl, subst, false, not, Option, none, some, Option-cases, inl,
  inr, max, ◌==◌, arith,
}
use rcdl.Common.Family.{write, passing-le, passing-write}
use rcdl.Tracker.Scalars.{Scalars}
use rcdl.Tracker.Matrix.{Mat}
use rcdl.Tracker.Solver.{
  Row, Solve, search, augment, augmented, fresh_row, place, place_all, padded, solve,
}
use rcdl.Tracker.Solver.Rows.{Placed, none-Placed, augment-Placed}
use rcdl.Tracker.Solver.Search.{Ends, search-Ends}

module _ (S : Scalars) where
  -- Between two rows.
  pub record Standing (n k : ℕ) (s : Solve S) : Type 0 where
    pub placed : Placed n k s.p
    pub inside : (j : ℕ) → s.way j ≤ n

  -- The search of row k + 1 ends.
  pub place-Ends :
      (a : Mat S) (n k : ℕ) (s : Solve S)
      → k < n
      → Standing n k s
      → Ends S n
          (write s.p 0 (suc k))
          (search S (n + 1) a n (write s.p 0 (suc k)) (fresh_row S s) 0)
  place-Ends a n k s lt h =
      search-Ends S (n + 1) a n (write s.p 0 (suc k)) (fresh_row S s) 0 (omega arith)
        (ground (
          arith,
          lt,
          h.placed.free,
          passing-write (λ x. x == 0) s.p 0 (suc k) (suc n) (omega arith),
        ))
        (omega (arith, passing-le not (suc n) (λ j. false)))
        (record {
          small = omega arith;
          unused = refl;
          inside = h.inside;
          taken = λ j pos used. cc;
          here_taken = λ pos. absurd (omega (arith, pos));
        })

  augmented-Standing :
      (n k : ℕ) (s : Solve S) (r : Row S) (j0 : ℕ) {s' : Solve S}
      → Standing n k s
      → write s.p 0 (suc k) j0 ≡ 0
      → j0 ≤ n
      → ((j : ℕ) → r.way j ≤ n)
      → augmented S (n + 1) (write s.p 0 (suc k)) (some (r, j0)) ≡ some s'
      → Standing n (suc k) s'
  augmented-Standing n k s r j0 {s'} h free small inside e =
      elim (Option-cases (augment (n + 1) r.way (write s.p 0 (suc k)) j0)) [
        | inl ends ↦ absurd (none-case ends e)
        | inr (q, got) ↦
            subst (λ t. Standing n (suc k) t) (some-case q got e)
              (record {
                placed = augment-Placed n k (n + 1) r.way s.p j0 inside small h.placed free got;
                inside = inside;
              })
      ]
    where
      none-case :
          augment (n + 1) r.way (write s.p 0 (suc k)) j0 ≡ none
          → augmented S (n + 1) (write s.p 0 (suc k)) (some (r, j0)) ≡ some s'
          → ⊥
      none-case ends = rw (augmented, ends) (λ e. cc)

      some-case :
          (q : ℕ → ℕ)
          → augment (n + 1) r.way (write s.p 0 (suc k)) j0 ≡ some q
          → augmented S (n + 1) (write s.p 0 (suc k)) (some (r, j0)) ≡ some s'
          → record { u = r.u; v = r.v; p = q; way = r.way } ≡ s'
      some-case q got = rw (augmented, got) (λ e. cc)

  pub place-Standing :
      (a : Mat S) (n k : ℕ) (s : Solve S) {s' : Solve S}
      → k < n
      → Standing n k s
      → place S (n + 1) a n (suc k) s ≡ some s'
      → Standing n (suc k) s'
  unfolding place
  place-Standing a n k s {s'} lt h e =
      let ends = place-Ends a n k s lt h in
      augmented-Standing n k s ends.row ends.column h ends.is_free ends.small ends.inside
        (subst (λ o. augmented S (n + 1) (write s.p 0 (suc k)) o ≡ some s') ends.found e)

  pub place_all-none :
      (fuel : ℕ) (a : Mat S) (n k i : ℕ) {s : Solve S} → place_all S fuel a n k i none ≡ some s → ⊥
  unfolding place_all
  place_all-none fuel a n zero i h = cc
  place_all-none fuel a n (suc k) i h = cc

  place_all-Standing :
      (a : Mat S) (n k i : ℕ) (s : Solve S) {s' : Solve S}
      → i + k ≡ n
      → Standing n i s
      → place_all S (n + 1) a n k (suc i) (some s) ≡ some s'
      → Standing n n s'
  unfolding place_all
  place_all-Standing a n zero i s {s'} all h e =
      subst (λ t. Standing n n t) (some-injective e)
        (subst (λ m. Standing n m s) (omega (arith, all)) h)
    where
      some-injective : ◌≡◌ {A = Option (Solve S)} (some s) (some s') → s ≡ s'
      some-injective e = cc
  place_all-Standing a n (suc k) i s {s'} all h e =
      elim (Option-cases (place S (n + 1) a n (suc i) s)) [
        | inl ends ↦ absurd (
            place_all-none (n + 1) a n k (suc (suc i))
              (subst (λ o. place_all S (n + 1) a n k (suc (suc i)) o ≡ some s') ends e))
        | inr (t, got) ↦
            place_all-Standing a n k (suc i) t (omega (arith, all))
              (place-Standing a n i s (omega (arith, all)) h got)
              (subst (λ o. place_all S (n + 1) a n k (suc (suc i)) o ≡ some s') got e)
      ]

  pub none-Standing :
      (n : ℕ) (u v : ℕ → S.F) → Standing n 0 (record { u = u; v = v; p = λ j. 0; way = λ j. 0 })
  none-Standing n u v = record { placed = none-Placed n; inside = λ j. omega arith }

  pub solve-Standing :
      (cost : Mat S) (r c : ℕ) {s : Solve S}
      → solve S (max r c + 1) cost r c ≡ some s
      → Standing (max r c) (max r c) s
  unfolding solve
  solve-Standing cost r c e =
      place_all-Standing (padded S cost r c) (max r c) (max r c) 0 _ (omega arith)
        (none-Standing (max r c) _ _) e
