-- ===== src/Tracker/Solver/Ending.antt =====
-- tracks/byte_tracker.cc: which loops of linearAssignment end.
use rcdl.Common.{
  ℕ, zero, suc, ◌+◌, ◌<◌, ◌≡◌, ◌≢◌, refl, sym, ◌∙◌, ap, subst, inl, inr, none, some, Option-cases,
  if-cases, max, ◌==◌, ◌||◌, arith,
}
use rcdl.Common.Family.{write}
use rcdl.Tracker.Scalars.{Scalars, nat}
use rcdl.Tracker.Matrix.{Mat}
use rcdl.Tracker.Solver.{
  Row, Solve, search, augment, augmented, fresh_row, place, place_all, padded, solve,
}
use rcdl.Tracker.Solver.Gate.{gated, linear_assignment}
use rcdl.Tracker.Solver.Standing.{
  Standing, none-Standing, place-Ends, place-Standing, place_all-none,
}
use rcdl.Common.Pairwise.{some-injective}
use rcdl.Tracker.Solver.Trail.{augment-endless}

module _ (S : Scalars) where
  -- Before the first row.
  abbrev pub no_rows : Solve S
  no_rows = record { u = λ i. nat S 0; v = λ j. nat S 0; p = λ j. 0; way = λ j. 0 }

  -- On the square `a` of n rows, all rows up to `row` are placed, the search of the next one ends at
  -- `column`, and the path back from there takes more rounds than any number of them.
  pub record Endless (a : Mat S) (n : ℕ) : Type 0 where
    pub row : ℕ
    pub left : row < n
    pub state : Solve S
    pub placed : place_all S (n + 1) a n row 1 (some no_rows) ≡ some state
    pub searched : Row S
    pub column : ℕ
    pub found :
        search S (n + 1) a n (write state.p 0 (suc row)) (fresh_row S state) 0
        ≡ some (searched, column)
    pub endless : (fuel : ℕ) → augment fuel searched.way (write state.p 0 (suc row)) column ≡ none

  augmented-none :
      (fuel : ℕ) (p : ℕ → ℕ) (r : Row S) (j : ℕ)
      → augmented S fuel p (some (r, j)) ≡ none
      → augment fuel r.way p j ≡ none
  augmented-none fuel p r j e = elim (Option-cases (augment fuel r.way p j)) [
    | inl missing ↦ missing
    | inr (q, got) ↦ absurd (made q got e)
  ]
    where
      made :
          (q : ℕ → ℕ)
          → augment fuel r.way p j ≡ some q
          → augmented S fuel p (some (r, j)) ≡ none
          → ⊥
      made q got = rw (augmented, got) (λ e. cc)

  module _ (a : Mat S) (n : ℕ) where
    place-Endless :
        (k : ℕ) (s : Solve S)
        → k < n
        → Standing S n k s
        → place_all S (n + 1) a n k 1 (some no_rows) ≡ some s
        → place S (n + 1) a n (suc k) s ≡ none
        → Endless a n
    unfolding place
    place-Endless k s lt h before e =
        let p : ℕ → ℕ = write s.p 0 (suc k) in
        let ends = place-Ends S a n k s lt h in
        let missing : augment (n + 1) ends.row.way p ends.column ≡ none =
          augmented-none (n + 1) p ends.row ends.column
            (subst (λ o. augmented S (n + 1) p o ≡ none) ends.found e) in
        let nz : ends.column ≢ 0 =
          λ z. two_rows (suc k) (subst (λ c. p c ≡ 0) z ends.is_free) (omega arith) in
        record {
          row = k;
          left = lt;
          state = s;
          placed = before;
          searched = ends.row;
          column = ends.column;
          found = ends.found;
          endless = λ fuel.
              augment-endless n ends.row.way p ends.column ends.inside ends.small nz missing fuel p;
        }
      where
        two_rows : (i : ℕ) → i ≡ 0 → 0 < i → ⊥
        two_rows i e pos = omega (arith, e, pos)

    -- One row more.
    place_all-last :
        (fuel k i : ℕ) (s t : Solve S)
        → place_all S fuel a n k i (some s) ≡ some t
        → place_all S fuel a n (suc k) i (some s) ≡ place S fuel a n (i + k) t
    unfolding place_all
    place_all-last fuel zero i s t h = at_row (i + 0) (omega arith) (some-injective h)
      where
        at_row : (j : ℕ) → i ≡ j → s ≡ t → place S fuel a n i s ≡ place S fuel a n j t
        at_row j e same = ap (λ k. place S fuel a n k s) e ∙ ap (λ x. place S fuel a n j x) same
    place_all-last fuel (suc k) i s t h = elim (Option-cases (place S fuel a n i s)) [
      | inl missing ↦ absurd (
          place_all-none S fuel a n k (suc i)
            (subst (λ o. place_all S fuel a n k (suc i) o ≡ some t) missing h))
      | inr (s', got) ↦
          subst (λ o. place_all S fuel a n (suc k) (suc i) o ≡ place S fuel a n (i + suc k) t)
            (sym got)
            (place_all-last fuel k (suc i) s' t
                (subst (λ o. place_all S fuel a n k (suc i) o ≡ some t) got h)
              ∙ ap (λ j. place S fuel a n j t) (omega arith))
    ]

    place_all-Endless :
        (k i : ℕ) (s : Solve S)
        → i + k ≡ n
        → Standing S n i s
        → place_all S (n + 1) a n i 1 (some no_rows) ≡ some s
        → place_all S (n + 1) a n k (suc i) (some s) ≡ none
        → Endless a n
    unfolding place_all
    place_all-Endless zero i s all h before e = cc
    place_all-Endless (suc k) i s all h before e =
        elim (Option-cases (place S (n + 1) a n (suc i) s)) [
          | inl missing ↦ place-Endless i s (omega (arith, all)) h before missing
          | inr (t, got) ↦
              let one : suc i ≡ 1 + i = omega arith in
              place_all-Endless k (suc i) t (omega (arith, all))
                (place-Standing S a n i s (omega (arith, all)) h got)
                (place_all-last (n + 1) i 1 no_rows s before
                  ∙ subst (λ j. place S (n + 1) a n j s ≡ some t) one got)
                (subst (λ o. place_all S (n + 1) a n k (suc (suc i)) o ≡ none) got e)
        ]

-- Whatever the costs and the arithmetic are, not-a-numbers included: when the model, whose loops have
-- n + 1 rounds each for a square of n, gives no result, then some rows are placed, the first loop of
-- the next row ends, and from its column the second loop does not end, however many rounds it has.
pub linear_assignment-Endless :
    (S : Scalars) (cost : Mat S) (r c : ℕ) (thresh : S.F)
    → linear_assignment S cost r c thresh ≡ none
    → Endless S (padded S cost r c) (max r c)
unfolding linear_assignment solve
linear_assignment-Endless S cost r c thresh h = elim (if-cases ((r == 0) || (c == 0)) _ _ h) [
  | inl (empty, h1) ↦ cc
  | inr (full, h1) ↦ elim (Option-cases (solve S (max r c + 1) cost r c)) [
    | inr (s, got) ↦ absurd (some_gated s (subst (λ o. gated S cost r c thresh o ≡ none) got h1))
    | inl missing ↦
        place_all-Endless S (padded S cost r c) (max r c) (max r c) 0 (no_rows S) (omega arith)
          (none-Standing S (max r c) _ _) refl missing
  ]
]
  where
    some_gated : (s : Solve S) → gated S cost r c thresh (some s) ≡ none → ⊥
    some_gated s e = cc
