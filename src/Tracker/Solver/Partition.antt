-- ===== src/Tracker/Solver/Partition.antt =====
-- tracks/byte_tracker.cc: what linearAssignment gives is a partial matching under the gate, and the
-- rows and the columns that it leaves are those without a partner.
use rcdl.Common.{
  ℕ, zero, suc, ◌+◌, ◌-◌, ◌≤◌, ◌<◌, ◌≡◌, refl, subst, ap, Bool, true, false, not, ◌&&◌, List, none,
  some, Bool-cases, inl, inr, ltb, leb, ==_iff, ◌==◌, if◌then◌else◌, max, weigh, if-split, if-cases,
  Option-cases, ◌||◌, arith,
}
use rcdl.Common.Family.{bit, passing}
use rcdl.Tracker.Scalars.{Scalars}
use rcdl.Tracker.Matrix.{Mat}
use rcdl.Tracker.Solver.{Assignment, Solve, solve}
use rcdl.Tracker.Solver.Gate.{Kept, unused, is_kept, gate, gated, linear_assignment}
use rcdl.Tracker.Solver.Rows.{holding_row}
use rcdl.Tracker.Solver.Standing.{Standing, solve-Standing}

abbrev pub times : ℕ → List ℕ → ℕ
times i = weigh (λ x. bit (x == i))

abbrev pub times_row : ℕ → List (ℕ × ℕ) → ℕ
times_row i = weigh (λ m. bit (m.0 == i))

abbrev pub times_col : ℕ → List (ℕ × ℕ) → ℕ
times_col j = weigh (λ m. bit (m.1 == j))

-- How many pairs are not under the gate.
abbrev pub over : (S : Scalars) → Mat S → S.F → List (ℕ × ℕ) → ℕ
over S cost thresh = weigh (λ m. bit (not (S.le (cost m.0 m.1) thresh)))

some-injective {ℓ} : {A : Type ℓ} {a b : A} → some a ≡ some b → a ≡ b
some-injective h = cc

pub times-unused :
    (used : ℕ → Bool) (count from i : ℕ)
    → times i (unused used count from)
      ≡ (if leb from i && ltb i (from + count) then bit (not (used i)) else 0)
unfolding unused
times-unused used zero from i = ground arith
times-unused used (suc count) from i = elim (Bool-cases (from == i)) [
  | inl e ↦ ground (arith, times-unused used count (suc from) i, ap used ((==_iff from i).0 e), e)
  | inr e ↦ ground (arith, times-unused used count (suc from) i, e)
]

module _ (S : Scalars) (cost : Mat S) (r c : ℕ) (thresh : S.F) (p : ℕ → ℕ) where
  -- What is known of a column that is kept.
  kept-row :
      (j : ℕ) → is_kept S cost r c thresh p j ≡ true → (i : ℕ) → (p j - 1 == i) ≡ (p j == suc i)
  kept-row j y i = ground (arith, y)

  kept-real : (j : ℕ) → is_kept S cost r c thresh p j ≡ true → (p j - 1 < r) × (0 < j → j - 1 < c)
  kept-real j y = ground (arith, y)

  row_used-gate :
      (k j i : ℕ)
      → (gate S cost r c thresh p k j).row_used i
        ≡ ltb 0 (times_row i (gate S cost r c thresh p k j).matches)
  unfolding gate
  row_used-gate zero j i = refl
  row_used-gate (suc k) j i =
      if-split (λ (g : Kept). g.row_used i ≡ ltb 0 (times_row i g.matches))
        (is_kept S cost r c thresh p j) (λ y. ground (arith, row_used-gate k (suc j) i))
        (λ n. row_used-gate k (suc j) i)

  times_row-gate :
      (k j m i : ℕ)
      → j + k ≡ m
      → times_row i (gate S cost r c thresh p k j).matches + passing (λ x. x == suc i) j p
        ≤ passing (λ x. x == suc i) m p
  unfolding gate passing
  times_row-gate zero j m i e =
      let here : j ≡ m = omega (arith, e) in
      subst (λ q. 0 + passing (λ x. x == suc i) j p ≤ passing (λ x. x == suc i) q p) here
        (omega arith)
  times_row-gate (suc k) j m i e =
      let rest = times_row-gate k (suc j) m i (omega (arith, e)) in
      if-split
        (λ (g : Kept).
          times_row i g.matches + passing (λ x. x == suc i) j p ≤ passing (λ x. x == suc i) m p)
        (is_kept S cost r c thresh p j) (λ y. ground (arith, rest, kept-row j y i))
        (λ n. omega (arith, rest))

  times_col-gate :
      (k j l : ℕ) → 0 < j → times_col l (gate S cost r c thresh p k j).matches ≤ bit (leb j (suc l))
  unfolding gate
  times_col-gate zero j l pos = omega arith
  times_col-gate (suc k) j l pos =
      let rest = times_col-gate k (suc j) l (omega arith) in
      if-split (λ (g : Kept). times_col l g.matches ≤ bit (leb j (suc l)))
        (is_kept S cost r c thresh p j) (λ y. ground (arith, rest, pos)) (λ n. ground (arith, rest))

  col_used-gate :
      (k j l : ℕ)
      → (gate S cost r c thresh p k j).col_used l
        ≡ ltb 0 (times_col l (gate S cost r c thresh p k j).matches)
  unfolding gate
  col_used-gate zero j l = refl
  col_used-gate (suc k) j l =
      if-split (λ (g : Kept). g.col_used l ≡ ltb 0 (times_col l g.matches))
        (is_kept S cost r c thresh p j) (λ y. ground (arith, col_used-gate k (suc j) l))
        (λ n. col_used-gate k (suc j) l)

  outside_row-gate : (k j i : ℕ) → r ≤ i → times_row i (gate S cost r c thresh p k j).matches ≡ 0
  unfolding gate
  outside_row-gate zero j i out = refl
  outside_row-gate (suc k) j i out =
      if-split (λ (g : Kept). times_row i g.matches ≡ 0) (is_kept S cost r c thresh p j)
        (λ y. ground (arith, outside_row-gate k (suc j) i out, (kept-real j y).0, out))
        (λ n. outside_row-gate k (suc j) i out)

  outside_col-gate :
      (k j l : ℕ) → 0 < j → c ≤ l → times_col l (gate S cost r c thresh p k j).matches ≡ 0
  unfolding gate
  outside_col-gate zero j l pos out = refl
  outside_col-gate (suc k) j l pos out =
      let rest = outside_col-gate k (suc j) l (omega arith) out in
      if-split (λ (g : Kept). times_col l g.matches ≡ 0) (is_kept S cost r c thresh p j)
        (λ y. ground (arith, rest, (kept-real j y).1 pos, out)) (λ n. rest)

  over-gate : (k j : ℕ) → over S cost thresh (gate S cost r c thresh p k j).matches ≡ 0
  unfolding gate
  over-gate zero j = refl
  over-gate (suc k) j =
      if-split (λ (g : Kept). over S cost thresh g.matches ≡ 0) (is_kept S cost r c thresh p j)
        (λ y. ground (arith, over-gate k (suc j), y)) (λ n. over-gate k (suc j))

-- A partial matching under the gate, with the rows and the columns that have no partner: each row
-- below `r` and each column below `c` stands once, in a pair or alone, and no other does; no pair is
-- over the gate.
pub record IsPartition (S : Scalars) (cost : Mat S) (r c : ℕ) (thresh : S.F) (a : Assignment)
    : Type 0 where
  pub rows : (i : ℕ) → times_row i a.matches + times i a.u_rows ≡ bit (ltb i r)
  pub cols : (j : ℕ) → times_col j a.matches + times j a.u_cols ≡ bit (ltb j c)
  pub under : over S cost thresh a.matches ≡ 0

passing-one : (q : ℕ → Bool) (p : ℕ → ℕ) → passing (λ x. q x) 1 p ≡ bit (q (p 0))
unfolding passing
passing-one q p = omega arith

gated-IsPartition :
    (S : Scalars) (cost : Mat S) (r c : ℕ) (thresh : S.F) (s : Solve S) {a : Assignment}
    → Standing S (max r c) (max r c) s
    → gated S cost r c thresh (some s) ≡ some a
    → IsPartition S cost r c thresh a
gated-IsPartition S cost r c thresh s h e =
    let n : ℕ = max r c in
    let k : Kept = gate S cost r c thresh s.p n 1 in
    subst (IsPartition S cost r c thresh) (some-injective e) (record {
      rows = λ i.
          let row-once : times_row i k.matches + passing (λ x. x == suc i) 1 s.p
              ≤ holding_row n s.p (suc i) =
            times_row-gate S cost r c thresh s.p n 1 (suc n) i (omega arith) in
          ground (
            arith,
            times-unused k.row_used r 0 i,
            row_used-gate S cost r c thresh s.p n 1 i,
            row-once,
            h.placed.rows (suc i) (omega arith),
            passing-one (λ x. x == suc i) s.p,
            outside_row-gate S cost r c thresh s.p n 1 i,
          );
      cols = λ j. ground (
        arith,
        times-unused k.col_used c 0 j,
        col_used-gate S cost r c thresh s.p n 1 j,
        times_col-gate S cost r c thresh s.p n 1 j,
        outside_col-gate S cost r c thresh s.p n 1 j,
      );
      under = over-gate S cost r c thresh s.p n 1;
    })

-- Whatever the costs, not-a-number and infinities included, an assignment that linearAssignment
-- returns pairs no row and no column twice, has only pairs under the gate, and lists as unmatched
-- exactly the rows and the columns that stand in no pair, each once.
pub linear_assignment-IsPartition :
    (S : Scalars) (cost : Mat S) (r c : ℕ) (thresh : S.F) (a : Assignment)
    → linear_assignment S cost r c thresh ≡ some a
    → IsPartition S cost r c thresh a
unfolding linear_assignment
linear_assignment-IsPartition S cost r c thresh a e = elim (if-cases ((r == 0) || (c == 0)) _ _ e) [
  | inl (empty, e') ↦ subst (IsPartition S cost r c thresh) (some-injective e') (record {
    rows = λ i. ground (arith, times-unused (λ x. false) r 0 i);
    cols = λ j. ground (arith, times-unused (λ x. false) c 0 j);
    under = refl;
  })
  | inr (full, e') ↦ elim (Option-cases (solve S (max r c + 1) cost r c)) [
    | inl ends ↦ absurd (none-some (subst (λ o. gated S cost r c thresh o ≡ some a) ends e'))
    | inr (s, got) ↦
        gated-IsPartition S cost r c thresh s (solve-Standing S cost r c got)
          (subst (λ o. gated S cost r c thresh o ≡ some a) got e')
  ]
]
  where
    none-some : none ≡ some a → ⊥
    none-some h = cc
