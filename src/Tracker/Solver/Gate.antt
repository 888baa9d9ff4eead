-- ===== src/Tracker/Solver/Gate.antt =====
-- tracks/byte_tracker.cc: the end of linearAssignment, which keeps the real pairs under the gate.
use rcdl.Common.{
  ℕ, zero, suc, ◌+◌, ◌-◌, Bool, true, false, ◌&&◌, ◌||◌, List, [], ◌∷◌, Option, none, some, leb,
  ◌==◌, if◌then◌else◌, max,
}
use rcdl.Common.Family.{write}
use rcdl.Tracker.Scalars.{Scalars}
use rcdl.Tracker.Matrix.{Mat}
use rcdl.Tracker.Solver.{Assignment, Solve, solve}

-- The pairs kept, first to last, with the rows and the columns that they use.
pub record Kept : Type 0 where
  pub matches : List (ℕ × ℕ)
  pub row_used : ℕ → Bool
  pub col_used : ℕ → Bool

abbrev pub keep : Kept → ℕ → ℕ → Kept
keep k i j = record {
  matches = (i, j) ∷ k.matches;
  row_used = write k.row_used i true;
  col_used = write k.col_used j true;
}

abbrev pub no_match : Kept
no_match = record { matches = []; row_used = λ i. false; col_used = λ j. false }

-- `for (i = from; i < from + count; ++i) if (!used[i]) push_back(i)`
unfoldable pub unused : (ℕ → Bool) → ℕ → ℕ → List ℕ
unused used zero i = []
unused used (suc count) i =
    if used i then unused used count (suc i) else i ∷ unused used count (suc i)

module _ (S : Scalars) where
  -- Whether column `j` keeps its row.
  abbrev pub is_kept : Mat S → ℕ → ℕ → S.F → (ℕ → ℕ) → ℕ → Bool
  is_kept cost r c thresh p j =
      leb 1 (p j) && (leb (p j) r && (leb j c && S.le (cost (p j - 1) (j - 1)) thresh))

  -- The loop over the columns from `j` on.
  unfoldable pub gate : Mat S → ℕ → ℕ → S.F → (ℕ → ℕ) → ℕ → ℕ → Kept
  gate cost r c thresh p zero j = no_match
  gate cost r c thresh p (suc k) j =
      let rest : Kept = gate cost r c thresh p k (suc j) in
      if is_kept cost r c thresh p j then keep rest (p j - 1) (j - 1) else rest

  abbrev pub gated : Mat S → ℕ → ℕ → S.F → Option (Solve S) → Option Assignment
  gated cost r c thresh none = none
  gated cost r c thresh (some s) =
      let k : Kept = gate cost r c thresh s.p (max r c) 1 in
      some (record {
        matches = k.matches;
        u_rows = unused k.row_used r 0;
        u_cols = unused k.col_used c 0;
      })

  unfoldable pub linear_assignment : Mat S → ℕ → ℕ → S.F → Option Assignment
  linear_assignment cost r c thresh =
      if (r == 0) || (c == 0)
      then some (record {
        matches = [];
        u_rows = unused (λ i. false) r 0;
        u_cols = unused (λ j. false) c 0;
      })
      else gated cost r c thresh (solve S (max r c + 1) cost r c)
