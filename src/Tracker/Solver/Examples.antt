-- ===== src/Tracker/Solver/Examples.antt =====
-- linearAssignment on small matrices.
use rcdl.Common.{ℕ, zero, suc, ◌≡◌, refl, List, [], ◌∷◌, Option, none, some}
use rcdl.Tracker.Numbers.{Number, nan, ones, numbers}
use rcdl.Tracker.Matrix.{Mat}
use rcdl.Tracker.Solver.{
  Assignment, Solve, solve, scan, scan_column, shift, search, augment, padded, fresh_row, place,
  place_all,
}
use rcdl.Common.Family.{write}
use rcdl.Common.Loops.{rounds}
use rcdl.Tracker.Solver.Gate.{linear_assignment, gate, unused}
use rcdl.Tracker.Solver.Ending.{Endless, linear_assignment-Endless}
use rcdl.Tracker.Solver.Partition.{IsPartition, linear_assignment-IsPartition}

abbrev pick : Number → List Number → ℕ → Number
pick d [] j = d
pick d (x ∷ xs) zero = x
pick d (x ∷ xs) (suc j) = pick d xs j

abbrev pick_row : List (List Number) → ℕ → List Number
pick_row [] i = []
pick_row (r ∷ rs) zero = r
pick_row (r ∷ rs) (suc i) = pick_row rs i

abbrev matrix : List (List Number) → Mat numbers
matrix rows i = pick nan (pick_row rows i)

-- Three tracks and two detections; the second row has a not-a-number.
abbrev costs : Mat numbers
costs = matrix ((ones 30 ∷ ones 10 ∷ []) ∷ (nan ∷ ones 5 ∷ []) ∷ (ones 90 ∷ ones 70 ∷ []) ∷ [])

abbrev outcome : Assignment
outcome = record { matches = (0, 0) ∷ (1, 1) ∷ []; u_rows = 2 ∷ []; u_cols = [] }

solved : linear_assignment numbers costs 3 2 (ones 80) ≡ some outcome
unfolding linear_assignment solve scan rounds scan_column shift gate unused
solved = refl

linear_assignment-IsPartition_example : IsPartition numbers costs 3 2 (ones 80) outcome
linear_assignment-IsPartition_example =
    linear_assignment-IsPartition numbers costs 3 2 (ones 80) outcome solved

-- A row of not-a-numbers after two others: the path of the last row runs into an older one, and has
-- no end.
abbrev bad : Mat numbers
bad = matrix (
    (ones 30 ∷ ones 10 ∷ ones 30 ∷ [])
    ∷ (ones 30 ∷ ones 0 ∷ ones 20 ∷ [])
    ∷ (nan ∷ nan ∷ nan ∷ [])
    ∷ [])

hung : linear_assignment numbers bad 3 3 (ones 80) ≡ none
unfolding linear_assignment solve scan rounds scan_column shift
hung = refl

-- The path of the third row: the ways of the columns 1, 2 and 3, and the column where it starts.
abbrev third_path : Option (Solve numbers) → List ℕ
third_path none = []
third_path (some s) =
    elim (search numbers 4 (padded numbers bad 3 3) 3 (write s.p 0 3) (fresh_row numbers s) 0) [
      | none ↦ []
      | some (r, j) ↦ r.way 1 ∷ r.way 2 ∷ r.way 3 ∷ j ∷ []
    ]

abbrev first_rows : Option (Solve numbers)
first_rows =
    place_all numbers 4 (padded numbers bad 3 3) 3 2 1
      (some (record { u = λ i. ones 0; v = λ j. ones 0; p = λ j. 0; way = λ j. 0 }))

found : third_path first_rows ≡ 2 ∷ 1 ∷ 1 ∷ 3 ∷ []
unfolding place_all place search augment scan rounds scan_column shift
found = refl

linear_assignment-Endless_example : Endless numbers (padded numbers bad 3 3) 3
linear_assignment-Endless_example = linear_assignment-Endless numbers bad 3 3 (ones 80) hung
