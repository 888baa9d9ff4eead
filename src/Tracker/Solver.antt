-- ===== src/Tracker/Solver.antt =====
-- tracks/byte_tracker.cc: linearAssignment, the Hungarian algorithm on a padded square and the gate
-- after it. Rows and columns count from 1, and column 0 stands for none. A loop that may not end
-- takes fuel, and then `none` is its result when the fuel has run out.
pub mod Rows
pub mod Trail
pub mod Ending
pub mod Search
pub mod Standing
pub mod Partition
pub mod Gate
mod Examples
use rcdl.Common.{
  ℕ, zero, suc, ◌+◌, ◌-◌, Bool, true, false, not, ◌&&◌, ◌||◌, List, [], ◌∷◌, Option, none, some,
  ltb, leb, ◌==◌, if◌then◌else◌, max,
}
use rcdl.Common.Loops.{rounds}
use rcdl.Common.Family.{write}
use rcdl.Tracker.Scalars.{Scalars, nat, lit}
use rcdl.Tracker.Matrix.{Mat}

pub record Assignment : Type 0 where
  pub matches : List (ℕ × ℕ)
  pub u_rows : List ℕ
  pub u_cols : List ℕ

-- Back along the path: column j0 takes the row of way[j0], until column 0.
unfoldable pub augment : ℕ → (ℕ → ℕ) → (ℕ → ℕ) → ℕ → Option (ℕ → ℕ)
augment zero way p j0 = none
augment (suc fuel) way p j0 =
    let p' : ℕ → ℕ = write p j0 (p (way j0)) in
    let rest : Option (ℕ → ℕ) = augment fuel way p' (way j0) in
    if way j0 == 0 then some p' else rest

module _ (S : Scalars) where
  open S use {F}

  -- What lives through one row: potentials, the shortest reduced costs, the path, and the columns
  -- that were visited.
  pub record Row : Type 0 where
    pub u : ℕ → F
    pub v : ℕ → F
    pub minv : ℕ → F
    pub way : ℕ → ℕ
    pub used : ℕ → Bool

  -- The scan of the columns: `delta`, and the next column; 0 stands for the -1 of the code.
  pub record Scan : Type 0 where
    pub minv : ℕ → F
    pub way : ℕ → ℕ
    pub delta : F
    pub next : ℕ

  abbrev pub fallback : Scan → ℕ → Scan
  fallback s j = if s.next == 0 then record s { next = j } else s

  abbrev pub shorten : F → ℕ → ℕ → Scan → Scan
  shorten cur j j0 s =
      if S.lt cur (s.minv j)
      then record s { minv = write s.minv j cur; way = write s.way j j0 }
      else s

  abbrev pub prefer : ℕ → Scan → Scan
  prefer j s = if S.lt (s.minv j) s.delta then record s { delta = s.minv j; next = j } else s

  -- Column `j` for row `i0`, which stands at column `j0`.
  unfoldable pub scan_column : Mat S → Row → ℕ → ℕ → ℕ → Scan → Scan
  scan_column a r i0 j0 j s =
      if r.used j
      then s
      else prefer j (shorten (S.sub (S.sub (a i0 j) (r.u i0)) (r.v j)) j j0 (fallback s j))

  unfoldable pub scan : Mat S → ℕ → Row → ℕ → ℕ → Scan
  scan a n r i0 j0 =
      rounds (scan_column a r i0 j0) n 1
        (record { minv = r.minv; way = r.way; delta = S.largest; next = 0 })

  -- The update of the potentials, column by column.
  unfoldable pub shift : ℕ → (ℕ → ℕ) → F → Row → Row
  shift n p delta r =
      rounds
        (λ j s.
          if s.used j
          then record s {
            u = write s.u (p j) (S.add (s.u (p j)) delta);
            v = write s.v j (S.sub (s.v j) delta);
          }
          else record s { minv = write s.minv j (S.sub (s.minv j) delta) })
        (n + 1) 0 r

  abbrev pub bounded : F → F
  bounded delta = if S.lt delta S.largest then delta else nat S 0

  abbrev pub visit : Row → ℕ → Row
  visit r j0 = record r { used = write r.used j0 true }

  abbrev pub shifted : ℕ → (ℕ → ℕ) → Row → Scan → Row
  shifted n p r s = shift n p (bounded s.delta) (record r { minv = s.minv; way = s.way })

  -- The first do-while loop, at column `j0`: the row, and the column where it ends. It also ends
  -- when no column is left.
  unfoldable pub search : ℕ → Mat S → ℕ → (ℕ → ℕ) → Row → ℕ → Option (Row × ℕ)
  search zero a n p r j0 = none
  search (suc fuel) a n p r j0 =
      let r1 : Row = visit r j0 in
      let s : Scan = scan a n r1 (p j0) j0 in
      let r2 : Row = shifted n p r1 s in
      let rest : Option (Row × ℕ) = search fuel a n p r2 s.next in
      if s.next == 0
      then some (record r1 { minv = s.minv; way = s.way }, j0)
      else if p s.next == 0
      then some (r2, s.next)
      else rest

  -- What lives through all rows.
  pub record Solve : Type 0 where
    pub u : ℕ → F
    pub v : ℕ → F
    pub p : ℕ → ℕ
    pub way : ℕ → ℕ

  abbrev pub fresh_row : Solve → Row
  fresh_row s = record { u = s.u; v = s.v; minv = λ j. S.largest; way = s.way; used = λ j. false }

  abbrev pub augmented : ℕ → (ℕ → ℕ) → Option (Row × ℕ) → Option Solve
  augmented fuel p none = none
  augmented fuel p (some (r, j0)) = elim (augment fuel r.way p j0) [
    | none ↦ none
    | some q ↦ some (record { u = r.u; v = r.v; p = q; way = r.way })
  ]

  -- One row of the outer loop.
  unfoldable pub place : ℕ → Mat S → ℕ → ℕ → Solve → Option Solve
  unfolding search augment
  place fuel a n i s =
      let p : ℕ → ℕ = write s.p 0 i in augmented fuel p (search fuel a n p (fresh_row s) 0)

  unfoldable pub place_all : ℕ → Mat S → ℕ → ℕ → ℕ → Option Solve → Option Solve
  unfolding place
  place_all fuel a n zero i s = s
  place_all fuel a n (suc k) i none = none
  place_all fuel a n (suc k) i (some s) = place_all fuel a n k (suc i) (place fuel a n i s)

  -- The square, padded with a large cost.
  abbrev pub padded : Mat S → ℕ → ℕ → Mat S
  padded cost r c i j = if leb i r && leb j c then cost (i - 1) (j - 1) else lit S 1_000_000_000 1

  unfoldable pub solve : ℕ → Mat S → ℕ → ℕ → Option Solve
  unfolding place_all
  solve fuel cost r c =
      place_all fuel (padded cost r c) (max r c) (max r c) 1
        (some (record { u = λ i. nat S 0; v = λ j. nat S 0; p = λ j. 0; way = λ j. 0 }))
