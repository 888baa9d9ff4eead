-- ===== src/Tracker/Solver/Search.antt =====
-- tracks/byte_tracker.cc: the first loop of linearAssignment ends at a free column, and stays inside
-- its arrays, whatever the comparisons of the costs say.
use rcdl.Common.{
  ℕ, zero, suc, ◌+◌, ◌≤◌, ◌<◌, ◌≡◌, ◌≢◌, ◌⊎◌, refl, ◌∙◌, ℕ_discrete, if-split, sym, ap, subst, inl,
  inr, Bool, true, false, not, Option, some, ◌==◌, ==_iff, ==_false, if-both, arith,
}
use rcdl.Common.Family.{bit, write-all, passing, passing-write, passing-all_false}
use rcdl.Common.Loops.{rounds-keeps}
use rcdl.Tracker.Scalars.{Scalars}
use rcdl.Tracker.Matrix.{Mat}
use rcdl.Tracker.Solver.{
  Row, Scan, fallback, shorten, prefer, scan_column, scan, shift, bounded, visit, shifted, search,
}
use rcdl.Tracker.Solver.Rows.{holding_row}

module _ (S : Scalars) where
  -- A scan that has come to column `i`: the paths stay inside, the next column is an unused one, and
  -- there is one as soon as an unused column was seen.
  record Scanned (n j0 : ℕ) (r : Row S) (i : ℕ) (s : Scan S) : Type 0 where
    inside : (j : ℕ) → s.way j ≤ n
    chosen : (s.next ≡ 0) ⊎ ((s.next ≤ n) × (r.used s.next ≡ false))
    exhausted : s.next ≡ 0 → (j : ℕ) → 0 < j → j < i → r.used j ≡ true

  -- A scan that has a next column.
  record Found (n : ℕ) (r : Row S) (s : Scan S) : Type 0 where
    inside : (j : ℕ) → s.way j ≤ n
    small : s.next ≤ n
    unused : r.used s.next ≡ false
    some_column : s.next ≢ 0

  fallback-Found :
      (n j0 : ℕ) (r : Row S) (i : ℕ) (s : Scan S)
      → 0 < i
      → i ≤ n
      → r.used i ≡ false
      → Scanned n j0 r i s
      → Found n r (fallback S s i)
  fallback-Found n j0 r i s pos le free h =
      if-split (Found n r) (s.next == 0)
        (λ z. record {
          inside = h.inside;
          small = le;
          unused = free;
          some_column = omega (arith, pos);
        })
        (λ nz. elim h.chosen [
          | inl z ↦ absurd (==_false s.next 0 nz z)
          | inr (small, free') ↦ record {
            inside = h.inside;
            small = small;
            unused = free';
            some_column = ==_false s.next 0 nz;
          }
        ])

  shorten-Found :
      (cur : S.F) (n j0 j : ℕ) (r : Row S) (s : Scan S)
      → j0 ≤ n
      → Found n r s
      → Found n r (shorten S cur j j0 s)
  shorten-Found cur n j0 j r s lt f =
      if-both (Found n r) (S.lt cur (s.minv j))
        (record {
          inside = write-all (λ k x. x ≤ n) s.way j j0 lt f.inside;
          small = f.small;
          unused = f.unused;
          some_column = f.some_column;
        })
        f

  prefer-Found :
      (n i : ℕ) (r : Row S) (s : Scan S)
      → 0 < i
      → i ≤ n
      → r.used i ≡ false
      → Found n r s
      → Found n r (prefer S i s)
  prefer-Found n i r s pos le free f =
      if-both (Found n r) (S.lt (s.minv i) s.delta)
        (record { inside = f.inside; small = le; unused = free; some_column = omega (arith, pos) })
        f

  Found-Scanned : (n j0 : ℕ) (r : Row S) (i : ℕ) (s : Scan S) → Found n r s → Scanned n j0 r i s
  Found-Scanned n j0 r i s f = record {
    inside = f.inside;
    chosen = inr (f.small, f.unused);
    exhausted = λ z. absurd (f.some_column z);
  }

  scan_column-Scanned :
      (a : Mat S) (n j0 i0 : ℕ) (r : Row S) (i : ℕ) (s : Scan S)
      → j0 ≤ n
      → 0 < i
      → i ≤ n
      → Scanned n j0 r i s
      → Scanned n j0 r (suc i) (scan_column S a r i0 j0 i s)
  unfolding scan_column
  scan_column-Scanned a n j0 i0 r i s lt pos le h =
      if-split (Scanned n j0 r (suc i)) (r.used i)
        (λ used. record {
          inside = h.inside;
          chosen = h.chosen;
          exhausted = λ z j p q. elim (ℕ_discrete j i) [
            | yes e ↦ ap r.used e ∙ used
            | no ne ↦ h.exhausted z j p (omega (arith, q, ne))
          ];
        })
        (λ free. Found-Scanned n j0 r (suc i) _ (
          prefer-Found n i r _ pos le free
            (shorten-Found _ n j0 i r _ lt (fallback-Found n j0 r i s pos le free h))))

  -- The whole scan, from a column inside.
  scan-Scanned :
      (a : Mat S) (n j0 i0 : ℕ) (r : Row S)
      → j0 ≤ n
      → ((j : ℕ) → r.way j ≤ n)
      → Scanned n j0 r (suc n) (scan S a n r i0 j0)
  unfolding scan
  scan-Scanned a n j0 i0 r lt h =
      (rounds-keeps (scan_column S a r i0 j0) (λ i s. (0 < i) × Scanned n j0 r i s) (suc n)
        (λ i s le q.
          (omega arith, scan_column-Scanned a n j0 i0 r i s lt q.0 (omega (arith, le)) q.1))
        n 1 _ (omega arith)
        (
          omega arith,
          record {
            inside = h;
            chosen = inl refl;
            exhausted = λ z j p q. absurd (omega (arith, p, q));
          },
        )).1

  -- The update of the potentials leaves the paths and the visited columns.
  shift-way :
      (n : ℕ) (p : ℕ → ℕ) (delta : S.F) (r : Row S)
      → ((shift S n p delta r).way ≡ r.way) × ((shift S n p delta r).used ≡ r.used)
  unfolding shift
  shift-way n p delta r =
      rounds-keeps _ (λ i (s : Row S). (s.way ≡ r.way) × (s.used ≡ r.used)) (n + 1)
        (λ i s lt h. if-both (λ (s' : Row S). (s'.way ≡ r.way) × (s'.used ≡ r.used)) (s.used i) h h)
        (n + 1) 0 r (omega arith) (refl, refl)

  -- The search gave a free column, and paths that stay inside.
  pub record Ends (n : ℕ) (p : ℕ → ℕ) (o : Option (Row S × ℕ)) : Type 0 where
    pub row : Row S
    pub column : ℕ
    pub found : o ≡ some (row, column)
    pub is_free : p column ≡ 0
    pub small : column ≤ n
    pub inside : (j : ℕ) → row.way j ≤ n

  -- Where the loop stands when it comes to column j0.
  pub record Searching (n : ℕ) (p : ℕ → ℕ) (r : Row S) (j0 : ℕ) : Type 0 where
    pub small : j0 ≤ n
    pub unused : r.used j0 ≡ false
    pub inside : (j : ℕ) → r.way j ≤ n
    pub taken : (j : ℕ) → 0 < j → r.used j ≡ true → p j ≢ 0
    pub here_taken : 0 < j0 → p j0 ≢ 0

  visit-less :
      (n : ℕ) (r : Row S) (j0 : ℕ)
      → j0 ≤ n
      → r.used j0 ≡ false
      → 1 + passing not (suc n) (visit S r j0).used ≡ passing not (suc n) r.used
  visit-less n r j0 lt free =
      let e = passing-write not r.used j0 true (suc n) (omega (arith, lt)) in
      let one : bit (not (r.used j0)) ≡ 1 = ap (λ b. bit (not b)) free in omega (arith, e, one)

  visit-taken :
      (n : ℕ) (p : ℕ → ℕ) (r : Row S) (j0 : ℕ)
      → Searching n p r j0
      → (j : ℕ) → 0 < j
      → (visit S r j0).used j ≡ true
      → p j ≢ 0
  visit-taken n p r j0 h j pos used = elim (ℕ_discrete j0 j) [
    | yes e ↦ subst (λ k. p k ≢ 0) e (h.here_taken (omega (arith, e, pos)))
    | no ne ↦ h.taken j pos (ground (arith, used, ne))
  ]

  -- Not all columns are visited while a column is free.
  not_exhausted :
      (n : ℕ) (p : ℕ → ℕ) (used : ℕ → Bool)
      → p 0 ≢ 0
      → 0 < holding_row n p 0
      → ((j : ℕ) → 0 < j → used j ≡ true → p j ≢ 0)
      → ((j : ℕ) → 0 < j → j < suc n → used j ≡ true)
      → ⊥
  not_exhausted n p used first some_free taken all =
      let none_free : holding_row n p 0 ≡ 0 =
        passing-all_false (λ x. x == 0) p (suc n)
          λ j lt. elim (ℕ_discrete j 0) [
            | yes e ↦ ground (arith, subst (λ k. p k ≢ 0) (sym e) first)
            | no ne ↦ ground (arith, taken j (omega (arith, ne)) (all j (omega (arith, ne)) lt))
          ] in
      omega (arith, none_free, some_free)

  pub search-Ends :
      (fuel : ℕ) (a : Mat S) (n : ℕ) (p : ℕ → ℕ) (r : Row S) (j0 : ℕ)
      → p 0 ≢ 0
      → 0 < holding_row n p 0
      → passing not (suc n) r.used ≤ fuel
      → Searching n p r j0
      → Ends n p (search S fuel a n p r j0)
  unfolding search
  search-Ends zero a n p r j0 first some_free few h =
      absurd (omega (arith, few, visit-less n r j0 h.small h.unused))
  search-Ends (suc fuel) a n p r j0 first some_free few h =
      let r1 : Row S = visit S r j0 in
      let s : Scan S = scan S a n r1 (p j0) j0 in
      let scanned : Scanned n j0 r1 (suc n) s = scan-Scanned a n j0 (p j0) r1 h.small h.inside in
      let kept = shift-way n p (bounded S s.delta) (record r1 { minv = s.minv; way = s.way }) in
      let taken = visit-taken n p r j0 h in
      if-split (Ends n p) (s.next == 0)
        (λ z. absurd (
          not_exhausted n p r1.used first some_free taken
            (scanned.exhausted ((==_iff s.next 0).0 z))))
        (λ nz. elim scanned.chosen [
          | inl z ↦ absurd (==_false s.next 0 nz z)
          | inr (small, unused) ↦
              if-split (Ends n p) (p s.next == 0)
                (λ e. record {
                  row = shifted S n p r1 s;
                  column = s.next;
                  found = refl;
                  is_free = (==_iff (p s.next) 0).0 e;
                  small = small;
                  inside = subst (λ w. (j : ℕ) → w j ≤ n) (sym kept.0) scanned.inside;
                })
                (λ ne.
                  search-Ends fuel a n p (shifted S n p r1 s) s.next first some_free
                    (subst (λ u. passing not (suc n) u ≤ fuel) (sym kept.1)
                      (omega (arith, few, visit-less n r j0 h.small h.unused)))
                    (record {
                      small = small;
                      unused = subst (λ u. u s.next ≡ false) (sym kept.1) unused;
                      inside = subst (λ w. (j : ℕ) → w j ≤ n) (sym kept.0) scanned.inside;
                      taken =
                          subst (λ u. (j : ℕ) → 0 < j → u j ≡ true → p j ≢ 0) (sym kept.1) taken;
                      here_taken = λ pos. ==_false (p s.next) 0 ne;
                    }))
        ])
