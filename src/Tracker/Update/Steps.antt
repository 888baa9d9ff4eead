-- ===== src/Tracker/Update/Steps.antt =====
-- tracks/byte_tracker.cc: the three associations of a frame give new ids to its detections only, and
-- list objects that exist.
use rcdl.Common.{
  ℕ, ◌≤◌, ◌<◌, ◌≡◌, refl, List, [], ◌∷◌, Option, none, some, length, ltb, subst, if-both, arith,
}
use rcdl.Common.Int.{ℤ}
use rcdl.Common.Family.{bit}
use rcdl.Tracker.Scalars.{Scalars}
use rcdl.Tracker.Matrix.{Mat}
use rcdl.Tracker.Track.{is_tracked}
use rcdl.Tracker.Cost.{Config, iou_distance}
use rcdl.Tracker.Solver.{Assignment}
use rcdl.Tracker.Solver.Gate.{linear_assignment}
use rcdl.Tracker.Solver.Partition.{times, times-unused, linear_assignment-IsPartition}
use rcdl.Tracker.Lists.Ids.{All}
use rcdl.Tracker.Update.{nth, Heap, Work, still_tracked}
use rcdl.Tracker.Update.Frame.{
  Input, at_heap, recheck, recheck_matches, first_association, third_association, left_over,
  after_first, after_second, after_third, associations,
}
use rcdl.Tracker.Update.Ids.{
  nth-All, nth-inside, Fine, associate_all-Fine, lose_all-Fine, confirm_all-Fine, discard_all-Fine,
  spawn_all-Fine, expire_all-Fine,
}

-- Indices that stand at most once below `c` and nowhere else are below `c`.
inside-All : (c : ℕ) (xs : List ℕ) → ((j : ℕ) → times j xs ≤ bit (ltb j c)) → All (λ j. j < c) xs
inside-All c [] h = tt
inside-All c (x ∷ xs) h = (ground (arith, h x), inside-All c xs (λ j. omega (arith, h j)))

module _ (S : Scalars) where
  linear_assignment-cols :
      (cost : Mat S) (r c : ℕ) (thresh : S.F) (a : Assignment)
      → linear_assignment S cost r c thresh ≡ some a
      → All (λ j. j < c) a.u_cols
  linear_assignment-cols cost r c thresh a e =
      let part = linear_assignment-IsPartition S cost r c thresh a e in
      inside-All c a.u_cols (λ j. omega (arith, part.cols j))

  recheck-cols :
      (cfg : Config S) (f : ℕ) (raw : Mat S) (r c : ℕ) (a : Assignment)
      → All (λ j. j < c) a.u_cols
      → All (λ j. j < c) (recheck S cfg f raw r c a).u_cols
  unfolding recheck
  recheck-cols cfg f raw r c a h =
      if-both (λ (b : Assignment). All (λ j. j < c) b.u_cols) cfg.boost.rich_similarity
        (inside-All c _ (λ j.
          ground (arith, times-unused (recheck_matches S cfg f raw a.matches).col_used c 0 j)))
        h

  still_tracked-All :
      (P : ℕ → Type 0) (heap : Heap S) (pool is : List ℕ)
      → P 0
      → All P pool
      → All P (still_tracked S heap pool is)
  unfolding still_tracked
  still_tracked-All P heap pool [] z h = tt
  still_tracked-All P heap pool (i ∷ is) z h =
      if-both (All P) (is_tracked (heap (nth pool i)).state)
        (nth-All P pool i z h, still_tracked-All P heap pool is z h)
        (still_tracked-All P heap pool is z h)

module _ (S : Scalars) (cfg : Config S) (f next top : ℕ) (heap : Heap S)
    (some_object : 0 < top) where
  -- The lists that a frame works on.
  pub record Sound (x : Input) : Type 0 where
    pub pool : All (λ t. t < top) x.pool
    pub unconfirmed : All (λ t. t < top) x.unconfirmed
    pub high : All (λ t. (next ≤ t) × (t < top)) x.high

  left_over-All :
      (high js : List ℕ)
      → All (λ t. (next ≤ t) × (t < top)) high
      → All (λ j. j < length high) js
      → All (λ t. (next ≤ t) × (t < top)) (left_over S cfg f high js)
  left_over-All high [] h inside = tt
  left_over-All high (j ∷ js) h inside =
      (nth-inside (λ t. (next ≤ t) × (t < top)) high j inside.0 h, left_over-All high js h inside.1)

  some-injective : {v w : Work S} → ◌≡◌ {A = Option (Work S)} (some v) (some w) → v ≡ w
  some-injective e = cc

  third-Fine :
      (most : ℤ) (det_left : List ℕ) (x : Input) (w : Work S) (o : Option Assignment) {w' : Work S}
      → Sound x
      → All (λ t. (next ≤ t) × (t < top)) det_left
      → ((a : Assignment) → o ≡ some a → All (λ j. j < length det_left) a.u_cols)
      → Fine S next top heap w
      → after_third S cfg f most det_left x w o ≡ some w'
      → Fine S next top heap w'
  third-Fine most det_left x w none {w'} sound new inside h e = cc
  third-Fine most det_left x w (some a) {w'} sound new inside h e =
      subst (Fine S next top heap) (some-injective e) (
        expire_all-Fine S next top heap some_object most f x.lost _ (
          spawn_all-Fine S next top heap some_object cfg f det_left a.u_cols _ new (inside a refl) (
            discard_all-Fine S next top heap some_object x.unconfirmed a.u_rows _ (
              confirm_all-Fine S next top heap some_object cfg f x.unconfirmed det_left a.matches w
                sound.unconfirmed h))))

  second-Fine :
      (most : ℤ) (r_tracked det_left : List ℕ) (x : Input) (w : Work S) (o : Option Assignment)
      {w' : Work S}
      → Sound x
      → All (λ t. t < top) r_tracked
      → All (λ t. (next ≤ t) × (t < top)) det_left
      → Fine S next top heap w
      → after_second S cfg f most r_tracked det_left x w o ≡ some w'
      → Fine S next top heap w'
  unfolding third_association
  second-Fine most r_tracked det_left x w none {w'} sound old new h e = cc
  second-Fine most r_tracked det_left x w (some a) {w'} sound old new h e =
      third-Fine most det_left x _ _ sound new
        (λ b q. linear_assignment-cols S _ _ (length det_left) _ b q)
        (lose_all-Fine S next top heap some_object r_tracked a.u_rows _ old
          (associate_all-Fine S next top heap some_object cfg f r_tracked x.low a.matches w old h))
        e

  first-Fine :
      (most : ℤ) (x : Input) (w : Work S) (o : Option Assignment) {w' : Work S}
      → Sound x
      → ((a : Assignment) → o ≡ some a → All (λ j. j < length x.high) a.u_cols)
      → Fine S next top heap w
      → after_first S cfg f most x w o ≡ some w'
      → Fine S next top heap w'
  first-Fine most x w none {w'} sound inside h e = cc
  first-Fine most x w (some a) {w'} sound inside h e =
      second-Fine most _ (left_over S cfg f x.high a.u_cols) x _ _ sound
        (still_tracked-All S (λ t. t < top) _ x.pool a.u_rows some_object sound.pool)
        (left_over-All x.high a.u_cols sound.high (inside a refl))
        (associate_all-Fine S next top heap some_object cfg f x.pool x.high a.matches w sound.pool
          h)
        e

  assignment-injective : {v w : Assignment} → some v ≡ some w → v ≡ w
  assignment-injective e = cc

  rechecked-cols :
      (raw : Mat S) (r c : ℕ) (o : Option Assignment) (a : Assignment)
      → ((b : Assignment) → o ≡ some b → All (λ j. j < c) b.u_cols)
      → (elim o [ none ↦ none | some b ↦ some (recheck S cfg f raw r c b) ]) ≡ some a
      → All (λ j. j < c) a.u_cols
  rechecked-cols raw r c none a inside e = cc
  rechecked-cols raw r c (some b) a inside e =
      subst (λ (d : Assignment). All (λ j. j < c) d.u_cols) (assignment-injective e)
        (recheck-cols S cfg f raw r c b (inside b refl))

  first-cols :
      (x : Input) (heap : Heap S) (a : Assignment)
      → first_association S cfg f x heap ≡ some a
      → All (λ j. j < length x.high) a.u_cols
  unfolding first_association
  first-cols x h a e =
      rechecked-cols (iou_distance S (at_heap S h x.pool) (at_heap S h x.high)) (length x.pool)
        (length x.high) _ a (λ b q. linear_assignment-cols S _ _ (length x.high) _ b q) e

  pub associations-Fine :
      (most : ℤ) (x : Input) (w : Work S) {w' : Work S}
      → Sound x
      → Fine S next top heap w
      → associations S cfg f most x w ≡ some w'
      → Fine S next top heap w'
  unfolding associations
  associations-Fine most x w sound h e = first-Fine most x w _ sound (first-cols x w.heap) h e
