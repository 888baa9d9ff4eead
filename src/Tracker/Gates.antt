-- ===== src/Tracker/Gates.antt =====
-- tracks/byte_tracker.cc: what the appearance of a detection can do to a cost.
use rcdl.Common.{ℕ, ◌≡◌, ◌⊎◌, refl, inl, inr, true, false, if-split, arith}
use rcdl.Tracker.Scalars.{Scalars, min_of}
use rcdl.Tracker.Matrix.{Mat}
use rcdl.Tracker.Cost.{Config, Tracks, fuse_appearance, no_appearance, same_class}
use rcdl.Tracker.Track.{is_empty}

module _ (S : Scalars) where
  -- A pair that may use appearance: both sides have an embedding, the classes agree, and the boxes
  -- are near enough.
  pub record MayLook (cfg : Config S) (raw : Mat S) (tracks dets : Tracks S) (i j : ℕ)
      : Type 0 where
    pub template : is_empty S (tracks i).smooth_feat ≡ false
    pub embedding : is_empty S (dets j).curr_feat ≡ false
    pub class : same_class S (tracks i) (dets j) ≡ true
    pub near : S.lt cfg.proximity_thresh (raw i j) ≡ false

  may_look :
      (cfg : Config S) (raw : Mat S) (tracks dets : Tracks S) (i j : ℕ)
      → no_appearance S cfg (raw i j) (tracks i) (dets j) ≡ false
      → MayLook cfg raw tracks dets i j
  unfolding no_appearance
  may_look cfg raw tracks dets i j h = record {
    template = ground (arith, h);
    embedding = ground (arith, h);
    class = ground (arith, h);
    near = ground (arith, h);
  }

  min_of-lowers : (a b : S.F) → (min_of S a b ≡ a) ⊎ (S.lt (min_of S a b) a ≡ true)
  min_of-lowers a b =
      if-split (λ c. (c ≡ a) ⊎ (S.lt c a ≡ true)) (S.lt b a) (λ y. inr y) (λ n. inl refl)

  -- Appearance leaves a cost as it is, or lowers it; and it lowers only the cost of a pair with
  -- embeddings on both sides, one class and boxes that are near enough.
  pub fuse_appearance-lowers :
      (cfg : Config S) (cost raw : Mat S) (tracks dets : Tracks S) (i j : ℕ)
      → (fuse_appearance S cfg cost raw tracks dets i j ≡ cost i j)
        ⊎ ((S.lt (fuse_appearance S cfg cost raw tracks dets i j) (cost i j) ≡ true)
            × MayLook cfg raw tracks dets i j)
  unfolding fuse_appearance
  fuse_appearance-lowers cfg cost raw tracks dets i j =
      if-split
        (λ c. (c ≡ cost i j) ⊎ ((S.lt c (cost i j) ≡ true) × MayLook cfg raw tracks dets i j))
        (no_appearance S cfg (raw i j) (tracks i) (dets j)) (λ y. inl refl)
        (λ n. elim (min_of-lowers (cost i j) _) [
          | inl e ↦ inl e
          | inr lower ↦ inr (lower, may_look cfg raw tracks dets i j n)
        ])
