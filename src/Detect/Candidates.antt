-- ===== src/Detect/Candidates.antt =====
-- tasks/detection.cc: every detection that decode returns is a candidate that passed the threshold,
-- under its best class.
use rcdl.Common.{
  ℕ, zero, suc, ◌+◌, ◌-◌, ◌/◌, ◌<◌, ◌≡◌, ◌⊎◌, refl, sym, subst, inl, inr, Bool, true, false, List,
  [], ◌∷◌, Option, none, some, length, get_elem?, ltb, leb, if-cases, if-split, Bool-cases, dec_lt,
  if◌then◌else◌, arith,
}
use rcdl.Common.Int.{ℤ, pos, negsuc, leb_ℤ, pos_part}
use rcdl.Common.Pairwise.{some-injective}
use rcdl.Tracker.Scalars.{Scalars}
use rcdl.Tracker.Boost.{Detection}
use rcdl.Detect.Nms.{nms}
use rcdl.Detect.Geometry.{LetterboxInfo}
use rcdl.Detect.Decode.{
  class_start, total_of, push_back, collect, pick, DetectConfig, argmax, best_class, attribute,
  score_of, centre_box, candidate, candidates, entry, suppressed, decode_values, decode,
}

push_back-from {ℓ} :
    {A : Type ℓ} (o : Option A) (rest : List A) (i : ℕ) {x : A}
    → get_elem? (push_back o rest) i ≡ some x
    → (o ≡ some x) ⊎ ((j : ℕ) × (get_elem? rest j ≡ some x))
push_back-from none rest i h = inr (i, h)
push_back-from (some y) rest zero h = inl h
push_back-from (some y) rest (suc i) h = inr (i, h)

-- What a loop pushed back came from one of its rounds.
collect-from {ℓ} :
    {A : Type ℓ} (f : ℕ → Option A) (n j i : ℕ) {x : A}
    → get_elem? (collect f n j) i ≡ some x
    → (k : ℕ) × (k < j + n) × (f k ≡ some x)
collect-from f zero j i h = cc
collect-from f (suc n) j i h = elim (push_back-from (f j) (collect f n (suc j)) i h) [
  | inl now ↦ (j, omega arith, now)
  | inr (i', later) ↦
      let (k, lt, same) = collect-from f n (suc j) i' later in (k, omega (arith, lt), same)
]

-- What is picked was there.
pick-from {ℓ} :
    {A : Type ℓ} (xs : List A) (keep : List ℕ) (i : ℕ) {x : A}
    → get_elem? (pick xs keep) i ≡ some x
    → (k : ℕ) × (get_elem? xs k ≡ some x)
pick-from xs [] i h = cc
pick-from xs (k ∷ keep) i h = elim (push_back-from (get_elem? xs k) (pick xs keep) i h) [
  | inl now ↦ (k, now)
  | inr (i', later) ↦ pick-from xs keep i' later
]

if-get {ℓ} :
    {A : Type ℓ} (b : Bool) (xs : List A) (i : ℕ) {x : A}
    → get_elem? (if b then [] else xs) i ≡ some x
    → (b ≡ false) × (get_elem? xs i ≡ some x)
if-get true xs i h = cc
if-get false xs i h = (refl, h)

clash : (b : Bool) → b ≡ true → b ≡ false → ⊥
clash b h k = cc

pub positive : (x : ℤ) → leb_ℤ x (pos 0) ≡ false → 0 < pos_part x
positive (pos zero) h = absurd (clash true refl h)
positive (pos (suc n)) h = omega arith
positive (negsuc n) h = absurd (clash (leb 0 (0 + suc n)) (ground arith) h)

module _ (S : Scalars) where
  open S use {F}

  -- What `<` of floats satisfies, with NaNs too.
  pub record Less : Type 0 where
    pub irreflexive : (a : F) → S.lt a a ≡ false
    pub transitive : (a b c : F) → S.lt a b ≡ true → S.lt b c ≡ true → S.lt a c ≡ true

  -- A class that no class below `n` beats.
  pub record Best (v : ℕ → F) (n : ℕ) (best : ℕ × F) : Type 0 where
    pub inside : best.0 < n
    pub score : best.1 ≡ v best.0
    pub unbeaten : (k : ℕ) → k < n → S.lt best.1 (v k) ≡ false

  module _ (less : Less) (v : ℕ → F) where
    beats-Best :
        (k : ℕ) (best : ℕ × F) → Best v k best → S.lt best.1 (v k) ≡ true → Best v (suc k) (k, v k)
    beats-Best k best h better = record {
      inside = omega arith;
      score = refl;
      unbeaten = λ i lt. elim (Bool-cases (S.lt (v k) (v i))) [
        | inr no_better ↦ no_better
        | inl above ↦ elim (dec_lt i k) [
          | yes old ↦ absurd (
              clash (S.lt best.1 (v i)) (less.transitive best.1 (v k) (v i) better above)
                (h.unbeaten i old))
          | no new ↦ absurd (
              clash (S.lt (v k) (v i)) above (
                subst (λ (j : ℕ). S.lt (v k) (v j) ≡ false) (omega (arith, lt, new))
                  (less.irreflexive (v k))))
        ]
      ];
    }

    stays-Best :
        (k : ℕ) (best : ℕ × F) → Best v k best → S.lt best.1 (v k) ≡ false → Best v (suc k) best
    stays-Best k best h worse = record {
      inside = omega (arith, h.inside);
      score = h.score;
      unbeaten = λ i lt. elim (dec_lt i k) [
        | yes old ↦ h.unbeaten i old
        | no new ↦ subst (λ (j : ℕ). S.lt best.1 (v j) ≡ false) (omega (arith, lt, new)) worse
      ];
    }

    argmax-Best : (n k : ℕ) (best : ℕ × F) → Best v k best → Best v (k + n) (argmax S v n k best)
    unfolding argmax
    argmax-Best zero k best h = subst (λ (j : ℕ). Best v j best) (omega arith) h
    argmax-Best (suc n) k best h =
        subst (λ (j : ℕ). Best v j (argmax S v (suc n) k best)) (omega arith)
          (argmax-Best n (suc k) _ (
            if-split (Best v (suc k)) (S.lt best.1 (v k)) (beats-Best k best h)
              (stays-Best k best h)))

    -- Of at least one score, the first loop finds one that none beats.
    pub best_class-Best : (nc : ℕ) → 0 < nc → Best v nc (best_class S v nc)
    best_class-Best nc some_class =
        subst (λ (j : ℕ). Best v j (best_class S v nc)) (omega (arith, some_class))
          (argmax-Best (nc - 1) 1 (0, v 0)
            (record {
              inside = omega arith;
              score = refl;
              unbeaten = λ i lt.
                  subst (λ (j : ℕ). S.lt (v 0) (v j) ≡ false) (omega (arith, lt))
                    (less.irreflexive (v 0));
            }))

  -- Candidate `j` of `n`, whose attributes are `at`, is the detection.
  pub record IsCandidate (cfg : DetectConfig S) (lb : LetterboxInfo S) (nc n j : ℕ) (at : ℕ → F)
      (det : Detection S) : Type 0 where
    pub inside : j < n
    pub best : ℕ × F
    pub is_best : Best (λ k. at (class_start cfg.layout + k)) nc best
    pub confident : S.lt (score_of S cfg at best.1) cfg.conf_thresh ≡ false
    pub same : det ≡ centre_box S lb at (score_of S cfg at best.1) best.0

  candidate-IsCandidate :
      (less : Less) (cfg : DetectConfig S) (lb : LetterboxInfo S) (nc n j : ℕ) (at : ℕ → F)
      {det : Detection S}
      → 0 < nc
      → j < n
      → candidate S cfg lb nc at ≡ some det
      → IsCandidate cfg lb nc n j at det
  candidate-IsCandidate less cfg lb nc n j at some_class lt h =
      let best = best_class S (λ k. at (class_start cfg.layout + k)) nc in
      elim (if-cases (S.lt (score_of S cfg at best.1) cfg.conf_thresh) _ _ h) [
        | inl (below, no_one) ↦ cc
        | inr (above, it) ↦ record {
          inside = lt;
          best = best;
          is_best = best_class-Best less (λ k. at (class_start cfg.layout + k)) nc some_class;
          confident = above;
          same = sym (some-injective it);
        }
      ]

  -- For a `<` that is irreflexive and transitive, as that of float is: each detection that decode
  -- returns is, for one candidate of the tensor, its box brought back to the original image, under a
  -- class in range that no other class of the candidate beats, with a score that is not below the
  -- threshold; whatever order std::sort gives.
  pub decode-IsCandidate :
      (less : Less) (sort : (ℕ → ℕ → Bool) → List ℕ → List ℕ) (values : ℕ → F) (shape : List ℤ)
      (cfg : DetectConfig S) (lb : LetterboxInfo S) (i : ℕ) {det : Detection S}
      → get_elem? (decode S sort (some values) shape cfg lb) i ≡ some det
      → let nc = pos_part cfg.num_classes in
        let attrs = class_start cfg.layout + nc in
        let n = total_of shape / attrs in
        (j : ℕ) × IsCandidate cfg lb nc n j (λ a. attribute S cfg values attrs n a j) det
  unfolding decode
  decode-IsCandidate less sort values shape cfg lb i {det} h =
      let nc = pos_part cfg.num_classes in
      let attrs = class_start cfg.layout + nc in
      let n = total_of shape / attrs in
      let dets = candidates S cfg lb values nc attrs n in
      let (some_class, h1) =
        if-get (leb_ℤ cfg.num_classes (pos 0))
          (decode_values S sort cfg lb values nc attrs (total_of shape)) i h in
      let (enough, h2) =
        if-get (ltb (total_of shape) attrs) (suppressed S sort cfg.iou_thresh cfg.max_dets dets) i
          h1 in
      let (k, h3) =
        pick-from dets (nms S sort (entry S dets) (length dets) cfg.iou_thresh cfg.max_dets) i h2 in
      let (j, lt, it) =
        collect-from (λ (j : ℕ). candidate S cfg lb nc (λ a. attribute S cfg values attrs n a j)) n
          0 k h3 in
      (
        j,
        candidate-IsCandidate less cfg lb nc n j (λ a. attribute S cfg values attrs n a j)
            (positive cfg.num_classes some_class) (omega (arith, lt)) it,
      )
