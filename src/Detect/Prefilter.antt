-- ===== src/Detect/Prefilter.antt =====
-- tasks/detection.cc: the score sums only save work.
use rcdl.Common.{
  ℕ, zero, suc, ◌+◌, ◌*◌, ◌<◌, ◌≤◌, ◌≡◌, refl, sym, ap, ◌∙◌, inl, inr, Bool, true, false, List, [],
  ◌∷◌, ◌++◌, Option, none, some, ◌||◌, if◌then◌else◌, Bool-cases, ltb→lt, arith,
}
use native.Mathlib.Nat.{add-mul, mul-le-mul_right}
use rcdl.Common.Int.{ℤ, pos, negsuc, leb_ℤ, ltb_ℤ, pos_part}
use rcdl.Tracker.Scalars.{Scalars}
use rcdl.Tracker.Boost.{Detection}
use rcdl.Detect.Geometry.{LetterboxInfo, float_int}
use rcdl.Detect.Decode.{collect, best_class}
use rcdl.Detect.Candidates.{Less, best_class-Best}
use rcdl.Detect.Reads.{collect-ext}
use rcdl.Detect.Ltrb.{
  collect_rows, YoloLtrbConfig, Tensor, channel, box_channels, ltrb_cell, prefiltered, logits_of,
  scale, first_sum, later_sums, scales, decode_yolo_ltrb,
}

collect_rows-ext {ℓ} :
    {A : Type ℓ} (f g : ℕ → ℕ → Option A) (w h y : ℕ)
    → ((i j : ℕ) → i < y + h → j < w → f i j ≡ g i j)
    → collect_rows f w h y ≡ collect_rows g w h y
collect_rows-ext f g w zero y e = refl
collect_rows-ext f g w (suc h) y e =
    rw (collect-ext (f y) (g y) w 0 (λ j lt. e y j (omega arith) (omega (arith, lt)))) (
      ap (λ rest. collect (g y) w 0 ++ rest)
        (collect_rows-ext f g w h (suc y) (λ i j lt lt'. e i j (omega (arith, lt)) lt')))

positive_part : (x : ℤ) → ltb_ℤ (pos 0) x ≡ true → 0 < pos_part x
positive_part (pos n) h = ltb→lt 0 n (ground (arith, h))
positive_part (negsuc n) h = absurd (omega (arith, ltb→lt (0 + suc n) 0 h))

module _ (S : Scalars) (less : Less S) (cfg : YoloLtrbConfig S) where
  open S use {F}

  -- A sum below the threshold means that every class score of the cell is.
  abbrev pub Sums : (ℕ → F) → ℤ × ℤ → Tensor S → Type 0
  Sums cp grid none = Unit
  Sums cp (h, w) (some sums) =
      (cell : ℕ)
      → cell < pos_part h * pos_part w
      → S.lt (sums cell) cfg.conf_thresh ≡ true
      → (k : ℕ) → k < pos_part cfg.num_classes
      → S.lt (logits_of S cfg cp (pos_part h * pos_part w) cell k) cfg.conf_thresh ≡ true

  -- So for each scale that has a class tensor.
  abbrev pub AllSums : List (Tensor S) → List (ℤ × ℤ) → List (Tensor S) → Type 0
  AllSums [] grids sums = Unit
  AllSums (c ∷ cls) [] sums = Unit
  AllSums (none ∷ cls) (g ∷ grids) sums = AllSums cls grids (later_sums S sums)
  AllSums (some cp ∷ cls) (g ∷ grids) sums =
      Sums cp g (first_sum S sums) × AllSums cls grids (later_sums S sums)

  module _ (lb : LetterboxInfo S) (raw : cfg.apply_sigmoid ≡ false)
      (some_class : 0 < pos_part cfg.num_classes) where
    empty_cell :
        (logits at : ℕ → F) (gx gy : ℕ) (stride : F)
        → ((k : ℕ) → k < pos_part cfg.num_classes → S.lt (logits k) cfg.conf_thresh ≡ true)
        → ltrb_cell S cfg lb logits at gx gy stride ≡ none
    empty_cell logits at gx gy stride below =
        let b = best_class-Best S less logits (pos_part cfg.num_classes) some_class in
        let score : S.lt (best_class S logits (pos_part cfg.num_classes)).1 cfg.conf_thresh ≡ true =
          ap (λ (x : F). S.lt x cfg.conf_thresh) b.score ∙ below _ b.inside in
        rw raw (rw score refl)

    filtered :
        (cp : ℕ → F) (h w : ℤ) (sums : Tensor S) (at : ℕ → F) (gx gy : ℕ) (stride : F)
        → Sums cp (h, w) sums
        → gy < pos_part h
        → gx < pos_part w
        → (let cell = gy * pos_part w + gx in
            if prefiltered S cfg sums cell
            then none
            else ltrb_cell S cfg lb
                (logits_of S cfg cp (pos_part h * pos_part w) cell)
                at
                gx
                gy
                stride)
          ≡ ltrb_cell S cfg lb
              (logits_of S cfg cp (pos_part h * pos_part w) (gy * pos_part w + gx))
              at
              gx
              gy
              stride
    filtered cp h w none at gx gy stride covers hy hx = refl
    filtered cp h w (some sums) at gx gy stride covers hy hx =
        let row : (gy + 1) * pos_part w ≤ pos_part h * pos_part w =
          mul-le-mul_right (pos_part w) (omega (arith, hy)) in
        let inside : gy * pos_part w + gx < pos_part h * pos_part w =
          omega (arith, row, hx, add-mul gy 1 (pos_part w)) in
        elim (Bool-cases (S.lt (sums (gy * pos_part w + gx)) cfg.conf_thresh)) [
          | inl low ↦ rw low (sym (empty_cell _ at gx gy stride (covers _ inside low)))
          | inr high ↦ rw high refl
        ]

    scale-sums :
        (c b : Tensor S) (sums : Tensor S) (g : ℤ × ℤ) (stride : ℤ)
        → AllSums (c ∷ []) (g ∷ []) (sums ∷ [])
        → scale S cfg lb c b sums g stride ≡ scale S cfg lb c b none g stride
    scale-sums none b sums g stride covers = refl
    scale-sums (some cp) none sums g stride covers = refl
    scale-sums (some cp) (some bp) sums (h, w) stride covers =
        ap
          (λ (found : List (Detection S)). if leb_ℤ h (pos 0) || leb_ℤ w (pos 0) then [] else found)
          (collect_rows-ext _ _ (pos_part w) (pos_part h) 0 (λ gy gx hy hx.
            filtered cp h w sums
              (channel S cfg.channels_first bp (pos_part h * pos_part w)
                (box_channels S (pos_part cfg.reg_max)) (gy * pos_part w + gx))
              gx gy (float_int S stride) covers.0 (omega (arith, hy)) hx))

    scales-sums :
        (cls box : List (Tensor S)) (grids : List (ℤ × ℤ)) (strides : List ℤ)
        (sums : List (Tensor S))
        → AllSums cls grids sums
        → scales S cfg lb cls box grids strides sums ≡ scales S cfg lb cls box grids strides []
    scales-sums [] box grids strides sums covers = refl
    scales-sums (c ∷ cls) [] grids strides sums covers = refl
    scales-sums (c ∷ cls) (b ∷ box) [] strides sums covers = refl
    scales-sums (c ∷ cls) (b ∷ box) (g ∷ grids) [] sums covers = refl
    scales-sums (none ∷ cls) (b ∷ box) (g ∷ grids) (t ∷ strides) sums covers =
        scales-sums cls box grids strides (later_sums S sums) covers
    scales-sums (some cp ∷ cls) (b ∷ box) (g ∷ grids) (t ∷ strides) sums covers =
        rw (scale-sums (some cp) b (first_sum S sums) g t (covers.0, tt)) (
          ap (λ (rest : List (Detection S)). scale S cfg lb (some cp) b none g t ++ rest)
            (scales-sums cls box grids strides (later_sums S sums) covers.1))

  -- For a `<` that is irreflexive and transitive and a head whose class scores are probabilities: if
  -- in every cell whose score sum is below the threshold all class scores are, then decodeYoloLtrb
  -- returns or throws the same with the score sums as without them.
  pub decode_yolo_ltrb-sums :
      (sort : (ℕ → ℕ → Bool) → List ℕ → List ℕ) (lb : LetterboxInfo S) (cls box : List (Tensor S))
      (grid_hw : List (ℤ × ℤ)) (score_sum : List (Tensor S))
      → cfg.apply_sigmoid ≡ false
      → AllSums cls grid_hw score_sum
      → decode_yolo_ltrb S sort cfg lb cls box grid_hw score_sum
        ≡ decode_yolo_ltrb S sort cfg lb cls box grid_hw []
  unfolding decode_yolo_ltrb
  decode_yolo_ltrb-sums sort lb cls box grid_hw score_sum raw covers =
      elim (Bool-cases (ltb_ℤ (pos 0) cfg.num_classes)) [
        | inl good ↦
            rw
              (scales-sums lb raw (positive_part cfg.num_classes good) cls box grid_hw cfg.strides
                score_sum covers)
              refl
        | inr bad ↦ rw bad refl
      ]
