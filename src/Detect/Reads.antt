-- ===== src/Detect/Reads.antt =====
-- tasks/detection.cc: decode reads inside its tensor.
use rcdl.Common.{
  ℕ, zero, suc, ◌+◌, ◌-◌, ◌*◌, ◌/◌, ◌<◌, ◌≤◌, ◌≡◌, refl, ap, ◌∙◌, inl, inr, Bool, true, false, List,
  [], Option, some, ltb, if◌then◌else◌, Bool-cases, arith,
}
use native.Mathlib.Nat.{add-mul, mul_comm, mul-le-mul_right, mul-div-le}
use rcdl.Common.Int.{ℤ, pos, leb_ℤ, pos_part}
use rcdl.Tracker.Scalars.{Scalars}
use rcdl.Tracker.Boost.{Detection}
use rcdl.Detect.Geometry.{LetterboxInfo}
use rcdl.Detect.Candidates.{positive}
use rcdl.Detect.Decode.{
  DecodeLayout, yolo_v5, yolo_v8, class_start, total_of, push_back, collect, DetectConfig, argmax,
  best_class, attribute, candidate, candidates, suppressed, decode,
}

-- An offset of `decode` is in the tensor.
attribute-inside :
    (channels_first : Bool) (total attrs a j : ℕ)
    → a < attrs
    → j < total / attrs
    → (if channels_first then a * (total / attrs) + j else j * attrs + a) < total
attribute-inside true total attrs a j ha hj =
    let n = total / attrs in
    let row : (a + 1) * n ≤ attrs * n = mul-le-mul_right n (omega (arith, ha)) in
    omega (arith, hj, row, add-mul a 1 n, mul-div-le total attrs)
attribute-inside false total attrs a j ha hj =
    let n = total / attrs in
    let row : (j + 1) * attrs ≤ n * attrs = mul-le-mul_right attrs (omega (arith, hj)) in
    omega (arith, ha, row, add-mul j 1 attrs, mul_comm n attrs, mul-div-le total attrs)

pub collect-ext {ℓ} :
    {A : Type ℓ} (f g : ℕ → Option A) (n j : ℕ)
    → ((k : ℕ) → k < j + n → f k ≡ g k)
    → collect f n j ≡ collect g n j
collect-ext f g zero j h = refl
collect-ext f g (suc n) j h =
    rw (h j (omega arith))
      (ap (push_back (g j)) (collect-ext f g n (suc j) (λ k lt. h k (omega (arith, lt)))))

four : (layout : DecodeLayout) → 4 ≤ class_start layout
four yolo_v5 = omega arith
four yolo_v8 = omega arith

module _ (S : Scalars) where
  open S use {F}

  argmax-ext :
      (v v' : ℕ → F) (n k : ℕ) (best : ℕ × F)
      → ((i : ℕ) → i < k + n → v i ≡ v' i)
      → argmax S v n k best ≡ argmax S v' n k best
  unfolding argmax
  argmax-ext v v' zero k best h = refl
  argmax-ext v v' (suc n) k best h =
      rw (h k (omega arith)) (argmax-ext v v' n (suc k) _ (λ i lt. h i (omega (arith, lt))))

  -- One candidate depends on its attributes alone.
  candidate-ext :
      (cfg : DetectConfig S) (lb : LetterboxInfo S) (nc : ℕ) (at at' : ℕ → F)
      → 0 < nc
      → ((a : ℕ) → a < class_start cfg.layout + nc → at a ≡ at' a)
      → candidate S cfg lb nc at ≡ candidate S cfg lb nc at'
  candidate-ext cfg lb nc at at' some_class h =
      let start = class_start cfg.layout in
      let first : 4 ≤ start = four cfg.layout in
      let best : best_class S (λ k. at (start + k)) nc ≡ best_class S (λ k. at' (start + k)) nc =
        argmax-ext (λ k. at (start + k)) (λ k. at' (start + k)) (nc - 1) 1 (0, at (start + 0))
          (λ i lt. h (start + i) (omega (arith, lt, some_class)))
        ∙ ap (λ (x : F). argmax S (λ k. at' (start + k)) (nc - 1) 1 (0, x))
            (h (start + 0) (omega (arith, some_class))) in
      rw (h 0 (omega (arith, first))) (
        rw (h 1 (omega (arith, first))) (
          rw (h 2 (omega (arith, first))) (
            rw (h 3 (omega (arith, first)))
              (rw (h 4 (omega (arith, first, some_class))) (rw best refl)))))

  -- decode reads no value outside its tensor: two tensors that agree on the offsets below the product
  -- of the shape decode alike.
  pub decode-reads :
      (sort : (ℕ → ℕ → Bool) → List ℕ → List ℕ) (values values' : ℕ → F) (shape : List ℤ)
      (cfg : DetectConfig S) (lb : LetterboxInfo S)
      → ((o : ℕ) → o < total_of shape → values o ≡ values' o)
      → decode S sort (some values) shape cfg lb ≡ decode S sort (some values') shape cfg lb
  unfolding decode
  decode-reads sort values values' shape cfg lb h =
      elim (Bool-cases (leb_ℤ cfg.num_classes (pos 0))) [
        | inl bad ↦ rw bad refl
        | inr good ↦
            let nc = pos_part cfg.num_classes in
            let attrs = class_start cfg.layout + nc in
            let n = total_of shape / attrs in
            let same : candidates S cfg lb values nc attrs n
                ≡ candidates S cfg lb values' nc attrs n =
              collect-ext _ _ n 0 (λ j lt.
                candidate-ext cfg lb nc (λ a. attribute S cfg values attrs n a j)
                  (λ a. attribute S cfg values' attrs n a j) (positive cfg.num_classes good)
                  (λ a inside. h _ (
                    attribute-inside cfg.channels_first (total_of shape) attrs a j inside
                      (omega (arith, lt))))) in
            rw good (
              ap
                (λ (dets : List (Detection S)).
                  if ltb (total_of shape) attrs
                  then []
                  else suppressed S sort cfg.iou_thresh cfg.max_dets dets)
                same)
      ]
