-- ===== src/Detect/Ltrb.antt =====
-- tasks/detection.cc: decodeYoloLtrb, for heads with a class and a box tensor at each scale.
use rcdl.Common.{
  ℕ, zero, suc, ◌+◌, ◌-◌, ◌*◌, Bool, false, ◌&&◌, ◌||◌, List, [], ◌∷◌, ◌++◌, Option, none, some,
  length, ◌==◌, if◌then◌else◌, Result, ok, ◌>>◌, require,
}
use rcdl.Common.Int.{ℤ, pos, ltb_ℤ, leb_ℤ, pos_part}
use rcdl.Tracker.Scalars.{Scalars, max_of, float_lit, fadd, fsub, fmul, fdiv}
use rcdl.Tracker.Boost.{Detection}
use rcdl.Detect.Nms.{nms}
use rcdl.Detect.Geometry.{LetterboxInfo, float_int}
use rcdl.Detect.Decode.{collect, best_class, activated, detection_of, suppressed}

pub data LtrbError : Type 0 where
  length_mismatch no_classes bad_reg_max : LtrbError

-- What the cells of one scale push back, row by row from row `y` on.
abbrev pub collect_rows {ℓ} : {A : Type ℓ} → (ℕ → ℕ → Option A) → ℕ → ℕ → ℕ → List A
collect_rows f w zero y = []
collect_rows f w (suc h) y = collect (f y) w 0 ++ collect_rows f w h (suc y)

module _ (S : Scalars) where
  open S use {F}

  pub record YoloLtrbConfig : Type 0 where
    pub num_classes : ℤ
    pub strides : List ℤ
    pub conf_thresh : F
    pub iou_thresh : F
    pub max_dets : ℤ
    pub apply_sigmoid : Bool
    pub channels_first : Bool
    pub reg_max : ℤ

  -- A tensor; `none` is a null pointer.
  abbrev pub Tensor : Type 0
  Tensor = Option (ℕ → F)

  -- The largest of `v 0`, `v k`, ..., with `n` rounds left.
  unfoldable pub largest_from : (ℕ → F) → ℕ → ℕ → F → F
  largest_from v zero k top = top
  largest_from v (suc n) k top = largest_from v n (suc k) (max_of S top (v k))

  -- The two sums of the softmax loop, from bin `b` on.
  unfoldable pub softmax_sums : (ℕ → F) → F → ℕ → ℕ → F × F → F × F
  softmax_sums v top zero b (sum, acc) = (sum, acc)
  softmax_sums v top (suc n) b (sum, acc) =
      let e = S.narrow (S.exp (fsub S (v b) top)) in
      softmax_sums v top n (suc b) (fadd S sum e, fadd S acc (fmul S e (float_int S (pos b))))

  abbrev pub ratio : F × F → F
  ratio (sum, acc) = if S.lt (float_int S (pos 0)) sum then fdiv S acc sum else float_int S (pos 0)

  -- The expectation of a side's `reg` bins.
  abbrev pub dfl : (ℕ → F) → ℕ → F
  dfl v reg = ratio (
      softmax_sums v (largest_from v (reg - 1) 1 (v 0)) reg 0
        (float_int S (pos 0), float_int S (pos 0)))

  -- The distance of one side; `at c` is channel `c` of the cell's box.
  abbrev pub distance : ℕ → (ℕ → F) → ℕ → F
  distance zero at side = at side
  distance (suc r) at side = dfl (λ b. at (side * suc r + b)) (suc r)

  abbrev pub box_channels : ℕ → ℕ
  box_channels zero = 4
  box_channels (suc r) = 4 * suc r

  -- Channel `c` of a cell, of `channels`.
  abbrev pub channel : Bool → (ℕ → F) → ℕ → ℕ → ℕ → ℕ → F
  channel channels_first values plane channels cell c =
      values (if channels_first then cell + c * plane else cell * channels + c)

  abbrev pub ltrb_box : LetterboxInfo S → (ℕ → F) → ℕ → ℕ → F → F → ℕ → Detection S
  ltrb_box lb d gx gy stride score k =
      let cx = fadd S (float_int S (pos gx)) (float_lit S 1 2) in
      let cy = fadd S (float_int S (pos gy)) (float_lit S 1 2) in
      detection_of S lb (fmul S (fsub S cx (d 0)) stride) (fmul S (fsub S cy (d 1)) stride)
        (fmul S (fadd S cx (d 2)) stride) (fmul S (fadd S cy (d 3)) stride) score k

  -- What follows the pre-filter: `none` is `continue`.
  abbrev pub ltrb_cell :
      YoloLtrbConfig → LetterboxInfo S → (ℕ → F) → (ℕ → F) → ℕ → ℕ → F → Option (Detection S)
  ltrb_cell cfg lb logits at gx gy stride =
      let best = best_class S logits (pos_part cfg.num_classes) in
      let score = activated S cfg.apply_sigmoid best.1 in
      if S.lt score cfg.conf_thresh
      then none
      else some (ltrb_box lb (distance (pos_part cfg.reg_max) at) gx gy stride score best.0)

  -- The pre-filter by the score sum, if there is one.
  abbrev pub prefiltered : YoloLtrbConfig → Tensor → ℕ → Bool
  prefiltered cfg none cell = false
  prefiltered cfg (some sums) cell = S.lt (sums cell) cfg.conf_thresh

  -- The class scores of a cell.
  abbrev pub logits_of : YoloLtrbConfig → (ℕ → F) → ℕ → ℕ → ℕ → F
  logits_of cfg cp plane cell = channel cfg.channels_first cp plane (pos_part cfg.num_classes) cell

  abbrev pub scale_detections :
      YoloLtrbConfig → LetterboxInfo S → (ℕ → F) → (ℕ → F) → Tensor → ℕ → ℕ → F → List (Detection S)
  scale_detections cfg lb cp bp sums h w stride =
      collect_rows
        (λ gy gx.
          if prefiltered cfg sums (gy * w + gx)
          then none
          else ltrb_cell cfg lb (logits_of cfg cp (h * w) (gy * w + gx))
              (channel cfg.channels_first bp (h * w) (box_channels (pos_part cfg.reg_max))
                (gy * w + gx))
              gx gy stride)
        w h 0

  -- One scale; one with a null pointer or an empty grid is skipped.
  abbrev pub scale :
      YoloLtrbConfig → LetterboxInfo S → Tensor → Tensor → Tensor → ℤ × ℤ → ℤ → List (Detection S)
  scale cfg lb none box sums grid stride = []
  scale cfg lb (some cp) none sums grid stride = []
  scale cfg lb (some cp) (some bp) sums (h, w) stride =
      if leb_ℤ h (pos 0) || leb_ℤ w (pos 0)
      then []
      else scale_detections cfg lb cp bp sums (pos_part h) (pos_part w) (float_int S stride)

  -- `score_sum[s]`, or null where there is none.
  abbrev pub first_sum : List Tensor → Tensor
  first_sum [] = none
  first_sum (t ∷ sums) = t

  abbrev pub later_sums : List Tensor → List Tensor
  later_sums [] = []
  later_sums (t ∷ sums) = sums

  -- The loop over the scales, of four lists of one length.
  abbrev pub scales :
      YoloLtrbConfig
      → LetterboxInfo S
      → List Tensor
      → List Tensor
      → List (ℤ × ℤ)
      → List ℤ
      → List Tensor
      → List (Detection S)
  scales cfg lb (c ∷ cls) (b ∷ box) (g ∷ grids) (t ∷ strides) sums =
      scale cfg lb c b (first_sum sums) g t ++ scales cfg lb cls box grids strides (later_sums sums)
  scales cfg lb [] box grids strides sums = []
  scales cfg lb (c ∷ cls) [] grids strides sums = []
  scales cfg lb (c ∷ cls) (b ∷ box) [] strides sums = []
  scales cfg lb (c ∷ cls) (b ∷ box) (g ∷ grids) [] sums = []

  module _ (sort : (ℕ → ℕ → Bool) → List ℕ → List ℕ) where
    unfoldable pub decode_yolo_ltrb :
        YoloLtrbConfig
        → LetterboxInfo S
        → List Tensor
        → List Tensor
        → List (ℤ × ℤ)
        → List Tensor
        → Result LtrbError (List (Detection S))
    unfolding nms detection_of largest_from softmax_sums
    decode_yolo_ltrb cfg lb cls box grid_hw score_sum =
        require
          (length cls == length grid_hw
            && (length box == length grid_hw && length cfg.strides == length grid_hw))
          length_mismatch
        >> (require (ltb_ℤ (pos 0) cfg.num_classes) no_classes
            >> (require (leb_ℤ (pos 0) cfg.reg_max) bad_reg_max
                >> ok (
                    suppressed S sort cfg.iou_thresh cfg.max_dets
                      (scales cfg lb cls box grid_hw cfg.strides score_sum))))
