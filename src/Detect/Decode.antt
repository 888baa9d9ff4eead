-- ===== src/Detect/Decode.antt =====
-- tasks/detection.cc: decode, for a head with one tensor. The tensor is a function of the offset.
use rcdl.Common.{
  ℕ, zero, suc, ◌+◌, ◌-◌, ◌*◌, ◌/◌, Bool, true, false, List, [], ◌∷◌, Option, none, some, length,
  get_elem?, ltb, if◌then◌else◌,
}
use rcdl.Common.Int.{ℤ, pos, ltb_ℤ, leb_ℤ, pos_part}
use rcdl.Tracker.Scalars.{Scalars, float_lit, fadd, fsub, fmul, fdiv}
use rcdl.Tracker.Boost.{Detection}
use rcdl.Detect.Nms.{nms}
use rcdl.Detect.Geometry.{LetterboxInfo, float_int, inv_x, inv_y, clamp_x, clamp_y}

pub data DecodeLayout : Type 0 where
  yolo_v8 yolo_v5 : DecodeLayout

abbrev pub has_objectness : DecodeLayout → Bool
has_objectness yolo_v5 = true
has_objectness yolo_v8 = false

-- Where the class scores start.
abbrev pub class_start : DecodeLayout → ℕ
class_start layout = if has_objectness layout then 5 else 4

-- The product of the extents, one for an extent that is not positive.
unfoldable pub total_of : List ℤ → ℕ
total_of [] = 1
total_of (d ∷ shape) = (if ltb_ℤ (pos 0) d then pos_part d else 1) * total_of shape

-- What a loop over `j`, `j + 1`, ... pushes back.
abbrev pub push_back {ℓ} : {A : Type ℓ} → Option A → List A → List A
push_back none rest = rest
push_back (some x) rest = x ∷ rest

abbrev pub collect {ℓ} : {A : Type ℓ} → (ℕ → Option A) → ℕ → ℕ → List A
collect f zero j = []
collect f (suc n) j = push_back (f j) (collect f n (suc j))

-- The entries at the kept indices.
abbrev pub pick {ℓ} : {A : Type ℓ} → List A → List ℕ → List A
pick xs [] = []
pick xs (i ∷ keep) = push_back (get_elem? xs i) (pick xs keep)

module _ (S : Scalars) where
  open S use {F}

  pub record DetectConfig : Type 0 where
    pub num_classes : ℤ
    pub conf_thresh : F
    pub iou_thresh : F
    pub max_dets : ℤ
    pub layout : DecodeLayout
    pub channels_first : Bool
    pub apply_sigmoid : Bool

  unfoldable pub sigmoid : F → F
  sigmoid x =
      fdiv S (float_int S (pos 1)) (fadd S (float_int S (pos 1)) (S.narrow (S.exp (S.neg x))))

  -- The argmax loop, from class `k` on with `n` rounds left.
  unfoldable pub argmax : (ℕ → F) → ℕ → ℕ → ℕ × F → ℕ × F
  argmax v zero k best = best
  argmax v (suc n) k best = argmax v n (suc k) (if S.lt best.1 (v k) then (k, v k) else best)

  -- The first of the best of `nc` scores.
  abbrev pub best_class : (ℕ → F) → ℕ → ℕ × F
  best_class v nc = argmax v (nc - 1) 1 (0, v 0)

  -- `at(a, j)`, of `n` candidates with `attrs` attributes.
  abbrev pub attribute : DetectConfig → (ℕ → F) → ℕ → ℕ → ℕ → ℕ → F
  attribute cfg values attrs n a j =
      values (if cfg.channels_first then a * n + j else j * attrs + a)

  abbrev pub activated : Bool → F → F
  activated apply_sigmoid x = if apply_sigmoid then sigmoid x else x

  -- The score of candidate `j`, from that of its best class; `at` gives its attributes.
  abbrev pub score_of : DetectConfig → (ℕ → F) → F → F
  score_of cfg at raw =
      if has_objectness cfg.layout
      then fmul S (activated cfg.apply_sigmoid (at 4)) (activated cfg.apply_sigmoid raw)
      else activated cfg.apply_sigmoid raw

  -- A box in the model's pixels, in the original image, clamped.
  unfoldable pub detection_of : LetterboxInfo S → F → F → F → F → F → ℕ → Detection S
  unfolding clamp_x clamp_y inv_x inv_y
  detection_of lb mx1 my1 mx2 my2 score k = record {
    x1 = clamp_x S lb (inv_x S lb mx1);
    y1 = clamp_y S lb (inv_y S lb my1);
    x2 = clamp_x S lb (inv_x S lb mx2);
    y2 = clamp_y S lb (inv_y S lb my2);
    score = score;
    class_id = pos k;
  }

  abbrev pub centre_box : LetterboxInfo S → (ℕ → F) → F → ℕ → Detection S
  centre_box lb at score k =
      let half_w = fmul S (at 2) (float_lit S 1 2) in
      let half_h = fmul S (at 3) (float_lit S 1 2) in
      detection_of lb (fsub S (at 0) half_w) (fsub S (at 1) half_h) (fadd S (at 0) half_w)
        (fadd S (at 1) half_h) score k

  -- One candidate: `none` is `continue`.
  abbrev pub candidate : DetectConfig → LetterboxInfo S → ℕ → (ℕ → F) → Option (Detection S)
  candidate cfg lb nc at =
      let best = best_class (λ k. at (class_start cfg.layout + k)) nc in
      let score = score_of cfg at best.1 in
      if S.lt score cfg.conf_thresh then none else some (centre_box lb at score best.0)

  abbrev pub entry : List (Detection S) → ℕ → Detection S
  entry [] i = record {
    x1 = float_int S (pos 0);
    y1 = float_int S (pos 0);
    x2 = float_int S (pos 0);
    y2 = float_int S (pos 0);
    score = float_int S (pos 0);
    class_id = pos 0;
  }
  entry (d ∷ dets) zero = d
  entry (d ∷ dets) (suc i) = entry dets i

  abbrev pub candidates : DetectConfig → LetterboxInfo S → (ℕ → F) → ℕ → ℕ → ℕ → List (Detection S)
  candidates cfg lb values nc attrs n =
      collect (λ j. candidate cfg lb nc (λ a. attribute cfg values attrs n a j)) n 0

  module _ (sort : (ℕ → ℕ → Bool) → List ℕ → List ℕ) where
    -- What nms keeps.
    abbrev pub suppressed : F → ℤ → List (Detection S) → List (Detection S)
    suppressed iou_thresh max_dets dets =
        pick dets (nms S sort (entry dets) (length dets) iou_thresh max_dets)

    abbrev pub decode_values :
        DetectConfig → LetterboxInfo S → (ℕ → F) → ℕ → ℕ → ℕ → List (Detection S)
    decode_values cfg lb values nc attrs total =
        if ltb total attrs
        then []
        else suppressed cfg.iou_thresh cfg.max_dets
            (candidates cfg lb values nc attrs (total / attrs))

    -- A null pointer is `none`; a class count that is not positive gives nothing either.
    unfoldable pub decode :
        Option (ℕ → F) → List ℤ → DetectConfig → LetterboxInfo S → List (Detection S)
    unfolding detection_of sigmoid argmax total_of nms
    decode none shape cfg lb = []
    decode (some values) shape cfg lb =
        let nc = pos_part cfg.num_classes in
        if leb_ℤ cfg.num_classes (pos 0)
        then []
        else decode_values cfg lb values nc (class_start cfg.layout + nc) (total_of shape)
