-- ===== src/Detect/DecodeExamples.antt =====
-- tasks/detection.cc: decode on a tensor of two candidates of two classes, one of them confident.
use rcdl.Common.{
  ℕ, zero, suc, ◌+◌, ◌*◌, ◌≡◌, refl, true, false, List, [], ◌∷◌, some, get_elem?, ltb, ltb→lt,
  lt→ltb, arith, if◌then◌else◌, ap, ◌∙◌,
}
use rcdl.Common.Int.{ℤ, pos, ltb_ℤ, pos_part, neg_part}
use rcdl.Tracker.Numbers.{Number, hundredths, huge, nan, ones, numbers}
use rcdl.Tracker.Boost.{Detection}
use rcdl.Tracker.Cost.{box_iou}
use rcdl.Detect.Nms.{nms, sweep, suppress, iota}
use rcdl.Detect.Geometry.{LetterboxInfo, inv_x, inv_y, clamp_x, clamp_y}
use rcdl.Detect.Decode.{
  yolo_v8, DetectConfig, attribute, total_of, argmax, detection_of, sigmoid, decode,
}
use rcdl.Detect.Candidates.{Less, IsCandidate, decode-IsCandidate}
use rcdl.Detect.Reads.{decode-reads}
use rcdl.Detect.Ltrb.{YoloLtrbConfig, decode_yolo_ltrb}
use rcdl.Detect.Prefilter.{AllSums, decode_yolo_ltrb-sums}
use rcdl.Detect.Examples.{sorted}

ltb_ℤ_trans : (x y z : ℤ) → ltb_ℤ x y ≡ true → ltb_ℤ y z ≡ true → ltb_ℤ x z ≡ true
ltb_ℤ_trans x y z h k = lt→ltb (pos_part x + neg_part z) (pos_part z + neg_part x) (
    omega (
      arith,
      ltb→lt (pos_part x + neg_part y) (pos_part y + neg_part x) h,
      ltb→lt (pos_part y + neg_part z) (pos_part z + neg_part y) k,
    ))

ltb_same : (a : ℕ) → ltb a a ≡ false
ltb_same a = ground arith

numbers_irreflexive : (a : Number) → numbers.lt a a ≡ false
numbers_irreflexive (hundredths x) = ltb_same (pos_part x + neg_part x)
numbers_irreflexive huge = refl
numbers_irreflexive nan = refl

numbers_trans :
    (a b c : Number) → numbers.lt a b ≡ true → numbers.lt b c ≡ true → numbers.lt a c ≡ true
numbers_trans (hundredths x) (hundredths y) (hundredths z) h k = ltb_ℤ_trans x y z h k
numbers_trans (hundredths x) (hundredths y) huge h k = refl
numbers_trans (hundredths x) (hundredths y) nan h k = cc
numbers_trans (hundredths x) huge c h k = cc
numbers_trans (hundredths x) nan c h k = cc
numbers_trans huge b c h k = cc
numbers_trans nan b c h k = cc

numbers-Less : Less numbers
numbers-Less = record { irreflexive = numbers_irreflexive; transitive = numbers_trans }

abbrev config : DetectConfig numbers
config = record {
  num_classes = pos 2;
  conf_thresh = ones 25;
  iou_thresh = ones 45;
  max_dets = pos 300;
  layout = yolo_v8;
  channels_first = false;
  apply_sigmoid = false;
}

-- Two rows of six attributes: a box and two scores.
abbrev tensor : List ℕ
tensor = 5000 ∷ 4000 ∷ 2000 ∷ 1000 ∷ 30 ∷ 80 ∷ 5000 ∷ 4000 ∷ 2000 ∷ 1000 ∷ 10 ∷ 20 ∷ []

abbrev nth : List ℕ → ℕ → ℕ
nth [] i = 0
nth (x ∷ xs) zero = x
nth (x ∷ xs) (suc i) = nth xs i

abbrev values : ℕ → Number
values o = ones (nth tensor o)

abbrev shape : List ℤ
shape = pos 1 ∷ pos 2 ∷ pos 6 ∷ []

abbrev square : LetterboxInfo numbers
square = record {
  scale = ones 100;
  pad_x = ones 0;
  pad_y = ones 0;
  src_w = pos 100;
  src_h = pos 100;
  dst_w = pos 100;
  dst_h = pos 100;
}

abbrev found : Detection numbers
found = record {
  x1 = ones 4000;
  y1 = ones 3500;
  x2 = ones 6000;
  y2 = ones 4500;
  score = ones 80;
  class_id = pos 1;
}

decodes : get_elem? (decode numbers sorted (some values) shape config square) 0 ≡ some found
unfolding decode nms sweep suppress iota box_iou detection_of clamp_x clamp_y inv_x inv_y argmax
    total_of sigmoid
decodes = refl

decode-IsCandidate_example :
    (j : ℕ) × IsCandidate numbers config square 2 2 j
      (λ a. attribute numbers config values 6 2 a j)
      found
unfolding total_of
decode-IsCandidate_example =
    decode-IsCandidate numbers numbers-Less sorted values shape config square 0 decodes

-- Past its end the memory holds something else.
abbrev longer : ℕ → Number
longer o = if ltb o 12 then values o else huge

decode-reads_example :
    decode numbers sorted (some values) shape config square
    ≡ decode numbers sorted (some longer) shape config square
unfolding total_of
decode-reads_example =
    decode-reads numbers sorted values longer shape config square (λ o lt. rw (lt→ltb o 12 lt) refl)

abbrev ltrb : YoloLtrbConfig numbers
ltrb = record {
  num_classes = pos 1;
  strides = pos 8 ∷ [];
  conf_thresh = ones 25;
  iou_thresh = ones 45;
  max_dets = pos 300;
  apply_sigmoid = false;
  channels_first = false;
  reg_max = pos 0;
}

-- A grid of two cells, of which the first is confident.
abbrev scores : ℕ → Number
scores zero = ones 80
scores (suc o) = ones 10

abbrev grid : List (ℤ × ℤ)
grid = (pos 1, pos 2) ∷ []

scores-AllSums : AllSums numbers numbers-Less ltrb (some scores ∷ []) grid (some scores ∷ [])
scores-AllSums = (
  λ cell inside low k first.
      let same : cell * 1 + k ≡ cell = omega (arith, first) in
      ap (λ (o : ℕ). numbers.lt (scores o) (ones 25)) same ∙ low,
  tt,
)

decode_yolo_ltrb-sums_example :
    decode_yolo_ltrb numbers sorted ltrb square
      (some scores ∷ [])
      (some scores ∷ [])
      grid
      (some scores ∷ [])
    ≡ decode_yolo_ltrb numbers sorted ltrb square (some scores ∷ []) (some scores ∷ []) grid []
decode_yolo_ltrb-sums_example =
    decode_yolo_ltrb-sums numbers numbers-Less ltrb sorted square (some scores ∷ [])
      (some scores ∷ []) grid (some scores ∷ []) refl scores-AllSums
