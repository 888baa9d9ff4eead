-- ===== src/Detect/Examples.antt =====
-- tasks/detection.cc: nms on four boxes of two classes.
use rcdl.Common.{ℕ, zero, suc, ◌+◌, ◌*◌, ◌≡◌, refl, Bool, List, [], ◌∷◌, if◌then◌else◌}
use rcdl.Common.Int.{pos}
use rcdl.Tracker.Numbers.{ones, numbers}
use rcdl.Tracker.Boost.{Detection}
use rcdl.Tracker.Cost.{box_iou}
use rcdl.Detect.Nms.{iota, suppress, sweep, overlaps, nms}
use rcdl.Detect.Greedy.{at_most, greedy, nms-greedy}

abbrev insert : (ℕ → ℕ → Bool) → ℕ → List ℕ → List ℕ
insert before x [] = x ∷ []
insert before x (y ∷ ys) =
    let rest : List ℕ = insert before x ys in if before x y then x ∷ y ∷ ys else y ∷ rest

abbrev pub sorted : (ℕ → ℕ → Bool) → List ℕ → List ℕ
sorted before [] = []
sorted before (x ∷ xs) = insert before x (sorted before xs)

abbrev box : ℕ → ℕ → ℕ → Detection numbers
box x score class = record {
  x1 = ones (100 * x);
  y1 = ones 0;
  x2 = ones (100 * (x + 10));
  y2 = ones 1000;
  score = ones score;
  class_id = pos class;
}

abbrev boxes : ℕ → Detection numbers
boxes zero = box 1 60 0
boxes (suc zero) = box 0 90 0
boxes (suc (suc zero)) = box 2 70 1
boxes _ = box 30 50 0

kept : nms numbers sorted boxes 4 (ones 45) (pos 300) ≡ 1 ∷ 2 ∷ 3 ∷ []
unfolding nms sweep suppress iota box_iou
kept = refl

nms-greedy_example :
    nms numbers sorted boxes 4 (ones 45) (pos 2)
    ≡ at_most (pos 2) (
        greedy
          (overlaps numbers boxes (ones 45))
          []
          (sorted (λ a b. numbers.lt (boxes b).score (boxes a).score) (iota 4 0)))
nms-greedy_example = nms-greedy numbers sorted boxes 4 (ones 45) (pos 2)
