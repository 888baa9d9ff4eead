-- ===== src/Detect/Nms.antt =====
-- tasks/detection.cc: nms. std::sort is a parameter: it is given the order that the code asks for and
-- the indices of the detections.
use rcdl.Common.{ℕ, zero, suc, ◌+◌, ◌&&◌, Bool, true, false, List, [], ◌∷◌, if◌then◌else◌}
use rcdl.Common.Int.{ℤ, pos, ltb_ℤ, leb_ℤ}
use rcdl.Common.Family.{write}
use rcdl.Tracker.Scalars.{Scalars}
use rcdl.Tracker.Cost.{box_iou}
use rcdl.Tracker.Boost.{Detection, box_of}

-- std::iota, from `i` on.
unfoldable pub iota : ℕ → ℕ → List ℕ
iota zero i = []
iota (suc n) i = i ∷ iota n (suc i)

-- The inner loop, over the rest of the order: `over i j` tells whether `i` suppresses `j`.
unfoldable pub suppress : (ℕ → ℕ → Bool) → ℕ → List ℕ → (ℕ → Bool) → ℕ → Bool
suppress over i [] suppressed = suppressed
suppress over i (j ∷ js) suppressed =
    suppress over i js (
      if suppressed j then suppressed else if over i j then write suppressed j true else suppressed)

-- `max_dets > 0 && keep.size() >= max_dets`
abbrev pub is_full : ℤ → ℕ → Bool
is_full max_dets kept = ltb_ℤ (pos 0) max_dets && leb_ℤ max_dets (pos kept)

-- The outer loop, with `kept` indices kept so far.
unfoldable pub sweep : (ℕ → ℕ → Bool) → ℤ → List ℕ → (ℕ → Bool) → ℕ → List ℕ
sweep over max_dets [] suppressed kept = []
sweep over max_dets (i ∷ is) suppressed kept =
    let rest : List ℕ = sweep over max_dets is (suppress over i is suppressed) (kept + 1) in
    let skipped : List ℕ = sweep over max_dets is suppressed kept in
    if suppressed i then skipped else i ∷ (if is_full max_dets (kept + 1) then [] else rest)

module _ (S : Scalars) where
  open S use {F}

  -- One class, and an overlap that is too large.
  abbrev pub overlaps : (ℕ → Detection S) → F → ℕ → ℕ → Bool
  overlaps dets iou_thresh i j =
      same (dets j) (dets i) && S.lt iou_thresh (box_iou S (box_of S (dets i)) (box_of S (dets j)))
    where
      same : Detection S → Detection S → Bool
      same a b = leb_ℤ a.class_id b.class_id && leb_ℤ b.class_id a.class_id

  unfoldable pub nms : ((ℕ → ℕ → Bool) → List ℕ → List ℕ) → (ℕ → Detection S) → ℕ → F → ℤ → List ℕ
  nms sort dets n iou_thresh max_dets =
      sweep (overlaps dets iou_thresh) max_dets
        (sort (λ a b. S.lt (dets b).score (dets a).score) (iota n 0)) (λ i. false) 0
