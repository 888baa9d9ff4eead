-- ===== src/Detect/Flags.antt =====
-- tasks/detection.cc: the flags that the inner loop of nms leaves.
use rcdl.Common.{
  ℕ, ◌≡◌, refl, subst, ◌∙◌, ◌||◌, ◌&&◌, Bool, true, false, Bool-cases, inl, inr, List, [], ◌∷◌,
  ◌==◌, ==_iff, if-both, if◌then◌else◌, arith,
}
use rcdl.Common.Family.{write}
use rcdl.Tracker.Lists.{occurs}
use rcdl.Detect.Nms.{suppress}

-- One step of the inner loop.
flagged : (ℕ → ℕ → Bool) → ℕ → ℕ → (ℕ → Bool) → ℕ → Bool
flagged over i j suppressed =
    if suppressed j then suppressed else if over i j then write suppressed j true else suppressed

flagged-here :
    (over : ℕ → ℕ → Bool) (i j : ℕ) (suppressed : ℕ → Bool)
    → flagged over i j suppressed j ≡ (over i j || suppressed j)
unfolding flagged
flagged-here over i j suppressed = ground arith

flagged-other :
    (over : ℕ → ℕ → Bool) (i j y : ℕ) (suppressed : ℕ → Bool)
    → (j == y) ≡ false
    → flagged over i j suppressed y ≡ suppressed y
unfolding flagged
flagged-other over i j y suppressed ne =
    if-both (λ (s : ℕ → Bool). s y ≡ suppressed y) (suppressed j) refl
      (if-both (λ (s : ℕ → Bool). s y ≡ suppressed y) (over i j) (ground (arith, ne)) refl)

either_way : (o s : Bool) → (o || (o || s)) ≡ (o || s)
either_way true s = refl
either_way false s = refl

-- What the inner loop leaves: an index of the rest is flagged if it was, or if `i` suppresses it.
pub suppress-value :
    (over : ℕ → ℕ → Bool) (i : ℕ) (js : List ℕ) (suppressed : ℕ → Bool) (y : ℕ)
    → suppress over i js suppressed y ≡ ((occurs y js && over i y) || suppressed y)
unfolding suppress occurs flagged
suppress-value over i [] suppressed y = refl
suppress-value over i (j ∷ js) suppressed y =
    let rest = suppress-value over i js (flagged over i j suppressed) y in
    elim (Bool-cases (j == y)) [
      | inl e ↦
          let here : flagged over i j suppressed y ≡ (over i y || suppressed y) =
            subst (λ k. flagged over i j suppressed k ≡ (over i k || suppressed k))
              ((==_iff j y).0 e) (flagged-here over i j suppressed) in
          rest ∙ joined (occurs y js) (over i y) (suppressed y) (j == y) _ e here
      | inr e ↦
          rest
          ∙ apart (occurs y js) (over i y) (suppressed y) (j == y) _ e
              (flagged-other over i j y suppressed e)
    ]
  where
    joined : (o v s b f : Bool) → b ≡ true → f ≡ (v || s) → ((o && v) || f) ≡ (((b || o) && v) || s)
    joined o v s b f e h = ground (arith, e, h)

    apart : (o v s b f : Bool) → b ≡ false → f ≡ s → ((o && v) || f) ≡ (((b || o) && v) || s)
    apart o v s b f e h = ground (arith, e, h)
