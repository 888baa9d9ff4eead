-- ===== src/Detect/Greedy.antt =====
-- tasks/detection.cc: nms keeps what a greedy selection keeps, and no more than it may.
use rcdl.Common.{
  ℕ, zero, suc, ◌+◌, ◌-◌, ◌≡◌, refl, sym, ap, subst, ◌∙◌, ◌||◌, Bool, true, false, List, [], ◌∷◌,
  if-split, if◌then◌else◌, arith,
}
use rcdl.Tracker.Lists.{occurs}
use rcdl.Common.Int.{ℤ, pos, negsuc}
use rcdl.Tracker.Scalars.{Scalars}
use rcdl.Tracker.Boost.{Detection}
use rcdl.Detect.Nms.{suppress, is_full, sweep, iota, overlaps, nms}
use rcdl.Detect.Flags.{suppress-value}

-- Whether one of `kept` suppresses `x`.
abbrev pub any_over : (ℕ → ℕ → Bool) → List ℕ → ℕ → Bool
any_over over [] x = false
any_over over (k ∷ ks) x = over k x || any_over over ks x

-- The selection: first to last, an index stays if none that stayed suppresses it.
unfoldable pub greedy : (ℕ → ℕ → Bool) → List ℕ → List ℕ → List ℕ
greedy over kept [] = []
greedy over kept (i ∷ is) =
    let stays : List ℕ = greedy over (i ∷ kept) is in
    let goes : List ℕ = greedy over kept is in if any_over over kept i then goes else i ∷ stays

abbrev pub take : ℕ → List ℕ → List ℕ
take zero xs = []
take (suc n) [] = []
take (suc n) (x ∷ xs) = x ∷ take n xs

-- At most `m` of them, if `m` is positive.
abbrev pub at_most : ℤ → List ℕ → List ℕ
at_most (pos zero) xs = xs
at_most (pos (suc m)) xs = take (suc m) xs
at_most (negsuc m) xs = xs

-- The flags of the rest of the order say what the selection says.
Agrees : (ℕ → ℕ → Bool) → List ℕ → (ℕ → Bool) → List ℕ → Type 0
Agrees over kept suppressed rest =
    (x : ℕ) → occurs x rest ≡ true → suppressed x ≡ any_over over kept x

later-Agrees :
    (over : ℕ → ℕ → Bool) (kept : List ℕ) (suppressed : ℕ → Bool) (i : ℕ) (is : List ℕ)
    → Agrees over kept suppressed (i ∷ is)
    → Agrees over kept suppressed is
unfolding occurs Agrees
later-Agrees over kept suppressed i is h x inside = h x (ground (arith, inside))

suppress-Agrees :
    (over : ℕ → ℕ → Bool) (kept : List ℕ) (suppressed : ℕ → Bool) (i : ℕ) (is : List ℕ)
    → Agrees over kept suppressed (i ∷ is)
    → Agrees over (i ∷ kept) (suppress over i is suppressed) is
unfolding occurs Agrees
suppress-Agrees over kept suppressed i is h x inside =
    let here : suppressed x ≡ any_over over kept x = h x (ground (arith, inside)) in
    suppress-value over i is suppressed x ∙ rw (inside, here) refl

first-Agrees :
    (over : ℕ → ℕ → Bool) (kept : List ℕ) (suppressed : ℕ → Bool) (i : ℕ) (is : List ℕ)
    → Agrees over kept suppressed (i ∷ is)
    → suppressed i ≡ any_over over kept i
unfolding occurs Agrees
first-Agrees over kept suppressed i is h = h i (ground arith)

-- How many more may be kept, with `k` kept so far.
abbrev more : ℤ → ℕ → List ℕ → List ℕ
more max_dets k xs = elim max_dets [
  | pos zero ↦ xs
  | pos (suc m) ↦ take (suc m - k) xs
  | negsuc m ↦ xs
]

unlimited : (m k : ℕ) → is_full (negsuc m) k ≡ false
unlimited m k = ground arith

more-none : (max_dets : ℤ) (k : ℕ) → [] ≡ more max_dets k []
more-none (pos zero) k = refl
more-none (negsuc m) k = refl
more-none (pos (suc m)) k = take-none (suc m - k)
  where
    take-none : (n : ℕ) → [] ≡ take n []
    take-none zero = refl
    take-none (suc n) = refl

more-kept :
    (max_dets : ℤ) (k i : ℕ) (xs : List ℕ)
    → is_full max_dets k ≡ false
    → (i ∷ (if is_full max_dets (k + 1) then [] else more max_dets (k + 1) xs))
      ≡ more max_dets k (i ∷ xs)
more-kept (pos zero) k i xs room = refl
more-kept (negsuc m) k i xs room = ap (λ b. i ∷ (if b then [] else xs)) (unlimited m (k + 1))
more-kept (pos (suc m)) k i xs room =
    let left : suc m - k ≡ suc (suc m - (k + 1)) = ground (arith, room) in
    subst
      (λ n.
        (i ∷ (if is_full (pos (suc m)) (k + 1) then [] else take (suc m - (k + 1)) xs))
        ≡ take n (i ∷ xs))
      (sym left)
      (ap (λ ys. i ∷ ys)
        (if-split (λ ys. ys ≡ take (suc m - (k + 1)) xs) (is_full (pos (suc m)) (k + 1))
          (λ full.
            let none_left : suc m - (k + 1) ≡ 0 = ground (arith, full) in
            subst (λ n. [] ≡ take n xs) (sym none_left) refl)
          (λ room'. refl)))

-- Two conditionals under one test.
if-both_sides :
    (b : Bool) (w x y z : List ℕ) (g : List ℕ → List ℕ)
    → w ≡ g y
    → x ≡ g z
    → (if b then w else x) ≡ g (if b then y else z)
if-both_sides true w x y z g h k = h
if-both_sides false w x y z g h k = k

unless-full :
    (b : Bool) (i : ℕ) (x y : List ℕ)
    → (b ≡ false → x ≡ y)
    → (i ∷ (if b then [] else x)) ≡ (i ∷ (if b then [] else y))
unless-full true i x y h = refl
unless-full false i x y h = ap (λ ys. i ∷ ys) (h refl)

sweep-greedy :
    (over : ℕ → ℕ → Bool) (max_dets : ℤ) (order kept : List ℕ) (suppressed : ℕ → Bool) (k : ℕ)
    → is_full max_dets k ≡ false
    → Agrees over kept suppressed order
    → sweep over max_dets order suppressed k ≡ more max_dets k (greedy over kept order)
unfolding sweep greedy
sweep-greedy over max_dets [] kept suppressed k room h = more-none max_dets k
sweep-greedy over max_dets (i ∷ is) kept suppressed k room h =
    let skipped =
      sweep-greedy over max_dets is kept suppressed k room
        (later-Agrees over kept suppressed i is h) in
    let taken = unless-full (is_full max_dets (k + 1)) i _ _ (λ room'.
      sweep-greedy over max_dets is (i ∷ kept) (suppress over i is suppressed) (k + 1) room'
        (suppress-Agrees over kept suppressed i is h)) in
    subst
      (λ b.
        sweep over max_dets (i ∷ is) suppressed k
        ≡ more max_dets k (if b then greedy over kept is else i ∷ greedy over (i ∷ kept) is))
      (first-Agrees over kept suppressed i is h)
      (if-both_sides (suppressed i) _ _ _ _ (more max_dets k) skipped
        (taken ∙ more-kept max_dets k i _ room))

more-at_most : (max_dets : ℤ) (xs : List ℕ) → more max_dets 0 xs ≡ at_most max_dets xs
more-at_most (pos zero) xs = refl
more-at_most (pos (suc m)) xs = let all : suc m - 0 ≡ suc m = omega arith in ap (λ n. take n xs) all
more-at_most (negsuc m) xs = refl

-- Whatever order std::sort gives, nms keeps the first `max_dets` (all, if that is not positive) of a
-- greedy selection in that order: an index stays if none that stayed before it is of its class and
-- overlaps it too much.
pub nms-greedy :
    (S : Scalars) (sort : (ℕ → ℕ → Bool) → List ℕ → List ℕ) (dets : ℕ → Detection S) (n : ℕ)
    (iou_thresh : S.F) (max_dets : ℤ)
    → nms S sort dets n iou_thresh max_dets
      ≡ at_most max_dets (
          greedy
            (overlaps S dets iou_thresh)
            []
            (sort (λ a b. S.lt (dets b).score (dets a).score) (iota n 0)))
unfolding nms Agrees
nms-greedy S sort dets n iou_thresh max_dets =
    sweep-greedy (overlaps S dets iou_thresh) max_dets
      (sort (λ a b. S.lt (dets b).score (dets a).score) (iota n 0)) [] (λ i. false) 0
      (empty max_dets) (λ x inside. refl)
    ∙ more-at_most max_dets _
  where
    empty : (m : ℤ) → is_full m 0 ≡ false
    empty (pos zero) = refl
    empty (pos (suc m)) = ground arith
    empty (negsuc m) = ground arith
