-- ===== src/Tracker/Solver/Trail.antt =====
-- tracks/byte_tracker.cc: the second loop of linearAssignment, which follows a path back. Over n
-- columns and column 0 it ends within n + 1 rounds or not at all.
use rcdl.Common.{
  ℕ, zero, suc, ◌+◌, ◌≤◌, ◌≡◌, ◌≢◌, ◌⊎◌, refl, ap, sym, ◌∙◌, subst, inl, inr, Bool, true, false,
  not, Option, none, ◌==◌, ==_iff, ==_false, Bool-cases, if-split, arith,
}
use rcdl.Common.Family.{bit, write, passing, passing-le, passing-write}
use rcdl.Tracker.Solver.{augment}

two_values : (b : Bool) → b ≡ true → b ≡ false → ⊥
two_values b y n = cc

-- If the path comes to a set of columns that `way` does not leave, and column 0 is none of them, the
-- loop takes more rounds than any number of them.
augment-trapped :
    (fuel : ℕ) (way p : ℕ → ℕ) (inside : ℕ → Bool) (j : ℕ)
    → ((k : ℕ) → inside k ≡ true → inside (way k) ≡ true)
    → inside 0 ≡ false
    → inside j ≡ true
    → augment fuel way p j ≡ none
unfolding augment
augment-trapped zero way p inside j stays out here = refl
augment-trapped (suc fuel) way p inside j stays out here =
    if-split (λ (o : Option (ℕ → ℕ)). o ≡ none) (way j == 0)
      (λ z. absurd (
        two_values (inside 0) (subst (λ k. inside k ≡ true) ((==_iff (way j) 0).0 z) (stays j here))
          out))
      (λ nz. augment-trapped fuel way _ inside (way j) stays out (stays j here))

-- The columns that the path has passed: it comes to `j`, which is not one of them.
record Passed (n : ℕ) (way : ℕ → ℕ) (passed : ℕ → Bool) (j : ℕ) : Type 0 where
  small : j ≤ n
  positive : j ≢ 0
  fresh : passed j ≡ false
  zero_out : passed 0 ≡ false
  leads : (k : ℕ) → passed k ≡ true → (passed (way k) ≡ true) ⊎ (way k ≡ j)

write_more : (f : ℕ → Bool) (j k : ℕ) → f k ≡ true → write f j true k ≡ true
write_more f j k h = ground (arith, h)

write_here : (f : ℕ → Bool) (j : ℕ) → write f j true j ≡ true
write_here f j = ground arith

module _ (n : ℕ) (way : ℕ → ℕ) (passed : ℕ → Bool) (j : ℕ) (h : Passed n way passed j) where
  leads_on :
      (k : ℕ)
      → write passed j true k ≡ true
      → (write passed j true (way k) ≡ true) ⊎ (way k ≡ way j)
  leads_on k y = elim (Bool-cases (k == j)) [
    | inl same ↦ inr (ap way ((==_iff k j).0 same))
    | inr other ↦ elim (h.leads k (ground (arith, y, other))) [
      | inl old ↦ inl (write_more passed j (way k) old)
      | inr now ↦ inl (subst (λ i. write passed j true i ≡ true) (sym now) (write_here passed j))
    ]
  ]

  still_out : write passed j true 0 ≡ false
  still_out = ground (arith, h.positive, h.zero_out)

  fewer : 1 + passing not (suc n) (write passed j true) ≡ passing not (suc n) passed
  fewer =
      let e = passing-write not passed j true (suc n) (omega (arith, h.small)) in
      let one : bit (not (passed j)) ≡ 1 = ap (λ b. bit (not b)) h.fresh in omega (arith, e, one)

no_end :
    (fuel : ℕ) (way p : ℕ → ℕ) (j : ℕ) → (way j == 0) ≡ true → augment (suc fuel) way p j ≡ none → ⊥
unfolding augment
no_end fuel way p j z = rw z (λ e. cc)

round_on :
    (fuel : ℕ) (way p : ℕ → ℕ) (j : ℕ)
    → way j ≢ 0
    → augment (suc fuel) way p j ≡ augment fuel way (write p j (p (way j))) (way j)
unfolding augment
round_on fuel way p j nz =
    if-split (λ (o : Option (ℕ → ℕ)). o ≡ augment fuel way (write p j (p (way j))) (way j))
      (way j == 0) (λ z. absurd (nz ((==_iff (way j) 0).0 z))) (λ f. refl)

augment-endless_after :
    (fuel : ℕ) (way q : ℕ → ℕ) (j : ℕ)
    → way j ≢ 0
    → ((f : ℕ) (p : ℕ → ℕ) → augment f way p (way j) ≡ none)
    → augment fuel way q j ≡ none
unfolding augment
augment-endless_after zero way q j nz rest = refl
augment-endless_after (suc fuel) way q j nz rest = round_on fuel way q j nz ∙ rest fuel _

augment-missing :
    (fuel : ℕ) (way p : ℕ → ℕ) (j : ℕ)
    → augment (suc fuel) way p j ≡ none
    → (way j ≢ 0) × (augment fuel way (write p j (p (way j))) (way j) ≡ none)
augment-missing fuel way p j h = elim (Bool-cases (way j == 0)) [
  | inl z ↦ absurd (no_end fuel way p j z h)
  | inr f ↦ let nz : way j ≢ 0 = ==_false (way j) 0 f in (nz, sym (round_on fuel way p j nz) ∙ h)
]

-- With as many rounds as columns are left, a path that has not ended has no end: it has come to
-- a column that it passed before.
augment-Passed :
    (m n : ℕ) (way p : ℕ → ℕ) (passed : ℕ → Bool) (j : ℕ)
    → ((k : ℕ) → way k ≤ n)
    → Passed n way passed j
    → passing not (suc n) passed ≤ m
    → augment m way p j ≡ none
    → (fuel : ℕ) (q : ℕ → ℕ) → augment fuel way q j ≡ none
augment-Passed zero n way p passed j small h few e fuel q =
    absurd (omega (arith, fewer n way passed j h, few))
augment-Passed (suc m) n way p passed j small h few e fuel q =
    let (nz, rest) = augment-missing m way p j e in
    elim (Bool-cases (write passed j true (way j))) [
      | inl again ↦
          augment-trapped fuel way q (write passed j true) j
            (λ k y. elim (leads_on n way passed j h k y) [
              | inl inside ↦ inside
              | inr next ↦ subst (λ i. write passed j true i ≡ true) (sym next) again
            ])
            (still_out n way passed j h) (write_here passed j)
      | inr new ↦ augment-endless_after fuel way q j nz (
          augment-Passed m n way _ (write passed j true) (way j) small
            (record {
              small = small j;
              positive = nz;
              fresh = new;
              zero_out = still_out n way passed j h;
              leads = leads_on n way passed j h;
            })
            (omega (arith, fewer n way passed j h, few)) rest)
    ]

-- Over columns up to n, a path from a positive one that has not ended after n + 1 rounds never ends.
pub augment-endless :
    (n : ℕ) (way p : ℕ → ℕ) (j : ℕ)
    → ((k : ℕ) → way k ≤ n)
    → j ≤ n
    → j ≢ 0
    → augment (n + 1) way p j ≡ none
    → (fuel : ℕ) (q : ℕ → ℕ) → augment fuel way q j ≡ none
augment-endless n way p j small le nz e =
    augment-Passed (n + 1) n way p (λ k. false) j small
      (record { small = le; positive = nz; fresh = refl; zero_out = refl; leads = λ k y. cc })
      (omega (arith, passing-le not (suc n) (λ k. false))) e
