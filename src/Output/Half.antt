-- ===== src/Output/Half.antt =====
-- backend/output_reader.cc: floatToHalf and halfToFloat, on the bits of the two formats. The fields
-- that the code joins by `|` do not overlap, so they are added here.
use rcdl.Common.{
  ℕ, zero, suc, ◌+◌, ◌-◌, ◌*◌, ◌/◌, ◌%◌, ◌^◌, ◌<◌, ◌≡◌, refl, subst, ◌∙◌, inl, inr, Bool, true,
  false, not, ◌&&◌, ◌||◌, ltb, leb, ◌==◌, ==_iff, ==_false, Bool-cases, if◌then◌else◌, arith,
  dec_lt, dec_le, ℕ_discrete,
}

-- The increment of round-to-nearest-even.
unfoldable pub round_up : ℕ → ℕ → ℕ → ℕ
round_up rem half out = if ltb half rem || (rem == half && out % 2 == 1) then 1 else 0

-- `exp` is the field minus 112, so `exp <= 0` is `field <= 112`, and so on.
abbrev pub half_of : ℕ → ℕ → ℕ → ℕ
half_of sign field mant =
    if field == 255
    then sign + 31744 + (if mant == 0 then 0 else 512)
    else if leb 143 field
    then sign + 31744
    else if leb field 112
    then (if ltb field 102
        then sign
        else let shift = 126 - field in
          let full = mant + 2 ^ 23 in
          sign
          + (full / 2 ^ shift + round_up (full % 2 ^ shift) (2 ^ (shift - 1)) (full / 2 ^ shift)))
    else let out = (field - 112) * 2 ^ 10 + mant / 2 ^ 13 in
      sign + (out + round_up (mant % 2 ^ 13) 4096 out)

unfoldable pub float_to_half : ℕ → ℕ
float_to_half x = half_of ((x / 2 ^ 31) % 2 * 2 ^ 15) ((x / 2 ^ 23) % 256) (x % 2 ^ 23) % 2 ^ 16

-- The do-while loop of a subnormal: `e` before the round, with `k` rounds left.
unfoldable pub normalise : ℕ → ℕ → ℕ → ℕ × ℕ
normalise zero e mant = (e, mant)
normalise (suc k) e mant =
    let rest = normalise k (suc e) (mant * 2) in
    if (mant * 2 / 1024) % 2 == 1 then (e, mant * 2) else rest

abbrev pub subnormal_bits : ℕ → ℕ × ℕ → ℕ
subnormal_bits sign (e, mant) = sign + (112 - e) * 2 ^ 23 + mant % 1024 * 2 ^ 13

abbrev pub float_of : ℕ → ℕ → ℕ → ℕ
float_of sign exp mant =
    if exp == 0
    then (if mant == 0 then sign else subnormal_bits sign (normalise 10 0 mant))
    else if exp == 31
    then sign + 255 * 2 ^ 23 + mant * 2 ^ 13
    else sign + (exp + 112) * 2 ^ 23 + mant * 2 ^ 13

unfoldable pub half_to_float : ℕ → ℕ
unfolding normalise
half_to_float h = float_of ((h / 2 ^ 15) % 2 * 2 ^ 31) ((h / 2 ^ 10) % 32) (h % 1024)

-- A test that holds below `n`.
abbrev all_below : (ℕ → Bool) → ℕ → Bool
all_below test zero = true
all_below test (suc n) = let rest = all_below test n in test n && rest

all_below-at : (test : ℕ → Bool) (n : ℕ) → all_below test n ≡ true → (k : ℕ) → k < n → test k ≡ true
all_below-at test zero h k lt = elim lt [ ]
all_below-at test (suc n) h k lt = elim (Bool-cases (k == n)) [
  | inl same ↦ rw ((==_iff k n).0 same) (first (test n) (all_below test n) h)
  | inr other ↦
      all_below-at test n (second (test n) (all_below test n) h) k
        (omega (arith, lt, ==_false k n other))
]
  where
    first : (a b : Bool) → (a && b) ≡ true → a ≡ true
    first true b e = refl
    first false b e = e

    second : (a b : Bool) → (a && b) ≡ true → b ≡ true
    second true b e = e
    second false b e = cc

positive_subnormals : all_below (λ m. float_to_half (half_to_float m) == m) 1024 ≡ true
unfolding float_to_half half_to_float normalise round_up dec_lt dec_le ℕ_discrete
positive_subnormals = refl

negative_subnormals :
    all_below (λ m. float_to_half (half_to_float (m + 32768)) == m + 32768) 1024 ≡ true
unfolding float_to_half half_to_float normalise round_up dec_lt dec_le ℕ_discrete
negative_subnormals = refl

subnormal-roundtrip :
    (h : ℕ) → h < 2 ^ 16 → (h / 2 ^ 10) % 32 < 1 → float_to_half (half_to_float h) ≡ h
subnormal-roundtrip h lt small = elim (dec_lt h 1024) [
  | yes below ↦
      (==_iff (float_to_half (half_to_float h)) h).0
        (all_below-at (λ m. float_to_half (half_to_float m) == m) 1024 positive_subnormals h below)
  | no above ↦
      let sum : h - 32768 + 32768 ≡ h = omega (arith, lt, small, above) in
      subst (λ (x : ℕ). float_to_half (half_to_float x) ≡ x) sum
        ((==_iff (float_to_half (half_to_float (h - 32768 + 32768))) (h - 32768 + 32768)).0 (
          all_below-at (λ m. float_to_half (half_to_float (m + 32768)) == m + 32768) 1024
            negative_subnormals (h - 32768) (omega (arith, lt, small, above))))
]

-- The fields of a float that halfToFloat builds.
normal_fields :
    (s e m : ℕ)
    → s < 2
    → e < 256
    → m < 1024
    → let x = s * 2 ^ 31 + e * 2 ^ 23 + m * 2 ^ 13 in
      ((x / 2 ^ 31) % 2 ≡ s) × ((x / 2 ^ 23) % 256 ≡ e) × (x % 2 ^ 23 ≡ m * 2 ^ 13)
normal_fields s e m hs he hm =
    (omega (arith, hs, he, hm), omega (arith, hs, he, hm), omega (arith, hs, he, hm))

round_up-exact : (out : ℕ) → round_up 0 4096 out ≡ 0
unfolding round_up
round_up-exact out = ground arith

normal-roundtrip :
    (s e m : ℕ)
    → s < 2
    → 0 < e
    → e < 31
    → m < 1024
    → float_to_half (s * 2 ^ 31 + (e + 112) * 2 ^ 23 + m * 2 ^ 13) ≡ s * 2 ^ 15 + e * 2 ^ 10 + m
unfolding float_to_half
normal-roundtrip s e m hs pos he hm =
    let (sign, field, mant) = normal_fields s (e + 112) m hs (omega (arith, he)) hm in
    let not_special : (e + 112 == 255) ≡ false = ground (arith, he) in
    let no_overflow : leb 143 (e + 112) ≡ false = ground (arith, he) in
    let is_normal : leb (e + 112) 112 ≡ false = ground (arith, pos) in
    let exact : m * 2 ^ 13 % 2 ^ 13 ≡ 0 = omega arith in
    rw sign (
      rw field (
        rw mant (
          rw not_special (
            rw no_overflow (
              rw is_normal (
                rw exact (
                  rw (round_up-exact ((e + 112 - 112) * 2 ^ 10 + m * 2 ^ 13 / 2 ^ 13))
                    (omega (arith, hs, he, hm)))))))))

special-roundtrip :
    (s m : ℕ)
    → s < 2
    → m < 1024
    → float_to_half (s * 2 ^ 31 + 255 * 2 ^ 23 + m * 2 ^ 13)
      ≡ s * 2 ^ 15 + 31744 + (if m == 0 then 0 else 512)
unfolding float_to_half
special-roundtrip s m hs hm =
    let (sign, field, mant) = normal_fields s 255 m hs (omega arith) hm in
    let same : (m * 2 ^ 13 == 0) ≡ (m == 0) = ground arith in
    rw sign (
      rw field (
        rw mant (
          rw same (elim (Bool-cases (m == 0)) [
            | inl y ↦ rw y (omega (arith, hs))
            | inr n ↦ rw n (omega (arith, hs))
          ]))))

-- A NaN: all ones in the exponent, and a mantissa.
abbrev pub is_nan_half : ℕ → Bool
is_nan_half h = (h / 2 ^ 10) % 32 == 31 && not (h % 1024 == 0)

half_to_float-normal :
    (h : ℕ)
    → 0 < (h / 2 ^ 10) % 32
    → (h / 2 ^ 10) % 32 < 31
    → half_to_float h
      ≡ (h / 2 ^ 15) % 2 * 2 ^ 31 + ((h / 2 ^ 10) % 32 + 112) * 2 ^ 23 + h % 1024 * 2 ^ 13
unfolding half_to_float
half_to_float-normal h some_exp finite =
    let some : ((h / 2 ^ 10) % 32 == 0) ≡ false = ground (arith, some_exp) in
    let top : ((h / 2 ^ 10) % 32 == 31) ≡ false = ground (arith, finite) in rw some (rw top refl)

half_to_float-top :
    (h : ℕ)
    → (h / 2 ^ 10) % 32 ≡ 31
    → half_to_float h ≡ (h / 2 ^ 15) % 2 * 2 ^ 31 + 255 * 2 ^ 23 + h % 1024 * 2 ^ 13
unfolding half_to_float
half_to_float-top h top = rw top refl

-- floatToHalf undoes halfToFloat on every half: normal, subnormal, zero or infinite, of either sign;
-- a NaN comes back as the quiet NaN of its sign.
pub half-roundtrip :
    (h : ℕ)
    → h < 2 ^ 16
    → float_to_half (half_to_float h)
      ≡ (if is_nan_half h then (h / 2 ^ 15) % 2 * 2 ^ 15 + 32256 else h)
half-roundtrip h lt = elim (dec_lt ((h / 2 ^ 10) % 32) 31) [
  | yes finite ↦
      let number : ((h / 2 ^ 10) % 32 == 31) ≡ false = ground (arith, finite) in
      rw number (elim (dec_lt ((h / 2 ^ 10) % 32) 1) [
        | yes small ↦ subnormal-roundtrip h lt small
        | no large ↦
            let some_exp : 0 < (h / 2 ^ 10) % 32 = omega (arith, large) in
            rw (half_to_float-normal h some_exp finite) (
              normal-roundtrip ((h / 2 ^ 15) % 2) ((h / 2 ^ 10) % 32) (h % 1024) (omega arith)
                some_exp finite (omega arith)
              ∙ omega (arith, lt))
      ])
  | no large ↦
      let top : (h / 2 ^ 10) % 32 ≡ 31 = omega (arith, large) in
      rw (half_to_float-top h top) (
        special-roundtrip ((h / 2 ^ 15) % 2) (h % 1024) (omega arith) (omega arith)
        ∙ rw top (elim (Bool-cases (h % 1024 == 0)) [
          | inl y ↦ rw y (omega (arith, lt, top, (==_iff (h % 1024) 0).0 y))
          | inr n ↦ rw n (omega arith)
        ]))
]
