-- ===== src/Tracker/Numbers.antt =====
-- An arithmetic for the tracker's tests: numbers with two decimals, one number above all of them,
-- and one that is not a number.
use rcdl.Common.{ℕ, zero, ◌+◌, ◌*◌, ◌/◌, Bool, true, false, ◌&&◌, if◌then◌else◌}
use rcdl.Common.Int.{ℤ, pos, pos_part, neg_part, sub_ℕ, ltb_ℤ, leb_ℤ}
use rcdl.Tracker.Scalars.{Scalars}

pub data Number : Type 0 where
  hundredths : ℤ → Number
  huge nan : Number

abbrev pub ones : ℕ → Number
ones n = hundredths (pos n)

abbrev lift : (ℤ → ℤ → ℤ) → Number → Number → Number
lift f nan y = nan
lift f huge nan = nan
lift f huge huge = huge
lift f huge (hundredths y) = huge
lift f (hundredths x) nan = nan
lift f (hundredths x) huge = huge
lift f (hundredths x) (hundredths y) = hundredths (f x y)

abbrev scaled : ℤ → ℕ → ℕ → ℤ
scaled x n zero = x
scaled x n d = sub_ℕ (pos_part x * n / d) (neg_part x * n / d)

abbrev plus : ℤ → ℤ → ℤ
plus x y = sub_ℕ (pos_part x + pos_part y) (neg_part x + neg_part y)

abbrev minus : ℤ → ℤ → ℤ
minus x y = sub_ℕ (pos_part x + neg_part y) (neg_part x + pos_part y)

abbrev times : ℤ → ℤ → ℤ
times x y =
    scaled
      (sub_ℕ (pos_part x * pos_part y + neg_part x * neg_part y)
        (pos_part x * neg_part y + neg_part x * pos_part y))
      1 100

abbrev quotient : ℤ → ℤ → ℤ
quotient x y =
    if ltb_ℤ y (pos 0) then minus (pos 0) (scaled x 100 (neg_part y)) else scaled x 100 (pos_part y)

abbrev less : Number → Number → Bool
less (hundredths x) (hundredths y) = ltb_ℤ x y
less (hundredths x) huge = true
less (hundredths x) nan = false
less huge y = false
less nan y = false

abbrev at_most : Number → Number → Bool
at_most (hundredths x) (hundredths y) = leb_ℤ x y
at_most (hundredths x) huge = true
at_most huge huge = true
at_most (hundredths x) nan = false
at_most huge nan = false
at_most huge (hundredths y) = false
at_most nan y = false

abbrev finite : Number → Bool
finite (hundredths x) = true
finite huge = false
finite nan = false

abbrev magnitude : Number → Number
magnitude (hundredths x) = hundredths (pos (pos_part x + neg_part x))
magnitude huge = huge
magnitude nan = nan

abbrev rounded : Number → ℤ
rounded (hundredths x) = scaled x 1 100
rounded huge = pos 0
rounded nan = pos 0

-- Roots, powers and exponentials are not computed: no test takes one.
abbrev pub numbers : Scalars
numbers = record {
  F = Number;
  add = lift plus;
  sub = lift minus;
  mul = lift times;
  div = lift quotient;
  neg = lift minus (hundredths (pos 0));
  abs = magnitude;
  sqrt = λ x. x;
  exp = λ x. x;
  pow = λ x y. x;
  lt = less;
  le = at_most;
  eq = λ x y. at_most x y && at_most y x;
  is_finite = finite;
  largest = huge;
  of_int = λ x. hundredths (scaled x 100 1);
  frac = λ n d. hundredths (pos (100 * n / d));
  narrow = λ x. x;
  lround = rounded;
}
