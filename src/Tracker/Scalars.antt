-- ===== src/Tracker/Scalars.antt =====
-- tracks/byte_tracker.cc: the arithmetic of double, as the code uses it. A float is a double that
-- `narrow` leaves as it is; an operation on floats rounds its result. Comparisons promise nothing:
-- with a NaN all of them are false.
use rcdl.Common.{ℕ, Bool, if◌then◌else◌}
use rcdl.Common.Int.{ℤ, pos}

pub record Scalars : Type 1 where
  pub F : Type 0
  pub add : F → F → F
  pub sub : F → F → F
  pub mul : F → F → F
  pub div : F → F → F
  pub neg : F → F
  pub abs : F → F
  pub sqrt : F → F
  pub exp : F → F
  pub pow : F → F → F
  pub lt : F → F → Bool
  pub le : F → F → Bool
  pub eq : F → F → Bool
  pub is_finite : F → Bool
  -- std::numeric_limits<double>::max()
  pub largest : F
  pub of_int : ℤ → F
  -- The double nearest to a quotient, for a literal such as 1e-3.
  pub frac : ℕ → ℕ → F
  pub narrow : F → F
  pub lround : F → ℤ

module _ (S : Scalars) where
  open S use {F}

  -- std::max and std::min: the first argument, unless the test is true.
  abbrev pub max_of : F → F → F
  max_of a b = if S.lt a b then b else a

  abbrev pub min_of : F → F → F
  min_of a b = if S.lt b a then b else a

  abbrev pub nat : ℕ → F
  nat n = S.of_int (pos n)

  abbrev pub lit : ℕ → ℕ → F
  lit n d = S.frac n d

  -- Operations on floats.
  abbrev pub float_lit : ℕ → ℕ → F
  float_lit n d = S.narrow (S.frac n d)

  abbrev pub fadd : F → F → F
  fadd a b = S.narrow (S.add a b)

  abbrev pub fsub : F → F → F
  fsub a b = S.narrow (S.sub a b)

  abbrev pub fmul : F → F → F
  fmul a b = S.narrow (S.mul a b)

  abbrev pub fdiv : F → F → F
  fdiv a b = S.narrow (S.div a b)
