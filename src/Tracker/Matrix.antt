-- ===== src/Tracker/Matrix.antt =====
-- tracks/byte_tracker.cc: the linear algebra of the filter. A vector is a function of the index and
-- a matrix of the row and the column; indices out of range are not read.
use rcdl.Common.{ℕ, ◌+◌, ◌-◌, ◌&&◌, ◌==◌, if◌then◌else◌}
use rcdl.Common.Loops.{rounds}
use rcdl.Common.Family.{write}
use rcdl.Tracker.Scalars.{Scalars, nat, lit}

module _ (S : Scalars) where
  open S use {F}

  abbrev pub Vec : Type 0
  Vec = ℕ → F

  abbrev pub Mat : Type 0
  Mat = ℕ → ℕ → F

  abbrev pub put : Mat → ℕ → ℕ → F → Mat
  put m i j x k l = if (k == i) && (l == j) then x else m k l

  -- The element (i, j): the loop over `k` skips the zeros of `a`.
  unfoldable pub matmul : Mat → Mat → Mat
  matmul a b i j =
      rounds (λ k s. if S.eq (a i k) (nat S 0) then s else S.add s (S.mul (a i k) (b k j))) 8 0
        (nat S 0)

  abbrev pub transpose : Mat → Mat
  transpose a i j = a j i

  -- `sum - L[i][0] * L[j][0] - ...`, over the first `n` columns.
  abbrev pub minus_products : Mat → ℕ → ℕ → ℕ → F → F
  minus_products l i j n sum = rounds (λ k s. S.sub s (S.mul (l i k) (l j k))) n 0 sum

  abbrev pub chol_entry : Mat → ℕ → ℕ → Mat → Mat
  chol_entry s i j l =
      let sum : F = minus_products l i j j (s i j) in
      if i == j
      then put l i i
          (S.sqrt (if S.lt sum (lit S 1 1_000_000_000_000) then lit S 1 1_000_000_000_000 else sum))
      else put l i j (S.div sum (l j j))

  unfoldable pub cholesky : Mat → Mat
  cholesky s = rounds (λ i l. rounds (λ j l'. chol_entry s i j l') (i + 1) 0 l) 4 0 (λ i j. nat S 0)

  -- Forward substitution, with `y` filled from the first element.
  unfoldable pub forward : Mat → Vec → Vec
  forward l b =
      rounds
        (λ i y. write y i (S.div (rounds (λ k s. S.sub s (S.mul (l i k) (y k))) i 0 (b i)) (l i i)))
        4 0 (λ i. nat S 0)

  -- Back substitution, from the last element; round `r` is at row 3 - r.
  unfoldable pub backward : Mat → Vec → Vec
  backward l y =
      rounds
        (λ r x.
          let i : ℕ = 3 - r in
          write x i (S.div (rounds (λ k s. S.sub s (S.mul (l k i) (x k))) r (i + 1) (y i)) (l i i)))
        4 0 (λ i. nat S 0)

  unfoldable pub chol_solve : Mat → Vec → Vec
  chol_solve l b = backward l (forward l b)
