-- ===== src/Tracker/Kalman.antt =====
-- tracks/byte_tracker.cc: KalmanFilter.
use rcdl.Common.{ℕ, zero, suc, ◌+◌, ◌==◌, ltb, if◌then◌else◌, ◌&&◌}
use rcdl.Common.Loops.{rounds}
use rcdl.Tracker.Scalars.{Scalars, nat, lit}
use rcdl.Tracker.Matrix.{Vec, Mat, matmul, transpose, cholesky, chol_solve}

module _ (S : Scalars) where
  open S use {F}

  -- A state of the filter, mean and covariance.
  pub record Gauss : Type 0 where
    pub mean : Vec S
    pub cov : Mat S

  -- Center, aspect and height.
  pub record Xyah : Type 0 where
    pub cx : F
    pub cy : F
    pub a : F
    pub h : F

  abbrev pub component : Xyah → ℕ → F
  component m zero = m.cx
  component m (suc zero) = m.cy
  component m (suc (suc zero)) = m.a
  component m _ = m.h

  abbrev std_pos : F
  std_pos = S.div (nat S 1) (nat S 20)

  abbrev std_vel : F
  std_vel = S.div (nat S 1) (nat S 160)

  -- The identity, with each position coupled to its velocity.
  abbrev pub motion : Mat S
  motion i j = if i == j then nat S 1 else if ltb i 4 && j == i + 4 then nat S 1 else nat S 0

  -- Eight deviations: positions, aspect, height, and their velocities.
  abbrev deviation : F → F → F → F → ℕ → F
  deviation p a v va zero = p
  deviation p a v va (suc zero) = p
  deviation p a v va (suc (suc zero)) = a
  deviation p a v va (suc (suc (suc zero))) = p
  deviation p a v va (suc (suc (suc (suc zero)))) = v
  deviation p a v va (suc (suc (suc (suc (suc zero))))) = v
  deviation p a v va (suc (suc (suc (suc (suc (suc zero)))))) = va
  deviation p a v va _ = v

  abbrev square : F → F
  square x = S.mul x x

  unfoldable pub initiate : Xyah → Gauss
  initiate m = record {
    mean = λ i. if ltb i 4 then component m i else nat S 0;
    cov = λ i j.
        if i == j
        then square (
            deviation (S.mul (S.mul (nat S 2) std_pos) m.h) (lit S 1 100)
              (S.mul (S.mul (nat S 10) std_vel) m.h) (lit S 1 100_000) i)
        else nat S 0;
  }

  -- mean = F mean, cov = F cov F^T + Q.
  unfoldable pub predict : Gauss → Gauss
  predict g =
      let h : F = g.mean 3 in
      let moved : Mat S = matmul S (matmul S motion g.cov) (transpose S motion) in
      record {
        mean = λ i. rounds (λ k s. S.add s (S.mul (motion i k) (g.mean k))) 8 0 (nat S 0);
        cov = λ i j.
            if i == j
            then S.add (moved i j) (
                square
                  (deviation (S.mul std_pos h) (lit S 1 100) (S.mul std_vel h) (lit S 1 100_000) i))
            else moved i j;
      }

  -- The projection to the measured space: the upper left block, with the noise of the measurement.
  abbrev pub projected : Gauss → Mat S
  projected g i j =
      if i == j
      then S.add (g.cov i j)
          (square (deviation (S.mul std_pos (g.mean 3)) (lit S 1 10) (nat S 0) (nat S 0) i))
      else g.cov i j

  -- Row `i` of the gain solves S x = cov[i][0..4).
  abbrev pub gain : Gauss → ℕ → Vec S
  gain g i = chol_solve S (cholesky S (projected g)) (g.cov i)

  unfoldable pub correct : Gauss → Xyah → Gauss
  correct g m =
      let k : ℕ → Vec S = gain g in
      let ks : Mat S =
        λ i c. rounds (λ l s. S.add s (S.mul (k i l) (projected g l c))) 4 0 (nat S 0) in
      record {
        mean = λ i. S.add (g.mean i) (
            rounds (λ l s. S.add s (S.mul (k i l) (S.sub (component m l) (g.mean l)))) 4 0
              (nat S 0));
        cov = λ i j.
            S.sub (g.cov i j) (rounds (λ l s. S.add s (S.mul (ks i l) (k j l))) 4 0 (nat S 0));
      }
