-- ===== src/Common/Loops.antt =====
-- Counted loops: `for (i = from; i < from + count; ++i)` as recursion on the count.
use Prim.Native.Nat.{ℕ, zero, suc, ◌+◌, ◌<◌}
use mathlib.Core.Path.{◌≡◌, subst}
use native.Mathlib.Omega.{arith}

module _ {ℓ} {S : Type ℓ} (body : ℕ → S → S) where
  unfoldable pub rounds : ℕ → ℕ → S → S
  rounds zero i s = s
  rounds (suc count) i s = rounds count (suc i) (body i s)

  -- What every round keeps, the loop keeps.
  pub rounds-keeps {κ} :
      (P : ℕ → S → Type κ) (end : ℕ)
      → ((i : ℕ) (s : S) → i < end → P i s → P (suc i) (body i s))
      → (count i : ℕ) (s : S) → i + count ≡ end
      → P i s
      → P end (rounds count i s)
  unfolding rounds
  rounds-keeps P end keep zero i s e h = subst (λ j. P j s) (omega (arith, e)) h
  rounds-keeps P end keep (suc count) i s e h =
      rounds-keeps P end keep count (suc i) (body i s) (omega (arith, e))
        (keep i s (omega (arith, e)) h)
