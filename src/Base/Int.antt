-- ===== src/Base/Int.antt =====
-- Go's signed integers, over the native numbers. The program only compares them and prints them.
use Prim.Native.Nat.{ℕ}
use mathlib.Core.Path.{ap}
use mathlib.Core.Logic.{dite}
use mathlib.Core.Bool.{Bool, true, false}
use native.Mathlib.Decide.{ℕ_discrete}
use k8slan.Base.Equality.{Eq, leb}

-- `negsuc n` is -(n + 1).
pub data ℤ : Type 0 where
  pos : ℕ → ℤ
  negsuc : ℕ → ℤ

-- `i <= 0`
abbrev pub le_zero : ℤ → Bool
le_zero (pos n) = leb n 0
le_zero (negsuc n) = true

-- `i > n`
abbrev pub gt_nat : ℤ → ℕ → Bool
gt_nat (pos m) n = elim (leb m n) [ true ↦ false | false ↦ true ]
gt_nat (negsuc m) n = false

ℤ-discrete : Discrete ℤ
unfolding ℕ_discrete
ℤ-discrete (pos a) (pos b) = dite (ℕ_discrete a b) (λ p. yes (ap pos p)) (λ n. no (λ p. n (cc)))
ℤ-discrete (pos a) (negsuc b) = no (λ p. cc)
ℤ-discrete (negsuc a) (pos b) = no (λ p. cc)
ℤ-discrete (negsuc a) (negsuc b) =
    dite (ℕ_discrete a b) (λ p. yes (ap negsuc p)) (λ n. no (λ p. n (cc)))

instance unfoldable pub int_eq : Eq ℤ
unfolding ℤ-discrete
int_eq = record { dec = ℤ-discrete }
