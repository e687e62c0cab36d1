-- ===== src/Base/Int.antt =====
-- The signed integers of the source's `int` arguments, over the native numbers.
use Prim.Native.Nat.{ℕ, ◌≤◌}
use mathlib.Core.Bool.{Bool, true, false}
use mathlib.Core.Path.{◌≡◌}
use native.Mathlib.Omega.{arith}
use mathlib.Core.Bool.{Bool, true, false}
use o_walkie.Base.Tests.{ltb, ◌==◌, if◌then◌else◌}

-- `negsuc n` is -(n + 1).
pub data ℤ : Type 0 where
  pos : ℕ → ℤ
  negsuc : ℕ → ℤ

-- std::max(0, i)
abbrev pub to_nat : ℤ → ℕ
to_nat (pos n) = n
to_nat (negsuc n) = 0

-- std::clamp(i, lo, hi) for bounds that are not negative.
abbrev pub clamp : ℤ → ℕ → ℕ → ℕ
clamp i lo hi = let n = to_nat i in if ltb n lo then lo else if ltb hi n then hi else n

abbrev pub eq_ℤ : ℤ → ℤ → Bool
eq_ℤ (pos m) (pos n) = m == n
eq_ℤ (negsuc m) (negsuc n) = m == n
eq_ℤ _ _ = false

pub clamp_bounds : (i : ℤ) (lo hi : ℕ) → lo ≤ hi → (lo ≤ clamp i lo hi) × (clamp i lo hi ≤ hi)
clamp_bounds i lo hi h = ground arith

pub eq_ℤ→≡ : (i j : ℤ) → eq_ℤ i j ≡ true → i ≡ j
eq_ℤ→≡ (pos m) (pos n) h = ground arith
eq_ℤ→≡ (pos m) (negsuc n) h = cc
eq_ℤ→≡ (negsuc m) (pos n) h = cc
eq_ℤ→≡ (negsuc m) (negsuc n) h = ground arith
