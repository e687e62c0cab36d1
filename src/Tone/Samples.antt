-- ===== src/Tone/Samples.antt =====
-- How many samples signal.cpp makes, and their range.
use Prim.Native.Nat.mul
use o_walkie.Base.{
  ℕ, suc, ℤ, pos, negsuc, ◌+◌, ◌*◌, ◌/◌, ◌≤◌, ◌<◌, ◌^◌, max, List, [], ◌∷◌, All, arith,
}
use o_walkie.Tone.Double.{DoubleLib}
use o_walkie.Tone.{SignalPoint, SignalPattern, clamp16, point_samples}

-- A value of int16_t.
abbrev pub IsSample : ℤ → Type 0
IsSample (pos n) = n ≤ 32767
IsSample (negsuc n) = n ≤ 32767

pub clamp16-IsSample : (v : ℤ) → IsSample (clamp16 v)
clamp16-IsSample (pos n) = ground arith
clamp16-IsSample (negsuc n) = ground arith

module _ (lib : DoubleLib) where
  open lib use {Double, literal}

  -- The samples of all points, one after the other.
  abbrev points_samples : ℕ → List (SignalPoint Double) → ℕ
  points_samples rate [] = 0
  points_samples rate (seg ∷ points) =
      point_samples rate seg.duration_ms + points_samples rate points

  -- The whole samples in a duration at a rate, none in one that is negative.
  abbrev pub samples_in : ℕ → ℤ → ℕ
  samples_in rate (pos ms) = rate * ms / 1000
  samples_in rate (negsuc ms) = 0

  -- The samples in the points, one at least in each.
  abbrev pub one_or_more : ℕ → List (SignalPoint Double) → ℕ
  one_or_more rate [] = 0
  one_or_more rate (seg ∷ points) =
      max 1 (samples_in rate seg.duration_ms) + one_or_more rate points

  -- A product of a rate and a duration that an int holds.
  abbrev pub FitsInt : ℕ → ℤ → Type 0
  FitsInt rate (pos ms) = rate * ms < 2 ^ 31
  FitsInt rate (negsuc ms) = rate * suc ms ≤ 2 ^ 31

  -- The arithmetic of generatePcm stays within int.
  pub record IsInRange (rate : ℕ) (pattern : SignalPattern Double) : Type 0 where
    pub points_fit : All (λ p. FitsInt rate p.duration_ms) pattern.points
    pub tail_fits : FitsInt rate pattern.tail_ms
