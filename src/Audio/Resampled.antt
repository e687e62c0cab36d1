-- ===== src/Audio/Resampled.antt =====
-- How many samples ResampleLinear of AudioEngine.cpp makes, and their range.
use o_walkie.Base.{
  ℕ, zero, suc, ℤ, ◌*◌, ◌/◌, ◌≡◌, ◌≢◌, refl, ap, false, List, length, is_empty, max, All, ◌==◌,
  if◌then◌else◌, arith,
}
use o_walkie.Tone.Samples.{IsSample, clamp16-IsSample}
use o_walkie.Audio.{AudioLib, Double, interpolated, resampled_from, resample_linear}

module _ (lib : AudioLib) where
  length-resampled_from :
      (input : List ℤ) (scale : Double lib) (left i : ℕ)
      → length (resampled_from lib input scale left i) ≡ left
  unfolding resampled_from
  length-resampled_from input scale zero i = refl
  length-resampled_from input scale (suc left) i =
      ap suc (length-resampled_from input scale left (suc i))

  resampled_from-IsSample :
      (input : List ℤ) (scale : Double lib) (left i : ℕ)
      → All IsSample (resampled_from lib input scale left i)
  unfolding resampled_from
  resampled_from-IsSample input scale zero i = tt
  resampled_from-IsSample input scale (suc left) i = (
    clamp16-IsSample (lib.double.lround (interpolated lib input scale i)),
    resampled_from-IsSample input scale left (suc i),
  )

  -- Some samples, brought from one rate to another, neither of them 0, are as many as the quotient of
  -- the rates asks for, rounded down, and at least one. They stay in the range of 16 bits, whatever
  -- the arithmetic makes of them. Between equal rates nothing changes.
  pub length-resample_linear :
      (input : List ℤ) (src dst : ℕ)
      → is_empty input ≡ false
      → src ≢ 0
      → dst ≢ 0
      → All IsSample input
      → (length (resample_linear lib input src dst)
          ≡ (if src == dst then length input else max 1 (length input * dst / src)))
        × All IsSample (resample_linear lib input src dst)
        × (src ≡ dst → resample_linear lib input src dst ≡ input)
  unfolding resample_linear
  length-resample_linear input src dst h hs hd small =
      let scale = lib.double.div (lib.double.of_int src) (lib.double.of_int dst) in
      let n = max 1 (length input * dst / src) in
      ground (
        arith,
        h,
        small,
        length-resampled_from input scale n 0,
        resampled_from-IsSample input scale n 0,
      )
