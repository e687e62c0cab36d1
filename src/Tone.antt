-- ===== src/Tone.antt =====
-- owalkie-core/src/signal.cpp: the samples of a tone pattern, and owalkie_signal_generate_pcm of
-- owalkie-core/src/c_api.cpp. The arithmetic of `double` is a parameter. Products of a sample rate and
-- a duration are those of integers; where one overflows `int`, the source has no defined behaviour.
pub mod Double
pub mod Whole
pub mod Samples
pub mod Client
mod Examples
use o_walkie.Base.{
  ℕ, zero, suc, ℤ, pos, negsuc, ◌+◌, ◌*◌, ◌/◌, max, Bool, not, ◌||◌, List, [], ◌∷◌, ◌++◌, is_empty,
  replicate, Option, none, some, ltb, ◌==◌, if◌then◌else◌,
}
use o_walkie.Interface.{CResult, owalkie_ok, owalkie_err_invalid_arg, owalkie_err_internal}
use Double.{DoubleLib}

-- struct SignalPoint, over a type of floating-point numbers
pub record SignalPoint (W : Type 0) : Type 0 where
  pub freq_hz : W
  pub duration_ms : ℤ

-- struct SignalPattern
pub record SignalPattern (W : Type 0) : Type 0 where
  pub points : List (SignalPoint W)
  pub tail_ms : ℤ
  pub repeat_count : ℤ
  pub gain : W

-- std::clamp(v, -32768, 32767)
abbrev pub clamp16 : ℤ → ℤ
clamp16 (pos n) = if ltb 32767 n then pos 32767 else pos n
clamp16 (negsuc n) = if ltb 32767 n then negsuc 32767 else negsuc n

-- std::max((sampleRateHz * durationMs) / 1000, 1), where int holds the product, for a rate that is not negative: the division
-- rounds towards 0, so a negative duration gives 1.
abbrev pub point_samples : ℕ → ℤ → ℕ
point_samples rate (pos d) = max (rate * d / 1000) 1
point_samples rate (negsuc d) = 1

-- std::max(1, pattern.repeatCount)
abbrev pub repetitions : ℤ → ℕ
repetitions (pos n) = max 1 n
repetitions (negsuc n) = 1

-- pattern.tailMs > 0 ? (sampleRateHz * pattern.tailMs) / 1000 : 0, where int holds the product
abbrev pub tail_samples : ℕ → ℤ → ℕ
tail_samples rate (pos d) = rate * d / 1000
tail_samples rate (negsuc d) = 0

-- segments: the points, once for each repetition
unfoldable pub repeated {ℓ} : {A : Type ℓ} → ℕ → List A → List A
repeated zero points = []
repeated (suc r) points = points ++ repeated r points

module _ (lib : DoubleLib) where
  open lib use {Double, literal, of_int, add, sub, mul, div, lt, le, sin, lround}

  -- The envelope of the i-th of n samples.
  abbrev pub envelope : ℕ → ℕ → Double
  envelope i n =
      let at = div (of_int i) (of_int n) in
      if lt at (literal "0.08")
      then div at (literal "0.08")
      else if lt (literal "0.92") at
      then div (sub (literal "1.0") at) (literal "0.08")
      else literal "1.0"

  abbrev pub sample : Bool → Double → Double → ℕ → ℕ → ℤ
  sample pause amplitude phase i n =
      let s = if pause then literal "0.0" else mul (mul (sin phase) (envelope i n)) amplitude in
      clamp16 (lround (mul s (literal "32767.0")))

  -- The loop over the samples that are left of a segment, with the phase.
  pub tone : Bool → Double → Double → ℕ → ℕ → ℕ → Double → List ℤ × Double
  tone pause amplitude step zero i n phase = ([], phase)
  tone pause amplitude step (suc left) i n phase =
      let (rest, last) = tone pause amplitude step left (suc i) n (add phase step) in
      (sample pause amplitude phase i n ∷ rest, last)

  abbrev pub is_pause : SignalPoint Double → Bool
  is_pause seg = le seg.freq_hz (literal "0.0")

  -- 2.0 * kPi * seg.freqHz / sampleRateHz
  abbrev pub step_of : ℕ → SignalPoint Double → Double
  step_of rate seg =
      if is_pause seg
      then literal "0.0"
      else div (mul (mul (literal "2.0") (literal "3.14159265358979323846")) seg.freq_hz)
          (of_int rate)

  -- The loop over the segments, with the phase.
  pub tones : ℕ → Double → List (SignalPoint Double) → Double → List ℤ
  tones rate amplitude [] phase = []
  tones rate amplitude (seg ∷ segments) phase =
      let n = point_samples rate seg.duration_ms in
      let (out, last) = tone (is_pause seg) amplitude (step_of rate seg) n 0 n phase in
      out ++ tones rate amplitude segments last

  -- std::vector<int16_t> generatePcm(const SignalPattern& pattern, int sampleRateHz)
  unfoldable pub generate_pcm : SignalPattern Double → ℤ → List ℤ
  generate_pcm pattern (negsuc rate) = []
  generate_pcm pattern (pos rate) =
      let segments = repeated (repetitions pattern.repeat_count) pattern.points in
      if rate == 0 || is_empty pattern.points
      then []
      else tones rate pattern.gain segments (literal "0.0")
        ++ replicate (tail_samples rate pattern.tail_ms) (pos 0)

  -- owalkie_result owalkie_signal_generate_pcm(...), of a pattern and points that are not null and
  -- out parameters that are not null, with whether malloc succeeds; and the samples that it gives
  unfoldable pub signal_generate_pcm :
      Option (SignalPattern Double) → ℤ → Bool → CResult × Option (List ℤ)
  signal_generate_pcm none rate has_memory = (owalkie_err_invalid_arg, none)
  signal_generate_pcm (some pattern) rate has_memory =
      let pcm = generate_pcm pattern rate in
      if is_empty pattern.points
      then (owalkie_err_invalid_arg, none)
      else if is_empty pcm
      then (owalkie_err_invalid_arg, none)
      else if not has_memory
      then (owalkie_err_internal, none)
      else (owalkie_ok, some pcm)
