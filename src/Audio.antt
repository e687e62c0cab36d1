-- ===== src/Audio.antt =====
-- AudioEngine.cpp of windows-client-cpp/src: the sounds that the engine makes. Audio.Engine has the
-- class. The arithmetic of `double`, its two conversions, and the files of sounds are parameters.
pub mod Engine
pub mod Stream
pub mod Calls
pub mod Cues
pub mod Small
pub mod Resampled
mod Examples
use Prim.Native.String.{String, ◌++◌ as join}
use text.Mathlib.Text.{◌==◌ as str_eq}
use o_walkie.Base.{
  ℕ, zero, suc, ℤ, pos, negsuc, ◌+◌, ◌-◌, ◌*◌, ◌/◌, max, min, Bool, true, false, not, ◌||◌, List,
  [], ◌∷◌, ◌++◌, map, length, is_empty, take, drop, replicate, ◌==◌, if◌then◌else◌,
}
use o_walkie.Tone.Double.{DoubleLib}
use o_walkie.Tone.{SignalPoint, clamp16}
use o_walkie.Tone.Client.{ClientPattern, append_silence}
use o_walkie.Wav.{parse_wav_pcm}

-- `of_signed` and `truncate` are the conversions from int16_t and to size_t; `read_binary` is the
-- content of a file of the directory of sounds, empty where there is none.
pub record AudioLib : Type 1 where
  pub double : DoubleLib
  pub of_signed : ℤ → double.Double
  pub truncate : double.Double → ℕ
  pub read_binary : String → List ℕ

-- kUiSignalPlaybackRate, kLocalSignalSynthesisRate
abbrev pub synthesis_rate : ℕ
synthesis_rate = 48000

-- in[i] inside the vector
abbrev pub sample_at : List ℤ → ℕ → ℤ
sample_at [] i = pos 0
sample_at (x ∷ xs) zero = x
sample_at (x ∷ xs) (suc i) = sample_at xs i

-- The samples that OneShotPlaybackCallback has left, and what it writes for a number of frames.
unfoldable pub one_shot_chunk : ℕ → List ℤ → List ℤ × List ℤ
one_shot_chunk frames left =
    (take frames left ++ replicate (frames - length left) (pos 0), drop frames left)

-- SignalPattern with its identifier
pub record NamedPattern (W : Type 0) : Type 0 where
  pub id : String
  pub name : String
  pub pattern : ClientPattern W

module _ (lib : AudioLib) where
  open lib use {double, of_signed, truncate, read_binary}

  abbrev pub Double : Type 0
  Double = double.Double

  abbrev num : String → Double
  num = double.literal

  -- The loop of ResampleLinear: its i-th value before it is rounded, and the samples from there on.
  pub interpolated : List ℤ → Double → ℕ → Double
  interpolated input scale i =
      let src_pos = double.mul (double.of_int i) scale in
      let i0 = truncate src_pos in
      let i1 = min (i0 + 1) (length input - 1) in
      let t = double.sub src_pos (double.of_int i0) in
      double.add (double.mul (double.sub (num "1.0") t) (of_signed (sample_at input i0)))
        (double.mul t (of_signed (sample_at input i1)))

  pub resampled_from : List ℤ → Double → ℕ → ℕ → List ℤ
  resampled_from input scale zero i = []
  resampled_from input scale (suc left) i =
      clamp16 (double.lround (interpolated input scale i)) ∷ resampled_from input scale left (suc i)

  -- ResampleLinear(const std::vector<int16_t>& in, int srcRate, int dstRate), for rates that are not
  -- negative
  unfoldable pub resample_linear : List ℤ → ℕ → ℕ → List ℤ
  resample_linear input src dst =
      let scale = double.div (double.of_int src) (double.of_int dst) in
      if is_empty input || src == 0 || dst == 0
      then []
      else if src == dst
      then input
      else resampled_from input scale (max 1 (length input * dst / src)) 0

  abbrev pub wav_rate : ℤ → ℕ
  wav_rate (pos n) = n
  wav_rate (negsuc n) = 0

  -- The loop over the two names of a sound.
  load_first : List String → ℕ → List ℤ
  load_first [] rate = []
  load_first (p ∷ candidates) rate =
      let bytes = read_binary p in
      let wav = parse_wav_pcm bytes in
      let rest = load_first candidates rate in
      if is_empty bytes || is_empty wav.samples
      then rest
      else resample_linear wav.samples (wav_rate wav.sample_rate) rate

  -- LoadSoundFromExeDir(const char* baseName, int targetRate)
  pub load_sound : String → ℕ → List ℤ
  load_sound base rate =
      let loaded = load_first (join base ".wav" ∷ base ∷ []) rate in
      if rate == 0 then [] else loaded

  abbrev pub two_pi : Double
  two_pi = double.mul (num "2.0") (num "3.14159265358979323846")

  abbrev tone_sample : Double → Double → ℕ → ℕ → ℤ
  tone_sample w gain samples i =
      let env = double.sin (
        double.div (double.mul (num "3.14159265358979323846") (double.of_int i))
          (double.of_int (max (samples - 1) 1))) in
      let s = double.mul (double.mul (double.sin (double.mul w (double.of_int i))) env) gain in
      clamp16 (double.lround (double.mul s (num "32767.0")))

  tone_from : Double → Double → ℕ → ℕ → ℕ → List ℤ
  tone_from w gain samples zero i = []
  tone_from w gain samples (suc left) i =
      tone_sample w gain samples i ∷ tone_from w gain samples left (suc i)

  -- void AppendTone(out, int sampleRate, double freqHz, int durationMs, double gain)
  pub append_tone : ℕ → Double → ℕ → Double → List ℤ → List ℤ
  append_tone rate freq duration gain out =
      let samples = rate * duration / 1000 in
      let w = double.div (double.mul two_pi freq) (double.of_int rate) in
      if rate == 0 || duration == 0 || double.le freq (num "0.0")
      then out
      else out ++ tone_from w gain samples samples 0

  -- void AppendDesktopVibrationPattern(...), from the current value of toneOn on
  pub append_vibration : Bool → ℕ → Double → Double → List ℕ → List ℤ → List ℤ
  append_vibration on rate freq gain [] pcm = pcm
  append_vibration on rate freq gain (zero ∷ pattern) pcm =
      append_vibration on rate freq gain pattern pcm
  append_vibration on rate freq gain (suc d ∷ pattern) pcm =
      append_vibration (not on) rate freq gain pattern
        (if on then append_tone rate freq (suc d) gain pcm else append_silence rate (suc d) pcm)

  -- ApplyGain(const std::vector<int16_t>& in, double gain) for a gain other than 1
  pub apply_gain : Double → List ℤ → List ℤ
  apply_gain gain = map (λ s. clamp16 (double.lround (double.mul (of_signed s) gain)))

  abbrev point : String → ℕ → SignalPoint Double
  point freq duration = record { freq_hz = num freq; duration_ms = pos duration }

  abbrev named_pattern :
      String → String → List (SignalPoint Double) → Bool → ℕ → NamedPattern Double
  named_pattern id name points tail repeats = record {
    id = id;
    name = name;
    pattern = record { points = points; append_tail = tail; repeat_count = pos repeats };
  }

  -- The first pattern, and the others: AudioEngine::RogerPatterns()
  abbrev pub no_signal : NamedPattern Double
  no_signal = named_pattern "none" "No signal" [] true 1

  abbrev pub roger_patterns : List (NamedPattern Double)
  roger_patterns =
      no_signal
      ∷ named_pattern "variant_1" "Variant 1"
          (point "890.0" 20 ∷ point "670.0" 20 ∷ point "890.0" 45 ∷ point "1000.0" 28 ∷ []) true 1
      ∷ named_pattern "variant_2" "Variant 2" (point "1000.0" 88 ∷ point "800.0" 64 ∷ []) true 1
      ∷ named_pattern "variant_3" "Variant 3" (point "1330.0" 68 ∷ point "1600.0" 56 ∷ []) true 1
      ∷ []

  abbrev pub call_variant_1 : NamedPattern Double
  call_variant_1 =
      named_pattern "call_variant_1" "Variant 1"
        (point "2300.0" 70 ∷ point "1850.0" 70 ∷ point "1450.0" 70 ∷ []) false 9

  -- AudioEngine::CallPatterns()
  abbrev pub call_patterns : List (NamedPattern Double)
  call_patterns =
      call_variant_1
      ∷ named_pattern "call_variant_2" "Variant 2"
          (point "1150.0" 35
            ∷ point "1350.0" 35
            ∷ point "1550.0" 35
            ∷ point "1750.0" 35
            ∷ point "1550.0" 35
            ∷ point "1350.0" 35
            ∷ [])
          false 14
      ∷ named_pattern "call_variant_3" "Variant 3" (point "2000.0" 60 ∷ point "1000.0" 60 ∷ [])
          false 32
      ∷ []

  -- The loops of FindRogerPatternLocked and FindCallPatternLocked, with what they return at the end.
  unfoldable pub find_pattern :
      String → List (NamedPattern Double) → NamedPattern Double → NamedPattern Double
  find_pattern id [] front = front
  find_pattern id (p ∷ patterns) front =
      if str_eq p.id id then p else find_pattern id patterns front
