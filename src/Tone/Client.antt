-- ===== src/Tone/Client.antt =====
-- The tones that windows-client-cpp/src/AudioEngine.cpp makes itself, against those of the library.
use o_walkie.Base.{
  ℕ, zero, suc, ℤ, pos, negsuc, ◌*◌, ◌/◌, ◌≡◌, refl, sym, ap, ◌∙◌, Bool, ◌||◌, List, [], ◌∷◌, ◌++◌,
  is_empty, replicate, ◌==◌, if◌then◌else◌, arith,
}
use mathlib.Core.List.{append_assoc, append-nil}
use o_walkie.Tone.Double.{DoubleLib}
use o_walkie.Tone.{
  SignalPoint, SignalPattern, clamp16, point_samples, repetitions, repeated, envelope, sample,
  is_pause, step_of, tone, tones, generate_pcm,
}

-- The client's struct SignalPattern, without its names
pub record ClientPattern (W : Type 0) : Type 0 where
  pub points : List (SignalPoint W)
  pub append_tail : Bool
  pub repeat_count : ℤ

-- kRogerTailMs
abbrev pub roger_tail_ms : ℕ
roger_tail_ms = 40

-- void AppendSilence(std::vector<int16_t>& out, int sampleRate, int durationMs)
unfoldable pub append_silence : ℕ → ℕ → List ℤ → List ℤ
append_silence rate duration out =
    if rate == 0 || duration == 0 then out else out ++ replicate (rate * duration / 1000) (pos 0)

module _ (lib : DoubleLib) where
  open lib use {Double, literal, of_int, add, mul, div, le, sin, lround}

  -- The loop of GenerateSignalPcm over the samples that are left of a segment.
  unfoldable pub client_tone : Bool → Double → ℕ → ℕ → ℕ → Double → List ℤ × Double
  client_tone pause step zero i n phase = ([], phase)
  client_tone pause step (suc left) i n phase =
      let s =
        if pause
        then literal "0.0"
        else mul (mul (sin phase) (envelope lib i n)) (literal "0.26") in
      let v = clamp16 (lround (mul s (literal "32767.0"))) in
      let (rest, last) = client_tone pause step left (suc i) n (add phase step) in (v ∷ rest, last)

  -- Its loop over the segments, which appends to what is there.
  unfoldable pub client_tones : ℕ → List (SignalPoint Double) → Double → List ℤ → List ℤ
  client_tones rate [] phase out = out
  client_tones rate (seg ∷ segments) phase out =
      let n = point_samples rate seg.duration_ms in
      let (more, last) = client_tone (is_pause lib seg) (step_of lib rate seg) n 0 n phase in
      client_tones rate segments last (out ++ more)

  -- std::vector<int16_t> AudioEngine::GenerateSignalPcm(int sampleRate, const SignalPattern& pattern)
  unfoldable pub generate_signal_pcm : ℤ → ClientPattern Double → List ℤ
  generate_signal_pcm (negsuc rate) pattern = []
  generate_signal_pcm (pos rate) pattern =
      let segments = repeated (repetitions pattern.repeat_count) pattern.points in
      let out = client_tones rate segments (literal "0.0") [] in
      if rate == 0 || is_empty pattern.points
      then []
      else if pattern.append_tail
      then append_silence rate roger_tail_ms out
      else out

  -- The same pattern for the library.
  abbrev pub library_pattern : ClientPattern Double → SignalPattern Double
  library_pattern pattern = record {
    points = pattern.points;
    tail_ms = if pattern.append_tail then pos roger_tail_ms else pos 0;
    repeat_count = pattern.repeat_count;
    gain = literal "0.26";
  }

  client_tone-tone :
      (pause : Bool) (step : Double) (left i n : ℕ) (phase : Double)
      → client_tone pause step left i n phase ≡ tone lib pause (literal "0.26") step left i n phase
  unfolding client_tone tone
  client_tone-tone pause step zero i n phase = refl
  client_tone-tone pause step (suc left) i n phase =
      ap (λ (p : List ℤ × Double). (sample lib pause (literal "0.26") phase i n ∷ p.0, p.1))
        (client_tone-tone pause step left (suc i) n (add phase step))

  client_tones-tones :
      (rate : ℕ) (segments : List (SignalPoint Double)) (phase : Double) (out : List ℤ)
      → client_tones rate segments phase out ≡ out ++ tones lib rate (literal "0.26") segments phase
  unfolding client_tones tones
  client_tones-tones rate [] phase out = sym (append-nil out)
  client_tones-tones rate (seg ∷ segments) phase out =
      let n = point_samples rate seg.duration_ms in
      let p = tone lib (is_pause lib seg) (literal "0.26") (step_of lib rate seg) n 0 n phase in
      rw (client_tone-tone (is_pause lib seg) (step_of lib rate seg) n 0 n phase)
        (client_tones-tones rate segments p.1 (out ++ p.0) ∙ append_assoc out p.0 _)

  -- The Windows client's own synthesis of a pattern is that of the library with the gain 0.26, and
  -- with a tail of 40 milliseconds where the client's pattern asks for one.
  pub generate_signal_pcm-generate_pcm :
      (rate : ℤ) (pattern : ClientPattern Double)
      → generate_signal_pcm rate pattern ≡ generate_pcm lib (library_pattern pattern) rate
  unfolding generate_signal_pcm generate_pcm append_silence
  generate_signal_pcm-generate_pcm (negsuc rate) pattern = refl
  generate_signal_pcm-generate_pcm (pos rate) pattern =
      let segments = repeated (repetitions pattern.repeat_count) pattern.points in
      ground (
        arith,
        client_tones-tones rate segments (literal "0.0") [],
        append-nil (tones lib rate (literal "0.26") segments (literal "0.0")),
      )
