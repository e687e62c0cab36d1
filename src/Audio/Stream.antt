-- ===== src/Audio/Stream.antt =====
-- The signals that AudioEngine sends as frames: StreamGeneratedSignal, StreamRogerSignal and
-- StreamCallSignal of windows-client-cpp/src/AudioEngine.cpp. An abort is requested by another thread:
-- an argument says before which rounds of the loop.
pub mod Frames
use Prim.Native.String.{String}
use o_walkie.Base.{
  ℕ, zero, suc, ℤ, pos, ◌+◌, Bool, true, false, not, ◌||◌, List, [], ◌∷◌, ◌++◌, length, is_empty,
  take, drop, ◌==◌, if◌then◌else◌,
}
use o_walkie.Session.Transmit.{pad}
use o_walkie.Tone.Client.{generate_signal_pcm, append_silence}
use o_walkie.Audio.{
  AudioLib, NamedPattern, Double, synthesis_rate, resample_linear, append_tone, apply_gain,
  load_sound,
}
use o_walkie.Audio.Engine.{Engine, frame_samples, on_air, poll, roger_pattern, call_pattern}
use o_walkie.Audio.Engine.Playback.{add_one_shot}

module _ (lib : AudioLib) where
  -- The loop over a signal, with the number of the round
  unfoldable pub stream_rounds : ℕ → (ℕ → Bool) → ℕ → ℕ → List ℤ → Engine lib → Bool × Engine lib
  stream_rounds zero asked k n pcm e = (true, e)
  stream_rounds (suc fuel) asked k n [] e = (true, e)
  stream_rounds (suc fuel) asked k n (x ∷ xs) e =
      let frame = take n (pad n (x ∷ xs)) in
      let sent = record e { frames = frame ∷ e.frames } in
      let rest = stream_rounds fuel asked (suc k) n (drop n (x ∷ xs)) sent in
      if e.abort_requested || asked k then (false, record e { abort_requested = false }) else rest

  -- bool AudioEngine::StreamGeneratedSignal(const std::vector<int16_t>& pcmSignal)
  unfoldable pub stream_generated_signal : (ℕ → Bool) → List ℤ → Engine lib → Bool × Engine lib
  unfolding stream_rounds
  stream_generated_signal asked pcm e =
      let n = frame_samples lib e in
      if is_empty pcm || not e.context_ready || n == 0
      then (false, e)
      else stream_rounds (suc (length pcm)) asked 0 n pcm e

  abbrev pub started : Engine lib → Engine lib
  started e = record e {
    signal_streaming = true;
    abort_requested = false;
    last_rx_during_tx_ns = 0;
    last_pulse_ns = 0;
  }

  abbrev ended : ℕ → Engine lib → Engine lib
  ended now e = poll lib now (record e { signal_streaming = false })

  -- What is played here when the button is released, before the pattern
  abbrev release_sound : List ℤ
  release_sound =
      let loaded = load_sound lib "selfttdown_002" synthesis_rate in
      let made =
        append_tone lib synthesis_rate (lib.double.literal "760.0") 28 (lib.double.literal "0.18")
          [] in
      if is_empty loaded then append_silence synthesis_rate 18 made else loaded

  -- A pattern at the rate of the engine, as it goes to the other side
  abbrev pub remote_pcm : NamedPattern (Double lib) → Engine lib → List ℤ
  remote_pcm p e =
      if is_empty p.pattern.points
      then []
      else resample_linear lib (generate_signal_pcm lib.double (pos synthesis_rate) p.pattern)
          synthesis_rate e.sample_rate

  abbrev local_pcm : String → NamedPattern (Double lib) → List ℤ
  local_pcm gain p =
      apply_gain lib (lib.double.literal gain)
        (generate_signal_pcm lib.double (pos synthesis_rate) p.pattern)

  abbrev roger_local : NamedPattern (Double lib) → List ℤ
  roger_local p =
      if is_empty p.pattern.points then release_sound else release_sound ++ local_pcm "0.9" p

  -- The engine after what is played here, before the stream
  abbrev pub roger_begun : Engine lib → Engine lib
  roger_begun e = record (started e) {
    one_shots = add_one_shot lib (roger_local (roger_pattern lib e)) synthesis_rate e.one_shots;
  }

  abbrev pub call_begun : Engine lib → Engine lib
  call_begun e = record (started e) {
    one_shots = add_one_shot lib (local_pcm "0.55" (call_pattern lib e)) synthesis_rate e.one_shots;
  }

  -- bool AudioEngine::StreamRogerSignal(), with the time at its end
  unfoldable pub stream_roger_signal : ℕ → (ℕ → Bool) → Engine lib → Bool × Engine lib
  unfolding stream_generated_signal poll
  stream_roger_signal now asked e =
      let p = roger_pattern lib e in
      let remote = remote_pcm p e in
      let heard = roger_begun e in
      let (ok, streamed) = stream_generated_signal asked remote heard in
      if on_air lib e
      then (false, e)
      else if is_empty remote
      then (true, ended now heard)
      else (ok, ended now streamed)

  -- bool AudioEngine::StreamCallSignal(), with the time at its end
  unfoldable pub stream_call_signal : ℕ → (ℕ → Bool) → Engine lib → Bool × Engine lib
  unfolding stream_generated_signal poll
  stream_call_signal now asked e =
      let p = call_pattern lib e in
      let heard = call_begun e in
      let (ok, streamed) = stream_generated_signal asked (remote_pcm p e) heard in
      if on_air lib e
      then (false, e)
      else if is_empty p.pattern.points
      then (false, ended now (started e))
      else (ok, ended now streamed)
