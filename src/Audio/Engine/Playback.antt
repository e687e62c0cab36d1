-- ===== src/Audio/Engine/Playback.antt =====
-- What the engine plays (AudioEngine.cpp): the samples that come in, the sounds, and the pulses that
-- stand for them while the engine is on the air.
use Prim.Native.String.{String}
use o_walkie.Base.{
  ℕ, ℤ, ◌-◌, Bool, true, not, ◌||◌, List, [], ◌∷◌, ◌++◌, is_empty, take, clamp, leb, ◌==◌,
  if◌then◌else◌,
}
use o_walkie.Audio.{AudioLib, Double, synthesis_rate, resample_linear, append_vibration, apply_gain}
use o_walkie.Audio.Engine.{Engine, on_air, poll}

-- kParallelPulseMinGapNs, kParallelCollisionPulseMs
abbrev pub pulse_min_gap_ns : ℕ
pulse_min_gap_ns = 55000000

abbrev pub collision_pulse_ms : ℕ
collision_pulse_ms = 24

module _ (lib : AudioLib) where
  abbrev num : String → Double lib
  num = lib.double.literal

  -- PlayOneShotHighQuality(pcm, srcRate), on the sounds that are played
  abbrev pub add_one_shot : List ℤ → ℕ → List (List ℤ) → List (List ℤ)
  add_one_shot pcm rate shots =
      let pcm44 = resample_linear lib pcm rate synthesis_rate in
      if is_empty pcm || rate == 0 || is_empty pcm44 then shots else pcm44 ∷ shots

  -- std::clamp(freqHz, kTxCollisionVibrationHzMin, kTxCollisionVibrationHzMax)
  abbrev clamp_hz : Double lib → Double lib
  clamp_hz hz =
      if lib.double.lt hz (num "30.0")
      then num "30.0"
      else if lib.double.lt (num "500.0") hz
      then num "500.0"
      else hz

  -- void AudioEngine::PlayVibrationImitationPulse(int durationMs)
  unfoldable pub play_vibration_pulse : ℕ → Engine lib → Engine lib
  play_vibration_pulse duration e =
      let gain =
        lib.double.mul (lib.double.div (lib.double.of_int e.vibration_volume) (num "100.0"))
          (num "0.45") in
      let pcm =
        append_vibration lib true synthesis_rate (clamp_hz e.vibration_hz) gain (duration ∷ [])
          [] in
      record e {
        one_shots =
            if duration == 0 || e.vibration_volume == 0
            then e.one_shots
            else add_one_shot pcm synthesis_rate e.one_shots;
      }

  -- void AudioEngine::SetVibrationImitation(double freqHz, int volumePercent)
  unfoldable pub set_vibration : Double lib → ℤ → Engine lib → Engine lib
  set_vibration hz volume e = record e {
    vibration_hz = clamp_hz hz;
    vibration_volume = clamp volume 0 100;
  }

  -- void AudioEngine::SetRxVolumePercent(int percent)
  unfoldable pub set_rx_volume : ℤ → Engine lib → Engine lib
  set_rx_volume percent e = record e { rx_volume = clamp percent 0 200 }

  unfoldable pub pulse : ℕ → Engine lib → Engine lib
  unfolding play_vibration_pulse
  pulse now e =
      if leb pulse_min_gap_ns (now - e.last_pulse_ns)
      then play_vibration_pulse collision_pulse_ms (record e { last_pulse_ns = now })
      else e

  abbrev gained : Engine lib → List ℤ → List ℤ
  gained e samples =
      if e.rx_volume == 100
      then samples
      else apply_gain lib (lib.double.div (lib.double.of_int e.rx_volume) (num "100.0")) samples

  -- void AudioEngine::OnIncomingPcmFrame(const int16_t* samples, size_t count), with whether the
  -- playback device is open in the end, and the samples that its buffer has room for
  unfoldable pub on_incoming_pcm : ℕ → Bool → ℕ → List ℤ → Engine lib → Engine lib
  unfolding poll pulse
  on_incoming_pcm now opens room samples e =
      let seen = record e { last_inbound_ns = now } in
      let opened = record seen { playback_active = opens } in
      if is_empty samples || e.shutting_down
      then e
      else if on_air lib e
      then poll lib now (pulse now (record seen { last_rx_during_tx_ns = now }))
      else if not opens
      then opened
      else record opened { played = opened.played ++ take room (gained e samples) }
