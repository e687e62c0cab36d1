-- ===== src/Audio/Engine/Closing.antt =====
-- How the engine is set up again and how it ends: Reconfigure, RequestAbortOutgoingSignalStream,
-- PrepareForExit and Shutdown of AudioEngine.cpp.
use o_walkie.Base.{ℕ, Bool, true, false, [], ◌∷◌, if◌then◌else◌}
use o_walkie.Audio.{AudioLib}
use o_walkie.Audio.Engine.{Engine, close_capture, stop_transmit}

module _ (lib : AudioLib) where
  -- void AudioEngine::Reconfigure(const WelcomeConfig& cfg), with whether the playback device opens
  unfoldable pub reconfigure : ℕ → ℕ → Bool → Engine lib → Engine lib
  reconfigure sample_rate packet_ms opens e =
      let stopped =
        if e.capture_active
        then record e {
          transmitting = false;
          tx_pump_stop = true;
          pump_running = false;
          capture_active = false;
          capture_fifo = [];
        }
        else e in
      record stopped {
        shutting_down = false;
        sample_rate = sample_rate;
        packet_ms = packet_ms;
        playback_active = opens;
      }

  -- void AudioEngine::RequestAbortOutgoingSignalStream()
  abbrev pub request_abort : Engine lib → Engine lib
  request_abort e = record e { abort_requested = true }

  -- void AudioEngine::PrepareForExit(), with whether its attempts find the lock free
  unfoldable pub prepare_for_exit : Bool → Engine lib → Engine lib
  prepare_for_exit free e =
      let quiet = record e {
        shutting_down = true;
        transmitting = false;
        signal_streaming = false;
      } in
      if free then close_capture lib (record quiet { playback_active = false }) else quiet

  abbrev collision_over : Engine lib → Engine lib
  collision_over e = record e {
    collision_active = false;
    collisions = if e.collision_active then false ∷ e.collisions else e.collisions;
    last_rx_during_tx_ns = 0;
  }

  -- void AudioEngine::Shutdown(), with whether the attempts of StopTransmit and its own find the lock
  -- free
  unfoldable pub shutdown : ℕ → Bool → Bool → Engine lib → Engine lib
  unfolding stop_transmit
  shutdown now free_to_stop free e =
      let over =
        collision_over (stop_transmit lib now free_to_stop (record e { shutting_down = true })) in
      if free then record over { playback_active = false; context_ready = false } else over
