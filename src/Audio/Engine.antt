-- ===== src/Audio/Engine.antt =====
-- The class AudioEngine of windows-client-cpp/src/AudioEngine.cpp: its fields, and its functions as
-- functions on them. Whether a device opens is an argument. What the callbacks get, and the sounds
-- that are played, are recorded in the state, newest first.
pub mod Playback
pub mod Closing
pub mod Pump
use Prim.Native.String.{String}
use o_walkie.Base.{
  ℕ, ℤ, pos, negsuc, ◌+◌, ◌-◌, ◌*◌, ◌/◌, max, min, Bool, true, false, not, ◌&&◌, ◌||◌, List, [],
  ◌∷◌, ◌++◌, length, is_empty, take, drop, leb, ltb, ◌==◌, if◌then◌else◌,
}
use o_walkie.Audio.{
  AudioLib, NamedPattern, Double, roger_patterns, call_patterns, no_signal, call_variant_1,
  find_pattern,
}

-- kParallelRxDuringTxStaleNs
abbrev pub rx_during_tx_stale_ns : ℕ
rx_during_tx_stale_ns = 250000000

-- std::abs of a sample
abbrev magnitude : ℤ → ℕ
magnitude (pos n) = n
magnitude (negsuc n) = n + 1

-- The loop that finds the peak of a frame, and the level of the microphone that it gives.
pub peak_of : ℕ → List ℤ → ℕ
peak_of peak [] = peak
peak_of peak (s ∷ frame) = peak_of (max peak (magnitude s)) frame

abbrev pub level_of : List ℤ → ℕ
level_of frame = min (peak_of 0 frame * 100 / 32767) 100

module _ (lib : AudioLib) where
  abbrev num : String → Double lib
  num = lib.double.literal

  -- The fields of the class. The pump is whether txPumpThread_ is joinable.
  pub record Engine : Type 0 where
    pub context_ready : Bool
    pub capture_active : Bool
    pub playback_active : Bool
    pub sample_rate : ℕ
    pub packet_ms : ℕ
    pub roger_pattern_id : String
    pub call_pattern_id : String
    pub custom_roger : List (NamedPattern (Double lib))
    pub custom_call : List (NamedPattern (Double lib))
    pub capture_fifo : List ℤ
    pub pump_running : Bool
    pub tx_pump_stop : Bool
    pub transmitting : Bool
    pub shutting_down : Bool
    pub signal_streaming : Bool
    pub abort_requested : Bool
    pub last_inbound_ns : ℕ
    pub last_rx_during_tx_ns : ℕ
    pub last_pulse_ns : ℕ
    pub collision_active : Bool
    pub rx_volume : ℕ
    pub vibration_hz : Double lib
    pub vibration_volume : ℕ
    pub frames : List (List ℤ)
    pub levels : List ℕ
    pub collisions : List Bool
    pub one_shots : List (List ℤ)
    pub played : List ℤ

  -- The values that the fields begin with
  abbrev pub new_engine : Engine
  new_engine = record {
    context_ready = false;
    capture_active = false;
    playback_active = false;
    sample_rate = 8000;
    packet_ms = 20;
    roger_pattern_id = "variant_1";
    call_pattern_id = "call_variant_1";
    custom_roger = [];
    custom_call = [];
    capture_fifo = [];
    pump_running = false;
    tx_pump_stop = false;
    transmitting = false;
    shutting_down = false;
    signal_streaming = false;
    abort_requested = false;
    last_inbound_ns = 0;
    last_rx_during_tx_ns = 0;
    last_pulse_ns = 0;
    collision_active = false;
    rx_volume = 100;
    vibration_hz = num "100.0";
    vibration_volume = 40;
    frames = [];
    levels = [];
    collisions = [];
    one_shots = [];
    played = [];
  }

  -- bool AudioEngine::Initialize(), with whether the context is initialised
  abbrev pub initialize : Bool → Engine → Engine
  initialize opens e = record e { shutting_down = false; context_ready = e.context_ready || opens }

  -- int AudioEngine::FrameSamples() const
  abbrev pub frame_samples : Engine → ℕ
  frame_samples e = e.sample_rate * e.packet_ms / 1000

  abbrev pub on_air : Engine → Bool
  on_air e = e.transmitting || e.signal_streaming

  -- bool active of PollParallelTxCollisionState
  abbrev pub is_colliding : ℕ → Engine → Bool
  is_colliding now e =
      on_air e
      && not (e.last_rx_during_tx_ns == 0)
      && leb (now - e.last_rx_during_tx_ns) rx_during_tx_stale_ns

  abbrev pub set_collision : Bool → Engine → Engine
  set_collision active e =
      let same = if active then e.collision_active else not e.collision_active in
      record e {
        collision_active = active;
        collisions = if same then e.collisions else active ∷ e.collisions;
      }

  -- void AudioEngine::PollParallelTxCollisionState(int64_t steadyNowNs)
  unfoldable pub poll : ℕ → Engine → Engine
  poll now e = set_collision (is_colliding now e) e

  -- FindRogerPatternLocked and FindCallPatternLocked
  abbrev pub roger_pattern : Engine → NamedPattern (Double lib)
  roger_pattern e =
      find_pattern lib e.roger_pattern_id (roger_patterns lib ++ e.custom_roger) (no_signal lib)

  abbrev pub call_pattern : Engine → NamedPattern (Double lib)
  call_pattern e =
      find_pattern lib e.call_pattern_id (call_patterns lib ++ e.custom_call) (call_variant_1 lib)

  -- void AudioEngine::CloseCaptureDeviceLocked()
  abbrev pub close_capture : Engine → Engine
  close_capture e = record e { capture_active = false; capture_fifo = [] }

  -- void AudioEngine::StopTransmit(), with whether its attempts find the lock free at a shutdown; the
  -- pump is joined
  unfoldable pub stop_transmit : ℕ → Bool → Engine → Engine
  unfolding poll
  stop_transmit now free e =
      let quiet = poll now (record e { transmitting = false }) in
      if e.shutting_down && not free
      then quiet
      else close_capture (record quiet { tx_pump_stop = true; pump_running = false })

  -- void AudioEngine::StartTxPumpThreadLocked()
  abbrev start_pump : Engine → Engine
  start_pump e =
      if e.pump_running then e else record e { tx_pump_stop = false; pump_running = true }

  -- bool AudioEngine::StartTransmit(), with whether the device is initialised and whether it starts
  unfoldable pub start_transmit : Bool → Bool → Engine → Bool × Engine
  start_transmit opens starts e =
      let fresh = record e {
        capture_fifo = [];
        last_rx_during_tx_ns = 0;
        last_pulse_ns = 0;
        transmitting = true;
      } in
      if e.capture_active || e.signal_streaming || not e.context_ready || not opens
      then (false, e)
      else if not starts
      then (false, record fresh { transmitting = false })
      else (true, start_pump (record fresh { capture_active = true }))

  -- void AudioEngine::OnCaptureFrames(const void* pInput, ma_uint32 frameCount)
  unfoldable pub on_capture_frames : List ℤ → Engine → Engine
  on_capture_frames input e =
      if not e.transmitting || is_empty input
      then e
      else record e { capture_fifo = e.capture_fifo ++ input }

  -- One round of AudioEngine::TxPumpLoop(); a round that has nothing to send leaves the engine as
  -- it is.
  unfoldable pub tx_pump_round : ℕ → Engine → Engine
  unfolding poll
  tx_pump_round now e =
      let n = frame_samples e in
      let frame = take n e.capture_fifo in
      let taken = record e { capture_fifo = drop n e.capture_fifo } in
      let polled = if on_air taken then poll now taken else taken in
      if e.tx_pump_stop || not e.transmitting || n == 0 || ltb (length e.capture_fifo) n
      then e
      else record polled { levels = level_of frame ∷ polled.levels; frames = frame ∷ polled.frames }
