-- ===== src/Audio/Calls/Signals.antt =====
-- The state that AudioEngine keeps between its calls, and the calls that stream a signal
-- (AudioEngine.cpp).
use o_walkie.Base.{
  ℕ, zero, suc, ℤ, ◌≤◌, ◌≡◌, refl, Bool, true, false, not, ◌||◌, List, [], ◌∷◌, length, is_empty,
  drop, if◌then◌else◌, if-holds,
}
use o_walkie.Audio.{AudioLib, Double}
use o_walkie.Audio.Engine.{
  Engine, initialize, on_air, poll, is_colliding, on_capture_frames, tx_pump_round, roger_pattern,
  call_pattern, start_transmit, stop_transmit,
}
use o_walkie.Audio.Engine.Playback.{on_incoming_pcm, set_rx_volume, set_vibration}
use o_walkie.Audio.Engine.Closing.{reconfigure, request_abort, prepare_for_exit, shutdown}
use o_walkie.Audio.Stream.{
  stream_rounds, stream_generated_signal, stream_roger_signal, stream_call_signal, started,
  roger_begun, call_begun, remote_pcm,
}

-- Notifications, newest first, that alternate, beginning with a collision, and end with the last one.
unfoldable pub Alternate : List Bool → Bool → Type 0
Alternate [] active = active ≡ false
Alternate (b ∷ bs) active = (b ≡ active) × Alternate bs (not b)

module _ (lib : AudioLib) where
  pub data Call : Type 0 where
    init : Bool → Call
    start : Bool → Bool → Call
    stop : ℕ → Bool → Call
    capture : List ℤ → Call
    pump : ℕ → Call
    receive : ℕ → Bool → ℕ → List ℤ → Call
    send_roger : ℕ → (ℕ → Bool) → Call
    send_call : ℕ → (ℕ → Bool) → Call
    abort : Call
    set_up : ℕ → ℕ → Bool → Call
    rx_percent : ℤ → Call
    vibrate : Double lib → ℤ → Call
    look : ℕ → Call
    exit : Bool → Call
    shut : ℕ → Bool → Bool → Call

  unfoldable pub perform : Call → Engine lib → Engine lib
  perform (init opens) e = initialize lib opens e
  perform (start opens starts) e = (start_transmit lib opens starts e).1
  perform (stop now free) e = stop_transmit lib now free e
  perform (capture input) e = on_capture_frames lib input e
  perform (pump now) e = tx_pump_round lib now e
  perform (receive now opens room samples) e = on_incoming_pcm lib now opens room samples e
  perform (send_roger now asked) e = (stream_roger_signal lib now asked e).1
  perform (send_call now asked) e = (stream_call_signal lib now asked e).1
  perform abort e = request_abort lib e
  perform (set_up sample_rate packet_ms opens) e = reconfigure lib sample_rate packet_ms opens e
  perform (rx_percent percent) e = set_rx_volume lib percent e
  perform (vibrate hz volume) e = set_vibration lib hz volume e
  perform (look now) e = poll lib now e
  perform (exit free) e = prepare_for_exit lib free e
  perform (shut now free_to_stop free) e = shutdown lib now free_to_stop free e

  unfoldable pub perform_all : List Call → Engine lib → Engine lib
  perform_all [] e = e
  perform_all (c ∷ cs) e = perform_all cs (perform c e)

  -- The notifications of collisions alternate, and the last one is the current state; no signal is
  -- being streamed; a pump that runs is not told to stop; an engine that transmits captures and has
  -- a pump; the two percentages are in their ranges.
  abbrev pub Facts : Engine lib → Type 0
  Facts e =
      Alternate e.collisions e.collision_active
      × (e.signal_streaming ≡ false)
      × (e.pump_running ≡ true → e.tx_pump_stop ≡ false)
      × (e.transmitting ≡ true → (e.capture_active ≡ true) × (e.pump_running ≡ true))
      × (e.rx_volume ≤ 200)
      × (e.vibration_volume ≤ 100)

  pub record IsSound (e : Engine lib) : Type 0 where
    pub facts : Facts e

  abbrev pub with_facts : {e : Engine lib} → Facts e → IsSound e
  with_facts f = record { facts = f }

  pub told :
      (active prev : Bool) (bs : List Bool)
      → Alternate bs prev
      → Alternate (if (if active then prev else not prev) then bs else active ∷ bs) active
  unfolding Alternate
  told true true bs h = h
  told true false bs h = (refl, h)
  told false true bs h = (refl, h)
  told false false bs h = h

  pub over :
      (prev : Bool) (bs : List Bool)
      → Alternate bs prev
      → Alternate (if prev then false ∷ bs else bs) false
  unfolding Alternate
  over true bs h = (refl, h)
  over false bs h = h

  pub poll-IsSound : (now : ℕ) (e : Engine lib) → IsSound e → IsSound (poll lib now e)
  unfolding poll
  poll-IsSound now e s =
      let f = s.facts in
      with_facts
        (told (is_colliding lib now e) e.collision_active e.collisions f.0, f.1, f.2, f.3, f.4, f.5)

  -- The same but for a signal that is being streamed.
  record Kept (e : Engine lib) : Type 0 where
    kept : Facts (record e { signal_streaming = false })

  stream_rounds-Kept :
      (fuel : ℕ) (asked : ℕ → Bool) (k n : ℕ) (pcm : List ℤ) (e : Engine lib)
      → Kept e
      → Kept (stream_rounds lib fuel asked k n pcm e).1
  unfolding stream_rounds
  stream_rounds-Kept zero asked k n pcm e s = s
  stream_rounds-Kept (suc fuel) asked k n [] e s = s
  stream_rounds-Kept (suc fuel) asked k n (x ∷ xs) e s =
      if-holds (λ (p : Bool × Engine lib). Kept p.1) (e.abort_requested || asked k) _ _
        (record { kept = s.kept })
        (stream_rounds-Kept fuel asked (suc k) n (drop n (x ∷ xs)) _ (record { kept = s.kept }))

  stream_generated_signal-Kept :
      (asked : ℕ → Bool) (pcm : List ℤ) (e : Engine lib)
      → Kept e
      → Kept (stream_generated_signal lib asked pcm e).1
  unfolding stream_generated_signal
  stream_generated_signal-Kept asked pcm e s =
      if-holds (λ (p : Bool × Engine lib). Kept p.1) _ _ _ s
        (stream_rounds-Kept (suc (length pcm)) asked 0 _ pcm e s)

  ended-IsSound :
      (now : ℕ) (e : Engine lib)
      → Kept e
      → IsSound (poll lib now (record e { signal_streaming = false }))
  ended-IsSound now e s =
      poll-IsSound now (record e { signal_streaming = false }) (with_facts (s.kept))

  off : (e : Engine lib) → IsSound e → Facts (record e { signal_streaming = false })
  off e s = let f = s.facts in (f.0, refl, f.2, f.3, f.4, f.5)

  pub stream_roger_signal-IsSound :
      (now : ℕ) (asked : ℕ → Bool) (e : Engine lib)
      → IsSound e
      → IsSound (stream_roger_signal lib now asked e).1
  unfolding stream_roger_signal
  stream_roger_signal-IsSound now asked e s =
      let k : Kept (roger_begun lib e) = record { kept = off e s } in
      if-holds (λ (p : Bool × Engine lib). IsSound p.1) (on_air lib e) _ _ s
        (if-holds (λ (p : Bool × Engine lib). IsSound p.1)
          (is_empty (remote_pcm lib (roger_pattern lib e) e)) _ _
          (ended-IsSound now (roger_begun lib e) (record { kept = off e s }))
          (ended-IsSound now
            (stream_generated_signal lib asked (remote_pcm lib (roger_pattern lib e) e)
              (roger_begun lib e)).1
            (stream_generated_signal-Kept asked (remote_pcm lib (roger_pattern lib e) e)
              (roger_begun lib e) k)))

  pub stream_call_signal-IsSound :
      (now : ℕ) (asked : ℕ → Bool) (e : Engine lib)
      → IsSound e
      → IsSound (stream_call_signal lib now asked e).1
  unfolding stream_call_signal
  stream_call_signal-IsSound now asked e s =
      let k : Kept (call_begun lib e) = record { kept = off e s } in
      if-holds (λ (p : Bool × Engine lib). IsSound p.1) (on_air lib e) _ _ s
        (if-holds (λ (p : Bool × Engine lib). IsSound p.1)
          (is_empty (call_pattern lib e).pattern.points) _ _
          (ended-IsSound now (started lib e) (record { kept = off e s }))
          (ended-IsSound now
            (stream_generated_signal lib asked (remote_pcm lib (call_pattern lib e) e)
              (call_begun lib e)).1
            (stream_generated_signal-Kept asked (remote_pcm lib (call_pattern lib e) e)
              (call_begun lib e) k)))
