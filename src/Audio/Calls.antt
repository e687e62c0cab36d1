-- ===== src/Audio/Calls.antt =====
-- The calls of AudioEngine in any order, and what holds of the engine between them
-- (AudioEngine.cpp). Each call is one step.
pub mod Signals
use o_walkie.Base.{
  ℕ, ℤ, ◌-◌, ◌≡◌, refl, Bool, leb, true, false, not, ◌&&◌, ◌||◌, List, [], ◌∷◌, length, is_empty,
  take, drop, clamp_bounds, ltb, ◌==◌, if-holds, if-cases, arith,
}
use o_walkie.Audio.{AudioLib}
use o_walkie.Audio.Engine.{
  Engine, new_engine, on_air, poll, is_colliding, on_capture_frames, tx_pump_round, frame_samples,
  level_of, start_transmit, stop_transmit,
}
use o_walkie.Audio.Engine.Playback.{
  on_incoming_pcm, pulse, play_vibration_pulse, set_rx_volume, pulse_min_gap_ns, set_vibration,
}
use o_walkie.Audio.Engine.Closing.{reconfigure, prepare_for_exit, shutdown}
use o_walkie.Audio.Calls.Signals.{
  Call, init, start, stop, capture, pump, receive, send_roger, send_call, abort, set_up, rx_percent,
  vibrate, look, exit, shut, perform, perform_all, IsSound, with_facts, told, over, poll-IsSound,
  stream_roger_signal-IsSound, stream_call_signal-IsSound, Alternate,
}

module _ (lib : AudioLib) where
  not_on : {P : Type 0} → false ≡ true → P
  not_on h = absurd (ground (arith, h))

  start_transmit-IsSound :
      (opens starts : Bool) (e : Engine lib)
      → IsSound lib e
      → IsSound lib (start_transmit lib opens starts e).1
  unfolding start_transmit
  start_transmit-IsSound opens starts e s =
      let f = s.facts in
      if-holds (λ (p : Bool × Engine lib). IsSound lib p.1)
        (e.capture_active || e.signal_streaming || not e.context_ready || not opens) _ _ s
        (if-holds (λ (p : Bool × Engine lib). IsSound lib p.1) (not starts) _ _
          (with_facts lib (f.0, f.1, f.2, not_on, f.4, f.5))
          (if-cases (IsSound lib) e.pump_running _ _
            (λ h. with_facts lib (f.0, f.1, f.2, (λ _. (refl, h)), f.4, f.5))
            (λ h. with_facts lib (f.0, f.1, (λ _. refl), (λ _. (refl, refl)), f.4, f.5))))

  stop_transmit-IsSound :
      (now : ℕ) (free : Bool) (e : Engine lib)
      → IsSound lib e
      → IsSound lib (stop_transmit lib now free e)
  unfolding stop_transmit
  stop_transmit-IsSound now free e s =
      let f = s.facts in
      let quiet = record e { transmitting = false } in
      let p = poll-IsSound lib now quiet (with_facts lib (f.0, f.1, f.2, not_on, f.4, f.5)) in
      let t = told lib (is_colliding lib now quiet) e.collision_active e.collisions f.0 in
      if-holds (IsSound lib) (e.shutting_down && not free) _ _ p
        (with_facts lib (t, f.1, not_on, not_on, f.4, f.5))

  on_capture_frames-IsSound :
      (input : List ℤ) (e : Engine lib)
      → IsSound lib e
      → IsSound lib (on_capture_frames lib input e)
  unfolding on_capture_frames
  on_capture_frames-IsSound input e s =
      if-holds (IsSound lib) (not e.transmitting || is_empty input) _ _ s (with_facts lib (s.facts))

  tx_pump_round-IsSound :
      (now : ℕ) (e : Engine lib) → IsSound lib e → IsSound lib (tx_pump_round lib now e)
  unfolding tx_pump_round
  tx_pump_round-IsSound now e s =
      let m = frame_samples lib e in
      let taken = record e { capture_fifo = drop m e.capture_fifo } in
      let f = s.facts in
      if-holds (IsSound lib)
        (e.tx_pump_stop || not e.transmitting || m == 0 || ltb (length e.capture_fifo) m) _ _ s
        (if-holds
          (λ d. IsSound lib (record d {
            levels = level_of (take m e.capture_fifo) ∷ d.levels;
            frames = take m e.capture_fifo ∷ d.frames;
          }))
          (on_air lib taken) (poll lib now taken) taken
          (with_facts lib ((poll-IsSound lib now taken (with_facts lib f)).facts))
          (with_facts lib f))

  pulse-IsSound : (now : ℕ) (e : Engine lib) → IsSound lib e → IsSound lib (pulse lib now e)
  unfolding pulse play_vibration_pulse
  pulse-IsSound now e s =
      if-holds (IsSound lib) (leb pulse_min_gap_ns (now - e.last_pulse_ns)) _ _
        (with_facts lib (s.facts)) s

  on_incoming_pcm-IsSound :
      (now room : ℕ) (opens : Bool) (samples : List ℤ) (e : Engine lib)
      → IsSound lib e
      → IsSound lib (on_incoming_pcm lib now opens room samples e)
  unfolding on_incoming_pcm
  on_incoming_pcm-IsSound now room opens samples e s =
      let f = s.facts in
      if-holds (IsSound lib) (is_empty samples || e.shutting_down) _ _ s (
        if-holds (IsSound lib) (on_air lib e) _ _
          (poll-IsSound lib now _ (pulse-IsSound now _ (with_facts lib f)))
          (if-holds (IsSound lib) (not opens) _ _ (with_facts lib f) (with_facts lib f)))

  reconfigure-IsSound :
      (rate ms : ℕ) (opens : Bool) (e : Engine lib)
      → IsSound lib e
      → IsSound lib (reconfigure lib rate ms opens e)
  unfolding reconfigure
  reconfigure-IsSound rate ms opens e s =
      let f = s.facts in
      if-holds
        (λ d. IsSound lib (record d {
          shutting_down = false;
          sample_rate = rate;
          packet_ms = ms;
          playback_active = opens;
        }))
        e.capture_active _ e (with_facts lib (f.0, f.1, not_on, not_on, f.4, f.5))
        (with_facts lib f)

  prepare_for_exit-IsSound :
      (free : Bool) (e : Engine lib) → IsSound lib e → IsSound lib (prepare_for_exit lib free e)
  unfolding prepare_for_exit
  prepare_for_exit-IsSound free e s =
      let f = s.facts in
      if-holds (IsSound lib) free _ _ (with_facts lib (f.0, refl, f.2, not_on, f.4, f.5))
        (with_facts lib (f.0, refl, f.2, not_on, f.4, f.5))

  shutdown-IsSound :
      (now : ℕ) (free_to_stop free : Bool) (e : Engine lib)
      → IsSound lib e
      → IsSound lib (shutdown lib now free_to_stop free e)
  unfolding shutdown
  shutdown-IsSound now free_to_stop free e s =
      let begun = record e { shutting_down = true } in
      let f = (stop_transmit-IsSound now free_to_stop begun (with_facts lib (s.facts))).facts in
      let q = over lib _ _ f.0 in
      if-holds (IsSound lib) free _ _ (with_facts lib (q, f.1, f.2, f.3, f.4, f.5))
        (with_facts lib (q, f.1, f.2, f.3, f.4, f.5))

  perform-IsSound : (c : Call lib) (e : Engine lib) → IsSound lib e → IsSound lib (perform lib c e)
  unfolding perform set_rx_volume set_vibration
  perform-IsSound (init opens) e s = with_facts lib (s.facts)
  perform-IsSound (start opens starts) e s = start_transmit-IsSound opens starts e s
  perform-IsSound (stop now free) e s = stop_transmit-IsSound now free e s
  perform-IsSound (capture input) e s = on_capture_frames-IsSound input e s
  perform-IsSound (pump now) e s = tx_pump_round-IsSound now e s
  perform-IsSound (receive now opens room samples) e s =
      on_incoming_pcm-IsSound now room opens samples e s
  perform-IsSound (send_roger now asked) e s = stream_roger_signal-IsSound lib now asked e s
  perform-IsSound (send_call now asked) e s = stream_call_signal-IsSound lib now asked e s
  perform-IsSound abort e s = with_facts lib (s.facts)
  perform-IsSound (set_up sample_rate packet_ms opens) e s =
      reconfigure-IsSound sample_rate packet_ms opens e s
  perform-IsSound (rx_percent percent) e s =
      let f = s.facts in
      with_facts lib (f.0, f.1, f.2, f.3, (clamp_bounds percent 0 200 (omega arith)).1, f.5)
  perform-IsSound (vibrate hz volume) e s =
      let f = s.facts in
      with_facts lib (f.0, f.1, f.2, f.3, f.4, (clamp_bounds volume 0 100 (omega arith)).1)
  perform-IsSound (look now) e s = poll-IsSound lib now e s
  perform-IsSound (exit free) e s = prepare_for_exit-IsSound free e s
  perform-IsSound (shut now free_to_stop free) e s = shutdown-IsSound now free_to_stop free e s

  perform_all-IsSound_from :
      (cs : List (Call lib)) (e : Engine lib) → IsSound lib e → IsSound lib (perform_all lib cs e)
  unfolding perform_all
  perform_all-IsSound_from [] e s = s
  perform_all-IsSound_from (c ∷ cs) e s =
      perform_all-IsSound_from cs (perform lib c e) (perform-IsSound c e s)

  -- After any sequence of calls of a new engine, the notifications of collisions alternate, beginning
  -- with one that a collision begins, and the last one is the state that the engine reports; no
  -- signal is left in the state of being streamed; an engine that transmits captures and has a pump
  -- that is not told to stop; and the volumes are at most 200 and 100 percent.
  pub perform_all-IsSound :
      (cs : List (Call lib)) → IsSound lib (perform_all lib cs (new_engine lib))
  unfolding Alternate
  perform_all-IsSound cs =
      perform_all-IsSound_from cs (new_engine lib)
        (with_facts lib (refl, refl, not_on, not_on, omega arith, omega arith))

  -- An engine that has stopped transmitting and streams no signal reports no collision.
  pub stop_transmit-quiet :
      (now : ℕ) (free : Bool) (e : Engine lib)
      → e.signal_streaming ≡ false
      → ((stop_transmit lib now free e).transmitting ≡ false)
        × ((stop_transmit lib now free e).collision_active ≡ false)
  unfolding stop_transmit poll
  stop_transmit-quiet now free e h = ground (arith, h)
