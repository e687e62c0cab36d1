-- ===== src/Ptt/Steps/Orderly.antt =====
-- Push to talk in any order of events of the main window (MainFrame.cpp): the lock of the server, and
-- the guard against bursts of releases.
pub mod Presses
use Prim.Native.String.{String}
use o_walkie.Base.{
  ℕ, ℤ, ◌+◌, ◌≡◌, refl, ◌∙◌, Bool, true, false, not, ◌&&◌, ◌||◌, List, [], ◌∷◌, ◌==◌, if◌then◌else◌,
  if-holds, if-cases, arith,
}
use o_walkie.Audio.{AudioLib}
use o_walkie.Audio.Engine.{Engine, on_air, stop_transmit, tx_pump_round, poll}
use o_walkie.Audio.Engine.Playback.{play_vibration_pulse}
use o_walkie.Audio.Engine.Closing.{request_abort}
use o_walkie.Audio.Stream.{stream_call_signal}
use o_walkie.Audio.Cues.{play_connection_error}
use o_walkie.Ptt.Frame.{
  Frame, Answers, Posted, begin_tx, end_tx, toggle_tx, sync_burst, show_status, stop_tx_countdown,
  with_engine, refresh, end_ptt_tx,
}
use o_walkie.Ptt.Handlers.{
  force_abort, removed, decay_expired, run_posted, run_first, on_ptt_down, on_ptt_up, on_space_down,
  on_space_up, on_ptt_clicked, on_global_key, on_call_signal_clicked, on_tx_stop, tx_countdown_tick,
  busy_tick, on_rx_broadcast_start, on_rx_broadcast_end, on_server_ptt_lock, on_server_ptt_unlock,
  on_connected, on_welcome, on_disconnect_clicked, on_pump_round,
}
use o_walkie.Ptt.Switches.{
  on_profile_choice, on_connect_uri_applied, on_mode_chosen, left_connection, dialled_again,
}
use o_walkie.Ptt.Steps.{
  Event, ptt_down, ptt_up, space_down, space_up, ptt_clicked, global_key, next_posted, call_clicked,
  tx_stop, decay, countdown_start, countdown_tick, busy_second, rx_start, rx_end, lock, unlock,
  relay_becomes, connected_told, welcomed, disconnect_clicked, pumped, profile_chosen, uri_applied,
  mode_chosen, handle, handle_all,
}
use o_walkie.Ptt.Steps.Orderly.Presses.{
  Guarded, IsOrderly, orderly, is_in-removed, begin_ptt_tx-IsOrderly, end_ptt_tx-IsOrderly,
  toggle_ptt_tx-IsOrderly,
}

module _ (lib : AudioLib) where
  run_first-IsOrderly :
      (a : Answers) (posted : List Posted) (f : Frame lib)
      → IsOrderly lib f
      → IsOrderly lib (run_first lib a posted f)
  unfolding run_first run_posted refresh
  run_first-IsOrderly a [] f o = o
  run_first-IsOrderly a (begin_tx ∷ posted) f o =
      begin_ptt_tx-IsOrderly lib a _ (orderly lib (o.facts))
  run_first-IsOrderly a (end_tx ∷ posted) f o = end_ptt_tx-IsOrderly lib a _ (orderly lib (o.facts))
  run_first-IsOrderly a (toggle_tx ∷ posted) f o =
      toggle_ptt_tx-IsOrderly lib a _ (orderly lib (o.facts))
  run_first-IsOrderly a (sync_burst ∷ posted) f o =
      if-holds (IsOrderly lib) f.burst_blocked _ _ (orderly lib (o.facts)) (orderly lib (o.facts))
  run_first-IsOrderly a (show_status s ∷ posted) f o = orderly lib (o.facts)

  decay_expired-IsOrderly :
      (ticket : ℕ) (f : Frame lib) → IsOrderly lib f → IsOrderly lib (decay_expired lib ticket f)
  unfolding decay_expired refresh
  decay_expired-IsOrderly ticket f o =
      let x = o.facts in
      let calm : Guarded lib f.burst_ticket 0 false (removed ticket f.decay_timers) =
        (refl, (λ h. absurd (h refl))) in
      if-cases (IsOrderly lib) (not (f.burst_ticket == ticket)) _ _
        (λ h. orderly lib (
          (
            x.0.0,
            (λ k.
                is_in-removed lib f.burst_ticket ticket f.decay_timers (ground (arith, h))
                  (x.0.1 k)),
          ),
          x.1,
        ))
        (λ h.
          if-holds (IsOrderly lib) f.relay_ready _ _ (orderly lib (calm, x.1))
            (orderly lib (calm, x.1)))

  unlocked :
      (f : Frame lib) {P : Type 0}
      → (not f.relay_ready || on_air lib f.engine || f.server_ptt_locked) ≡ false
      → f.server_ptt_locked ≡ true
      → P
  unlocked f h k = absurd (ground (arith, h, k))

  on_call_signal_clicked-IsOrderly :
      (a : Answers) (f : Frame lib)
      → IsOrderly lib f
      → IsOrderly lib (on_call_signal_clicked lib a f)
  unfolding on_call_signal_clicked with_engine refresh
  on_call_signal_clicked-IsOrderly a f o =
      let x = o.facts in
      if-cases (IsOrderly lib) (not f.relay_ready || on_air lib f.engine || f.server_ptt_locked) f _
        (λ _. o)
        (λ h. if-holds (IsOrderly lib) (not a.uplink_opens) _ _ (orderly lib (x.0, x.1)) (
          if-holds (IsOrderly lib) (stream_call_signal lib a.now a.abort_asked f.engine).0 _ _
            (orderly lib (x.0, unlocked f h)) (orderly lib (x.0, unlocked f h))))

  on_tx_stop-IsOrderly :
      (a : Answers) (f : Frame lib) → IsOrderly lib f → IsOrderly lib (on_tx_stop lib a f)
  unfolding on_tx_stop refresh
  on_tx_stop-IsOrderly a f o =
      let x = o.facts in
      let held =
        if f.ptt_toggle_mode
        then stop_tx_countdown lib f
        else record (stop_tx_countdown lib f) { suppress_hold = true } in
      if-holds (IsOrderly lib) (f.relay_ready && (f.engine).transmitting) _ _
        (orderly lib (
          (end_ptt_tx-IsOrderly lib a held (
            if-holds (IsOrderly lib) f.ptt_toggle_mode _ _ (orderly lib x) (orderly lib x))).facts))
        (orderly lib x)

  stop_transmit-off :
      (now : ℕ) (free : Bool) (e : Engine lib) → (stop_transmit lib now free e).transmitting ≡ false
  unfolding stop_transmit poll
  stop_transmit-off now free e = ground arith

  on_server_ptt_lock-IsOrderly :
      (a : Answers) (display_sec : ℤ) (f : Frame lib)
      → IsOrderly lib f
      → IsOrderly lib (on_server_ptt_lock lib a display_sec f)
  unfolding on_server_ptt_lock force_abort refresh
  on_server_ptt_lock-IsOrderly a display_sec f o =
      let e = request_abort lib f.engine in
      orderly lib (
        o.facts.0,
        λ _.
            if-cases (λ (e : Engine lib). e.transmitting ≡ false) (f.engine).transmitting
              (stop_transmit lib a.now a.lock_free e) e (λ _. stop_transmit-off a.now a.lock_free e)
              (λ h. h),
      )

  tx_pump_round-transmitting :
      (now : ℕ) (e : Engine lib) → (tx_pump_round lib now e).transmitting ≡ e.transmitting
  unfolding tx_pump_round poll
  tx_pump_round-transmitting now e = ground arith

  on_global_key-IsOrderly :
      (up : Bool) (f : Frame lib) → IsOrderly lib f → IsOrderly lib (on_global_key lib up f)
  unfolding on_global_key
  on_global_key-IsOrderly up f o =
      let x = o.facts in
      if-holds (IsOrderly lib) f.ptt_toggle_mode _ _
        (if-holds (IsOrderly lib) up _ _ (orderly lib x)
          (if-holds (IsOrderly lib) f.global_toggle_down _ _ o (orderly lib x)))
        (if-holds (IsOrderly lib) (not up && not f.global_pressed) _ _
          (if-holds (IsOrderly lib) f.suppress_hold _ _ (orderly lib x) (orderly lib x))
          (if-holds (IsOrderly lib) (up && f.global_pressed) _ _ (orderly lib x) o))

  no_count : (ticket : ℕ) (timers : List ℕ) → Guarded lib (ticket + 1) 0 false timers
  no_count ticket timers = (refl, (λ h. absurd (h refl)))

  on_connected-IsOrderly :
      (now_connected : Bool) (f : Frame lib)
      → IsOrderly lib f
      → IsOrderly lib (on_connected lib now_connected f)
  unfolding on_connected refresh
  on_connected-IsOrderly true f o = orderly lib (no_count f.burst_ticket f.decay_timers, o.facts.1)
  on_connected-IsOrderly false f o =
      orderly lib (no_count f.burst_ticket f.decay_timers, (λ h. absurd (ground (arith, h))))

  left_connection-IsOrderly :
      (a : Answers) (f : Frame lib) → IsOrderly lib (left_connection lib a f)
  left_connection-IsOrderly a f =
      orderly lib (
        no_count f.burst_ticket f.decay_timers,
        (λ _. stop_transmit-off a.now a.lock_free f.engine),
      )

  dialled_again-IsOrderly :
      (said : String) (dials : Bool) (f : Frame lib)
      → IsOrderly lib f
      → IsOrderly lib (dialled_again lib said dials f)
  unfolding play_connection_error
  dialled_again-IsOrderly said true f o = orderly lib (o.facts)
  dialled_again-IsOrderly said false f o = orderly lib (o.facts)

  on_profile_choice-IsOrderly :
      (a : Answers) (dials : Bool) (f : Frame lib)
      → IsOrderly lib f
      → IsOrderly lib (on_profile_choice lib a dials f)
  unfolding on_profile_choice refresh
  on_profile_choice-IsOrderly a dials f o =
      if-holds (IsOrderly lib) (not f.connected && not f.user_wants_session) f _ o (
        dialled_again-IsOrderly "Connecting..." dials (refresh lib (left_connection lib a f))
          (orderly lib ((left_connection-IsOrderly a f).facts)))

  on_connect_uri_applied-IsOrderly :
      (a : Answers) (dials : Bool) (f : Frame lib)
      → IsOrderly lib f
      → IsOrderly lib (on_connect_uri_applied lib a dials f)
  unfolding on_connect_uri_applied refresh
  on_connect_uri_applied-IsOrderly a dials f o =
      if-holds (IsOrderly lib) (not f.user_wants_session) f _ o (
        dialled_again-IsOrderly "Connected" dials (refresh lib (left_connection lib a f))
          (orderly lib ((left_connection-IsOrderly a f).facts)))

  on_mode_chosen-IsOrderly :
      (a : Answers) (toggle : Bool) (f : Frame lib)
      → IsOrderly lib f
      → IsOrderly lib (on_mode_chosen lib a toggle f)
  unfolding on_mode_chosen refresh
  on_mode_chosen-IsOrderly a toggle f o = orderly lib (
      (if-holds (IsOrderly lib) (f.ptt_toggle_mode && not toggle && (f.engine).transmitting)
        (end_ptt_tx lib a f) f (end_ptt_tx-IsOrderly lib a f o) o).facts)

  handle-IsOrderly :
      (ev : Event) (f : Frame lib) → IsOrderly lib f → IsOrderly lib (handle lib ev f)
  unfolding handle on_ptt_down on_ptt_up on_space_down on_space_up on_ptt_clicked tx_countdown_tick
      busy_tick on_rx_broadcast_start on_rx_broadcast_end on_server_ptt_unlock on_welcome
      on_disconnect_clicked on_pump_round with_engine refresh play_vibration_pulse
  handle-IsOrderly (ptt_down a) f o =
      if-holds (IsOrderly lib) (f.ptt_toggle_mode || f.suppress_hold) _ _ o
        (begin_ptt_tx-IsOrderly lib a f o)
  handle-IsOrderly (ptt_up a) f o =
      if-holds (IsOrderly lib) f.ptt_toggle_mode _ _ o
        (end_ptt_tx-IsOrderly lib a _ (orderly lib (o.facts)))
  handle-IsOrderly (space_down a) f o =
      if-holds (IsOrderly lib) (f.ptt_toggle_mode || not f.relay_ready || f.suppress_hold) _ _ o
        (begin_ptt_tx-IsOrderly lib a f o)
  handle-IsOrderly (space_up a) f o =
      if-holds (IsOrderly lib) (f.ptt_toggle_mode || not f.relay_ready) _ _ o
        (end_ptt_tx-IsOrderly lib a _ (orderly lib (o.facts)))
  handle-IsOrderly (ptt_clicked a) f o =
      if-holds (IsOrderly lib) (not f.ptt_toggle_mode) _ _ o (toggle_ptt_tx-IsOrderly lib a f o)
  handle-IsOrderly (global_key up) f o = on_global_key-IsOrderly up f o
  handle-IsOrderly (next_posted a) f o = run_first-IsOrderly a f.posted f o
  handle-IsOrderly (call_clicked a) f o = on_call_signal_clicked-IsOrderly a f o
  handle-IsOrderly (tx_stop a) f o = on_tx_stop-IsOrderly a f o
  handle-IsOrderly (decay ticket) f o = decay_expired-IsOrderly ticket f o
  handle-IsOrderly countdown_start f o = orderly lib (o.facts)
  handle-IsOrderly (countdown_tick ticket) f o =
      if-holds (IsOrderly lib)
        (not (ticket == f.tx_countdown_ticket) || not f.relay_ready || not (f.engine).transmitting)
        _ _ o (orderly lib (o.facts))
  handle-IsOrderly (busy_second ticket) f o =
      if-holds (IsOrderly lib) (not (ticket == f.busy_ticket)) _ _ o (orderly lib (o.facts))
  handle-IsOrderly (rx_start busy) f o = orderly lib (o.facts)
  handle-IsOrderly rx_end f o =
      if-holds (IsOrderly lib) f.relay_ready _ _ (orderly lib (o.facts)) (orderly lib (o.facts))
  handle-IsOrderly (lock a display_sec) f o = on_server_ptt_lock-IsOrderly a display_sec f o
  handle-IsOrderly unlock f o = orderly lib (o.facts.0, (λ h. absurd (ground (arith, h))))
  handle-IsOrderly (relay_becomes ready) f o = orderly lib (o.facts)
  handle-IsOrderly (connected_told now_connected) f o = on_connected-IsOrderly now_connected f o
  handle-IsOrderly (welcomed rate ms busy opens) f o =
      orderly lib (o.facts.0, (λ h. absurd (ground (arith, h))))
  handle-IsOrderly (disconnect_clicked a) f o =
      orderly lib
        (no_count f.burst_ticket f.decay_timers, (λ _. stop_transmit-off a.now a.lock_free _))
  handle-IsOrderly (pumped a) f o =
      orderly lib (o.facts.0, (λ h. tx_pump_round-transmitting a.now f.engine ∙ o.facts.1 h))
  handle-IsOrderly (profile_chosen a dials) f o = on_profile_choice-IsOrderly a dials f o
  handle-IsOrderly (uri_applied a dials) f o = on_connect_uri_applied-IsOrderly a dials f o
  handle-IsOrderly (mode_chosen a toggle) f o = on_mode_chosen-IsOrderly a toggle f o

  -- From an orderly state on, after any sequence of the events of push to talk (the button, the keys,
  -- the timers, the calls of the relay client and of the engine, another connection, and the mode of
  -- the button), each run whole: while the server holds the lock, the engine does not transmit; quick
  -- releases block the button exactly from the third one on; and while any are counted, the timer
  -- whose ticket ends the count is running.
  pub handle_all-IsOrderly :
      (evs : List Event) (f : Frame lib) → IsOrderly lib f → IsOrderly lib (handle_all lib evs f)
  unfolding handle_all
  handle_all-IsOrderly [] f o = o
  handle_all-IsOrderly (ev ∷ evs) f o =
      handle_all-IsOrderly evs (handle lib ev f) (handle-IsOrderly ev f o)
