-- ===== src/Ptt/Handlers.antt =====
-- The handlers of MainFrame.cpp that push to talk depends on: of the button, the keys, the timers, and
-- the events of the relay client.
use o_walkie.Base.{
  ℕ, ℤ, ◌+◌, ◌-◌, Bool, true, false, not, ◌&&◌, ◌||◌, List, [], ◌∷◌, to_nat, ◌==◌, if◌then◌else◌,
}
use o_walkie.Audio.{AudioLib}
use o_walkie.Audio.Engine.{on_air, stop_transmit, tx_pump_round}
use o_walkie.Audio.Engine.Playback.{play_vibration_pulse}
use o_walkie.Audio.Engine.Closing.{reconfigure, request_abort}
use o_walkie.Audio.Stream.{stream_call_signal}
use o_walkie.Audio.Cues.{
  play_connected, play_connection_error, play_manual_disconnect, play_switch_nav,
}
use o_walkie.Ptt.Frame.{
  Frame, Answers, Posted, begin_tx, end_tx, toggle_tx, sync_burst, show_status, opened, closed,
  aborted, refresh, reset_burst, call_after, paused, stop_tx_countdown, with_engine, begin_ptt_tx,
  end_ptt_tx, toggle_ptt_tx,
}

-- A ticket taken out of a list once.
abbrev pub removed : ℕ → List ℕ → List ℕ
removed t [] = []
removed t (u ∷ us) = if u == t then us else u ∷ removed t us

module _ (lib : AudioLib) where
  -- The call that a decay timer puts off, when its time has come
  unfoldable pub decay_expired : ℕ → Frame lib → Frame lib
  unfolding refresh
  decay_expired ticket f =
      let left = record f { decay_timers = removed ticket f.decay_timers } in
      let calm = refresh lib (record left { burst_count = 0; burst_blocked = false }) in
      if not (f.burst_ticket == ticket)
      then left
      else if f.relay_ready
      then record calm { status = "Connected" }
      else calm

  -- The calls that CallAfter has put off
  unfoldable pub run_posted : Answers → Posted → Frame lib → Frame lib
  unfolding refresh
  run_posted a begin_tx f = begin_ptt_tx lib a f
  run_posted a end_tx f = end_ptt_tx lib a f
  run_posted a toggle_tx f = toggle_ptt_tx lib a f
  run_posted a sync_burst f =
      let synced = refresh lib f in
      if f.burst_blocked then record synced { status = paused lib } else synced
  run_posted a (show_status text) f = record f { status = text }

  unfoldable pub run_first : Answers → List Posted → Frame lib → Frame lib
  unfolding run_posted
  run_first a [] f = f
  run_first a (p ∷ posted) f = run_posted a p (record f { posted = posted })

  -- void MainFrame::OnPttDown(wxMouseEvent& event)
  unfoldable pub on_ptt_down : Answers → Frame lib → Frame lib
  on_ptt_down a f = if f.ptt_toggle_mode || f.suppress_hold then f else begin_ptt_tx lib a f

  -- void MainFrame::OnPttUp(wxMouseEvent& event)
  unfoldable pub on_ptt_up : Answers → Frame lib → Frame lib
  on_ptt_up a f =
      if f.ptt_toggle_mode then f else end_ptt_tx lib a (record f { suppress_hold = false })

  -- void MainFrame::OnPttButtonKeyDown(wxKeyEvent& event) of the space bar
  unfoldable pub on_space_down : Answers → Frame lib → Frame lib
  on_space_down a f =
      if f.ptt_toggle_mode || not f.relay_ready || f.suppress_hold then f else begin_ptt_tx lib a f

  -- void MainFrame::OnPttButtonKeyUp(wxKeyEvent& event) of the space bar
  unfoldable pub on_space_up : Answers → Frame lib → Frame lib
  on_space_up a f =
      if f.ptt_toggle_mode || not f.relay_ready
      then f
      else end_ptt_tx lib a (record f { suppress_hold = false })

  -- void MainFrame::OnPttButtonClicked(wxCommandEvent&)
  unfoldable pub on_ptt_clicked : Answers → Frame lib → Frame lib
  on_ptt_clicked a f = if not f.ptt_toggle_mode then f else toggle_ptt_tx lib a f

  -- MainFrame::GlobalPttKeyboardProc for a key that matches the hotkey: a key that goes down, or up
  unfoldable pub on_global_key : Bool → Frame lib → Frame lib
  on_global_key up f =
      if f.ptt_toggle_mode
      then (if up
          then record f { global_toggle_down = false }
          else if f.global_toggle_down
          then f
          else call_after lib toggle_tx (record f { global_toggle_down = true }))
      else if not up && not f.global_pressed
      then (if f.suppress_hold
          then record f { global_pressed = true }
          else call_after lib begin_tx (record f { global_pressed = true }))
      else if up && f.global_pressed
      then call_after lib end_tx (record f { global_pressed = false; suppress_hold = false })
      else f

  -- void MainFrame::OnCallSignalClicked(wxCommandEvent&)
  unfoldable pub on_call_signal_clicked : Answers → Frame lib → Frame lib
  unfolding refresh
  on_call_signal_clicked a f =
      let open_frame = record f {
        call_enabled = false;
        relay_calls = opened ∷ f.relay_calls;
        tx_uplink_opened = true;
      } in
      let (ok, e) = stream_call_signal lib a.now a.abort_asked f.engine in
      let said = with_engine lib true e open_frame in
      if not f.relay_ready || on_air lib f.engine || f.server_ptt_locked
      then f
      else if not a.uplink_opens
      then refresh lib (record f { call_enabled = false; status = "Call signal failed" })
      else if ok
      then refresh lib (record said {
        relay_calls = closed ∷ said.relay_calls;
        tx_uplink_opened = false;
        status = "Connected";
      })
      else refresh lib (record said { status = "Call signal failed" })

  -- void MainFrame::OnTxStop()
  unfoldable pub on_tx_stop : Answers → Frame lib → Frame lib
  unfolding refresh
  on_tx_stop a f =
      let stopped = stop_tx_countdown lib f in
      let held = if f.ptt_toggle_mode then stopped else record stopped { suppress_hold = true } in
      if f.relay_ready && (f.engine).transmitting
      then record (end_ptt_tx lib a held) { status = "TX stopped by server" }
      else refresh lib stopped

  -- void MainFrame::StartTxCountdownFromServer()
  abbrev pub start_tx_countdown : Frame lib → Frame lib
  start_tx_countdown f = record f {
    tx_countdown_ticket = f.tx_countdown_ticket + 2;
    tx_countdowns = (f.tx_countdown_ticket + 2) ∷ f.tx_countdowns;
  }

  -- The call that a thread of the transmit countdown puts off in each of its rounds
  unfoldable pub tx_countdown_tick : ℕ → Frame lib → Frame lib
  tx_countdown_tick ticket f =
      if not (ticket == f.tx_countdown_ticket) || not f.relay_ready || not (f.engine).transmitting
      then f
      else record f { engine = play_vibration_pulse lib 35 f.engine }

  -- void MainFrame::StopBusyTimeoutCountdown()
  abbrev pub stop_busy_countdown : Frame lib → Frame lib
  stop_busy_countdown f = record f { busy_ticket = f.busy_ticket + 1 }

  -- void MainFrame::StartBusyTimeoutCountdown()
  abbrev pub start_busy_countdown : Frame lib → Frame lib
  start_busy_countdown f = record f {
    busy_ticket =
        if not f.server_ptt_locked || f.ptt_lock_display_sec == 0
        then f.busy_ticket + 1
        else f.busy_ticket + 2;
    busy_countdowns =
        if not f.server_ptt_locked || f.ptt_lock_display_sec == 0
        then f.busy_countdowns
        else (f.busy_ticket + 2) ∷ f.busy_countdowns;
  }

  -- The call that a thread of the busy countdown puts off after each second
  unfoldable pub busy_tick : ℕ → Frame lib → Frame lib
  unfolding refresh
  busy_tick ticket f =
      if not (ticket == f.busy_ticket)
      then f
      else refresh lib (record f {
        ptt_lock_display_sec =
            if f.server_ptt_locked then f.ptt_lock_display_sec - 1 else f.ptt_lock_display_sec;
      })

  -- void MainFrame::ForceAbortOutgoingForServerPttLock()
  unfoldable pub force_abort : Answers → Frame lib → Frame lib
  force_abort a f =
      let had = on_air lib f.engine in
      let asked = request_abort lib f.engine in
      let quiet =
        if (f.engine).transmitting then stop_transmit lib a.now a.lock_free asked else asked in
      record (stop_tx_countdown lib f) {
        engine = quiet;
        relay_calls = if had then aborted ∷ f.relay_calls else f.relay_calls;
        tx_uplink_opened = if had then false else f.tx_uplink_opened;
      }

  -- void MainFrame::OnRxBroadcastStartFromRelay(bool bm)
  unfoldable pub on_rx_broadcast_start : Bool → Frame lib → Frame lib
  unfolding refresh
  on_rx_broadcast_start busy f =
      record (refresh lib (record f { rx_broadcast_active = true; busy_mode_enabled = busy })) {
        status = "Receiving";
      }

  -- void MainFrame::OnRxBroadcastEndFromRelay()
  unfoldable pub on_rx_broadcast_end : Frame lib → Frame lib
  unfolding refresh
  on_rx_broadcast_end f =
      let shown = refresh lib (record f { rx_broadcast_active = false }) in
      if f.relay_ready then record shown { status = "Connected" } else shown

  -- void MainFrame::OnServerPttLockFromRelay(int displaySec)
  unfoldable pub on_server_ptt_lock : Answers → ℤ → Frame lib → Frame lib
  unfolding force_abort refresh
  on_server_ptt_lock a display_sec f = refresh lib (
      start_busy_countdown (record (force_abort a f) {
        server_ptt_locked = true;
        ptt_lock_display_sec = to_nat display_sec;
      }))

  abbrev unlocked : Frame lib → Frame lib
  unlocked f =
      stop_busy_countdown (record f { server_ptt_locked = false; ptt_lock_display_sec = 0 })

  -- void MainFrame::OnServerPttUnlockFromRelay()
  unfoldable pub on_server_ptt_unlock : Frame lib → Frame lib
  unfolding refresh
  on_server_ptt_unlock f = refresh lib (unlocked f)

  -- The callback of a connection or its end, with whether the relay client is ready then
  unfoldable pub on_connected : Bool → Frame lib → Frame lib
  unfolding refresh
  on_connected now_connected f =
      let over = unlocked (record f { busy_mode_enabled = false; rx_broadcast_active = false }) in
      let heard = record over {
        engine =
            if f.user_wants_session && f.connected
            then play_connection_error lib f.engine
            else f.engine;
      } in
      let told = if now_connected then f else heard in
      refresh lib (reset_burst lib (record told { connected = now_connected }))

  -- The callback of a welcome, with whether the playback device opens
  unfoldable pub on_welcome : ℕ → ℕ → Bool → Bool → Frame lib → Frame lib
  unfolding refresh
  on_welcome sample_rate packet_ms busy opens f = refresh lib (
      unlocked (record f {
        engine = play_connected lib (reconfigure lib sample_rate packet_ms opens f.engine);
        busy_mode_enabled = busy;
        rx_broadcast_active = false;
      }))

  -- void MainFrame::OnConnectClicked(wxCommandEvent&) where there is a session to end
  unfoldable pub on_disconnect_clicked : Answers → Frame lib → Frame lib
  unfolding refresh
  on_disconnect_clicked a f =
      let played = play_manual_disconnect lib (play_switch_nav lib f.engine) in
      refresh lib (record (reset_burst lib (stop_tx_countdown lib f)) {
        engine = stop_transmit lib a.now a.lock_free played;
        relay_ready = false;
        user_wants_session = false;
        connected = false;
        global_pressed = false;
        global_toggle_down = false;
        suppress_hold = false;
        status = "Disconnected";
      })

  -- A round of the engine's pump, with the calls of its frame callback
  unfoldable pub on_pump_round : Answers → Frame lib → Frame lib
  unfolding with_engine
  on_pump_round a f = with_engine lib a.uplink_opens (tx_pump_round lib a.now f.engine) f
