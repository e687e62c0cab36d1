-- ===== src/Ptt/Steps.antt =====
-- Push to talk over sequences of events of the main window (MainFrame.cpp).
pub mod Orderly
use o_walkie.Base.{ℕ, ℤ, Bool, List, [], ◌∷◌}
use o_walkie.Audio.{AudioLib}
use o_walkie.Ptt.Frame.{Frame, Answers}
use o_walkie.Ptt.Handlers.{
  decay_expired, run_first, on_ptt_down, on_ptt_up, on_space_down, on_space_up, on_ptt_clicked,
  on_global_key, on_call_signal_clicked, on_tx_stop, start_tx_countdown, tx_countdown_tick,
  busy_tick, on_rx_broadcast_start, on_rx_broadcast_end, on_server_ptt_lock, on_server_ptt_unlock,
  on_connected, on_welcome, on_disconnect_clicked, on_pump_round,
}
use o_walkie.Ptt.Switches.{on_profile_choice, on_connect_uri_applied, on_mode_chosen}

-- What happens to the window, each a call that runs whole.
pub data Event : Type 0 where
  ptt_down : Answers → Event
  ptt_up : Answers → Event
  space_down : Answers → Event
  space_up : Answers → Event
  ptt_clicked : Answers → Event
  global_key : Bool → Event
  next_posted : Answers → Event
  call_clicked : Answers → Event
  tx_stop : Answers → Event
  decay : ℕ → Event
  countdown_start : Event
  countdown_tick : ℕ → Event
  busy_second : ℕ → Event
  rx_start : Bool → Event
  rx_end : Event
  lock : Answers → ℤ → Event
  unlock : Event
  relay_becomes : Bool → Event
  connected_told : Bool → Event
  welcomed : ℕ → ℕ → Bool → Bool → Event
  disconnect_clicked : Answers → Event
  pumped : Answers → Event
  profile_chosen : Answers → Bool → Event
  uri_applied : Answers → Bool → Event
  mode_chosen : Answers → Bool → Event

module _ (lib : AudioLib) where
  unfoldable pub handle : Event → Frame lib → Frame lib
  handle (ptt_down a) f = on_ptt_down lib a f
  handle (ptt_up a) f = on_ptt_up lib a f
  handle (space_down a) f = on_space_down lib a f
  handle (space_up a) f = on_space_up lib a f
  handle (ptt_clicked a) f = on_ptt_clicked lib a f
  handle (global_key up) f = on_global_key lib up f
  handle (next_posted a) f = run_first lib a f.posted f
  handle (call_clicked a) f = on_call_signal_clicked lib a f
  handle (tx_stop a) f = on_tx_stop lib a f
  handle (decay ticket) f = decay_expired lib ticket f
  handle countdown_start f = start_tx_countdown lib f
  handle (countdown_tick ticket) f = tx_countdown_tick lib ticket f
  handle (busy_second ticket) f = busy_tick lib ticket f
  handle (rx_start busy) f = on_rx_broadcast_start lib busy f
  handle rx_end f = on_rx_broadcast_end lib f
  handle (lock a display_sec) f = on_server_ptt_lock lib a display_sec f
  handle unlock f = on_server_ptt_unlock lib f
  handle (relay_becomes ready) f = record f { relay_ready = ready }
  handle (connected_told now_connected) f = on_connected lib now_connected f
  handle (welcomed rate ms busy opens) f = on_welcome lib rate ms busy opens f
  handle (disconnect_clicked a) f = on_disconnect_clicked lib a f
  handle (pumped a) f = on_pump_round lib a f
  handle (profile_chosen a dials) f = on_profile_choice lib a dials f
  handle (uri_applied a dials) f = on_connect_uri_applied lib a dials f
  handle (mode_chosen a toggle) f = on_mode_chosen lib a toggle f

  pub handle_all : List Event → Frame lib → Frame lib
  handle_all [] f = f
  handle_all (ev ∷ evs) f = handle_all evs (handle ev f)
