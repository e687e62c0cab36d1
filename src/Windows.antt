-- ===== src/Windows.antt =====
-- RelayClient of windows-client-cpp/src/RelayClient.cpp: the Windows client's side of one managed
-- session, and the loop that connects it again.
pub mod Calls
mod Examples
use Prim.Native.String.{String, ◌++◌}
use o_walkie.Base.{
  ℕ, ℤ, ◌*◌, Bool, true, false, not, ◌&&◌, ◌||◌, List, [], ◌∷◌, is_empty, Option, none, some, min,
  ◌==◌, if◌then◌else◌,
}
use o_walkie.Types.{
  Result, ok, EventType, Event, WelcomeConfig, ConnectParams, Outcome, success, failure,
  SessionState, foreground, TxSubmitOp, tx_open, tx_pcm, tx_close, tx_abort,
}
use o_walkie.Session.State.{Env, State}
use o_walkie.Manager.{
  SessionManager, prepare_connection, set_power_profile, halt_and_release, is_valid,
  is_session_ready, get_session_info, submit_tx, set_repeater_mode,
}
use o_walkie.Manager.Connect.{Surroundings, connect as connect_session}
use o_walkie.Interface.{is_visible, is_empty_text}

-- The client's own struct WelcomeConfig
pub record ClientConfig : Type 0 where
  pub session_id : ℕ
  pub sample_rate : ℕ
  pub packet_ms : ℕ
  pub bitrate : ℕ
  pub complexity : ℕ
  pub fec : Bool
  pub dtx : Bool
  pub application : String
  pub busy_mode : Bool
  pub busy_timeout_sec : ℕ
  pub transmit_timeout_sec : ℕ

-- WelcomeConfig RelayClient::MapWelcome(const owalkie::WelcomeConfig& src)
abbrev pub map_welcome : WelcomeConfig → ClientConfig
map_welcome src = record {
  session_id = src.session_id;
  sample_rate = src.sample_rate;
  packet_ms = src.packet_ms;
  bitrate = src.opus.bitrate;
  complexity = src.opus.complexity;
  fec = src.opus.fec;
  dtx = src.opus.dtx;
  application = src.opus.application;
  busy_mode = src.busy_mode;
  busy_timeout_sec = 0;
  transmit_timeout_sec = src.transmit_timeout_sec;
}

-- The calls of the ten callbacks.
pub data Notice : Type 0 where
  on_status : String → Notice
  on_connected : Bool → Notice
  on_welcome : ClientConfig → Notice
  on_pcm_frame : List ℤ → Notice
  on_tx_countdown_start : Notice
  on_server_ptt_lock : ℤ → Notice
  on_server_ptt_unlock : Notice
  on_rx_broadcast_start : Bool → Notice
  on_rx_broadcast_end : Notice
  on_tx_stop : Notice

-- The fields of the class: the callbacks by whether they are set, and their calls, newest first.
pub record Client : Type 0 where
  pub session_id : ℕ
  pub cfg : ClientConfig
  pub notify_ui_callbacks : Bool
  pub reconnect_loop_running : Bool
  pub connect_in_flight : Bool
  pub reconnect_backoff_ms : ℕ
  pub is_set : Notice → Bool
  pub calls : List Notice

abbrev pub notify : Notice → Client → Client
notify n c = if c.is_set n then record c { calls = n ∷ c.calls } else c

-- void RelayClient::StopReconnectLoop(), with whether the caller is the loop's own thread: a thread
-- that joins itself gets an exception.
unfoldable pub stop_reconnect_loop : Bool → Client → Bool × Client
stop_reconnect_loop own c =
    if not c.reconnect_loop_running
    then (false, c)
    else (own, record c { reconnect_loop_running = false })

abbrev pub clear_managed_session : Client → Client
clear_managed_session c = record c { session_id = 0 }

-- The three events that end a session, with what they tell the user interface.
unfoldable pub ended : Bool → (Client → Client) → Client → Bool × Client
ended own tell c =
    let (thrown, stopped) = stop_reconnect_loop own c in
    let cleared = clear_managed_session stopped in
    if thrown
    then (true, stopped)
    else (false, if cleared.notify_ui_callbacks then tell cleared else cleared)

abbrev status_unless_empty : String → String → Client → Client
status_unless_empty prefix reason c =
    if is_empty_text reason then c else notify (on_status (prefix ++ reason)) c

abbrev or_else : String → String → String
or_else default text = if is_empty_text text then default else text

unfoldable pub handle_type : EventType → Bool → Event → Client → Bool × Client
handle_type EventType.connection_lost own ev c =
    (false, notify (on_status (or_else "reconnecting" ev.disconnect_reason)) c)
handle_type EventType.connected own ev c =
    let cfg = map_welcome ev.welcome in
    (
      false,
      notify (on_status "connected")
          (notify (on_connected true) (notify (on_welcome cfg) (record c { cfg = cfg }))),
    )
handle_type EventType.connection_failed own ev c =
    ended own
      (λ c.
        status_unless_empty "connect failed: " ev.disconnect_reason (notify (on_connected false) c))
      c
handle_type EventType.disconnected own ev c =
    ended own
      (λ c. status_unless_empty "ws ended: " ev.disconnect_reason (notify (on_connected false) c)) c
handle_type EventType.protocol_error own ev c =
    ended own
      (λ c.
        notify (on_connected false)
          (notify (on_status (or_else "Protocol mismatch" ev.protocol_error)) c))
      c
handle_type EventType.rx_broadcast_start own ev c =
    (false, notify (on_rx_broadcast_start ev.rx_busy_mode) c)
handle_type EventType.rx_broadcast_end own ev c = (false, notify on_rx_broadcast_end c)
handle_type EventType.ptt_locked own ev c =
    (false, notify (on_server_ptt_lock ev.ptt_display_sec) c)
handle_type EventType.ptt_unlocked own ev c = (false, notify on_server_ptt_unlock c)
handle_type EventType.tx_countdown_start own ev c = (false, notify on_tx_countdown_start c)
handle_type EventType.tx_stop own ev c = (false, notify on_tx_stop c)
handle_type _ own ev c = (false, c)

-- void RelayClient::HandleSessionEvent(const owalkie::Event& event), with whether an exception left it
unfoldable pub handle_session_event : Bool → Event → Client → Bool × Client
handle_session_event own ev c =
    if not (is_visible ev.type) then (false, c) else handle_type ev.type own ev c

-- callbacks.onRxPcm
abbrev pub on_rx_pcm : List ℤ → Client → Client
on_rx_pcm pcm c = if is_empty pcm then c else notify (on_pcm_frame pcm) c
