-- ===== src/Interface.antt =====
-- owalkie-core/src/c_api.cpp and client_events.hpp: what the C interface makes of the library's
-- data. A pointer that may be null is an Option.
pub mod Calls
pub mod Arguments
pub mod Managed
mod Examples
use Prim.Native.String.{String, len}
use o_walkie.Base.{
  ℕ, zero, suc, ℤ, pos, ◌+◌, Bool, true, false, Option, none, some, ltb, ◌==◌, if◌then◌else◌,
}
use o_walkie.Types.{
  Result, ok, invalid_arg, already_connected, not_connected, not_ready, protocol, network, internal,
  unsupported, buffer_too_small, queue_full, no_event, EventType, Event, WelcomeConfig,
  SessionState,
}

-- owalkie_result
pub data CResult : Type 0 where
  owalkie_ok owalkie_err_invalid_arg owalkie_err_already_connected : CResult
  owalkie_err_not_connected owalkie_err_protocol owalkie_err_network owalkie_err_internal : CResult
  owalkie_err_unsupported owalkie_err_buffer_too_small owalkie_err_not_ready : CResult
  owalkie_err_queue_full : CResult

-- owalkie_result toC(owalkie::Result r)
abbrev pub to_c : Result → CResult
to_c ok = owalkie_ok
to_c invalid_arg = owalkie_err_invalid_arg
to_c already_connected = owalkie_err_already_connected
to_c not_connected = owalkie_err_not_connected
to_c protocol = owalkie_err_protocol
to_c network = owalkie_err_network
to_c internal = owalkie_err_internal
to_c unsupported = owalkie_err_unsupported
to_c buffer_too_small = owalkie_err_buffer_too_small
to_c not_ready = owalkie_err_not_ready
to_c queue_full = owalkie_err_queue_full
to_c no_event = owalkie_ok

-- owalkie_event_type
pub data CEventType : Type 0 where
  ev_connected ev_disconnected ev_protocol_error ev_connection_failed : CEventType
  ev_rx_broadcast_start ev_rx_broadcast_end ev_ptt_locked ev_ptt_unlocked : CEventType
  ev_tx_countdown_start ev_tx_stop ev_connection_lost : CEventType

-- bool isVisible(EventType type)
abbrev pub is_visible : EventType → Bool
is_visible EventType.connected = true
is_visible EventType.disconnected = true
is_visible EventType.protocol_error = true
is_visible EventType.connection_failed = true
is_visible EventType.rx_broadcast_start = true
is_visible EventType.rx_broadcast_end = true
is_visible EventType.ptt_locked = true
is_visible EventType.ptt_unlocked = true
is_visible EventType.tx_countdown_start = true
is_visible EventType.tx_stop = true
is_visible EventType.connection_lost = true
is_visible _ = false

-- owalkie_event_type toPublic(EventType type)
abbrev pub to_public : EventType → CEventType
to_public EventType.connected = ev_connected
to_public EventType.disconnected = ev_disconnected
to_public EventType.protocol_error = ev_protocol_error
to_public EventType.connection_failed = ev_connection_failed
to_public EventType.rx_broadcast_start = ev_rx_broadcast_start
to_public EventType.rx_broadcast_end = ev_rx_broadcast_end
to_public EventType.ptt_locked = ev_ptt_locked
to_public EventType.ptt_unlocked = ev_ptt_unlocked
to_public EventType.tx_countdown_start = ev_tx_countdown_start
to_public EventType.tx_stop = ev_tx_stop
to_public EventType.connection_lost = ev_connection_lost
to_public _ = ev_connected

-- The text behind a const char*: none, a text in the caller's buffer, or one that belongs to a
-- std::string of the library.
pub data Text : Type 0 where
  null_text : Text
  in_buffer : String → Text
  in_scratch : String → Text

-- bool copyToBuf(const std::string& src, char* buf, size_t bufSize), with the size of a buffer that
-- is not null, and with what it then holds.
unfoldable pub copy_to_buf : String → Option ℕ → Option String
copy_to_buf src none = none
copy_to_buf src (some buf_size) =
    if buf_size == 0 then none else if ltb buf_size (len src + 1) then none else some src

-- buf && buf_size > 0
abbrev pub is_buffer : Option ℕ → Bool
is_buffer none = false
is_buffer (some zero) = false
is_buffer (some (suc n)) = true

-- owalkie_welcome_config
pub record WelcomeConfigC : Type 0 where
  pub session_id : ℕ
  pub protocol_version : ℤ
  pub sample_rate : ℕ
  pub packet_ms : ℕ
  pub opus_bitrate : ℕ
  pub opus_complexity : ℕ
  pub opus_fec : Bool
  pub opus_dtx : Bool
  pub opus_application : Text
  pub busy_mode : Bool
  pub transmit_timeout_sec : ℕ

-- void fillWelcomeC(const owalkie::WelcomeConfig& cfg, ...)
abbrev pub fill_welcome : WelcomeConfig → WelcomeConfigC
fill_welcome cfg = record {
  session_id = cfg.session_id;
  protocol_version = cfg.protocol_version;
  sample_rate = cfg.sample_rate;
  packet_ms = cfg.packet_ms;
  opus_bitrate = cfg.opus.bitrate;
  opus_complexity = cfg.opus.complexity;
  opus_fec = cfg.opus.fec;
  opus_dtx = cfg.opus.dtx;
  opus_application = in_scratch cfg.opus.application;
  busy_mode = cfg.busy_mode;
  transmit_timeout_sec = cfg.transmit_timeout_sec;
}

-- owalkie_session_info; its config counts where has_config is set
pub record SessionInfo : Type 0 where
  pub ready : Bool
  pub connected : Bool
  pub udp_ready : Bool
  pub connection_lost : Bool
  pub receiving : Bool
  pub local_tx_active : Bool
  pub ptt_server_locked : Bool
  pub ptt_lock_display_sec : ℤ
  pub config : Option WelcomeConfigC

-- void fillSessionInfoC(bool ready, const owalkie::SessionState& st, ...)
abbrev pub fill_session_info : Bool → SessionState → SessionInfo
fill_session_info ready st = record {
  ready = ready;
  connected = st.connected;
  udp_ready = st.udp_ready;
  connection_lost = st.connection_lost;
  receiving = st.receiving;
  local_tx_active = st.local_tx_active;
  ptt_server_locked = st.ptt_server_locked;
  ptt_lock_display_sec = st.ptt_lock_display_sec;
  config = if st.has_welcome then some (fill_welcome st.welcome) else none;
}

-- The union of owalkie_event, by the member that the code sets.
pub data Payload : Type 0 where
  zeroed : Payload
  config : WelcomeConfigC → Payload
  busy_mode : Bool → Payload
  end_delay_ms : ℤ → Payload
  display_sec : ℤ → Payload
  info : Text → Payload
  message : Text → Payload
  disconnect : ℤ → Text → Payload

-- owalkie_event
pub record EventC : Type 0 where
  pub type : CEventType
  pub u : Payload

-- After std::memset(&event, 0, sizeof(event)): OWALKIE_EV_CONNECTED is 0.
abbrev pub zero_event : EventC
zero_event = record { type = ev_connected; u = zeroed }

abbrev pub is_empty_text : String → Bool
is_empty_text String.[] = true
is_empty_text (String.◌∷◌ c s) = false

abbrev pub reason_text : (String → Text) → String → Text
reason_text where_to reason = if is_empty_text reason then null_text else where_to reason

abbrev pub payload : EventType → Event → Payload
payload EventType.connected ev = config (fill_welcome ev.welcome)
payload EventType.rx_broadcast_start ev = busy_mode ev.rx_busy_mode
payload EventType.rx_broadcast_end ev = end_delay_ms ev.rx_end_delay_ms
payload EventType.ptt_locked ev = display_sec ev.ptt_display_sec
payload EventType.tx_stop ev = info (in_scratch ev.tx_stop_info)
payload EventType.protocol_error ev = message (in_scratch ev.protocol_error)
payload EventType.connection_failed ev =
    disconnect ev.disconnect_code (reason_text in_scratch ev.disconnect_reason)
payload EventType.disconnected ev =
    disconnect ev.disconnect_code (reason_text in_scratch ev.disconnect_reason)
payload EventType.connection_lost ev =
    disconnect ev.disconnect_code (reason_text in_scratch ev.disconnect_reason)
payload _ ev = zeroed

-- void fillManagedEventC(const owalkie::Event& ev, owalkie_event& cev, std::string& scratch)
abbrev pub fill_managed_event : Event → EventC
fill_managed_event ev = record { type = to_public ev.type; u = payload ev.type ev }
