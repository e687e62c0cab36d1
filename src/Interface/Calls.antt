-- ===== src/Interface/Calls.antt =====
-- The functions of c_api.cpp that need no session. An out parameter is the contents behind a
-- pointer that may be null, and the function returns what they are afterwards.
pub mod Reporting
use Prim.Native.String.{String}
use o_walkie.Base.{
  ℕ, ℤ, Bool, true, false, List, [], ◌∷◌, length, Option, none, some, ltb, if◌then◌else◌,
}
use o_walkie.Types.{
  EventType, Event, event_of, WelcomeConfig, UdpAudioPacket, Outcome, success, failure, Result,
  no_event, protocol_version,
}
use o_walkie.Wire.{pack, unpack, is_keepalive_signal, is_keepalive_ack, is_tx_eof_marker}
use o_walkie.Messages.Json.{JsonLib}
use o_walkie.Messages.{parse_welcome, parse_server_message}
use o_walkie.Interface.{
  CResult, owalkie_ok, owalkie_err_invalid_arg, owalkie_err_buffer_too_small, to_c, is_visible,
  to_public, ev_connected, CEventType, Text, null_text, in_buffer, copy_to_buf, is_buffer,
  WelcomeConfigC, fill_welcome, Payload, zeroed, config, busy_mode, end_delay_ms, display_sec, info,
  message, disconnect, EventC, zero_event, reason_text, is_empty_text,
}

-- The settings of a welcome, with their text in the caller's buffer if there is one.
unfoldable pub put_welcome : WelcomeConfig → Option ℕ → Option WelcomeConfigC
put_welcome cfg buf =
    if is_buffer buf
    then (elim (copy_to_buf cfg.opus.application buf) [
      | none ↦ none
      | some text ↦ some (record (fill_welcome cfg) { opus_application = in_buffer text })
    ])
    else some (fill_welcome cfg)

-- A text in the caller's buffer, which must be there and large enough.
abbrev put_text : (Text → Payload) → String → Option ℕ → CResult × Payload
put_text member text buf = elim (copy_to_buf text buf) [
  | none ↦ (owalkie_err_buffer_too_small, zeroed)
  | some copy ↦ (owalkie_ok, member (in_buffer copy))
]

abbrev put_config : WelcomeConfig → Option ℕ → CResult × Payload
put_config cfg buf = elim (put_welcome cfg buf) [
  | none ↦ (owalkie_err_buffer_too_small, zeroed)
  | some c ↦ (owalkie_ok, config c)
]

-- The switch of owalkie_json_parse_server_message.
unfoldable pub put_payload : EventType → Event → Option ℕ → CResult × Payload
put_payload EventType.welcomed ev buf = put_config ev.welcome buf
put_payload EventType.connected ev buf = put_config ev.welcome buf
put_payload EventType.rx_broadcast_start ev buf = (owalkie_ok, busy_mode ev.rx_busy_mode)
put_payload EventType.rx_broadcast_end ev buf = (owalkie_ok, end_delay_ms ev.rx_end_delay_ms)
put_payload EventType.ptt_locked ev buf = (owalkie_ok, display_sec ev.ptt_display_sec)
put_payload EventType.tx_stop ev buf = put_text info ev.tx_stop_info buf
put_payload EventType.protocol_error ev buf = put_text message ev.protocol_error buf
put_payload EventType.disconnected ev buf =
    if is_empty_text ev.disconnect_reason
    then (owalkie_ok, disconnect ev.disconnect_code null_text)
    else (elim (copy_to_buf ev.disconnect_reason buf) [
      | none ↦ (owalkie_err_buffer_too_small, disconnect ev.disconnect_code null_text)
      | some copy ↦ (owalkie_ok, disconnect ev.disconnect_code (in_buffer copy))
    ])
put_payload _ ev buf = (owalkie_ok, zeroed)

abbrev pub with_payload : CEventType → CResult × Payload → CResult × EventC
with_payload t (r, u) = (r, record { type = t; u = u })

abbrev pub is_welcome : EventType → Bool
is_welcome EventType.welcomed = true
is_welcome _ = false

-- From the test for a welcome on.
unfoldable pub put_event : Event → Option ℕ → CResult × EventC
put_event ev buf =
    if is_welcome ev.type
    then with_payload ev_connected (put_payload ev.type ev buf)
    else if is_visible ev.type
    then with_payload (to_public ev.type) (put_payload ev.type ev buf)
    else (owalkie_ok, zero_event)

-- What follows the parser.
unfoldable pub put_message : Outcome Event → Option ℕ → EventC → CResult × EventC
put_message (success ev) buf old = put_event ev buf
put_message (failure no_event) buf old = (owalkie_ok, zero_event)
put_message (failure r) buf old = (to_c r, old)

unfoldable pub put_config_result :
    Outcome WelcomeConfig → Option ℕ → WelcomeConfigC → CResult × WelcomeConfigC
put_config_result (failure r) buf old = (to_c r, old)
put_config_result (success cfg) buf old = elim (put_welcome cfg buf) [
  | none ↦ (owalkie_err_buffer_too_small, old)
  | some c ↦ (owalkie_ok, c)
]

-- A function of an argument and an out parameter, which neither may be null.
abbrev pub checked {ℓ} :
    {A B : Type ℓ} → (A → B → CResult × B) → Option A → Option B → CResult × Option B
checked f none out = (owalkie_err_invalid_arg, out)
checked f (some a) none = (owalkie_err_invalid_arg, none)
checked f (some a) (some old) = ((f a old).0, some (f a old).1)

module _ (lib : JsonLib) where
  -- owalkie_result owalkie_json_parse_welcome(...), of the text that the pointer and the length name
  unfoldable pub json_parse_welcome :
      Option String → Option WelcomeConfigC → Option ℕ → CResult × Option WelcomeConfigC
  json_parse_welcome text out buf =
      checked (λ t old. put_config_result (parse_welcome lib t protocol_version) buf old) text out

  -- owalkie_result owalkie_json_parse_server_message(...)
  unfoldable pub json_parse_server_message :
      Option String → Option EventC → Option ℕ → CResult × Option EventC
  json_parse_server_message text out buf =
      checked
        (λ t old. put_message (parse_server_message lib t (event_of EventType.connecting)) buf old)
        text out

-- owalkie_udp_audio_packet, with the bytes behind its pointer
pub record UdpAudioPacketC : Type 0 where
  pub session_id : ℕ
  pub sequence : ℕ
  pub signal_strength : ℕ
  pub opus : Option (List ℕ)

abbrev pub bytes_of : Option (List ℕ) → List ℕ
bytes_of none = []
bytes_of (some bytes) = bytes

abbrev pub from_c : UdpAudioPacketC → UdpAudioPacket
from_c p = record {
  session_id = p.session_id;
  sequence = p.sequence;
  signal_strength = p.signal_strength;
  opus = bytes_of p.opus;
}

abbrev pointer_to : List ℕ → Option (List ℕ)
pointer_to [] = none
pointer_to (b ∷ bs) = some (b ∷ bs)

abbrev pub to_packet : UdpAudioPacket → UdpAudioPacketC
to_packet p = record {
  session_id = p.session_id;
  sequence = p.sequence;
  signal_strength = p.signal_strength;
  opus = pointer_to p.opus;
}

abbrev fitting : Outcome (List ℕ) → ℕ → CResult × Option (List ℕ)
fitting (failure r) size = (to_c r, none)
fitting (success packed) size =
    if ltb size (length packed)
    then (owalkie_err_buffer_too_small, none)
    else (owalkie_ok, some packed)

-- owalkie_result owalkie_udp_pack(...), with the size of the buffer and the bytes that it gets
unfoldable pub udp_pack : Option UdpAudioPacketC → Option ℕ → CResult × Option (List ℕ)
udp_pack none buf = (owalkie_err_invalid_arg, none)
udp_pack (some p) none = (owalkie_err_invalid_arg, none)
udp_pack (some p) (some size) = fitting (pack (from_c p)) size

abbrev pub unpacked : Outcome UdpAudioPacket → UdpAudioPacketC → CResult × UdpAudioPacketC
unpacked (failure r) old = (to_c r, old)
unpacked (success p) old = (owalkie_ok, to_packet p)

-- owalkie_result owalkie_udp_unpack(...)
unfoldable pub udp_unpack :
    Option (List ℕ) → Option UdpAudioPacketC → CResult × Option UdpAudioPacketC
udp_unpack buf out = checked (λ bytes old. unpacked (unpack bytes) old) buf out

abbrev pub on_bytes : (List ℕ → Bool) → Option (List ℕ) → Bool
on_bytes test none = false
on_bytes test (some bytes) = test bytes

-- owalkie_udp_is_keepalive_signal, owalkie_udp_is_keepalive_ack and owalkie_udp_is_tx_eof_marker
abbrev pub udp_is_keepalive_signal : Option (List ℕ) → Bool
udp_is_keepalive_signal = on_bytes is_keepalive_signal

abbrev pub udp_is_keepalive_ack : Option (List ℕ) → ℕ → Bool
udp_is_keepalive_ack buf session_id = on_bytes (λ bytes. is_keepalive_ack bytes session_id) buf

abbrev pub udp_is_tx_eof_marker : Option (List ℕ) → Bool
udp_is_tx_eof_marker = on_bytes is_tx_eof_marker
