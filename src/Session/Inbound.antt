-- ===== src/Session/Inbound.antt =====
-- What a session does with the texts and the datagrams that it receives (session.cpp).
pub mod Audio
use Prim.Native.String.{String, ◌++◌ as str_append}
use text.Mathlib.Text.{find?}
use o_walkie.Base.{
  ℕ, ℤ, pos, ◌+◌, Bool, true, false, not, ◌&&◌, ◌||◌, List, [], ◌∷◌, Option, none, some, length,
  is_empty, ltb, leb, ◌==◌, if◌then◌else◌,
}
use o_walkie.Types.{
  Result, no_event, protocol, EventType, Outcome, success, failure, WelcomeConfig, Event,
  UdpAudioPacket, event_of,
}
use o_walkie.Wire.{unpack, is_keepalive_ack}
use o_walkie.Messages.{parse_server_message, build_join, build_udp_hello, build_repeater_mode}
use o_walkie.Codec.{OpusCodec, configure, decode}
use o_walkie.Session.State.{Env, State, UdpSocket, absent, shut, bound, now_ns}
use o_walkie.Session.Events.{
  emit_event, signal_recoverable_loss, interruptible_sleep, close_sockets,
}
use o_walkie.Session.Outbound.{
  ErrorCode, operation_aborted, interrupted, other, message, send_ws_text, send_udp_keepalive,
  enter_udp_recovery,
}

-- udpSocket->local_endpoint().port(), where a closed socket throws
abbrev pub local_port : UdpSocket → Option ℤ
local_port absent = some (pos 0)
local_port (bound port) = some port
local_port shut = none

module _ (env : Env) where
  -- The handshake behind a welcome: the three texts, a keepalive, and two events.
  unfoldable pub greet : WelcomeConfig → ℤ → State env → State env
  greet cfg port s = emit_event env (event_of EventType.udp_transport_ready) (
      emit_event env (record (event_of EventType.connected) { welcome = cfg })
        (send_udp_keepalive env (
          enter_udp_recovery env (
            send_ws_text env (build_repeater_mode env.json s.repeater_mode)
              (send_ws_text env (build_udp_hello env.json port) s)))))

  -- void handleWelcome(const WelcomeConfig& cfg), and whether it returns without an exception
  unfoldable pub handle_welcome : WelcomeConfig → State env → Bool × State env
  unfolding greet
  handle_welcome cfg s =
      let configured = record s {
        welcome = cfg;
        opus = (configure env.opus s.opus cfg).1;
        tx_pcm_buffer = [];
      } in
      let joined =
        send_ws_text env (build_join env.json s.channel)
          (emit_event env (record (event_of EventType.welcomed) { welcome = cfg }) configured) in
      elim (local_port joined.udp_socket) [
        | none ↦ (false, joined)
        | some port ↦ (true, greet cfg port joined)
      ]

  unfoldable pub protocol_mismatch : State env → State env
  protocol_mismatch s = close_sockets env (
      emit_event env
        (record (event_of EventType.protocol_error) { protocol_error = "protocol mismatch" })
        (record s { connected = false }))

  abbrev pub deliver : EventType → Event → State env → Bool × State env
  deliver EventType.welcomed e s = handle_welcome e.welcome s
  deliver _ e s = (true, emit_event env e s)

  -- A message of an unknown type does not touch the session.
  abbrev pub refused : Result → State env → Bool × State env
  refused protocol s = (true, protocol_mismatch s)
  refused _ s = (true, s)

  -- void handleWsText(const std::string& text), and whether it returns without an exception
  unfoldable pub handle_ws_text : String → State env → Bool × State env
  unfolding protocol_mismatch
  handle_ws_text text s =
      elim (parse_server_message env.json text (event_of EventType.connecting)) [
        | success e ↦ deliver e.type e s
        | failure r ↦ refused r s
      ]

  -- A finished read: its error code or its text.
  pub data WsRead : Type 0 where
    read_failed : ErrorCode → WsRead
    read_text : String → WsRead

  -- if (stopRequested.load() || !connected.load() || !wsStream || !wsStream->is_open())
  abbrev pub reads_on : State env → Bool
  reads_on s = not (s.stop_requested || not s.connected || not s.ws_exists || not s.ws_is_open)

  unfoldable pub lost_read : ErrorCode → State env → State env
  lost_read operation_aborted s = s
  lost_read interrupted s = s
  lost_read (other m) s = signal_recoverable_loss env m (record s { connected = false })

  -- void onWsAsyncRead(...), and whether startWsAsyncRead starts another read
  unfoldable pub on_ws_read : WsRead → State env → Bool × State env
  unfolding lost_read
  on_ws_read (read_failed ec) s = (false, if s.stop_requested then s else lost_read ec s)
  on_ws_read (read_text text) s =
      let (returned, t) = handle_ws_text text s in (returned && reads_on t, t)

  -- bool isBenignUdpSocketError(const boost::system::error_code& ec)
  abbrev pub occurs : String → String → Bool
  occurs needle text = elim (find? text needle) [ none ↦ false | some i ↦ true ]

  abbrev pub is_benign : ErrorCode → Bool
  is_benign operation_aborted = true
  is_benign interrupted = true
  is_benign (other m) =
      occurs "Interrupted" m
      || occurs "interrupted" m
      || occurs "Operation canceled" m
      || occurs "operation canceled" m

  -- What receive_from gives: a datagram, an expired timeout, or another error.
  pub data Received : Type 0 where
    datagram : List ℕ → Received
    recv_timeout : Received
    recv_failed : ErrorCode → Received

  -- An error while the socket is being replaced, or the session stopped, is expected.
  unfoldable pub excused : State env → Bool × State env
  excused s =
      if s.stop_requested || s.udp_reset_requested
      then (true, s)
      else (let (now, t) = now_ns env s in (ltb now t.udp_reset_grace_until_ns, t))

  unfoldable pub receive_error : ErrorCode → State env → Bool × State env
  receive_error ec s =
      if is_benign ec
      then (true, interruptible_sleep env s)
      else (false, signal_recoverable_loss env (str_append "udp: " (message ec)) s)

  unfoldable pub received_error : Received → Bool × State env → Bool × State env
  received_error r (true, s) = (true, interruptible_sleep env s)
  received_error (datagram buf) (false, s) = (true, s)
  received_error recv_timeout (false, s) = (true, s)
  received_error (recv_failed ec) (false, s) = receive_error ec s

  unfoldable pub received_pcm : Outcome (List ℤ) × OpusCodec env.opus → State env → State env
  received_pcm (failure r, codec) s = record s { opus = codec }
  received_pcm (success pcm, codec) s =
      if s.has_rx_pcm
      then record s { opus = codec; rx_pcm = pcm ∷ s.rx_pcm }
      else record s { opus = codec }

  unfoldable pub received_audio : UdpAudioPacket → State env → State env
  received_audio p s =
      if is_empty p.opus
      then s
      else if s.has_rx_opus
      then record s { rx_opus = p.opus ∷ s.rx_opus }
      else received_pcm (decode env.opus s.opus p.opus s.opus.frame_size) s

  -- The datagram of a round: an acknowledgement, a marker or audio.
  unfoldable pub received_datagram : List ℕ → State env → State env
  unfolding received_audio received_pcm
  received_datagram buf s =
      if is_keepalive_ack buf s.welcome.session_id
      then (let (now, t) = now_ns env s in
          record t { last_inbound_ns = now; last_udp_keepalive_pending_since_ns = 0 })
      else if leb (length buf) 9
      then s
      else (let (now, t) = now_ns env s in
          let heard = record t { last_inbound_ns = now } in
          elim (unpack buf) [ failure r ↦ heard | success p ↦ received_audio p heard ])

  -- A round of udpReadLoop with a socket, entered while the session is connected and not stopped.
  -- It says whether the loop goes on.
  unfoldable pub udp_read_round : Received → State env → Bool × State env
  unfolding excused received_error receive_error
  udp_read_round (datagram buf) s = (true, received_datagram buf s)
  udp_read_round recv_timeout s = received_error recv_timeout (excused s)
  udp_read_round (recv_failed ec) s = received_error (recv_failed ec) (excused s)
