-- ===== src/Session/Invariant/Inbound.antt =====
-- What a session receives, and its keepalive thread, leave the local transmission alone (session.cpp).
use Prim.Native.String.{String}
use o_walkie.Base.{
  ℕ, ℤ, ◌+◌, ◌≡◌, refl, Bool, true, false, not, ◌&&◌, ◌||◌, List, [], Option-cases, inl, inr,
  length, is_empty, leb, ◌==◌, if-holds,
}
use mathlib.Core.Path.{subst}
use o_walkie.Types.{
  EventType, Event, Result, protocol, Outcome, Outcome-cases, success, failure, WelcomeConfig,
  UdpAudioPacket, event_of,
}
use o_walkie.Wire.{unpack, is_keepalive_ack}
use o_walkie.Messages.{
  parse_server_message, build_join, build_udp_hello, build_repeater_mode, build_heartbeat,
}
use o_walkie.Messages.Incoming.{is_remote, IsIncoming, parse_server_message-IsIncoming}
use o_walkie.Codec.{OpusCodec, configure}
use o_walkie.Session.State.{Env, State}
use o_walkie.Session.Events.{emit_event, close_sockets}
use o_walkie.Session.Outbound.{ErrorCode, operation_aborted, interrupted, other, send_ws_text}
use o_walkie.Session.Keepalive.{
  KeepaliveTimings, keepalive_timings_for, await_ack, heartbeat, idle_round, keepalive_round,
  is_due, is_active_tx, interval_ns,
}
use o_walkie.Session.Inbound.{
  greet, local_port, handle_welcome, protocol_mismatch, deliver, refused, handle_ws_text, WsRead,
  read_failed, read_text, lost_read, on_ws_read, Received, datagram, recv_timeout, recv_failed,
  excused, receive_error, received_error, is_benign, received_pcm, received_audio,
  received_datagram, udp_read_round,
}
use o_walkie.Session.Invariant.{is_neutral, Neutral, Neutral-refl, Neutral-trans, quiet}
use o_walkie.Session.Invariant.Quiet.{
  emit_event-Neutral, send_ws_text-Neutral, send_udp_keepalive-Neutral, enter_udp_recovery-Neutral,
  interruptible_sleep-Neutral, signal_recoverable_loss-Neutral,
}

is_neutral-is_remote : (t : EventType) → is_remote t ≡ true → is_neutral t ≡ true
is_neutral-is_remote EventType.local_tx_start h = h
is_neutral-is_remote EventType.local_tx_end h = h
is_neutral-is_remote _ h = refl

module _ (env : Env) where
  greet-Neutral :
      (cfg : WelcomeConfig) (port : ℤ) (s : State env) → Neutral env s (greet env cfg port s)
  unfolding greet
  greet-Neutral cfg port s =
      let a = send_ws_text-Neutral env (build_udp_hello env.json port) s in
      let b =
        Neutral-trans env a
          (send_ws_text-Neutral env (build_repeater_mode env.json s.repeater_mode) _) in
      let c = Neutral-trans env b (enter_udp_recovery-Neutral env _) in
      let d = Neutral-trans env c (send_udp_keepalive-Neutral env _) in
      let e =
        Neutral-trans env d (
          emit_event-Neutral env (record (event_of EventType.connected) { welcome = cfg }) _
            refl) in
      Neutral-trans env e (emit_event-Neutral env (event_of EventType.udp_transport_ready) _ refl)

  handle_welcome-Neutral :
      (cfg : WelcomeConfig) (s : State env) → Neutral env s (handle_welcome env cfg s).1
  unfolding handle_welcome
  handle_welcome-Neutral cfg s =
      let configured = record s {
        welcome = cfg;
        opus = (configure env.opus s.opus cfg).1;
        tx_pcm_buffer = [];
      } in
      let welcomed =
        emit_event env (record (event_of EventType.welcomed) { welcome = cfg }) configured in
      let joined = send_ws_text env (build_join env.json s.channel) welcomed in
      let n : Neutral env s joined =
        Neutral-trans env
          (Neutral-trans env (quiet env s configured refl refl refl) (
            emit_event-Neutral env (record (event_of EventType.welcomed) { welcome = cfg })
              configured refl))
          (send_ws_text-Neutral env (build_join env.json s.channel) welcomed) in
      elim (Option-cases (local_port joined.udp_socket)) [
        | inl e ↦ rw (e, handle_welcome) n
        | inr (port, e) ↦
            rw (e, handle_welcome) (Neutral-trans env n (greet-Neutral cfg port joined))
      ]

  deliver-Neutral :
      (t : EventType) (e : Event) (s : State env)
      → is_neutral e.type ≡ true
      → Neutral env s (deliver env t e s).1
  deliver-Neutral EventType.welcomed e s h = handle_welcome-Neutral e.welcome s
  deliver-Neutral _ e s h = emit_event-Neutral env e s h

  protocol_mismatch-Neutral : (s : State env) → Neutral env s (protocol_mismatch env s)
  unfolding protocol_mismatch close_sockets
  protocol_mismatch-Neutral s =
      let off = record s { connected = false } in
      Neutral-trans env
        (Neutral-trans env (quiet env s off refl refl refl) (
          emit_event-Neutral env
            (record (event_of EventType.protocol_error) { protocol_error = "protocol mismatch" })
            off refl))
        (quiet env _ _ refl refl refl)

  refused-Neutral : (r : Result) (s : State env) → Neutral env s (refused env r s).1
  refused-Neutral protocol s = protocol_mismatch-Neutral s
  refused-Neutral _ s = Neutral-refl env s

  -- A text of the server never starts or ends a local transmission.
  pub handle_ws_text-Neutral :
      (text : String) (s : State env) → Neutral env s (handle_ws_text env text s).1
  unfolding handle_ws_text
  handle_ws_text-Neutral text s =
      let out = event_of EventType.connecting in
      let incoming = parse_server_message-IsIncoming env.json text out in
      elim (Outcome-cases (parse_server_message env.json text out)) [
        | inl (e, p) ↦
            rw (p, handle_ws_text)
              (deliver-Neutral e.type e s
                (is_neutral-is_remote e.type (subst IsIncoming p incoming).0))
        | inr (r, p) ↦ rw (p, handle_ws_text) (refused-Neutral r s)
      ]

  lost_read-Neutral : (ec : ErrorCode) (s : State env) → Neutral env s (lost_read env ec s)
  unfolding lost_read
  lost_read-Neutral operation_aborted s = Neutral-refl env s
  lost_read-Neutral interrupted s = Neutral-refl env s
  lost_read-Neutral (other m) s =
      Neutral-trans env (quiet env s (record s { connected = false }) refl refl refl)
        (signal_recoverable_loss-Neutral env m _)

  pub on_ws_read-Neutral : (r : WsRead env) (s : State env) → Neutral env s (on_ws_read env r s).1
  unfolding on_ws_read
  on_ws_read-Neutral (read_failed ec) s =
      if-holds (Neutral env s) s.stop_requested s _ (Neutral-refl env s) (lost_read-Neutral ec s)
  on_ws_read-Neutral (read_text text) s = handle_ws_text-Neutral text s

  excused-Neutral : (s : State env) → Neutral env s (excused env s).1
  unfolding excused
  excused-Neutral s =
      if-holds (λ (p : Bool × State env). Neutral env s p.1)
        (s.stop_requested || s.udp_reset_requested) _ _ (Neutral-refl env s)
        (quiet env s _ refl refl refl)

  receive_error-Neutral :
      (ec : ErrorCode) (s : State env) → Neutral env s (receive_error env ec s).1
  unfolding receive_error
  receive_error-Neutral ec s =
      if-holds (λ (p : Bool × State env). Neutral env s p.1) (is_benign env ec) _ _
        (interruptible_sleep-Neutral env s) (signal_recoverable_loss-Neutral env _ s)

  received_error-Neutral :
      (r : Received env) (s : State env) (p : Bool × State env)
      → Neutral env s p.1
      → Neutral env s (received_error env r p).1
  unfolding received_error
  received_error-Neutral r s (true, t) h = Neutral-trans env h (interruptible_sleep-Neutral env t)
  received_error-Neutral (datagram buf) s (false, t) h = h
  received_error-Neutral recv_timeout s (false, t) h = h
  received_error-Neutral (recv_failed ec) s (false, t) h =
      Neutral-trans env h (receive_error-Neutral ec t)

  received_pcm-Neutral :
      (o : Outcome (List ℤ) × OpusCodec env.opus) (s : State env)
      → Neutral env s (received_pcm env o s)
  unfolding received_pcm
  received_pcm-Neutral (failure r, codec) s = quiet env _ _ refl refl refl
  received_pcm-Neutral (success pcm, codec) s =
      if-holds (Neutral env s) s.has_rx_pcm _ _ (quiet env s _ refl refl refl)
        (quiet env s _ refl refl refl)

  received_audio-Neutral :
      (p : UdpAudioPacket) (s : State env) → Neutral env s (received_audio env p s)
  unfolding received_audio
  received_audio-Neutral p s = if-holds (Neutral env s) (is_empty p.opus) s _ (Neutral-refl env s) (
      if-holds (Neutral env s) s.has_rx_opus _ _ (quiet env s _ refl refl refl)
        (received_pcm-Neutral _ s))

  unpacked-Neutral :
      (o : Outcome UdpAudioPacket) (s : State env)
      → Neutral env s (elim o [ failure r ↦ s | success p ↦ received_audio env p s ])
  unpacked-Neutral (failure r) s = Neutral-refl env s
  unpacked-Neutral (success p) s = received_audio-Neutral p s

  received_datagram-Neutral :
      (buf : List ℕ) (s : State env) → Neutral env s (received_datagram env buf s)
  unfolding received_datagram
  received_datagram-Neutral buf s =
      if-holds (Neutral env s) (is_keepalive_ack buf s.welcome.session_id) _ _
        (quiet env s _ refl refl refl)
        (if-holds (Neutral env s) (leb (length buf) 9) s _ (Neutral-refl env s)
          (Neutral-trans env (quiet env s _ refl refl refl) (unpacked-Neutral (unpack buf) _)))

  pub udp_read_round-Neutral :
      (r : Received env) (s : State env) → Neutral env s (udp_read_round env r s).1
  unfolding udp_read_round
  udp_read_round-Neutral (datagram buf) s = received_datagram-Neutral buf s
  udp_read_round-Neutral recv_timeout s =
      received_error-Neutral recv_timeout s _ (excused-Neutral s)
  udp_read_round-Neutral (recv_failed ec) s =
      received_error-Neutral (recv_failed ec) s _ (excused-Neutral s)

  await_ack-Neutral :
      (now : ℕ) (timings : KeepaliveTimings) (s : State env)
      → Neutral env s (await_ack env now timings s).1
  unfolding await_ack
  await_ack-Neutral now timings s =
      if-holds (λ (p : Bool × State env). Neutral env s p.1) _ _ _
        (Neutral-trans env (quiet env s _ refl refl refl) (
          signal_recoverable_loss-Neutral env "keepalive_lost"
            (record s { last_udp_keepalive_pending_since_ns = 0 })))
        (Neutral-trans env
          (if-holds (Neutral env s) (is_due now s.last_udp_keepalive_sent_ns timings.rtx_ns) _ s
            (send_udp_keepalive-Neutral env s) (Neutral-refl env s))
          (interruptible_sleep-Neutral env _))

  heartbeat-Neutral : (now : ℕ) (s : State env) → Neutral env s (heartbeat env now s)
  unfolding heartbeat
  heartbeat-Neutral now s =
      if-holds (Neutral env s) _ _ s
        (Neutral-trans env (send_ws_text-Neutral env (build_heartbeat env.json) s)
          (quiet env _ _ refl refl refl))
        (Neutral-refl env s)

  idle_round-Neutral :
      (now : ℕ) (timings : KeepaliveTimings) (s : State env)
      → Neutral env s (idle_round env now timings s).1
  unfolding idle_round
  idle_round-Neutral now timings s =
      Neutral-trans env
        (Neutral-trans env
          (if-holds (Neutral env s)
            (not (s.session_state.local_tx_active || is_active_tx env s.power_profile)
              && is_due now s.last_udp_keepalive_sent_ns (interval_ns env now timings s))
            _ s (send_udp_keepalive-Neutral env s) (Neutral-refl env s))
          (heartbeat-Neutral now _))
        (interruptible_sleep-Neutral env _)

  pub keepalive_round-Neutral : (s : State env) → Neutral env s (keepalive_round env s).1
  unfolding keepalive_round
  keepalive_round-Neutral s =
      let t = record s { clock_reads = s.clock_reads + 1 } in
      let n : Neutral env s t = quiet env s t refl refl refl in
      let timings = keepalive_timings_for t.power_profile in
      let now = env.clock s.clock_reads in
      let P : Bool × State env → Type 0 = λ p. Neutral env s p.1 in
      if-holds P (not s.connected || s.stop_requested) _ _ (Neutral-refl env s) (
        if-holds P (s.welcome.session_id == 0) _ _ (interruptible_sleep-Neutral env s) (
          if-holds P (not (t.last_udp_keepalive_pending_since_ns == 0)) _ _
            (Neutral-trans env n (await_ack-Neutral now timings t))
            (Neutral-trans env n (idle_round-Neutral now timings t))))
