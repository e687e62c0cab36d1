-- ===== src/Session/Lifecycle.antt =====
-- Connecting, disconnecting and the teardown in between (session.cpp).
use o_walkie.Base.{
  ℤ, pos, negsuc, Bool, true, false, not, ◌&&◌, ◌||◌, [], Option, none, some, is_empty, ltb, ◌==◌,
  if◌then◌else◌,
}
use o_walkie.Types.{
  Result, ok, invalid_arg, unsupported, network, EventType, ConnectParams, event_of,
  default_welcome,
}
use o_walkie.Endpoint.{ParsedHost, parse_host_endpoint}
use o_walkie.Codec.{reset}
use o_walkie.Session.State.{Env, State, absent, bound}
use o_walkie.Session.Events.{emit_event, close_sockets, halt_transport}
use o_walkie.Session.Outbound.{end_local_tx, enter_udp_recovery}
use o_walkie.Session.Worker.{stop_tx_pipeline}

-- What dialling comes to: resolving the name, connecting, the WebSocket handshake or making the UDP
-- socket fails, or the session has a socket with a local port.
pub data Dial : Type 0 where
  unreachable : Dial
  dialled : ℤ → Dial

module _ (env : Env) where
  -- void clearTransportState(), behind releaseWsStream() and resetIoContextInternal()
  unfoldable pub clear_transport_state : State env → State env
  clear_transport_state s = record (stop_tx_pipeline env s) {
    ws_exists = false;
    ws_is_open = false;
    udp_socket = absent;
    connected = false;
    last_udp_keepalive_sent_ns = 0;
    last_udp_keepalive_pending_since_ns = 0;
    udp_recovery_until_ns = 0;
    pending_network_recreate = false;
    last_network_recovery_at_ns = 0;
    udp_reset_requested = false;
    udp_reset_grace_until_ns = 0;
    client_tx_open = false;
    ws_outbound_queue = [];
    ws_write_in_progress = false;
  }

  -- void emitDisconnectedOnce()
  unfoldable pub emit_disconnected_once : State env → State env
  emit_disconnected_once s =
      if s.disconnect_event_emitted
      then s
      else emit_event env (event_of EventType.disconnected)
          (record s { disconnect_event_emitted = true })

  -- void finalizeTransportTeardown(), once the other threads are joined
  unfoldable pub finalize_transport_teardown : State env → State env
  finalize_transport_teardown s =
      let cleared = clear_transport_state s in
      let forgotten = record cleared {
        welcome = default_welcome;
        seq = 0;
        opus = reset env.opus cleared.opus;
        tx_pcm_buffer = [];
      } in
      record (emit_disconnected_once (end_local_tx env forgotten)) {
        transport_fully_stopped = true;
        teardown_pending = false;
      }

  -- void disconnectInternal(). The teardown is left to a thread, its own or that of the WebSocket.
  unfoldable pub disconnect : State env → State env
  disconnect s =
      if s.disconnect_started
      then halt_transport env s
      else record (emit_disconnected_once (
          halt_transport env
            (record s { disconnect_started = true; transport_fully_stopped = false }))) {
              teardown_pending = true;
            }

  -- void waitUntilTransportStoppedInternal(int timeoutMs). A teardown that is under way is joined;
  -- the first argument says that the deadline passes before that.
  unfoldable pub wait_until_transport_stopped : Bool → State env → State env
  wait_until_transport_stopped late s =
      let stopped =
        if late
        then clear_transport_state (halt_transport env s)
        else if s.teardown_pending
        then finalize_transport_teardown s
        else s in
      record stopped { transport_fully_stopped = true }

  -- The part of connectInternal that stops what runs, and joinThreads().
  unfoldable pub stop_running : State env → State env
  stop_running s = clear_transport_state (
      close_sockets env (
        if s.connected || s.disconnect_started
        then wait_until_transport_stopped false (disconnect s)
        else s))

  -- The flags and buffers of a new attempt, and its first event.
  unfoldable pub begin_attempt : ConnectParams → State env → State env
  begin_attempt params s = emit_event env (event_of EventType.connecting) (record s {
    repeater_mode = params.repeater_mode;
    stop_requested = false;
    disconnect_event_emitted = false;
    disconnect_started = false;
    transport_fully_stopped = false;
    seq = 0;
    welcome = default_welcome;
    tx_pcm_buffer = [];
    opus = reset env.opus s.opus;
  })

  -- The body of the try block of connectInternal, and its handler.
  unfoldable pub dial : Dial → State env → Result × State env
  dial unreachable s = (network, clear_transport_state (close_sockets env s))
  dial (dialled port) s = (
    ok,
    record (enter_udp_recovery env (record s {
      ws_exists = true;
      ws_is_open = true;
      ws_write_in_progress = false;
      udp_socket = bound port;
      connected = true;
    })) { connection_lost_signaled = false },
  )

  abbrev pub is_port : ℤ → Bool
  is_port (pos n) = not (n == 0) && not (ltb 65535 n)
  is_port (negsuc n) = false

  unfoldable pub attempt : ConnectParams → Dial → ParsedHost → State env → Result × State env
  attempt params outcome parsed s =
      if is_empty parsed.host || not (is_port params.port)
      then (invalid_arg, s)
      else if params.use_tls || parsed.use_tls
      then (unsupported, s)
      else dial outcome (begin_attempt params s)

  -- Result connectInternal(...); none is the exception of parseHostEndpoint
  unfoldable pub connect : ConnectParams → Bool → Dial → State env → Option Result × State env
  unfolding stop_running attempt
  connect params after_teardown outcome s =
      let stopped = if after_teardown then s else stop_running s in
      let known = record stopped { channel = params.channel } in
      elim (parse_host_endpoint params.host params.port) [
        | none ↦ (none, known)
        | some parsed ↦ let (r, t) = attempt params outcome parsed known in (some r, t)
      ]

  -- Result reconnectTeardownInternal(), with whether its wait passes the deadline
  unfoldable pub reconnect_teardown : Bool → State env → State env
  reconnect_teardown late s =
      let fresh = record s {
        connection_lost_signaled = false;
        disconnect_started = false;
        disconnect_event_emitted = false;
        stop_requested = false;
      } in
      let stopped =
        if s.transport_fully_stopped
        then fresh
        else wait_until_transport_stopped late (halt_transport env fresh) in
      let cleared = clear_transport_state stopped in
      let ended = end_local_tx env (record cleared {
        welcome = default_welcome;
        seq = 0;
        client_tx_open = false;
        opus = reset env.opus cleared.opus;
        tx_pcm_buffer = [];
      }) in
      record ended {
        last_ws_heartbeat_sent_ns = 0;
        session_state = record (ended.session_state) {
          receiving = false;
          local_tx_active = false;
          connection_lost = false;
          connected = false;
          udp_ready = false;
        };
      }

  -- Result reconnectConnectInternal(const ConnectParams& params, int timeoutMs)
  unfoldable pub reconnect_connect : ConnectParams → Dial → State env → Option Result × State env
  reconnect_connect params outcome s =
      connect params true outcome (record s { stop_requested = false })
