-- ===== src/Session/Outbound.antt =====
-- What a session sends: texts on the WebSocket, one write at a time, and datagrams (session.cpp).
pub mod Effects
pub mod Datagrams
pub mod Recovery
use Prim.Native.String.{String}
use o_walkie.Base.{
  ℕ, ℤ, ◌+◌, ◌-◌, ◌*◌, ◌%◌, ◌^◌, Bool, true, false, not, ◌&&◌, ◌||◌, List, [], ◌∷◌, ◌++◌, Option,
  none, some, ltb, is_empty, ◌==◌, if◌then◌else◌,
}
use text.Mathlib.Text.{◌==◌ as str_eq}
use o_walkie.Types.{EventType, Result, ok, not_connected, network, success, failure, event_of}
use o_walkie.Wire.{pack, put_word, keepalive_signal}
use o_walkie.Messages.{build_udp_hello}
use o_walkie.Session.State.{
  Env, State, UdpSocket, absent, shut, bound, now_ns, ns_per_sec, ns_per_ms,
}
use o_walkie.Session.Events.{emit_event, signal_recoverable_loss}

-- The error codes that the session tells apart, the last one with its message.
pub data ErrorCode : Type 0 where
  operation_aborted interrupted : ErrorCode
  other : String → ErrorCode

abbrev pub message : ErrorCode → String
message operation_aborted = "Operation canceled"
message interrupted = "Interrupted system call"
message (other m) = m

-- kUdpKeepaliveRecoveryWindowNs, kNetworkRecoveryMinIntervalNs
abbrev pub recovery_window_ns : ℕ
recovery_window_ns = 90 * ns_per_sec

abbrev pub network_recovery_min_interval_ns : ℕ
network_recovery_min_interval_ns = 3 * ns_per_sec

module _ (env : Env) where
  unfoldable pub start_write : List String → State env → State env
  start_write [] s = s
  start_write (text ∷ rest) s = record s {
    ws_outbound_queue = rest;
    ws_write_in_progress = true;
    ws_written = text ∷ s.ws_written;
  }

  -- void pumpWsAsyncWrites(), up to the asynchronous write that it starts
  unfoldable pub pump_ws_writes : State env → State env
  pump_ws_writes s =
      if s.ws_write_in_progress
        || s.stop_requested
        || not s.connected
        || not s.ws_exists
        || not s.ws_is_open
      then s
      else start_write s.ws_outbound_queue s

  unfoldable pub write_failed : ErrorCode → State env → State env
  write_failed operation_aborted s = record s { connected = false }
  write_failed ec s = signal_recoverable_loss env (message ec) (record s { connected = false })

  -- The handler of a finished write.
  unfoldable pub on_ws_written : Option ErrorCode → State env → State env
  on_ws_written none s = pump_ws_writes (record s { ws_write_in_progress = false })
  on_ws_written (some ec) s =
      let cleared = record s { ws_write_in_progress = false; ws_outbound_queue = [] } in
      if s.stop_requested then cleared else write_failed ec cleared

  -- void sendWsText(const std::string& text). The pump that it dispatches runs at once on the
  -- thread of the WebSocket, and soon after from any other.
  unfoldable pub send_ws_text : String → State env → State env
  send_ws_text text s =
      if not s.connected || s.stop_requested || str_eq text ""
      then s
      else pump_ws_writes (record s { ws_outbound_queue = s.ws_outbound_queue ++ text ∷ [] })

  -- A send on a closed socket throws, and the exception is dropped.
  through : UdpSocket → List ℕ → State env → State env
  through absent payload s = s
  through (bound port) payload s = record s { datagrams = payload ∷ s.datagrams }
  through shut payload s = s

  -- void sendUdpPayload(const uint8_t* data, size_t size)
  unfoldable pub send_udp_payload : List ℕ → State env → State env
  unfolding through
  send_udp_payload payload s =
      if not s.connected || s.welcome.session_id == 0 then s else through s.udp_socket payload s

  -- seq.fetch_add(1) + 1 as a uint32_t
  abbrev pub next_seq : State env → ℕ
  next_seq s = (s.seq + 1) % 2 ^ 32

  -- void sendOpusFrame(const uint8_t* data, size_t size, uint8_t signalStrength)
  unfoldable pub send_opus_frame : List ℕ → ℕ → State env → State env
  send_opus_frame bytes signal s =
      if is_empty bytes
      then s
      else (let sent = record s { seq = next_seq s } in
          elim (pack (record {
            session_id = s.welcome.session_id;
            sequence = next_seq s;
            signal_strength = signal;
            opus = bytes;
          })) [ failure r ↦ sent | success payload ↦ send_udp_payload payload sent ])

  -- The datagram of a session's number, a sequence number and a signal.
  abbrev header : State env → ℕ → ℕ → List ℕ
  header s sequence signal = put_word s.welcome.session_id (put_word sequence (signal ∷ []))

  abbrev has_socket : UdpSocket → Bool
  has_socket absent = false
  has_socket (bound port) = true
  has_socket shut = true

  -- void sendUdpKeepalive()
  unfoldable pub send_udp_keepalive : State env → State env
  send_udp_keepalive s =
      if not (has_socket s.udp_socket) || s.welcome.session_id == 0
      then s
      else (let (now, sent) = now_ns env (send_udp_payload (header s 0 keepalive_signal) s) in
          record sent {
            last_udp_keepalive_sent_ns = now;
            last_udp_keepalive_pending_since_ns =
                if sent.last_udp_keepalive_pending_since_ns == 0
                then now
                else sent.last_udp_keepalive_pending_since_ns;
          })

  -- void sendUdpTxEof()
  unfoldable pub send_udp_tx_eof : State env → State env
  send_udp_tx_eof s =
      if not (has_socket s.udp_socket) || s.welcome.session_id == 0
      then s
      else send_udp_payload (header s (next_seq s) 0) (record s { seq = next_seq s })

  -- void enterUdpRecoveryInternal()
  unfoldable pub enter_udp_recovery : State env → State env
  enter_udp_recovery s =
      let (now, t) = now_ns env s in record t { udp_recovery_until_ns = now + recovery_window_ns }

  unfoldable pub rebound : Option ℤ → State env → Result × State env
  rebound none s = (
    network,
    emit_event env (event_of EventType.udp_transport_lost)
        (record s { udp_reset_requested = false }),
  )
  rebound (some port) s = (
    ok,
    record (emit_event env (event_of EventType.udp_transport_ready) (
        send_udp_keepalive
          (send_ws_text (build_udp_hello env.json port) (record s { udp_socket = bound port })))) {
            udp_reset_requested = false;
          },
  )

  -- Result resetUdpInternal(). Every attempt to make a socket is counted, also one that fails.
  unfoldable pub reset_udp : State env → Result × State env
  reset_udp s =
      if not s.connected || not s.ws_exists
      then (not_connected, s)
      else (let (now, t) = now_ns env s in
          rebound (env.bind t.binds) (record t {
            udp_reset_grace_until_ns = now + 300 * ns_per_ms;
            udp_reset_requested = true;
            udp_socket = absent;
            binds = t.binds + 1;
          }))

  -- The end of drainPendingNetworkRecreateIfIdle and of notifyNetworkChangedInternal.
  unfoldable pub recreate_at : ℕ → State env → State env
  recreate_at now s =
      enter_udp_recovery (reset_udp (record s { last_network_recovery_at_ns = now })).1

  -- now - last < kNetworkRecoveryMinIntervalNs after an earlier recovery
  abbrev is_too_soon : ℕ → ℕ → Bool
  is_too_soon now last = not (last == 0) && ltb (now - last) network_recovery_min_interval_ns

  -- The socket is made anew, unless an earlier recovery is too recent and `waiting` is kept.
  unfoldable pub recreate_by : ℕ → State env → State env → State env
  recreate_by now waiting s =
      if is_too_soon now s.last_network_recovery_at_ns then waiting else recreate_at now s

  -- void drainPendingNetworkRecreateIfIdle()
  unfoldable pub drain_pending_network_recreate : State env → State env
  drain_pending_network_recreate s =
      if not s.pending_network_recreate
      then s
      else (let taken = record s { pending_network_recreate = false } in
          if not s.connected
          then taken
          else if s.session_state.local_tx_active
          then s
          else (let (now, t) = now_ns env taken in
              recreate_by now (record t { pending_network_recreate = true }) t))

  -- void notifyNetworkChangedInternal()
  unfoldable pub notify_network_changed : State env → State env
  notify_network_changed s =
      if not s.connected
      then s
      else if s.session_state.local_tx_active
      then record s { pending_network_recreate = true }
      else (let (now, t) = now_ns env s in recreate_by now t t)

  -- Result punchUdpNatInternal()
  unfoldable pub punch_udp_nat : State env → Result × State env
  punch_udp_nat s =
      if not s.connected || s.welcome.session_id == 0
      then (not_connected, s)
      else (ok, send_udp_keepalive s)

  -- void beginLocalTxIfNeeded()
  unfoldable pub begin_local_tx : State env → State env
  begin_local_tx s =
      if s.session_state.local_tx_active
      then s
      else emit_event env (event_of EventType.local_tx_start) s

  -- void endLocalTxIfNeeded()
  unfoldable pub end_local_tx : State env → State env
  end_local_tx s =
      if s.session_state.local_tx_active
      then drain_pending_network_recreate (emit_event env (event_of EventType.local_tx_end) s)
      else s
