-- ===== src/Session/Events.antt =====
-- How an event changes the session's state, and the stop of the transport (session.cpp).
pub mod Loss
use Prim.Native.String.{String}
use o_walkie.Base.{suc, pos, true, false, ◌∷◌, if◌then◌else◌}
use o_walkie.Types.{EventType, Event, SessionState, event_of, default_welcome}
use o_walkie.Session.State.{Env, State, UdpSocket, absent, shut, bound}

-- The switch of applyEventState.
apply_type : EventType → Event → SessionState → SessionState
apply_type EventType.transport_connected e st = record st { connected = true }
apply_type EventType.disconnected e st = record st {
  connected = false;
  udp_ready = false;
  connection_lost = false;
}
apply_type EventType.protocol_error e st = record st {
  connected = false;
  udp_ready = false;
  connection_lost = false;
}
apply_type EventType.welcomed e st = record st { welcome = e.welcome; has_welcome = true }
apply_type EventType.connected e st = record st {
  welcome = e.welcome;
  has_welcome = true;
  connected = true;
  udp_ready = true;
  connection_lost = false;
}
apply_type EventType.rx_broadcast_start e st = record st { receiving = true }
apply_type EventType.rx_broadcast_end e st = record st { receiving = false }
apply_type EventType.local_tx_start e st = record st { local_tx_active = true }
apply_type EventType.local_tx_end e st = record st { local_tx_active = false }
apply_type EventType.ptt_locked e st = record st {
  ptt_server_locked = true;
  ptt_lock_display_sec = e.ptt_display_sec;
}
apply_type EventType.ptt_unlocked e st = record st {
  ptt_server_locked = false;
  ptt_lock_display_sec = pos 0;
}
apply_type EventType.udp_transport_ready e st = record st { udp_ready = true }
apply_type EventType.udp_transport_lost e st = record st { udp_ready = false }
apply_type EventType.connection_lost e st = record st {
  connected = false;
  udp_ready = false;
  connection_lost = true;
  receiving = false;
}
apply_type _ e st = st

-- void applyEventState(const Event& event)
unfoldable pub apply_event_state : Event → SessionState → SessionState
unfolding apply_type
apply_event_state e st = apply_type e.type e st

module _ (env : Env) where
  -- void emitEvent(const Event& event)
  unfoldable pub emit_event : Event → State env → State env
  emit_event e s = record s {
    session_state = apply_event_state e s.session_state;
    events = e ∷ s.events;
  }

  -- void emitConnectionFailedInternal(const std::string& reason)
  unfoldable pub emit_connection_failed : String → State env → State env
  emit_connection_failed reason =
      emit_event (record (event_of EventType.connection_failed) { disconnect_reason = reason })

  unfoldable pub emit_loss : String → State env → State env
  emit_loss reason s =
      emit_event (record (event_of EventType.connection_lost) { disconnect_reason = reason })
        (emit_event (event_of EventType.rx_broadcast_end) s)

  -- void emitConnectionLostInternal(const std::string& reason)
  unfoldable pub emit_connection_lost : String → State env → State env
  emit_connection_lost reason s =
      if s.disconnect_started
      then s
      else emit_loss reason (record s { connection_lost_signaled = true })

  abbrev shut_socket : UdpSocket → UdpSocket
  shut_socket absent = absent
  shut_socket (bound port) = shut
  shut_socket shut = shut

  -- void closeSockets(). Closing the TCP socket leaves the stream, whose state stays open.
  unfoldable pub close_sockets : State env → State env
  close_sockets s = record s { udp_reset_requested = true; udp_socket = shut_socket s.udp_socket }

  -- void haltTransportInternal()
  unfoldable pub halt_transport : State env → State env
  halt_transport s = close_sockets (record s { stop_requested = true; connected = false })

  -- void cancelOngoingConnectInternal()
  unfoldable pub cancel_ongoing_connect : State env → State env
  cancel_ongoing_connect s = close_sockets (record s { stop_requested = true })

  -- void signalRecoverableLoss(const std::string& reason)
  unfoldable pub signal_recoverable_loss : String → State env → State env
  signal_recoverable_loss reason s =
      if s.disconnect_started
      then s
      else (let halted = record (halt_transport (record s { connected = false })) {
        welcome = default_welcome;
      } in
          if halted.connection_lost_signaled
          then halted
          else emit_loss reason (record halted { connection_lost_signaled = true }))

  -- A point at which another thread may halt the transport.
  unfoldable pub meanwhile : State env → State env
  meanwhile s =
      let later = record s { sleeps = suc s.sleeps } in
      if env.halts s.sleeps then halt_transport later else later

  -- void interruptibleSleepMs(int64_t ms): another thread may halt the transport meanwhile.
  unfoldable pub interruptible_sleep : State env → State env
  unfolding meanwhile
  interruptible_sleep s = if s.stop_requested then s else meanwhile s
