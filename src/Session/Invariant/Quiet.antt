-- ===== src/Session/Invariant/Quiet.antt =====
-- The steps of session.cpp that leave the local transmission alone.
use o_walkie.Base.{
  ℕ, suc, ℤ, ◌≡◌, refl, ap, ◌++◌, Bool, true, false, not, List, [], ◌∷◌, Option, none, some,
  if◌then◌else◌, arith,
}
use Prim.Native.String.{String}
use o_walkie.Types.{EventType, Event, event_of, default_welcome}
use o_walkie.Session.State.{Env, State, bound}
use o_walkie.Session.Events.{
  apply_event_state, emit_event, emit_loss, close_sockets, halt_transport, signal_recoverable_loss,
  interruptible_sleep, meanwhile,
}
use o_walkie.Session.Outbound.{
  ErrorCode, operation_aborted, interrupted, other, start_write, pump_ws_writes, write_failed,
  on_ws_written, send_ws_text, send_opus_frame, send_udp_keepalive, send_udp_tx_eof,
  enter_udp_recovery, rebound, reset_udp, recreate_at, recreate_by, drain_pending_network_recreate,
  notify_network_changed,
}
use o_walkie.Session.Outbound.Effects.{
  Sends, send_udp_payload-Sends, send_opus_frame-Sends, send_udp_tx_eof-Sends,
}
use o_walkie.Session.Invariant.{is_neutral, Neutral, Neutral-refl, Neutral-trans, quiet}

module _ (env : Env) where
  Sends-Neutral : {s t : State env} → Sends env s t → Neutral env s t
  Sends-Neutral {s} {t} d =
      quiet env s t (ap (λ (u : State env). u.session_state) d.same)
        (ap (λ (u : State env). u.events) d.same) (ap (λ (u : State env). u.client_tx_open) d.same)

  pub emit_event-Neutral :
      (e : Event) (s : State env) → is_neutral e.type ≡ true → Neutral env s (emit_event env e s)
  unfolding emit_event apply_event_state
  emit_event-Neutral e s h = ground arith

  pub start_write-Neutral : (q : List String) (s : State env) → Neutral env s (start_write env q s)
  unfolding start_write
  start_write-Neutral [] s = Neutral-refl env s
  start_write-Neutral (x ∷ q) s = quiet env _ _ refl refl refl

  -- A test picks one of two such steps.
  pub if-Neutral :
      (b : Bool) (s t u : State env)
      → Neutral env s t
      → Neutral env s u
      → Neutral env s (if b then t else u)
  if-Neutral true s t u p q = p
  if-Neutral false s t u p q = q

  pub pump_ws_writes-Neutral : (s : State env) → Neutral env s (pump_ws_writes env s)
  unfolding pump_ws_writes
  pump_ws_writes-Neutral s =
      if-Neutral _ s _ _ (Neutral-refl env s) (start_write-Neutral s.ws_outbound_queue s)

  pub pick-Neutral {ℓ} :
      {A : Type ℓ} (b : Bool) (s : State env) (p q : A × State env)
      → Neutral env s p.1
      → Neutral env s q.1
      → Neutral env s (if b then p else q).1
  pick-Neutral true s p q h k = h
  pick-Neutral false s p q h k = k

  pub halt_transport-Neutral : (s : State env) → Neutral env s (halt_transport env s)
  unfolding halt_transport close_sockets
  halt_transport-Neutral s = quiet env _ _ refl refl refl

  pub meanwhile-Neutral : (s : State env) → Neutral env s (meanwhile env s)
  unfolding meanwhile
  meanwhile-Neutral s =
      let later = record s { sleeps = suc s.sleeps } in
      let slept = quiet env s later refl refl refl in
      if-Neutral _ s _ _ (Neutral-trans env slept (halt_transport-Neutral later)) slept

  pub interruptible_sleep-Neutral : (s : State env) → Neutral env s (interruptible_sleep env s)
  unfolding interruptible_sleep
  interruptible_sleep-Neutral s = if-Neutral _ s _ _ (Neutral-refl env s) (meanwhile-Neutral s)

  pub emit_loss-Neutral : (reason : String) (s : State env) → Neutral env s (emit_loss env reason s)
  unfolding emit_loss
  emit_loss-Neutral reason s =
      Neutral-trans env (emit_event-Neutral (event_of EventType.rx_broadcast_end) s refl)
        (emit_event-Neutral _ _ refl)

  pub signal_recoverable_loss-Neutral :
      (reason : String) (s : State env) → Neutral env s (signal_recoverable_loss env reason s)
  unfolding signal_recoverable_loss
  signal_recoverable_loss-Neutral reason s =
      let off = record s { connected = false } in
      let halted = record (halt_transport env off) { welcome = default_welcome } in
      let stopped =
        Neutral-trans env
          (Neutral-trans env (quiet env s off refl refl refl) (halt_transport-Neutral off))
          (quiet env _ halted refl refl refl) in
      if-Neutral _ s _ _ (Neutral-refl env s) (
        if-Neutral _ s _ _ stopped (
          Neutral-trans env
            (Neutral-trans env stopped
              (quiet env halted (record halted { connection_lost_signaled = true }) refl refl refl))
            (emit_loss-Neutral reason _)))

  write_failed-Neutral : (ec : ErrorCode) (s : State env) → Neutral env s (write_failed env ec s)
  unfolding write_failed
  write_failed-Neutral operation_aborted s = quiet env _ _ refl refl refl
  write_failed-Neutral interrupted s =
      Neutral-trans env (quiet env s (record s { connected = false }) refl refl refl)
        (signal_recoverable_loss-Neutral _ _)
  write_failed-Neutral (other m) s =
      Neutral-trans env (quiet env s (record s { connected = false }) refl refl refl)
        (signal_recoverable_loss-Neutral _ _)

  pub on_ws_written-Neutral :
      (ec : Option ErrorCode) (s : State env) → Neutral env s (on_ws_written env ec s)
  unfolding on_ws_written
  on_ws_written-Neutral none s =
      Neutral-trans env (quiet env s (record s { ws_write_in_progress = false }) refl refl refl)
        (pump_ws_writes-Neutral _)
  on_ws_written-Neutral (some ec) s =
      let cleared = record s { ws_write_in_progress = false; ws_outbound_queue = [] } in
      let q = quiet env s cleared refl refl refl in
      if-Neutral _ s _ _ q (Neutral-trans env q (write_failed-Neutral ec cleared))

  pub send_ws_text-Neutral :
      (text : String) (s : State env) → Neutral env s (send_ws_text env text s)
  unfolding send_ws_text
  send_ws_text-Neutral text s =
      let queued = record s { ws_outbound_queue = s.ws_outbound_queue ++ text ∷ [] } in
      if-Neutral _ s _ _ (Neutral-refl env s)
        (Neutral-trans env (quiet env s queued refl refl refl) (pump_ws_writes-Neutral queued))

  pub send_opus_frame-Neutral :
      (bytes : List ℕ) (signal : ℕ) (s : State env)
      → Neutral env s (send_opus_frame env bytes signal s)
  send_opus_frame-Neutral bytes signal s = Sends-Neutral (send_opus_frame-Sends env bytes signal s)

  pub send_udp_tx_eof-Neutral : (s : State env) → Neutral env s (send_udp_tx_eof env s)
  send_udp_tx_eof-Neutral s = Sends-Neutral (send_udp_tx_eof-Sends env s)

  pub send_udp_keepalive-Neutral : (s : State env) → Neutral env s (send_udp_keepalive env s)
  unfolding send_udp_keepalive
  send_udp_keepalive-Neutral s = if-Neutral _ s _ _ (Neutral-refl env s) (
      Neutral-trans env (Sends-Neutral (send_udp_payload-Sends env _ s))
        (quiet env _ _ refl refl refl))

  pub enter_udp_recovery-Neutral : (s : State env) → Neutral env s (enter_udp_recovery env s)
  unfolding enter_udp_recovery
  enter_udp_recovery-Neutral s = quiet env _ _ refl refl refl

  rebound-Neutral : (port : Option ℤ) (s : State env) → Neutral env s (rebound env port s).1
  unfolding rebound
  rebound-Neutral none s =
      Neutral-trans env (quiet env s (record s { udp_reset_requested = false }) refl refl refl)
        (emit_event-Neutral _ _ refl)
  rebound-Neutral (some port) s =
      Neutral-trans env
        (Neutral-trans env
          (Neutral-trans env
            (Neutral-trans env (quiet env s (record s { udp_socket = bound port }) refl refl refl)
              (send_ws_text-Neutral _ _))
            (send_udp_keepalive-Neutral _))
          (emit_event-Neutral (event_of EventType.udp_transport_ready) _ refl))
        (quiet env _ _ refl refl refl)

  pub reset_udp-Neutral : (s : State env) → Neutral env s (reset_udp env s).1
  unfolding reset_udp
  reset_udp-Neutral s =
      pick-Neutral _ s _ _ (Neutral-refl env s)
        (Neutral-trans env (quiet env s _ refl refl refl) (rebound-Neutral _ _))

  recreate_at-Neutral : (now : ℕ) (s : State env) → Neutral env s (recreate_at env now s)
  unfolding recreate_at
  recreate_at-Neutral now s =
      Neutral-trans env
        (Neutral-trans env
          (quiet env s (record s { last_network_recovery_at_ns = now }) refl refl refl)
          (reset_udp-Neutral _))
        (enter_udp_recovery-Neutral _)

  recreate_by-Neutral :
      (now : ℕ) (waiting t s : State env)
      → Neutral env s waiting
      → Neutral env s t
      → Neutral env s (recreate_by env now waiting t)
  unfolding recreate_by
  recreate_by-Neutral now waiting t s h k =
      if-Neutral _ s _ _ h (Neutral-trans env k (recreate_at-Neutral now t))

  pub drain_pending_network_recreate-Neutral :
      (s : State env) → Neutral env s (drain_pending_network_recreate env s)
  unfolding drain_pending_network_recreate
  drain_pending_network_recreate-Neutral s = if-Neutral _ s _ _ (Neutral-refl env s) (
      if-Neutral (not s.connected) s (record s { pending_network_recreate = false }) _
        (quiet env s _ refl refl refl)
        (if-Neutral s.session_state.local_tx_active s s _ (Neutral-refl env s) (
          recreate_by-Neutral _ _ _ s (quiet env s _ refl refl refl)
            (quiet env s _ refl refl refl))))

  pub notify_network_changed-Neutral :
      (s : State env) → Neutral env s (notify_network_changed env s)
  unfolding notify_network_changed
  notify_network_changed-Neutral s = if-Neutral (not s.connected) s s _ (Neutral-refl env s) (
      if-Neutral s.session_state.local_tx_active s (record s { pending_network_recreate = true }) _
        (quiet env s _ refl refl refl)
        (recreate_by-Neutral _ _ _ s (quiet env s _ refl refl refl) (quiet env s _ refl refl refl)))
