-- ===== src/Session/Invariant/Teardown.antt =====
-- Connecting and disconnecting keep a session coherent (session.cpp).
use o_walkie.Base.{
  refl, sym, ◌∙◌, Bool, true, false, not, ◌||◌, Option-cases, inl, inr, is_empty, [], if◌then◌else◌,
  if-holds,
}
use mathlib.Core.Bool.{false≢true}
use o_walkie.Types.{Result, EventType, ConnectParams, event_of, default_welcome}
use o_walkie.Endpoint.{ParsedHost, parse_host_endpoint}
use o_walkie.Codec.{reset}
use o_walkie.Session.State.{Env, State}
use o_walkie.Session.Events.{close_sockets, halt_transport}
use o_walkie.Session.Lifecycle.{
  Dial, unreachable, dialled, clear_transport_state, emit_disconnected_once,
  finalize_transport_teardown, disconnect, wait_until_transport_stopped, stop_running,
  begin_attempt, dial, attempt, is_port, connect, reconnect_teardown,
}
use o_walkie.Session.Invariant.{
  IsCoherent, Neutral, Neutral-refl, Neutral-trans, Neutral-IsCoherent, quiet,
}
use o_walkie.Session.Invariant.Quiet.{
  if-Neutral, emit_event-Neutral, halt_transport-Neutral, enter_udp_recovery-Neutral,
}
use o_walkie.Session.Invariant.Uplink.{
  IsClosing, end_local_tx-IsClosing, end_local_tx-IsCoherent, end_local_tx-over,
}
use o_walkie.Session.Invariant.Commands.{
  still, stop_tx_pipeline-IsCoherent, client_tx_open-stop_tx_pipeline,
}

module _ (env : Env) where
  pub clear_transport_state-IsClosing :
      (s : State env) → IsCoherent env s → IsClosing env (clear_transport_state env s)
  unfolding clear_transport_state
  clear_transport_state-IsClosing s c =
      let d = stop_tx_pipeline-IsCoherent env s c in
      record { active = d.active; alternating = d.alternating; closed = refl }

  clear_transport_state-IsCoherent :
      (s : State env) → IsCoherent env s → IsCoherent env (clear_transport_state env s)
  unfolding clear_transport_state
  clear_transport_state-IsCoherent s c =
      still env (stop_tx_pipeline-IsCoherent env s c) refl refl
        (sym (client_tx_open-stop_tx_pipeline env s))

  emit_disconnected_once-Neutral : (s : State env) → Neutral env s (emit_disconnected_once env s)
  unfolding emit_disconnected_once
  emit_disconnected_once-Neutral s =
      let marked = record s { disconnect_event_emitted = true } in
      if-Neutral env s.disconnect_event_emitted s s _ (Neutral-refl env s) (
        Neutral-trans env (quiet env s marked refl refl refl)
          (emit_event-Neutral env (event_of EventType.disconnected) marked refl))

  pub finalize_transport_teardown-IsCoherent :
      (s : State env) → IsCoherent env s → IsCoherent env (finalize_transport_teardown env s)
  unfolding finalize_transport_teardown
  finalize_transport_teardown-IsCoherent s c =
      let d = clear_transport_state-IsClosing s c in
      still env
        (Neutral-IsCoherent env (emit_disconnected_once-Neutral _) (
          end_local_tx-IsCoherent env _
            (record { active = d.active; alternating = d.alternating; closed = d.closed })))
        refl refl refl

  pub disconnect-IsCoherent : (s : State env) → IsCoherent env s → IsCoherent env (disconnect env s)
  unfolding disconnect
  disconnect-IsCoherent s c =
      let started = record s { disconnect_started = true; transport_fully_stopped = false } in
      if-holds (IsCoherent env) s.disconnect_started _ _
        (Neutral-IsCoherent env (halt_transport-Neutral env s) c)
        (still env
          (Neutral-IsCoherent env
            (Neutral-trans env
              (Neutral-trans env (quiet env s started refl refl refl)
                (halt_transport-Neutral env started))
              (emit_disconnected_once-Neutral _))
            c)
          refl refl refl)

  pub wait_until_transport_stopped-IsCoherent :
      (late : Bool) (s : State env)
      → IsCoherent env s
      → IsCoherent env (wait_until_transport_stopped env late s)
  unfolding wait_until_transport_stopped
  wait_until_transport_stopped-IsCoherent late s c =
      still env
        (if-holds (IsCoherent env) late _ _
          (clear_transport_state-IsCoherent _
            (Neutral-IsCoherent env (halt_transport-Neutral env s) c))
          (if-holds (IsCoherent env) s.teardown_pending _ s
            (finalize_transport_teardown-IsCoherent s c) c))
        refl refl refl

  stop_running-IsCoherent : (s : State env) → IsCoherent env s → IsCoherent env (stop_running env s)
  unfolding stop_running close_sockets
  stop_running-IsCoherent s c = clear_transport_state-IsCoherent _ (
      still env
        (if-holds (IsCoherent env) (s.connected || s.disconnect_started) _ s
          (wait_until_transport_stopped-IsCoherent false _ (disconnect-IsCoherent s c)) c)
        refl refl refl)

  begin_attempt-IsCoherent :
      (params : ConnectParams) (s : State env)
      → IsCoherent env s
      → IsCoherent env (begin_attempt env params s)
  unfolding begin_attempt
  begin_attempt-IsCoherent params s c =
      Neutral-IsCoherent env (emit_event-Neutral env (event_of EventType.connecting) _ refl)
        (still env c refl refl refl)

  dial-IsCoherent :
      (outcome : Dial) (s : State env) → IsCoherent env s → IsCoherent env (dial env outcome s).1
  unfolding dial close_sockets
  dial-IsCoherent unreachable s c = clear_transport_state-IsCoherent _ (still env c refl refl refl)
  dial-IsCoherent (dialled port) s c =
      still env
        (Neutral-IsCoherent env (enter_udp_recovery-Neutral env _) (still env c refl refl refl))
        refl refl refl

  attempt-IsCoherent :
      (params : ConnectParams) (outcome : Dial) (parsed : ParsedHost) (s : State env)
      → IsCoherent env s
      → IsCoherent env (attempt env params outcome parsed s).1
  unfolding attempt
  attempt-IsCoherent params outcome parsed s c =
      let P : Result × State env → Type 0 = λ p. IsCoherent env p.1 in
      if-holds P (is_empty parsed.host || not (is_port env params.port)) _ _ c (
        if-holds P (params.use_tls || parsed.use_tls) _ _ c
          (dial-IsCoherent outcome _ (begin_attempt-IsCoherent params s c)))

  pub connect-IsCoherent :
      (params : ConnectParams) (after_teardown : Bool) (outcome : Dial) (s : State env)
      → IsCoherent env s
      → IsCoherent env (connect env params after_teardown outcome s).1
  unfolding connect
  connect-IsCoherent params after_teardown outcome s c =
      let stopped = if after_teardown then s else stop_running env s in
      let d : IsCoherent env stopped =
        if-holds (IsCoherent env) after_teardown s _ c (stop_running-IsCoherent s c) in
      let known = record stopped { channel = params.channel } in
      let k : IsCoherent env known = still env d refl refl refl in
      elim (Option-cases (parse_host_endpoint params.host params.port)) [
        | inl e ↦ rw (e, connect) k
        | inr (parsed, e) ↦ rw (e, connect) (attempt-IsCoherent params outcome parsed known k)
      ]

  pub reconnect_teardown-IsCoherent :
      (late : Bool) (s : State env)
      → IsCoherent env s
      → IsCoherent env (reconnect_teardown env late s)
  unfolding reconnect_teardown
  reconnect_teardown-IsCoherent late s c =
      let fresh = record s {
        connection_lost_signaled = false;
        disconnect_started = false;
        disconnect_event_emitted = false;
        stop_requested = false;
      } in
      let f : IsCoherent env fresh = still env c refl refl refl in
      let stopped =
        if s.transport_fully_stopped
        then fresh
        else wait_until_transport_stopped env late (halt_transport env fresh) in
      let g : IsCoherent env stopped =
        if-holds (IsCoherent env) s.transport_fully_stopped fresh _ f (
          wait_until_transport_stopped-IsCoherent late _
            (Neutral-IsCoherent env (halt_transport-Neutral env fresh) f)) in
      let d = clear_transport_state-IsClosing stopped g in
      let cleared = clear_transport_state env stopped in
      let forgotten = record cleared {
        welcome = default_welcome;
        seq = 0;
        client_tx_open = false;
        opus = reset env.opus cleared.opus;
        tx_pcm_buffer = [];
      } in
      let k : IsClosing env forgotten = record {
        active = d.active;
        alternating = d.alternating;
        closed = refl;
      } in
      let e = end_local_tx-IsCoherent env forgotten k in
      let o = (end_local_tx-IsClosing env forgotten k).closed in
      record {
        active = sym (end_local_tx-over env forgotten) ∙ e.active;
        alternating = e.alternating;
        shown = λ h. absurd (false≢true (sym o ∙ h));
      }
