-- ===== src/Session/Invariant/Reach.antt =====
-- The states that a session reaches by steps of its threads and of its caller (session.cpp).
use Prim.Native.String.{String}
use o_walkie.Base.{
  ℕ, ℤ, ◌≡◌, refl, Bool, true, false, not, ◌||◌, List, Option, some, ◌==◌, if-holds,
}
use o_walkie.Types.{Result, TxSubmitOp, ConnectParams, PowerProfile}
use o_walkie.LinkSignal.{Registry}
use o_walkie.Session.State.{Env, State, new_state}
use o_walkie.Session.Events.{
  emit_connection_failed, emit_connection_lost, cancel_ongoing_connect, close_sockets,
  halt_transport,
}
use o_walkie.Session.Outbound.{
  ErrorCode, on_ws_written, reset_udp, notify_network_changed, punch_udp_nat,
}
use o_walkie.Session.Control.{set_repeater_mode, clear_connection_lost_signaled}
use o_walkie.Session.Worker.{tx_worker_round, submit_tx}
use o_walkie.Session.Keepalive.{keepalive_round}
use o_walkie.Session.Inbound.{WsRead, on_ws_read, Received, udp_read_round}
use o_walkie.Session.Lifecycle.{
  Dial, connect, reconnect_connect, reconnect_teardown, disconnect, wait_until_transport_stopped,
  finalize_transport_teardown,
}
use o_walkie.Session.Invariant.{
  IsCoherent, Neutral, Neutral-refl, Neutral-trans, Neutral-IsCoherent, quiet,
}
use o_walkie.Session.Invariant.Quiet.{
  halt_transport-Neutral, send_ws_text-Neutral, emit_event-Neutral, emit_loss-Neutral,
  on_ws_written-Neutral, reset_udp-Neutral, notify_network_changed-Neutral,
  send_udp_keepalive-Neutral,
}
use o_walkie.Session.Invariant.Commands.{still, tx_worker_round-IsCoherent, submit_tx-IsCoherent}
use o_walkie.Session.Invariant.Teardown.{
  connect-IsCoherent, reconnect_teardown-IsCoherent, disconnect-IsCoherent,
  wait_until_transport_stopped-IsCoherent, finalize_transport_teardown-IsCoherent,
}
use o_walkie.Session.Invariant.Inbound.{
  on_ws_read-Neutral, udp_read_round-Neutral, keepalive_round-Neutral,
}

module _ (env : Env) where
  -- One step of a thread or of the caller.
  pub data Step : State env → State env → Type 0 where
    connects :
        (s : State env) (params : ConnectParams) (outcome : Dial)
        → Step s (connect env params false outcome s).1
    reconnects :
        (s : State env) (params : ConnectParams) (outcome : Dial)
        → Step s (reconnect_connect env params outcome s).1
    tears_down : (s : State env) (late : Bool) → Step s (reconnect_teardown env late s)
    disconnects : (s : State env) → Step s (disconnect env s)
    waits : (s : State env) (late : Bool) → Step s (wait_until_transport_stopped env late s)
    finishes : (s : State env) → Step s (finalize_transport_teardown env s)
    halts : (s : State env) → Step s (halt_transport env s)
    sets_mode : (s : State env) (enabled : Bool) → Step s (set_repeater_mode env enabled s).1
    clears_loss : (s : State env) → Step s (clear_connection_lost_signaled env s)
    cancels : (s : State env) → Step s (cancel_ongoing_connect env s)
    fails : (s : State env) (reason : String) → Step s (emit_connection_failed env reason s)
    loses : (s : State env) (reason : String) → Step s (emit_connection_lost env reason s)
    reads : (s : State env) (r : WsRead env) → Step s (on_ws_read env r s).1
    writes : (s : State env) (ec : Option ErrorCode) → Step s (on_ws_written env ec s)
    receives : (s : State env) (r : Received env) → Step s (udp_read_round env r s).1
    keeps_alive : (s : State env) → Step s (keepalive_round env s).1
    works : (s t : State env) → tx_worker_round env s ≡ some t → Step s t
    resets : (s : State env) → Step s (reset_udp env s).1
    moves : (s : State env) → Step s (notify_network_changed env s)
    punches : (s : State env) → Step s (punch_udp_nat env s).1
    adjusts :
        (s : State env) (profile : PowerProfile) (registry : Registry) (opus pcm : Bool)
        → Step s (record s {
          power_profile = profile;
          link_registry = registry;
          has_rx_opus = opus;
          has_rx_pcm = pcm;
        })

  -- The states that lie behind a new session: after a step, and after a command, which may wait
  -- for room in the queue while other steps bring the session to another such state.
  pub data Reach : State env → Type 0 where
    starts : Reach (new_state env)
    steps : (s t : State env) → Reach s → Step s t → Reach t
    submits :
        (waited : State env → State env) (op : TxSubmitOp) (pcm : List ℤ) (bytes : List ℕ)
        (s : State env)
        → Reach s
        → Reach (waited s)
        → Reach (submit_tx env waited op pcm bytes s).1

  emit_connection_lost-Neutral :
      (reason : String) (s : State env) → Neutral env s (emit_connection_lost env reason s)
  unfolding emit_connection_lost
  emit_connection_lost-Neutral reason s =
      let marked = record s { connection_lost_signaled = true } in
      if-holds (Neutral env s) s.disconnect_started s _ (Neutral-refl env s) (
        Neutral-trans env (quiet env s marked refl refl refl) (emit_loss-Neutral env reason marked))

  emit_connection_failed-Neutral :
      (reason : String) (s : State env) → Neutral env s (emit_connection_failed env reason s)
  unfolding emit_connection_failed
  emit_connection_failed-Neutral reason s = emit_event-Neutral env _ s refl

  cancel_ongoing_connect-Neutral : (s : State env) → Neutral env s (cancel_ongoing_connect env s)
  unfolding cancel_ongoing_connect close_sockets
  cancel_ongoing_connect-Neutral s = quiet env _ _ refl refl refl

  punch_udp_nat-Neutral : (s : State env) → Neutral env s (punch_udp_nat env s).1
  unfolding punch_udp_nat
  punch_udp_nat-Neutral s =
      if-holds (λ (p : Result × State env). Neutral env s p.1)
        (not s.connected || s.welcome.session_id == 0) _ _ (Neutral-refl env s)
        (send_udp_keepalive-Neutral env s)

  set_repeater_mode-Neutral :
      (enabled : Bool) (s : State env) → Neutral env s (set_repeater_mode env enabled s).1
  unfolding set_repeater_mode
  set_repeater_mode-Neutral enabled s =
      let kept = record s { repeater_mode = enabled } in
      let n : Neutral env s kept = quiet env s kept refl refl refl in
      if-holds (λ (p : Result × State env). Neutral env s p.1) (not kept.connected) _ _ n
        (Neutral-trans env n (send_ws_text-Neutral env _ kept))

  -- Every step keeps a session coherent.
  pub Step-IsCoherent : {s t : State env} → Step s t → IsCoherent env s → IsCoherent env t
  unfolding reconnect_connect clear_connection_lost_signaled
  Step-IsCoherent (connects s params outcome) c = connect-IsCoherent env params false outcome s c
  Step-IsCoherent (reconnects s params outcome) c =
      connect-IsCoherent env params true outcome _ (still env c refl refl refl)
  Step-IsCoherent (tears_down s late) c = reconnect_teardown-IsCoherent env late s c
  Step-IsCoherent (disconnects s) c = disconnect-IsCoherent env s c
  Step-IsCoherent (waits s late) c = wait_until_transport_stopped-IsCoherent env late s c
  Step-IsCoherent (finishes s) c = finalize_transport_teardown-IsCoherent env s c
  Step-IsCoherent (halts s) c = Neutral-IsCoherent env (halt_transport-Neutral env s) c
  Step-IsCoherent (sets_mode s enabled) c =
      Neutral-IsCoherent env (set_repeater_mode-Neutral enabled s) c
  Step-IsCoherent (clears_loss s) c = still env c refl refl refl
  Step-IsCoherent (cancels s) c = Neutral-IsCoherent env (cancel_ongoing_connect-Neutral s) c
  Step-IsCoherent (fails s reason) c =
      Neutral-IsCoherent env (emit_connection_failed-Neutral reason s) c
  Step-IsCoherent (loses s reason) c =
      Neutral-IsCoherent env (emit_connection_lost-Neutral reason s) c
  Step-IsCoherent (reads s r) c = Neutral-IsCoherent env (on_ws_read-Neutral env r s) c
  Step-IsCoherent (writes s ec) c = Neutral-IsCoherent env (on_ws_written-Neutral env ec s) c
  Step-IsCoherent (receives s r) c = Neutral-IsCoherent env (udp_read_round-Neutral env r s) c
  Step-IsCoherent (keeps_alive s) c = Neutral-IsCoherent env (keepalive_round-Neutral env s) c
  Step-IsCoherent (works s t e) c = tx_worker_round-IsCoherent env s t c e
  Step-IsCoherent (resets s) c = Neutral-IsCoherent env (reset_udp-Neutral env s) c
  Step-IsCoherent (moves s) c = Neutral-IsCoherent env (notify_network_changed-Neutral env s) c
  Step-IsCoherent (punches s) c = Neutral-IsCoherent env (punch_udp_nat-Neutral s) c
  Step-IsCoherent (adjusts s profile registry opus pcm) c = still env c refl refl refl

  -- In every state that a session reaches by the listed steps of its threads and of its caller, in
  -- any order and one at a time, but for halts that come in at a sleep or behind the flush of an
  -- ending transmission: LocalTxStart and LocalTxEnd alternate in what the callback gets, beginning
  -- with a start; localTxActive of the session's state says which came last; and the uplink is open
  -- only while a local transmission is shown.
  pub Reach-IsCoherent : (s : State env) → Reach s → IsCoherent env s
  Reach-IsCoherent _ starts = record { active = refl; alternating = tt; shown = λ h. h }
  Reach-IsCoherent _ (steps s t r st) = Step-IsCoherent st (Reach-IsCoherent s r)
  Reach-IsCoherent _ (submits waited op pcm bytes s r w) =
      submit_tx-IsCoherent env waited op pcm bytes s (Reach-IsCoherent s r)
        (Reach-IsCoherent (waited s) w)
