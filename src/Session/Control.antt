-- ===== src/Session/Control.antt =====
-- The rest of the public interface of class Session (session.cpp).
use o_walkie.Base.{Bool, true, false, not, ◌&&◌, List, [], ◌∷◌, is_empty, ◌==◌, if◌then◌else◌}
use o_walkie.Types.{Result, ok, not_connected, PowerProfile, SessionState}
use o_walkie.Messages.{build_repeater_mode}
use o_walkie.Session.State.{Env, State}
use o_walkie.Session.Outbound.{send_ws_text}

module _ (env : Env) where
  -- void Session::setCallbacks(SessionCallbacks callbacks), of which the arguments say whether
  -- onRxOpus and onRxPcm are set
  unfoldable pub set_callbacks : Bool → Bool → State env → State env
  set_callbacks opus pcm s = record s { has_rx_opus = opus; has_rx_pcm = pcm }

  -- bool Session::isConnected() const
  abbrev pub is_connected : State env → Bool
  is_connected s = s.connected

  -- bool Session::isSessionReady() const
  abbrev pub is_session_ready : State env → Bool
  is_session_ready s = s.connected && not (s.welcome.session_id == 0)

  -- bool Session::isConnectionLost() const
  abbrev pub is_connection_lost : State env → Bool
  is_connection_lost s = s.session_state.connection_lost

  -- SessionState Session::state() const
  abbrev pub state : State env → SessionState
  state s = s.session_state

  -- void Session::clearConnectionLostSignaled()
  unfoldable pub clear_connection_lost_signaled : State env → State env
  clear_connection_lost_signaled s = record s { connection_lost_signaled = false }

  -- Result Session::setRepeaterMode(bool enabled)
  unfoldable pub set_repeater_mode : Bool → State env → Result × State env
  set_repeater_mode enabled s =
      let kept = record s { repeater_mode = enabled } in
      if not kept.connected
      then (not_connected, kept)
      else (ok, send_ws_text env (build_repeater_mode env.json enabled) kept)

  -- void setPowerProfileInternal(PowerProfile profile)
  unfoldable pub set_power_profile : PowerProfile → State env → State env
  set_power_profile profile s = record s { power_profile = profile }

  -- bool waitTxQueueIdleInternal(int timeoutMs): while the deadline lies ahead, another look at the
  -- queue after what other threads did in five milliseconds. The worker finishes an item in one
  -- step, so that it is at work in none of the states looked at.
  pub wait_tx_queue_idle : List (State env → State env) → State env → Bool × State env
  wait_tx_queue_idle [] s = (is_empty s.tx_queue, s)
  wait_tx_queue_idle (others ∷ rest) s =
      let later = wait_tx_queue_idle rest (others s) in
      if is_empty s.tx_queue then (true, s) else later
