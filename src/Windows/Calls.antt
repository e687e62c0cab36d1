-- ===== src/Windows/Calls.antt =====
-- The calls of RelayClient.cpp that go to the session manager, and a round of its reconnect loop.
pub mod Reconnect
use Prim.Native.String.{String, ◌++◌}
use o_walkie.Base.{
  ℕ, ℤ, ◌*◌, Bool, true, false, not, ◌&&◌, ◌||◌, List, [], ◌∷◌, is_empty, Option, none, some, min,
  ◌==◌, if◌then◌else◌,
}
use o_walkie.Types.{
  Result, ok, EventType, Event, WelcomeConfig, ConnectParams, Outcome, success, failure,
  SessionState, foreground, TxSubmitOp, tx_open, tx_pcm, tx_close, tx_abort,
}
use o_walkie.Session.State.{Env, State}
use o_walkie.Manager.{
  SessionManager, prepare_connection, set_power_profile, halt_and_release, is_valid,
  is_session_ready, get_session_info, submit_tx, set_repeater_mode,
}
use o_walkie.Manager.Connect.{Surroundings, connect as connect_session}
use o_walkie.Interface.{is_visible, is_empty_text}
use o_walkie.Windows.{Client, notify, on_connected, stop_reconnect_loop}

module _ (env : Env) where
  -- The client and the session manager that it calls.
  pub record World : Type 0 where
    pub client : Client
    pub manager : SessionManager env

  -- bool RelayClient::IsConnected() const
  abbrev pub is_connected : World → Bool
  is_connected w =
      not (w.client.session_id == 0)
      && is_valid env w.client.session_id w.manager
      && is_session_ready env w.client.session_id w.manager

  -- void RelayClient::Disconnect(bool notifyCallbacks), from another thread than the loop's
  unfoldable pub disconnect : Bool → List Bool → World → World
  disconnect notify_callbacks rounds w =
      let stopped = record ((stop_reconnect_loop false w.client).1) {
        notify_ui_callbacks = notify_callbacks;
      } in
      let id = stopped.session_id in
      let released = if id == 0 then w.manager else halt_and_release env id rounds w.manager in
      let cleared = record stopped { session_id = 0 } in
      record {
        client = if notify_callbacks then notify (on_connected false) cleared else cleared;
        manager = released;
      }

  -- bool RelayClient::TryReconnect(int timeoutMs), with what the events that the call raises make of
  -- the client and the manager; none is an exception
  unfoldable pub try_reconnect : Surroundings env → (World → World) → World → Option Bool × World
  try_reconnect around meanwhile w =
      let id = w.client.session_id in
      let held = record w { client = record (w.client) { connect_in_flight = true } } in
      let (r, mgr) = connect_session env around id held.manager in
      let after = meanwhile (record held { manager = mgr }) in
      let free = record after { client = record (after.client) { connect_in_flight = false } } in
      if id == 0
      then (some false, w)
      else if w.client.connect_in_flight
      then (some (is_connected w), w)
      else if not (is_valid env id w.manager)
      then (some false, record w { client = record (w.client) { connect_in_flight = false } })
      else elim r [
        | none ↦ (none, free)
        | some ok ↦ (some (is_session_ready env after.client.session_id after.manager), free)
        | some _ ↦ (some false, free)
      ]

  abbrev pub transport_up : Outcome (SessionState × Bool) → Bool
  transport_up (success (st, ready)) = st.connected
  transport_up (failure r) = false

  abbrev pub with_backoff : ℕ → World → World
  with_backoff ms w = record w { client = record (w.client) { reconnect_backoff_ms = ms } }

  -- One round of the reconnect loop, with the milliseconds of its sleep; none is an exception
  unfoldable pub reconnect_round : Surroundings env → (World → World) → World → Option ℕ × World
  reconnect_round around meanwhile w =
      let up = transport_up (get_session_info env w.client.session_id w.manager) in
      let (r, tried) = try_reconnect around meanwhile w in
      let backoff = tried.client.reconnect_backoff_ms in
      if w.client.session_id == 0
      then (some 200, w)
      else if is_connected w || up
      then (some 500, with_backoff 1500 w)
      else if w.client.connect_in_flight
      then (some 200, w)
      else elim r [
        | none ↦ (none, tried)
        | some b ↦ (some backoff, with_backoff (min (backoff * 2) 30000) tried)
      ]

  -- void RelayClient::StartReconnectLoop()
  unfoldable pub start_reconnect_loop : World → World
  start_reconnect_loop w = if w.client.reconnect_loop_running then w else record w {
    client = record (w.client) { reconnect_loop_running = true; reconnect_backoff_ms = 1500 };
  }

  abbrev pub client_params : List ℕ → ℤ → String → Bool → ConnectParams
  client_params host port channel repeater = record {
    host = host;
    port = port;
    channel = if is_empty_text channel then "global" else channel;
    use_tls = false;
    repeater_mode = repeater;
  }

  -- bool RelayClient::Connect(const std::string& host, int serverPort, ...), of the parameters that
  -- the arguments make, with the rounds of the release in Disconnect(false)
  unfoldable pub connect :
      ConnectParams → List Bool → Surroundings env → (World → World) → World → Option Bool × World
  connect params rounds around meanwhile w =
      let fresh = disconnect false rounds w in
      let (id, mgr) = prepare_connection env params false true fresh.manager in
      let made = start_reconnect_loop (record {
        client = record (fresh.client) { session_id = id; notify_ui_callbacks = true };
        manager = set_power_profile env id foreground mgr;
      }) in
      let (r, tried) = try_reconnect around meanwhile made in
      if id == 0
      then (some false, record fresh { manager = mgr })
      else elim r [ none ↦ (none, tried) | some b ↦ (some true, tried) ]

  abbrev pub submit : (State env → State env) → TxSubmitOp → List ℤ → World → Result × World
  submit waited op pcm w =
      let (r, mgr) = submit_tx env waited w.client.session_id op pcm [] w.manager in
      (r, record w { manager = mgr })

  abbrev pub is_ok : Result → Bool
  is_ok ok = true
  is_ok _ = false

  -- bool RelayClient::TxOpen()
  unfoldable pub open_tx : (State env → State env) → World → Bool × World
  open_tx waited w =
      let (r, later) = submit waited tx_open [] w in
      if not (is_connected w) then (false, w) else (is_ok r, later)

  -- void RelayClient::TxPcm(const int16_t* samples, size_t count)
  unfoldable pub feed_tx : (State env → State env) → List ℤ → World → World
  feed_tx waited pcm w =
      if not (is_connected w) || is_empty pcm then w else (submit waited tx_pcm pcm w).1

  -- void RelayClient::TxClose() and void RelayClient::TxAbort()
  unfoldable pub close_tx : (State env → State env) → World → World
  close_tx waited w = if w.client.session_id == 0 then w else (submit waited tx_close [] w).1

  unfoldable pub abort_tx : (State env → State env) → World → World
  abort_tx waited w = if w.client.session_id == 0 then w else (submit waited tx_abort [] w).1

  -- void RelayClient::SetRepeaterMode(bool enabled)
  unfoldable pub set_mode : Bool → World → World
  set_mode enabled w =
      if w.client.session_id == 0
      then w
      else record w { manager = (set_repeater_mode env w.client.session_id enabled w.manager).1 }
