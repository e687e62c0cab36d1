-- ===== src/Manager.antt =====
-- owalkie-core/src/session_manager.cpp: the sessions that a program has prepared, by their numbers.
-- A managed session always has its Session, so the tests for a null pointer are left out. The
-- numbers are a 64-bit counter, which does not run out.
pub mod Connect
pub mod Registry
pub mod Calls
pub mod Samples
mod Examples
use o_walkie.Base.{
  ℕ, ℤ, ◌+◌, Bool, true, false, not, ◌&&◌, ◌||◌, List, [], ◌∷◌, Option, none, some, length, take,
  map, leb, ◌==◌, if◌then◌else◌, Assoc, lookup, is_member, adjust, without, keys,
}
use o_walkie.Types.{
  Result, ok, invalid_arg, not_ready, Outcome, success, failure, TxSubmitOp, ConnectParams,
  PowerProfile, SessionState,
}
use o_walkie.Session.State.{Env, State, new_state}
use o_walkie.Session.Events.{cancel_ongoing_connect, halt_transport}
use o_walkie.Session.Outbound.{punch_udp_nat as punch_session}
use o_walkie.Session.Worker.{is_abort, submit_tx as submit_session}
use o_walkie.Session.Lifecycle.{disconnect as disconnect_session, wait_until_transport_stopped}
use o_walkie.Session.Control.{
  set_callbacks, is_session_ready as is_ready, set_repeater_mode as set_session_mode,
  set_power_profile as set_session_profile, wait_tx_queue_idle as wait_session_idle,
}

-- kMaxManagedSessions
abbrev pub max_managed_sessions : ℕ
max_managed_sessions = 16

module _ (env : Env) where
  -- struct ManagedSession; `busy` says that a connect() holds sessionOpMu
  pub record ManagedSession : Type 0 where
    pub session : State env
    pub params : ConnectParams
    pub user_intent : Bool
    pub busy : Bool

  -- The fields of class SessionManager, with the sessions that the cleanup threads wait for, one
  -- for each pending cleanup.
  pub record SessionManager : Type 0 where
    pub sessions : Assoc ManagedSession
    pub next_id : ℕ
    pub cleanups : List (State env)

  abbrev pub new_manager : SessionManager
  new_manager = record { sessions = []; next_id = 1; cleanups = [] }

  abbrev pub on_session : (State env → State env) → ManagedSession → ManagedSession
  on_session f m = record m { session = f m.session }

  -- The session of a number changed in place, and nothing where there is none.
  abbrev pub update : ℕ → (ManagedSession → ManagedSession) → SessionManager → SessionManager
  update id f mgr = record mgr { sessions = adjust id f mgr.sessions }

  -- void signalUserDisconnect(const std::shared_ptr<ManagedSession>& managed)
  unfoldable pub signal_user_disconnect : ManagedSession → ManagedSession
  signal_user_disconnect m = record m {
    user_intent = false;
    session = cancel_ongoing_connect env m.session;
  }

  -- bool takeSessionForTeardown(SessionId id, int timeoutMs, ...): for each round before the
  -- deadline, whether another thread holds the session's lock.
  unfoldable pub take_session_for_teardown :
      ℕ → List Bool → SessionManager → Option ManagedSession × SessionManager
  take_session_for_teardown id [] mgr = (none, mgr)
  take_session_for_teardown id (held ∷ rounds) mgr = elim (lookup id mgr.sessions) [
    | none ↦ (none, mgr)
    | some m ↦
        let signalled = update id signal_user_disconnect mgr in
        let rest = take_session_for_teardown id rounds signalled in
        if held || m.busy then rest else (
          some (signal_user_disconnect m),
          record signalled { sessions = without id signalled.sessions },
        )
  ]

  -- void scheduleSessionCleanup(std::shared_ptr<ManagedSession> owned)
  unfoldable pub schedule_session_cleanup : ManagedSession → SessionManager → SessionManager
  schedule_session_cleanup owned mgr = record mgr { cleanups = owned.session ∷ mgr.cleanups }

  -- The newest cleanup thread comes to its end, and its session is destroyed.
  unfoldable pub finish_cleanup : SessionManager → Option (State env) × SessionManager
  finish_cleanup mgr = elim mgr.cleanups [
    | [] ↦ (none, mgr)
    | s ∷ rest ↦ (
      some (
          wait_until_transport_stopped env false
            (disconnect_session env (wait_until_transport_stopped env false s))),
      record mgr { cleanups = rest },
    )
  ]

  -- What disconnect(), releaseSession() and haltAndRelease() do with the session they took.
  abbrev pub release_taken :
      (State env → State env) → Option ManagedSession × SessionManager → SessionManager
  release_taken stop (none, mgr) = mgr
  release_taken stop (some owned, mgr) = schedule_session_cleanup (on_session stop owned) mgr

  -- void releaseSession(SessionId id, bool callDisconnect)
  unfoldable pub release_session : ℕ → List Bool → SessionManager → SessionManager
  release_session id rounds mgr =
      release_taken (λ s. disconnect_session env (set_callbacks env false false s))
        (take_session_for_teardown id rounds mgr)

  -- void haltAndRelease(SessionId id)
  unfoldable pub halt_and_release : ℕ → List Bool → SessionManager → SessionManager
  halt_and_release id rounds mgr =
      release_taken (λ s. halt_transport env (set_callbacks env false false s))
        (take_session_for_teardown id rounds mgr)

  -- The attempts of disconnect(), each with its rounds.
  unfoldable pub disconnect_attempts : ℕ → List (List Bool) → SessionManager → SessionManager
  disconnect_attempts id [] mgr = mgr
  disconnect_attempts id (rounds ∷ more) mgr =
      let taken = take_session_for_teardown id rounds mgr in
      let again =
        disconnect_attempts id more (update id (on_session (cancel_ongoing_connect env)) taken.1) in
      elim taken.0 [
        | some owned ↦ schedule_session_cleanup (on_session (disconnect_session env) owned) taken.1
        | none ↦ if is_member id taken.1.sessions then again else taken.1
      ]

  -- void disconnect(SessionId id): five attempts at most
  unfoldable pub disconnect : ℕ → List (List Bool) → SessionManager → SessionManager
  disconnect id attempts mgr = disconnect_attempts id (take 5 attempts) mgr

  abbrev pub cancel_all : Assoc ManagedSession → Assoc ManagedSession
  cancel_all [] = []
  cancel_all ((id, m) ∷ rest) =
      (id, on_session (cancel_ongoing_connect env) (signal_user_disconnect m)) ∷ cancel_all rest

  unfoldable pub disconnect_each : List ℕ → (ℕ → List (List Bool)) → SessionManager → SessionManager
  disconnect_each [] attempts mgr = mgr
  disconnect_each (id ∷ ids) attempts mgr =
      disconnect_each ids attempts (disconnect id (attempts id) mgr)

  -- void disconnectAll()
  unfoldable pub disconnect_all : (ℕ → List (List Bool)) → SessionManager → SessionManager
  disconnect_all attempts mgr =
      disconnect_each (keys mgr.sessions) attempts
        (record mgr { sessions = cancel_all mgr.sessions })

  -- SessionId prepareConnection(ConnectParams params, SessionCallbacks callbacks, ...), with
  -- whether the two receiving callbacks are set. The new session has no other callback to run.
  unfoldable pub prepare_connection :
      ConnectParams → Bool → Bool → SessionManager → ℕ × SessionManager
  prepare_connection params opus pcm mgr =
      if leb max_managed_sessions (length mgr.sessions) then (0, mgr) else (
        mgr.next_id,
        record mgr {
          sessions =
              (
                mgr.next_id,
                record {
                  session = set_callbacks env opus pcm (new_state env);
                  params = params;
                  user_intent = true;
                  busy = false;
                },
              )
              ∷ mgr.sessions;
          next_id = mgr.next_id + 1;
        },
      )

  -- bool isValid(SessionId id) const
  unfoldable pub is_valid : ℕ → SessionManager → Bool
  is_valid id mgr = not (id == 0) && is_member id mgr.sessions

  -- bool isSessionReady(SessionId id) const
  unfoldable pub is_session_ready : ℕ → SessionManager → Bool
  is_session_ready id mgr = elim (lookup id mgr.sessions) [
    | none ↦ false
    | some m ↦ is_ready env m.session
  ]

  -- Result getSessionInfo(SessionId id, SessionState* out_state, bool* out_ready) const
  pub get_session_info : ℕ → SessionManager → Outcome (SessionState × Bool)
  get_session_info id mgr = elim (lookup id mgr.sessions) [
    | none ↦ failure invalid_arg
    | some m ↦ success (m.session.session_state, is_ready env m.session)
  ]

  -- An operation of the session of a number, and a result where there is none.
  abbrev pub with_session {ℓ} :
      {A : Type ℓ}
      → A
      → (ManagedSession → A × ManagedSession)
      → ℕ
      → SessionManager
      → A × SessionManager
  with_session missing f id mgr = elim (lookup id mgr.sessions) [
    | none ↦ (missing, mgr)
    | some m ↦ ((f m).0, update id (λ _. (f m).1) mgr)
  ]

  submit_managed :
      (State env → State env)
      → TxSubmitOp
      → List ℤ
      → List ℕ
      → ManagedSession
      → Result × ManagedSession
  submit_managed waited op pcm bytes m =
      if not (is_abort op) && not (is_ready env m.session)
      then (not_ready, m)
      else (let (r, s) = submit_session env waited op pcm bytes m.session in
          (r, record m { session = s }))

  -- Result submitTx(SessionId id, TxSubmitOp op, ...)
  unfoldable pub submit_tx :
      (State env → State env)
      → ℕ
      → TxSubmitOp
      → List ℤ
      → List ℕ
      → SessionManager
      → Result × SessionManager
  unfolding submit_managed
  submit_tx waited id op pcm bytes =
      with_session invalid_arg (submit_managed waited op pcm bytes) id

  wait_managed : List (State env → State env) → ManagedSession → Bool × ManagedSession
  wait_managed others m =
      let (b, s) = wait_session_idle env others m.session in (b, record m { session = s })

  -- bool waitTxQueueIdle(SessionId id, int timeoutMs)
  unfoldable pub wait_tx_queue_idle :
      List (State env → State env) → ℕ → SessionManager → Bool × SessionManager
  unfolding wait_managed
  wait_tx_queue_idle others = with_session true (wait_managed others)

  mode_managed : Bool → ManagedSession → Result × ManagedSession
  mode_managed enabled m =
      let (r, s) = set_session_mode env enabled m.session in
      (r, record m { session = s; params = record (m.params) { repeater_mode = enabled } })

  -- Result setRepeaterMode(SessionId id, bool enabled)
  unfoldable pub set_repeater_mode : ℕ → Bool → SessionManager → Result × SessionManager
  unfolding mode_managed
  set_repeater_mode id enabled = with_session invalid_arg (mode_managed enabled) id

  -- void setPowerProfile(SessionId id, PowerProfile profile)
  unfoldable pub set_power_profile : ℕ → PowerProfile → SessionManager → SessionManager
  set_power_profile id profile = update id (on_session (set_session_profile env profile))

  punch_managed : ManagedSession → Result × ManagedSession
  punch_managed m = let (r, s) = punch_session env m.session in (r, record m { session = s })

  -- Result punchNat(SessionId id)
  unfoldable pub punch_nat : ℕ → SessionManager → Result × SessionManager
  unfolding punch_managed
  punch_nat = with_session invalid_arg punch_managed
