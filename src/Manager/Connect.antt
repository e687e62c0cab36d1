-- ===== src/Manager/Connect.antt =====
-- SessionManager::connect (session_manager.cpp): one attempt to connect a managed session.
pub mod Ready
pub mod Refused
use o_walkie.Base.{
  ℕ, zero, suc, Bool, true, false, not, ◌&&◌, List, Option, none, some, if◌then◌else◌, lookup,
}
use Prim.Native.String.{String}
use o_walkie.Types.{Result, ok, invalid_arg, protocol, network, unsupported}
use o_walkie.Session.State.{Env}
use o_walkie.Session.Events.{cancel_ongoing_connect, halt_transport, emit_connection_failed}
use o_walkie.Session.Lifecycle.{
  Dial, wait_until_transport_stopped, reconnect_teardown, reconnect_connect,
}
use o_walkie.Session.Control.{is_session_ready, clear_connection_lost_signaled}
use o_walkie.Manager.{ManagedSession, SessionManager, on_session, update, release_session}

-- What goes on around one call: what the other threads make of the managed session at the k-th
-- point where they come in, how many polls each of the two waits for a welcome has before its
-- deadline, whether the two waits for the transport pass theirs, what dialling comes to, and the
-- rounds of a release.
pub record Surroundings (env : Env) : Type 0 where
  pub others : ℕ → ManagedSession env → ManagedSession env
  pub first_polls : ℕ
  pub second_polls : ℕ
  pub stop_late : Bool
  pub teardown_late : Bool
  pub outcome : Dial
  pub release_rounds : List Bool

module _ (env : Env) (around : Surroundings env) where
  open around use {
    others, first_polls, second_polls, stop_late, teardown_late, outcome, release_rounds,
  }

  abbrev pub ready : ManagedSession env → Bool
  ready m = is_session_ready env m.session

  -- The polls for a welcome, each after what other threads did in twenty milliseconds.
  unfoldable pub await_welcome : ℕ → ManagedSession env → ManagedSession env
  await_welcome zero m = m
  await_welcome (suc polls) m =
      let later = await_welcome polls (others (suc polls) m) in
      if not m.user_intent
      then m
      else if ready m
      then m
      else if not m.session.connected
      then m
      else later

  -- What a call comes to: it returns, an exception leaves it, or the parameters are refused.
  pub data Verdict : Type 0 where
    returns : Result → Verdict
    throws : Verdict
    refuses : Result → Verdict

  abbrev pub failed : Result → Verdict
  failed invalid_arg = refuses invalid_arg
  failed unsupported = refuses unsupported
  failed protocol = refuses protocol
  failed r = returns r

  -- After the attempt.
  abbrev pub concluded : Option Result → ManagedSession env → Verdict
  concluded none m = throws
  concluded (some ok) m = if ready m then returns ok else returns network
  concluded (some r) m = failed r

  abbrev pub is_ok : Option Result → Bool
  is_ok (some ok) = true
  is_ok _ = false

  unfoldable pub settle : Option Result → ManagedSession env → Verdict × ManagedSession env
  settle r m =
      let last =
        if is_ok r && not (ready m) && m.user_intent then await_welcome second_polls m else m in
      (concluded r last, last)

  unfoldable pub dial_session : ManagedSession env → Verdict × ManagedSession env
  dial_session m =
      if not m.user_intent
      then (returns invalid_arg, m)
      else (let (r, s) = reconnect_connect env m.params outcome m.session in
          settle r (others 400 (record m { session = s })))

  -- The teardown, and the hook between it and the attempt.
  unfoldable pub redial : ManagedSession env → Verdict × ManagedSession env
  redial m =
      let torn =
        on_session env
          (λ s. clear_connection_lost_signaled env (reconnect_teardown env teardown_late s)) m in
      let noticed = others 200 torn in
      if not noticed.user_intent
      then (returns invalid_arg, noticed)
      else dial_session (others 300 noticed)

  -- The wait for a welcome that may be under way.
  unfoldable pub after_stop : ManagedSession env → Verdict × ManagedSession env
  after_stop m =
      let waited =
        if m.session.connected && not (ready m) then await_welcome first_polls m else m in
      if not m.user_intent
      then (returns invalid_arg, m)
      else if ready m
      then (returns ok, m)
      else if ready waited
      then (returns ok, waited)
      else redial waited

  -- The part behind the session's lock.
  unfoldable pub locked : ManagedSession env → Verdict × ManagedSession env
  locked m =
      let stopped =
        on_session env
          (λ s.
            wait_until_transport_stopped env stop_late
              (halt_transport env (cancel_ongoing_connect env s)))
          m in
      if not m.user_intent
      then (returns invalid_arg, m)
      else if ready m
      then (returns ok, m)
      else after_stop (others 100 stopped)

  unfoldable pub connect_managed : ManagedSession env → Verdict × ManagedSession env
  connect_managed m =
      if not m.user_intent
      then (returns invalid_arg, m)
      else if ready m
      then (returns ok, m)
      else locked (others 0 m)

  abbrev pub reason_of : Result → String
  reason_of invalid_arg = "invalid connect parameters"
  reason_of r = "connect failed"

  -- The lock is held until the function returns, so that the release of a refused session runs
  -- with it.
  unfoldable pub conclude :
      ℕ → Verdict × ManagedSession env → SessionManager env → Option Result × SessionManager env
  conclude id (returns r, m) mgr = (some r, update env id (λ _. m) mgr)
  conclude id (throws, m) mgr = (none, update env id (λ _. m) mgr)
  conclude id (refuses r, m) mgr =
      let failed = on_session env (emit_connection_failed env (reason_of r)) m in
      let held = update env id (λ _. record failed { busy = true }) mgr in
      (
        some r,
        update env id (λ k. record k { busy = false }) (release_session env id release_rounds held),
      )

  -- Result connect(SessionId id, int timeoutMs); none is an exception of the attempt. The session is
  -- held by a pointer from the lookup on, so that it lives on where other threads, by the first
  -- argument, take its number out of the table meanwhile.
  abbrev pub connect_among :
      (SessionManager env → SessionManager env)
      → ℕ
      → SessionManager env
      → Option Result × SessionManager env
  connect_among meanwhile id mgr = elim (lookup id mgr.sessions) [
    | none ↦ (some invalid_arg, mgr)
    | some m ↦ conclude id (connect_managed m) (meanwhile mgr)
  ]

  -- The same of a call during which no other thread changes the table
  unfoldable pub connect : ℕ → SessionManager env → Option Result × SessionManager env
  connect id mgr = connect_among (λ t. t) id mgr
