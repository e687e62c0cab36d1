-- ===== src/Manager/Connect/Ready.antt =====
-- A connect() that returns Ok leaves a session that is ready (session_manager.cpp).
use o_walkie.Base.{
  ◌≢◌, ℕ, ◌≡◌, refl, ap, sym, ◌∙◌, true, not, ◌&&◌, Option, none, some, Option-cases, inl, inr,
  lookup, lookup-adjust, is_member, is_member-lookup-none, is_member-lookup-some, if-cases,
  if◌then◌else◌, arith,
}
use o_walkie.Types.{Result, ok, invalid_arg}
use o_walkie.Session.State.{Env}
use o_walkie.Session.Lifecycle.{reconnect_teardown}
use o_walkie.Session.Control.{clear_connection_lost_signaled}
use o_walkie.Manager.{ManagedSession, SessionManager, on_session, update, is_session_ready}
use o_walkie.Manager.Connect.{
  Surroundings, Verdict, returns, throws, refuses, concluded, ready, settle, dial_session, redial,
  after_stop, locked, connect_managed, conclude, connect_among, await_welcome,
}

module _ (env : Env) (around : Surroundings env) where
  -- Ok is returned of a ready session only.
  record IsSound (p : Verdict env around × ManagedSession env) : Type 0 where
    pub holds : p.0 ≡ returns ok → ready env around p.1 ≡ true
    pub refused : p.0 ≢ refuses ok

  -- Another verdict says nothing.
  other-IsSound : (r : Result) (m : ManagedSession env) → r ≢ ok → IsSound (returns r, m)
  other-IsSound r m h = record { holds = λ e. ground (arith, e); refused = λ e. cc }

  concluded-IsSound :
      (r : Option Result) (m : ManagedSession env) → IsSound (concluded env around r m, m)
  concluded-IsSound none m = record { holds = λ e. cc; refused = λ e. cc }
  concluded-IsSound (some ok) m = record {
    holds = λ e. ground (arith, e);
    refused = λ e. ground (arith, e);
  }
  concluded-IsSound (some r) m = record { holds = λ e. cc; refused = λ e. cc }

  settle-IsSound : (r : Option Result) (m : ManagedSession env) → IsSound (settle env around r m)
  unfolding settle
  settle-IsSound r m = concluded-IsSound r _

  dial_session-IsSound : (m : ManagedSession env) → IsSound (dial_session env around m)
  unfolding dial_session
  dial_session-IsSound m =
      if-cases IsSound (not m.user_intent) _ _ (λ e. other-IsSound invalid_arg _ (λ q. cc))
        (λ e. settle-IsSound _ _)

  redial-IsSound : (m : ManagedSession env) → IsSound (redial env around m)
  unfolding redial
  redial-IsSound m =
      let torn =
        on_session env
          (λ s. clear_connection_lost_signaled env (reconnect_teardown env around.teardown_late s))
          m in
      let noticed = around.others 200 torn in
      if-cases IsSound (not noticed.user_intent) (returns invalid_arg, noticed)
        (dial_session env around (around.others 300 noticed))
        (λ e. other-IsSound invalid_arg _ (λ q. cc)) (λ e. dial_session-IsSound _)

  after_stop-IsSound : (m : ManagedSession env) → IsSound (after_stop env around m)
  unfolding after_stop
  after_stop-IsSound m =
      let waited =
        if m.session.connected && not (ready env around m)
        then await_welcome env around around.first_polls m
        else m in
      if-cases IsSound (not m.user_intent) _ _ (λ e. other-IsSound invalid_arg _ (λ q. cc))
        (λ e.
          if-cases IsSound (ready env around m) (returns ok, m) _
            (λ f. record { holds = λ h. f; refused = λ q. cc })
            (λ f.
              if-cases IsSound (ready env around waited) (returns ok, waited) _
                (λ g. record { holds = λ h. g; refused = λ q. cc }) (λ g. redial-IsSound waited)))

  locked-IsSound : (m : ManagedSession env) → IsSound (locked env around m)
  unfolding locked
  locked-IsSound m =
      if-cases IsSound (not m.user_intent) _ _ (λ e. other-IsSound invalid_arg _ (λ q. cc))
        (λ e.
          if-cases IsSound (ready env around m) (returns ok, m) _
            (λ f. record { holds = λ h. f; refused = λ q. cc }) (λ f. after_stop-IsSound _))

  connect_managed-IsSound : (m : ManagedSession env) → IsSound (connect_managed env around m)
  unfolding connect_managed
  connect_managed-IsSound m =
      if-cases IsSound (not m.user_intent) _ _ (λ e. other-IsSound invalid_arg _ (λ q. cc))
        (λ e.
          if-cases IsSound (ready env around m) (returns ok, m) _
            (λ f. record { holds = λ h. f; refused = λ q. cc }) (λ f. locked-IsSound _))

  -- An update of a session changes neither who has a number nor what stands under it.
  updated :
      (id : ℕ) (m : ManagedSession env) (mgr : SessionManager env)
      → is_session_ready env id (update env id (λ _. m) mgr)
        ≡ (ready env around m && is_member id mgr.sessions)
  unfolding is_session_ready
  updated id m mgr = elim (Option-cases (lookup id mgr.sessions)) [
    | inl e ↦ ground (
      arith,
      e,
      lookup-adjust id id (λ _. m) mgr.sessions,
      is_member-lookup-none id mgr.sessions e,
    )
    | inr (k, e) ↦ ground (
      arith,
      e,
      lookup-adjust id id (λ _. m) mgr.sessions,
      is_member-lookup-some id k mgr.sessions e,
    )
  ]

  conclude-ready :
      (id : ℕ) (p : Verdict env around × ManagedSession env) (mgr : SessionManager env)
      → IsSound p
      → (conclude env around id p mgr).0 ≡ some ok
      → is_session_ready env id (conclude env around id p mgr).1 ≡ is_member id mgr.sessions
  unfolding conclude
  conclude-ready id (returns r, m) mgr s h = ground (arith, updated id m mgr, s.holds, h)
  conclude-ready id (throws, m) mgr s h = cc
  conclude-ready id (refuses r, m) mgr s h = absurd (ground (arith, s.refused, h))

  -- Whatever other threads make of the session and of the table of sessions meanwhile, a connect()
  -- that returns Ok leaves the session connected and welcomed, if they left its number in the table;
  -- a number that they took out is not ready.
  pub connect-is_session_ready :
      (meanwhile : SessionManager env → SessionManager env) (id : ℕ) (mgr : SessionManager env)
      → (connect_among env around meanwhile id mgr).0 ≡ some ok
      → is_session_ready env id (connect_among env around meanwhile id mgr).1
        ≡ is_member id (meanwhile mgr).sessions
  connect-is_session_ready meanwhile id mgr h = elim (Option-cases (lookup id mgr.sessions)) [
    | inl e ↦ absurd (ground (arith, e, h))
    | inr (m, e) ↦
        let back : conclude env around id (connect_managed env around m) (meanwhile mgr)
            ≡ connect_among env around meanwhile id mgr =
          rw (connect_among, e) refl in
        ap (λ r. is_session_ready env id r.1) (sym back)
        ∙ conclude-ready id (connect_managed env around m) (meanwhile mgr)
            (connect_managed-IsSound m) (ap (λ r. r.0) back ∙ h)
  ]
