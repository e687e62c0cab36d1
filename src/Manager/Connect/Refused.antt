-- ===== src/Manager/Connect/Refused.antt =====
-- What becomes of a session whose parameters connect() refuses (session_manager.cpp).
use o_walkie.Base.{
  ℕ, ◌≡◌, refl, ◌∙◌, Bool, true, false, ◌&&◌, ◌||◌, List, [], ◌∷◌, Option, none, some, is_empty,
  length, lookup, is_member, lookup-adjust, length-adjust, adjust_same, is_member-lookup-some,
  arith,
}
use o_walkie.Types.{Result, invalid_arg}
use o_walkie.Session.State.{Env}
use o_walkie.Session.Events.{emit_connection_failed}
use o_walkie.Manager.{
  ManagedSession, SessionManager, on_session, update, signal_user_disconnect,
  take_session_for_teardown, release_session,
}
use o_walkie.Manager.Connect.{
  Surroundings, Verdict, returns, throws, refuses, reason_of, conclude, connect_managed, connect,
  connect_among,
}

module _ (env : Env) where
  -- A teardown that never gets the lock: the session stays, and is no longer wanted.
  record IsStuck (id : ℕ) (mgr : SessionManager env)
      (p : Option (ManagedSession env) × SessionManager env) : Type 0 where
    pub nothing : p.0 ≡ none
    pub left : ManagedSession env
    pub found : lookup id p.1.sessions ≡ some left
    pub unwanted : left.user_intent ≡ false
    pub kept : p.1.cleanups ≡ mgr.cleanups
    pub same_size : length p.1.sessions ≡ length mgr.sessions

  lookup-update :
      (id : ℕ) (f : ManagedSession env → ManagedSession env) (mgr : SessionManager env)
      (m : ManagedSession env)
      → lookup id mgr.sessions ≡ some m
      → lookup id (update env id f mgr).sessions ≡ some (f m)
  lookup-update id f mgr m e = ground (arith, e, lookup-adjust id id f mgr.sessions)

  stuck :
      (id : ℕ) (rounds : List Bool) (mgr : SessionManager env) (m : ManagedSession env)
      → lookup id mgr.sessions ≡ some m
      → m.busy ≡ true
      → (m.user_intent && is_empty rounds) ≡ false
      → IsStuck id mgr (take_session_for_teardown env id rounds mgr)
  unfolding take_session_for_teardown signal_user_disconnect
  stuck id [] mgr m e b u = record {
    nothing = refl;
    left = m;
    found = e;
    unwanted = ground (arith, u);
    kept = refl;
    same_size = refl;
  }
  stuck id (held ∷ rounds) mgr m e b u =
      let signal = signal_user_disconnect env in
      let s =
        stuck id rounds (update env id signal mgr) (signal m) (lookup-update id signal mgr m e) b
          refl in
      let never : (held || m.busy) ≡ true = ground (arith, b) in
      rw (e, take_session_for_teardown)
        (rw never (record {
          nothing = s.nothing;
          left = s.left;
          found = s.found;
          unwanted = s.unwanted;
          kept = s.kept;
          same_size = s.same_size ∙ length-adjust id signal mgr.sessions;
        }))

  -- The registry after a call that refused the parameters.
  record IsLeft (id : ℕ) (mgr t : SessionManager env) : Type 0 where
    pub left : ManagedSession env
    pub found : lookup id t.sessions ≡ some left
    pub unwanted : left.user_intent ≡ false
    pub kept : t.cleanups ≡ mgr.cleanups
    pub same_size : length t.sessions ≡ length mgr.sessions

  conclude-IsLeft :
      (around : Surroundings env) (id : ℕ) (p : Verdict env around × ManagedSession env)
      (mgr : SessionManager env) (m : ManagedSession env) (r : Result)
      → lookup id mgr.sessions ≡ some m
      → p.0 ≡ refuses r
      → is_empty around.release_rounds ≡ false
      → IsLeft id mgr (conclude env around id p mgr).1
  unfolding conclude release_session
  conclude-IsLeft around id (returns q, k) mgr m r e h n = cc
  conclude-IsLeft around id (throws, k) mgr m r e h n = cc
  conclude-IsLeft around id (refuses q, k) mgr m r e h n =
      let failed = on_session env (emit_connection_failed env (reason_of env around q)) k in
      let hold : ManagedSession env → ManagedSession env = λ _. record failed { busy = true } in
      let free : ManagedSession env → ManagedSession env = λ k. record k { busy = false } in
      let held = update env id hold mgr in
      let s =
        stuck id around.release_rounds held (record failed { busy = true })
          (lookup-update id hold mgr m e) refl (ground (arith, n)) in
      let after = (take_session_for_teardown env id around.release_rounds held).1 in
      rw s.nothing (record {
        left = free s.left;
        found = lookup-update id free after s.left s.found;
        unwanted = s.unwanted;
        kept = s.kept;
        same_size =
            length-adjust id free after.sessions ∙ s.same_size ∙ length-adjust id hold mgr.sessions;
      })

  later_call :
      (later : Surroundings env) (id : ℕ) (t : SessionManager env) (left : ManagedSession env)
      → lookup id t.sessions ≡ some left
      → left.user_intent ≡ false
      → connect env later id t ≡ (some invalid_arg, t)
  unfolding connect connect_managed conclude
  later_call later id t left e u = ground (arith, e, u, adjust_same id left t.sessions e)

  connect-conclude :
      (around : Surroundings env) (id : ℕ) (mgr : SessionManager env) (m : ManagedSession env)
      → lookup id mgr.sessions ≡ some m
      → connect env around id mgr ≡ conclude env around id (connect_managed env around m) mgr
  unfolding connect
  connect-conclude around id mgr m e = rw (connect, connect_among, e) refl

  what-IsLeft :
      (later : Surroundings env) (id : ℕ) (mgr t : SessionManager env)
      → IsLeft id mgr t
      → (is_member id t.sessions ≡ true)
        × (length t.sessions ≡ length mgr.sessions)
        × (t.cleanups ≡ mgr.cleanups)
        × (connect env later id t ≡ (some invalid_arg, t))
  what-IsLeft later id mgr t k = (
    is_member-lookup-some id k.left t.sessions k.found,
    k.same_size,
    k.kept,
    later_call later id t k.left k.found k.unwanted,
  )

  -- A connect() whose parameters the session refuses runs its release while it holds the session's
  -- lock itself, if the release looks at least once. The number stays in use, no cleanup is
  -- scheduled, and every later connect() of it returns InvalidArg and changes nothing.
  pub connect_refused :
      (around later : Surroundings env) (id : ℕ) (mgr : SessionManager env) (m : ManagedSession env)
      (r : Result)
      → lookup id mgr.sessions ≡ some m
      → (connect_managed env around m).0 ≡ refuses r
      → is_empty around.release_rounds ≡ false
      → let t = (connect env around id mgr).1 in
        (is_member id t.sessions ≡ true)
        × (length t.sessions ≡ length mgr.sessions)
        × (t.cleanups ≡ mgr.cleanups)
        × (connect env later id t ≡ (some invalid_arg, t))
  connect_refused around later id mgr m r e h n = rw (connect-conclude around id mgr m e) (
      what-IsLeft later id mgr (conclude env around id (connect_managed env around m) mgr).1
        (conclude-IsLeft around id (connect_managed env around m) mgr m r e h n))
