-- ===== src/Manager/Calls/Leaving.antt =====
-- A session leaves the manager when its lock is free (session_manager.cpp).
use o_walkie.Base.{
  ℕ, suc, ◌≡◌, refl, Bool, true, false, not, ◌||◌, List, [], ◌∷◌, Option, some, length, if-cases,
  lookup, is_member, without, lookup-adjust, is_member-without_self, arith,
}
use o_walkie.Session.State.{Env}
use o_walkie.Manager.{
  ManagedSession, SessionManager, update, signal_user_disconnect, take_session_for_teardown,
  schedule_session_cleanup, disconnect_attempts, disconnect, is_valid,
}

-- In some round no other thread holds the lock.
abbrev pub comes_free : List Bool → Bool
comes_free [] = false
comes_free (held ∷ rounds) = not held || comes_free rounds

module _ (env : Env) where
  record IsTakenOut (id : ℕ) (mgr : SessionManager env)
      (p : Option (ManagedSession env) × SessionManager env) : Type 0 where
    pub owned : ManagedSession env
    pub taken : p.0 ≡ some owned
    pub gone : is_member id p.1.sessions ≡ false
    pub kept : p.1.cleanups ≡ mgr.cleanups

  taken_out :
      (id : ℕ) (rounds : List Bool) (mgr : SessionManager env) (m : ManagedSession env)
      → lookup id mgr.sessions ≡ some m
      → m.busy ≡ false
      → comes_free rounds ≡ true
      → IsTakenOut id mgr (take_session_for_teardown env id rounds mgr)
  unfolding take_session_for_teardown signal_user_disconnect
  taken_out id [] mgr m e b f = cc
  taken_out id (held ∷ rounds) mgr m e b f =
      let signal = signal_user_disconnect env in
      let signalled = update env id signal mgr in
      let there : lookup id signalled.sessions ≡ some (signal m) =
        ground (arith, e, lookup-adjust id id signal mgr.sessions) in
      rw (e, take_session_for_teardown)
        (if-cases (IsTakenOut id mgr) (held || m.busy) _
          (some (signal m), record signalled { sessions = without id signalled.sessions })
          (λ h.
            let s = taken_out id rounds signalled (signal m) there b (ground (arith, h)) in
            record { owned = s.owned; taken = s.taken; gone = s.gone; kept = s.kept })
          (λ h. record {
            owned = signal m;
            taken = refl;
            gone = is_member-without_self id signalled.sessions;
            kept = refl;
          }))

  -- If no connect() of its own runs, and the lock is free in some round of the first attempt,
  -- disconnect() takes the session out of use and leaves it to a cleanup thread.
  pub disconnect-is_valid :
      (id : ℕ) (rounds : List Bool) (more : List (List Bool)) (mgr : SessionManager env)
      (m : ManagedSession env)
      → lookup id mgr.sessions ≡ some m
      → m.busy ≡ false
      → comes_free rounds ≡ true
      → let t = disconnect env id (rounds ∷ more) mgr in
        (is_valid env id t ≡ false) × (length t.cleanups ≡ suc (length mgr.cleanups))
  unfolding disconnect disconnect_attempts is_valid schedule_session_cleanup
  disconnect-is_valid id rounds more mgr m e b f =
      let s = taken_out id rounds mgr m e b f in ground (arith, s.taken, s.gone, s.kept)
