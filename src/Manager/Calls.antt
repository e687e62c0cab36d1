-- ===== src/Manager/Calls.antt =====
-- Any sequence of calls of the session manager, against its registry (session_manager.cpp).
pub mod Removal
pub mod Leaving
use o_walkie.Base.{
  ℕ, ℤ, ◌≤◌, ◌<◌, ◌≡◌, ◌⊎◌, inl, inr, refl, sym, ap, ◌∙◌, Bool, true, false, List, [], ◌∷◌,
  Option-cases, length, leb, if-cases, lookup, arith,
}
use o_walkie.Types.{TxSubmitOp, ConnectParams, PowerProfile}
use o_walkie.Session.State.{Env, State}
use o_walkie.Session.Events.{emit_connection_failed}
use o_walkie.Manager.{
  ManagedSession, SessionManager, new_manager, on_session, update, with_session, disconnect_all,
  disconnect, halt_and_release, finish_cleanup, prepare_connection, submit_tx, wait_tx_queue_idle,
  set_repeater_mode, set_power_profile, punch_nat, release_session,
}
use o_walkie.Manager.Connect.{
  Surroundings, reason_of, Verdict, returns, throws, refuses, conclude, connect_managed, connect,
  connect_among,
}
use o_walkie.Manager.Registry.{
  IsValid, Registry, view, allocate, drop_id, update-IsValid, view-update, IsReleased,
  prepare_connection-IsValid,
}
use o_walkie.Manager.Calls.Removal.{
  halt_and_release-IsReleased, disconnect-IsReleased, disconnect_all-IsDrained, IsShrunk,
  release_session-IsReleased,
}

module _ (env : Env) where
  -- The calls that change the manager or a session of it, each with what goes on around it.
  pub data Call : Type 1 where
    prepares : ConnectParams → Bool → Bool → Call
    connects : Surroundings env → ℕ → Call
    disconnects : ℕ → List (List Bool) → Call
    halts : ℕ → List Bool → Call
    disconnects_all : (ℕ → List (List Bool)) → Call
    finishes : Call
    submits : (State env → State env) → ℕ → TxSubmitOp → List ℤ → List ℕ → Call
    waits : List (State env → State env) → ℕ → Call
    sets_mode : ℕ → Bool → Call
    sets_profile : ℕ → PowerProfile → Call
    punches : ℕ → Call
    -- what a session's own threads, and signals of other threads, make of it
    runs : ℕ → (ManagedSession env → ManagedSession env) → Call

  abbrev pub call : Call → SessionManager env → SessionManager env
  call (prepares params opus pcm) mgr = (prepare_connection env params opus pcm mgr).1
  call (connects around id) mgr = (connect env around id mgr).1
  call (disconnects id attempts) mgr = disconnect env id attempts mgr
  call (halts id rounds) mgr = halt_and_release env id rounds mgr
  call (disconnects_all attempts) mgr = disconnect_all env attempts mgr
  call finishes mgr = (finish_cleanup env mgr).1
  call (submits waited id op pcm bytes) mgr = (submit_tx env waited id op pcm bytes mgr).1
  call (waits others id) mgr = (wait_tx_queue_idle env others id mgr).1
  call (sets_mode id enabled) mgr = (set_repeater_mode env id enabled mgr).1
  call (sets_profile id profile) mgr = set_power_profile env id profile mgr
  call (punches id) mgr = (punch_nat env id mgr).1
  call (runs id f) mgr = update env id f mgr

  abbrev Dropped : ℕ → Registry env → Registry env → Type 0
  Dropped id a b = (b ≡ a) ⊎ ((a.live id ≡ true) × (b ≡ drop_id env id a))

  -- What a call may do to the registry: preparing allocates the next number, unless sixteen are in
  -- use; the calls that release a number take it out of use or leave it; the others change no
  -- number's use, and none of them but preparing brings a number into use.
  abbrev pub Allowed : Call → Registry env → Registry env → Type 0
  Allowed (prepares params opus pcm) a b =
      ((16 ≤ a.size) × (b ≡ a)) ⊎ ((a.size < 16) × (b ≡ allocate env a))
  Allowed (disconnects id attempts) a b = Dropped id a b
  Allowed (halts id rounds) a b = Dropped id a b
  Allowed (connects around id) a b = Dropped id a b
  Allowed (disconnects_all attempts) a b = IsShrunk env a b
  Allowed _ a b = b ≡ a

  pub record IsStep (c : Call) (mgr : SessionManager env) : Type 0 where
    pub valid : IsValid env (call c mgr)
    pub allowed : Allowed c (view env mgr) (view env (call c mgr))

  quiet-IsValid :
      {A : Type 0} (missing : A) (f : ManagedSession env → A × ManagedSession env) (id : ℕ)
      (mgr : SessionManager env)
      → IsValid env mgr
      → IsValid env (with_session env missing f id mgr).1
        × (view env (with_session env missing f id mgr).1 ≡ view env mgr)
  quiet-IsValid missing f id mgr v = elim (Option-cases (lookup id mgr.sessions)) [
    | inl e ↦ rw (e, with_session) (v, refl)
    | inr (m, e) ↦
        rw (e, with_session)
          (update-IsValid env id (λ _. (f m).1) mgr v, view-update env id (λ _. (f m).1) mgr)
  ]

  prepares-Allowed :
      (params : ConnectParams) (opus pcm : Bool) (mgr : SessionManager env)
      → Allowed
          (prepares params opus pcm)
          (view env mgr)
          (view env (prepare_connection env params opus pcm mgr).1)
  unfolding prepare_connection
  prepares-Allowed params opus pcm mgr =
      if-cases
        (λ (p : ℕ × SessionManager env).
          Allowed (prepares params opus pcm) (view env mgr) (view env p.1))
        (leb 16 (length mgr.sessions)) _ _ (λ e. inl (ground (arith, e), refl))
        (λ e. inr (ground (arith, e), refl))

  IsReleased-Dropped :
      (id : ℕ) (mgr t : SessionManager env)
      → IsReleased env id mgr t
      → Dropped id (view env mgr) (view env t)
  IsReleased-Dropped id mgr t r = r.outcome

  conclude-IsReleased :
      (around : Surroundings env) (id : ℕ) (p : Verdict env around × ManagedSession env)
      (mgr : SessionManager env)
      → IsValid env mgr
      → IsReleased env id mgr (conclude env around id p mgr).1
  unfolding conclude
  conclude-IsReleased around id (returns r, m) mgr v = record {
    valid = update-IsValid env id _ mgr v;
    outcome = inl (view-update env id _ mgr);
  }
  conclude-IsReleased around id (throws, m) mgr v = record {
    valid = update-IsValid env id _ mgr v;
    outcome = inl (view-update env id _ mgr);
  }
  conclude-IsReleased around id (refuses r, m) mgr v =
      let failed = on_session env (emit_connection_failed env (reason_of env around r)) m in
      let hold : ManagedSession env → ManagedSession env = λ _. record failed { busy = true } in
      let free : ManagedSession env → ManagedSession env = λ k. record k { busy = false } in
      let held = update env id hold mgr in
      let same = view-update env id hold mgr in
      let t = release_session env id around.release_rounds held in
      let k =
        release_session-IsReleased env id around.release_rounds held
          (update-IsValid env id hold mgr v) in
      record {
        valid = update-IsValid env id free t k.valid;
        outcome = elim k.outcome [
          | inl h ↦ inl (view-update env id free t ∙ h ∙ same)
          | inr h ↦ inr (
            sym (ap (λ (a : Registry env). a.live id) same) ∙ h.0,
            view-update env id free t ∙ h.1 ∙ ap (drop_id env id) same,
          )
        ];
      }

  connect-IsReleased :
      (around : Surroundings env) (id : ℕ) (mgr : SessionManager env)
      → IsValid env mgr
      → IsReleased env id mgr (connect env around id mgr).1
  unfolding connect
  connect-IsReleased around id mgr v = elim (Option-cases (lookup id mgr.sessions)) [
    | inl e ↦ rw (connect, connect_among, e) (record { valid = v; outcome = inl refl })
    | inr (m, e) ↦
        rw (connect, connect_among, e)
          (conclude-IsReleased around id (connect_managed env around m) mgr v)
  ]

  finish_cleanup-IsStep : (mgr : SessionManager env) → IsValid env mgr → IsStep finishes mgr
  unfolding finish_cleanup
  finish_cleanup-IsStep mgr v =
      elim (mgr.cleanups) as (λ l. l ≡ mgr.cleanups → IsStep finishes mgr) [
        | [] ↦ λ e.
            rw (sym e, finish_cleanup)
              (record {
                valid = record {
                  distinct = v.distinct;
                  bounded = v.bounded;
                  few = v.few;
                  next_pos = v.next_pos;
                };
                allowed = refl;
              })
        | s ∷ rest ↦ λ e.
            rw (sym e, finish_cleanup)
              (record {
                valid = record {
                  distinct = v.distinct;
                  bounded = v.bounded;
                  few = v.few;
                  next_pos = v.next_pos;
                };
                allowed = refl;
              })
      ]
        refl

  released-IsStep :
      (c : Call) (id : ℕ) (mgr : SessionManager env)
      → (Dropped id (view env mgr) (view env (call c mgr))
          → Allowed c (view env mgr) (view env (call c mgr)))
      → IsReleased env id mgr (call c mgr)
      → IsStep c mgr
  released-IsStep c id mgr f r = record { valid = r.valid; allowed = f r.outcome }

  pub call-IsStep : (c : Call) (mgr : SessionManager env) → IsValid env mgr → IsStep c mgr
  unfolding submit_tx wait_tx_queue_idle set_repeater_mode set_power_profile punch_nat
      halt_and_release
  call-IsStep (prepares params opus pcm) mgr v = record {
    valid = prepare_connection-IsValid env params opus pcm mgr v;
    allowed = prepares-Allowed params opus pcm mgr;
  }
  call-IsStep (connects around id) mgr v =
      released-IsStep (connects around id) id mgr (λ d. d) (connect-IsReleased around id mgr v)
  call-IsStep (disconnects id attempts) mgr v =
      released-IsStep (disconnects id attempts) id mgr (λ d. d)
        (disconnect-IsReleased env id attempts mgr v)
  call-IsStep (halts id rounds) mgr v =
      released-IsStep (halts id rounds) id mgr (λ d. d)
        (halt_and_release-IsReleased env id rounds mgr v)
  call-IsStep (disconnects_all attempts) mgr v =
      let d = disconnect_all-IsDrained env attempts mgr v in
      record { valid = d.valid; allowed = d.shrunk }
  call-IsStep finishes mgr v = finish_cleanup-IsStep mgr v
  call-IsStep (submits waited id op pcm bytes) mgr v =
      let (w, e) = quiet-IsValid _ _ id mgr v in record { valid = w; allowed = e }
  call-IsStep (waits others id) mgr v =
      let (w, e) = quiet-IsValid _ _ id mgr v in record { valid = w; allowed = e }
  call-IsStep (sets_mode id enabled) mgr v =
      let (w, e) = quiet-IsValid _ _ id mgr v in record { valid = w; allowed = e }
  call-IsStep (sets_profile id profile) mgr v = record {
    valid = update-IsValid env id _ mgr v;
    allowed = view-update env id _ mgr;
  }
  call-IsStep (punches id) mgr v =
      let (w, e) = quiet-IsValid _ _ id mgr v in record { valid = w; allowed = e }
  call-IsStep (runs id f) mgr v = record {
    valid = update-IsValid env id f mgr v;
    allowed = view-update env id f mgr;
  }

  pub run : List Call → SessionManager env → SessionManager env
  run [] mgr = mgr
  run (c ∷ cs) mgr = run cs (call c mgr)

  -- What a sequence of calls may do to the registry.
  abbrev pub AllAllowed : List Call → Registry env → Registry env → Type 0
  AllAllowed [] a b = b ≡ a
  AllAllowed (c ∷ cs) a b = (m : Registry env) × Allowed c a m × AllAllowed cs m b

  run-AllAllowed :
      (cs : List Call) (mgr : SessionManager env)
      → IsValid env mgr
      → IsValid env (run cs mgr) × AllAllowed cs (view env mgr) (view env (run cs mgr))
  unfolding run
  run-AllAllowed [] mgr v = (v, refl)
  run-AllAllowed (c ∷ cs) mgr v =
      let s = call-IsStep c mgr v in
      let (w, t) = run-AllAllowed cs (call c mgr) s.valid in
      (w, (view env (call c mgr), s.allowed, t))

  -- From a new manager, any sequence of calls, whatever the sessions and other threads do meanwhile,
  -- is one that the set of the numbers in use allows: a number is given out in order, once and for
  -- all, while fewer than sixteen are in use, and comes out of use by a call that releases it. Every
  -- number in use was given out before and stands once, and at most sixteen are in use.
  pub run-new_manager_refines :
      (cs : List Call)
      → IsValid env (run cs (new_manager env))
        × AllAllowed cs (view env (new_manager env)) (view env (run cs (new_manager env)))
  run-new_manager_refines cs =
      run-AllAllowed cs (new_manager env)
        (record { distinct = tt; bounded = tt; few = omega arith; next_pos = omega arith })
