-- ===== src/Manager/Registry.antt =====
-- The registry of session_manager.cpp against the set of the numbers that are in use.
use o_walkie.Base.{
  ℕ, suc, ◌+◌, ◌-◌, ◌≤◌, ◌<◌, ◌≡◌, ◌⊎◌, inl, inr, refl, sym, ap, ◌∙◌, Bool, true, false, ◌||◌, List,
  [], ◌∷◌, Option, none, some, Option-cases, length, leb, ◌==◌, if◌then◌else◌, if-cases, lookup,
  is_member, without, Distinct, Below, is_member-adjust, is_member-without_if, is_member-Below,
  is_member-lookup-some, length-adjust, length-without, length-without_member, Distinct-adjust,
  Distinct-without, Below-adjust, Below-without, Below-suc, arith,
}
use o_walkie.Types.{ConnectParams}
use o_walkie.Session.State.{Env, State}
use o_walkie.Manager.{
  ManagedSession, SessionManager, update, signal_user_disconnect, take_session_for_teardown,
  schedule_session_cleanup, release_taken, prepare_connection,
}

module _ (env : Env) where
  -- Every number stands once, was given out before, and there are at most sixteen.
  pub record IsValid (mgr : SessionManager env) : Type 0 where
    pub distinct : Distinct mgr.sessions
    pub bounded : Below mgr.next_id mgr.sessions
    pub few : length mgr.sessions ≤ 16
    pub next_pos : 0 < mgr.next_id

  -- What clients see: which numbers are in use, which comes next, and how many are in use.
  pub record Registry : Type 0 where
    pub live : ℕ → Bool
    pub next : ℕ
    pub size : ℕ

  abbrev pub view : SessionManager env → Registry
  view mgr = record {
    live = λ j. is_member j mgr.sessions;
    next = mgr.next_id;
    size = length mgr.sessions;
  }

  abbrev pub allocate : Registry → Registry
  allocate a = record {
    live = λ j. if a.next == j then true else a.live j;
    next = a.next + 1;
    size = suc a.size;
  }

  abbrev pub drop_id : ℕ → Registry → Registry
  drop_id id a = record a { live = λ j. if id == j then false else a.live j; size = a.size - 1 }

  pub update-IsValid :
      (id : ℕ) (f : ManagedSession env → ManagedSession env) (mgr : SessionManager env)
      → IsValid mgr
      → IsValid (update env id f mgr)
  update-IsValid id f mgr v = record {
    distinct = Distinct-adjust id f mgr.sessions v.distinct;
    bounded = Below-adjust mgr.next_id id f mgr.sessions v.bounded;
    few = omega (arith, length-adjust id f mgr.sessions, v.few);
    next_pos = v.next_pos;
  }

  pub view-update :
      (id : ℕ) (f : ManagedSession env → ManagedSession env) (mgr : SessionManager env)
      → view (update env id f mgr) ≡ view mgr
  view-update id f mgr = λ i. record {
    live = λ j. is_member-adjust id j f mgr.sessions i;
    next = mgr.next_id;
    size = length-adjust id f mgr.sessions i;
  }

  without-IsValid :
      (id : ℕ) (mgr : SessionManager env)
      → IsValid mgr
      → IsValid (record mgr { sessions = without id mgr.sessions })
  without-IsValid id mgr v = record {
    distinct = Distinct-without id mgr.sessions v.distinct;
    bounded = Below-without mgr.next_id id mgr.sessions v.bounded;
    few = omega (arith, length-without id mgr.sessions, v.few);
    next_pos = v.next_pos;
  }

  view-without :
      (id : ℕ) (mgr : SessionManager env)
      → IsValid mgr
      → is_member id mgr.sessions ≡ true
      → view (record mgr { sessions = without id mgr.sessions }) ≡ drop_id id (view mgr)
  view-without id mgr v h =
      let smaller : length (without id mgr.sessions) ≡ length mgr.sessions - 1 =
        omega (arith, length-without_member id mgr.sessions v.distinct h) in
      λ i. record {
        live = λ j. is_member-without_if id j mgr.sessions i;
        next = mgr.next_id;
        size = smaller i;
      }

  -- A teardown either takes the session, or changes no number's use.
  pub record IsTaken (id : ℕ) (mgr : SessionManager env)
      (p : Option (ManagedSession env) × SessionManager env) : Type 0 where
    pub valid : IsValid p.1
    pub outcome :
        ((p.0 ≡ none) × (view p.1 ≡ view mgr))
        ⊎ ((m : ManagedSession env) × (p.0 ≡ some m)
            × (is_member id mgr.sessions ≡ true)
            × (view p.1 ≡ drop_id id (view mgr)))
    pub kept : p.1.cleanups ≡ mgr.cleanups

  -- What holds from a signalled session on, holds from before it.
  IsTaken-signalled :
      (id : ℕ) (f : ManagedSession env → ManagedSession env) (mgr : SessionManager env)
      (p : Option (ManagedSession env) × SessionManager env)
      → IsTaken id (update env id f mgr) p
      → IsTaken id mgr p
  IsTaken-signalled id f mgr p t = record {
    valid = t.valid;
    outcome = elim t.outcome [
      | inl h ↦ inl (h.0, h.1 ∙ view-update id f mgr)
      | inr h ↦ inr (
        h.0,
        h.1,
        sym (is_member-adjust id id f mgr.sessions) ∙ h.2,
        h.3 ∙ ap (drop_id id) (view-update id f mgr),
      )
    ];
    kept = t.kept;
  }

  pub take_session_for_teardown-IsTaken :
      (id : ℕ) (rounds : List Bool) (mgr : SessionManager env)
      → IsValid mgr
      → IsTaken id mgr (take_session_for_teardown env id rounds mgr)
  unfolding take_session_for_teardown
  take_session_for_teardown-IsTaken id [] mgr v = record {
    valid = v;
    outcome = inl (refl, refl);
    kept = refl;
  }
  take_session_for_teardown-IsTaken id (held ∷ rounds) mgr v =
      elim (Option-cases (lookup id mgr.sessions)) [
        | inl e ↦
            rw (e, take_session_for_teardown)
              (record { valid = v; outcome = inl (refl, refl); kept = refl })
        | inr (m, e) ↦
            let signal = signal_user_disconnect env in
            let signalled = update env id signal mgr in
            let w = update-IsValid id signal mgr v in
            let here =
              is_member-adjust id id signal mgr.sessions
              ∙ is_member-lookup-some id m mgr.sessions e in
            rw (e, take_session_for_teardown)
              (if-cases (IsTaken id mgr) (held || m.busy) _
                (some (signal m), record signalled { sessions = without id signalled.sessions })
                (λ b.
                  IsTaken-signalled id signal mgr _
                    (take_session_for_teardown-IsTaken id rounds signalled w))
                (λ b. IsTaken-signalled id signal mgr _ (record {
                  valid = without-IsValid id signalled w;
                  outcome = inr (signal m, refl, here, view-without id signalled w here);
                  kept = refl;
                })))
      ]

  -- Releasing what was taken.
  pub record IsReleased (id : ℕ) (mgr t : SessionManager env) : Type 0 where
    pub valid : IsValid t
    pub outcome :
        (view t ≡ view mgr)
        ⊎ ((is_member id mgr.sessions ≡ true) × (view t ≡ drop_id id (view mgr)))

  pub schedule-IsValid :
      (m : ManagedSession env) (mgr : SessionManager env)
      → IsValid mgr
      → IsValid (schedule_session_cleanup env m mgr)
  unfolding schedule_session_cleanup
  schedule-IsValid m mgr v = record {
    distinct = v.distinct;
    bounded = v.bounded;
    few = v.few;
    next_pos = v.next_pos;
  }

  pub view-schedule :
      (m : ManagedSession env) (mgr : SessionManager env)
      → view (schedule_session_cleanup env m mgr) ≡ view mgr
  unfolding schedule_session_cleanup
  view-schedule m mgr = refl

  pub release_taken-IsReleased :
      (stop : State env → State env) (id : ℕ) (mgr : SessionManager env)
      (p : Option (ManagedSession env) × SessionManager env)
      → IsTaken id mgr p
      → IsReleased id mgr (release_taken env stop p)
  release_taken-IsReleased stop id mgr (none, t) k = record {
    valid = k.valid;
    outcome = elim k.outcome [ inl h ↦ inl h.1 | inr h ↦ inr (h.2, h.3) ];
  }
  release_taken-IsReleased stop id mgr (some m, t) k = record {
    valid = schedule-IsValid _ t k.valid;
    outcome = elim k.outcome [
      | inl h ↦ inl (view-schedule _ t ∙ h.1)
      | inr h ↦ inr (h.2, view-schedule _ t ∙ h.3)
    ];
  }

  pub prepare_connection-IsValid :
      (params : ConnectParams) (opus pcm : Bool) (mgr : SessionManager env)
      → IsValid mgr
      → IsValid (prepare_connection env params opus pcm mgr).1
  unfolding prepare_connection
  prepare_connection-IsValid params opus pcm mgr v =
      if-cases (λ (p : ℕ × SessionManager env). IsValid p.1) (leb 16 (length mgr.sessions)) _ _
        (λ e. v)
        (λ e. record {
          distinct = (is_member-Below mgr.next_id mgr.sessions v.bounded, v.distinct);
          bounded = (v.next_pos, omega arith, Below-suc mgr.next_id mgr.sessions v.bounded);
          few = ground (arith, e);
          next_pos = omega arith;
        })
