-- ===== src/Interface/Managed/Table.antt =====
-- The table of bridges of c_api.cpp over any sequence of the interface's calls.
use o_walkie.Base.{
  ℕ, suc, ℤ, ◌≡◌, refl, Bool, true, false, List, [], ◌∷◌, Option, none, some, Option-cases, inl,
  inr, ◌==◌, if◌then◌else◌, if-holds, if-cases, Assoc, without, arith,
}
use o_walkie.Types.{Event, ConnectParams, TxSubmitOp}
use o_walkie.Session.State.{Env, State}
use o_walkie.Manager.{prepare_connection}
use o_walkie.Interface.{fill_managed_event, CResult, owalkie_err_invalid_arg}
use o_walkie.Manager.Connect.{Surroundings}
use o_walkie.Interface.Arguments.{ConnectParamsC, Callbacks, params_of, op_of}
use o_walkie.Interface.Managed.{
  Bridge, Library, new_library, on_session_event, on_rx_pcm, register, prepare, connect_session,
  arrive, disconnect_session, disconnect_all_sessions, submit_op, tx_submit, tx_wait_idle, set_mode,
  set_profile, punch, key_of, is_last,
}
use o_walkie.Interface.Managed.Delivery.{has_address, Unique, Unique-without}

Unique-suc : (n : ℕ) (l : Assoc Bridge) → Unique n l → Unique (suc n) l
Unique-suc n [] u = u
Unique-suc n ((j, v) ∷ l) u = (u.0, u.1, omega arith, Unique-suc n l u.3)

has_address_beyond : (n : ℕ) (l : Assoc Bridge) → Unique n l → has_address n l ≡ false
has_address_beyond n [] u = refl
has_address_beyond n ((j, v) ∷ l) u = ground (arith, has_address_beyond n l u.3)

module _ (env : Env) where
  -- The calls of the interface and of the sessions' callbacks.
  pub data Request : Type 1 where
    prepares : Option ConnectParamsC → Option Callbacks → Request
    connects : Surroundings env → ℕ → Request
    disconnects : List (Bridge × Event) → List (List Bool) → ℕ → Request
    disconnects_all : (ℕ → List (List Bool)) → Request
    submits : (State env → State env) → ℕ → ℕ → Option (List ℤ) → Option (List ℕ) → Request
    waits : List (State env → State env) → ℕ → Request
    sets_mode : ℕ → Bool → Request
    sets_profile : ℕ → ℕ → Request
    punches : ℕ → Request
    hears_event : Bridge → Event → Request
    hears_sound : Bridge → List ℤ → Request

  abbrev pub serve : Request → Library env → Library env
  serve (prepares p cbs) lib = (prepare env p cbs lib).1
  serve (connects around id) lib = (connect_session env around id lib).1
  serve (disconnects es attempts id) lib = disconnect_session env es attempts id lib
  serve (disconnects_all attempts) lib = disconnect_all_sessions env attempts lib
  serve (submits waited id op pcm opus) lib = (tx_submit env waited id op pcm opus lib).1
  serve (waits others id) lib = (tx_wait_idle env others id lib).1
  serve (sets_mode id enabled) lib = (set_mode env id enabled lib).1
  serve (sets_profile id profile) lib = set_profile env id profile lib
  serve (punches id) lib = (punch env id lib).1
  serve (hears_event b ev) lib = on_session_event env b ev lib
  serve (hears_sound b pcm) lib = on_rx_pcm env b pcm lib

  abbrev pub IsTable : Library env → Type 0
  IsTable lib = Unique lib.next_address lib.bridges

  register-IsTable :
      (params : ConnectParams) (cbs : Callbacks) (lib : Library env)
      → IsTable lib
      → IsTable (register env params cbs lib).1
  unfolding register
  register-IsTable params cbs lib u =
      let (id, mgr) = prepare_connection env params false true lib.manager in
      let b : Bridge = record { address = lib.next_address; cbs = cbs } in
      let made = record lib { manager = mgr; next_address = suc lib.next_address } in
      if-cases (λ (p : ℕ × Library env). IsTable p.1) (id == 0) (0, made)
        (id, record made { bridges = (id, b) ∷ without id lib.bridges })
        (λ e. Unique-suc lib.next_address lib.bridges u)
        (λ e. (
          has_address_beyond lib.next_address _ (Unique-without lib.next_address _ lib.bridges u),
          ground (arith, e),
          omega arith,
          Unique-suc lib.next_address _ (Unique-without lib.next_address _ lib.bridges u),
        ))

  prepare-IsTable :
      (p : Option ConnectParamsC) (cbs : Option Callbacks) (lib : Library env)
      → IsTable lib
      → IsTable (prepare env p cbs lib).1
  unfolding prepare
  prepare-IsTable none cbs lib u = u
  prepare-IsTable (some p) none lib u = u
  prepare-IsTable (some p) (some cbs) lib u = elim (Option-cases p.host) [
    | inl e ↦ rw (e, prepare) u
    | inr (host, e) ↦
        rw (e, prepare)
          (if-holds (λ (q : ℕ × Library env). IsTable q.1) _ _ _ u
            (register-IsTable (params_of host p) cbs lib u))
  ]

  submit_op-IsTable :
      (waited : State env → State env) (id : ℕ) (o : TxSubmitOp) (pcm : Option (List ℤ))
      (opus : Option (List ℕ)) (lib : Library env)
      → IsTable lib
      → IsTable (submit_op env waited id o pcm opus lib).1
  unfolding submit_op
  submit_op-IsTable waited id o pcm opus lib u =
      if-holds {A = CResult × Library env} (λ q. IsTable q.1) _ _ _ u u

  tx_submit-IsTable :
      (waited : State env → State env) (id op : ℕ) (pcm : Option (List ℤ)) (opus : Option (List ℕ))
      (lib : Library env)
      → IsTable lib
      → IsTable (tx_submit env waited id op pcm opus lib).1
  unfolding tx_submit
  tx_submit-IsTable waited id op pcm opus lib u = elim (Option-cases (op_of op)) [
    | inl e ↦
        rw (e, tx_submit)
          (if-holds {A = CResult × Library env} (λ q. IsTable q.1) (id == 0)
            (owalkie_err_invalid_arg, lib) (owalkie_err_invalid_arg, lib) u u)
    | inr (o, e) ↦
        rw (e, tx_submit)
          (if-holds {A = CResult × Library env} (λ q. IsTable q.1) (id == 0)
            (owalkie_err_invalid_arg, lib) (submit_op env waited id o pcm opus lib) u
            (submit_op-IsTable waited id o pcm opus lib u))
  ]

  on_session_event-IsTable :
      (b : Bridge) (ev : Event) (lib : Library env)
      → IsTable lib
      → IsTable (on_session_event env b ev lib)
  unfolding on_session_event
  on_session_event-IsTable b ev lib u =
      let id = key_of b.address lib.bridges in
      let told = record lib { calls = (id, fill_managed_event ev) ∷ lib.calls } in
      let heard =
        if is_last ev.type then record told { bridges = without id lib.bridges } else told in
      if-holds IsTable _ lib (if id == 0 then lib else heard) u (
        if-holds IsTable (id == 0) lib heard u
          (if-holds IsTable _ _ _ (Unique-without lib.next_address id lib.bridges u) u))

  arrive-IsTable :
      (es : List (Bridge × Event)) (lib : Library env) → IsTable lib → IsTable (arrive env es lib)
  unfolding arrive
  arrive-IsTable [] lib u = u
  arrive-IsTable ((b, ev) ∷ es) lib u =
      arrive-IsTable es (on_session_event env b ev lib) (on_session_event-IsTable b ev lib u)

  on_rx_pcm-IsTable :
      (b : Bridge) (pcm : List ℤ) (lib : Library env)
      → IsTable lib
      → IsTable (on_rx_pcm env b pcm lib)
  unfolding on_rx_pcm
  on_rx_pcm-IsTable b pcm lib u =
      let id = key_of b.address lib.bridges in
      let heard = record lib { sounds = (id, pcm) ∷ lib.sounds } in
      if-holds IsTable _ lib (if id == 0 then lib else heard) u
        (if-holds IsTable (id == 0) lib heard u u)

  serve-IsTable : (q : Request) (lib : Library env) → IsTable lib → IsTable (serve q lib)
  unfolding connect_session disconnect_session disconnect_all_sessions tx_wait_idle set_mode
      set_profile punch
  serve-IsTable (prepares p cbs) lib u = prepare-IsTable p cbs lib u
  serve-IsTable (connects around id) lib u =
      if-holds {A = Option CResult × Library env} (λ q. IsTable q.1) _ _ _ u u
  serve-IsTable (disconnects es attempts id) lib u = if-holds IsTable _ _ _ u (
      arrive-IsTable es (record lib { bridges = without id lib.bridges })
        (Unique-without lib.next_address id lib.bridges u))
  serve-IsTable (disconnects_all attempts) lib u = u
  serve-IsTable (submits waited id op pcm opus) lib u =
      tx_submit-IsTable waited id op pcm opus lib u
  serve-IsTable (waits others id) lib u =
      if-holds {A = Bool × Library env} (λ q. IsTable q.1) _ _ _ u u
  serve-IsTable (sets_mode id enabled) lib u =
      if-holds {A = CResult × Library env} (λ q. IsTable q.1) _ _ _ u u
  serve-IsTable (sets_profile id profile) lib u = if-holds IsTable _ _ _ u u
  serve-IsTable (punches id) lib u =
      if-holds {A = CResult × Library env} (λ q. IsTable q.1) _ _ _ u u
  serve-IsTable (hears_event b ev) lib u = on_session_event-IsTable b ev lib u
  serve-IsTable (hears_sound b pcm) lib u = on_rx_pcm-IsTable b pcm lib u

  pub serve_all : List Request → Library env → Library env
  serve_all [] lib = lib
  serve_all (q ∷ qs) lib = serve_all qs (serve q lib)

  serve_all-IsTable :
      (qs : List Request) (lib : Library env) → IsTable lib → IsTable (serve_all qs lib)
  unfolding serve_all
  serve_all-IsTable [] lib u = u
  serve_all-IsTable (q ∷ qs) lib u = serve_all-IsTable qs (serve q lib) (serve-IsTable q lib u)

  -- After any sequence of calls of the interface and of events and sounds of sessions, from a new
  -- library, no bridge stands under two numbers and none under 0.
  pub serve_all-Unique :
      (qs : List Request)
      → let lib = serve_all qs (new_library env) in Unique lib.next_address lib.bridges
  serve_all-Unique qs = serve_all-IsTable qs (new_library env) tt
