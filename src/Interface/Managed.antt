-- ===== src/Interface/Managed.antt =====
-- The managed sessions of c_api.cpp: the table of bridges between the sessions and the client's
-- callbacks, and the calls that go to the session manager. The client's callbacks are recorded,
-- newest first; they do not call back.
pub mod Delivery
pub mod Table
use Prim.Native.String.{String}
use o_walkie.Base.{
  ℕ, suc, ℤ, Bool, true, false, not, ◌&&◌, ◌||◌, List, [], ◌∷◌, is_empty, Option, none, some, ◌==◌,
  if◌then◌else◌, Assoc, without,
}
use o_walkie.Types.{
  EventType, Event, ConnectParams, Outcome, success, failure, TxSubmitOp, SessionState,
}
use o_walkie.Session.State.{Env, State}
use o_walkie.Manager.{
  SessionManager, new_manager, prepare_connection, disconnect, disconnect_all, is_valid,
  is_session_ready, get_session_info, submit_tx, wait_tx_queue_idle, set_repeater_mode,
  set_power_profile, punch_nat,
}
use o_walkie.Manager.Connect.{Surroundings, connect}
use o_walkie.Interface.Arguments.{
  ConnectParamsC, Callbacks, params_of, op_of, profile_of, elements, lacks,
}
use o_walkie.Interface.{
  CResult, owalkie_ok, owalkie_err_invalid_arg, owalkie_err_buffer_too_small, to_c, is_visible,
  EventC, fill_managed_event, SessionInfo, fill_session_info, in_buffer, copy_to_buf, is_buffer,
}

-- struct ManagedBridge, with its address
pub record Bridge : Type 0 where
  pub address : ℕ
  pub cbs : Callbacks

-- The entry whose bridge has an address, by its key: 0 where there is none.
abbrev pub key_of : ℕ → Assoc Bridge → ℕ
key_of address [] = 0
key_of address ((id, b) ∷ rest) = if b.address == address then id else key_of address rest

-- The events after which a bridge is dropped.
abbrev pub is_last : EventType → Bool
is_last EventType.connection_failed = true
is_last EventType.disconnected = true
is_last EventType.protocol_error = true
is_last _ = false

module _ (env : Env) where
  -- The manager, g_managedBridges, the address of the next bridge, and the calls of the client's
  -- callbacks.
  pub record Library : Type 0 where
    pub manager : SessionManager env
    pub bridges : Assoc Bridge
    pub next_address : ℕ
    pub calls : List (ℕ × EventC)
    pub sounds : List (ℕ × List ℤ)

  abbrev pub new_library : Library
  new_library = record {
    manager = new_manager env;
    bridges = [];
    next_address = 0;
    calls = [];
    sounds = [];
  }

  -- sessionCbs.onSessionEvent
  unfoldable pub on_session_event : Bridge → Event → Library → Library
  on_session_event b ev lib =
      let id = key_of b.address lib.bridges in
      let told = record lib { calls = (id, fill_managed_event ev) ∷ lib.calls } in
      if not b.cbs.on_session_event || not (is_visible ev.type)
      then lib
      else if id == 0
      then lib
      else if is_last ev.type
      then record told { bridges = without id lib.bridges }
      else told

  -- sessionCbs.onRxPcm
  unfoldable pub on_rx_pcm : Bridge → List ℤ → Library → Library
  on_rx_pcm b pcm lib =
      let id = key_of b.address lib.bridges in
      if not b.cbs.on_rx_pcm || is_empty pcm
      then lib
      else if id == 0
      then lib
      else record lib { sounds = (id, pcm) ∷ lib.sounds }

  -- The last part of owalkie_prepare_connection: onRxOpus stays unset, onRxPcm is always set.
  unfoldable pub register : ConnectParams → Callbacks → Library → ℕ × Library
  register params cbs lib =
      let (id, mgr) = prepare_connection env params false true lib.manager in
      let b : Bridge = record { address = lib.next_address; cbs = cbs } in
      let made = record lib { manager = mgr; next_address = suc lib.next_address } in
      if id == 0
      then (0, made)
      else (id, record made { bridges = (id, b) ∷ without id lib.bridges })

  -- owalkie_session_id owalkie_prepare_connection(...)
  unfoldable pub prepare : Option ConnectParamsC → Option Callbacks → Library → ℕ × Library
  prepare none cbs lib = (0, lib)
  prepare (some p) none lib = (0, lib)
  prepare (some p) (some cbs) lib = elim p.host [
    | none ↦ (0, lib)
    | some host ↦ if not cbs.on_session_event then (0, lib) else register (params_of host p) cbs lib
  ]

  -- owalkie_result owalkie_connect(owalkie_session_id session_id, int timeout_ms); none is an
  -- exception
  unfoldable pub connect_session : Surroundings env → ℕ → Library → Option CResult × Library
  connect_session around id lib =
      if id == 0
      then (some owalkie_err_invalid_arg, lib)
      else (let (r, mgr) = connect env around id lib.manager in
          (elim r [ none ↦ none | some q ↦ some (to_c q) ], record lib { manager = mgr }))

  -- What the sessions emit, each event with the bridge of its session, one after the other
  unfoldable pub arrive : List (Bridge × Event) → Library → Library
  arrive [] lib = lib
  arrive ((b, ev) ∷ es) lib = arrive es (on_session_event b ev lib)

  -- void owalkie_disconnect(owalkie_session_id session_id). The bridge is erased first; the events
  -- come between that and the end of the manager's disconnect, which then has changed the manager.
  unfoldable pub disconnect_session :
      List (Bridge × Event) → List (List Bool) → ℕ → Library → Library
  disconnect_session es attempts id lib =
      let erased = record lib { bridges = without id lib.bridges } in
      let told = arrive es erased in
      if id == 0 then lib else record told { manager = disconnect env id attempts told.manager }

  -- void owalkie_disconnect_all(void)
  unfoldable pub disconnect_all_sessions : (ℕ → List (List Bool)) → Library → Library
  disconnect_all_sessions attempts lib = record lib {
    manager = disconnect_all env attempts lib.manager;
  }

  -- int owalkie_session_id_valid(owalkie_session_id session_id)
  abbrev pub session_id_valid : ℕ → Library → Bool
  session_id_valid id lib = is_valid env id lib.manager

  -- int owalkie_session_id_ready(owalkie_session_id session_id)
  abbrev pub session_id_ready : ℕ → Library → Bool
  session_id_ready id lib = is_session_ready env id lib.manager

  -- The settings of an info with their text in the caller's buffer.
  abbrev put_application : SessionInfo → Option String → CResult × SessionInfo
  put_application shown none = (owalkie_err_buffer_too_small, shown)
  put_application shown (some text) = (
    owalkie_ok,
    record shown {
      config = elim shown.config [
        | none ↦ none
        | some c ↦ some (record c { opus_application = in_buffer text })
      ];
    },
  )

  abbrev put_info : Outcome (SessionState × Bool) → Option ℕ → SessionInfo → CResult × SessionInfo
  put_info (failure r) buf old = (to_c r, old)
  put_info (success (st, ready)) buf old =
      let shown = fill_session_info ready st in
      if st.has_welcome && is_buffer buf
      then put_application shown (copy_to_buf st.welcome.opus.application buf)
      else (owalkie_ok, shown)

  -- owalkie_result owalkie_get_session_info(...)
  unfoldable pub session_info :
      ℕ → Option SessionInfo → Option ℕ → Library → CResult × Option SessionInfo
  session_info id none buf lib = (owalkie_err_invalid_arg, none)
  session_info id (some old) buf lib =
      if id == 0
      then (owalkie_err_invalid_arg, some old)
      else (let (r, out) = put_info (get_session_info env id lib.manager) buf old in (r, some out))

  -- From the tests of the arrays on.
  unfoldable pub submit_op :
      (State env → State env)
      → ℕ
      → TxSubmitOp
      → Option (List ℤ)
      → Option (List ℕ)
      → Library
      → CResult × Library
  submit_op waited id op pcm opus lib =
      if lacks op pcm opus
      then (owalkie_err_invalid_arg, lib)
      else (let (r, mgr) = submit_tx env waited id op (elements pcm) (elements opus) lib.manager in
          (to_c r, record lib { manager = mgr }))

  -- owalkie_result owalkie_tx_submit(...)
  unfoldable pub tx_submit :
      (State env → State env)
      → ℕ
      → ℕ
      → Option (List ℤ)
      → Option (List ℕ)
      → Library
      → CResult × Library
  tx_submit waited id op pcm opus lib =
      if id == 0 then (owalkie_err_invalid_arg, lib) else elim (op_of op) [
        | none ↦ (owalkie_err_invalid_arg, lib)
        | some o ↦ submit_op waited id o pcm opus lib
      ]

  -- int owalkie_tx_wait_idle(owalkie_session_id session_id, int timeout_ms)
  unfoldable pub tx_wait_idle : List (State env → State env) → ℕ → Library → Bool × Library
  tx_wait_idle others id lib =
      if id == 0
      then (false, lib)
      else (let (b, mgr) = wait_tx_queue_idle env others id lib.manager in
          (b, record lib { manager = mgr }))

  -- owalkie_result owalkie_set_repeater_mode(owalkie_session_id session_id, int enabled)
  unfoldable pub set_mode : ℕ → Bool → Library → CResult × Library
  set_mode id enabled lib =
      if id == 0
      then (owalkie_err_invalid_arg, lib)
      else (let (r, mgr) = set_repeater_mode env id enabled lib.manager in
          (to_c r, record lib { manager = mgr }))

  -- void owalkie_set_power_profile(owalkie_session_id session_id, owalkie_power_profile profile)
  unfoldable pub set_profile : ℕ → ℕ → Library → Library
  set_profile id profile lib =
      if id == 0
      then lib
      else record lib { manager = set_power_profile env id (profile_of profile) lib.manager }

  -- owalkie_result owalkie_punch_nat(owalkie_session_id session_id)
  unfoldable pub punch : ℕ → Library → CResult × Library
  punch id lib =
      if id == 0
      then (owalkie_err_invalid_arg, lib)
      else (let (r, mgr) = punch_nat env id lib.manager in (to_c r, record lib { manager = mgr }))
