-- ===== src/Manager/Examples.antt =====
-- The session manager of session_manager.cpp at concrete values.
use o_walkie.Base.{◌≡◌, refl, true, false, List, [], ◌∷◌, some, length, is_member, without}
use o_walkie.Types.{ok, invalid_arg}
use o_walkie.Endpoint.{parse_host_endpoint, strip_scheme, split_first, cut_path, located}
use o_walkie.Session.Samples.{slow}
use o_walkie.Session.Control.{clear_connection_lost_signaled}
use o_walkie.Session.Events.{
  cancel_ongoing_connect, halt_transport, close_sockets, emit_event, apply_event_state,
}
use o_walkie.Session.Outbound.{end_local_tx}
use o_walkie.Session.Lifecycle.{
  reconnect_connect, reconnect_teardown, attempt, wait_until_transport_stopped,
  clear_transport_state, finalize_transport_teardown, emit_disconnected_once,
  connect as connect_session,
}
use o_walkie.Manager.{SessionManager, new_manager, is_session_ready, disconnect, is_valid}
use o_walkie.Manager.Connect.{
  refuses, connect_managed, locked, after_stop, redial, dial_session, settle, conclude, connect,
  connect_among,
}
use o_walkie.Manager.Connect.Ready.{connect-is_session_ready}
use o_walkie.Manager.Connect.Refused.{connect_refused}
use o_walkie.Manager.Samples.{calm, nowhere, fresh, welcomed, two_sessions}
use o_walkie.Manager.Calls.{
  Call, prepares, connects, disconnects, finishes, run, AllAllowed, run-new_manager_refines,
}
use o_walkie.Manager.Calls.Leaving.{disconnect-is_valid}
use o_walkie.Manager.Registry.{IsValid, view}

-- Another thread takes the first session out meanwhile.
abbrev taken_out : SessionManager slow → SessionManager slow
taken_out mgr = record mgr { sessions = without 1 mgr.sessions }

welcomed-connects : (connect_among slow calm taken_out 2 two_sessions).0 ≡ some ok
unfolding connect_managed conclude
welcomed-connects = refl

connect-is_session_ready_example :
    is_session_ready slow 2 (connect_among slow calm taken_out 2 two_sessions).1
    ≡ is_member 2 (taken_out two_sessions).sessions
connect-is_session_ready_example =
    connect-is_session_ready slow calm taken_out 2 two_sessions welcomed-connects

disconnect-is_valid_example :
    let t = disconnect slow 2 ((true ∷ false ∷ []) ∷ []) two_sessions in
    (is_valid slow 2 t ≡ false) × (length t.cleanups ≡ 1)
disconnect-is_valid_example =
    disconnect-is_valid slow 2 (true ∷ false ∷ []) [] two_sessions welcomed refl refl refl

fresh-refuses : (connect_managed slow calm fresh).0 ≡ refuses invalid_arg
unfolding connect_managed locked after_stop redial dial_session settle reconnect_connect
    connect_session attempt wait_until_transport_stopped halt_transport cancel_ongoing_connect
    close_sockets reconnect_teardown clear_transport_state finalize_transport_teardown
    emit_disconnected_once end_local_tx emit_event apply_event_state clear_connection_lost_signaled
    parse_host_endpoint strip_scheme split_first cut_path located
fresh-refuses = refl

connect_refused_example :
    let t = (connect slow calm 1 two_sessions).1 in
    (is_member 1 t.sessions ≡ true)
    × (length t.sessions ≡ 2)
    × (t.cleanups ≡ [])
    × (connect slow calm 1 t ≡ (some invalid_arg, t))
connect_refused_example =
    connect_refused slow calm calm 1 two_sessions fresh invalid_arg refl fresh-refuses refl

-- Two sessions are prepared, the first leaves, and its cleanup ends.
abbrev some_calls : List (Call slow)
some_calls =
    prepares nowhere true false
    ∷ prepares nowhere false true
    ∷ connects calm 1
    ∷ disconnects 1 ((false ∷ []) ∷ [])
    ∷ finishes
    ∷ []

run-new_manager_refines_example :
    IsValid slow (run slow some_calls (new_manager slow))
    × AllAllowed slow some_calls
        (view slow (new_manager slow))
        (view slow (run slow some_calls (new_manager slow)))
run-new_manager_refines_example = run-new_manager_refines slow some_calls
