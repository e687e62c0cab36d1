-- ===== src/Windows/Examples.antt =====
-- The Windows client's RelayClient at concrete values.
use o_walkie.Base.{◌≡◌, refl, true, false, [], ◌∷◌, some, arith}
use o_walkie.Types.{EventType, Event, event_of, default_welcome}
use o_walkie.Session.Samples.{slow}
use o_walkie.Manager.{is_session_ready, is_valid}
use o_walkie.Manager.Connect.{connect_managed, conclude, connect as connect_session}
use o_walkie.Manager.Samples.{calm, two_sessions}
use o_walkie.Windows.{map_welcome, Client, handle_session_event}
use o_walkie.Windows.Calls.{World, disconnect, try_reconnect, reconnect_round}
use o_walkie.Windows.Calls.Reconnect.{
  IsPaced, reconnect_round-IsPaced, handle_session_event-disconnect,
}

abbrev client : Client
client = record {
  session_id = 1;
  cfg = map_welcome default_welcome;
  notify_ui_callbacks = true;
  reconnect_loop_running = true;
  connect_in_flight = false;
  reconnect_backoff_ms = 1500;
  is_set = λ n. true;
  calls = [];
}

-- One client that is not connected, and one that is.
abbrev waiting : World slow
waiting = record { client = client; manager = two_sessions }

abbrev online : World slow
online = record { client = record client { session_id = 2 }; manager = two_sessions }

reconnect_round-IsPaced_example : IsPaced slow (reconnect_round slow calm (λ v. v) waiting)
reconnect_round-IsPaced_example =
    reconnect_round-IsPaced slow calm (λ v. v) waiting (λ v r. r) (omega arith, omega arith)

online-reconnects : (try_reconnect slow calm (λ v. v) online).0 ≡ some true
unfolding try_reconnect connect_session connect_managed conclude is_session_ready is_valid
online-reconnects = refl

abbrev failure_event : Event
failure_event = event_of EventType.connection_failed

handle_session_event-disconnect_example :
    let c = (handle_session_event false failure_event client).1 in
    let t = disconnect slow true (false ∷ []) (record waiting { client = c }) in
    ((handle_session_event true failure_event client).0 ≡ true)
    × (c.session_id ≡ 0)
    × (t.manager ≡ two_sessions)
handle_session_event-disconnect_example =
    handle_session_event-disconnect slow failure_event true (false ∷ []) waiting refl
