-- ===== src/Interface/Examples.antt =====
-- The C interface of c_api.cpp at concrete values.
use Prim.Native.String.{String, len}
use o_walkie.Base.{◌≡◌, ◌+◌, ◌≤◌, refl, pos, true, false, List, [], ◌∷◌, none, some, arith}
use o_walkie.Types.{EventType, Event, event_of, WelcomeConfig, success, protocol_version}
use o_walkie.Messages.{
  parse_server_message, dispatch, parse_welcome, check_welcome, read_welcome, transmit_timeout,
  opus_config, read_opus,
}
use o_walkie.Session.Samples.{small_json, slow}
use o_walkie.Interface.{owalkie_ok, zero_event, WelcomeConfigC, in_buffer, in_scratch, fill_welcome}
use o_walkie.Interface.Calls.{
  json_parse_server_message, json_parse_welcome, put_config_result, put_welcome,
}
use o_walkie.Interface.Calls.Reporting.{
  announced, seen, json_parse_server_message-announced, json_parse_welcome_application,
}
use o_walkie.Interface.Arguments.{ConnectParamsC}
use o_walkie.Interface.Managed.{Bridge, Library, new_library, on_rx_pcm, disconnect_session}
use o_walkie.Manager.{disconnect}
use o_walkie.Interface.Managed.Delivery.{
  Unique, deliver, until_last, visible_of, recorded, deliver-until_last, from,
  disconnect_session_silent,
}
use o_walkie.Interface.Managed.Table.{
  Request, prepares, disconnects, hears_event, hears_sound, serve_all, serve_all-Unique,
}

abbrev stopped : Event
stopped = record (event_of EventType.tx_stop) { tx_stop_info = "transmit_timeout_reached" }

stop_parsed :
    parse_server_message small_json "tx_stop" (event_of EventType.connecting) ≡ success stopped
unfolding parse_server_message dispatch
stop_parsed = refl

stopped_size : len stopped.tx_stop_info + 1 ≤ 30
stopped_size = omega arith

json_parse_server_message-announced_example :
    json_parse_server_message small_json (some "tx_stop") (some zero_event) (some 30)
    ≡ (owalkie_ok, some (announced (seen stopped)))
json_parse_server_message-announced_example =
    json_parse_server_message-announced small_json "tx_stop" zero_event 30 stopped stop_parsed
      stopped_size (omega arith)

abbrev blank : WelcomeConfigC
blank = record {
  session_id = 0;
  protocol_version = pos 0;
  sample_rate = 0;
  packet_ms = 0;
  opus_bitrate = 0;
  opus_complexity = 0;
  opus_fec = false;
  opus_dtx = false;
  opus_application = in_buffer "";
  busy_mode = false;
  transmit_timeout_sec = 0;
}

welcome_read : (json_parse_welcome small_json (some "welcome") (some blank) none).0 ≡ owalkie_ok
unfolding json_parse_welcome put_config_result put_welcome parse_welcome check_welcome read_welcome
    transmit_timeout opus_config read_opus
welcome_read = refl

json_parse_welcome_application_example :
    (t : String) × (cfg : WelcomeConfig) × (some "welcome" ≡ some t)
    × (parse_welcome small_json t protocol_version ≡ success cfg)
    × ((json_parse_welcome small_json (some "welcome") (some blank) none).1
        ≡ some (record (fill_welcome cfg) { opus_application = in_scratch cfg.opus.application }))
json_parse_welcome_application_example =
    json_parse_welcome_application small_json (some "welcome") (some blank) none welcome_read

abbrev bridge : Bridge
bridge = record { address = 0; cbs = record { on_session_event = true; on_rx_pcm = true } }

-- One prepared session.
abbrev bridged : Library slow
bridged = record (new_library slow) { bridges = (1, bridge) ∷ []; next_address = 1 }

bridged-Unique : Unique 1 bridged.bridges
bridged-Unique = (refl, omega arith, omega arith, tt)

abbrev heard : List Event
heard =
    event_of EventType.connecting
    ∷ event_of EventType.connected
    ∷ event_of EventType.disconnected
    ∷ stopped
    ∷ []

deliver-until_last_example :
    (deliver slow bridge heard bridged).calls ≡ recorded 1 (until_last (visible_of heard)) []
deliver-until_last_example =
    deliver-until_last slow 1 1 bridge heard bridged bridged-Unique refl refl

disconnect_session_silent_example :
    let t = disconnect_session slow (from slow bridge heard) ((false ∷ []) ∷ []) 1 bridged in
    (t.calls ≡ [])
    × (t.sounds ≡ [])
    × (t.manager ≡ disconnect slow 1 ((false ∷ []) ∷ []) bridged.manager)
    × (deliver slow bridge heard t ≡ t)
    × (on_rx_pcm slow bridge (pos 3 ∷ []) t ≡ t)
disconnect_session_silent_example =
    disconnect_session_silent slow 1 1 bridge heard heard ((false ∷ []) ∷ []) (pos 3 ∷ []) bridged
      bridged-Unique refl

abbrev wanted : ConnectParamsC
wanted = record {
  host = some [];
  port = pos 5500;
  channel = none;
  use_tls = false;
  repeater_mode = false;
}

abbrev requests : List (Request slow)
requests =
    prepares (some wanted) (some bridge.cbs)
    ∷ hears_event bridge stopped
    ∷ hears_sound bridge (pos 3 ∷ [])
    ∷ disconnects ((bridge, stopped) ∷ []) ((false ∷ []) ∷ []) 1
    ∷ []

serve_all-Unique_example :
    let lib = serve_all slow requests (new_library slow) in Unique lib.next_address lib.bridges
serve_all-Unique_example = serve_all-Unique slow requests
