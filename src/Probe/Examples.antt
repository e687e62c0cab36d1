-- ===== src/Probe/Examples.antt =====
-- The probe of activity_probe.cpp at a concrete run.
use o_walkie.Base.{◌≡◌, refl, pos, true, false, List, [], ◌∷◌, arith}
use o_walkie.Types.{ok, ConnectParams}
use o_walkie.Endpoint.{
  probe_host_endpoint, probe_located, strip_scheme, split_first, cut_path, lower,
}
use o_walkie.Messages.{parse_has_activity_response}
use o_walkie.Session.Samples.{small_json}
use o_walkie.Probe.{
  Read, received, timed_out, Relay, read_ws_text, message_type_is, await_answer, ask,
  check_channel_activity,
}
use o_walkie.Probe.Answers.{
  texts, first_of, verdict, await_answer-first_of, IsAnswered, check_channel_activity_ok,
}

abbrev after_welcome : List Read
after_welcome = timed_out ∷ received "pong" ∷ received "has_activity" ∷ []

await_answer-first_of_example :
    await_answer small_json 4 after_welcome
    ≡ verdict small_json (first_of small_json "has_activity" (texts after_welcome))
await_answer-first_of_example = await_answer-first_of small_json 4 after_welcome (omega arith)

abbrev relay : Relay
relay = record {
  resolves = true;
  accepts = true;
  shakes_hands = true;
  takes_text = true;
  reads = timed_out ∷ received "welcome" ∷ after_welcome;
}

abbrev params : ConnectParams
params = record {
  host = b'h' ∷ [];
  port = pos 5500;
  channel = "";
  use_tls = false;
  repeater_mode = false;
}

relay-answers : (check_channel_activity small_json params relay).result ≡ ok
unfolding check_channel_activity ask await_answer read_ws_text message_type_is
    parse_has_activity_response probe_host_endpoint probe_located strip_scheme split_first cut_path
    lower
relay-answers = refl

check_channel_activity_ok_example :
    (true ≡ true)
    × (true ≡ true)
    × (true ≡ true)
    × IsAnswered small_json "global" relay (check_channel_activity small_json params relay)
check_channel_activity_ok_example = check_channel_activity_ok small_json params relay relay-answers
