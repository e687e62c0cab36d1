-- ===== src/Messages/Examples.antt =====
-- Messages of json.cpp, with a JSON library that knows two texts.
use Prim.Native.String.{String}
use text.Mathlib.Text.{◌==◌ as str_eq}
use o_walkie.Base.{pos, true, false, ◌||◌, none, some, if◌then◌else◌, ◌≡◌, refl}
use o_walkie.Types.{EventType, WelcomeConfig, success, event_of, protocol_version}
use o_walkie.Messages.Json.{JsonLib}
use o_walkie.Protocol.{normalize_sample_rate, normalize_packet_ms}
use o_walkie.Messages.{
  check_welcome, read_welcome, transmit_timeout, opus_config, read_opus, parse_welcome,
  parse_server_message,
}
use o_walkie.Messages.Incoming.{IsIncoming, parse_server_message-IsIncoming}

-- A value is the type of a message. A welcome has version 2, session 7, an unknown sample rate and
-- a bitrate that is too high.
abbrev small_json : JsonLib
small_json = record {
  Json = String;
  parse = λ text. if str_eq text "{" then none else some text;
  dump = λ j. j;
  contains = λ j key. str_eq key "sampleRate" || str_eq key "opus";
  member = λ j key. key;
  is_null = λ j. false;
  is_object = λ j. str_eq j "opus";
  value_int = λ j key n.
      if str_eq key "protocolVersion"
      then some (pos 2)
      else if str_eq key "sampleRate"
      then some (pos 44100)
      else if str_eq key "bitrate"
      then some (pos 900000)
      else some n;
  value_unsigned = λ j key n. some 7;
  value_bool = λ j key b. some b;
  value_string = λ j key text. if str_eq key "type" then some j else some text;
  object = λ fields. "object";
  of_string = λ text. text;
  of_int = λ n. "int";
  of_bool = λ b. "bool";
}

abbrev settings : WelcomeConfig
settings = record {
  session_id = 7;
  protocol_version = pos 2;
  sample_rate = normalize_sample_rate (pos 44100);
  packet_ms = normalize_packet_ms (pos 20);
  opus = record { bitrate = 510000; complexity = 5; fec = true; dtx = false; application = "voip" };
  busy_mode = false;
  transmit_timeout_sec = 60;
}

welcome_parsed : parse_welcome small_json "welcome" protocol_version ≡ success settings
unfolding parse_welcome check_welcome read_welcome transmit_timeout opus_config read_opus
welcome_parsed = refl

parse_server_message-IsIncoming_example :
    IsIncoming (parse_server_message small_json "welcome" (event_of EventType.connecting))
parse_server_message-IsIncoming_example =
    parse_server_message-IsIncoming small_json "welcome" (event_of EventType.connecting)
