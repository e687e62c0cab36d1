-- ===== src/Messages.antt =====
-- owalkie-core/src/json.cpp: the messages of the control plane.
-- nlohmann::json is a parameter: a record of its values and of the calls that the code makes.
pub mod Json
pub mod Welcome
pub mod Incoming
mod Examples
use Prim.Native.String.{String}
use text.Mathlib.Text.{◌==◌ as str_eq}
use o_walkie.Base.{
  ℕ, ℤ, pos, negsuc, Bool, true, false, not, ◌&&◌, ◌||◌, Option, none, some, [], ◌∷◌, clamp, to_nat,
  eq_ℤ, if◌then◌else◌,
}
use o_walkie.Types.{
  Result, protocol, invalid_arg, no_event, Outcome, success, failure, EventType, OpusConfig,
  WelcomeConfig, Event, default_opus, protocol_version,
}
use o_walkie.Protocol.{normalize_sample_rate, normalize_packet_ms}
use Json.{JsonLib}

-- A call that throws gives none, and every later step of its try block is skipped.
infixl 5 ◌>>=◌
abbrev pub ◌>>=◌ {ℓ κ} : {A : Type ℓ} {B : Type κ} → Option A → (A → Option B) → Option B
some a >>= f = f a
none >>= f = none

-- try { … } catch (...) { return Result::Protocol; }
abbrev pub caught {ℓ} : {A : Type ℓ} → Option (Outcome A) → Outcome A
caught none = failure protocol
caught (some o) = o

module _ (lib : JsonLib) where
  open lib use {
    Json, parse, contains, member, is_null, is_object, value_int, value_unsigned, value_bool,
    value_string, object, of_string, of_int, of_bool, dump,
  }

  -- The two spellings of the timeout, the first one preferred, and 60 where both are missing.
  unfoldable pub transmit_timeout : Json → Option ℤ
  transmit_timeout root =
      if contains root "transmitTimeoutSec" && not (is_null (member root "transmitTimeoutSec"))
      then value_int root "transmitTimeoutSec" (pos 60)
      else if contains root "transmit_timeout" && not (is_null (member root "transmit_timeout"))
      then value_int root "transmit_timeout" (pos 60)
      else some (pos 60)

  unfoldable pub read_opus : Json → Option OpusConfig
  read_opus opus = do
    bitrate ← value_int opus "bitrate" (pos 12000)
    complexity ← value_int opus "complexity" (pos 5)
    fec ← value_bool opus "fec" true
    dtx ← value_bool opus "dtx" false
    application ← value_string opus "application" "voip"
    some (record {
      bitrate = clamp bitrate 6000 510000;
      complexity = clamp complexity 0 10;
      fec = fec;
      dtx = dtx;
      application = application;
    })

  unfoldable pub opus_config : Json → Option OpusConfig
  opus_config root =
      if contains root "opus" && is_object (member root "opus")
      then read_opus (member root "opus")
      else some default_opus

  unfoldable pub read_welcome : Json → ℤ → Option WelcomeConfig
  read_welcome root version = do
    session_id ← value_unsigned root "sessionId" 0
    sample_rate ← value_int root "sampleRate" (pos 8000)
    packet_ms ← value_int root "packetMs" (pos 20)
    busy_mode ← value_bool root "busyMode" false
    tt ← transmit_timeout root
    opus ← opus_config root
    some (record {
      session_id = session_id;
      protocol_version = version;
      sample_rate = normalize_sample_rate sample_rate;
      packet_ms = normalize_packet_ms packet_ms;
      opus = opus;
      busy_mode = busy_mode;
      transmit_timeout_sec = to_nat tt;
    })

  unfoldable pub check_welcome : Json → ℤ → ℤ → Option (Outcome WelcomeConfig)
  check_welcome root required version =
      if not (eq_ℤ version required)
      then some (failure protocol)
      else if not (contains root "sampleRate")
      then some (failure protocol)
      else (read_welcome root version >>= λ cfg. some (success cfg))

  -- Result parseWelcome(std::string_view text, WelcomeConfig& out, int requiredProtocolVersion)
  unfoldable pub parse_welcome : String → ℤ → Outcome WelcomeConfig
  parse_welcome text required = caught do
    root ← parse text
    version ← value_int root "protocolVersion" (negsuc 0)
    check_welcome root required version

  unfoldable pub welcome_event : String → Event → Outcome Event
  welcome_event text out = elim (parse_welcome text protocol_version) [
    | success cfg ↦ success (record out { type = EventType.welcomed; welcome = cfg })
    | failure r ↦ failure r
  ]

  abbrev pub is_quiet : String → Bool
  is_quiet type =
      str_eq type "joined"
      || str_eq type "pong"
      || str_eq type "udp_registered"
      || str_eq type "repeater_mode"

  -- The branch of the message's type.
  unfoldable pub dispatch : String → Json → String → Event → Option (Outcome Event)
  dispatch text root type out =
      if str_eq type "welcome"
      then some (welcome_event text out)
      else if str_eq type "rx_broadcast_start"
      then (value_bool root "busyMode" false >>= λ busy.
          some (success (record out { type = EventType.rx_broadcast_start; rx_busy_mode = busy })))
      else if str_eq type "rx_broadcast_end"
      then (value_int root "endDelayMs" (pos 0) >>= λ delay.
          some
            (success (record out { type = EventType.rx_broadcast_end; rx_end_delay_ms = delay })))
      else if str_eq type "ptt_lock"
      then (value_int root "displaySec" (pos 0) >>= λ sec.
          some (success (record out { type = EventType.ptt_locked; ptt_display_sec = sec })))
      else if str_eq type "ptt_unlock"
      then some (success (record out { type = EventType.ptt_unlocked }))
      else if str_eq type "tx_countdown_start"
      then some (success (record out { type = EventType.tx_countdown_start }))
      else if str_eq type "tx_stop"
      then (value_string root "info" "transmit_timeout_reached" >>= λ info.
          some (success (record out { type = EventType.tx_stop; tx_stop_info = info })))
      else if is_quiet type
      then some (failure no_event)
      else some (failure invalid_arg)

  -- Result parseServerMessage(std::string_view text, Event& out)
  unfoldable pub parse_server_message : String → Event → Outcome Event
  parse_server_message text out =
      caught do root ← parse text; type ← value_string root "type" ""; dispatch text root type out

  -- Result parseHasActivityResponse(std::string_view text, bool& outActive)
  unfoldable pub parse_has_activity_response : String → Outcome Bool
  parse_has_activity_response text = caught do
    root ← parse text
    type ← value_string root "type" ""
    if not (str_eq type "has_activity")
        then some (failure invalid_arg)
        else (value_bool root "active" false >>= λ active. some (success active))

  -- std::string buildJoin(std::string_view channel)
  pub build_join : String → String
  build_join channel =
      dump (object (("type", of_string "join") ∷ ("channel", of_string channel) ∷ []))

  -- std::string buildHasActivity(std::string_view channel)
  pub build_has_activity : String → String
  build_has_activity channel =
      dump (object (("type", of_string "has_activity") ∷ ("channel", of_string channel) ∷ []))

  -- std::string buildUdpHello(int localUdpPort)
  pub build_udp_hello : ℤ → String
  build_udp_hello port =
      dump (object (("type", of_string "udp_hello") ∷ ("udpPort", of_int port) ∷ []))

  -- std::string buildRepeaterMode(bool enabled)
  pub build_repeater_mode : Bool → String
  build_repeater_mode enabled =
      dump (object (("type", of_string "repeater_mode") ∷ ("enabled", of_bool enabled) ∷ []))

  -- std::string buildHeartbeat()
  pub build_heartbeat : String
  build_heartbeat = dump (object (("type", of_string "heartbeat") ∷ []))
