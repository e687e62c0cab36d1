-- ===== src/Probe.antt =====
-- checkChannelActivity of owalkie-core/src/activity_probe.cpp: one question to a relay whether a
-- channel is in use.
pub mod Answers
mod Examples
use Prim.Native.String.{String}
use text.Mathlib.Text.{◌==◌ as str_eq}
use o_walkie.Base.{
  ℕ, zero, suc, ℤ, pos, negsuc, ◌==◌, ltb, Bool, true, false, not, ◌&&◌, ◌||◌, List, [], ◌∷◌,
  is_empty, length, Option, none, some, if◌then◌else◌,
}
use o_walkie.Types.{
  Result, ok, invalid_arg, unsupported, network, protocol, Outcome, success, failure, ConnectParams,
}
use o_walkie.Endpoint.{probe_host_endpoint}
use o_walkie.Messages.Json.{JsonLib}
use o_walkie.Messages.{build_has_activity, parse_has_activity_response}

-- What one read of the WebSocket comes to: a text, a slice of time without one, or an error.
pub data Read : Type 0 where
  received : String → Read
  timed_out : Read
  failed : Read

-- The relay's side of a run: whether each stage succeeds before its budget is used up, and the
-- reads before the deadline.
pub record Relay : Type 0 where
  pub resolves : Bool
  pub accepts : Bool
  pub shakes_hands : Bool
  pub takes_text : Bool
  pub reads : List Read

-- bool readWsText(..., std::string& out, deadline), with the reads that are left; a list that ends is
-- the deadline
unfoldable pub read_ws_text : List Read → Option String × List Read
read_ws_text [] = (none, [])
read_ws_text (received t ∷ rest) = (some t, rest)
read_ws_text (timed_out ∷ rest) = read_ws_text rest
read_ws_text (failed ∷ rest) = (none, rest)

-- What the function returns, outActive, and the texts that it sent.
pub record Answer : Type 0 where
  pub result : Result
  pub active : Bool
  pub sent : List String

-- !(params.port < 1 || params.port > 65535)
abbrev pub is_valid_port : ℤ → Bool
is_valid_port (pos n) = not (n == 0) && not (ltb 65535 n)
is_valid_port (negsuc n) = false

module _ (lib : JsonLib) where
  -- bool messageTypeIs(const std::string& text, const char* type)
  unfoldable pub message_type_is : String → String → Bool
  message_type_is message type = elim (lib.parse message) [
    | none ↦ false
    | some root ↦ elim (lib.value_string root "type" "") [ none ↦ false | some t ↦ str_eq t type ]
  ]

  abbrev pub told : Outcome Bool → Result × Bool
  told (success active) = (ok, active)
  told (failure r) = (protocol, false)

  -- The loop for the answer, a round for each unit of fuel.
  unfoldable pub await_answer : ℕ → List Read → Result × Bool
  await_answer zero reads = (network, false)
  await_answer (suc fuel) reads =
      let next = read_ws_text reads in
      let rest = await_answer fuel next.1 in
      elim next.0 [
        | none ↦ (network, false)
        | some message ↦
            if message_type_is message "has_activity"
            then told (parse_has_activity_response lib message)
            else rest
      ]

  -- After the handshake: the welcome, the question and its answer.
  unfoldable pub ask : String → Relay → Answer
  ask channel relay =
      let first = read_ws_text relay.reads in
      let question = build_has_activity lib channel in
      let (r, active) = await_answer (suc (length first.1)) first.1 in
      let answered : Answer = record { result = r; active = active; sent = question ∷ [] } in
      let silent : Answer = record { result = network; active = false; sent = [] } in
      elim first.0 [
        | none ↦ silent
        | some message ↦
            if not (message_type_is message "welcome")
            then silent
            else if not relay.takes_text
            then silent
            else answered
      ]

  abbrev refused : Result → Answer
  refused r = record { result = r; active = false; sent = [] }

  -- Result checkChannelActivity(const ConnectParams& params, int timeoutMs, bool& outActive)
  unfoldable pub check_channel_activity : ConnectParams → Relay → Answer
  check_channel_activity params relay =
      let parsed = probe_host_endpoint params.host in
      let channel = if str_eq params.channel "" then "global" else params.channel in
      if is_empty params.host || not (is_valid_port params.port)
      then refused invalid_arg
      else if is_empty parsed.host
      then refused invalid_arg
      else if params.use_tls || parsed.use_tls
      then refused unsupported
      else if not relay.resolves
      then refused network
      else if not relay.accepts
      then refused network
      else if not relay.shakes_hands
      then refused network
      else ask channel relay
