-- ===== src/Interface/Calls/Reporting.antt =====
-- What the calls of c_api.cpp without a session report, against the events of the library.
use Prim.Native.String.{String, len}
use mathlib.Core.Path.{subst}
use o_walkie.Base.{
  ℕ, zero, suc, ◌+◌, ◌≤◌, ◌≡◌, inl, inr, refl, ap, true, Option, none, some, if◌then◌else◌, arith,
}
use o_walkie.Types.{
  EventType, Event, event_of, WelcomeConfig, Outcome, Outcome-cases, success, protocol_version,
}
use o_walkie.Messages.Json.{JsonLib}
use o_walkie.Messages.{parse_welcome, parse_server_message}
use o_walkie.Messages.Incoming.{
  is_remote, IsIncoming, parse_welcome_failure, parse_server_message-IsIncoming,
}
use o_walkie.Interface.{
  CResult, owalkie_ok, to_public, Text, in_buffer, in_scratch, copy_to_buf, is_buffer,
  WelcomeConfigC, fill_welcome, Payload, config, info, message, disconnect, EventC, payload,
}
use o_walkie.Interface.Calls.{
  json_parse_server_message, json_parse_welcome, put_welcome, put_payload, put_event, put_message,
  put_config_result,
}

-- A text that the caller keeps.
abbrev pub kept : Text → Text
kept (in_scratch text) = in_buffer text
kept t = t

abbrev pub kept_payload : Payload → Payload
kept_payload (config c) = config (record c { opus_application = kept c.opus_application })
kept_payload (info t) = info (kept t)
kept_payload (message t) = message (kept t)
kept_payload (disconnect n t) = disconnect n (kept t)
kept_payload p = p

-- The event that a callback of a managed session gets, with its text in the caller's buffer.
abbrev pub announced : Event → EventC
announced ev = record { type = to_public ev.type; u = kept_payload (payload ev.type ev) }

-- A welcome is announced as the connection that it makes.
abbrev pub visible_type : EventType → EventType
visible_type EventType.welcomed = EventType.connected
visible_type t = t

abbrev pub seen : Event → Event
seen ev = record ev { type = visible_type ev.type }

-- The text of an event that goes into the buffer, if one does.
abbrev pub text_of : EventType → Event → Option String
text_of EventType.welcomed ev = some ev.welcome.opus.application
text_of EventType.tx_stop ev = some ev.tx_stop_info
text_of _ ev = none

abbrev pub Fits : Option String → ℕ → Type 0
Fits none n = Unit {0}
Fits (some text) n = len text + 1 ≤ n

pub copy_to_buf_fits :
    (text : String) (n : ℕ) → len text + 1 ≤ n → copy_to_buf text (some n) ≡ some text
unfolding copy_to_buf
copy_to_buf_fits text n h = ground (arith, h)

put_welcome_fits :
    (cfg : WelcomeConfig) (n : ℕ)
    → len cfg.opus.application + 1 ≤ n
    → put_welcome cfg (some n)
      ≡ some (record (fill_welcome cfg) { opus_application = in_buffer cfg.opus.application })
unfolding put_welcome
put_welcome_fits cfg zero h = absurd (omega (arith, h))
put_welcome_fits cfg (suc n) h = rw (copy_to_buf_fits cfg.opus.application (suc n) h) refl

put_event-announced :
    (t : EventType) (ev : Event) (n : ℕ)
    → is_remote t ≡ true
    → Fits (text_of t ev) n
    → 1 ≤ n
    → put_event (record ev { type = t }) (some n)
      ≡ (owalkie_ok, announced (seen (record ev { type = t })))
unfolding put_event put_payload
put_event-announced EventType.welcomed ev n r h k = ground (arith, put_welcome_fits ev.welcome n h)
put_event-announced EventType.rx_broadcast_start ev n r h k = refl
put_event-announced EventType.rx_broadcast_end ev n r h k = refl
put_event-announced EventType.ptt_locked ev n r h k = refl
put_event-announced EventType.ptt_unlocked ev n r h k = refl
put_event-announced EventType.tx_countdown_start ev n r h k = refl
put_event-announced EventType.tx_stop ev n r h k =
    ground (arith, copy_to_buf_fits ev.tx_stop_info n h)
put_event-announced _ ev n r h k = cc

put_config_result_ok :
    (cfg : WelcomeConfig) (buf : Option ℕ) (old : WelcomeConfigC)
    → (put_config_result (success cfg) buf old).0 ≡ owalkie_ok
    → (put_config_result (success cfg) buf old).1 ≡ record (fill_welcome cfg) {
      opus_application =
          if is_buffer buf then in_buffer cfg.opus.application else in_scratch cfg.opus.application;
    }
unfolding put_config_result put_welcome copy_to_buf
put_config_result_ok cfg none old h = refl
put_config_result_ok cfg (some zero) old h = refl
put_config_result_ok cfg (some (suc n)) old h = ground (arith, h)

module _ (lib : JsonLib) where
  abbrev parsed : String → Outcome Event
  parsed t = parse_server_message lib t (event_of EventType.connecting)

  parsed_remote : (t : String) (ev : Event) → parsed t ≡ success ev → is_remote ev.type ≡ true
  parsed_remote t ev e =
      (subst IsIncoming e (parse_server_message-IsIncoming lib t (event_of EventType.connecting))).0

  -- A message of the server that holds an event is reported like the event that the callback of a
  -- managed session gets, its text in the caller's buffer, and a welcome like a connection. The
  -- buffer has to hold the text, if there is one, and a byte at least.
  pub json_parse_server_message-announced :
      (t : String) (old : EventC) (n : ℕ) (ev : Event)
      → parse_server_message lib t (event_of EventType.connecting) ≡ success ev
      → Fits (text_of ev.type ev) n
      → 1 ≤ n
      → json_parse_server_message lib (some t) (some old) (some n)
        ≡ (owalkie_ok, some (announced (seen ev)))
  unfolding json_parse_server_message put_message
  json_parse_server_message-announced t old n ev e h k = rw e (
      ap (λ (p : CResult × EventC). (p.0, some p.1))
        (put_event-announced ev.type ev n (parsed_remote t ev e) h k))

  -- If owalkie_json_parse_welcome returns OWALKIE_OK, the text is a welcome, and its settings are
  -- in the out parameter, with the application in the caller's buffer if there is one, and behind a
  -- pointer to a string of the function's own if there is none.
  pub json_parse_welcome_application :
      (text : Option String) (out : Option WelcomeConfigC) (buf : Option ℕ)
      → (json_parse_welcome lib text out buf).0 ≡ owalkie_ok
      → (t : String) × (cfg : WelcomeConfig) × (text ≡ some t)
        × (parse_welcome lib t protocol_version ≡ success cfg)
        × ((json_parse_welcome lib text out buf).1
            ≡ some (record (fill_welcome cfg) {
              opus_application =
                  if is_buffer buf
                  then in_buffer cfg.opus.application
                  else in_scratch cfg.opus.application;
            }))
  unfolding json_parse_welcome put_config_result
  json_parse_welcome_application none out buf h = cc
  json_parse_welcome_application (some t) none buf h = cc
  json_parse_welcome_application (some t) (some old) buf h =
      elim (Outcome-cases (parse_welcome lib t protocol_version)) [
        | inl (cfg, e) ↦ (t, cfg, refl, e, ground (arith, e, h, put_config_result_ok cfg buf old))
        | inr (r, e) ↦
            absurd (ground (arith, e, h, parse_welcome_failure lib t protocol_version r e))
      ]
