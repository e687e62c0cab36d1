-- ===== src/Messages/Incoming.antt =====
-- What the session learns from a server message (parseServerMessage of json.cpp).
use Prim.Native.String.{String}
use o_walkie.Base.{ℤ, ◌≡◌, refl, Bool, true, false, Option-cases, inl, inr, ◌⊎◌, arith}
use o_walkie.Types.{
  EventType, Event, Outcome, Outcome-cases, success, failure, Result, protocol, invalid_arg,
  no_event, protocol_version,
}
use o_walkie.Messages.Json.{JsonLib}
use o_walkie.Messages.Welcome.{IsWelcome, parse_welcome-IsWelcome}
use o_walkie.Messages.{
  ◌>>=◌, parse_server_message, parse_welcome, dispatch, welcome_event, check_welcome, caught,
}

-- The events that a message of the server can raise. The others report what the client itself
-- does: connecting, losing the transport, its own transmission.
abbrev pub is_remote : EventType → Bool
is_remote EventType.welcomed = true
is_remote EventType.rx_broadcast_start = true
is_remote EventType.rx_broadcast_end = true
is_remote EventType.ptt_locked = true
is_remote EventType.ptt_unlocked = true
is_remote EventType.tx_countdown_start = true
is_remote EventType.tx_stop = true
is_remote _ = false

-- The outcomes of a message: an event of the server's, with settings in the protocol's ranges if
-- it is a welcome, or one of three failures.
abbrev pub IsIncoming : Outcome Event → Type 0
IsIncoming (success e) =
    (is_remote e.type ≡ true) × (e.type ≡ EventType.welcomed → IsWelcome protocol_version e.welcome)
IsIncoming (failure r) = (r ≡ protocol) ⊎ (r ≡ invalid_arg) ⊎ (r ≡ no_event)

module _ (lib : JsonLib) where
  open lib use {Json, parse, value_string}

  pub parse_welcome_failure :
      (text : String) (required : ℤ) (r : Result)
      → parse_welcome lib text required ≡ failure r
      → r ≡ protocol
  unfolding parse_welcome check_welcome
  parse_welcome_failure text required r e = ground arith

  welcome_event-IsIncoming : (text : String) (out : Event) → IsIncoming (welcome_event lib text out)
  unfolding welcome_event
  welcome_event-IsIncoming text out =
      elim (Outcome-cases (parse_welcome lib text protocol_version)) [
        | inl (cfg, e) ↦
            rw (e, welcome_event)
              (refl, λ _. parse_welcome-IsWelcome lib text protocol_version cfg e)
        | inr (r, e) ↦ rw (e, welcome_event) (inl (parse_welcome_failure text protocol_version r e))
      ]

  dispatch-IsIncoming :
      (text : String) (root : Json) (type : String) (out : Event)
      → IsIncoming (caught (dispatch lib text root type out))
  unfolding dispatch
  dispatch-IsIncoming text root type out = ground (arith, welcome_event-IsIncoming text out)

  -- A message of the server raises an event of the server's or none: never one that reports what
  -- the client itself does, such as a connection or its loss. A welcome that it raises has
  -- settings in the protocol's ranges.
  pub parse_server_message-IsIncoming :
      (text : String) (out : Event) → IsIncoming (parse_server_message lib text out)
  unfolding parse_server_message
  parse_server_message-IsIncoming text out = elim (Option-cases (parse text)) [
    | inl e ↦ rw (e, parse_server_message) (inl refl)
    | inr (root, e) ↦ elim (Option-cases (value_string root "type" "")) [
      | inl f ↦ rw (e, parse_server_message) (rw (f, ◌>>=◌) (inl refl))
      | inr (type, f) ↦
          rw (e, parse_server_message) (rw (f, ◌>>=◌) (dispatch-IsIncoming text root type out))
    ]
  ]
