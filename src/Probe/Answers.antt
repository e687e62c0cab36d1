-- ===== src/Probe/Answers.antt =====
-- When the probe of activity_probe.cpp has an answer, and that its loop ends.
use Prim.Native.String.{String}
use text.Mathlib.Text.{◌==◌ as str_eq}
use o_walkie.Base.{
  ℕ, zero, suc, ◌<◌, ◌≡◌, inl, inr, refl, sym, ap, ◌∙◌, Bool, true, false, List, [], ◌∷◌, length,
  Option, none, some, Option-cases, Bool-cases, if◌then◌else◌, arith,
}
use o_walkie.Types.{Result, ok, network, Outcome-cases, success, ConnectParams}
use o_walkie.Messages.Json.{JsonLib}
use o_walkie.Messages.{build_has_activity, parse_has_activity_response}
use o_walkie.Probe.{
  Read, received, timed_out, failed, Relay, Answer, read_ws_text, message_type_is, told,
  await_answer, ask, check_channel_activity,
}

-- The texts up to the first failed read.
abbrev pub texts : List Read → List String
texts [] = []
texts (received t ∷ rest) = t ∷ texts rest
texts (timed_out ∷ rest) = texts rest
texts (failed ∷ rest) = []

module _ (lib : JsonLib) where
  -- The first text of a type.
  abbrev pub first_of : String → List String → Option String
  first_of type [] = none
  first_of type (t ∷ ts) = if message_type_is lib t type then some t else first_of type ts

  abbrev pub verdict : Option String → Result × Bool
  verdict none = (network, false)
  verdict (some t) = told lib (parse_has_activity_response lib t)

  -- With a round more than there are reads, the loop comes to the first text of the type
  -- has_activity before a read fails or the deadline passes: to its value, to a protocol error if it
  -- cannot be read, and to a network error if there is no such text. No fuel beyond that changes it.
  pub await_answer-first_of :
      (fuel : ℕ) (reads : List Read)
      → length reads < fuel
      → await_answer lib fuel reads ≡ verdict (first_of "has_activity" (texts reads))
  unfolding await_answer read_ws_text
  await_answer-first_of zero reads h = absurd (omega (arith, h))
  await_answer-first_of (suc fuel) [] h = refl
  await_answer-first_of (suc fuel) (failed ∷ rest) h = refl
  await_answer-first_of (suc fuel) (timed_out ∷ rest) h =
      await_answer-first_of (suc fuel) rest (omega (arith, h))
  await_answer-first_of (suc fuel) (received t ∷ rest) h =
      elim (Bool-cases (message_type_is lib t "has_activity")) [
        | inl e ↦ rw (e, await_answer) refl
        | inr e ↦ rw (e, await_answer) (await_answer-first_of fuel rest (omega (arith, h)))
      ]

  -- What has happened when the probe returns Ok.
  pub record IsAnswered (channel : String) (relay : Relay) (a : Answer) : Type 0 where
    pub welcome : String
    pub later : List Read
    pub answer : String
    pub first : read_ws_text relay.reads ≡ (some welcome, later)
    pub greeted : message_type_is lib welcome "welcome" ≡ true
    pub takes : relay.takes_text ≡ true
    pub found : first_of "has_activity" (texts later) ≡ some answer
    pub read : parse_has_activity_response lib answer ≡ success a.active
    pub asked : a.sent ≡ build_has_activity lib channel ∷ []

  told_ok :
      (o : Option String)
      → (verdict o).0 ≡ ok
      → (t : String) × (o ≡ some t) × (parse_has_activity_response lib t ≡ success (verdict o).1)
  told_ok none h = cc
  told_ok (some t) h = elim (Outcome-cases (parse_has_activity_response lib t)) [
    | inl (a, e) ↦ (t, refl, rw e refl)
    | inr (r, e) ↦ absurd (ground (arith, e, h))
  ]

  ask-await_answer :
      (channel : String) (relay : Relay) (w : String)
      → (read_ws_text relay.reads).0 ≡ some w
      → message_type_is lib w "welcome" ≡ true
      → relay.takes_text ≡ true
      → let p = verdict (first_of "has_activity" (texts (read_ws_text relay.reads).1)) in
        ask lib channel relay
        ≡ record { result = p.0; active = p.1; sent = build_has_activity lib channel ∷ [] }
  unfolding ask
  ask-await_answer channel relay w e g k =
      let later = (read_ws_text relay.reads).1 in
      rw (e, g, k, ask)
        (ap
          (λ (p : Result × Bool). record {
            result = p.0;
            active = p.1;
            sent = build_has_activity lib channel ∷ [];
          })
          (await_answer-first_of (suc (length later)) later (omega arith)))

  ask_ok :
      (channel : String) (relay : Relay)
      → (ask lib channel relay).result ≡ ok
      → IsAnswered channel relay (ask lib channel relay)
  unfolding ask
  ask_ok channel relay h = elim (Option-cases (read_ws_text relay.reads).0) [
    | inl e ↦ absurd (ground (arith, e, h))
    | inr (w, e) ↦ elim (Bool-cases (message_type_is lib w "welcome")) [
      | inr g ↦ absurd (ground (arith, e, g, h))
      | inl g ↦ elim (Bool-cases relay.takes_text) [
        | inr k ↦ absurd (ground (arith, e, g, k, h))
        | inl k ↦
            let same = ask-await_answer channel relay w e g k in
            let (t, f, p) = told_ok _ (sym (ap (λ (a : Answer). a.result) same) ∙ h) in
            record {
              welcome = w;
              later = (read_ws_text relay.reads).1;
              answer = t;
              first = ap (λ o. (o, (read_ws_text relay.reads).1)) e;
              greeted = g;
              takes = k;
              found = f;
              read = p ∙ ap (λ (a : Answer). success a.active) (sym same);
              asked = ap (λ (a : Answer). a.sent) same;
            }
      ]
    ]
  ]

  -- If the probe returns Ok, every stage of the connection succeeded, the first text was a welcome,
  -- the question about the channel (global for an empty name) was the one text sent, and what the
  -- probe reports is the value of the first answer of the type has_activity.
  pub check_channel_activity_ok :
      (params : ConnectParams) (relay : Relay)
      → (check_channel_activity lib params relay).result ≡ ok
      → (relay.resolves ≡ true)
        × (relay.accepts ≡ true)
        × (relay.shakes_hands ≡ true)
        × IsAnswered
            (if str_eq params.channel "" then "global" else params.channel)
            relay
            (check_channel_activity lib params relay)
  unfolding check_channel_activity
  check_channel_activity_ok params relay h =
      let channel = if str_eq params.channel "" then "global" else params.channel in
      ground (arith, h, ask_ok channel relay)
