-- ===== src/Session/Keepalive/Loss.antt =====
-- When the keepalive thread gives a session up, and how long it waits (session.cpp).
use mathlib.Core.Bool.{false≢true}
use o_walkie.Base.{
  ℕ, ◌+◌, ◌-◌, ◌*◌, ◌/◌, ◌≤◌, ◌≡◌, ◌≢◌, ◌⊎◌, refl, sym, max, Bool-cases, inl, inr, true, false,
  List, [], ◌∷◌, arith,
}
use o_walkie.Types.{EventType, event_of}
use o_walkie.Session.State.{Env, State}
use o_walkie.Session.Events.{
  signal_recoverable_loss, emit_loss, emit_event, halt_transport, close_sockets, apply_event_state,
}
use o_walkie.Session.Keepalive.{
  keepalive_timings_for, jittered_keepalive_delay_ms, await_ack, idle_round, keepalive_round,
  keepalive_loop,
}

module _ (env : Env) where
  -- The keepalive that waits for its acknowledgement, and has waited too long for the profile.
  pub record IsLost (s : State env) : Type 0 where
    pub is_connected : s.connected ≡ true
    pub runs : s.stop_requested ≡ false
    pub is_welcomed : s.welcome.session_id ≢ 0
    pub waits : s.last_udp_keepalive_pending_since_ns ≢ 0
    pub too_long :
        (keepalive_timings_for s.power_profile).lost_ns
        ≤ env.clock s.clock_reads - s.last_udp_keepalive_pending_since_ns

  -- The test before a round, and the test in it, end the loop.
  abbrev pub Stops : State env → Type 0
  Stops s = (s.connected ≡ false) ⊎ (s.stop_requested ≡ true)

  lost_step :
      (s : State env)
      → IsLost s
      → keepalive_round env s ≡ (
        false,
        signal_recoverable_loss env "keepalive_lost"
            (record s { clock_reads = s.clock_reads + 1; last_udp_keepalive_pending_since_ns = 0 }),
      )
  unfolding keepalive_round await_ack
  lost_step s h = ground (arith, h.is_connected, h.runs, h.is_welcomed, h.waits, h.too_long)

  -- What giving a session up makes of it: the transport is stopped and the welcome forgotten, and the
  -- newest event that the callback got is the loss of the connection, if no disconnect was under way
  -- and no loss was reported before.
  pub record IsGivenUp (s t : State env) : Type 0 where
    pub stopped : t.stop_requested ≡ true
    pub disconnected : t.connected ≡ false
    pub forgotten : t.welcome.session_id ≡ 0
    pub lost : t.session_state.connection_lost ≡ true
    pub told :
        t.events
        ≡ record (event_of EventType.connection_lost) { disconnect_reason = "keepalive_lost" }
          ∷ event_of EventType.rx_broadcast_end
          ∷ s.events

  pub keepalive_round_lost :
      (s : State env)
      → IsLost s
      → s.disconnect_started ≡ false
      → s.connection_lost_signaled ≡ false
      → IsGivenUp s (keepalive_round env s).1
  unfolding signal_recoverable_loss emit_loss emit_event apply_event_state halt_transport
      close_sockets
  keepalive_round_lost s h d c = rw (lost_step s h) (
      rw (d, c)
        (record {
          stopped = refl;
          disconnected = refl;
          forgotten = refl;
          lost = refl;
          told = refl;
        }))

  -- A loss that was reported before, and one during a disconnect.
  keepalive_round_known :
      (s : State env)
      → IsLost s
      → s.disconnect_started ≡ false
      → s.connection_lost_signaled ≡ true
      → let t = (keepalive_round env s).1 in
        (t.stop_requested ≡ true)
        × (t.connected ≡ false)
        × (t.welcome.session_id ≡ 0)
        × (t.events ≡ s.events)
  unfolding signal_recoverable_loss halt_transport close_sockets
  keepalive_round_known s h d c = rw (lost_step s h) (rw (d, c) (refl, refl, refl, refl))

  keepalive_round_late :
      (s : State env)
      → IsLost s
      → s.disconnect_started ≡ true
      → let t = (keepalive_round env s).1 in (t.connected ≡ true) × (t.events ≡ s.events)
  unfolding signal_recoverable_loss
  keepalive_round_late s h d = rw (lost_step s h) (rw d (h.is_connected, refl))

  left :
      (s : State env)
      → (keepalive_round env s).0 ≡ false
      → (Stops s × ((keepalive_round env s).1 ≡ s)) ⊎ IsLost s
  unfolding keepalive_round await_ack idle_round
  left s q = elim (Bool-cases s.connected) [
    | inr e ↦ inl (inl e, rw e refl)
    | inl e ↦ elim (Bool-cases s.stop_requested) [
      | inl g ↦ inl (inr g, rw (e, g) refl)
      | inr g ↦ inr (record {
        is_connected = e;
        runs = g;
        is_welcomed = ground (arith, e, g, q);
        waits = ground (arith, e, g, q);
        too_long = ground (arith, e, g, q);
      })
    ]
  ]

  -- The states before the rounds of the loop, each if the rounds before it went on.
  abbrev pub Comes : List (State env → State env) → State env → State env → Type 0
  Comes [] s u = ⊥
  Comes (others ∷ rest) s u =
      (u ≡ s)
      ⊎ (((keepalive_round env s).0 ≡ true) × Comes rest (others (keepalive_round env s).1) u)

  -- How the loop ends with a state: by its test before a round, or by giving the session up in it.
  abbrev pub Ends : State env → State env → Type 0
  Ends before t =
      (Stops before × (t ≡ before))
      ⊎ (IsLost before
          × (before.disconnect_started ≡ false
              → before.connection_lost_signaled ≡ false
              → IsGivenUp before t)
          × (before.disconnect_started ≡ false
              → before.connection_lost_signaled ≡ true
              → (t.stop_requested ≡ true)
                × (t.connected ≡ false)
                × (t.welcome.session_id ≡ 0)
                × (t.events ≡ before.events))
          × (before.disconnect_started ≡ true → (t.connected ≡ true) × (t.events ≡ before.events)))

  -- Whatever other threads make of the session between the rounds, the keepalive thread leaves its
  -- loop at a round in one of two ways. The session was disconnected or stopped, and stays as it is.
  -- Or it was connected and welcomed, and a keepalive had waited for its acknowledgement as long as
  -- the power profile allows. Then, unless a disconnect was under way, it is stopped, disconnected and
  -- without a welcome, and its callback got the loss of the connection last, or nothing if a loss was
  -- reported before. If a disconnect was under way, the round leaves it connected, and its callback
  -- gets nothing.
  pub keepalive_loop_left :
      (rounds : List (State env → State env)) (s : State env)
      → (keepalive_loop env rounds s).0 ≡ false
      → (before : State env) × Comes rounds s before × Ends before (keepalive_loop env rounds s).1
  unfolding keepalive_loop
  keepalive_loop_left [] s h = absurd (false≢true (sym h))
  keepalive_loop_left (others ∷ rest) s h =
      let r = keepalive_round env s in
      elim (Bool-cases r.0) [
        | inl on ↦
            let (before, comes, ends) =
              keepalive_loop_left rest (others r.1) (rw (on, keepalive_loop) at h) in
            (before, inr (on, comes), rw (on, keepalive_loop) ends)
        | inr off ↦ (
          s,
          inl refl,
          rw (off, keepalive_loop)
              (elim (left s off) [
                | inl (stops, same) ↦ inl (stops, same)
                | inr lost ↦ inr (
                  lost,
                  keepalive_round_lost s lost,
                  keepalive_round_known s lost,
                  keepalive_round_late s lost,
                )
              ]),
        )
      ]

-- The delay of an interval of n seconds lies within 15 percent of it, and is a second at least, if
-- the generator draws between the bounds that it is given.
pub jittered_keepalive_delay_ms_bounds :
    (draw : ℕ → ℕ → ℕ) (n : ℕ)
    → ((a b : ℕ) → a ≤ b → (a ≤ draw a b) × (draw a b ≤ b))
    → (1000 ≤ jittered_keepalive_delay_ms draw n)
      × (850 * n ≤ jittered_keepalive_delay_ms draw n)
      × (jittered_keepalive_delay_ms draw n ≤ max 1000 (1150 * n))
unfolding jittered_keepalive_delay_ms
jittered_keepalive_delay_ms_bounds draw n h =
    ground (arith, h (max 1000 (n * 1000 - n * 1000 * 15 / 100)) (n * 1000 + n * 1000 * 15 / 100))
