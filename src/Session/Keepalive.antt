-- ===== src/Session/Keepalive.antt =====
-- The keepalive thread of a session and its timings (session.cpp).
pub mod Loss
use o_walkie.Base.{
  ℕ, ◌+◌, ◌-◌, ◌*◌, ◌/◌, Bool, true, false, not, ◌&&◌, ◌||◌, List, [], ◌∷◌, max, ltb, leb, ◌==◌,
  if◌then◌else◌,
}
use o_walkie.Types.{PowerProfile, foreground, background, active_tx}
use o_walkie.Messages.{build_heartbeat}
use o_walkie.Session.State.{Env, State, now_ns, ns_per_sec, ns_per_ms}
use o_walkie.Session.Events.{signal_recoverable_loss, interruptible_sleep}
use o_walkie.Session.Outbound.{send_udp_keepalive, send_ws_text}

-- struct KeepaliveTimings
pub record KeepaliveTimings : Type 0 where
  pub idle_interval_ns : ℕ
  pub recovery_interval_ns : ℕ
  pub rtx_ns : ℕ
  pub lost_ns : ℕ
  pub pending_poll_ms : ℕ

abbrev foreground_timings : KeepaliveTimings
foreground_timings = record {
  idle_interval_ns = 12 * ns_per_sec;
  recovery_interval_ns = 6 * ns_per_sec;
  rtx_ns = 1000 * ns_per_ms;
  lost_ns = 8000 * ns_per_ms;
  pending_poll_ms = 300;
}

-- KeepaliveTimings keepaliveTimingsFor(PowerProfile profile)
unfoldable pub keepalive_timings_for : PowerProfile → KeepaliveTimings
keepalive_timings_for background = record {
  idle_interval_ns = 50 * ns_per_sec;
  recovery_interval_ns = 12 * ns_per_sec;
  rtx_ns = 2000 * ns_per_ms;
  lost_ns = 10000 * ns_per_ms;
  pending_poll_ms = 700;
}
keepalive_timings_for foreground = foreground_timings
keepalive_timings_for active_tx = foreground_timings

-- kKeepaliveJitterPercent, kWsHeartbeatIntervalNs
abbrev pub keepalive_jitter_percent : ℕ
keepalive_jitter_percent = 15

abbrev pub ws_heartbeat_interval_ns : ℕ
ws_heartbeat_interval_ns = 30 * ns_per_sec

-- int64_t jitteredKeepaliveDelayMs(int64_t intervalSec, std::mt19937& rng). The first argument
-- draws from std::uniform_int_distribution over the two bounds. The interval is not negative, and
-- the sums fit the type.
unfoldable pub jittered_keepalive_delay_ms : (ℕ → ℕ → ℕ) → ℕ → ℕ
jittered_keepalive_delay_ms draw interval_sec =
    let base_ms = interval_sec * 1000 in
    let delta_ms = base_ms * keepalive_jitter_percent / 100 in
    let min_ms = max 1000 (base_ms - delta_ms) in
    let max_ms = base_ms + delta_ms in if leb max_ms min_ms then min_ms else draw min_ms max_ms

-- last == 0 || now - last >= period
abbrev pub is_due : ℕ → ℕ → ℕ → Bool
is_due now last period = last == 0 || leb period (now - last)

module _ (env : Env) where
  -- A keepalive waits for its acknowledgement: it is lost, sent again, or left alone.
  unfoldable pub await_ack : ℕ → KeepaliveTimings → State env → Bool × State env
  await_ack now timings s =
      if leb timings.lost_ns (now - s.last_udp_keepalive_pending_since_ns)
      then (
        false,
        signal_recoverable_loss env "keepalive_lost"
            (record s { last_udp_keepalive_pending_since_ns = 0 }),
      )
      else (
        true,
        interruptible_sleep env (
            if is_due now s.last_udp_keepalive_sent_ns timings.rtx_ns
            then send_udp_keepalive env s
            else s),
      )

  unfoldable pub heartbeat : ℕ → State env → State env
  heartbeat now s =
      if is_due now s.last_ws_heartbeat_sent_ns ws_heartbeat_interval_ns
      then record (send_ws_text env (build_heartbeat env.json) s) {
        last_ws_heartbeat_sent_ns = now;
      }
      else s

  abbrev pub is_active_tx : PowerProfile → Bool
  is_active_tx active_tx = true
  is_active_tx _ = false

  -- The interval in whole seconds, as nanoseconds.
  abbrev pub interval_ns : ℕ → KeepaliveTimings → State env → ℕ
  interval_ns now timings s =
      (if ltb now s.udp_recovery_until_ns
        then timings.recovery_interval_ns / ns_per_sec
        else timings.idle_interval_ns / ns_per_sec)
      * ns_per_sec

  unfoldable pub idle_round : ℕ → KeepaliveTimings → State env → Bool × State env
  unfolding heartbeat
  idle_round now timings s =
      let kept =
        if not (s.session_state.local_tx_active || is_active_tx s.power_profile)
          && is_due now s.last_udp_keepalive_sent_ns (interval_ns now timings s)
        then send_udp_keepalive env s
        else s in
      (true, interruptible_sleep env (heartbeat now kept))

  -- A round of keepaliveLoop with its test before it. It says whether the loop goes on.
  unfoldable pub keepalive_round : State env → Bool × State env
  keepalive_round s =
      if not s.connected || s.stop_requested
      then (false, s)
      else if s.welcome.session_id == 0
      then (true, interruptible_sleep env s)
      else (let (now, t) = now_ns env s in
          let timings = keepalive_timings_for t.power_profile in
          if not (t.last_udp_keepalive_pending_since_ns == 0)
          then await_ack now timings t
          else idle_round now timings t)

  -- void keepaliveLoop(), of rounds with what other threads make of the session after each
  unfoldable pub keepalive_loop : List (State env → State env) → State env → Bool × State env
  keepalive_loop [] s = (true, s)
  keepalive_loop (others ∷ rest) s =
      let (on, t) = keepalive_round s in
      let later = keepalive_loop rest (others t) in if on then later else (false, t)
