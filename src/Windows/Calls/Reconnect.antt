-- ===== src/Windows/Calls/Reconnect.antt =====
-- The reconnect loop of RelayClient.cpp, and what becomes of a session that ends.
use o_walkie.Base.{ℕ, ◌≤◌, ◌≡◌, refl, Bool, true, false, ◌&&◌, List, Option, none, some, arith}
use o_walkie.Types.{Event, EventType}
use o_walkie.Session.State.{Env}
use o_walkie.Manager.{is_session_ready}
use o_walkie.Manager.Connect.{Surroundings, connect as connect_session}
use o_walkie.Interface.{is_visible}
use o_walkie.Interface.Managed.{is_last}
use o_walkie.Windows.{
  Client, stop_reconnect_loop, ended, handle_type, handle_session_event, clear_managed_session,
}
use o_walkie.Windows.Calls.{World, disconnect, try_reconnect, reconnect_round}

-- Ending a session stops the loop, and forgets the number unless the loop's own thread does it.
ended_lem :
    (own : Bool) (tell : Client → Client) (c : Client)
    → ((d : Client) → (tell d).session_id ≡ d.session_id)
    → ((ended own tell c).0 ≡ (own && c.reconnect_loop_running))
      × ((ended own tell c).0 ≡ false → (ended own tell c).1.session_id ≡ 0)
unfolding ended stop_reconnect_loop
ended_lem own tell c h = ground (
  arith,
  h (clear_managed_session c),
  h (clear_managed_session (record c { reconnect_loop_running = false })),
)

module _ (env : Env) where
  abbrev pub InRange : World env → Type 0
  InRange w = (1500 ≤ w.client.reconnect_backoff_ms) × (w.client.reconnect_backoff_ms ≤ 30000)

  -- What a round of the loop sleeps and leaves.
  abbrev pub IsPaced : Option ℕ × World env → Type 0
  IsPaced (none, w) = InRange w
  IsPaced (some ms, w) = (200 ≤ ms) × (ms ≤ 30000) × InRange w

  try_reconnect-InRange :
      (around : Surroundings env) (meanwhile : World env → World env) (w : World env)
      → ((v : World env) → InRange v → InRange (meanwhile v))
      → InRange w
      → InRange (try_reconnect env around meanwhile w).1
  unfolding try_reconnect
  try_reconnect-InRange around meanwhile w m r =
      let id = w.client.session_id in
      let held = record w { client = record (w.client) { connect_in_flight = true } } in
      let p = connect_session env around id held.manager in
      let k = m (record held { manager = p.1 }) r in ground (arith, r, k)

  -- Every round of the reconnect loop that no exception leaves sleeps for 200 milliseconds at least
  -- and 30 seconds at most, and keeps the delay of the next attempt between 1.5 and 30 seconds, if
  -- the events that come meanwhile keep it there.
  pub reconnect_round-IsPaced :
      (around : Surroundings env) (meanwhile : World env → World env) (w : World env)
      → ((v : World env) → InRange v → InRange (meanwhile v))
      → InRange w
      → IsPaced (reconnect_round env around meanwhile w)
  unfolding reconnect_round
  reconnect_round-IsPaced around meanwhile w m r =
      let k = try_reconnect-InRange around meanwhile w m r in ground (arith, r, k)

  -- If TryReconnect returns true, the session whose number the client has then is ready.
  pub try_reconnect-is_session_ready :
      (around : Surroundings env) (meanwhile : World env → World env) (w : World env)
      → (try_reconnect env around meanwhile w).0 ≡ some true
      → let t = (try_reconnect env around meanwhile w).1 in
        is_session_ready env t.client.session_id t.manager ≡ true
  unfolding try_reconnect
  try_reconnect-is_session_ready around meanwhile w h = ground (arith, h)

  ended_type :
      (t : EventType) (own : Bool) (ev : Event) (c : Client)
      → is_last t ≡ true
      → (tell : Client → Client) × ((d : Client) → (tell d).session_id ≡ d.session_id)
        × (handle_type t own ev c ≡ ended own tell c)
  unfolding handle_type
  ended_type EventType.connection_failed own ev c h = (_, λ d. ground arith, refl)
  ended_type EventType.disconnected own ev c h = (_, λ d. ground arith, refl)
  ended_type EventType.protocol_error own ev c h = (_, λ d. ground arith, refl)
  ended_type _ own ev c h = cc

  last_is_visible : (t : EventType) → is_last t ≡ true → is_visible t ≡ true
  last_is_visible EventType.connection_failed h = refl
  last_is_visible EventType.disconnected h = refl
  last_is_visible EventType.protocol_error h = refl
  last_is_visible _ h = cc

  handle_last :
      (own : Bool) (ev : Event) (c : Client)
      → is_last ev.type ≡ true
      → ((handle_session_event own ev c).0 ≡ (own && c.reconnect_loop_running))
        × ((handle_session_event own ev c).0 ≡ false
            → (handle_session_event own ev c).1.session_id ≡ 0)
  unfolding handle_session_event
  handle_last own ev c h =
      let (tell, k, e) = ended_type ev.type own ev c h in
      rw (last_is_visible ev.type h, e, handle_session_event) (ended_lem own tell c k)

  -- A failed connection, a disconnection or a protocol error ends the session for the client. On
  -- the thread of the loop, while the loop runs, an exception leaves the handler. On another thread
  -- the client forgets the session's number, and a Disconnect after it releases nothing: the
  -- session manager is left as it was.
  pub handle_session_event-disconnect :
      (ev : Event) (notified : Bool) (rounds : List Bool) (w : World env)
      → is_last ev.type ≡ true
      → let c = (handle_session_event false ev w.client).1 in
        let t = disconnect env notified rounds (record w { client = c }) in
        ((handle_session_event true ev w.client).0 ≡ w.client.reconnect_loop_running)
        × (c.session_id ≡ 0)
        × (t.manager ≡ w.manager)
  unfolding disconnect stop_reconnect_loop
  handle_session_event-disconnect ev notified rounds w h =
      let (thrown, zero) = handle_last false ev w.client h in
      let z = zero thrown in ((handle_last true ev w.client h).0, z, ground (arith, z))
