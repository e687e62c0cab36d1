-- ===== src/Session/Outbound/Recovery.antt =====
-- What becomes of the UDP socket when the network changes (session.cpp).
use o_walkie.Base.{
  ℕ, ℤ, ◌+◌, ◌-◌, ◌≤◌, ◌<◌, ◌≡◌, ◌≢◌, ◌⊎◌, refl, ◌∙◌, ap, true, false, not, ◌||◌, List, [], ◌∷◌,
  ◌++◌, Option, none, some, ◌==◌, if◌then◌else◌, if-holds, if-cases, arith,
}
use Prim.Native.String.{String}
use o_walkie.Types.{EventType, Result, event_of}
use o_walkie.Wire.{keepalive_signal}
use o_walkie.Session.State.{Env, State, UdpSocket, absent, bound}
use o_walkie.Session.Events.{emit_event, apply_event_state}
use o_walkie.Session.Outbound.{
  start_write, pump_ws_writes, send_ws_text, header, has_socket, send_udp_payload,
  send_udp_keepalive, enter_udp_recovery, rebound, reset_udp, recreate_at, recreate_by,
  drain_pending_network_recreate, notify_network_changed, end_local_tx,
}
use o_walkie.Session.Outbound.Effects.{send_udp_payload-Sends}

module _ (env : Env) where
  -- What the recovery changes: the attempts to make a socket, the time of the latest recovery, and the
  -- socket.
  record Keeps (s t : State env) : Type 0 where
    pub same_binds : t.binds ≡ s.binds
    pub same_last : t.last_network_recovery_at_ns ≡ s.last_network_recovery_at_ns
    pub same_socket : t.udp_socket ≡ s.udp_socket

  Keeps-trans : {s t u : State env} → Keeps s t → Keeps t u → Keeps s u
  Keeps-trans a b = record {
    same_binds = b.same_binds ∙ a.same_binds;
    same_last = b.same_last ∙ a.same_last;
    same_socket = b.same_socket ∙ a.same_socket;
  }

  Keeps-refl : (s : State env) → Keeps s s
  Keeps-refl s = record { same_binds = refl; same_last = refl; same_socket = refl }

  start_write-Keeps : (q : List String) (s : State env) → Keeps s (start_write env q s)
  unfolding start_write
  start_write-Keeps [] s = Keeps-refl s
  start_write-Keeps (x ∷ q) s = record { same_binds = refl; same_last = refl; same_socket = refl }

  send_ws_text-Keeps : (text : String) (s : State env) → Keeps s (send_ws_text env text s)
  unfolding send_ws_text pump_ws_writes
  send_ws_text-Keeps text s =
      let queued = record s { ws_outbound_queue = s.ws_outbound_queue ++ text ∷ [] } in
      let q : Keeps s queued = record { same_binds = refl; same_last = refl; same_socket = refl } in
      if-holds (Keeps s) _ s _ (Keeps-refl s) (
        if-holds (Keeps s) _ queued _ q
          (Keeps-trans q (start_write-Keeps queued.ws_outbound_queue queued)))

  send_udp_keepalive-Keeps : (s : State env) → Keeps s (send_udp_keepalive env s)
  unfolding send_udp_keepalive
  send_udp_keepalive-Keeps s =
      let sent = send_udp_payload env (header env s 0 keepalive_signal) s in
      let d = send_udp_payload-Sends env (header env s 0 keepalive_signal) s in
      let k : Keeps s sent = record {
        same_binds = ap (λ (t : State env). t.binds) d.same;
        same_last = ap (λ (t : State env). t.last_network_recovery_at_ns) d.same;
        same_socket = ap (λ (t : State env). t.udp_socket) d.same;
      } in
      if-holds (Keeps s) (not (has_socket env s.udp_socket) || s.welcome.session_id == 0) s
        (record sent {
          last_udp_keepalive_sent_ns = env.clock sent.clock_reads;
          clock_reads = sent.clock_reads + 1;
          last_udp_keepalive_pending_since_ns =
              if sent.last_udp_keepalive_pending_since_ns == 0
              then env.clock sent.clock_reads
              else sent.last_udp_keepalive_pending_since_ns;
        })
        (Keeps-refl s)
        (record { same_binds = k.same_binds; same_last = k.same_last; same_socket = k.same_socket })

  -- The socket after an attempt to make one.
  abbrev pub made : Option ℤ → UdpSocket
  made none = absent
  made (some port) = bound port

  -- What an attempt to make a socket leaves: the socket if there is one, and none otherwise.
  record IsRebound (port : Option ℤ) (s t : State env) : Type 0 where
    pub same_binds : t.binds ≡ s.binds
    pub same_last : t.last_network_recovery_at_ns ≡ s.last_network_recovery_at_ns
    pub new_socket : t.udp_socket ≡ made port

  rebound-IsRebound :
      (port : Option ℤ) (s : State env)
      → s.udp_socket ≡ absent
      → IsRebound port s (rebound env port s).1
  unfolding rebound emit_event
  rebound-IsRebound none s h = record { same_binds = refl; same_last = refl; new_socket = h }
  rebound-IsRebound (some port) s h =
      let k =
        Keeps-trans (send_ws_text-Keeps _ (record s { udp_socket = bound port }))
          (send_udp_keepalive-Keeps _) in
      record { same_binds = k.same_binds; same_last = k.same_last; new_socket = k.same_socket }

  -- A recovery of a connected session tries once to make a socket, and notes its time.
  recreate_at_lem :
      (now : ℕ) (s : State env)
      → s.connected ≡ true
      → s.ws_exists ≡ true
      → ((recreate_at env now s).binds ≡ s.binds + 1)
        × ((recreate_at env now s).last_network_recovery_at_ns ≡ now)
        × ((recreate_at env now s).udp_socket ≡ made (env.bind s.binds))
  unfolding recreate_at enter_udp_recovery reset_udp
  recreate_at_lem now s c w =
      if-cases
        (λ (p : Result × State env).
          (p.1.binds ≡ s.binds + 1)
          × (p.1.last_network_recovery_at_ns ≡ now)
          × (p.1.udp_socket ≡ made (env.bind s.binds)))
        (not s.connected || not s.ws_exists) _ _ (λ e. absurd (ground (arith, e)))
        (λ e.
          let k = rebound-IsRebound (env.bind s.binds) _ refl in
          (k.same_binds, k.same_last, k.new_socket))

  -- The last recovery is less than three seconds ago.
  abbrev pub IsRecent : State env → Type 0
  IsRecent s =
      (s.last_network_recovery_at_ns ≢ 0)
      × (env.clock s.clock_reads - s.last_network_recovery_at_ns < 3000000000)

  abbrev pub IsDue : State env → Type 0
  IsDue s =
      (s.last_network_recovery_at_ns ≡ 0)
      ⊎ (3000000000 ≤ env.clock s.clock_reads - s.last_network_recovery_at_ns)

  -- A network change during a transmission does nothing to the UDP socket, but is made up for when
  -- the transmission ends. If the last recovery is three seconds ago, or there was none, the socket is
  -- closed then, the time is noted, and one attempt is made at a new socket: it is bound to the port
  -- that the attempt gives, and there is no socket if it fails. If the last recovery is more recent,
  -- the socket stays then too, and the change is still noted.
  pub end_local_tx-notify_network_changed :
      (s : State env)
      → s.connected ≡ true
      → s.ws_exists ≡ true
      → s.session_state.local_tx_active ≡ true
      → (let noted = notify_network_changed env s in
          let after = end_local_tx env noted in
          (noted.udp_socket ≡ s.udp_socket)
          × (noted.binds ≡ s.binds)
          × (IsDue s
              → (after.udp_socket ≡ made (env.bind s.binds))
                × (after.binds ≡ s.binds + 1)
                × (after.last_network_recovery_at_ns ≡ env.clock s.clock_reads))
          × (IsRecent s
              → (after.udp_socket ≡ s.udp_socket)
                × (after.binds ≡ s.binds)
                × (after.pending_network_recreate ≡ true)))
  unfolding notify_network_changed end_local_tx drain_pending_network_recreate recreate_by
      emit_event apply_event_state
  end_local_tx-notify_network_changed s c w a =
      let ended = emit_event env (event_of EventType.local_tx_end) s in
      let u = record ended { pending_network_recreate = false; clock_reads = s.clock_reads + 1 } in
      let new = recreate_at_lem (env.clock s.clock_reads) u c w in
      (
        ground (arith, c, a),
        ground (arith, c, a),
        (λ h. (ground (arith, h, new), ground (arith, h, new), ground (arith, h, new))),
        (λ h. (ground (arith, h), ground (arith, h), ground (arith, h))),
      )
