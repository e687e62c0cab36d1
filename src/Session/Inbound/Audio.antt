-- ===== src/Session/Inbound/Audio.antt =====
-- What a session does with the datagrams of a peer (udpReadLoop of session.cpp, udp.cpp).
use o_walkie.Base.{
  ℕ, ◌+◌, ◌^◌, ◌≤◌, ◌<◌, ◌≡◌, ◌≢◌, refl, true, false, List, ◌∷◌, length, is_empty, arith,
}
use o_walkie.Types.{success, UdpAudioPacket}
use o_walkie.Wire.{pack, unpack, is_keepalive_ack}
use o_walkie.Wire.RoundTrip.{IsPacket, IsBytes, unpack-pack}
use o_walkie.Wire.Markers.{header, is_keepalive_ack_iff}
use o_walkie.Session.State.{Env, State}
use o_walkie.Session.Inbound.{received_datagram}

-- A datagram with Opus bytes is longer than a header.
length-packed :
    (p : UdpAudioPacket) (buf : List ℕ)
    → is_empty p.opus ≡ false
    → pack p ≡ success buf
    → 9 < length buf
unfolding pack
length-packed p buf h e = ground arith

unpack_packed :
    (p : UdpAudioPacket) (buf : List ℕ)
    → IsPacket p
    → length p.opus ≤ 65535
    → pack p ≡ success buf
    → unpack buf ≡ success p
unpack_packed p buf w h e = ground (arith, unpack-pack p w h)

long_no_ack : (buf : List ℕ) (id : ℕ) → 9 < length buf → is_keepalive_ack buf id ≡ false
unfolding is_keepalive_ack
long_no_ack buf id h = ground arith

module _ (env : Env) where
  -- Audio of 1 to 65535 Opus bytes that a peer packs reaches the Opus callback unchanged, if that
  -- callback is set, whatever the session's number and signal in it; the link counts as alive; and
  -- a wait for an acknowledgement goes on.
  pub received_datagram-pack :
      (p : UdpAudioPacket) (buf : List ℕ) (s : State env)
      → IsPacket p
      → length p.opus ≤ 65535
      → is_empty p.opus ≡ false
      → pack p ≡ success buf
      → s.has_rx_opus ≡ true
      → ((received_datagram env buf s).rx_opus ≡ p.opus ∷ s.rx_opus)
        × ((received_datagram env buf s).last_inbound_ns ≡ env.clock s.clock_reads)
        × ((received_datagram env buf s).last_udp_keepalive_pending_since_ns
            ≡ s.last_udp_keepalive_pending_since_ns)
  unfolding received_datagram
  received_datagram-pack p buf s w h n e o = ground (
    arith,
    length-packed p buf n e,
    unpack_packed p buf w h e,
    long_no_ack buf s.welcome.session_id (length-packed p buf n e),
  )

  -- For a session number of 32 bits, the acknowledgement of the session's own keepalive ends the
  -- wait for it, and the link counts as alive.
  pub received_datagram_ack :
      (s : State env)
      → s.welcome.session_id < 2 ^ 32
      → received_datagram env (header s.welcome.session_id 0 254) s ≡ record s {
        clock_reads = s.clock_reads + 1;
        last_inbound_ns = env.clock s.clock_reads;
        last_udp_keepalive_pending_since_ns = 0;
      }
  unfolding received_datagram
  received_datagram_ack s w =
      rw
        ((is_keepalive_ack_iff (header s.welcome.session_id 0 254) s.welcome.session_id
            (omega arith) w).1
          refl)
        refl

  -- For a session number of 32 bits, every other datagram of at most nine bytes leaves the session
  -- as it was: a session takes no acknowledgement of another session for its own.
  pub received_datagram_ignored :
      (buf : List ℕ) (s : State env)
      → IsBytes buf
      → length buf ≤ 9
      → s.welcome.session_id < 2 ^ 32
      → buf ≢ header s.welcome.session_id 0 254
      → received_datagram env buf s ≡ s
  unfolding received_datagram
  received_datagram_ignored buf s v h w n =
      ground (arith, (is_keepalive_ack_iff buf s.welcome.session_id v w).0)
