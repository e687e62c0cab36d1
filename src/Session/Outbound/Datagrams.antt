-- ===== src/Session/Outbound/Datagrams.antt =====
-- What the peer reads in the datagrams of a session (session.cpp, udp.cpp).
use o_walkie.Base.{
  ℕ, ℤ, ◌^◌, ◌≤◌, ◌<◌, ◌≡◌, ◌≢◌, ◌↔◌, refl, ap, ◌∙◌, true, false, List, ◌∷◌, length, is_empty, ◌==◌,
  if◌then◌else◌, arith,
}
use o_walkie.Types.{success, UdpAudioPacket, >>=-eq-success}
use o_walkie.Wire.{pack, unpack, is_keepalive_signal, is_tx_eof_marker}
use o_walkie.Wire.RoundTrip.{unpack-pack}
use o_walkie.Wire.Markers.{header, is_keepalive_signal_iff, is_tx_eof_marker_iff}
use o_walkie.Session.State.{Env, State, bound}
use o_walkie.Session.Outbound.{
  send_opus_frame, send_udp_keepalive, send_udp_tx_eof, send_udp_payload, next_seq,
}

module _ (env : Env) where
  -- The session can send: it is connected, welcomed, and its socket is open.
  pub record CanSend (s : State env) : Type 0 where
    pub port : ℤ
    pub is_bound : s.udp_socket ≡ bound port
    pub is_connected : s.connected ≡ true
    pub is_welcomed : s.welcome.session_id ≢ 0
    pub id_word : s.welcome.session_id < 2 ^ 32

  -- Such a session hands a payload to its socket.
  pub send_udp_payload_lem :
      (s : State env) (payload : List ℕ)
      → CanSend s
      → send_udp_payload env payload s ≡ record s { datagrams = payload ∷ s.datagrams }
  unfolding send_udp_payload
  send_udp_payload_lem s payload can = ground arith

  abbrev pub frame_packet : State env → List ℕ → ℕ → UdpAudioPacket
  frame_packet s bytes signal = record {
    session_id = s.welcome.session_id;
    sequence = next_seq env s;
    signal_strength = signal;
    opus = bytes;
  }

  packed_frame :
      (s : State env) (bytes : List ℕ) (signal : ℕ) (buf : List ℕ)
      → is_empty bytes ≡ false
      → pack (frame_packet s bytes signal) ≡ success buf
      → send_opus_frame env bytes signal s
        ≡ send_udp_payload env buf (record s { seq = next_seq env s })
  unfolding send_opus_frame
  packed_frame s bytes signal buf nonempty packed = rw (nonempty, packed)

  -- A connected and welcomed session with an open socket sends an Opus frame of 1 to 65535 bytes,
  -- with a signal below 256, as one datagram, which the peer unpacks to the session's number, the
  -- next sequence number, the signal and the frame.
  pub send_opus_frame-unpack :
      (s : State env) (bytes : List ℕ) (signal : ℕ)
      → CanSend s
      → is_empty bytes ≡ false
      → length bytes ≤ 65535
      → signal < 256
      → (buf : List ℕ) × ((send_opus_frame env bytes signal s).datagrams ≡ buf ∷ s.datagrams)
        × (unpack buf ≡ success (frame_packet s bytes signal))
        × ((send_opus_frame env bytes signal s).seq ≡ next_seq env s)
  unfolding send_opus_frame
  send_opus_frame-unpack s bytes signal can nonempty fits small =
      let (buf, packed, unpacked) =
        >>=-eq-success (pack (frame_packet s bytes signal)) unpack (frame_packet s bytes signal) (
          unpack-pack (frame_packet s bytes signal)
            (record {
              session_word = can.id_word;
              sequence_word = omega arith;
              signal_byte = small;
            })
            fits) in
      let sent =
        packed_frame s bytes signal buf nonempty packed
        ∙ send_udp_payload_lem (record s { seq = next_seq env s }) buf
            (record {
              port = can.port;
              is_bound = can.is_bound;
              is_connected = can.is_connected;
              is_welcomed = can.is_welcomed;
              id_word = can.id_word;
            }) in
      (buf, ap (λ t. t.datagrams) sent, unpacked, ap (λ t. t.seq) sent)

  -- The keepalive of a connected and welcomed session with an open socket is one datagram, which
  -- the relay's test of a keepalive accepts. A wait for an acknowledgement starts now, unless one
  -- is already under way, which keeps its start.
  pub send_udp_keepalive_marker :
      (s : State env)
      → CanSend s
      → (buf : List ℕ) × ((send_udp_keepalive env s).datagrams ≡ buf ∷ s.datagrams)
        × (is_keepalive_signal buf ≡ true)
        × ((send_udp_keepalive env s).seq ≡ s.seq)
        × ((send_udp_keepalive env s).last_udp_keepalive_pending_since_ns ≡ (
            if s.last_udp_keepalive_pending_since_ns == 0
            then env.clock s.clock_reads
            else s.last_udp_keepalive_pending_since_ns))
  unfolding send_udp_keepalive send_udp_payload
  send_udp_keepalive_marker s can = (
    header s.welcome.session_id 0 255,
    ground arith,
    (is_keepalive_signal_iff _ (omega arith)).1 (s.welcome.session_id, can.id_word, refl),
    ground arith,
    ground arith,
  )

  -- In a connected and welcomed session with an open socket the end of a transmission is one
  -- datagram with the next sequence number, which the test of an end marker accepts exactly if that
  -- number has not wrapped to 0.
  pub send_udp_tx_eof_marker :
      (s : State env)
      → CanSend s
      → (buf : List ℕ) × ((send_udp_tx_eof env s).datagrams ≡ buf ∷ s.datagrams)
        × ((send_udp_tx_eof env s).seq ≡ next_seq env s)
        × ((is_tx_eof_marker buf ≡ true) ↔ (next_seq env s ≢ 0))
  unfolding send_udp_tx_eof send_udp_payload
  send_udp_tx_eof_marker s can = (
    header s.welcome.session_id (next_seq env s) 0,
    ground arith,
    ground arith,
    (
      λ q.
          let (id, n, r, k, l, e) = (is_tx_eof_marker_iff _ (omega arith)).0 q in
          λ z. ground (arith, e),
      λ h.
          (is_tx_eof_marker_iff _ (omega arith)).1
            (s.welcome.session_id, next_seq env s, can.id_word, omega arith, omega arith, refl),
    ),
  )
