-- ===== src/Wire/Markers.antt =====
-- Which datagrams the three marker tests of udp.cpp accept.
use o_walkie.Base.{
  ℕ, ◌^◌, ◌<◌, ◌≡◌, ◌≢◌, ◌↔◌, ◌⊎◌, inl, inr, sym, ap, ◌∙◌, ◌&&◌, is_empty, ltb, ◌==◌, Bool, true,
  false, List, [], ◌∷◌, length, arith,
}
use mathlib.Core.Bool.{false≢true}
use o_walkie.Types.{UdpAudioPacket}
use o_walkie.Wire.{
  keepalive_signal, keepalive_ack_signal, unpack, put_word, get_word, marker, is_keepalive_signal,
  is_keepalive_ack, is_tx_eof_marker,
}
use o_walkie.Wire.RoundTrip.{IsBytes, get_word-put_word, put_word-get_word}

-- The datagram of nine bytes with a session's number, a sequence number and a signal.
abbrev pub header : ℕ → ℕ → ℕ → List ℕ
header id seq signal = put_word id (put_word seq (signal ∷ []))

-- A datagram of nine bytes is such a header, and any other is no marker.
record IsHeader (buf : List ℕ) : Type 0 where
  id : ℕ
  seq : ℕ
  signal : ℕ
  id_word : id < 2 ^ 32
  seq_word : seq < 2 ^ 32
  same : buf ≡ header id seq signal

IsHeader-cases : (buf : List ℕ) → IsBytes buf → (length buf ≢ 9) ⊎ IsHeader buf
IsHeader-cases (a ∷ b ∷ c ∷ d ∷ e ∷ f ∷ g ∷ h ∷ s ∷ []) v = inr (record {
  id = get_word (a ∷ b ∷ c ∷ d ∷ []);
  seq = get_word (e ∷ f ∷ g ∷ h ∷ []);
  signal = s;
  id_word = omega arith;
  seq_word = omega arith;
  same = ground (
    arith,
    put_word-get_word a b c d (put_word (get_word (e ∷ f ∷ g ∷ h ∷ [])) (s ∷ [])),
    put_word-get_word e f g h (s ∷ []),
  );
})
IsHeader-cases _ v = inl (omega arith)

marker_ne : (test : UdpAudioPacket → Bool) (buf : List ℕ) → length buf ≢ 9 → marker test buf ≡ false
marker_ne test buf h = ground arith

abbrev header_packet : ℕ → ℕ → ℕ → UdpAudioPacket
header_packet id seq signal = record {
  session_id = id;
  sequence = seq;
  signal_strength = signal;
  opus = [];
}

marker-header :
    (test : UdpAudioPacket → Bool) (id seq signal : ℕ)
    → id < 2 ^ 32
    → seq < 2 ^ 32
    → marker test (header id seq signal) ≡ test (header_packet id seq signal)
unfolding unpack
marker-header test id seq signal h k =
    ground (
      arith,
      get_word-put_word id (put_word seq (signal ∷ [])),
      get_word-put_word seq (signal ∷ []),
    )

-- Each of the tests below accepts a header exactly if its numbers pass.
abbrev is_ack : ℕ → UdpAudioPacket → Bool
is_ack id p =
    p.session_id == id
    && p.sequence == 0
    && p.signal_strength == keepalive_ack_signal
    && is_empty p.opus

abbrev is_keepalive : UdpAudioPacket → Bool
is_keepalive p = p.sequence == 0 && p.signal_strength == keepalive_signal && is_empty p.opus

abbrev is_eof : UdpAudioPacket → Bool
is_eof p = ltb 0 p.sequence && p.signal_strength == 0 && is_empty p.opus

marker-true :
    (test : UdpAudioPacket → Bool) (buf : List ℕ)
    → IsBytes buf
    → marker test buf ≡ true
    → (h : IsHeader buf) × (test (header_packet h.id h.seq h.signal) ≡ true)
marker-true test buf v q = elim (IsHeader-cases buf v) [
  | inl n ↦ absurd (false≢true (sym (marker_ne test buf n) ∙ q))
  | inr h ↦ (
    h,
    sym (marker-header test h.id h.seq h.signal h.id_word h.seq_word)
        ∙ ap (marker test) (sym h.same)
        ∙ q,
  )
]

-- A datagram of bytes is taken for the acknowledgement of a session's keepalive, for a session
-- number of 32 bits, exactly if it is the session's number, the sequence number 0 and the signal
-- 254, and nothing else.
pub is_keepalive_ack_iff :
    (buf : List ℕ) (id : ℕ)
    → IsBytes buf
    → id < 2 ^ 32
    → (is_keepalive_ack buf id ≡ true) ↔ (buf ≡ header id 0 254)
unfolding is_keepalive_ack
is_keepalive_ack_iff buf id v r = (
  λ q. let (h, t) = marker-true (is_ack id) buf v q in ground (arith, h.same),
  λ q. rw q (ground (arith, marker-header (is_ack id) id 0 254 r (omega arith))),
)

-- A datagram of bytes is taken for a keepalive exactly if it is the header of some session with the
-- sequence number 0 and the signal 255, and nothing else.
pub is_keepalive_signal_iff :
    (buf : List ℕ)
    → IsBytes buf
    → (is_keepalive_signal buf ≡ true) ↔ ((id : ℕ) × (id < 2 ^ 32) × (buf ≡ header id 0 255))
unfolding is_keepalive_signal
is_keepalive_signal_iff buf v = (
  λ q. let (h, t) = marker-true is_keepalive buf v q in (h.id, h.id_word, ground (arith, h.same)),
  λ (id, r, q). rw q (ground (arith, marker-header is_keepalive id 0 255 r (omega arith))),
)

-- A datagram of bytes is taken for the end of a transmission exactly if it is the header of some
-- session with a sequence number above 0 and the signal 0, and nothing else.
pub is_tx_eof_marker_iff :
    (buf : List ℕ)
    → IsBytes buf
    → (is_tx_eof_marker buf ≡ true) ↔ (
        (id : ℕ) × (seq : ℕ) × (id < 2 ^ 32) × (0 < seq) × (seq < 2 ^ 32) × (buf ≡ header id seq 0))
unfolding is_tx_eof_marker
is_tx_eof_marker_iff buf v = (
  λ q.
      let (h, t) = marker-true is_eof buf v q in
      (h.id, h.seq, h.id_word, ground arith, h.seq_word, ground (arith, h.same)),
  λ (id, seq, r, k, l, q). rw q (ground (arith, marker-header is_eof id seq 0 r l)),
)

-- No datagram is taken for two of the three markers.
pub markers_disjoint :
    (buf : List ℕ) (id : ℕ)
    → ((is_keepalive_signal buf && is_keepalive_ack buf id) ≡ false)
      × ((is_keepalive_signal buf && is_tx_eof_marker buf) ≡ false)
      × ((is_keepalive_ack buf id && is_tx_eof_marker buf) ≡ false)
unfolding is_keepalive_signal is_keepalive_ack is_tx_eof_marker
markers_disjoint buf id = (ground arith, ground arith, ground arith)
