-- ===== src/Wire.antt =====
-- owalkie-core/src/udp.cpp: the datagrams of the audio plane, as lists of bytes.
pub mod RoundTrip
pub mod Markers
mod Examples
use o_walkie.Base.{
  ℕ, zero, suc, ◌+◌, ◌*◌, ◌/◌, ◌%◌, ◌^◌, Bool, false, ◌&&◌, List, [], ◌∷◌, ◌++◌, length, drop,
  is_empty, ltb, ◌==◌, if◌then◌else◌,
}
use o_walkie.Types.{Outcome, success, failure, invalid_arg, UdpAudioPacket}

-- kKeepaliveSignal, kKeepaliveAckSignal, kDefaultTxSignalStrength
abbrev pub keepalive_signal : ℕ
keepalive_signal = 255

abbrev pub keepalive_ack_signal : ℕ
keepalive_ack_signal = 254

abbrev pub default_tx_signal_strength : ℕ
default_tx_signal_strength = 255

-- static_cast<uint8_t>((x >> k) & 0xFF) for k = 24, 16, 8, 0, in front of the rest
abbrev pub put_word : ℕ → List ℕ → List ℕ
put_word x rest = (x / 2 ^ 24) % 256 ∷ (x / 2 ^ 16) % 256 ∷ (x / 2 ^ 8) % 256 ∷ x % 256 ∷ rest

-- buf[i] inside the buffer
abbrev pub byte_at : List ℕ → ℕ → ℕ
byte_at [] i = 0
byte_at (b ∷ bs) zero = b
byte_at (b ∷ bs) (suc i) = byte_at bs i

-- (b0 << 24) | (b1 << 16) | (b2 << 8) | b3: the shifted bytes have no bit in common
abbrev pub get_word : List ℕ → ℕ
get_word bs = byte_at bs 0 * 2 ^ 24 + byte_at bs 1 * 2 ^ 16 + byte_at bs 2 * 2 ^ 8 + byte_at bs 3

-- Result pack(const UdpAudioPacket& packet, std::vector<uint8_t>& out)
unfoldable pub pack : UdpAudioPacket → Outcome (List ℕ)
pack p =
    if ltb 65535 (length p.opus)
    then failure invalid_arg
    else success (put_word p.session_id (put_word p.sequence (p.signal_strength ∷ p.opus)))

-- Result unpack(std::span<const uint8_t> buf, UdpAudioPacket& out)
unfoldable pub unpack : List ℕ → Outcome UdpAudioPacket
unpack buf =
    if ltb (length buf) 9
    then failure invalid_arg
    else success (record {
      session_id = get_word buf;
      sequence = get_word (drop 4 buf);
      signal_strength = byte_at buf 8;
      opus = drop 9 buf;
    })

-- The part that the three tests of a 9-byte datagram share.
abbrev pub marker : (UdpAudioPacket → Bool) → List ℕ → Bool
marker test buf =
    if length buf == 9 then elim (unpack buf) [ success p ↦ test p | failure r ↦ false ] else false

-- bool isKeepaliveSignal(std::span<const uint8_t> buf)
pub is_keepalive_signal : List ℕ → Bool
unfolding unpack
is_keepalive_signal =
    marker (λ p. p.sequence == 0 && p.signal_strength == keepalive_signal && is_empty p.opus)

-- bool isKeepaliveAck(std::span<const uint8_t> buf, uint32_t sessionId)
unfoldable pub is_keepalive_ack : List ℕ → ℕ → Bool
unfolding unpack
is_keepalive_ack buf session_id =
    marker
      (λ p.
        p.session_id == session_id
        && p.sequence == 0
        && p.signal_strength == keepalive_ack_signal
        && is_empty p.opus)
      buf

-- bool isTxEofMarker(std::span<const uint8_t> buf)
pub is_tx_eof_marker : List ℕ → Bool
unfolding unpack
is_tx_eof_marker = marker (λ p. ltb 0 p.sequence && p.signal_strength == 0 && is_empty p.opus)
