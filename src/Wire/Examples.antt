-- ===== src/Wire/Examples.antt =====
-- Datagrams of udp.cpp at concrete values.
use o_walkie.Base.{ℕ, ◌≡◌, refl, true, List, [], ◌∷◌, replicate, length-replicate, arith}
use o_walkie.Types.{UdpAudioPacket, success, failure, invalid_arg, ◌>>=◌}
use o_walkie.Wire.{pack, unpack, is_tx_eof_marker}
use o_walkie.Wire.RoundTrip.{unpack-pack, pack_too_long}

abbrev packet : UdpAudioPacket
packet = record {
  session_id = 305419896;
  sequence = 4294967295;
  signal_strength = 200;
  opus = 1 ∷ 2 ∷ 255 ∷ [];
}

abbrev bytes : List ℕ
bytes = 18 ∷ 52 ∷ 86 ∷ 120 ∷ 255 ∷ 255 ∷ 255 ∷ 255 ∷ 200 ∷ 1 ∷ 2 ∷ 255 ∷ []

packed_bytes : pack packet ≡ success bytes
unfolding pack
packed_bytes = refl

unpack-pack_example : (pack packet >>= unpack) ≡ success packet
unpack-pack_example =
    unpack-pack packet
      (record {
        session_word = omega arith;
        sequence_word = omega arith;
        signal_byte = omega arith;
      })
      (omega arith)

abbrev long_packet : UdpAudioPacket
long_packet = record packet { opus = replicate 65536 0 }

pack_too_long_example : pack long_packet ≡ failure invalid_arg
pack_too_long_example = pack_too_long long_packet (omega (arith, length-replicate {A = ℕ} 65536 0))

abbrev ack : List ℕ
ack = 18 ∷ 52 ∷ 86 ∷ 120 ∷ 0 ∷ 0 ∷ 0 ∷ 0 ∷ 254 ∷ []

abbrev eof : List ℕ
eof = 18 ∷ 52 ∷ 86 ∷ 120 ∷ 0 ∷ 0 ∷ 1 ∷ 0 ∷ 0 ∷ []

eof_accepted : is_tx_eof_marker eof ≡ true
unfolding is_tx_eof_marker
eof_accepted = refl
