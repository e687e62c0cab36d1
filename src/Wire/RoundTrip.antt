-- ===== src/Wire/RoundTrip.antt =====
-- Packing and unpacking of audio datagrams are inverse (udp.cpp).
use o_walkie.Base.{ℕ, ◌^◌, ◌≤◌, ◌<◌, ◌≡◌, List, [], ◌∷◌, length, All, arith}
use o_walkie.Types.{success, failure, invalid_arg, UdpAudioPacket, ◌>>=◌}
use o_walkie.Wire.{pack, unpack, put_word, get_word}

-- The ranges of the packet's machine types.
pub record IsPacket (p : UdpAudioPacket) : Type 0 where
  pub session_word : p.session_id < 2 ^ 32
  pub sequence_word : p.sequence < 2 ^ 32
  pub signal_byte : p.signal_strength < 256

abbrev pub IsBytes : List ℕ → Type 0
IsBytes = All (λ b. b < 256)

pub get_word-put_word : (x : ℕ) (rest : List ℕ) → x < 2 ^ 32 → get_word (put_word x rest) ≡ x
get_word-put_word x rest h = omega arith

pub put_word-get_word :
    (a b c d : ℕ) (rest : List ℕ)
    → a < 256
    → b < 256
    → c < 256
    → d < 256
    → put_word (get_word (a ∷ b ∷ c ∷ d ∷ rest)) rest ≡ a ∷ b ∷ c ∷ d ∷ rest
put_word-get_word a b c d rest ha hb hc hd = ground arith

-- A packet of at most 65535 Opus bytes, whose other fields fit their machine types, is packed, and
-- unpacking the datagram gives it back.
pub unpack-pack :
    (p : UdpAudioPacket) → IsPacket p → length p.opus ≤ 65535 → (pack p >>= unpack) ≡ success p
unfolding pack unpack
unpack-pack p w h = ground (
  arith,
  get_word-put_word p.session_id (put_word p.sequence (p.signal_strength ∷ p.opus)),
  get_word-put_word p.sequence (p.signal_strength ∷ p.opus),
)

-- A packet of more than 65535 Opus bytes is refused.
pub pack_too_long : (p : UdpAudioPacket) → 65535 < length p.opus → pack p ≡ failure invalid_arg
unfolding pack
pack_too_long p h = ground arith

-- A datagram of 9 to 65544 bytes is unpacked, and packing the packet gives the datagram back.
pub pack-unpack :
    (buf : List ℕ)
    → IsBytes buf
    → 9 ≤ length buf
    → length buf ≤ 65544
    → (unpack buf >>= pack) ≡ success buf
unfolding pack unpack
pack-unpack (a ∷ b ∷ c ∷ d ∷ e ∷ f ∷ g ∷ h ∷ s ∷ opus) v lo hi = ground (
  arith,
  put_word-get_word a b c d (put_word (get_word (e ∷ f ∷ g ∷ h ∷ [])) (s ∷ opus)),
  put_word-get_word e f g h (s ∷ opus),
)
pack-unpack _ v lo hi = absurd (omega arith)
