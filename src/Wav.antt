-- ===== src/Wav.antt =====
-- ParseWavPcm of windows-client-cpp/src/AudioEngine.cpp: the samples of a mono WAV file of 16 bits.
-- A file is a list of bytes, and the bytes from an offset on are what is left of the list.
pub mod Canonical
mod Examples
use o_walkie.Base.{
  ℕ, zero, suc, ℤ, pos, negsuc, ◌+◌, ◌-◌, ◌*◌, ◌%◌, Bool, true, false, not, ◌&&◌, ◌||◌, List, [],
  ◌∷◌, length, take, drop, Option, none, some, leb, ltb, ◌==◌, if◌then◌else◌,
}
use o_walkie.Wire.{byte_at}

-- struct WavPcm
pub record WavPcm : Type 0 where
  pub samples : List ℤ
  pub sample_rate : ℤ

-- WavPcm{}
abbrev pub no_pcm : WavPcm
no_pcm = record { samples = []; sample_rate = pos 0 }

-- A word of w as a signed one, for half of its range.
abbrev pub signed : ℕ → ℕ → ℤ
signed half w = if ltb w half then pos w else negsuc (half + half - 1 - w)

-- int32_t ReadLeI32(const uint8_t* p)
abbrev pub read_le_i32 : List ℕ → ℤ
read_le_i32 p =
    signed 2147483648
      (byte_at p 0 + byte_at p 1 * 256 + byte_at p 2 * 65536 + byte_at p 3 * 16777216)

-- int16_t ReadLeI16(const uint8_t* p)
abbrev pub read_le_i16 : List ℕ → ℤ
read_le_i16 p = signed 32768 (byte_at p 0 + byte_at p 1 * 256)

-- std::memcmp(p, tag, 4) == 0
abbrev pub has_tag : ℕ → ℕ → ℕ → ℕ → List ℕ → Bool
has_tag a b c d p = byte_at p 0 == a && byte_at p 1 == b && byte_at p 2 == c && byte_at p 3 == d

-- What the walk over the chunks has found; `data` is the payload of the data chunk.
pub record Found : Type 0 where
  pub sample_rate : ℤ
  pub channels : ℤ
  pub bits : ℤ
  pub payload : List ℕ

abbrev pub nothing_found : Found
nothing_found = record { sample_rate = pos 0; channels = pos 0; bits = pos 0; payload = [] }

abbrev pub format_of : List ℕ → Found → Found
format_of p found = record found {
  channels = read_le_i16 (drop 2 p);
  sample_rate = read_le_i32 (drop 4 p);
  bits = read_le_i16 (drop 14 p);
}

abbrev is_one : ℤ → Bool
is_one (pos n) = n == 1
is_one (negsuc n) = false

-- The walk over the chunks, a chunk for each unit of fuel; none is a format that is not PCM.
unfoldable pub walk : ℕ → List ℕ → Found → Option Found
walk zero rest found = some found
walk (suc fuel) rest found =
    let payload = drop 8 rest in
    elim (read_le_i32 (drop 4 rest)) [
      | negsuc n ↦ some found
      | pos size ↦
          let next = drop (size + size % 2) payload in
          let skipped = walk fuel next found in
          let formatted = walk fuel next (format_of payload found) in
          if ltb (length rest) 8 || ltb (length payload) size
          then some found
          else if has_tag b'f' b'm' b't' b' ' rest && leb 16 size
          then (if not (is_one (read_le_i16 payload)) then none else formatted)
          else if has_tag b'd' b'a' b't' b'a' rest
          then some (record found { payload = take size payload })
          else skipped
    ]

-- The samples of a payload, a last odd byte left out.
pub samples_of : List ℕ → List ℤ
samples_of (a ∷ b ∷ rest) = read_le_i16 (a ∷ b ∷ []) ∷ samples_of rest
samples_of _ = []

abbrev pub is_positive : ℤ → Bool
is_positive (pos n) = ltb 0 n
is_positive (negsuc n) = false

abbrev pub is_sixteen : ℤ → Bool
is_sixteen (pos n) = n == 16
is_sixteen (negsuc n) = false

-- The tests after the walk.
unfoldable pub decoded : Option Found → WavPcm
decoded none = no_pcm
decoded (some found) =
    if not (is_positive found.sample_rate)
      || not (is_one found.channels)
      || not (is_sixteen found.bits)
      || ltb (length found.payload) 2
    then no_pcm
    else record { samples = samples_of found.payload; sample_rate = found.sample_rate }

-- WavPcm ParseWavPcm(const std::vector<uint8_t>& bytes)
unfoldable pub parse_wav_pcm : List ℕ → WavPcm
parse_wav_pcm bytes =
    let found = walk (suc (length bytes)) (drop 12 bytes) nothing_found in
    if ltb (length bytes) 44
    then no_pcm
    else if not (has_tag b'R' b'I' b'F' b'F' bytes)
        || not (has_tag b'W' b'A' b'V' b'E' (drop 8 bytes))
    then no_pcm
    else decoded found
