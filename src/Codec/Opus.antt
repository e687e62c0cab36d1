-- ===== src/Codec/Opus.antt =====
-- What opus_codec.cpp uses of libopus, a library outside the repository.
use o_walkie.Base.{ℕ, ℤ, Bool, List, Option, ◌≤◌, ◌≡◌, length, some}

-- OPUS_APPLICATION_AUDIO, OPUS_APPLICATION_RESTRICTED_LOWDELAY, OPUS_APPLICATION_VOIP
pub data Application : Type 0 where
  audio restricted_lowdelay voip : Application

-- `none` of a create call is an error code or a null pointer, and of the two coding calls a
-- negative result. The coders change their state on every call. Samples are int16_t.
pub record OpusLib : Type 1 where
  pub Encoder : Type 0
  pub Decoder : Type 0
  pub encoder_create : ℕ → Application → Option Encoder
  pub set_bitrate : Encoder → ℕ → Encoder
  pub set_complexity : Encoder → ℕ → Encoder
  pub set_inband_fec : Encoder → Bool → Encoder
  pub set_dtx : Encoder → Bool → Encoder
  pub decoder_create : ℕ → Option Decoder
  pub opus_encode : Encoder → List ℤ → Option (List ℕ) × Encoder
  pub opus_decode : Decoder → List ℕ → ℕ → Option (List ℤ) × Decoder

-- opus_encode writes at most the 512 bytes of the buffer that it is given.
abbrev pub IsBounded : OpusLib → Type 0
IsBounded lib =
    (e : lib.Encoder) (pcm : List ℤ) (out : List ℕ)
    → (lib.opus_encode e pcm).0 ≡ some out
    → length out ≤ 512
