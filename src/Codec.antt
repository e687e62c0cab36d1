-- ===== src/Codec.antt =====
-- owalkie-core/src/opus_codec.cpp: the encoder and decoder of a session, over a parameter for libopus.
pub mod Opus
pub mod Frames
use Prim.Native.String.{String}
use text.Mathlib.Text.{◌==◌ as str_eq}
use o_walkie.Base.{ℕ, ℤ, pos, Bool, not, List, Option, none, some, length, ◌==◌, if◌then◌else◌}
use o_walkie.Types.{
  Result, ok, invalid_arg, internal, Outcome, success, failure, WelcomeConfig, OpusConfig,
}
use o_walkie.Protocol.{frame_samples}
use Opus.{OpusLib, Application}

-- int mapApplication(const std::string& app)
map_application : String → Application
map_application app =
    if str_eq app "audio"
    then Application.audio
    else if str_eq app "lowdelay"
    then Application.restricted_lowdelay
    else Application.voip

-- class OpusCodec, with null pointers as none
pub record Codec (Encoder Decoder : Type 0) : Type 0 where
  pub encoder : Option Encoder
  pub decoder : Option Decoder
  pub sample_rate : ℕ
  pub frame_size : ℕ

module _ (lib : OpusLib) where
  open lib use {
    Encoder, Decoder, encoder_create, set_bitrate, set_complexity, set_inband_fec, set_dtx,
    decoder_create, opus_encode, opus_decode,
  }

  abbrev pub OpusCodec : Type 0
  OpusCodec = Codec Encoder Decoder

  -- OpusCodec{}
  abbrev pub new_codec : OpusCodec
  new_codec = record { encoder = none; decoder = none; sample_rate = 8000; frame_size = 0 }

  -- void OpusCodec::reset()
  unfoldable pub reset : OpusCodec → OpusCodec
  reset c = record c { encoder = none; decoder = none; frame_size = 0 }

  tune : OpusConfig → Encoder → Encoder
  tune o e =
      set_dtx (set_inband_fec (set_complexity (set_bitrate e o.bitrate) o.complexity) o.fec) o.dtx

  create_decoder : OpusCodec → Result × OpusCodec
  create_decoder c = elim (decoder_create c.sample_rate) [
    | none ↦ (internal, record c { decoder = none })
    | some d ↦ (ok, record c { decoder = some d })
  ]

  create_encoder : OpusCodec → OpusConfig → Result × OpusCodec
  create_encoder c o = elim (encoder_create c.sample_rate (map_application o.application)) [
    | none ↦ (internal, record c { encoder = none })
    | some e ↦ create_decoder (record c { encoder = some (tune o e) })
  ]

  -- Result OpusCodec::configure(const WelcomeConfig& config)
  pub configure : OpusCodec → WelcomeConfig → Result × OpusCodec
  configure c cfg =
      let sized = record (reset c) {
        sample_rate = cfg.sample_rate;
        frame_size = frame_samples (pos cfg.sample_rate) (pos cfg.packet_ms);
      } in
      if sized.frame_size == 0 then (invalid_arg, sized) else create_encoder sized cfg.opus

  encode_with : OpusCodec → Encoder → List ℤ → Outcome (List ℕ) × OpusCodec
  encode_with c e pcm =
      let (bytes, e') = opus_encode e pcm in
      let c' = record c { encoder = some e' } in
      elim bytes [ none ↦ (failure internal, c') | some out ↦ (success out, c') ]

  -- Result OpusCodec::encode(std::span<const int16_t> pcm, std::vector<uint8_t>& out)
  pub encode : OpusCodec → List ℤ → Outcome (List ℕ) × OpusCodec
  encode c pcm = elim c.encoder [
    | none ↦ (failure invalid_arg, c)
    | some e ↦
        if not (length pcm == c.frame_size) then (failure invalid_arg, c) else encode_with c e pcm
  ]

  decode_with : OpusCodec → Decoder → List ℕ → ℕ → Outcome (List ℤ) × OpusCodec
  decode_with c d bytes frame =
      let (pcm, d') = opus_decode d bytes frame in
      let c' = record c { decoder = some d' } in
      elim pcm [ none ↦ (failure internal, c') | some out ↦ (success out, c') ]

  -- Result OpusCodec::decode(std::span<const uint8_t> opus, int frameSamples, std::vector<int16_t>& out)
  pub decode : OpusCodec → List ℕ → ℕ → Outcome (List ℤ) × OpusCodec
  decode c bytes frame = elim c.decoder [
    | none ↦ (failure invalid_arg, c)
    | some d ↦ if frame == 0 then (failure invalid_arg, c) else decode_with c d bytes frame
  ]
