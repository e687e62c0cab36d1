-- ===== src/Messages/Welcome.antt =====
-- What an accepted welcome message guarantees (parseWelcome of json.cpp).
use Prim.Native.String.{String}
use o_walkie.Base.{ℤ, ◌≤◌, ◌≡◌, some, clamp_bounds, eq_ℤ→≡, arith}
use o_walkie.Types.{WelcomeConfig, OpusConfig, success}
use o_walkie.Protocol.Frames.{
  IsRate, IsDuration, normalize_sample_rate-IsRate, normalize_packet_ms-IsDuration,
}
use o_walkie.Messages.Json.{JsonLib}
use o_walkie.Messages.{parse_welcome, read_welcome, read_opus, opus_config, check_welcome}

pub record IsOpus (o : OpusConfig) : Type 0 where
  pub bitrate_low : 6000 ≤ o.bitrate
  pub bitrate_high : o.bitrate ≤ 510000
  pub complexity_high : o.complexity ≤ 10

pub record IsWelcome (required : ℤ) (cfg : WelcomeConfig) : Type 0 where
  pub version : cfg.protocol_version ≡ required
  pub rate : IsRate cfg.sample_rate
  pub duration : IsDuration cfg.packet_ms
  pub opus_range : IsOpus cfg.opus

module _ (lib : JsonLib) where
  open lib use {Json}

  read_opus-IsOpus : (j : Json) (o : OpusConfig) → read_opus lib j ≡ some o → IsOpus o
  unfolding read_opus
  read_opus-IsOpus j o e = grind (arith, clamp_bounds)

  opus_config-IsOpus : (root : Json) (o : OpusConfig) → opus_config lib root ≡ some o → IsOpus o
  unfolding opus_config
  opus_config-IsOpus root o e = ground (arith, read_opus-IsOpus (lib.member root "opus") o)

  read_welcome-IsWelcome :
      (root : Json) (v : ℤ) (cfg : WelcomeConfig)
      → read_welcome lib root v ≡ some cfg
      → IsWelcome v cfg
  unfolding read_welcome
  read_welcome-IsWelcome root v cfg e =
      grind
        (arith, opus_config-IsOpus, normalize_sample_rate-IsRate, normalize_packet_ms-IsDuration)

  check_welcome-IsWelcome :
      (root : Json) (required v : ℤ) (cfg : WelcomeConfig)
      → check_welcome lib root required v ≡ some (success cfg)
      → IsWelcome required cfg
  unfolding check_welcome
  check_welcome-IsWelcome root required v cfg e =
      ground (arith, eq_ℤ→≡ v required, read_welcome-IsWelcome root v cfg)

  -- A welcome message that is accepted names the required protocol version, and its settings lie in
  -- the ranges of the protocol, whatever numbers the message holds: the sample rate and the packet
  -- duration are among the supported ones, the bitrate lies between 6000 and 510000, the
  -- complexity is at most 10.
  pub parse_welcome-IsWelcome :
      (text : String) (required : ℤ) (cfg : WelcomeConfig)
      → parse_welcome lib text required ≡ success cfg
      → IsWelcome required cfg
  unfolding parse_welcome
  parse_welcome-IsWelcome text required cfg e = grind (arith, check_welcome-IsWelcome)
