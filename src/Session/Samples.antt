-- ===== src/Session/Samples.antt =====
-- A JSON library, an Opus library and surroundings for the tests.
use Prim.Native.String.{String}
use o_walkie.Base.{if◌then◌else◌, ℕ, suc, pos, ◌+◌, ◌*◌, false, [], ◌∷◌, some}
use o_walkie.Messages.Json.{JsonLib}
use o_walkie.Codec.Opus.{OpusLib}
use text.Mathlib.Text.{◌==◌ as str_eq}
use o_walkie.Session.State.{Env}

-- A JSON library in which a text is a message of the type that it names, and a welcome has version
-- 2 and session 7.
abbrev pub small_json : JsonLib
small_json = record {
  Json = String;
  parse = λ text. some text;
  dump = λ j. j;
  contains = λ j key. str_eq key "sampleRate";
  member = λ j key. j;
  is_null = λ j. false;
  is_object = λ j. false;
  value_int = λ j key n. if str_eq key "protocolVersion" then some (pos 2) else some n;
  value_unsigned = λ j key n. some 7;
  value_bool = λ j key b. some b;
  value_string = λ j key text. if str_eq key "type" then some j else some text;
  object = λ fields. "object";
  of_string = λ text. text;
  of_int = λ n. "int";
  of_bool = λ b. "bool";
}

-- Coders that count their frames, and an encoder that writes the count.
abbrev pub counting_opus : OpusLib
counting_opus = record {
  Encoder = ℕ;
  Decoder = ℕ;
  encoder_create = λ rate app. some 0;
  set_bitrate = λ e n. e;
  set_complexity = λ e n. e;
  set_inband_fec = λ e b. e;
  set_dtx = λ e b. e;
  decoder_create = λ rate. some 0;
  opus_encode = λ e pcm. (some (e ∷ []), suc e);
  opus_decode = λ d bytes frame. (some [], suc d);
}

-- Each reading of the clock is 20 seconds after the one before.
abbrev pub slow : Env
slow = record {
  json = small_json;
  opus = counting_opus;
  clock = λ k. (k + 1) * 20000000000;
  halts = λ k. false;
  bind = λ k. some (pos 40000);
}
