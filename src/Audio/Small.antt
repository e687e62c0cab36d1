-- ===== src/Audio/Small.antt =====
-- An audio library for the tests: whole numbers, and no files of sounds.
use o_walkie.Base.{[], true, to_nat}
use o_walkie.Tone.Whole.{whole}
use o_walkie.Audio.{AudioLib}
use o_walkie.Audio.Engine.{Engine, new_engine}

abbrev pub small_audio : AudioLib
small_audio = record {
  double = whole;
  of_signed = to_nat;
  truncate = λ n. n;
  read_binary = λ name. [];
}

-- An engine with frames of two samples.
abbrev pub small_engine : Engine small_audio
small_engine = record (new_engine small_audio) { context_ready = true; sample_rate = 100 }
