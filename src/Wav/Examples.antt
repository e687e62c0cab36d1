-- ===== src/Wav/Examples.antt =====
-- A WAV file of AudioEngine.cpp with three samples.
use o_walkie.Base.{◌≡◌, pos, negsuc, List, [], ◌∷◌, ℤ, arith}
use o_walkie.Wav.{parse_wav_pcm}
use o_walkie.Wav.Canonical.{canonical, parse_wav_pcm-canonical}

abbrev three : List ℤ
three = pos 1 ∷ negsuc 299 ∷ pos 32767 ∷ []

parse_wav_pcm-canonical_example :
    parse_wav_pcm (canonical 42 44100 88200 three)
    ≡ record { samples = three; sample_rate = pos 44100 }
parse_wav_pcm-canonical_example =
    parse_wav_pcm-canonical 42 44100 88200 three (omega arith, (omega arith, (omega arith, tt)))
      (omega arith) (omega arith) (omega arith) (omega arith)
