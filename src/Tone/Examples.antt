-- ===== src/Tone/Examples.antt =====
-- A tone pattern of signal.cpp with whole numbers in place of floating-point ones.
use o_walkie.Base.{true, ℕ, ◌≡◌, pos, [], ◌∷◌}
use o_walkie.Tone.Whole.{whole}
use o_walkie.Tone.{SignalPattern, generate_pcm}
use o_walkie.Tone.Client.{
  ClientPattern, generate_signal_pcm, library_pattern, generate_signal_pcm-generate_pcm,
}

-- A tone of one millisecond and a pause too short for a sample, twice, and a tail of a millisecond.
abbrev beep : SignalPattern ℕ
beep = record {
  points =
      record { freq_hz = 440; duration_ms = pos 1 }
      ∷ record { freq_hz = 0; duration_ms = pos 0 }
      ∷ [];
  tail_ms = pos 1;
  repeat_count = pos 2;
  gain = 1;
}

abbrev roger : ClientPattern ℕ
roger = record { points = beep.points; append_tail = true; repeat_count = pos 1 }

generate_signal_pcm-generate_pcm_example :
    generate_signal_pcm whole (pos 48000) roger
    ≡ generate_pcm whole (library_pattern whole roger) (pos 48000)
generate_signal_pcm-generate_pcm_example = generate_signal_pcm-generate_pcm whole (pos 48000) roger
