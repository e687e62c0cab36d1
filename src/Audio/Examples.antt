-- ===== src/Audio/Examples.antt =====
-- The audio engine at concrete values.
use o_walkie.Base.{
  ℕ, ℤ, ◌*◌, ◌/◌, ◌≡◌, refl, pos, negsuc, true, false, List, [], ◌∷◌, ◌++◌, length, All, max, ◌==◌,
  if◌then◌else◌, arith,
}
use o_walkie.Session.Transmit.Cut.{frames_of}
use o_walkie.Tone.Samples.{IsSample}
use o_walkie.Audio.{resample_linear}
use o_walkie.Audio.Engine.{Engine, new_engine, frame_samples, roger_pattern}
use o_walkie.Audio.Engine.Pump.{
  Work, captured, pumped, received, run, inputs, IsPumping, samples_of, run-IsPumping,
}
use o_walkie.Audio.Calls.{perform_all-IsSound}
use o_walkie.Audio.Calls.Signals.{
  Call, init, start, capture, receive, stop, send_roger, perform_all, IsSound,
}
use o_walkie.Audio.Stream.{stream_roger_signal}
use o_walkie.Audio.Stream.Frames.{at_engine_rate, until_asked, onto, stream_roger_signal-frames}
use o_walkie.Audio.Resampled.{length-resample_linear}
use o_walkie.Audio.Small.{small_audio, small_engine}

abbrev talking : Engine small_audio
talking = record small_engine { transmitting = true; capture_active = true; pump_running = true }

abbrev some_work : List (Work small_audio)
some_work =
    captured (pos 1 ∷ pos 2 ∷ negsuc 2 ∷ [])
    ∷ pumped 5
    ∷ received 7 true 100 (pos 1 ∷ [])
    ∷ captured (pos 4 ∷ [])
    ∷ pumped 9
    ∷ []

run-IsPumping_example :
    IsPumping small_audio 2 ([] ++ inputs small_audio some_work) (run small_audio some_work talking)
unfolding samples_of
run-IsPumping_example =
    run-IsPumping small_audio 2 [] some_work talking
      (record { on = refl; size = refl; all_samples = refl; frame_size = tt; level_range = tt })

abbrev some_calls : List (Call small_audio)
some_calls =
    init true
    ∷ start true true
    ∷ capture (pos 1 ∷ pos 2 ∷ [])
    ∷ receive 300 true 100 (pos 1 ∷ [])
    ∷ stop 400 true
    ∷ send_roger 500 (λ k. false)
    ∷ []

perform_all-IsSound_example :
    IsSound small_audio (perform_all small_audio some_calls (new_engine small_audio))
perform_all-IsSound_example = perform_all-IsSound small_audio some_calls

stream_roger_signal-frames_example :
    (let pcm = at_engine_rate small_audio (roger_pattern small_audio small_engine) small_engine in
      let (ok, fs) =
        until_asked (λ k. false) 0 (frames_of (frame_samples small_audio small_engine) pcm) in
      let (r, after) = stream_roger_signal small_audio 5 (λ k. false) small_engine in
      (r ≡ ok)
      × (after.frames ≡ onto fs small_engine.frames)
      × (after.signal_streaming ≡ false)
      × (after.transmitting ≡ small_engine.transmitting))
stream_roger_signal-frames_example =
    stream_roger_signal-frames small_audio 5 (λ k. false) small_engine refl refl (omega arith)

abbrev some_samples : List ℤ
some_samples = pos 1 ∷ pos 2 ∷ negsuc 2 ∷ []

abbrev low_rate : ℕ
low_rate = 3

abbrev high_rate : ℕ
high_rate = 6

length-resample_linear_example :
    (length (resample_linear small_audio some_samples low_rate high_rate) ≡ (
      if low_rate == high_rate
      then length some_samples
      else max 1 (length some_samples * high_rate / low_rate)))
    × All IsSample (resample_linear small_audio some_samples low_rate high_rate)
    × (low_rate ≡ high_rate
        → resample_linear small_audio some_samples low_rate high_rate ≡ some_samples)
length-resample_linear_example =
    length-resample_linear small_audio some_samples low_rate high_rate refl (omega arith)
      (omega arith) (ground arith)
