-- ===== src/Protocol/Examples.antt =====
-- The audio parameters of protocol.cpp at concrete values.
use o_walkie.Base.{pos, negsuc, ◌≡◌, refl}
use o_walkie.Protocol.{normalize_sample_rate, frame_samples}

forty_ms_frame : frame_samples (pos 12000) (pos 40) ≡ 480
unfolding frame_samples
forty_ms_frame = refl

odd_rate : normalize_sample_rate (pos 44100) ≡ 8000
unfolding normalize_sample_rate
odd_rate = refl

negative_duration : frame_samples (pos 8000) (negsuc 19) ≡ 0
unfolding frame_samples
negative_duration = refl
