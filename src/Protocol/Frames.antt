-- ===== src/Protocol/Frames.antt =====
-- The frame sizes that the normalised parameters give (protocol.cpp).
use o_walkie.Base.{ℕ, ℤ, pos, negsuc, ◌*◌, ◌^◌, ◌≤◌, ◌<◌, ◌≡◌, ◌⊎◌, arith}
use o_walkie.Protocol.{normalize_sample_rate, normalize_packet_ms, frame_samples}

-- The sample rates and packet durations of the protocol.
abbrev pub IsRate : ℕ → Type 0
IsRate n = (n ≡ 8000) ⊎ (n ≡ 12000) ⊎ (n ≡ 16000) ⊎ (n ≡ 24000) ⊎ (n ≡ 48000)

abbrev pub IsDuration : ℕ → Type 0
IsDuration n = (n ≡ 10) ⊎ (n ≡ 20) ⊎ (n ≡ 40) ⊎ (n ≡ 60)

pub normalize_sample_rate-IsRate : (v : ℤ) → IsRate (normalize_sample_rate v)
unfolding normalize_sample_rate
normalize_sample_rate-IsRate (pos n) = ground arith
normalize_sample_rate-IsRate (negsuc n) = ground arith

pub normalize_packet_ms-IsDuration : (v : ℤ) → IsDuration (normalize_packet_ms v)
unfolding normalize_packet_ms
normalize_packet_ms-IsDuration (pos n) = ground arith
normalize_packet_ms-IsDuration (negsuc n) = ground arith

pub normalize_sample_rate_id : (n : ℕ) → IsRate n → normalize_sample_rate (pos n) ≡ n
unfolding normalize_sample_rate
normalize_sample_rate_id n h = ground arith

pub normalize_packet_ms_id : (n : ℕ) → IsDuration n → normalize_packet_ms (pos n) ≡ n
unfolding normalize_packet_ms
normalize_packet_ms_id n h = ground arith

-- Of a rate and a duration of the protocol a frame holds a whole number of samples, between 80
-- and 2880, and the product that the code divides stays below 2 ^ 31.
pub frame_samples_exact :
    (r ms : ℕ)
    → IsRate r
    → IsDuration ms
    → (frame_samples (pos r) (pos ms) * 1000 ≡ r * ms)
      × (80 ≤ frame_samples (pos r) (pos ms))
      × (frame_samples (pos r) (pos ms) ≤ 2880)
      × (r * ms < 2 ^ 31)
unfolding frame_samples
frame_samples_exact r ms hr hm = ground arith
