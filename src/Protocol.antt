-- ===== src/Protocol.antt =====
-- owalkie-core/src/protocol.cpp: the audio parameters of a session, and the samples of a frame.
pub mod Frames
mod Examples
use o_walkie.Base.{ℕ, ℤ, pos, negsuc, ◌*◌, ◌/◌, ◌==◌, ◌||◌, if◌then◌else◌}

-- int normalizeSampleRate(int value)
pub normalize_sample_rate : ℤ → ℕ
normalize_sample_rate (pos n) =
    if n == 8000 || n == 12000 || n == 16000 || n == 24000 || n == 48000 then n else 8000
normalize_sample_rate (negsuc n) = 8000

-- int normalizePacketMs(int value)
pub normalize_packet_ms : ℤ → ℕ
normalize_packet_ms (pos n) = if n == 10 || n == 20 || n == 40 || n == 60 then n else 20
normalize_packet_ms (negsuc n) = 20

-- int frameSamples(int sampleRate, int packetMs), where the product fits an int
pub frame_samples : ℤ → ℤ → ℕ
frame_samples (pos r) (pos ms) = if r == 0 || ms == 0 then 0 else (r * ms) / 1000
frame_samples _ _ = 0
