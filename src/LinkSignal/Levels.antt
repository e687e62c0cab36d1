-- ===== src/LinkSignal/Levels.antt =====
-- The two scales of link_signal.cpp, from a level to a byte.
use o_walkie.Base.{ℤ, pos, negsuc, ◌≤◌, arith}
use o_walkie.LinkSignal.{wifi_rssi_to_byte, cell_level_to_byte}

-- The order of the integers.
abbrev pub ◌≤ℤ◌ : ℤ → ℤ → Type 0
◌≤ℤ◌ (pos m) (pos n) = m ≤ n
◌≤ℤ◌ (pos m) (negsuc n) = ⊥
◌≤ℤ◌ (negsuc m) (pos n) = Unit {0}
◌≤ℤ◌ (negsuc m) (negsuc n) = n ≤ m

infix 50 ◌≤ℤ◌
pub wifi_rssi_to_byte-le : (i : ℤ) → wifi_rssi_to_byte i ≤ 255
unfolding wifi_rssi_to_byte
wifi_rssi_to_byte-le (pos n) = ground arith
wifi_rssi_to_byte-le (negsuc n) = ground arith

pub cell_level_to_byte-le : (i : ℤ) → cell_level_to_byte i ≤ 255
unfolding cell_level_to_byte
cell_level_to_byte-le i = ground arith

-- A stronger Wi-Fi signal never gives a smaller byte.
pub wifi_rssi_to_byte_mono : (i j : ℤ) → i ≤ℤ j → wifi_rssi_to_byte i ≤ wifi_rssi_to_byte j
unfolding wifi_rssi_to_byte
wifi_rssi_to_byte_mono (pos m) (pos n) h = omega arith
wifi_rssi_to_byte_mono (pos m) (negsuc n) h = absurd h
wifi_rssi_to_byte_mono (negsuc m) (pos n) h = ground arith
wifi_rssi_to_byte_mono (negsuc m) (negsuc n) h = ground arith

-- A higher cell level never gives a smaller byte.
pub cell_level_to_byte_mono : (i j : ℤ) → i ≤ℤ j → cell_level_to_byte i ≤ cell_level_to_byte j
unfolding cell_level_to_byte
cell_level_to_byte_mono (pos m) (pos n) h = ground arith
cell_level_to_byte_mono (pos m) (negsuc n) h = absurd h
cell_level_to_byte_mono (negsuc m) (pos n) h = ground arith
cell_level_to_byte_mono (negsuc m) (negsuc n) h = ground arith
