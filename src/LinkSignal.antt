-- ===== src/LinkSignal.antt =====
-- owalkie-core/src/link_signal.cpp: the uplink signal that every audio datagram carries.
-- The registry is one record, since each method holds the mutex for its whole body.
pub mod Levels
pub mod Combined
mod Examples
use o_walkie.Base.{
  ℕ, ℤ, pos, negsuc, ◌+◌, ◌-◌, ◌*◌, ◌/◌, Bool, true, false, ◌||◌, ltb, leb, clamp, max, ◌==◌,
  if◌then◌else◌,
}
use o_walkie.Types.{Result, ok, invalid_arg}
use o_walkie.Wire.{default_tx_signal_strength, keepalive_ack_signal}

-- enum class Mode
pub data Mode : Type 0 where
  wifi cell : Mode

-- kWifiMinRssiDbm is -100, kWifiMaxRssiDbm is -55 and kWifiLevels is 256. A level between them is
-- -d for 55 < d < 100, so the numerator is 100 - d. Its product with 255 and the denominator, 45,
-- are exact as floats, and the quotient lies a third or more above its floor if it is no whole
-- number, so that rounding it to a float and truncating gives the division of the numbers.
scaled_rssi : ℕ → ℕ
scaled_rssi d = clamp (pos ((100 - d) * 255 / 45)) 0 255

-- int wifiRssiToByte(int rssiDbm)
pub wifi_rssi_to_byte : ℤ → ℕ
unfolding scaled_rssi
wifi_rssi_to_byte (pos n) = 255
wifi_rssi_to_byte (negsuc n) =
    if leb 100 (n + 1) then 0 else if leb (n + 1) 55 then 255 else scaled_rssi (n + 1)

-- int cellLevelToByte(int level0to4)
pub cell_level_to_byte : ℤ → ℕ
cell_level_to_byte i = clamp (pos (clamp i 0 4 * 255 / 4)) 0 255

-- class Registry
pub record Registry : Type 0 where
  pub wifi_valid : Bool
  pub wifi_byte : ℕ
  pub cell_valid : Bool
  pub cell_byte : ℕ

abbrev pub new_registry : Registry
new_registry = record { wifi_valid = false; wifi_byte = 0; cell_valid = false; cell_byte = 0 }

report_cell : Registry → ℤ → Registry × Result
report_cell r (negsuc n) = (r, invalid_arg)
report_cell r (pos n) =
    if ltb 4 n
    then (r, invalid_arg)
    else (record r { cell_byte = cell_level_to_byte (pos n); cell_valid = true }, ok)

-- Result Registry::report(Mode mode, int value)
unfoldable pub report : Registry → Mode → ℤ → Registry × Result
unfolding report_cell
report r Mode.wifi value = (record r { wifi_byte = wifi_rssi_to_byte value; wifi_valid = true }, ok)
report r Mode.cell value = report_cell r value

-- Result Registry::clear(Mode mode)
unfoldable pub clear : Registry → Mode → Registry × Result
clear r Mode.wifi = (record r { wifi_valid = false; wifi_byte = 0 }, ok)
clear r Mode.cell = (record r { cell_valid = false; cell_byte = 0 }, ok)

-- int Registry::combinedByte() const
pub combined_byte : Registry → ℕ
combined_byte r =
    let with_wifi = if r.wifi_valid then r.wifi_byte else 0 in
    let combined =
      if r.cell_valid
      then (if r.wifi_valid then max with_wifi r.cell_byte else r.cell_byte)
      else with_wifi in
    if r.wifi_valid || r.cell_valid
    then (if combined == keepalive_ack_signal then default_tx_signal_strength else combined)
    else default_tx_signal_strength
