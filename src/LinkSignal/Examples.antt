-- ===== src/LinkSignal/Examples.antt =====
-- The signal registry of link_signal.cpp on a short history of calls.
use o_walkie.Base.{pos, negsuc, ◌≡◌, refl, List, [], ◌∷◌}
use o_walkie.LinkSignal.{Mode, combined_byte, wifi_rssi_to_byte}
use o_walkie.LinkSignal.Combined.{
  Call, reports, clears, after, latest_wifi, latest_cell, strongest, combined_byte-after,
}

-- Cell level 4 gives 255, which -80 dBm does not change; then the cell is cleared.
abbrev history : List Call
history =
    clears Mode.cell
    ∷ reports Mode.cell (pos 9)
    ∷ reports Mode.wifi (negsuc 79)
    ∷ reports Mode.cell (pos 4)
    ∷ []

history-strongest : strongest (latest_wifi history) (latest_cell history) ≡ 113
unfolding wifi_rssi_to_byte
history-strongest = refl

combined_byte-after_example :
    combined_byte (after history) ≡ strongest (latest_wifi history) (latest_cell history)
combined_byte-after_example = combined_byte-after history
