-- ===== src/LinkSignal/Combined.antt =====
-- What the byte of an audio datagram says of the reports made so far (link_signal.cpp).
use o_walkie.Base.{
  ℕ, ℤ, pos, negsuc, ◌≤◌, ◌≡◌, ◌≢◌, refl, Bool, true, false, List, [], ◌∷◌, Option, none, some, ltb,
  max, ◌==◌, if◌then◌else◌, arith,
}
use o_walkie.LinkSignal.{
  Mode, Registry, new_registry, report, clear, combined_byte, wifi_rssi_to_byte, cell_level_to_byte,
}
use o_walkie.LinkSignal.Levels.{wifi_rssi_to_byte-le, cell_level_to_byte-le}

-- A call of the registry, and the registry after a history of calls, the newest first.
pub data Call : Type 0 where
  reports : Mode → ℤ → Call
  clears : Mode → Call

abbrev pub step : Registry → Call → Registry
step r (reports m v) = (report r m v).0
step r (clears m) = (clear r m).0

pub after : List Call → Registry
after [] = new_registry
after (c ∷ h) = step (after h) c

-- The byte of the latest report that was neither refused nor cleared since.
abbrev pub latest_wifi : List Call → Option ℕ
latest_wifi [] = none
latest_wifi (reports Mode.wifi v ∷ h) = some (wifi_rssi_to_byte v)
latest_wifi (reports Mode.cell v ∷ h) = latest_wifi h
latest_wifi (clears Mode.wifi ∷ h) = none
latest_wifi (clears Mode.cell ∷ h) = latest_wifi h

abbrev pub latest_cell : List Call → Option ℕ
latest_cell [] = none
latest_cell (reports Mode.wifi v ∷ h) = latest_cell h
latest_cell (reports Mode.cell (pos n) ∷ h) =
    if ltb 4 n then latest_cell h else some (cell_level_to_byte (pos n))
latest_cell (reports Mode.cell (negsuc n) ∷ h) = latest_cell h
latest_cell (clears Mode.wifi ∷ h) = latest_cell h
latest_cell (clears Mode.cell ∷ h) = none

-- 254 would make an audio datagram look like an acknowledgement.
abbrev shown : ℕ → ℕ
shown b = if b == 254 then 255 else b

abbrev pub strongest : Option ℕ → Option ℕ → ℕ
strongest none none = 255
strongest (some w) none = shown w
strongest none (some c) = shown c
strongest (some w) (some c) = shown (max w c)

-- The registry's fields hold the latest reports.
abbrev Holds : Bool → ℕ → Option ℕ → Type 0
Holds true b o = o ≡ some b
Holds false b o = o ≡ none

record Tracks (h : List Call) (r : Registry) : Type 0 where
  wifi_held : Holds r.wifi_valid r.wifi_byte (latest_wifi h)
  cell_held : Holds r.cell_valid r.cell_byte (latest_cell h)

step-Tracks : (h : List Call) (r : Registry) (c : Call) → Tracks h r → Tracks (c ∷ h) (step r c)
unfolding report clear
step-Tracks h r (reports Mode.wifi v) t = record { wifi_held = refl; cell_held = t.cell_held }
step-Tracks h r (reports Mode.cell (pos n)) t = ground arith
step-Tracks h r (reports Mode.cell (negsuc n)) t = record {
  wifi_held = t.wifi_held;
  cell_held = t.cell_held;
}
step-Tracks h r (clears Mode.wifi) t = record { wifi_held = refl; cell_held = t.cell_held }
step-Tracks h r (clears Mode.cell) t = record { wifi_held = t.wifi_held; cell_held = refl }

after-Tracks : (h : List Call) → Tracks h (after h)
unfolding after
after-Tracks [] = record { wifi_held = refl; cell_held = refl }
after-Tracks (c ∷ h) = step-Tracks h (after h) c (after-Tracks h)

combined_byte-Tracks :
    (h : List Call) (r : Registry)
    → Tracks h r
    → combined_byte r ≡ strongest (latest_wifi h) (latest_cell h)
unfolding combined_byte
combined_byte-Tracks h r t = ground arith

-- After any history of calls the byte is the larger one of the two sources' latest reports that
-- were neither refused nor cleared since, 255 where there is none, and 255 in place of 254.
pub combined_byte-after :
    (h : List Call) → combined_byte (after h) ≡ strongest (latest_wifi h) (latest_cell h)
combined_byte-after h = combined_byte-Tracks h (after h) (after-Tracks h)

latest_wifi-le : (h : List Call) (b : ℕ) → latest_wifi h ≡ some b → b ≤ 255
latest_wifi-le [] b e = cc
latest_wifi-le (reports Mode.wifi v ∷ h) b e = ground (arith, wifi_rssi_to_byte-le v)
latest_wifi-le (reports Mode.cell v ∷ h) b e = latest_wifi-le h b e
latest_wifi-le (clears Mode.wifi ∷ h) b e = cc
latest_wifi-le (clears Mode.cell ∷ h) b e = latest_wifi-le h b e

latest_cell-le : (h : List Call) (b : ℕ) → latest_cell h ≡ some b → b ≤ 255
latest_cell-le [] b e = cc
latest_cell-le (reports Mode.wifi v ∷ h) b e = latest_cell-le h b e
latest_cell-le (reports Mode.cell (pos n) ∷ h) b e =
    ground (arith, cell_level_to_byte-le (pos n), latest_cell-le h b)
latest_cell-le (reports Mode.cell (negsuc n) ∷ h) b e = latest_cell-le h b e
latest_cell-le (clears Mode.wifi ∷ h) b e = latest_cell-le h b e
latest_cell-le (clears Mode.cell ∷ h) b e = cc

strongest-le :
    (w c : Option ℕ)
    → ((b : ℕ) → w ≡ some b → b ≤ 255)
    → ((b : ℕ) → c ≡ some b → b ≤ 255)
    → (strongest w c ≤ 255) × (strongest w c ≢ 254)
strongest-le none none hw hc = ground arith
strongest-le (some w) none hw hc = ground (arith, hw w refl)
strongest-le none (some c) hw hc = ground (arith, hc c refl)
strongest-le (some w) (some c) hw hc = ground (arith, hw w refl, hc c refl)

-- After any history of calls the byte fits the datagram's field, and is not the signal 254 of an
-- acknowledgement.
pub combined_byte_bounds :
    (h : List Call) → (combined_byte (after h) ≤ 255) × (combined_byte (after h) ≢ 254)
combined_byte_bounds h = ground (
  arith,
  combined_byte-after h,
  strongest-le (latest_wifi h) (latest_cell h) (latest_wifi-le h) (latest_cell-le h),
)
