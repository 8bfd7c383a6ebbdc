-- ===== src/Model/Bitrate.antt =====
-- internal/model/bitrate.go: link speeds in bits per second and their text.
pub mod Parse
pub mod Digits
pub mod RoundTrip
use cablecheck.Base.{ℕ, ◌/◌, ◌%◌, ◌≡◌, refl, ◌&&◌, List, [], ◌∷◌, leb, ◌==◌, if◌then◌else◌}
use cablecheck.Base.Text.{String, ◌⧺◌, show_ℕ}

-- A bit rate is a uint64.
abbrev pub Bitrate : Type 0
Bitrate = ℕ

abbrev pub bitrate_units : List (ℕ × String)
bitrate_units = (1_000_000_000, "G") ∷ (1_000_000, "M") ∷ (1_000, "K") ∷ []

-- The loop of `String` over the units that are left.
unfoldable pub show_units : ℕ → List (ℕ × String) → String
show_units v [] = show_ℕ v
show_units v ((mult, suffix) ∷ units) =
    if v % mult == 0
    then show_ℕ (v / mult) ⧺ suffix
    else if leb mult v && v % (mult / 10) == 0
    then show_ℕ (v / mult) ⧺ ("." ⧺ (show_ℕ (v % mult / (mult / 10)) ⧺ suffix))
    else show_units v units

-- `Bitrate.String`.
unfoldable pub show_bitrate : Bitrate → String
unfolding show_units show_ℕ
show_bitrate v = if v == 0 then "0" else show_units v bitrate_units

show_bitrate_example : show_bitrate 2_500_000_000 ≡ "2.5G"
unfolding show_bitrate
show_bitrate_example = refl
