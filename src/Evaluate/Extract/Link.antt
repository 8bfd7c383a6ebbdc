-- ===== src/Evaluate/Extract/Link.antt =====
-- internal/evaluate/facts.go: link speeds and modes, duplex, link state and monitoring events. Text is
-- compared without regard to case; the words compared have ASCII letters that no other letter folds
-- to, so the case of ASCII letters is all that counts. Counts of list elements cannot wrap.
use Prim.Native.Char.{code}
use cablecheck.Base.{
  ℕ, suc, ◌+◌, ◌-◌, ◌*◌, ◌%◌, ◌^◌, Bool, true, false, not, ◌&&◌, ◌||◌, Option, none, some, List, [],
  ◌∷◌, is_empty, ltb, leb, ◌==◌, if◌then◌else◌,
}
use cablecheck.Base.Int.{ℤ, pos, pos_part, ltb_ℤ}
use cablecheck.Base.Text.{String, str_eq}
use cablecheck.Model.Bitrate.{Bitrate}
use cablecheck.Model.Report.{
  LinkSettings, LinkEndpoint, LinkSection, NicReport, MonitoringEvent, Report,
}

-- The code of a letter in lower case.
abbrev pub lower : ℕ → ℕ
lower c = if leb 65 c && leb c 90 then c + 32 else c

-- The text begins with the codes, without regard to case.
unfoldable pub begins : List ℕ → String → Bool
begins [] s = true
begins (w ∷ ws) String.[] = false
begins (w ∷ ws) (String.◌∷◌ c s) = lower (code c) == w && begins ws s

unfoldable pub contains : List ℕ → String → Bool
contains ws String.[] = is_empty ws
contains ws (String.◌∷◌ c s) = begins ws (String.◌∷◌ c s) || contains ws s

-- The text is the codes, without regard to case.
unfoldable pub equals : List ℕ → String → Bool
equals [] String.[] = true
equals [] (String.◌∷◌ c s) = false
equals (w ∷ ws) String.[] = false
equals (w ∷ ws) (String.◌∷◌ c s) = lower (code c) == w && equals ws s

abbrev pub base_word : List ℕ
base_word = 98 ∷ 97 ∷ 115 ∷ 101 ∷ []

abbrev pub half_word : List ℕ
half_word = 104 ∷ 97 ∷ 108 ∷ 102 ∷ []

-- A speed in Mb/s as a bit rate, on uint64; 0 if it is not positive.
abbrev pub mbps_rate : ℤ → Bitrate
mbps_rate speed = if ltb_ℤ (pos 0) speed then pos_part speed * 1_000_000 % 2 ^ 64 else 0

abbrev pub settings_speed : Option LinkSettings → Bitrate
settings_speed none = 0
settings_speed (some ls) = mbps_rate ls.speed_mbps

abbrev pub nic_speed : NicReport → Bitrate
nic_speed nic = mbps_rate nic.speed_mbps

-- The first that is not 0, or else the last.
unfoldable pub first_speed : List Bitrate → Bitrate → Bitrate
first_speed [] last = last
first_speed (s ∷ speeds) last = let rest = first_speed speeds last in if ltb 0 s then s else rest

abbrev pub link_speeds : Option LinkSection → List Bitrate
link_speeds none = []
link_speeds (some link) =
    settings_speed link.pc1.before
    ∷ settings_speed link.pc2.before
    ∷ settings_speed link.pc1.after
    ∷ settings_speed link.pc2.after
    ∷ []

-- The digits in front, as a number on uint64, whether there is one, and what is behind them.
unfoldable pub mode_digits : ℕ → Bool → String → ℕ × Bool × String
mode_digits n seen String.[] = (n, seen, String.[])
mode_digits n seen (String.◌∷◌ c s) =
    let rest = mode_digits ((n * 10 + (code c - 48)) % 2 ^ 64) true s in
    if leb 48 (code c) && leb (code c) 57 then rest else (n, seen, String.◌∷◌ c s)

unfoldable pub max_mode : ℕ → List String → ℕ
unfolding mode_digits
max_mode best [] = best
max_mode best (mode ∷ modes) =
    let (mbps, seen, rest) = mode_digits 0 false mode in
    max_mode
      (if not seen || not (contains base_word rest)
        then best
        else if ltb best mbps
        then mbps
        else best)
      modes

abbrev pub max_mode_speed : List String → Bitrate
max_mode_speed modes = max_mode 0 modes * 1_000_000 % 2 ^ 64

abbrev pub picked : Option LinkSettings → (LinkSettings → List String) → List String
picked none pick = []
picked (some ls) pick = pick ls

abbrev pub link_modes : LinkEndpoint → (LinkSettings → List String) → List String
link_modes ep pick =
    if is_empty (picked ep.before pick) then picked ep.after pick else picked ep.before pick

abbrev pub peer_speed : LinkSection → Bitrate
peer_speed link =
    let partner = max_mode_speed (link_modes link.pc1 (λ ls. ls.partner_modes)) in
    let advertised = max_mode_speed (link_modes link.pc2 (λ ls. ls.advertised_modes)) in
    let supported = max_mode_speed (link_modes link.pc2 (λ ls. ls.supported_modes)) in
    if not (partner == 0) then partner else if not (advertised == 0) then advertised else supported

abbrev pub expected_of : Option LinkSection → Bitrate
expected_of none = 0
expected_of (some link) =
    let local = max_mode_speed (link_modes link.pc1 (λ ls. ls.supported_modes)) in
    let peer = peer_speed link in
    if local == 0 || peer == 0 then 0 else if ltb local peer then local else peer

abbrev pub is_half : Option LinkSettings → Bool
is_half none = false
is_half (some ls) = equals half_word ls.duplex

abbrev pub any_half : Option LinkSection → Bool
any_half none = false
any_half (some link) =
    is_half link.pc1.before
    || (is_half link.pc1.after || (is_half link.pc2.before || is_half link.pc2.after))

abbrev pub is_down : Option LinkSettings → Bool
is_down none = false
is_down (some ls) = not ls.link_detected

abbrev pub up_at_end : Option LinkSection → Bool
up_at_end none = true
up_at_end (some link) = not (is_down link.pc1.after) && not (is_down link.pc2.after)

abbrev pub is_renegotiation : MonitoringEvent → Bool
is_renegotiation ev =
    not ev.self_inflicted
    && (str_eq ev.kind "renegotiation"
        || (str_eq ev.kind "speed_changed" || str_eq ev.kind "duplex_changed"))

abbrev pub is_carrier_change : MonitoringEvent → Bool
is_carrier_change ev =
    not ev.self_inflicted && (str_eq ev.kind "carrier_lost" || str_eq ev.kind "carrier_restored")

abbrev pub count : {A : Type 0} → (A → Bool) → List A → ℕ
count p [] = 0
count p (x ∷ xs) = if p x then suc (count p xs) else count p xs

unfoldable pub renegotiations : List MonitoringEvent → ℤ
renegotiations events = pos (count is_renegotiation events)

unfoldable pub monitor_carrier_transitions : List MonitoringEvent → ℕ
monitor_carrier_transitions events = count is_carrier_change events

-- A named interface without a driver.
abbrev pub virtual_nic : NicReport → Bool
virtual_nic nic = not (str_eq nic.name "") && str_eq nic.driver ""

module _ {F : Type 0} where
  unfoldable pub negotiated_speed : Report F → Bitrate
  negotiated_speed r =
      first_speed (link_speeds r.link)
        (if ltb 0 (nic_speed r.nic.pc1) then nic_speed r.nic.pc1 else nic_speed r.nic.pc2)

  unfoldable pub expected_speed : Report F → Bitrate
  expected_speed r = expected_of r.link

  unfoldable pub half_duplex : Report F → Bool
  half_duplex r =
      any_half r.link || (equals half_word r.nic.pc1.duplex || equals half_word r.nic.pc2.duplex)

  unfoldable pub link_up_at_end : Report F → Bool
  link_up_at_end r = up_at_end r.link
