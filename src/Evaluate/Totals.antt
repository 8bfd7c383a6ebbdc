-- ===== src/Evaluate/Totals.antt =====
-- internal/evaluate/rules.go and facts.go: the counter totals and conditions that rules share.
use cablecheck.Base.{ℕ, Bool, true, false, ◌&&◌, ◌||◌, List, [], ◌∷◌, ◌++◌, ltb, if◌then◌else◌}
use cablecheck.Base.Int.{ℤ, pos, max_ℤ, ltb_ℤ, add_int, sub_int, add_u64}
use cablecheck.Base.Text.{String, ◌⧺◌, show_ℕ}
use cablecheck.Float64.{Float64, of_ℕ}
use cablecheck.Model.{Category, Severity, Finding, sev_lt}
use cablecheck.Evaluate.Facts.{SideFacts, Facts}

-- A finding that is not host-sensitive.
abbrev pub finding : String → Category → Severity → String → List String → Finding
finding id category severity text evidence = record {
  rule_id = id;
  category = category;
  severity = severity;
  text = text;
  evidence = evidence;
  host_sensitive = false;
}

-- `if sev > worst { worst = sev }`.
abbrev pub raise : Severity → Severity → Severity
raise worst sev = if sev_lt worst sev then sev else worst

abbrev worse_side : SideFacts → ℕ → ℕ
worse_side side worst =
    if side.delta_ok && ltb worst side.carrier_events then side.carrier_events else worst

crc_side : String → SideFacts → List String
crc_side name side =
    if side.delta_ok
    then (if ltb 0 side.crc_class_errors
        then (name
            ⧺ (": CRC-class error counters +"
                ⧺ (show_ℕ side.crc_class_errors ⧺ " during the test")))
          ∷ []
        else [])
      ++ (if ltb 0 side.unclassified_rx_errors
          then (name
              ⧺ (": driver receive-error aggregate +"
                  ⧺ (show_ℕ side.unclassified_rx_errors ⧺ " beyond the per-cause counters")))
            ∷ []
          else [])
    else []

carrier_phy_side : String → SideFacts → List String
carrier_phy_side name side =
    if side.delta_ok && ltb 0 side.carrier_phy_errors
    then (name
        ⧺ (": transmit-carrier/PHY error counters +"
            ⧺ (show_ℕ side.carrier_phy_errors ⧺ " during the test")))
      ∷ []
    else []

module _ {F : Type 0} where
  unfoldable pub sum_reliable_sides : Facts F → (SideFacts → ℕ) → ℕ
  sum_reliable_sides f field =
      let total = if f.pc1.delta_ok then add_u64 0 (field f.pc1) else 0 in
      if f.pc2.delta_ok then add_u64 total (field f.pc2) else total

  unfoldable pub crc_total : Facts F → ℕ
  unfolding sum_reliable_sides
  crc_total f = sum_reliable_sides f (λ s. add_u64 s.crc_class_errors s.unclassified_rx_errors)

  unfoldable pub carrier_phy_total : Facts F → ℕ
  unfolding sum_reliable_sides
  carrier_phy_total f = sum_reliable_sides f (λ s. s.carrier_phy_errors)

  unfoldable pub jabber_total : Facts F → ℕ
  unfolding sum_reliable_sides
  jabber_total f = sum_reliable_sides f (λ s. s.jabber_size_errors)

  unfoldable pub unclassified_rx_total : Facts F → ℕ
  unfolding sum_reliable_sides
  unclassified_rx_total f = sum_reliable_sides f (λ s. s.unclassified_rx_errors)

  -- The events, and whether they come from the monitor.
  unfoldable pub carrier_events : Facts F → ℕ × Bool
  carrier_events f =
      if f.pc1.delta_ok || f.pc2.delta_ok
      then (worse_side f.pc2 (worse_side f.pc1 0), false)
      else (f.monitor_carrier_transitions, true)

  unfoldable pub crc_evidence : Facts F → List String
  unfolding crc_side
  crc_evidence f = crc_side "pc1" f.pc1 ++ crc_side "pc2" f.pc2

  unfoldable pub carrier_phy_evidence : Facts F → List String
  unfolding carrier_phy_side
  carrier_phy_evidence f = carrier_phy_side "pc1" f.pc1 ++ carrier_phy_side "pc2" f.pc2

  abbrev pub phy06cond : Facts F → Bool
  phy06cond f =
      ltb 0 f.negotiated_speed
      && (ltb 0 f.expected_speed && ltb f.negotiated_speed f.expected_speed)

-- The largest 64-bit `int`.
abbrev pub max_int : ℕ
max_int = 9_223_372_036_854_775_807

unfoldable pub saturating_positive_total : ℤ → ℤ → ℤ
saturating_positive_total a b =
    let x = max_ℤ (pos 0) a in
    let y = max_ℤ (pos 0) b in
    if ltb_ℤ (sub_int (pos max_int) y) x then pos max_int else add_int x y

module _ {F : Type 0} where
  unfoldable pub tcp_collapse_total : Facts F → ℤ
  unfolding saturating_positive_total
  tcp_collapse_total f = saturating_positive_total f.dir0.tcp_collapses f.dir1.tcp_collapses

module _ {F : Type 0} ⦃fl : Float64 F⦄ where
  abbrev pub any_ping_loss_over : Facts F → F → Bool
  any_ping_loss_over f pct = fl.lt pct f.dir0.ping_loss_pct || fl.lt pct f.dir1.ping_loss_pct

  -- |dir0 - dir1| / max of the TCP bitrates.
  unfoldable pub asymmetry_ratio : Facts F → F
  asymmetry_ratio f =
      if f.dir0.tcp_available && f.dir1.tcp_available
      then (let a = of_ℕ f.dir0.tcp_bitrate in
          let b = of_ℕ f.dir1.tcp_bitrate in
          let hi = fl.fmax a b in
          if fl.le hi (of_ℕ 0) then of_ℕ 0 else fl.div (fl.abs (fl.sub a b)) hi)
      else of_ℕ 0
