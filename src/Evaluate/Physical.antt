-- ===== src/Evaluate/Physical.antt =====
-- internal/evaluate/rules.go: the physical rules, PHY-01 to PHY-11.
use cablecheck.Base.{
  not, ◌&&◌, ◌||◌, Option, none, some, List, [], ◌∷◌, ◌++◌, ltb, leb, ◌==◌, if◌then◌else◌, is_empty,
}
use cablecheck.Base.Int.{pos, ltb_ℤ}
use cablecheck.Base.Text.{String, ◌⧺◌, show_ℕ, show_ℤ}
use cablecheck.Float64.{Float64, of_ℕ}
use cablecheck.Model.{
  physical, Severity, unset, sev_warning, sev_poor, sev_failed, sev_lt, Finding, PairStatus,
  pair_open, pair_short_intra, pair_short_inter, pair_impedance, pair_unspecified, CablePairResult,
  show_status,
}
use cablecheck.Model.Bitrate.{show_bitrate}
use cablecheck.Evaluate.Facts.{Facts, Direction, dir, dir_name, each_dir}
use cablecheck.Evaluate.Thresholds.{Thresholds}
use cablecheck.Evaluate.Totals.{
  finding, raise, crc_total, unclassified_rx_total, carrier_phy_total, jabber_total, carrier_events,
  crc_evidence, carrier_phy_evidence, any_ping_loss_over, phy06cond,
}

module _ {F : Type 0} where
  abbrev speeds_text : Facts F → String
  speeds_text f =
      "negotiated "
      ⧺ (show_bitrate f.negotiated_speed ⧺ (" < expected " ⧺ show_bitrate f.expected_speed))

  unfoldable pub rule_phy01 : Facts F → Thresholds F → Option Finding
  rule_phy01 f t =
      if f.link_up_at_end
      then none
      else some (
          finding "PHY-01" physical sev_failed "The link was down when testing ended."
            ("post-test link state reports no carrier on at least one side" ∷ []))

  unfoldable pub rule_phy03 : Facts F → Thresholds F → Option Finding
  rule_phy03 f t =
      let (events, from_monitor) = carrier_events f in
      if events == 0
      then none
      else some (
          finding "PHY-03" physical
            (if leb t.carrier_failed_at events then sev_failed else sev_poor)
            ("The link carrier changed state " ⧺ (show_ℕ events ⧺ " time(s) during the test."))
            ((if from_monitor
                then "link monitor observed "
                  ⧺ (show_ℕ events ⧺ " carrier transition(s); NIC counter deltas were unavailable")
                else "carrier change counter advanced by " ⧺ (show_ℕ events ⧺ " on the worse side"))
              ∷ []))

  unfoldable pub rule_phy04 : Facts F → Thresholds F → Option Finding
  rule_phy04 f t =
      if ltb_ℤ f.renegotiations (pos 1)
      then none
      else some (
          finding "PHY-04" physical sev_poor
            ("The link renegotiated speed or duplex "
              ⧺ (show_ℤ f.renegotiations ⧺ " time(s) mid-test."))
            (("link monitor observed " ⧺ (show_ℤ f.renegotiations ⧺ " renegotiation event(s)"))
              ∷ []))

  unfoldable pub rule_phy05 : Facts F → Thresholds F → Option Finding
  rule_phy05 f t =
      if f.half_duplex
      then some (
          finding "PHY-05" physical sev_poor
            "The link negotiated half duplex — direct cable links must be full duplex."
            ("negotiated duplex = half on at least one side" ∷ []))
      else none

  unfoldable pub rule_phy07 : Facts F → Thresholds F → Option Finding
  rule_phy07 f t =
      if not (phy06cond f) || crc_total f == 0
      then none
      else some (
          finding "PHY-07" physical sev_poor
            ("The link runs below its expected speed ("
              ⧺ (show_bitrate f.negotiated_speed
                  ⧺ (" < "
                      ⧺ (show_bitrate f.expected_speed
                          ⧺ ") and physical error counters moved — strong cable evidence."))))
            (speeds_text f ∷ crc_evidence f))

  unfoldable pub rule_phy09 : Facts F → Thresholds F → Option Finding
  rule_phy09 f t =
      let total = jabber_total f in
      if total == 0
      then none
      else some (
          finding "PHY-09" physical
            (if ltb t.frame_size_poor_above total then sev_poor else sev_warning)
            ("Frame-size error counters (jabber/oversize/undersize/length) incremented by "
              ⧺ (show_ℕ total ⧺ "."))
            (("frame-size error counters +" ⧺ (show_ℕ total ⧺ " across both sides")) ∷ []))

  unfoldable pub rule_phy11 : Facts F → Thresholds F → Option Finding
  rule_phy11 f t =
      let total = carrier_phy_total f in
      if total == 0
      then none
      else some (
          finding "PHY-11" physical
            (if ltb t.carrier_phy_failed_above total
              then sev_failed
              else if ltb t.carrier_phy_poor_above total
              then sev_poor
              else sev_warning)
            ("Transmit-carrier/PHY error counters incremented by "
              ⧺ (show_ℕ total ⧺ " during the test."))
            (carrier_phy_evidence f))

-- The severity of one cable-test pair; `none` is `continue`.
abbrev pub pair_severity : PairStatus → Option Severity
pair_severity pair_open = some sev_failed
pair_severity pair_short_intra = some sev_failed
pair_severity pair_short_inter = some sev_failed
pair_severity pair_impedance = some sev_poor
pair_severity pair_unspecified = some sev_warning
pair_severity _ = none

module _ {F : Type 0} ⦃fl : Float64 F⦄ where
  unfoldable pub rule_phy02 : Facts F → Thresholds F → Option Finding
  rule_phy02 f t =
      let total = crc_total f in
      let unclassified_only = total == unclassified_rx_total f in
      let lossy = any_ping_loss_over f t.crc_corroborating_ping_loss_above in
      if total == 0
      then none
      else some (
          finding "PHY-02" physical
            (if ltb t.crc_poor_above total && lossy
              then sev_failed
              else if unclassified_only
              then sev_warning
              else if ltb t.crc_failed_above total
              then sev_failed
              else if ltb t.crc_poor_above total
              then sev_poor
              else sev_warning)
            (if unclassified_only
              then "Receive errors incremented by "
                ⧺ (show_ℕ total ⧺ " during the test, and no per-cause counter explains them.")
              else "CRC-class receive errors incremented by "
                ⧺ (show_ℕ total ⧺ " during the test."))
            (crc_evidence f
              ++ (if ltb t.crc_poor_above total && lossy
                  then ("ping loss above "
                      ⧺ (fl.show_g t.crc_corroborating_ping_loss_above
                          ⧺ "% corroborates the counter movement"))
                    ∷ []
                  else [])))

  unfoldable pub rule_phy06 : Facts F → Thresholds F → Option Finding
  rule_phy06 f t =
      if phy06cond f
      then some (
          finding "PHY-06" physical
            (if fl.le (fl.div (of_ℕ f.negotiated_speed) (of_ℕ f.expected_speed))
                t.negotiated_speed_poor_at
              then sev_poor
              else sev_warning)
            ("The link negotiated "
              ⧺ (show_bitrate f.negotiated_speed
                  ⧺ (" although both NICs support "
                      ⧺ (show_bitrate f.expected_speed
                          ⧺ ". Possible causes: cable wiring or a damaged pair (1000BASE-T needs all four pairs), NIC or driver configuration."))))
            (speeds_text f ∷ []))
      else none

  abbrev pair_line : CablePairResult F → String
  pair_line p =
      if p.has_fault && fl.lt (of_ℕ 0) p.fault_meters
      then "pair "
        ⧺ (p.pair
            ⧺ (": " ⧺ (show_status p.status ⧺ (" at ~" ⧺ (fl.show_fixed 1 p.fault_meters ⧺ "m")))))
      else "pair " ⧺ (p.pair ⧺ (": " ⧺ show_status p.status))

  abbrev pub pair_step : CablePairResult F → Severity × List String → Severity × List String
  pair_step p (worst, ev) = elim (pair_severity p.status) [
    | none ↦ (worst, ev)
    | some sev ↦ (raise worst sev, ev ++ (pair_line p ∷ []))
  ]

  -- The loop over the pairs.
  unfoldable pub worst_pair :
      List (CablePairResult F) → Severity × List String → Severity × List String
  worst_pair [] s = s
  worst_pair (p ∷ ps) s = worst_pair ps (pair_step p s)

  unfoldable pub rule_phy08 : Facts F → Thresholds F → Option Finding
  rule_phy08 f t =
      let (worst, ev) = worst_pair f.cable_test_pairs (unset, []) in
      if f.cable_test_ran
      then (if sev_lt worst sev_warning
          then none
          else some (finding "PHY-08" physical worst "Cable diagnostics report a wiring fault." ev))
      else none

  udp_loss_at_target : Facts F → Thresholds F → Direction → List String → List String
  udp_loss_at_target f t i ev =
      let d = dir f i in
      if d.udp_available && (d.udp_target_reached && fl.lt t.udp_loss_poor_above d.udp_loss_pct)
      then ev
        ++ ((dir_name i ⧺ (": UDP loss " ⧺ (fl.show_fixed 2 d.udp_loss_pct ⧺ "% at target rate")))
            ∷ [])
      else ev

  unfoldable pub rule_phy10 : Facts F → Thresholds F → Option Finding
  unfolding udp_loss_at_target
  rule_phy10 f t =
      let ev = each_dir (udp_loss_at_target f t) [] in
      if crc_total f == 0
      then none
      else if is_empty ev
      then none
      else some (
          finding "PHY-10" physical sev_failed
            ("UDP loss above "
              ⧺ (fl.show_g t.udp_loss_poor_above
                  ⧺ "% correlates with physical error counter movement."))
            (ev ++ crc_evidence f))
