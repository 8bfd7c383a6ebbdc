-- ===== src/Evaluate/Damages.antt =====
-- internal/evaluate: from the facts of a run to its physical evidence.
use cablecheck.Base.{
  ◌≡◌, ◌⊎◌, ◌∙◌, Bool, true, false, not, ◌&&◌, ◌||◌, List, [], ◌∷◌, any, ltb, leb, ◌==◌, arith,
}
use cablecheck.Base.Int.{pos, ltb_ℤ}
use cablecheck.Base.Text.{String}
use cablecheck.Float64.{Float64, of_ℕ}
use cablecheck.Model.{
  poor, failed, inconclusive, physical, Severity, unset, sev_poor, rank, Finding, PairStatus,
  pair_impedance, CablePairResult,
}
use cablecheck.Evaluate.Facts.{Facts, pc1_to_pc2, pc2_to_pc1}
use cablecheck.Evaluate.Thresholds.{Thresholds}
use cablecheck.Evaluate.Totals.{
  crc_total, unclassified_rx_total, carrier_phy_total, carrier_events, any_ping_loss_over,
  jabber_total, phy06cond,
}
use cablecheck.Evaluate.Physical.{
  rule_phy01, rule_phy02, rule_phy03, rule_phy04, rule_phy05, rule_phy06, rule_phy07, rule_phy08,
  rule_phy09, rule_phy10, rule_phy11, worst_pair, pair_step,
}
use cablecheck.Evaluate.Throughput.{physical_rules}
use cablecheck.Evaluate.Engine.{findings_of, evaluate_with}
use cablecheck.Evaluate.Labels.{worst_pair-le}
use cablecheck.Evaluate.Severity.{reaches}
use cablecheck.Evaluate.Verdict.{
  physical_reaches, classify-failed_iff, classify-poor_iff, classify-inconclusive_iff,
}
use cablecheck.Evaluate.Findings.{reported}
use cablecheck.Evaluate.Outcomes.{is_open_or_short, udp_loss_over, any_physical}
use cablecheck.Evaluate.Coverage.{has-host02}

abbrev pub is_bad_pair : PairStatus → Bool
is_bad_pair pair_impedance = true
is_bad_pair s = is_open_or_short s

abbrev is_damage : Finding → Bool
is_damage = reaches (physical ∷ []) (rank sev_poor)

module _ {F : Type 0} ⦃fl : Float64 F⦄ (f : Facts F) (t : Thresholds F) where
  -- The facts that make the physical evidence poor or worse: the link is down at the end; receive
  -- errors beyond the poor boundary, with ping loss or explained by a per-cause counter, or beyond the
  -- failure boundary and so explained; any carrier event; a renegotiation; half duplex; a speed below
  -- the expected one by the poor ratio, or below it at all with receive errors; a bad pair; frame-size
  -- errors beyond their boundary; receive errors with UDP loss at target rate; transmit-carrier
  -- errors beyond one of their boundaries.
  abbrev pub damages : Bool
  damages =
      not f.link_up_at_end
      || ((ltb t.crc_poor_above (crc_total f)
            && any_ping_loss_over f t.crc_corroborating_ping_loss_above)
          || (not (crc_total f == unclassified_rx_total f)
              && (ltb t.crc_failed_above (crc_total f) || ltb t.crc_poor_above (crc_total f))))
      || ltb 0 (carrier_events f).0
      || not (ltb_ℤ f.renegotiations (pos 1))
      || f.half_duplex
      || (phy06cond f
          && fl.le (fl.div (of_ℕ f.negotiated_speed) (of_ℕ f.expected_speed))
              t.negotiated_speed_poor_at)
      || (phy06cond f && ltb 0 (crc_total f))
      || (f.cable_test_ran && any (λ p. is_bad_pair p.status) f.cable_test_pairs)
      || ltb t.frame_size_poor_above (jabber_total f)
      || (ltb 0 (crc_total f) && (udp_loss_over f t pc1_to_pc2 || udp_loss_over f t pc2_to_pc1))
      || (ltb t.carrier_phy_failed_above (carrier_phy_total f)
          || ltb t.carrier_phy_poor_above (carrier_phy_total f))

  phy01-damage : reported is_damage (rule_phy01 f t) ≡ not f.link_up_at_end
  unfolding rule_phy01
  phy01-damage = ground arith

  phy02-damage : reported is_damage (rule_phy02 f t) ≡ (
      (ltb t.crc_poor_above (crc_total f)
        && any_ping_loss_over f t.crc_corroborating_ping_loss_above)
      || (not (crc_total f == unclassified_rx_total f)
          && (ltb t.crc_failed_above (crc_total f) || ltb t.crc_poor_above (crc_total f))))
  unfolding rule_phy02
  phy02-damage = ground arith

  phy03-damage : reported is_damage (rule_phy03 f t) ≡ ltb 0 (carrier_events f).0
  unfolding rule_phy03
  phy03-damage = ground arith

  phy04-damage : reported is_damage (rule_phy04 f t) ≡ not (ltb_ℤ f.renegotiations (pos 1))
  unfolding rule_phy04
  phy04-damage = ground arith

  phy05-damage : reported is_damage (rule_phy05 f t) ≡ f.half_duplex
  unfolding rule_phy05
  phy05-damage = ground arith

  phy06-damage : reported is_damage (rule_phy06 f t) ≡ (
      phy06cond f
      && fl.le
          (fl.div (of_ℕ f.negotiated_speed) (of_ℕ f.expected_speed))
          t.negotiated_speed_poor_at)
  unfolding rule_phy06
  phy06-damage = ground arith

  phy07-damage : reported is_damage (rule_phy07 f t) ≡ (phy06cond f && ltb 0 (crc_total f))
  unfolding rule_phy07
  phy07-damage = ground arith

  pair_step-damage :
      (p : CablePairResult F) (s : Severity × List String)
      → leb 3 (rank (pair_step p s).0) ≡ (leb 3 (rank s.0) || is_bad_pair p.status)
  pair_step-damage p s = ground arith

  worst_pair-damage :
      (ps : List (CablePairResult F)) (s : Severity × List String)
      → leb 3 (rank (worst_pair ps s).0) ≡ (leb 3 (rank s.0) || any (λ p. is_bad_pair p.status) ps)
  unfolding worst_pair
  worst_pair-damage [] s = ground arith
  worst_pair-damage (p ∷ ps) s =
      ground (arith, pair_step-damage p s, worst_pair-damage ps (pair_step p s))

  phy08-damage :
      reported is_damage (rule_phy08 f t)
      ≡ (f.cable_test_ran && any (λ p. is_bad_pair p.status) f.cable_test_pairs)
  unfolding rule_phy08
  phy08-damage = ground (
    arith,
    worst_pair-damage f.cable_test_pairs (unset, []),
    worst_pair-le f.cable_test_pairs (unset, []) (omega arith),
  )

  phy09-damage : reported is_damage (rule_phy09 f t) ≡ ltb t.frame_size_poor_above (jabber_total f)
  unfolding rule_phy09
  phy09-damage = ground arith

  phy10-damage :
      reported is_damage (rule_phy10 f t)
      ≡ (ltb 0 (crc_total f) && (udp_loss_over f t pc1_to_pc2 || udp_loss_over f t pc2_to_pc1))
  unfolding rule_phy10
  phy10-damage = ground arith

  phy11-damage : reported is_damage (rule_phy11 f t) ≡ (
      ltb t.carrier_phy_failed_above (carrier_phy_total f)
      || ltb t.carrier_phy_poor_above (carrier_phy_total f))
  unfolding rule_phy11
  phy11-damage = ground arith

  physical_damage : any (λ r. reported is_damage (r.run f t)) physical_rules ≡ damages
  physical_damage =
      simp
        (
          phy01-damage, phy02-damage, phy03-damage, phy04-damage, phy05-damage, phy06-damage,
          phy07-damage, phy08-damage, phy09-damage, phy10-damage, phy11-damage,
        )
        (ground arith)

  physical_reaches-poor : physical_reaches sev_poor (findings_of f t) ≡ damages
  physical_reaches-poor = any_physical (rank sev_poor) f t ∙ physical_damage

  -- Under any policy: the physical evidence of a run is poor or worse exactly when one of the facts
  -- of `damages` holds. Such a run is FAILED or POOR, also on a virtual interface; and on a virtual
  -- interface every other run is INCONCLUSIVE.
  pub evaluate_with-damages :
      (physical_reaches sev_poor (findings_of f t) ≡ damages)
      × (damages ≡ true → ((evaluate_with f t).class ≡ failed) ⊎ ((evaluate_with f t).class ≡ poor))
      × (f.virtual_interface ≡ true → damages ≡ false → (evaluate_with f t).class ≡ inconclusive)
  unfolding evaluate_with
  evaluate_with-damages = ground (
    arith,
    physical_reaches-poor,
    has-host02 f t,
    classify-failed_iff (findings_of f t),
    classify-poor_iff (findings_of f t),
    classify-inconclusive_iff (findings_of f t),
  )
