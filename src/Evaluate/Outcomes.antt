-- ===== src/Evaluate/Outcomes.antt =====
-- internal/evaluate: from the facts of a run to a failure.
use cablecheck.Base.{
  ℕ, ◌≡◌, ◌↔◌, refl, ◌∙◌, Bool, true, false, not, ◌&&◌, ◌||◌, List, [], ◌∷◌, any, any-append, All,
  ltb, leb, ◌==◌, arith, Option-cases, inl, inr,
}
use cablecheck.Base.Text.{String}
use cablecheck.Float64.{Float64}
use cablecheck.Model.{
  failed, physical, Severity, unset, sev_failed, rank, Finding, PairStatus, pair_open,
  pair_short_intra, pair_short_inter, CablePairResult, category_eq,
}
use cablecheck.Evaluate.Facts.{Facts, Direction, pc1_to_pc2, pc2_to_pc1, dir}
use cablecheck.Evaluate.Thresholds.{Thresholds}
use cablecheck.Evaluate.Totals.{
  crc_total, unclassified_rx_total, carrier_phy_total, carrier_events, any_ping_loss_over,
}
use cablecheck.Evaluate.Physical.{
  rule_phy01, rule_phy02, rule_phy03, rule_phy04, rule_phy05, rule_phy06, rule_phy07, rule_phy08,
  rule_phy09, rule_phy10, rule_phy11, worst_pair, pair_step,
}
use cablecheck.Evaluate.Throughput.{Rule, physical_rules}
use cablecheck.Evaluate.Rules.{other_rules, rules}
use cablecheck.Evaluate.Labels.{Labels, other_rules-Labels, worst_pair-le}
use cablecheck.Evaluate.Engine.{findings_of, evaluate_with}
use cablecheck.Evaluate.Severity.{reaches}
use cablecheck.Evaluate.Verdict.{classify-failed_iff}
use cablecheck.Evaluate.Findings.{reported, any-run_rules}

abbrev pub is_open_or_short : PairStatus → Bool
is_open_or_short pair_open = true
is_open_or_short pair_short_intra = true
is_open_or_short pair_short_inter = true
is_open_or_short _ = false

or_false : (a : Bool) → (a || false) ≡ a
or_false a = ground arith

-- The test for a physical failure.
abbrev is_failure : Finding → Bool
is_failure = reaches (physical ∷ []) (rank sev_failed)

-- The findings on which the physical layer reaches a rank come from the physical rules.
module _ {F : Type 0} (k : ℕ) (f : Facts F) (t : Thresholds F) where
  fires : Rule F → Bool
  fires r = reported (reaches (physical ∷ []) k) (r.run f t)

  other_category :
      (r : Rule F) → Labels r → category_eq r.category physical ≡ false → fires r ≡ false
  unfolding fires
  other_category r l h = elim (Option-cases (r.run f t)) [
    | inl e ↦ rw e
    | inr (fd, e) ↦ rw e (ground (arith, (l f t fd e).same_category))
  ]

  others :
      (rs : List (Rule F))
      → All Labels rs
      → any (λ r. category_eq r.category physical) rs ≡ false
      → any fires rs ≡ false
  others [] l h = refl
  others (r ∷ rs) (l, ls) h = ground (arith, other_category r l, others rs ls)

module _ {F : Type 0} ⦃fl : Float64 F⦄ where
  pub any_physical :
      (k : ℕ) (f : Facts F) (t : Thresholds F)
      → any (reaches (physical ∷ []) k) (findings_of f t)
        ≡ any (λ r. reported (reaches (physical ∷ []) k) (r.run f t)) physical_rules
  unfolding fires
  any_physical k f t =
      any-run_rules f t (reaches (physical ∷ []) k) rules
      ∙ (any-append (fires k f t) physical_rules other_rules
          ∙ rw (others k f t other_rules other_rules-Labels refl) (or_false _))

module _ {F : Type 0} ⦃fl : Float64 F⦄ (f : Facts F) (t : Thresholds F) where
  abbrev pub udp_loss_over : Direction → Bool
  udp_loss_over i =
      let d = dir f i in
      d.udp_available && (d.udp_target_reached && fl.lt t.udp_loss_poor_above d.udp_loss_pct)

  -- The facts that fail a run: the link is down at the end; enough receive errors, with ping loss or
  -- explained by a per-cause counter and beyond the failure boundary; enough carrier events; an open
  -- or shorted pair; receive errors with UDP loss at target rate; enough transmit-carrier errors.
  abbrev pub fails : Bool
  fails =
      not f.link_up_at_end
      || (ltb t.crc_poor_above (crc_total f)
          && any_ping_loss_over f t.crc_corroborating_ping_loss_above)
      || (not (crc_total f == unclassified_rx_total f) && ltb t.crc_failed_above (crc_total f))
      || (ltb 0 (carrier_events f).0 && leb t.carrier_failed_at (carrier_events f).0)
      || (f.cable_test_ran && any (λ p. is_open_or_short p.status) f.cable_test_pairs)
      || (ltb 0 (crc_total f) && (udp_loss_over pc1_to_pc2 || udp_loss_over pc2_to_pc1))
      || ltb t.carrier_phy_failed_above (carrier_phy_total f)

  phy01-failure : reported is_failure (rule_phy01 f t) ≡ not f.link_up_at_end
  unfolding rule_phy01
  phy01-failure = ground arith

  phy02-failure : reported is_failure (rule_phy02 f t) ≡ (
      (ltb t.crc_poor_above (crc_total f)
        && any_ping_loss_over f t.crc_corroborating_ping_loss_above)
      || (not (crc_total f == unclassified_rx_total f) && ltb t.crc_failed_above (crc_total f)))
  unfolding rule_phy02
  phy02-failure = ground arith

  phy03-failure :
      reported is_failure (rule_phy03 f t)
      ≡ (ltb 0 (carrier_events f).0 && leb t.carrier_failed_at (carrier_events f).0)
  unfolding rule_phy03
  phy03-failure = ground arith

  phy10-failure :
      reported is_failure (rule_phy10 f t)
      ≡ (ltb 0 (crc_total f) && (udp_loss_over pc1_to_pc2 || udp_loss_over pc2_to_pc1))
  unfolding rule_phy10
  phy10-failure = ground arith

  phy11-failure :
      reported is_failure (rule_phy11 f t) ≡ ltb t.carrier_phy_failed_above (carrier_phy_total f)
  unfolding rule_phy11
  phy11-failure = ground arith

  pair_step-failure :
      (p : CablePairResult F) (s : Severity × List String)
      → leb 4 (rank (pair_step p s).0) ≡ (leb 4 (rank s.0) || is_open_or_short p.status)
  pair_step-failure p s = ground arith

  worst_pair-failure :
      (ps : List (CablePairResult F)) (s : Severity × List String)
      → leb 4 (rank (worst_pair ps s).0)
        ≡ (leb 4 (rank s.0) || any (λ p. is_open_or_short p.status) ps)
  unfolding worst_pair
  worst_pair-failure [] s = ground arith
  worst_pair-failure (p ∷ ps) s =
      ground (arith, pair_step-failure p s, worst_pair-failure ps (pair_step p s))

  phy08-failure :
      reported is_failure (rule_phy08 f t)
      ≡ (f.cable_test_ran && any (λ p. is_open_or_short p.status) f.cable_test_pairs)
  unfolding rule_phy08
  phy08-failure = ground (
    arith,
    worst_pair-failure f.cable_test_pairs (unset, []),
    worst_pair-le f.cable_test_pairs (unset, []) (omega arith),
  )

  no_failure :
      (reported is_failure (rule_phy04 f t) ≡ false)
      × (reported is_failure (rule_phy05 f t) ≡ false)
      × (reported is_failure (rule_phy06 f t) ≡ false)
      × (reported is_failure (rule_phy07 f t) ≡ false)
      × (reported is_failure (rule_phy09 f t) ≡ false)
  unfolding rule_phy04 rule_phy05 rule_phy06 rule_phy07 rule_phy09
  no_failure = (ground arith, ground arith, ground arith, ground arith, ground arith)

  physical_failure : any (λ r. reported is_failure (r.run f t)) physical_rules ≡ fails
  physical_failure =
      simp
        (
          phy01-failure, phy02-failure, phy03-failure, phy08-failure, phy10-failure, phy11-failure,
          no_failure.0, no_failure.1, no_failure.2, no_failure.3, no_failure.4,
        )
        (ground arith)

  any_failure : any is_failure (findings_of f t) ≡ fails
  any_failure = any_physical (rank sev_failed) f t ∙ physical_failure

  -- Under any policy, a run is FAILED exactly when one of these facts holds: the link is down at the
  -- end; receive errors are above the poor boundary with corroborating ping loss; they are above the
  -- failure boundary and not all unexplained; carrier events reach their boundary; a tested pair is
  -- open or shorted; there are receive errors and UDP loss at target rate; transmit-carrier errors
  -- are above their failure boundary.
  pub evaluate_with-failed_iff : ((evaluate_with f t).class ≡ failed) ↔ (fails ≡ true)
  unfolding evaluate_with
  evaluate_with-failed_iff = ground (arith, classify-failed_iff (findings_of f t), any_failure)
