-- ===== src/Evaluate/Throughput.antt =====
-- internal/evaluate/throughput.go: the throughput policy and the isolated-outlier cap.
use cablecheck.Base.{
  Bool, true, false, not, ◌&&◌, ◌||◌, Option, none, some, List, [], ◌∷◌, any, if◌then◌else◌,
}
use cablecheck.Base.Int.{pos, leb_ℤ, eqb_ℤ}
use cablecheck.Float64.{Float64, of_ℕ}
use cablecheck.Model.{
  Category, physical, Severity, sev_info, sev_warning, sev_poor, sev_lt, Finding, category_eq,
}
use cablecheck.Model.Bitrate.{Bitrate}
use cablecheck.Base.Text.{String}
use cablecheck.Evaluate.Facts.{Facts, Direction, dir}
use cablecheck.Evaluate.Thresholds.{ThroughputBands, Thresholds, perf_bands}
use cablecheck.Evaluate.Physical.{
  rule_phy01, rule_phy02, rule_phy03, rule_phy04, rule_phy05, rule_phy06, rule_phy07, rule_phy08,
  rule_phy09, rule_phy10, rule_phy11,
}

-- One entry of the rule table.
pub record Rule (F : Type 0) : Type 0 where
  pub id : String
  pub category : Category
  pub run : Facts F → Thresholds F → Option Finding

abbrev pub rule :
    {F : Type 0} → String → Category → (Facts F → Thresholds F → Option Finding) → Rule F
rule id category run = record { id = id; category = category; run = run }

-- A throughput verdict: the ratio, the severity of a deviation (`none` is no deviation), and
-- whether the outlier cap applied.
pub record Assessment (F : Type 0) : Type 0 where
  pub ratio : F
  pub deviation : Option Severity
  pub capped : Bool

module _ {F : Type 0} ⦃fl : Float64 F⦄ where
  -- The part of the table that `physicalLayerClean` selects from it by category.
  abbrev pub physical_rules : List (Rule F)
  physical_rules =
      rule "PHY-01" physical rule_phy01
      ∷ rule "PHY-02" physical rule_phy02
      ∷ rule "PHY-03" physical rule_phy03
      ∷ rule "PHY-04" physical rule_phy04
      ∷ rule "PHY-05" physical rule_phy05
      ∷ rule "PHY-06" physical rule_phy06
      ∷ rule "PHY-07" physical rule_phy07
      ∷ rule "PHY-08" physical rule_phy08
      ∷ rule "PHY-09" physical rule_phy09
      ∷ rule "PHY-10" physical rule_phy10
      ∷ rule "PHY-11" physical rule_phy11
      ∷ []

  -- The bands applied to a ratio.
  unfoldable pub classify_ratio : ThroughputBands F → F → Option Severity
  classify_ratio bands ratio =
      if fl.le bands.pass_at ratio && not bands.pass_disabled
      then none
      else if fl.le bands.info_at ratio
      then some sev_info
      else if fl.le bands.warning_at ratio
      then some sev_warning
      else some sev_poor

  unfoldable pub classify_throughput : Bitrate → Bitrate → Thresholds F → F × Option Severity
  unfolding classify_ratio
  classify_throughput measured negotiated t = elim (perf_bands t negotiated) [
    | none ↦ (of_ℕ 0, none)
    | some bands ↦
        (let ratio = fl.div (of_ℕ measured) (of_ℕ negotiated) in
          (ratio, classify_ratio bands ratio))
  ]

  unfoldable pub throughput_shortfall : Bitrate → Bitrate → Thresholds F → Bool
  throughput_shortfall measured negotiated t = elim (perf_bands t negotiated) [
    | none ↦ false
    | some bands ↦ fl.lt (fl.div (of_ℕ measured) (of_ℕ negotiated)) bands.pass_at
  ]

  fires : Facts F → Thresholds F → Rule F → Bool
  fires f t r = category_eq r.category physical && elim (r.run f t) [ none ↦ false | some _ ↦ true ]

  -- The loop over a rule table.
  unfoldable pub clean_under : List (Rule F) → Facts F → Thresholds F → Bool
  unfolding fires
  clean_under table f t =
      if not f.pc1.delta_ok || not f.pc2.delta_ok
      then false
      else if not f.pc1.rx_error_evidence || not f.pc2.rx_error_evidence
      then false
      else not (any (fires f t) table)

  unfoldable pub physical_layer_clean : Facts F → Thresholds F → Bool
  unfolding clean_under
  physical_layer_clean f t = clean_under physical_rules f t

  abbrev is_isolated : Facts F → Direction → Bool
  is_isolated f i =
      let d = dir f i in
      leb_ℤ (pos 2) d.tcp_trial_count && eqb_ℤ d.tcp_throughput_deviations (pos 1)

  unfoldable pub assess_throughput : Facts F → Direction → Thresholds F → Assessment F
  assess_throughput f i t =
      let (ratio, deviation) = classify_throughput (dir f i).tcp_bitrate f.negotiated_speed t in
      let plain : Assessment F = record { ratio = ratio; deviation = deviation; capped = false } in
      elim deviation [
        | none ↦ plain
        | some sev ↦
            if not (sev_lt sev_warning sev)
            then plain
            else if is_isolated f i && physical_layer_clean f t
            then record { ratio = ratio; deviation = some sev_warning; capped = true }
            else plain
      ]
