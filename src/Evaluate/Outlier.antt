-- ===== src/Evaluate/Outlier.antt =====
-- The cap on an isolated slow trial, in internal/evaluate/throughput.go.
use cablecheck.Base.{◌≡◌, ◌↔◌, ◌⊎◌, Bool, true, false, not, ◌&&◌, none, some, any, arith}
use cablecheck.Base.Int.{pos, ◌≤ℤ◌, eq_of_parts}
use cablecheck.Float64.{Float64}
use cablecheck.Model.{sev_info, sev_warning, sev_poor}
use cablecheck.Model.Bitrate.{Bitrate}
use cablecheck.Evaluate.Facts.{Facts, Direction, dir}
use cablecheck.Evaluate.Thresholds.{Thresholds}
use cablecheck.Evaluate.Throughput.{
  physical_rules, classify_throughput, physical_layer_clean, clean_under, assess_throughput,
}
use cablecheck.Evaluate.Findings.{is_some}

module _ {F : Type 0} ⦃fl : Float64 F⦄ where
  classify_throughput-cases :
      (measured negotiated : Bitrate) (t : Thresholds F)
      → let raw = (classify_throughput measured negotiated t).1 in
        (raw ≡ none) ⊎ (raw ≡ some sev_info) ⊎ (raw ≡ some sev_warning) ⊎ (raw ≡ some sev_poor)
  unfolding classify_throughput
  classify_throughput-cases measured negotiated t = ground arith

module _ {F : Type 0} ⦃fl : Float64 F⦄ (f : Facts F) (i : Direction) (t : Thresholds F) where
  -- What the counters and the rules must say for the physical layer to pass as clean: both sides
  -- have a usable delta and receive-error evidence, and no physical rule reports.
  abbrev pub is_clean : Bool
  is_clean =
      f.pc1.delta_ok
      && (f.pc2.delta_ok
          && (f.pc1.rx_error_evidence
              && (f.pc2.rx_error_evidence && not (any (λ r. is_some (r.run f t)) physical_rules))))

  clean_lem : physical_layer_clean f t ≡ is_clean
  unfolding physical_layer_clean clean_under
  clean_lem = ground arith

  -- The deviation of a direction is capped exactly when its measured rate alone is poor, just one of
  -- at least two trials deviates, both sides have a usable delta and receive-error evidence, and no
  -- physical rule reports. A capped deviation is a warning; any other is that of the measured rate.
  pub assess_throughput_lem :
      let raw = (classify_throughput (dir f i).tcp_bitrate f.negotiated_speed t).1 in
      let a = assess_throughput f i t in
      ((a.capped ≡ true) ↔ (
        (raw ≡ some sev_poor)
        × (pos 2 ≤ℤ (dir f i).tcp_trial_count)
        × ((dir f i).tcp_throughput_deviations ≡ pos 1)
        × (is_clean ≡ true)))
      × (a.capped ≡ true → a.deviation ≡ some sev_warning)
      × (a.capped ≡ false → a.deviation ≡ raw)
  unfolding assess_throughput
  assess_throughput_lem = ground (
    arith,
    classify_throughput-cases (dir f i).tcp_bitrate f.negotiated_speed t,
    clean_lem,
    eq_of_parts (dir f i).tcp_throughput_deviations (pos 1),
  )
