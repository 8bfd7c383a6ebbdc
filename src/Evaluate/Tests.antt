-- ===== src/Evaluate/Tests.antt =====
-- Concrete runs and finding lists of internal/evaluate.
use mathlib.Core.List.Perm
use mathlib.Core.List.{Sublistᴰ}
use cablecheck.Base.{
  ◌≡◌, ◌↔◌, ◌⊎◌, refl, inl, true, false, not, ◌&&◌, ◌||◌, some, [], ◌∷◌, map, any, arith,
}
use cablecheck.Base.Int.{pos, ◌≤ℤ◌}
use cablecheck.Base.Text.{String, str_eq}
use cablecheck.Model.{
  excellent, poor, failed, inconclusive, Category, physical, transport, limitation, Severity,
  sev_warning, sev_poor, sev_failed, sev_marker, Finding,
}
use cablecheck.Evaluate.Thresholds.{default, score_band}
use cablecheck.Evaluate.Throughput.{Rule, classify_throughput, assess_throughput}
use cablecheck.Evaluate.Rules.{rules}
use cablecheck.Evaluate.Engine.{findings_of, evaluate_with, evaluate}
use cablecheck.Evaluate.Classify.{has_finding, has_host_limit, has_gap, classify}
use cablecheck.Evaluate.Recommend.{group_findings}
use cablecheck.Evaluate.Verdict.{
  physical_reaches, traffic_reaches, excused, any_deviation, classify-poor_iff,
  classify-excellent_iff, classify-inconclusive_iff,
}
use cablecheck.Evaluate.Findings.{
  is_some, finding_label, rule_label, findings_of-Sublist, has_finding-findings_of,
}
use cablecheck.Evaluate.Bands.{evaluate_with-bounds, evaluate-class_of_score}
use cablecheck.Evaluate.Outcomes.{fails, evaluate_with-failed_iff}
use cablecheck.Evaluate.Coverage.{is_noncritical, evaluate_with-evidence, evaluate_with-excellent}
use cablecheck.Evaluate.Order.{Capped, classify-Perm, classify-Capped}
use cablecheck.Evaluate.Advice.{IsGrouped, lists, shows, group_findings_lem}
use cablecheck.Evaluate.Facts.{pc1_to_pc2}
use cablecheck.Evaluate.Outlier.{is_clean, assess_throughput_lem}
use cablecheck.Model.Report.{skip_reason_unreachable, CounterSnapshot}
use cablecheck.Evaluate.Counters.{counter_of, delta_set, is_present}
use cablecheck.Evaluate.Deltas.{delta_of, grows, delta_set_lem}
use cablecheck.Evaluate.Damages.{damages, evaluate_with-damages}
use cablecheck.Evaluate.Samples.{micro, Micro, quiet, warm, flapping, slow}
use cablecheck.Evaluate.SampleRuns.{sample_runs}
use cablecheck.Evaluate.SampleReport.{calm, calm-excellent}
use cablecheck.Evaluate.Extract.Link.{virtual_nic}
use cablecheck.Evaluate.Extract.Coverage.{has_prefix}
use cablecheck.Evaluate.Saved.{is_measured, evaluate-facts_from_report}

quiet-excellent : (evaluate_with quiet default).class ≡ excellent
unfolding evaluate
quiet-excellent = sample_runs.0

evaluate_with-failed_iff_example :
    ((evaluate_with flapping default).class ≡ failed) ↔ (fails flapping default ≡ true)
evaluate_with-failed_iff_example = evaluate_with-failed_iff flapping default

evaluate_with-evidence_example :
    (quiet.virtual_interface ≡ false)
    × (quiet.is_partial ≡ false)
    × (quiet.throughput_unreachable ≡ false)
    × ((quiet.dir0.tcp_available || quiet.dir1.tcp_available) ≡ true)
    × ((quiet.pc1.counters_available || quiet.pc2.counters_available) ≡ true)
    × ((quiet.pc1.rx_error_evidence || quiet.pc2.rx_error_evidence) ≡ true)
evaluate_with-evidence_example = evaluate_with-evidence quiet default (inl quiet-excellent)

evaluate_with-excellent_example :
    (quiet.dir0.tcp_available ≡ true)
    × (quiet.dir1.tcp_available ≡ true)
    × (quiet.pc1.rx_error_evidence ≡ true)
    × (quiet.pc2.rx_error_evidence ≡ true)
    × (any is_noncritical quiet.unavailable ≡ false)
evaluate_with-excellent_example = evaluate_with-excellent quiet default quiet-excellent

quiet-score : (evaluate_with quiet default).score ≡ some (pos 100)
unfolding evaluate
quiet-score = sample_runs.1

quiet_band :
    (score_band {F = Micro} default (evaluate_with quiet default).class).low
    ≤ℤ (score_band {F = Micro} default (evaluate_with quiet default).class).high
quiet_band = rw quiet-excellent (omega arith)

evaluate_with-bounds_example :
    let b = score_band {F = Micro} default (evaluate_with quiet default).class in
    (b.low ≤ℤ pos 100) × (pos 100 ≤ℤ b.high)
evaluate_with-bounds_example = evaluate_with-bounds quiet default (pos 100) quiet-score quiet_band

evaluate-class_of_score_example : (evaluate quiet).class ≡ (evaluate warm).class
evaluate-class_of_score_example =
    evaluate-class_of_score quiet warm (pos 100) sample_runs.1 sample_runs.5

findings_of-Sublist_example :
    Sublistᴰ (map finding_label (findings_of slow default)) (map rule_label (rules {F = Micro}))
findings_of-Sublist_example = findings_of-Sublist slow default

has_finding-findings_of_example :
    has_finding (findings_of slow default) "PERF-01"
    ≡ any (λ (r : Rule Micro). str_eq r.id "PERF-01" && is_some (r.run slow default)) rules
has_finding-findings_of_example = has_finding-findings_of slow default "PERF-01"

-- A finding with its own identifier as its only evidence.
abbrev reported_as : String → Category → Severity → Finding
reported_as id category severity = record {
  rule_id = id;
  category = category;
  severity = severity;
  text = id;
  evidence = id ∷ [];
  host_sensitive = false;
}

abbrev phy03 : Finding
phy03 = reported_as "PHY-03" physical sev_failed

abbrev tr06 : Finding
tr06 = reported_as "TR-06" transport sev_poor

abbrev lim01 : Finding
lim01 = reported_as "LIM-01" limitation sev_marker

classify-poor_iff_example : (classify (tr06 ∷ []) ≡ poor) ↔ (
    (physical_reaches sev_failed (tr06 ∷ []) ≡ false)
    × ((physical_reaches sev_poor (tr06 ∷ []) ≡ true)
        ⊎ ((traffic_reaches sev_poor (tr06 ∷ []) ≡ true)
            × (excused (tr06 ∷ []) ≡ false)
            × (has_finding (tr06 ∷ []) "HOST-02" ≡ false))))
classify-poor_iff_example = classify-poor_iff (tr06 ∷ [])

classify-excellent_iff_example : (classify (lim01 ∷ []) ≡ excellent) ↔ (
    (any_deviation (lim01 ∷ []) ≡ false)
    × (has_finding (lim01 ∷ []) "HOST-02" ≡ false)
    × (has_gap (lim01 ∷ []) ≡ false)
    × (has_finding (lim01 ∷ []) "LIM-02" ≡ false))
classify-excellent_iff_example = classify-excellent_iff (lim01 ∷ [])

classify-inconclusive_iff_example : (classify (lim01 ∷ []) ≡ inconclusive) ↔ (
    (physical_reaches sev_poor (lim01 ∷ []) ≡ false)
    × ((has_finding (lim01 ∷ []) "HOST-02" ≡ true)
        ⊎ ((traffic_reaches sev_poor (lim01 ∷ []) ≡ true) × (excused (lim01 ∷ []) ≡ true))
        ⊎ ((has_gap (lim01 ∷ []) ≡ true)
            × (physical_reaches sev_warning (lim01 ∷ []) ≡ false)
            × (traffic_reaches sev_warning (lim01 ∷ []) ≡ false))))
classify-inconclusive_iff_example = classify-inconclusive_iff (lim01 ∷ [])

classify-Perm_example : classify (tr06 ∷ lim01 ∷ []) ≡ classify (lim01 ∷ tr06 ∷ [])
classify-Perm_example =
    classify-Perm (tr06 ∷ lim01 ∷ []) (lim01 ∷ tr06 ∷ []) (Perm.swap lim01 tr06 [])

classify-Capped_example : Capped (classify []) (classify (lim01 ∷ []))
unfolding has_host_limit
classify-Capped_example = classify-Capped lim01 [] refl refl refl refl

group_findings_lem_example :
    let gs = group_findings (phy03 ∷ tr06 ∷ []) [] in
    IsGrouped gs
    × (lists "Retest" "PHY-03" gs
        ≡ (not (str_eq "PHY-03" "") && any (shows "Retest" "PHY-03") (phy03 ∷ tr06 ∷ [])))
group_findings_lem_example = group_findings_lem (phy03 ∷ tr06 ∷ []) "Retest" "PHY-03" refl

abbrev tr01 : Finding
tr01 = reported_as "TR-01" transport sev_warning

assess_throughput_lem_example :
    let raw =
      (classify_throughput {F = Micro} slow.dir0.tcp_bitrate slow.negotiated_speed default).1 in
    let a = assess_throughput slow pc1_to_pc2 default in
    ((a.capped ≡ true) ↔ (
      (raw ≡ some sev_poor)
      × (pos 2 ≤ℤ slow.dir0.tcp_trial_count)
      × (slow.dir0.tcp_throughput_deviations ≡ pos 1)
      × (is_clean slow pc1_to_pc2 default ≡ true)))
    × (a.capped ≡ true → a.deviation ≡ some sev_warning)
    × (a.capped ≡ false → a.deviation ≡ raw)
assess_throughput_lem_example = assess_throughput_lem slow pc1_to_pc2 default

-- Two captures of one side: the carrier counter stands still, a receive-error counter was reset.
abbrev first_capture : CounterSnapshot
first_capture = record { standard = ("link_resets", 2) ∷ ("rx_crc", 7) ∷ []; rx_packets = 100 }

abbrev second_capture : CounterSnapshot
second_capture = record { standard = ("link_resets", 2) ∷ ("rx_crc", 3) ∷ []; rx_packets = 900 }

delta_set_lem_example :
    (counter_of (delta_set (some first_capture) (some second_capture)).0 "rx_crc"
      ≡ delta_of
          (counter_of first_capture.standard "rx_crc")
          (counter_of second_capture.standard "rx_crc"))
    × ((delta_set (some first_capture) (some second_capture)).1 ≡ (
        not (any (λ e. not (grows second_capture.standard e)) first_capture.standard)
        && not (
            any
              (λ e. not (is_present (counter_of first_capture.standard e.0)))
              second_capture.standard)))
delta_set_lem_example = delta_set_lem first_capture second_capture "rx_crc"

evaluate_with-damages_example :
    (physical_reaches sev_poor (findings_of flapping default) ≡ damages flapping default)
    × (damages flapping default ≡ true
        → ((evaluate_with flapping default).class ≡ failed)
          ⊎ ((evaluate_with flapping default).class ≡ poor))
    × (flapping.virtual_interface ≡ true
        → damages flapping default ≡ false
        → (evaluate_with flapping default).class ≡ inconclusive)
evaluate_with-damages_example = evaluate_with-damages flapping default

evaluate-facts_from_report_example :
    (is_measured calm false ≡ true)
    × (is_measured calm true ≡ true)
    × (calm.is_partial ≡ false)
    × (any (λ st. has_prefix skip_reason_unreachable st.reason) calm.skipped_tests ≡ false)
    × (any (λ st. is_noncritical st.name) calm.skipped_tests ≡ false)
    × ((virtual_nic calm.nic.pc1 || virtual_nic calm.nic.pc2) ≡ false)
evaluate-facts_from_report_example = evaluate-facts_from_report calm calm-excellent
