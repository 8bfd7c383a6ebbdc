-- ===== src/Evaluate/SampleRuns.antt =====
-- What the evaluation of internal/evaluate answers on the sample runs, by computation.
use cablecheck.Base.{◌≡◌, refl, false, some}
use cablecheck.Base.Int.{pos}
use cablecheck.Model.{excellent, warning, failed, inconclusive, sev_poor}
use cablecheck.Evaluate.Thresholds.{default}
use cablecheck.Evaluate.Totals.{
  sum_reliable_sides, crc_total, carrier_phy_total, jabber_total, unclassified_rx_total,
  carrier_events, saturating_positive_total, tcp_collapse_total, asymmetry_ratio,
}
use cablecheck.Evaluate.Physical.{
  rule_phy01, rule_phy03, rule_phy04, rule_phy05, rule_phy07, rule_phy09, rule_phy11, rule_phy02,
  rule_phy06, worst_pair, rule_phy08, rule_phy10,
}
use cablecheck.Evaluate.Throughput.{
  classify_ratio, classify_throughput, throughput_shortfall, clean_under, physical_layer_clean,
  assess_throughput,
}
use cablecheck.Evaluate.Transport.{
  rule_tr01, rule_tr02, rule_tr05, rule_tr06, rule_tr07, rule_tr08, rule_tr09, rule_tr03, rule_tr04,
}
use cablecheck.Evaluate.Performance.{rule_perf01, rule_perf02, rule_perf03, rule_perf04}
use cablecheck.Evaluate.Host.{
  rule_host02, rule_host01, rule_host03, limiting_drop_rate, rule_host04,
}
use cablecheck.Evaluate.Limitation.{
  rule_lim01, lim02_sides, lim02_tcp, rule_lim03, rule_lim04, rule_lim05, lim02_tests, rule_lim02,
}
use cablecheck.Evaluate.Classify.{
  worst_cats, worst_from, has_host_limit, all_poor_are_host_sensitive, any_info_deviation, cap,
  decide_class, classify,
}
use cablecheck.Evaluate.Score.{clamp_to_band, raw_score, score_for}
use cablecheck.Evaluate.Engine.{run_rules, evaluate_with, evaluate, findings_of}
use cablecheck.Evaluate.Verdict.{physical_reaches}
use cablecheck.Evaluate.Samples.{micro, quiet, warm, flapping, slow, virtual}

pub sample_runs :
    ((evaluate quiet).class ≡ excellent)
    × ((evaluate quiet).score ≡ some (pos 100))
    × ((evaluate flapping).class ≡ failed)
    × ((evaluate slow).class ≡ warning)
    × ((evaluate virtual).class ≡ inconclusive)
    × ((evaluate warm).score ≡ some (pos 100))
    × (physical_reaches sev_poor (findings_of virtual default) ≡ false)
unfolding sum_reliable_sides crc_total carrier_phy_total jabber_total unclassified_rx_total
    carrier_events saturating_positive_total tcp_collapse_total asymmetry_ratio rule_phy01
    rule_phy03 rule_phy04 rule_phy05 rule_phy07 rule_phy09 rule_phy11 rule_phy02 rule_phy06
    worst_pair rule_phy08 rule_phy10 classify_ratio classify_throughput throughput_shortfall
    clean_under physical_layer_clean assess_throughput rule_tr01 rule_tr02 rule_tr05 rule_tr06
    rule_tr07 rule_tr08 rule_tr09 rule_tr03 rule_tr04 rule_perf01 rule_perf02 rule_perf03
    rule_perf04 rule_host02 rule_host01 rule_host03 limiting_drop_rate rule_host04 rule_lim01
    lim02_sides lim02_tcp rule_lim03 rule_lim04 rule_lim05 lim02_tests rule_lim02 worst_cats
    worst_from has_host_limit all_poor_are_host_sensitive any_info_deviation cap decide_class
    classify clamp_to_band raw_score score_for run_rules evaluate_with evaluate
sample_runs = (refl, refl, refl, refl, refl, refl, refl)
