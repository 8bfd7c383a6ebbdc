-- ===== src/Evaluate/SampleReport.antt =====
-- A saved report of an undisturbed gigabit run, and what it is evaluated to.
use cablecheck.Base.{◌≡◌, refl, true, false, none, some, [], ◌∷◌}
use cablecheck.Base.Int.{pos}
use cablecheck.Base.Text.{String}
use cablecheck.Model.{excellent}
use cablecheck.Model.Report.{
  CpuUsage, TcpResult, PingResult, UdpResult, LinkSettings, LinkEndpoint, NicReport,
  CounterSnapshot, Report,
}
use cablecheck.Tcpmetrics.{insert_float, sort_floats, median_of, group_rows, collapse_events}
use cablecheck.Evaluate.Counters.{
  counter_of, counter_delta, delta_keys, has_new_key, delta_set, sum_from, frames_received,
  unclassified_rx_errors, side_facts,
}
use cablecheck.Evaluate.Extract.{dir_facts, facts_from_report_with, facts_from_report}
use cablecheck.Evaluate.Extract.Tcp.{
  sum_lens, expected_tcp_trials, retrans_rate, collapse_interval_count, lower_median, tcp_samples,
  count_shortfalls, tcp_dir,
}
use cablecheck.Evaluate.Extract.Link.{
  begins, contains, equals, first_speed, mode_digits, max_mode, renegotiations,
  monitor_carrier_transitions, negotiated_speed, expected_speed, half_duplex, link_up_at_end,
}
use cablecheck.Evaluate.Extract.Coverage.{
  has_prefix, throughput_unreachable, add_skipped, unavailable_tests,
}
use cablecheck.Evaluate.Extract.Traffic.{add_pings, add_full_size_pings, add_udp, max_cpu_pct}
use cablecheck.Evaluate.Totals.{
  sum_reliable_sides, crc_total, carrier_phy_total, jabber_total, unclassified_rx_total,
  carrier_events, saturating_positive_total, tcp_collapse_total, asymmetry_ratio,
}
use cablecheck.Evaluate.Physical.{
  rule_phy01, rule_phy03, rule_phy04, rule_phy05, rule_phy07, rule_phy09, rule_phy11, rule_phy02,
  rule_phy06, worst_pair, rule_phy08, rule_phy10,
}
use cablecheck.Evaluate.Throughput.{
  classify_ratio, classify_throughput, throughput_shortfall, clean_under, physical_layer_clean,
  assess_throughput,
}
use cablecheck.Evaluate.Transport.{
  rule_tr01, rule_tr02, rule_tr05, rule_tr06, rule_tr07, rule_tr08, rule_tr09, rule_tr03, rule_tr04,
}
use cablecheck.Evaluate.Performance.{rule_perf01, rule_perf02, rule_perf03, rule_perf04}
use cablecheck.Evaluate.Host.{
  rule_host02, rule_host01, rule_host03, limiting_drop_rate, rule_host04,
}
use cablecheck.Evaluate.Limitation.{
  rule_lim01, lim02_sides, lim02_tcp, rule_lim03, rule_lim04, rule_lim05, lim02_tests, rule_lim02,
}
use cablecheck.Evaluate.Classify.{
  worst_cats, worst_from, has_host_limit, all_poor_are_host_sensitive, any_info_deviation, cap,
  decide_class, classify,
}
use cablecheck.Evaluate.Score.{clamp_to_band, raw_score, score_for}
use cablecheck.Evaluate.Engine.{run_rules, evaluate_with, evaluate}
use cablecheck.Evaluate.Samples.{micro, Micro}

abbrev light_load : CpuUsage Micro
light_load = record { host_total = pos 20_000_000; remote_total = pos 20_000_000 }

abbrev tcp_run : String → TcpResult Micro
tcp_run direction = record {
  direction = direction;
  incomplete = false;
  duration = pos 10_000_000_000;
  sender_bits_per_second = pos 942_000_000_000_000;
  receiver_bits_per_second = pos 941_000_000_000_000;
  retransmissions = some 0;
  interval_results = [];
  collapses = some [];
  throughput_variation = pos 10_000;
  cpu_utilization = light_load;
}

abbrev ping_run : String → PingResult Micro
ping_run direction = record {
  direction = direction;
  duplicates = pos 0;
  send_errors = pos 0;
  icmp_errors = pos 0;
  frag_needed_errors = pos 0;
  loss_percent = pos 0;
  spikes = 0;
  longest_gap_ms = pos 10_000_000;
}

abbrev udp_run : String → UdpResult Micro
udp_run direction = record {
  direction = direction;
  target_bps = 800_000_000;
  actual_sender_bps = pos 800_000_000_000_000;
  total_packets = pos 100_000;
  loss_percent = pos 0;
  jitter_ms = pos 100_000;
  out_of_order = some (pos 0);
  cpu = light_load;
}

abbrev gigabit : LinkSettings
gigabit = record {
  speed_mbps = pos 1_000;
  duplex = "Full";
  link_detected = true;
  supported_modes = "100baseT/Full" ∷ "1000baseT/Full" ∷ [];
  advertised_modes = "1000baseT/Full" ∷ [];
  partner_modes = "1000baseT/Full" ∷ [];
}

abbrev gigabit_endpoint : LinkEndpoint
gigabit_endpoint = record { before = some gigabit; after = some gigabit }

abbrev nic : NicReport
nic = record { name = "eth0"; driver = "igc"; speed_mbps = pos 1_000; duplex = "full"; usb = false }

abbrev no_errors : CounterSnapshot
no_errors = record { standard = ("rx_crc", 0) ∷ ("tx_carrier", 2) ∷ []; rx_packets = 1_000_000 }

abbrev pub calm : Report Micro
calm = record {
  mode = "quick";
  tcp_repeats = pos 2;
  soak_cycles_completed = pos 0;
  nic = record { pc1 = nic; pc2 = nic };
  tests = record {
    ping = ping_run "pc1_to_pc2" ∷ ping_run "pc2_to_pc1" ∷ [];
    full_size_ping = ping_run "pc1_to_pc2" ∷ ping_run "pc2_to_pc1" ∷ [];
    tcp =
        tcp_run "pc1_to_pc2"
        ∷ tcp_run "pc2_to_pc1"
        ∷ tcp_run "pc1_to_pc2"
        ∷ tcp_run "pc2_to_pc1"
        ∷ [];
    udp = udp_run "pc1_to_pc2" ∷ udp_run "pc2_to_pc1" ∷ [];
    bidirectional = none;
    cable_test = none;
  };
  initial_counters = record { pc1 = some no_errors; pc2 = some no_errors };
  final_counters = record { pc1 = some no_errors; pc2 = some no_errors };
  monitoring_events = [];
  skipped_tests = [];
  udp_rate_assumed = false;
  is_partial = false;
  link = some (record { pc1 = gigabit_endpoint; pc2 = gigabit_endpoint });
}

pub calm-excellent : (evaluate (facts_from_report calm)).class ≡ excellent
unfolding sum_reliable_sides crc_total carrier_phy_total jabber_total unclassified_rx_total
    carrier_events saturating_positive_total tcp_collapse_total asymmetry_ratio rule_phy01
    rule_phy03 rule_phy04 rule_phy05 rule_phy07 rule_phy09 rule_phy11 rule_phy02 rule_phy06
    worst_pair rule_phy08 rule_phy10 classify_ratio classify_throughput throughput_shortfall
    clean_under physical_layer_clean assess_throughput rule_tr01 rule_tr02 rule_tr05 rule_tr06
    rule_tr07 rule_tr08 rule_tr09 rule_tr03 rule_tr04 rule_perf01 rule_perf02 rule_perf03
    rule_perf04 rule_host02 rule_host01 rule_host03 limiting_drop_rate rule_host04 rule_lim01
    lim02_sides lim02_tcp rule_lim03 rule_lim04 rule_lim05 lim02_tests rule_lim02 worst_cats
    worst_from has_host_limit all_poor_are_host_sensitive any_info_deviation cap decide_class
    classify clamp_to_band raw_score score_for run_rules evaluate_with evaluate insert_float
    sort_floats median_of group_rows collapse_events counter_of counter_delta delta_keys has_new_key
    delta_set sum_from frames_received unclassified_rx_errors side_facts dir_facts
    facts_from_report_with facts_from_report sum_lens expected_tcp_trials retrans_rate
    collapse_interval_count lower_median tcp_samples count_shortfalls tcp_dir begins contains equals
    first_speed mode_digits max_mode renegotiations monitor_carrier_transitions negotiated_speed
    expected_speed half_duplex link_up_at_end has_prefix throughput_unreachable add_skipped
    unavailable_tests add_pings add_full_size_pings add_udp max_cpu_pct
calm-excellent = refl
