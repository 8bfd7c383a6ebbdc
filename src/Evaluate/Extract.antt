-- ===== src/Evaluate/Extract.antt =====
-- internal/evaluate/facts.go: `factsFromReport`, from a saved report to the facts that the rules read.
pub mod Directions
pub mod Link
pub mod Tcp
pub mod Traffic
pub mod Coverage
pub mod Names
use cablecheck.Base.{ℕ, Bool, true, false, ◌||◌, Option, none, some, List, [], if◌then◌else◌}
use cablecheck.Float64.{Float64}
use cablecheck.Model.{CablePairResult}
use cablecheck.Model.Report.{Report, CableTestResult, Peers}
use cablecheck.Evaluate.Facts.{Facts, DirFacts}
use cablecheck.Evaluate.Thresholds.{Thresholds, default}
use cablecheck.Evaluate.Counters.{side_facts}
use cablecheck.Evaluate.Extract.Directions.{Both, zero_dir}
use cablecheck.Evaluate.Extract.Link.{
  negotiated_speed, expected_speed, half_duplex, link_up_at_end, renegotiations,
  monitor_carrier_transitions, virtual_nic,
}
use cablecheck.Evaluate.Extract.Tcp.{tcp_dir}
use cablecheck.Evaluate.Extract.Traffic.{add_pings, add_full_size_pings, add_udp, Udp, max_cpu_pct}
use cablecheck.Evaluate.Extract.Coverage.{throughput_unreachable, unavailable_tests}

module _ {F : Type 0} where
  -- The self-inflicted carrier events of either peer.
  abbrev pub self_inflicted : Option (CableTestResult F) → ℕ × ℕ
  self_inflicted none = (0, 0)
  self_inflicted (some ct) = (ct.self_inflicted_pc1, ct.self_inflicted_pc2)

  abbrev pub ran_cable_test : Option (CableTestResult F) → Bool × List (CablePairResult F)
  ran_cable_test none = (false, [])
  ran_cable_test (some ct) = if ct.available then (true, ct.pairs) else (false, [])

module _ {F : Type 0} ⦃fl : Float64 F⦄ where
  -- The facts of the two directions, phase by phase.
  unfoldable pub dir_facts : Report F → Thresholds F → Udp F
  dir_facts r t =
      let pinged =
        add_full_size_pings r.tests.full_size_ping (add_pings r.tests.ping (zero_dir, zero_dir)) in
      let speed = negotiated_speed r in
      let tcp : Both (DirFacts F) =
        (tcp_dir r t speed false pinged.0, tcp_dir r t speed true pinged.1) in
      add_udp t speed r.tests.udp (record { dirs = tcp; near_saturation = false })

  unfoldable pub facts_from_report_with : Report F → Thresholds F → Facts F
  facts_from_report_with r t =
      let self = self_inflicted r.tests.cable_test in
      let d = dir_facts r t in
      let ran = ran_cable_test r.tests.cable_test in
      record {
        pc1 = side_facts r.initial_counters.pc1 r.final_counters.pc1 self.0;
        pc2 = side_facts r.initial_counters.pc2 r.final_counters.pc2 self.1;
        dir0 = d.dirs.0;
        dir1 = d.dirs.1;
        negotiated_speed = negotiated_speed r;
        expected_speed = expected_speed r;
        half_duplex = half_duplex r;
        link_up_at_end = link_up_at_end r;
        renegotiations = renegotiations r.monitoring_events;
        monitor_carrier_transitions = monitor_carrier_transitions r.monitoring_events;
        cable_test_ran = ran.0;
        cable_test_pairs = ran.1;
        max_cpu_pct = max_cpu_pct r;
        usb_adapter = r.nic.pc1.usb || r.nic.pc2.usb;
        virtual_interface = virtual_nic r.nic.pc1 || virtual_nic r.nic.pc2;
        is_partial = r.is_partial;
        udp_rate_assumed = r.udp_rate_assumed;
        udp_near_saturation = d.near_saturation;
        unavailable = unavailable_tests r;
        throughput_unreachable = throughput_unreachable r.skipped_tests;
      }

  unfoldable pub facts_from_report : Report F → Facts F
  facts_from_report r = facts_from_report_with r default
