-- ===== src/Model/Report.antt =====
-- internal/model/report.go, result.go and counters.go: what the evaluation reads of a saved report.
-- Fields that nothing modelled reads are left out; times and durations are in nanoseconds.
use cablecheck.Base.{ℕ, Bool, Option, List}
use cablecheck.Base.Int.{ℤ}
use cablecheck.Base.Text.{String}
use cablecheck.Model.{CablePairResult}

abbrev pub direction_pc1_to_pc2 : String
direction_pc1_to_pc2 = "pc1_to_pc2"

abbrev pub direction_pc2_to_pc1 : String
direction_pc2_to_pc1 = "pc2_to_pc1"

abbrev pub skip_reason_unreachable : String
skip_reason_unreachable = "peer data port unreachable"

pub record CpuUsage (F : Type 0) : Type 0 where
  pub host_total : F
  pub remote_total : F

pub record TcpInterval (F : Type 0) : Type 0 where
  pub start_sec : F
  pub bytes : ℕ
  pub bits_per_second : F

pub record TcpCollapseEvent (F : Type 0) : Type 0 where
  pub start_sec : F
  pub len : ℤ
  pub min_bps : F

-- A nil slice of collapses is `none`.
pub record TcpResult (F : Type 0) : Type 0 where
  pub direction : String
  pub incomplete : Bool
  pub duration : ℤ
  pub sender_bits_per_second : F
  pub receiver_bits_per_second : F
  pub retransmissions : Option ℕ
  pub interval_results : List (TcpInterval F)
  pub collapses : Option (List (TcpCollapseEvent F))
  pub throughput_variation : F
  pub cpu_utilization : CpuUsage F

-- `spikes` is their number.
pub record PingResult (F : Type 0) : Type 0 where
  pub direction : String
  pub duplicates : ℤ
  pub send_errors : ℤ
  pub icmp_errors : ℤ
  pub frag_needed_errors : ℤ
  pub loss_percent : F
  pub spikes : ℕ
  pub longest_gap_ms : F

pub record UdpResult (F : Type 0) : Type 0 where
  pub direction : String
  pub target_bps : ℕ
  pub actual_sender_bps : F
  pub total_packets : ℤ
  pub loss_percent : F
  pub jitter_ms : F
  pub out_of_order : Option ℤ
  pub cpu : CpuUsage F

pub record LinkSettings : Type 0 where
  pub speed_mbps : ℤ
  pub duplex : String
  pub link_detected : Bool
  pub supported_modes : List String
  pub advertised_modes : List String
  pub partner_modes : List String

pub record LinkEndpoint : Type 0 where
  pub before : Option LinkSettings
  pub after : Option LinkSettings

pub record LinkSection : Type 0 where
  pub pc1 : LinkEndpoint
  pub pc2 : LinkEndpoint

pub record NicReport : Type 0 where
  pub name : String
  pub driver : String
  pub speed_mbps : ℤ
  pub duplex : String
  pub usb : Bool

pub record CableTestResult (F : Type 0) : Type 0 where
  pub available : Bool
  pub pairs : List (CablePairResult F)
  pub tdr_unavailable_reason : String
  -- SelfInflictedCarrierEvents of either peer
  pub self_inflicted_pc1 : ℕ
  pub self_inflicted_pc2 : ℕ

pub record MonitoringEvent : Type 0 where
  pub kind : String
  pub self_inflicted : Bool

pub record SkippedTest : Type 0 where
  pub name : String
  pub reason : String

pub record CounterSnapshot : Type 0 where
  pub standard : List (String × ℕ)
  pub rx_packets : ℕ

-- Both peers' value of something.
pub record Peers (A : Type 0) : Type 0 where
  pub pc1 : A
  pub pc2 : A

pub record TestsSection (F : Type 0) : Type 0 where
  pub ping : List (PingResult F)
  pub full_size_ping : List (PingResult F)
  pub tcp : List (TcpResult F)
  pub udp : List (UdpResult F)
  -- the CPU use of a bidirectional test, if there was one
  pub bidirectional : Option (CpuUsage F)
  pub cable_test : Option (CableTestResult F)

pub record Report (F : Type 0) : Type 0 where
  pub mode : String
  pub tcp_repeats : ℤ
  pub soak_cycles_completed : ℤ
  pub nic : Peers NicReport
  pub tests : TestsSection F
  pub initial_counters : Peers (Option CounterSnapshot)
  pub final_counters : Peers (Option CounterSnapshot)
  pub monitoring_events : List MonitoringEvent
  pub skipped_tests : List SkippedTest
  pub udp_rate_assumed : Bool
  pub is_partial : Bool
  pub link : Option LinkSection
