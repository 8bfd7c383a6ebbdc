-- ===== src/Evaluate/Facts.antt =====
-- internal/evaluate/facts.go: the flat evidence that the rules read.
use cablecheck.Base.{ℕ, Bool, List}
use cablecheck.Base.Int.{ℤ}
use cablecheck.Base.Text.{String}
use cablecheck.Model.{CablePairResult}
use cablecheck.Model.Bitrate.{Bitrate}

-- One peer's counter movement; the counts are uint64.
pub record SideFacts : Type 0 where
  pub crc_class_errors : ℕ
  pub unclassified_rx_errors : ℕ
  pub rx_error_evidence : Bool
  pub carrier_events : ℕ
  pub jabber_size_errors : ℕ
  pub fifo_overrun : ℕ
  pub missed_errors : ℕ
  pub frames_received : ℕ
  pub carrier_phy_errors : ℕ
  pub delta_ok : Bool
  pub counters_available : Bool
  pub baseline_captured : Bool

-- One traffic direction; the counts are `int`, the gap is in nanoseconds.
pub record DirFacts (F : Type 0) : Type 0 where
  pub tcp_available : Bool
  pub tcp_trial_count : ℤ
  pub tcp_throughput_deviations : ℤ
  pub tcp_bitrate : Bitrate
  pub tcp_retrans_rate : F
  pub tcp_retrans_rate_worst : F
  pub tcp_cov : F
  pub tcp_collapses : ℤ
  pub tcp_max_cpu_pct : F
  pub tcp_sender_max_cpu_pct : F
  pub udp_available : Bool
  pub udp_loss_pct : F
  pub udp_jitter_ms : F
  pub udp_out_of_order_pct : F
  pub udp_max_cpu_pct : F
  pub udp_target_reached : Bool
  pub ping_loss_pct : F
  pub ping_duplicates : ℤ
  pub ping_spikes : ℤ
  pub ping_max_gap : ℤ
  pub full_size_loss_pct : F
  pub full_size_available : Bool
  pub frag_errors : ℤ
  pub non_frag_ping_errors : ℤ

-- The array `Dir [2]DirFacts` is the fields `dir0` and `dir1`.
pub record Facts (F : Type 0) : Type 0 where
  pub pc1 : SideFacts
  pub pc2 : SideFacts
  pub dir0 : DirFacts F
  pub dir1 : DirFacts F
  pub negotiated_speed : Bitrate
  pub expected_speed : Bitrate
  pub half_duplex : Bool
  pub link_up_at_end : Bool
  pub renegotiations : ℤ
  pub monitor_carrier_transitions : ℕ
  pub cable_test_ran : Bool
  pub cable_test_pairs : List (CablePairResult F)
  pub max_cpu_pct : F
  pub usb_adapter : Bool
  pub virtual_interface : Bool
  pub is_partial : Bool
  pub udp_rate_assumed : Bool
  pub udp_near_saturation : Bool
  pub unavailable : List String
  pub throughput_unreachable : Bool

-- An index into `Dir`.
pub data Direction : Type 0 where
  pc1_to_pc2 pc2_to_pc1 : Direction

module _ {F : Type 0} where
  abbrev pub dir : Facts F → Direction → DirFacts F
  dir f pc1_to_pc2 = f.dir0
  dir f pc2_to_pc1 = f.dir1

abbrev pub dir_name : Direction → String
dir_name pc1_to_pc2 = "pc1->pc2"
dir_name pc2_to_pc1 = "pc2->pc1"

-- `for i := range f.Dir`, with the loop's variables as the state.
abbrev pub each_dir {ℓ} : {A : Type ℓ} → (Direction → A → A) → A → A
each_dir body a = body pc2_to_pc1 (body pc1_to_pc2 a)
