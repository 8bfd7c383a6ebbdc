-- ===== src/Evaluate/Samples.antt =====
-- Concrete runs for the examples of internal/evaluate: numbers in millionths for float64, the facts
-- of an undisturbed run, and runs that differ from it in one point.
use cablecheck.Base.{◌+◌, ◌*◌, ◌/◌, true, false, [], if◌then◌else◌}
use cablecheck.Base.Int.{ℤ, pos, pos_part, neg_part, ◌+ℤ◌, ◌-ℤ◌, ltb_ℤ, leb_ℤ, eqb_ℤ, max_ℤ, sub_ℕ}
use cablecheck.Base.Text.{◌⧺◌, show_ℤ}
use cablecheck.Float64.{Float64}
use cablecheck.Evaluate.Facts.{SideFacts, DirFacts, Facts}

-- A number in millionths.
abbrev pub Micro : Type 0
Micro = ℤ

-- The product and the quotient by their signed parts; one part of an integer is 0.
abbrev times : Micro → Micro → Micro
times a b =
    sub_ℕ ((pos_part a * pos_part b + neg_part a * neg_part b) / 1_000_000)
      ((pos_part a * neg_part b + neg_part a * pos_part b) / 1_000_000)

abbrev over : Micro → Micro → Micro
over a b =
    sub_ℕ (pos_part a * 1_000_000 / pos_part b + neg_part a * 1_000_000 / neg_part b)
      (pos_part a * 1_000_000 / neg_part b + neg_part a * 1_000_000 / pos_part b)

instance abbrev pub micro : Float64 Micro
micro = record {
  of_ratio = λ n d. pos (n * 1_000_000 / d);
  of_ℤ = λ n. sub_ℕ (pos_part n * 1_000_000) (neg_part n * 1_000_000);
  lt = ltb_ℤ;
  le = leb_ℤ;
  eq = eqb_ℤ;
  add = λ a b. a +ℤ b;
  sub = λ a b. a -ℤ b;
  mul = times;
  div = over;
  abs = λ a. pos (pos_part a + neg_part a);
  fmin = λ a b. if ltb_ℤ a b then a else b;
  fmax = max_ℤ;
  is_inf = λ a. false;
  to_u64 = λ a. pos_part a / 1_000_000;
  to_int = λ a. sub_ℕ (pos_part a / 1_000_000) (neg_part a / 1_000_000);
  seconds = λ n. sub_ℕ (pos_part n / 1_000) (neg_part n / 1_000);
  round = λ a. sub_ℕ ((pos_part a + 500_000) / 1_000_000) ((neg_part a + 500_000) / 1_000_000);
  show_fixed = λ n a. show_ℤ a;
  show_g = show_ℤ;
  show_duration = show_ℤ;
  show_quoted = λ s. "'" ⧺ (s ⧺ "'");
}

abbrev pub quiet_side : SideFacts
quiet_side = record {
  crc_class_errors = 0;
  unclassified_rx_errors = 0;
  rx_error_evidence = true;
  carrier_events = 0;
  jabber_size_errors = 0;
  fifo_overrun = 0;
  missed_errors = 0;
  frames_received = 1_000_000;
  carrier_phy_errors = 0;
  delta_ok = true;
  counters_available = true;
  baseline_captured = true;
}

abbrev pub quiet_dir : DirFacts Micro
quiet_dir = record {
  tcp_available = true;
  tcp_trial_count = pos 3;
  tcp_throughput_deviations = pos 0;
  tcp_bitrate = 941_000_000;
  tcp_retrans_rate = pos 0;
  tcp_retrans_rate_worst = pos 0;
  tcp_cov = pos 10_000;
  tcp_collapses = pos 0;
  tcp_max_cpu_pct = pos 20_000_000;
  tcp_sender_max_cpu_pct = pos 20_000_000;
  udp_available = true;
  udp_loss_pct = pos 0;
  udp_jitter_ms = pos 100_000;
  udp_out_of_order_pct = pos 0;
  udp_max_cpu_pct = pos 20_000_000;
  udp_target_reached = true;
  ping_loss_pct = pos 0;
  ping_duplicates = pos 0;
  ping_spikes = pos 0;
  ping_max_gap = pos 10_000_000;
  full_size_loss_pct = pos 0;
  full_size_available = true;
  frag_errors = pos 0;
  non_frag_ping_errors = pos 0;
}

-- A gigabit link without a fault.
abbrev pub quiet : Facts Micro
quiet = record {
  pc1 = quiet_side;
  pc2 = quiet_side;
  dir0 = quiet_dir;
  dir1 = quiet_dir;
  negotiated_speed = 1_000_000_000;
  expected_speed = 1_000_000_000;
  half_duplex = false;
  link_up_at_end = true;
  renegotiations = pos 0;
  monitor_carrier_transitions = 0;
  cable_test_ran = true;
  cable_test_pairs = [];
  max_cpu_pct = pos 20_000_000;
  usb_adapter = false;
  virtual_interface = false;
  is_partial = false;
  udp_rate_assumed = false;
  udp_near_saturation = false;
  unavailable = [];
  throughput_unreachable = false;
}

-- The same run with one change: a warmer processor, six carrier events on one side, half the
-- bandwidth one way, and a virtual interface.
abbrev pub warm : Facts Micro
warm = record quiet { max_cpu_pct = pos 30_000_000 }

abbrev pub flapping : Facts Micro
flapping = record quiet { pc1 = record quiet_side { carrier_events = 6 } }

abbrev pub slow : Facts Micro
slow = record quiet { dir0 = record quiet_dir { tcp_bitrate = 470_000_000 } }

abbrev pub virtual : Facts Micro
virtual = record quiet { virtual_interface = true }
