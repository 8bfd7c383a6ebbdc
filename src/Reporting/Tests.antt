-- ===== src/Reporting/Tests.antt =====
-- Concrete transfers and comparisons of internal/reporting.
use cablecheck.Base.{ℕ, ◌+◌, ◌≡◌, refl, true, none, some, List, [], ◌∷◌, map, foldl, if◌then◌else◌}
use cablecheck.Base.Int.{pos}
use cablecheck.Base.Text.{String, show_ℕ, str_eq}
use cablecheck.Reporting.Transfer.{Manifest, ChunkFrame, Stat, missing, regular}
use cablecheck.Reporting.Transfer.Receive.{Input, Receiver, receive_reports}
use cablecheck.Reporting.Transfer.Delivery.{arrives}
use cablecheck.Reporting.Transfer.Safety.{IsReceived, announced, receive_reports-IsReceived}
use cablecheck.Reporting.Transfer.Handover.{opens}
use cablecheck.Base.{Option, false, not, ◌&&◌, ltb, ◌^◌, ◌*◌, ◌/◌, arith}
use cablecheck.Base.Int.{negsuc}
use cablecheck.Evaluate.Samples.{Micro, micro}
use cablecheck.Model.{good}
use cablecheck.Evaluate.Counters.{CounterDelta}
use cablecheck.Reporting.Compare.{counter_group, SavedRun, round_to}
use cablecheck.Reporting.Compare.Rows.{comparison_metrics}
use cablecheck.Reporting.Compare.Counters.{
  value_of, all_reliable, all_missing, total, counter_group-total,
}
use cablecheck.Reporting.Compare.Order.{IsIeee, is_number, IsNumeric, relations, reference}
use cablecheck.Reporting.Compare.Swap.{exchanged, comparison_metrics-exchanged}

-- A digest for the examples: the sum of the bytes.
abbrev checksum : List ℕ → String
checksum bytes = show_ℕ (foldl (λ a b. a + b) 0 bytes)

-- Two of the three report files exist.
abbrev disk : String → Stat
disk name =
    if str_eq name "report.json"
    then regular (123 ∷ 125 ∷ [])
    else if str_eq name "summary.txt"
    then regular (111 ∷ 107 ∷ 10 ∷ [])
    else missing

abbrev announcement : Manifest
announcement = record {
  files =
      record { name = "report.json"; size = pos 2; sha256 = "248" }
      ∷ record { name = "summary.txt"; size = pos 3; sha256 = "228" }
      ∷ [];
  total_size = pos 5;
}

-- A directory with an older report of the same name, on a disk on which the first removal fails.
abbrev old_directory : Receiver
old_directory = record {
  files = ("report.json", 48 ∷ []) ∷ [];
  part = none;
  part_name = "";
  partials = [];
  removals = false ∷ [];
  acks = [];
}

-- A chunk that is damaged on the way, and the same chunk again, intact.
abbrev first_chunk : List ℕ → ChunkFrame
first_chunk bytes = record {
  name = "report.json";
  seq = pos 0;
  offset = pos 0;
  contents = bytes;
  last = true;
}

abbrev damaged : List Input
damaged =
    opens announcement
    ∷ arrives (first_chunk (123 ∷ 124 ∷ []))
    ∷ arrives (first_chunk (123 ∷ 125 ∷ []))
    ∷ []

receive_reports-IsReceived_example :
    IsReceived checksum
      (announced checksum damaged)
      old_directory
      (receive_reports checksum true old_directory damaged).0
receive_reports-IsReceived_example =
    receive_reports-IsReceived checksum true old_directory damaged refl

abbrev counters : List (String × CounterDelta)
counters =
    ("rx_crc", record { delta = 3; ok = true })
    ∷ ("rx_frame", record { delta = 4; ok = true })
    ∷ ("rx_missed", record { delta = 0; ok = false })
    ∷ []

counter_group-total_example :
    value_of (counter_group counters ("rx_crc" ∷ "rx_frame" ∷ "rx_align" ∷ [])) ≡ (
      if all_reliable counters ("rx_crc" ∷ "rx_frame" ∷ "rx_align" ∷ [])
        && (ltb (total counters ("rx_crc" ∷ "rx_frame" ∷ "rx_align" ∷ [])) (2 ^ 64)
            && not (all_missing counters ("rx_crc" ∷ "rx_frame" ∷ "rx_align" ∷ [])))
      then some (total counters ("rx_crc" ∷ "rx_frame" ∷ "rx_align" ∷ []))
      else none)
counter_group-total_example = counter_group-total counters ("rx_crc" ∷ "rx_frame" ∷ "rx_align" ∷ [])

-- Two runs: the second with more errors and less ping loss.
abbrev before_run : SavedRun Micro
before_run = record {
  classification = some good;
  mode = "quick";
  tcp_repeats = pos 1;
  soak_cycles_completed = pos 0;
  settings_speeds = none ∷ some (pos 1_000) ∷ [];
  nic_speeds = [];
  deltas = record { pc1 = []; pc2 = [] };
  self_inflicted = none;
  ping = record { direction = "pc1_to_pc2"; transmitted = pos 10; loss_percent = pos 100_000 } ∷ [];
  full_size_ping = [];
  tcp = [];
  udp =
      record {
        direction = "pc2_to_pc1";
        target_bps = 500_000_000;
        actual_sender_bps = pos 0;
        total_packets = pos 1_000;
        loss_percent = pos 0;
        jitter_ms = pos 0;
        out_of_order = none;
        cpu = record { host_total = pos 0; remote_total = pos 0 };
      }
      ∷ [];
}

abbrev after_run : SavedRun Micro
after_run = record before_run {
  deltas = record { pc1 = counters; pc2 = counters };
  ping = record { direction = "pc1_to_pc2"; transmitted = pos 10; loss_percent = pos 0 } ∷ [];
}

-- Rounding to whole numbers, downwards.
abbrev whole : Micro → Micro
whole (pos n) = pos (n / 1_000_000 * 1_000_000)
whole (negsuc n) = negsuc n

micro-IsIeee : IsIeee micro
micro-IsIeee = record {
  symmetric = λ x y. ground arith;
  exclusive = λ x y h. ground arith;
  total = λ x y hx hy h. ground arith;
}

eq_self : (x : Micro) → micro.eq x x ≡ true
eq_self x = ground arith

micro-number : (quantum : Micro) (v : Option Micro) → is_number whole quantum v ≡ true
micro-number quantum none = refl
micro-number quantum (some v) = eq_self (round_to whole v quantum)

micro-IsNumeric : (r : SavedRun Micro) → IsNumeric whole r
micro-IsNumeric r = record {
  ping = λ d. micro-number _ _;
  full_size_ping = λ d. micro-number _ _;
  throughput = λ d. micro-number _ _;
  udp = λ key. micro-number _ _;
}

comparison_metrics-exchanged_example :
    (relations (comparison_metrics whole before_run after_run)
      ≡ reference whole before_run after_run)
    × (map exchanged (comparison_metrics whole before_run after_run)
        ≡ comparison_metrics whole after_run before_run)
comparison_metrics-exchanged_example =
    comparison_metrics-exchanged whole micro-IsIeee before_run after_run
      (micro-IsNumeric before_run) (micro-IsNumeric after_run)
