-- ===== src/Evaluate/Extract/Directions.antt =====
-- internal/evaluate/facts.go: results by direction. The index of a direction is 0 (false) or 1 (true).
use cablecheck.Base.{Bool, true, false, Option, none, some, if◌then◌else◌}
use cablecheck.Base.Int.{pos}
use cablecheck.Base.Text.{String, str_eq}
use cablecheck.Float64.{Float64, of_ℕ}
use cablecheck.Model.Report.{direction_pc1_to_pc2, direction_pc2_to_pc1}
use cablecheck.Evaluate.Facts.{DirFacts}

abbrev pub Both : Type 0 → Type 0
Both A = A × A

abbrev pub dir_index : String → Option Bool
dir_index direction =
    if str_eq direction direction_pc1_to_pc2
    then some false
    else if str_eq direction direction_pc2_to_pc1
    then some true
    else none

abbrev pub is_known : Option Bool → Bool
is_known none = false
is_known (some _) = true

-- An update of the entry of a direction; an unknown direction is skipped.
abbrev pub update_dir : {A : Type 0} → Option Bool → (A → A) → Both A → Both A
update_dir none g d = d
update_dir (some false) g (a, b) = (g a, b)
update_dir (some true) g (a, b) = (a, g b)

module _ {F : Type 0} ⦃fl : Float64 F⦄ where
  -- The zero value.
  abbrev pub zero_dir : DirFacts F
  zero_dir = record {
    tcp_available = false;
    tcp_trial_count = pos 0;
    tcp_throughput_deviations = pos 0;
    tcp_bitrate = 0;
    tcp_retrans_rate = of_ℕ 0;
    tcp_retrans_rate_worst = of_ℕ 0;
    tcp_cov = of_ℕ 0;
    tcp_collapses = pos 0;
    tcp_max_cpu_pct = of_ℕ 0;
    tcp_sender_max_cpu_pct = of_ℕ 0;
    udp_available = false;
    udp_loss_pct = of_ℕ 0;
    udp_jitter_ms = of_ℕ 0;
    udp_out_of_order_pct = of_ℕ 0;
    udp_max_cpu_pct = of_ℕ 0;
    udp_target_reached = false;
    ping_loss_pct = of_ℕ 0;
    ping_duplicates = pos 0;
    ping_spikes = pos 0;
    ping_max_gap = pos 0;
    full_size_loss_pct = of_ℕ 0;
    full_size_available = false;
    frag_errors = pos 0;
    non_frag_ping_errors = pos 0;
  }
