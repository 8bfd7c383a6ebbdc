-- ===== src/Reporting/Compare/Rows.antt =====
-- internal/reporting/compare.go: the TCP measurements of a direction, and the rows of the table.
use cablecheck.Base.{
  ℕ, suc, ◌-◌, ◌/◌, Bool, true, false, not, ◌&&◌, ◌||◌, Option, none, some, List, [], ◌∷◌, ◌++◌,
  map, length, is_empty, ltb, ◌==◌, if◌then◌else◌,
}
use cablecheck.Base.Int.{ℤ, pos, ltb_ℤ, mul_int}
use cablecheck.Base.Text.{String, str_eq, ◌⧺◌, show_ℕ}
use cablecheck.Float64.{Float64, of_ℕ}
use cablecheck.Model.Report.{TcpResult, direction_pc1_to_pc2, direction_pc2_to_pc1}
use cablecheck.Tcpmetrics.{sort_floats, nth}
use cablecheck.Reporting.Compare.Keys.{udp_metric_keys}
use cablecheck.Reporting.Compare.{
  ComparisonMetric, Measured, uint_metric, counter_group, subtract_self_inflicted, SavedRun,
  float_metric, percent_metric, negotiated_speed, worst_ping_loss, UdpMetricKey, udp_loss,
}

-- What the loop of tcpMetricsForDirection has collected.
pub record Trials (F : Type 0) : Type 0 where
  pub bitrates : List F
  pub retransmits : List ℕ
  pub observed : ℕ
  pub incomplete : Bool
  pub missing_retransmits : Bool

pub record DirectionTcpMetrics (F : Type 0) : Type 0 where
  pub throughput : Option F
  pub retransmits : Option Measured

-- The greatest of a list; 0 where there is none.
abbrev pub greatest : List ℕ → ℕ
greatest [] = 0
greatest (n ∷ ns) = if ltb (greatest ns) n then n else greatest ns

abbrev pub direction_label : String → String
direction_label direction =
    if str_eq direction direction_pc1_to_pc2
    then "pc1 -> pc2"
    else if str_eq direction direction_pc2_to_pc1
    then "pc2 -> pc1"
    else if str_eq direction ""
    then "unknown"
    else direction

-- A group of counters: its name, its keys, whether events of the cable test are taken off.
pub record CounterGroup : Type 0 where
  pub name : String
  pub keys : List String
  pub carrier : Bool

unfoldable pub counter_groups : List CounterGroup
counter_groups =
    record {
      name = "CRC/framing errors";
      keys = "rx_crc" ∷ "rx_frame" ∷ "rx_align" ∷ "rx_symbol" ∷ [];
      carrier = false;
    }
    ∷ record { name = "Driver RX-error aggregate"; keys = "rx_errors_total" ∷ []; carrier = false }
    ∷ record {
      name = "Frame-size errors";
      keys = "jabber" ∷ "oversize" ∷ "undersize" ∷ "rx_length" ∷ [];
      carrier = false;
    }
    ∷ record { name = "FIFO overruns"; keys = "rx_fifo" ∷ []; carrier = false }
    ∷ record { name = "Missed RX errors"; keys = "rx_missed" ∷ []; carrier = false }
    ∷ record { name = "Carrier events"; keys = "link_resets" ∷ []; carrier = true }
    ∷ record {
      name = "Carrier/PHY errors";
      keys = "tx_carrier" ∷ "phy_errors" ∷ [];
      carrier = false;
    }
    ∷ []

-- A side of the cable, pc1 or pc2.
pub data Side : Type 0 where
  pc1 pc2 : Side

abbrev pub side_name : Side → String
side_name pc1 = "pc1"
side_name pc2 = "pc2"

abbrev pub of_side {ℓ} : {A : Type ℓ} → Side → A → A → A
of_side pc1 a b = a
of_side pc2 a b = b

module _ {F : Type 0} ⦃fl : Float64 F⦄ where
  abbrev pub self_inflicted_carrier : SavedRun F → Side → ℕ
  self_inflicted_carrier r side = elim r.self_inflicted [
    | none ↦ 0
    | some both ↦ of_side side both.pc1 both.pc2
  ]

  unfoldable pub group_value : CounterGroup → Side → SavedRun F → Option Measured
  group_value group side r =
      let value = counter_group (of_side side r.deltas.pc1 r.deltas.pc2) group.keys in
      if group.carrier then subtract_self_inflicted value (self_inflicted_carrier r side) else value

  abbrev pub bitrate_of : TcpResult F → F
  bitrate_of t =
      if fl.le t.receiver_bits_per_second (of_ℕ 0)
      then t.sender_bits_per_second
      else t.receiver_bits_per_second

  abbrev pub with_retransmissions : Option ℕ → Trials F → Trials F
  with_retransmissions none ts = record ts { missing_retransmits = true }
  with_retransmissions (some n) ts = record ts { retransmits = ts.retransmits ++ n ∷ [] }

  -- One trial of the direction.
  unfoldable pub count_trial : TcpResult F → Trials F → Trials F
  count_trial t ts =
      let seen = record ts { observed = suc ts.observed } in
      if t.incomplete || fl.le (bitrate_of t) (of_ℕ 0)
      then record seen { incomplete = true }
      else with_retransmissions t.retransmissions
          (record seen { bitrates = seen.bitrates ++ bitrate_of t ∷ [] })

  unfoldable pub collect : List (TcpResult F) → String → Trials F → Trials F
  collect [] direction ts = ts
  collect (t ∷ rest) direction ts =
      collect rest direction (if str_eq t.direction direction then count_trial t ts else ts)

  abbrev pub no_trials : Trials F
  no_trials = record {
    bitrates = [];
    retransmits = [];
    observed = 0;
    incomplete = false;
    missing_retransmits = false;
  }

  abbrev pub expected_trials : SavedRun F → ℤ
  expected_trials r =
      if str_eq r.mode "soak" && ltb_ℤ (pos 0) r.tcp_repeats
      then mul_int r.tcp_repeats r.soak_cycles_completed
      else r.tcp_repeats

  unfoldable pub tcp_metrics_for_direction : SavedRun F → String → DirectionTcpMetrics F
  tcp_metrics_for_direction r direction =
      let ts = collect r.tcp direction no_trials in
      if ts.incomplete
        || (ltb_ℤ (pos 0) (expected_trials r) && ltb_ℤ (pos ts.observed) (expected_trials r))
        || is_empty ts.bitrates
      then record { throughput = none; retransmits = none }
      else record {
        throughput = some (nth (sort_floats ts.bitrates) ((length ts.bitrates - 1) / 2));
        retransmits =
            if not ts.missing_retransmits && length ts.retransmits == length ts.bitrates
            then some (record { value = greatest ts.retransmits; coverage = [] })
            else none;
      }

  unfoldable pub fmt_bps : F → String
  fmt_bps bps =
      if fl.le bps (of_ℕ 0)
      then "0 bit/s"
      else if fl.le (of_ℕ 1_000_000_000) bps
      then fl.show_fixed 2 (fl.div bps (of_ℕ 1_000_000_000)) ⧺ " Gbit/s"
      else if fl.le (of_ℕ 1_000_000) bps
      then fl.show_fixed 1 (fl.div bps (of_ℕ 1_000_000)) ⧺ " Mbit/s"
      else if fl.le (of_ℕ 1_000) bps
      then fl.show_fixed 1 (fl.div bps (of_ℕ 1_000)) ⧺ " Kbit/s"
      else fl.show_fixed 0 bps ⧺ " bit/s"

module _ {F : Type 0} ⦃fl : Float64 F⦄ (math_round : F → F) where
  abbrev pub group_row : SavedRun F → SavedRun F → CounterGroup → Side → ComparisonMetric
  group_row a b group side =
      uint_metric (group.name ⧺ " (" ⧺ side_name side ⧺ ")") (group_value group side a)
        (group_value group side b) false show_ℕ

  unfoldable pub counter_rows : SavedRun F → SavedRun F → List CounterGroup → List ComparisonMetric
  counter_rows a b [] = []
  counter_rows a b (group ∷ groups) =
      group_row a b group pc1 ∷ group_row a b group pc2 ∷ counter_rows a b groups

  unfoldable pub direction_rows : SavedRun F → SavedRun F → String → List ComparisonMetric
  direction_rows a b direction =
      let label = direction_label direction in
      let one = tcp_metrics_for_direction a direction in
      let two = tcp_metrics_for_direction b direction in
      percent_metric math_round ("Ping loss (" ⧺ label ⧺ ")") (worst_ping_loss a.ping direction)
        (worst_ping_loss b.ping direction) false
      ∷ percent_metric math_round ("Full-size loss (" ⧺ label ⧺ ")")
          (worst_ping_loss a.full_size_ping direction) (worst_ping_loss b.full_size_ping direction)
          false
      ∷ float_metric math_round ("TCP throughput (" ⧺ label ⧺ ")") one.throughput two.throughput
          true (of_ℕ 100_000) (λ v. fl.show_fixed 1 (fl.div v (of_ℕ 1_000_000)) ⧺ " Mbps")
      ∷ uint_metric ("TCP retransmits (" ⧺ label ⧺ ")") one.retransmits two.retransmits false show_ℕ
      ∷ []

  abbrev pub udp_row : SavedRun F → SavedRun F → UdpMetricKey → ComparisonMetric
  udp_row a b key =
      percent_metric math_round
        ("UDP loss ("
          ⧺ direction_label key.direction
          ⧺ ", "
          ⧺ fmt_bps {F = F} (of_ℕ key.target_bps)
          ⧺ ")")
        (udp_loss a.udp key) (udp_loss b.udp key) false

  -- `comparisonMetrics`.
  unfoldable pub comparison_metrics : SavedRun F → SavedRun F → List ComparisonMetric
  comparison_metrics a b =
      uint_metric "Negotiated speed" (negotiated_speed a) (negotiated_speed b) true
        (λ v. show_ℕ v ⧺ " Mb/s")
      ∷ (counter_rows a b counter_groups
          ++ (direction_rows a b direction_pc1_to_pc2
              ++ (direction_rows a b direction_pc2_to_pc1
                  ++ map (udp_row a b) (udp_metric_keys a.udp b.udp))))
