-- ===== src/Evaluate/Extract/Tcp.antt =====
-- internal/evaluate/facts.go: the TCP trials of a direction, reduced. The loop over both directions is
-- written for one: a trial of another direction changes nothing of it.
use cablecheck.Base.{
  ℕ, suc, ◌-◌, ◌/◌, Bool, true, false, not, ◌&&◌, ◌||◌, Option, none, some, List, [], ◌∷◌, ◌++◌,
  map, length, is_empty, if◌then◌else◌,
}
use cablecheck.Base.Int.{ℤ, pos, add_int, sub_int, mul_int, max_ℤ, ltb_ℤ, leb_ℤ}
use cablecheck.Base.Text.{str_eq}
use cablecheck.Float64.{Float64, of_ℕ}
use cablecheck.Model.Bitrate.{Bitrate}
use cablecheck.Model.Report.{TcpInterval, TcpCollapseEvent, TcpResult, Report}
use cablecheck.Tcpmetrics.{Sample, sort_floats, nth, collapse_events}
use cablecheck.Evaluate.Facts.{DirFacts}
use cablecheck.Evaluate.Thresholds.{Thresholds}
use cablecheck.Evaluate.Totals.{max_int}
use cablecheck.Evaluate.Transport.{default_mss}
use cablecheck.Evaluate.Throughput.{throughput_shortfall}
use cablecheck.Evaluate.Extract.Directions.{dir_index}

-- The loop of `collapseIntervalCount` from a running total.
unfoldable pub sum_lens : {F : Type 0} → ℤ → List (TcpCollapseEvent F) → ℤ
sum_lens total [] = total
sum_lens total (e ∷ events) = elim (leb_ℤ e.len (pos 0)) [
  | true ↦ sum_lens total events
  | false ↦ elim (ltb_ℤ (sub_int (pos max_int) total) e.len) [
    | true ↦ pos max_int
    | false ↦ sum_lens (add_int total e.len) events
  ]
]

module _ {F : Type 0} where
  -- The number of trials that the report should have for each direction.
  unfoldable pub expected_tcp_trials : Report F → ℤ
  expected_tcp_trials r =
      if leb_ℤ r.tcp_repeats (pos 0)
      then pos 0
      else if str_eq r.mode "soak"
      then mul_int r.tcp_repeats r.soak_cycles_completed
      else r.tcp_repeats

  -- The trial is of the direction.
  abbrev pub is_of : Bool → TcpResult F → Bool
  is_of side tr = elim (dir_index tr.direction) [
    | none ↦ false
    | some false ↦ not side
    | some true ↦ side
  ]

module _ {F : Type 0} ⦃fl : Float64 F⦄ where
  abbrev pub sum_bytes : F → List (TcpInterval F) → F
  sum_bytes total [] = total
  sum_bytes total (iv ∷ intervals) = sum_bytes (fl.add total (of_ℕ iv.bytes)) intervals

  -- The bytes sent: from the intervals, or else from the rate and the duration.
  abbrev pub sent_bytes : TcpResult F → F
  sent_bytes tr =
      let total = sum_bytes (of_ℕ 0) tr.interval_results in
      if fl.eq total (of_ℕ 0) && fl.lt (of_ℕ 0) (fl.seconds tr.duration)
      then fl.div (fl.mul tr.sender_bits_per_second (fl.seconds tr.duration)) (of_ℕ 8)
      else total

  unfoldable pub retrans_rate : TcpResult F → Option F
  retrans_rate tr = elim tr.retransmissions [
    | none ↦ none
    | some retransmissions ↦
        (let bytes = sent_bytes tr in
          let segments = fl.div bytes (of_ℕ default_mss) in
          if fl.le bytes (of_ℕ 0)
          then none
          else if fl.le segments (of_ℕ 0)
          then none
          else some (fl.div (of_ℕ retransmissions) segments))
  ]

  abbrev pub sample_of : TcpInterval F → Sample F
  sample_of iv = record { start_sec = iv.start_sec; bits_per_second = iv.bits_per_second }

  unfoldable pub collapse_interval_count : TcpResult F → ℤ
  collapse_interval_count tr = elim tr.collapses [
    | some events ↦ sum_lens (pos 0) events
    | none ↦ sum_lens (pos 0) (collapse_events (map sample_of tr.interval_results))
  ]

  unfoldable pub lower_median : List F → F
  lower_median values =
      if is_empty values
      then of_ℕ 0
      else nth (sort_floats values) ((length (sort_floats values) - 1) / 2)

  abbrev pub worst_from_zero : F → List F → F
  worst_from_zero worst [] = worst
  worst_from_zero worst (v ∷ values) = worst_from_zero (fl.fmax worst v) values

  abbrev pub worst_of : List F → F
  worst_of values = worst_from_zero (of_ℕ 0) values

-- `tcpSamples`, with the number of trials seen and whether one of them is incomplete.
pub record TcpSamples (F : Type 0) : Type 0 where
  pub bitrates : List F
  pub covs : List F
  pub retrans : List F
  pub collapses : ℤ
  pub max_cpu : F
  pub sender_max_cpu : F
  pub observed : ℕ
  pub incomplete : Bool

module _ {F : Type 0} ⦃fl : Float64 F⦄ where
  abbrev pub no_samples : TcpSamples F
  no_samples = record {
    bitrates = [];
    covs = [];
    retrans = [];
    collapses = pos 0;
    max_cpu = of_ℕ 0;
    sender_max_cpu = of_ℕ 0;
    observed = 0;
    incomplete = false;
  }

  abbrev pub rate_of : TcpResult F → F
  rate_of tr =
      if fl.le tr.receiver_bits_per_second (of_ℕ 0)
      then tr.sender_bits_per_second
      else tr.receiver_bits_per_second

  abbrev pub add_rate : Option F → List F → List F
  add_rate none rates = rates
  add_rate (some rate) rates = rates ++ rate ∷ []

  -- One complete trial.
  abbrev pub add_complete : TcpResult F → TcpSamples F → TcpSamples F
  add_complete tr s = record {
    bitrates = s.bitrates ++ rate_of tr ∷ [];
    covs = s.covs ++ tr.throughput_variation ∷ [];
    retrans = add_rate (retrans_rate tr) s.retrans;
    collapses = max_ℤ s.collapses (collapse_interval_count tr);
    max_cpu =
        fl.fmax (fl.fmax s.max_cpu tr.cpu_utilization.host_total) tr.cpu_utilization.remote_total;
    sender_max_cpu = fl.fmax s.sender_max_cpu tr.cpu_utilization.host_total;
    observed = suc s.observed;
    incomplete = s.incomplete;
  }

  abbrev pub add_trial : Bool → TcpResult F → TcpSamples F → TcpSamples F
  add_trial side tr s =
      if not (is_of side tr)
      then s
      else if tr.incomplete
      then record s { observed = suc s.observed; incomplete = true }
      else add_complete tr s

  unfoldable pub tcp_samples : Bool → List (TcpResult F) → TcpSamples F → TcpSamples F
  tcp_samples side [] s = s
  tcp_samples side (tr ∷ trials) s = tcp_samples side trials (add_trial side tr s)

  -- Too few trials make the direction incomplete as well.
  abbrev pub is_incomplete : Report F → TcpSamples F → Bool
  is_incomplete r s =
      s.incomplete
      || (ltb_ℤ (pos 0) (expected_tcp_trials r) && ltb_ℤ (pos s.observed) (expected_tcp_trials r))

  unfoldable pub count_shortfalls : ℤ → Bitrate → Thresholds F → List F → ℤ
  count_shortfalls n speed t [] = n
  count_shortfalls n speed t (bps ∷ rates) =
      count_shortfalls
        (if throughput_shortfall (fl.to_u64 bps) speed t then add_int n (pos 1) else n) speed t
        rates

  abbrev pub reduce_samples : Thresholds F → Bitrate → TcpSamples F → DirFacts F → DirFacts F
  reduce_samples t speed s d = record d {
    tcp_available = true;
    tcp_trial_count = pos (length s.bitrates);
    tcp_throughput_deviations = count_shortfalls d.tcp_throughput_deviations speed t s.bitrates;
    tcp_bitrate = fl.to_u64 (lower_median s.bitrates);
    tcp_retrans_rate = lower_median s.retrans;
    tcp_retrans_rate_worst = worst_of s.retrans;
    tcp_cov = lower_median s.covs;
    tcp_collapses = s.collapses;
    tcp_max_cpu_pct = s.max_cpu;
    tcp_sender_max_cpu_pct = s.sender_max_cpu;
  }

  abbrev pub clear_tcp : DirFacts F → DirFacts F
  clear_tcp d = record d {
    tcp_available = false;
    tcp_trial_count = pos 0;
    tcp_throughput_deviations = pos 0;
    tcp_bitrate = 0;
    tcp_retrans_rate = of_ℕ 0;
    tcp_retrans_rate_worst = of_ℕ 0;
    tcp_cov = of_ℕ 0;
    tcp_collapses = pos 0;
    tcp_max_cpu_pct = of_ℕ 0;
    tcp_sender_max_cpu_pct = of_ℕ 0;
  }

  -- The TCP facts of a direction, on what is known of it before.
  unfoldable pub tcp_dir : Report F → Thresholds F → Bitrate → Bool → DirFacts F → DirFacts F
  tcp_dir r t speed side d =
      let s = tcp_samples side r.tests.tcp no_samples in
      let measured = if is_empty s.bitrates then d else reduce_samples t speed s d in
      if is_incomplete r s then clear_tcp measured else measured
