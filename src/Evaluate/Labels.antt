-- ===== src/Evaluate/Labels.antt =====
-- What the rules of internal/evaluate/rules.go may report at all: identifier, category, severity.
use cablecheck.Base.{ℕ, ◌≤◌, ◌≡◌, Option, none, some, List, [], ◌∷◌, ◌++◌, All, All-append, arith}
use cablecheck.Base.Text.{String}
use cablecheck.Float64.{Float64, of_ℕ}
use cablecheck.Model.{
  Category, physical, transport, performance, host, limitation, rank, Severity, unset, Finding,
  CablePairResult,
}
use cablecheck.Model.Bitrate.{Bitrate}
use cablecheck.Evaluate.Facts.{Facts, Direction, dir, pc1_to_pc2, pc2_to_pc1}
use cablecheck.Evaluate.Thresholds.{Thresholds, ThroughputBands}
use cablecheck.Evaluate.Physical.{
  rule_phy01, rule_phy02, rule_phy03, rule_phy04, rule_phy05, rule_phy06, rule_phy07, rule_phy08,
  rule_phy09, rule_phy10, rule_phy11, worst_pair, pair_step,
}
use cablecheck.Evaluate.Transport.{
  rule_tr01, rule_tr02, rule_tr03, rule_tr04, rule_tr05, rule_tr06, rule_tr07, rule_tr08, rule_tr09,
}
use cablecheck.Evaluate.Performance.{rule_perf01, rule_perf02, rule_perf03, rule_perf04}
use cablecheck.Evaluate.Host.{rule_host01, rule_host02, rule_host03, rule_host04}
use cablecheck.Evaluate.Limitation.{rule_lim01, rule_lim02, rule_lim03, rule_lim04, rule_lim05}
use cablecheck.Evaluate.Throughput.{
  Rule, rule, physical_rules, classify_ratio, classify_throughput, assess_throughput,
}
use cablecheck.Evaluate.Rules.{transport_rules, performance_rules, marker_rules, other_rules, rules}

-- The ranks that a category's findings may have.
abbrev pub lowest : Category → ℕ
lowest physical = 2
lowest transport = 2
lowest performance = 1
lowest host = 5
lowest limitation = 1

abbrev pub highest : Category → ℕ
highest physical = 4
highest transport = 3
highest performance = 3
highest host = 5
highest limitation = 5

-- The rank of a throughput deviation.
abbrev deviation_rank : Option Severity → ℕ
deviation_rank none = 1
deviation_rank (some sev) = rank sev

module _ {F : Type 0} where
  pub record IsLabelled (r : Rule F) (fd : Finding) : Type 0 where
    pub same_id : fd.rule_id ≡ r.id
    pub same_category : fd.category ≡ r.category
    pub not_lower : lowest r.category ≤ rank fd.severity
    pub not_higher : rank fd.severity ≤ highest r.category

  -- Whatever the facts and the thresholds, the rule reports only findings of its own.
  abbrev pub Labels : Rule F → Type 0
  Labels r = (f : Facts F) (t : Thresholds F) (fd : Finding) → r.run f t ≡ some fd → IsLabelled r fd

  phy01-Labels : Labels (rule "PHY-01" physical rule_phy01)
  unfolding rule_phy01
  phy01-Labels f t fd h = ground arith

  phy03-Labels : Labels (rule "PHY-03" physical rule_phy03)
  unfolding rule_phy03
  phy03-Labels f t fd h = ground arith

  phy04-Labels : Labels (rule "PHY-04" physical rule_phy04)
  unfolding rule_phy04
  phy04-Labels f t fd h = ground arith

  phy05-Labels : Labels (rule "PHY-05" physical rule_phy05)
  unfolding rule_phy05
  phy05-Labels f t fd h = ground arith

  phy07-Labels : Labels (rule "PHY-07" physical rule_phy07)
  unfolding rule_phy07
  phy07-Labels f t fd h = ground arith

  phy09-Labels : Labels (rule "PHY-09" physical rule_phy09)
  unfolding rule_phy09
  phy09-Labels f t fd h = ground arith

  phy11-Labels : Labels (rule "PHY-11" physical rule_phy11)
  unfolding rule_phy11
  phy11-Labels f t fd h = ground arith

  tr03-Labels : Labels (rule "TR-03" transport rule_tr03)
  unfolding rule_tr03
  tr03-Labels f t fd h = ground arith

  tr04-Labels : Labels (rule "TR-04" transport rule_tr04)
  unfolding rule_tr04
  tr04-Labels f t fd h = ground arith

  host02-Labels : Labels (rule "HOST-02" host rule_host02)
  unfolding rule_host02
  host02-Labels f t fd h = ground arith

  lim01-Labels : Labels (rule "LIM-01" limitation rule_lim01)
  unfolding rule_lim01
  lim01-Labels f t fd h = ground arith

  lim03-Labels : Labels (rule "LIM-03" limitation rule_lim03)
  unfolding rule_lim03
  lim03-Labels f t fd h = ground arith

  lim04-Labels : Labels (rule "LIM-04" limitation rule_lim04)
  unfolding rule_lim04
  lim04-Labels f t fd h = ground arith

  lim05-Labels : Labels (rule "LIM-05" limitation rule_lim05)
  unfolding rule_lim05
  lim05-Labels f t fd h = ground arith

module _ {F : Type 0} ⦃fl : Float64 F⦄ where
  phy02-Labels : Labels {F = F} (rule "PHY-02" physical rule_phy02)
  unfolding rule_phy02
  phy02-Labels f t fd h = ground arith

  phy06-Labels : Labels {F = F} (rule "PHY-06" physical rule_phy06)
  unfolding rule_phy06
  phy06-Labels f t fd h = ground arith

  phy10-Labels : Labels {F = F} (rule "PHY-10" physical rule_phy10)
  unfolding rule_phy10
  phy10-Labels f t fd h = ground arith

  tr01-Labels : Labels {F = F} (rule "TR-01" transport rule_tr01)
  unfolding rule_tr01
  tr01-Labels f t fd h = ground arith

  tr02-Labels : Labels {F = F} (rule "TR-02" transport rule_tr02)
  unfolding rule_tr02
  tr02-Labels f t fd h = ground arith

  tr05-Labels : Labels {F = F} (rule "TR-05" transport rule_tr05)
  unfolding rule_tr05
  tr05-Labels f t fd h = ground arith

  tr06-Labels : Labels {F = F} (rule "TR-06" transport rule_tr06)
  unfolding rule_tr06
  tr06-Labels f t fd h = ground arith

  tr07-Labels : Labels {F = F} (rule "TR-07" transport rule_tr07)
  unfolding rule_tr07
  tr07-Labels f t fd h = ground arith

  tr08-Labels : Labels {F = F} (rule "TR-08" transport rule_tr08)
  unfolding rule_tr08
  tr08-Labels f t fd h = ground arith

  tr09-Labels : Labels {F = F} (rule "TR-09" transport rule_tr09)
  unfolding rule_tr09
  tr09-Labels f t fd h = ground arith

  perf02-Labels : Labels {F = F} (rule "PERF-02" performance rule_perf02)
  unfolding rule_perf02
  perf02-Labels f t fd h = ground arith

  perf03-Labels : Labels {F = F} (rule "PERF-03" performance rule_perf03)
  unfolding rule_perf03
  perf03-Labels f t fd h = ground arith

  perf04-Labels : Labels {F = F} (rule "PERF-04" performance rule_perf04)
  unfolding rule_perf04
  perf04-Labels f t fd h = ground arith

  host01-Labels : Labels {F = F} (rule "HOST-01" host rule_host01)
  unfolding rule_host01
  host01-Labels f t fd h = ground arith

  host03-Labels : Labels {F = F} (rule "HOST-03" host rule_host03)
  unfolding rule_host03
  host03-Labels f t fd h = ground arith

  host04-Labels : Labels {F = F} (rule "HOST-04" host rule_host04)
  unfolding rule_host04
  host04-Labels f t fd h = ground arith

  lim02-Labels : Labels {F = F} (rule "LIM-02" limitation rule_lim02)
  unfolding rule_lim02
  lim02-Labels f t fd h = ground arith

  pair_step-le :
      (p : CablePairResult F) (s : Severity × List String)
      → rank s.0 ≤ 4
      → rank (pair_step p s).0 ≤ 4
  pair_step-le p s h = ground arith

  pub worst_pair-le :
      (ps : List (CablePairResult F)) (s : Severity × List String)
      → rank s.0 ≤ 4
      → rank (worst_pair ps s).0 ≤ 4
  unfolding worst_pair
  worst_pair-le [] s h = h
  worst_pair-le (p ∷ ps) s h = worst_pair-le ps (pair_step p s) (pair_step-le p s h)

  phy08-Labels : Labels {F = F} (rule "PHY-08" physical rule_phy08)
  unfolding rule_phy08
  phy08-Labels f t fd h = ground (arith, worst_pair-le f.cable_test_pairs (unset, []) (omega arith))

  classify_ratio-range :
      (b : ThroughputBands F) (x : F)
      → (1 ≤ deviation_rank (classify_ratio b x)) × (deviation_rank (classify_ratio b x) ≤ 3)
  unfolding classify_ratio
  classify_ratio-range b x = ground arith

  classify_throughput-range :
      (m n : Bitrate) (t : Thresholds F)
      → let k = deviation_rank (classify_throughput m n t).1 in (1 ≤ k) × (k ≤ 3)
  unfolding classify_throughput
  classify_throughput-range m n t = ground (
    arith,
    classify_ratio-range t.tcp_throughput_100m (fl.div (of_ℕ m) (of_ℕ n)),
    classify_ratio-range t.tcp_throughput_1g (fl.div (of_ℕ m) (of_ℕ n)),
    classify_ratio-range t.tcp_throughput_fallback (fl.div (of_ℕ m) (of_ℕ n)),
  )

  assess_throughput-range :
      (f : Facts F) (i : Direction) (t : Thresholds F)
      → let n = deviation_rank (assess_throughput f i t).deviation in (1 ≤ n) × (n ≤ 3)
  unfolding assess_throughput
  assess_throughput-range f i t =
      ground (arith, classify_throughput-range (dir f i).tcp_bitrate f.negotiated_speed t)

  perf01-Labels : Labels {F = F} (rule "PERF-01" performance rule_perf01)
  unfolding rule_perf01
  perf01-Labels f t fd h =
      ground (arith, assess_throughput-range f pc1_to_pc2 t, assess_throughput-range f pc2_to_pc1 t)

  physical_rules-Labels : All Labels (physical_rules {F = F})
  physical_rules-Labels = (
    phy01-Labels,
    (
      phy02-Labels,
      (
        phy03-Labels,
        (
          phy04-Labels,
          (
            phy05-Labels,
            (
              phy06-Labels,
              (phy07-Labels, (phy08-Labels, (phy09-Labels, (phy10-Labels, (phy11-Labels, tt))))),
            ),
          ),
        ),
      ),
    ),
  )

  transport_rules-Labels : All Labels (transport_rules {F = F})
  transport_rules-Labels = (
    tr01-Labels,
    (
      tr02-Labels,
      (
        tr03-Labels,
        (
          tr04-Labels,
          (tr05-Labels, (tr06-Labels, (tr07-Labels, (tr08-Labels, (tr09-Labels, tt))))),
        ),
      ),
    ),
  )

  performance_rules-Labels : All Labels (performance_rules {F = F})
  performance_rules-Labels = (perf01-Labels, (perf02-Labels, (perf03-Labels, (perf04-Labels, tt))))

  marker_rules-Labels : All Labels (marker_rules {F = F})
  marker_rules-Labels = (
    host01-Labels,
    (
      host02-Labels,
      (
        host03-Labels,
        (
          host04-Labels,
          (lim01-Labels, (lim02-Labels, (lim03-Labels, (lim04-Labels, (lim05-Labels, tt))))),
        ),
      ),
    ),
  )

  pub other_rules-Labels : All Labels (other_rules {F = F})
  other_rules-Labels =
      All-append Labels transport_rules (performance_rules ++ marker_rules) transport_rules-Labels (
        All-append Labels performance_rules marker_rules performance_rules-Labels
          marker_rules-Labels)

  -- Every entry of the table reports only findings of its own.
  pub rules-Labels : All Labels (rules {F = F})
  rules-Labels =
      All-append Labels physical_rules other_rules physical_rules-Labels other_rules-Labels
