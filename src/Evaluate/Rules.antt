-- ===== src/Evaluate/Rules.antt =====
-- internal/evaluate/rules.go: the rule table in its fixed order.
use cablecheck.Base.{List, [], ◌∷◌, ◌++◌}
use cablecheck.Float64.{Float64}
use cablecheck.Model.{transport, performance, host, limitation}
use cablecheck.Evaluate.Throughput.{Rule, rule, physical_rules}
use cablecheck.Evaluate.Transport.{
  rule_tr01, rule_tr02, rule_tr03, rule_tr04, rule_tr05, rule_tr06, rule_tr07, rule_tr08, rule_tr09,
}
use cablecheck.Evaluate.Performance.{rule_perf01, rule_perf02, rule_perf03, rule_perf04}
use cablecheck.Evaluate.Host.{rule_host01, rule_host02, rule_host03, rule_host04}
use cablecheck.Evaluate.Limitation.{rule_lim01, rule_lim02, rule_lim03, rule_lim04, rule_lim05}

module _ {F : Type 0} ⦃fl : Float64 F⦄ where
  abbrev pub transport_rules : List (Rule F)
  transport_rules =
      rule "TR-01" transport rule_tr01
      ∷ rule "TR-02" transport rule_tr02
      ∷ rule "TR-03" transport rule_tr03
      ∷ rule "TR-04" transport rule_tr04
      ∷ rule "TR-05" transport rule_tr05
      ∷ rule "TR-06" transport rule_tr06
      ∷ rule "TR-07" transport rule_tr07
      ∷ rule "TR-08" transport rule_tr08
      ∷ rule "TR-09" transport rule_tr09
      ∷ []

  abbrev pub performance_rules : List (Rule F)
  performance_rules =
      rule "PERF-01" performance rule_perf01
      ∷ rule "PERF-02" performance rule_perf02
      ∷ rule "PERF-03" performance rule_perf03
      ∷ rule "PERF-04" performance rule_perf04
      ∷ []

  abbrev pub marker_rules : List (Rule F)
  marker_rules =
      rule "HOST-01" host rule_host01
      ∷ rule "HOST-02" host rule_host02
      ∷ rule "HOST-03" host rule_host03
      ∷ rule "HOST-04" host rule_host04
      ∷ rule "LIM-01" limitation rule_lim01
      ∷ rule "LIM-02" limitation rule_lim02
      ∷ rule "LIM-03" limitation rule_lim03
      ∷ rule "LIM-04" limitation rule_lim04
      ∷ rule "LIM-05" limitation rule_lim05
      ∷ []

  -- The table after its physical rules.
  abbrev pub other_rules : List (Rule F)
  other_rules = transport_rules ++ (performance_rules ++ marker_rules)

  abbrev pub rules : List (Rule F)
  rules = physical_rules ++ other_rules
