-- ===== src/Reporting/Compare/Swap.antt =====
-- internal/reporting/compare.go: the table with the two reports exchanged.
use cablecheck.Base.{
  ◌∙◌, ℕ, ◌≡◌, refl, sym, ap, Bool, true, false, Option, none, some, List, [], ◌∷◌, ◌++◌, map,
  arith, if◌then◌else◌,
}
use cablecheck.Base.Text.{String, str_eq_comm, ◌⧺◌, show_ℕ}
use cablecheck.Float64.{Float64}
use cablecheck.Model.{HealthClass}
use cablecheck.Model.Report.{direction_pc1_to_pc2, direction_pc2_to_pc1}
use cablecheck.Reporting.Compare.{
  MetricRelation, better, worse, same, unavailable, ComparisonMetric, Measured, SavedAssessment,
  assessed_better, assessed_worse, unchanged, undecided, health_rank, by_rank, saved_assessment,
  ordered_relation, list_eq, relation_of, shown, uint_metric, SavedRun, round_to, float_relation,
  float_metric, percent_metric, UdpMetricKey, worst_ping_loss, udp_loss, negotiated_speed,
}
use cablecheck.Reporting.Compare.Order.{
  IsIeee, is_number, IsNumeric, relations, reference, comparison_metrics-relations,
}
use cablecheck.Reporting.Compare.Keys.{udp_metric_keys, udp_metric_keys_comm}
use cablecheck.Reporting.Compare.Rows.{
  CounterGroup, counter_rows, direction_rows, comparison_metrics, udp_row, counter_groups,
  side_name, pc1, pc2, group_value, tcp_metrics_for_direction,
}

abbrev pub turned : MetricRelation → MetricRelation
turned better = worse
turned worse = better
turned same = same
turned unavailable = unavailable

-- The row with its two columns exchanged.
abbrev pub exchanged : ComparisonMetric → ComparisonMetric
exchanged m = record {
  name = m.name;
  baseline = m.candidate;
  candidate = m.baseline;
  relation = turned m.relation;
}

abbrev pub opposite : SavedAssessment → SavedAssessment
opposite assessed_better = assessed_worse
opposite assessed_worse = assessed_better
opposite unchanged = unchanged
opposite undecided = undecided

by_rank-opposite : (b c : Option ℕ) → by_rank c b ≡ opposite (by_rank b c)
by_rank-opposite none none = refl
by_rank-opposite none (some c) = refl
by_rank-opposite (some b) none = refl
by_rank-opposite (some b) (some c) = ground arith

-- With the reports exchanged a better assessment is a worse one and the other way round, and an equal or
-- undecided one stays as it is.
pub saved_assessment-opposite :
    (b c : Option HealthClass) → saved_assessment c b ≡ opposite (saved_assessment b c)
unfolding saved_assessment
saved_assessment-opposite none none = refl
saved_assessment-opposite none (some c) = refl
saved_assessment-opposite (some b) none = refl
saved_assessment-opposite (some b) (some c) = by_rank-opposite (health_rank b) (health_rank c)

if-turned :
    (test : Bool) (x y : MetricRelation)
    → y ≡ turned x
    → (if test then y else unavailable) ≡ turned (if test then x else unavailable)
if-turned true x y h = h
if-turned false x y h = refl

ordered_relation-turned :
    (b c : ℕ) (higher : Bool) → ordered_relation c b higher ≡ turned (ordered_relation b c higher)
unfolding ordered_relation
ordered_relation-turned b c true = ground arith
ordered_relation-turned b c false = ground arith

list_eq_comm : (xs ys : List String) → list_eq xs ys ≡ list_eq ys xs
list_eq_comm [] [] = refl
list_eq_comm [] (y ∷ ys) = refl
list_eq_comm (x ∷ xs) [] = refl
list_eq_comm (x ∷ xs) (y ∷ ys) = rw (str_eq_comm x y, list_eq_comm xs ys) refl

relation_of-turned :
    (b c : Option Measured) (higher : Bool)
    → relation_of c b higher ≡ turned (relation_of b c higher)
relation_of-turned none none higher = refl
relation_of-turned none (some c) higher = refl
relation_of-turned (some b) none higher = refl
relation_of-turned (some b) (some c) higher =
    rw (list_eq_comm c.coverage b.coverage) (
      if-turned (list_eq b.coverage c.coverage) _ _
        (ordered_relation-turned b.value c.value higher))

uint_metric-exchanged :
    (name : String) (b c : Option Measured) (higher : Bool) (format : ℕ → String)
    → exchanged (uint_metric name b c higher format) ≡ uint_metric name c b higher format
unfolding uint_metric
uint_metric-exchanged name b c higher format =
    ap
      (λ r. record {
        name = name;
        baseline = shown (λ m. format m.value) c;
        candidate = shown (λ m. format m.value) b;
        relation = r;
      })
      (sym (relation_of-turned b c higher))

-- Rows and lists of rows, put together.
rows :
    {m n : ComparisonMetric} {ms ns : List ComparisonMetric} → m ≡ n → ms ≡ ns → (m ∷ ms) ≡ (n ∷ ns)
rows h hs = cc

parts :
    (ms ms' : List ComparisonMetric) {ns ns' : List ComparisonMetric}
    → map exchanged ms ≡ ns
    → map exchanged ms' ≡ ns'
    → map exchanged (ms ++ ms') ≡ ns ++ ns'
parts [] ms' h h' = rw (sym h) h'
parts (m ∷ ms) ms' h h' = rw (sym h) (rows refl (parts ms ms' refl h'))

four_rows :
    {m1 n1 m2 n2 m3 n3 m4 n4 : ComparisonMetric}
    → m1 ≡ n1
    → m2 ≡ n2
    → m3 ≡ n3
    → m4 ≡ n4
    → (m1 ∷ m2 ∷ m3 ∷ m4 ∷ []) ≡ (n1 ∷ n2 ∷ n3 ∷ n4 ∷ [])
four_rows h1 h2 h3 h4 = rows h1 (rows h2 (rows h3 (rows h4 refl)))

module _ {F : Type 0} ⦃fl : Float64 F⦄ (math_round : F → F) (laws : IsIeee fl) where
  float_relation-turned :
      (a b : F) (higher : Bool)
      → fl.eq a a ≡ true
      → fl.eq b b ≡ true
      → float_relation math_round b a higher ≡ turned (float_relation math_round a b higher)
  unfolding float_relation
  float_relation-turned a b true ha hb =
      let same_test = laws.symmetric a b in let opposite_test = laws.total a b ha hb in ground arith
  float_relation-turned a b false ha hb =
      let same_test = laws.symmetric a b in let opposite_test = laws.total a b ha hb in ground arith

  float_metric-exchanged :
      (name : String) (b c : Option F) (higher : Bool) (quantum : F) (format : F → String)
      → is_number math_round quantum b ≡ true
      → is_number math_round quantum c ≡ true
      → exchanged (float_metric math_round name b c higher quantum format)
        ≡ float_metric math_round name c b higher quantum format
  unfolding float_metric
  float_metric-exchanged name none none higher quantum format hb hc = refl
  float_metric-exchanged name none (some c) higher quantum format hb hc = refl
  float_metric-exchanged name (some b) none higher quantum format hb hc = refl
  float_metric-exchanged name (some b) (some c) higher quantum format hb hc =
      ap
        (λ r. record {
          name = name;
          baseline = format (round_to math_round c quantum);
          candidate = format (round_to math_round b quantum);
          relation = r;
        })
        (sym (
          float_relation-turned (round_to math_round b quantum) (round_to math_round c quantum)
            higher hb hc))

  percent_metric-exchanged :
      (name : String) (b c : Option F) (higher : Bool)
      → is_number math_round (fl.of_ratio 1 100) b ≡ true
      → is_number math_round (fl.of_ratio 1 100) c ≡ true
      → exchanged (percent_metric math_round name b c higher)
        ≡ percent_metric math_round name c b higher
  unfolding percent_metric
  percent_metric-exchanged name b c higher hb hc = float_metric-exchanged name b c higher _ _ hb hc

  counter_rows-exchanged :
      (a b : SavedRun F) (groups : List CounterGroup)
      → map exchanged (counter_rows math_round a b groups) ≡ counter_rows math_round b a groups
  unfolding counter_rows
  counter_rows-exchanged a b [] = refl
  counter_rows-exchanged a b (group ∷ groups) =
      rw
        (
          uint_metric-exchanged (group.name ⧺ " (" ⧺ side_name pc1 ⧺ ")") (group_value group pc1 a)
              (group_value group pc1 b) false show_ℕ,
          uint_metric-exchanged (group.name ⧺ " (" ⧺ side_name pc2 ⧺ ")") (group_value group pc2 a)
              (group_value group pc2 b) false show_ℕ,
          counter_rows-exchanged a b groups,
        )
        refl

  direction_rows-exchanged :
      (a b : SavedRun F) (direction : String)
      → IsNumeric math_round a
      → IsNumeric math_round b
      → map exchanged (direction_rows math_round a b direction)
        ≡ direction_rows math_round b a direction
  unfolding direction_rows
  direction_rows-exchanged a b direction ha hb =
      four_rows
        (percent_metric-exchanged _ (worst_ping_loss a.ping direction)
          (worst_ping_loss b.ping direction) false (ha.ping direction) (hb.ping direction))
        (percent_metric-exchanged _ (worst_ping_loss a.full_size_ping direction)
          (worst_ping_loss b.full_size_ping direction) false (ha.full_size_ping direction)
          (hb.full_size_ping direction))
        (float_metric-exchanged _ (tcp_metrics_for_direction a direction).throughput
          (tcp_metrics_for_direction b direction).throughput true _ _ (ha.throughput direction)
          (hb.throughput direction))
        (uint_metric-exchanged _ (tcp_metrics_for_direction a direction).retransmits
          (tcp_metrics_for_direction b direction).retransmits false show_ℕ)

  udp_rows-exchanged :
      (a b : SavedRun F) (keys : List UdpMetricKey)
      → IsNumeric math_round a
      → IsNumeric math_round b
      → map exchanged (map (udp_row math_round a b) keys) ≡ map (udp_row math_round b a) keys
  udp_rows-exchanged a b [] ha hb = refl
  udp_rows-exchanged a b (key ∷ keys) ha hb =
      rows
        (percent_metric-exchanged _ (udp_loss a.udp key) (udp_loss b.udp key) false (ha.udp key)
          (hb.udp key))
        (udp_rows-exchanged a b keys ha hb)

  table-exchanged :
      (a b : SavedRun F)
      → IsNumeric math_round a
      → IsNumeric math_round b
      → map exchanged (comparison_metrics math_round a b) ≡ comparison_metrics math_round b a
  unfolding comparison_metrics
  table-exchanged a b ha hb =
      let one_key_list = udp_metric_keys_comm a.udp b.udp in
      rows
        (uint_metric-exchanged "Negotiated speed" (negotiated_speed a) (negotiated_speed b) true _)
        (parts _ _ (counter_rows-exchanged a b counter_groups) (
          parts _ _ (direction_rows-exchanged a b direction_pc1_to_pc2 ha hb) (
            parts _ _ (direction_rows-exchanged a b direction_pc2_to_pc1 ha hb) (
              udp_rows-exchanged a b (udp_metric_keys a.udp b.udp) ha hb
              ∙ ap (map (udp_row math_round b a)) one_key_list))))

  -- Where floats compare as in IEEE 754, and the losses and throughputs of both reports are, when
  -- rounded, not NaN: a row is BETTER exactly where the candidate's speed or throughput is the higher
  -- one, or its error count, loss or retransmits the lower one, WORSE where it is the other way round,
  -- SAME where neither holds, losses and throughputs being compared as rounded to hundredths of a percent
  -- and to 100 kbit/s, and unavailable where a value is missing or covers other counters; and
  -- the table of the two reports exchanged is the table with its two columns exchanged and BETTER and
  -- WORSE for each other, row by row.
  pub comparison_metrics-exchanged :
      (a b : SavedRun F)
      → IsNumeric math_round a
      → IsNumeric math_round b
      → (relations (comparison_metrics math_round a b) ≡ reference math_round a b)
        × (map exchanged (comparison_metrics math_round a b) ≡ comparison_metrics math_round b a)
  comparison_metrics-exchanged a b ha hb =
      (comparison_metrics-relations math_round laws a b ha hb, table-exchanged a b ha hb)
