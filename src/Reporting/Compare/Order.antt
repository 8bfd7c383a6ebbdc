-- ===== src/Reporting/Compare/Order.antt =====
-- internal/reporting/compare.go: which of two runs each row of the table calls better.
use cablecheck.Base.{
  ℕ, ◌≡◌, refl, sym, Bool, true, false, not, Option, none, some, List, [], ◌∷◌, ◌++◌, map, ltb,
  arith, if◌then◌else◌,
}
use cablecheck.Base.Text.{String}
use cablecheck.Float64.{Float64, of_ℕ}
use cablecheck.Model.Report.{direction_pc1_to_pc2, direction_pc2_to_pc1}
use cablecheck.Reporting.Compare.{
  MetricRelation, better, worse, same, unavailable, ComparisonMetric, Measured, list_eq,
  ordered_relation, relation_of, uint_metric, SavedRun, round_to, float_relation, rounded_relation,
  float_metric, percent_metric, negotiated_speed, worst_ping_loss, UdpMetricKey, udp_loss,
}
use cablecheck.Reporting.Compare.Keys.{udp_metric_keys}
use cablecheck.Reporting.Compare.Rows.{
  CounterGroup, counter_groups, pc1, pc2, group_value, tcp_metrics_for_direction, counter_rows,
  direction_rows, udp_row, comparison_metrics,
}

-- Of two values the greater one is the better one.
abbrev pub by_order {ℓ} : {A : Type ℓ} → (A → A → Bool) → A → A → MetricRelation
by_order lt b c = if lt b c then better else if lt c b then worse else same

-- Two values that may be missing.
abbrev pub where_both {ℓ} :
    {A : Type ℓ} → (A → A → MetricRelation) → Option A → Option A → MetricRelation
where_both rel (some b) (some c) = rel b c
where_both rel _ _ = unavailable

-- Two numbers that count the same things.
abbrev pub where_covered : (ℕ → ℕ → MetricRelation) → Measured → Measured → MetricRelation
where_covered rel b c = if list_eq b.coverage c.coverage then rel b.value c.value else unavailable

abbrev pub higher_wins : Option Measured → Option Measured → MetricRelation
higher_wins b c = where_both (where_covered (by_order ltb)) b c

abbrev pub lower_wins : Option Measured → Option Measured → MetricRelation
lower_wins b c = where_both (where_covered (λ x y. by_order ltb y x)) b c

-- The comparisons of IEEE 754: a NaN is not equal to itself, and all else is ordered.
pub record IsIeee {F : Type 0} (fl : Float64 F) : Type 0 where
  pub symmetric : (x y : F) → fl.eq y x ≡ fl.eq x y
  pub exclusive : (x y : F) → fl.eq x y ≡ true → fl.lt x y ≡ false
  pub total :
      (x y : F)
      → fl.eq x x ≡ true
      → fl.eq y y ≡ true
      → fl.eq x y ≡ false
      → fl.lt y x ≡ not (fl.lt x y)

module _ {F : Type 0} ⦃fl : Float64 F⦄ (math_round : F → F) where
  -- What is measured is, when rounded, not a NaN.
  abbrev pub is_number : F → Option F → Bool
  is_number quantum none = true
  is_number quantum (some v) = fl.eq (round_to math_round v quantum) (round_to math_round v quantum)

  -- The losses and the throughputs of a report are numbers.
  pub record IsNumeric (r : SavedRun F) : Type 0 where
    pub ping : (d : String) → is_number (fl.of_ratio 1 100) (worst_ping_loss r.ping d) ≡ true
    pub full_size_ping :
        (d : String) → is_number (fl.of_ratio 1 100) (worst_ping_loss r.full_size_ping d) ≡ true
    pub throughput :
        (d : String) → is_number (of_ℕ 100_000) (tcp_metrics_for_direction r d).throughput ≡ true
    pub udp : (key : UdpMetricKey) → is_number (fl.of_ratio 1 100) (udp_loss r.udp key) ≡ true

  abbrev pub rounded_order : F → F → F → MetricRelation
  rounded_order quantum b c =
      by_order fl.lt (round_to math_round b quantum) (round_to math_round c quantum)

  -- A loss, in hundredths of a percent, of which the lower is better.
  abbrev pub lower_loss : Option F → Option F → MetricRelation
  lower_loss b c = where_both (λ x y. rounded_order (fl.of_ratio 1 100) y x) b c

  abbrev pub of_direction : SavedRun F → SavedRun F → String → List MetricRelation
  of_direction a b d =
      lower_loss (worst_ping_loss a.ping d) (worst_ping_loss b.ping d)
      ∷ lower_loss (worst_ping_loss a.full_size_ping d) (worst_ping_loss b.full_size_ping d)
      ∷ where_both (rounded_order (of_ℕ 100_000)) (tcp_metrics_for_direction a d).throughput
          (tcp_metrics_for_direction b d).throughput
      ∷ lower_wins (tcp_metrics_for_direction a d).retransmits
          (tcp_metrics_for_direction b d).retransmits
      ∷ []

  abbrev pub of_groups : SavedRun F → SavedRun F → List CounterGroup → List MetricRelation
  of_groups a b [] = []
  of_groups a b (g ∷ gs) =
      lower_wins (group_value g pc1 a) (group_value g pc1 b)
      ∷ lower_wins (group_value g pc2 a) (group_value g pc2 b)
      ∷ of_groups a b gs

  -- Row by row: the higher speed and throughput are better, the lower error counts, losses and
  -- retransmits.
  abbrev pub reference : SavedRun F → SavedRun F → List MetricRelation
  reference a b =
      higher_wins (negotiated_speed a) (negotiated_speed b)
      ∷ (of_groups a b counter_groups
          ++ (of_direction a b direction_pc1_to_pc2
              ++ (of_direction a b direction_pc2_to_pc1
                  ++ map (λ key. lower_loss (udp_loss a.udp key) (udp_loss b.udp key))
                      (udp_metric_keys a.udp b.udp))))

abbrev pub relations : List ComparisonMetric → List MetricRelation
relations ms = map (λ m. m.relation) ms

relation_of-higher : (b c : Option Measured) → relation_of b c true ≡ higher_wins b c
unfolding ordered_relation
relation_of-higher none none = refl
relation_of-higher none (some c) = refl
relation_of-higher (some b) none = refl
relation_of-higher (some b) (some c) = ground arith

relation_of-lower : (b c : Option Measured) → relation_of b c false ≡ lower_wins b c
unfolding ordered_relation
relation_of-lower none none = refl
relation_of-lower none (some c) = refl
relation_of-lower (some b) none = refl
relation_of-lower (some b) (some c) = ground arith

conses {ℓ} : {A : Type ℓ} → {x y : A} {xs ys : List A} → x ≡ y → xs ≡ ys → (x ∷ xs) ≡ (y ∷ ys)
conses h hs = cc

relations-append :
    (ms ns : List ComparisonMetric) {rs ss : List MetricRelation}
    → relations ms ≡ rs
    → relations ns ≡ ss
    → relations (ms ++ ns) ≡ rs ++ ss
relations-append [] ns h h' = rw (sym h) h'
relations-append (m ∷ ms) ns h h' = rw (sym h) (conses refl (relations-append ms ns refl h'))

module _ {F : Type 0} ⦃fl : Float64 F⦄ (math_round : F → F) (laws : IsIeee fl) where
  float_relation-higher :
      (a b : F)
      → fl.eq a a ≡ true
      → fl.eq b b ≡ true
      → float_relation math_round a b true ≡ by_order fl.lt a b
  unfolding float_relation
  float_relation-higher a b ha hb =
      let s = laws.symmetric a b in
      let x = laws.exclusive a b in
      let y = laws.exclusive b a in let t = laws.total a b ha hb in ground arith

  float_relation-lower :
      (a b : F)
      → fl.eq a a ≡ true
      → fl.eq b b ≡ true
      → float_relation math_round a b false ≡ by_order fl.lt b a
  unfolding float_relation
  float_relation-lower a b ha hb =
      let s = laws.symmetric a b in
      let x = laws.exclusive a b in
      let y = laws.exclusive b a in let t = laws.total a b ha hb in ground arith

  rounded_relation-higher :
      (q : F) (b c : Option F)
      → is_number math_round q b ≡ true
      → is_number math_round q c ≡ true
      → rounded_relation math_round q b c true ≡ where_both (rounded_order math_round q) b c
  rounded_relation-higher q none none hb hc = refl
  rounded_relation-higher q none (some c) hb hc = refl
  rounded_relation-higher q (some b) none hb hc = refl
  rounded_relation-higher q (some b) (some c) hb hc = float_relation-higher _ _ hb hc

  rounded_relation-lower :
      (q : F) (b c : Option F)
      → is_number math_round q b ≡ true
      → is_number math_round q c ≡ true
      → rounded_relation math_round q b c false
        ≡ where_both (λ x y. rounded_order math_round q y x) b c
  rounded_relation-lower q none none hb hc = refl
  rounded_relation-lower q none (some c) hb hc = refl
  rounded_relation-lower q (some b) none hb hc = refl
  rounded_relation-lower q (some b) (some c) hb hc = float_relation-lower _ _ hb hc

  counter_rows-relations :
      (a b : SavedRun F) (groups : List CounterGroup)
      → relations (counter_rows math_round a b groups) ≡ of_groups math_round a b groups
  unfolding counter_rows uint_metric
  counter_rows-relations a b [] = refl
  counter_rows-relations a b (g ∷ gs) =
      conses (relation_of-lower (group_value g pc1 a) (group_value g pc1 b)) (
        conses (relation_of-lower (group_value g pc2 a) (group_value g pc2 b))
          (counter_rows-relations a b gs))

  direction_rows-relations :
      (a b : SavedRun F) (d : String)
      → IsNumeric math_round a
      → IsNumeric math_round b
      → relations (direction_rows math_round a b d) ≡ of_direction math_round a b d
  unfolding direction_rows percent_metric float_metric uint_metric
  direction_rows-relations a b d ha hb =
      conses (rounded_relation-lower _ _ _ (ha.ping d) (hb.ping d)) (
        conses (rounded_relation-lower _ _ _ (ha.full_size_ping d) (hb.full_size_ping d)) (
          conses (rounded_relation-higher _ _ _ (ha.throughput d) (hb.throughput d)) (
            conses {xs = []}
              (relation_of-lower (tcp_metrics_for_direction a d).retransmits
                (tcp_metrics_for_direction b d).retransmits)
              refl)))

  udp_rows-relations :
      (a b : SavedRun F) (keys : List UdpMetricKey)
      → IsNumeric math_round a
      → IsNumeric math_round b
      → relations (map (udp_row math_round a b) keys)
        ≡ map (λ key. lower_loss math_round (udp_loss a.udp key) (udp_loss b.udp key)) keys
  unfolding percent_metric float_metric
  udp_rows-relations a b [] ha hb = refl
  udp_rows-relations a b (key ∷ keys) ha hb =
      conses (rounded_relation-lower _ _ _ (ha.udp key) (hb.udp key))
        (udp_rows-relations a b keys ha hb)

  pub comparison_metrics-relations :
      (a b : SavedRun F)
      → IsNumeric math_round a
      → IsNumeric math_round b
      → relations (comparison_metrics math_round a b) ≡ reference math_round a b
  unfolding comparison_metrics uint_metric
  comparison_metrics-relations a b ha hb =
      conses (relation_of-higher (negotiated_speed a) (negotiated_speed b)) (
        relations-append _ _ (counter_rows-relations a b counter_groups) (
          relations-append _ _ (direction_rows-relations a b direction_pc1_to_pc2 ha hb) (
            relations-append _ _ (direction_rows-relations a b direction_pc2_to_pc1 ha hb)
              (udp_rows-relations a b (udp_metric_keys a.udp b.udp) ha hb))))
