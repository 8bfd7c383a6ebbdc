-- ===== src/Reporting/Compare.antt =====
-- internal/reporting/compare.go: the comparison of two saved reports. The rows of the table and the
-- assessment are values here; their layout as text, the comparability warnings and the findings are left
-- out. A counter set is an association list, and absence of a classification is `none`.
pub mod Keys
pub mod Rows
pub mod Order
pub mod Swap
pub mod Counters
use cablecheck.Base.{
  ℕ, zero, suc, ◌+◌, ◌-◌, ◌/◌, ◌^◌, Bool, true, false, not, ◌&&◌, ◌||◌, Option, none, some, List,
  [], ◌∷◌, ◌++◌, map, any, length, is_empty, ltb, leb, ◌==◌, if◌then◌else◌,
}
use cablecheck.Base.Int.{ℤ, pos, ltb_ℤ, leb_ℤ, pos_part, mul_int}
use cablecheck.Base.Text.{String, str_eq, ◌⧺◌, show_ℕ}
use cablecheck.Evaluate.Counters.{CounterDelta}
use cablecheck.Float64.{Float64, of_ℕ}
use cablecheck.Model.{HealthClass, excellent, good, warning, poor, failed, inconclusive}
use cablecheck.Model.Report.{
  TcpResult, UdpResult, LinkSettings, LinkSection, Peers, direction_pc1_to_pc2,
  direction_pc2_to_pc1,
}
use cablecheck.Tcpmetrics.{sort_floats, nth}

pub data MetricRelation : Type 0 where
  better worse same unavailable : MetricRelation

pub record ComparisonMetric : Type 0 where
  pub name : String
  pub baseline : String
  pub candidate : String
  pub relation : MetricRelation

-- A measured number with the counters that it covers.
pub record Measured : Type 0 where
  pub value : ℕ
  pub coverage : List String

pub data SavedAssessment : Type 0 where
  assessed_better assessed_worse unchanged undecided : SavedAssessment

unfoldable pub health_rank : HealthClass → Option ℕ
health_rank excellent = some 0
health_rank good = some 1
health_rank warning = some 2
health_rank poor = some 3
health_rank failed = some 4
health_rank inconclusive = none

abbrev pub by_rank : Option ℕ → Option ℕ → SavedAssessment
by_rank (some b) (some c) =
    if ltb c b then assessed_better else if ltb b c then assessed_worse else unchanged
by_rank _ _ = undecided

-- `savedAssessment`, without its explanation; an unknown classification is `none`.
unfoldable pub saved_assessment : Option HealthClass → Option HealthClass → SavedAssessment
saved_assessment (some b) (some c) = by_rank (health_rank b) (health_rank c)
saved_assessment _ _ = undecided

unfoldable pub ordered_relation : ℕ → ℕ → Bool → MetricRelation
ordered_relation b c higher =
    if c == b then same else if (if ltb b c then higher else not higher) then better else worse

abbrev pub list_eq : List String → List String → Bool
list_eq [] [] = true
list_eq (x ∷ xs) (y ∷ ys) = str_eq x y && list_eq xs ys
list_eq _ _ = false

abbrev pub shown {ℓ} : {A : Type ℓ} → (A → String) → Option A → String
shown format none = "n/a"
shown format (some a) = format a

abbrev pub relation_of : Option Measured → Option Measured → Bool → MetricRelation
relation_of (some b) (some c) higher =
    if list_eq b.coverage c.coverage then ordered_relation b.value c.value higher else unavailable
relation_of _ _ higher = unavailable

unfoldable pub uint_metric :
    String → Option Measured → Option Measured → Bool → (ℕ → String) → ComparisonMetric
uint_metric name baseline candidate higher format = record {
  name = name;
  baseline = shown (λ m. format m.value) baseline;
  candidate = shown (λ m. format m.value) candidate;
  relation = relation_of baseline candidate higher;
}

abbrev pub lookup : List (String × CounterDelta) → String → Option CounterDelta
lookup [] key = none
lookup ((name, d) ∷ set) key = if str_eq name key then some d else lookup set key

-- The loop of `counterGroup`, with the sum and the keys so far; `none` where it gives up.
unfoldable pub sum_group :
    List (String × CounterDelta) → List String → ℕ → List String → Option Measured
sum_group set [] value coverage = some (record { value = value; coverage = coverage })
sum_group set (key ∷ keys) value coverage = elim (lookup set key) [
  | none ↦ sum_group set keys value coverage
  | some d ↦
      if not d.ok || ltb (2 ^ 64 - 1 - value) d.delta
      then none
      else sum_group set keys (value + d.delta) (coverage ++ key ∷ [])
]

abbrev pub covered : Option Measured → Option Measured
covered none = none
covered (some m) = if is_empty m.coverage then none else some m

unfoldable pub counter_group : List (String × CounterDelta) → List String → Option Measured
counter_group set keys = covered (sum_group set keys 0 [])

unfoldable pub subtract_self_inflicted : Option Measured → ℕ → Option Measured
subtract_self_inflicted none n = none
subtract_self_inflicted (some m) n =
    some (if leb m.value n then record m { value = 0 } else record m { value = m.value - n })

pub record PingLoss (F : Type 0) : Type 0 where
  pub direction : String
  pub transmitted : ℤ
  pub loss_percent : F

-- What the table reads of a saved report. The speeds are those of the link settings, where there are
-- any, in the order in which they are tried, and then those of the two NICs.
pub record SavedRun (F : Type 0) : Type 0 where
  pub classification : Option HealthClass
  pub mode : String
  pub tcp_repeats : ℤ
  pub soak_cycles_completed : ℤ
  pub settings_speeds : List (Option ℤ)
  pub nic_speeds : List ℤ
  pub deltas : Peers (List (String × CounterDelta))
  pub self_inflicted : Option (Peers ℕ)
  pub ping : List (PingLoss F)
  pub full_size_ping : List (PingLoss F)
  pub tcp : List (TcpResult F)
  pub udp : List (UdpResult F)

unfoldable pub first_positive : List ℤ → Option Measured
first_positive [] = none
first_positive (s ∷ ss) =
    let rest = first_positive ss in
    if ltb_ℤ (pos 0) s then some (record { value = pos_part s; coverage = [] }) else rest

abbrev pub listed : List (Option ℤ) → List ℤ
listed [] = []
listed (none ∷ xs) = listed xs
listed (some x ∷ xs) = x ∷ listed xs

pub record UdpMetricKey : Type 0 where
  pub direction : String
  pub target_bps : ℕ

module _ {F : Type 0} ⦃fl : Float64 F⦄ (math_round : F → F) where
  -- math.Round is a parameter.
  unfoldable pub round_to : F → F → F
  round_to value quantum = fl.mul (math_round (fl.div value quantum)) quantum

  unfoldable pub float_relation : F → F → Bool → MetricRelation
  float_relation a b higher =
      if fl.eq b a
      then same
      else if (if fl.lt a b then higher else not higher)
      then better
      else worse

  abbrev pub rounded_relation : F → Option F → Option F → Bool → MetricRelation
  rounded_relation quantum (some b) (some c) higher =
      float_relation (round_to b quantum) (round_to c quantum) higher
  rounded_relation quantum _ _ higher = unavailable

  unfoldable pub float_metric :
      String → Option F → Option F → Bool → F → (F → String) → ComparisonMetric
  float_metric name baseline candidate higher quantum format = record {
    name = name;
    baseline = shown (λ v. format (round_to v quantum)) baseline;
    candidate = shown (λ v. format (round_to v quantum)) candidate;
    relation = rounded_relation quantum baseline candidate higher;
  }

  unfoldable pub percent_metric : String → Option F → Option F → Bool → ComparisonMetric
  percent_metric name baseline candidate higher =
      float_metric name baseline candidate higher (fl.of_ratio 1 100) (λ v. fl.show_fixed 2 v ⧺ "%")

module _ {F : Type 0} ⦃fl : Float64 F⦄ where
  unfoldable pub negotiated_speed : SavedRun F → Option Measured
  negotiated_speed r = first_positive (listed r.settings_speeds ++ r.nic_speeds)

  -- The greater of the loss so far and another.
  abbrev pub worse_loss : Option F → F → Option F
  worse_loss none v = some v
  worse_loss (some w) v = if fl.lt w v then some v else some w

  unfoldable pub worst_ping_loss_from : Option F → List (PingLoss F) → String → Option F
  worst_ping_loss_from so_far [] direction = so_far
  worst_ping_loss_from so_far (p ∷ ps) direction =
      worst_ping_loss_from
        (if not (str_eq p.direction direction)
            || leb_ℤ p.transmitted (pos 0)
            || fl.lt p.loss_percent (of_ℕ 0)
          then so_far
          else worse_loss so_far p.loss_percent)
        ps direction

  abbrev pub worst_ping_loss : List (PingLoss F) → String → Option F
  worst_ping_loss ps direction = worst_ping_loss_from none ps direction

  unfoldable pub udp_loss_from : Option F → List (UdpResult F) → UdpMetricKey → Option F
  udp_loss_from so_far [] key = so_far
  udp_loss_from so_far (u ∷ us) key =
      udp_loss_from
        (if not (str_eq u.direction key.direction)
            || not (u.target_bps == key.target_bps)
            || leb_ℤ u.total_packets (pos 0)
            || fl.lt u.loss_percent (of_ℕ 0)
          then so_far
          else worse_loss so_far u.loss_percent)
        us key

  abbrev pub udp_loss : List (UdpResult F) → UdpMetricKey → Option F
  udp_loss us key = udp_loss_from none us key
