-- ===== src/Model.antt =====
-- internal/model: health classes, severities, findings, link speeds and cable-test pairs.
pub mod Bitrate
mod Tests
pub mod Report
use cablecheck.Base.{ℕ, ◌≡◌, Bool, List, ltb, ◌==◌}
use cablecheck.Base.Text.{String}

pub data HealthClass : Type 0 where
  excellent good warning poor failed inconclusive : HealthClass

pub HealthClass-discrete : Discrete HealthClass
HealthClass-discrete = hlevel

pub data Category : Type 0 where
  physical transport performance host limitation : Category

abbrev pub category_eq : Category → Category → Bool
category_eq a b = category_code a == category_code b
  where
    category_code : Category → ℕ
    category_code physical = 0
    category_code transport = 1
    category_code performance = 2
    category_code host = 3
    category_code limitation = 4

-- `unset` is the value -1 that the loops start from.
pub data Severity : Type 0 where
  unset sev_info sev_warning sev_poor sev_failed sev_marker : Severity

-- The integer behind a severity, plus one.
abbrev pub rank : Severity → ℕ
rank unset = 0
rank sev_info = 1
rank sev_warning = 2
rank sev_poor = 3
rank sev_failed = 4
rank sev_marker = 5

-- The order of the integers behind the severities.
abbrev pub sev_lt : Severity → Severity → Bool
sev_lt a b = ltb (rank a) (rank b)

pub record Finding : Type 0 where
  pub rule_id : String
  pub category : Category
  pub severity : Severity
  pub text : String
  pub evidence : List String
  pub host_sensitive : Bool

pub data PairStatus : Type 0 where
  pair_ok pair_open pair_short_intra pair_short_inter pair_impedance pair_unspecified : PairStatus

pub record CablePairResult (F : Type 0) : Type 0 where
  pub pair : String
  pub status : PairStatus
  pub raw_code : String
  pub fault_meters : F
  pub has_fault : Bool

-- The text of a pair status.
abbrev pub show_status : PairStatus → String
show_status pair_ok = "OK"
show_status pair_open = "OPEN"
show_status pair_short_intra = "SHORT_INTRA"
show_status pair_short_inter = "SHORT_INTER"
show_status pair_impedance = "IMPEDANCE"
show_status pair_unspecified = "UNSPECIFIED"
