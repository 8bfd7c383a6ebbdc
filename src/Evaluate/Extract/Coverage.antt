-- ===== src/Evaluate/Extract/Coverage.antt =====
-- internal/evaluate/facts.go: planned tests that could not run.
use Prim.Native.Char.{code}
use cablecheck.Base.{
  Bool, true, false, not, ◌&&◌, ◌||◌, Option, none, some, List, [], ◌∷◌, ◌++◌, any, ◌==◌,
  if◌then◌else◌,
}
use cablecheck.Base.Text.{String, str_eq}
use cablecheck.Model.Report.{skip_reason_unreachable, SkippedTest, CableTestResult, Report}

-- strings.HasPrefix, the prefix first.
unfoldable pub has_prefix : String → String → Bool
has_prefix String.[] s = true
has_prefix (String.◌∷◌ p ps) String.[] = false
has_prefix (String.◌∷◌ p ps) (String.◌∷◌ c s) = code p == code c && has_prefix ps s

unfoldable pub throughput_unreachable : List SkippedTest → Bool
throughput_unreachable skipped = any (λ st. has_prefix skip_reason_unreachable st.reason) skipped

-- The closure `add`; the map of the names seen is the list itself.
abbrev pub add_name : String → List String → List String
add_name name names =
    if str_eq name "" || any (str_eq name) names then names else names ++ name ∷ []

unfoldable pub add_skipped : List SkippedTest → List String → List String
add_skipped [] names = names
add_skipped (st ∷ skipped) names = add_skipped skipped (add_name st.name names)

module _ {F : Type 0} where
  abbrev pub add_cable_test : Option (CableTestResult F) → List String → List String
  add_cable_test none names = names
  add_cable_test (some ct) names =
      if not ct.available
      then add_name "cable_test" names
      else if not (str_eq ct.tdr_unavailable_reason "")
      then add_name "cable_test_tdr" names
      else names

  unfoldable pub unavailable_tests : Report F → List String
  unavailable_tests r = add_cable_test r.tests.cable_test (add_skipped r.skipped_tests [])
