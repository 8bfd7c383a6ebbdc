-- ===== src/Evaluate/Classify.antt =====
-- internal/evaluate/evaluator.go: folding the findings into a health class.
use cablecheck.Base.{Bool, true, false, not, ◌&&◌, ◌||◌, List, [], ◌∷◌, any, if◌then◌else◌}
use cablecheck.Base.Text.{String, str_eq}
use cablecheck.Model.{
  HealthClass, excellent, good, warning, poor, failed, inconclusive, Category, physical, transport,
  performance, Severity, unset, sev_info, sev_warning, sev_poor, sev_failed, sev_marker, sev_lt,
  Finding, category_eq,
}
use cablecheck.Evaluate.Totals.{raise}

abbrev pub sev_le : Severity → Severity → Bool
sev_le a b = not (sev_lt b a)

abbrev pub sev_eq : Severity → Severity → Bool
sev_eq a b = sev_le a b && sev_le b a

-- The inner loop over the categories asked for.
unfoldable pub worst_cats : Finding → List Category → Severity → Severity
worst_cats fd [] worst = worst
worst_cats fd (cat ∷ cats) worst =
    worst_cats fd cats (if category_eq fd.category cat then raise worst fd.severity else worst)

-- One round of the outer loop; markers are skipped.
abbrev pub worst_round : List Category → Finding → Severity → Severity
worst_round cats fd worst =
    if sev_le sev_marker fd.severity then worst else worst_cats fd cats worst

-- The loop of `worstIn` from a running maximum.
unfoldable pub worst_from : List Category → List Finding → Severity → Severity
unfolding worst_cats
worst_from cats [] worst = worst
worst_from cats (fd ∷ fds) worst = worst_from cats fds (worst_round cats fd worst)

abbrev pub worst_in : List Finding → List Category → Severity
worst_in findings cats = worst_from cats findings unset

abbrev pub has_finding : List Finding → String → Bool
has_finding findings id = any (λ fd. str_eq fd.rule_id id) findings

unfoldable pub has_host_limit : List Finding → Bool
has_host_limit findings =
    has_finding findings "HOST-01"
    || (has_finding findings "HOST-03" || has_finding findings "HOST-04")

abbrev pub is_hard_poor : Finding → Bool
is_hard_poor fd =
    sev_le sev_poor fd.severity && (sev_lt fd.severity sev_marker && not fd.host_sensitive)

unfoldable pub all_poor_are_host_sensitive : List Finding → Bool
all_poor_are_host_sensitive findings = not (any is_hard_poor findings)

abbrev pub is_info_deviation : Finding → Bool
is_info_deviation fd = elim fd.category [
  | physical ↦ sev_eq fd.severity sev_info
  | transport ↦ sev_eq fd.severity sev_info
  | performance ↦ sev_eq fd.severity sev_info
  | _ ↦ false
]

unfoldable pub any_info_deviation : List Finding → Bool
any_info_deviation findings = any is_info_deviation findings

abbrev is_clean : HealthClass → Bool
is_clean excellent = true
is_clean good = true
is_clean _ = false

abbrev is_excellent : HealthClass → Bool
is_excellent excellent = true
is_excellent _ = false

-- The limitation caps: HOST-02, then LIM-01, LIM-03 and LIM-05, then LIM-02.
unfoldable pub cap : Bool → Bool → Bool → HealthClass → HealthClass
cap virtual gap reduced tentative =
    if virtual
    then inconclusive
    else if gap && is_clean tentative
    then inconclusive
    else if reduced && is_excellent tentative
    then good
    else tentative

abbrev pub has_gap : List Finding → Bool
has_gap findings =
    has_finding findings "LIM-01"
    || (has_finding findings "LIM-03" || has_finding findings "LIM-05")

-- `classify` on what it reads off the findings.
unfoldable pub decide_class :
    Severity → Severity → Bool → Bool → Bool → Bool → Bool → Bool → HealthClass
unfolding cap
decide_class phys tp host_limited only_host info virtual gap reduced =
    if sev_eq phys sev_failed
    then failed
    else if sev_eq phys sev_poor
    then poor
    else if sev_le sev_poor tp
    then (if host_limited && (sev_lt phys sev_warning && only_host)
        then inconclusive
        else cap virtual gap reduced poor)
    else if sev_eq tp sev_warning || sev_eq phys sev_warning
    then cap virtual gap reduced warning
    else if info
    then cap virtual gap reduced good
    else cap virtual gap reduced excellent

unfoldable pub classify : List Finding → HealthClass
classify findings =
    decide_class (worst_in findings (physical ∷ []))
      (worst_in findings (transport ∷ performance ∷ [])) (has_host_limit findings)
      (all_poor_are_host_sensitive findings) (any_info_deviation findings)
      (has_finding findings "HOST-02") (has_gap findings) (has_finding findings "LIM-02")
