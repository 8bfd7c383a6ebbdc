-- ===== src/Reporting/Compare/Counters.antt =====
-- internal/reporting/compare.go: counterGroup against the sum of the counters of its group.
use cablecheck.Base.{
  ℕ, ◌+◌, ◌^◌, ◌<◌, ◌≡◌, refl, ap, ◌∙◌, Bool, true, false, not, Option, none, some, List, [], ◌∷◌,
  ◌++◌, is_empty, is_empty-append, ◌&&◌, ltb, Option-cases, inl, inr, arith, if◌then◌else◌,
}
use cablecheck.Base.Text.{String}
use cablecheck.Evaluate.Counters.{CounterDelta}
use cablecheck.Reporting.Compare.{Measured, lookup, sum_group, covered, counter_group}

-- The increase of a counter, 0 where it is missing.
abbrev pub increase : Option CounterDelta → ℕ
increase none = 0
increase (some d) = d.delta

abbrev pub reliable : Option CounterDelta → Bool
reliable none = true
reliable (some d) = d.ok

abbrev pub total : List (String × CounterDelta) → List String → ℕ
total set [] = 0
total set (key ∷ keys) = increase (lookup set key) + total set keys

abbrev pub all_reliable : List (String × CounterDelta) → List String → Bool
all_reliable set [] = true
all_reliable set (key ∷ keys) = if reliable (lookup set key) then all_reliable set keys else false

-- Whether no counter of the group is there.
abbrev pub is_missing : Option CounterDelta → Bool
is_missing none = true
is_missing (some d) = false

abbrev pub all_missing : List (String × CounterDelta) → List String → Bool
all_missing set [] = true
all_missing set (key ∷ keys) = is_missing (lookup set key) && all_missing set keys

-- A sum, and whether it covers nothing.
abbrev brief : Option Measured → Option (ℕ × Bool)
brief none = none
brief (some m) = some (m.value, is_empty m.coverage)

abbrev pub group_sum : List (String × CounterDelta) → List String → ℕ → Bool → Option (ℕ × Bool)
group_sum set keys value nothing =
    if all_reliable set keys && ltb (value + total set keys) 18446744073709551616
    then some (value + total set keys, nothing && all_missing set keys)
    else none

sum_group_lem :
    (set : List (String × CounterDelta)) (keys : List String) (value : ℕ) (coverage : List String)
    → value < 18446744073709551616
    → brief (sum_group set keys value coverage) ≡ group_sum set keys value (is_empty coverage)
unfolding sum_group
sum_group_lem set [] value coverage h = ground arith
sum_group_lem set (key ∷ keys) value coverage h = elim (Option-cases (lookup set key)) [
  | inl absent ↦ (let rest = sum_group_lem set keys value coverage h in ground arith)
  | inr (d, found) ↦
      (let rest = sum_group_lem set keys (value + d.delta) (coverage ++ key ∷ []) in
        let grown = is_empty-append coverage (key ∷ []) in ground arith)
]

abbrev pub value_of : Option Measured → Option ℕ
value_of none = none
value_of (some m) = some m.value

abbrev kept_value : Option (ℕ × Bool) → Option ℕ
kept_value none = none
kept_value (some (value, nothing)) = if nothing then none else some value

value_of-covered : (m : Option Measured) → value_of (covered m) ≡ kept_value (brief m)
value_of-covered none = refl
value_of-covered (some m) = ground arith

kept_value-group_sum :
    (set : List (String × CounterDelta)) (keys : List String)
    → kept_value (group_sum set keys 0 true) ≡ (
        if all_reliable set keys && (ltb (total set keys) (2 ^ 64) && not (all_missing set keys))
        then some (total set keys)
        else none)
kept_value-group_sum set keys = ground arith

-- A group of counters is measured where some counter of it is there, all that are there are reliable, and
-- their sum does not exceed 64 bits; its value is then that sum.
pub counter_group-total :
    (set : List (String × CounterDelta)) (keys : List String)
    → value_of (counter_group set keys) ≡ (
        if all_reliable set keys && (ltb (total set keys) (2 ^ 64) && not (all_missing set keys))
        then some (total set keys)
        else none)
unfolding counter_group
counter_group-total set keys =
    value_of-covered (sum_group set keys 0 [])
    ∙ ap kept_value (sum_group_lem set keys 0 [] (omega arith))
    ∙ kept_value-group_sum set keys
