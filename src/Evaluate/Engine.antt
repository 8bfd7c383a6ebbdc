-- ===== src/Evaluate/Engine.antt =====
-- internal/evaluate/evaluator.go: running the table and assembling the result.
use cablecheck.Base.{Option, none, some, List, [], ◌∷◌}
use cablecheck.Base.Int.{ℤ}
use cablecheck.Base.Text.{String}
use cablecheck.Float64.{Float64}
use cablecheck.Model.{HealthClass, Finding}
use cablecheck.Evaluate.Facts.{Facts}
use cablecheck.Evaluate.Thresholds.{Thresholds, default}
use cablecheck.Evaluate.Throughput.{Rule}
use cablecheck.Evaluate.Rules.{rules}
use cablecheck.Evaluate.Classify.{classify}
use cablecheck.Evaluate.Score.{score_for}
use cablecheck.Evaluate.Recommend.{recommend}

pub record Outcome : Type 0 where
  pub class : HealthClass
  pub score : Option ℤ
  pub findings : List Finding
  pub recommendations : List String
  pub rules_version : String

abbrev rules_version : String
rules_version = "1.11.0"

module _ {F : Type 0} where
  -- The loop over a rule table.
  unfoldable pub run_rules : List (Rule F) → Facts F → Thresholds F → List Finding
  run_rules [] f t = []
  run_rules (r ∷ rs) f t = elim (r.run f t) [
    | none ↦ run_rules rs f t
    | some fd ↦ fd ∷ run_rules rs f t
  ]

module _ {F : Type 0} ⦃fl : Float64 F⦄ where
  abbrev pub findings_of : Facts F → Thresholds F → List Finding
  findings_of f t = run_rules rules f t

  unfoldable pub evaluate_with : Facts F → Thresholds F → Outcome
  evaluate_with f t =
      let findings = findings_of f t in
      let class = classify findings in
      record {
        class = class;
        score = score_for f findings class t;
        findings = findings;
        recommendations = recommend findings class;
        rules_version = rules_version;
      }

  unfoldable pub evaluate : Facts F → Outcome
  unfolding evaluate_with
  evaluate f = evaluate_with f default
