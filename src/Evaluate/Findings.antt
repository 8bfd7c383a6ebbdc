-- ===== src/Evaluate/Findings.antt =====
-- The findings of a run of internal/evaluate against the rule table.
use mathlib.Core.List.{Sublistᴰ}
use cablecheck.Base.{
  ◌≡◌, refl, Bool, true, false, ◌&&◌, Option, none, some, List, [], ◌∷◌, map, any, All, arith,
  Option-cases, inl, inr,
}
use cablecheck.Base.Text.{String, str_eq}
use cablecheck.Float64.{Float64}
use cablecheck.Model.{Category, Finding}
use cablecheck.Evaluate.Facts.{Facts}
use cablecheck.Evaluate.Thresholds.{Thresholds}
use cablecheck.Evaluate.Throughput.{Rule}
use cablecheck.Evaluate.Rules.{rules}
use cablecheck.Evaluate.Labels.{IsLabelled, Labels, rules-Labels}
use cablecheck.Evaluate.Engine.{run_rules, findings_of}
use cablecheck.Evaluate.Classify.{has_finding}

-- The test on what a rule reports; nothing passes it where the rule reports nothing.
abbrev pub reported : (Finding → Bool) → Option Finding → Bool
reported p none = false
reported p (some fd) = p fd

abbrev pub is_some : Option Finding → Bool
is_some o = reported (λ fd. true) o

and_false : (a : Bool) → false ≡ (a && false)
and_false a = ground arith

and_true : (a : Bool) → a ≡ (a && true)
and_true a = ground arith

abbrev pub finding_label : Finding → String × Category
finding_label fd = (fd.rule_id, fd.category)

abbrev pub rule_label : {F : Type 0} → Rule F → String × Category
rule_label r = (r.id, r.category)

same_label :
    {F : Type 0} (r : Rule F) (fd : Finding) → IsLabelled r fd → finding_label fd ≡ rule_label r
same_label r fd l = ground arith

module _ {F : Type 0} (f : Facts F) (t : Thresholds F) where
  -- Some finding of the run passes a test exactly when some rule reports one that does.
  pub any-run_rules :
      (p : Finding → Bool) (rs : List (Rule F))
      → any p (run_rules rs f t) ≡ any (λ r. reported p (r.run f t)) rs
  unfolding run_rules
  any-run_rules p [] = refl
  any-run_rules p (r ∷ rs) = ground (arith, any-run_rules p rs)

  reported-id :
      (id : String) (r : Rule F)
      → Labels r
      → reported (λ fd. str_eq fd.rule_id id) (r.run f t) ≡ (str_eq r.id id && is_some (r.run f t))
  reported-id id r l = elim (Option-cases (r.run f t)) [
    | inl e ↦ rw e (and_false (str_eq r.id id))
    | inr (fd, e) ↦ rw (e, (l f t fd e).same_id) (and_true (str_eq r.id id))
  ]

  pub has_finding-run_rules :
      (id : String) (rs : List (Rule F))
      → All Labels rs
      → has_finding (run_rules rs f t) id ≡ any (λ r. str_eq r.id id && is_some (r.run f t)) rs
  unfolding run_rules
  has_finding-run_rules id [] l = refl
  has_finding-run_rules id (r ∷ rs) (l, ls) =
      ground (arith, has_finding-run_rules id rs ls, reported-id id r l)

  pub labels-Sublistᴰ :
      (rs : List (Rule F))
      → All Labels rs
      → Sublistᴰ (map finding_label (run_rules rs f t)) (map rule_label rs)
  unfolding run_rules
  labels-Sublistᴰ [] l = Sublistᴰ.slnil
  labels-Sublistᴰ (r ∷ rs) (l, ls) = elim (Option-cases (r.run f t)) [
    | inl e ↦ rw e (Sublistᴰ.cons (labels-Sublistᴰ rs ls))
    | inr (fd, e) ↦ rw e (Sublistᴰ.cons-cons (same_label r fd (l f t fd e)) (labels-Sublistᴰ rs ls))
  ]

module _ {F : Type 0} ⦃fl : Float64 F⦄ where
  -- Whatever the facts and the thresholds, the findings stand in the order of the rule table, each
  -- under the identifier and the category of its own rule, and no rule reports twice.
  pub findings_of-Sublist :
      (f : Facts F) (t : Thresholds F)
      → Sublistᴰ (map finding_label (findings_of f t)) (map rule_label (rules {F = F}))
  findings_of-Sublist f t = labels-Sublistᴰ f t rules rules-Labels

  -- A finding with an identifier is present exactly when a rule of that identifier reports.
  pub has_finding-findings_of :
      (f : Facts F) (t : Thresholds F) (id : String)
      → has_finding (findings_of f t) id ≡ any (λ r. str_eq r.id id && is_some (r.run f t)) rules
  has_finding-findings_of f t id = has_finding-run_rules f t id rules rules-Labels
