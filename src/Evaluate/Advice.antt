-- ===== src/Evaluate/Advice.antt =====
-- The grouping of internal/evaluate/recommend.go.
use cablecheck.Base.{
  ◌≡◌, refl, ◌∙◌, Bool, true, false, not, ◌&&◌, ◌||◌, List, [], ◌∷◌, ◌++◌, any, any-append, map,
  All, arith, Bool-cases, inl, inr, if◌then◌else◌,
}
use cablecheck.Base.Text.{String, str_eq, str_eq_comm, eq_iff}
use cablecheck.Model.{Finding}
use cablecheck.Evaluate.Recommend.{
  rec_texts, text_for, Group, add_evidence, add_group, group_findings,
}

-- No text stands twice in the list.
abbrev pub Distinct : List String → Type 0
Distinct [] = Unit
Distinct (x ∷ xs) = (any (str_eq x) xs ≡ false) × Distinct xs

any-snoc :
    (x e : String) (xs : List String)
    → any (str_eq x) (xs ++ e ∷ []) ≡ (any (str_eq x) xs || str_eq x e)
any-snoc x e xs = any-append (str_eq x) xs (e ∷ []) ∙ ground arith

Distinct-snoc :
    (e : String) (xs : List String)
    → any (str_eq e) xs ≡ false
    → Distinct xs
    → Distinct (xs ++ e ∷ [])
Distinct-snoc e [] h d = (refl, tt)
Distinct-snoc e (x ∷ xs) h (n, d) =
    (ground (arith, any-snoc x e xs, str_eq_comm x e), Distinct-snoc e xs (ground arith) d)

add_evidence-Distinct : (es seen : List String) → Distinct seen → Distinct (add_evidence es seen)
unfolding add_evidence
add_evidence-Distinct [] seen d = d
add_evidence-Distinct (e ∷ es) seen d = elim (Bool-cases (str_eq e "" || any (str_eq e) seen)) [
  | inl h ↦ rw h (add_evidence-Distinct es seen d)
  | inr h ↦ rw h (add_evidence-Distinct es (seen ++ e ∷ []) (Distinct-snoc e seen (ground arith) d))
]

old_evidence :
    (x e : String) (seen : List String) (b : Bool)
    → str_eq x e ≡ true
    → (str_eq x "" || any (str_eq x) seen) ≡ true
    → (any (str_eq x) seen || (not (str_eq x "") && b))
      ≡ (any (str_eq x) seen || (not (str_eq x "") && (str_eq x e || b)))
old_evidence x e seen b h k = ground arith

-- The evidence of a group is the old and the new, without the empty text.
any-add_evidence :
    (x : String) (es seen : List String)
    → any (str_eq x) (add_evidence es seen)
      ≡ (any (str_eq x) seen || (not (str_eq x "") && any (str_eq x) es))
unfolding add_evidence
any-add_evidence x [] seen = ground arith
any-add_evidence x (e ∷ es) seen = elim (Bool-cases (str_eq e "" || any (str_eq e) seen)) [
  | inl h ↦ rw h (
      any-add_evidence x es seen ∙ (elim (Bool-cases (str_eq x e)) [
        | inl same ↦
            old_evidence x e seen (any (str_eq x) es) same (rw (← (eq_iff x e).0 same) at h)
        | inr other ↦ rw other
      ]))
  | inr h ↦ rw h (
      any-add_evidence x es (seen ++ e ∷ [])
      ∙ ground (arith, any-snoc x e seen, eq_iff x e, eq_iff x "", eq_iff e ""))
]

abbrev pub action_of : Finding → String
action_of fd = text_for fd.rule_id rec_texts

abbrev pub actions : List Group → List String
actions gs = map (λ g. g.action) gs

add_group-actions :
    (a : String) (ev : List String) (gs : List Group)
    → actions (add_group a ev gs)
      ≡ (if any (str_eq a) (actions gs) then actions gs else actions gs ++ a ∷ [])
unfolding add_group
add_group-actions a ev [] = refl
add_group-actions a ev (g ∷ gs) = ground (arith, add_group-actions a ev gs, str_eq_comm a g.action)

-- A well-formed list of groups.
pub record IsGrouped (gs : List Group) : Type 0 where
  pub one_each : Distinct (actions gs)
  pub no_repeats : All (λ g. Distinct g.evidence) gs

All-add_group :
    (a : String) (ev : List String) (gs : List Group)
    → All (λ g. Distinct g.evidence) gs
    → All (λ g. Distinct g.evidence) (add_group a ev gs)
unfolding add_group
All-add_group a ev [] h = (add_evidence-Distinct ev [] tt, tt)
All-add_group a ev (g ∷ gs) (h, hs) = elim (Bool-cases (str_eq g.action a)) [
  | inl e ↦ rw e (add_evidence-Distinct ev g.evidence h, hs)
  | inr e ↦ rw e (h, All-add_group a ev gs hs)
]

add_group-IsGrouped :
    (a : String) (ev : List String) (gs : List Group) → IsGrouped gs → IsGrouped (add_group a ev gs)
add_group-IsGrouped a ev gs h = record {
  one_each = rw (add_group-actions a ev gs) (elim (Bool-cases (any (str_eq a) (actions gs))) [
    | inl e ↦ rw e h.one_each
    | inr e ↦ rw e (Distinct-snoc a (actions gs) e h.one_each)
  ]);
  no_repeats = All-add_group a ev gs h.no_repeats;
}

group_findings-IsGrouped :
    (fds : List Finding) (gs : List Group) → IsGrouped gs → IsGrouped (group_findings fds gs)
unfolding group_findings
group_findings-IsGrouped [] gs h = h
group_findings-IsGrouped (fd ∷ fds) gs h = elim (Bool-cases (str_eq (action_of fd) "")) [
  | inl e ↦ rw e (group_findings-IsGrouped fds gs h)
  | inr e ↦ rw e (
      group_findings-IsGrouped fds (add_group (action_of fd) fd.evidence gs)
        (add_group-IsGrouped (action_of fd) fd.evidence gs h))
]

-- Some group of the action lists the text.
abbrev pub lists : String → String → List Group → Bool
lists a x gs = any (λ g. str_eq a g.action && any (str_eq x) g.evidence) gs

-- A finding of the action has the text in its evidence.
abbrev pub shows : String → String → Finding → Bool
shows a x fd = str_eq a (action_of fd) && any (str_eq x) fd.evidence

lists-add_group :
    (a x b : String) (ev : List String) (gs : List Group)
    → lists a x (add_group b ev gs)
      ≡ (lists a x gs || (not (str_eq x "") && (str_eq a b && any (str_eq x) ev)))
unfolding add_group
lists-add_group a x b ev [] = ground (arith, any-add_evidence x ev [])
lists-add_group a x b ev (g ∷ gs) = ground (
  arith,
  any-add_evidence x ev g.evidence,
  lists-add_group a x b ev gs,
  eq_iff g.action b,
  eq_iff a b,
  eq_iff a g.action,
)

lists-group_findings :
    (a x : String) (fds : List Finding) (gs : List Group)
    → str_eq a "" ≡ false
    → lists a x (group_findings fds gs)
      ≡ (lists a x gs || (not (str_eq x "") && any (shows a x) fds))
unfolding group_findings
lists-group_findings a x [] gs h = ground arith
lists-group_findings a x (fd ∷ fds) gs h = elim (Bool-cases (str_eq (action_of fd) "")) [
  | inl e ↦ rw e (
      lists-group_findings a x fds gs h
      ∙ ground (arith, eq_iff a (action_of fd), eq_iff a "", eq_iff (action_of fd) ""))
  | inr e ↦ rw e (
      lists-group_findings a x fds (add_group (action_of fd) fd.evidence gs) h
      ∙ ground (arith, lists-add_group a x (action_of fd) fd.evidence gs))
]

-- For any action other than the empty text: no action has two groups, no group repeats a
-- piece of evidence, and an action's group lists a text exactly when the text is not empty and is
-- evidence of a finding with that action.
pub group_findings_lem :
    (fds : List Finding) (a x : String)
    → str_eq a "" ≡ false
    → let gs = group_findings fds [] in
      IsGrouped gs × (lists a x gs ≡ (not (str_eq x "") && any (shows a x) fds))
group_findings_lem fds a x h = (
  group_findings-IsGrouped fds [] (record { one_each = tt; no_repeats = tt }),
  lists-group_findings a x fds [] h,
)
