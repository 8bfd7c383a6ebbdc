-- ===== src/Evaluate/Extract/Names.antt =====
-- internal/evaluate/facts.go: which names the list of unavailable tests has.
use cablecheck.Base.{◌≡◌, Bool, true, false, ◌||◌, List, [], ◌∷◌, any, any-append, arith}
use cablecheck.Base.Text.{String, str_eq, eq_iff}
use cablecheck.Model.Report.{SkippedTest}
use cablecheck.Evaluate.Extract.Coverage.{add_name, add_skipped}

any_seen :
    (p : String → Bool) (name : String) (names : List String)
    → any (str_eq name) names ≡ true
    → p name ≡ true
    → any p names ≡ true
any_seen p name [] h t = cc
any_seen p name (n ∷ names) h t = ground (arith, eq_iff name n, any_seen p name names)

pub add_name-any :
    (p : String → Bool) (name : String) (names : List String)
    → p "" ≡ false
    → any p (add_name name names) ≡ (any p names || p name)
add_name-any p name names e =
    ground (arith, eq_iff name "", any_seen p name names, any-append p names (name ∷ []))

pub add_skipped-any :
    (p : String → Bool) (skipped : List SkippedTest) (names : List String)
    → p "" ≡ false
    → any p (add_skipped skipped names) ≡ (any p names || any (λ st. p st.name) skipped)
unfolding add_skipped
add_skipped-any p [] names e = ground arith
add_skipped-any p (st ∷ skipped) names e =
    ground
      (arith, add_skipped-any p skipped (add_name st.name names) e, add_name-any p st.name names e)
