-- ===== src/Evaluate/Severity.antt =====
-- What the loops of internal/evaluate/evaluator.go compute, said without the loops.
use cablecheck.Base.{
  ℕ, ◌≤◌, ◌<◌, ◌≡◌, refl, sym, ◌∙◌, Bool, false, ◌&&◌, ◌||◌, List, [], ◌∷◌, any, leb, arith,
  Bool-cases, inl, inr,
}
use cablecheck.Model.{Category, Severity, unset, sev_marker, rank, sev_lt, Finding, category_eq}
use cablecheck.Evaluate.Totals.{raise}
use cablecheck.Evaluate.Classify.{worst_cats, worst_round, worst_from, worst_in}

or_absorb : (a b c : Bool) → ((a || b) || (c && b)) ≡ (a || b)
or_absorb a b c = ground arith

or_false : (a : Bool) → (a || false) ≡ a
or_false a = ground arith

or_assoc : (a b c : Bool) → ((a || b) || c) ≡ (a || (b || c))
or_assoc a b c = ground arith

-- A finding of the ladder, in one of the categories, of at least the rank.
abbrev pub reaches : List Category → ℕ → Finding → Bool
reaches cats k fd =
    sev_lt fd.severity sev_marker
    && (any (category_eq fd.category) cats && leb k (rank fd.severity))

abbrev pub any_reaches : List Category → ℕ → List Finding → Bool
any_reaches cats k fds = any (reaches cats k) fds

leb-raise : (k : ℕ) (a b : Severity) → leb k (rank (raise a b)) ≡ (leb k (rank a) || leb k (rank b))
leb-raise k a b = ground arith

leb-worst_cats :
    (k : ℕ) (fd : Finding) (cats : List Category) (w : Severity)
    → leb k (rank (worst_cats fd cats w))
      ≡ (leb k (rank w) || (any (category_eq fd.category) cats && leb k (rank fd.severity)))
unfolding worst_cats
leb-worst_cats k fd [] w = ground arith
leb-worst_cats k fd (c ∷ cats) w = elim (Bool-cases (category_eq fd.category c)) [
  | inl e ↦
      rw (e, leb-worst_cats k fd cats (raise w fd.severity), leb-raise k w fd.severity)
        (or_absorb (leb k (rank w)) (leb k (rank fd.severity)) (any (category_eq fd.category) cats))
  | inr e ↦ rw e (leb-worst_cats k fd cats w)
]

leb-worst_round :
    (k : ℕ) (fd : Finding) (cats : List Category) (w : Severity)
    → leb k (rank (worst_round cats fd w)) ≡ (leb k (rank w) || reaches cats k fd)
leb-worst_round k fd cats w = elim (Bool-cases (sev_lt fd.severity sev_marker)) [
  | inl e ↦ rw e (leb-worst_cats k fd cats w)
  | inr e ↦ rw e (sym (or_false (leb k (rank w))))
]

leb-worst_from :
    (k : ℕ) (cats : List Category) (fds : List Finding) (w : Severity)
    → leb k (rank (worst_from cats fds w)) ≡ (leb k (rank w) || any_reaches cats k fds)
unfolding worst_from
leb-worst_from k cats [] w = sym (or_false (leb k (rank w)))
leb-worst_from k cats (fd ∷ fds) w =
    rw (leb-worst_from k cats fds (worst_round cats fd w), leb-worst_round k fd cats w)
      (or_assoc (leb k (rank w)) (reaches cats k fd) (any_reaches cats k fds))

-- The worst severity reaches a rank exactly when some finding does.
pub leb-worst_in :
    (k : ℕ) (cats : List Category) (fds : List Finding)
    → 0 < k
    → leb k (rank (worst_in fds cats)) ≡ any_reaches cats k fds
leb-worst_in k cats fds h = leb-worst_from k cats fds unset ∙ ground arith

reaches-marker : (cats : List Category) (fd : Finding) → reaches cats 5 fd ≡ false
reaches-marker cats fd = ground arith

any_reaches-marker : (cats : List Category) (fds : List Finding) → any_reaches cats 5 fds ≡ false
any_reaches-marker cats [] = refl
any_reaches-marker cats (fd ∷ fds) = rw (reaches-marker cats fd) (any_reaches-marker cats fds)

-- A marker is never the worst severity.
pub worst_in-le : (cats : List Category) (fds : List Finding) → rank (worst_in fds cats) ≤ 4
worst_in-le cats fds =
    ground (arith, leb-worst_in 5 cats fds (omega arith), any_reaches-marker cats fds)
