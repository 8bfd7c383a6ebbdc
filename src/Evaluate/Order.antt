-- ===== src/Evaluate/Order.antt =====
-- The class of internal/evaluate/evaluator.go under a change of the order of the findings, and under
-- one more marker.
use mathlib.Core.List.{Perm, Permᴰ}
use mathlib.Core.Logic.{∥∥₁_elim}
use cablecheck.Base.{ℕ, ◌≤◌, ◌≡◌, ◌⊎◌, refl, sym, ◌∙◌, Bool, false, ◌||◌, List, [], ◌∷◌, any, arith}
use cablecheck.Base.Text.{String, str_eq}
use cablecheck.Model.{
  HealthClass, excellent, good, inconclusive, Category, physical, transport, performance,
  limitation, Severity, sev_marker, rank, Finding,
}
use cablecheck.Evaluate.Classify.{
  worst_from, worst_in, is_hard_poor, is_info_deviation, has_finding, has_host_limit,
  all_poor_are_host_sensitive, any_info_deviation, has_gap, decide_class, classify,
}
use cablecheck.Evaluate.Severity.{reaches, any_reaches, leb-worst_in}

or_swap : (a b c : Bool) → (a || (b || c)) ≡ (b || (a || c))
or_swap a b c = ground arith

any-Permᴰ : {A : Type 0} (p : A → Bool) {xs ys : List A} → Permᴰ xs ys → any p xs ≡ any p ys
any-Permᴰ p Permᴰ.nil = refl
any-Permᴰ p (Permᴰ.cons {a = a} {b = b} e h) = rw e (rw (any-Permᴰ p h))
any-Permᴰ p (Permᴰ.swap {a' = c} {b' = d} {l = l} e k) = rw (e, k) (or_swap (p d) (p c) (any p l))
any-Permᴰ p (Permᴰ.trans h k) = any-Permᴰ p h ∙ any-Permᴰ p k

rank_injective : (a b : Severity) → rank a ≡ rank b → a ≡ b
rank_injective a b h = ground arith

-- One list's worst severity is at most another's where the other reaches what the first does.
worst_in_mono :
    (cats : List Category) (fds gds : List Finding)
    → ((k : ℕ) → any_reaches cats k fds ≡ any_reaches cats k gds)
    → rank (worst_in fds cats) ≤ rank (worst_in gds cats)
worst_in_mono cats fds gds h =
    let k = rank (worst_in fds cats) in
    ground (arith, leb-worst_in k cats fds, leb-worst_in k cats gds, h k)

worst_in-Permᴰ :
    (cats : List Category) (fds gds : List Finding)
    → Permᴰ fds gds
    → worst_in fds cats ≡ worst_in gds cats
worst_in-Permᴰ cats fds gds h = rank_injective _ _ (
    omega (
      arith,
      worst_in_mono cats fds gds (λ k. any-Permᴰ (reaches cats k) h),
      worst_in_mono cats gds fds (λ k. sym (any-Permᴰ (reaches cats k) h)),
    ))

classify-Permᴰ : (fds gds : List Finding) → Permᴰ fds gds → classify fds ≡ classify gds
unfolding classify has_host_limit all_poor_are_host_sensitive any_info_deviation
classify-Permᴰ fds gds h =
    let same = λ (id : String). any-Permᴰ (λ fd. str_eq fd.rule_id id) h in
    cc (
      worst_in-Permᴰ (physical ∷ []) fds gds h,
      worst_in-Permᴰ (transport ∷ performance ∷ []) fds gds h,
      any-Permᴰ is_hard_poor h,
      any-Permᴰ is_info_deviation h,
      same "HOST-01",
      same "HOST-02",
      same "HOST-03",
      same "HOST-04",
      same "LIM-01",
      same "LIM-02",
      same "LIM-03",
      same "LIM-05",
    )

HealthClass-set : IsSet HealthClass
HealthClass-set = hlevel

-- The class does not depend on the order of the findings.
pub classify-Perm : (fds gds : List Finding) → Perm fds gds → classify fds ≡ classify gds
classify-Perm fds gds h = ∥∥₁_elim h (HealthClass-set _ _) (classify-Permᴰ fds gds)

-- The class with a marker more: the same, or a good class made worse.
abbrev pub Capped : HealthClass → HealthClass → Type 0
Capped c d =
    (d ≡ c) ⊎ ((c ≡ excellent) × (d ≡ good)) ⊎ (((c ≡ excellent) ⊎ (c ≡ good)) × (d ≡ inconclusive))

decide_class-Capped :
    (p t : Severity) (a b c v g r x y : Bool)
    → Capped (decide_class p t a b c v g r) (decide_class p t a b c v (x || g) (y || r))
unfolding decide_class
decide_class-Capped p t a b c v g r x y = ground arith

worst_in-marker :
    (cats : List Category) (fd : Finding) (fds : List Finding)
    → fd.severity ≡ sev_marker
    → worst_in (fd ∷ fds) cats ≡ worst_in fds cats
unfolding worst_from
worst_in-marker cats fd fds s = rw s

module _ (fd : Finding) (fds : List Finding) where
  host_limit_same :
      has_host_limit (fd ∷ []) ≡ false → has_host_limit (fd ∷ fds) ≡ has_host_limit fds
  unfolding has_host_limit
  host_limit_same h = ground arith

  hard_poor_same :
      fd.severity ≡ sev_marker
      → all_poor_are_host_sensitive (fd ∷ fds) ≡ all_poor_are_host_sensitive fds
  unfolding all_poor_are_host_sensitive
  hard_poor_same h = ground arith

  info_same : fd.category ≡ limitation → any_info_deviation (fd ∷ fds) ≡ any_info_deviation fds
  unfolding any_info_deviation
  info_same h = ground arith

  virtual_same :
      has_finding (fd ∷ []) "HOST-02" ≡ false
      → has_finding (fd ∷ fds) "HOST-02" ≡ has_finding fds "HOST-02"
  virtual_same h = ground arith

  gap_more : has_gap (fd ∷ fds) ≡ (has_gap (fd ∷ []) || has_gap fds)
  gap_more = ground arith

-- A limitation marker that is added to the findings leaves the class as it is, or takes EXCELLENT to
-- GOOD, or takes EXCELLENT or GOOD to INCONCLUSIVE.
pub classify-Capped :
    (fd : Finding) (fds : List Finding)
    → fd.category ≡ limitation
    → fd.severity ≡ sev_marker
    → has_host_limit (fd ∷ []) ≡ false
    → has_finding (fd ∷ []) "HOST-02" ≡ false
    → Capped (classify fds) (classify (fd ∷ fds))
unfolding classify
classify-Capped fd fds c s n v =
    rw
      (
        worst_in-marker (physical ∷ []) fd fds s,
        worst_in-marker (transport ∷ performance ∷ []) fd fds s,
        host_limit_same fd fds n,
        hard_poor_same fd fds s,
        info_same fd fds c,
        virtual_same fd fds v,
        gap_more fd fds,
      )
      (decide_class-Capped _ _ _ _ _ _ _ _ _ _)
