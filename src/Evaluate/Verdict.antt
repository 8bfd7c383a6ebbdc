-- ===== src/Evaluate/Verdict.antt =====
-- The classes of internal/evaluate/evaluator.go and the findings behind them.
use cablecheck.Base.{◌≡◌, ◌↔◌, ◌⊎◌, refl, Bool, true, false, not, ◌||◌, ◌&&◌, List, [], ◌∷◌, arith}
use cablecheck.Model.{
  excellent, good, warning, poor, failed, inconclusive, physical, transport, performance, Severity,
  sev_info, sev_warning, sev_poor, sev_failed, rank, Finding,
}
use cablecheck.Evaluate.Classify.{
  is_info_deviation, has_finding, has_host_limit, all_poor_are_host_sensitive, any_info_deviation,
  has_gap, decide_class, classify,
}
use cablecheck.Evaluate.Severity.{reaches, any_reaches, leb-worst_in, worst_in-le}

-- Some physical finding has at least the severity.
abbrev pub physical_reaches : Severity → List Finding → Bool
physical_reaches sev fds = any_reaches (physical ∷ []) (rank sev) fds

-- Some transport or performance finding has at least the severity.
abbrev pub traffic_reaches : Severity → List Finding → Bool
traffic_reaches sev fds = any_reaches (transport ∷ performance ∷ []) (rank sev) fds

-- Every severe traffic finding is one that a busy host can cause, the host was busy, and no
-- physical finding is a warning or worse.
abbrev pub excused : List Finding → Bool
excused fds =
    has_host_limit fds
    && (not (physical_reaches sev_warning fds) && all_poor_are_host_sensitive fds)

-- A finding of the three layers, of any severity of the ladder.
abbrev pub any_deviation : List Finding → Bool
any_deviation fds = any_reaches (physical ∷ transport ∷ performance ∷ []) (rank sev_info) fds

deviation-cases :
    (fd : Finding)
    → reaches (physical ∷ transport ∷ performance ∷ []) 1 fd ≡ (
        reaches (physical ∷ []) 2 fd
        || (reaches (transport ∷ performance ∷ []) 2 fd || is_info_deviation fd))
deviation-cases fd = ground arith

any_deviation-cases :
    (fds : List Finding)
    → any_deviation fds ≡ (
        physical_reaches sev_warning fds
        || (traffic_reaches sev_warning fds || any_info_deviation fds))
unfolding any_info_deviation
any_deviation-cases [] = refl
any_deviation-cases (fd ∷ fds) = ground (arith, deviation-cases fd, any_deviation-cases fds)

module _ (fds : List Finding) where
  -- The run is FAILED exactly when some physical finding is a failure.
  pub classify-failed_iff : (classify fds ≡ failed) ↔ (physical_reaches sev_failed fds ≡ true)
  unfolding classify decide_class
  classify-failed_iff =
      ground
        (arith, leb-worst_in 4 (physical ∷ []) fds (omega arith), worst_in-le (physical ∷ []) fds)

  -- The run is POOR exactly when no physical finding is a failure, and either a physical finding is
  -- poor or, on an interface that is not virtual, a transport or performance finding is poor or
  -- worse and is not excused by the host.
  pub classify-poor_iff : (classify fds ≡ poor) ↔ (
      (physical_reaches sev_failed fds ≡ false)
      × ((physical_reaches sev_poor fds ≡ true)
          ⊎ ((traffic_reaches sev_poor fds ≡ true)
              × (excused fds ≡ false)
              × (has_finding fds "HOST-02" ≡ false))))
  unfolding classify decide_class
  classify-poor_iff = ground (
    arith,
    leb-worst_in 4 (physical ∷ []) fds (omega arith),
    leb-worst_in 3 (physical ∷ []) fds (omega arith),
    leb-worst_in 2 (physical ∷ []) fds (omega arith),
    leb-worst_in 3 (transport ∷ performance ∷ []) fds (omega arith),
    worst_in-le (physical ∷ []) fds,
  )

  -- The run is EXCELLENT exactly when no physical, transport or performance finding deviates at
  -- all, the interface is not virtual, and no limitation marker that caps the class is present.
  pub classify-excellent_iff : (classify fds ≡ excellent) ↔ (
      (any_deviation fds ≡ false)
      × (has_finding fds "HOST-02" ≡ false)
      × (has_gap fds ≡ false)
      × (has_finding fds "LIM-02" ≡ false))
  unfolding classify decide_class
  classify-excellent_iff = ground (
    arith,
    any_deviation-cases fds,
    leb-worst_in 4 (physical ∷ []) fds (omega arith),
    leb-worst_in 3 (physical ∷ []) fds (omega arith),
    leb-worst_in 2 (physical ∷ []) fds (omega arith),
    leb-worst_in 3 (transport ∷ performance ∷ []) fds (omega arith),
    leb-worst_in 2 (transport ∷ performance ∷ []) fds (omega arith),
    worst_in-le (physical ∷ []) fds,
  )

  -- The run is INCONCLUSIVE exactly when no physical finding is poor or worse, and the interface is
  -- virtual, or the host excuses the poor traffic, or critical evidence is missing and neither the
  -- physical nor the traffic findings reach a warning.
  pub classify-inconclusive_iff : (classify fds ≡ inconclusive) ↔ (
      (physical_reaches sev_poor fds ≡ false)
      × ((has_finding fds "HOST-02" ≡ true)
          ⊎ ((traffic_reaches sev_poor fds ≡ true) × (excused fds ≡ true))
          ⊎ ((has_gap fds ≡ true)
              × (physical_reaches sev_warning fds ≡ false)
              × (traffic_reaches sev_warning fds ≡ false))))
  unfolding classify decide_class
  classify-inconclusive_iff = ground (
    arith,
    leb-worst_in 4 (physical ∷ []) fds (omega arith),
    leb-worst_in 3 (physical ∷ []) fds (omega arith),
    leb-worst_in 2 (physical ∷ []) fds (omega arith),
    leb-worst_in 3 (transport ∷ performance ∷ []) fds (omega arith),
    leb-worst_in 2 (transport ∷ performance ∷ []) fds (omega arith),
    worst_in-le (physical ∷ []) fds,
  )

  -- The run is WARNING exactly when no finding of the three layers is poor or worse, some physical,
  -- transport or performance finding is a warning, and the interface is not virtual; missing
  -- evidence does not change that.
  pub classify-warning_iff : (classify fds ≡ warning) ↔ (
      (physical_reaches sev_poor fds ≡ false)
      × (traffic_reaches sev_poor fds ≡ false)
      × ((physical_reaches sev_warning fds || traffic_reaches sev_warning fds) ≡ true)
      × (has_finding fds "HOST-02" ≡ false))
  unfolding classify decide_class
  classify-warning_iff = ground (
    arith,
    leb-worst_in 4 (physical ∷ []) fds (omega arith),
    leb-worst_in 3 (physical ∷ []) fds (omega arith),
    leb-worst_in 2 (physical ∷ []) fds (omega arith),
    leb-worst_in 3 (transport ∷ performance ∷ []) fds (omega arith),
    leb-worst_in 2 (transport ∷ performance ∷ []) fds (omega arith),
    worst_in-le (physical ∷ []) fds,
  )

  -- The run is GOOD exactly when no finding of the three layers is a warning or worse, some finding
  -- of them deviates or the coverage was reduced, the interface is not virtual, and no critical
  -- evidence is missing.
  pub classify-good_iff : (classify fds ≡ good) ↔ (
      (physical_reaches sev_warning fds ≡ false)
      × (traffic_reaches sev_warning fds ≡ false)
      × ((any_deviation fds || has_finding fds "LIM-02") ≡ true)
      × (has_finding fds "HOST-02" ≡ false)
      × (has_gap fds ≡ false))
  unfolding classify decide_class
  classify-good_iff = ground (
    arith,
    any_deviation-cases fds,
    leb-worst_in 4 (physical ∷ []) fds (omega arith),
    leb-worst_in 3 (physical ∷ []) fds (omega arith),
    leb-worst_in 2 (physical ∷ []) fds (omega arith),
    leb-worst_in 3 (transport ∷ performance ∷ []) fds (omega arith),
    leb-worst_in 2 (transport ∷ performance ∷ []) fds (omega arith),
    worst_in-le (physical ∷ []) fds,
  )
