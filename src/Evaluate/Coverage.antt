-- ===== src/Evaluate/Coverage.antt =====
-- internal/evaluate: the evidence behind a good or excellent class.
use cablecheck.Base.{
  ◌≡◌, ◌⊎◌, inl, inr, Bool, true, false, not, ◌&&◌, ◌||◌, List, [], ◌∷◌, ◌++◌, any, is_empty,
  is_empty-append, Bool-cases, refl, arith,
}
use cablecheck.Base.Text.{String, str_eq}
use cablecheck.Float64.{Float64}
use cablecheck.Model.{excellent, good, Finding}
use cablecheck.Evaluate.Facts.{Facts}
use cablecheck.Evaluate.Thresholds.{Thresholds}
use cablecheck.Evaluate.Host.{rule_host02}
use cablecheck.Evaluate.Limitation.{
  rule_lim01, rule_lim02, rule_lim03, rule_lim05, noncritical_tests, lim02_tests, lim02_tcp,
  lim02_sides,
}
use cablecheck.Evaluate.Engine.{findings_of, evaluate_with}
use cablecheck.Evaluate.Classify.{classify, decide_class, has_finding, has_gap}
use cablecheck.Evaluate.Verdict.{classify-excellent_iff}
use cablecheck.Evaluate.Findings.{is_some, has_finding-findings_of}

-- A good or excellent class has no cap on it.
classify-uncapped :
    (fds : List Finding)
    → (classify fds ≡ excellent) ⊎ (classify fds ≡ good)
    → (has_finding fds "HOST-02" ≡ false) × (has_gap fds ≡ false)
unfolding classify decide_class
classify-uncapped fds h = ground arith

abbrev pub is_noncritical : String → Bool
is_noncritical name = any (str_eq name) noncritical_tests

lim02_tests-is_empty :
    (quoted : String → String) (names : List String)
    → is_empty (lim02_tests quoted names) ≡ not (any is_noncritical names)
unfolding lim02_tests
lim02_tests-is_empty quoted [] = refl
lim02_tests-is_empty quoted (name ∷ names) = elim (Bool-cases (is_noncritical name)) [
  | inl e ↦ rw e
  | inr e ↦ rw e (lim02_tests-is_empty quoted names)
]

module _ {F : Type 0} ⦃fl : Float64 F⦄ (f : Facts F) (t : Thresholds F) where
  pub has-host02 : has_finding (findings_of f t) "HOST-02" ≡ f.virtual_interface
  unfolding rule_host02
  has-host02 = rw (has_finding-findings_of f t "HOST-02") (ground arith)

  -- Nothing measured: no TCP result, no counters, or no receive-error counter, on both sides.
  abbrev pub is_blind : Bool
  is_blind =
      (not f.dir0.tcp_available && not f.dir1.tcp_available)
      || ((not f.pc1.counters_available && not f.pc2.counters_available)
          || (not f.pc1.rx_error_evidence && not f.pc2.rx_error_evidence))

  has_gap-findings_of :
      has_gap (findings_of f t) ≡ (is_blind || (f.is_partial || f.throughput_unreachable))
  unfolding rule_lim01 rule_lim03 rule_lim05
  has_gap-findings_of =
      rw
        (
          has_finding-findings_of f t "LIM-01",
          has_finding-findings_of f t "LIM-03",
          has_finding-findings_of f t "LIM-05",
        )
        (ground arith)

  -- A run is GOOD or EXCELLENT only on a physical interface, with the throughput port reachable and
  -- without an interruption, and where TCP was measured in some direction, NIC counters on some
  -- side, and receive errors on some side.
  pub evaluate_with-evidence :
      ((evaluate_with f t).class ≡ excellent) ⊎ ((evaluate_with f t).class ≡ good)
      → (f.virtual_interface ≡ false)
        × (f.is_partial ≡ false)
        × (f.throughput_unreachable ≡ false)
        × ((f.dir0.tcp_available || f.dir1.tcp_available) ≡ true)
        × ((f.pc1.counters_available || f.pc2.counters_available) ≡ true)
        × ((f.pc1.rx_error_evidence || f.pc2.rx_error_evidence) ≡ true)
  unfolding evaluate_with
  evaluate_with-evidence h =
      ground (arith, classify-uncapped (findings_of f t) h, has-host02, has_gap-findings_of)

  lim02-is_some :
      is_some (rule_lim02 f t)
      ≡ not (
          is_empty (lim02_tcp f)
          && (is_empty (lim02_tests fl.show_quoted f.unavailable) && is_empty (lim02_sides f)))
  unfolding rule_lim02
  lim02-is_some = ground (
    arith,
    is_empty-append (lim02_tcp f) (lim02_tests fl.show_quoted f.unavailable ++ lim02_sides f),
    is_empty-append (lim02_tests fl.show_quoted f.unavailable) (lim02_sides f),
  )

  lim02-quiet :
      is_some (rule_lim02 f t) ≡ false
      → (f.dir0.tcp_available ≡ f.dir1.tcp_available)
        × (f.pc1.rx_error_evidence ≡ f.pc2.rx_error_evidence)
        × (any is_noncritical f.unavailable ≡ false)
  unfolding lim02_tcp lim02_sides
  lim02-quiet h = ground (arith, lim02-is_some, lim02_tests-is_empty fl.show_quoted f.unavailable)

  has-lim02 : has_finding (findings_of f t) "LIM-02" ≡ is_some (rule_lim02 f t)
  has-lim02 = rw (has_finding-findings_of f t "LIM-02") (ground arith)

  -- A run is EXCELLENT only where TCP was measured in both directions, receive errors on both
  -- sides, and every noncritical test that was planned could run.
  pub evaluate_with-excellent :
      (evaluate_with f t).class ≡ excellent
      → (f.dir0.tcp_available ≡ true)
        × (f.dir1.tcp_available ≡ true)
        × (f.pc1.rx_error_evidence ≡ true)
        × (f.pc2.rx_error_evidence ≡ true)
        × (any is_noncritical f.unavailable ≡ false)
  unfolding evaluate_with
  evaluate_with-excellent h = ground (
    arith,
    evaluate_with-evidence (inl h),
    lim02-quiet,
    has-lim02,
    classify-excellent_iff (findings_of f t),
  )
