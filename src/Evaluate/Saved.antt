-- ===== src/Evaluate/Saved.antt =====
-- internal/evaluate: from a saved report to its class.
use cablecheck.Base.{
  ◌+◌, ◌≡◌, inl, refl, sym, ◌∙◌, Bool, true, false, not, ◌&&◌, ◌||◌, List, [], ◌∷◌, any, is_empty,
  is_empty-append, arith,
}
use cablecheck.Base.Int.{pos, ltb_ℤ}
use cablecheck.Float64.{Float64}
use cablecheck.Model.{excellent}
use cablecheck.Model.Bitrate.{Bitrate}
use cablecheck.Model.Report.{Report, TcpResult, PingResult, UdpResult, skip_reason_unreachable}
use cablecheck.Evaluate.Facts.{DirFacts}
use cablecheck.Evaluate.Thresholds.{Thresholds, default}
use cablecheck.Evaluate.Engine.{evaluate}
use cablecheck.Evaluate.Coverage.{is_noncritical, evaluate_with-evidence, evaluate_with-excellent}
use cablecheck.Evaluate.Extract.{dir_facts, facts_from_report_with, facts_from_report}
use cablecheck.Evaluate.Extract.Directions.{Both, zero_dir, dir_index, update_dir}
use cablecheck.Evaluate.Extract.Link.{negotiated_speed, count, virtual_nic}
use cablecheck.Evaluate.Extract.Tcp.{
  TcpSamples, no_samples, rate_of, is_of, add_trial, tcp_samples, expected_tcp_trials, tcp_dir,
}
use cablecheck.Evaluate.Extract.Traffic.{
  add_pings, add_full_size_pings, add_udp, Udp, ping_dir, full_size_dir, udp_step,
}
use cablecheck.Evaluate.Extract.Names.{add_name-any, add_skipped-any}
use cablecheck.Evaluate.Extract.Coverage.{
  has_prefix, throughput_unreachable, unavailable_tests, add_skipped,
}

module _ {F : Type 0} ⦃fl : Float64 F⦄ where
  -- A trial of the direction that was cut short, and one that was not.
  abbrev pub is_cut : Bool → TcpResult F → Bool
  is_cut side tr = is_of side tr && tr.incomplete

  abbrev pub is_whole : Bool → TcpResult F → Bool
  is_whole side tr = is_of side tr && not tr.incomplete

  add_trial-lem :
      (side : Bool) (tr : TcpResult F) (s : TcpSamples F)
      → let s' = add_trial side tr s in
        (s'.incomplete ≡ (s.incomplete || is_cut side tr))
        × (s'.observed ≡ s.observed + count (is_of side) (tr ∷ []))
        × (is_empty s'.bitrates ≡ (is_empty s.bitrates && not (is_whole side tr)))
  add_trial-lem side tr s =
      (ground arith, ground arith, ground (arith, is_empty-append s.bitrates (rate_of tr ∷ [])))

  tcp_samples-lem :
      (side : Bool) (trials : List (TcpResult F)) (s : TcpSamples F)
      → let s' = tcp_samples side trials s in
        (s'.incomplete ≡ (s.incomplete || any (is_cut side) trials))
        × (s'.observed ≡ s.observed + count (is_of side) trials)
        × (is_empty s'.bitrates ≡ (is_empty s.bitrates && not (any (is_whole side) trials)))
  unfolding tcp_samples
  tcp_samples-lem side [] s = (ground arith, ground arith, ground arith)
  tcp_samples-lem side (tr ∷ trials) s =
      ground (arith, add_trial-lem side tr s, tcp_samples-lem side trials (add_trial side tr s))

  -- The direction was measured: a whole trial of it, none that was cut, and no fewer than expected.
  abbrev pub is_measured : Report F → Bool → Bool
  is_measured r side =
      any (is_whole side) r.tests.tcp
      && (not (any (is_cut side) r.tests.tcp)
          && not (
              ltb_ℤ (pos 0) (expected_tcp_trials r)
              && ltb_ℤ (pos (count (is_of side) r.tests.tcp)) (expected_tcp_trials r)))

  tcp_dir-tcp_available :
      (r : Report F) (t : Thresholds F) (speed : Bitrate) (side : Bool) (d : DirFacts F)
      → d.tcp_available ≡ false
      → (tcp_dir r t speed side d).tcp_available ≡ is_measured r side
  unfolding tcp_dir
  tcp_dir-tcp_available r t speed side d h =
      ground (arith, tcp_samples-lem side r.tests.tcp no_samples)

  -- No TCP result is in the facts.
  abbrev Unmeasured : Both (DirFacts F) → Type 0
  Unmeasured d = (d.0.tcp_available ≡ false) × (d.1.tcp_available ≡ false)

  add_pings-Unmeasured :
      (pings : List (PingResult F)) (d : Both (DirFacts F))
      → Unmeasured d
      → Unmeasured (add_pings pings d)
  unfolding add_pings
  add_pings-Unmeasured [] d h = h
  add_pings-Unmeasured (p ∷ pings) d h =
      add_pings-Unmeasured pings (update_dir (dir_index p.direction) (ping_dir p) d) (ground arith)

  add_full_size_pings-Unmeasured :
      (pings : List (PingResult F)) (d : Both (DirFacts F))
      → Unmeasured d
      → Unmeasured (add_full_size_pings pings d)
  unfolding add_full_size_pings
  add_full_size_pings-Unmeasured [] d h = h
  add_full_size_pings-Unmeasured (p ∷ pings) d h =
      add_full_size_pings-Unmeasured pings (update_dir (dir_index p.direction) (full_size_dir p) d)
        (ground arith)

  udp_step-tcp_available :
      (t : Thresholds F) (speed : Bitrate) (u : UdpResult F) (s : Udp F)
      → ((udp_step t speed u s).dirs.0.tcp_available ≡ s.dirs.0.tcp_available)
        × ((udp_step t speed u s).dirs.1.tcp_available ≡ s.dirs.1.tcp_available)
  udp_step-tcp_available t speed u s = (ground arith, ground arith)

  add_udp-tcp_available :
      (t : Thresholds F) (speed : Bitrate) (results : List (UdpResult F)) (s : Udp F)
      → ((add_udp t speed results s).dirs.0.tcp_available ≡ s.dirs.0.tcp_available)
        × ((add_udp t speed results s).dirs.1.tcp_available ≡ s.dirs.1.tcp_available)
  unfolding add_udp
  add_udp-tcp_available t speed [] s = (refl, refl)
  add_udp-tcp_available t speed (u ∷ results) s =
      let (a, b) = add_udp-tcp_available t speed results (udp_step t speed u s) in
      let (c, d) = udp_step-tcp_available t speed u s in (a ∙ c, b ∙ d)

  dir_facts-tcp_available :
      (r : Report F) (t : Thresholds F)
      → ((dir_facts r t).dirs.0.tcp_available ≡ is_measured r false)
        × ((dir_facts r t).dirs.1.tcp_available ≡ is_measured r true)
  unfolding dir_facts
  dir_facts-tcp_available r t =
      let pinged =
        add_full_size_pings r.tests.full_size_ping (add_pings r.tests.ping (zero_dir, zero_dir)) in
      let speed = negotiated_speed r in
      let tcp : Both (DirFacts F) =
        (tcp_dir r t speed false pinged.0, tcp_dir r t speed true pinged.1) in
      let (p, q) =
        add_full_size_pings-Unmeasured r.tests.full_size_ping
          (add_pings r.tests.ping (zero_dir, zero_dir))
          (add_pings-Unmeasured r.tests.ping (zero_dir, zero_dir) (refl, refl)) in
      let (a, b) =
        add_udp-tcp_available t speed r.tests.udp
          (record { dirs = tcp; near_saturation = false }) in
      (
        a ∙ tcp_dir-tcp_available r t speed false pinged.0 p,
        b ∙ tcp_dir-tcp_available r t speed true pinged.1 q,
      )

  unavailable_tests-any :
      (r : Report F)
      → any is_noncritical (unavailable_tests r) ≡ false
      → any (λ st. is_noncritical st.name) r.skipped_tests ≡ false
  unfolding unavailable_tests
  unavailable_tests-any r h = ground (
    arith,
    add_skipped-any is_noncritical r.skipped_tests [] refl,
    add_name-any is_noncritical "cable_test" (add_skipped r.skipped_tests []) refl,
    add_name-any is_noncritical "cable_test_tdr" (add_skipped r.skipped_tests []) refl,
  )

  -- A saved report is evaluated EXCELLENT only if in each direction there is a whole TCP trial, none
  -- that was cut, and no fewer trials than its configuration and its soak cycles ask for; the run was
  -- not interrupted; no test was skipped because the data port could not be reached; no noncritical
  -- test was skipped; and neither interface is virtual.
  pub evaluate-facts_from_report :
      (r : Report F)
      → (evaluate (facts_from_report r)).class ≡ excellent
      → (is_measured r false ≡ true)
        × (is_measured r true ≡ true)
        × (r.is_partial ≡ false)
        × (any (λ st. has_prefix skip_reason_unreachable st.reason) r.skipped_tests ≡ false)
        × (any (λ st. is_noncritical st.name) r.skipped_tests ≡ false)
        × ((virtual_nic r.nic.pc1 || virtual_nic r.nic.pc2) ≡ false)
  unfolding evaluate facts_from_report facts_from_report_with throughput_unreachable
  evaluate-facts_from_report r h =
      let f = facts_from_report_with r default in
      let (virtual, whole, reachable, _, _, _) = evaluate_with-evidence f default (inl h) in
      let (a, b, _, _, names) = evaluate_with-excellent f default h in
      let (c, d) = dir_facts-tcp_available r default in
      (sym c ∙ a, sym d ∙ b, whole, reachable, unavailable_tests-any r names, virtual)
