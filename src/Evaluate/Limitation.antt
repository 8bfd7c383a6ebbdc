-- ===== src/Evaluate/Limitation.antt =====
-- internal/evaluate/rules.go: the limitation markers, LIM-01 to LIM-05.
use cablecheck.Base.{
  Bool, not, ◌&&◌, ◌||◌, Option, none, some, List, [], ◌∷◌, ◌++◌, any, if◌then◌else◌,
}
use cablecheck.Base.Text.{String, ◌⧺◌, str_eq}
use cablecheck.Float64.{Float64}
use cablecheck.Model.{limitation, sev_info, sev_marker, Finding}
use cablecheck.Evaluate.Facts.{SideFacts, Facts, pc1_to_pc2, pc2_to_pc1, dir_name}
use cablecheck.Evaluate.Thresholds.{Thresholds}
use cablecheck.Evaluate.Totals.{finding}
use cablecheck.Evaluate.Transport.{from_evidence}

-- A line where the test holds.
abbrev line_if : Bool → String → List String
line_if b s = if b then s ∷ [] else []

abbrev bool_ne : Bool → Bool → Bool
bool_ne a b = if a then not b else b

-- The keys of `noncriticalTests`.
abbrev pub noncritical_tests : List String
noncritical_tests =
    "ping" ∷ "udp" ∷ "bidir" ∷ "bidirectional" ∷ "full_size_ping" ∷ "fullsize_ping" ∷ "cable_test"
    ∷ "cable_test_tdr" ∷ []

module _ {F : Type 0} where
  abbrev no_counters_line : Facts F → String
  no_counters_line f =
      if f.is_partial && (f.pc1.baseline_captured || f.pc2.baseline_captured)
      then "final NIC counter snapshot missing — a counter baseline was captured but the run was interrupted before counter deltas could be computed"
      else "NIC error counters unavailable on both sides"

  unfoldable pub rule_lim01 : Facts F → Thresholds F → Option Finding
  rule_lim01 f t =
      let no_tcp = not f.dir0.tcp_available && not f.dir1.tcp_available in
      let no_counters = not f.pc1.counters_available && not f.pc2.counters_available in
      let no_rx_evidence = not f.pc1.rx_error_evidence && not f.pc2.rx_error_evidence in
      if not no_tcp && (not no_counters && not no_rx_evidence)
      then none
      else some (
          finding "LIM-01" limitation sev_marker
            "Critical evidence is missing — a clean-looking result would not be trustworthy."
            (line_if no_tcp "no TCP throughput result in either direction"
              ++ (line_if no_counters (no_counters_line f)
                  ++ line_if (no_rx_evidence && not no_counters)
                      "neither NIC exposes a receive-error counter, so frame corruption was never measured")))

  abbrev unmeasured_line : Facts F → String → SideFacts → String
  unmeasured_line f name side =
      if f.is_partial && (side.baseline_captured && not side.counters_available)
      then name
        ⧺ "'s final counter snapshot is missing — the run was interrupted, so receive errors arriving there after the baseline went unmeasured"
      else name
        ⧺ " exposes no receive-error counter, so corruption arriving there was never measured"

  unfoldable pub lim02_sides : Facts F → List String
  lim02_sides f =
      if bool_ne f.pc1.rx_error_evidence f.pc2.rx_error_evidence
      then (if f.pc1.rx_error_evidence
          then unmeasured_line f "pc2" f.pc2
          else unmeasured_line f "pc1" f.pc1)
        ∷ []
      else []

  unfoldable pub lim02_tcp : Facts F → List String
  lim02_tcp f = line_if (bool_ne f.dir0.tcp_available f.dir1.tcp_available) (
      "TCP throughput "
      ⧺ (dir_name (if f.dir0.tcp_available then pc2_to_pc1 else pc1_to_pc2)
          ⧺ " could not complete"))

  unfoldable pub rule_lim03 : Facts F → Thresholds F → Option Finding
  rule_lim03 f t =
      if f.is_partial
      then some (
          finding "LIM-03" limitation sev_marker
            "The run was interrupted — the report covers only the tests that completed."
            ("partial run (interrupt or abort)" ∷ []))
      else none

  unfoldable pub rule_lim04 : Facts F → Thresholds F → Option Finding
  rule_lim04 f t =
      if f.udp_rate_assumed
      then some (
          finding "LIM-04" limitation sev_info
            "The UDP target rate was assumed (link speed unknown) — UDP findings are relative to that assumption."
            ("UDP tested at an assumed rate" ∷ []))
      else none

  unfoldable pub rule_lim05 : Facts F → Thresholds F → Option Finding
  rule_lim05 f t =
      if f.throughput_unreachable
      then some (
          finding "LIM-05" limitation sev_marker
            "The throughput test could not connect to the peer's data port — the cable cannot be judged from this run."
            ("iperf3 could not establish a data connection to the peer" ∷ []))
      else none

-- The loop over the unavailable tests, with `%q` as an argument.
unfoldable pub lim02_tests : (String → String) → List String → List String
lim02_tests quoted [] = []
lim02_tests quoted (name ∷ names) =
    line_if (any (str_eq name) noncritical_tests) ("test " ⧺ (quoted name ⧺ " could not run"))
    ++ lim02_tests quoted names

module _ {F : Type 0} ⦃fl : Float64 F⦄ where
  unfoldable pub rule_lim02 : Facts F → Thresholds F → Option Finding
  rule_lim02 f t =
      let ev = lim02_tcp f ++ (lim02_tests fl.show_quoted f.unavailable ++ lim02_sides f) in
      from_evidence ev (
        finding "LIM-02" limitation sev_marker
          "Some planned measurements could not run — coverage is reduced." ev)
