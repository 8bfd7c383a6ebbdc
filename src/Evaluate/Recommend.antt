-- ===== src/Evaluate/Recommend.antt =====
-- internal/evaluate/recommend.go: one action for the findings that share it, with their evidence.
use cablecheck.Base.{
  Bool, true, false, ◌||◌, List, [], ◌∷◌, ◌++◌, any, map, is_empty, if◌then◌else◌,
}
use cablecheck.Base.Text.{String, ◌⧺◌, str_eq, join}
use cablecheck.Model.{HealthClass, poor, failed, inconclusive, Finding}

abbrev rec_cable : String
rec_cable =
    "Reseat both connectors and inspect for damage; replace the cable with a known-good Cat5e/Cat6 and rerun."

abbrev rec_speed : String
rec_speed =
    "Reduced link speed: inspect cable wiring and connectors, test with another cable, and verify both NICs advertise the expected speed (`ethtool <if>`)."

abbrev rec_flaky : String
rec_flaky =
    "Intermittent link: check connector seating, try a different NIC port, run `--mode soak` to catch drops."

abbrev rec_cable_test : String
rec_cable_test =
    "Inspect the cable-test pair/status; replace or re-terminate the cable if the fault persists."

abbrev rec_tcp_retest : String
rec_tcp_retest =
    "Retest with `--parallel-streams 1`; correlate with counter deltas and CPU before blaming the cable."

abbrev rec_udp_retest : String
rec_udp_retest =
    "Rerun UDP at a lower `--udp-rate`; check NIC counter deltas and CPU before blaming the cable."

abbrev rec_host : String
rec_host =
    "Result appears host-limited: close background load, disable CPU power saving, avoid USB adapters, rerun."

abbrev rec_coverage : String
rec_coverage =
    "Restore the missing throughput or NIC-counter measurements and rerun; install iperf3/ethtool if unavailable."

abbrev pub rec_isolation : String
rec_isolation =
    "Isolation test: same machines with a different cable, then the same cable between different machines."

abbrev pub rec_texts : List (String × String)
rec_texts =
    ("PHY-01", rec_flaky)
    ∷ ("PHY-02", rec_cable)
    ∷ ("PHY-03", rec_flaky)
    ∷ ("PHY-04", rec_flaky)
    ∷ (
      "PHY-05",
      "Half duplex usually means autonegotiation failure: enable autoneg on both sides; replace the cable.",
    )
    ∷ ("PHY-06", rec_speed)
    ∷ ("PHY-07", rec_speed)
    ∷ ("PHY-08", rec_cable_test)
    ∷ ("PHY-09", rec_cable)
    ∷ ("PHY-10", rec_cable)
    ∷ ("PHY-11", rec_cable)
    ∷ ("TR-06", rec_tcp_retest)
    ∷ ("TR-07", rec_udp_retest)
    ∷ ("HOST-01", rec_host)
    ∷ ("HOST-03", rec_host)
    ∷ ("HOST-04", rec_host)
    ∷ (
      "HOST-02", "Rerun on the physical interface — a virtual interface cannot exercise the cable.",
    )
    ∷ ("LIM-01", rec_coverage)
    ∷ (
      "LIM-05",
      "iperf3 could not connect to the peer on the data port — check the host firewall (ufw/firewalld) on the receiving side and confirm the data port is open.",
    )
    ∷ []

-- A Go map read: the empty string where the key is missing.
abbrev pub text_for : String → List (String × String) → String
text_for id [] = ""
text_for id ((key, text) ∷ rest) = if str_eq key id then text else text_for id rest

-- The evidence that a group has seen is the evidence that it lists.
pub record Group : Type 0 where
  pub action : String
  pub evidence : List String

-- The loop over a finding's evidence.
unfoldable pub add_evidence : List String → List String → List String
add_evidence [] seen = seen
add_evidence (e ∷ es) seen =
    add_evidence es (if str_eq e "" || any (str_eq e) seen then seen else seen ++ (e ∷ []))

-- The group of the action is extended where it stands, or a new one is added at the end.
unfoldable pub add_group : String → List String → List Group → List Group
unfolding add_evidence
add_group action ev [] = record { action = action; evidence = add_evidence ev [] } ∷ []
add_group action ev (g ∷ gs) =
    let rest = add_group action ev gs in
    if str_eq g.action action
    then record g { evidence = add_evidence ev g.evidence } ∷ gs
    else g ∷ rest

-- The loop over the findings.
unfoldable pub group_findings : List Finding → List Group → List Group
unfolding add_group
group_findings [] groups = groups
group_findings (fd ∷ fds) groups =
    let action = text_for fd.rule_id rec_texts in
    group_findings fds (if str_eq action "" then groups else add_group action fd.evidence groups)

abbrev pub group_text : Group → String
group_text g =
    if is_empty g.evidence
    then g.action
    else g.action ⧺ (" Evidence from this run: " ⧺ (join g.evidence "; " ⧺ "."))

abbrev pub needs_isolation : HealthClass → Bool
needs_isolation poor = true
needs_isolation failed = true
needs_isolation inconclusive = true
needs_isolation _ = false

unfoldable pub recommend : List Finding → HealthClass → List String
unfolding group_findings
recommend findings class =
    map group_text (group_findings findings [])
    ++ (if needs_isolation class then rec_isolation ∷ [] else [])
