-- ===== src/Evaluate/Host.antt =====
-- internal/evaluate/rules.go: the host markers, HOST-01 to HOST-04.
use cablecheck.Base.{
  ℕ, Bool, true, false, not, Option, none, some, List, [], ◌∷◌, ◌++◌, ltb, ◌==◌, if◌then◌else◌,
}
use cablecheck.Base.Int.{add_u64}
use cablecheck.Base.Text.{String, ◌⧺◌, show_ℕ}
use cablecheck.Float64.{Float64, of_ℕ}
use cablecheck.Model.{host, sev_marker, Finding}
use cablecheck.Evaluate.Facts.{SideFacts, Facts}
use cablecheck.Evaluate.Thresholds.{Thresholds}
use cablecheck.Evaluate.Totals.{finding}
use cablecheck.Evaluate.Transport.{from_evidence}
use cablecheck.Evaluate.Performance.{rule_perf01}

module _ {F : Type 0} where
  unfoldable pub rule_host02 : Facts F → Thresholds F → Option Finding
  rule_host02 f t =
      if f.virtual_interface
      then some (
          finding "HOST-02" host sev_marker
            "A virtual interface was tested — the results say nothing about a physical cable."
            ("tested interface has no kernel driver binding (virtual)" ∷ []))
      else none

module _ {F : Type 0} ⦃fl : Float64 F⦄ where
  unfoldable pub rule_host01 : Facts F → Thresholds F → Option Finding
  rule_host01 f t =
      if fl.le f.max_cpu_pct t.cpu_host_limited_above
      then none
      else some (
          finding "HOST-01" host sev_marker
            "CPU was saturated during throughput testing — performance results may be host-limited."
            (("max iperf3 CPU utilization "
                ⧺ (fl.show_fixed 1 f.max_cpu_pct
                    ⧺ ("% > " ⧺ (fl.show_g t.cpu_host_limited_above ⧺ "%"))))
              ∷ []))

  unfoldable pub rule_host03 : Facts F → Thresholds F → Option Finding
  rule_host03 f t = if not f.usb_adapter then none else elim (rule_perf01 f t) [
    | none ↦ none
    | some _ ↦ some (
        finding "HOST-03" host sev_marker
          "A USB network adapter was used and throughput fell short — USB adapters are a known bottleneck."
          ("tested interface is USB-attached" ∷ []))
  ]

  unfoldable pub limiting_drop_rate : ℕ → ℕ → Thresholds F → Bool
  limiting_drop_rate drops frames t =
      if drops == 0
      then false
      else if ltb t.host_ring_drop_floor drops
      then true
      else if frames == 0
      then true
      else fl.lt t.host_ring_drop_rate_above (fl.div (of_ℕ drops) (of_ℕ frames))

  ring_side : Thresholds F → String → SideFacts → List String
  ring_side t name side =
      if not side.delta_ok
      then []
      else if not
          (limiting_drop_rate (add_u64 side.fifo_overrun side.missed_errors) side.frames_received t)
      then []
      else (if ltb 0 side.fifo_overrun
          then (name ⧺ (": rx_fifo +" ⧺ (show_ℕ side.fifo_overrun ⧺ " during the test"))) ∷ []
          else [])
        ++ (if ltb 0 side.missed_errors
            then (name ⧺ (": rx_missed +" ⧺ (show_ℕ side.missed_errors ⧺ " during the test"))) ∷ []
            else [])

  unfoldable pub rule_host04 : Facts F → Thresholds F → Option Finding
  unfolding ring_side
  rule_host04 f t =
      let ev = ring_side t "pc1" f.pc1 ++ ring_side t "pc2" f.pc2 in
      from_evidence ev (
        finding "HOST-04" host sev_marker
          "NIC receive-ring counters moved — performance results may be limited by how quickly the host drained packets."
          ev)
