-- ===== src/Evaluate/Transport.antt =====
-- internal/evaluate/rules.go: the transport rules, TR-01 to TR-09.
use cablecheck.Base.{
  ℕ, true, not, ◌&&◌, ◌||◌, Option, none, some, List, [], ◌∷◌, ◌++◌, is_empty, if◌then◌else◌,
}
use cablecheck.Base.Int.{pos, ltb_ℤ, eqb_ℤ, add_int}
use cablecheck.Base.Text.{String, ◌⧺◌, show_ℕ, show_ℤ}
use cablecheck.Float64.{Float64, of_ℕ}
use cablecheck.Model.{transport, Severity, unset, sev_warning, sev_poor, sev_lt, Finding}
use cablecheck.Evaluate.Facts.{Facts, Direction, dir, dir_name, each_dir}
use cablecheck.Evaluate.Thresholds.{Thresholds}
use cablecheck.Evaluate.Totals.{finding, raise}

-- The variables `worst` and `ev` of a rule's loop.
abbrev pub Loop : Type 0
Loop = Severity × List String

-- The segment size that the retransmission rate is estimated with.
abbrev pub default_mss : ℕ
default_mss = 1448

-- `return nil` below a warning.
abbrev pub from_warning : Severity → Finding → Option Finding
from_warning worst fd = if sev_lt worst sev_warning then none else some fd

-- `if len(ev) == 0 { return nil }`.
abbrev pub from_evidence : List String → Finding → Option Finding
from_evidence ev fd = if is_empty ev then none else some fd

module _ {F : Type 0} ⦃fl : Float64 F⦄ where
  tr01_dir : Facts F → Thresholds F → Direction → Loop → Loop
  tr01_dir f t i (worst, ev) =
      let d = dir f i in
      if fl.le d.ping_loss_pct (of_ℕ 0) then (worst, ev) else (
        raise worst
            (if fl.lt t.ping_loss_poor_above d.ping_loss_pct then sev_poor else sev_warning),
        (ev ++ ((dir_name i ⧺ (": " ⧺ (fl.show_fixed 2 d.ping_loss_pct ⧺ "% ping loss"))) ∷ []))
            ++ (if ltb_ℤ (pos 0) d.non_frag_ping_errors
                then (dir_name i
                    ⧺ (": "
                        ⧺ (show_ℤ d.non_frag_ping_errors
                            ⧺ " non-fragmentation ICMP/send error(s) (e.g. host unreachable) accompanied the loss")))
                  ∷ []
                else []),
      )

  unfoldable pub rule_tr01 : Facts F → Thresholds F → Option Finding
  unfolding tr01_dir
  rule_tr01 f t =
      let (worst, ev) = each_dir (tr01_dir f t) (unset, []) in
      from_warning worst
        (finding "TR-01" transport worst "Ping packets were lost on a direct cable link." ev)

  tr02_dir : Facts F → Direction → List String → List String
  tr02_dir f i ev =
      let d = dir f i in
      if d.full_size_available
        && (fl.lt (of_ℕ 0) d.full_size_loss_pct && fl.eq d.ping_loss_pct (of_ℕ 0))
      then ev
        ++ ((dir_name i
              ⧺ (": "
                  ⧺ (fl.show_fixed 2 d.full_size_loss_pct
                      ⧺ "% full-size loss with 0% standard-size loss")))
            ∷ [])
      else ev

  unfoldable pub rule_tr02 : Facts F → Thresholds F → Option Finding
  unfolding tr02_dir
  rule_tr02 f t =
      let ev = each_dir (tr02_dir f) [] in
      from_evidence ev (
        finding "TR-02" transport sev_poor
          "Full-size frames are lost while standard frames pass — frame-size-dependent corruption."
          ev)

  tr05_dir : Facts F → Thresholds F → Direction → Loop → Loop
  tr05_dir f t i (worst, ev) =
      let d = dir f i in
      let (worst', ev') : Loop =
        if ltb_ℤ t.ping_spikes_warning_above d.ping_spikes
        then (
          raise worst sev_warning,
          ev
              ++ ((dir_name i
                    ⧺ (": "
                        ⧺ (show_ℤ d.ping_spikes
                            ⧺ " RTT spikes above max(5x median, median+10 ms)")))
                  ∷ []),
        )
        else (worst, ev) in
      if ltb_ℤ t.ping_gap_poor_above d.ping_max_gap
      then (
        raise worst' sev_poor,
        ev' ++ ((dir_name i ⧺ (": longest reply gap " ⧺ fl.show_duration d.ping_max_gap)) ∷ []),
      )
      else (worst', ev')

  unfoldable pub rule_tr05 : Facts F → Thresholds F → Option Finding
  unfolding tr05_dir
  rule_tr05 f t =
      let (worst, ev) = each_dir (tr05_dir f t) (unset, []) in
      from_warning worst (finding "TR-05" transport worst "Round-trip times are unstable." ev)

  tr06_dir : Facts F → Thresholds F → Direction → Loop → Loop
  tr06_dir f t i (worst, ev) =
      let d = dir f i in
      let burst = fl.fmax d.tcp_retrans_rate d.tcp_retrans_rate_worst in
      if not d.tcp_available || fl.lt burst t.tcp_retrans_warning_at then (worst, ev) else (
        raise worst
            (if fl.lt t.tcp_retrans_poor_above d.tcp_retrans_rate then sev_poor else sev_warning),
        (ev
              ++ ((dir_name i
                    ⧺ (": estimated retransmit rate "
                        ⧺ (fl.show_fixed 2 (fl.mul burst (of_ℕ 100))
                            ⧺ ("% (retransmits / (bytes/MSS " ⧺ (show_ℕ default_mss ⧺ "))")))))
                  ∷ []))
            ++ (if fl.lt d.tcp_retrans_rate burst
                then (dir_name i
                    ⧺ (": worst trial only; the rate sustained across trials is "
                        ⧺ (fl.show_fixed 2 (fl.mul d.tcp_retrans_rate (of_ℕ 100)) ⧺ "%")))
                  ∷ []
                else []),
      )

  unfoldable pub rule_tr06 : Facts F → Thresholds F → Option Finding
  unfolding tr06_dir
  rule_tr06 f t =
      let (worst, ev) = each_dir (tr06_dir f t) (unset, []) in
      let fd =
        finding "TR-06" transport worst "TCP retransmissions are elevated for a direct cable link."
          ev in
      from_warning worst (record fd { host_sensitive = true })

  tr07_dir : Facts F → Thresholds F → Direction → Loop → Loop
  tr07_dir f t i (worst, ev) =
      let d = dir f i in
      if not d.udp_available
        || (not d.udp_target_reached
            || (fl.lt t.cpu_host_limited_above d.udp_max_cpu_pct
                || fl.lt d.udp_loss_pct t.udp_loss_warning_at))
      then (worst, ev)
      else (
        raise worst (if fl.lt t.udp_loss_poor_above d.udp_loss_pct then sev_poor else sev_warning),
        ev
            ++ ((dir_name i
                  ⧺ (": "
                      ⧺ (fl.show_fixed 2 d.udp_loss_pct
                          ⧺ ("% UDP loss at target rate"
                              ⧺ (if f.udp_rate_assumed then " (at assumed rate)" else "")))))
                ∷ []),
      )

  unfoldable pub rule_tr07 : Facts F → Thresholds F → Option Finding
  unfolding tr07_dir
  rule_tr07 f t =
      let (worst, ev) = each_dir (tr07_dir f t) (unset, []) in
      from_warning worst (
        finding "TR-07" transport worst
          "UDP datagrams were lost although the sender reached its target rate." ev)

  tr08_dir : Facts F → Thresholds F → Direction → List String → List String
  tr08_dir f t i ev =
      let d = dir f i in
      if d.udp_available && fl.lt t.udp_jitter_warning_above d.udp_jitter_ms
      then ev ++ ((dir_name i ⧺ (": " ⧺ (fl.show_fixed 2 d.udp_jitter_ms ⧺ " ms jitter"))) ∷ [])
      else ev

  unfoldable pub rule_tr08 : Facts F → Thresholds F → Option Finding
  unfolding tr08_dir
  rule_tr08 f t =
      let ev = each_dir (tr08_dir f t) [] in
      from_evidence ev (
        finding "TR-08" transport sev_warning
          ("UDP jitter above " ⧺ (fl.show_g t.udp_jitter_warning_above ⧺ " ms on a direct link."))
          ev)

  tr09_dir : Facts F → Thresholds F → Direction → List String → List String
  tr09_dir f t i ev =
      let d = dir f i in
      if d.udp_available && fl.lt t.udp_reorder_warning_above d.udp_out_of_order_pct
      then ev
        ++ ((dir_name i
              ⧺ (": " ⧺ (fl.show_fixed 2 d.udp_out_of_order_pct ⧺ "% datagrams out of order")))
            ∷ [])
      else ev

  unfoldable pub rule_tr09 : Facts F → Thresholds F → Option Finding
  unfolding tr09_dir
  rule_tr09 f t =
      let ev = each_dir (tr09_dir f t) [] in
      from_evidence ev (
        finding "TR-09" transport sev_warning
          "UDP datagrams arrived out of order — reordering should not happen on a direct cable." ev)

module _ {F : Type 0} where
  unfoldable pub rule_tr03 : Facts F → Thresholds F → Option Finding
  rule_tr03 f t =
      let total = add_int f.dir0.frag_errors f.dir1.frag_errors in
      if eqb_ℤ total (pos 0)
      then none
      else some (
          finding "TR-03" transport sev_warning
            "Don't-fragment pings failed — an MTU mismatch (configuration, not cable)."
            ((show_ℤ total ⧺ " fragmentation-needed failure(s) during full-size ping") ∷ []))

  unfoldable pub rule_tr04 : Facts F → Thresholds F → Option Finding
  rule_tr04 f t =
      let total = add_int f.dir0.ping_duplicates f.dir1.ping_duplicates in
      if eqb_ℤ total (pos 0)
      then none
      else some (
          finding "TR-04" transport sev_warning
            "Duplicate ping replies were received — duplicates on a direct cable are anomalous."
            ((show_ℤ total ⧺ " duplicate repl(ies) across both directions") ∷ []))
