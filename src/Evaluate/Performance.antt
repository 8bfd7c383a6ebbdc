-- ===== src/Evaluate/Performance.antt =====
-- internal/evaluate/rules.go: the performance rules, PERF-01 to PERF-04.
use cablecheck.Base.{not, ◌||◌, true, Option, none, some, [], ◌∷◌, ◌++◌, is_empty, if◌then◌else◌}
use cablecheck.Base.Int.{pos, leb_ℤ, eqb_ℤ}
use cablecheck.Base.Text.{String, ◌⧺◌, show_ℤ}
use cablecheck.Float64.{Float64, of_ℕ}
use cablecheck.Model.{performance, unset, sev_info, sev_warning, sev_poor, sev_lt, Finding}
use cablecheck.Model.Bitrate.{show_bitrate}
use cablecheck.Evaluate.Facts.{Facts, Direction, dir, dir_name, each_dir}
use cablecheck.Evaluate.Thresholds.{Thresholds}
use cablecheck.Evaluate.Totals.{finding, raise, tcp_collapse_total, asymmetry_ratio}
use cablecheck.Evaluate.Throughput.{Assessment, assess_throughput}
use cablecheck.Evaluate.Transport.{Loop, from_warning}

-- A performance finding is host-sensitive.
abbrev host_finding : Finding → Finding
host_finding fd = record fd { host_sensitive = true }

module _ {F : Type 0} ⦃fl : Float64 F⦄ where
  -- `fmt.Sprintf("%.0f%%", x*100)`.
  abbrev percent : F → String
  percent x = fl.show_fixed 0 (fl.mul x (of_ℕ 100)) ⧺ "%"

  abbrev perf01_line : Facts F → Direction → Assessment F → String
  perf01_line f i a =
      (dir_name i
        ⧺ (": "
            ⧺ (show_bitrate (dir f i).tcp_bitrate
                ⧺ (" TCP = "
                    ⧺ (percent a.ratio
                        ⧺ (" of the " ⧺ (show_bitrate f.negotiated_speed ⧺ " link")))))))
      ⧺ (if a.capped
          then "; 1 of "
            ⧺ (show_ℤ (dir f i).tcp_trial_count
                ⧺ " trials missed policy, capped at warning with clean physical evidence")
          else "")

  perf01_dir : Facts F → Thresholds F → Direction → Loop → Loop
  perf01_dir f t i (worst, ev) =
      let a = assess_throughput f i t in
      if not (dir f i).tcp_available then (worst, ev) else (elim a.deviation [
        | none ↦ (worst, ev)
        | some sev ↦ (raise worst sev, ev ++ (perf01_line f i a ∷ []))
      ])

  unfoldable pub rule_perf01 : Facts F → Thresholds F → Option Finding
  unfolding perf01_dir
  rule_perf01 f t =
      let (worst, ev) = each_dir (perf01_dir f t) (unset, []) in
      if sev_lt worst sev_info || is_empty ev
      then none
      else some (
          host_finding (
            finding "PERF-01" performance worst
              "TCP throughput does not meet the passing policy for this negotiated link speed." ev))

  perf02_dir : Facts F → Thresholds F → Direction → Loop → Loop
  perf02_dir f t i (worst, ev) =
      let d = dir f i in
      if not d.tcp_available || fl.lt d.tcp_cov t.tcp_cov_warning_at then (worst, ev) else (
        raise worst (if fl.lt t.tcp_cov_poor_above d.tcp_cov then sev_poor else sev_warning),
        ev ++ ((dir_name i ⧺ (": throughput coefficient of variation " ⧺ percent d.tcp_cov)) ∷ []),
      )

  unfoldable pub rule_perf02 : Facts F → Thresholds F → Option Finding
  unfolding perf02_dir
  rule_perf02 f t =
      let (worst, ev) = each_dir (perf02_dir f t) (unset, []) in
      from_warning worst (
        host_finding
          (finding "PERF-02" performance worst "TCP throughput is unstable across intervals." ev))

  -- `tcpmetrics.CollapseBelowMedianRatio * 100`, a constant.
  abbrev boundary_pct : F
  boundary_pct = fl.of_ratio 50 1

  unfoldable pub rule_perf03 : Facts F → Thresholds F → Option Finding
  rule_perf03 f t =
      let total = tcp_collapse_total f in
      if eqb_ℤ total (pos 0)
      then none
      else some (
          host_finding (
            finding "PERF-03" performance
              (if leb_ℤ t.tcp_collapse_poor_at total then sev_poor else sev_warning)
              ("TCP throughput collapsed below "
                ⧺ (fl.show_g boundary_pct
                    ⧺ ("% of the median in " ⧺ (show_ℤ total ⧺ " interval(s)."))))
              ((show_ℤ total
                  ⧺ (" interval(s) under "
                      ⧺ (fl.show_g boundary_pct ⧺ "% of the median interval bitrate")))
                ∷ [])))

  unfoldable pub rule_perf04 : Facts F → Thresholds F → Option Finding
  rule_perf04 f t =
      let ratio = asymmetry_ratio f in
      if fl.le ratio t.tcp_asymmetry_warn_above
      then none
      else some (
          host_finding (
            finding "PERF-04" performance sev_warning
              "TCP throughput is asymmetric between the two directions."
              (("pc1->pc2 "
                  ⧺ (show_bitrate f.dir0.tcp_bitrate
                      ⧺ (" vs pc2->pc1 "
                          ⧺ (show_bitrate f.dir1.tcp_bitrate
                              ⧺ (" (" ⧺ (percent ratio ⧺ " difference)"))))))
                ∷ [])))
