-- ===== src/Evaluate/Score.antt =====
-- internal/evaluate/score.go: the deduction table and the clamp into the class band.
use cablecheck.Base.{ℕ, Bool, true, false, not, ◌&&◌, ◌||◌, Option, none, some, List, if◌then◌else◌}
use cablecheck.Base.Int.{ℤ, pos, ltb_ℤ}
use cablecheck.Float64.{Float64, of_ℕ}
use cablecheck.Model.{
  HealthClass, inconclusive, Severity, unset, sev_warning, sev_poor, sev_lt, Finding,
}
use cablecheck.Evaluate.Facts.{Facts, Direction, pc1_to_pc2, pc2_to_pc1, dir, each_dir}
use cablecheck.Evaluate.Thresholds.{Thresholds, score_band}
use cablecheck.Evaluate.Totals.{
  crc_total, carrier_events, phy06cond, saturating_positive_total, asymmetry_ratio,
}
use cablecheck.Evaluate.Throughput.{assess_throughput}
use cablecheck.Evaluate.Classify.{has_finding}

module _ {F : Type 0} where
  unfoldable pub clamp_to_band : ℤ → HealthClass → Thresholds F → ℤ
  clamp_to_band v class t =
      let band = score_band t class in
      if ltb_ℤ v band.low then band.low else if ltb_ℤ band.high v then band.high else v

abbrev is_inconclusive : HealthClass → Bool
is_inconclusive inconclusive = true
is_inconclusive _ = false

-- The variables of the loop over the directions in the host-sensitive part.
record HostLoop (F : Type 0) : Type 0 where
  cov : F
  collapses0 : ℤ
  collapses1 : ℤ
  worst : Severity

module _ {F : Type 0} ⦃fl : Float64 F⦄ where
  -- `s -= k` and `s -= math.Min(top, x)`.
  abbrev less : ℕ → F → F
  less k s = fl.sub s (of_ℕ k)

  abbrev less_capped : ℕ → F → F → F
  less_capped top x s = fl.sub s (fl.fmin (of_ℕ top) x)

  physical_deductions : Facts F → F → F
  physical_deductions f s0 =
      let s1 = less_capped 40 (fl.mul (of_ℕ 2) (of_ℕ (crc_total f))) s0 in
      let s2 = less_capped 45 (fl.mul (of_ℕ 15) (of_ℕ (carrier_events f).0)) s1 in
      let s3 = if ltb_ℤ (pos 0) f.renegotiations then less 10 s2 else s2 in
      let s4 = if f.half_duplex then less 25 s3 else s3 in if phy06cond f then less 15 s4 else s4

  dir_deductions : Facts F → Thresholds F → Direction → F → F
  dir_deductions f t i s0 =
      let d = dir f i in
      let s1 =
        if fl.lt (of_ℕ 0) d.ping_loss_pct
        then less_capped 40 (fl.mul d.ping_loss_pct (of_ℕ 20)) s0
        else s0 in
      let s2 =
        if d.tcp_available
        then (if fl.lt t.tcp_retrans_poor_above d.tcp_retrans_rate
            then less 15 s1
            else if fl.le t.tcp_retrans_warning_at
                (fl.fmax d.tcp_retrans_rate d.tcp_retrans_rate_worst)
            then less 5 s1
            else s1)
        else s1 in
      if fl.le d.udp_max_cpu_pct t.cpu_host_limited_above
        && (d.udp_available && d.udp_target_reached)
      then (if fl.lt t.udp_loss_poor_above d.udp_loss_pct
          then less 15 s2
          else if fl.le t.udp_loss_warning_at d.udp_loss_pct
          then less 5 s2
          else s2)
      else s2

  host_start : HostLoop F
  host_start = record { cov = of_ℕ 0; collapses0 = pos 0; collapses1 = pos 0; worst = unset }

  set_collapses : Direction → ℤ → HostLoop F → HostLoop F
  set_collapses pc1_to_pc2 n h = record h { collapses0 = n }
  set_collapses pc2_to_pc1 n h = record h { collapses1 = n }

  host_dir : Facts F → Thresholds F → Direction → HostLoop F → HostLoop F
  unfolding set_collapses
  host_dir f t i h =
      let d = dir f i in
      if not d.tcp_available || fl.lt t.cpu_host_limited_above d.tcp_max_cpu_pct
      then h
      else (let h1 = record h { cov = if fl.lt h.cov d.tcp_cov then d.tcp_cov else h.cov } in
          let h2 = set_collapses i d.tcp_collapses h1 in
          elim (assess_throughput f i t).deviation [
            | none ↦ h2
            | some sev ↦ if sev_lt h2.worst sev then record h2 { worst = sev } else h2
          ])

  worst_deduction : Severity → F → F
  worst_deduction sev_poor s = less 25 s
  worst_deduction sev_warning s = less 10 s
  worst_deduction _ s = s

  host_deductions : Facts F → Thresholds F → F → F
  unfolding host_start host_dir worst_deduction
  host_deductions f t s0 =
      let h = each_dir (host_dir f t) host_start in
      let s1 =
        if fl.lt t.tcp_cov_poor_above h.cov
        then less 15 s0
        else if fl.le t.tcp_cov_warning_at h.cov
        then less 5 s0
        else s0 in
      let total = saturating_positive_total h.collapses0 h.collapses1 in
      let s2 = less_capped 20 (fl.mul (of_ℕ 5) (fl.of_ℤ total)) s1 in
      let s3 = worst_deduction h.worst s2 in
      if fl.le f.dir0.tcp_sender_max_cpu_pct t.cpu_host_limited_above
        && (fl.le f.dir1.tcp_sender_max_cpu_pct t.cpu_host_limited_above
            && fl.lt t.tcp_asymmetry_warn_above (asymmetry_ratio f))
      then less 5 s3
      else s3

  -- The deductions from 100, before rounding and clamping.
  unfoldable pub raw_score : Facts F → List Finding → Thresholds F → F
  unfolding physical_deductions dir_deductions host_deductions
  raw_score f findings t =
      let s1 = each_dir (dir_deductions f t) (physical_deductions f (of_ℕ 100)) in
      let s2 = if has_finding findings "TR-02" then less 20 s1 else s1 in
      let host_limited = has_finding findings "HOST-03" || has_finding findings "HOST-04" in
      let s3 = if not host_limited then host_deductions f t s2 else s2 in
      if fl.lt t.udp_jitter_warning_above f.dir0.udp_jitter_ms
        || fl.lt t.udp_jitter_warning_above f.dir1.udp_jitter_ms
      then less 5 s3
      else s3

  -- `scoreFor`; `none` is the nil score of an inconclusive run.
  unfoldable pub score_for : Facts F → List Finding → HealthClass → Thresholds F → Option ℤ
  score_for f findings class t =
      if is_inconclusive class
      then none
      else some (clamp_to_band (fl.round (raw_score f findings t)) class t)
