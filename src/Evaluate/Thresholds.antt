-- ===== src/Evaluate/Thresholds.antt =====
-- internal/evaluate/thresholds.go: the decision boundaries and their default values.
use cablecheck.Base.{ℕ, Bool, true, false, Option, none, some, leb, ◌==◌, if◌then◌else◌}
use cablecheck.Base.Int.{ℤ, pos}
use cablecheck.Float64.{Float64, of_ℕ}
use cablecheck.Model.{HealthClass, excellent, good, warning, poor, failed, inconclusive}
use cablecheck.Model.Bitrate.{Bitrate}

pub record ScoreBand : Type 0 where
  pub low : ℤ
  pub high : ℤ

pub record ThroughputBands (F : Type 0) : Type 0 where
  pub pass_at : F
  pub info_at : F
  pub warning_at : F
  pub pass_disabled : Bool

pub record Thresholds (F : Type 0) : Type 0 where
  pub crc_poor_above : ℕ
  pub crc_failed_above : ℕ
  pub crc_corroborating_ping_loss_above : F
  pub carrier_failed_at : ℕ
  pub frame_size_poor_above : ℕ
  pub carrier_phy_poor_above : ℕ
  pub carrier_phy_failed_above : ℕ
  pub negotiated_speed_poor_at : F
  pub ping_loss_poor_above : F
  pub ping_spikes_warning_above : ℤ
  pub ping_gap_poor_above : ℤ
  pub tcp_retrans_warning_at : F
  pub tcp_retrans_poor_above : F
  pub udp_loss_warning_at : F
  pub udp_loss_poor_above : F
  pub udp_jitter_warning_above : F
  pub udp_reorder_warning_above : F
  pub tcp_throughput_100m : ThroughputBands F
  pub tcp_throughput_1g : ThroughputBands F
  pub tcp_throughput_fallback : ThroughputBands F
  pub tcp_cov_warning_at : F
  pub tcp_cov_poor_above : F
  pub tcp_collapse_poor_at : ℤ
  pub tcp_asymmetry_warn_above : F
  pub cpu_host_limited_above : F
  pub host_ring_drop_rate_above : F
  pub host_ring_drop_floor : ℕ
  pub udp_target_reached_at : F
  pub udp_near_saturation_above : F
  pub failed_score_band : ScoreBand
  pub poor_score_band : ScoreBand
  pub warning_score_band : ScoreBand
  pub good_score_band : ScoreBand
  pub excellent_score_band : ScoreBand

module _ {F : Type 0} ⦃fl : Float64 F⦄ where
  open fl use {of_ratio}

  -- `Default`.
  abbrev pub default : Thresholds F
  default = record {
    crc_poor_above = 10;
    crc_failed_above = 1000;
    crc_corroborating_ping_loss_above = of_ℕ 1;
    carrier_failed_at = 3;
    frame_size_poor_above = 10;
    carrier_phy_poor_above = 10;
    carrier_phy_failed_above = 1000;
    negotiated_speed_poor_at = of_ratio 1 2;
    ping_loss_poor_above = of_ratio 1 10;
    ping_spikes_warning_above = pos 5;
    ping_gap_poor_above = pos 1_000_000_000;
    tcp_retrans_warning_at = of_ratio 1 10_000;
    tcp_retrans_poor_above = of_ratio 1 100;
    udp_loss_warning_at = of_ratio 1 2;
    udp_loss_poor_above = of_ℕ 2;
    udp_jitter_warning_above = of_ℕ 5;
    udp_reorder_warning_above = of_ratio 1 10;
    tcp_throughput_100m = record {
      pass_at = of_ratio 9 10;
      info_at = of_ratio 9 10;
      warning_at = of_ratio 7 10;
      pass_disabled = true;
    };
    tcp_throughput_1g = record {
      pass_at = of_ratio 9 10;
      info_at = of_ratio 7 10;
      warning_at = of_ratio 4 10;
      pass_disabled = false;
    };
    tcp_throughput_fallback = record {
      pass_at = of_ratio 9 10;
      info_at = of_ratio 7 10;
      warning_at = of_ratio 4 10;
      pass_disabled = false;
    };
    tcp_cov_warning_at = of_ratio 15 100;
    tcp_cov_poor_above = of_ratio 30 100;
    tcp_collapse_poor_at = pos 3;
    tcp_asymmetry_warn_above = of_ratio 30 100;
    cpu_host_limited_above = of_ℕ 90;
    host_ring_drop_rate_above = of_ratio 1 1_000_000;
    host_ring_drop_floor = 100;
    udp_target_reached_at = of_ratio 90 100;
    udp_near_saturation_above = of_ratio 95 100;
    failed_score_band = record { low = pos 0; high = pos 25 };
    poor_score_band = record { low = pos 26; high = pos 50 };
    warning_score_band = record { low = pos 51; high = pos 79 };
    good_score_band = record { low = pos 80; high = pos 94 };
    excellent_score_band = record { low = pos 95; high = pos 100 };
  }

module _ {F : Type 0} where
  -- The bands for a link speed; `none` at an unknown speed.
  abbrev pub perf_bands : Thresholds F → Bitrate → Option (ThroughputBands F)
  perf_bands t speed =
      if speed == 0
      then none
      else if leb speed 100_000_000
      then some t.tcp_throughput_100m
      else if leb speed 1_000_000_000
      then some t.tcp_throughput_1g
      else some t.tcp_throughput_fallback

  abbrev pub score_band : Thresholds F → HealthClass → ScoreBand
  score_band t failed = t.failed_score_band
  score_band t poor = t.poor_score_band
  score_band t warning = t.warning_score_band
  score_band t good = t.good_score_band
  score_band t excellent = t.excellent_score_band
  score_band t inconclusive = record {
    low = t.failed_score_band.low;
    high = t.excellent_score_band.high;
  }
