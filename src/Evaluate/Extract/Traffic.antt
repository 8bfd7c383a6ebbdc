-- ===== src/Evaluate/Extract/Traffic.antt =====
-- internal/evaluate/facts.go: pings, UDP results and CPU use, folded into the facts of a direction.
use cablecheck.Base.{
  ltb, Bool, true, not, ◌&&◌, ◌||◌, Option, none, some, List, [], ◌∷◌, if◌then◌else◌,
}
use cablecheck.Base.Int.{ℤ, pos, add_int, sub_int, max_ℤ, ltb_ℤ}
use cablecheck.Float64.{Float64, of_ℕ}
use cablecheck.Model.Bitrate.{Bitrate}
use cablecheck.Model.Report.{CpuUsage, PingResult, UdpResult, TcpResult, Report}
use cablecheck.Evaluate.Facts.{DirFacts}
use cablecheck.Evaluate.Thresholds.{Thresholds}
use cablecheck.Evaluate.Extract.Directions.{Both, dir_index, update_dir, is_known}

module _ {F : Type 0} where
  abbrev pub non_frag_errors : PingResult F → ℤ
  non_frag_errors p =
      max_ℤ (pos 0) (sub_int (add_int p.send_errors p.icmp_errors) p.frag_needed_errors)

-- The directions with the flag UDPNearSaturation.
pub record Udp (F : Type 0) : Type 0 where
  pub dirs : Both (DirFacts F)
  pub near_saturation : Bool

module _ {F : Type 0} ⦃fl : Float64 F⦄ where
  abbrev pub ping_dir : PingResult F → DirFacts F → DirFacts F
  ping_dir p d = record d {
    ping_loss_pct = fl.fmax d.ping_loss_pct p.loss_percent;
    ping_duplicates = max_ℤ d.ping_duplicates p.duplicates;
    ping_spikes = max_ℤ d.ping_spikes (pos p.spikes);
    ping_max_gap = max_ℤ d.ping_max_gap (fl.to_int (fl.mul p.longest_gap_ms (of_ℕ 1_000_000)));
    non_frag_ping_errors = max_ℤ d.non_frag_ping_errors (non_frag_errors p);
  }

  unfoldable pub add_pings : List (PingResult F) → Both (DirFacts F) → Both (DirFacts F)
  add_pings [] d = d
  add_pings (p ∷ pings) d = add_pings pings (update_dir (dir_index p.direction) (ping_dir p) d)

  abbrev pub full_size_dir : PingResult F → DirFacts F → DirFacts F
  full_size_dir p d = record d {
    full_size_available = true;
    full_size_loss_pct = fl.fmax d.full_size_loss_pct p.loss_percent;
    frag_errors = max_ℤ d.frag_errors p.frag_needed_errors;
    non_frag_ping_errors = max_ℤ d.non_frag_ping_errors (non_frag_errors p);
  }

  unfoldable pub add_full_size_pings : List (PingResult F) → Both (DirFacts F) → Both (DirFacts F)
  add_full_size_pings [] d = d
  add_full_size_pings (p ∷ pings) d =
      add_full_size_pings pings (update_dir (dir_index p.direction) (full_size_dir p) d)

  abbrev pub target_reached : Thresholds F → UdpResult F → Bool
  target_reached t u =
      ltb 0 u.target_bps
      && fl.le (fl.mul t.udp_target_reached_at (of_ℕ u.target_bps)) u.actual_sender_bps

  abbrev pub is_near_saturation : Thresholds F → Bitrate → UdpResult F → Bool
  is_near_saturation t speed u =
      ltb 0 speed && fl.lt (fl.mul t.udp_near_saturation_above (of_ℕ speed)) (of_ℕ u.target_bps)

  -- The share of packets out of order, if it is known.
  abbrev pub out_of_order_pct : UdpResult F → F → F
  out_of_order_pct u best = elim u.out_of_order [
    | none ↦ best
    | some n ↦
        if ltb_ℤ (pos 0) u.total_packets
        then fl.fmax best (fl.mul (fl.div (fl.of_ℤ n) (fl.of_ℤ u.total_packets)) (of_ℕ 100))
        else best
  ]

  -- A result of a direction; only one that reached its target below saturation counts further.
  abbrev pub udp_dir : Thresholds F → Bitrate → UdpResult F → DirFacts F → DirFacts F
  udp_dir t speed u d =
      if not (target_reached t u) || is_near_saturation t speed u
      then record d { udp_available = true }
      else record d {
        udp_available = true;
        udp_target_reached = true;
        udp_max_cpu_pct = fl.fmax (fl.fmax d.udp_max_cpu_pct u.cpu.host_total) u.cpu.remote_total;
        udp_loss_pct = fl.fmax d.udp_loss_pct u.loss_percent;
        udp_jitter_ms = fl.fmax d.udp_jitter_ms u.jitter_ms;
        udp_out_of_order_pct = out_of_order_pct u d.udp_out_of_order_pct;
      }

  abbrev pub udp_step : Thresholds F → Bitrate → UdpResult F → Udp F → Udp F
  udp_step t speed u s = record {
    dirs = update_dir (dir_index u.direction) (udp_dir t speed u) s.dirs;
    near_saturation =
        s.near_saturation || (is_known (dir_index u.direction) && is_near_saturation t speed u);
  }

  unfoldable pub add_udp : Thresholds F → Bitrate → List (UdpResult F) → Udp F → Udp F
  add_udp t speed [] s = s
  add_udp t speed (u ∷ results) s = add_udp t speed results (udp_step t speed u s)

  -- `consider`: host first, then remote.
  abbrev pub consider : CpuUsage F → F → F
  consider cpu best =
      let host = if fl.lt best cpu.host_total then cpu.host_total else best in
      if fl.lt host cpu.remote_total then cpu.remote_total else host

  abbrev pub consider_tcp : List (TcpResult F) → F → F
  consider_tcp [] best = best
  consider_tcp (tr ∷ trials) best =
      consider_tcp trials (if tr.incomplete then best else consider tr.cpu_utilization best)

  abbrev pub consider_udp : List (UdpResult F) → F → F
  consider_udp [] best = best
  consider_udp (u ∷ results) best = consider_udp results (consider u.cpu best)

  abbrev pub consider_bidirectional : Option (CpuUsage F) → F → F
  consider_bidirectional none best = best
  consider_bidirectional (some cpu) best = consider cpu best

  unfoldable pub max_cpu_pct : Report F → F
  max_cpu_pct r =
      consider_bidirectional r.tests.bidirectional
        (consider_udp r.tests.udp (consider_tcp r.tests.tcp (of_ℕ 0)))
