-- ===== src/Config.antt =====
-- internal/config/config.go and presets.go: the flags of a run, the configuration, the presets of the
-- modes and the derived UDP rate. A flag that is one of a few words is a data type behind its check;
-- durations are in nanoseconds. The texts of errors are left out, their cause is kept.
pub mod Resolve
pub mod Sound
pub mod Tokens
pub mod Rates
mod Tests
use cablecheck.Base.{
  ℕ, ◌*◌, ◌/◌, ◌%◌, ◌^◌, Bool, true, false, ◌||◌, Option, none, some, List, [], ◌∷◌, ltb, leb, ◌==◌,
  if◌then◌else◌,
}
use cablecheck.Base.Int.{ℤ, pos}
use cablecheck.Base.Text.{String}
use cablecheck.Model.Bitrate.{Bitrate}
use cablecheck.Model.Bitrate.Parse.{ParseError}

pub data Role : Type 0 where
  pc1 pc2 : Role

pub data Mode : Type 0 where
  quick standard soak : Mode

pub data SoakLoad : Type 0 where
  periodic continuous : SoakLoad

-- A is netip.Addr. An invalid LocalIP and an empty SoakLoad are `none`.
pub record RunConfig (A : Type 0) : Type 0 where
  pub role : Role
  pub local_ip : Option A
  pub peer_ip : A
  pub interface : String
  pub mode : Mode
  pub control_port : ℕ
  pub iperf_port : ℕ
  pub token : String
  pub token_generated : Bool
  pub tcp_duration : ℤ
  pub udp_duration : ℤ
  pub udp_rate : Bitrate
  pub parallel_streams : ℤ
  pub ping_count : ℤ
  pub ping_interval : ℤ
  pub tcp_repeats : ℤ
  pub soak_duration : ℤ
  pub soak_load : Option SoakLoad
  pub monitor_interval : ℤ
  pub cable_test : Bool
  pub cable_test_tdr : Bool
  pub output_dir : String
  pub color : String
  pub quiet : Bool
  pub verbose : Bool
  pub non_interactive : Bool
  pub no_sudo : Bool
  pub no_report_transfer : Bool
  pub allow_virtual_interface : Bool

pub record RawRunFlags : Type 0 where
  pub role : String
  pub local_ip : String
  pub peer_ip : String
  pub interface : String
  pub mode : String
  pub control_port : ℤ
  pub iperf_port : ℤ
  pub token : String
  pub tcp_duration : ℤ
  pub udp_duration : ℤ
  pub udp_rate : String
  pub parallel_streams : ℤ
  pub soak_duration : ℤ
  pub soak_load : String
  pub monitor_interval : ℤ
  pub cable_test : Bool
  pub cable_test_tdr : Bool
  pub output : String
  pub color : String
  pub quiet : Bool
  pub verbose : Bool
  pub non_interactive : Bool
  pub no_sudo : Bool
  pub no_report_transfer : Bool
  pub allow_virtual_interface : Bool

-- The flag of an error: an address, a port, a duration.
pub data IpFlag : Type 0 where
  local_ip peer_ip : IpFlag

pub data PortFlag : Type 0 where
  control_port iperf_port : PortFlag

pub data DurationFlag : Type 0 where
  tcp_duration udp_duration monitor_interval soak_duration : DurationFlag

pub data ValidationError : Type 0 where
  bad_mode bad_color missing_role bad_role : ValidationError
  missing_ip not_an_address zoned not_ipv4 unspecified multicast loopback : IpFlag → ValidationError
  same_ip : ValidationError
  privileged port_out_of_range : PortFlag → ValidationError
  no_room_for_fallback reserved_port : ValidationError
  missing_token no_random token_size token_character : ValidationError
  bad_soak_load soak_duration_without_soak soak_load_without_soak : ValidationError
  duration_out_of_range : DurationFlag → ValidationError
  streams_out_of_range : ValidationError
  bad_udp_rate : ParseError → ValidationError
  udp_rate_out_of_range : ValidationError
  parent_element unresolvable no_directory unreadable not_a_directory : ValidationError

pub record Preset : Type 0 where
  pub tcp_duration : ℤ
  pub udp_duration : ℤ
  pub parallel_streams : ℤ
  pub ping_count : ℤ
  pub ping_interval : ℤ
  pub tcp_repeats : ℤ
  pub monitor_interval : ℤ
  pub soak_duration : ℤ
  pub soak_load : Option SoakLoad

abbrev pub second : ℕ
second = 1_000_000_000

abbrev pub presets : Mode → Preset
presets quick = record {
  tcp_duration = pos (30 * second);
  udp_duration = pos (20 * second);
  parallel_streams = pos 4;
  ping_count = pos 500;
  ping_interval = pos 20_000_000;
  tcp_repeats = pos 1;
  monitor_interval = pos second;
  soak_duration = pos 0;
  soak_load = none;
}
presets standard = record {
  tcp_duration = pos (60 * second);
  udp_duration = pos (30 * second);
  parallel_streams = pos 4;
  ping_count = pos 1500;
  ping_interval = pos 20_000_000;
  tcp_repeats = pos 2;
  monitor_interval = pos second;
  soak_duration = pos 0;
  soak_load = none;
}
presets soak = record {
  tcp_duration = pos (60 * second);
  udp_duration = pos (20 * second);
  parallel_streams = pos 4;
  ping_count = pos 500;
  ping_interval = pos 20_000_000;
  tcp_repeats = pos 1;
  monitor_interval = pos second;
  soak_duration = pos (3600 * second);
  soak_load = some periodic;
}

abbrev pub udp_rate_floor : Bitrate
udp_rate_floor = 10_000_000

abbrev pub udp_unknown_link_rate : Bitrate
udp_unknown_link_rate = 100_000_000

-- `DefaultUDPRate`, with whether it warns; products on uint64.
unfoldable pub default_udp_rate : Bitrate → Bitrate × Bool
default_udp_rate negotiated =
    let share = negotiated * 80 % 2 ^ 64 / 100 in
    let rate = if ltb share udp_rate_floor then udp_rate_floor else share in
    let ceiling = negotiated * 95 % 2 ^ 64 / 100 in
    if negotiated == 0
    then (udp_unknown_link_rate, true)
    else ((if ltb ceiling rate then ceiling else rate), false)

-- `CheckExplicitUDPRate`; it warns where it answers true.
unfoldable pub check_explicit_udp_rate : Bitrate → Bitrate → Bool
check_explicit_udp_rate rate negotiated =
    if negotiated == 0 || leb rate (negotiated * 95 % 2 ^ 64 / 100) then false else true
