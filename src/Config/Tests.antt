-- ===== src/Config/Tests.antt =====
-- Concrete flags, hosts and configurations of internal/config.
use cablecheck.Base.{
  ℕ, ◌*◌, ◌/◌, ◌<◌, ◌≤◌, ◌≡◌, ◌⊎◌, refl, true, false, none, some, ◌==◌, if◌then◌else◌, arith,
}
use cablecheck.Base.Int.{pos}
use cablecheck.Base.Text.{str_eq, show_ℕ, digits}
use cablecheck.Protocol.MessageId.{parse_uint, parse_digits, zeros}
use cablecheck.Model.Bitrate.Parse.{
  span_digits, unit_of, finish, add_fraction, scale, parse_suffix, parse_rest, parse_bitrate,
}
use cablecheck.Config.{
  pc1, pc2, quick, RunConfig, RawRunFlags, second, default_udp_rate, check_explicit_udp_rate,
}
use cablecheck.Config.Resolve.{
  Host, directory, valid, resolve_mode, check_color, resolve_role, validate_port, resolve_ports,
  pad6, resolve_token, check_duration, check_streams, resolve_soak, resolve_udp_rate, elements,
  parsed_addr, parse_ipv4, resolve_local_ip, validate_output_dir, resolve_times, resolve_ends,
  resolve,
}
use cablecheck.Config.Rates.{check_explicit_udp_rate-default_udp_rate}
use cablecheck.Config.Sound.{IsSound, resolve-IsSound}
use cablecheck.Config.Tokens.{resolve_token-resolve_token}

-- Two addresses, one directory, and the random number 4711.
abbrev lab : Host ℕ
lab = record {
  parse_addr =
      λ s. if str_eq s "10.0.0.1" then some 1 else if str_eq s "10.0.0.2" then some 2 else none;
  zone = λ a. "";
  unmap = λ a. a;
  is4 = λ a. true;
  is_unspecified = λ a. false;
  is_multicast = λ a. false;
  is_loopback = λ a. false;
  addr_eq = λ a b. a == b;
  random = some 4_711;
  abs_path = λ s. some "/tmp";
  clean = λ s. s;
  stat = λ s. directory;
}

abbrev flags : RawRunFlags
flags = record {
  role = "pc1";
  local_ip = "10.0.0.1";
  peer_ip = "10.0.0.2";
  interface = "";
  mode = "quick";
  control_port = pos 7_420;
  iperf_port = pos 7_430;
  token = "";
  tcp_duration = pos 0;
  udp_duration = pos 0;
  udp_rate = "800M";
  parallel_streams = pos 0;
  soak_duration = pos 0;
  soak_load = "";
  monitor_interval = pos 0;
  cable_test = false;
  cable_test_tdr = true;
  output = "";
  color = "auto";
  quiet = false;
  verbose = false;
  non_interactive = false;
  no_sudo = false;
  no_report_transfer = false;
  allow_virtual_interface = false;
}

abbrev resolved : RunConfig ℕ
resolved = record {
  role = pc1;
  local_ip = some 1;
  peer_ip = 2;
  interface = "";
  mode = quick;
  control_port = 7_420;
  iperf_port = 7_430;
  token = "004711";
  token_generated = true;
  tcp_duration = pos (30 * second);
  udp_duration = pos (20 * second);
  udp_rate = 800_000_000;
  parallel_streams = pos 4;
  ping_count = pos 500;
  ping_interval = pos 20_000_000;
  tcp_repeats = pos 1;
  soak_duration = pos 0;
  soak_load = none;
  monitor_interval = pos second;
  cable_test = true;
  cable_test_tdr = true;
  output_dir = "/tmp";
  color = "auto";
  quiet = false;
  verbose = false;
  non_interactive = false;
  no_sudo = false;
  no_report_transfer = false;
  allow_virtual_interface = false;
}

flags-resolved : resolve lab flags (λ name. false) ≡ valid resolved
unfolding resolve resolve_ends resolve_times resolve_mode check_color resolve_role validate_port
    resolve_ports resolve_token pad6 zeros show_ℕ digits check_duration check_streams resolve_soak
    resolve_udp_rate elements parsed_addr parse_ipv4 resolve_local_ip validate_output_dir parse_uint
    parse_digits span_digits unit_of finish add_fraction scale parse_suffix parse_rest parse_bitrate
flags-resolved = refl

resolve-IsSound_example : IsSound lab resolved
resolve-IsSound_example = resolve-IsSound lab flags (λ name. false) resolved flags-resolved

generated : resolve_token pc1 (some 4_711) "" ≡ valid ("004711", true)
unfolding resolve_token pad6 zeros show_ℕ digits
generated = refl

resolve_token-resolve_token_example : resolve_token pc2 none "004711" ≡ valid ("004711", false)
resolve_token-resolve_token_example =
    resolve_token-resolve_token 4_711 none "004711" (omega arith) generated

check_explicit_udp_rate-default_udp_rate_example :
    let rate = (default_udp_rate 1_000_000_000).0 in
    ((default_udp_rate 1_000_000_000).1 ≡ false)
    × (check_explicit_udp_rate rate 1_000_000_000 ≡ false)
    × (rate * 100 ≤ 1_000_000_000 * 95)
    × (((rate ≡ 1_000_000_000 * 80 / 100) × (10_000_000 ≤ rate))
        ⊎ (((rate ≡ 10_000_000) × (1_000_000_000 * 80 / 100 < 10_000_000))
            ⊎ ((rate ≡ 1_000_000_000 * 95 / 100) × (rate < 10_000_000))))
check_explicit_udp_rate-default_udp_rate_example =
    check_explicit_udp_rate-default_udp_rate 1_000_000_000 (omega arith) (omega arith)
