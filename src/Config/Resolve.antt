-- ===== src/Config/Resolve.antt =====
-- internal/config/validate.go: `Resolve` with its helpers. net/netip, crypto/rand and the file system
-- are the parameter Host. The length of a token is its number of UTF-8 bytes.
use Prim.Native.Char.{Char, code}
use cablecheck.Base.{
  ℕ, ◌+◌, ◌*◌, ◌-◌, ◌%◌, ◌^◌, Bool, true, false, not, ◌&&◌, ◌||◌, Option, none, some, List, [], ◌∷◌,
  any, ltb, leb, ◌==◌, if◌then◌else◌,
}
use cablecheck.Base.Int.{ℤ, pos, pos_part, add_int, ltb_ℤ, leb_ℤ, eqb_ℤ}
use cablecheck.Base.Text.{String, str_eq, show_ℕ}
use cablecheck.Protocol.MessageId.{zeros, size, is_blank}
use cablecheck.Model.Bitrate.{Bitrate}
use cablecheck.Model.Bitrate.Parse.{rate, malformed, parse_bitrate}
use cablecheck.Config.{
  Role, pc1, pc2, Mode, quick, standard, soak, SoakLoad, periodic, continuous, RunConfig,
  RawRunFlags, IpFlag, local_ip, peer_ip, PortFlag, control_port, iperf_port, DurationFlag,
  tcp_duration, udp_duration, monitor_interval, soak_duration, ValidationError, bad_mode, bad_color,
  missing_role, bad_role, missing_ip, not_an_address, zoned, not_ipv4, unspecified, multicast,
  loopback, same_ip, privileged, port_out_of_range, no_room_for_fallback, reserved_port,
  missing_token, no_random, token_size, token_character, bad_soak_load, soak_duration_without_soak,
  soak_load_without_soak, duration_out_of_range, streams_out_of_range, bad_udp_rate,
  udp_rate_out_of_range, parent_element, unresolvable, no_directory, unreadable, not_a_directory,
  second, presets,
}

-- What os.Stat says of a path.
pub data PathStat : Type 0 where
  absent failing directory other : PathStat

-- The operations of netip.Addr, one answer of rand.Int below 1000000, and the paths.
pub record Host (A : Type 0) : Type 0 where
  pub parse_addr : String → Option A
  pub zone : A → String
  pub unmap : A → A
  pub is4 : A → Bool
  pub is_unspecified : A → Bool
  pub is_multicast : A → Bool
  pub is_loopback : A → Bool
  pub addr_eq : A → A → Bool
  pub random : Option ℕ
  pub abs_path : String → Option String
  pub clean : String → String
  pub stat : String → PathStat

pub data Result (A : Type 0) : Type 0 where
  valid : A → Result A
  invalid : ValidationError → Result A

infixl 5 ◌>>=◌
abbrev pub ◌>>=◌ : {A B : Type 0} → Result A → (A → Result B) → Result B
r >>= next = elim r [ invalid e ↦ invalid e | valid a ↦ next a ]

-- An error where the test holds, or else the value.
abbrev pub refuse_if : {A : Type 0} → Bool → ValidationError → A → Result A
refuse_if true e a = invalid e
refuse_if false e a = valid a

unfoldable pub resolve_mode : String → Result Mode
resolve_mode m =
    if str_eq m "quick"
    then valid quick
    else if str_eq m "standard"
    then valid standard
    else if str_eq m "soak"
    then valid soak
    else invalid bad_mode

unfoldable pub check_color : String → Result String
check_color c =
    if str_eq c "auto" || (str_eq c "always" || str_eq c "never")
    then valid c
    else invalid bad_color

unfoldable pub resolve_role : String → Result Role
resolve_role r =
    if str_eq r "pc1"
    then valid pc1
    else if str_eq r "pc2"
    then valid pc2
    else if str_eq r ""
    then invalid missing_role
    else invalid bad_role

unfoldable pub validate_port : PortFlag → ℤ → Result ℕ
validate_port flag p =
    if leb_ℤ (pos 1) p && ltb_ℤ p (pos 1024)
    then invalid (privileged flag)
    else if ltb_ℤ p (pos 1) || ltb_ℤ (pos 65_535) p
    then invalid (port_out_of_range flag)
    else valid (pos_part p % 2 ^ 16)

-- Step 7 of `Resolve`: the control port and the base port of iperf3.
unfoldable pub resolve_ports : ℤ → ℤ → Result (ℕ × ℕ)
resolve_ports control iperf = do
  c ← validate_port control_port control
  i ← validate_port iperf_port iperf
  _ ← refuse_if (ltb_ℤ (pos 65_534) iperf) no_room_for_fallback true
  refuse_if (eqb_ℤ control iperf || eqb_ℤ control (add_int iperf (pos 1))) reserved_port (c, i)

-- The UTF-8 bytes of a text.
unfoldable pub byte_length : String → ℕ
byte_length String.[] = 0
byte_length (String.◌∷◌ c s) =
    let n = code c in
    (if ltb n 128 then 1 else if ltb n 2048 then 2 else if ltb n 65_536 then 3 else 4)
    + byte_length s

unfoldable pub is_printable : String → Bool
is_printable String.[] = true
is_printable (String.◌∷◌ c s) = leb 33 (code c) && (leb (code c) 126 && is_printable s)

-- `%06d`.
unfoldable pub pad6 : ℕ → String
pad6 n = zeros (6 - size (show_ℕ n)) (show_ℕ n)

-- The token, and whether it was generated.
unfoldable pub resolve_token : Role → Option ℕ → String → Result (String × Bool)
resolve_token pc1 random String.[] = elim random [
  | none ↦ invalid no_random
  | some n ↦ valid (pad6 n, true)
]
resolve_token pc2 random String.[] = invalid missing_token
resolve_token role random (String.◌∷◌ c s) =
    let token = String.◌∷◌ c s in
    if ltb (byte_length token) 6 || ltb 128 (byte_length token)
    then invalid token_size
    else if is_printable token
    then valid (token, false)
    else invalid token_character

unfoldable pub check_duration : DurationFlag → ℤ → ℕ → ℕ → Result ℤ
check_duration flag d low high =
    refuse_if (ltb_ℤ d (pos low) || ltb_ℤ (pos high) d) (duration_out_of_range flag) d

unfoldable pub resolve_soak_load : String → Result SoakLoad
resolve_soak_load s =
    if str_eq s "periodic"
    then valid periodic
    else if str_eq s "continuous"
    then valid continuous
    else invalid bad_soak_load

unfoldable pub check_streams : ℤ → Result ℤ
check_streams n = refuse_if (ltb_ℤ n (pos 1) || ltb_ℤ (pos 16) n) streams_out_of_range n

-- The explicit value or the preset.
abbrev pub choose : {A : Type 0} → Bool → A → A → A
choose explicit raw preset = if explicit then raw else preset

-- The load of a soak run.
abbrev pub soak_load_of : Bool → RawRunFlags → Result (Option SoakLoad)
soak_load_of explicit raw =
    if explicit
    then (resolve_soak_load raw.soak_load >>= λ x. valid (some x))
    else valid (presets soak).soak_load

-- The duration and the load of a soak run; both are zero in another mode.
unfoldable pub resolve_soak : (String → Bool) → RawRunFlags → Mode → Result (ℤ × Option SoakLoad)
resolve_soak is_set raw soak = do
  load ← soak_load_of (is_set "soak-load") raw
  duration ←
      check_duration soak_duration
        (choose (is_set "soak-duration") raw.soak_duration (presets soak).soak_duration)
        (60 * second) (86_400 * second)
  valid (duration, load)
resolve_soak is_set raw _ = do
  _ ← refuse_if (is_set "soak-duration") soak_duration_without_soak true
  refuse_if (is_set "soak-load") soak_load_without_soak (pos 0, none)

unfoldable pub resolve_udp_rate : String → Result Bitrate
resolve_udp_rate String.[] = valid 0
resolve_udp_rate (String.◌∷◌ c s) = elim (parse_bitrate (String.◌∷◌ c s)) [
  | malformed e ↦ invalid (bad_udp_rate e)
  | rate r ↦ refuse_if (ltb r 1_000_000 || ltb 40_000_000_000 r) udp_rate_out_of_range r
]

-- strings.Split at slashes.
abbrev push : Char → List String → List String
push c [] = []
push c (e ∷ elements) = String.◌∷◌ c e ∷ elements

unfoldable pub elements : String → List String
elements String.[] = String.[] ∷ []
elements (String.◌∷◌ c s) =
    let rest = elements s in if code c == b'/' then String.[] ∷ rest else push c rest

-- What step 9 of `Resolve` finds.
pub record Times : Type 0 where
  pub soaking : ℤ × Option SoakLoad
  pub tcp : ℤ
  pub udp : ℤ
  pub monitor : ℤ
  pub streams : ℤ

-- Step 9 of `Resolve`: presets, then bounds.
unfoldable pub resolve_times : (String → Bool) → RawRunFlags → Mode → Result Times
resolve_times is_set raw mode =
    let p = presets mode in
    do
      soaking ← resolve_soak is_set raw mode
      tcp ←
          check_duration tcp_duration
            (choose (is_set "tcp-duration") raw.tcp_duration p.tcp_duration) (5 * second)
            (600 * second)
      udp ←
          check_duration udp_duration
            (choose (is_set "udp-duration") raw.udp_duration p.udp_duration) (5 * second)
            (600 * second)
      monitor ←
          check_duration monitor_interval
            (choose (is_set "monitor-interval") raw.monitor_interval p.monitor_interval) 200_000_000
            (30 * second)
      streams ←
          check_streams (choose (is_set "parallel-streams") raw.parallel_streams p.parallel_streams)
      valid
          (record { soaking = soaking; tcp = tcp; udp = udp; monitor = monitor; streams = streams })

-- What steps 1 to 6 find.
pub record Ends (A : Type 0) : Type 0 where
  pub mode : Mode
  pub color : String
  pub role : Role
  pub local : Option A
  pub peer : A

module _ {A : Type 0} (host : Host A) where
  -- An address that was parsed, or not.
  unfoldable pub parsed_addr : IpFlag → Option A → Bool → Result A
  parsed_addr flag none allow_loopback = invalid (not_an_address flag)
  parsed_addr flag (some a) allow_loopback = do
    _ ← refuse_if (not (is_blank (host.zone a))) (zoned flag) true
    _ ← refuse_if (not (host.is4 (host.unmap a))) (not_ipv4 flag) true
    _ ← refuse_if (host.is_unspecified (host.unmap a)) (unspecified flag) true
    _ ← refuse_if (host.is_multicast (host.unmap a)) (multicast flag) true
    refuse_if (host.is_loopback (host.unmap a) && not allow_loopback) (loopback flag) (host.unmap a)

  unfoldable pub parse_ipv4 : IpFlag → String → Bool → Result A
  parse_ipv4 flag String.[] allow_loopback = invalid (missing_ip flag)
  parse_ipv4 flag (String.◌∷◌ c s) allow_loopback =
      parsed_addr flag (host.parse_addr (String.◌∷◌ c s)) allow_loopback

  -- Steps 4 and 5 of `Resolve`: no local address is asked for where an interface is named.
  unfoldable pub resolve_local_ip : RawRunFlags → Result (Option A)
  resolve_local_ip raw =
      if not (is_blank raw.local_ip) || is_blank raw.interface
      then (parse_ipv4 local_ip raw.local_ip raw.allow_virtual_interface >>= λ a. valid (some a))
      else valid none

  abbrev pub is_same : Option A → A → Bool
  is_same none peer = false
  is_same (some a) peer = host.addr_eq a peer

  unfoldable pub validate_output_dir : String → Result String
  validate_output_dir raw =
      let path = if is_blank raw then "." else raw in
      do
        _ ← refuse_if (any (λ e. str_eq e "..") (elements path)) parent_element true
        elim (host.abs_path path) [
          | none ↦ invalid unresolvable
          | some abs ↦ elim (host.stat (host.clean abs)) [
            | absent ↦ invalid no_directory
            | failing ↦ invalid unreadable
            | other ↦ invalid not_a_directory
            | directory ↦ valid (host.clean abs)
          ]
        ]

  -- Steps 1 to 6 of `Resolve`.
  unfoldable pub resolve_ends : RawRunFlags → Result (Ends A)
  resolve_ends raw = do
    mode ← resolve_mode raw.mode
    color ← check_color raw.color
    role ← resolve_role raw.role
    local ← resolve_local_ip raw
    peer ← parse_ipv4 peer_ip raw.peer_ip raw.allow_virtual_interface
    refuse_if (is_same local peer) same_ip
        (record { mode = mode; color = color; role = role; local = local; peer = peer })

  -- `Resolve`: steps 1 to 6, 7, 8, 9, 10 and 12; step 11 is the field `cable_test`.
  unfoldable pub resolve : RawRunFlags → (String → Bool) → Result (RunConfig A)
  resolve raw is_set = do
    ends ← resolve_ends raw
    ports ← resolve_ports raw.control_port raw.iperf_port
    token ← resolve_token ends.role host.random raw.token
    times ← resolve_times is_set raw ends.mode
    bps ← resolve_udp_rate raw.udp_rate
    dir ← validate_output_dir raw.output
    valid (record {
      role = ends.role;
      local_ip = ends.local;
      peer_ip = ends.peer;
      interface = raw.interface;
      mode = ends.mode;
      control_port = ports.0;
      iperf_port = ports.1;
      token = token.0;
      token_generated = token.1;
      tcp_duration = times.tcp;
      udp_duration = times.udp;
      udp_rate = bps;
      parallel_streams = times.streams;
      ping_count = (presets ends.mode).ping_count;
      ping_interval = (presets ends.mode).ping_interval;
      tcp_repeats = (presets ends.mode).tcp_repeats;
      soak_duration = times.soaking.0;
      soak_load = times.soaking.1;
      monitor_interval = times.monitor;
      cable_test = raw.cable_test || raw.cable_test_tdr;
      cable_test_tdr = raw.cable_test_tdr;
      output_dir = dir;
      color = ends.color;
      quiet = raw.quiet;
      verbose = raw.verbose;
      non_interactive = raw.non_interactive;
      no_sudo = raw.no_sudo;
      no_report_transfer = raw.no_report_transfer;
      allow_virtual_interface = raw.allow_virtual_interface;
    })
