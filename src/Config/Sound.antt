-- ===== src/Config/Sound.antt =====
-- internal/config/validate.go: what holds of a configuration that `Resolve` returns.
use mathlib.Core.Path.{subst}
use cablecheck.Base.{
  ℕ, suc, ◌*◌, ◌≤◌, ◌≡◌, ◌≢◌, ◌⊎◌, refl, ap, sym, ◌∙◌, inl, Bool, true, false, not, ◌&&◌, ◌||◌,
  Option, none, some, ltb, arith,
}
use cablecheck.Base.Int.{ℤ, pos, add_int, ltb_ℤ, eqb_ℤ, ◌≤ℤ◌}
use cablecheck.Base.Text.{String}
use cablecheck.Model.Bitrate.{Bitrate}
use cablecheck.Config.{
  Role, pc1, pc2, Mode, quick, standard, soak, SoakLoad, RunConfig, RawRunFlags, IpFlag, local_ip,
  peer_ip, PortFlag, control_port, iperf_port, DurationFlag, tcp_duration, udp_duration,
  monitor_interval, soak_duration, ValidationError, same_ip, second, presets,
}
use cablecheck.Config.Resolve.{
  Host, directory, Result, valid, invalid, ◌>>=◌, refuse_if, resolve_mode, check_color,
  resolve_role, validate_port, resolve_ports, byte_length, is_printable, resolve_token,
  check_duration, resolve_soak, resolve_udp_rate, parsed_addr, parse_ipv4, soak_load_of,
  resolve_soak_load, choose, resolve_local_ip, is_same, validate_output_dir, check_streams, resolve,
  Times, Ends, resolve_times, resolve_ends,
}

-- A chain that ends well: its first step did, and the rest.
>>=-valid :
    {A B : Type 0} (r : Result A) (next : A → Result B) {b : B}
    → (r >>= next) ≡ valid b
    → (a : A) × (r ≡ valid a) × (next a ≡ valid b)
>>=-valid (invalid e) next h = cc
>>=-valid (valid a) next h = (a, refl, h)

valid-inj : {A : Type 0} {a b : A} → valid a ≡ valid b → a ≡ b
valid-inj h = cc

refuse_if-valid :
    {A : Type 0} (t : Bool) (e : ValidationError) (a : A) {b : A}
    → refuse_if t e a ≡ valid b
    → (t ≡ false) × (a ≡ b)
refuse_if-valid true e a h = cc
refuse_if-valid false e a h = (refl, cc)

validate_port-valid :
    (flag : PortFlag) (p : ℤ) (n : ℕ)
    → validate_port flag p ≡ valid n
    → (p ≡ pos n) × (1024 ≤ n) × (n ≤ 65_535)
unfolding validate_port
validate_port-valid flag (pos k) n h = ground arith
validate_port-valid flag (ℤ.negsuc k) n h = ground arith

check_duration-valid :
    (flag : DurationFlag) (d : ℤ) (low high : ℕ) (x : ℤ)
    → check_duration flag d low high ≡ valid x
    → (pos low ≤ℤ x) × (x ≤ℤ pos high)
unfolding check_duration
check_duration-valid flag d low high x h = ground arith

resolve_udp_rate-valid :
    (s : String) (r : Bitrate)
    → resolve_udp_rate s ≡ valid r
    → (r ≡ 0) ⊎ ((1_000_000 ≤ r) × (r ≤ 40_000_000_000))
unfolding resolve_udp_rate
resolve_udp_rate-valid String.[] r h = inl (ground arith)
resolve_udp_rate-valid (String.◌∷◌ c s) r h = ground arith

check_streams-valid : (n x : ℤ) → check_streams n ≡ valid x → (pos 1 ≤ℤ x) × (x ≤ℤ pos 16)
unfolding check_streams
check_streams-valid n x h = ground arith

-- The ports of a run: unprivileged, with room for the fallback, and apart.
pub record IsPorts (control iperf : ℕ) : Type 0 where
  pub control_low : 1024 ≤ control
  pub control_high : control ≤ 65_535
  pub iperf_low : 1024 ≤ iperf
  pub iperf_high : iperf ≤ 65_534
  pub apart : control ≢ iperf
  pub apart_from_fallback : control ≢ suc iperf

eqb_ℤ-IsPorts :
    (p q : ℕ)
    → (1024 ≤ p) × (p ≤ 65_535)
    → 1024 ≤ q
    → ltb_ℤ (pos 65_534) (pos q) ≡ false
    → (eqb_ℤ (pos p) (pos q) || eqb_ℤ (pos p) (add_int (pos q) (pos 1))) ≡ false
    → IsPorts p q
eqb_ℤ-IsPorts p q (a, b) d f g = record {
  control_low = a;
  control_high = b;
  iperf_low = d;
  iperf_high = ground arith;
  apart = λ same. ground arith;
  apart_from_fallback = λ same. ground arith;
}

resolve_ports-IsPorts : (x y : ℤ) (c i : ℕ) → resolve_ports x y ≡ valid (c, i) → IsPorts c i
unfolding resolve_ports
resolve_ports-IsPorts x y c i h =
    let (c', e, h1) = >>=-valid (validate_port control_port x) _ h in
    let (i', f, h2) = >>=-valid (validate_port iperf_port y) _ h1 in
    let (_, g, h3) = >>=-valid (refuse_if (ltb_ℤ (pos 65_534) y) _ true) _ h2 in
    let (k, same) = refuse_if-valid _ _ _ h3 in
    let low = validate_port-valid control_port x c' e in
    let high = validate_port-valid iperf_port y i' f in
    let room = (refuse_if-valid _ _ _ g).0 in
    let ports : IsPorts c' i' =
      eqb_ℤ-IsPorts c' i' (low.1, low.2) high.1 (ap (λ z. ltb_ℤ (pos 65_534) z) (sym high.0) ∙ room)
        (ap (λ z. eqb_ℤ z (pos i') || eqb_ℤ z (add_int (pos i') (pos 1))) (sym low.0)
          ∙ (ap (λ z. eqb_ℤ x z || eqb_ℤ x (add_int z (pos 1))) (sym high.0) ∙ k)) in
    subst (λ (pair : ℕ × ℕ). IsPorts pair.0 pair.1) same ports

-- A token that a user can type: short enough, long enough, and printable.
pub record IsToken (token : String) : Type 0 where
  pub long_enough : 6 ≤ byte_length token
  pub short_enough : byte_length token ≤ 128
  pub printable : is_printable token ≡ true

is_printable-IsToken :
    (s t : String)
    → (ltb (byte_length s) 6 ≡ false)
      × (ltb 128 (byte_length s) ≡ false)
      × (is_printable s ≡ true)
      × (s ≡ t)
    → IsToken t
is_printable-IsToken s t (a, b, d, e) =
    subst IsToken e
      (record { long_enough = ground arith; short_enough = ground arith; printable = d })

resolve_token-typed :
    (role : Role) (random : Option ℕ) (s : String) (t : String)
    → resolve_token role random s ≡ valid (t, false)
    → IsToken t
unfolding resolve_token
resolve_token-typed pc1 random String.[] t h = ground arith
resolve_token-typed pc2 random String.[] t h = ground arith
resolve_token-typed pc1 random (String.◌∷◌ c s) t h =
    is_printable-IsToken (String.◌∷◌ c s) t (ground arith)
resolve_token-typed pc2 random (String.◌∷◌ c s) t h =
    is_printable-IsToken (String.◌∷◌ c s) t (ground arith)

-- The soak settings of a mode.
abbrev pub IsSoaking : Mode → ℤ → Option SoakLoad → Type 0
IsSoaking soak duration load =
    (pos (60 * second) ≤ℤ duration) × (duration ≤ℤ pos (86_400 * second)) × (load ≢ none)
IsSoaking _ duration load = (duration ≡ pos 0) × (load ≡ none)

soak_load_of-some :
    (explicit : Bool) (raw : RawRunFlags) (l : Option SoakLoad)
    → soak_load_of explicit raw ≡ valid l
    → l ≢ none
unfolding resolve_soak_load
soak_load_of-some explicit raw l h = λ e. ground arith

resolve_soak-IsSoaking :
    (is_set : String → Bool) (raw : RawRunFlags) (mode : Mode) (d : ℤ) (load : Option SoakLoad)
    → resolve_soak is_set raw mode ≡ valid (d, load)
    → IsSoaking mode d load
unfolding resolve_soak check_duration
resolve_soak-IsSoaking is_set raw quick d load h = ground arith
resolve_soak-IsSoaking is_set raw standard d load h = ground arith
resolve_soak-IsSoaking is_set raw soak d load h =
    let (l, e, h1) = >>=-valid (soak_load_of (is_set "soak-load") raw) _ h in
    let chosen = choose (is_set "soak-duration") raw.soak_duration (presets soak).soak_duration in
    let (x, f, h2) =
      >>=-valid (check_duration soak_duration chosen (60 * second) (86_400 * second))
        (λ y. valid (y, l)) h1 in
    let same : (x, l) ≡ (d, load) = ground arith in
    let (low, high) =
      check_duration-valid soak_duration chosen (60 * second) (86_400 * second) x f in
    subst (λ (pair : ℤ × Option SoakLoad). IsSoaking soak pair.0 pair.1) same
      (low, high, soak_load_of-some (is_set "soak-load") raw l e)

-- What step 9 settles is within its bounds.
pub record IsTimed (mode : Mode) (t : Times) : Type 0 where
  pub tcp_low : pos (5 * second) ≤ℤ t.tcp
  pub tcp_high : t.tcp ≤ℤ pos (600 * second)
  pub udp_low : pos (5 * second) ≤ℤ t.udp
  pub udp_high : t.udp ≤ℤ pos (600 * second)
  pub monitor_low : pos 200_000_000 ≤ℤ t.monitor
  pub monitor_high : t.monitor ≤ℤ pos (30 * second)
  pub streams_low : pos 1 ≤ℤ t.streams
  pub streams_high : t.streams ≤ℤ pos 16
  pub soaking : IsSoaking mode t.soaking.0 t.soaking.1

resolve_times-IsTimed :
    (is_set : String → Bool) (raw : RawRunFlags) (mode : Mode) (t : Times)
    → resolve_times is_set raw mode ≡ valid t
    → IsTimed mode t
unfolding resolve_times
resolve_times-IsTimed is_set raw mode x h =
    let p = presets mode in
    let tcp_choice = choose (is_set "tcp-duration") raw.tcp_duration p.tcp_duration in
    let udp_choice = choose (is_set "udp-duration") raw.udp_duration p.udp_duration in
    let monitor_choice =
      choose (is_set "monitor-interval") raw.monitor_interval p.monitor_interval in
    let streams_choice =
      choose (is_set "parallel-streams") raw.parallel_streams p.parallel_streams in
    let (soaking, e, h1) = >>=-valid (resolve_soak is_set raw mode) _ h in
    let (tcp, f, h2) =
      >>=-valid (check_duration tcp_duration tcp_choice (5 * second) (600 * second)) _ h1 in
    let (udp, g, h3) =
      >>=-valid (check_duration udp_duration udp_choice (5 * second) (600 * second)) _ h2 in
    let (monitor, i, h4) =
      >>=-valid (check_duration monitor_interval monitor_choice 200_000_000 (30 * second)) _ h3 in
    let (streams, j, h5) = >>=-valid (check_streams streams_choice) _ h4 in
    let t = check_duration-valid tcp_duration tcp_choice (5 * second) (600 * second) tcp f in
    let u = check_duration-valid udp_duration udp_choice (5 * second) (600 * second) udp g in
    let m =
      check_duration-valid monitor_interval monitor_choice 200_000_000 (30 * second) monitor i in
    let n = check_streams-valid streams_choice streams j in
    subst (IsTimed mode) (valid-inj h5) (record {
      tcp_low = t.0;
      tcp_high = t.1;
      udp_low = u.0;
      udp_high = u.1;
      monitor_low = m.0;
      monitor_high = m.1;
      streams_low = n.0;
      streams_high = n.1;
      soaking = resolve_soak-IsSoaking is_set raw mode soaking.0 soaking.1 e;
    })

module _ {A : Type 0} (host : Host A) where
  -- An address that a run may use.
  pub record IsUsable (allow_loopback : Bool) (a : A) : Type 0 where
    pub four : host.is4 a ≡ true
    pub specified : host.is_unspecified a ≡ false
    pub unicast : host.is_multicast a ≡ false
    pub reachable : (host.is_loopback a && not allow_loopback) ≡ false

  parsed-IsUsable :
      (flag : IpFlag) (o : Option A) (allow : Bool) (a : A)
      → parsed_addr host flag o allow ≡ valid a
      → IsUsable allow a
  unfolding parsed_addr
  parsed-IsUsable flag none allow a h = ground arith
  parsed-IsUsable flag (some b) allow a h =
      let facts : (host.is4 (host.unmap b) ≡ true)
          × (host.is_unspecified (host.unmap b) ≡ false)
          × (host.is_multicast (host.unmap b) ≡ false)
          × ((host.is_loopback (host.unmap b) && not allow) ≡ false)
          × (host.unmap b ≡ a) =
        ground arith in
      let (four, specified, unicast, reachable, same) = facts in
      subst (IsUsable allow) same
        (record { four = four; specified = specified; unicast = unicast; reachable = reachable })

  parse_ipv4-IsUsable :
      (flag : IpFlag) (s : String) (allow : Bool) (a : A)
      → parse_ipv4 host flag s allow ≡ valid a
      → IsUsable allow a
  unfolding parse_ipv4
  parse_ipv4-IsUsable flag String.[] allow a h = ground arith
  parse_ipv4-IsUsable flag (String.◌∷◌ c s) allow a h =
      parsed-IsUsable flag (host.parse_addr (String.◌∷◌ c s)) allow a h

  -- The two ends of a run.
  pub record IsFound (allow_loopback : Bool) (local : Option A) (peer : A) : Type 0 where
    pub peer_usable : IsUsable allow_loopback peer
    pub local_usable : (a : A) → local ≡ some a → IsUsable allow_loopback a
    pub different : is_same host local peer ≡ false

  -- A configuration that a run can start from.
  pub record IsSound (c : RunConfig A) : Type 0 where
    pub ends : IsFound c.allow_virtual_interface c.local_ip c.peer_ip
    pub times : IsTimed c.mode (record {
      soaking = (c.soak_duration, c.soak_load);
      tcp = c.tcp_duration;
      udp = c.udp_duration;
      monitor = c.monitor_interval;
      streams = c.parallel_streams;
    })
    pub ports : IsPorts c.control_port c.iperf_port
    pub typed : c.token_generated ≡ false → IsToken c.token
    pub rate_bounds : (c.udp_rate ≡ 0) ⊎ ((1_000_000 ≤ c.udp_rate) × (c.udp_rate ≤ 40_000_000_000))
    pub implied : c.cable_test_tdr ≡ true → c.cable_test ≡ true
    pub exists : host.stat c.output_dir ≡ directory

  local_ip-IsUsable :
      (raw : RawRunFlags) (o : Option A) (a : A)
      → resolve_local_ip host raw ≡ valid o
      → o ≡ some a
      → IsUsable raw.allow_virtual_interface a
  unfolding resolve_local_ip
  local_ip-IsUsable raw o a h e =
      let parsed : parse_ipv4 host local_ip raw.local_ip raw.allow_virtual_interface ≡ valid a =
        ground arith in
      parse_ipv4-IsUsable local_ip raw.local_ip raw.allow_virtual_interface a parsed

  resolve_ends-IsFound :
      (raw : RawRunFlags) (e : Ends A)
      → resolve_ends host raw ≡ valid e
      → IsFound raw.allow_virtual_interface e.local e.peer
  unfolding resolve_ends
  resolve_ends-IsFound raw e h =
      let (mode, _, h1) = >>=-valid (resolve_mode raw.mode) _ h in
      let (color, _, h2) = >>=-valid (check_color raw.color) _ h1 in
      let (role, _, h3) = >>=-valid (resolve_role raw.role) _ h2 in
      let (local, e_local, h4) = >>=-valid (resolve_local_ip host raw) _ h3 in
      let (peer, e_peer, h5) =
        >>=-valid (parse_ipv4 host peer_ip raw.peer_ip raw.allow_virtual_interface) _ h4 in
      let (different, same) = refuse_if-valid (is_same host local peer) same_ip _ h5 in
      subst (λ (x : Ends A). IsFound raw.allow_virtual_interface x.local x.peer) same
        (record {
          peer_usable =
              parse_ipv4-IsUsable peer_ip raw.peer_ip raw.allow_virtual_interface peer e_peer;
          local_usable = λ a g. local_ip-IsUsable raw local a e_local g;
          different = different;
        })

  output_dir-directory :
      (raw path : String) → validate_output_dir host raw ≡ valid path → host.stat path ≡ directory
  unfolding validate_output_dir
  output_dir-directory raw path h = ground arith

  -- Whatever the flags, which of them were given, and what the host answers: a configuration that
  -- `Resolve` returns has a peer address, and a local one if it was not left to the interface, that
  -- are IPv4, specified, unicast and not loopback save where virtual interfaces are allowed, and that
  -- differ; unprivileged ports that leave room for the fallback and do not clash; a token that is 6 to
  -- 128 printable ASCII characters where it was not generated; durations, interval and number of
  -- streams within their bounds; soak settings in soak mode only, and within theirs; no UDP rate or one
  -- from 1 Mb/s to 40 Gb/s; a cable test wherever it has TDR; and an output directory that exists.
  pub resolve-IsSound :
      (raw : RawRunFlags) (is_set : String → Bool) (c : RunConfig A)
      → resolve host raw is_set ≡ valid c
      → IsSound c
  unfolding resolve
  resolve-IsSound raw is_set c h =
      let (ends, e_ends, h1) = >>=-valid (resolve_ends host raw) _ h in
      let (ports, e_ports, h2) = >>=-valid (resolve_ports raw.control_port raw.iperf_port) _ h1 in
      let (token, e_token, h3) = >>=-valid (resolve_token ends.role host.random raw.token) _ h2 in
      let (times, e_times, h4) = >>=-valid (resolve_times is_set raw ends.mode) _ h3 in
      let (bps, e_rate, h5) = >>=-valid (resolve_udp_rate raw.udp_rate) _ h4 in
      let (dir, e_dir, h6) = >>=-valid (validate_output_dir host raw.output) _ h5 in
      let found = resolve_ends-IsFound raw ends e_ends in
      subst IsSound (valid-inj h6) (record {
        ends = found;
        times = resolve_times-IsTimed is_set raw ends.mode times e_times;
        ports = resolve_ports-IsPorts raw.control_port raw.iperf_port ports.0 ports.1 e_ports;
        typed = λ g.
            resolve_token-typed ends.role host.random raw.token token.0
              (e_token ∙ ap (λ b. valid (token.0, b)) g);
        rate_bounds = resolve_udp_rate-valid raw.udp_rate bps e_rate;
        implied = λ i. ground arith;
        exists = output_dir-directory raw.output dir e_dir;
      })
