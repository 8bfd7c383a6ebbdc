-- ===== src/Config/Rates.antt =====
-- internal/config/config.go: the automatic UDP rate against the check of an explicit one.
use cablecheck.Base.{◌*◌, ◌/◌, ◌%◌, ◌^◌, ◌<◌, ◌≤◌, ◌≡◌, ◌⊎◌, false, arith}
use cablecheck.Model.Bitrate.{Bitrate}
use cablecheck.Config.{default_udp_rate, check_explicit_udp_rate}

-- Of a link speed above 0 whose multiple by 95 fits 64 bits: the automatic UDP rate comes without a
-- warning and is not one that the check of explicit rates warns of; it is at most 95% of the speed;
-- and it is either 80% of it and at least 10 Mb/s, or exactly 10 Mb/s where 80% are less, or exactly
-- 95% of it where that is less than 10 Mb/s.
pub check_explicit_udp_rate-default_udp_rate :
    (n : Bitrate)
    → 0 < n
    → n * 95 < 2 ^ 64
    → let rate = (default_udp_rate n).0 in
      ((default_udp_rate n).1 ≡ false)
      × (check_explicit_udp_rate rate n ≡ false)
      × (rate * 100 ≤ n * 95)
      × (((rate ≡ n * 80 / 100) × (10_000_000 ≤ rate))
          ⊎ (((rate ≡ 10_000_000) × (n * 80 / 100 < 10_000_000))
              ⊎ ((rate ≡ n * 95 / 100) × (rate < 10_000_000))))
unfolding default_udp_rate check_explicit_udp_rate
check_explicit_udp_rate-default_udp_rate n h l =
    let a : n * 80 % 2 ^ 64 ≡ n * 80 = omega arith in
    let b : n * 95 % 2 ^ 64 ≡ n * 95 = omega arith in rw (a, b) (ground arith)
