-- ===== src/Model/Tests.antt =====
-- Concrete rates of internal/model.
use cablecheck.Base.{◌≡◌, arith}
use cablecheck.Model.Bitrate.{show_bitrate}
use cablecheck.Model.Bitrate.Parse.{rate, parse_bitrate}
use cablecheck.Model.Bitrate.RoundTrip.{parse_bitrate-show_bitrate}

parse_bitrate-show_bitrate_example : parse_bitrate (show_bitrate 2_500_000_000) ≡ rate 2_500_000_000
parse_bitrate-show_bitrate_example =
    parse_bitrate-show_bitrate 2_500_000_000 (omega arith) (omega arith)
