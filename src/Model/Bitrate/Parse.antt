-- ===== src/Model/Bitrate/Parse.antt =====
-- internal/model/bitrate.go: `ParseBitrate`. Digits and units are ASCII, save the Kelvin sign, which
-- strings.ToLower maps to k. The texts of errors are left out, their cause is kept.
use Prim.Native.Char.{Char, code}
use cablecheck.Base.{
  ℕ, ◌+◌, ◌-◌, ◌*◌, ◌/◌, ◌%◌, ◌^◌, Bool, not, ◌&&◌, ◌||◌, Option, none, some, ltb, leb, ◌==◌,
  if◌then◌else◌,
}
use cablecheck.Base.Text.{String}
use cablecheck.Protocol.MessageId.{parse_uint, is_blank, size}

pub data ParseError : Type 0 where
  empty negative no_digits missing_fraction fraction_without_unit bad_unit overflow too_fine :
      ParseError
  zero_rate : ParseError

pub data Parsed : Type 0 where
  rate : ℕ → Parsed
  malformed : ParseError → Parsed

abbrev pub is_digit : Char → Bool
is_digit c = leb 48 (code c) && leb (code c) 57

-- The digits in front, and what is behind them.
unfoldable pub span_digits : String → String × String
span_digits String.[] = (String.[], String.[])
span_digits (String.◌∷◌ c s) =
    let (ds, rest) = span_digits s in
    if is_digit c then (String.◌∷◌ c ds, rest) else (String.[], String.◌∷◌ c s)

-- The multiplier of a suffix.
unfoldable pub unit_of : String → Option ℕ
unit_of String.[] = some 1
unit_of (String.◌∷◌ c String.[]) =
    if code c == 107 || (code c == 75 || code c == 8490)
    then some 1_000
    else if code c == 109 || code c == 77
    then some 1_000_000
    else if code c == 103 || code c == 71
    then some 1_000_000_000
    else none
unit_of (String.◌∷◌ c (String.◌∷◌ d s)) = none

abbrev pub max_u64 : ℕ
max_u64 = 18_446_744_073_709_551_615

unfoldable pub finish : ℕ → Parsed
finish total = if total == 0 then malformed zero_rate else rate total

-- The fraction digits for a multiplier; no digits is no fraction.
unfoldable pub add_fraction : ℕ → String → ℕ → Parsed
add_fraction total frac mult =
    let pow = 10 ^ size frac in
    if is_blank frac
    then finish total
    else if ltb 9 (size frac)
    then malformed too_fine
    else if not (mult % pow == 0)
    then malformed too_fine
    else elim (parse_uint frac) [
      | none ↦ malformed too_fine
      | some n ↦
          if ltb (max_u64 - n * (mult / pow) % 2 ^ 64) total
          then malformed overflow
          else finish (total + n * (mult / pow) % 2 ^ 64)
    ]

unfoldable pub scale : String → String → ℕ → Parsed
scale digits frac mult = elim (parse_uint digits) [
  | none ↦ malformed overflow
  | some n ↦
      if ltb 1 mult && ltb (max_u64 / mult) n
      then malformed overflow
      else add_fraction (n * mult % 2 ^ 64) frac mult
]

unfoldable pub parse_suffix : String → String → String → Parsed
parse_suffix digits frac suffix = elim (unit_of suffix) [
  | none ↦ malformed bad_unit
  | some mult ↦
      if is_blank suffix && not (is_blank frac)
      then malformed fraction_without_unit
      else scale digits frac mult
]

-- Behind the integer digits.
unfoldable pub parse_rest : String → String → Parsed
parse_rest digits String.[] = parse_suffix digits String.[] String.[]
parse_rest digits (String.◌∷◌ c s) =
    let (frac, suffix) = span_digits s in
    if code c == b'.'
    then (if is_blank frac then malformed missing_fraction else parse_suffix digits frac suffix)
    else parse_suffix digits String.[] (String.◌∷◌ c s)

unfoldable pub parse_bitrate : String → Parsed
parse_bitrate String.[] = malformed empty
parse_bitrate (String.◌∷◌ c s) =
    let (digits, rest) = span_digits (String.◌∷◌ c s) in
    if code c == b'-'
    then malformed negative
    else if is_blank digits
    then malformed no_digits
    else parse_rest digits rest
