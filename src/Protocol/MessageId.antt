-- ===== src/Protocol/MessageId.antt =====
-- internal/protocol/envelope.go: minting message identifiers and taking them apart. A Go string is a
-- String here; the separator and the digits are ASCII, so bytes and characters agree on them.
pub mod RoundTrip
use Prim.Native.Char.{Char, code}
use cablecheck.Base.{
  ℕ, zero, suc, ◌+◌, ◌-◌, ◌*◌, ◌/◌, ◌%◌, ◌^◌, ◌≤◌, ◌<◌, ◌≡◌, refl, sym, ◌∙◌, ap, Bool, true, false,
  not, ◌&&◌, ◌||◌, Option, none, some, ltb, leb, ◌==◌, if◌then◌else◌, arith, le→leb, lt→ltb,
  Bool-cases, inl, inr,
}
use cablecheck.Base.Text.{
  String, ◌⧺◌, digit, digits, show_ℕ, str_eq, eq_iff, cons-append, nil-append,
}

-- strings.LastIndexByte with the hyphen, and the two parts around it.
unfoldable pub split_last : String → Option (String × String)
split_last String.[] = none
split_last (String.◌∷◌ c s) = elim (split_last s) [
  | some (a, b) ↦ some (String.◌∷◌ c a, b)
  | none ↦ if code c == b'-' then some (String.[], s) else none
]

-- The digits of strconv.ParseUint in base 10, without its limit.
unfoldable pub parse_digits : ℕ → String → Option ℕ
parse_digits v String.[] = some v
parse_digits v (String.◌∷◌ c s) =
    let rest = parse_digits (v * 10 + (code c - 48)) s in
    if leb 48 (code c) && leb (code c) 57 then rest else none

-- strconv.ParseUint(s, 10, 64).
unfoldable pub parse_uint : String → Option ℕ
parse_uint String.[] = none
parse_uint (String.◌∷◌ c s) = elim (parse_digits 0 (String.◌∷◌ c s)) [
  | none ↦ none
  | some n ↦ if ltb n (2 ^ 64) then some n else none
]

abbrev pub is_blank : String → Bool
is_blank String.[] = true
is_blank (String.◌∷◌ c s) = false

-- `splitMessageID`: the role and the sequence number.
unfoldable pub split_message_id : String → Option (String × ℕ)
split_message_id id = elim (split_last id) [
  | none ↦ none
  | some (role, seq) ↦
      if is_blank role || is_blank seq
      then none
      else elim (parse_uint seq) [ none ↦ none | some n ↦ some (role, n) ]
]

abbrev pub size : String → ℕ
size String.[] = 0
size (String.◌∷◌ c s) = suc (size s)

-- Zeros in front.
unfoldable pub zeros : ℕ → String → String
zeros zero s = s
zeros (suc n) s = String.◌∷◌ "0" (zeros n s)

-- `%08d`.
unfoldable pub pad8 : ℕ → String
pad8 n = zeros (8 - size (show_ℕ n)) (show_ℕ n)

pub record MessageIdMaker : Type 0 where
  pub role : String
  -- the atomic uint64 counter
  pub seq : ℕ

abbrev pub new_message_id_maker : String → MessageIdMaker
new_message_id_maker role = record { role = role; seq = 0 }

-- `Next`: the counter is advanced, and the identifier carries the new value.
unfoldable pub next : MessageIdMaker → MessageIdMaker × String
next m = let n = (m.seq + 1) % 2 ^ 64 in (record m { seq = n }, m.role ⧺ (String.◌∷◌ "-" (pad8 n)))
