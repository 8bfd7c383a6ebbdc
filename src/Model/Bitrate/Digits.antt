-- ===== src/Model/Bitrate/Digits.antt =====
-- internal/model/bitrate.go: the digits in front of a text that `ParseBitrate` reads.
use Prim.Native.Char.{Char}
use cablecheck.Base.{
  ℕ, zero, suc, ◌+◌, ◌/◌, ◌%◌, ◌<◌, ◌≡◌, refl, ap, ◌∙◌, Bool, true, false, not, ◌==◌, arith,
  Bool-cases, inl, inr, le→leb,
}
use cablecheck.Base.Text.{String, ◌⧺◌, digit, digits, show_ℕ, cons-append, nil-append}
use cablecheck.Protocol.MessageId.{is_blank}
use cablecheck.Protocol.MessageId.RoundTrip.{digit-code, show_ℕ_not_blank}
use cablecheck.Model.Bitrate.Parse.{is_digit, span_digits, parse_rest, parse_bitrate}

-- The text does not begin with a digit.
abbrev pub no_digit : String → Bool
no_digit String.[] = true
no_digit (String.◌∷◌ c s) = not (is_digit c)

span_digits-rest : (s : String) → no_digit s ≡ true → span_digits s ≡ (String.[], s)
unfolding span_digits
span_digits-rest String.[] h = refl
span_digits-rest (String.◌∷◌ c s) h = ground arith

digit-is_digit : (d : ℕ) → d < 10 → is_digit (digit d) ≡ true
digit-is_digit d h =
    rw (digit-code d h, le→leb 48 (48 + d) (omega arith), le→leb (48 + d) 57 (omega arith))

pub span_digits-digit :
    (d : ℕ) (s : String)
    → d < 10
    → span_digits (String.◌∷◌ (digit d) s)
      ≡ (String.◌∷◌ (digit d) (span_digits s).0, (span_digits s).1)
unfolding span_digits
span_digits-digit d s h = rw (digit-is_digit d h)

-- The digits of a number are found in front of any text that begins otherwise.
span_digits-digits :
    (fuel n : ℕ) (acc s : String)
    → span_digits (acc ⧺ s) ≡ (acc, s)
    → span_digits (digits fuel n acc ⧺ s) ≡ (digits fuel n acc, s)
unfolding digits
span_digits-digits zero n acc s h = h
span_digits-digits (suc fuel) n acc s h =
    let first : span_digits (String.◌∷◌ (digit (n % 10)) acc ⧺ s)
        ≡ (String.◌∷◌ (digit (n % 10)) acc, s) =
      rw (cons-append) (span_digits-digit (n % 10) (acc ⧺ s) (omega arith) ∙ rw h) in
    elim (Bool-cases (n / 10 == 0)) [
      | inl e ↦ rw e first
      | inr e ↦ rw e (span_digits-digits fuel (n / 10) (String.◌∷◌ (digit (n % 10)) acc) s first)
    ]

span_digits-show_ℕ :
    (n : ℕ) (s : String) → no_digit s ≡ true → span_digits (show_ℕ n ⧺ s) ≡ (show_ℕ n, s)
unfolding show_ℕ
span_digits-show_ℕ n s h =
    span_digits-digits (suc n) n "" s (ap span_digits (nil-append s) ∙ span_digits-rest s h)

parse_bitrate-digit :
    (c : Char) (s : String)
    → is_digit c ≡ true
    → parse_bitrate (String.◌∷◌ c s) ≡ parse_rest (String.◌∷◌ c (span_digits s).0) (span_digits s).1
unfolding parse_bitrate span_digits
parse_bitrate-digit c s h = ground arith

parse_bitrate-span :
    (x ds rest : String)
    → span_digits x ≡ (ds, rest)
    → is_blank ds ≡ false
    → parse_bitrate x ≡ parse_rest ds rest
unfolding span_digits
parse_bitrate-span String.[] ds rest e b =
    let empty : true ≡ is_blank ds = ap (λ (p : String × String). is_blank p.0) e in
    absurd (ground arith)
parse_bitrate-span (String.◌∷◌ c s) ds rest e b = elim (Bool-cases (is_digit c)) [
  | inl d ↦
      (let same : (String.◌∷◌ c (span_digits s).0, (span_digits s).1) ≡ (ds, rest) =
          rw (← e) (ground arith) in
        parse_bitrate-digit c s d ∙ ap (λ (p : String × String). parse_rest p.0 p.1) same)
  | inr d ↦
      (let empty : (String.[], String.◌∷◌ c s) ≡ (ds, rest) = rw (← e) (ground arith) in
        let blank : true ≡ is_blank ds = ap (λ (p : String × String). is_blank p.0) empty in
        absurd (ground arith))
]

pub show_ℕ-digit : (b : ℕ) → b < 10 → show_ℕ b ≡ String.◌∷◌ (digit b) String.[]
unfolding show_ℕ digits
show_ℕ-digit b h = elim (Bool-cases (b / 10 == 0)) [
  | inl e ↦ (let same : b % 10 ≡ b = omega arith in rw (e, same) refl)
  | inr e ↦ absurd (ground (arith, h))
]

pub parse_bitrate-whole :
    (n : ℕ) (s : String)
    → no_digit s ≡ true
    → parse_bitrate (show_ℕ n ⧺ s) ≡ parse_rest (show_ℕ n) s
parse_bitrate-whole n s h =
    parse_bitrate-span (show_ℕ n ⧺ s) (show_ℕ n) s (span_digits-show_ℕ n s h) (show_ℕ_not_blank n)
