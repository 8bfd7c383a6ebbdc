-- ===== src/Protocol/MessageId/RoundTrip.antt =====
-- Minting and splitting identifiers, internal/protocol/envelope.go: the two together.
use Prim.Native.Char.{code}
use cablecheck.Base.{
  ℕ, zero, suc, ◌+◌, ◌-◌, ◌*◌, ◌/◌, ◌%◌, ◌^◌, ◌<◌, ◌≡◌, refl, ◌∙◌, ap, Bool, false, ◌||◌, none,
  some, ◌==◌, arith, le→leb, lt→ltb, Bool-cases, inl, inr,
}
use cablecheck.Base.Text.{String, ◌⧺◌, digit, digits, show_ℕ, cons-append, nil-append}
use cablecheck.Protocol.MessageId.{
  split_last, parse_digits, parse_uint, is_blank, split_message_id, size, zeros, pad8,
  MessageIdMaker, next,
}

-- The text has a hyphen.
abbrev has_hyphen : String → Bool
has_hyphen String.[] = false
has_hyphen (String.◌∷◌ c s) = code c == b'-' || has_hyphen s

split_last-no_hyphen : (s : String) → has_hyphen s ≡ false → split_last s ≡ none
unfolding split_last
split_last-no_hyphen String.[] h = refl
split_last-no_hyphen (String.◌∷◌ c s) h = ground (arith, split_last-no_hyphen s)

split_last-append :
    (r t : String) → has_hyphen t ≡ false → split_last (r ⧺ String.◌∷◌ "-" t) ≡ some (r, t)
unfolding split_last
split_last-append String.[] t h = rw (nil-append, split_last-no_hyphen t h)
split_last-append (String.◌∷◌ c r) t h = rw (cons-append, split_last-append r t h, split_last)

pub digit-code : (d : ℕ) → d < 10 → code (digit d) ≡ 48 + d
digit-code zero h = refl
digit-code (suc zero) h = refl
digit-code (suc (suc zero)) h = refl
digit-code (suc (suc (suc zero))) h = refl
digit-code (suc (suc (suc (suc zero)))) h = refl
digit-code (suc (suc (suc (suc (suc zero))))) h = refl
digit-code (suc (suc (suc (suc (suc (suc zero)))))) h = refl
digit-code (suc (suc (suc (suc (suc (suc (suc zero))))))) h = refl
digit-code (suc (suc (suc (suc (suc (suc (suc (suc zero)))))))) h = refl
digit-code (suc (suc (suc (suc (suc (suc (suc (suc (suc zero))))))))) h = refl
digit-code (suc (suc (suc (suc (suc (suc (suc (suc (suc (suc d)))))))))) h = absurd (omega arith)

parse_digits-digit :
    (v d : ℕ) (s : String)
    → d < 10
    → parse_digits v (String.◌∷◌ (digit d) s) ≡ parse_digits (v * 10 + d) s
unfolding parse_digits
parse_digits-digit v d s h =
    rw (digit-code d h, le→leb 48 (48 + d) (omega arith), le→leb (48 + d) 57 (omega arith))
      (ap (λ n. parse_digits n s) (omega arith))

-- The digits of `n` are read as `n`, whatever follows.
parse_digits-digits :
    (fuel n : ℕ) (acc : String) → n < fuel → parse_digits 0 (digits fuel n acc) ≡ parse_digits n acc
unfolding digits
parse_digits-digits zero n acc h = elim h [ ]
parse_digits-digits (suc fuel) n acc h = elim (Bool-cases (n / 10 == 0)) [
  | inl e ↦ rw e (
      parse_digits-digit 0 (n % 10) acc (omega arith) ∙ ap (λ v. parse_digits v acc) (ground arith))
  | inr e ↦ rw e (
      parse_digits-digits fuel (n / 10) (String.◌∷◌ (digit (n % 10)) acc) (ground arith)
      ∙ (parse_digits-digit (n / 10) (n % 10) acc (omega arith)
          ∙ ap (λ v. parse_digits v acc) (omega arith)))
]

parse_digits-zeros : (k : ℕ) (s : String) → parse_digits 0 (zeros k s) ≡ parse_digits 0 s
unfolding zeros
parse_digits-zeros zero s = refl
parse_digits-zeros (suc k) s =
    parse_digits-digit 0 0 (zeros k s) (omega arith) ∙ parse_digits-zeros k s

-- A padded number is read back.
parse_digits-pad8 : (n : ℕ) → parse_digits 0 (pad8 n) ≡ some n
unfolding pad8 show_ℕ parse_digits
parse_digits-pad8 n =
    parse_digits-zeros (8 - size (show_ℕ n)) (show_ℕ n)
    ∙ parse_digits-digits (suc n) n "" (omega arith)

digits_no_hyphen :
    (fuel n : ℕ) (acc : String) → has_hyphen acc ≡ false → has_hyphen (digits fuel n acc) ≡ false
unfolding digits
digits_no_hyphen zero n acc h = h
digits_no_hyphen (suc fuel) n acc h =
    let first : has_hyphen (String.◌∷◌ (digit (n % 10)) acc) ≡ false =
      rw (digit-code (n % 10) (omega arith)) (ground arith) in
    elim (Bool-cases (n / 10 == 0)) [
      | inl e ↦ rw e first
      | inr e ↦ rw e (digits_no_hyphen fuel (n / 10) (String.◌∷◌ (digit (n % 10)) acc) first)
    ]

zeros_no_hyphen : (k : ℕ) (s : String) → has_hyphen s ≡ false → has_hyphen (zeros k s) ≡ false
unfolding zeros
zeros_no_hyphen zero s h = h
zeros_no_hyphen (suc k) s h = zeros_no_hyphen k s h

pad8_no_hyphen : (n : ℕ) → has_hyphen (pad8 n) ≡ false
unfolding pad8 show_ℕ
pad8_no_hyphen n =
    zeros_no_hyphen (8 - size (show_ℕ n)) (show_ℕ n) (digits_no_hyphen (suc n) n "" refl)

-- A text that is read as a number is not blank, unless it is read as the starting value.
digits_not_blank : (fuel n : ℕ) (acc : String) → n < fuel → is_blank (digits fuel n acc) ≡ false
unfolding digits
digits_not_blank zero n acc h = elim h [ ]
digits_not_blank (suc fuel) n acc h = elim (Bool-cases (n / 10 == 0)) [
  | inl e ↦ rw e
  | inr e ↦ rw e (digits_not_blank fuel (n / 10) (String.◌∷◌ (digit (n % 10)) acc) (ground arith))
]

zeros_not_blank : (k : ℕ) (s : String) → is_blank s ≡ false → is_blank (zeros k s) ≡ false
unfolding zeros
zeros_not_blank zero s h = h
zeros_not_blank (suc k) s h = refl

pad8_not_blank : (n : ℕ) → is_blank (pad8 n) ≡ false
unfolding pad8 show_ℕ
pad8_not_blank n =
    zeros_not_blank (8 - size (show_ℕ n)) (show_ℕ n) (digits_not_blank (suc n) n "" (omega arith))

parse_uint_of_digits :
    (s : String) (n : ℕ)
    → is_blank s ≡ false
    → parse_digits 0 s ≡ some n
    → n < 2 ^ 64
    → parse_uint s ≡ some n
unfolding parse_uint
parse_uint_of_digits String.[] n b h l = cc
parse_uint_of_digits (String.◌∷◌ c s) n b h l = rw (h, lt→ltb n (2 ^ 64) l, parse_uint)

pub show_ℕ_not_blank : (n : ℕ) → is_blank (show_ℕ n) ≡ false
unfolding show_ℕ
show_ℕ_not_blank n = digits_not_blank (suc n) n "" (omega arith)

-- A number of 64 bits that is printed is read back.
pub parse_uint-show_ℕ : (n : ℕ) → n < 2 ^ 64 → parse_uint (show_ℕ n) ≡ some n
unfolding show_ℕ
parse_uint-show_ℕ n l =
    parse_uint_of_digits (show_ℕ n) n (digits_not_blank (suc n) n "" (omega arith))
      (parse_digits-digits (suc n) n "" (omega arith) ∙ unfold parse_digits in refl) l

-- An identifier that a maker with a role mints is taken apart into that role and the number it was
-- minted with, whatever the role's own characters; the counter wraps after 2^64 - 1.
pub split_message_id-next :
    (m : MessageIdMaker)
    → is_blank m.role ≡ false
    → ((next m).0.seq ≡ (m.seq + 1) % 2 ^ 64)
      × (split_message_id (next m).1 ≡ some (m.role, (next m).0.seq))
unfolding next split_message_id
split_message_id-next m h =
    let n = (m.seq + 1) % 2 ^ 64 in
    (
      refl,
      rw (
        split_last-append m.role (pad8 n) (pad8_no_hyphen n),
        h,
        pad8_not_blank n,
        parse_uint_of_digits (pad8 n) n (pad8_not_blank n) (parse_digits-pad8 n) (omega arith),
        split_message_id,
      ),
    )
