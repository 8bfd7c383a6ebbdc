-- ===== src/Model/Bitrate/RoundTrip.antt =====
-- The two directions of internal/model/bitrate.go together: a rate is printed and parsed.
use Prim.Native.Char.{Char}
use cablecheck.Base.{
  ℕ, ◌+◌, ◌*◌, ◌/◌, ◌%◌, ◌^◌, ◌<◌, ◌≤◌, ◌≡◌, refl, ap, sym, ◌∙◌, true, false, ◌&&◌, some, List, [],
  ◌∷◌, ltb, leb, ◌==◌, arith, Bool-cases, inl, inr,
}
use cablecheck.Base.Text.{String, ◌⧺◌, digit, show_ℕ, cons-append, nil-append, append-nil}
use cablecheck.Protocol.MessageId.{parse_uint}
use cablecheck.Protocol.MessageId.RoundTrip.{parse_uint-show_ℕ}
use cablecheck.Model.Bitrate.{Bitrate, show_units, show_bitrate}
use cablecheck.Model.Bitrate.Parse.{
  rate, span_digits, unit_of, max_u64, finish, add_fraction, scale, parse_suffix, parse_rest,
  parse_bitrate,
}
use cablecheck.Model.Bitrate.Digits.{no_digit, span_digits-digit, show_ℕ-digit, parse_bitrate-whole}

-- A product that fits 64 bits passes the fences.
scale-parsed :
    (ds : String) (n mult : ℕ) (frac : String)
    → parse_uint ds ≡ some n
    → ltb (max_u64 / mult) n ≡ false
    → n * mult < 2 ^ 64
    → scale ds frac mult ≡ add_fraction (n * mult) frac mult
unfolding scale
scale-parsed ds n mult frac p f w =
    let same : n * mult % 2 ^ 64 ≡ n * mult = omega arith in ground arith

add_fraction-none : (n mult : ℕ) → 0 < n → add_fraction n String.[] mult ≡ rate n
unfolding add_fraction finish
add_fraction-none n mult h = ground arith

parse_uint-digit : (b : ℕ) → b < 10 → parse_uint (String.◌∷◌ (digit b) String.[]) ≡ some b
parse_uint-digit b h = ap parse_uint (sym (show_ℕ-digit b h)) ∙ parse_uint-show_ℕ b (omega arith)

add_fraction-digit :
    (n b k mult : ℕ)
    → b < 10
    → mult ≡ k * 10
    → 0 < n
    → n + b * k < 2 ^ 64
    → add_fraction n (String.◌∷◌ (digit b) String.[]) mult ≡ rate (n + b * k)
unfolding add_fraction finish
add_fraction-digit n b k mult h e p l =
    let tenth : mult / 10 ≡ k = omega arith in
    let even : mult % 10 ≡ 0 = omega arith in
    let small : b * k % 2 ^ 64 ≡ b * k = omega arith in
    rw (parse_uint-digit b h, even, tenth, small) (ground arith)

abbrev dot : Char
dot = "."

-- A unit: what its multiplier and a tenth of it are, and how its suffix is read.
record IsUnit (mult k : ℕ) (s : String) : Type 0 where
  tenth : mult ≡ k * 10
  no_digits : no_digit s ≡ true
  plain : (ds : String) → parse_rest ds s ≡ scale ds String.[] mult
  with_digit :
      (ds : String) (b : ℕ)
      → b < 10
      → parse_rest ds (String.◌∷◌ dot (String.◌∷◌ (digit b) s))
        ≡ scale ds (String.◌∷◌ (digit b) String.[]) mult

-- The parts of a rate in a unit: all of it, or all but a number of tenths.
record Splits (v mult k : ℕ) : Type 0 where
  quotient : v / mult < 2 ^ 64
  fits : ltb (max_u64 / mult) (v / mult) ≡ false
  bounded : v / mult * mult < 2 ^ 64
  one_digit : v % mult / k < 10
  whole : v % mult ≡ 0 → v / mult * mult ≡ v
  positive : mult ≤ v → 0 < v / mult * mult
  tenths : v % k ≡ 0 → v / mult * mult + v % mult / k * k ≡ v

parse_bitrate-plain :
    (v mult k : ℕ) (s : String)
    → IsUnit mult k s
    → Splits v mult k
    → 0 < v
    → v % mult ≡ 0
    → parse_bitrate (show_ℕ (v / mult) ⧺ s) ≡ rate v
parse_bitrate-plain v mult k s u p h e =
    let same = p.whole e in
    parse_bitrate-whole (v / mult) s u.no_digits
    ∙ (u.plain (show_ℕ (v / mult))
        ∙ (scale-parsed (show_ℕ (v / mult)) (v / mult) mult String.[]
              (parse_uint-show_ℕ (v / mult) p.quotient) p.fits p.bounded
            ∙ rw same (add_fraction-none v mult h)))

point :
    (b : ℕ) (s : String)
    → "." ⧺ (String.◌∷◌ (digit b) String.[] ⧺ s) ≡ String.◌∷◌ dot (String.◌∷◌ (digit b) s)
point b s =
    cons-append dot String.[] (String.◌∷◌ (digit b) String.[] ⧺ s)
    ∙ ap (λ x. String.◌∷◌ dot x)
        (nil-append (String.◌∷◌ (digit b) String.[] ⧺ s)
          ∙ (cons-append (digit b) String.[] s ∙ ap (λ x. String.◌∷◌ (digit b) x) (nil-append s)))

parse_bitrate-tenths :
    (v mult k : ℕ) (s : String)
    → IsUnit mult k s
    → Splits v mult k
    → v < 2 ^ 64
    → mult ≤ v
    → v % k ≡ 0
    → parse_bitrate (show_ℕ (v / mult) ⧺ ("." ⧺ (show_ℕ (v % mult / k) ⧺ s))) ≡ rate v
parse_bitrate-tenths v mult k s u p l h e =
    let n = v / mult in
    let b = v % mult / k in
    let same = p.tenths e in
    let text : "." ⧺ (show_ℕ b ⧺ s) ≡ String.◌∷◌ dot (String.◌∷◌ (digit b) s) =
      rw (show_ℕ-digit b p.one_digit) (point b s) in
    ap (λ x. parse_bitrate (show_ℕ n ⧺ x)) text
    ∙ (parse_bitrate-whole n (String.◌∷◌ dot (String.◌∷◌ (digit b) s)) refl
        ∙ (u.with_digit (show_ℕ n) b p.one_digit
            ∙ (scale-parsed (show_ℕ n) n mult (String.◌∷◌ (digit b) String.[])
                  (parse_uint-show_ℕ n p.quotient) p.fits p.bounded
                ∙ (add_fraction-digit (n * mult) b k mult p.one_digit u.tenth (p.positive h)
                      (rw same l)
                    ∙ ap rate same))))

parse_rest-dot :
    (ds ps s : String) (b : ℕ)
    → b < 10
    → span_digits s ≡ (String.[], s)
    → parse_rest ds (String.◌∷◌ dot (String.◌∷◌ (digit b) s))
      ≡ parse_suffix ds (String.◌∷◌ (digit b) String.[]) s
unfolding parse_rest
parse_rest-dot ds ps s b h e = rw (span_digits-digit b s h, e) refl

giga : IsUnit 1_000_000_000 100_000_000 "G"
unfolding parse_rest parse_suffix unit_of span_digits
giga = record {
  tenth = refl;
  no_digits = refl;
  plain = λ ds. refl;
  with_digit = λ ds b h. parse_rest-dot ds "" "G" b h refl;
}

mega : IsUnit 1_000_000 100_000 "M"
unfolding parse_rest parse_suffix unit_of span_digits
mega = record {
  tenth = refl;
  no_digits = refl;
  plain = λ ds. refl;
  with_digit = λ ds b h. parse_rest-dot ds "" "M" b h refl;
}

kilo : IsUnit 1_000 100 "K"
unfolding parse_rest parse_suffix unit_of span_digits
kilo = record {
  tenth = refl;
  no_digits = refl;
  plain = λ ds. refl;
  with_digit = λ ds b h. parse_rest-dot ds "" "K" b h refl;
}

ltb-false : (a b : ℕ) → b ≤ a → ltb a b ≡ false
ltb-false a b h = ground arith

giga_Splits : (v : ℕ) → v < 2 ^ 64 → Splits v 1_000_000_000 100_000_000
giga_Splits v l = record {
  quotient = omega arith;
  fits = ltb-false (max_u64 / 1_000_000_000) (v / 1_000_000_000) (omega arith);
  bounded = omega arith;
  one_digit = omega arith;
  whole = λ e. omega arith;
  positive = λ h. omega arith;
  tenths = λ e. omega arith;
}

mega_Splits : (v : ℕ) → v < 2 ^ 64 → Splits v 1_000_000 100_000
mega_Splits v l = record {
  quotient = omega arith;
  fits = ltb-false (max_u64 / 1_000_000) (v / 1_000_000) (omega arith);
  bounded = omega arith;
  one_digit = omega arith;
  whole = λ e. omega arith;
  positive = λ h. omega arith;
  tenths = λ e. omega arith;
}

kilo_Splits : (v : ℕ) → v < 2 ^ 64 → Splits v 1_000 100
kilo_Splits v l = record {
  quotient = omega arith;
  fits = ltb-false (max_u64 / 1_000) (v / 1_000) (omega arith);
  bounded = omega arith;
  one_digit = omega arith;
  whole = λ e. omega arith;
  positive = λ h. omega arith;
  tenths = λ e. omega arith;
}

-- A unit more at the front of the loop.
parse_bitrate-show_units :
    (v mult k : ℕ) (s : String) (units : List (ℕ × String))
    → IsUnit mult k s
    → Splits v mult k
    → 0 < v
    → v < 2 ^ 64
    → mult / 10 ≡ k
    → parse_bitrate (show_units v units) ≡ rate v
    → parse_bitrate (show_units v ((mult, s) ∷ units)) ≡ rate v
unfolding show_units
parse_bitrate-show_units v mult k s units u p h l t rest = elim (Bool-cases (v % mult == 0)) [
  | inl e ↦ rw e (parse_bitrate-plain v mult k s u p h (ground arith))
  | inr e ↦ elim (Bool-cases (leb mult v && v % k == 0)) [
    | inl d ↦
        rw (e, t, d) (parse_bitrate-tenths v mult k s u p l (ground (arith, d)) (ground (arith, d)))
    | inr d ↦ rw (e, t, d) rest
  ]
]

parse_bitrate-show_ℕ : (v : ℕ) → 0 < v → v < 2 ^ 64 → parse_bitrate (show_ℕ v) ≡ rate v
unfolding parse_rest parse_suffix unit_of
parse_bitrate-show_ℕ v h l =
    ap parse_bitrate (sym (append-nil (show_ℕ v)))
    ∙ (parse_bitrate-whole v String.[] refl
        ∙ (scale-parsed (show_ℕ v) v 1 String.[] (parse_uint-show_ℕ v l)
              (ltb-false (max_u64 / 1) v (omega arith)) (omega arith)
            ∙ (ap (λ n. add_fraction n String.[] 1) (omega arith) ∙ add_fraction-none v 1 h)))

-- A rate above 0 that fits 64 bits, printed and parsed again, is the same rate.
pub parse_bitrate-show_bitrate :
    (v : Bitrate) → 0 < v → v < 2 ^ 64 → parse_bitrate (show_bitrate v) ≡ rate v
unfolding show_bitrate show_units
parse_bitrate-show_bitrate v h l =
    let last = parse_bitrate-show_ℕ v h l in
    let k = parse_bitrate-show_units v 1_000 100 "K" [] kilo (kilo_Splits v l) h l refl last in
    let m =
      parse_bitrate-show_units v 1_000_000 100_000 "M" ((1_000, "K") ∷ []) mega (mega_Splits v l) h
        l refl k in
    let g =
      parse_bitrate-show_units v 1_000_000_000 100_000_000 "G"
        ((1_000_000, "M") ∷ (1_000, "K") ∷ []) giga (giga_Splits v l) h l refl m in
    let nonzero : (v == 0) ≡ false = ground arith in rw nonzero g
