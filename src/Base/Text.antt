-- ===== src/Base/Text.antt =====
-- Text as the source builds it: decimal numbers, joined lines, and whole-text comparison.
use Prim.Native.Nat.{ℕ, zero, suc, ◌/◌, ◌%◌}
use Prim.Native.Char.{Char}
use native.Mathlib.Omega.{arith}
use mathlib.Core.Path.{◌≡◌, refl}
use mathlib.Core.List.{List, [], ◌∷◌}
use cablecheck.Base.Tests.{◌==◌, if◌then◌else◌}
use cablecheck.Base.Int.{ℤ, pos, negsuc}
use Prim.Native.String.{◌++◌}
pub use Prim.Native.String.{String}
pub use text.Mathlib.TextLemmas.{cons-append, nil-append, append-nil}
pub use text.Mathlib.Text.{◌==◌ as str_eq}
pub use text.Mathlib.TextEquality.{eq_iff}
pub use text.Mathlib.TextPositions.{eq_refl}

-- Concatenation of texts.
infixr 64 ◌⧺◌
abbrev pub ◌⧺◌ : String → String → String
s ⧺ t = s ++ t

-- The code of the character 0 is 48.
abbrev pub digit : ℕ → Char
digit n =
    if n == 0
    then "0"
    else if n == 1
    then "1"
    else if n == 2
    then "2"
    else if n == 3
    then "3"
    else if n == 4
    then "4"
    else if n == 5
    then "5"
    else if n == 6
    then "6"
    else if n == 7
    then "7"
    else if n == 8
    then "8"
    else "9"

-- The digits of `n` in front of `acc`. A number has fewer digits than its own value plus one, so
-- the fuel of `show_ℕ` is enough.
unfoldable pub digits : ℕ → ℕ → String → String
digits zero n acc = acc
digits (suc fuel) n acc =
    let out = String.◌∷◌ (digit (n % 10)) acc in
    let rest = digits fuel (n / 10) out in if n / 10 == 0 then out else rest

-- `%d` of an unsigned number.
unfoldable pub show_ℕ : ℕ → String
unfolding digits
show_ℕ n = digits (suc n) n ""

-- `%d` of an `int`.
unfoldable pub show_ℤ : ℤ → String
unfolding show_ℕ
show_ℤ (pos n) = show_ℕ n
show_ℤ (negsuc n) = "-" ⧺ show_ℕ (suc n)

-- `strings.Join`.
unfoldable pub join : List String → String → String
join [] sep = ""
join (x ∷ []) sep = x
join (x ∷ y ∷ xs) sep = x ⧺ (sep ⧺ join (y ∷ xs) sep)

show_example : show_ℕ 1048576 ≡ "1048576"
unfolding show_ℕ
show_example = refl

join_example : join ("a" ∷ "b" ∷ []) "; " ≡ "a; b"
unfolding join
join_example = refl

pub str_eq_comm : (s t : String) → str_eq s t ≡ str_eq t s
str_eq_comm s t = ground (arith, eq_iff s t, eq_iff t s)
