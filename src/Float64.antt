-- ===== src/Float64.antt =====
-- Go's float64, its math functions and the fmt verbs that print it: a parameter of the model. The
-- code computes with these operations and never looks inside a value, so a type with an instance
-- stands for float64. `x > y` is `lt y x`, which is false at NaN on both sides, as in Go.
use cablecheck.Base.{ℕ, Bool, String}
use cablecheck.Base.Int.{ℤ}

pub record Float64 (F : Type 0) : Type 0 where
  -- the literal or constant n / d
  pub of_ratio : ℕ → ℕ → F
  pub of_ℤ : ℤ → F
  pub lt : F → F → Bool
  pub le : F → F → Bool
  pub eq : F → F → Bool
  pub add : F → F → F
  pub sub : F → F → F
  pub mul : F → F → F
  pub div : F → F → F
  pub abs : F → F
  -- math.Min, math.Max and the builtin max
  pub fmin : F → F → F
  pub fmax : F → F → F
  -- math.IsInf(x, 0)
  pub is_inf : F → Bool
  -- uint64(x) and int64(x)
  pub to_u64 : F → ℕ
  pub to_int : F → ℤ
  -- the seconds of a time.Duration in nanoseconds
  pub seconds : ℤ → F
  -- int(math.Round(x))
  pub round : F → ℤ
  -- %.nf
  pub show_fixed : ℕ → F → String
  -- %g
  pub show_g : F → String
  -- %s of a time.Duration in nanoseconds, and %q of a string
  pub show_duration : ℤ → String
  pub show_quoted : String → String

module _ {F : Type 0} ⦃fl : Float64 F⦄ where
  -- float64(n) of an unsigned number.
  abbrev pub of_ℕ : ℕ → F
  of_ℕ n = fl.of_ratio n 1
