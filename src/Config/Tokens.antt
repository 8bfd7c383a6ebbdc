-- ===== src/Config/Tokens.antt =====
-- internal/config/validate.go: the token that one peer generates, typed in at the other.
use Prim.Native.Char.{Char, code}
use cablecheck.Base.{
  ℕ, zero, suc, ◌+◌, ◌*◌, ◌-◌, ◌/◌, ◌%◌, ◌<◌, ◌≤◌, ◌≡◌, refl, ap, ◌∙◌, inl, inr, true, false,
  Option, some, ◌==◌, arith, Bool-cases,
}
use cablecheck.Base.Text.{String, digit, digits, show_ℕ}
use cablecheck.Protocol.MessageId.{zeros, size}
use cablecheck.Protocol.MessageId.RoundTrip.{digit-code}
use cablecheck.Config.{Role, pc1, pc2}
use cablecheck.Config.Resolve.{valid, byte_length, is_printable, pad6, resolve_token}
use cablecheck.Config.Sound.{IsToken}

-- A text of printable characters of one byte each.
abbrev IsPlain : String → Type 0
IsPlain s = (is_printable s ≡ true) × (byte_length s ≡ size s)

IsPlain-cons :
    (c : Char) (s : String) → 33 ≤ code c → code c ≤ 126 → IsPlain s → IsPlain (String.◌∷◌ c s)
unfolding is_printable byte_length
IsPlain-cons c s l h (p, q) = (ground arith, ground arith)

IsPlain-digit : (d : ℕ) (s : String) → d < 10 → IsPlain s → IsPlain (String.◌∷◌ (digit d) s)
IsPlain-digit d s h p =
    IsPlain-cons (digit d) s (rw (digit-code d h) (omega arith)) (rw (digit-code d h) (omega arith))
      p

digits-IsPlain : (fuel n : ℕ) (acc : String) → IsPlain acc → IsPlain (digits fuel n acc)
unfolding digits
digits-IsPlain zero n acc h = h
digits-IsPlain (suc fuel) n acc h =
    let out = IsPlain-digit (n % 10) acc (omega arith) h in
    elim (Bool-cases (n / 10 == 0)) [
      | inl e ↦ rw e out
      | inr e ↦ rw e (digits-IsPlain fuel (n / 10) (String.◌∷◌ (digit (n % 10)) acc) out)
    ]

zeros-IsPlain : (k : ℕ) (s : String) → IsPlain s → IsPlain (zeros k s)
unfolding zeros
zeros-IsPlain zero s h = h
zeros-IsPlain (suc k) s h = IsPlain-digit 0 (zeros k s) (omega arith) (zeros-IsPlain k s h)

size-zeros : (k : ℕ) (s : String) → size (zeros k s) ≡ k + size s
unfolding zeros
size-zeros zero s = omega arith
size-zeros (suc k) s = ap suc (size-zeros k s) ∙ omega arith

-- The first number with more digits than k plus one.
abbrev limit : ℕ → ℕ
limit zero = 10
limit (suc k) = 10 * limit k

size-digits :
    (fuel n k : ℕ) (acc : String) → n < limit k → size (digits fuel n acc) ≤ suc (k + size acc)
unfolding digits
size-digits zero n k acc h = omega arith
size-digits (suc fuel) n zero acc h =
    let small : (n / 10 == 0) ≡ true = ground arith in rw small (omega arith)
size-digits (suc fuel) n (suc k) acc h =
    let later = size-digits fuel (n / 10) k (String.◌∷◌ (digit (n % 10)) acc) (omega arith) in
    elim (Bool-cases (n / 10 == 0)) [
      | inl e ↦ rw e (omega arith)
      | inr e ↦ rw e (omega (arith, later))
    ]

size-show_ℕ : (n : ℕ) → n < 1_000_000 → size (show_ℕ n) ≤ 6
unfolding show_ℕ
size-show_ℕ n h = size-digits (suc n) n 5 "" h

size-pad6 : (n : ℕ) → n < 1_000_000 → size (pad6 n) ≡ 6
unfolding pad6
size-pad6 n h =
    let few = size-show_ℕ n h in size-zeros (6 - size (show_ℕ n)) (show_ℕ n) ∙ omega (arith, few)

pad6-IsPlain : (n : ℕ) → IsPlain (pad6 n)
unfolding pad6 show_ℕ is_printable byte_length
pad6-IsPlain n =
    zeros-IsPlain (6 - size (show_ℕ n)) (show_ℕ n) (digits-IsPlain (suc n) n "" (refl, refl))

pad6-IsToken : (n : ℕ) → n < 1_000_000 → IsToken (pad6 n)
pad6-IsToken n h =
    let (p, q) = pad6-IsPlain n in
    let six = q ∙ size-pad6 n h in
    record { long_enough = omega (arith, six); short_enough = omega (arith, six); printable = p }

resolve_token-IsToken :
    (role : Role) (random : Option ℕ) (s : String)
    → IsToken s
    → resolve_token role random s ≡ valid (s, false)
unfolding resolve_token byte_length
resolve_token-IsToken role random String.[] h = absurd (ground (arith, h.long_enough))
resolve_token-IsToken pc1 random (String.◌∷◌ c s) h =
    ground (arith, h.long_enough, h.short_enough, h.printable)
resolve_token-IsToken pc2 random (String.◌∷◌ c s) h =
    ground (arith, h.long_enough, h.short_enough, h.printable)

-- A token that PC1 generates from a random number below 1000000 is accepted, unchanged and as a token
-- that was given, by PC2, whatever its own random source.
pub resolve_token-resolve_token :
    (n : ℕ) (random : Option ℕ) (t : String)
    → n < 1_000_000
    → resolve_token pc1 (some n) "" ≡ valid (t, true)
    → resolve_token pc2 random t ≡ valid (t, false)
unfolding resolve_token
resolve_token-resolve_token n random t h e =
    let same : pad6 n ≡ t = ground arith in
    rw (← same) (resolve_token-IsToken pc2 random (pad6 n) (pad6-IsToken n h))
