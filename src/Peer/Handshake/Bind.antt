-- ===== src/Peer/Handshake/Bind.antt =====
-- internal/peer/handshake.go: the actions of the handshake one after another.
use cablecheck.Base.{◌≡◌, refl, ap, Bool, true, false, not, if◌then◌else◌}
use cablecheck.Base.Text.{String}
use cablecheck.Peer.Handshake.{
  HandshakeError, Answer, got, failed, Wire, Action, ◌>>=◌, abort_with, send, give, fail,
}

module _ {B C : Type 0} where
  abbrev resume : (B → Action C) → Answer B × Wire → Answer C × Wire
  resume onward (a, w) = elim a [ failed e ↦ (failed e, w) | got b ↦ onward b w ]

  -- An action that gives a value goes on with it.
  pub bind-got :
      (m : Action B) (onward : B → Action C) (w w' : Wire) (b : B)
      → m w ≡ (got b, w')
      → (m >>= onward) w ≡ onward b w'
  bind-got m onward w w' b h = ap (resume onward) h

  resume_inv :
      (onward : B → Action C) (r : Answer B × Wire) (c : C) (w2 : Wire)
      → resume onward r ≡ (got c, w2)
      → (b : B) × (w1 : Wire) × (r ≡ (got b, w1)) × (onward b w1 ≡ (got c, w2))
  resume_inv onward (got b, w1) c w2 h = (b, w1, refl, h)
  resume_inv onward (failed e, w1) c w2 h = cc

  -- What succeeds has first succeeded in its first part, and then in the rest.
  pub bind_inv :
      (m : Action B) (onward : B → Action C) (w : Wire) (c : C) (w2 : Wire)
      → (m >>= onward) w ≡ (got c, w2)
      → (b : B) × (w1 : Wire) × (m w ≡ (got b, w1)) × (onward b w1 ≡ (got c, w2))
  bind_inv m onward w c w2 h = resume_inv onward (m w) c w2 h

-- An abort never succeeds.
pub abort_with-fails :
    {B : Type 0}
    → (test_id reason detail : String) (e : HandshakeError) (w : Wire) (b : B) (w2 : Wire)
    → abort_with test_id reason detail e w ≡ (got b, w2)
    → ⊥
unfolding abort_with
abort_with-fails test_id reason detail e w b w2 h =
    let (sent, w1, first, rest) = bind_inv (send test_id "" _) (λ _. fail e) w b w2 h in cc

-- What goes on behind a test has passed it: a test whose failure is an abort, and a test for an abort.
module _ (test_id reason detail : String) (e : HandshakeError) where
  pub unless_inv :
      {B : Type 0} (test : Bool) (m : Action B) (w : Wire) (b : B) (w2 : Wire)
      → (if not test then abort_with test_id reason detail e else m) w ≡ (got b, w2)
      → (test ≡ true) × (m w ≡ (got b, w2))
  unless_inv true m w b w2 h = (refl, h)
  unless_inv false m w b w2 h = absurd (abort_with-fails test_id reason detail e w b w2 h)

  pub require_inv :
      (test : Bool) (w w2 : Wire) (b : Bool)
      → (if test then give true else abort_with test_id reason detail e) w ≡ (got b, w2)
      → (test ≡ true) × (w ≡ w2)
  require_inv true w w2 b h = (refl, ap (λ r. r.1) h)
  require_inv false w w2 b h = absurd (abort_with-fails test_id reason detail e w b w2 h)
