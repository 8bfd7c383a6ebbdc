-- ===== src/Peer/Handshake/Establish.antt =====
-- internal/peer/session.go: establishCoordinator, the loop that accepts connections until a handshake
-- works or it gives up. What each Accept gives is an input; a cancellation is an Accept that fails.
use cablecheck.Base.{
  ℕ, suc, ◌+◌, ◌≤◌, ◌≡◌, ◌≢◌, refl, ap, sym, ◌∙◌, Bool, true, false, Option, List, [], ◌∷◌, ◌++◌,
  leb, if◌then◌else◌, arith,
}
use mathlib.Core.Bool.{true≢false}
use cablecheck.Base.Text.{String}
use cablecheck.Peer.Handshake.{
  HandshakeError, handshake_retryable, Network, Config, Incoming, Answer, got, failed, Wire,
  HandshakeResult, coordinator_handshake, begin, auth_failed,
}

abbrev pub max_auth_strikes : ℕ
max_auth_strikes = 3

abbrev pub max_handshake_retries : ℕ
max_handshake_retries = 2

-- A connection: from the wrong address, or what its handshake reads, writes and draws.
pub data Accepted : Type 0 where
  accept_fails wrong_address : Accepted
  caller : List Incoming → List Bool → Option String → Accepted

pub data Established : Type 0 where
  established : HandshakeResult → Wire → Established
  accept_error strikes_out retries_out : Established
  refused : HandshakeError → Established
  listening : Established

-- What a failed handshake leads to, from the counts of strikes and retries.
pub data Verdict : Type 0 where
  again : ℕ → ℕ → Verdict
  give_up : Established → Verdict

unfoldable pub after_failure : HandshakeError → ℕ → ℕ → Verdict
after_failure auth_failed strikes retries =
    if leb max_auth_strikes (suc strikes) then give_up strikes_out else again (suc strikes) retries
after_failure e strikes retries =
    if handshake_retryable e
    then (if leb max_handshake_retries (suc retries)
        then give_up retries_out
        else again strikes (suc retries))
    else give_up (refused e)

abbrev follow : (ℕ → ℕ → Established) → Verdict → Established
follow onward (again strikes retries) = onward strikes retries
follow onward (give_up outcome) = outcome

-- After a handshake the loop ends, or goes on with the counts.
unfoldable pub proceed : (ℕ → ℕ → Established) → ℕ → ℕ → Answer HandshakeResult × Wire → Established
proceed onward strikes retries (got res, w) = established res w
proceed onward strikes retries (failed e, w) = follow onward (after_failure e strikes retries)

module _ {A : Type 0} (net : Network A) where
  -- The accept loop; `listening` is where no further connection has come.
  unfoldable pub establish_coordinator : Config A → ℕ → ℕ → List Accepted → Established
  establish_coordinator cfg strikes retries [] = listening
  establish_coordinator cfg strikes retries (accept_fails ∷ rest) = accept_error
  establish_coordinator cfg strikes retries (wrong_address ∷ rest) =
      establish_coordinator cfg strikes retries rest
  establish_coordinator cfg strikes retries (caller incoming works random ∷ rest) =
      proceed (λ s r. establish_coordinator cfg s r rest) strikes retries
        (coordinator_handshake net cfg random (begin net cfg incoming works))

-- The connections that start a handshake.
abbrev pub callers : List Accepted → ℕ
callers [] = 0
callers (caller incoming works random ∷ rest) = suc (callers rest)
callers (accept_fails ∷ rest) = callers rest
callers (wrong_address ∷ rest) = callers rest

abbrev pub is_listening : Established → Bool
is_listening listening = true
is_listening _ = false

-- Every failed handshake that does not end the loop counts, and the counts stay below their bounds.
after_failure-counts :
    (e : HandshakeError) (strikes retries s r : ℕ)
    → strikes ≤ 2
    → retries ≤ 1
    → after_failure e strikes retries ≡ again s r
    → (s ≤ 2) × (r ≤ 1) × (s + r ≡ suc (strikes + retries))
unfolding after_failure
after_failure-counts e strikes retries s r hs hr h = ground arith

after_failure-ends :
    (e : HandshakeError) (strikes retries : ℕ) (o : Established)
    → after_failure e strikes retries ≡ give_up o
    → is_listening o ≡ false
unfolding after_failure
after_failure-ends e strikes retries o h = ground arith

follow_inv :
    (onward : ℕ → ℕ → Established) (v : Verdict)
    → follow onward v ≡ listening
    → ((o : Established) → v ≡ give_up o → is_listening o ≡ false)
    → (s : ℕ) × (r : ℕ) × (v ≡ again s r) × (onward s r ≡ listening)
follow_inv onward (again s r) h ends = (s, r, refl, h)
follow_inv onward (give_up o) h ends = absurd (true≢false (ap is_listening (sym h) ∙ ends o refl))

-- The loop goes on only after a failure that counts.
proceed-listening :
    (onward : ℕ → ℕ → Established) (strikes retries : ℕ) (r : Answer HandshakeResult × Wire)
    → proceed onward strikes retries r ≡ listening
    → (e : HandshakeError) × (s' : ℕ) × (r' : ℕ) × (after_failure e strikes retries ≡ again s' r')
      × (onward s' r' ≡ listening)
unfolding proceed
proceed-listening onward strikes retries (got res, w) h = cc
proceed-listening onward strikes retries (failed e, w) h =
    let (s, r, next, goes_on) =
      follow_inv onward (after_failure e strikes retries) h
        (after_failure-ends e strikes retries) in
    (e, s, r, next, goes_on)

-- A loop that still listens has failed at most three handshakes.
still_listening :
    {A : Type 0}
    → (net : Network A) (cfg : Config A) (strikes retries : ℕ) (xs : List Accepted) → strikes ≤ 2
    → retries ≤ 1
    → establish_coordinator net cfg strikes retries xs ≡ listening
    → callers xs + (strikes + retries) ≤ 3
unfolding establish_coordinator
still_listening net cfg strikes retries [] hs hr h = ground arith
still_listening net cfg strikes retries (accept_fails ∷ rest) hs hr h = cc
still_listening net cfg strikes retries (wrong_address ∷ rest) hs hr h =
    still_listening net cfg strikes retries rest hs hr h
still_listening net cfg strikes retries (caller incoming works random ∷ rest) hs hr h =
    let (e, s, r, next, goes_on) =
      proceed-listening (λ s r. establish_coordinator net cfg s r rest) strikes retries
        (coordinator_handshake net cfg random (begin net cfg incoming works)) h in
    let (hs', hr', counts) = after_failure-counts e strikes retries s r hs hr next in
    let below = still_listening net cfg s r rest hs' hr' goes_on in omega arith

-- A loop that goes on alike where it ends, ends alike.
follow-settled :
    (onward onward' : ℕ → ℕ → Established) (v : Verdict)
    → ((s r : ℕ) → onward s r ≢ listening → onward' s r ≡ onward s r)
    → follow onward v ≢ listening
    → follow onward' v ≡ follow onward v
follow-settled onward onward' (again s r) same h = same s r h
follow-settled onward onward' (give_up o) same h = refl

proceed-settled :
    (onward onward' : ℕ → ℕ → Established) (strikes retries : ℕ) (a : Answer HandshakeResult × Wire)
    → ((s r : ℕ) → onward s r ≢ listening → onward' s r ≡ onward s r)
    → proceed onward strikes retries a ≢ listening
    → proceed onward' strikes retries a ≡ proceed onward strikes retries a
unfolding proceed
proceed-settled onward onward' strikes retries (got res, w) same h = refl
proceed-settled onward onward' strikes retries (failed e, w) same h =
    follow-settled onward onward' (after_failure e strikes retries) same h

-- What comes after the end of the loop is not accepted.
settled :
    {A : Type 0}
    → (net : Network A) (cfg : Config A) (strikes retries : ℕ) (xs ys : List Accepted)
    → establish_coordinator net cfg strikes retries xs ≢ listening
    → establish_coordinator net cfg strikes retries (xs ++ ys)
      ≡ establish_coordinator net cfg strikes retries xs
unfolding establish_coordinator
settled net cfg strikes retries [] ys h = absurd (h refl)
settled net cfg strikes retries (accept_fails ∷ rest) ys h = refl
settled net cfg strikes retries (wrong_address ∷ rest) ys h =
    settled net cfg strikes retries rest ys h
settled net cfg strikes retries (caller incoming works random ∷ rest) ys h =
    proceed-settled (λ s r. establish_coordinator net cfg s r rest)
      (λ s r. establish_coordinator net cfg s r (rest ++ ys)) strikes retries
      (coordinator_handshake net cfg random (begin net cfg incoming works))
      (λ s r. settled net cfg s r rest ys) h

-- Among connections of which four start a handshake the accept loop of the coordinator ends, and it
-- takes no connection after them, whatever the handshakes read and however they fail.
pub establish_coordinator-ends :
    {A : Type 0}
    → (net : Network A) (cfg : Config A) (xs ys : List Accepted) → 4 ≤ callers xs
    → (establish_coordinator net cfg 0 0 xs ≢ listening)
      × (establish_coordinator net cfg 0 0 (xs ++ ys) ≡ establish_coordinator net cfg 0 0 xs)
establish_coordinator-ends net cfg xs ys h =
    let ends : establish_coordinator net cfg 0 0 xs ≢ listening = λ e.
      let below = still_listening net cfg 0 0 xs (omega arith) (omega arith) e in omega arith in
    (ends, settled net cfg 0 0 xs ys ends)
