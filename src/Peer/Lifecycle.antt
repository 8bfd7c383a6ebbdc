-- ===== src/Peer/Lifecycle.antt =====
-- The life of a session under the machine of internal/peer/state.go.
use cablecheck.Base.{
  ℕ, ◌≤◌, ◌<◌, ◌≡◌, ◌⊎◌, ◌↔◌, Bool, true, false, none, some, List, [], ◌∷◌, ◌++◌, any, length,
  length-append, arith, ◌||◌, ◌∙◌, any-append, All, inl, inr, Bool-cases,
}
use cablecheck.Peer.State.{
  State, initializing, preflight, listening, connecting, handshake, waiting_for_local_start,
  waiting_for_peer_start, ready, testing, generating_report, completed, aborted, failed, state_eq,
  valid_transitions, is_terminal, invalid_transition, StateMachine, new_state_machine, transition,
  drive,
}

-- How far a state is along the life of a session.
abbrev pub stage : State → ℕ
stage initializing = 0
stage preflight = 1
stage listening = 2
stage connecting = 2
stage handshake = 3
stage waiting_for_local_start = 4
stage waiting_for_peer_start = 5
stage ready = 6
stage testing = 7
stage generating_report = 8
stage _ = 9

-- An accepted request changes to the state asked for, which is later in the life of the session, and
-- records the change; a refused one names both states and leaves the machine as it is. Nothing is
-- accepted in a terminal state.
pub transition_lem :
    (m : StateMachine) (to : State)
    → (((transition m to).1 ≡ none)
        × ((transition m to).0.cur ≡ to)
        × ((transition m to).0.changes ≡ m.changes ++ (m.cur, to) ∷ [])
        × (is_terminal m.cur ≡ false)
        × (stage m.cur < stage to))
      ⊎ ((transition m to).1 ≡ some (invalid_transition m.cur to)) × ((transition m to).0 ≡ m)
unfolding transition valid_transitions is_terminal
transition_lem m to = ground arith

-- An abort is accepted exactly where the state is not terminal, and so is a failure.
pub transition-none_iff :
    (m : StateMachine)
    → (((transition m aborted).1 ≡ none) ↔ (is_terminal m.cur ≡ false))
      × (((transition m failed).1 ≡ none) ↔ (is_terminal m.cur ≡ false))
unfolding transition valid_transitions is_terminal
transition-none_iff m = (ground arith, ground arith)

-- The state was entered by one of the changes.
abbrev pub visited : List (State × State) → State → Bool
visited changes s = any (λ c. state_eq c.1 s) changes

abbrev to_handshake : List State
to_handshake = handshake ∷ preflight ∷ []

abbrev to_local_start : List State
to_local_start = waiting_for_local_start ∷ to_handshake

abbrev to_testing : List State
to_testing = testing ∷ ready ∷ to_local_start

-- The states that a session in this state must have entered.
abbrev pub passed : State → List State
passed initializing = []
passed preflight = preflight ∷ []
passed listening = listening ∷ preflight ∷ []
passed connecting = connecting ∷ preflight ∷ []
passed handshake = to_handshake
passed waiting_for_local_start = to_local_start
passed waiting_for_peer_start = waiting_for_peer_start ∷ to_local_start
passed ready = ready ∷ to_local_start
passed testing = to_testing
passed generating_report = generating_report ∷ to_testing
passed completed = completed ∷ generating_report ∷ to_testing
passed aborted = aborted ∷ []
passed failed = failed ∷ []

abbrev AllVisited : List (State × State) → List State → Type 0
AllVisited changes ss = All (λ s. visited changes s ≡ true) ss

visited-snoc :
    (changes : List (State × State)) (s to x : State)
    → visited (changes ++ (s, to) ∷ []) x ≡ (visited changes x || state_eq to x)
visited-snoc changes s to x = any-append (λ c. state_eq c.1 x) changes ((s, to) ∷ []) ∙ ground arith

-- A state that was asked for and one that was entered before are both entered after.
AllVisited-snoc :
    (changes : List (State × State)) (s to : State) (xs : List State)
    → AllVisited changes xs
    → AllVisited (changes ++ (s, to) ∷ []) xs
AllVisited-snoc changes s to [] h = tt
AllVisited-snoc changes s to (x ∷ xs) (h, hs) =
    (rw (visited-snoc changes s to x, h), AllVisited-snoc changes s to xs hs)

abbrev rest : List State → List State
rest [] = []
rest (_ ∷ xs) = xs

passed-advance :
    (s to : State)
    → any (λ a. state_eq a to) (valid_transitions s) ≡ true
    → (passed to ≡ to ∷ passed s) ⊎ (passed to ≡ to ∷ rest (passed s)) ⊎ (passed to ≡ to ∷ [])
unfolding valid_transitions
passed-advance s to e = ground arith

AllVisited-rest :
    (changes : List (State × State)) (xs : List State)
    → AllVisited changes xs
    → AllVisited changes (rest xs)
AllVisited-rest changes [] h = tt
AllVisited-rest changes (x ∷ xs) (h, hs) = hs

state_eq_refl : (s : State) → state_eq s s ≡ true
state_eq_refl s = ground arith

-- Entering a state keeps the list of what must have been entered.
AllVisited-advance :
    (changes : List (State × State)) (s to : State)
    → any (λ a. state_eq a to) (valid_transitions s) ≡ true
    → AllVisited changes (passed s)
    → AllVisited (changes ++ (s, to) ∷ []) (passed to)
AllVisited-advance changes s to e h =
    let new : visited (changes ++ (s, to) ∷ []) to ≡ true =
      visited-snoc changes s to to ∙ ground (arith, state_eq_refl to) in
    let keep = AllVisited-snoc changes s to in
    elim (passed-advance s to e) [
      | inl p ↦ rw p (new, keep (passed s) h)
      | inr (inl p) ↦ rw p (new, keep (rest (passed s)) (AllVisited-rest changes (passed s) h))
      | inr (inr p) ↦ rw p (new, tt)
    ]

-- What holds of every session that starts in `initializing`.
pub record IsOrderly (m : StateMachine) : Type 0 where
  pub few_changes : length m.changes ≤ stage m.cur
  pub all_passed : All (λ s. visited m.changes s ≡ true) (passed m.cur)

stage-advance :
    (s to : State) → any (λ a. state_eq a to) (valid_transitions s) ≡ true → stage s < stage to
unfolding valid_transitions
stage-advance s to e = ground arith

transition-IsOrderly : (m : StateMachine) (to : State) → IsOrderly m → IsOrderly (transition m to).0
unfolding transition
transition-IsOrderly m to h =
    elim (Bool-cases (any (λ a. state_eq a to) (valid_transitions m.cur))) [
      | inl e ↦ rw e (record {
        few_changes =
            ground (arith, stage-advance m.cur to, length-append m.changes ((m.cur, to) ∷ []));
        all_passed = AllVisited-advance m.changes m.cur to e h.all_passed;
      })
      | inr e ↦ rw e h
    ]

drive-IsOrderly' : (m : StateMachine) (reqs : List State) → IsOrderly m → IsOrderly (drive m reqs)
unfolding drive
drive-IsOrderly' m [] h = h
drive-IsOrderly' m (to ∷ reqs) h =
    drive-IsOrderly' (transition m to).0 reqs (transition-IsOrderly m to h)

-- Whatever requests a session gets, in any order: from `initializing` it has changed state no more
-- often than the stage it has come to, and it has entered every state that `passed` lists for the
-- state it is in.
pub drive-IsOrderly : (reqs : List State) → IsOrderly (drive (new_state_machine initializing) reqs)
drive-IsOrderly reqs =
    drive-IsOrderly' (new_state_machine initializing) reqs
      (record { few_changes = omega arith; all_passed = tt })
