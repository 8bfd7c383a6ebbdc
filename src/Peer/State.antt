-- ===== src/Peer/State.antt =====
-- internal/peer/state.go: the session states, the transition table and the guarded machine. The
-- mutex is not modelled: each method is one step. The `onChange` hook only logs, so the machine
-- keeps the list of the calls made to it.
use cablecheck.Base.{
  ℕ, Bool, true, false, Option, none, some, List, [], ◌∷◌, ◌++◌, any, ◌==◌, if◌then◌else◌,
}

pub data State : Type 0 where
  initializing preflight listening connecting handshake waiting_for_local_start : State
  waiting_for_peer_start ready testing generating_report completed aborted failed : State

abbrev pub state_code : State → ℕ
state_code initializing = 0
state_code preflight = 1
state_code listening = 2
state_code connecting = 3
state_code handshake = 4
state_code waiting_for_local_start = 5
state_code waiting_for_peer_start = 6
state_code ready = 7
state_code testing = 8
state_code generating_report = 9
state_code completed = 10
state_code aborted = 11
state_code failed = 12

abbrev pub state_eq : State → State → Bool
state_eq a b = state_code a == state_code b

-- The authoritative table.
unfoldable pub valid_transitions : State → List State
valid_transitions initializing = preflight ∷ aborted ∷ failed ∷ []
valid_transitions preflight = listening ∷ connecting ∷ failed ∷ aborted ∷ []
valid_transitions listening = handshake ∷ aborted ∷ failed ∷ []
valid_transitions connecting = handshake ∷ aborted ∷ failed ∷ []
valid_transitions handshake = waiting_for_local_start ∷ aborted ∷ failed ∷ []
valid_transitions waiting_for_local_start = waiting_for_peer_start ∷ ready ∷ aborted ∷ failed ∷ []
valid_transitions waiting_for_peer_start = ready ∷ aborted ∷ failed ∷ []
valid_transitions ready = testing ∷ aborted ∷ failed ∷ []
valid_transitions testing = generating_report ∷ aborted ∷ failed ∷ []
valid_transitions generating_report = completed ∷ aborted ∷ failed ∷ []
valid_transitions completed = []
valid_transitions aborted = []
valid_transitions failed = []

unfoldable pub is_terminal : State → Bool
unfolding valid_transitions
is_terminal s = elim (valid_transitions s) [ [] ↦ true | _ ↦ false ]

pub data StateError : Type 0 where
  -- ErrInvalidTransition with From and To
  invalid_transition : State → State → StateError
  -- ErrWrongState with Cur and Want
  wrong_state : State → List State → StateError

pub record StateMachine : Type 0 where
  pub cur : State
  -- the calls of `onChange`, oldest first
  pub changes : List (State × State)

abbrev pub new_state_machine : State → StateMachine
new_state_machine initial = record { cur = initial; changes = [] }

unfoldable pub transition : StateMachine → State → StateMachine × Option StateError
transition m to =
    if any (λ allowed. state_eq allowed to) (valid_transitions m.cur)
    then (record { cur = to; changes = m.changes ++ (m.cur, to) ∷ [] }, none)
    else (m, some (invalid_transition m.cur to))

unfoldable pub require : StateMachine → List State → Option StateError
require m states =
    if any (λ s. state_eq m.cur s) states then none else some (wrong_state m.cur states)

-- A sequence of transition requests; refused ones leave the machine as it is.
unfoldable pub drive : StateMachine → List State → StateMachine
drive m [] = m
drive m (to ∷ rest) = drive (transition m to).0 rest
