-- ===== src/Peer/Ready/Stages.antt =====
-- internal/peer/ready.go: the situations of two joined sessions.
use mathlib.Core.Path.{subst}
use cablecheck.Base.{◌≡◌, refl, Bool, true, false, some, List, [], ◌∷◌, ◌++◌, ap, sym}
use cablecheck.Base.Int.{pos}
use cablecheck.Base.Text.{String}
use cablecheck.Peer.State.{
  State, waiting_for_local_start, waiting_for_peer_start, ready, transition, valid_transitions,
  require,
}
use cablecheck.Peer.Ready.{
  Frame, ready_frame, start_confirmation, CountdownStep, Session, start_countdown_ms, numbers,
  start_countdown, on_both_ready, send_local_ready, handle_peer_ready, handle_start_confirmation,
}
use cablecheck.Peer.Ready.System.{System, Action, start_one, start_two, to_one, to_two, step, steps}

-- What of a session the barrier does not decide.
pub record Rest : Type 0 where
  pub non_interactive : Bool
  pub own : String × List String
  pub changes : List (State × State)
  pub mode : String
  pub steps : List String
  pub plan_started : Bool

-- The state of a session by its two flags.
abbrev pub phase : Bool → Bool → State
phase false peer = waiting_for_local_start
phase true false = waiting_for_peer_start
phase true true = ready

abbrev pub session : Bool → Bool → Bool → List CountdownStep → Rest → Session
session coordinator local peer countdown r = record {
  coordinator = coordinator;
  non_interactive = r.non_interactive;
  own = r.own;
  machine = record { cur = phase local peer; changes = r.changes };
  local_ready = local;
  peer_ready = peer;
  mode = r.mode;
  steps = r.steps;
  countdown = countdown;
  plan_started = r.plan_started;
}

abbrev pub full : List CountdownStep
full =
    record { at_ms = pos 500; label = 3 }
    ∷ record { at_ms = pos 1_500; label = 2 }
    ∷ record { at_ms = pos 2_500; label = 1 }
    ∷ record { at_ms = pos 3_500; label = 0 }
    ∷ []

abbrev pub confirms : Rest → Frame
confirms r =
    start_confirmation
      (some (record { start_in_ms = start_countdown_ms; mode = r.own.0; steps = r.own.1 }))

-- The situations of the two sessions: who was started, what arrived, and what is on its way.
pub data Stage : Type 0 where
  idle one_sent one_heard two_sent two_heard both_sent two_ready one_ready both_ready started :
      Stage

abbrev pub at : Stage → Rest → Rest → System
at idle r q = record {
  one = session true false false [] r;
  two = session false false false [] q;
  forth = [];
  back = [];
}
at one_sent r q = record {
  one = session true true false [] r;
  two = session false false false [] q;
  forth = ready_frame r.non_interactive ∷ [];
  back = [];
}
at one_heard r q = record {
  one = session true true false [] r;
  two = session false false true [] q;
  forth = [];
  back = [];
}
at two_sent r q = record {
  one = session true false false [] r;
  two = session false true false [] q;
  forth = [];
  back = ready_frame q.non_interactive ∷ [];
}
at two_heard r q = record {
  one = session true false true [] r;
  two = session false true false [] q;
  forth = [];
  back = [];
}
at both_sent r q = record {
  one = session true true false [] r;
  two = session false true false [] q;
  forth = ready_frame r.non_interactive ∷ [];
  back = ready_frame q.non_interactive ∷ [];
}
at two_ready r q = record {
  one = session true true false [] r;
  two = session false true true [] q;
  forth = [];
  back = ready_frame q.non_interactive ∷ [];
}
at one_ready r q = record {
  one = session true true true full r;
  two = session false true false [] q;
  forth = ready_frame r.non_interactive ∷ confirms r ∷ [];
  back = [];
}
at both_ready r q = record {
  one = session true true true full r;
  two = session false true true [] q;
  forth = confirms r ∷ [];
  back = [];
}
at started r q = record {
  one = session true true true full r;
  two = session false true true full (record q { mode = r.own.0; steps = r.own.1 });
  forth = [];
  back = [];
}

-- The system is in one of these situations.
abbrev pub IsKnown : System → Type 0
IsKnown x = (stage : Stage) × (r : Rest) × (q : Rest) × (x ≡ at stage r q)

-- One more entry in the list of transitions.
abbrev moved : State → State → Rest → Rest
moved a b r = record r { changes = r.changes ++ (a, b) ∷ [] }

step_start_one-IsKnown : (stage : Stage) (r q : Rest) → IsKnown (step start_one (at stage r q))
unfolding step send_local_ready handle_peer_ready handle_start_confirmation on_both_ready
    start_countdown numbers transition valid_transitions require
step_start_one-IsKnown idle r q =
    (one_sent, (moved waiting_for_local_start waiting_for_peer_start r), q, refl)
step_start_one-IsKnown one_sent r q = (one_sent, r, q, refl)
step_start_one-IsKnown one_heard r q = (one_heard, r, q, refl)
step_start_one-IsKnown two_sent r q =
    (both_sent, (moved waiting_for_local_start waiting_for_peer_start r), q, refl)
step_start_one-IsKnown two_heard r q = (one_ready, (moved waiting_for_local_start ready r), q, refl)
step_start_one-IsKnown both_sent r q = (both_sent, r, q, refl)
step_start_one-IsKnown two_ready r q = (two_ready, r, q, refl)
step_start_one-IsKnown one_ready r q = (one_ready, r, q, refl)
step_start_one-IsKnown both_ready r q = (both_ready, r, q, refl)
step_start_one-IsKnown started r q = (started, r, q, refl)

step_start_two-IsKnown : (stage : Stage) (r q : Rest) → IsKnown (step start_two (at stage r q))
unfolding step send_local_ready handle_peer_ready handle_start_confirmation on_both_ready
    start_countdown numbers transition valid_transitions require
step_start_two-IsKnown idle r q =
    (two_sent, r, (moved waiting_for_local_start waiting_for_peer_start q), refl)
step_start_two-IsKnown one_sent r q =
    (both_sent, r, (moved waiting_for_local_start waiting_for_peer_start q), refl)
step_start_two-IsKnown one_heard r q = (two_ready, r, (moved waiting_for_local_start ready q), refl)
step_start_two-IsKnown two_sent r q = (two_sent, r, q, refl)
step_start_two-IsKnown two_heard r q = (two_heard, r, q, refl)
step_start_two-IsKnown both_sent r q = (both_sent, r, q, refl)
step_start_two-IsKnown two_ready r q = (two_ready, r, q, refl)
step_start_two-IsKnown one_ready r q = (one_ready, r, q, refl)
step_start_two-IsKnown both_ready r q = (both_ready, r, q, refl)
step_start_two-IsKnown started r q = (started, r, q, refl)

step_to_one-IsKnown : (stage : Stage) (r q : Rest) → IsKnown (step to_one (at stage r q))
unfolding step send_local_ready handle_peer_ready handle_start_confirmation on_both_ready
    start_countdown numbers transition valid_transitions require
step_to_one-IsKnown idle r q = (idle, r, q, refl)
step_to_one-IsKnown one_sent r q = (one_sent, r, q, refl)
step_to_one-IsKnown one_heard r q = (one_heard, r, q, refl)
step_to_one-IsKnown two_sent r q = (two_heard, r, q, refl)
step_to_one-IsKnown two_heard r q = (two_heard, r, q, refl)
step_to_one-IsKnown both_sent r q = (one_ready, (moved waiting_for_peer_start ready r), q, refl)
step_to_one-IsKnown two_ready r q = (both_ready, (moved waiting_for_peer_start ready r), q, refl)
step_to_one-IsKnown one_ready r q = (one_ready, r, q, refl)
step_to_one-IsKnown both_ready r q = (both_ready, r, q, refl)
step_to_one-IsKnown started r q = (started, r, q, refl)

step_to_two-IsKnown : (stage : Stage) (r q : Rest) → IsKnown (step to_two (at stage r q))
unfolding step send_local_ready handle_peer_ready handle_start_confirmation on_both_ready
    start_countdown numbers transition valid_transitions require
step_to_two-IsKnown idle r q = (idle, r, q, refl)
step_to_two-IsKnown one_sent r q = (one_heard, r, q, refl)
step_to_two-IsKnown one_heard r q = (one_heard, r, q, refl)
step_to_two-IsKnown two_sent r q = (two_sent, r, q, refl)
step_to_two-IsKnown two_heard r q = (two_heard, r, q, refl)
step_to_two-IsKnown both_sent r q = (two_ready, r, (moved waiting_for_peer_start ready q), refl)
step_to_two-IsKnown two_ready r q = (two_ready, r, q, refl)
step_to_two-IsKnown one_ready r q = (both_ready, r, (moved waiting_for_peer_start ready q), refl)
step_to_two-IsKnown both_ready r q = (started, r, q, refl)
step_to_two-IsKnown started r q = (started, r, q, refl)

step-IsKnown : (a : Action) (x : System) → IsKnown x → IsKnown (step a x)
step-IsKnown start_one x (stage, r, q, e) =
    subst IsKnown (ap (step start_one) (sym e)) (step_start_one-IsKnown stage r q)
step-IsKnown start_two x (stage, r, q, e) =
    subst IsKnown (ap (step start_two) (sym e)) (step_start_two-IsKnown stage r q)
step-IsKnown to_one x (stage, r, q, e) =
    subst IsKnown (ap (step to_one) (sym e)) (step_to_one-IsKnown stage r q)
step-IsKnown to_two x (stage, r, q, e) =
    subst IsKnown (ap (step to_two) (sym e)) (step_to_two-IsKnown stage r q)

pub steps-IsKnown : (actions : List Action) (x : System) → IsKnown x → IsKnown (steps actions x)
steps-IsKnown [] x h = h
steps-IsKnown (a ∷ actions) x h = steps-IsKnown actions (step a x) (step-IsKnown a x h)
