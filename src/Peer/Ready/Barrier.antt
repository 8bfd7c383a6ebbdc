-- ===== src/Peer/Ready/Barrier.antt =====
-- internal/peer/ready.go: two joined sessions, from the wait for their operators to the test.
use mathlib.Core.Path.{subst}
use cablecheck.Base.{◌≡◌, refl, Bool, true, not, ◌&&◌, ◌||◌, List, [], ◌∷◌, is_empty, ap, sym, ◌∙◌}
use cablecheck.Peer.State.{ready, testing, state_eq, transition, valid_transitions, require}
use cablecheck.Peer.Ready.{
  Session, numbers, start_countdown, on_both_ready, send_local_ready, handle_peer_ready,
  handle_start_confirmation, on_countdown_tick,
}
use cablecheck.Peer.Ready.System.{
  System, Action, start_one, start_two, to_one, to_two, step, steps, ticks,
}
use cablecheck.Peer.Ready.Stages.{
  Rest, full, Stage, idle, one_sent, one_heard, two_sent, two_heard, both_sent, two_ready,
  one_ready, both_ready, started, at, steps-IsKnown,
}

-- The session is in the state ready, and its countdown runs.
abbrev pub is_ready : Session → Bool
is_ready s = state_eq s.machine.cur ready

abbrev pub counts : Session → Bool
counts s = not (is_empty s.countdown)

-- Both sides wait for their operators, with nothing on its way.
abbrev pub waiting : Rest → Rest → System
waiting r q = at idle r q

-- Both sides count down the same time, on the coordinator's mode and steps, to a test whose plan the
-- coordinator starts.
pub record IsStarted (x : System) : Type 0 where
  pub one_ready : is_ready x.one ≡ true
  pub two_ready : is_ready x.two ≡ true
  pub one_counts : x.one.countdown ≡ full
  pub two_counts : x.two.countdown ≡ full
  pub same_mode : x.two.mode ≡ x.one.own.0
  pub same_steps : x.two.steps ≡ x.one.own.1
  pub nothing_forth : x.forth ≡ []
  pub nothing_back : x.back ≡ []
  pub one_tests : state_eq (ticks 4 x.one).machine.cur testing ≡ true
  pub two_tests : state_eq (ticks 4 x.two).machine.cur testing ≡ true
  pub plan : (ticks 4 x.one).plan_started ≡ true
  pub no_plan : (ticks 4 x.two).plan_started ≡ x.two.plan_started

abbrev pub to_the_end : List Action
to_the_end = start_one ∷ start_two ∷ to_one ∷ to_two ∷ to_two ∷ []

-- No side counts down that is not ready, and the worker does not count down before the coordinator.
abbrev pub is_safe : System → Bool
is_safe x =
    (not (counts x.one) || is_ready x.one)
    && (not (counts x.two) || (is_ready x.two && (is_ready x.one && counts x.one)))

at_safe : (stage : Stage) (r q : Rest) → is_safe (at stage r q) ≡ true
at_safe idle r q = refl
at_safe one_sent r q = refl
at_safe one_heard r q = refl
at_safe two_sent r q = refl
at_safe two_heard r q = refl
at_safe both_sent r q = refl
at_safe two_ready r q = refl
at_safe one_ready r q = refl
at_safe both_ready r q = refl
at_safe started r q = refl

at-IsStarted : (stage : Stage) (r q : Rest) → IsStarted (steps to_the_end (at stage r q))
unfolding on_countdown_tick step send_local_ready handle_peer_ready handle_start_confirmation
    on_both_ready start_countdown numbers transition valid_transitions require
at-IsStarted idle r q = record {
  one_ready = refl;
  two_ready = refl;
  one_counts = refl;
  two_counts = refl;
  same_mode = refl;
  same_steps = refl;
  nothing_forth = refl;
  nothing_back = refl;
  one_tests = refl;
  two_tests = refl;
  plan = refl;
  no_plan = refl;
}
at-IsStarted one_sent r q = record {
  one_ready = refl;
  two_ready = refl;
  one_counts = refl;
  two_counts = refl;
  same_mode = refl;
  same_steps = refl;
  nothing_forth = refl;
  nothing_back = refl;
  one_tests = refl;
  two_tests = refl;
  plan = refl;
  no_plan = refl;
}
at-IsStarted one_heard r q = record {
  one_ready = refl;
  two_ready = refl;
  one_counts = refl;
  two_counts = refl;
  same_mode = refl;
  same_steps = refl;
  nothing_forth = refl;
  nothing_back = refl;
  one_tests = refl;
  two_tests = refl;
  plan = refl;
  no_plan = refl;
}
at-IsStarted two_sent r q = record {
  one_ready = refl;
  two_ready = refl;
  one_counts = refl;
  two_counts = refl;
  same_mode = refl;
  same_steps = refl;
  nothing_forth = refl;
  nothing_back = refl;
  one_tests = refl;
  two_tests = refl;
  plan = refl;
  no_plan = refl;
}
at-IsStarted two_heard r q = record {
  one_ready = refl;
  two_ready = refl;
  one_counts = refl;
  two_counts = refl;
  same_mode = refl;
  same_steps = refl;
  nothing_forth = refl;
  nothing_back = refl;
  one_tests = refl;
  two_tests = refl;
  plan = refl;
  no_plan = refl;
}
at-IsStarted both_sent r q = record {
  one_ready = refl;
  two_ready = refl;
  one_counts = refl;
  two_counts = refl;
  same_mode = refl;
  same_steps = refl;
  nothing_forth = refl;
  nothing_back = refl;
  one_tests = refl;
  two_tests = refl;
  plan = refl;
  no_plan = refl;
}
at-IsStarted two_ready r q = record {
  one_ready = refl;
  two_ready = refl;
  one_counts = refl;
  two_counts = refl;
  same_mode = refl;
  same_steps = refl;
  nothing_forth = refl;
  nothing_back = refl;
  one_tests = refl;
  two_tests = refl;
  plan = refl;
  no_plan = refl;
}
at-IsStarted one_ready r q = record {
  one_ready = refl;
  two_ready = refl;
  one_counts = refl;
  two_counts = refl;
  same_mode = refl;
  same_steps = refl;
  nothing_forth = refl;
  nothing_back = refl;
  one_tests = refl;
  two_tests = refl;
  plan = refl;
  no_plan = refl;
}
at-IsStarted both_ready r q = record {
  one_ready = refl;
  two_ready = refl;
  one_counts = refl;
  two_counts = refl;
  same_mode = refl;
  same_steps = refl;
  nothing_forth = refl;
  nothing_back = refl;
  one_tests = refl;
  two_tests = refl;
  plan = refl;
  no_plan = refl;
}
at-IsStarted started r q = record {
  one_ready = refl;
  two_ready = refl;
  one_counts = refl;
  two_counts = refl;
  same_mode = refl;
  same_steps = refl;
  nothing_forth = refl;
  nothing_back = refl;
  one_tests = refl;
  two_tests = refl;
  plan = refl;
  no_plan = refl;
}

-- Two sessions that wait for their operators, of which every frame arrives, in the order it was sent:
-- whatever sequence of local starts and arrivals happens, a side that counts down is ready, and the
-- worker counts down only where the coordinator is ready and counts down too; and from there, starting
-- what is not started and delivering what is on its way brings both sides to the state ready, with
-- the same countdown, on the mode and the steps of the coordinator, with no frame left; after four
-- ticks of it both are testing, and only the coordinator has started its plan.
pub send_local_ready-IsStarted :
    (r q : Rest) (actions : List Action)
    → let x = steps actions (waiting r q) in (is_safe x ≡ true) × IsStarted (steps to_the_end x)
send_local_ready-IsStarted r q actions =
    let (stage, r', q', e) = steps-IsKnown actions (waiting r q) (idle, r, q, refl) in
    (
      ap is_safe e ∙ at_safe stage r' q',
      subst (λ (x : System). IsStarted (steps to_the_end x)) (sym e) (at-IsStarted stage r' q'),
    )
