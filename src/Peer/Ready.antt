-- ===== src/Peer/Ready.antt =====
-- internal/peer/ready.go: the ready barrier and the countdown of a session. Whether a frame can be sent
-- is an input; the frames sent are part of the result. Times are in milliseconds after the anchor.
-- What is printed or logged is left out.
pub mod System
pub mod Stages
pub mod Barrier
use cablecheck.Base.{
  ℕ, zero, suc, ◌*◌, Bool, true, false, not, ◌&&◌, Option, none, some, List, [], ◌∷◌, ◌++◌,
  if◌then◌else◌,
}
use cablecheck.Base.Int.{ℤ, pos, sub_int, ltb_ℤ}
use cablecheck.Base.Text.{String}
use cablecheck.Protocol.Messages.{StartConfirmation}
use cablecheck.Peer.State.{
  State, waiting_for_local_start, waiting_for_peer_start, ready, testing, StateError, StateMachine,
  transition, require,
}

-- The two frames; a start confirmation that does not decode is `none`.
pub data Frame : Type 0 where
  ready_frame : Bool → Frame
  start_confirmation : Option StartConfirmation → Frame

-- The label 0 is GO.
pub record CountdownStep : Type 0 where
  pub at_ms : ℤ
  pub label : ℕ

-- The fields of a session that the barrier reads and writes; `coordinator` is the role pc1, `own` the
-- configured mode and steps.
pub record Session : Type 0 where
  pub coordinator : Bool
  pub non_interactive : Bool
  pub own : String × List String
  pub machine : StateMachine
  pub local_ready : Bool
  pub peer_ready : Bool
  pub mode : String
  pub steps : List String
  pub countdown : List CountdownStep
  pub plan_started : Bool

abbrev pub start_countdown_ms : ℤ
start_countdown_ms = pos 3_500

-- The numbers 3, 2 and 1, without those that would be in the past.
unfoldable pub numbers : ℤ → List ℕ → List CountdownStep
numbers total [] = []
numbers total (n ∷ ns) =
    let later = numbers total ns in
    let time = sub_int total (pos (n * 1_000)) in
    if ltb_ℤ time (pos 0) then later else record { at_ms = time; label = n } ∷ later

unfoldable pub start_countdown : ℤ → Session → Session
start_countdown total s = record s {
  countdown = numbers total (3 ∷ 2 ∷ 1 ∷ []) ++ record { at_ms = total; label = 0 } ∷ [];
}

unfoldable pub on_both_ready : Bool → Session → Session × List Frame
on_both_ready sends s =
    let confirmation : StartConfirmation = record {
      start_in_ms = start_countdown_ms;
      mode = s.own.0;
      steps = s.own.1;
    } in
    if not s.coordinator
    then (s, [])
    else if not sends
    then (s, [])
    else (start_countdown start_countdown_ms s, start_confirmation (some confirmation) ∷ [])

-- A transition, and what follows it where it is accepted.
abbrev pub move_to : State → (Session → Session × List Frame) → Session → Session × List Frame
move_to to andthen s =
    let (machine, error) = transition s.machine to in
    elim error [
      | some e ↦ (record s { machine = machine }, [])
      | none ↦ andthen (record s { machine = machine })
    ]

abbrev pub in_front : Frame → Session × List Frame → Session × List Frame
in_front f (s, frames) = (s, f ∷ frames)

-- `sendLocalReady`: whether the ready frame can be sent, and the start confirmation behind it.
unfoldable pub send_local_ready : Bool → Bool → Session → Session × List Frame
send_local_ready sends sends_start s =
    if s.local_ready
    then (s, [])
    else if not sends
    then (s, [])
    else in_front (ready_frame s.non_interactive) (
        if s.peer_ready
        then move_to ready (on_both_ready sends_start) (record s { local_ready = true })
        else move_to waiting_for_peer_start (λ s'. (s', [])) (record s { local_ready = true }))

-- A frame of the barrier is handled, or it comes at the wrong time: the loop then warns the peer and
-- counts a strike (`warnInvalidState`), and the session is left as it is.
pub data Handled : Type 0 where
  handled : Session × List Frame → Handled
  invalid : Handled

unfoldable pub handle_peer_ready : Bool → Session → Handled
handle_peer_ready sends_start s = if s.peer_ready then handled (s, []) else elim s.machine.cur [
  | waiting_for_local_start ↦ handled (record s { peer_ready = true }, [])
  | waiting_for_peer_start ↦
      handled (move_to ready (on_both_ready sends_start) (record s { peer_ready = true }))
  | _ ↦ invalid
]

unfoldable pub handle_start_confirmation : Option StartConfirmation → Session → Handled
handle_start_confirmation payload s =
    if s.coordinator then invalid else elim (require s.machine (ready ∷ [])) [
      | some e ↦ invalid
      | none ↦ elim payload [
        | none ↦ handled (s, [])
        | some sc ↦
            handled
              (start_countdown sc.start_in_ms (record s { mode = sc.mode; steps = sc.steps }), [])
      ]
    ]

-- `onCountdownTick`; at GO the session is testing, and the coordinator starts its plan.
unfoldable pub on_countdown_tick : Session → Session
on_countdown_tick s = elim s.countdown [
  | [] ↦ s
  | step ∷ rest ↦ elim step.label [
    | zero ↦
        (let (machine, error) = transition s.machine testing in
          let s' = record s { countdown = rest; machine = machine } in
          elim error [
            | some e ↦ s'
            | none ↦ if s.coordinator then record s' { plan_started = true } else s'
          ])
    | suc n ↦ record s { countdown = rest }
  ]
]
