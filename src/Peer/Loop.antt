-- ===== src/Peer/Loop.antt =====
-- internal/peer/session.go, loop.go: what the event loop of a session owns, the frames it hands to the
-- connection, and how it is told to finish. The texts and the cause of an error are left out, and what
-- is logged or printed. A write that fails is only logged where these files write, so a frame that is
-- handed to the connection is recorded in either case.
pub mod Requests
pub mod Dispatch
pub mod Ledger
pub mod Invariant
pub mod Sound
use cablecheck.Base.{
  ℕ, zero, suc, Bool, true, false, Option, none, some, List, [], ◌∷◌, leb, if◌then◌else◌,
}
use cablecheck.Base.Int.{ℤ}
use cablecheck.Base.Text.{String}
use cablecheck.Protocol.MessageId.{MessageIdMaker, next, is_blank}
use cablecheck.Protocol.Dedup.{DuplicateDetector}
use cablecheck.Protocol.Messages.{
  Capabilities, TestRequest, TestResult, Abort, Complete, Heartbeat, Payload, ready,
  start_confirmation, warning, Envelope, new_envelope,
}
use cablecheck.Peer.State.{
  State, initializing, preflight, listening, connecting, handshake, waiting_for_local_start,
  waiting_for_peer_start, testing, generating_report, completed, aborted, failed, StateMachine,
  transition,
}
use cablecheck.Peer.Ready.{Session, Frame, ready_frame}

abbrev pub state_name : State → String
state_name initializing = "initializing"
state_name preflight = "preflight"
state_name listening = "listening"
state_name connecting = "connecting"
state_name handshake = "handshake"
state_name waiting_for_local_start = "waiting_for_local_start"
state_name waiting_for_peer_start = "waiting_for_peer_start"
state_name State.ready = "ready"
state_name testing = "testing"
state_name generating_report = "generating_report"
state_name completed = "completed"
state_name aborted = "aborted"
state_name failed = "failed"

abbrev pub max_invalid_state : ℕ
max_invalid_state = 3

abbrev pub transfer_buffer_size : ℕ
transfer_buffer_size = 64

-- What the loop reads of the configuration and of the handshake. `verdict` is what
-- Complete answers; `redact` takes the token out of a text;
-- the two encoders give the JSON of a CableTestWindowResult and of the declining ReportAck.
pub record Settings : Type 0 where
  pub test_id : String
  pub peer_caps : Capabilities
  pub idle_timeout : ℤ
  pub sends_reports : Bool
  pub receives_reports : Bool
  pub no_report_transfer : Bool
  pub verdict : Complete
  pub redact : String → String
  pub window_result : ℕ → List ℕ
  pub declined : List ℕ

pub record PlanStep : Type 0 where
  pub step : ℤ
  pub total : ℤ
  pub name : String

pub record ActiveOp : Type 0 where
  pub req_id : String
  pub op : String

pub record FinishSpec : Type 0 where
  pub state : State
  pub reason : String
  pub farewell : Option Abort

-- The state of the loop. `session` is the part of the ready barrier; `window_calls` are the calls of the
-- window hook, `cancelled` the requests whose operation was cancelled, `resolved` the results given to
-- pending calls, `shown` the steps shown to the operator; these lists and `sent` have their latest entry in front. `transfer` is the buffer of a
-- transfer that is on.
pub record Live : Type 0 where
  pub session : Session
  pub ids : MessageIdMaker
  pub dedup : DuplicateDetector
  pub sent : List Envelope
  pub active : Option ActiveOp
  pub cancelled : List String
  pub window_active : Bool
  pub window_calls : List Bool
  pub idle_timeout : ℤ
  pub invalid_state : ℕ
  pub announced : Option PlanStep
  pub shown : List PlanStep
  pub pending : List String
  pub resolved : List (String × TestResult)
  pub transfer : Option (List Envelope)
  pub transfer_ran : Bool
  pub sent_complete : Bool
  pub peer_complete : Option Complete
  pub peer_heartbeat : Option Heartbeat
  pub peer_abort : String × String
  pub fin : Option FinishSpec

-- `send`: mint, build, write.
unfoldable pub send : Settings → String → Payload → Live → Live
send cfg in_reply_to payload s =
    let (ids, id) = next s.ids in
    record s {
      ids = ids;
      sent = record (new_envelope cfg.test_id id payload) { in_reply_to = in_reply_to } ∷ s.sent;
    }

abbrev pub active_op_name : Live → String
active_op_name s = elim s.active [ none ↦ "" | some a ↦ a.op ]

abbrev pub abort_stage : Live → String
abort_stage s =
    if is_blank (active_op_name s) then state_name s.session.machine.cur else active_op_name s

-- `finishAbort`.
unfoldable pub finish_abort : String → String → Live → Live
finish_abort reason stage s = record s {
  fin = some (record {
    state = aborted;
    reason = reason;
    farewell = some (record { reason = reason; stage = stage; detail = "" });
  });
}

-- `warnInvalidState`.
unfoldable pub warn_invalid_state : Settings → Live → Live
warn_invalid_state cfg s =
    let s1 = send cfg "" (warning "invalid_state") s in
    let s2 = record s1 { invalid_state = suc s1.invalid_state } in
    if leb max_invalid_state s2.invalid_state
    then finish_abort "protocol_error" (abort_stage s2) s2
    else s2

-- The frames of the barrier, handed to the connection in their order.
abbrev pub payload_of : Frame → Payload
payload_of (ready_frame automatic) = ready (some automatic)
payload_of (Frame.start_confirmation payload) = start_confirmation payload

unfoldable pub send_all : Settings → List Frame → Live → Live
send_all cfg [] s = s
send_all cfg (f ∷ fs) s = send_all cfg fs (send cfg "" (payload_of f) s)

-- A transition whose refusal is only logged.
abbrev pub move : State → Live → Live
move to s = record s {
  session = record s.session { machine = (transition s.session.machine to).0 };
}
