-- ===== src/Peer/Loop/Dispatch.antt =====
-- internal/peer/loop.go, exec.go, rpc.go, transfer.go, session.go: the frames and the other events of a
-- session, its loop and its end. An event carries what the environment decides: whether the connection
-- takes the frames of the barrier, what an operation, the plan or a transfer answers.
use cablecheck.Base.{
  ℕ, suc, Bool, true, not, ◌&&◌, ◌||◌, Option, none, some, List, [], ◌∷◌, ◌++◌, ltb, any,
  if◌then◌else◌,
}
use cablecheck.Base.Int.{ℤ}
use cablecheck.Base.Text.{String, str_eq}
use cablecheck.Protocol.MessageId.{next}
use cablecheck.Protocol.Dedup.{observe, is_fresh}
use cablecheck.Protocol.Messages.{
  Capabilities, TestRequest, TestResult, Abort, Complete, Heartbeat, Payload, hello, hello_ack,
  capabilities, ready, test_request, test_progress, test_result, warning, heartbeat, report,
  report_chunk, report_ack, complete, unknown, Envelope, check_version,
}
use cablecheck.Protocol.Messages as Messages
use cablecheck.Peer.State.{
  waiting_for_local_start, testing, generating_report, completed, aborted, failed, transition,
  require,
}
use cablecheck.Peer.Ready.{
  Session, Frame, Handled, handled, invalid, send_local_ready, handle_peer_ready,
  handle_start_confirmation, on_countdown_tick,
}
use cablecheck.Peer.Handshake.{check_assigned_test_id}
use cablecheck.Peer.Loop.{
  Settings, Live, transfer_buffer_size, send, abort_stage, state_name, finish_abort,
  warn_invalid_state, send_all, move,
}
use cablecheck.Peer.Loop.Requests.{
  Encoded, handle_test_request, executor_status, handle_op_done, handle_op_progress,
}

-- The barrier's part of the state, and the frames it sends.
abbrev pub in_barrier : Settings → Session × List Frame → Live → Live
in_barrier cfg (session, frames) s = send_all cfg frames (record s { session = session })

-- A frame of the barrier that comes at the wrong time is answered by a warning and counts as a strike.
abbrev pub settle_frame : Settings → Handled → Live → Live
settle_frame cfg (handled r) s = in_barrier cfg r s
settle_frame cfg invalid s = warn_invalid_state cfg s

-- `takeCall`: the pending call, removed.
abbrev pub without : String → List String → List String
without id [] = []
without id (x ∷ xs) = if str_eq id x then without id xs else x ∷ without id xs

unfoldable pub handle_test_result : String → Option TestResult → Live → Live
handle_test_result in_reply_to payload s =
    if any (str_eq in_reply_to) s.pending
    then record s {
      pending = without in_reply_to s.pending;
      resolved =
          (
            in_reply_to,
            elim payload [ none ↦ record { status = "failed"; result = none } | some res ↦ res ],
          )
          ∷ s.resolved;
    }
    else s

unfoldable pub handle_peer_abort : Option Abort → Live → Live
handle_peer_abort payload s =
    let ab : Abort = elim payload [
      | none ↦ record { reason = "unknown"; stage = ""; detail = "" }
      | some ab ↦ ab
    ] in
    record s {
      peer_abort = (ab.stage, ab.detail);
      fin = some (record { state = aborted; reason = ab.reason; farewell = none });
    }

-- `startTransfer`, without the callback.
unfoldable pub start_transfer : Live → Live
start_transfer s = elim s.transfer [
  | some buffer ↦ s
  | none ↦ record s { transfer = some []; transfer_ran = true }
]

abbrev pub count : List Envelope → ℕ
count [] = 0
count (e ∷ es) = suc (count es)

unfoldable pub route_transfer_frame : Settings → Envelope → Live → Live
route_transfer_frame cfg env s = elim s.transfer [
  | none ↦ if s.transfer_ran then s else warn_invalid_state cfg s
  | some buffer ↦
      if ltb (count buffer) transfer_buffer_size
      then record s { transfer = some (buffer ++ env ∷ []) }
      else s
]

-- What follows a manifest once the session is generating its report.
abbrev pub receive_manifest : Settings → Envelope → Live → Live
receive_manifest cfg env s =
    if not cfg.receives_reports || cfg.no_report_transfer
    then send cfg env.message_id (report_ack cfg.declined) (record s { transfer_ran = true })
    else route_transfer_frame cfg env (start_transfer s)

unfoldable pub handle_report_manifest : Settings → Envelope → Live → Live
handle_report_manifest cfg env s =
    if s.session.coordinator
    then warn_invalid_state cfg s
    else elim (require s.session.machine (testing ∷ generating_report ∷ [])) [
      | some e ↦ warn_invalid_state cfg s
      | none ↦ elim s.session.machine.cur [
        | testing ↦ elim (transition s.session.machine generating_report).1 [
          | some e ↦ s
          | none ↦ receive_manifest cfg env (move generating_report s)
        ]
        | _ ↦ receive_manifest cfg env s
      ]
    ]

-- `writeComplete`, and `sendComplete`.
abbrev pub write_complete : Settings → String → Live → Live
write_complete cfg in_reply_to s = send cfg in_reply_to (complete (some cfg.verdict)) s

abbrev pub send_complete : Settings → Live → Live
send_complete cfg s = record (write_complete cfg "" s) { sent_complete = true }

unfoldable pub handle_transfer_done : Settings → Bool → Live → Live
handle_transfer_done cfg fails s =
    let off = record s { transfer = none } in
    let told = if fails then send cfg "" (warning "report_transfer_failed") off else off in
    if told.session.coordinator && not told.sent_complete then send_complete cfg told else told

abbrev pub complete_with : Complete → Live → Live
complete_with comp s = record s {
  peer_complete = some comp;
  fin = some (record { state = completed; reason = ""; farewell = none });
}

unfoldable pub handle_complete : Settings → String → Option Complete → Live → Live
handle_complete cfg message_id none s = s
handle_complete cfg message_id (some comp) s =
    if s.session.coordinator
    then (if s.sent_complete then complete_with comp s else warn_invalid_state cfg s)
    else elim (require s.session.machine (testing ∷ generating_report ∷ [])) [
      | some e ↦ warn_invalid_state cfg s
      | none ↦ elim s.session.machine.cur [
        | testing ↦ complete_with comp (write_complete cfg message_id (move generating_report s))
        | _ ↦ complete_with comp (write_complete cfg message_id s)
      ]
    ]

-- The dispatch of a frame that passed the filter, on its type.
unfoldable pub dispatch_frame : Settings → Bool → Envelope → Payload → Live → Live
dispatch_frame cfg sends env (heartbeat payload) s = elim payload [
  | none ↦ s
  | some hb ↦ record s { peer_heartbeat = some hb }
]
dispatch_frame cfg sends env (ready payload) s =
    settle_frame cfg (handle_peer_ready sends s.session) s
dispatch_frame cfg sends env (Messages.start_confirmation payload) s =
    settle_frame cfg (handle_start_confirmation payload s.session) s
dispatch_frame cfg sends env (test_request payload) s =
    handle_test_request cfg env.message_id payload s
dispatch_frame cfg sends env test_progress s = s
dispatch_frame cfg sends env (test_result payload) s = handle_test_result env.in_reply_to payload s
dispatch_frame cfg sends env (warning code) s = s
dispatch_frame cfg sends env (Messages.abort payload) s = handle_peer_abort payload s
dispatch_frame cfg sends env (report raw) s = handle_report_manifest cfg env s
dispatch_frame cfg sends env (report_chunk raw) s = route_transfer_frame cfg env s
dispatch_frame cfg sends env (report_ack raw) s = route_transfer_frame cfg env s
dispatch_frame cfg sends env (complete payload) s = handle_complete cfg env.message_id payload s
dispatch_frame cfg sends env (hello payload) s = warn_invalid_state cfg s
dispatch_frame cfg sends env (hello_ack payload) s = warn_invalid_state cfg s
dispatch_frame cfg sends env (capabilities payload) s = warn_invalid_state cfg s
dispatch_frame cfg sends env (unknown type) s = s

-- The checks before the dispatch: a new identifier, the version, the test.
abbrev pub is_admitted : Settings → Envelope → Live → Bool
is_admitted cfg env s =
    is_fresh (observe s.dedup env.message_id).1
    && check_version env
    && check_assigned_test_id env cfg.test_id

unfoldable pub handle_frame : Settings → Bool → Envelope → Live → Live
handle_frame cfg sends env s =
    let seen = record s { dedup = (observe s.dedup env.message_id).0 } in
    if is_admitted cfg env s then dispatch_frame cfg sends env env.payload seen else seen

pub data PlanResult : Type 0 where
  done cancelled : PlanResult
  plan_error : String → PlanResult

-- What follows a plan that succeeded.
abbrev pub after_plan : Settings → Live → Live
after_plan cfg s =
    if cfg.sends_reports && not cfg.no_report_transfer && cfg.peer_caps.accept_report_transfer
    then start_transfer s
    else send_complete cfg s

unfoldable pub handle_plan_done : Settings → PlanResult → Live → Live
handle_plan_done cfg cancelled s = s
handle_plan_done cfg (plan_error text) s = record s {
  fin = some (record {
    state = failed;
    reason = "internal_error";
    farewell = some (record {
      reason = "internal_error";
      stage = state_name s.session.machine.cur;
      detail = cfg.redact text;
    });
  });
}
handle_plan_done cfg done s = elim (transition s.session.machine generating_report).1 [
  | some e ↦ s
  | none ↦ after_plan cfg (move generating_report s)
]

-- The line `start` of the operator.
unfoldable pub handle_start : Settings → Bool → Bool → Live → Live
handle_start cfg sends sends_start s =
    if s.session.local_ready
    then s
    else elim (require s.session.machine (waiting_for_local_start ∷ [])) [
      | some e ↦ s
      | none ↦ in_barrier cfg (send_local_ready sends sends_start s.session) s
    ]

-- `Warn` and `SetIdleTimeout`, which the plan calls; only a coordinator has a plan.
unfoldable pub warn_peer : Settings → String → Live → Live
warn_peer cfg code s = if s.session.coordinator then send cfg "" (warning code) s else s

unfoldable pub set_idle_timeout : ℤ → Live → Live
set_idle_timeout d s = if s.session.coordinator then record s { idle_timeout = d } else s

-- The heartbeater; that a heartbeat is due and what it tells is the environment's.
abbrev pub send_heartbeat : Settings → Heartbeat → Live → Live
send_heartbeat cfg hb s = send cfg "" (heartbeat (some hb)) s

-- What a transfer callback sends through its ReportChannel: only frames of the transfer.
abbrev pub send_transfer_frame : Settings → String → Payload → Live → Live
send_transfer_frame cfg in_reply_to (report raw) s = send cfg in_reply_to (report raw) s
send_transfer_frame cfg in_reply_to (report_chunk raw) s = send cfg in_reply_to (report_chunk raw) s
send_transfer_frame cfg in_reply_to (report_ack raw) s = send cfg in_reply_to (report_ack raw) s
send_transfer_frame cfg in_reply_to _ s = s

-- A call of the plan while the session is open: the request is registered and written; and its end.
unfoldable pub start_call : Settings → TestRequest → Live → Live
start_call cfg req s =
    send cfg "" (test_request (some req)) (record s { pending = (next s.ids).1 ∷ s.pending })

abbrev pub end_call : String → Live → Live
end_call id s = record s { pending = without id s.pending }

-- `op_done` is the running operation's: whether the handler failed, its status, its payload and what
-- the window hook counts; `shift` is a frame that a transfer callback takes from its buffer.
pub data Event : Type 0 where
  frame : Bool → Envelope → Event
  conn_err stdin_eof quit interrupted tick shift : Event
  start : Bool → Bool → Event
  op_done : Bool → String → Encoded → ℕ → Event
  op_progress : Event
  plan_done : PlanResult → Event
  transfer_done : Bool → Event
  call : TestRequest → Event
  call_ended : String → Event
  call_expired : String → Event
  plan_warns : String → Event
  timeout_set : ℤ → Event
  beat : Heartbeat → Event
  transfer_sends : String → Payload → Event

unfoldable pub handle_event : Settings → Event → Live → Live
handle_event cfg (frame sends env) s = handle_frame cfg sends env s
handle_event cfg conn_err s = record s {
  fin = some (record { state = aborted; reason = "peer_lost"; farewell = none });
}
handle_event cfg stdin_eof s = finish_abort "user_interrupt" (abort_stage s) s
handle_event cfg quit s = finish_abort "user_interrupt" (abort_stage s) s
handle_event cfg interrupted s = finish_abort "user_interrupt" (abort_stage s) s
handle_event cfg tick s = record s { session = on_countdown_tick s.session }
handle_event cfg shift s = elim s.transfer [
  | some (env ∷ buffer) ↦ record s { transfer = some buffer }
  | _ ↦ s
]
handle_event cfg (start sends sends_start) s = handle_start cfg sends sends_start s
handle_event cfg (op_done fails status payload carrier) s = elim s.active [
  | none ↦ s
  | some a ↦
      handle_op_done cfg a.req_id (record { status = executor_status fails status; result = none })
        payload carrier s
]
handle_event cfg op_progress s = elim s.active [
  | none ↦ s
  | some a ↦ handle_op_progress cfg a.req_id s
]
handle_event cfg (plan_done result) s = handle_plan_done cfg result s
handle_event cfg (transfer_done fails) s = handle_transfer_done cfg fails s
handle_event cfg (call req) s = start_call cfg req s
handle_event cfg (call_ended id) s = end_call id s
handle_event cfg (call_expired op) s = record s {
  fin = some (record {
    state = failed;
    reason = "request_timeout";
    farewell = some (record { reason = "request_timeout"; stage = op; detail = "" });
  });
}
handle_event cfg (plan_warns code) s = warn_peer cfg code s
handle_event cfg (timeout_set d) s = set_idle_timeout d s
handle_event cfg (beat hb) s = send_heartbeat cfg hb s
handle_event cfg (transfer_sends in_reply_to payload) s =
    send_transfer_frame cfg in_reply_to payload s

-- `loop`: events are handled until one tells the session to finish.
unfoldable pub loop : Settings → List Event → Live → Live
loop cfg [] s = s
loop cfg (e ∷ es) s = elim s.fin [ some spec ↦ s | none ↦ loop cfg es (handle_event cfg e s) ]
