-- ===== src/Peer/Loop/Ledger.antt =====
-- internal/peer/exec.go: the results that a worker owes for the requests it accepted.
pub mod Events
use cablecheck.Base.{
  ℕ, zero, suc, ◌+◌, ◌≡◌, refl, sym, ap, ◌∙◌, Bool, true, false, not, ◌&&◌, Option, none, some,
  List, [], ◌∷◌, ◌++◌, if◌then◌else◌, Bool-cases, Option-cases, inl, inr, arith,
}
use cablecheck.Base.Int.{ℤ}
use cablecheck.Base.Text.{String, str_eq, eq_refl}
use cablecheck.Protocol.MessageId.{next}
use cablecheck.Protocol.Messages.{
  TestRequest, TestResult, Complete, Payload, hello, hello_ack, capabilities, ready, test_request,
  test_progress, test_result, warning, heartbeat, report, report_chunk, report_ack, complete,
  unknown, Envelope,
}
use cablecheck.Protocol.Dedup.{observe}
use cablecheck.Protocol.Messages as Messages
use cablecheck.Peer.State.{testing, generating_report, require}
use cablecheck.Peer.Ready.{Session, Frame, ready_frame, send_local_ready, start_confirmation}
use cablecheck.Peer.Loop.{
  Settings, ActiveOp, Live, send, finish_abort, warn_invalid_state, send_all, payload_of, move,
}
use cablecheck.Peer.Loop.Requests.{
  Encoded, write_test_result, answer, announce_request_step, accept_request, open_window,
  cancel_active, dispatch_request, handle_test_request, handle_op_done, encoded, with_payload,
  close_window, executor_status,
}
use cablecheck.Peer.Loop.Dispatch.{
  is_admitted, Event, frame, conn_err, stdin_eof, quit, interrupted, tick, shift, start, op_done,
  op_progress, plan_done, done, cancelled, plan_error, transfer_done, call, call_ended,
  call_expired, after_plan, handle_event, loop, without, handle_test_result, handle_peer_abort,
  start_transfer, route_transfer_frame, receive_manifest, handle_report_manifest, handle_complete,
  handle_transfer_done, handle_plan_done, handle_start, start_call, dispatch_frame, handle_frame,
  in_barrier, send_complete,
}

-- How often the identifier is that of an accepted request.
abbrev pub is_id : String → String → ℕ
is_id id x = if str_eq id x then 1 else 0

-- How often a result answers the request with this identifier.
abbrev pub answers : String → List Envelope → ℕ
answers id [] = 0
answers id (e ∷ es) =
    elim e.payload [ test_result payload ↦ is_id id e.in_reply_to | _ ↦ 0 ] + answers id es

-- Whether the running operation is the one of the request.
abbrev pub running : String → Option ActiveOp → ℕ
running id none = 0
running id (some a) = is_id id a.req_id

-- A decoded request that a worker which is testing gets.
abbrev pub admitted_request : String → String → Option TestRequest → Session → ℕ
admitted_request id req_id payload session =
    if session.coordinator then 0 else elim (require session.machine (testing ∷ [])) [
      | some e ↦ 0
      | none ↦ elim payload [ none ↦ 0 | some req ↦ is_id id req_id ]
    ]

abbrev pub requested : String → Payload → String → Session → ℕ
requested id (test_request payload) req_id session = admitted_request id req_id payload session
requested id _ req_id session = 0

abbrev pub accepted : Settings → String → Event → Live → ℕ
accepted cfg id (frame sends env) s =
    if is_admitted cfg env s then requested id env.payload env.message_id s.session else 0
accepted cfg id _ s = 0

abbrev pub owed : String → Live → ℕ
owed id s = answers id s.sent + running id s.active

-- A frame that is no result changes no count.
abbrev pub is_result : Payload → Bool
is_result (test_result payload) = true
is_result _ = false

pub send-owed :
    (cfg : Settings) (id in_reply_to : String) (p : Payload) (s : Live)
    → is_result p ≡ false
    → owed id (send cfg in_reply_to p s) ≡ owed id s
unfolding send
send-owed cfg id in_reply_to p s h = ground arith

pub answer-owed :
    (cfg : Settings) (id req_id : String) (res : TestResult) (s : Live)
    → owed id (write_test_result cfg req_id res s) ≡ is_id id req_id + owed id s
unfolding write_test_result send
answer-owed cfg id req_id res s = omega arith

pub warn-owed :
    (cfg : Settings) (id : String) (s : Live) → owed id (warn_invalid_state cfg s) ≡ owed id s
unfolding warn_invalid_state finish_abort send
warn-owed cfg id s = ground arith

announce-owed :
    (cfg : Settings) (id : String) (req : TestRequest) (s : Live)
    → (owed id (announce_request_step cfg req s) ≡ owed id s)
      × ((announce_request_step cfg req s).active ≡ s.active)
unfolding announce_request_step
announce-owed cfg id req s = ground arith

accept_request-owed :
    (cfg : Settings) (id req_id : String) (req : TestRequest) (s : Live)
    → s.active ≡ none
    → owed id (accept_request cfg req_id req s) ≡ is_id id req_id + owed id s
accept_request-owed cfg id req_id req s free =
    let (kept, active) = announce-owed cfg id req s in ground arith

open_window-owed :
    (cfg : Settings) (id req_id : String) (req : TestRequest) (window : Option ℤ) (s : Live)
    → s.active ≡ none
    → owed id (open_window cfg req_id req window s) ≡ is_id id req_id + owed id s
unfolding open_window
open_window-owed cfg id req_id req none s free =
    answer-owed cfg id req_id (record { status = "rejected"; result = none }) s
open_window-owed cfg id req_id req (some ms) s free =
    let rejects = answer-owed cfg id req_id (record { status = "rejected"; result = none }) s in
    let accepts =
      accept_request-owed cfg id req_id req
        (record s { idle_timeout = ms; window_active = true; window_calls = true ∷ s.window_calls })
        free in
    ground arith

dispatch_request-owed :
    (cfg : Settings) (id req_id : String) (req : TestRequest) (s : Live)
    → owed id (dispatch_request cfg req_id req s) ≡ is_id id req_id + owed id s
unfolding dispatch_request cancel_active
dispatch_request-owed cfg id req_id req s =
    let rejects = answer-owed cfg id req_id (record { status = "rejected"; result = none }) s in
    let cancels =
      answer-owed cfg id req_id (record { status = "ok"; result = none }) (cancel_active s) in
    let opens = open_window-owed cfg id req_id req req.window_ms s in
    let accepts = accept_request-owed cfg id req_id req s in ground arith

pub handle_test_request-owed :
    (cfg : Settings) (id req_id : String) (payload : Option TestRequest) (s : Live)
    → owed id (handle_test_request cfg req_id payload s)
      ≡ admitted_request id req_id payload s.session + owed id s
unfolding handle_test_request
handle_test_request-owed cfg id req_id none s = let warns = warn-owed cfg id s in ground arith
handle_test_request-owed cfg id req_id (some req) s =
    let warns = warn-owed cfg id s in
    let dispatches = dispatch_request-owed cfg id req_id req s in ground arith

-- The end of the running operation turns it into a result.
pub handle_op_done-owed :
    (cfg : Settings) (id : String) (a : ActiveOp) (res : TestResult) (payload : Encoded)
    (carrier : ℕ) (s : Live)
    → s.active ≡ some a
    → owed id (handle_op_done cfg a.req_id res payload carrier s) ≡ owed id s
unfolding handle_op_done
handle_op_done-owed cfg id a res payload carrier s on =
    let freed = record s { active = none } in
    let same = eq_refl a.req_id in
    let ends =
      answer-owed cfg id a.req_id (with_payload (encoded (cfg.window_result carrier)) res)
        (close_window cfg freed) in
    let fails = answer-owed cfg id a.req_id (with_payload payload res) (close_window cfg freed) in
    let writes = answer-owed cfg id a.req_id (with_payload payload res) freed in ground arith
