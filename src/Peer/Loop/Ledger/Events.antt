-- ===== src/Peer/Loop/Ledger/Events.antt =====
-- internal/peer/loop.go, exec.go: the count of owed results over the events of a loop.
use cablecheck.Base.{
  ℕ, ◌+◌, ◌≡◌, refl, ◌∙◌, Bool, true, Option, none, some, List, [], ◌∷◌, Bool-cases, Option-cases,
  inl, inr, arith,
}
use cablecheck.Base.Int.{ℤ}
use cablecheck.Base.Text.{String}
use cablecheck.Protocol.MessageId.{next}
use cablecheck.Protocol.Messages.{
  TestRequest, TestResult, Complete, Payload, hello, hello_ack, capabilities, ready, test_request,
  test_progress, test_result, warning, heartbeat, report, report_chunk, report_ack, complete,
  unknown, Envelope,
}
use cablecheck.Protocol.Dedup.{observe}
use cablecheck.Protocol.Messages as Messages
use cablecheck.Peer.State.{generating_report}
use cablecheck.Peer.Ready.{
  Frame, ready_frame, Handled, handled, invalid, send_local_ready, handle_peer_ready,
  handle_start_confirmation,
}
use cablecheck.Peer.Loop.{Settings, ActiveOp, Live, send, finish_abort, send_all, payload_of, move}
use cablecheck.Peer.Loop.Requests.{executor_status}
use cablecheck.Peer.Loop.Dispatch.{
  is_admitted, Event, frame, conn_err, stdin_eof, quit, interrupted, tick, shift, start, op_done,
  op_progress, plan_done, done, cancelled, plan_error, transfer_done, call, call_ended,
  call_expired, plan_warns, timeout_set, beat, transfer_sends, send_transfer_frame, settle_frame,
  warn_peer, set_idle_timeout, after_plan, handle_event, loop, handle_test_result,
  handle_peer_abort, start_transfer, route_transfer_frame, receive_manifest, handle_report_manifest,
  handle_complete, handle_transfer_done, handle_plan_done, handle_start, start_call, dispatch_frame,
  handle_frame,
}
use cablecheck.Peer.Loop.Ledger.{
  answers, running, requested, accepted, owed, send-owed, warn-owed, handle_test_request-owed,
  handle_op_done-owed,
}

send_all-owed :
    (cfg : Settings) (id : String) (frames : List Frame) (s : Live)
    → owed id (send_all cfg frames s) ≡ owed id s
unfolding send_all
send_all-owed cfg id [] s = refl
send_all-owed cfg id (ready_frame automatic ∷ fs) s =
    send_all-owed cfg id fs _ ∙ send-owed cfg id "" (payload_of (ready_frame automatic)) s refl
send_all-owed cfg id (Frame.start_confirmation payload ∷ fs) s =
    send_all-owed cfg id fs _
    ∙ send-owed cfg id "" (payload_of (Frame.start_confirmation payload)) s refl

route-owed :
    (cfg : Settings) (id : String) (env : Envelope) (s : Live)
    → owed id (route_transfer_frame cfg env s) ≡ owed id s
unfolding route_transfer_frame
route-owed cfg id env s = let warns = warn-owed cfg id s in ground arith

start_transfer-owed : (id : String) (s : Live) → owed id (start_transfer s) ≡ owed id s
unfolding start_transfer
start_transfer-owed id s = ground arith

receive_manifest-owed :
    (cfg : Settings) (id : String) (env : Envelope) (s : Live)
    → owed id (receive_manifest cfg env s) ≡ owed id s
receive_manifest-owed cfg id env s =
    let declines =
      send-owed cfg id env.message_id (report_ack cfg.declined) (record s { transfer_ran = true })
        refl in
    let routes = route-owed cfg id env (start_transfer s) in
    let starts = start_transfer-owed id s in ground arith

handle_report_manifest-owed :
    (cfg : Settings) (id : String) (env : Envelope) (s : Live)
    → owed id (handle_report_manifest cfg env s) ≡ owed id s
unfolding handle_report_manifest
handle_report_manifest-owed cfg id env s =
    let warns = warn-owed cfg id s in
    let receives = receive_manifest-owed cfg id env s in
    let moves = receive_manifest-owed cfg id env (move generating_report s) in ground arith

handle_complete-owed :
    (cfg : Settings) (id message_id : String) (payload : Option Complete) (s : Live)
    → owed id (handle_complete cfg message_id payload s) ≡ owed id s
unfolding handle_complete
handle_complete-owed cfg id message_id none s = refl
handle_complete-owed cfg id message_id (some comp) s =
    let warns = warn-owed cfg id s in
    let writes = send-owed cfg id message_id (complete (some cfg.verdict)) s refl in
    let moves =
      send-owed cfg id message_id (complete (some cfg.verdict)) (move generating_report s) refl in
    ground arith

none_new : {m n : ℕ} → m ≡ n → m ≡ 0 + n
none_new h = omega arith

handle_test_result-owed :
    (id in_reply_to : String) (payload : Option TestResult) (s : Live)
    → owed id (handle_test_result in_reply_to payload s) ≡ owed id s
unfolding handle_test_result
handle_test_result-owed id in_reply_to payload s = ground arith

handle_peer_abort-owed :
    (id : String) (payload : Option Messages.Abort) (s : Live)
    → owed id (handle_peer_abort payload s) ≡ owed id s
unfolding handle_peer_abort
handle_peer_abort-owed id payload s = refl

settle_frame-owed :
    (cfg : Settings) (id : String) (r : Handled) (s : Live)
    → owed id (settle_frame cfg r s) ≡ owed id s
settle_frame-owed cfg id (handled r) s = send_all-owed cfg id r.1 (record s { session = r.0 })
settle_frame-owed cfg id invalid s = warn-owed cfg id s

warn_peer-owed :
    (cfg : Settings) (id code : String) (s : Live) → owed id (warn_peer cfg code s) ≡ owed id s
unfolding warn_peer
warn_peer-owed cfg id code s = let sends = send-owed cfg id "" (warning code) s refl in ground arith

set_idle_timeout-owed :
    (id : String) (d : ℤ) (s : Live) → owed id (set_idle_timeout d s) ≡ owed id s
unfolding set_idle_timeout
set_idle_timeout-owed id d s = ground arith

send_transfer_frame-owed :
    (cfg : Settings) (id r : String) (p : Payload) (s : Live)
    → owed id (send_transfer_frame cfg r p s) ≡ owed id s
send_transfer_frame-owed cfg id r p s =
    let manifests = λ (raw : List ℕ). send-owed cfg id r (report raw) s refl in
    let contents = λ (raw : List ℕ). send-owed cfg id r (report_chunk raw) s refl in
    let acks = λ (raw : List ℕ). send-owed cfg id r (report_ack raw) s refl in
    elim p as (λ p. owed id (send_transfer_frame cfg r p s) ≡ owed id s) [
      | report raw ↦ manifests raw
      | report_chunk raw ↦ contents raw
      | report_ack raw ↦ acks raw
      | _ ↦ refl
    ]

dispatch_frame-owed :
    (cfg : Settings) (id : String) (sends : Bool) (env : Envelope) (p : Payload) (s : Live)
    → owed id (dispatch_frame cfg sends env p s)
      ≡ requested id p env.message_id s.session + owed id s
unfolding dispatch_frame
dispatch_frame-owed cfg id sends env (heartbeat none) s = none_new refl
dispatch_frame-owed cfg id sends env (heartbeat (some hb)) s = none_new refl
dispatch_frame-owed cfg id sends env (ready payload) s =
    none_new (settle_frame-owed cfg id (handle_peer_ready sends s.session) s)
dispatch_frame-owed cfg id sends env (Messages.start_confirmation payload) s =
    none_new (settle_frame-owed cfg id (handle_start_confirmation payload s.session) s)
dispatch_frame-owed cfg id sends env (test_request payload) s =
    handle_test_request-owed cfg id env.message_id payload s
dispatch_frame-owed cfg id sends env test_progress s = none_new refl
dispatch_frame-owed cfg id sends env (test_result payload) s =
    none_new (handle_test_result-owed id env.in_reply_to payload s)
dispatch_frame-owed cfg id sends env (warning code) s = none_new refl
dispatch_frame-owed cfg id sends env (Messages.abort none) s =
    none_new (handle_peer_abort-owed id none s)
dispatch_frame-owed cfg id sends env (Messages.abort (some ab)) s =
    none_new (handle_peer_abort-owed id (some ab) s)
dispatch_frame-owed cfg id sends env (report raw) s =
    none_new (handle_report_manifest-owed cfg id env s)
dispatch_frame-owed cfg id sends env (report_chunk raw) s = none_new (route-owed cfg id env s)
dispatch_frame-owed cfg id sends env (report_ack raw) s = none_new (route-owed cfg id env s)
dispatch_frame-owed cfg id sends env (complete payload) s =
    none_new (handle_complete-owed cfg id env.message_id payload s)
dispatch_frame-owed cfg id sends env (hello payload) s = none_new (warn-owed cfg id s)
dispatch_frame-owed cfg id sends env (hello_ack payload) s = none_new (warn-owed cfg id s)
dispatch_frame-owed cfg id sends env (capabilities payload) s = none_new (warn-owed cfg id s)
dispatch_frame-owed cfg id sends env (unknown type) s = none_new refl

handle_frame-owed :
    (cfg : Settings) (id : String) (sends : Bool) (env : Envelope) (s : Live)
    → owed id (handle_frame cfg sends env s) ≡ accepted cfg id (frame sends env) s + owed id s
unfolding handle_frame
handle_frame-owed cfg id sends env s =
    let seen = record s { dedup = (observe s.dedup env.message_id).0 } in
    let dispatches = dispatch_frame-owed cfg id sends env env.payload seen in
    elim (Bool-cases (is_admitted cfg env s)) [
      | inl new ↦ rw new dispatches
      | inr old ↦ rw old (none_new refl)
    ]

after_plan-owed : (cfg : Settings) (id : String) (s : Live) → owed id (after_plan cfg s) ≡ owed id s
after_plan-owed cfg id s =
    let starts = start_transfer-owed id s in
    let writes = send-owed cfg id "" (complete (some cfg.verdict)) s refl in ground arith

handle_event-owed :
    (cfg : Settings) (id : String) (e : Event) (s : Live)
    → owed id (handle_event cfg e s) ≡ accepted cfg id e s + owed id s
unfolding handle_event finish_abort handle_transfer_done handle_plan_done handle_start start_call
handle_event-owed cfg id (frame sends env) s = handle_frame-owed cfg id sends env s
handle_event-owed cfg id conn_err s = none_new refl
handle_event-owed cfg id stdin_eof s = none_new refl
handle_event-owed cfg id quit s = none_new refl
handle_event-owed cfg id interrupted s = none_new refl
handle_event-owed cfg id tick s = none_new refl
handle_event-owed cfg id shift s = ground arith
handle_event-owed cfg id (start sends sends_start) s =
    let sent = send_local_ready sends sends_start s.session in
    let barrier = send_all-owed cfg id sent.1 (record s { session = sent.0 }) in ground arith
handle_event-owed cfg id (op_done fails status payload carrier) s =
    let ended = λ (a : ActiveOp).
      handle_op_done-owed cfg id a (record { status = executor_status fails status; result = none })
        payload carrier s in
    elim (Option-cases s.active) [
      | inl idle ↦ ground arith
      | inr (a, on) ↦ (let it = ended a on in ground arith)
    ]
handle_event-owed cfg id op_progress s =
    let sends = λ (a : ActiveOp). send-owed cfg id a.req_id test_progress s refl in
    elim (Option-cases s.active) [
      | inl idle ↦ ground arith
      | inr (a, on) ↦ (let it = sends a in ground arith)
    ]
handle_event-owed cfg id (plan_done done) s =
    let moves = after_plan-owed cfg id (move generating_report s) in ground arith
handle_event-owed cfg id (plan_done cancelled) s = none_new refl
handle_event-owed cfg id (plan_done (plan_error text)) s = none_new refl
handle_event-owed cfg id (transfer_done fails) s =
    let off = record s { transfer = none } in
    let warns = send-owed cfg id "" (warning "report_transfer_failed") off refl in
    let told = send cfg "" (warning "report_transfer_failed") off in
    let writes = send-owed cfg id "" (complete (some cfg.verdict)) off refl in
    let both = send-owed cfg id "" (complete (some cfg.verdict)) told refl in ground arith
handle_event-owed cfg id (call req) s = none_new (
    send-owed cfg id "" (test_request (some req))
      (record s { pending = (next s.ids).1 ∷ s.pending }) refl)
handle_event-owed cfg id (call_ended id') s = none_new refl
handle_event-owed cfg id (call_expired op) s = none_new refl
handle_event-owed cfg id (plan_warns code) s = none_new (warn_peer-owed cfg id code s)
handle_event-owed cfg id (timeout_set d) s = none_new (set_idle_timeout-owed id d s)
handle_event-owed cfg id (beat hb) s = none_new (send-owed cfg id "" (heartbeat (some hb)) s refl)
handle_event-owed cfg id (transfer_sends r p) s = none_new (send_transfer_frame-owed cfg id r p s)

-- The requests that a worker accepts while its loop runs, counted by their identifier.
abbrev pub accepted_in : Settings → String → List Event → Live → ℕ
accepted_in cfg id [] s = 0
accepted_in cfg id (e ∷ es) s = elim s.fin [
  | some spec ↦ 0
  | none ↦ accepted cfg id e s + accepted_in cfg id es (handle_event cfg e s)
]

-- Whatever happens to a session, each identifier stands on as many results, the running operation
-- counted in, as the accepted requests with this identifier are, on top of what stood before.
pub loop-owed :
    (cfg : Settings) (id : String) (es : List Event) (s : Live)
    → answers id (loop cfg es s).sent + running id (loop cfg es s).active
      ≡ accepted_in cfg id es s + (answers id s.sent + running id s.active)
unfolding loop
loop-owed cfg id [] s = none_new refl
loop-owed cfg id (e ∷ es) s =
    let here = handle_event-owed cfg id e s in
    let later = loop-owed cfg id es (handle_event cfg e s) in
    elim (Option-cases s.fin) [ inl on ↦ ground arith | inr (spec, over) ↦ ground arith ]
