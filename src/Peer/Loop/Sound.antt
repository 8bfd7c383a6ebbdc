-- ===== src/Peer/Loop/Sound.antt =====
-- internal/peer/loop.go, ready.go, rpc.go: a session stays sound through all events of its loop.
use cablecheck.Base.{
  ◌≡◌, refl, sym, ◌∙◌, Bool, not, ◌&&◌, Option, none, some, List, [], ◌∷◌, if◌then◌else◌, arith,
  any,
}
use cablecheck.Base.Int.{ℤ}
use cablecheck.Base.Text.{String, str_eq}
use cablecheck.Protocol.MessageId.{next}
use cablecheck.Protocol.Messages.{
  StartConfirmation, TestRequest, TestResult, Complete, Payload, hello, hello_ack, capabilities,
  ready, test_request, test_progress, test_result, warning, heartbeat, report, report_chunk,
  report_ack, complete, unknown, Envelope,
}
use cablecheck.Protocol.Dedup.{observe}
use cablecheck.Protocol.Messages as Messages
use cablecheck.Peer.State.{waiting_for_local_start, transition, generating_report, require}
use cablecheck.Peer.Ready.{
  Session, Handled, handled, invalid, on_both_ready, start_countdown, send_local_ready,
  handle_peer_ready, handle_start_confirmation, on_countdown_tick,
}
use cablecheck.Peer.Ready.System.{settled}
use cablecheck.Peer.Loop.{Settings, FinishSpec, Live, send, finish_abort, move}
use cablecheck.Peer.Loop.Requests.{executor_status}
use cablecheck.Peer.Loop.Dispatch.{
  is_admitted, Event, frame, conn_err, stdin_eof, quit, interrupted, tick, shift, start, op_done,
  op_progress, plan_done, done, cancelled, plan_error, transfer_done, call, call_ended,
  call_expired, plan_warns, timeout_set, beat, transfer_sends, send_transfer_frame, settle_frame,
  warn_peer, set_idle_timeout, after_plan, handle_event, loop, handle_test_result,
  handle_peer_abort, handle_transfer_done, handle_plan_done, handle_start, start_call,
  dispatch_frame, handle_frame,
}
use cablecheck.Peer.Loop.Invariant.{
  IsSound, Keeps, complete-IsSound, handle_complete-IsSound, handle_op_done-IsSound,
  handle_report_manifest-IsSound, handle_test_request-IsSound, if-IsSound, option-IsSound,
  route-IsSound, send-IsSound, send_all-IsSound, start_transfer-IsSound, warn-IsSound,
}

-- The role of a session is the same after a frame.
abbrev KeepsRole : Session → Handled → Type 0
KeepsRole s r = (settled s r).0.coordinator ≡ s.coordinator

handle_peer_ready-role : (sends : Bool) (s : Session) → KeepsRole s (handle_peer_ready sends s)
unfolding handle_peer_ready on_both_ready start_countdown
handle_peer_ready-role sends s = ground arith

handle_start_confirmation-role :
    (payload : Option StartConfirmation) (s : Session)
    → KeepsRole s (handle_start_confirmation payload s)
unfolding handle_start_confirmation start_countdown
handle_start_confirmation-role payload s = ground arith

send_local_ready-role :
    (sends sends_start : Bool) (s : Session)
    → (send_local_ready sends sends_start s).0.coordinator ≡ s.coordinator
unfolding send_local_ready on_both_ready start_countdown
send_local_ready-role sends sends_start s = ground arith

on_countdown_tick-role : (s : Session) → (on_countdown_tick s).coordinator ≡ s.coordinator
unfolding on_countdown_tick
on_countdown_tick-role s = ground arith

session-IsSound :
    (cfg : Settings) (session : Session) (s : Live)
    → session.coordinator ≡ s.session.coordinator
    → IsSound cfg s
    → IsSound cfg (record s { session = session })
session-IsSound cfg session s e h = (h.0, (λ w. h.1 (sym e ∙ w)), h.2, h.3)

settle-IsSound :
    (cfg : Settings) (r : Handled) (s : Live)
    → KeepsRole s.session r
    → s.fin ≡ none
    → IsSound cfg s
    → IsSound cfg (settle_frame cfg r s)
settle-IsSound cfg (handled r) s e on h =
    send_all-IsSound cfg r.1 (record s { session = r.0 }) (session-IsSound cfg r.0 s e h)
settle-IsSound cfg invalid s e on h = warn-IsSound cfg s on h

warn_peer-IsSound : (cfg : Settings) (code : String) → Keeps cfg (warn_peer cfg code)
unfolding warn_peer
warn_peer-IsSound cfg code s on h =
    if-IsSound cfg s.session.coordinator _ _ (send-IsSound cfg "" (warning code) s h) h

set_idle_timeout-IsSound : (cfg : Settings) (d : ℤ) → Keeps cfg (set_idle_timeout d)
unfolding set_idle_timeout
set_idle_timeout-IsSound cfg d s on h = ground arith

send_transfer_frame-IsSound :
    (cfg : Settings) (r : String) (p : Payload) → Keeps cfg (send_transfer_frame cfg r p)
send_transfer_frame-IsSound cfg r p s on h =
    elim p as (λ p. IsSound cfg (send_transfer_frame cfg r p s)) [
      | report raw ↦ send-IsSound cfg r (report raw) s h
      | report_chunk raw ↦ send-IsSound cfg r (report_chunk raw) s h
      | report_ack raw ↦ send-IsSound cfg r (report_ack raw) s h
      | _ ↦ h
    ]

dispatch_frame-IsSound :
    (cfg : Settings) (sends : Bool) (env : Envelope) (p : Payload)
    → Keeps cfg (dispatch_frame cfg sends env p)
unfolding dispatch_frame handle_test_result handle_peer_abort
dispatch_frame-IsSound cfg sends env (heartbeat none) s on h = h
dispatch_frame-IsSound cfg sends env (heartbeat (some hb)) s on h = h
dispatch_frame-IsSound cfg sends env (ready payload) s on h =
    settle-IsSound cfg (handle_peer_ready sends s.session) s
      (handle_peer_ready-role sends s.session) on h
dispatch_frame-IsSound cfg sends env (Messages.start_confirmation payload) s on h =
    settle-IsSound cfg (handle_start_confirmation payload s.session) s
      (handle_start_confirmation-role payload s.session) on h
dispatch_frame-IsSound cfg sends env (test_request payload) s on h =
    handle_test_request-IsSound cfg env.message_id payload s on h
dispatch_frame-IsSound cfg sends env test_progress s on h = h
dispatch_frame-IsSound cfg sends env (test_result payload) s on h =
    if-IsSound cfg (any (str_eq env.in_reply_to) s.pending) _ _ h h
dispatch_frame-IsSound cfg sends env (warning code) s on h = h
dispatch_frame-IsSound cfg sends env (Messages.abort payload) s on h = ground arith
dispatch_frame-IsSound cfg sends env (report raw) s on h =
    handle_report_manifest-IsSound cfg env s on h
dispatch_frame-IsSound cfg sends env (report_chunk raw) s on h = route-IsSound cfg env s on h
dispatch_frame-IsSound cfg sends env (report_ack raw) s on h = route-IsSound cfg env s on h
dispatch_frame-IsSound cfg sends env (complete payload) s on h =
    handle_complete-IsSound cfg env.message_id payload s on h
dispatch_frame-IsSound cfg sends env (hello payload) s on h = warn-IsSound cfg s on h
dispatch_frame-IsSound cfg sends env (hello_ack payload) s on h = warn-IsSound cfg s on h
dispatch_frame-IsSound cfg sends env (capabilities payload) s on h = warn-IsSound cfg s on h
dispatch_frame-IsSound cfg sends env (unknown type) s on h = h

handle_frame-IsSound :
    (cfg : Settings) (sends : Bool) (env : Envelope) → Keeps cfg (handle_frame cfg sends env)
unfolding handle_frame
handle_frame-IsSound cfg sends env s on h =
    let seen = record s { dedup = (observe s.dedup env.message_id).0 } in
    if-IsSound cfg (is_admitted cfg env s) _ _
      (dispatch_frame-IsSound cfg sends env env.payload seen on h) h

after_plan-IsSound : (cfg : Settings) → Keeps cfg (after_plan cfg)
after_plan-IsSound cfg s on h =
    let starts = start_transfer-IsSound cfg s on h in
    let (has, completes, sends) = complete-IsSound cfg "" (cfg.verdict) s h in
    if-IsSound cfg
      (cfg.sends_reports && not cfg.no_report_transfer && cfg.peer_caps.accept_report_transfer) _ _
      starts sends

handle_transfer_done-IsSound :
    (cfg : Settings) (fails : Bool) → Keeps cfg (handle_transfer_done cfg fails)
unfolding handle_transfer_done
handle_transfer_done-IsSound cfg fails s on h =
    let off = record s { transfer = none } in
    let told = if fails then send cfg "" (warning "report_transfer_failed") off else off in
    let told_sound =
      if-IsSound cfg fails _ _ (send-IsSound cfg "" (warning "report_transfer_failed") off h) h in
    let (has, completes, sends) = complete-IsSound cfg "" cfg.verdict told told_sound in
    if-IsSound cfg (told.session.coordinator && not told.sent_complete) _ _ sends told_sound

handle_event-IsSound : (cfg : Settings) (e : Event) → Keeps cfg (handle_event cfg e)
unfolding handle_event finish_abort handle_plan_done handle_start start_call
handle_event-IsSound cfg (frame sends env) s on h = handle_frame-IsSound cfg sends env s on h
handle_event-IsSound cfg conn_err s on h = ground arith
handle_event-IsSound cfg stdin_eof s on h = ground arith
handle_event-IsSound cfg quit s on h = ground arith
handle_event-IsSound cfg interrupted s on h = ground arith
handle_event-IsSound cfg tick s on h =
    session-IsSound cfg (on_countdown_tick s.session) s (on_countdown_tick-role s.session) h
handle_event-IsSound cfg shift s on h = ground arith
handle_event-IsSound cfg (start sends sends_start) s on h =
    let (session, frames) = send_local_ready sends sends_start s.session in
    let barrier =
      send_all-IsSound cfg frames (record s { session = session })
        (session-IsSound cfg session s (send_local_ready-role sends sends_start s.session) h) in
    if-IsSound cfg s.session.local_ready _ _ h (
      option-IsSound cfg (require s.session.machine (waiting_for_local_start ∷ [])) _ (λ _. s)
        barrier (λ _. h))
handle_event-IsSound cfg (op_done fails status payload carrier) s on h =
    option-IsSound cfg s.active s _ h (λ a.
      handle_op_done-IsSound cfg a.req_id
        (record { status = executor_status fails status; result = none }) payload carrier s on h)
handle_event-IsSound cfg op_progress s on h =
    option-IsSound cfg s.active s _ h (λ a. send-IsSound cfg a.req_id test_progress s h)
handle_event-IsSound cfg (plan_done done) s on h =
    option-IsSound cfg (transition s.session.machine generating_report).1 _ (λ _. s)
      (after_plan-IsSound cfg (move generating_report s) on h) (λ _. h)
handle_event-IsSound cfg (plan_done cancelled) s on h = h
handle_event-IsSound cfg (plan_done (plan_error text)) s on h = ground arith
handle_event-IsSound cfg (transfer_done fails) s on h =
    handle_transfer_done-IsSound cfg fails s on h
handle_event-IsSound cfg (call req) s on h =
    send-IsSound cfg "" (test_request (some req))
      (record s { pending = (next s.ids).1 ∷ s.pending }) h
handle_event-IsSound cfg (call_ended id) s on h = h
handle_event-IsSound cfg (call_expired op) s on h = ground arith
handle_event-IsSound cfg (plan_warns code) s on h = warn_peer-IsSound cfg code s on h
handle_event-IsSound cfg (timeout_set d) s on h = set_idle_timeout-IsSound cfg d s on h
handle_event-IsSound cfg (beat hb) s on h = send-IsSound cfg "" (heartbeat (some hb)) s h
handle_event-IsSound cfg (transfer_sends r p) s on h = send_transfer_frame-IsSound cfg r p s on h

until-IsSound :
    (cfg : Settings) (o : Option FinishSpec) (s t : Live)
    → IsSound cfg s
    → (o ≡ none → IsSound cfg t)
    → IsSound cfg (elim o as (λ _. Live) [ some spec ↦ s | none ↦ t ])
until-IsSound cfg none s t hs ht = ht refl
until-IsSound cfg (some spec) s t hs ht = hs

-- A session is sound where, as long as it goes on, it has counted fewer than three strikes; where, if it is a
-- worker's and no cable-test window is open, its idle timeout is the configured one; where it has sent
-- its verdict if it says so; and where, if it finishes as completed, it has sent its verdict and has that of
-- the peer. A session that is sound is sound after any events of its loop.
pub loop-IsSound :
    (cfg : Settings) (es : List Event) (s : Live) → IsSound cfg s → IsSound cfg (loop cfg es s)
unfolding loop
loop-IsSound cfg [] s h = h
loop-IsSound cfg (e ∷ es) s h =
    until-IsSound cfg s.fin s (loop cfg es (handle_event cfg e s)) h
      (λ on. loop-IsSound cfg es (handle_event cfg e s) (handle_event-IsSound cfg e s on h))
