-- ===== src/Peer/Loop/Invariant.antt =====
-- internal/peer/loop.go, exec.go, transfer.go: when a session is sound, and the handlers that keep it so.
use cablecheck.Base.{
  ℕ, ◌≤◌, ◌≡◌, ◌∙◌, Bool, true, false, not, ◌&&◌, ◌||◌, Option, none, some, List, [], ◌∷◌,
  if◌then◌else◌, arith,
}
use mathlib.Core.Bool.{true≢false}
use cablecheck.Base.Int.{ℤ}
use cablecheck.Base.Text.{String, str_eq}
use cablecheck.Protocol.Messages.{
  TestRequest, TestResult, Complete, Payload, test_result, report_ack, complete, Envelope,
}
use cablecheck.Peer.State.{generating_report, completed, state_eq}
use cablecheck.Peer.Ready.{Frame}
use cablecheck.Peer.Loop.{
  Settings, FinishSpec, Live, send, finish_abort, warn_invalid_state, send_all, payload_of, move,
}
use cablecheck.Peer.Loop.Requests.{
  Encoded, write_test_result, announce_request_step, accept_request, open_window, cancel_active,
  dispatch_request, handle_test_request, handle_op_done, encoded, with_payload, close_window,
  release, op_window_end, op_window_start,
}
use cablecheck.Peer.Loop.Dispatch.{
  start_transfer, route_transfer_frame, receive_manifest, handle_report_manifest, handle_complete,
  write_complete, complete_with,
}

abbrev is_complete : Payload → Bool
is_complete (complete payload) = true
is_complete _ = false

-- A complete frame was handed to the connection.
abbrev has_complete : List Envelope → Bool
has_complete [] = false
has_complete (e ∷ es) = is_complete e.payload || has_complete es

abbrev is_some : Option Complete → Bool
is_some none = false
is_some (some c) = true

abbrev ends_completed : Option FinishSpec → Bool
ends_completed none = false
ends_completed (some spec) = state_eq spec.state completed

-- While the loop goes on there were fewer than three strikes; a worker without a cable-test window has the
-- configured idle timeout; a session that finishes as completed has sent its verdict and has that
-- of the peer.
abbrev pub IsSound : Settings → Live → Type 0
IsSound cfg s =
    (s.fin ≡ none → s.invalid_state ≤ 2)
    × (s.session.coordinator ≡ false → s.window_active ≡ false → s.idle_timeout ≡ cfg.idle_timeout)
    × (s.sent_complete ≡ true → has_complete s.sent ≡ true)
    × (ends_completed s.fin ≡ true
        → (has_complete s.sent ≡ true) × (is_some s.peer_complete ≡ true))

pub send-IsSound :
    (cfg : Settings) (r : String) (p : Payload) (s : Live)
    → IsSound cfg s
    → IsSound cfg (send cfg r p s)
unfolding send
send-IsSound cfg r p s h = ground arith

pub warn-IsSound :
    (cfg : Settings) (s : Live)
    → s.fin ≡ none
    → IsSound cfg s
    → IsSound cfg (warn_invalid_state cfg s)
unfolding warn_invalid_state finish_abort send
warn-IsSound cfg s on h = ground arith

-- A handler of a loop that goes on.
abbrev pub Keeps : Settings → (Live → Live) → Type 0
Keeps cfg handler = (s : Live) → s.fin ≡ none → IsSound cfg s → IsSound cfg (handler s)

answer-IsSound :
    (cfg : Settings) (req_id : String) (res : TestResult)
    → Keeps cfg (write_test_result cfg req_id res)
unfolding write_test_result
answer-IsSound cfg req_id res s on h = send-IsSound cfg req_id (test_result (some res)) s h

accept-IsSound :
    (cfg : Settings) (req_id : String) (req : TestRequest)
    → Keeps cfg (accept_request cfg req_id req)
unfolding announce_request_step
accept-IsSound cfg req_id req s on h = ground arith

cancel-IsSound : (cfg : Settings) → Keeps cfg cancel_active
unfolding cancel_active
cancel-IsSound cfg s on h = ground arith

cancel_active-fin : (s : Live) → (cancel_active s).fin ≡ s.fin
unfolding cancel_active
cancel_active-fin s = ground arith

open_window-IsSound :
    (cfg : Settings) (req_id : String) (req : TestRequest) (window : Option ℤ)
    → Keeps cfg (open_window cfg req_id req window)
unfolding open_window
open_window-IsSound cfg req_id req none s on h = answer-IsSound cfg req_id _ s on h
open_window-IsSound cfg req_id req (some ms) s on h =
    let opened = record s {
      idle_timeout = ms;
      window_active = true;
      window_calls = true ∷ s.window_calls;
    } in
    let rejects =
      answer-IsSound cfg req_id (record { status = "rejected"; result = none }) s on h in
    let accepts =
      accept-IsSound cfg req_id req opened on (h.0, (λ w e. absurd (true≢false e)), h.2, h.3) in
    ground arith

dispatch_request-IsSound :
    (cfg : Settings) (req_id : String) (req : TestRequest)
    → Keeps cfg (dispatch_request cfg req_id req)
unfolding dispatch_request
dispatch_request-IsSound cfg req_id req s on h =
    let rejects =
      answer-IsSound cfg req_id (record { status = "rejected"; result = none }) s on h in
    let cancels =
      answer-IsSound cfg req_id (record { status = "ok"; result = none }) (cancel_active s)
        (cancel_active-fin s ∙ on) (cancel-IsSound cfg s on h) in
    let opens = open_window-IsSound cfg req_id req req.window_ms s on h in
    let accepts = accept-IsSound cfg req_id req s on h in ground arith

pub handle_test_request-IsSound :
    (cfg : Settings) (req_id : String) (payload : Option TestRequest)
    → Keeps cfg (handle_test_request cfg req_id payload)
unfolding handle_test_request
handle_test_request-IsSound cfg req_id none s on h =
    let warns = warn-IsSound cfg s on h in ground arith
handle_test_request-IsSound cfg req_id (some req) s on h =
    let warns = warn-IsSound cfg s on h in
    let dispatches = dispatch_request-IsSound cfg req_id req s on h in ground arith

release-IsSound :
    (cfg : Settings) (req_id : String) (s : Live)
    → s.fin ≡ none
    → IsSound cfg s
    → ((release req_id s).0.fin ≡ none) × IsSound cfg (release req_id s).0
release-IsSound cfg req_id s on h = ground arith

close-IsSound : (cfg : Settings) (s : Live) → IsSound cfg s → IsSound cfg (close_window cfg s)
close-IsSound cfg s h = ground arith

-- Both branches of a test are sound.
pub if-IsSound :
    (cfg : Settings) (b : Bool) (s t : Live)
    → IsSound cfg s
    → IsSound cfg t
    → IsSound cfg (if b then s else t)
if-IsSound cfg true s t hs ht = hs
if-IsSound cfg false s t hs ht = ht

-- Both cases of an option are sound.
pub option-IsSound :
    {E : Type 0}
    → (cfg : Settings) (o : Option E) (s : Live) (f : E → Live) → IsSound cfg s
    → ((e : E) → IsSound cfg (f e))
    → IsSound cfg (elim o as (λ _. Live) [ none ↦ s | some e ↦ f e ])
option-IsSound cfg none s f hs hf = hs
option-IsSound cfg (some e) s f hs hf = hf e

pub handle_op_done-IsSound :
    (cfg : Settings) (req_id : String) (res : TestResult) (payload : Encoded) (carrier : ℕ)
    → Keeps cfg (handle_op_done cfg req_id res payload carrier)
unfolding handle_op_done
handle_op_done-IsSound cfg req_id res payload carrier s on h =
    let (freed, op_name) = release req_id s in
    let (goes_on, freed_sound) = release-IsSound cfg req_id s on h in
    let closes = close-IsSound cfg freed freed_sound in
    let ends =
      answer-IsSound cfg req_id (with_payload (encoded (cfg.window_result carrier)) res)
        (close_window cfg freed) goes_on closes in
    let fails =
      answer-IsSound cfg req_id (with_payload payload res) (close_window cfg freed) goes_on
        closes in
    let writes = answer-IsSound cfg req_id (with_payload payload res) freed goes_on freed_sound in
    if-IsSound cfg (str_eq op_name op_window_end) _ _ ends (
      if-IsSound cfg (str_eq op_name op_window_start && not (str_eq res.status "ok")) _ _ fails
        writes)

pub send_all-IsSound :
    (cfg : Settings) (frames : List Frame) (s : Live)
    → IsSound cfg s
    → IsSound cfg (send_all cfg frames s)
unfolding send_all
send_all-IsSound cfg [] s h = h
send_all-IsSound cfg (f ∷ fs) s h =
    send_all-IsSound cfg fs (send cfg "" (payload_of f) s) (send-IsSound cfg "" (payload_of f) s h)

pub route-IsSound : (cfg : Settings) (env : Envelope) → Keeps cfg (route_transfer_frame cfg env)
unfolding route_transfer_frame
route-IsSound cfg env s on h = let warns = warn-IsSound cfg s on h in ground arith

pub start_transfer-IsSound : (cfg : Settings) → Keeps cfg start_transfer
unfolding start_transfer
start_transfer-IsSound cfg s on h = ground arith

start_transfer-fin : (s : Live) → (start_transfer s).fin ≡ s.fin
unfolding start_transfer
start_transfer-fin s = ground arith

receive_manifest-IsSound : (cfg : Settings) (env : Envelope) → Keeps cfg (receive_manifest cfg env)
receive_manifest-IsSound cfg env s on h =
    let declines =
      send-IsSound cfg env.message_id (report_ack cfg.declined) (record s { transfer_ran = true })
        h in
    let routes =
      route-IsSound cfg env (start_transfer s) (start_transfer-fin s ∙ on)
        (start_transfer-IsSound cfg s on h) in
    ground arith

pub handle_report_manifest-IsSound :
    (cfg : Settings) (env : Envelope) → Keeps cfg (handle_report_manifest cfg env)
unfolding handle_report_manifest
handle_report_manifest-IsSound cfg env s on h =
    let warns = warn-IsSound cfg s on h in
    let receives = receive_manifest-IsSound cfg env s on h in
    let moves = receive_manifest-IsSound cfg env (move generating_report s) on h in ground arith

-- A verdict that is written stands among the frames, and finishes a session soundly.
pub complete-IsSound :
    (cfg : Settings) (r : String) (comp : Complete) (s : Live)
    → IsSound cfg s
    → (has_complete (write_complete cfg r s).sent ≡ true)
      × IsSound cfg (complete_with comp (write_complete cfg r s))
      × IsSound cfg (record (write_complete cfg r s) { sent_complete = true })
unfolding send
complete-IsSound cfg r comp s h = ground arith

pub handle_complete-IsSound :
    (cfg : Settings) (message_id : String) (payload : Option Complete)
    → Keeps cfg (handle_complete cfg message_id payload)
unfolding handle_complete
handle_complete-IsSound cfg message_id none s on h = h
handle_complete-IsSound cfg message_id (some comp) s on h =
    let warns = warn-IsSound cfg s on h in
    let writes = complete-IsSound cfg message_id comp s h in
    let moves = complete-IsSound cfg message_id comp (move generating_report s) h in ground arith
