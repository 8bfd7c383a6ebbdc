-- ===== src/Peer/Loop/Requests.antt =====
-- internal/peer/exec.go: the operations that the coordinator requests of the worker, and their results.
-- What the executor and the window hook answer are inputs. A payload is encoded, or cannot be.
use cablecheck.Base.{
  ℕ, zero, suc, Bool, true, false, not, ◌&&◌, ◌||◌, Option, none, some, List, [], ◌∷◌,
  if◌then◌else◌,
}
use cablecheck.Base.Int.{ℤ, pos, ltb_ℤ, eqb_ℤ}
use cablecheck.Base.Text.{String, str_eq}
use cablecheck.Protocol.MessageId.{is_blank}
use cablecheck.Protocol.Messages.{TestRequest, TestResult, test_progress, test_result}
use cablecheck.Peer.State.{testing, require}
use cablecheck.Peer.Loop.{Settings, PlanStep, Live, send, warn_invalid_state}

abbrev pub op_cancel : String
op_cancel = "cancel"

abbrev pub op_window_start : String
op_window_start = "cable_test_window_start"

abbrev pub op_window_end : String
op_window_end = "cable_test_window_end"

pub data Encoded : Type 0 where
  nothing unencodable : Encoded
  encoded : List ℕ → Encoded

-- `writeTestResult`.
unfoldable pub write_test_result : Settings → String → TestResult → Live → Live
write_test_result cfg req_id res s = send cfg req_id (test_result (some res)) s

abbrev pub answer : Settings → String → String → Live → Live
answer cfg req_id status s =
    write_test_result cfg req_id (record { status = status; result = none }) s

unfoldable pub step_at : List String → ℕ → String
step_at [] n = ""
step_at (x ∷ xs) zero = x
step_at (x ∷ xs) (suc n) = step_at xs n

-- The name of a step: that of the request, or that of the session.
abbrev pub step_name : TestRequest → List String → String
step_name req steps =
    if is_blank req.step_name
    then elim req.step [ pos (suc n) ↦ step_at steps n | _ ↦ "" ]
    else req.step_name

abbrev pub same_step : PlanStep → Option PlanStep → Bool
same_step a none = false
same_step a (some b) = eqb_ℤ a.step b.step && eqb_ℤ a.total b.total && str_eq a.name b.name

abbrev pub show_step : PlanStep → Live → Live
show_step step s =
    if same_step step s.announced
    then s
    else record s { announced = some step; shown = step ∷ s.shown }

unfoldable pub announce_request_step : Settings → TestRequest → Live → Live
announce_request_step cfg req s =
    if ltb_ℤ req.step (pos 1) || ltb_ℤ req.total_steps (pos 1) || ltb_ℤ req.total_steps req.step
    then s
    else if is_blank (step_name req s.session.steps)
    then s
    else show_step
        (record {
          step = req.step;
          total = req.total_steps;
          name = cfg.redact (step_name req s.session.steps);
        })
        s

-- `startOp`, without the executor.
abbrev pub start_op : String → TestRequest → Live → Live
start_op req_id req s = record s { active = some (record { req_id = req_id; op = req.op }) }

abbrev pub accept_request : Settings → String → TestRequest → Live → Live
accept_request cfg req_id req s = start_op req_id req (announce_request_step cfg req s)

-- A window that starts: its timeout, which is positive, and the hook.
unfoldable pub open_window : Settings → String → TestRequest → Option ℤ → Live → Live
open_window cfg req_id req none s = answer cfg req_id "rejected" s
open_window cfg req_id req (some ms) s =
    if ltb_ℤ (pos 0) ms
    then accept_request cfg req_id req
        (record s { idle_timeout = ms; window_active = true; window_calls = true ∷ s.window_calls })
    else answer cfg req_id "rejected" s

unfoldable pub cancel_active : Live → Live
cancel_active s = elim s.active [
  | none ↦ s
  | some a ↦ record s { cancelled = a.req_id ∷ s.cancelled }
]

-- A decoded request of a session that is testing.
unfoldable pub dispatch_request : Settings → String → TestRequest → Live → Live
dispatch_request cfg req_id req s =
    if str_eq req.op op_cancel then answer cfg req_id "ok" (cancel_active s) else elim s.active [
      | some a ↦ answer cfg req_id "rejected" s
      | none ↦
          if str_eq req.op op_window_start && s.window_active
          then answer cfg req_id "rejected" s
          else if str_eq req.op op_window_end && not s.window_active
          then answer cfg req_id "rejected" s
          else if str_eq req.op op_window_start
          then open_window cfg req_id req req.window_ms s
          else accept_request cfg req_id req s
    ]

unfoldable pub handle_test_request : Settings → String → Option TestRequest → Live → Live
handle_test_request cfg req_id payload s =
    if s.session.coordinator
    then warn_invalid_state cfg s
    else elim (require s.session.machine (testing ∷ [])) [
      | some e ↦ warn_invalid_state cfg s
      | none ↦ elim payload [ none ↦ s | some req ↦ dispatch_request cfg req_id req s ]
    ]

-- The status that the executor reports: whether the handler failed, and its own status.
abbrev pub executor_status : Bool → String → String
executor_status true status = if is_blank status || str_eq status "ok" then "failed" else status
executor_status false status = if is_blank status then "ok" else status

abbrev pub close_window : Settings → Live → Live
close_window cfg s = record s {
  window_active = false;
  window_calls = false ∷ s.window_calls;
  idle_timeout = cfg.idle_timeout;
}

abbrev pub with_payload : Encoded → TestResult → TestResult
with_payload nothing res = res
with_payload unencodable res = record res { status = "failed" }
with_payload (encoded raw) res = record res { result = some raw }

-- The operation with this request, if it is the running one, is over; its name.
abbrev pub release : String → Live → Live × String
release req_id s = elim s.active [
  | none ↦ (s, "")
  | some a ↦ if str_eq a.req_id req_id then (record s { active = none }, a.op) else (s, "")
]

-- `handleOpDone`; `carrier` is what the hook counts, 0 without one.
unfoldable pub handle_op_done : Settings → String → TestResult → Encoded → ℕ → Live → Live
handle_op_done cfg req_id res payload carrier s =
    let (freed, op_name) = release req_id s in
    if str_eq op_name op_window_end
    then write_test_result cfg req_id (with_payload (encoded (cfg.window_result carrier)) res)
        (close_window cfg freed)
    else if str_eq op_name op_window_start && not (str_eq res.status "ok")
    then write_test_result cfg req_id (with_payload payload res) (close_window cfg freed)
    else write_test_result cfg req_id (with_payload payload res) freed

-- `handleOpProgress`.
abbrev pub handle_op_progress : Settings → String → Live → Live
handle_op_progress cfg req_id s = send cfg req_id test_progress s
