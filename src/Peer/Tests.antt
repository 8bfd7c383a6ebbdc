-- ===== src/Peer/Tests.antt =====
-- Concrete sessions of internal/peer.
use cablecheck.Base.{◌≡◌, ◌⊎◌, ◌<◌, true, false, none, some, [], ◌∷◌, ◌++◌}
use cablecheck.Peer.State.{
  initializing, preflight, listening, handshake, testing, completed, is_terminal,
  invalid_transition, StateMachine, new_state_machine, transition, drive,
}
use cablecheck.Peer.Lifecycle.{stage, IsOrderly, transition_lem, drive-IsOrderly}
use cablecheck.Peer.Ready.System.{start_two, to_one, steps}
use cablecheck.Peer.Ready.Stages.{Rest}
use cablecheck.Peer.Ready.Barrier.{
  is_safe, IsStarted, waiting, to_the_end, send_local_ready-IsStarted,
}
use cablecheck.Base.{◌≢◌, ◌+◌, refl, List, map, arith}
use cablecheck.Base.Int.{pos}
use cablecheck.Base.Text.{String, str_eq}
use cablecheck.Protocol.Dedup.{new_duplicate_detector}
use cablecheck.Protocol.Messages.{Capabilities, TestRequest, test_request, new_envelope}
use cablecheck.Protocol.Messages as Messages
use cablecheck.Peer.Handshake.{
  Network, Config, Wire, got, arrived, late, broken, begin, hello_ip_claim_matches,
}
use cablecheck.Peer.Handshake.Agreement.{
  IsCompatible, coordinator_run, worker_run, questions, answers, handshakes-agreement,
}
use cablecheck.Peer.Handshake.Success.{IsChecked, coordinator_handshake-IsChecked}
use cablecheck.Peer.Handshake.Establish.{
  Accepted, accept_fails, wrong_address, caller, Established, establish_coordinator,
  establish_coordinator-ends,
}
use cablecheck.Peer.Loop.{Settings, Live}
use cablecheck.Peer.Loop.Requests.{nothing}
use cablecheck.Peer.Loop.Dispatch.{Event, frame, op_done, loop}
use cablecheck.Peer.Loop.Ledger as Ledger
use cablecheck.Peer.Loop.Ledger.{running}
use cablecheck.Peer.Loop.Ledger.Events.{accepted_in, loop-owed}
use cablecheck.Peer.Loop.Invariant.{IsSound}
use cablecheck.Peer.Loop.Sound.{loop-IsSound}

abbrev listener : StateMachine
listener = record { cur = listening; changes = (preflight, listening) ∷ [] }

transition_lem_example :
    (((transition listener handshake).1 ≡ none)
      × ((transition listener handshake).0.cur ≡ handshake)
      × ((transition listener handshake).0.changes
          ≡ listener.changes ++ (listening, handshake) ∷ [])
      × (is_terminal listening ≡ false)
      × (stage listening < stage handshake))
    ⊎ ((transition listener handshake).1 ≡ some (invalid_transition listening handshake))
      × ((transition listener handshake).0 ≡ listener)
transition_lem_example = transition_lem listener handshake

drive-IsOrderly_example :
    IsOrderly
      (drive (new_state_machine initializing) (preflight ∷ testing ∷ listening ∷ completed ∷ []))
drive-IsOrderly_example = drive-IsOrderly (preflight ∷ testing ∷ listening ∷ completed ∷ [])

-- A coordinator with a plan of two steps, and a worker.
abbrev coordinator : Rest
coordinator = record {
  non_interactive = false;
  own = ("quick", "ping" ∷ "tcp" ∷ []);
  changes = [];
  mode = "";
  steps = [];
  plan_started = false;
}

abbrev worker : Rest
worker = record coordinator { own = ("", []) }

send_local_ready-IsStarted_example :
    let x = steps (start_two ∷ to_one ∷ []) (waiting coordinator worker) in
    (is_safe x ≡ true) × IsStarted (steps to_the_end x)
send_local_ready-IsStarted_example =
    send_local_ready-IsStarted coordinator worker (start_two ∷ to_one ∷ [])

-- Addresses and tokens as texts that are compared whole.
abbrev plain : Network String
plain = record {
  parse_addr = λ s. some s;
  show_addr = λ a. a;
  unmap = λ a. a;
  addr_eq = str_eq;
  token_equal = str_eq;
}

abbrev caps : Capabilities
caps = record {
  cablecheck_version = "1.2";
  json = true;
  sudo_available = false;
  cable_test_supported = true;
  accept_report_transfer = true;
}

abbrev one : Config String
one = record {
  role = "pc1";
  token = "secret";
  version = "1.2";
  local_ip = "10.0.0.1";
  peer_ip = "10.0.0.2";
  caps = caps;
}

abbrev two : Config String
two = record {
  role = "pc2";
  token = "secret";
  version = "1.3";
  local_ip = "10.0.0.2";
  peer_ip = "10.0.0.1";
  caps = record caps { sudo_available = true };
}

one-two-IsCompatible : IsCompatible plain one two
unfolding hello_ip_claim_matches
one-two-IsCompatible = record {
  tokens = refl;
  two_addresses_one = refl;
  one_addresses_two = refl;
  one_json = refl;
  two_json = refl;
}

handshakes-agreement_example :
    ((coordinator_run plain one "t-1" (questions plain two "t-1")).0
      ≡ got (record { test_id = "t-1"; peer_version = "1.3"; peer_caps = two.caps }))
    × ((coordinator_run plain one "t-1" (questions plain two "t-1")).1.written
        ≡ answers plain one "t-1")
    × ((worker_run plain one two "t-1").0
        ≡ got (record { test_id = "t-1"; peer_version = "1.2"; peer_caps = one.caps }))
    × ((worker_run plain one two "t-1").1.written ≡ questions plain two "t-1")
handshakes-agreement_example = handshakes-agreement plain one two "t" "-1" one-two-IsCompatible

abbrev first_wire : Wire
first_wire = begin plain one (map arrived (questions plain two "t-1")) (true ∷ true ∷ [])

coordinator_handshake-IsChecked_example :
    IsChecked plain one
      (some "t-1")
      first_wire
      (record { test_id = "t-1"; peer_version = "1.3"; peer_caps = two.caps })
coordinator_handshake-IsChecked_example =
    coordinator_handshake-IsChecked plain one (some "t-1") first_wire
      (record { test_id = "t-1"; peer_version = "1.3"; peer_caps = two.caps })
      (handshakes-agreement plain one two "t" "-1" one-two-IsCompatible).0

-- A caller that says nothing, a foreign one, and three whose connections break.
abbrev callers_of_four : List Accepted
callers_of_four =
    caller (late ∷ []) [] none
    ∷ wrong_address
    ∷ caller (broken ∷ []) (true ∷ []) none
    ∷ caller (broken ∷ []) [] none
    ∷ caller [] [] none
    ∷ []

establish_coordinator-ends_example :
    (establish_coordinator plain one 0 0 callers_of_four ≢ Established.listening)
    × (establish_coordinator plain one 0 0 (callers_of_four ++ accept_fails ∷ [])
        ≡ establish_coordinator plain one 0 0 callers_of_four)
establish_coordinator-ends_example =
    establish_coordinator-ends plain one callers_of_four (accept_fails ∷ []) (omega arith)

abbrev settings : Settings
settings = record {
  test_id = "t-1";
  peer_caps = caps;
  idle_timeout = pos 15_000;
  sends_reports = false;
  receives_reports = true;
  no_report_transfer = false;
  verdict = record { classification = "good"; summary = ""; exit_code = pos 0 };
  redact = λ s. s;
  window_result = λ n. n ∷ [];
  declined = [];
}

-- A worker that is testing.
abbrev busy : Live
busy = record {
  session = record {
    coordinator = false;
    non_interactive = false;
    own = ("", []);
    machine = new_state_machine testing;
    local_ready = true;
    peer_ready = true;
    mode = "quick";
    steps = [];
    countdown = [];
    plan_started = false;
  };
  ids = record { role = "pc2"; seq = 5 };
  dedup = new_duplicate_detector;
  sent = [];
  active = none;
  cancelled = [];
  window_active = false;
  window_calls = [];
  idle_timeout = pos 15_000;
  invalid_state = 0;
  announced = none;
  shown = [];
  pending = [];
  resolved = [];
  transfer = none;
  transfer_ran = false;
  sent_complete = false;
  peer_complete = none;
  peer_heartbeat = none;
  peer_abort = ("", "");
  fin = none;
}

abbrev request : String → TestRequest
request op = record {
  op = op;
  window_ms = none;
  timeout_ms = pos 0;
  step = pos 1;
  total_steps = pos 2;
  step_name = "ping";
}

-- A request that runs, one that is refused meanwhile, a start confirmation at the wrong time, the result of
-- the first request, and the verdict.
abbrev exchange : List Event
exchange =
    frame true (new_envelope "t-1" "pc1-00000007" (test_request (some (request "ping"))))
    ∷ frame true (new_envelope "t-1" "pc1-00000008" (test_request (some (request "tcp"))))
    ∷ frame true (new_envelope "t-1" "pc1-00000009" (Messages.start_confirmation none))
    ∷ op_done false "" nothing 0
    ∷ frame true (new_envelope "t-1" "pc1-00000010" (Messages.complete none))
    ∷ []

loop-owed_example :
    Ledger.answers "pc1-00000007" (loop settings exchange busy).sent
      + running "pc1-00000007" (loop settings exchange busy).active
    ≡ accepted_in settings "pc1-00000007" exchange busy
      + (Ledger.answers "pc1-00000007" busy.sent + running "pc1-00000007" busy.active)
loop-owed_example = loop-owed settings "pc1-00000007" exchange busy

busy-IsSound : IsSound settings busy
busy-IsSound = ground arith

loop-IsSound_example : IsSound settings (loop settings exchange busy)
loop-IsSound_example = loop-IsSound settings exchange busy busy-IsSound
