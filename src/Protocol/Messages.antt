-- ===== src/Protocol/Messages.antt =====
-- internal/protocol/messages.go, the envelope of envelope.go, and token.go. An envelope holds its
-- payload as DecodePayload reads it for the type of the envelope, `none` where that fails. Times are
-- left out; the fields of a capability that nothing modelled reads are left out too.
use cablecheck.Base.{Bool, Option, List, ℕ}
use cablecheck.Base.Int.{ℤ}
use cablecheck.Base.Text.{String, str_eq}

abbrev pub version : String
version = "1"

pub record Hello : Type 0 where
  pub token : String
  pub role : String
  pub cablecheck_version : String
  pub local_ip : String
  pub peer_ip : String

pub record HelloAck : Type 0 where
  pub test_id : String
  pub cablecheck_version : String

-- `json` is that of the iperf3 capabilities.
pub record Capabilities : Type 0 where
  pub cablecheck_version : String
  pub json : Bool
  pub sudo_available : Bool
  pub cable_test_supported : Bool
  pub accept_report_transfer : Bool

pub record StartConfirmation : Type 0 where
  pub start_in_ms : ℤ
  pub mode : String
  pub steps : List String

-- `window_ms` is the idle timeout of the parameters, read as CableTestWindowParams.
pub record TestRequest : Type 0 where
  pub op : String
  pub window_ms : Option ℤ
  pub timeout_ms : ℤ
  pub step : ℤ
  pub total_steps : ℤ
  pub step_name : String

-- The result is JSON, `none` where it is absent.
pub record TestResult : Type 0 where
  pub status : String
  pub result : Option (List ℕ)

pub record Abort : Type 0 where
  pub reason : String
  pub stage : String
  pub detail : String

pub record Complete : Type 0 where
  pub classification : String
  pub summary : String
  pub exit_code : ℤ

pub record Heartbeat : Type 0 where
  pub seq : ℕ
  pub state : String
  pub active_op : String

-- The types with their payloads. The frames of a report transfer keep their JSON, which the session
-- passes on; progress, and a warning but for its code, are left out.
pub data Payload : Type 0 where
  hello : Option Hello → Payload
  hello_ack : Option HelloAck → Payload
  capabilities : Option Capabilities → Payload
  ready : Option Bool → Payload
  start_confirmation : Option StartConfirmation → Payload
  test_request : Option TestRequest → Payload
  test_progress : Payload
  test_result : Option TestResult → Payload
  warning : String → Payload
  abort : Option Abort → Payload
  heartbeat : Option Heartbeat → Payload
  report report_chunk report_ack : List ℕ → Payload
  complete : Option Complete → Payload
  unknown : String → Payload

pub record Envelope : Type 0 where
  pub protocol_version : String
  pub test_id : String
  pub message_id : String
  pub in_reply_to : String
  pub payload : Payload

-- `NewEnvelope`, for payloads that JSON can hold.
abbrev pub new_envelope : String → String → Payload → Envelope
new_envelope test_id message_id payload = record {
  protocol_version = version;
  test_id = test_id;
  message_id = message_id;
  in_reply_to = "";
  payload = payload;
}

-- `CheckVersion` finds no error.
abbrev pub check_version : Envelope → Bool
check_version env = str_eq env.protocol_version version

-- `TokenEqual`; SHA-256 is a parameter.
abbrev pub token_equal : (String → List ℕ) → (List ℕ → List ℕ → Bool) → String → String → Bool
token_equal sha equal a b = equal (sha a) (sha b)
