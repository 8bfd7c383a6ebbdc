-- ===== src/Peer/Handshake.antt =====
-- internal/peer/handshake.go: the two halves of the handshake. What arrives within the deadlines, and
-- whether a write works, are inputs; a connection that is closed after a failure is not used again.
-- The texts of errors are left out; the detail of an abort is a short word for its text, or empty.
pub mod Bind
pub mod Agreement
pub mod Inversion
pub mod Success
pub mod Establish
use cablecheck.Base.{
  ℕ, Bool, true, false, not, ◌&&◌, ◌||◌, Option, none, some, List, [], ◌∷◌, ◌++◌, if◌then◌else◌,
}
use cablecheck.Base.Text.{String, str_eq}
use cablecheck.Protocol.MessageId.{MessageIdMaker, new_message_id_maker, next, is_blank}
use cablecheck.Protocol.Dedup.{DuplicateDetector, new_duplicate_detector, is_fresh, observe}
use cablecheck.Protocol.Messages.{
  Hello, HelloAck, Capabilities, Abort, Payload, hello, hello_ack, capabilities, abort, Envelope,
  new_envelope, check_version,
}

pub data HandshakeError : Type 0 where
  auth_failed token_rejected version_mismatch capability_missing protocol_error : HandshakeError
  handshake_timeout peer_aborted no_random : HandshakeError

abbrev pub handshake_retryable : HandshakeError → Bool
handshake_retryable auth_failed = true
handshake_retryable protocol_error = true
handshake_retryable handshake_timeout = true
handshake_retryable _ = false

-- The operations of netip.Addr, and the comparison of tokens.
pub record Network (A : Type 0) : Type 0 where
  pub parse_addr : String → Option A
  pub show_addr : A → String
  pub unmap : A → A
  pub addr_eq : A → A → Bool
  pub token_equal : String → String → Bool

-- The fields of Config that the handshake reads.
pub record Config (A : Type 0) : Type 0 where
  pub role : String
  pub token : String
  pub version : String
  pub local_ip : A
  pub peer_ip : A
  pub caps : Capabilities

-- What a read gives: an envelope, the deadline, or another error.
pub data Incoming : Type 0 where
  arrived : Envelope → Incoming
  late broken : Incoming

-- A connection in the handshake: what will arrive, whether the next writes work, and what was written.
pub record Wire : Type 0 where
  pub ids : MessageIdMaker
  pub dedup : DuplicateDetector
  pub incoming : List Incoming
  pub works : List Bool
  pub written : List Envelope

pub data Answer (B : Type 0) : Type 0 where
  got : B → Answer B
  failed : HandshakeError → Answer B

abbrev pub Action : Type 0 → Type 0
Action B = Wire → Answer B × Wire

infixl 5 ◌>>=◌
abbrev pub ◌>>=◌ : {B C : Type 0} → Action B → (B → Action C) → Action C
◌>>=◌ m onward w = let (a, w') = m w in elim a [ failed e ↦ (failed e, w') | got b ↦ onward b w' ]

abbrev pub give : {B : Type 0} → B → Action B
give b w = (got b, w)

abbrev pub fail : {B : Type 0} → HandshakeError → Action B
fail e w = (failed e, w)

abbrev pub attempt : Wire → Envelope → Answer Bool × Wire
attempt w env = elim w.works [
  | [] ↦ (got false, w)
  | ok ∷ works ↦
      if ok
      then (got true, record w { works = works; written = w.written ++ env ∷ [] })
      else (got false, record w { works = works })
]

-- A new envelope with the next identifier is written; the answer is whether that works.
unfoldable pub send : String → String → Payload → Action Bool
send test_id in_reply_to payload w =
    let (ids, id) = next w.ids in
    attempt (record w { ids = ids })
      (record (new_envelope test_id id payload) { in_reply_to = in_reply_to })

-- `sendAbort`, whose own failure is ignored, and the error behind it; `detail` says if there is one.
unfoldable pub abort_with : {B : Type 0} → String → String → String → HandshakeError → Action B
abort_with test_id reason detail e =
    send test_id ""
      (abort (some (record { reason = reason; stage = "handshake"; detail = detail })))
    >>= λ _. fail e

-- The outcome of `readHandshakeFrame`.
pub data ReadResult : Type 0 where
  fresh_frame : Envelope → ReadResult
  timed_out repeated dead : ReadResult

unfoldable pub read_handshake_frame : Action ReadResult
read_handshake_frame w = elim w.incoming [
  | [] ↦ (got dead, w)
  | i ∷ rest ↦
      (let w' = record w { incoming = rest } in
        elim i [
          | late ↦ (got timed_out, w')
          | broken ↦ (got dead, w')
          | arrived env ↦
              (let (dedup, answer) = observe w.dedup env.message_id in
                if is_fresh answer
                then (got (fresh_frame env), record w' { dedup = dedup })
                else (got repeated, record w' { dedup = dedup }))
        ])
]

-- `checkVersionOrAbort`.
unfoldable pub check_version_or_abort : String → Envelope → Action Bool
check_version_or_abort test_id env =
    if check_version env
    then give true
    else abort_with test_id "version_mismatch" "versions" version_mismatch

-- `checkAssignedTestID` finds no error.
abbrev pub check_assigned_test_id : Envelope → String → Bool
check_assigned_test_id env test_id = is_blank env.test_id || str_eq env.test_id test_id

pub record HandshakeResult : Type 0 where
  pub test_id : String
  pub peer_version : String
  pub peer_caps : Capabilities

-- `requireIperf3JSON`, and the abort where it fails.
unfoldable pub require_iperf3_json : String → Capabilities → Action Bool
require_iperf3_json test_id caps =
    if caps.json
    then give true
    else abort_with test_id "capability_missing" "iperf3" capability_missing

-- The capabilities of an envelope of that type, the assigned identifier and the required capability.
unfoldable pub decoded_capabilities : String → Option Capabilities → Action Capabilities
decoded_capabilities test_id none =
    abort_with test_id "protocol_error" "malformed capabilities" protocol_error
decoded_capabilities test_id (some caps) = require_iperf3_json test_id caps >>= λ _. give caps

unfoldable pub accept_capabilities : String → Envelope → Option Capabilities → Action Capabilities
accept_capabilities test_id env payload =
    if not (check_assigned_test_id env test_id)
    then abort_with test_id "protocol_error" "foreign testId" protocol_error
    else decoded_capabilities test_id payload

module _ {A : Type 0} (net : Network A) where
  unfoldable pub hello_ip_claim_matches : String → A → Bool
  hello_ip_claim_matches claim want = elim (net.parse_addr claim) [
    | none ↦ false
    | some a ↦ net.addr_eq (net.unmap a) (net.unmap want)
  ]

  -- The checks of the coordinator on a decoded hello: the token, the role, both addresses.
  unfoldable pub check_hello : Config A → Hello → Action Hello
  check_hello cfg h =
      if not (net.token_equal h.token cfg.token)
      then abort_with "" "auth_failed" "" auth_failed
      else if not (str_eq h.role "pc2")
      then abort_with "" "protocol_error" "role" protocol_error
      else if not (hello_ip_claim_matches h.peer_ip cfg.local_ip)
      then abort_with "" "protocol_error" "peerIp" protocol_error
      else if not (hello_ip_claim_matches h.local_ip cfg.peer_ip)
      then abort_with "" "protocol_error" "localIp" protocol_error
      else give h

  -- The first frame of the coordinator's half, and its checks.
  unfoldable pub hello_frame : ReadResult → Action Envelope
  hello_frame (fresh_frame env) = give env
  hello_frame timed_out = abort_with "" "protocol_error" "expected hello" handshake_timeout
  hello_frame repeated = abort_with "" "protocol_error" "expected hello" protocol_error
  hello_frame dead = abort_with "" "protocol_error" "expected hello" protocol_error

  unfoldable pub read_hello : Action Envelope
  read_hello = read_handshake_frame >>= hello_frame

  unfoldable pub decoded_hello : Config A → Option Hello → Action Hello
  decoded_hello cfg none = abort_with "" "protocol_error" "malformed hello" protocol_error
  decoded_hello cfg (some h) = check_hello cfg h

  unfoldable pub hello_payload : Config A → Envelope → Payload → Action Hello
  hello_payload cfg env (hello payload) =
      check_version_or_abort "" env >>= λ _. decoded_hello cfg payload
  hello_payload cfg env _ = abort_with "" "protocol_error" "expected hello" protocol_error

  unfoldable pub accept_hello : Config A → Envelope → Action Hello
  accept_hello cfg env = hello_payload cfg env env.payload

  -- The second frame of the coordinator's half; the version is checked before the type.
  unfoldable pub capabilities_payload : String → Envelope → Payload → Action Capabilities
  capabilities_payload test_id env (capabilities payload) = accept_capabilities test_id env payload
  capabilities_payload test_id env _ =
      abort_with test_id "protocol_error" "expected capabilities" protocol_error

  unfoldable pub expect_capabilities : String → Envelope → Action Capabilities
  expect_capabilities test_id env = capabilities_payload test_id env env.payload

  unfoldable pub capabilities_frame : String → ReadResult → Action Capabilities
  capabilities_frame test_id timed_out = fail handshake_timeout
  capabilities_frame test_id repeated =
      abort_with test_id "protocol_error" "reading capabilities" protocol_error
  capabilities_frame test_id dead =
      abort_with test_id "protocol_error" "reading capabilities" protocol_error
  capabilities_frame test_id (fresh_frame env) =
      check_version_or_abort test_id env >>= λ _. expect_capabilities test_id env

  unfoldable pub read_capabilities : String → Action Capabilities
  read_capabilities test_id = read_handshake_frame >>= capabilities_frame test_id

  -- A write whose failure ends the handshake.
  unfoldable pub send_or : HandshakeError → String → String → Payload → Action Bool
  send_or e test_id in_reply_to payload =
      send test_id in_reply_to payload >>= λ works. if works then give true else fail e

  abbrev pub new_test_id : Option String → Action String
  new_test_id none = fail no_random
  new_test_id (some id) = give id

  -- `coordinatorHandshake`; `random` is the answer of `newTestID`.
  unfoldable pub coordinator_handshake : Config A → Option String → Action HandshakeResult
  coordinator_handshake cfg random = do
    env ← read_hello
    h ← accept_hello cfg env
    test_id ← new_test_id random
    _ ←
        send_or protocol_error test_id env.message_id
          (hello_ack (some (record { test_id = test_id; cablecheck_version = cfg.version })))
    caps ← read_capabilities test_id
    _ ← send_or protocol_error test_id "" (capabilities (some cfg.caps))
    give (record { test_id = test_id; peer_version = h.cablecheck_version; peer_caps = caps })

  unfoldable pub map_worker_abort : Option Abort → HandshakeError
  map_worker_abort none = protocol_error
  map_worker_abort (some ab) =
      if str_eq ab.reason "auth_failed"
      then token_rejected
      else if str_eq ab.reason "version_mismatch"
      then version_mismatch
      else if str_eq ab.reason "capability_missing"
      then capability_missing
      else peer_aborted

  -- `workerReadReply` up to the check of the type, which its callers make on the payload.
  unfoldable pub worker_read_reply : String → Action Envelope
  worker_read_reply test_id = read_handshake_frame >>= λ r. elim r [
    | timed_out ↦ fail handshake_timeout
    | repeated ↦ fail protocol_error
    | dead ↦ fail peer_aborted
    | fresh_frame env ↦ elim env.payload [
      | abort payload ↦ fail (map_worker_abort payload)
      | _ ↦ (check_version_or_abort test_id env >>= λ _. give env)
    ]
  ]

  -- The test identifier of the coordinator's answer.
  unfoldable pub accept_ack : Envelope → Action HelloAck
  accept_ack env = elim env.payload [
    | hello_ack payload ↦ elim payload [
      | none ↦ abort_with "" "protocol_error" "malformed hello_ack" protocol_error
      | some ack ↦
          if is_blank ack.test_id
          then abort_with "" "protocol_error" "no testId" protocol_error
          else give ack
    ]
    | _ ↦ abort_with "" "protocol_error" "expected hello_ack" protocol_error
  ]

  -- `workerHandshake`.
  unfoldable pub worker_handshake : Config A → Action HandshakeResult
  worker_handshake cfg = do
    _ ← send_or peer_aborted "" "" (
        hello (
          some (record {
            token = cfg.token;
            role = "pc2";
            cablecheck_version = cfg.version;
            local_ip = net.show_addr cfg.local_ip;
            peer_ip = net.show_addr cfg.peer_ip;
          })))
    env ← worker_read_reply ""
    ack ← accept_ack env
    _ ← send_or peer_aborted ack.test_id "" (capabilities (some cfg.caps))
    reply ← worker_read_reply ack.test_id
    caps ← expect_capabilities ack.test_id reply
    give (record { test_id = ack.test_id; peer_version = ack.cablecheck_version; peer_caps = caps })

  -- A connection at the start of the handshake.
  abbrev pub begin : Config A → List Incoming → List Bool → Wire
  begin cfg incoming works = record {
    ids = new_message_id_maker cfg.role;
    dedup = new_duplicate_detector;
    incoming = incoming;
    works = works;
    written = [];
  }
