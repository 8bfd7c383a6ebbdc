-- ===== src/Peer/Handshake/Agreement.antt =====
-- internal/peer/handshake.go: the two halves, run against each other.
use Prim.Native.Char.{Char}
use cablecheck.Base.{
  ◌≡◌, ◌∙◌, ap, sym, refl, true, some, List, [], ◌∷◌, map, ℕ, zero, suc, take, drop,
}
use mathlib.Core.Path.{subst}
use cablecheck.Base.Text.{String, eq_refl}
use cablecheck.Protocol.MessageId.{
  MessageIdMaker, new_message_id_maker, next, pad8, zeros, split_message_id, split_last, parse_uint,
  parse_digits,
}
use cablecheck.Base.Text.{show_ℕ, digits}
use cablecheck.Protocol.Dedup.{
  DuplicateDetector, new_duplicate_detector, observe, observe_seq, seen_in, last_seq, track,
  remember,
}
use cablecheck.Protocol.Messages.{
  Hello, Capabilities, Envelope, new_envelope, hello, hello_ack, capabilities,
}
use cablecheck.Peer.Handshake.{
  Network, Config, arrived, Wire, Answer, got, send, read_handshake_frame, check_version_or_abort,
  HandshakeResult, require_iperf3_json, accept_capabilities, decoded_capabilities,
  hello_ip_claim_matches, check_hello, read_hello, accept_hello, read_capabilities, hello_frame,
  hello_payload, capabilities_payload, decoded_hello, capabilities_frame, send_or,
  coordinator_handshake, worker_read_reply, accept_ack, expect_capabilities, worker_handshake,
  begin, protocol_error, Action, ◌>>=◌, give,
}
use cablecheck.Peer.Handshake.Bind.{bind-got}

module _ {A : Type 0} (net : Network A) where
  -- The configurations fit: one token, each address claimed by the other side, iperf3 with JSON.
  pub record IsCompatible (one two : Config A) : Type 0 where
    pub tokens : net.token_equal two.token one.token ≡ true
    pub two_addresses_one :
        hello_ip_claim_matches net (net.show_addr two.peer_ip) one.local_ip ≡ true
    pub one_addresses_two :
        hello_ip_claim_matches net (net.show_addr two.local_ip) one.peer_ip ≡ true
    pub one_json : one.caps.json ≡ true
    pub two_json : two.caps.json ≡ true

  -- The two frames of the coordinator.
  abbrev pub answers : Config A → String → List Envelope
  answers one test_id =
      record (new_envelope test_id "pc1-00000001"
        (hello_ack (some (record { test_id = test_id; cablecheck_version = one.version })))) {
          in_reply_to = "pc2-00000001";
        }
      ∷ new_envelope test_id "pc1-00000002" (capabilities (some one.caps))
      ∷ []

  -- The two frames of the worker.
  abbrev claims : Config A → Hello
  claims two = record {
    token = two.token;
    role = "pc2";
    cablecheck_version = two.version;
    local_ip = net.show_addr two.local_ip;
    peer_ip = net.show_addr two.peer_ip;
  }

  abbrev worker_hello : Config A → Envelope
  worker_hello two = new_envelope "" "pc2-00000001" (hello (some (claims two)))

  abbrev pub questions : Config A → String → List Envelope
  questions two test_id =
      worker_hello two ∷ new_envelope test_id "pc2-00000002" (capabilities (some two.caps)) ∷ []

  abbrev pub worker_run : Config A → Config A → String → Answer HandshakeResult × Wire
  worker_run one two test_id = worker_handshake net two (
      begin net (record two { role = "pc2" }) (map arrived (answers one test_id))
        (true ∷ true ∷ []))

  abbrev pub coordinator_run : Config A → String → List Envelope → Answer HandshakeResult × Wire
  coordinator_run one test_id frames =
      coordinator_handshake net one (some test_id)
        (begin net (record one { role = "pc1" }) (map arrived frames) (true ∷ true ∷ []))

  -- A configuration whose iperf3 has JSON.
  abbrev with_json : Config A → Config A
  with_json cfg = record cfg { caps = record cfg.caps { json = true } }

  worker_run-got :
      (one two : Config A) (c : Char) (s : String)
      → let id = String.◌∷◌ c s in
        ((worker_run (with_json one) two id).0
          ≡ got (record {
            test_id = id;
            peer_version = one.version;
            peer_caps = (with_json one).caps;
          }))
        × ((worker_run (with_json one) two id).1.written ≡ questions two id)
  unfolding worker_handshake send_or send next pad8 zeros show_ℕ digits worker_read_reply
      read_handshake_frame observe observe_seq seen_in last_seq track remember split_message_id
      split_last parse_uint parse_digits check_version_or_abort accept_ack expect_capabilities
      capabilities_payload accept_capabilities decoded_capabilities require_iperf3_json
  worker_run-got one two c s =
      (rw (eq_refl (String.◌∷◌ c s)) refl, rw (eq_refl (String.◌∷◌ c s)) refl)

  -- The coordinator after it has read so many of the frames, and written so many of its own.
  abbrev seen : ℕ → DuplicateDetector
  seen zero = new_duplicate_detector
  seen (suc zero) = (observe new_duplicate_detector "pc2-00000001").0
  seen (suc (suc n)) = (observe (observe new_duplicate_detector "pc2-00000001").0 "pc2-00000002").0

  abbrev minted : ℕ → MessageIdMaker
  minted zero = new_message_id_maker "pc1"
  minted (suc n) = (next (minted n)).0

  abbrev coordinator_at : ℕ → ℕ → Config A → List Envelope → String → Wire
  coordinator_at reads writes one frames test_id = record {
    ids = minted writes;
    dedup = seen reads;
    incoming = map arrived (drop reads frames);
    works = drop writes (true ∷ true ∷ []);
    written = take writes (answers one test_id);
  }

  read_hello-got :
      (one two : Config A) (id : String)
      → read_hello net (coordinator_at 0 0 one (questions two id) id)
        ≡ (got (worker_hello two), coordinator_at 1 0 one (questions two id) id)
  unfolding read_hello hello_frame read_handshake_frame observe observe_seq seen_in last_seq track
      remember split_message_id split_last parse_uint parse_digits
  read_hello-got one two id = refl

  accept_hello-got :
      (one two : Config A) (w : Wire)
      → net.token_equal two.token one.token ≡ true
      → hello_ip_claim_matches net (net.show_addr two.peer_ip) one.local_ip ≡ true
      → hello_ip_claim_matches net (net.show_addr two.local_ip) one.peer_ip ≡ true
      → accept_hello net one (worker_hello two) w ≡ (got (claims two), w)
  unfolding accept_hello hello_payload decoded_hello check_version_or_abort check_hello
  accept_hello-got one two w t p l = rw (t, p, l) refl

  write_ack-got :
      (one two : Config A) (id : String)
      → send_or net protocol_error id "pc2-00000001"
          (hello_ack (some (record { test_id = id; cablecheck_version = one.version })))
          (coordinator_at 1 0 one (questions two id) id)
        ≡ (got true, coordinator_at 1 1 one (questions two id) id)
  unfolding send_or send next pad8 zeros show_ℕ digits
  write_ack-got one two id = refl

  read_capabilities-got :
      (one two : Config A) (c : Char) (s : String)
      → let id = String.◌∷◌ c s in
        read_capabilities net id (coordinator_at 1 1 one (questions (with_json two) id) id)
        ≡ (got (with_json two).caps, coordinator_at 2 1 one (questions (with_json two) id) id)
  unfolding read_capabilities capabilities_frame expect_capabilities capabilities_payload
      read_handshake_frame observe observe_seq seen_in last_seq track remember split_message_id
      split_last parse_uint parse_digits check_version_or_abort accept_capabilities
      decoded_capabilities require_iperf3_json
  read_capabilities-got one two c s = rw (eq_refl (String.◌∷◌ c s)) refl

  write_capabilities-got :
      (one two : Config A) (id : String)
      → send_or net protocol_error id ""
          (capabilities (some one.caps))
          (coordinator_at 2 1 one (questions two id) id)
        ≡ (got true, coordinator_at 2 2 one (questions two id) id)
  unfolding send_or send next pad8 zeros show_ℕ digits
  write_capabilities-got one two id = refl

  -- What is left of the coordinator's half after each of its parts.
  abbrev pub conclude : Config A → Hello → String → Capabilities → Action HandshakeResult
  conclude one h id caps = send_or net protocol_error id "" (capabilities (some one.caps)) >>= λ _.
      give (record { test_id = id; peer_version = h.cablecheck_version; peer_caps = caps })

  abbrev pub confirm : Config A → Hello → String → Action HandshakeResult
  confirm one h id = read_capabilities net id >>= λ caps. conclude one h id caps

  abbrev pub welcome : Config A → Envelope → Hello → String → Action HandshakeResult
  welcome one env h id =
      send_or net protocol_error id env.message_id
        (hello_ack (some (record { test_id = id; cablecheck_version = one.version })))
      >>= λ _. confirm one h id

  coordinator_run-got :
      (one two : Config A) (c : Char) (s : String)
      → net.token_equal two.token one.token ≡ true
      → hello_ip_claim_matches net (net.show_addr two.peer_ip) one.local_ip ≡ true
      → hello_ip_claim_matches net (net.show_addr two.local_ip) one.peer_ip ≡ true
      → let id = String.◌∷◌ c s in
        coordinator_run one id (questions (with_json two) id) ≡ (
          got (record {
            test_id = id;
            peer_version = two.version;
            peer_caps = (with_json two).caps;
          }),
          coordinator_at 2 2 one (questions (with_json two) id) id,
        )
  unfolding coordinator_handshake
  coordinator_run-got one two c s t p l =
      let id = String.◌∷◌ c s in
      let q = worker_hello (with_json two) in
      let h = claims (with_json two) in
      bind-got (read_hello net) (λ env. accept_hello net one env >>= λ v. welcome one env v id) _ _
        _ (read_hello-got one (with_json two) id)
      ∙ bind-got (accept_hello net one q) (λ v. welcome one q v id) _ _ _
          (accept_hello-got one (with_json two)
            (coordinator_at 1 0 one (questions (with_json two) id) id) t p l)
      ∙ bind-got
          (send_or net protocol_error id q.message_id
            (hello_ack (some (record { test_id = id; cablecheck_version = one.version }))))
          (λ _. confirm one h id) _ _ _ (write_ack-got one (with_json two) id)
      ∙ bind-got (read_capabilities net id) (conclude one h id) _ _ _
          (read_capabilities-got one two c s)
      ∙ bind-got (send_or net protocol_error id "" (capabilities (some one.caps)))
          (λ _.
            give (record {
              test_id = id;
              peer_version = two.version;
              peer_caps = (with_json two).caps;
            }))
          _ _ _ (write_capabilities-got one (with_json two) id)

  -- The flag of a configuration that has it.
  with_json-path : (cfg : Config A) → cfg.caps.json ≡ true → with_json cfg ≡ cfg
  -- The flag of a configuration that has it.
  with_json-path cfg h = ap (λ b. record cfg { caps = record cfg.caps { json = b } }) (sym h)

  -- Where the configurations fit, the writes work and the test identifier is not empty, each half of
  -- the handshake that reads what the other half writes ends with that identifier, the version and the
  -- capabilities of the other side, and writes what that half reads.
  pub handshakes-agreement :
      (one two : Config A) (c : Char) (s : String)
      → IsCompatible one two
      → let id = String.◌∷◌ c s in
        ((coordinator_run one id (questions two id)).0
          ≡ got (record { test_id = id; peer_version = two.version; peer_caps = two.caps }))
        × ((coordinator_run one id (questions two id)).1.written ≡ answers one id)
        × ((worker_run one two id).0
            ≡ got (record { test_id = id; peer_version = one.version; peer_caps = one.caps }))
        × ((worker_run one two id).1.written ≡ questions two id)
  handshakes-agreement one two c s h =
      let id = String.◌∷◌ c s in
      let fits =
        subst
          (λ cfg. coordinator_run one id (questions cfg id) ≡ (
            got (record { test_id = id; peer_version = cfg.version; peer_caps = cfg.caps }),
            coordinator_at 2 2 one (questions cfg id) id,
          ))
          (with_json-path two h.two_json)
          (coordinator_run-got one two c s h.tokens h.two_addresses_one h.one_addresses_two) in
      let (answered, written) =
        subst
          (λ cfg.
            ((worker_run cfg two id).0
              ≡ got (record { test_id = id; peer_version = cfg.version; peer_caps = cfg.caps }))
            × ((worker_run cfg two id).1.written ≡ questions two id))
          (with_json-path one h.one_json) (worker_run-got one two c s) in
      (ap (λ r. r.0) fits, ap (λ r. r.1.written) fits, answered, written)
