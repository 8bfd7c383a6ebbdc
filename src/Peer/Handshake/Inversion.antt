-- ===== src/Peer/Handshake/Inversion.antt =====
-- internal/peer/handshake.go: what each part of the coordinator's half has checked where it succeeds.
use cablecheck.Base.{◌≡◌, ◌∙◌, ap, refl, Bool, true, Option, some, none, List, ◌∷◌, arith}
use cablecheck.Base.Text.{String}
use mathlib.Core.Path.{subst}
use text.Mathlib.TextEquality.{eq_iff}
use cablecheck.Protocol.Messages.{
  Payload, Hello, Capabilities, Envelope, hello, capabilities, check_version,
}
use cablecheck.Peer.Handshake.{
  Network, Config, Incoming, arrived, Wire, got, send, read_handshake_frame, ReadResult,
  fresh_frame, timed_out, repeated, dead, check_version_or_abort, require_iperf3_json,
  accept_capabilities, hello_ip_claim_matches, check_hello, read_hello, read_capabilities, send_or,
  hello_frame, capabilities_frame, expect_capabilities, decoded_hello, decoded_capabilities, give,
  new_test_id, capability_missing, hello_payload, capabilities_payload, check_assigned_test_id,
  version_mismatch, auth_failed, protocol_error, HandshakeError,
}
use cablecheck.Peer.Handshake.Bind.{bind_inv, unless_inv, require_inv, abort_with-fails}

-- A frame is read only off the front of what arrives.
read_handshake_frame_inv :
    (w : Wire) (env : Envelope) (w2 : Wire)
    → read_handshake_frame w ≡ (got (fresh_frame env), w2)
    → w.incoming ≡ arrived env ∷ w2.incoming
unfolding read_handshake_frame
read_handshake_frame_inv w env w2 h = ground arith

module _ {A : Type 0} (net : Network A) where
  -- The coordinator's checks of a hello.
  pub record IsAdmitted (cfg : Config A) (env : Envelope) (h : Hello) : Type 0 where
    pub a_hello : env.payload ≡ hello (some h)
    pub versions : check_version env ≡ true
    pub tokens : net.token_equal h.token cfg.token ≡ true
    pub role : h.role ≡ "pc2"
    pub addresses_us : hello_ip_claim_matches net h.peer_ip cfg.local_ip ≡ true
    pub addresses_itself : hello_ip_claim_matches net h.local_ip cfg.peer_ip ≡ true

  check_hello_inv :
      (cfg : Config A) (env : Envelope) (h h' : Hello) (w w2 : Wire)
      → env.payload ≡ hello (some h)
      → check_version env ≡ true
      → check_hello net cfg h w ≡ (got h', w2)
      → (h ≡ h') × (w ≡ w2) × IsAdmitted cfg env h
  unfolding check_hello
  check_hello_inv cfg env h h' w w2 is_hello version e =
      let (tokens, e1) = unless_inv "" "auth_failed" "" auth_failed _ _ w h' w2 e in
      let (role, e2) = unless_inv "" "protocol_error" "role" protocol_error _ _ w h' w2 e1 in
      let (us, e3) = unless_inv "" "protocol_error" "peerIp" protocol_error _ _ w h' w2 e2 in
      let (itself, e4) = unless_inv "" "protocol_error" "localIp" protocol_error _ _ w h' w2 e3 in
      (
        cc,
        ap (λ r. r.1) e4,
        record {
          a_hello = is_hello;
          versions = version;
          tokens = tokens;
          role = (eq_iff h.role "pc2").0 role;
          addresses_us = us;
          addresses_itself = itself;
        },
      )

  decoded_hello_inv :
      (cfg : Config A) (env : Envelope) (payload : Option Hello) (h : Hello) (w w2 : Wire)
      → env.payload ≡ hello payload
      → check_version env ≡ true
      → decoded_hello net cfg payload w ≡ (got h, w2)
      → (w ≡ w2) × IsAdmitted cfg env h
  unfolding decoded_hello
  decoded_hello_inv cfg env none h w w2 is_hello version e =
      absurd (abort_with-fails _ _ _ _ w h w2 e)
  decoded_hello_inv cfg env (some h') h w w2 is_hello version e =
      let (same, unchanged, admitted) = check_hello_inv cfg env h' h w w2 is_hello version e in
      (unchanged, subst (IsAdmitted cfg env) same admitted)

  pub hello_payload_inv :
      (cfg : Config A) (env : Envelope) (p : Payload) (h : Hello) (w w2 : Wire)
      → env.payload ≡ p
      → hello_payload net cfg env p w ≡ (got h, w2)
      → (w ≡ w2) × IsAdmitted cfg env h
  unfolding hello_payload check_version_or_abort
  hello_payload_inv cfg env (hello payload) h w w2 is_hello e =
      let (ok, w1, first, after) =
        bind_inv (check_version_or_abort "" env) (λ _. decoded_hello net cfg payload) w h w2 e in
      let (version, unchanged) =
        require_inv "" "version_mismatch" "versions" version_mismatch _ w w1 ok first in
      let (same, admitted) = decoded_hello_inv cfg env payload h w1 w2 is_hello version after in
      (unchanged ∙ same, admitted)
  hello_payload_inv cfg env _ h w w2 is_hello e = absurd (abort_with-fails _ _ _ _ w h w2 e)

  decoded_capabilities_inv :
      (test_id : String) (payload : Option Capabilities) (caps : Capabilities) (w w2 : Wire)
      → decoded_capabilities test_id payload w ≡ (got caps, w2)
      → (payload ≡ some caps) × (caps.json ≡ true)
  unfolding decoded_capabilities require_iperf3_json
  decoded_capabilities_inv test_id none caps w w2 e = absurd (abort_with-fails _ _ _ _ w caps w2 e)
  decoded_capabilities_inv test_id (some caps') caps w w2 e =
      let (ok, w1, first, after) =
        bind_inv (require_iperf3_json test_id caps') (λ _. give caps') w caps w2 e in
      let (json, unchanged) =
        require_inv test_id "capability_missing" "iperf3" capability_missing caps'.json w w1 ok
          first in
      let same : caps' ≡ caps = cc in (ap some same, subst (λ v. v.json ≡ true) same json)

  -- What is known of the envelope with the capabilities.
  pub record IsConfirmed (test_id : String) (env : Envelope) (caps : Capabilities) : Type 0 where
    pub its_capabilities : env.payload ≡ capabilities (some caps)
    pub its_version : check_version env ≡ true
    pub its_test : check_assigned_test_id env test_id ≡ true
    pub has_json : caps.json ≡ true

  capabilities_payload_inv :
      (test_id : String) (env : Envelope) (p : Payload) (caps : Capabilities) (w w2 : Wire)
      → env.payload ≡ p
      → check_version env ≡ true
      → capabilities_payload net test_id env p w ≡ (got caps, w2)
      → IsConfirmed test_id env caps
  unfolding capabilities_payload accept_capabilities
  capabilities_payload_inv test_id env (capabilities payload) caps w w2 is_it version e =
      let (mine, after) =
        unless_inv test_id "protocol_error" "foreign testId" protocol_error
          (check_assigned_test_id env test_id) (decoded_capabilities test_id payload) w caps w2 e in
      let (there, json) = decoded_capabilities_inv test_id payload caps w w2 after in
      record {
        its_capabilities = is_it ∙ ap capabilities there;
        its_version = version;
        its_test = mine;
        has_json = json;
      }
  capabilities_payload_inv test_id env _ caps w w2 is_it version e =
      absurd (abort_with-fails _ _ _ _ w caps w2 e)

  capabilities_frame_inv :
      (test_id : String) (r : ReadResult) (caps : Capabilities) (w w2 : Wire)
      → capabilities_frame net test_id r w ≡ (got caps, w2)
      → (env : Envelope) × (r ≡ fresh_frame env) × IsConfirmed test_id env caps
  unfolding capabilities_frame check_version_or_abort expect_capabilities
  capabilities_frame_inv test_id (fresh_frame env) caps w w2 e =
      let (ok, w1, first, after) =
        bind_inv (check_version_or_abort test_id env) (λ _. expect_capabilities net test_id env) w
          caps w2 e in
      let (version, unchanged) =
        require_inv test_id "version_mismatch" "versions" version_mismatch _ w w1 ok first in
      (env, refl, capabilities_payload_inv test_id env env.payload caps w1 w2 refl version after)
  capabilities_frame_inv test_id timed_out caps w w2 e = cc
  capabilities_frame_inv test_id repeated caps w w2 e =
      absurd (abort_with-fails _ _ _ _ w caps w2 e)
  capabilities_frame_inv test_id dead caps w w2 e = absurd (abort_with-fails _ _ _ _ w caps w2 e)

  pub read_capabilities_inv :
      (test_id : String) (caps : Capabilities) (w w2 : Wire)
      → read_capabilities net test_id w ≡ (got caps, w2)
      → (env : Envelope) × (rest : List Incoming) × (w.incoming ≡ arrived env ∷ rest)
        × IsConfirmed test_id env caps
  unfolding read_capabilities
  read_capabilities_inv test_id caps w w2 e =
      let (r, w1, first, after) =
        bind_inv read_handshake_frame (capabilities_frame net test_id) w caps w2 e in
      let (env, fresh, confirmed) = capabilities_frame_inv test_id r caps w1 w2 after in
      (env, w1.incoming, read_handshake_frame_inv w env w1 cc, confirmed)

  hello_frame_inv :
      (r : ReadResult) (w : Wire) (env : Envelope) (w2 : Wire)
      → hello_frame net r w ≡ (got env, w2)
      → (r ≡ fresh_frame env) × (w ≡ w2)
  unfolding hello_frame
  hello_frame_inv (fresh_frame env') w env w2 h = (cc, cc)
  hello_frame_inv timed_out w env w2 h = absurd (abort_with-fails _ _ _ _ w env w2 h)
  hello_frame_inv repeated w env w2 h = absurd (abort_with-fails _ _ _ _ w env w2 h)
  hello_frame_inv dead w env w2 h = absurd (abort_with-fails _ _ _ _ w env w2 h)

  pub read_hello_inv :
      (w : Wire) (env : Envelope) (w2 : Wire)
      → read_hello net w ≡ (got env, w2)
      → w.incoming ≡ arrived env ∷ w2.incoming
  unfolding read_hello
  read_hello_inv w env w2 e =
      let (r, w1, first, after) = bind_inv read_handshake_frame (hello_frame net) w env w2 e in
      let (fresh, same) = hello_frame_inv r w1 env w2 after in read_handshake_frame_inv w env w2 cc

  pub send_or_inv :
      (e : HandshakeError) (test_id in_reply_to : String) (payload : Payload) (w : Wire) (b : Bool)
      (w2 : Wire)
      → send_or net e test_id in_reply_to payload w ≡ (got b, w2)
      → w.incoming ≡ w2.incoming
  unfolding send_or send
  send_or_inv e test_id in_reply_to payload w b w2 h = ground arith

  pub new_test_id_inv :
      (random : Option String) (test_id : String) (w w2 : Wire)
      → new_test_id net random w ≡ (got test_id, w2)
      → (random ≡ some test_id) × (w ≡ w2)
  new_test_id_inv none test_id w w2 e = cc
  new_test_id_inv (some id) test_id w w2 e = (cc, cc)
