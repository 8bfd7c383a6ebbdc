-- ===== src/Peer/Handshake/Success.antt =====
-- internal/peer/handshake.go: what a coordinator's half that succeeds has checked.
use cablecheck.Base.{◌≡◌, ◌∙◌, ap, refl, Option, some, List, ◌∷◌}
use mathlib.Core.Path.{subst}
use cablecheck.Base.Text.{String}
use cablecheck.Protocol.Messages.{Capabilities, Hello, Envelope, hello_ack, capabilities}
use cablecheck.Peer.Handshake.{
  Network, Config, Incoming, arrived, Wire, got, HandshakeResult, read_hello, accept_hello,
  read_capabilities, send_or, new_test_id, coordinator_handshake, protocol_error, ◌>>=◌, give,
}
use cablecheck.Peer.Handshake.Bind.{bind_inv}
use cablecheck.Peer.Handshake.Agreement.{conclude, confirm, welcome}
use cablecheck.Peer.Handshake.Inversion.{
  IsAdmitted, IsConfirmed, hello_payload_inv, read_hello_inv, send_or_inv, read_capabilities_inv,
  new_test_id_inv,
}

module _ {A : Type 0} (net : Network A) where
  -- A result built from these parts.
  abbrev result_of : Hello → String → Capabilities → HandshakeResult
  result_of h id caps = record {
    test_id = id;
    peer_version = h.cablecheck_version;
    peer_caps = caps;
  }

  conclude_inv :
      (cfg : Config A) (h : Hello) (id : String) (caps : Capabilities) (w : Wire)
      (res : HandshakeResult) (w2 : Wire)
      → conclude net cfg h id caps w ≡ (got res, w2)
      → result_of h id caps ≡ res
  conclude_inv cfg h id caps w res w2 e =
      let (ok, w1, answer, after) =
        bind_inv (send_or net protocol_error id "" (capabilities (some cfg.caps)))
          (λ _. give (result_of h id caps)) w res w2 e in
      cc

  welcome_inv :
      (cfg : Config A) (env : Envelope) (h : Hello) (id : String) (w : Wire) (res : HandshakeResult)
      (w2 : Wire)
      → welcome net cfg env h id w ≡ (got res, w2)
      → (second : Envelope) × (later : List Incoming) × (caps : Capabilities) × (w.incoming
          ≡ arrived second ∷ later)
        × IsConfirmed net id second caps
        × (result_of h id caps ≡ res)
  welcome_inv cfg env h id w res w2 e =
      let (ok, w1, ack, e1) =
        bind_inv
          (send_or net protocol_error id env.message_id
            (hello_ack (some (record { test_id = id; cablecheck_version = cfg.version }))))
          (λ _. confirm net cfg h id) w res w2 e in
      let (caps, w3, confirmation, e2) =
        bind_inv (read_capabilities net id) (conclude net cfg h id) w1 res w2 e1 in
      let (second, later, its, confirmed) = read_capabilities_inv net id caps w1 w3 confirmation in
      (
        second,
        later,
        caps,
        send_or_inv net _ _ _ _ w ok w1 ack ∙ its,
        confirmed,
        conclude_inv cfg h id caps w3 res w2 e2,
      )

  -- The frames that a coordinator's half which succeeds with this result has read and checked.
  pub record IsChecked (cfg : Config A) (random : Option String) (w : Wire) (res : HandshakeResult)
      : Type 0 where
    pub first : Envelope
    pub second : Envelope
    pub later : List Incoming
    pub claim : Hello
    pub frames : w.incoming ≡ arrived first ∷ arrived second ∷ later
    pub admitted : IsAdmitted net cfg first claim
    pub confirmed : IsConfirmed net res.test_id second res.peer_caps
    pub minted : random ≡ some res.test_id
    pub its_version : res.peer_version ≡ claim.cablecheck_version

  -- The checks, from those of the parts.
  assemble :
      (cfg : Config A) (random : Option String) (w w1 : Wire) (first second : Envelope) (h : Hello)
      (id : String) (later : List Incoming) (caps : Capabilities) (res : HandshakeResult)
      → w.incoming ≡ arrived first ∷ w1.incoming
      → w1.incoming ≡ arrived second ∷ later
      → IsAdmitted net cfg first h
      → IsConfirmed net id second caps
      → random ≡ some id
      → result_of h id caps ≡ res
      → IsChecked cfg random w res
  assemble cfg random w w1 first second h id later caps res front next admitted confirmed minted
        same =
      subst (IsChecked cfg random w) same (record {
        first = first;
        second = second;
        later = later;
        claim = h;
        frames = front ∙ ap (λ rest. arrived first ∷ rest) next;
        admitted = admitted;
        confirmed = confirmed;
        minted = minted;
        its_version = refl;
      })

  admit_inv :
      (cfg : Config A) (random : Option String) (env : Envelope) (w : Wire) (res : HandshakeResult)
      (w2 : Wire)
      → (accept_hello net cfg env >>= λ h.
            new_test_id net random >>= λ id. welcome net cfg env h id)
          w
        ≡ (got res, w2)
      → (h : Hello) × (id : String) × IsAdmitted net cfg env h
        × (random ≡ some id)
        × (w3 : Wire) × (w.incoming ≡ w3.incoming)
        × (welcome net cfg env h id w3 ≡ (got res, w2))
  unfolding accept_hello
  admit_inv cfg random env w res w2 e =
      let (h, w1, admit, e1) =
        bind_inv (accept_hello net cfg env)
          (λ h. new_test_id net random >>= λ id. welcome net cfg env h id) w res w2 e in
      let (id, w3, mint, e2) =
        bind_inv (new_test_id net random) (welcome net cfg env h) w1 res w2 e1 in
      let (unmoved, admitted) = hello_payload_inv net cfg env env.payload h w w1 refl admit in
      let (random_id, unmoved') = new_test_id_inv net random id w1 w3 mint in
      (h, id, admitted, random_id, w3, ap (λ v. v.incoming) (unmoved ∙ unmoved'), e2)

  -- A result of the coordinator's half is one that it has checked: of the two frames that it has read,
  -- the first is a hello of the right protocol version, with the token, in the role pc2, whose addresses
  -- are those of the configuration the other way round, and the second has the right version, the test
  -- identifier or none, and the capabilities of the result, with JSON output of iperf3; the identifier of
  -- the result is the random one, and its version that of the hello.
  pub coordinator_handshake-IsChecked :
      (cfg : Config A) (random : Option String) (w : Wire) (res : HandshakeResult)
      → (coordinator_handshake net cfg random w).0 ≡ got res
      → IsChecked cfg random w res
  unfolding coordinator_handshake
  coordinator_handshake-IsChecked cfg random w res e =
      let w2 = (coordinator_handshake net cfg random w).1 in
      let (env, w1, read, e1) =
        bind_inv (read_hello net)
          (λ env. accept_hello net cfg env >>= λ h.
            new_test_id net random >>= λ id. welcome net cfg env h id)
          w res w2 (ap (λ a. (a, w2)) e) in
      let (h, id, admitted, minted, w3, unmoved, e2) = admit_inv cfg random env w1 res w2 e1 in
      let (second, later, caps, its, confirmed, same) = welcome_inv cfg env h id w3 res w2 e2 in
      assemble cfg random w w1 env second h id later caps res (read_hello_inv net w env w1 read)
        (unmoved ∙ its) admitted confirmed minted same
