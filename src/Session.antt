-- ===== src/Session.antt =====
-- The class Session of include/obscuraproto/session.hpp and src/session.cpp. A method takes the
-- session and returns its result, or the exception, with the session as the call leaves it: what
-- was assigned before a throw stays assigned. The ephemeral key pair and the nonce that libsodium
-- draws are arguments.
pub mod Invariant
pub mod Reach
pub mod Hellos
pub mod Negotiation
pub mod Authentication
pub mod Channel
pub mod Replay
pub mod Delivery
pub mod Tests
use obscura_proto.Common.{
  ℕ, ◌+◌, ◌≡◌, ◌⊎◌, inl, inr, refl, ◌%◌, ◌^◌, List, [], Bool, true, false, not, ◌&&◌, Option, none,
  some, leb, ◌==◌, if◌then◌else◌,
}
use obscura_proto.Errors.{Result, Exception, ok, err, runtime_error, logic_error, null_pointer}
use obscura_proto.Endian.{Host}
use obscura_proto.Packet.{Payload}
use obscura_proto.Handshake.{PublicKey, Signature, KeyPair, ClientHello, ServerHello}
use obscura_proto.Version.{is_supported, negotiate}
use obscura_proto.Crypto.Libsodium.{Sodium}
use obscura_proto.Crypto.{
  SessionKeys, DecryptedResult, sign, verify, client_compute_session_keys,
  server_compute_session_keys, encrypt, decrypt,
}

pub data Role : Type 0 where
  client server : Role

pub Role-cases : (r : Role) → (r ≡ client) ⊎ (r ≡ server)
Role-cases client = inl refl
Role-cases server = inr refl

pub record Session : Type 0 where
  pub role : Role
  pub handshake_complete : Bool
  pub selected_version : Option ℕ
  pub supported_versions : List ℕ
  pub server_sign_key : KeyPair
  pub ephemeral_kx_kp : Option KeyPair
  pub session_keys : Option SessionKeys
  pub client_identity_kp : Option KeyPair
  pub peer_identity : Option PublicKey
  pub send_counter : ℕ
  pub recv_counter : ℕ

unfoldable pub new : Role → KeyPair → List ℕ → Session
new role server_sign_key supported_versions = record {
  role = role;
  handshake_complete = false;
  selected_version = none;
  supported_versions = supported_versions;
  server_sign_key = server_sign_key;
  ephemeral_kx_kp = none;
  session_keys = none;
  client_identity_kp = none;
  peer_identity = none;
  send_counter = 0;
  recv_counter = 0;
}

unfoldable pub set_client_identity_key : KeyPair → Session → Result (Unit {0}) × Session
set_client_identity_key kp s = elim s.role [
  | server ↦ (err (logic_error "Only clients can set an identity key."), s)
  | client ↦ (ok tt, record s { client_identity_kp = some kp })
]

unfoldable pub is_handshake_complete : Session → Bool
is_handshake_complete s = s.handshake_complete

unfoldable pub get_selected_version : Session → Option ℕ
get_selected_version s = s.selected_version

unfoldable pub has_peer_identity : Session → Bool
has_peer_identity s = elim s.peer_identity [ none ↦ false | some _ ↦ true ]

unfoldable pub get_peer_identity : Session → Option PublicKey
get_peer_identity s = s.peer_identity

-- The result of a call of Crypto, passed on by a method that does nothing more.
abbrev pub map_result {ℓ κ} : {A : Type ℓ} {B : Type κ} → (A → B) → Result A → Result B
map_result f (ok a) = ok (f a)
map_result f (err e) = err e

-- ~Session wipes the keys: secure_wipe of both session keys, then both pointers are reset.
unfoldable pub wipe_keys : Session → Session
wipe_keys s = record s { session_keys = none; ephemeral_kx_kp = none }

-- The anti-replay check, on what Crypto::decrypt returned.
unfoldable pub accept_counter : Result DecryptedResult → Session → Result Payload × Session
accept_counter (err e) s = (err e, s)
accept_counter (ok res) s =
    if leb res.counter s.recv_counter
    then (err (runtime_error "Counter mismatch. Possible replay attack."), s)
    else (ok res.payload, record s { recv_counter = res.counter })

module _ (sodium : Sodium) where
  unfoldable pub client_initiate_handshake : KeyPair → Session → Result ClientHello × Session
  client_initiate_handshake fresh s =
      let s' = record s { ephemeral_kx_kp = some fresh } in
      elim s.role [
        | server ↦ (err (logic_error "Only clients can initiate a handshake."), s)
        | client ↦ elim s.client_identity_kp [
          | none ↦ (
            ok (record {
              supported_versions = s.supported_versions;
              ephemeral_pk = fresh.public_key;
              has_client_identity = false;
              identity_pk = [];
              identity_sig = [];
            }),
            s',
          )
          | some id ↦ (
            map_result
                (λ sig. record {
                  supported_versions = s.supported_versions;
                  ephemeral_pk = fresh.public_key;
                  has_client_identity = true;
                  identity_pk = id.public_key;
                  identity_sig = sig;
                })
                (sign sodium fresh.public_key id.private_key),
            s',
          )
        ]
      ]

  -- Steps 4 to 6: sign, compute the keys, answer.
  unfoldable pub answer_hello : ℕ → KeyPair → ClientHello → Session → Result ServerHello × Session
  answer_hello version fresh hello s =
      elim (sign sodium fresh.public_key s.server_sign_key.private_key) [
        | err e ↦ (err e, s)
        | ok signature ↦ elim (server_compute_session_keys sodium fresh hello.ephemeral_pk) [
          | err e ↦ (err e, s)
          | ok keys ↦ (
            ok (record {
              selected_version = version;
              ephemeral_pk = fresh.public_key;
              signature = signature;
            }),
            record s { session_keys = some keys; handshake_complete = true },
          )
        ]
      ]

  -- Steps 2 and 3: the client's identity, if it has one, and the ephemeral key pair.
  unfoldable pub accept_identity :
      ℕ → KeyPair → ClientHello → Session → Result ServerHello × Session
  unfolding answer_hello
  accept_identity version fresh hello s =
      if hello.has_client_identity
      then if verify sodium hello.identity_sig hello.ephemeral_pk hello.identity_pk
        then answer_hello version fresh hello
            (record s { peer_identity = some hello.identity_pk; ephemeral_kx_kp = some fresh })
        else (err (runtime_error "Client identity signature verification failed."), s)
      else answer_hello version fresh hello (record s { ephemeral_kx_kp = some fresh })

  unfoldable pub server_respond_to_handshake :
      KeyPair → ClientHello → Session → Result ServerHello × Session
  unfolding accept_identity
  server_respond_to_handshake fresh hello s = elim s.role [
    | client ↦ (err (logic_error "Only servers can respond to a handshake."), s)
    | server ↦ elim (negotiate hello.supported_versions s.supported_versions) [
      | none ↦ (
        err (runtime_error "Client and server have no supported protocol versions in common."),
        s,
      )
      | some version ↦
          accept_identity version fresh hello (record s { selected_version = some version })
    ]
  ]

  -- What the client does once it has an ephemeral key pair.
  unfoldable pub accept_hello : KeyPair → ServerHello → Session → Result (Unit {0}) × Session
  accept_hello own hello s =
      let s' = record s { selected_version = some hello.selected_version } in
      if is_supported hello.selected_version s.supported_versions
      then if verify sodium hello.signature hello.ephemeral_pk s.server_sign_key.public_key
        then elim (client_compute_session_keys sodium own hello.ephemeral_pk) [
          | err e ↦ (err e, s')
          | ok keys ↦ (ok tt, record s' { session_keys = some keys; handshake_complete = true })
        ]
        else (err (runtime_error "Server's signature for its ephemeral key is invalid."), s')
      else (
        err (runtime_error "Server selected a protocol version that the client does not support."),
        s,
      )

  unfoldable pub client_finalize_handshake : ServerHello → Session → Result (Unit {0}) × Session
  unfolding accept_hello
  client_finalize_handshake hello s = elim s.role [
    | server ↦ (err (logic_error "Only clients can finalize a handshake."), s)
    | client ↦ elim s.ephemeral_kx_kp [
      | none ↦ (err (logic_error "client_initiate_handshake must be called first."), s)
      | some own ↦ accept_hello own hello s
    ]
  ]

  -- The counter wraps at 2 ^ 64. The nonce is drawn by Crypto::encrypt.
  unfoldable pub encrypt_payload : Host → List ℕ → Payload → Session → Result (List ℕ) × Session
  encrypt_payload h nonce payload s =
      let counter = (s.send_counter + 1) % 2 ^ 64 in
      if s.handshake_complete
      then elim s.session_keys [
        | none ↦ (err null_pointer, s)
        | some keys ↦
            (encrypt sodium h nonce payload counter keys.tx, record s { send_counter = counter })
      ]
      else (err (logic_error "Handshake must be complete before sending data."), s)

  unfoldable pub decrypt_packet : Host → List ℕ → Session → Result Payload × Session
  unfolding accept_counter
  decrypt_packet h packet s =
      if s.handshake_complete
      then elim s.session_keys [
        | none ↦ (err null_pointer, s)
        | some keys ↦ accept_counter (decrypt sodium h packet keys.rx) s
      ]
      else (err (logic_error "Handshake must be complete before receiving data."), s)
