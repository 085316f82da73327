-- ===== src/Session/Hellos.antt =====
-- Each step of a handshake that goes well, and that its hello survives the wire.
use obscura_proto.Common.{
  ℕ, ◌<◌, ◌^◌, ◌≡◌, refl, List, [], Bool, true, false, Option, none, some, arith, if◌then◌else◌,
  length, All, append-nil,
}
use obscura_proto.Common.Words.{IsU16}
use obscura_proto.Errors.{ok}
use obscura_proto.Endian.{Host}
use obscura_proto.Handshake.{
  PublicKey, PrivateKey, Signature, KeyPair, ClientHello, ServerHello, serialize_client,
  serialize_server, deserialize_client, deserialize_server,
}
use obscura_proto.Handshake.RoundTrip.{
  IsWellFormed, IsWellFormedServer, deserialize_client-serialize_client,
  deserialize_server-serialize_server,
}
use obscura_proto.Version.{is_supported, negotiate}
use obscura_proto.Crypto.Libsodium.{Sodium, SodiumLaws}
use obscura_proto.Crypto.{
  SessionKeys, sign, verify, are_kx_sizes, client_compute_session_keys, server_compute_session_keys,
}
use obscura_proto.Crypto.Agreement.{verify-sign, kx_pair}
use obscura_proto.Session.{
  client, server, Session, client_initiate_handshake, server_respond_to_handshake,
  client_finalize_handshake,
}

-- The session after a successful handshake.
abbrev pub agreed : KeyPair → ℕ → SessionKeys → Option PublicKey → Session → Session
agreed own version keys peer s = record s {
  handshake_complete = true;
  selected_version = some version;
  ephemeral_kx_kp = some own;
  session_keys = some keys;
  peer_identity = peer;
}

abbrev pub hello_peer : ClientHello → Session → Option PublicKey
hello_peer m s = if m.has_client_identity then some m.identity_pk else s.peer_identity

abbrev pub is_identified : Option KeyPair → Bool
is_identified none = false
is_identified (some id) = true

abbrev pub pk_field : Option KeyPair → PublicKey
pk_field none = []
pk_field (some id) = id.public_key

-- The peer identity that the server ends with: the client's public key, if it sent one.
abbrev pub peer_of : Option KeyPair → Session → Option PublicKey
peer_of none s = s.peer_identity
peer_of (some id) s = some id.public_key

module _ (sodium : Sodium) where
  abbrev pub answer_of : ℕ → PrivateKey → Session → ServerHello
  answer_of version b s = record {
    selected_version = version;
    ephemeral_pk = sodium.kx_public b;
    signature = sodium.sign_detached (sodium.kx_public b) s.server_sign_key.private_key;
  }

  -- No identity, or an Ed25519 pair as libsodium makes it.
  abbrev pub IsIdentity : Option KeyPair → Type 0
  IsIdentity none = Unit {0}
  IsIdentity (some id) =
      (length id.private_key ≡ 64) × (id.public_key ≡ sodium.sk_to_pk id.private_key)

  abbrev pub sig_field : PrivateKey → Option KeyPair → Signature
  sig_field a none = []
  sig_field a (some id) = sodium.sign_detached (sodium.kx_public a) id.private_key

  abbrev pub hello_of : PrivateKey → List ℕ → Option KeyPair → ClientHello
  hello_of a versions o = record {
    supported_versions = versions;
    ephemeral_pk = sodium.kx_public a;
    has_client_identity = is_identified o;
    identity_pk = pk_field o;
    identity_sig = sig_field a o;
  }

module _ (sodium : Sodium) (laws : SodiumLaws sodium) where
  pub sign_ok :
      (m : List ℕ) (sk : PrivateKey)
      → length sk ≡ 64
      → sign sodium m sk ≡ ok (sodium.sign_detached m sk)
  unfolding sign
  sign_ok m sk size = rw size

  pub server_keys :
      (a b : PrivateKey) (keys : SessionKeys)
      → length b ≡ 32
      → sodium.kx_client_session_keys (sodium.kx_public a) a (sodium.kx_public b)
        ≡ some (keys.rx, keys.tx)
      → server_compute_session_keys sodium (kx_pair sodium b) (sodium.kx_public a)
        ≡ ok (record { rx = keys.tx; tx = keys.rx })
  unfolding server_compute_session_keys are_kx_sizes
  server_keys a b keys b32 e =
      rw (laws.kx_public_size a, laws.kx_public_size b, b32, laws.kx_agree a b keys.rx keys.tx e)

  pub client_keys :
      (a b : PrivateKey) (keys : SessionKeys)
      → length a ≡ 32
      → sodium.kx_client_session_keys (sodium.kx_public a) a (sodium.kx_public b)
        ≡ some (keys.rx, keys.tx)
      → client_compute_session_keys sodium (kx_pair sodium a) (sodium.kx_public b) ≡ ok keys
  unfolding client_compute_session_keys are_kx_sizes
  client_keys a b keys a32 e = rw (laws.kx_public_size a, laws.kx_public_size b, a32, e)

  pub respond_ok :
      (b : PrivateKey) (keys : SessionKeys) (version : ℕ) (m : ClientHello) (s : Session)
      → s.role ≡ server
      → length s.server_sign_key.private_key ≡ 64
      → negotiate m.supported_versions s.supported_versions ≡ some version
      → (m.has_client_identity ≡ true
          → verify sodium m.identity_sig m.ephemeral_pk m.identity_pk ≡ true)
      → server_compute_session_keys sodium (kx_pair sodium b) m.ephemeral_pk ≡ ok keys
      → server_respond_to_handshake sodium (kx_pair sodium b) m s ≡ (
        ok (answer_of sodium version b s),
        agreed (kx_pair sodium b) version keys (hello_peer m s) s,
      )
  unfolding server_respond_to_handshake
  respond_ok b keys version m s role size chosen valid shared =
      ground (arith, sign_ok (sodium.kx_public b) s.server_sign_key.private_key size)

  pub finalize_ok :
      (a b : PrivateKey) (keys : SessionKeys) (version : ℕ) (c s : Session)
      → c.role ≡ client
      → c.ephemeral_kx_kp ≡ some (kx_pair sodium a)
      → is_supported version c.supported_versions ≡ true
      → verify sodium
          (answer_of sodium version b s).signature
          (sodium.kx_public b)
          c.server_sign_key.public_key
        ≡ true
      → client_compute_session_keys sodium (kx_pair sodium a) (sodium.kx_public b) ≡ ok keys
      → client_finalize_handshake sodium (answer_of sodium version b s) c
        ≡ (ok tt, agreed (kx_pair sodium a) version keys c.peer_identity c)
  unfolding client_finalize_handshake
  finalize_ok a b keys version c s role own held valid shared = ground arith

  pub initiate_ok :
      (a : PrivateKey) (c : Session) (o : Option KeyPair)
      → c.role ≡ client
      → c.client_identity_kp ≡ o
      → IsIdentity sodium o
      → client_initiate_handshake sodium (kx_pair sodium a) c ≡ (
        ok (hello_of sodium a c.supported_versions o),
        record c { ephemeral_kx_kp = some (kx_pair sodium a) },
      )
  unfolding client_initiate_handshake
  initiate_ok a c none role e id = ground arith
  initiate_ok a c (some kp) role e id =
      ground (arith, sign_ok (sodium.kx_public a) kp.private_key id.0)

  pub hello_of-IsWellFormed :
      (a : PrivateKey) (versions : List ℕ) (o : Option KeyPair)
      → length versions < 2 ^ 16
      → All IsU16 versions
      → IsIdentity sodium o
      → IsWellFormed (hello_of sodium a versions o)
  hello_of-IsWellFormed a versions none few fit id = record {
    count = few;
    versions = fit;
    ephemeral = laws.kx_public_size a;
    identity = refl;
    signature = refl;
  }
  hello_of-IsWellFormed a versions (some kp) few fit id = record {
    count = few;
    versions = fit;
    ephemeral = laws.kx_public_size a;
    identity = rw id.1 (laws.sk_to_pk_size kp.private_key);
    signature = laws.sign_size (sodium.kx_public a) kp.private_key;
  }

  pub signed_verifies :
      (m : List ℕ) (sk : PrivateKey) (pk : PublicKey)
      → length sk ≡ 64
      → pk ≡ sodium.sk_to_pk sk
      → verify sodium (sodium.sign_detached m sk) m pk ≡ true
  signed_verifies m sk pk size e =
      rw e (verify-sign sodium laws m sk (sodium.sign_detached m sk) (sign_ok m sk size))

  pub hello_valid :
      (a : PrivateKey) (versions : List ℕ) (o : Option KeyPair)
      → IsIdentity sodium o
      → let m = hello_of sodium a versions o in
        m.has_client_identity ≡ true
        → verify sodium m.identity_sig m.ephemeral_pk m.identity_pk ≡ true
  hello_valid a versions none id h = cc
  hello_valid a versions (some kp) id h =
      signed_verifies (sodium.kx_public a) kp.private_key kp.public_key id.0 id.1

  pub peer_of_hello :
      (a : PrivateKey) (versions : List ℕ) (o : Option KeyPair) (s : Session)
      → hello_peer (hello_of sodium a versions o) s ≡ peer_of o s
  peer_of_hello a versions none s = refl
  peer_of_hello a versions (some id) s = refl

  pub client_wire :
      (hc hs : Host) (m : ClientHello)
      → IsWellFormed m
      → deserialize_client hs (serialize_client hc m) ≡ ok m
  client_wire hc hs m f = rw append-nil at (deserialize_client-serialize_client hc hs m [] f)

  pub server_wire :
      (hs hc : Host) (m : ServerHello)
      → IsWellFormedServer m
      → deserialize_server hc (serialize_server hs m) ≡ ok m
  server_wire hs hc m f = rw append-nil at (deserialize_server-serialize_server hs hc m [] f)
