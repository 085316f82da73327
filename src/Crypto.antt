-- ===== src/Crypto.antt =====
-- The class Crypto of include/obscuraproto/crypto.hpp and src/crypto.cpp. libsodium is not part of
-- the repository: its functions are the record Sodium, and what the code relies on of them, the
-- documented behaviour of each, the record SodiumLaws. Random bytes, the key pairs that
-- libsodium generates and the nonces, are arguments.
pub mod Libsodium
pub mod Toy
pub mod Envelope
pub mod Agreement
pub mod Tests
use obscura_proto.Common.{
  ℕ, ◌+◌, List, ◌++◌, Bool, true, false, not, ◌&&◌, Option, none, some, ltb, ◌==◌, if◌then◌else◌,
  length, take, drop,
}
use obscura_proto.Errors.{
  Result, ok, err, runtime_error, invalid_argument, ◌>>=◌, ◌>>◌, check, or_throw,
}
use obscura_proto.Endian.{Host, image, load, htonll_local, ntohll_local}
use obscura_proto.Packet.{Payload, serialize, deserialize}
use obscura_proto.Handshake.{
  PublicKey, PrivateKey, Signature, KeyPair, public_key_bytes, sign_bytes,
}
use Libsodium.{Sodium}

pub record SessionKeys : Type 0 where
  pub rx : List ℕ
  pub tx : List ℕ

pub record DecryptedResult : Type 0 where
  pub payload : Payload
  pub counter : ℕ

-- The sizes that both key computations check.
unfoldable pub are_kx_sizes : KeyPair → PublicKey → Bool
are_kx_sizes own peer =
    length own.public_key == public_key_bytes
    && length own.private_key == 32
    && length peer == public_key_bytes

module _ (sodium : Sodium) where
  unfoldable pub keypair_from_seed : List ℕ → Result KeyPair
  keypair_from_seed seed = do
    check (length seed == 32) (invalid_argument "Seed must be exactly 32 bytes.")
    or_throw (sodium.seed_keypair seed) (runtime_error "Seed expansion failed.")

  unfoldable pub derive_public_key : PrivateKey → Result PublicKey
  derive_public_key private_key = do
    check (length private_key == 64) (invalid_argument "Private key must be exactly 64 bytes.")
    ok (sodium.sk_to_pk private_key)

  unfoldable pub sign : List ℕ → PrivateKey → Result Signature
  sign message private_key = do
    check (length private_key == 64) (invalid_argument "Invalid private key size for signing.")
    ok (sodium.sign_detached message private_key)

  unfoldable pub verify : Signature → List ℕ → PublicKey → Bool
  verify signature message public_key =
      if length signature == sign_bytes && length public_key == public_key_bytes
      then sodium.verify_detached signature message public_key
      else false

  unfoldable pub client_compute_session_keys : KeyPair → PublicKey → Result SessionKeys
  client_compute_session_keys client server_pk = do
    check (are_kx_sizes client server_pk)
        (invalid_argument "Invalid key sizes for client session key computation.")
    (rx, tx) ←
        or_throw (sodium.kx_client_session_keys client.public_key client.private_key server_pk)
          (runtime_error "Failed to compute client session keys.")
    ok (record { rx = rx; tx = tx })

  unfoldable pub server_compute_session_keys : KeyPair → PublicKey → Result SessionKeys
  server_compute_session_keys server client_pk = do
    check (are_kx_sizes server client_pk)
        (invalid_argument "Invalid key sizes for server session key computation.")
    (rx, tx) ←
        or_throw (sodium.kx_server_session_keys server.public_key server.private_key client_pk)
          (runtime_error "Failed to compute server session keys.")
    ok (record { rx = rx; tx = tx })

  -- [Nonce][Counter][Ciphertext and tag], the counter authenticated as associated data.
  unfoldable pub encrypt : Host → List ℕ → Payload → ℕ → List ℕ → Result (List ℕ)
  encrypt h nonce payload counter key =
      let be_counter = image h 8 (htonll_local h counter) in
      do
        check (length key == 32) (invalid_argument "Invalid key size for encryption.")
        ok (nonce ++ (be_counter ++ sodium.aead_encrypt (serialize h payload) be_counter nonce key))

  unfoldable pub decrypt : Host → List ℕ → List ℕ → Result DecryptedResult
  decrypt h packet key =
      let nonce = take 12 packet in
      let be_counter = take 8 (drop 12 packet) in
      do
        check (length key == 32) (invalid_argument "Invalid key size for decryption.")
        check (not (ltb (length packet) 36)) (runtime_error "Packet too small to be valid.")
        plaintext ←
            or_throw (sodium.aead_decrypt (drop 20 packet) be_counter nonce key)
              (runtime_error "Failed to decrypt message. Authentication tag may be invalid.")
        payload ← deserialize h plaintext
        ok (record { payload = payload; counter = ntohll_local h (load h be_counter) })
