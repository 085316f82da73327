-- ===== src/Crypto/Libsodium.antt =====
-- libsodium as the code calls it, and the documented behaviour that the theorems rely on.
use obscura_proto.Common.{ℕ, ◌+◌, ◌≡◌, List, Bool, true, Option, some, length, All}
use obscura_proto.Common.Words.{IsByte}
use obscura_proto.Handshake.{PublicKey, PrivateKey, Signature, KeyPair}

pub record Sodium : Type 0 where
  -- crypto_sign_seed_keypair; none where it does not return 0.
  pub seed_keypair : List ℕ → Option KeyPair
  -- crypto_sign_ed25519_sk_to_pk
  pub sk_to_pk : PrivateKey → PublicKey
  -- crypto_sign_detached, of a message and a secret key
  pub sign_detached : List ℕ → PrivateKey → Signature
  -- crypto_sign_verify_detached returns 0
  pub verify_detached : Signature → List ℕ → PublicKey → Bool
  -- crypto_scalarmult_base, the public key that crypto_kx_keypair makes of a secret key
  pub kx_public : PrivateKey → PublicKey
  -- crypto_kx_client_session_keys, of the own pair and the peer's public key: rx and tx
  pub kx_client_session_keys : PublicKey → PrivateKey → PublicKey → Option (List ℕ × List ℕ)
  pub kx_server_session_keys : PublicKey → PrivateKey → PublicKey → Option (List ℕ × List ℕ)
  -- crypto_aead_chacha20poly1305_ietf: text, associated data, nonce, key
  pub aead_encrypt : List ℕ → List ℕ → List ℕ → List ℕ → List ℕ
  pub aead_decrypt : List ℕ → List ℕ → List ℕ → List ℕ → Option (List ℕ)

pub record SodiumLaws (s : Sodium) : Type 0 where
  pub sign_size : (m : List ℕ) (sk : PrivateKey) → length (s.sign_detached m sk) ≡ 64
  pub sk_to_pk_size : (sk : PrivateKey) → length (s.sk_to_pk sk) ≡ 32
  pub kx_public_size : (sk : PrivateKey) → length (s.kx_public sk) ≡ 32
  pub verify_signed :
      (m : List ℕ) (sk : PrivateKey)
      → s.verify_detached (s.sign_detached m sk) m (s.sk_to_pk sk) ≡ true
  -- The two sides of a key exchange get the same keys, crossed, of 32 bytes each.
  pub kx_agree :
      (a b : PrivateKey) (rx tx : List ℕ)
      → s.kx_client_session_keys (s.kx_public a) a (s.kx_public b) ≡ some (rx, tx)
      → s.kx_server_session_keys (s.kx_public b) b (s.kx_public a) ≡ some (tx, rx)
  pub kx_client_size :
      (pk : PublicKey) (sk : PrivateKey) (peer : PublicKey) (rx tx : List ℕ)
      → s.kx_client_session_keys pk sk peer ≡ some (rx, tx)
      → (length rx ≡ 32) × (length tx ≡ 32)
  -- The ciphertext holds the text and a tag of 16 bytes.
  pub aead_size :
      (text ad nonce key : List ℕ) → length (s.aead_encrypt text ad nonce key) ≡ length text + 16
  pub aead_decrypt_encrypt :
      (text ad nonce key : List ℕ)
      → s.aead_decrypt (s.aead_encrypt text ad nonce key) ad nonce key ≡ some text
  -- A ciphertext whose tag is right is the encryption of what it decrypts to.
  pub aead_genuine :
      (c ad nonce key text : List ℕ)
      → s.aead_decrypt c ad nonce key ≡ some text
      → c ≡ s.aead_encrypt text ad nonce key
  pub aead_bytes :
      (c ad nonce key text : List ℕ)
      → All IsByte c
      → s.aead_decrypt c ad nonce key ≡ some text
      → All IsByte text
