-- ===== src/Crypto/Agreement.antt =====
-- Signatures verify, and both sides of a key exchange get the same keys, crossed.
use obscura_proto.Common.{ℕ, ◌≡◌, List, true, ◌==◌, length}
use obscura_proto.Errors.{ok, or_throw, or_throw-eq-ok, check, >>=-eq-ok}
use obscura_proto.Handshake.{PrivateKey, Signature, KeyPair}
use obscura_proto.Crypto.Libsodium.{Sodium, SodiumLaws}
use obscura_proto.Crypto.{
  SessionKeys, sign, verify, are_kx_sizes, client_compute_session_keys, server_compute_session_keys,
}

-- A pair as crypto_kx_keypair makes it.
abbrev pub kx_pair : Sodium → PrivateKey → KeyPair
kx_pair sodium sk = record { public_key = sodium.kx_public sk; private_key = sk }

module _ (sodium : Sodium) (laws : SodiumLaws sodium) where
  -- A signature that `sign` returns is accepted by `verify` under the public key of the signing
  -- key.
  pub verify-sign :
      (m : List ℕ) (sk : PrivateKey) (sig : Signature)
      → sign sodium m sk ≡ ok sig
      → verify sodium sig m (sodium.sk_to_pk sk) ≡ true
  unfolding sign verify
  verify-sign m sk sig e =
      let (u, p, q) = >>=-eq-ok (check (length sk == 64) _) _ e in
      let same : sodium.sign_detached m sk ≡ sig = cc q in
      rw (← same, laws.sign_size m sk, laws.sk_to_pk_size sk) (laws.verify_signed m sk)

  -- If the client can compute its session keys, so can the server with a private key of 32 bytes,
  -- and what one side sends with is what the other receives with.
  pub session_keys_agree :
      (a b : PrivateKey) (keys : SessionKeys)
      → length b ≡ 32
      → client_compute_session_keys sodium (kx_pair sodium a) (sodium.kx_public b) ≡ ok keys
      → server_compute_session_keys sodium (kx_pair sodium b) (sodium.kx_public a)
        ≡ ok (record { rx = keys.tx; tx = keys.rx })
  unfolding client_compute_session_keys server_compute_session_keys are_kx_sizes
  session_keys_agree a b keys b32 e =
      let (u, p, q) =
        >>=-eq-ok (check (are_kx_sizes (kx_pair sodium a) (sodium.kx_public b)) _) _ e in
      let ((rx, tx), p', q') =
        >>=-eq-ok
          (or_throw (sodium.kx_client_session_keys (sodium.kx_public a) a (sodium.kx_public b)) _) _
          q in
      let agreed = laws.kx_agree a b rx tx (or_throw-eq-ok _ _ p') in
      rw (laws.kx_public_size a, laws.kx_public_size b, b32, agreed) (cc q')
