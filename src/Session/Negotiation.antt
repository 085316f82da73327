-- ===== src/Session/Negotiation.antt =====
-- A whole handshake over the wire, between a client and a server on any two machines.
use obscura_proto.Common.{ℕ, ◌<◌, ◌^◌, ◌≡◌, refl, Option, some, length, All}
use obscura_proto.Common.Words.{IsU16}
use obscura_proto.Errors.{Result, ok, ◌>>=◌}
use obscura_proto.Endian.{Host}
use obscura_proto.Handshake.{
  PrivateKey, KeyPair, ClientHello, ServerHello, serialize_client, serialize_server,
  deserialize_client, deserialize_server,
}
use obscura_proto.Handshake.RoundTrip.{IsWellFormedServer}
use obscura_proto.Version.{negotiate}
use obscura_proto.Version.Choice.{is_supported-In, negotiate_listed, All-In}
use obscura_proto.Crypto.Libsodium.{Sodium, SodiumLaws}
use obscura_proto.Crypto.{SessionKeys}
use obscura_proto.Crypto.Agreement.{kx_pair}
use obscura_proto.Session.{
  client, server, Session, client_initiate_handshake, server_respond_to_handshake,
  client_finalize_handshake,
}
use obscura_proto.Session.Hellos.{
  server_keys, client_keys, answer_of, respond_ok, finalize_ok, IsIdentity, hello_of, initiate_ok,
  hello_of-IsWellFormed, signed_verifies, hello_valid, peer_of, peer_of_hello, client_wire,
  server_wire, agreed,
}

module _ (sodium : Sodium) (hc hs : Host) where
  abbrev finished : Result (Unit {0}) × Session → Session → Result (Session × Session)
  finished (done, c) s = done >>= λ _. ok (c, s)

  abbrev answered : Result ServerHello × Session → Session → Result (Session × Session)
  answered (answer, s) c = do
    sent ← answer
    heard ← deserialize_server hc (serialize_server hs sent)
    finished (client_finalize_handshake sodium heard c) s

  abbrev opened : KeyPair → Result ClientHello × Session → Session → Result (Session × Session)
  opened b (hello, c) s = do
    sent ← hello
    heard ← deserialize_client hs (serialize_client hc sent)
    answered (server_respond_to_handshake sodium b heard s) c

  -- The two hellos, each serialized by its sender and deserialized by its receiver; the key
  -- pairs are the ephemeral ones of the client and of the server.
  unfoldable pub exchange : KeyPair → KeyPair → Session → Session → Result (Session × Session)
  exchange a b c s = opened b (client_initiate_handshake sodium a c) s

module _ (sodium : Sodium) (laws : SodiumLaws sodium) where
  -- Let the client list fewer than 2 ^ 16 versions of 16 bits, one of which is negotiated; let
  -- the ephemeral private keys have 32 bytes, the server's signing key and that of a client
  -- identity 64, with the public keys that libsodium derives from these; let the client hold the
  -- server's public signing key; and let libsodium compute the client's session keys. Then the
  -- handshake over the wire succeeds on any two machines. Both ends have the negotiated version
  -- and the same two keys, crossed, and the server has the client's identity key if the client
  -- has one.
  pub exchange-agreed :
      (hc hs : Host) (a b : PrivateKey) (c s : Session) (o : Option KeyPair) (version : ℕ)
      (keys : SessionKeys)
      → c.role ≡ client
      → s.role ≡ server
      → c.client_identity_kp ≡ o
      → IsIdentity sodium o
      → length a ≡ 32
      → length b ≡ 32
      → length s.server_sign_key.private_key ≡ 64
      → c.server_sign_key.public_key ≡ sodium.sk_to_pk s.server_sign_key.private_key
      → length c.supported_versions < 2 ^ 16
      → All IsU16 c.supported_versions
      → negotiate c.supported_versions s.supported_versions ≡ some version
      → sodium.kx_client_session_keys (sodium.kx_public a) a (sodium.kx_public b)
        ≡ some (keys.rx, keys.tx)
      → exchange sodium hc hs (kx_pair sodium a) (kx_pair sodium b) c s
        ≡ ok (
          agreed (kx_pair sodium a) version keys c.peer_identity c,
          agreed (kx_pair sodium b) version (record { rx = keys.tx; tx = keys.rx }) (peer_of o s) s,
        )
  unfolding exchange
  exchange-agreed hc hs a b c s o version keys rc rs eo id a32 b32 s64 trust few fit chosen shared =
      let hello : ClientHello = hello_of sodium a c.supported_versions o in
      let mine = negotiate_listed c.supported_versions s.supported_versions chosen in
      let formed : IsWellFormedServer (answer_of sodium version b s) = record {
        version = All-In IsU16 c.supported_versions fit mine;
        ephemeral = laws.kx_public_size b;
        signature = laws.sign_size (sodium.kx_public b) s.server_sign_key.private_key;
      } in
      rw (
        initiate_ok sodium laws a c o rc eo id,
        client_wire sodium laws hc hs hello
            (hello_of-IsWellFormed sodium laws a c.supported_versions o few fit id),
        respond_ok sodium laws b (record { rx = keys.tx; tx = keys.rx }) version hello s rs s64
            chosen (hello_valid sodium laws a c.supported_versions o id)
            (server_keys sodium laws a b keys b32 shared),
        server_wire sodium laws hs hc (answer_of sodium version b s) formed,
        finalize_ok sodium laws a b keys version
            (record c { ephemeral_kx_kp = some (kx_pair sodium a) }) s rc refl
            ((is_supported-In version c.supported_versions).1 mine)
            (signed_verifies sodium laws (sodium.kx_public b) s.server_sign_key.private_key
              c.server_sign_key.public_key s64 trust)
            (client_keys sodium laws a b keys a32 shared),
        peer_of_hello sodium laws a c.supported_versions o s,
      )
