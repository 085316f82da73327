-- ===== src/Session/Delivery.antt =====
-- The two halves together: a handshake over the wire, then data in both directions.
use obscura_proto.Common.{ℕ, ◌+◌, ◌≤◌, ◌<◌, ◌^◌, ◌≡◌, refl, List, Option, some, length, All}
use obscura_proto.Common.Words.{IsU16}
use obscura_proto.Errors.{ok}
use obscura_proto.Endian.{Host}
use obscura_proto.Handshake.{PublicKey, PrivateKey, KeyPair}
use obscura_proto.Version.{negotiate}
use obscura_proto.Crypto.Libsodium.{Sodium, SodiumLaws}
use obscura_proto.Crypto.{SessionKeys}
use obscura_proto.Crypto.Agreement.{kx_pair}
use obscura_proto.Session.{client, server, Session}
use obscura_proto.Session.Hellos.{IsIdentity, peer_of, agreed}
use obscura_proto.Session.Negotiation.{exchange, exchange-agreed}
use obscura_proto.Session.Channel.{Sent, IsSendable, Linked, transfer, arrived, transfer-arrived}

module _ (sodium : Sodium) (laws : SodiumLaws sodium) where
  agreed-Linked :
      (own_a own_b : KeyPair) (v_a v_b : ℕ) (keys_a keys_b : SessionKeys)
      (peer_a peer_b : Option PublicKey) (a b : Session)
      → keys_a.tx ≡ keys_b.rx
      → length keys_a.tx ≡ 32
      → b.recv_counter ≤ a.send_counter
      → Linked (agreed own_a v_a keys_a peer_a a) (agreed own_b v_b keys_b peer_b b) keys_a.tx
  agreed-Linked own_a own_b v_a v_b keys_a keys_b peer_a peer_b a b same size behind = record {
    a_keys = keys_a;
    b_keys = keys_b;
    a_complete = refl;
    b_complete = refl;
    a_held = refl;
    b_held = refl;
    a_key = refl;
    b_key = rw same;
    key_size = size;
    behind = behind;
  }

  -- Under the conditions of `exchange-agreed`, with receive counters that are not ahead of the
  -- peer's send counters, 12-byte nonces, 16-bit operation codes and fewer packets than the
  -- counters have room for below 2 ^ 64, the handshake succeeds, and then every packet that
  -- arrives in either direction is decrypted to the payload that was sent, in order and whichever
  -- packets are lost.
  pub exchange-transfer :
      (hc hs : Host) (a b : PrivateKey) (c s : Session) (o : Option KeyPair) (version : ℕ)
      (keys : SessionKeys) (up down : List Sent)
      → c.role ≡ client
      → s.role ≡ server
      → c.client_identity_kp ≡ o
      → IsIdentity sodium o
      → length a ≡ 32
      → length b ≡ 32
      → length s.server_sign_key.private_key ≡ 64
      → c.server_sign_key.public_key ≡ sodium.sk_to_pk s.server_sign_key.private_key
      → length c.supported_versions < 2 ^ 16
      → All IsU16 c.supported_versions
      → negotiate c.supported_versions s.supported_versions ≡ some version
      → sodium.kx_client_session_keys (sodium.kx_public a) a (sodium.kx_public b)
        ≡ some (keys.rx, keys.tx)
      → s.recv_counter ≤ c.send_counter
      → c.recv_counter ≤ s.send_counter
      → All IsSendable up
      → All IsSendable down
      → c.send_counter + length up < 2 ^ 64
      → s.send_counter + length down < 2 ^ 64
      → (c' : Session) × (s' : Session) × (exchange sodium hc hs
            (kx_pair sodium a)
            (kx_pair sodium b)
            c
            s
          ≡ ok (c', s'))
        × (transfer sodium hc hs up c' s' ≡ arrived up)
        × (transfer sodium hs hc down s' c' ≡ arrived down)
  exchange-transfer hc hs a b c s o version keys up down rc rs eo id a32 b32 s64 trust few fit
        chosen shared ahead_c ahead_s sendable_up sendable_down room_up room_down =
      let sizes =
        laws.kx_client_size (sodium.kx_public a) a (sodium.kx_public b) keys.rx keys.tx shared in
      let crossed : SessionKeys = record { rx = keys.tx; tx = keys.rx } in
      let c' = agreed (kx_pair sodium a) version keys c.peer_identity c in
      let s' = agreed (kx_pair sodium b) version crossed (peer_of o s) s in
      (
        c',
        s',
        exchange-agreed sodium laws hc hs a b c s o version keys rc rs eo id a32 b32 s64 trust few
            fit chosen shared,
        transfer-arrived sodium laws hc hs up c' s' keys.tx
            (agreed-Linked _ _ _ _ keys crossed _ _ c s refl sizes.1 ahead_c) sendable_up room_up,
        transfer-arrived sodium laws hs hc down s' c' keys.rx
            (agreed-Linked _ _ _ _ crossed keys _ _ s c refl sizes.0 ahead_s) sendable_down
            room_down,
      )
