-- ===== src/Session/Tests.antt =====
-- The theorems of Session, applied to concrete sessions over the libsodium of Toy.
use obscura_proto.Common.{
  ℕ, ◌<◌, ◌≡◌, ◌⊎◌, refl, ap, ◌∙◌, List, [], ◌∷◌, true, false, Option, none, some, arith,
}
use obscura_proto.Errors.{Result, Exception, ok, err, runtime_error}
use obscura_proto.Endian.{little, big}
use obscura_proto.Packet.{Payload}
use obscura_proto.Handshake.{KeyPair, ClientHello, ServerHello}
use obscura_proto.Version.{default_versions, is_supported, negotiate}
use obscura_proto.Crypto.{
  SessionKeys, are_kx_sizes, sign, verify, server_compute_session_keys, client_compute_session_keys,
}
use obscura_proto.Crypto.Toy.{pad, toy, toy_laws}
use obscura_proto.Crypto.Agreement.{kx_pair}
use obscura_proto.Crypto.Tests.{ping, key, nonce, packet, decrypt_test, decrypt_next_test}
use obscura_proto.Session.{
  Role, client, server, Session, new, answer_hello, accept_identity, server_respond_to_handshake,
  accept_hello, client_finalize_handshake, encrypt_payload, decrypt_packet,
}
use obscura_proto.Session.Invariant.{IsConsistent}
use obscura_proto.Session.Reach.{here, next, encrypts, responds, Reach-IsConsistent}
use obscura_proto.Session.Hellos.{agreed}
use obscura_proto.Session.Negotiation.{exchange, exchange-agreed}
use obscura_proto.Session.Authentication.{
  Accepted, server_respond-Accepted, client_finalize-ok, client_finalize-refused,
}
use obscura_proto.Session.Channel.{Sent, transfer, Linked}
use obscura_proto.Session.Replay.{counter_of, decrypt_packet_grows, decrypt_packet_replayed}
use obscura_proto.Session.Delivery.{exchange-transfer}

abbrev a : List ℕ
a = pad 32 (8 ∷ [])

abbrev b : List ℕ
b = pad 32 (9 ∷ [])

abbrev sign_key : KeyPair
sign_key = record { public_key = pad 32 (6 ∷ []); private_key = pad 64 (6 ∷ []) }

abbrev identity : KeyPair
identity = record { public_key = pad 32 (7 ∷ []); private_key = pad 64 (7 ∷ []) }

abbrev fresh_session : Role → Option KeyPair → Session
fresh_session role id = record {
  role = role;
  handshake_complete = false;
  selected_version = none;
  supported_versions = default_versions;
  server_sign_key = sign_key;
  ephemeral_kx_kp = none;
  session_keys = none;
  client_identity_kp = id;
  peer_identity = none;
  send_counter = 0;
  recv_counter = 0;
}

abbrev c : Session
c = fresh_session client (some identity)

abbrev s : Session
s = fresh_session server none

abbrev keys : SessionKeys
keys = record { rx = b; tx = a }

abbrev sends : List Sent
sends =
    record { nonce = nonce; payload = ping; arrives = false }
    ∷ record { nonce = nonce; payload = ping; arrives = true }
    ∷ []

new_test : fresh_session server none ≡ new server sign_key default_versions
unfolding new
new_test = refl

negotiate_test : negotiate default_versions default_versions ≡ some 257
unfolding negotiate is_supported
negotiate_test = refl

exchange-transfer_example :
    (c' : Session) × (s' : Session) × (exchange toy little big (kx_pair toy a) (kx_pair toy b) c s
      ≡ ok (c', s'))
    × (transfer toy little big sends c' s' ≡ ok ping ∷ [])
    × (transfer toy big little sends s' c' ≡ ok ping ∷ [])
exchange-transfer_example =
    exchange-transfer toy toy_laws little big a b c s (some identity) 257 keys sends sends refl refl
      refl (refl, refl) refl refl refl refl (omega arith) (omega arith, (omega arith, tt))
      negotiate_test refl (omega arith) (omega arith)
      ((refl, omega arith), ((refl, omega arith), tt))
      ((refl, omega arith), ((refl, omega arith), tt)) (omega arith) (omega arith)

exchange-agreed_example :
    exchange toy little big (kx_pair toy a) (kx_pair toy b) c s
    ≡ ok (
      agreed (kx_pair toy a) 257 keys none c,
      agreed (kx_pair toy b) 257 (record { rx = a; tx = b }) (some identity.public_key) s,
    )
exchange-agreed_example =
    exchange-agreed toy toy_laws little big a b c s (some identity) 257 keys refl refl refl
      (refl, refl) refl refl refl refl (omega arith) (omega arith, (omega arith, tt)) negotiate_test
      refl

-- A session that is done with its handshake, with the key of the packets.
abbrev pub open_at : ℕ → Session
open_at n = record s {
  handshake_complete = true;
  selected_version = some 257;
  session_keys = some (record { rx = key; tx = key });
  recv_counter = n;
}

pub decrypt_packet_test : decrypt_packet toy big (packet 5) (open_at 4) ≡ (ok ping, open_at 5)
unfolding decrypt_packet
decrypt_packet_test = rw decrypt_test refl

-- The receiver after that packet.
abbrev after : Session
after = (decrypt_packet toy big (packet 5) (open_at 4)).1

after_test : after ≡ open_at 5
after_test = ap (λ (r : Result Payload × Session). r.1) decrypt_packet_test

accepted_test : (decrypt_packet toy big (packet 5) (open_at 4)).0 ≡ ok ping
accepted_test = rw decrypt_packet_test refl

decrypt_packet_next_test : decrypt_packet toy big (packet 6) (open_at 5) ≡ (ok ping, open_at 6)
unfolding decrypt_packet
decrypt_packet_next_test = rw decrypt_next_test refl

next_test : (decrypt_packet toy big (packet 6) after).0 ≡ ok ping
next_test =
    ap (λ (t : Session). (decrypt_packet toy big (packet 6) t).0) after_test
    ∙ ap (λ (r : Result Payload × Session). r.0) decrypt_packet_next_test

replay_test :
    decrypt_packet toy big (packet 5) (open_at 5)
    ≡ (err (runtime_error "Counter mismatch. Possible replay attack."), open_at 5)
unfolding decrypt_packet
replay_test = rw decrypt_test refl

decrypt_packet_grows_example : counter_of big (packet 5) < counter_of big (packet 6)
decrypt_packet_grows_example =
    decrypt_packet_grows toy big (packet 5) (packet 6) (open_at 4) after ping ping accepted_test
      here next_test

decrypt_packet_replayed_example :
    (e : Exception) × (decrypt_packet toy big
        (packet 5)
        (encrypt_payload toy little nonce ping after).1
      ≡ (err e, (encrypt_payload toy little nonce ping after).1))
decrypt_packet_replayed_example =
    decrypt_packet_replayed toy big (packet 5) (open_at 4)
      (encrypt_payload toy little nonce ping after).1 ping accepted_test
      (next here (encrypts little nonce ping refl))

abbrev hello : ClientHello
hello = record {
  supported_versions = default_versions;
  ephemeral_pk = a;
  has_client_identity = true;
  identity_pk = identity.public_key;
  identity_sig = pad 64 a;
}

abbrev answer : ServerHello
answer = record { selected_version = 257; ephemeral_pk = b; signature = pad 64 b }

abbrev forged : ServerHello
forged = record { selected_version = 257; ephemeral_pk = b; signature = pad 64 a }

abbrev waiting : Session
waiting = record c { ephemeral_kx_kp = some (kx_pair toy a) }

answer_test : (server_respond_to_handshake toy (kx_pair toy b) hello s).0 ≡ ok answer
unfolding server_respond_to_handshake accept_identity answer_hello negotiate is_supported verify
    sign server_compute_session_keys are_kx_sizes
answer_test = refl

finalize_test : (client_finalize_handshake toy answer waiting).0 ≡ ok tt
unfolding client_finalize_handshake accept_hello is_supported verify client_compute_session_keys
    are_kx_sizes
finalize_test = refl

server_respond-Accepted_example :
    Accepted toy hello answer s (server_respond_to_handshake toy (kx_pair toy b) hello s).1
server_respond-Accepted_example =
    server_respond-Accepted toy (kx_pair toy b) hello s answer answer_test

client_finalize-ok_example :
    (verify toy (pad 64 b) b sign_key.public_key ≡ true)
    × (is_supported 257 default_versions ≡ true)
    × ((client_finalize_handshake toy answer waiting).1.handshake_complete ≡ true)
    × ((client_finalize_handshake toy answer waiting).1.selected_version ≡ some 257)
client_finalize-ok_example = client_finalize-ok toy answer waiting finalize_test

refused_test :
    (client_finalize_handshake toy forged waiting).0
    ≡ err (runtime_error "Server's signature for its ephemeral key is invalid.")
unfolding client_finalize_handshake accept_hello is_supported verify
refused_test = refl

client_finalize-refused_example :
    (((client_finalize_handshake toy forged waiting).1 ≡ waiting)
      × ((waiting.role ≡ server)
          ⊎ (waiting.ephemeral_kx_kp ≡ none)
          ⊎ (is_supported 257 default_versions ≡ false)))
    ⊎ (((client_finalize_handshake toy forged waiting).1
          ≡ record waiting { selected_version = some 257 })
        × (is_supported 257 default_versions ≡ true)
        × ((verify toy (pad 64 a) b sign_key.public_key ≡ false)
            ⊎ ((own : KeyPair) × (waiting.ephemeral_kx_kp ≡ some own)
                × (client_compute_session_keys toy own b
                    ≡ err (runtime_error "Server's signature for its ephemeral key is invalid.")))))
client_finalize-refused_example =
    client_finalize-refused toy forged waiting
      (runtime_error "Server's signature for its ephemeral key is invalid.") refused_test

-- A server after its answer.
abbrev answered : Session
answered =
    (server_respond_to_handshake toy (kx_pair toy b) hello (new server sign_key default_versions)).1

Reach-IsConsistent_example : IsConsistent answered
Reach-IsConsistent_example =
    Reach-IsConsistent toy server sign_key default_versions answered
      (next here (responds (kx_pair toy b) hello refl))

linked : Linked (open_at 0) (open_at 0) key
linked = record {
  a_keys = record { rx = key; tx = key };
  b_keys = record { rx = key; tx = key };
  a_complete = refl;
  b_complete = refl;
  a_held = refl;
  b_held = refl;
  a_key = refl;
  b_key = refl;
  key_size = refl;
  behind = omega arith;
}
