-- ===== src/Session/Invariant.antt =====
-- What holds of a session after any calls of its methods.
use obscura_proto.Common.{
  ℕ, ◌≡◌, refl, ◌⊎◌, inl, inr, List, true, false, some, arith, Bool-cases, Option-cases,
}
use obscura_proto.Common.Words.{IsU64}
use obscura_proto.Errors.{Result-cases}
use obscura_proto.Endian.{Host}
use obscura_proto.Packet.{Payload}
use obscura_proto.Handshake.{KeyPair, ClientHello, ServerHello}
use obscura_proto.Version.{is_supported, negotiate}
use obscura_proto.Version.Choice.{negotiate-is_supported}
use obscura_proto.Crypto.Libsodium.{Sodium}
use obscura_proto.Crypto.{
  SessionKeys, sign, server_compute_session_keys, client_compute_session_keys, verify,
}
use obscura_proto.Session.{
  Role-cases, Session, client_initiate_handshake, answer_hello, accept_identity,
  server_respond_to_handshake, accept_hello, client_finalize_handshake, encrypt_payload,
  decrypt_packet,
}

-- Keys, and a version that the session supports.
abbrev pub IsReady : Session → Type 0
IsReady s =
    (keys : SessionKeys) × (version : ℕ) × (s.session_keys ≡ some keys)
    × (s.selected_version ≡ some version)
    × (is_supported version s.supported_versions ≡ true)

pub record IsConsistent (s : Session) : Type 0 where
  pub ready : (s.handshake_complete ≡ false) ⊎ IsReady s
  pub sent : IsU64 s.send_counter

module _ (sodium : Sodium) where
  pub client_initiate-IsConsistent :
      (fresh : KeyPair) (s : Session)
      → IsConsistent s
      → IsConsistent (client_initiate_handshake sodium fresh s).1
  unfolding client_initiate_handshake
  client_initiate-IsConsistent fresh s v = ground arith

  answer_hello-IsConsistent :
      (version : ℕ) (fresh : KeyPair) (hello : ClientHello) (s : Session)
      → s.selected_version ≡ some version
      → is_supported version s.supported_versions ≡ true
      → IsConsistent s
      → IsConsistent (answer_hello sodium version fresh hello s).1
  unfolding answer_hello
  answer_hello-IsConsistent version fresh hello s e h v =
      elim (Result-cases (sign sodium fresh.public_key s.server_sign_key.private_key)) [
        | inr (_, failed) ↦ rw (failed, answer_hello) v
        | inl (_, signed) ↦
            elim (Result-cases (server_compute_session_keys sodium fresh hello.ephemeral_pk)) [
              | inr (_, failed) ↦ rw (signed, failed, answer_hello) v
              | inl (keys, agreed) ↦
                  rw (signed, agreed, answer_hello)
                    (record { ready = inr (keys, version, refl, e, h); sent = v.sent })
            ]
      ]

  accept_identity-IsConsistent :
      (version : ℕ) (fresh : KeyPair) (hello : ClientHello) (s : Session)
      → s.selected_version ≡ some version
      → is_supported version s.supported_versions ≡ true
      → IsConsistent s
      → IsConsistent (accept_identity sodium version fresh hello s).1
  unfolding accept_identity
  accept_identity-IsConsistent version fresh hello s e h v = ground (
    arith,
    answer_hello-IsConsistent version fresh hello (record s { ephemeral_kx_kp = some fresh }) e h,
    answer_hello-IsConsistent version fresh hello
        (record s { peer_identity = some hello.identity_pk; ephemeral_kx_kp = some fresh }) e h,
  )

  select-IsConsistent :
      (version : ℕ) (s : Session)
      → is_supported version s.supported_versions ≡ true
      → IsConsistent s
      → IsConsistent (record s { selected_version = some version })
  select-IsConsistent version s h v = record { ready = ready v.ready; sent = v.sent }
    where
      ready :
          (s.handshake_complete ≡ false) ⊎ IsReady s
          → (s.handshake_complete ≡ false) ⊎ IsReady (record s { selected_version = some version })
      ready (inl off) = inl off
      ready (inr (keys, _, k, _, _)) = inr (keys, version, k, refl, h)

  pub server_respond-IsConsistent :
      (fresh : KeyPair) (hello : ClientHello) (s : Session)
      → IsConsistent s
      → IsConsistent (server_respond_to_handshake sodium fresh hello s).1
  unfolding server_respond_to_handshake
  server_respond-IsConsistent fresh hello s v = elim (Role-cases s.role) [
    | inl wrong ↦ rw (wrong, server_respond_to_handshake) v
    | inr right ↦ elim (Option-cases (negotiate hello.supported_versions s.supported_versions)) [
      | inl nothing ↦ rw (right, nothing, server_respond_to_handshake) v
      | inr (version, chosen) ↦
          let held = negotiate-is_supported hello.supported_versions s.supported_versions chosen in
          rw (right, chosen, server_respond_to_handshake)
            (accept_identity-IsConsistent version fresh hello
              (record s { selected_version = some version }) refl held
              (select-IsConsistent version s held v))
    ]
  ]

  accept_hello-IsConsistent :
      (own : KeyPair) (hello : ServerHello) (s : Session)
      → IsConsistent s
      → IsConsistent (accept_hello sodium own hello s).1
  unfolding accept_hello
  accept_hello-IsConsistent own hello s v =
      elim (Bool-cases (is_supported hello.selected_version s.supported_versions)) [
        | inr unknown ↦ rw unknown v
        | inl held ↦
            let chosen = select-IsConsistent hello.selected_version s held v in
            elim (Bool-cases
              (verify sodium hello.signature hello.ephemeral_pk s.server_sign_key.public_key)) [
                | inr forged ↦ rw (held, forged) chosen
                | inl genuine ↦
                    elim (Result-cases
                      (client_compute_session_keys sodium own hello.ephemeral_pk)) [
                        | inr (_, failed) ↦ rw (held, genuine, failed, accept_hello) chosen
                        | inl (keys, agreed) ↦
                            rw (held, genuine, agreed, accept_hello)
                              (record {
                                ready = inr (keys, hello.selected_version, refl, refl, held);
                                sent = v.sent;
                              })
                      ]
              ]
      ]

  pub client_finalize-IsConsistent :
      (hello : ServerHello) (s : Session)
      → IsConsistent s
      → IsConsistent (client_finalize_handshake sodium hello s).1
  unfolding client_finalize_handshake
  client_finalize-IsConsistent hello s v = elim (Role-cases s.role) [
    | inr wrong ↦ rw (wrong, client_finalize_handshake) v
    | inl right ↦ elim (Option-cases s.ephemeral_kx_kp) [
      | inl missing ↦ rw (right, missing, client_finalize_handshake) v
      | inr (own, held) ↦
          rw (right, held, client_finalize_handshake) (accept_hello-IsConsistent own hello s v)
    ]
  ]

  pub encrypt_payload-IsConsistent :
      (h : Host) (nonce : List ℕ) (payload : Payload) (s : Session)
      → IsConsistent s
      → IsConsistent (encrypt_payload sodium h nonce payload s).1
  unfolding encrypt_payload
  encrypt_payload-IsConsistent h nonce payload s v = ground arith

  pub decrypt_packet-IsConsistent :
      (h : Host) (packet : List ℕ) (s : Session)
      → IsConsistent s
      → IsConsistent (decrypt_packet sodium h packet s).1
  unfolding decrypt_packet
  decrypt_packet-IsConsistent h packet s v = ground arith
