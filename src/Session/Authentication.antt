-- ===== src/Session/Authentication.antt =====
-- What a completed handshake has checked, and what a failed one leaves behind.
use obscura_proto.Common.{
  ℕ, ◌≡◌, refl, ◌⊎◌, inl, inr, true, false, none, some, arith, if◌then◌else◌, Option-cases,
}
use obscura_proto.Errors.{Result, Exception, ok, err}
use obscura_proto.Handshake.{KeyPair, ClientHello, ServerHello}
use obscura_proto.Version.{is_supported, negotiate}
use obscura_proto.Crypto.Libsodium.{Sodium}
use obscura_proto.Crypto.{
  SessionKeys, verify, client_compute_session_keys, server_compute_session_keys,
}
use obscura_proto.Session.{
  client, server, Role-cases, Session, answer_hello, server_respond_to_handshake, accept_hello,
  client_finalize_handshake,
}

module _ (sodium : Sodium) where
  -- What the server has checked of a hello that it answers.
  pub record Accepted (hello : ClientHello) (answer : ServerHello) (s s' : Session) : Type 0 where
    pub version :
        negotiate hello.supported_versions s.supported_versions ≡ some answer.selected_version
    pub verified :
        (hello.has_client_identity ≡ false)
        ⊎ (verify sodium hello.identity_sig hello.ephemeral_pk hello.identity_pk ≡ true)
    pub peer :
        s'.peer_identity
        ≡ (if hello.has_client_identity then some hello.identity_pk else s.peer_identity)
    pub complete : s'.handshake_complete ≡ true
    pub selected : s'.selected_version ≡ some answer.selected_version

  answer_hello-ok :
      (version : ℕ) (fresh : KeyPair) (hello : ClientHello) (s : Session) (answer : ServerHello)
      → (answer_hello sodium version fresh hello s).0 ≡ ok answer
      → (answer.selected_version ≡ version)
        × ((answer_hello sodium version fresh hello s).1.handshake_complete ≡ true)
        × ((answer_hello sodium version fresh hello s).1.peer_identity ≡ s.peer_identity)
        × ((answer_hello sodium version fresh hello s).1.selected_version ≡ s.selected_version)
  unfolding answer_hello
  answer_hello-ok version fresh hello s answer e = ground arith

  -- A server that answers a ClientHello has found the version in both lists and has verified the
  -- signature of an identity that the hello claims; only then that identity is the peer's.
  pub server_respond-Accepted :
      (fresh : KeyPair) (hello : ClientHello) (s : Session) (answer : ServerHello)
      → (server_respond_to_handshake sodium fresh hello s).0 ≡ ok answer
      → Accepted hello answer s (server_respond_to_handshake sodium fresh hello s).1
  unfolding server_respond_to_handshake
  server_respond-Accepted fresh hello s answer e = ground arith

  -- The session keys are computed from the hello's ephemeral key and the own key pair.
  abbrev pub Keyed : KeyPair → ClientHello → Session → Type 0
  Keyed own hello s =
      (keys : SessionKeys) × (server_compute_session_keys sodium own hello.ephemeral_pk ≡ ok keys)
      × (s.session_keys ≡ some keys)
      × (s.ephemeral_kx_kp ≡ some own)

  respond-Keyed :
      (fresh : KeyPair) (hello : ClientHello) (s : Session) (answer : ServerHello)
      (r : Result SessionKeys)
      → server_compute_session_keys sodium fresh hello.ephemeral_pk ≡ r
      → (server_respond_to_handshake sodium fresh hello s).0 ≡ ok answer
      → Keyed fresh hello (server_respond_to_handshake sodium fresh hello s).1
  unfolding server_respond_to_handshake answer_hello
  respond-Keyed fresh hello s answer (err x) same e = absurd (ground arith)
  respond-Keyed fresh hello s answer (ok keys) same e = (keys, same, ground arith, ground arith)

  pub server_respond-Keyed :
      (fresh : KeyPair) (hello : ClientHello) (s : Session) (answer : ServerHello)
      → (server_respond_to_handshake sodium fresh hello s).0 ≡ ok answer
      → Keyed fresh hello (server_respond_to_handshake sodium fresh hello s).1
  server_respond-Keyed fresh hello s answer = respond-Keyed fresh hello s answer _ refl

  -- A client that completes its handshake has verified the server's signature under the key that
  -- it was given, and the version is one of its own.
  pub client_finalize-ok :
      (hello : ServerHello) (s : Session)
      → (client_finalize_handshake sodium hello s).0 ≡ ok tt
      → (verify sodium hello.signature hello.ephemeral_pk s.server_sign_key.public_key ≡ true)
        × (is_supported hello.selected_version s.supported_versions ≡ true)
        × ((client_finalize_handshake sodium hello s).1.handshake_complete ≡ true)
        × ((client_finalize_handshake sodium hello s).1.selected_version
            ≡ some hello.selected_version)
  unfolding client_finalize_handshake
  client_finalize-ok hello s e = ground arith

  client_finalize-err :
      (hello : ServerHello) (s : Session) (e : Exception)
      → (client_finalize_handshake sodium hello s).0 ≡ err e
      → ((client_finalize_handshake sodium hello s).1.handshake_complete ≡ s.handshake_complete)
        × ((client_finalize_handshake sodium hello s).1.session_keys ≡ s.session_keys)
  unfolding client_finalize_handshake
  client_finalize-err hello s e k = ground arith

  server_respond-err :
      (fresh : KeyPair) (hello : ClientHello) (s : Session) (e : Exception)
      → (server_respond_to_handshake sodium fresh hello s).0 ≡ err e
      → ((server_respond_to_handshake sodium fresh hello s).1.handshake_complete
          ≡ s.handshake_complete)
        × ((server_respond_to_handshake sodium fresh hello s).1.session_keys ≡ s.session_keys)
  unfolding server_respond_to_handshake
  server_respond-err fresh hello s e k = ground arith

  -- The checks of a ServerHello in their order: the first that fails says what is left behind.
  accept_hello-refused :
      (own : KeyPair) (hello : ServerHello) (s : Session) (e : Exception) (r : Result SessionKeys)
      → client_compute_session_keys sodium own hello.ephemeral_pk ≡ r
      → (accept_hello sodium own hello s).0 ≡ err e
      → (((accept_hello sodium own hello s).1 ≡ s)
          × (is_supported hello.selected_version s.supported_versions ≡ false))
        ⊎ (((accept_hello sodium own hello s).1
              ≡ record s { selected_version = some hello.selected_version })
            × (is_supported hello.selected_version s.supported_versions ≡ true)
            × ((verify sodium hello.signature hello.ephemeral_pk s.server_sign_key.public_key
                  ≡ false)
                ⊎ (r ≡ err e)))
  unfolding accept_hello
  accept_hello-refused own hello s e (err x) same refused = ground arith
  accept_hello-refused own hello s e (ok keys) same refused = ground arith

  client_finalize-accept_hello :
      (own : KeyPair) (hello : ServerHello) (s : Session)
      → s.role ≡ client
      → s.ephemeral_kx_kp ≡ some own
      → client_finalize_handshake sodium hello s ≡ accept_hello sodium own hello s
  unfolding client_finalize_handshake accept_hello
  client_finalize-accept_hello own hello s plays held = ground arith

  client_finalize-early :
      (hello : ServerHello) (s : Session)
      → (s.role ≡ server) ⊎ (s.ephemeral_kx_kp ≡ none)
      → (client_finalize_handshake sodium hello s).1 ≡ s
  unfolding client_finalize_handshake
  client_finalize-early hello s why = ground arith

  -- Why a client refuses a ServerHello: either it is not a client that has sent its hello, or does
  -- not have the version, and nothing has changed; or the signature does not verify under the key
  -- that it was given, or no keys can be computed, and the version is left selected and nothing
  -- else has changed.
  pub client_finalize-refused :
      (hello : ServerHello) (s : Session) (e : Exception)
      → (client_finalize_handshake sodium hello s).0 ≡ err e
      → (((client_finalize_handshake sodium hello s).1 ≡ s)
          × ((s.role ≡ server)
              ⊎ (s.ephemeral_kx_kp ≡ none)
              ⊎ (is_supported hello.selected_version s.supported_versions ≡ false)))
        ⊎ (((client_finalize_handshake sodium hello s).1
              ≡ record s { selected_version = some hello.selected_version })
            × (is_supported hello.selected_version s.supported_versions ≡ true)
            × ((verify sodium hello.signature hello.ephemeral_pk s.server_sign_key.public_key
                  ≡ false)
                ⊎ ((own : KeyPair) × (s.ephemeral_kx_kp ≡ some own)
                    × (client_compute_session_keys sodium own hello.ephemeral_pk ≡ err e))))
  client_finalize-refused hello s e refused = elim (Role-cases s.role) [
    | inr serves ↦ inl (client_finalize-early hello s (inl serves), inl serves)
    | inl plays ↦ elim (Option-cases s.ephemeral_kx_kp) [
      | inl missing ↦ inl (client_finalize-early hello s (inr missing), inr (inl missing))
      | inr (own, held) ↦
          let accepts = client_finalize-accept_hello own hello s plays held in
          let k = accept_hello-refused own hello s e _ refl (rw accepts at refused) in
          rw accepts (elim k [
            | inl (same, unknown) ↦ inl (same, inr (inr unknown))
            | inr (left, known, inl forged) ↦ inr (left, known, inl forged)
            | inr (left, known, inr weak) ↦ inr (left, known, inr (own, held, weak))
          ])
    ]
  ]
