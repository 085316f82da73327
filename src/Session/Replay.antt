-- ===== src/Session/Replay.antt =====
-- Replay protection: along the life of a session the counters of accepted packets grow strictly.
use obscura_proto.Common.{
  ℕ, ◌≤◌, ◌<◌, ◌≡◌, refl, inl, inr, List, arith, Bool-cases, Option-cases, ltb, not, ◌==◌, length,
  take, drop,
}
use obscura_proto.Errors.{Result, Exception, ok, err, Result-cases, check, or_throw, >>=-eq-ok}
use obscura_proto.Endian.{Host, load, ntohll_local}
use obscura_proto.Packet.{Payload, deserialize}
use obscura_proto.Handshake.{KeyPair, ClientHello, ServerHello}
use obscura_proto.Crypto.Libsodium.{Sodium}
use obscura_proto.Crypto.{DecryptedResult, decrypt}
use obscura_proto.Session.{
  Session, set_client_identity_key, client_initiate_handshake, answer_hello, accept_identity,
  server_respond_to_handshake, client_finalize_handshake, encrypt_payload, accept_counter,
  decrypt_packet,
}
use obscura_proto.Session.Reach.{
  Step, sets_identity, initiates, responds, finalizes, encrypts, decrypts, Reach, here, next,
}

-- The counter in a packet's header.
abbrev pub counter_of : Host → List ℕ → ℕ
counter_of h packet = ntohll_local h (load h (take 8 (drop 12 packet)))

module _ (sodium : Sodium) where
  decrypt-counter :
      (h : Host) (packet key : List ℕ) (res : DecryptedResult)
      → decrypt sodium h packet key ≡ ok res
      → res.counter ≡ counter_of h packet
  unfolding decrypt
  decrypt-counter h packet key res e =
      let (u₁, p₁, k₁) = >>=-eq-ok (check (length key == 32) _) _ e in
      let (u₂, p₂, k₂) = >>=-eq-ok (check (not (ltb (length packet) 36)) _) _ k₁ in
      let (text, p₃, k₃) =
        >>=-eq-ok
          (or_throw
            (sodium.aead_decrypt (drop 20 packet) (take 8 (drop 12 packet)) (take 12 packet) key) _)
          _ k₂ in
      let (payload, p₄, k₄) = >>=-eq-ok (deserialize h text) _ k₃ in cc k₄

  accept_counter-ok :
      (r : Result DecryptedResult) (s : Session) (n : ℕ) (p : Payload)
      → ((res : DecryptedResult) → r ≡ ok res → res.counter ≡ n)
      → (accept_counter r s).0 ≡ ok p
      → (s.recv_counter < n) × ((accept_counter r s).1.recv_counter ≡ n)
  unfolding accept_counter
  accept_counter-ok (err x) s n p c e = cc
  accept_counter-ok (ok res) s n p c e = ground (arith, c res refl)

  -- An accepted packet has a counter above the session's, which becomes that counter.
  decrypt_packet-ok :
      (h : Host) (packet : List ℕ) (s : Session) (p : Payload)
      → (decrypt_packet sodium h packet s).0 ≡ ok p
      → (s.recv_counter < counter_of h packet)
        × ((decrypt_packet sodium h packet s).1.recv_counter ≡ counter_of h packet)
  unfolding decrypt_packet
  decrypt_packet-ok h packet s p e = elim (Bool-cases s.handshake_complete) [
    | inr off ↦ cc (rw off at e)
    | inl on ↦ elim (Option-cases s.session_keys) [
      | inl missing ↦ cc (rw (on, missing, decrypt_packet) at e)
      | inr (keys, held) ↦
          rw (on, held, decrypt_packet)
            (accept_counter-ok (decrypt sodium h packet keys.rx) s (counter_of h packet) p
              (decrypt-counter h packet keys.rx) (rw (on, held, decrypt_packet) at e))
    ]
  ]

  initiate_keeps :
      (fresh : KeyPair) (s : Session)
      → (client_initiate_handshake sodium fresh s).1.recv_counter ≡ s.recv_counter
  unfolding client_initiate_handshake
  initiate_keeps fresh s = ground arith

  answer_keeps :
      (version : ℕ) (fresh : KeyPair) (hello : ClientHello) (s : Session)
      → (answer_hello sodium version fresh hello s).1.recv_counter ≡ s.recv_counter
  unfolding answer_hello
  answer_keeps version fresh hello s = ground arith

  respond_keeps :
      (fresh : KeyPair) (hello : ClientHello) (s : Session)
      → (server_respond_to_handshake sodium fresh hello s).1.recv_counter ≡ s.recv_counter
  unfolding server_respond_to_handshake accept_identity
  respond_keeps fresh hello s = grind (arith, answer_keeps)

  finalize_keeps :
      (hello : ServerHello) (s : Session)
      → (client_finalize_handshake sodium hello s).1.recv_counter ≡ s.recv_counter
  unfolding client_finalize_handshake
  finalize_keeps hello s = ground arith

  encrypt_keeps :
      (h : Host) (nonce : List ℕ) (payload : Payload) (s : Session)
      → (encrypt_payload sodium h nonce payload s).1.recv_counter ≡ s.recv_counter
  unfolding encrypt_payload
  encrypt_keeps h nonce payload s = ground arith

  decrypt_grows :
      (h : Host) (packet : List ℕ) (s : Session)
      → s.recv_counter ≤ (decrypt_packet sodium h packet s).1.recv_counter
  unfolding decrypt_packet
  decrypt_grows h packet s = ground arith

  set_identity_keeps :
      (kp : KeyPair) (s : Session) → (set_client_identity_key kp s).1.recv_counter ≡ s.recv_counter
  unfolding set_client_identity_key
  set_identity_keeps kp s = ground arith

  Step-grows : {s s' : Session} → Step sodium s s' → s.recv_counter ≤ s'.recv_counter
  Step-grows {s} (sets_identity kp e) = rw e (omega (arith, set_identity_keeps kp s))
  Step-grows {s} (initiates fresh e) = rw e (omega (arith, initiate_keeps fresh s))
  Step-grows {s} (responds fresh hello e) = rw e (omega (arith, respond_keeps fresh hello s))
  Step-grows {s} (finalizes hello e) = rw e (omega (arith, finalize_keeps hello s))
  Step-grows {s} (encrypts h nonce payload e) =
      rw e (omega (arith, encrypt_keeps h nonce payload s))
  Step-grows {s} (decrypts h packet e) = rw e (decrypt_grows h packet s)

  Reach-grows : {s t : Session} → Reach sodium s t → s.recv_counter ≤ t.recv_counter
  Reach-grows here = omega arith
  Reach-grows (next r st) = omega (arith, Reach-grows r, Step-grows st)

  -- If a session accepts a packet, and after any further calls accepts another, the second has
  -- the higher counter, also when a new handshake has replaced the keys in between.
  pub decrypt_packet_grows :
      (h : Host) (first second : List ℕ) (s t : Session) (p q : Payload)
      → (decrypt_packet sodium h first s).0 ≡ ok p
      → Reach sodium (decrypt_packet sodium h first s).1 t
      → (decrypt_packet sodium h second t).0 ≡ ok q
      → counter_of h first < counter_of h second
  decrypt_packet_grows h first second s t p q e r e' =
      omega
        (arith, decrypt_packet-ok h first s p e, decrypt_packet-ok h second t q e', Reach-grows r)

  -- A call that throws leaves the session as it was.
  pub decrypt_packet_err :
      (h : Host) (packet : List ℕ) (s : Session) (e : Exception)
      → (decrypt_packet sodium h packet s).0 ≡ err e
      → (decrypt_packet sodium h packet s).1 ≡ s
  unfolding decrypt_packet
  decrypt_packet_err h packet s e k = ground arith

  -- A packet that a session has accepted is refused from then on, after any further calls, and
  -- the session does not change by it.
  pub decrypt_packet_replayed :
      (h : Host) (packet : List ℕ) (s t : Session) (p : Payload)
      → (decrypt_packet sodium h packet s).0 ≡ ok p
      → Reach sodium (decrypt_packet sodium h packet s).1 t
      → (e : Exception) × (decrypt_packet sodium h packet t ≡ (err e, t))
  decrypt_packet_replayed h packet s t p e r =
      elim (Result-cases (decrypt_packet sodium h packet t).0) [
        | inl (q, again) ↦
            absurd (omega (arith, decrypt_packet_grows h packet packet s t p q e r again))
        | inr (x, refused) ↦ (x, cc (refused, decrypt_packet_err h packet t x refused))
      ]
