-- ===== src/Session/Reach.antt =====
-- The sessions that calls of the public methods lead to, in any order and with any arguments.
use obscura_proto.Common.{ℕ, ◌≡◌, ◌≢◌, refl, inl, List, arith}
use obscura_proto.Errors.{err, null_pointer}
use obscura_proto.Endian.{Host}
use obscura_proto.Packet.{Payload, deserialize}
use obscura_proto.Handshake.{KeyPair, ClientHello, ServerHello}
use obscura_proto.Crypto.Libsodium.{Sodium}
use obscura_proto.Crypto.{encrypt, decrypt}
use obscura_proto.Session.{
  Role, Session, new, set_client_identity_key, client_initiate_handshake,
  server_respond_to_handshake, client_finalize_handshake, encrypt_payload, decrypt_packet,
}
use obscura_proto.Session.Invariant.{
  IsConsistent, client_initiate-IsConsistent, server_respond-IsConsistent,
  client_finalize-IsConsistent, encrypt_payload-IsConsistent, decrypt_packet-IsConsistent,
}

-- One call of a method, whether it returns or throws.
pub data Step (sodium : Sodium) (s s' : Session) : Type 0 where
  sets_identity : (kp : KeyPair) → s' ≡ (set_client_identity_key kp s).1 → Step sodium s s'
  initiates :
      (fresh : KeyPair) → s' ≡ (client_initiate_handshake sodium fresh s).1 → Step sodium s s'
  responds :
      (fresh : KeyPair) (hello : ClientHello)
      → s' ≡ (server_respond_to_handshake sodium fresh hello s).1
      → Step sodium s s'
  finalizes :
      (hello : ServerHello) → s' ≡ (client_finalize_handshake sodium hello s).1 → Step sodium s s'
  encrypts :
      (h : Host) (nonce : List ℕ) (payload : Payload)
      → s' ≡ (encrypt_payload sodium h nonce payload s).1
      → Step sodium s s'
  decrypts :
      (h : Host) (packet : List ℕ) → s' ≡ (decrypt_packet sodium h packet s).1 → Step sodium s s'

pub data Reach (sodium : Sodium) (s : Session) : Session → Type 0 where
  here : Reach sodium s s
  next : {t u : Session} → Reach sodium s t → Step sodium t u → Reach sodium s u

module _ (sodium : Sodium) where
  set_client_identity-IsConsistent :
      (kp : KeyPair) (s : Session) → IsConsistent s → IsConsistent (set_client_identity_key kp s).1
  unfolding set_client_identity_key
  set_client_identity-IsConsistent kp s v = ground arith

  Step-IsConsistent : {s s' : Session} → Step sodium s s' → IsConsistent s → IsConsistent s'
  Step-IsConsistent {s} (sets_identity kp e) v = rw e (set_client_identity-IsConsistent kp s v)
  Step-IsConsistent {s} (initiates fresh e) v = rw e (client_initiate-IsConsistent sodium fresh s v)
  Step-IsConsistent {s} (responds fresh hello e) v =
      rw e (server_respond-IsConsistent sodium fresh hello s v)
  Step-IsConsistent {s} (finalizes hello e) v = rw e (client_finalize-IsConsistent sodium hello s v)
  Step-IsConsistent {s} (encrypts h nonce payload e) v =
      rw e (encrypt_payload-IsConsistent sodium h nonce payload s v)
  Step-IsConsistent {s} (decrypts h packet e) v =
      rw e (decrypt_packet-IsConsistent sodium h packet s v)

  Reach-keeps : {s t : Session} → IsConsistent s → Reach sodium s t → IsConsistent t
  Reach-keeps v here = v
  Reach-keeps v (next r st) = Step-IsConsistent st (Reach-keeps v r)

  new-IsConsistent :
      (role : Role) (kp : KeyPair) (versions : List ℕ) → IsConsistent (new role kp versions)
  unfolding new
  new-IsConsistent role kp versions = record { ready = inl refl; sent = omega arith }

  -- After any calls of the methods of a new session, if its handshake is complete it has its keys
  -- and a version of its own list, and its send counter is a 64-bit number.
  pub Reach-IsConsistent :
      (role : Role) (kp : KeyPair) (versions : List ℕ) (s : Session)
      → Reach sodium (new role kp versions) s
      → IsConsistent s
  Reach-IsConsistent role kp versions s r = Reach-keeps (new-IsConsistent role kp versions) r

  encrypt-ne-null :
      (h : Host) (nonce : List ℕ) (payload : Payload) (n : ℕ) (key : List ℕ)
      → encrypt sodium h nonce payload n key ≢ err null_pointer
  unfolding encrypt
  encrypt-ne-null h nonce payload n key e = ground arith

  decrypt-ne-null :
      (h : Host) (packet key : List ℕ) → decrypt sodium h packet key ≢ err null_pointer
  unfolding decrypt deserialize
  decrypt-ne-null h packet key e = ground arith

  encrypt_payload-ne-null :
      (h : Host) (nonce : List ℕ) (payload : Payload) (s : Session)
      → IsConsistent s
      → (encrypt_payload sodium h nonce payload s).0 ≢ err null_pointer
  unfolding encrypt_payload
  encrypt_payload-ne-null h nonce payload s v = grind (arith, encrypt-ne-null)

  decrypt_packet-ne-null :
      (h : Host) (packet : List ℕ) (s : Session)
      → IsConsistent s
      → (decrypt_packet sodium h packet s).0 ≢ err null_pointer
  unfolding decrypt_packet
  decrypt_packet-ne-null h packet s v = grind (arith, decrypt-ne-null)

  -- After any calls of the methods of a new session, neither encrypt_payload nor decrypt_packet
  -- dereferences a null pointer.
  pub Reach-ne-null :
      (role : Role) (kp : KeyPair) (versions : List ℕ) (s : Session)
      → Reach sodium (new role kp versions) s
      → (h : Host) (nonce packet : List ℕ) (payload : Payload)
      → ((encrypt_payload sodium h nonce payload s).0 ≢ err null_pointer)
        × ((decrypt_packet sodium h packet s).0 ≢ err null_pointer)
  Reach-ne-null role kp versions s r h nonce packet payload =
      let v = Reach-IsConsistent role kp versions s r in
      (encrypt_payload-ne-null h nonce payload s v, decrypt_packet-ne-null h packet s v)
