-- ===== src/Session/Channel.antt =====
-- Two linked sessions as a channel: what one encrypts the other decrypts, in order, with losses.
use obscura_proto.Common.{
  ℕ, ◌+◌, ◌≤◌, ◌<◌, ◌%◌, ◌^◌, ◌≡◌, refl, ap, List, [], ◌∷◌, Bool, true, false, some, arith,
  Bool-cases, inl, inr, leb, if◌then◌else◌, length, All,
}
use obscura_proto.Common.Words.{IsU16}
use obscura_proto.Errors.{Result, ok}
use obscura_proto.Endian.{Host}
use obscura_proto.Packet.{Payload}
use obscura_proto.Crypto.Libsodium.{Sodium, SodiumLaws}
use obscura_proto.Crypto.{SessionKeys}
use obscura_proto.Crypto.Envelope.{envelope, encrypt-envelope, decrypt-encrypt}
use obscura_proto.Session.{Session, encrypt_payload, decrypt_packet}

-- One payload sent: the nonce drawn for it, and whether the packet arrives.
pub record Sent : Type 0 where
  pub nonce : List ℕ
  pub payload : Payload
  pub arrives : Bool

-- The receiver is done with its handshake, its rx key is the sender's tx key, and it has seen no
-- counter beyond the sender's.
pub record Linked (a b : Session) (key : List ℕ) : Type 0 where
  pub a_keys : SessionKeys
  pub b_keys : SessionKeys
  pub a_complete : a.handshake_complete ≡ true
  pub b_complete : b.handshake_complete ≡ true
  pub a_held : a.session_keys ≡ some a_keys
  pub b_held : b.session_keys ≡ some b_keys
  pub a_key : a_keys.tx ≡ key
  pub b_key : b_keys.rx ≡ key
  pub key_size : length key ≡ 32
  pub behind : b.recv_counter ≤ a.send_counter

abbrev pub IsSendable : Sent → Type 0
IsSendable m = (length m.nonce ≡ 12) × IsU16 m.payload.op_code

module _ (sodium : Sodium) (w r : Host) where
  abbrev after_receive :
      Result Payload × Session
      → Session
      → (Session → Session → List (Result Payload))
      → List (Result Payload)
  after_receive (got, b) a more = got ∷ more a b

  abbrev after_send :
      Bool
      → Result (List ℕ) × Session
      → Session
      → (Session → Session → List (Result Payload))
      → List (Result Payload)
  after_send true (ok packet, a) b more = after_receive (decrypt_packet sodium r packet b) a more
  after_send _ (_, a) b more = more a b

  -- The sender encrypts each payload in turn; the receiver decrypts each packet that arrives.
  unfoldable pub transfer : List Sent → Session → Session → List (Result Payload)
  transfer [] a b = []
  transfer (m ∷ ms) a b =
      after_send m.arrives (encrypt_payload sodium w m.nonce m.payload a) b (transfer ms)

-- The payloads that arrive, in the order sent.
abbrev pub arrived : List Sent → List (Result Payload)
arrived [] = []
arrived (m ∷ ms) = if m.arrives then ok m.payload ∷ arrived ms else arrived ms

module _ (sodium : Sodium) (laws : SodiumLaws sodium) (w r : Host) where
  pub sent_one :
      (a b : Session) (key : List ℕ) (m : Sent)
      → Linked a b key
      → a.send_counter + 1 < 2 ^ 64
      → encrypt_payload sodium w m.nonce m.payload a ≡ (
        ok (envelope sodium m.nonce m.payload (a.send_counter + 1) key),
        record a { send_counter = a.send_counter + 1 },
      )
  unfolding encrypt_payload
  sent_one a b key m l small =
      let next : (a.send_counter + 1) % 2 ^ 64 ≡ a.send_counter + 1 = omega arith in
      simp (
        l.a_complete,
        l.a_held,
        next,
        l.a_key,
        encrypt-envelope sodium w m.nonce m.payload (a.send_counter + 1) key small l.key_size,
      )

  pub got_one :
      (a b : Session) (key : List ℕ) (m : Sent)
      → Linked a b key
      → IsSendable m
      → a.send_counter + 1 < 2 ^ 64
      → decrypt_packet sodium r (envelope sodium m.nonce m.payload (a.send_counter + 1) key) b
        ≡ (ok m.payload, record b { recv_counter = a.send_counter + 1 })
  unfolding decrypt_packet
  got_one a b key m l fit small =
      let opened =
        decrypt-encrypt sodium laws w r m.nonce m.payload (a.send_counter + 1) key _ fit.0 fit.1
          small l.key_size
          (encrypt-envelope sodium w m.nonce m.payload (a.send_counter + 1) key small l.key_size) in
      let fresh : leb (a.send_counter + 1) b.recv_counter ≡ false =
        (let late = l.behind in ground arith) in
      simp (l.b_complete, l.b_held, l.b_key, opened, fresh)

  pub Linked-lost :
      (a b : Session) (key : List ℕ) (n : ℕ)
      → Linked a b key
      → a.send_counter ≤ n
      → Linked (record a { send_counter = n }) b key
  Linked-lost a b key n l more = record {
    a_keys = l.a_keys;
    b_keys = l.b_keys;
    a_complete = l.a_complete;
    b_complete = l.b_complete;
    a_held = l.a_held;
    b_held = l.b_held;
    a_key = l.a_key;
    b_key = l.b_key;
    key_size = l.key_size;
    behind = (let late = l.behind in omega arith);
  }

  pub Linked-got :
      (a b : Session) (key : List ℕ) (n : ℕ)
      → Linked a b key
      → Linked (record a { send_counter = n }) (record b { recv_counter = n }) key
  Linked-got a b key n l = record {
    a_keys = l.a_keys;
    b_keys = l.b_keys;
    a_complete = l.a_complete;
    b_complete = l.b_complete;
    a_held = l.a_held;
    b_held = l.b_held;
    a_key = l.a_key;
    b_key = l.b_key;
    key_size = l.key_size;
    behind = omega arith;
  }

  -- Between linked sessions, with 12-byte nonces and 16-bit operation codes, every packet that
  -- arrives is decrypted to the payload that was sent, in order and whichever packets are lost,
  -- as long as the send counter stays below 2 ^ 64.
  pub transfer-arrived :
      (ms : List Sent) (a b : Session) (key : List ℕ)
      → Linked a b key
      → All IsSendable ms
      → a.send_counter + length ms < 2 ^ 64
      → transfer sodium w r ms a b ≡ arrived ms
  unfolding transfer
  transfer-arrived [] a b key l fit small = refl
  transfer-arrived (m ∷ ms) a b key l (fit, fits) small =
      let n : ℕ = a.send_counter + 1 in
      elim (Bool-cases m.arrives) [
        | inr lost ↦
            rw (sent_one a b key m l (omega arith), lost)
              (transfer-arrived ms (record a { send_counter = n }) b key
                (Linked-lost a b key n l (omega arith)) fits (omega arith))
        | inl came ↦
            rw (sent_one a b key m l (omega arith), came, got_one a b key m l fit (omega arith))
              (ap (◌∷◌ (ok m.payload)) (
                transfer-arrived ms (record a { send_counter = n }) (record b { recv_counter = n })
                  key (Linked-got a b key n l) fits (omega arith)))
      ]
