-- ===== src/Crypto/Envelope.antt =====
-- The encryption envelope: what encrypt makes, decrypt opens, and decrypt opens nothing else.
use obscura_proto.Common.{
  ℕ, ◌≤◌, ◌≡◌, sym, ap, ◌∙◌, List, ◌++◌, not, ltb, ◌==◌, ==_iff, not-eq-true, arith, le→ltb, ltb→le,
  length, length-append, take, drop, take-append, drop-append, take-append-drop, length-take,
  length-drop, drop-drop, All, All-take, All-drop,
}
use obscura_proto.Common.Words.{IsByte, IsU16, IsU64}
use obscura_proto.Errors.{
  Result, ok, runtime_error, or_throw, or_throw-eq-ok, ◌>>=◌, check, check-eq-ok, >>=-eq-ok,
}
use obscura_proto.Endian.{Host, load, ntohll_local}
use obscura_proto.Endian.Laws.{
  be_bytes, load_be, image-htonll_local, ntohll_local-load, load_be-u64, load_be-lt,
  length-be_bytes, be_bytes-IsByte, be_bytes-load_be,
}
use obscura_proto.Packet.{Payload, deserialize}
use obscura_proto.Packet.RoundTrip.{serialize-bytes, deserialize-serialize, serialize-deserialize}
use obscura_proto.Crypto.Libsodium.{Sodium, SodiumLaws}
use obscura_proto.Crypto.{DecryptedResult, encrypt, decrypt}

read_text :
    (h : Host) (payload : Payload)
    → IsU16 payload.op_code
    → deserialize h (be_bytes 2 payload.op_code ++ payload.parameters) ≡ ok payload
read_text h payload op = rw (serialize-bytes h payload) at (deserialize-serialize h h payload op)

module _ (sodium : Sodium) where
  -- The packet, in bytes that do not depend on the machine.
  abbrev pub envelope : List ℕ → Payload → ℕ → List ℕ → List ℕ
  envelope nonce payload counter key =
      nonce
      ++ (be_bytes 8 counter
          ++ sodium.aead_encrypt (be_bytes 2 payload.op_code ++ payload.parameters)
              (be_bytes 8 counter) nonce key)

  pub encrypt-envelope :
      (h : Host) (nonce : List ℕ) (payload : Payload) (counter : ℕ) (key : List ℕ)
      → IsU64 counter
      → length key ≡ 32
      → encrypt sodium h nonce payload counter key ≡ ok (envelope nonce payload counter key)
  unfolding encrypt
  encrypt-envelope h nonce payload counter key b size =
      rw (size, image-htonll_local h counter b, serialize-bytes h payload)

  -- What is done with the three parts of a packet.
  opened : Host → List ℕ → List ℕ → List ℕ → List ℕ → Result DecryptedResult
  opened h nonce counter sealed key = do
    plaintext ←
        or_throw (sodium.aead_decrypt sealed counter nonce key)
          (runtime_error "Failed to decrypt message. Authentication tag may be invalid.")
    payload ← deserialize h plaintext
    ok (record { payload = payload; counter = ntohll_local h (load h counter) })

  decrypt-opened :
      (h : Host) (nonce counter sealed key : List ℕ)
      → length nonce ≡ 12
      → length counter ≡ 8
      → 16 ≤ length sealed
      → length key ≡ 32
      → decrypt sodium h (nonce ++ (counter ++ sealed)) key ≡ opened h nonce counter sealed key
  unfolding decrypt opened
  decrypt-opened h nonce counter sealed key n12 c8 room k32 =
      let tail : drop 12 (nonce ++ (counter ++ sealed)) ≡ counter ++ sealed =
        drop-append 12 nonce (counter ++ sealed) n12 in
      let back : drop 20 (nonce ++ (counter ++ sealed)) ≡ sealed =
        sym (drop-drop 12 8 (nonce ++ (counter ++ sealed)))
        ∙ ap (drop 8) tail
        ∙ drop-append 8 counter sealed c8 in
      rw (
        k32,
        le→ltb (length (nonce ++ (counter ++ sealed))) 36 (
            omega (
              arith,
              length-append {0} nonce (counter ++ sealed),
              length-append {0} counter sealed,
            )),
        take-append 12 nonce (counter ++ sealed) n12,
        tail,
        back,
        take-append 8 counter sealed c8,
      )

module _ (sodium : Sodium) (laws : SodiumLaws sodium) where
  -- A packet that encrypt makes, with a 12-byte nonce, a 16-bit operation code, a 64-bit counter
  -- and a 32-byte key, is decrypted on any other machine with the same key to its payload and
  -- counter.
  pub decrypt-encrypt :
      (w r : Host) (nonce : List ℕ) (payload : Payload) (counter : ℕ) (key packet : List ℕ)
      → length nonce ≡ 12
      → IsU16 payload.op_code
      → IsU64 counter
      → length key ≡ 32
      → encrypt sodium w nonce payload counter key ≡ ok packet
      → decrypt sodium r packet key ≡ ok (record { payload = payload; counter = counter })
  unfolding opened
  decrypt-encrypt w r nonce payload counter key packet n12 op c64 k32 e =
      let text : List ℕ = be_bytes 2 payload.op_code ++ payload.parameters in
      let same : packet ≡ envelope sodium nonce payload counter key =
        cc (e, encrypt-envelope sodium w nonce payload counter key c64 k32) in
      rw (
        same,
        decrypt-opened sodium r nonce (be_bytes 8 counter)
            (sodium.aead_encrypt text (be_bytes 8 counter) nonce key) key n12
            (length-be_bytes 8 counter)
            (omega (arith, laws.aead_size text (be_bytes 8 counter) nonce key)) k32,
        laws.aead_decrypt_encrypt text (be_bytes 8 counter) nonce key,
        read_text r payload op,
        ntohll_local-load r (be_bytes 8 counter) (be_bytes-IsByte 8 counter)
            (length-be_bytes 8 counter),
        load_be-u64 counter c64,
      )

  opened_genuine :
      (r : Host) (nonce counter sealed key : List ℕ) (res : DecryptedResult)
      → length counter ≡ 8
      → All IsByte counter
      → All IsByte sealed
      → opened sodium r nonce counter sealed key ≡ ok res
      → IsU64 res.counter
        × (be_bytes 8 res.counter ≡ counter)
        × (sealed
            ≡ sodium.aead_encrypt
                (be_bytes 2 res.payload.op_code ++ res.payload.parameters)
                counter
                nonce
                key)
  unfolding opened
  opened_genuine r nonce counter sealed key res c8 bs bs' k =
      let (text, p₁, k₁) =
        >>=-eq-ok (or_throw (sodium.aead_decrypt sealed counter nonce key) _) _ k in
      let (payload, p₂, k₂) = >>=-eq-ok (deserialize r text) _ k₁ in
      let plain = or_throw-eq-ok (sodium.aead_decrypt sealed counter nonce key) _ p₁ in
      let count : res.counter ≡ load_be counter = cc (k₂, ntohll_local-load r counter bs c8) in
      let body : payload ≡ res.payload = cc k₂ in
      let written : be_bytes 2 payload.op_code ++ payload.parameters ≡ text =
        rw (serialize-bytes r payload) at (
          serialize-deserialize r r text payload
            (laws.aead_bytes sealed counter nonce key text bs' plain) p₂) in
      (
        rw count (load_be-lt counter bs c8),
        rw count (rw c8 at (be_bytes-load_be counter bs)),
        rw (← body, written) (laws.aead_genuine sealed counter nonce key text plain),
      )

  split_packet :
      (packet : List ℕ) → take 12 packet ++ (take 8 (drop 12 packet) ++ drop 20 packet) ≡ packet
  split_packet packet =
      ap (λ l. take 12 packet ++ (take 8 (drop 12 packet) ++ l)) (sym (drop-drop 12 8 packet))
      ∙ ap (◌++◌ (take 12 packet)) (take-append-drop 8 (drop 12 packet))
      ∙ take-append-drop 12 packet

  decrypt_checks :
      (r : Host) (packet key : List ℕ) {res : DecryptedResult}
      → decrypt sodium r packet key ≡ ok res
      → (length key ≡ 32) × (36 ≤ length packet)
  unfolding decrypt
  decrypt_checks r packet key k =
      let (u₁, p₁, k₁) = >>=-eq-ok (check (length key == 32) _) _ k in
      let (u₂, p₂, k₂) = >>=-eq-ok (check (not (ltb (length packet) 36)) _) _ k₁ in
      (
        (==_iff (length key) 32).0 (check-eq-ok (length key == 32) _ p₁),
        ltb→le (length packet) 36 (not-eq-true _ (check-eq-ok (not (ltb (length packet) 36)) _ p₂)),
      )

  -- Bytes that decrypt accepts are what encrypt makes, on any machine, under the same key and the
  -- nonce at their front, of the payload and the counter that decrypt returns. So nothing else is
  -- accepted.
  pub encrypt-decrypt :
      (w r : Host) (packet key : List ℕ) (res : DecryptedResult)
      → All IsByte packet
      → decrypt sodium r packet key ≡ ok res
      → encrypt sodium w (take 12 packet) res.payload res.counter key ≡ ok packet
  encrypt-decrypt w r packet key res bs k =
      let (k32, room) = decrypt_checks r packet key k in
      let nonce = take 12 packet in
      let counter = take 8 (drop 12 packet) in
      let sealed = drop 20 packet in
      let c8 : length counter ≡ 8 =
        length-take 8 (drop 12 packet) (omega (arith, length-drop 12 packet)) in
      let parts : decrypt sodium r packet key ≡ opened sodium r nonce counter sealed key =
        rw (split_packet packet) at (
          decrypt-opened sodium r nonce counter sealed key (length-take 12 packet (omega arith)) c8
            (omega (arith, length-drop 20 packet)) k32) in
      let (c64, count, body) =
        opened_genuine r nonce counter sealed key res c8
          (All-take IsByte 8 (drop 12 packet) (All-drop IsByte 12 packet bs))
          (All-drop IsByte 20 packet bs) (sym parts ∙ k) in
      encrypt-envelope sodium w nonce res.payload res.counter key c64 k32
      ∙ ap ok (rw (count, ← body) (split_packet packet))
