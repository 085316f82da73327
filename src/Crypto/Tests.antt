-- ===== src/Crypto/Tests.antt =====
-- The theorems of Crypto, applied to the libsodium of Toy.
use obscura_proto.Common.{ℕ, ◌≡◌, refl, List, [], ◌∷◌, ◌++◌, arith, take, All}
use obscura_proto.Common.Words.{IsByte}
use obscura_proto.Errors.{ok, err, invalid_argument}
use obscura_proto.Endian.{
  little, big, image, load, htons, ntohs, htonl, ntohl, htonll_local, ntohll_local,
}
use obscura_proto.Packet.{Payload, serialize, deserialize}
use obscura_proto.Crypto.Toy.{pad, toy, toy_laws}
use obscura_proto.Crypto.{
  SessionKeys, are_kx_sizes, sign, client_compute_session_keys, encrypt, decrypt,
}
use obscura_proto.Crypto.Envelope.{decrypt-encrypt, encrypt-decrypt}
use obscura_proto.Crypto.Agreement.{kx_pair}

abbrev pub ping : Payload
ping = record { op_code = 0x1001; parameters = 7 ∷ 8 ∷ [] }

abbrev pub key : List ℕ
key = pad 32 (1 ∷ 2 ∷ 3 ∷ [])

abbrev pub nonce : List ℕ
nonce = pad 12 (4 ∷ [])

abbrev counter_bytes : ℕ → List ℕ
counter_bytes n = 0 ∷ 0 ∷ 0 ∷ 0 ∷ 0 ∷ 0 ∷ 0 ∷ n ∷ []

-- The packet of `ping` with a counter below 256.
abbrev pub packet : ℕ → List ℕ
packet n = nonce ++ (counter_bytes n ++ (pad 16 (key ++ counter_bytes n) ++ (16 ∷ 1 ∷ 7 ∷ 8 ∷ [])))

abbrev keys : SessionKeys
keys = record { rx = pad 32 (9 ∷ []); tx = pad 32 (8 ∷ []) }

encrypt_test : encrypt toy little nonce ping 5 key ≡ ok (packet 5)
unfolding encrypt serialize image htons htonll_local htonl
encrypt_test = refl

pub decrypt_test : decrypt toy big (packet 5) key ≡ ok (record { payload = ping; counter = 5 })
unfolding decrypt deserialize load ntohs ntohll_local ntohl
decrypt_test = refl

pub decrypt_next_test : decrypt toy big (packet 6) key ≡ ok (record { payload = ping; counter = 6 })
unfolding decrypt deserialize load ntohs ntohll_local ntohl
decrypt_next_test = refl

decrypt_refused_test :
    decrypt toy big (packet 5) (1 ∷ []) ≡ err (invalid_argument "Invalid key size for decryption.")
unfolding decrypt
decrypt_refused_test = refl

sign_test : sign toy (5 ∷ []) (pad 64 (9 ∷ [])) ≡ ok (pad 64 (5 ∷ []))
unfolding sign
sign_test = refl

keys_test :
    client_compute_session_keys toy
      (kx_pair toy (pad 32 (8 ∷ [])))
      (toy.kx_public (pad 32 (9 ∷ [])))
    ≡ ok keys
unfolding client_compute_session_keys are_kx_sizes
keys_test = refl

decrypt-encrypt_example :
    decrypt toy big (packet 5) key ≡ ok (record { payload = ping; counter = 5 })
decrypt-encrypt_example =
    decrypt-encrypt toy toy_laws little big nonce ping 5 key (packet 5) refl (omega arith)
      (omega arith) refl encrypt_test

packet-IsByte : All IsByte (packet 5)
packet-IsByte = ground arith

encrypt-decrypt_example : encrypt toy little (take 12 (packet 5)) ping 5 key ≡ ok (packet 5)
encrypt-decrypt_example =
    encrypt-decrypt toy toy_laws little big (packet 5) key (record { payload = ping; counter = 5 })
      packet-IsByte decrypt_test
