-- ===== src/Crypto/Toy.antt =====
-- A libsodium without secrets, which meets SodiumLaws: the theorems are applied to it.
use obscura_proto.Common.{
  ℕ, zero, suc, ◌≡◌, refl, sym, ap, List, [], ◌∷◌, ◌++◌, Option, none, some, if◌then◌else◌, length,
  length-append, is_same, is_same_refl, is_same→eq, arith, All, All-drop, Bool-cases, inl, inr,
  take, drop, take-append, drop-append, take-append-drop,
}
use obscura_proto.Common.Words.{IsByte}
use obscura_proto.Crypto.Libsodium.{Sodium, SodiumLaws}

-- The first n entries, with zeros behind them where there are fewer.
abbrev pub pad : ℕ → List ℕ → List ℕ
pad zero xs = []
pad (suc n) [] = 0 ∷ pad n []
pad (suc n) (x ∷ xs) = x ∷ pad n xs

abbrev open_tagged : List ℕ → List ℕ → Option (List ℕ)
open_tagged tag c = if is_same (take 16 c) tag then some (drop 16 c) else none

abbrev pub toy : Sodium
toy = record {
  seed_keypair = λ seed. some (record { public_key = pad 32 seed; private_key = pad 64 seed });
  sk_to_pk = λ sk. pad 32 sk;
  sign_detached = λ m sk. pad 64 m;
  verify_detached = λ sig m pk. is_same sig (pad 64 m);
  kx_public = λ sk. pad 32 sk;
  kx_client_session_keys = λ pk sk peer. some (pad 32 peer, pad 32 pk);
  kx_server_session_keys = λ pk sk peer. some (pad 32 peer, pad 32 pk);
  aead_encrypt = λ text ad nonce key. pad 16 (key ++ ad) ++ text;
  aead_decrypt = λ c ad nonce key. open_tagged (pad 16 (key ++ ad)) c;
}

length-pad : (n : ℕ) (xs : List ℕ) → length (pad n xs) ≡ n
length-pad zero xs = refl
length-pad (suc n) [] = ap suc (length-pad n [])
length-pad (suc n) (x ∷ xs) = ap suc (length-pad n xs)

pub pad-IsByte : (n : ℕ) (xs : List ℕ) → All IsByte xs → All IsByte (pad n xs)
pad-IsByte zero xs h = tt
pad-IsByte (suc n) [] h = (omega arith, pad-IsByte n [] h)
pad-IsByte (suc n) (x ∷ xs) h = (h.0, pad-IsByte n xs h.1)

opened_tag :
    (tag c text : List ℕ) → open_tagged tag c ≡ some text → (c ≡ tag ++ text) × (drop 16 c ≡ text)
opened_tag tag c text e = elim (Bool-cases (is_same (take 16 c) tag)) [
  | inr other ↦ cc (rw other at e)
  | inl same ↦
      let rest : drop 16 c ≡ text = cc (rw same at e) in
      (rw (← is_same→eq (take 16 c) tag same, ← rest) (sym (take-append-drop 16 c)), rest)
]

sealed_tag : (tag text : List ℕ) → length tag ≡ 16 → open_tagged tag (tag ++ text) ≡ some text
sealed_tag tag text e = rw (take-append 16 tag text e, drop-append 16 tag text e, is_same_refl tag)

crossed :
    (x y rx tx : List ℕ)
    → ◌≡◌ {A = Option (List ℕ × List ℕ)} (some (x, y)) (some (rx, tx))
    → ◌≡◌ {A = Option (List ℕ × List ℕ)} (some (y, x)) (some (tx, rx))
crossed x y rx tx e = cc

padded_sizes :
    (a b rx tx : List ℕ)
    → ◌≡◌ {A = Option (List ℕ × List ℕ)} (some (pad 32 a, pad 32 b)) (some (rx, tx))
    → (length rx ≡ 32) × (length tx ≡ 32)
padded_sizes a b rx tx e =
    let first : pad 32 a ≡ rx = cc in
    let second : pad 32 b ≡ tx = cc in
    (rw (← first) (length-pad 32 a), rw (← second) (length-pad 32 b))

opened_bytes :
    (tag c text : List ℕ) → All IsByte c → open_tagged tag c ≡ some text → All IsByte text
opened_bytes tag c text bs e = rw (← (opened_tag tag c text e).1) (All-drop IsByte 16 c bs)

pub toy_laws : SodiumLaws toy
toy_laws = record {
  sign_size = λ m sk. length-pad 64 m;
  sk_to_pk_size = λ sk. length-pad 32 sk;
  kx_public_size = λ sk. length-pad 32 sk;
  verify_signed = λ m sk. is_same_refl (pad 64 m);
  kx_agree = λ a b rx tx e. crossed (pad 32 (pad 32 b)) (pad 32 (pad 32 a)) rx tx e;
  kx_client_size = λ pk sk peer rx tx e. padded_sizes peer pk rx tx e;
  aead_size = λ text ad nonce key.
      omega (arith, length-append {0} (pad 16 (key ++ ad)) text, length-pad 16 (key ++ ad));
  aead_decrypt_encrypt =
      λ text ad nonce key. sealed_tag (pad 16 (key ++ ad)) text (length-pad 16 (key ++ ad));
  aead_genuine = λ c ad nonce key text e. (opened_tag (pad 16 (key ++ ad)) c text e).0;
  aead_bytes = λ c ad nonce key text bs e. opened_bytes (pad 16 (key ++ ad)) c text bs e;
}
