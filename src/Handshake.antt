-- ===== src/Handshake.antt =====
-- The handshake messages of include/obscuraproto/handshake_messages.hpp, the keys in them
-- (include/obscuraproto/keys.hpp), and serialize and deserialize of src/handshake_messages.cpp.
-- Where the code keeps an offset into the data, a read returns the bytes behind it:
-- `data.size() < offset + n` is `length rest < n`.
pub mod RoundTrip
pub mod Bounds
pub mod Truncation
mod Tests
use obscura_proto.Common.{
  ℕ, zero, suc, ◌*◌, ◌%◌, ◌^◌, String, List, [], ◌∷◌, ◌++◌, Bool, true, false, not, ltb, ◌==◌,
  if◌then◌else◌, length, take, drop,
}
use obscura_proto.Errors.{Result, ok, err, runtime_error, ◌>>=◌}
use obscura_proto.Endian.{Host, image, load, htons, ntohs}

-- A PublicKey, a PrivateKey and a Signature hold bytes.
abbrev pub PublicKey : Type 0
PublicKey = List ℕ

abbrev pub PrivateKey : Type 0
PrivateKey = List ℕ

abbrev pub Signature : Type 0
Signature = List ℕ

pub record KeyPair : Type 0 where
  pub public_key : PublicKey
  pub private_key : PrivateKey

-- crypto_kx_PUBLICKEYBYTES and crypto_sign_PUBLICKEYBYTES, and crypto_sign_BYTES, of libsodium.
abbrev pub public_key_bytes : ℕ
public_key_bytes = 32

abbrev pub sign_bytes : ℕ
sign_bytes = 64

pub record ClientHello : Type 0 where
  pub supported_versions : List ℕ
  pub ephemeral_pk : PublicKey
  pub has_client_identity : Bool
  pub identity_pk : PublicKey
  pub identity_sig : Signature

pub record ServerHello : Type 0 where
  pub selected_version : ℕ
  pub ephemeral_pk : PublicKey
  pub signature : Signature

unfoldable pub put_u16 : Host → ℕ → List ℕ
put_u16 h v = image h 2 (htons h v)

unfoldable pub put_versions : Host → List ℕ → List ℕ
put_versions h [] = []
put_versions h (v ∷ vs) = put_u16 h v ++ put_versions h vs

-- The number of versions is cut to 16 bits.
unfoldable pub serialize_client : Host → ClientHello → List ℕ
serialize_client h m =
    put_u16 h (length m.supported_versions % 2 ^ 16)
    ++ (put_versions h m.supported_versions
        ++ (m.ephemeral_pk
            ++ ((if m.has_client_identity then 1 else 0)
                ∷ (if m.has_client_identity then m.identity_pk ++ m.identity_sig else []))))

unfoldable pub serialize_server : Host → ServerHello → List ℕ
serialize_server h m = put_u16 h m.selected_version ++ (m.ephemeral_pk ++ m.signature)

-- `if (data.size() < offset + n) throw RuntimeError(e);`, the copy of n bytes, `offset += n;`.
unfoldable pub read_bytes : ℕ → String → List ℕ → Result (List ℕ × List ℕ)
read_bytes n e bytes =
    if ltb (length bytes) n then err (runtime_error e) else ok (take n bytes, drop n bytes)

unfoldable pub read_u16 : Host → String → List ℕ → Result (ℕ × List ℕ)
read_u16 h e bytes = do (raw, rest) ← read_bytes 2 e bytes; ok (ntohs h (load h raw), rest)

-- `if (data.size() <= offset) throw RuntimeError(e);`
unfoldable pub read_byte : String → List ℕ → Result (ℕ × List ℕ)
read_byte e [] = err (runtime_error e)
read_byte e (b ∷ rest) = ok (b, rest)

-- The loop over the versions, whose room is checked before it.
unfoldable pub take_versions : Host → ℕ → List ℕ → List ℕ × List ℕ
take_versions h zero bytes = ([], bytes)
take_versions h (suc n) bytes =
    let (vs, rest) = take_versions h n (drop 2 bytes) in
    (ntohs h (load h (take 2 bytes)) ∷ vs, rest)

unfoldable pub read_versions : Host → ℕ → List ℕ → Result (List ℕ × List ℕ)
read_versions h n bytes =
    if ltb (length bytes) (n * 2)
    then err (runtime_error "Invalid ClientHello data: too short for versions.")
    else ok (take_versions h n bytes)

-- The identity fields, if the flag announces them. Bytes behind the message are not looked at.
unfoldable pub read_identity : List ℕ → PublicKey → Bool → List ℕ → Result ClientHello
read_identity versions ephemeral_pk false bytes = ok (record {
  supported_versions = versions;
  ephemeral_pk = ephemeral_pk;
  has_client_identity = false;
  identity_pk = [];
  identity_sig = [];
})
read_identity versions ephemeral_pk true bytes = do
  (pk, rest) ←
      read_bytes public_key_bytes "Invalid ClientHello data: too short for identity public key."
        bytes
  (sig, _) ←
      read_bytes sign_bytes "Invalid ClientHello data: too short for identity signature." rest
  ok (record {
    supported_versions = versions;
    ephemeral_pk = ephemeral_pk;
    has_client_identity = true;
    identity_pk = pk;
    identity_sig = sig;
  })

unfoldable pub deserialize_client : Host → List ℕ → Result ClientHello
deserialize_client h bytes = do
  (count, rest₁) ← read_u16 h "Invalid ClientHello data: too short for version count." bytes
  (versions, rest₂) ← read_versions h count rest₁
  (pk, rest₃) ←
      read_bytes public_key_bytes "Invalid ClientHello data: too short for public key." rest₂
  (flag, rest₄) ← read_byte "Invalid ClientHello data: too short for identity flag." rest₃
  read_identity versions pk (not (flag == 0)) rest₄

unfoldable pub deserialize_server : Host → List ℕ → Result ServerHello
deserialize_server h bytes = do
  (version, rest₁) ← read_u16 h "Invalid ServerHello data: too short for version." bytes
  (pk, rest₂) ←
      read_bytes public_key_bytes "Invalid ServerHello data: too short for public key." rest₁
  (sig, _) ← read_bytes sign_bytes "Invalid ServerHello data: too short for signature." rest₂
  ok (record { selected_version = version; ephemeral_pk = pk; signature = sig })
