-- ===== src/Handshake/RoundTrip.antt =====
-- A hello that one machine serializes is read back by any machine, whatever follows it.
use obscura_proto.Common.{
  ℕ, ◌*◌, ◌<◌, ◌%◌, ◌^◌, ◌≡◌, refl, List, [], ◌∷◌, ◌++◌, String, Bool, true, false, not, arith,
  ◌==◌, if◌then◌else◌, le→ltb, length, length-append, take-append, drop-append, All, append_assoc,
}
use obscura_proto.Common.Words.{IsU16}
use obscura_proto.Errors.{ok}
use obscura_proto.Endian.{Host, load, ntohs}
use obscura_proto.Endian.Laws.{
  be_bytes, image-htons, ntohs-load, load_be-u16, length-be_bytes, be_bytes-IsByte,
}
use obscura_proto.Handshake.{
  ClientHello, ServerHello, public_key_bytes, sign_bytes, put_u16, put_versions, serialize_client,
  serialize_server, read_bytes, read_u16, read_byte, take_versions, read_versions, read_identity,
  deserialize_client, deserialize_server,
}

-- A ClientHello as the client makes it: key sizes of libsodium, and no identity fields without
-- the flag.
pub record IsWellFormed (m : ClientHello) : Type 0 where
  pub count : length m.supported_versions < 2 ^ 16
  pub versions : All IsU16 m.supported_versions
  pub ephemeral : length m.ephemeral_pk ≡ public_key_bytes
  pub identity : length m.identity_pk ≡ (if m.has_client_identity then public_key_bytes else 0)
  pub signature : length m.identity_sig ≡ (if m.has_client_identity then sign_bytes else 0)

pub record IsWellFormedServer (m : ServerHello) : Type 0 where
  pub version : IsU16 m.selected_version
  pub ephemeral : length m.ephemeral_pk ≡ public_key_bytes
  pub signature : length m.signature ≡ sign_bytes

pub put_u16-be_bytes : (h : Host) (v : ℕ) → put_u16 h v ≡ be_bytes 2 v
unfolding put_u16
put_u16-be_bytes = image-htons

pub read_bytes-append :
    (n : ℕ) (e : String) (xs rest : List ℕ)
    → length xs ≡ n
    → read_bytes n e (xs ++ rest) ≡ ok (xs, rest)
unfolding read_bytes
read_bytes-append n e xs rest h = rw (
  le→ltb (length (xs ++ rest)) n (omega (arith, length-append {0} xs rest)),
  take-append n xs rest h,
  drop-append n xs rest h,
)

load-put_u16 : (w r : Host) (v : ℕ) → IsU16 v → ntohs r (load r (put_u16 w v)) ≡ v
load-put_u16 w r v b =
    rw (put_u16-be_bytes w v, ntohs-load r _ (be_bytes-IsByte 2 v) (length-be_bytes 2 v))
      (load_be-u16 v b)

length-put_u16 : (h : Host) (v : ℕ) → length (put_u16 h v) ≡ 2
length-put_u16 h v = rw (put_u16-be_bytes h v) (length-be_bytes 2 v)

pub read_u16-put_u16 :
    (w r : Host) (e : String) (v : ℕ) (rest : List ℕ)
    → IsU16 v
    → read_u16 r e (put_u16 w v ++ rest) ≡ ok (v, rest)
unfolding read_u16
read_u16-put_u16 w r e v rest b =
    rw (read_bytes-append 2 e (put_u16 w v) rest (length-put_u16 w v), load-put_u16 w r v b)

take_versions-put_versions :
    (w r : Host) (vs rest : List ℕ)
    → All IsU16 vs
    → take_versions r (length vs) (put_versions w vs ++ rest) ≡ (vs, rest)
unfolding take_versions put_versions
take_versions-put_versions w r [] rest b = refl
take_versions-put_versions w r (v ∷ vs) rest (bv, bvs) = rw (
  append_assoc (put_u16 w v) (put_versions w vs) rest,
  drop-append 2 (put_u16 w v) (put_versions w vs ++ rest) (length-put_u16 w v),
  take-append 2 (put_u16 w v) (put_versions w vs ++ rest) (length-put_u16 w v),
  take_versions-put_versions w r vs rest bvs,
  load-put_u16 w r v bv,
)

length-put_versions : (h : Host) (vs : List ℕ) → length (put_versions h vs) ≡ length vs * 2
unfolding put_versions
length-put_versions h [] = refl
length-put_versions h (v ∷ vs) = omega (
  arith,
  length-append {0} (put_u16 h v) (put_versions h vs),
  length-put_u16 h v,
  length-put_versions h vs,
)

read_versions-put_versions :
    (w r : Host) (vs rest : List ℕ)
    → All IsU16 vs
    → read_versions r (length vs) (put_versions w vs ++ rest) ≡ ok (vs, rest)
unfolding read_versions
read_versions-put_versions w r vs rest b = rw (
  le→ltb (length (put_versions w vs ++ rest)) (length vs * 2)
      (omega (arith, length-append {0} (put_versions w vs) rest, length-put_versions w vs)),
  take_versions-put_versions w r vs rest b,
)

-- A well-formed ServerHello is read back by any machine, and what stands behind it is ignored.
pub deserialize_server-serialize_server :
    (w r : Host) (m : ServerHello) (more : List ℕ)
    → IsWellFormedServer m
    → deserialize_server r (serialize_server w m ++ more) ≡ ok m
unfolding deserialize_server serialize_server
deserialize_server-serialize_server w r m more f = rw (
  append_assoc (put_u16 w m.selected_version) (m.ephemeral_pk ++ m.signature) more,
  append_assoc m.ephemeral_pk m.signature more,
  read_u16-put_u16 w r _ m.selected_version _ f.version,
  read_bytes-append _ _ m.ephemeral_pk _ f.ephemeral,
  read_bytes-append _ _ m.signature more f.signature,
)

empty_of : (xs : List ℕ) → length xs ≡ 0 → xs ≡ []
empty_of [] h = refl
empty_of (x ∷ xs) h = absurd (omega arith)

read_identity_back :
    (m : ClientHello) (more : List ℕ) (b : Bool)
    → b ≡ m.has_client_identity
    → IsWellFormed m
    → read_identity m.supported_versions m.ephemeral_pk
        (not ((if b then 1 else 0) == 0))
        ((if b then m.identity_pk ++ m.identity_sig else []) ++ more)
      ≡ ok m
unfolding read_identity
read_identity_back m more true e f = rw (
  append_assoc m.identity_pk m.identity_sig more,
  read_bytes-append 32 _ m.identity_pk (m.identity_sig ++ more) (rw (← e) at f.identity),
  read_bytes-append 64 _ m.identity_sig more (rw (← e) at f.signature),
  e,
)
read_identity_back m more false e f =
    let no_pk : m.identity_pk ≡ [] = empty_of m.identity_pk (rw (← e) at f.identity) in
    let no_sig : m.identity_sig ≡ [] = empty_of m.identity_sig (rw (← e) at f.signature) in
    ground arith

-- A well-formed ClientHello is read back by any machine, and what stands behind it is ignored.
pub deserialize_client-serialize_client :
    (w r : Host) (m : ClientHello) (more : List ℕ)
    → IsWellFormed m
    → deserialize_client r (serialize_client w m ++ more) ≡ ok m
unfolding deserialize_client serialize_client read_byte
deserialize_client-serialize_client w r m more f =
    let count : length m.supported_versions % 2 ^ 16 ≡ length m.supported_versions =
      (let small = f.count in omega arith) in
    rw
      (
        count,
        append_assoc (put_u16 w (length m.supported_versions)) _ more,
        append_assoc (put_versions w m.supported_versions) _ more,
        append_assoc m.ephemeral_pk _ more,
        read_u16-put_u16 w r _ (length m.supported_versions) _ f.count,
        read_versions-put_versions w r m.supported_versions _ f.versions,
        read_bytes-append _ _ m.ephemeral_pk _ f.ephemeral,
      )
      (read_identity_back m more m.has_client_identity refl f)
