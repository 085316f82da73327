-- ===== src/Handshake/Tests.antt =====
-- Hellos on concrete bytes.
use obscura_proto.Common.{
  ℕ, ◌≤◌, ◌≡◌, refl, List, [], ◌∷◌, ◌++◌, true, false, arith, length, take, All, All-append,
}
use obscura_proto.Common.Words.{IsByte}
use obscura_proto.Errors.{Exception, ok, err}
use obscura_proto.Endian.{little, big, image, load, htons, ntohs}
use obscura_proto.Version.{default_versions}
use obscura_proto.Handshake.{
  ClientHello, ServerHello, put_u16, put_versions, serialize_client, read_bytes, read_u16,
  read_byte, take_versions, read_versions, read_identity, deserialize_client, deserialize_server,
}
use obscura_proto.Handshake.RoundTrip.{IsWellFormed, deserialize_client-serialize_client}
use obscura_proto.Handshake.Bounds.{client_size, deserialize_client-IsWellFormed}
use obscura_proto.Handshake.Truncation.{deserialize_client_cut}
use obscura_proto.Crypto.Toy.{pad, pad-IsByte}

abbrev anonymous : ClientHello
anonymous = record {
  supported_versions = default_versions;
  ephemeral_pk = pad 32 (3 ∷ []);
  has_client_identity = false;
  identity_pk = [];
  identity_sig = [];
}

abbrev identified : ClientHello
identified = record {
  supported_versions = default_versions;
  ephemeral_pk = pad 32 (3 ∷ []);
  has_client_identity = true;
  identity_pk = pad 32 (4 ∷ []);
  identity_sig = pad 64 (5 ∷ []);
}

abbrev answer : ServerHello
answer = record {
  selected_version = 257;
  ephemeral_pk = pad 32 (6 ∷ []);
  signature = pad 64 (7 ∷ []);
}

abbrev anonymous_bytes : List ℕ
anonymous_bytes = 0 ∷ 2 ∷ 1 ∷ 1 ∷ 1 ∷ 0 ∷ pad 33 (3 ∷ [])

abbrev answer_bytes : List ℕ
answer_bytes = 1 ∷ 1 ∷ (pad 32 (6 ∷ []) ++ pad 64 (7 ∷ []))

serialize_client_test : serialize_client little anonymous ≡ anonymous_bytes
unfolding serialize_client put_u16 put_versions image htons
serialize_client_test = refl

deserialize_client_test : deserialize_client big anonymous_bytes ≡ ok anonymous
unfolding deserialize_client read_u16 read_bytes read_byte read_versions take_versions read_identity
    load ntohs
deserialize_client_test = refl

deserialize_server_test : deserialize_server big answer_bytes ≡ ok answer
unfolding deserialize_server read_u16 read_bytes load ntohs
deserialize_server_test = refl

identified-IsWellFormed : IsWellFormed identified
identified-IsWellFormed = record {
  count = omega arith;
  versions = (omega arith, (omega arith, tt));
  ephemeral = refl;
  identity = refl;
  signature = refl;
}

anonymous-IsWellFormed : IsWellFormed anonymous
anonymous-IsWellFormed = record {
  count = omega arith;
  versions = (omega arith, (omega arith, tt));
  ephemeral = refl;
  identity = refl;
  signature = refl;
}

anonymous-bytes : All IsByte anonymous_bytes
anonymous-bytes = (
  omega arith,
  (
    omega arith,
    (
      omega arith,
      (omega arith, (omega arith, (omega arith, pad-IsByte 33 (3 ∷ []) (omega arith, tt)))),
    ),
  ),
)

answer-bytes : All IsByte answer_bytes
answer-bytes = (
  omega arith,
  (
    omega arith,
    All-append IsByte (pad 32 (6 ∷ [])) (pad 64 (7 ∷ [])) (pad-IsByte 32 (6 ∷ []) (omega arith, tt))
        (pad-IsByte 64 (7 ∷ []) (omega arith, tt)),
  ),
)

deserialize_client-serialize_client_example :
    deserialize_client big (serialize_client little identified ++ []) ≡ ok identified
deserialize_client-serialize_client_example =
    deserialize_client-serialize_client little big identified [] identified-IsWellFormed

deserialize_client-IsWellFormed_example :
    IsWellFormed anonymous × (client_size anonymous ≤ length anonymous_bytes)
deserialize_client-IsWellFormed_example =
    deserialize_client-IsWellFormed big anonymous_bytes anonymous anonymous-bytes
      deserialize_client_test

deserialize_client_cut_example :
    (e : Exception) × (deserialize_client big (take 38 (serialize_client little anonymous)) ≡ err e)
deserialize_client_cut_example =
    deserialize_client_cut little big anonymous 38 anonymous-IsWellFormed
      (rw serialize_client_test anonymous-bytes) (omega arith)
