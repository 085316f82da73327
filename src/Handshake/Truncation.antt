-- ===== src/Handshake/Truncation.antt =====
-- A ClientHello that is cut anywhere is refused: more input never changes an accepted message, so a
-- proper prefix that was accepted would be the whole message, which it is too short for.
use obscura_proto.Common.{
  ℕ, zero, suc, ◌*◌, ◌≤◌, ◌<◌, ◌≡◌, refl, inl, inr, List, [], ◌∷◌, ◌++◌, String, Bool, true, false,
  arith, ltb, le→ltb, ltb→le, Bool-cases, length, length-append, take, drop, take-append-drop,
  length-take-le, All, All-take, append_assoc, append-nil,
}
use obscura_proto.Common.Words.{IsByte}
use obscura_proto.Errors.{Exception, ok, err, >>=-eq-ok, Result-cases}
use obscura_proto.Endian.{Host}
use obscura_proto.Handshake.{
  ClientHello, serialize_client, read_bytes, read_u16, read_byte, take_versions, read_versions,
  read_identity, deserialize_client,
}
use obscura_proto.Handshake.RoundTrip.{
  IsWellFormed, read_bytes-append, deserialize_client-serialize_client,
}
use obscura_proto.Handshake.Bounds.{read_bytes-eq-ok, client_size, deserialize_client-IsWellFormed}

module _ (more : List ℕ) where
  read_bytes_more :
      (n : ℕ) (e : String) (bytes : List ℕ) {xs rest : List ℕ}
      → read_bytes n e bytes ≡ ok (xs, rest)
      → read_bytes n e (bytes ++ more) ≡ ok (xs, rest ++ more)
  read_bytes_more n e bytes {xs} {rest} h =
      let eq = read_bytes-eq-ok n e bytes h in
      rw (eq.1, append_assoc xs rest more) (read_bytes-append n e xs (rest ++ more) eq.0)

  read_u16_more :
      (h : Host) (e : String) (bytes : List ℕ) {v : ℕ} {rest : List ℕ}
      → read_u16 h e bytes ≡ ok (v, rest)
      → read_u16 h e (bytes ++ more) ≡ ok (v, rest ++ more)
  unfolding read_u16
  read_u16_more h e bytes k =
      let ((raw, r), p, q) = >>=-eq-ok (read_bytes 2 e bytes) _ k in
      rw (read_bytes_more 2 e bytes p) (cc q)

  take_versions_more :
      (h : Host) (n : ℕ) (bytes : List ℕ)
      → n * 2 ≤ length bytes
      → take_versions h n (bytes ++ more)
        ≡ ((take_versions h n bytes).0, (take_versions h n bytes).1 ++ more)
  unfolding take_versions
  take_versions_more h zero bytes room = refl
  take_versions_more h (suc n) [] room = absurd (omega arith)
  take_versions_more h (suc n) (a ∷ []) room = absurd (omega arith)
  take_versions_more h (suc n) (a ∷ b ∷ rest) room = rw (take_versions_more h n rest (omega arith))

  read_versions_more :
      (h : Host) (n : ℕ) (bytes : List ℕ) {vs rest : List ℕ}
      → read_versions h n bytes ≡ ok (vs, rest)
      → read_versions h n (bytes ++ more) ≡ ok (vs, rest ++ more)
  unfolding read_versions
  read_versions_more h n bytes {vs} {rest} k = elim (Bool-cases (ltb (length bytes) (n * 2))) [
    | inl short ↦ cc (rw short at k)
    | inr long ↦
        let room = ltb→le (length bytes) (n * 2) long in
        let p : take_versions h n bytes ≡ (vs, rest) = cc (rw long at k) in
        rw (
          le→ltb (length (bytes ++ more)) (n * 2) (omega (arith, length-append {0} bytes more)),
          take_versions_more h n bytes room,
          p,
        )
  ]

  read_byte_more :
      (e : String) (bytes : List ℕ) {b : ℕ} {rest : List ℕ}
      → read_byte e bytes ≡ ok (b, rest)
      → read_byte e (bytes ++ more) ≡ ok (b, rest ++ more)
  unfolding read_byte
  read_byte_more e [] k = cc k
  read_byte_more e (x ∷ xs) k = cc k

  read_identity_more :
      (vs pk : List ℕ) (b : Bool) (bytes : List ℕ) {m : ClientHello}
      → read_identity vs pk b bytes ≡ ok m
      → read_identity vs pk b (bytes ++ more) ≡ ok m
  unfolding read_identity
  read_identity_more vs pk false bytes k = k
  read_identity_more vs pk true bytes k =
      let ((ipk, r), p, q) = >>=-eq-ok (read_bytes 32 _ bytes) _ k in
      let ((sig, r'), p', q') = >>=-eq-ok (read_bytes 64 _ r) _ q in
      rw (read_bytes_more 32 _ bytes p, read_bytes_more 64 _ r p') q'

  deserialize_client_more :
      (h : Host) (bytes : List ℕ) {m : ClientHello}
      → deserialize_client h bytes ≡ ok m
      → deserialize_client h (bytes ++ more) ≡ ok m
  unfolding deserialize_client
  deserialize_client_more h bytes k =
      let ((count, r₁), p₁, k₁) = >>=-eq-ok (read_u16 h _ bytes) _ k in
      let ((vs, r₂), p₂, k₂) = >>=-eq-ok (read_versions h count r₁) _ k₁ in
      let ((pk, r₃), p₃, k₃) = >>=-eq-ok (read_bytes 32 _ r₂) _ k₂ in
      let ((flag, r₄), p₄, k₄) = >>=-eq-ok (read_byte _ r₃) _ k₃ in
      rw
        (
          read_u16_more h _ bytes p₁,
          read_versions_more h count r₁ p₂,
          read_bytes_more 32 _ r₂ p₃,
          read_byte_more _ r₃ p₄,
        )
        (read_identity_more vs pk _ r₄ k₄)

-- The bytes of a well-formed ClientHello, cut anywhere before their end, are refused with an
-- exception on any machine.
pub deserialize_client_cut :
    (w r : Host) (m : ClientHello) (k : ℕ)
    → IsWellFormed m
    → All IsByte (serialize_client w m)
    → k < client_size m
    → (e : Exception) × (deserialize_client r (take k (serialize_client w m)) ≡ err e)
deserialize_client_cut w r m k f bs short =
    elim (Result-cases (deserialize_client r (take k (serialize_client w m)))) [
      | inl (got, p) ↦
          let whole : deserialize_client r (serialize_client w m) ≡ ok got =
            rw (take-append-drop k (serialize_client w m)) at (
              deserialize_client_more (drop k (serialize_client w m)) r
                (take k (serialize_client w m)) p) in
          let back : deserialize_client r (serialize_client w m) ≡ ok m =
            rw append-nil at (deserialize_client-serialize_client w r m [] f) in
          let same : got ≡ m = cc (whole, back) in
          let fits : client_size got ≤ length (take k (serialize_client w m)) =
            (deserialize_client-IsWellFormed r (take k (serialize_client w m)) got
              (All-take IsByte k _ bs) p).1 in
          absurd (omega (arith, rw same at fits, length-take-le k (serialize_client w m)))
      | inr refused ↦ refused
    ]
