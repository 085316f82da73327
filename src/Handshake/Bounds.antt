-- ===== src/Handshake/Bounds.antt =====
-- What the handshake parsers accept: only well-formed messages, and never more than there is.
use obscura_proto.Common.{
  ℕ, zero, suc, ◌+◌, ◌*◌, ◌≤◌, ◌<◌, ◌^◌, ◌≡◌, refl, sym, ap, inl, inr, List, [], ◌∷◌, ◌++◌, String,
  Bool, true, false, arith, ltb, if◌then◌else◌, ltb→le, Bool-cases, length, take, drop,
  take-append-drop, length-take, length-drop, All, All-take, All-drop,
}
use obscura_proto.Common.Words.{IsByte, IsU16}
use obscura_proto.Errors.{ok, >>=-eq-ok}
use obscura_proto.Endian.{Host, load, ntohs}
use obscura_proto.Endian.Laws.{load_be, ntohs-load}
use obscura_proto.Handshake.{
  ClientHello, ServerHello, read_bytes, read_u16, read_byte, take_versions, read_versions,
  read_identity, deserialize_client, deserialize_server,
}
use obscura_proto.Handshake.RoundTrip.{IsWellFormed, IsWellFormedServer}

pub read_bytes-eq-ok :
    (n : ℕ) (e : String) (bytes : List ℕ) {xs rest : List ℕ}
    → read_bytes n e bytes ≡ ok (xs, rest)
    → (length xs ≡ n) × (bytes ≡ xs ++ rest) × (length bytes ≡ n + length rest)
unfolding read_bytes
read_bytes-eq-ok n e bytes {xs} {rest} h = elim (Bool-cases (ltb (length bytes) n)) [
  | inl short ↦ cc (rw short at h)
  | inr long ↦
      let px : take n bytes ≡ xs = cc (rw long at h) in
      let pr : drop n bytes ≡ rest = cc (rw long at h) in
      let room = ltb→le (length bytes) n long in
      (
        rw px at (length-take n bytes room),
        sym (rw (px, pr) at (take-append-drop n bytes)),
        omega (arith, rw pr at (length-drop n bytes)),
      )
]

IsU16-of :
    (h : Host) (raw : List ℕ) → All IsByte raw → length raw ≡ 2 → IsU16 (ntohs h (load h raw))
IsU16-of h (a ∷ b ∷ []) bs e =
    rw (ntohs-load h (a ∷ b ∷ []) bs refl) (unfold load_be in omega arith)
IsU16-of h _ bs e = absurd (omega arith)

All-append_right : (xs ys : List ℕ) → All IsByte (xs ++ ys) → All IsByte ys
All-append_right [] ys h = h
All-append_right (x ∷ xs) ys h = All-append_right xs ys h.1

All-append_left : (xs ys : List ℕ) → All IsByte (xs ++ ys) → All IsByte xs
All-append_left [] ys h = tt
All-append_left (x ∷ xs) ys h = (h.0, All-append_left xs ys h.1)

read_bytes-rest :
    (n : ℕ) (e : String) (bytes : List ℕ) {xs rest : List ℕ}
    → All IsByte bytes
    → read_bytes n e bytes ≡ ok (xs, rest)
    → All IsByte rest
read_bytes-rest n e bytes {xs} {rest} bs h =
    All-append_right xs rest (rw ((read_bytes-eq-ok n e bytes h).1) at bs)

pub read_u16-eq-ok :
    (h : Host) (e : String) (bytes : List ℕ) {v : ℕ} {rest : List ℕ}
    → All IsByte bytes
    → read_u16 h e bytes ≡ ok (v, rest)
    → IsU16 v × All IsByte rest × (length bytes ≡ 2 + length rest)
unfolding read_u16
read_u16-eq-ok h e bytes {v} {rest} bs k =
    let ((raw, r), p, q) = >>=-eq-ok (read_bytes 2 e bytes) _ k in
    let eq = read_bytes-eq-ok 2 e bytes p in
    let pv : ntohs h (load h raw) ≡ v = cc q in
    let pr : r ≡ rest = cc q in
    (
      rw (← pv) (IsU16-of h raw (All-append_left raw r (rw eq.1 at bs)) eq.0),
      rw (← pr) (read_bytes-rest 2 e bytes bs p),
      rw (← pr) eq.2,
    )

take_versions_bounds :
    (h : Host) (n : ℕ) (bytes : List ℕ)
    → All IsByte bytes
    → n * 2 ≤ length bytes
    → (length (take_versions h n bytes).0 ≡ n)
      × All IsU16 (take_versions h n bytes).0
      × All IsByte (take_versions h n bytes).1
      × (length bytes ≡ n * 2 + length (take_versions h n bytes).1)
unfolding take_versions
take_versions_bounds h zero bytes bs room = (refl, tt, bs, omega arith)
take_versions_bounds h (suc n) bytes bs room =
    let (len, vs, rest, total) =
      take_versions_bounds h n (drop 2 bytes) (All-drop IsByte 2 bytes bs)
        (omega (arith, length-drop 2 bytes)) in
    (
      ap suc len,
      (
        IsU16-of h (take 2 bytes) (All-take IsByte 2 bytes bs) (length-take 2 bytes (omega arith)),
        vs,
      ),
      rest,
      omega (arith, length-drop 2 bytes),
    )

pub read_versions-eq-ok :
    (h : Host) (n : ℕ) (bytes : List ℕ) {vs rest : List ℕ}
    → All IsByte bytes
    → read_versions h n bytes ≡ ok (vs, rest)
    → (length vs ≡ n) × All IsU16 vs × All IsByte rest × (length bytes ≡ n * 2 + length rest)
unfolding read_versions
read_versions-eq-ok h n bytes {vs} {rest} bs k = elim (Bool-cases (ltb (length bytes) (n * 2))) [
  | inl short ↦ cc (rw short at k)
  | inr long ↦
      let p : take_versions h n bytes ≡ (vs, rest) = cc (rw long at k) in
      rw p at (take_versions_bounds h n bytes bs (ltb→le (length bytes) (n * 2) long))
]

-- How many bytes a message takes on the wire.
abbrev pub client_size : ClientHello → ℕ
client_size m = 35 + length m.supported_versions * 2 + (if m.has_client_identity then 96 else 0)

read_identity_bounds :
    (vs pk : List ℕ) (b : Bool) (bytes : List ℕ) (m : ClientHello)
    → All IsU16 vs
    → length vs < 2 ^ 16
    → length pk ≡ 32
    → read_identity vs pk b bytes ≡ ok m
    → IsWellFormed m
      × (m.supported_versions ≡ vs)
      × ((if m.has_client_identity then 96 else 0) ≤ length bytes)
unfolding read_identity
read_identity_bounds vs pk false bytes m bvs few len k =
    let e : m ≡ record {
      supported_versions = vs;
      ephemeral_pk = pk;
      has_client_identity = false;
      identity_pk = [];
      identity_sig = [];
    } =
      cc k in
    rw e (
      record { count = few; versions = bvs; ephemeral = len; identity = refl; signature = refl },
      refl,
      omega arith,
    )
read_identity_bounds vs pk true bytes m bvs few len k =
    let ((ipk, r), p, q) = >>=-eq-ok (read_bytes 32 _ bytes) _ k in
    let ((sig, r'), p', q') = >>=-eq-ok (read_bytes 64 _ r) _ q in
    let e : m ≡ record {
      supported_versions = vs;
      ephemeral_pk = pk;
      has_client_identity = true;
      identity_pk = ipk;
      identity_sig = sig;
    } =
      cc q' in
    let at_pk = read_bytes-eq-ok 32 _ bytes p in
    let at_sig = read_bytes-eq-ok 64 _ r p' in
    rw e (
      record {
        count = few;
        versions = bvs;
        ephemeral = len;
        identity = at_pk.0;
        signature = at_sig.0;
      },
      refl,
      omega (arith, at_pk.2, at_sig.2),
    )

read_byte-eq-ok :
    (e : String) (bytes : List ℕ) {b : ℕ} {rest : List ℕ}
    → read_byte e bytes ≡ ok (b, rest)
    → length bytes ≡ 1 + length rest
unfolding read_byte
read_byte-eq-ok e [] k = cc k
read_byte-eq-ok e (x ∷ xs) {b} {rest} k = let p : xs ≡ rest = cc k in rw p (omega arith)

-- Whatever bytes come in, a ClientHello that is accepted is well formed: its keys and signature
-- have the sizes that libsodium reads, and the fields were all there.
pub deserialize_client-IsWellFormed :
    (h : Host) (bytes : List ℕ) (m : ClientHello)
    → All IsByte bytes
    → deserialize_client h bytes ≡ ok m
    → IsWellFormed m × (client_size m ≤ length bytes)
unfolding deserialize_client
deserialize_client-IsWellFormed h bytes m bs k =
    let ((count, r₁), p₁, k₁) = >>=-eq-ok (read_u16 h _ bytes) _ k in
    let ((vs, r₂), p₂, k₂) = >>=-eq-ok (read_versions h count r₁) _ k₁ in
    let ((pk, r₃), p₃, k₃) = >>=-eq-ok (read_bytes 32 _ r₂) _ k₂ in
    let ((flag, r₄), p₄, k₄) = >>=-eq-ok (read_byte _ r₃) _ k₃ in
    let (bound, bs₁, n₁) = read_u16-eq-ok h _ bytes bs p₁ in
    let (len, bvs, bs₂, n₂) = read_versions-eq-ok h count r₁ bs₁ p₂ in
    let at_pk = read_bytes-eq-ok 32 _ r₂ p₃ in
    let (shape, same, room) = read_identity_bounds vs pk _ r₄ m bvs (rw len bound) at_pk.0 k₄ in
    (
      shape,
      rw (ap length same, len) (omega (arith, n₁, n₂, at_pk.2, read_byte-eq-ok _ r₃ p₄, room)),
    )

abbrev pub server_size : ℕ
server_size = 98

-- Whatever bytes come in, a ServerHello that is accepted is well formed: its key and signature
-- have the sizes that libsodium reads, and the fields were all there.
pub deserialize_server-IsWellFormed :
    (h : Host) (bytes : List ℕ) (m : ServerHello)
    → All IsByte bytes
    → deserialize_server h bytes ≡ ok m
    → IsWellFormedServer m × (server_size ≤ length bytes)
unfolding deserialize_server
deserialize_server-IsWellFormed h bytes m bs k =
    let ((version, r₁), p₁, k₁) = >>=-eq-ok (read_u16 h _ bytes) _ k in
    let ((pk, r₂), p₂, k₂) = >>=-eq-ok (read_bytes 32 _ r₁) _ k₁ in
    let ((sig, r₃), p₃, k₃) = >>=-eq-ok (read_bytes 64 _ r₂) _ k₂ in
    let (bound, bs₁, n₁) = read_u16-eq-ok h _ bytes bs p₁ in
    let at_pk = read_bytes-eq-ok 32 _ r₁ p₂ in
    let at_sig = read_bytes-eq-ok 64 _ r₂ p₃ in
    let e : m ≡ record { selected_version = version; ephemeral_pk = pk; signature = sig } = cc k₃ in
    (
      rw e (record { version = bound; ephemeral = at_pk.0; signature = at_sig.0 }),
      omega (arith, n₁, at_pk.2, at_sig.2),
    )
