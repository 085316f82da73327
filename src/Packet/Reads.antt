-- ===== src/Packet/Reads.antt =====
-- What a read does on any reader, whatever the bytes: it stays within the vector, and what it
-- returns is exactly a framed parameter at the offset.
use obscura_proto.Common.{
  ℕ, ◌+◌, ◌≤◌, ◌<◌, ◌≡◌, refl, sym, ap, ◌∙◌, inl, inr, List, [], ◌∷◌, ◌++◌, false, arith, ltb,
  Bool-cases, ltb→lt, ltb→le, le→ltb, length, take, drop, take-append-drop, length-take,
  length-drop, All, All-drop, drop-drop,
}
use obscura_proto.Common.Words.{IsByte}
use obscura_proto.Errors.{Result, ok, err, runtime_error}
use obscura_proto.Endian.{Host}
use obscura_proto.Endian.Laws.{be_bytes, load_be, ntohs-load, be_bytes-load_be}
use obscura_proto.Packet.Reader.{PayloadReader, has_more, length_at, read_param_bytes}
use obscura_proto.Packet.Framing.{frame}

-- The bytes that a reader has not passed.
abbrev pub left : PayloadReader → List ℕ
left r = drop r.offset r.params_data

-- The three ways a read ends: a parameter, no room for a length, a length past the end.
pub data Outcome (r : PayloadReader) (res : Result (List ℕ)) (r' : PayloadReader) : Type 0 where
  read :
      (p : List ℕ)
      → res ≡ ok p
      → left r ≡ frame p ++ left r'
      → r'.params_data ≡ r.params_data
      → r'.offset ≡ r.offset + 2 + length p
      → r'.offset ≤ length r.params_data
      → Outcome r res r'
  no_length :
      length r.params_data < r.offset + 2
      → r' ≡ r
      → res ≡ err (runtime_error "Invalid payload data: not enough data for parameter length.")
      → Outcome r res r'
  past_end :
      r.offset + 2 ≤ length r.params_data
      → r' ≡ record { params_data = r.params_data; offset = length r.params_data }
      → has_more r' ≡ false
      → res ≡ err (runtime_error "Invalid payload data: not enough data for parameter content.")
      → Outcome r res r'

-- Two length bytes and what they announce make a frame.
frame_of :
    (a b : ℕ) (rest : List ℕ) (n : ℕ)
    → All IsByte (a ∷ b ∷ [])
    → n ≡ load_be (a ∷ b ∷ [])
    → n ≤ length rest
    → a ∷ b ∷ rest ≡ frame (take n rest) ++ drop n rest
unfolding frame
frame_of a b rest n bs e fits =
    rw (length-take n rest fits, ap (be_bytes 2) e ∙ be_bytes-load_be (a ∷ b ∷ []) bs)
      (ap (λ l. a ∷ b ∷ l) (sym (take-append-drop n rest)))

length_at-header :
    (h : Host) (r : PayloadReader) (a b : ℕ) (rest : List ℕ)
    → left r ≡ a ∷ b ∷ rest
    → All IsByte (a ∷ b ∷ [])
    → length_at h r ≡ load_be (a ∷ b ∷ [])
unfolding length_at
length_at-header h r a b rest e bs = rw e (ntohs-load h (a ∷ b ∷ []) bs refl)

read_succeeds :
    (h : Host) (r : PayloadReader) (l : List ℕ)
    → left r ≡ l
    → All IsByte l
    → r.offset + 2 ≤ length r.params_data
    → r.offset + 2 + length_at h r ≤ length r.params_data
    → left r
      ≡ frame (take (length_at h r) (drop (r.offset + 2) r.params_data))
        ++ drop (r.offset + 2 + length_at h r) r.params_data
read_succeeds h r [] e bs room fits =
    absurd (omega (arith, ap length e, length-drop r.offset r.params_data))
read_succeeds h r (a ∷ []) e bs room fits =
    absurd (omega (arith, ap length e, length-drop r.offset r.params_data))
read_succeeds h r (a ∷ b ∷ rest) e (ha, (hb, hs)) room fits =
    let behind : drop (r.offset + 2) r.params_data ≡ rest =
      sym (drop-drop r.offset 2 r.params_data) ∙ ap (drop 2) e in
    let short : length_at h r ≤ length rest =
      omega (arith, ap length e, length-drop r.offset r.params_data) in
    rw (← drop-drop (r.offset + 2) (length_at h r) r.params_data, behind, e)
      (frame_of a b rest _ (ha, (hb, tt)) (length_at-header h r a b rest e (ha, (hb, tt))) short)

rest_room :
    (h : Host) (r : PayloadReader)
    → r.offset + 2 + length_at h r ≤ length r.params_data
    → length_at h r ≤ length (drop (r.offset + 2) r.params_data)
rest_room h r fits = omega (arith, length-drop (r.offset + 2) r.params_data)

-- On any reader over bytes, a read ends in one of three ways: it takes off exactly the framed
-- parameter at the offset and stays within the vector; it finds no room for a length and changes
-- nothing; or the length runs past the end, and nothing more can be read.
pub read_param_bytes-Outcome :
    (h : Host) (r : PayloadReader)
    → All IsByte r.params_data
    → Outcome r (read_param_bytes h r).0 (read_param_bytes h r).1
unfolding read_param_bytes
read_param_bytes-Outcome h r bs = elim (Bool-cases (ltb (length r.params_data) (r.offset + 2))) [
  | inl short ↦ rw short (no_length (ltb→lt _ _ short) refl refl)
  | inr room ↦ elim (Bool-cases (ltb (length r.params_data) (r.offset + 2 + length_at h r))) [
    | inl over ↦
        rw (room, over)
          (past_end (ltb→le _ _ room) refl (unfold has_more in le→ltb _ _ (omega arith)) refl)
    | inr fits ↦
        rw (room, fits)
          (read (take (length_at h r) (drop (r.offset + 2) r.params_data)) refl
            (read_succeeds h r (left r) refl (All-drop IsByte r.offset r.params_data bs)
              (ltb→le _ _ room) (ltb→le _ _ fits))
            refl
            (ap (λ (k : ℕ). r.offset + 2 + k)
              (sym (length-take _ _ (rest_room h r (ltb→le _ _ fits)))))
            (ltb→le _ _ fits))
  ]
]
