-- ===== src/Packet/RoundTrip.antt =====
-- Payloads and parameter lists survive the wire, from any machine to any machine.
use obscura_proto.Common.{
  ℕ, zero, suc, ◌<◌, ◌≡◌, refl, ◌∙◌, List, [], ◌∷◌, ◌++◌, false, arith, length, length-append, take,
  take-append, drop-append, All, append_assoc, append-nil, lt→ltb, le→ltb,
}
use obscura_proto.Common.Words.{IsByte, IsU16}
use obscura_proto.Errors.{Result, ok, err, runtime_error, ◌>>=◌}
use obscura_proto.Endian.{Host, load, ntohs}
use obscura_proto.Endian.Laws.{
  be_bytes, load_be, image-htons, ntohs-load, load_be-u16, length-be_bytes, be_bytes-IsByte,
  be_bytes-load_be,
}
use obscura_proto.Packet.{Payload, serialize, deserialize}
use obscura_proto.Packet.Builder
use obscura_proto.Packet.Builder.{PayloadBuilder, add_param, build}
use obscura_proto.Packet.Reader
use obscura_proto.Packet.Reader.{PayloadReader, has_more, length_at, read_param_bytes}
use obscura_proto.Packet.Framing.{frame, extend, add_param-frame, reader_at, read_param_bytes-frame}

pub serialize-bytes :
    (h : Host) (p : Payload) → serialize h p ≡ be_bytes 2 p.op_code ++ p.parameters
unfolding serialize
serialize-bytes h p = rw (image-htons h p.op_code)

read-op_code :
    (h : Host) (v : ℕ) (rest : List ℕ)
    → IsU16 v
    → ntohs h (load h (take 2 (be_bytes 2 v ++ rest))) ≡ v
read-op_code h v rest b =
    rw
      (
        take-append 2 (be_bytes 2 v) rest (length-be_bytes 2 v),
        ntohs-load h (be_bytes 2 v) (be_bytes-IsByte 2 v) (length-be_bytes 2 v),
      )
      (load_be-u16 v b)

-- A payload with a 16-bit operation code that one machine serializes is read back by any machine.
pub deserialize-serialize :
    (w r : Host) (p : Payload) → IsU16 p.op_code → deserialize r (serialize w p) ≡ ok p
unfolding deserialize
deserialize-serialize w r p b = rw (
  serialize-bytes w p,
  le→ltb (length (be_bytes 2 p.op_code ++ p.parameters)) 2 (
      omega (
        arith,
        length-append {0} (be_bytes 2 p.op_code) p.parameters,
        length-be_bytes 2 p.op_code,
      )),
  read-op_code r p.op_code p.parameters b,
  drop-append 2 (be_bytes 2 p.op_code) p.parameters (length-be_bytes 2 p.op_code),
)

deserialize-long :
    (h : Host) (a b : ℕ) (rest : List ℕ)
    → All IsByte (a ∷ b ∷ [])
    → deserialize h (a ∷ b ∷ rest)
      ≡ ok (record { op_code = load_be (a ∷ b ∷ []); parameters = rest })
unfolding deserialize
deserialize-long h a b rest bs =
    rw (le→ltb (suc (suc (length rest))) 2 (omega arith), ntohs-load h (a ∷ b ∷ []) bs refl)

-- Bytes that are read as a payload are what that payload serializes to, on any machine.
pub serialize-deserialize :
    (w r : Host) (bytes : List ℕ) (p : Payload)
    → All IsByte bytes
    → deserialize r bytes ≡ ok p
    → serialize w p ≡ bytes
serialize-deserialize w r [] p bs e = unfold deserialize in cc
serialize-deserialize w r (a ∷ []) p bs e = unfold deserialize in cc
serialize-deserialize w r (a ∷ b ∷ rest) p (ha, (hb, hs)) e =
    let q : p ≡ record { op_code = load_be (a ∷ b ∷ []); parameters = rest } =
      cc (deserialize-long r a b rest (ha, (hb, tt))) in
    rw (q, serialize-bytes, be_bytes-load_be (a ∷ b ∷ []) (ha, (hb, tt)))

-- The parameters added one after the other, stopping at the first that is refused.
unfoldable pub add_params : Host → PayloadBuilder → List (List ℕ) → Result PayloadBuilder
add_params h b [] = ok b
add_params h b (p ∷ ps) = add_param h b p >>= λ b'. add_params h b' ps

abbrev prepend :
    List ℕ → Result (List (List ℕ)) × PayloadReader → Result (List (List ℕ)) × PayloadReader
prepend p (ok ps, r) = (ok (p ∷ ps), r)
prepend p (err e, r) = (err e, r)

abbrev after_read :
    Result (List ℕ) × PayloadReader
    → (PayloadReader → Result (List (List ℕ)) × PayloadReader)
    → Result (List (List ℕ)) × PayloadReader
after_read (ok p, r) more = prepend p (more r)
after_read (err e, r) more = (err e, r)

-- `n` reads in a row, stopping at the first that fails.
unfoldable pub read_params : Host → ℕ → PayloadReader → Result (List (List ℕ)) × PayloadReader
read_params h zero r = (ok [], r)
read_params h (suc n) r = after_read (read_param_bytes h r) (read_params h n)

abbrev pub Fits : List ℕ → Type 0
Fits param = length param < 65536

frames : List (List ℕ) → List ℕ
frames [] = []
frames (p ∷ ps) = frame p ++ frames ps

add_params-frames :
    (h : Host) (b : PayloadBuilder) (ps : List (List ℕ))
    → All Fits ps
    → add_params h b ps ≡ ok (extend b (frames ps))
unfolding add_params frames
add_params-frames h b [] fit = simp append-nil
add_params-frames h b (p ∷ ps) (fp, fps) =
    rw (add_param-frame h b p fp)
      (add_params-frames h (extend b (frame p)) ps fps ∙ simp append_assoc)

read_params-frames :
    (h : Host) (before : List ℕ) (ps : List (List ℕ))
    → All Fits ps
    → read_params h (length ps) (reader_at before (frames ps))
      ≡ (ok ps, reader_at (before ++ frames ps) [])
unfolding read_params frames
read_params-frames h before [] fit = simp append-nil
read_params-frames h before (p ∷ ps) (fp, fps) =
    rw
      (
        read_param_bytes-frame h before p (frames ps) fp,
        read_params-frames h (before ++ frame p) ps fps,
      )
      (simp append_assoc)

-- Parameters shorter than 2 ^ 16 bytes are all accepted by a builder, and a reader on any machine
-- takes the same list off the built payload and is then at its end.
pub read_params-add_params :
    (w r : Host) (op_code : ℕ) (ps : List (List ℕ))
    → All Fits ps
    → (b : PayloadBuilder) × (done : PayloadReader) × (add_params w (Builder.new op_code) ps ≡ ok b)
      × ((build b).op_code ≡ op_code)
      × (read_params r (length ps) (Reader.new (build b)) ≡ (ok ps, done))
      × (has_more done ≡ false)
unfolding Builder.new Reader.new build has_more
read_params-add_params w r op_code ps fit = (
  record { payload = record { op_code = op_code; parameters = frames ps } },
  reader_at (frames ps) [],
  add_params-frames w (Builder.new op_code) ps fit,
  refl,
  read_params-frames r [] ps fit,
  simp append-nil (le→ltb (length (frames ps)) (length (frames ps)) (omega arith)),
)

-- A longer parameter is refused, and nothing else is.
pub add_params_err :
    (h : Host) (b : PayloadBuilder) (param : List ℕ)
    → (Fits param → ⊥)
    → add_param h b param ≡ err (runtime_error "Parameter size exceeds maximum of 65535 bytes.")
unfolding add_param
add_params_err h b param big = rw (lt→ltb 65535 (length param) (omega (arith, big)))
