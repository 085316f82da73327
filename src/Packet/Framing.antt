-- ===== src/Packet/Framing.antt =====
-- How one parameter stands on the wire, and that the reader takes it off again.
use obscura_proto.Common.{
  ℕ, ◌+◌, ◌<◌, ◌%◌, ◌≡◌, refl, sym, ◌∙◌, List, ◌++◌, arith, length, length-append, drop,
  take-append, drop-append, append_assoc, drop-drop, le→ltb,
}
use obscura_proto.Errors.{ok}
use obscura_proto.Endian.{Host}
use obscura_proto.Endian.Laws.{
  be_bytes, image-htons, ntohs-load, load_be-u16, length-be_bytes, be_bytes-IsByte,
}
use obscura_proto.Packet.Builder.{PayloadBuilder, add_param}
use obscura_proto.Packet.Reader.{PayloadReader, length_at, read_param_bytes}

-- The length in two bytes, highest first, and the parameter.
unfoldable pub frame : List ℕ → List ℕ
frame param = be_bytes 2 (length param) ++ param

pub length-frame : (param : List ℕ) → length (frame param) ≡ 2 + length param
unfolding frame
length-frame param =
    omega
      (arith, length-append {0} (be_bytes 2 (length param)) param, length-be_bytes 2 (length param))

-- A builder whose parameters go on with `bytes`.
abbrev pub extend : PayloadBuilder → List ℕ → PayloadBuilder
extend b bytes = record {
  payload = record { op_code = b.payload.op_code; parameters = b.payload.parameters ++ bytes };
}

pub add_param-frame :
    (h : Host) (b : PayloadBuilder) (param : List ℕ)
    → length param < 65536
    → add_param h b param ≡ ok (extend b (frame param))
unfolding add_param frame
add_param-frame h b param small =
    let e : length param % 65536 ≡ length param = omega arith in
    rw (le→ltb 65535 (length param) (omega arith), image-htons h (length param % 65536), e)

-- A reader whose offset stands between `before` and what is left.
abbrev pub reader_at : List ℕ → List ℕ → PayloadReader
reader_at before left = record { params_data = before ++ left; offset = length before }

length_at-frame :
    (h : Host) (before param left : List ℕ)
    → length param < 65536
    → length_at h (reader_at before (frame param ++ left)) ≡ length param
unfolding length_at frame
length_at-frame h before param left small =
    rw
      (
        drop-append _ before ((be_bytes 2 (length param) ++ param) ++ left) refl,
        append_assoc (be_bytes 2 (length param)) param left,
        take-append 2 (be_bytes 2 (length param)) (param ++ left)
            (length-be_bytes 2 (length param)),
        ntohs-load h (be_bytes 2 (length param)) (be_bytes-IsByte 2 (length param))
            (length-be_bytes 2 (length param)),
      )
      (load_be-u16 (length param) small)

drop-frame :
    (before param left : List ℕ)
    → drop (length before + 2) (before ++ (frame param ++ left)) ≡ param ++ left
unfolding frame
drop-frame before param left =
    sym (drop-drop (length before) 2 (before ++ (frame param ++ left)))
    ∙ rw
        (
          drop-append _ before ((be_bytes 2 (length param) ++ param) ++ left) refl,
          append_assoc (be_bytes 2 (length param)) param left,
        )
        (drop-append 2 (be_bytes 2 (length param)) (param ++ left)
          (length-be_bytes 2 (length param)))

length_reader_at :
    (before param left : List ℕ)
    → length (before ++ (frame param ++ left)) ≡ length before + 2 + length param + length left
length_reader_at before param left = omega (
  arith,
  length-append {0} before (frame param ++ left),
  length-append {0} (frame param) left,
  length-frame param,
)

-- `read_param_bytes` takes a framed parameter off and stops right behind it.
pub read_param_bytes-frame :
    (h : Host) (before param left : List ℕ)
    → length param < 65536
    → read_param_bytes h (reader_at before (frame param ++ left))
      ≡ (ok param, reader_at (before ++ frame param) left)
unfolding read_param_bytes
read_param_bytes-frame h before param left small =
    let here : length (before ++ frame param) ≡ length before + 2 + length param =
      omega (arith, length-append {0} before (frame param), length-frame param) in
    rw (
      length_at-frame h before param left small,
      le→ltb (length (before ++ (frame param ++ left))) (length before + 2)
          (omega (arith, length_reader_at before param left)),
      le→ltb (length (before ++ (frame param ++ left))) (length before + 2 + length param)
          (omega (arith, length_reader_at before param left)),
      drop-frame before param left,
      take-append (length param) param left refl,
      here,
      append_assoc before (frame param) left,
    )
