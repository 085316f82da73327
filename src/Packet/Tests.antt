-- ===== src/Packet/Tests.antt =====
-- Payloads and parameters on concrete bytes.
use obscura_proto.Common.{ℕ, ◌≡◌, refl, List, [], ◌∷◌, ◌++◌, false, arith, if◌then◌else◌}
use obscura_proto.Errors.{ok, err, runtime_error}
use obscura_proto.Endian.{little, big, image, load, htons, ntohs, swap_bytes}
use obscura_proto.Packet.{Payload, serialize, deserialize}
use obscura_proto.Packet.Builder
use obscura_proto.Packet.Builder.{
  PayloadBuilder, add_param, add_c_string, until_nul, scalar_bytes, add_scalar, build, int16,
  uint64, float, bool,
}
use obscura_proto.Packet.Reader
use obscura_proto.Packet.Reader.{
  PayloadReader, has_more, length_at, peek_next_param_size, read_param_bytes, read_scalar,
  from_network,
}
use obscura_proto.Packet.Framing.{frame, reader_at}
use obscura_proto.Packet.RoundTrip.{add_params, read_params, read_params-add_params}
use obscura_proto.Packet.Reads.{Outcome, read_param_bytes-Outcome}
use obscura_proto.Packet.Scalars.{same_order, read_scalar-scalar_bytes, read_scalar_floating}

abbrev ping : Payload
ping = record { op_code = 0x1001; parameters = 7 ∷ 8 ∷ [] }

abbrev ping_bytes : List ℕ
ping_bytes = 16 ∷ 1 ∷ 7 ∷ 8 ∷ []

-- Two parameters, of two bytes and of none.
abbrev two : List (List ℕ)
two = (5 ∷ 6 ∷ []) ∷ [] ∷ []

abbrev reader : PayloadReader
reader = record { params_data = 0 ∷ 2 ∷ 5 ∷ 6 ∷ 0 ∷ 9 ∷ 1 ∷ []; offset = 0 }

abbrev behind : PayloadReader
behind = record { params_data = 0 ∷ 2 ∷ 5 ∷ 6 ∷ 0 ∷ 9 ∷ 1 ∷ []; offset = 4 }

abbrev at_end : PayloadReader
at_end = record { params_data = 0 ∷ 2 ∷ 5 ∷ 6 ∷ 0 ∷ 9 ∷ 1 ∷ []; offset = 7 }

serialize_test : serialize little ping ≡ ping_bytes
unfolding serialize image htons
serialize_test = refl

deserialize_test : deserialize big ping_bytes ≡ ok ping
unfolding deserialize load ntohs
deserialize_test = refl

deserialize_short_test :
    deserialize big (16 ∷ []) ≡ err (runtime_error "Data too small to be a valid payload.")
unfolding deserialize
deserialize_short_test = refl

read_test : read_param_bytes little reader ≡ (ok (5 ∷ 6 ∷ []), behind)
unfolding read_param_bytes length_at ntohs load
read_test = refl

read_past_end_test :
    read_param_bytes little behind
    ≡ (err (runtime_error "Invalid payload data: not enough data for parameter content."), at_end)
unfolding read_param_bytes length_at ntohs load
read_past_end_test = refl

peek_test : peek_next_param_size little reader ≡ ok 2
unfolding peek_next_param_size length_at ntohs load
peek_test = refl

c_string_test :
    add_c_string little (Builder.new 1) (104 ∷ 105 ∷ 0 ∷ 33 ∷ [])
    ≡ ok (record { payload = record { op_code = 1; parameters = 0 ∷ 2 ∷ 104 ∷ 105 ∷ [] } })
unfolding add_c_string until_nul add_param Builder.new image htons
c_string_test = refl

read_params-add_params_example :
    (b : PayloadBuilder) × (done : PayloadReader) × (add_params little (Builder.new 7) two ≡ ok b)
    × ((build b).op_code ≡ 7)
    × (read_params big 2 (Reader.new (build b)) ≡ (ok two, done))
    × (has_more done ≡ false)
read_params-add_params_example =
    read_params-add_params little big 7 two (omega arith, (omega arith, tt))

read_param_bytes-Outcome_example :
    Outcome reader (read_param_bytes little reader).0 (read_param_bytes little reader).1
read_param_bytes-Outcome_example = read_param_bytes-Outcome little reader (
  omega arith,
  (omega arith, (omega arith, (omega arith, (omega arith, (omega arith, (omega arith, tt)))))),
)

read_scalar-scalar_bytes_example :
    read_scalar big uint64 (reader_at [] (frame (scalar_bytes little uint64 513) ++ []))
    ≡ (ok 513, reader_at ([] ++ frame (scalar_bytes little uint64 513)) [])
read_scalar-scalar_bytes_example =
    read_scalar-scalar_bytes little big uint64 513 [] [] tt (omega arith)

read_scalar_floating_example :
    (read_scalar big float (reader_at [] (frame (scalar_bytes little float 0x3f800000) ++ []))).0
    ≡ ok (if same_order little big then 0x3f800000 else swap_bytes 4 0x3f800000)
read_scalar_floating_example =
    read_scalar_floating little big float 0x3f800000 [] [] tt (omega arith)
