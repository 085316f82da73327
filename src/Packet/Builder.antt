-- ===== src/Packet/Builder.antt =====
-- PayloadBuilder of src/packet.cpp. The overloads of add_param for the arithmetic types are
-- `add_scalar`, with a constructor of `Scalar` for each type; a value is its bit pattern.
use obscura_proto.Common.{ℕ, ◌^◌, ◌%◌, List, [], ◌∷◌, ◌++◌, ltb, ◌==◌, if◌then◌else◌, length}
use obscura_proto.Errors.{Result, ok, err, runtime_error}
use obscura_proto.Endian.{Host, image, htons, htonl, htonll_local}
use obscura_proto.Packet.{Payload}

pub record PayloadBuilder : Type 0 where
  pub payload : Payload

unfoldable pub new : ℕ → PayloadBuilder
new op_code = record { payload = record { op_code = op_code; parameters = [] } }

-- The length goes in front of the parameter, in two bytes.
unfoldable pub add_param : Host → PayloadBuilder → List ℕ → Result PayloadBuilder
add_param h b param =
    if ltb 65535 (length param)
    then err (runtime_error "Parameter size exceeds maximum of 65535 bytes.")
    else let len = length param % 2 ^ 16 in
      let old = b.payload in
      ok (record {
        payload = record old { parameters = old.parameters ++ (image h 2 (htons h len) ++ param) };
      })

-- `std::string(const char*)` takes the characters up to the first zero.
unfoldable pub until_nul : List ℕ → List ℕ
until_nul [] = []
until_nul (c ∷ cs) = if c == 0 then [] else c ∷ until_nul cs

unfoldable pub add_c_string : Host → PayloadBuilder → List ℕ → Result PayloadBuilder
add_c_string h b chars = add_param h b (until_nul chars)

-- The types that add_param and read_param are called with.
pub data Scalar : Type 0 where
  bool int8 uint8 int16 uint16 int32 uint32 int64 uint64 float double : Scalar

abbrev pub sizeof : Scalar → ℕ
sizeof bool = 1
sizeof int8 = 1
sizeof uint8 = 1
sizeof int16 = 2
sizeof uint16 = 2
sizeof int32 = 4
sizeof uint32 = 4
sizeof int64 = 8
sizeof uint64 = 8
sizeof float = 4
sizeof double = 8

-- What each overload of add_param hands to add_param(const byte_vector&).
unfoldable pub scalar_bytes : Host → Scalar → ℕ → List ℕ
scalar_bytes h bool v = (if v == 0 then 0 else 1) ∷ []
scalar_bytes h int8 v = v ∷ []
scalar_bytes h uint8 v = v ∷ []
scalar_bytes h int16 v = image h 2 (htons h v)
scalar_bytes h uint16 v = image h 2 (htons h v)
scalar_bytes h int32 v = image h 4 (htonl h v)
scalar_bytes h uint32 v = image h 4 (htonl h v)
scalar_bytes h int64 v = image h 8 (htonll_local h v)
scalar_bytes h uint64 v = image h 8 (htonll_local h v)
scalar_bytes h float v = image h 4 v
scalar_bytes h double v = image h 8 v

unfoldable pub add_scalar : Host → PayloadBuilder → Scalar → ℕ → Result PayloadBuilder
add_scalar h b t v = add_param h b (scalar_bytes h t v)

unfoldable pub build : PayloadBuilder → Payload
build b = b.payload
