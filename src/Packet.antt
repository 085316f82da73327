-- ===== src/Packet.antt =====
-- Payload of include/obscuraproto/packet.hpp and src/packet.cpp: what is encrypted, an operation
-- code of two bytes and the parameters behind it. PayloadBuilder and PayloadReader are the
-- children Builder and Reader. A byte_vector is a list of numbers below 256.
pub mod OpCode
pub mod Builder
pub mod Reader
pub mod Framing
pub mod RoundTrip
pub mod Reads
pub mod Scalars
mod Tests
use obscura_proto.Common.{
  ℕ, ◌+◌, ◌≡◌, refl, List, [], ◌∷◌, ◌++◌, arith, ltb, if◌then◌else◌, length, take, drop,
}
use obscura_proto.Errors.{Result, ok, err, runtime_error}
use obscura_proto.Endian.{Host, image, load, htons, ntohs}

pub record Payload : Type 0 where
  pub op_code : ℕ
  pub parameters : List ℕ

unfoldable pub serialize : Host → Payload → List ℕ
serialize h p = image h 2 (htons h p.op_code) ++ p.parameters

unfoldable pub deserialize : Host → List ℕ → Result Payload
deserialize h bytes =
    if ltb (length bytes) 2
    then err (runtime_error "Data too small to be a valid payload.")
    else ok (record { op_code = ntohs h (load h (take 2 bytes)); parameters = drop 2 bytes })
