-- ===== src/Packet/Reader.antt =====
-- PayloadReader of src/packet.cpp and include/obscuraproto/packet.hpp. A read returns its result,
-- or the exception, with the reader as the call leaves it. Offsets do not wrap: a vector is
-- shorter than 2 ^ 63.
use obscura_proto.Common.{ℕ, ◌+◌, List, Bool, ltb, ◌==◌, if◌then◌else◌, length, take, drop}
use obscura_proto.Errors.{Result, ok, err, runtime_error, ◌>>=◌, check, ◌>>◌}
use obscura_proto.Endian.{Host, load, ntohs, ntohl, ntohll_local}
use obscura_proto.Packet.{Payload}
use obscura_proto.Packet.Builder.{Scalar, int16, uint16, int32, uint32, int64, uint64, sizeof}

pub record PayloadReader : Type 0 where
  pub params_data : List ℕ
  pub offset : ℕ

unfoldable pub new : Payload → PayloadReader
new p = record { params_data = p.parameters; offset = 0 }

unfoldable pub has_more : PayloadReader → Bool
has_more r = ltb r.offset (length r.params_data)

-- The two length bytes at the offset, as an integer.
unfoldable pub length_at : Host → PayloadReader → ℕ
length_at h r = ntohs h (load h (take 2 (drop r.offset r.params_data)))

unfoldable pub peek_next_param_size : Host → PayloadReader → Result ℕ
peek_next_param_size h r =
    if ltb (length r.params_data) (r.offset + 2)
    then err (runtime_error "Invalid payload data: not enough data to read parameter length.")
    else ok (length_at h r)

-- A length that runs past the end moves the offset to the end, so that nothing more is read.
unfoldable pub read_param_bytes : Host → PayloadReader → Result (List ℕ) × PayloadReader
read_param_bytes h r =
    let size = length r.params_data in
    let len = length_at h r in
    let start = r.offset + 2 in
    if ltb size (r.offset + 2)
    then (err (runtime_error "Invalid payload data: not enough data for parameter length."), r)
    else if ltb size (start + len)
    then (
      err (runtime_error "Invalid payload data: not enough data for parameter content."),
      record r { offset = size },
    )
    else (ok (take len (drop start r.params_data)), record r { offset = start + len })

-- The conversion that read_param<T> makes of the bytes copied into a T.
unfoldable pub from_network : Host → Scalar → ℕ → ℕ
from_network h int16 v = ntohs h v
from_network h uint16 v = ntohs h v
from_network h int32 v = ntohl h v
from_network h uint32 v = ntohl h v
from_network h int64 v = ntohll_local h v
from_network h uint64 v = ntohll_local h v
from_network h _ v = v

-- read_param<T> for an arithmetic type; read_param<byte_vector> and read_param<std::string> are
-- `read_param_bytes`.
unfoldable pub read_scalar : Host → Scalar → PayloadReader → Result ℕ × PayloadReader
unfolding from_network
read_scalar h t r =
    let (vec, r') = read_param_bytes h r in
    (
      do
        bytes ← vec
        check (length bytes == sizeof t)
            (runtime_error "Invalid payload data: parameter size mismatch for the requested type.")
        ok (from_network h t (load h bytes)),
      r',
    )
