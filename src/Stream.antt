-- ===== src/Stream.antt =====
-- The class Stream of include/obscuraproto/stream.hpp and src/stream.cpp. write, end and cancel
-- return the payload that goes to the send function, or none where the exception of the builder is
-- logged and swallowed. What on_message of the wrappers reads of these is with the wrappers.
pub mod Delivery
mod Tests
use obscura_proto.Common.{
  ℕ, List, [], ◌∷◌, ◌++◌, Bool, true, false, Option, none, some, ◌==◌, if◌then◌else◌,
}
use obscura_proto.Errors.{Result, ok, err, ◌>>=◌}
use obscura_proto.Endian.{Host}
use obscura_proto.Packet.{Payload}
use obscura_proto.Packet.OpCode
use obscura_proto.Packet.Builder
use obscura_proto.Packet.Builder.{PayloadBuilder, add_param, add_scalar, uint32, build}
use obscura_proto.Packet.Reader
use obscura_proto.Packet.Reader.{PayloadReader, read_param_bytes, read_scalar}

-- The handlers are true where one is set.
pub record Stream : Type 0 where
  pub stream_id : ℕ
  pub op_code : Option ℕ
  pub on_data : Bool
  pub on_end : Bool
  pub on_cancel : Bool

unfoldable pub new : ℕ → Option ℕ → Stream
new stream_id op_code = record {
  stream_id = stream_id;
  op_code = op_code;
  on_data = false;
  on_end = false;
  on_cancel = false;
}

-- `catch (const std::exception& e)`: nothing is sent.
abbrev pub sent {ℓ} : {A : Type ℓ} → Result A → Option A
sent (ok a) = some a
sent (err e) = none

unfoldable pub write : Host → Stream → List ℕ → Option Payload
write h s bytes = sent (do
  with_id ← add_scalar h (Builder.new OpCode.stream_data) uint32 s.stream_id
  with_data ← add_param h with_id bytes
  ok (build with_data))

-- The packet of end and cancel holds the id alone.
unfoldable pub id_packet : Host → ℕ → Stream → Option Payload
id_packet h op_code s =
    sent (do with_id ← add_scalar h (Builder.new op_code) uint32 s.stream_id; ok (build with_id))

unfoldable pub end : Host → Stream → Option Payload
unfolding id_packet
end h s = id_packet h OpCode.stream_end s

unfoldable pub cancel : Host → Stream → Option Payload
unfolding id_packet
cancel h s = id_packet h OpCode.stream_cancel s

-- The handler calls of dispatch_data, dispatch_end and dispatch_cancel.
pub data Event : Type 0 where
  data_event : List ℕ → Event
  end_event cancel_event : Event

unfoldable pub dispatch : Event → Stream → List Event
dispatch (data_event bytes) s = if s.on_data then data_event bytes ∷ [] else []
dispatch end_event s = if s.on_end then end_event ∷ [] else []
dispatch cancel_event s = if s.on_cancel then cancel_event ∷ [] else []
