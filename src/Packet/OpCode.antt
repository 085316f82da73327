-- ===== src/Packet/OpCode.antt =====
-- The default reserved operation codes, namespace OpCode of include/obscuraproto/packet.hpp.
use obscura_proto.Common.{ℕ}

abbrev pub response : ℕ
response = 0xFFFF

abbrev pub stream_start : ℕ
stream_start = 0xFFFD

abbrev pub stream_data : ℕ
stream_data = 0xFFFC

abbrev pub stream_end : ℕ
stream_end = 0xFFFB

abbrev pub stream_cancel : ℕ
stream_cancel = 0xFFFA
