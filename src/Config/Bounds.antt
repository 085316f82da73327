-- ===== src/Config/Bounds.antt =====
-- The widths of the numbers of a configuration, uint32_t and uint16_t in
-- include/obscuraproto/config.hpp.
use obscura_proto.Common.Words.{IsU16, IsU32}
use obscura_proto.RateLimiter.{RateLimitConfig}
use obscura_proto.Config.{
  ConnectionLimitConfig, MessageLimitConfig, TimeoutConfig, ReservedOpcodes, Config,
}

pub record IsRate (c : RateLimitConfig) : Type 0 where
  pub messages : IsU32 c.messages_per_second
  pub burst : IsU32 c.burst_size
  pub handshakes : IsU32 c.handshake_attempts_per_minute
  pub connections : IsU32 c.connections_per_minute

pub record IsConnection (c : ConnectionLimitConfig) : Type 0 where
  pub per_ip : IsU32 c.max_per_ip
  pub total : IsU32 c.max_total

pub record IsMessage (c : MessageLimitConfig) : Type 0 where
  pub frame : IsU32 c.max_ws_frame_size
  pub payload : IsU32 c.max_decrypted_payload

pub record IsTimeout (c : TimeoutConfig) : Type 0 where
  pub handshake : IsU32 c.handshake_ms
  pub idle : IsU32 c.idle_ms
  pub check : IsU32 c.check_interval_ms
  pub request : IsU32 c.request_ms

pub record IsOpcodes (c : ReservedOpcodes) : Type 0 where
  pub response : IsU16 c.response
  pub stream_start : IsU16 c.stream_start
  pub stream_data : IsU16 c.stream_data
  pub stream_end : IsU16 c.stream_end
  pub stream_cancel : IsU16 c.stream_cancel

pub record IsInRange (c : Config) : Type 0 where
  pub rate : IsRate c.rate_limit
  pub connection : IsConnection c.connection_limits
  pub message : IsMessage c.message_limits
  pub timeout : IsTimeout c.timeouts
  pub opcodes : IsOpcodes c.opcodes
