-- ===== src/WsServer/PacketTests.antt =====
-- A packet of a connection whose session is the receiver of the tests of Session.
use obscura_proto.Common.{◌≡◌, ◌≢◌, refl, [], ◌∷◌, true, false}
use obscura_proto.Errors.{ok}
use obscura_proto.Endian.{big}
use obscura_proto.Crypto.Toy.{toy}
use obscura_proto.Crypto.Tests.{ping, packet}
use obscura_proto.Session.{decrypt_packet}
use obscura_proto.Session.Reach.{here}
use obscura_proto.Session.Tests.{open_at, decrypt_packet_test}
use obscura_proto.RateLimiter
use obscura_proto.RateLimiter.{RateLimitConfig, RateLimiter}
use obscura_proto.RateLimiter.Tests.{whole}
use obscura_proto.Config.{MessageLimitConfig}
use obscura_proto.WsServer.Packets.{
  ConnectionState, dispatched, is_too_large, receive_packet, dispatched_once,
}

abbrev pub unlimited : RateLimitConfig
unlimited = record {
  enabled = false;
  messages_per_second = 0;
  burst_size = 0;
  handshake_attempts_per_minute = 0;
  connections_per_minute = 0;
}

abbrev pub limits : MessageLimitConfig
limits = record { enabled = true; max_ws_frame_size = 0; max_decrypted_payload = 10 }

abbrev limiter : RateLimiter whole
limiter = RateLimiter.new whole unlimited

abbrev pub connection : ConnectionState
connection = record {
  session = open_at 4;
  rate_limiter_id = 0;
  remote_ip = 49 ∷ [];
  last_activity_ms = 0;
}

-- The connection after the packet.
abbrev later : ConnectionState
later = (receive_packet toy whole big unlimited limits 5 5 (packet 5) connection limiter).1

received_test :
    (receive_packet toy whole big unlimited limits 5 5 (packet 5) connection limiter).0
    ≡ dispatched ping
unfolding receive_packet is_too_large
received_test = rw decrypt_packet_test refl

dispatched_once_example :
    (true ≡ true)
    × ((decrypt_packet toy big (packet 5) (open_at 4)).0 ≡ ok ping)
    × (is_too_large limits ping ≡ false)
    × ((receive_packet toy whole big unlimited limits 9 9 (packet 5) later limiter).0
        ≢ dispatched ping)
dispatched_once_example =
    dispatched_once toy whole big unlimited unlimited limits limits 5 5 9 9 (packet 5) connection
      later limiter limiter ping ping received_test here
