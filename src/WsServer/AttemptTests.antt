-- ===== src/WsServer/AttemptTests.antt =====
-- Two messages that are too short for a hello, to a server with a limit of one handshake per minute.
use obscura_proto.Common.{ℕ, ◌≡◌, refl, [], ◌∷◌, true, none}
use obscura_proto.Common.Maps.{find}
use obscura_proto.Errors.{ok, err, runtime_error}
use obscura_proto.Endian.{little}
use obscura_proto.Handshake.{deserialize_client, read_u16, read_bytes}
use obscura_proto.Crypto.Toy.{toy}
use obscura_proto.Crypto.Agreement.{kx_pair}
use obscura_proto.RateLimiter.{check_handshake_rate}
use obscura_proto.RateLimiter.Tests.{whole}
use obscura_proto.WsServer.State.{Server, new, find_known}
use obscura_proto.WsServer.ServiceTests.{config}
use obscura_proto.WsServer.Attempts.{Attempt, receive_all, IsMalformed, malformed-uncounted}

abbrev strict : Server whole
strict =
    new whole (record { public_key = []; private_key = [] })
      (record config {
        rate_limit = record {
          enabled = true;
          messages_per_second = 0;
          burst_size = 0;
          handshake_attempts_per_minute = 1;
          connections_per_minute = 0;
        };
      })

abbrev attempt : ℕ → Attempt
attempt now = record {
  fresh = kx_pair toy [];
  nonce = [];
  now_us = now;
  now_ms = now;
  ip = 49 ∷ [];
  hdl = 3;
  taken = ok tt;
  bytes = 1 ∷ [];
}

short_test :
    deserialize_client little (1 ∷ [])
    ≡ err (runtime_error "Invalid ClientHello data: too short for version count.")
unfolding deserialize_client read_u16 read_bytes
short_test = refl

unknown_test : find_known whole 3 strict ≡ none
unfolding find_known find new
unknown_test = refl

malformed : (now : ℕ) → IsMalformed whole toy little strict (attempt now)
malformed now = (
  unknown_test,
  (runtime_error "Invalid ClientHello data: too short for version count.", short_test),
)

malformed-uncounted_example :
    (check_handshake_rate whole 9
      (49 ∷ [])
      (receive_all whole toy little (attempt 7 ∷ attempt 8 ∷ []) strict).rate_limiter).0
    ≡ (check_handshake_rate whole 9 (49 ∷ []) strict.rate_limiter).0
malformed-uncounted_example =
    malformed-uncounted whole toy little 9 (49 ∷ []) (attempt 7 ∷ attempt 8 ∷ []) strict
      (malformed 7, (malformed 8, tt))
