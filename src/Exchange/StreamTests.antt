-- ===== src/Exchange/StreamTests.antt =====
-- A stream with id 5 from one machine to a server and to a client.
use obscura_proto.Common.{[], true, none}
use obscura_proto.Endian.{big}
use obscura_proto.Crypto.Toy.{toy}
use obscura_proto.RateLimiter.Tests.{whole}
use obscura_proto.Config.{initial}
use obscura_proto.Stream.{Stream, new}
use obscura_proto.WsServer.State
use obscura_proto.WsServer.State.{Server}
use obscura_proto.WsServer.Messaging.{put_stream}
use obscura_proto.WsClient.State as Clients
use obscura_proto.WsClient.State.{Client}
use obscura_proto.WsClient.Messages as Receiving
use obscura_proto.Exchange.Tests.{asker}

abbrev five : Stream
five = record (new 5 none) { on_data = true; on_cancel = true }

abbrev receiver : Server whole
receiver =
    put_stream toy whole big 2 five
      (State.new whole (record { public_key = []; private_key = [] }) initial)

abbrev listener : Client
listener = Clients.put_stream five (record asker { config = initial })
