-- ===== src/Exchange/Streaming.antt =====
-- A stream of Stream of src/stream.cpp from one machine to the other: what write, end and cancel of
-- one side send is what on_message of WsServerWrapper of src/ws_server.cpp and of WsClientWrapper of
-- src/ws_client.cpp does on the other side.
use obscura_proto.Common.{ℕ, ◌<◌, ◌≡◌, refl, List, [], length, append-nil}
use obscura_proto.Common.Words.{IsU32}
use obscura_proto.Errors.{ok}
use obscura_proto.Endian.{Host}
use obscura_proto.Packet.OpCode
use obscura_proto.Packet.Reader
use obscura_proto.Packet.Reader.{read_param_bytes}
use obscura_proto.Packet.Framing.{frame, reader_at, read_param_bytes-frame}
use obscura_proto.Crypto.Libsodium.{Sodium}
use obscura_proto.RateLimiter.Floats.{Double}
use obscura_proto.Handlers.{Call}
use obscura_proto.Stream.{Stream, Event}
use obscura_proto.Stream.Delivery.{id_frame}
use obscura_proto.WsServer.State.{Server}
use obscura_proto.WsServer.Messaging.{event_calls}
use obscura_proto.WsClient.State as Clients
use obscura_proto.WsClient.State.{Client}
use obscura_proto.WsClient.Messages as Receiving

module _ (sodium : Sodium) (w r : Host) (nonce : List ℕ) (stream : Stream)
    (small : IsU32 stream.stream_id) (bytes : List ℕ) (fits : length bytes < 65536) where
  read_bytes : (read_param_bytes r (reader_at (id_frame w stream small) (frame bytes))).0 ≡ ok bytes
  read_bytes =
      let both =
        rw append-nil at (read_param_bytes-frame r (id_frame w stream small) bytes [] fits) in
      rw both refl

  -- The calls of the receiver's stream of the same id for an event.
  abbrev calls_on : (d : Double) → ℕ → Server d → Event → List Call
  calls_on d hdl s event =
      event_calls stream.stream_id event (s.per_connection_streams hdl stream.stream_id)

  abbrev calls_of : Client → Event → List Call
  calls_of c event = event_calls stream.stream_id event (c.active_streams stream.stream_id)
