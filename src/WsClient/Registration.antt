-- ===== src/WsClient/Registration.antt =====
-- The methods register_... and set_... of WsClientWrapper of src/ws_client.cpp.
use obscura_proto.Common.{ℕ, Bool}
use obscura_proto.Packet.{Payload}
use obscura_proto.Packet.Reader.{PayloadReader}
use obscura_proto.Stream.{Stream}
use obscura_proto.Handlers.{
  Callback, with_request_handler, with_op_handler, with_stream_handler, with_default_handler,
}
use obscura_proto.WsClient.State.{Client}

unfoldable pub register_stream_handler : ℕ → Callback Stream Stream → Client → Client
unfolding with_stream_handler
register_stream_handler op f c = record c { handlers = with_stream_handler op f c.handlers }

unfoldable pub register_incoming_stream_handler : Callback Stream Stream → Client → Client
register_incoming_stream_handler f c = record c { incoming_stream_handler = f }

unfoldable pub register_op_handler : ℕ → Callback (Unit {0} × Payload) (Unit {0}) → Client → Client
unfolding with_op_handler
register_op_handler op f c = record c { handlers = with_op_handler op f c.handlers }

unfoldable pub register_request_handler :
    ℕ → Callback (Unit {0} × PayloadReader) Payload → Client → Client
unfolding with_request_handler
register_request_handler op f c = record c { handlers = with_request_handler op f c.handlers }

unfoldable pub set_default_payload_handler :
    Callback (Unit {0} × Payload) (Unit {0}) → Client → Client
unfolding with_default_handler
set_default_payload_handler f c = record c { handlers = with_default_handler f c.handlers }

-- Whether a callback is set: what it does is not seen by the client.
unfoldable pub set_on_ready_callback : Bool → Client → Client
set_on_ready_callback is_set c = record c { on_ready_callback = is_set }

unfoldable pub set_on_disconnect_callback : Bool → Client → Client
set_on_disconnect_callback is_set c = record c { on_disconnect_callback = is_set }
