-- ===== src/WsServer/Registration.antt =====
-- The methods register_... and set_... of WsServerWrapper of src/ws_server.cpp.
use obscura_proto.Common.{ℕ, Bool}
use obscura_proto.Packet.{Payload}
use obscura_proto.Packet.Reader.{PayloadReader}
use obscura_proto.Handshake.{PublicKey}
use obscura_proto.RateLimiter.Floats.{Double}
use obscura_proto.Stream.{Stream}
use obscura_proto.Handlers.{
  Callback, with_request_handler, with_op_handler, with_stream_handler, with_default_handler,
}
use obscura_proto.WsServer.State.{Server}

module _ (d : Double) where
  unfoldable pub register_stream_handler : ℕ → Callback Stream Stream → Server d → Server d
  unfolding with_stream_handler
  register_stream_handler op f s = record s { handlers = with_stream_handler op f s.handlers }

  unfoldable pub register_anon_stream_handler : ℕ → Callback Stream Stream → Server d → Server d
  unfolding with_stream_handler
  register_anon_stream_handler op f s = record s {
    anon_handlers = with_stream_handler op f s.anon_handlers;
  }

  unfoldable pub register_incoming_stream_handler : Callback Stream Stream → Server d → Server d
  register_incoming_stream_handler f s = record s { incoming_stream_handler = f }

  unfoldable pub register_op_handler : ℕ → Callback (ℕ × Payload) (Unit {0}) → Server d → Server d
  unfolding with_op_handler
  register_op_handler op f s = record s { handlers = with_op_handler op f s.handlers }

  unfoldable pub register_request_handler :
      ℕ → Callback (ℕ × PayloadReader) Payload → Server d → Server d
  unfolding with_request_handler
  register_request_handler op f s = record s { handlers = with_request_handler op f s.handlers }

  unfoldable pub set_default_payload_handler :
      Callback (ℕ × Payload) (Unit {0}) → Server d → Server d
  unfolding with_default_handler
  set_default_payload_handler f s = record s { handlers = with_default_handler f s.handlers }

  unfoldable pub register_anon_op_handler :
      ℕ → Callback (ℕ × Payload) (Unit {0}) → Server d → Server d
  unfolding with_op_handler
  register_anon_op_handler op f s = record s {
    anon_handlers = with_op_handler op f s.anon_handlers;
  }

  unfoldable pub register_anon_request_handler :
      ℕ → Callback (ℕ × PayloadReader) Payload → Server d → Server d
  unfolding with_request_handler
  register_anon_request_handler op f s = record s {
    anon_handlers = with_request_handler op f s.anon_handlers;
  }

  unfoldable pub set_anon_default_payload_handler :
      Callback (ℕ × Payload) (Unit {0}) → Server d → Server d
  unfolding with_default_handler
  set_anon_default_payload_handler f s = record s {
    anon_handlers = with_default_handler f s.anon_handlers;
  }

  unfoldable pub set_client_identity_handler : Callback (ℕ × PublicKey) Bool → Server d → Server d
  set_client_identity_handler f s = record s { client_identity_handler = f }

  -- Whether a callback is set: what it does is not seen by the server.
  unfoldable pub set_on_open_callback : Bool → Server d → Server d
  set_on_open_callback is_set s = record s { on_open_callback = is_set }

  unfoldable pub set_on_close_callback : Bool → Server d → Server d
  set_on_close_callback is_set s = record s { on_close_callback = is_set }
