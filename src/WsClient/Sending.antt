-- ===== src/WsClient/Sending.antt =====
-- send, async_request, send_response and start_stream of WsClientWrapper of src/ws_client.cpp.
-- What websocketpp does with a frame is not seen: its exceptions are caught in send.
use obscura_proto.Common.{ℕ, ◌+◌, ◌%◌, ◌^◌, List, ◌&&◌, none, some, ltb, if◌then◌else◌}
use obscura_proto.Errors.{Result, ok, err, logic_error}
use obscura_proto.Endian.{Host}
use obscura_proto.Packet.{Payload}
use obscura_proto.Crypto.Libsodium.{Sodium}
use obscura_proto.Session.{Session, encrypt_payload}
use obscura_proto.Stream
use obscura_proto.Stream.{Stream}
use obscura_proto.WsServer.Requests.{resolve_request_timeout}
use obscura_proto.WsServer.Messages.{request_payload, response_payload}
use obscura_proto.WsServer.Packets.{is_too_large}
use obscura_proto.WsServer.Sending.{has_stream_op_code, stream_start_payload}
use obscura_proto.WsClient.Requests.{register_request, send_failed}
use obscura_proto.WsClient.State.{
  Client, frame_sent, emit, ensure_watchdog, outgoing_stream_id, put_stream,
}

module _ (sodium : Sodium) (h : Host) where
  unfoldable pub after_encrypt : Result (List ℕ) × Session → Client → Client
  after_encrypt (ok packet, x) c = emit (frame_sent packet) (record c { session = x })
  after_encrypt (err e, x) c = record c { session = x }

  unfoldable pub send : List ℕ → Payload → Client → Result (Unit {0}) × Client
  unfolding after_encrypt
  send nonce payload c =
      if c.is_connected && c.session.handshake_complete
      then if is_too_large c.config.message_limits payload
        then (err (logic_error "Payload exceeds max_decrypted_payload limit."), c)
        else (ok tt, after_encrypt (encrypt_payload sodium h nonce payload c.session) c)
      else (err (logic_error "Session not ready for sending data."), c)

  abbrev pub send_built : List ℕ → Result Payload → Client → Result (Unit {0}) × Client
  send_built nonce (err e) c = (err e, c)
  send_built nonce (ok payload) c = send nonce payload c

  unfoldable pub send_response : List ℕ → ℕ → Payload → Client → Result (Unit {0}) × Client
  unfolding send
  send_response nonce request_id payload c =
      send_built nonce (response_payload h c.config.opcodes.response request_id payload) c

  unfoldable pub after_request : ℕ → ℕ → Result (Unit {0}) × Client → Result ℕ × Client
  after_request id promise (ok _, c) = (ok promise, c)
  after_request id promise (err e, c) = (err e, record c { requests = send_failed id e c.requests })

  unfoldable pub request_built : List ℕ → ℕ → ℕ → Result Payload → Client → Result ℕ × Client
  unfolding after_request send ensure_watchdog
  request_built nonce now_ms timeout (err e) c = (
    err e,
    record c {
      requests = record c.requests { next_request_id = (c.requests.next_request_id + 1) % 2 ^ 32 };
    },
  )
  request_built nonce now_ms timeout (ok payload) c =
      let (id, requests) = register_request now_ms timeout c.requests in
      let c' = record c { requests = requests } in
      after_request id c.requests.promises_made
        (send nonce payload (if ltb 0 timeout then ensure_watchdog c' else c'))

  -- The future is named as its promise is.
  unfoldable pub async_request : List ℕ → ℕ → ℕ → Payload → Client → Result ℕ × Client
  unfolding request_built
  async_request nonce now_ms timeout_ms payload c =
      let timeout =
        resolve_request_timeout c.config.timeouts.enabled c.config.timeouts.request_ms timeout_ms in
      if c.is_connected && c.session.handshake_complete
      then request_built nonce now_ms timeout (request_payload h c.requests.next_request_id payload)
          c
      else (err (logic_error "Session not ready for sending requests."), c)

  abbrev pub with_stream : Stream → Result (Unit {0}) × Client → Result Stream × Client
  with_stream stream (ok _, c) = (ok stream, c)
  with_stream stream (err e, c) = (err e, c)

  unfoldable pub open_stream : Stream → Client → Client
  unfolding put_stream
  open_stream stream c = record (put_stream stream c) {
    next_outgoing_stream_id = (c.next_outgoing_stream_id + 1) % 2 ^ 32;
  }

  unfoldable pub start_stream : List ℕ → Client → Result Stream × Client
  unfolding send open_stream
  start_stream nonce c =
      let stream = Stream.new (outgoing_stream_id c) none in
      with_stream stream (
        send_built nonce
          (stream_start_payload h c.config.opcodes.stream_start stream.stream_id none)
          (open_stream stream c))

  unfoldable pub start_stream_with : List ℕ → ℕ → Client → Result Stream × Client
  unfolding send open_stream
  start_stream_with nonce op_code c =
      let stream = Stream.new (outgoing_stream_id c) (some op_code) in
      let code = if has_stream_op_code c.session.selected_version then some op_code else none in
      with_stream stream (
        send_built nonce
          (stream_start_payload h c.config.opcodes.stream_start stream.stream_id code)
          (open_stream stream c))
