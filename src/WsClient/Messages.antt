-- ===== src/WsClient/Messages.antt =====
-- on_open and on_message of WsClientWrapper of src/ws_client.cpp: the handshake, and the packets
-- behind it. An exception is logged and the client disconnects from its own io thread.
use obscura_proto.Common.{ℕ, List, true, ◌&&◌, Option, none, some, ◌==◌, if◌then◌else◌, erase}
use obscura_proto.Errors.{Result, ok, err}
use obscura_proto.Endian.{Host}
use obscura_proto.Packet.{Payload}
use obscura_proto.Packet.Builder.{uint32}
use obscura_proto.Packet.Reader
use obscura_proto.Packet.Reader.{PayloadReader, read_scalar, read_param_bytes}
use obscura_proto.Handshake.{
  KeyPair, ClientHello, ServerHello, serialize_client, deserialize_server,
}
use obscura_proto.Crypto.Libsodium.{Sodium}
use obscura_proto.Session.{
  Session, set_client_identity_key, client_initiate_handshake, client_finalize_handshake,
  decrypt_packet,
}
use obscura_proto.Stream
use obscura_proto.Stream.{Stream, data_event, end_event, cancel_event}
use obscura_proto.Handlers.{
  Call, Answer, finished, respond, dispatch_payload, choose_stream_handler, call_stream_handler,
}
use obscura_proto.WsServer.Messages.{read_response}
use obscura_proto.WsServer.Packets.{is_too_large}
use obscura_proto.WsServer.Messaging.{is_stream_code, read_stream_code, event_calls}
use obscura_proto.WsClient.Requests.{receive_response}
use obscura_proto.WsClient.State.{
  Client, frame_sent, ready_called, emit, log_calls, disconnect, put_stream,
}
use obscura_proto.WsClient.Sending.{send_response}

module _ (sodium : Sodium) (h : Host) where
  -- An exception that on_open or on_message catches.
  unfoldable pub caught : Result (Unit {0}) × Client → Client
  caught (ok _, c) = c
  caught (err e, c) = disconnect true c

  -- `taken` is what websocketpp does with the ClientHello: it may throw.
  unfoldable pub send_hello :
      Result (Unit {0}) → Result ClientHello × Session → Client → Result (Unit {0}) × Client
  send_hello taken (err e, x) c = (err e, record c { session = x })
  send_hello (err e) (ok hello, x) c = (err e, record c { session = x })
  send_hello (ok _) (ok hello, x) c =
      (ok tt, emit (frame_sent (serialize_client h hello)) (record c { session = x }))

  unfoldable pub initiate :
      KeyPair
      → Result (Unit {0})
      → Result (Unit {0}) × Session
      → Client
      → Result (Unit {0}) × Client
  unfolding send_hello
  initiate fresh taken (err e, x) c = (err e, record c { session = x })
  initiate fresh taken (ok _, x) c = send_hello taken (client_initiate_handshake sodium fresh x) c

  abbrev pub with_identity : Option KeyPair → Session → Result (Unit {0}) × Session
  with_identity none x = (ok tt, x)
  with_identity (some kp) x = set_client_identity_key kp x

  unfoldable pub on_open : KeyPair → Result (Unit {0}) → ℕ → Client → Client
  unfolding initiate caught
  on_open fresh taken hdl c =
      let c' = record c { connection_hdl = hdl; is_connected = true } in
      caught (initiate fresh taken (with_identity c.client_identity_kp c.session) c')

  unfoldable pub after_finalize : Result (Unit {0}) × Session → Client → Result (Unit {0}) × Client
  after_finalize (err e, x) c = (err e, record c { session = x })
  after_finalize (ok _, x) c =
      let c' = record c { session = x } in
      (ok tt, if x.handshake_complete && c.on_ready_callback then emit ready_called c' else c')

  unfoldable pub receive_hello : Result ServerHello → Client → Result (Unit {0}) × Client
  unfolding after_finalize
  receive_hello (err e) c = (err e, c)
  receive_hello (ok hello) c = after_finalize (client_finalize_handshake sodium hello c.session) c

  unfoldable pub after_response : Result (ℕ × Payload) → Client → Result (Unit {0}) × Client
  after_response (err e) c = (err e, c)
  after_response (ok (id, response)) c =
      (ok tt, record c { requests = receive_response id response c.requests })

  abbrev after_stream_handler : List Call × Result Stream → Client → Result (Unit {0}) × Client
  after_stream_handler (calls, err e) c = (err e, log_calls calls c)
  after_stream_handler (calls, ok stream) c = (ok tt, put_stream stream (log_calls calls c))

  unfoldable pub accept_stream : ℕ → Result (Option ℕ) → Client → Result (Unit {0}) × Client
  unfolding put_stream
  accept_stream id (err e) c = (err e, c)
  accept_stream id (ok code) c =
      let stream = Stream.new id code in
      let chosen =
        choose_stream_handler code c.handlers.stream_handlers c.incoming_stream_handler in
      after_stream_handler (call_stream_handler chosen stream) (put_stream stream c)

  unfoldable pub receive_data : ℕ → Result (List ℕ) → Client → Result (Unit {0}) × Client
  receive_data id (err e) c = (err e, c)
  receive_data id (ok bytes) c =
      (ok tt, log_calls (event_calls id (data_event bytes) (c.active_streams id)) c)

  unfoldable pub after_stream_id :
      ℕ → Result ℕ × PayloadReader → Client → Result (Unit {0}) × Client
  unfolding accept_stream receive_data erase
  after_stream_id op (err e, r) c = (err e, c)
  after_stream_id op (ok id, r) c =
      let oc = c.config.opcodes in
      let stream = c.active_streams id in
      if op == oc.stream_start
      then accept_stream id (read_stream_code h r) c
      else if op == oc.stream_data
      then receive_data id (read_param_bytes h r).0 c
      else if op == oc.stream_end
      then (ok tt, log_calls (event_calls id end_event stream) c)
      else (
        ok tt,
        log_calls (event_calls id cancel_event stream)
            (record c { active_streams = erase (◌==◌ id) c.active_streams }),
      )

  unfoldable pub give_answer : List ℕ → Answer → Client → Result (Unit {0}) × Client
  give_answer nonce (finished result) c = (result, c)
  give_answer nonce (respond id p) c = send_response sodium h nonce id p c

  unfoldable pub process_payload : List ℕ → Payload → Client → Result (Unit {0}) × Client
  unfolding after_response after_stream_id give_answer
  process_payload nonce payload c =
      let (calls, answer) = dispatch_payload h tt payload c.handlers in
      if payload.op_code == c.config.opcodes.response
      then after_response (read_response h payload) c
      else if is_stream_code c.config.opcodes payload.op_code
      then after_stream_id payload.op_code (read_scalar h uint32 (Reader.new payload)) c
      else give_answer nonce answer (log_calls calls c)

  unfoldable pub after_decrypt :
      List ℕ → Result Payload × Session → Client → Result (Unit {0}) × Client
  unfolding process_payload
  after_decrypt nonce (err e, x) c = (err e, record c { session = x })
  after_decrypt nonce (ok payload, x) c =
      let c' = record c { session = x } in
      if is_too_large c.config.message_limits payload
      then (ok tt, disconnect true c')
      else process_payload nonce payload c'

  -- A binary message. Others are not looked at.
  unfoldable pub on_message : List ℕ → List ℕ → Client → Client
  unfolding caught receive_hello after_decrypt
  on_message nonce bytes c = caught (
      if c.session.handshake_complete
      then after_decrypt nonce (decrypt_packet sodium h bytes c.session) c
      else receive_hello (deserialize_server h bytes) c)
