-- ===== src/WsServer/Messaging.antt =====
-- on_message of WsServerWrapper of src/ws_server.cpp for a decrypted payload: a response, a packet
-- of a stream, or a payload for a handler. A result `err` is an exception that on_message logs.
use obscura_proto.Common.{
  ℕ, List, [], map, Bool, ◌||◌, Option, none, some, ◌==◌, if◌then◌else◌, put, erase,
}
use obscura_proto.Errors.{Result, ok, err}
use obscura_proto.Endian.{Host}
use obscura_proto.Packet.{Payload}
use obscura_proto.Packet.Builder.{uint16, uint32}
use obscura_proto.Packet.Reader
use obscura_proto.Packet.Reader.{PayloadReader, has_more, read_scalar, read_param_bytes}
use obscura_proto.Crypto.Libsodium.{Sodium}
use obscura_proto.RateLimiter.Floats.{Double}
use obscura_proto.Config.{ReservedOpcodes}
use obscura_proto.Stream
use obscura_proto.Stream.{Stream, Event, data_event, end_event, cancel_event, dispatch}
use obscura_proto.Handlers.{
  Handlers, Call, Answer, event_call, finished, respond, dispatch_payload, choose_stream_handler,
  call_stream_handler,
}
use obscura_proto.WsServer.Requests.{receive_response}
use obscura_proto.WsServer.Messages.{read_response}
use obscura_proto.WsServer.State.{Server, Table, authenticated, anonymous, log_calls}
use obscura_proto.WsServer.Sending.{send_response, send_anonymous_response}

-- The four operation codes that streams use.
unfoldable pub is_stream_code : ReservedOpcodes → ℕ → Bool
is_stream_code oc op =
    op == oc.stream_start || op == oc.stream_data || op == oc.stream_end || op == oc.stream_cancel

-- The operation code behind the id in a packet that starts a stream, if there is one.
abbrev some_code : Result ℕ → Result (Option ℕ)
some_code (err e) = err e
some_code (ok code) = ok (some code)

unfoldable pub read_stream_code : Host → PayloadReader → Result (Option ℕ)
read_stream_code h r = if has_more r then some_code (read_scalar h uint16 r).0 else ok none

-- The calls that a stream, if it is found, makes for an event.
unfoldable pub event_calls : ℕ → Event → Option Stream → List Call
event_calls id e none = []
event_calls id e (some stream) = map (event_call id) (dispatch e stream)

module _ (sodium : Sodium) (d : Double) (h : Host) where
  abbrev pub handlers_of : Table → Server d → Handlers ℕ
  handlers_of authenticated s = s.handlers
  handlers_of anonymous s = s.anon_handlers

  unfoldable pub after_response : ℕ → Result (ℕ × Payload) → Server d → Result (Unit {0}) × Server d
  after_response hdl (err e) s = (err e, s)
  after_response hdl (ok (id, response)) s =
      (ok tt, record s { requests = receive_response hdl id response s.requests })

  unfoldable pub put_stream : ℕ → Stream → Server d → Server d
  unfolding put
  put_stream hdl stream s = record s {
    per_connection_streams = λ k.
        if hdl == k
        then put (◌==◌ stream.stream_id) stream (s.per_connection_streams k)
        else s.per_connection_streams k;
  }

  unfoldable pub erase_stream : ℕ → ℕ → Server d → Server d
  unfolding erase
  erase_stream hdl id s = record s {
    per_connection_streams = λ k.
        if hdl == k
        then erase (◌==◌ id) (s.per_connection_streams k)
        else s.per_connection_streams k;
  }

  abbrev after_stream_handler :
      ℕ → List Call × Result Stream → Server d → Result (Unit {0}) × Server d
  after_stream_handler hdl (calls, err e) s = (err e, log_calls d hdl calls s)
  after_stream_handler hdl (calls, ok stream) s =
      (ok tt, put_stream hdl stream (log_calls d hdl calls s))

  unfoldable pub accept_stream :
      ℕ → Table → ℕ → Result (Option ℕ) → Server d → Result (Unit {0}) × Server d
  unfolding put_stream
  accept_stream hdl t id (err e) s = (err e, s)
  accept_stream hdl t id (ok code) s =
      let stream = Stream.new id code in
      let chosen =
        choose_stream_handler code (handlers_of t s).stream_handlers s.incoming_stream_handler in
      after_stream_handler hdl (call_stream_handler chosen stream) (put_stream hdl stream s)

  unfoldable pub receive_data : ℕ → ℕ → Result (List ℕ) → Server d → Result (Unit {0}) × Server d
  receive_data hdl id (err e) s = (err e, s)
  receive_data hdl id (ok bytes) s = (
    ok tt,
    log_calls d hdl (event_calls id (data_event bytes) (s.per_connection_streams hdl id)) s,
  )

  -- A packet of a stream, once its id is read. A cancel forgets the stream before its handler runs.
  unfoldable pub after_stream_id :
      ℕ → Table → ℕ → Result ℕ × PayloadReader → Server d → Result (Unit {0}) × Server d
  unfolding accept_stream receive_data erase_stream
  after_stream_id hdl t op (err e, r) s = (err e, s)
  after_stream_id hdl t op (ok id, r) s =
      let oc = s.config.opcodes in
      let stream = s.per_connection_streams hdl id in
      if op == oc.stream_start
      then accept_stream hdl t id (read_stream_code h r) s
      else if op == oc.stream_data
      then receive_data hdl id (read_param_bytes h r).0 s
      else if op == oc.stream_end
      then (ok tt, log_calls d hdl (event_calls id end_event stream) s)
      else (ok tt, log_calls d hdl (event_calls id cancel_event stream) (erase_stream hdl id s))

  unfoldable pub give_answer : List ℕ → ℕ → Table → Answer → Server d → Result (Unit {0}) × Server d
  give_answer nonce hdl t (finished result) s = (result, s)
  give_answer nonce hdl authenticated (respond id p) s = send_response sodium d h nonce hdl id p s
  give_answer nonce hdl anonymous (respond id p) s =
      send_anonymous_response sodium d h nonce hdl id p s

  unfoldable pub process_payload :
      List ℕ → ℕ → Table → Payload → Server d → Result (Unit {0}) × Server d
  unfolding after_response after_stream_id give_answer
  process_payload nonce hdl t payload s =
      let (calls, answer) = dispatch_payload h hdl payload (handlers_of t s) in
      if payload.op_code == s.config.opcodes.response
      then after_response hdl (read_response h payload) s
      else if is_stream_code s.config.opcodes payload.op_code
      then after_stream_id hdl t payload.op_code (read_scalar h uint32 (Reader.new payload)) s
      else give_answer nonce hdl t answer (log_calls d hdl calls s)
