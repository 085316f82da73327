-- ===== src/WsServer/Sending.antt =====
-- send, send_anonymous, send_response, async_request, sync_request, start_stream and the methods
-- to identities of WsServerWrapper of src/ws_server.cpp. The nonce that libsodium draws and the
-- time are arguments. What websocketpp does with a frame is not seen: its exceptions are caught in
-- send. A future is named as its promise is.
use obscura_proto.Common.{
  ℕ, ◌+◌, ◌*◌, ◌%◌, ◌^◌, List, String, Bool, true, false, Option, none, some, leb, ◌==◌,
  if◌then◌else◌, put,
}
use obscura_proto.Common.Maps.{find}
use obscura_proto.Errors.{Result, ok, err, logic_error, timeout_error, ◌>>=◌}
use obscura_proto.Endian.{Host}
use obscura_proto.Packet.{Payload}
use obscura_proto.Packet.Builder
use obscura_proto.Packet.Builder.{add_scalar, uint16, uint32, build}
use obscura_proto.Version.{v1_1}
use obscura_proto.Handshake.{PublicKey}
use obscura_proto.Crypto.Libsodium.{Sodium}
use obscura_proto.Session.{Session, encrypt_payload}
use obscura_proto.RateLimiter.Floats.{Double}
use obscura_proto.Stream
use obscura_proto.Stream.{Stream}
use obscura_proto.WsServer.Requests.{
  Completion, value, exception, broken_promise, resolve_request_timeout, register_request,
  send_failed,
}
use obscura_proto.WsServer.Messages.{request_payload, response_payload}
use obscura_proto.WsServer.Identities.{find_identity}
use obscura_proto.WsServer.Packets.{ConnectionState}
use obscura_proto.WsServer.State.{
  Server, Table, anonymous, frame_sent, emit, store, find_ready, find_known,
}

-- get of a future whose promise is completed.
unfoldable pub get : Completion → Result Payload
get (value p) = ok p
get (exception e) = err e
get broken_promise = err (logic_error "broken promise")

-- sync_request behind async_request: the completion is `none` if there is none in the time that
-- wait_for allows. Without a timeout the wait ends with a completion only.
unfoldable pub await : ℕ → Option Completion → Option (Result Payload)
unfolding get
await effective_timeout (some c) = some (get c)
await effective_timeout none =
    if effective_timeout == 0 then none else some (err (timeout_error "Request timed out"))

-- The payload that announces a stream. The operation code goes along from version 1.1 on.
abbrev pub has_stream_op_code : Option ℕ → Bool
has_stream_op_code none = false
has_stream_op_code (some version) = leb v1_1 version

unfoldable pub stream_start_payload : Host → ℕ → ℕ → Option ℕ → Result Payload
stream_start_payload h start_code stream_id none = do
  with_id ← add_scalar h (Builder.new start_code) uint32 stream_id
  ok (build with_id)
stream_start_payload h start_code stream_id (some op_code) = do
  with_id ← add_scalar h (Builder.new start_code) uint32 stream_id
  with_code ← add_scalar h with_id uint16 op_code
  ok (build with_code)

module _ (sodium : Sodium) (d : Double) (h : Host) where
  unfoldable pub after_encrypt :
      ℕ → Table → ConnectionState → Result (List ℕ) × Session → Server d → Server d
  after_encrypt hdl t c (ok packet, x) s =
      emit d (frame_sent hdl packet) (store d t hdl (record c { session = x }) s)
  after_encrypt hdl t c (err e, x) s = store d t hdl (record c { session = x }) s

  unfoldable pub send_on :
      List ℕ
      → ℕ
      → Payload
      → String
      → Option (Table × ConnectionState)
      → Server d
      → Result (Unit {0}) × Server d
  unfolding after_encrypt
  send_on nonce hdl payload message none s = (err (logic_error message), s)
  send_on nonce hdl payload message (some (t, c)) s =
      (ok tt, after_encrypt hdl t c (encrypt_payload sodium h nonce payload c.session) s)

  unfoldable pub send : List ℕ → ℕ → Payload → Server d → Result (Unit {0}) × Server d
  unfolding send_on find_ready
  send nonce hdl payload s =
      send_on nonce hdl payload "Session not ready for sending data." (find_ready d hdl s) s

  abbrev pub anonymous_ready : Option ConnectionState → Option (Table × ConnectionState)
  anonymous_ready none = none
  anonymous_ready (some c) = if c.session.handshake_complete then some (anonymous, c) else none

  unfoldable pub send_anonymous : List ℕ → ℕ → Payload → Server d → Result (Unit {0}) × Server d
  unfolding send_on
  send_anonymous nonce hdl payload s =
      send_on nonce hdl payload "Anonymous session not ready for sending data."
        (anonymous_ready (find hdl s.anon_sessions)) s

  abbrev pub send_built :
      List ℕ
      → ℕ
      → (List ℕ → ℕ → Payload → Server d → Result (Unit {0}) × Server d)
      → Result Payload
      → Server d
      → Result (Unit {0}) × Server d
  send_built nonce hdl by (err e) s = (err e, s)
  send_built nonce hdl by (ok payload) s = by nonce hdl payload s

  unfoldable pub send_response : List ℕ → ℕ → ℕ → Payload → Server d → Result (Unit {0}) × Server d
  unfolding send
  send_response nonce hdl request_id payload s =
      send_built nonce hdl send (response_payload h s.config.opcodes.response request_id payload) s

  -- The response of dispatch_payload on an anonymous session.
  unfoldable pub send_anonymous_response :
      List ℕ → ℕ → ℕ → Payload → Server d → Result (Unit {0}) × Server d
  unfolding send_anonymous
  send_anonymous_response nonce hdl request_id payload s =
      send_built nonce hdl send_anonymous
        (response_payload h s.config.opcodes.response request_id payload) s

  -- What is left of async_request when send has returned or thrown.
  unfoldable pub after_request : ℕ → ℕ → ℕ → Result (Unit {0}) × Server d → Result ℕ × Server d
  after_request hdl id promise (ok _, s) = (ok promise, s)
  after_request hdl id promise (err e, s) =
      (err e, record s { requests = send_failed hdl id e s.requests })

  unfoldable pub request_built :
      List ℕ → ℕ → ℕ → ℕ → Result Payload → Server d → Result ℕ × Server d
  unfolding after_request send
  request_built nonce now_ms hdl timeout (err e) s = (
    err e,
    record s {
      requests = record s.requests { next_request_id = (s.requests.next_request_id + 1) % 2 ^ 32 };
    },
  )
  request_built nonce now_ms hdl timeout (ok payload) s =
      let (id, requests) = register_request now_ms hdl timeout s.requests in
      after_request hdl id s.requests.promises_made
        (send nonce hdl payload (record s { requests = requests }))

  abbrev pub is_ready : Option (Table × ConnectionState) → Bool
  is_ready none = false
  is_ready (some _) = true

  unfoldable pub async_request : List ℕ → ℕ → ℕ → ℕ → Payload → Server d → Result ℕ × Server d
  unfolding request_built find_ready
  async_request nonce now_ms timeout_ms hdl payload s =
      let timeout =
        resolve_request_timeout s.config.timeouts.enabled s.config.timeouts.request_ms timeout_ms in
      if is_ready (find_ready d hdl s)
      then request_built nonce now_ms hdl timeout
          (request_payload h s.requests.next_request_id payload) s
      else (err (logic_error "Session not ready for sending requests."), s)

  abbrev pub on_connection {ℓ} :
      {A : Type ℓ}
      → Result ℕ
      → (ℕ → Server d → Result A × Server d)
      → Server d
      → Result A × Server d
  on_connection (err e) f s = (err e, s)
  on_connection (ok hdl) f s = f hdl s

  unfoldable pub send_to_identity :
      List ℕ → PublicKey → Payload → Server d → Result (Unit {0}) × Server d
  unfolding send
  send_to_identity nonce pk payload s =
      on_connection (find_identity pk s.identities) (λ hdl. send nonce hdl payload) s

  unfoldable pub async_request_to_identity :
      List ℕ → ℕ → PublicKey → Payload → Server d → Result ℕ × Server d
  unfolding async_request
  async_request_to_identity nonce now_ms pk payload s =
      on_connection (find_identity pk s.identities)
        (λ hdl. async_request nonce now_ms 0 hdl payload) s

  abbrev pub with_stream {ℓ} : {A : Type ℓ} → A → Result (Unit {0}) × Server d → Result A × Server d
  with_stream stream (ok _, s) = (ok stream, s)
  with_stream stream (err e, s) = (err e, s)

  -- The id of the next stream: odd, in 32 bits.
  unfoldable pub outgoing_stream_id : Server d → ℕ
  outgoing_stream_id s = (s.next_outgoing_stream_id * 2 % 2 ^ 32 + 1) % 2 ^ 32

  unfoldable pub open_stream : ℕ → Stream → Server d → Server d
  unfolding put
  open_stream hdl stream s = record s {
    next_outgoing_stream_id = (s.next_outgoing_stream_id + 1) % 2 ^ 32;
    per_connection_streams = λ k.
        if hdl == k
        then put (◌==◌ stream.stream_id) stream (s.per_connection_streams k)
        else s.per_connection_streams k;
  }

  unfoldable pub start_stream : List ℕ → ℕ → Server d → Result Stream × Server d
  unfolding send open_stream
  start_stream nonce hdl s =
      let stream = Stream.new (outgoing_stream_id s) none in
      with_stream stream (
        send_built nonce hdl send
          (stream_start_payload h s.config.opcodes.stream_start stream.stream_id none)
          (open_stream hdl stream s))

  -- The session's version decides, also before its handshake is complete.
  abbrev pub start_on :
      List ℕ
      → ℕ
      → ℕ
      → Stream
      → Option (Table × ConnectionState)
      → Server d
      → Result (Unit {0}) × Server d
  start_on nonce hdl op_code stream none s =
      (err (logic_error "Session not found for this connection."), s)
  start_on nonce hdl op_code stream (some (t, c)) s =
      send_built nonce hdl send
        (stream_start_payload h s.config.opcodes.stream_start stream.stream_id
          (if has_stream_op_code c.session.selected_version then some op_code else none))
        s

  unfoldable pub start_stream_with : List ℕ → ℕ → ℕ → Server d → Result Stream × Server d
  unfolding send open_stream find_known
  start_stream_with nonce hdl op_code s =
      let stream = Stream.new (outgoing_stream_id s) (some op_code) in
      with_stream stream
        (start_on nonce hdl op_code stream (find_known d hdl s) (open_stream hdl stream s))
