-- ===== src/Handlers.antt =====
-- The callbacks that both wrappers of src/ws_server.cpp and src/ws_client.cpp keep, the choice
-- among them and their calls: the static function dispatch_payload of src/ws_server.cpp, and the
-- same code in on_message of src/ws_client.cpp. A callback is a function into its result or the
-- exception that it throws, and `none` is an empty std::function. What a callback itself calls on
-- the wrapper is a later call of the wrapper.
use obscura_proto.Common.{
  ℕ, ◌≡◌, refl, inl, inr, List, [], ◌∷◌, Option, none, some, ◌==◌, if◌then◌else◌, put, Bool-cases,
}
use obscura_proto.Errors.{Result, ok, err}
use obscura_proto.Endian.{Host}
use obscura_proto.Packet.{Payload}
use obscura_proto.Packet.Reader.{PayloadReader}
use obscura_proto.Stream.{Stream, Event}
use obscura_proto.WsServer.Messages.{read_request}

abbrev pub Callback : Type 0 → Type 0 → Type 0
Callback A B = Option (A → Result B)

-- A stream handler returns the stream with the handlers that it has set on it. `C` is what a
-- callback gets besides: the handle of the connection on the server, nothing on the client.
pub record Handlers (C : Type 0) : Type 0 where
  pub request_handlers : ℕ → Option (Callback (C × PayloadReader) Payload)
  pub op_code_handlers : ℕ → Option (Callback (C × Payload) (Unit {0}))
  pub default_payload_handler : Callback (C × Payload) (Unit {0})
  pub stream_handlers : ℕ → Option (Callback Stream Stream)

-- A call of a callback, as it is seen from outside.
pub data Call : Type 0 where
  request_call : PayloadReader → Call
  payload_call : Payload → Call
  default_call : Payload → Call
  stream_call : Stream → Call
  event_call : ℕ → Event → Call

-- What the wrapper does after the call: nothing, log an exception, or send a response.
pub data Answer : Type 0 where
  finished : Result (Unit {0}) → Answer
  respond : ℕ → Payload → Answer

abbrev no_call : List Call × Answer
no_call = ([], finished (ok tt))

abbrev answer_of : ℕ → Result Payload → Answer
answer_of id (err e) = finished (err e)
answer_of id (ok response) = respond id response

module _ {C : Type 0} where
  unfoldable pub call_default : Callback (C × Payload) (Unit {0}) → C → Payload → List Call × Answer
  call_default none c p = no_call
  call_default (some f) c p = (default_call p ∷ [], finished (f (c, p)))

  -- An empty handler that is registered is found, and hides the default one.
  unfoldable pub call_op :
      Option (Callback (C × Payload) (Unit {0}))
      → C
      → Payload
      → List Call × Answer
      → List Call × Answer
  call_op none c p otherwise = otherwise
  call_op (some none) c p otherwise = no_call
  call_op (some (some f)) c p otherwise = (payload_call p ∷ [], finished (f (c, p)))

  -- The id is read in front of the call, which gets the reader behind it.
  unfoldable pub call_request :
      (C × PayloadReader → Result Payload) → C → Result ℕ × PayloadReader → List Call × Answer
  call_request f c (err e, r) = ([], finished (err e))
  call_request f c (ok id, r) = (request_call r ∷ [], answer_of id (f (c, r)))

  unfoldable pub try_request :
      Option (Callback (C × PayloadReader) Payload)
      → Host
      → C
      → Payload
      → List Call × Answer
      → List Call × Answer
  unfolding call_request
  try_request none h c p otherwise = otherwise
  try_request (some none) h c p otherwise = no_call
  try_request (some (some f)) h c p otherwise = call_request f c (read_request h p)

  unfoldable pub dispatch_payload : Host → C → Payload → Handlers C → List Call × Answer
  unfolding try_request call_op call_default
  dispatch_payload h c p hs =
      try_request (hs.request_handlers p.op_code) h c p
        (call_op (hs.op_code_handlers p.op_code) c p (call_default hs.default_payload_handler c p))

-- The handler of a stream that a peer starts: that of its operation code, if one is registered,
-- else the general one.
unfoldable pub registered_or :
    Option (Callback Stream Stream) → Callback Stream Stream → Callback Stream Stream
registered_or none incoming = incoming
registered_or (some found) incoming = found

unfoldable pub choose_stream_handler :
    Option ℕ
    → (ℕ → Option (Callback Stream Stream))
    → Callback Stream Stream
    → Callback Stream Stream
unfolding registered_or
choose_stream_handler none stream_handlers incoming = incoming
choose_stream_handler (some op) stream_handlers incoming =
    registered_or (stream_handlers op) incoming

-- The stream as its handler leaves it.
unfoldable pub call_stream_handler : Callback Stream Stream → Stream → List Call × Result Stream
call_stream_handler none stream = ([], ok stream)
call_stream_handler (some f) stream = (stream_call stream ∷ [], f stream)

-- The registrations: op_code_handlers_[op_code] = callback, and the like.
module _ {C : Type 0} where
  unfoldable pub with_request_handler :
      ℕ → Callback (C × PayloadReader) Payload → Handlers C → Handlers C
  unfolding put
  with_request_handler op callback hs = record hs {
    request_handlers = put (◌==◌ op) callback hs.request_handlers;
  }

  unfoldable pub with_op_handler : ℕ → Callback (C × Payload) (Unit {0}) → Handlers C → Handlers C
  unfolding put
  with_op_handler op callback hs = record hs {
    op_code_handlers = put (◌==◌ op) callback hs.op_code_handlers;
  }

  unfoldable pub with_stream_handler : ℕ → Callback Stream Stream → Handlers C → Handlers C
  unfolding put
  with_stream_handler op callback hs = record hs {
    stream_handlers = put (◌==◌ op) callback hs.stream_handlers;
  }

  unfoldable pub with_default_handler : Callback (C × Payload) (Unit {0}) → Handlers C → Handlers C
  with_default_handler callback hs = record hs { default_payload_handler = callback }

  -- Registering a handler for an operation code changes what happens to the payloads of that code
  -- and to no others. A request handler takes them first, also when a handler for the code is
  -- registered after it; a handler for the code comes next, and the default handler last.
  pub dispatch-registered :
      (h : Host) (c : C) (op : ℕ) (p : Payload) (hs : Handlers C)
      (on_request : Callback (C × PayloadReader) Payload)
      (on_payload : Callback (C × Payload) (Unit {0}))
      → (dispatch_payload h c p (with_op_handler op on_payload hs) ≡ (
          if op == p.op_code
          then try_request
              (hs.request_handlers p.op_code)
              h
              c
              p
              (call_op (some on_payload) c p (call_default hs.default_payload_handler c p))
          else dispatch_payload h c p hs))
        × (dispatch_payload h c p
              (with_op_handler op on_payload (with_request_handler op on_request hs))
            ≡ (if op == p.op_code
                then try_request
                    (some on_request)
                    h
                    c
                    p
                    (call_op (some on_payload) c p (call_default hs.default_payload_handler c p))
                else dispatch_payload h c p hs))
  unfolding dispatch_payload with_op_handler with_request_handler
  dispatch-registered h c op p hs on_request on_payload = elim (Bool-cases (op == p.op_code)) [
    | inl this ↦ rw this (refl, refl)
    | inr other ↦ rw other (refl, refl)
  ]
