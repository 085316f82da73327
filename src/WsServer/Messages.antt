-- ===== src/WsServer/Messages.antt =====
-- The payloads of the request and response mechanism: async_request and send_response of
-- WsServerWrapper write them, on_message and dispatch_payload of the other side read them. The
-- client's methods in src/ws_client.cpp build the same bytes.
use obscura_proto.Common.{
  ℕ, ◌+◌, ◌<◌, ◌≡◌, refl, List, [], ◌++◌, arith, length, length-append, append-nil,
}
use obscura_proto.Common.Words.{IsU16, IsU32}
use obscura_proto.Errors.{Result, ok, ◌>>=◌}
use obscura_proto.Endian.{Host}
use obscura_proto.Endian.Laws.{be_bytes, length-be_bytes}
use obscura_proto.Packet.{Payload, serialize, deserialize}
use obscura_proto.Packet.Builder
use obscura_proto.Packet.Builder.{
  PayloadBuilder, add_param, add_scalar, scalar_bytes, uint32, build,
}
use obscura_proto.Packet.Reader
use obscura_proto.Packet.Reader.{PayloadReader, read_param_bytes, read_scalar}
use obscura_proto.Packet.Framing.{frame, extend, reader_at, add_param-frame, read_param_bytes-frame}
use obscura_proto.Packet.RoundTrip.{serialize-bytes, deserialize-serialize}
use obscura_proto.Packet.Scalars.{scalar_bytes-be_bytes, read_scalar-scalar_bytes}

-- The payload that async_request sends: the id as a parameter in front of the others.
unfoldable pub request_payload : Host → ℕ → Payload → Result Payload
request_payload h request_id payload = do
  id_builder ← add_scalar h (Builder.new 0) uint32 request_id
  ok (record {
    op_code = payload.op_code;
    parameters = (build id_builder).parameters ++ payload.parameters;
  })

-- The payload that send_response sends.
unfoldable pub response_payload : Host → ℕ → ℕ → Payload → Result Payload
response_payload h response_code request_id payload = do
  with_id ← add_scalar h (Builder.new response_code) uint32 request_id
  with_body ← add_param h with_id (serialize h payload)
  ok (build with_body)

-- What dispatch_payload reads of a request before it calls the handler: the id, and the reader
-- that the handler gets.
unfoldable pub read_request : Host → Payload → Result ℕ × PayloadReader
read_request h payload = read_scalar h uint32 (Reader.new payload)

abbrev then_body : Host → Result ℕ × PayloadReader → Result (ℕ × Payload)
then_body h (id, r) = do
  request_id ← id
  response_bytes ← (read_param_bytes h r).0
  response ← deserialize h response_bytes
  ok (request_id, response)

-- What on_message reads of a response: the id and the payload in it.
unfoldable pub read_response : Host → Payload → Result (ℕ × Payload)
read_response h payload = then_body h (read_scalar h uint32 (Reader.new payload))

module _ (w r : Host) (request_id : ℕ) (small : IsU32 request_id) where
  id_bytes : scalar_bytes w uint32 request_id ≡ be_bytes 4 request_id
  id_bytes = scalar_bytes-be_bytes w uint32 request_id tt small

  id_size : length (scalar_bytes w uint32 request_id) < 65536
  id_size = rw id_bytes (omega (arith, length-be_bytes 4 request_id))

  pub add_id :
      (b : PayloadBuilder)
      → add_scalar w b uint32 request_id ≡ ok (extend b (frame (scalar_bytes w uint32 request_id)))
  unfolding add_scalar
  add_id b = add_param-frame w b (scalar_bytes w uint32 request_id) id_size

  -- Any request with a 32-bit id can be written. Its handler gets this id, and a reader that
  -- stands right in front of the parameters of the requester's payload.
  pub read_request-request_payload :
      (payload : Payload)
      → (sent : Payload) × (before : List ℕ) × (request_payload w request_id payload ≡ ok sent)
        × (sent.op_code ≡ payload.op_code)
        × (read_request r sent ≡ (ok request_id, reader_at before payload.parameters))
  unfolding request_payload read_request Builder.new Reader.new build
  read_request-request_payload payload =
      let id_param = frame (scalar_bytes w uint32 request_id) in
      (
        record { op_code = payload.op_code; parameters = id_param ++ payload.parameters },
        id_param,
        rw (add_id (Builder.new 0)) refl,
        refl,
        read_scalar-scalar_bytes w r uint32 request_id [] payload.parameters tt small,
      )

  -- A response with a 32-bit id and a payload that fits a parameter is read back by any machine
  -- with that id and that payload.
  pub read_response-response_payload :
      (response_code : ℕ) (payload : Payload)
      → IsU16 payload.op_code
      → length payload.parameters + 2 < 65536
      → (sent : Payload) × (response_payload w response_code request_id payload ≡ ok sent)
        × (sent.op_code ≡ response_code)
        × (read_response r sent ≡ ok (request_id, payload))
  unfolding response_payload read_response Builder.new Reader.new build
  read_response-response_payload response_code payload op fits =
      let id_param = frame (scalar_bytes w uint32 request_id) in
      let body = serialize w payload in
      let size : length body < 65536 = rw (serialize-bytes w payload) (
        omega (
          arith,
          length-append {0} (be_bytes 2 payload.op_code) payload.parameters,
          length-be_bytes 2 payload.op_code,
        )) in
      let second = rw append-nil at (read_param_bytes-frame r id_param body [] size) in
      (
        record { op_code = response_code; parameters = id_param ++ frame body },
        rw
            (
              add_id (Builder.new response_code),
              add_param-frame w (extend (Builder.new response_code) id_param) body size,
            )
            refl,
        refl,
        rw
            (
              read_scalar-scalar_bytes w r uint32 request_id [] (frame body) tt small,
              second,
              deserialize-serialize w r payload op,
            )
            refl,
      )
