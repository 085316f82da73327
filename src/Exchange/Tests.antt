-- ===== src/Exchange/Tests.antt =====
-- A request and its response between a client and a server over the libsodium of Toy, whose sessions
-- are those of the tests of Session.
use obscura_proto.Common.{
  ℕ, ◌≡◌, refl, inl, List, [], ◌∷◌, true, false, Option, none, some, arith, ◌==◌, if◌then◌else◌,
}
use obscura_proto.Common.Maps.{find}
use obscura_proto.Errors.{Result, ok}
use obscura_proto.Endian.{little, big, image, htons, htonl}
use obscura_proto.Packet.{Payload, serialize}
use obscura_proto.Packet.Builder
use obscura_proto.Packet.Builder.{add_scalar, add_param, scalar_bytes, build}
use obscura_proto.Packet.Reader.{PayloadReader}
use obscura_proto.Packet.Framing.{reader_at}
use obscura_proto.Crypto.Toy.{toy, toy_laws}
use obscura_proto.Crypto.Tests.{key, nonce}
use obscura_proto.Crypto.Agreement.{kx_pair}
use obscura_proto.Session.Tests.{open_at}
use obscura_proto.Session.Channel.{Linked}
use obscura_proto.Config.{Config}
use obscura_proto.RateLimiter.Tests.{whole}
use obscura_proto.Handlers.{Callback, request_call}
use obscura_proto.WsServer.Requests.{value}
use obscura_proto.WsServer.Packets.{ConnectionState, is_too_large}
use obscura_proto.WsServer.Messages.{request_payload, response_payload}
use obscura_proto.WsServer.PacketTests.{connection}
use obscura_proto.WsServer.ServiceTests.{config}
use obscura_proto.WsServer.State
use obscura_proto.WsServer.State.{
  Server, authenticated, find_known, called, frame_sent as server_frame_sent,
}
use obscura_proto.WsServer.Messaging.{is_stream_code}
use obscura_proto.WsServer.Connections.{on_message as server_on_message}
use obscura_proto.WsClient.Requests.{take_out}
use obscura_proto.WsClient.State.{Client, frame_sent}
use obscura_proto.WsClient.Sending.{async_request}
use obscura_proto.WsClient.Messages.{on_message}
use obscura_proto.Exchange.RoundTrip.{request-response}
use obscura_proto.Exchange.StreamIds.{start_stream-ne}
use obscura_proto.Common.{◌≢◌}
use obscura_proto.Stream
use obscura_proto.WsServer.Sending.{
  stream_start_payload, start_stream as server_start_stream, outgoing_stream_id as server_stream_id,
}
use obscura_proto.WsClient.Sending.{start_stream}
use obscura_proto.WsClient.State.{outgoing_stream_id}

abbrev question : Payload
question = record { op_code = 0x1001; parameters = 7 ∷ 8 ∷ [] }

abbrev pong : Payload
pong = record { op_code = 0x2002; parameters = 9 ∷ [] }

-- The payloads on the wire, with the id 0 in front.
abbrev asked : Payload
asked = record { op_code = 0x1001; parameters = 0 ∷ 4 ∷ 0 ∷ 0 ∷ 0 ∷ 0 ∷ 7 ∷ 8 ∷ [] }

abbrev replied : Payload
replied = record {
  op_code = 0xFFFF;
  parameters = 0 ∷ 4 ∷ 0 ∷ 0 ∷ 0 ∷ 0 ∷ 0 ∷ 3 ∷ 0x20 ∷ 2 ∷ 9 ∷ [];
}

-- Payloads of up to 20 bytes.
abbrev pub roomy : Config
roomy = record config {
  message_limits = record { enabled = true; max_ws_frame_size = 0; max_decrypted_payload = 20 };
}

abbrev pub asker : Client
asker = record {
  config = roomy;
  session = open_at 0;
  client_identity_kp = none;
  connection_hdl = 1;
  client_thread = true;
  is_connected = true;
  on_ready_callback = false;
  on_disconnect_callback = false;
  handlers = record {
    request_handlers = λ op. none;
    op_code_handlers = λ op. none;
    default_payload_handler = none;
    stream_handlers = λ op. none;
  };
  incoming_stream_handler = none;
  requests = record {
    pending_requests = [];
    request_deadlines = [];
    next_request_id = 0;
    promises_made = 0;
    completed = [];
  };
  watchdog_started = false;
  watchdog_stop = false;
  active_streams = λ id. none;
  next_outgoing_stream_id = 0;
  effects = [];
}

abbrev home : ConnectionState
home = record connection { session = open_at 0 }

abbrev answer : ℕ × PayloadReader → Result Payload
answer _ = ok pong

abbrev on_question : ℕ → Option (Callback (ℕ × PayloadReader) Payload)
on_question op = if op == 0x1001 then some (some answer) else none

abbrev answerer : Server whole
answerer =
    let fresh = State.new whole (record { public_key = []; private_key = [] }) roomy in
    record fresh {
      sessions = (3, home) ∷ [];
      handlers = record {
        request_handlers = on_question;
        op_code_handlers = λ op. none;
        default_payload_handler = none;
        stream_handlers = λ op. none;
      };
    }

linked : Linked (open_at 0) (open_at 0) key
linked = record {
  a_keys = record { rx = key; tx = key };
  b_keys = record { rx = key; tx = key };
  a_complete = refl;
  b_complete = refl;
  a_held = refl;
  b_held = refl;
  a_key = refl;
  b_key = refl;
  key_size = refl;
  behind = omega arith;
}

known_test : find_known whole 3 answerer ≡ some (authenticated, home)
unfolding find_known find
known_test = refl

asked_test : request_payload little 0 question ≡ ok asked
unfolding request_payload Builder.new add_scalar add_param scalar_bytes build image htons htonl
asked_test = refl

replied_test : response_payload big 0xFFFF 0 pong ≡ ok replied
unfolding response_payload Builder.new add_scalar add_param scalar_bytes build image htons htonl
    serialize
replied_test = refl

fits_test :
    (is_too_large roomy.message_limits asked ≡ false)
    × (is_too_large roomy.message_limits replied ≡ false)
unfolding is_too_large
fits_test = (refl, refl)

no_stream_test : is_stream_code roomy.opcodes 0x1001 ≡ false
unfolding is_stream_code
no_stream_test = refl

free_test : take_out 0 asker.requests.pending_requests ≡ (none, asker.requests.pending_requests)
unfolding take_out
free_test = refl

registered_test : answerer.handlers.request_handlers 0x1001 ≡ some (some answer)
registered_test = refl

request-response_example :
    (packet packet' before : List ℕ) × ((async_request toy little nonce 5 0 question asker).0
      ≡ ok 0)
    × ((async_request toy little nonce 5 0 question asker).1.effects ≡ frame_sent packet ∷ [])
    × ((server_on_message whole toy big
          (kx_pair toy [])
          nonce
          7
          7
          (49 ∷ [])
          3
          (ok tt)
          packet
          answerer).effects
        ≡ server_frame_sent 3 packet'
          ∷ called 3 (request_call (reader_at before question.parameters))
          ∷ [])
    × ((on_message toy little nonce packet'
          (async_request toy little nonce 5 0 question asker).1).requests.completed
        ≡ record { promise = 0; completion = value pong } ∷ [])
    × ((on_message toy little nonce packet'
          (async_request toy little nonce 5 0 question asker).1).requests.pending_requests
        ≡ [])
unfolding State.new
request-response_example =
    request-response toy toy_laws whole little big asker answerer 3 authenticated home key key
      question pong asked replied answer nonce nonce nonce 5 0 7 7 (kx_pair toy []) (49 ∷ [])
      (ok tt) refl known_test linked linked (omega arith) (omega arith) refl refl (omega arith)
      (omega arith) (omega arith) (omega arith) (omega arith) free_test asked_test replied_test
      fits_test.0 fits_test.0 fits_test.1 refl refl no_stream_test refl registered_test
      (λ before. refl)

-- Both ends start a stream.
asked_stream : (start_stream toy big nonce asker).0 ≡ ok (Stream.new 0 none)
unfolding start_stream is_too_large stream_start_payload add_scalar Builder.new add_param
    scalar_bytes image htons htonl build outgoing_stream_id
asked_stream = refl

answered_stream : (server_start_stream toy whole big nonce 3 answerer).0 ≡ ok (Stream.new 1 none)
unfolding server_start_stream stream_start_payload add_scalar Builder.new add_param scalar_bytes
    image htons htonl build server_stream_id State.new find
answered_stream = refl

start_stream-ne_example : (Stream.new 0 none).stream_id ≢ (Stream.new 1 none).stream_id
start_stream-ne_example =
    start_stream-ne toy whole big big nonce nonce 3 7 7 asker answerer (Stream.new 0 none)
      (Stream.new 1 none) (inl asked_stream) (inl answered_stream)
