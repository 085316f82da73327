-- ===== src/WsServer/PromiseTests.antt =====
-- A request of the server of ServiceTests to its client, and the check of the timeouts behind it.
use obscura_proto.Common.{◌≡◌, refl, ap, ◌∙◌, inl, [], ◌∷◌, arith, ltb, if◌then◌else◌}
use obscura_proto.Common.Maps.{find, insert, insert_new}
use obscura_proto.Endian.{little}
use obscura_proto.Endian.{image, htons, htonl, htonll_local}
use obscura_proto.Packet.{Payload, serialize}
use obscura_proto.Packet.Builder
use obscura_proto.Packet.Builder.{add_scalar, add_param, scalar_bytes, build}
use obscura_proto.Handshake.{serialize_server}
use obscura_proto.Crypto.{encrypt}
use obscura_proto.Session.{encrypt_payload}
use obscura_proto.Crypto.Toy.{pad, toy}
use obscura_proto.RateLimiter
use obscura_proto.RateLimiter.{register_connection}
use obscura_proto.RateLimiter.Tests.{whole}
use obscura_proto.WsServer.Requests
use obscura_proto.WsServer.Requests.{
  Deadline, complete, take_out, is_request, set_deadline, drop_deadline, register_request,
  resolve_request_timeout,
}
use obscura_proto.WsServer.Messages.{request_payload}
use obscura_proto.WsServer.Completion.{held}
use obscura_proto.WsServer.Expiry.{key_count}
use obscura_proto.WsServer.State.{Server, new, find_ready, store, emit, frame_sent}
use obscura_proto.WsServer.Sending.{async_request}
use obscura_proto.WsServer.Connections.{on_message, register_identity}
use obscura_proto.WsServer.Lifecycle.{check_timeouts}
use obscura_proto.WsServer.Service.{Service}
use obscura_proto.WsServer.Promises.{requests-held, check_timeouts-expires}
use obscura_proto.WsServer.ServiceTests.{
  served, calls, start, answered, answer, deserialize_test, respond_test,
}

abbrev body : Payload
body = record { op_code = 0x2001; parameters = 1 ∷ 2 ∷ [] }

-- The request is made at 7 with a timeout of 10.
abbrev asked : Server whole
asked = (async_request toy whole little [] 7 10 3 body served).1

asked_calls : Service toy whole asked
asked_calls = Service.requests little [] 7 10 3 body calls

abbrev deadline : Deadline
deadline = record { hdl = 3; request_id = 0; time = 17 }

requests-held_example :
    held 0 asked.requests ≡ (if ltb 0 asked.requests.promises_made then 1 else 0)
requests-held_example = requests-held toy whole 0 asked_calls

-- The server behind the handshake.
abbrev accepted : Server whole
accepted =
    register_identity whole toy little 5 (49 ∷ []) 3 (pad 32 (7 ∷ [])) answered
      (emit whole (frame_sent 3 (serialize_server little answer)) start)

accepted_test : served ≡ accepted
unfolding on_message new find insert_new
accepted_test = rw (deserialize_test, respond_test) refl

asked_test :
    (async_request toy whole little [] 7 10 3 body accepted).1.requests.request_deadlines
    ≡ deadline ∷ []
unfolding async_request register_identity new register_connection RateLimiter.new find insert
    insert_new request_payload register_request complete take_out set_deadline drop_deadline
    Requests.new resolve_request_timeout find_ready Builder.new add_scalar add_param scalar_bytes
    build image htons htonl encrypt_payload encrypt serialize htonll_local store
asked_test = refl

deadline_test : asked.requests.request_deadlines ≡ deadline ∷ []
deadline_test =
    ap
      (λ (s : Server whole).
        (async_request toy whole little [] 7 10 3 body s).1.requests.request_deadlines)
      accepted_test
    ∙ asked_test

check_timeouts-expires_example :
    key_count 3 0 (check_timeouts whole 20 asked).requests.pending_requests ≡ 0
check_timeouts-expires_example =
    check_timeouts-expires toy whole 20 deadline asked_calls (rw deadline_test (inl refl))
      (omega arith)
