-- ===== src/WsClient/Tests.antt =====
-- The theorems of WsClient, applied to requests, rounds and clients that run.
use obscura_proto.Common.{◌≡◌, refl, [], ◌∷◌, none, some}
use obscura_proto.Errors.{ok, runtime_error}
use obscura_proto.Endian.{big}
use obscura_proto.Packet.{Payload}
use obscura_proto.Packet.Reader.{PayloadReader}
use obscura_proto.Crypto.Toy.{toy}
use obscura_proto.Crypto.Tests.{ping, nonce, packet}
use obscura_proto.Crypto.Agreement.{kx_pair}
use obscura_proto.Handlers.{Callback, Handlers}
use obscura_proto.WsServer.Requests.{
  register_request as server_register_request, send_failed as server_send_failed,
  receive_response as server_receive_response, check_request_timeouts, close_requests,
}
use obscura_proto.WsClient.Requests.{
  Requests, Round, register_request, send_failed, receive_response, expire, disconnect_requests,
  watchdog_round,
}
use obscura_proto.WsClient.Simulation.{on_server, on_server_simulates}
use obscura_proto.WsClient.Watchdog.{IsRound, watchdog_round-IsRound}
use obscura_proto.WsClient.State.{Client}
use obscura_proto.WsClient.Messages.{on_open, on_message}
use obscura_proto.WsClient.Reconnect.{here, opens, receives, Runs-keys}
use obscura_proto.WsClient.Keys.{keys_of}
use obscura_proto.Exchange.Tests.{asker}

-- One request with a deadline, one without.
abbrev two_requests : Requests
two_requests = record {
  pending_requests =
      record { request_id = 1; promise = 1 } ∷ record { request_id = 0; promise = 0 } ∷ [];
  request_deadlines = record { request_id = 0; time = 9 } ∷ [];
  next_request_id = 2;
  promises_made = 2;
  completed = [];
}

on_server_simulates_example :
    (server_register_request 5 0 7 (on_server two_requests)
      ≡ ((register_request 5 7 two_requests).0, on_server (register_request 5 7 two_requests).1))
    × (server_send_failed 0 1 (runtime_error "closed") (on_server two_requests)
        ≡ on_server (send_failed 1 (runtime_error "closed") two_requests))
    × (server_receive_response 0 1 ping (on_server two_requests)
        ≡ on_server (receive_response 1 ping two_requests))
    × (check_request_timeouts 5 (on_server two_requests) ≡ on_server (expire 5 two_requests))
    × (close_requests 0 (on_server two_requests) ≡ on_server (disconnect_requests two_requests))
on_server_simulates_example = on_server_simulates 5 7 1 (runtime_error "closed") ping two_requests

-- At 9 the deadline has come.
watchdog_round-IsRound_example : IsRound 9 two_requests (watchdog_round 9 two_requests)
watchdog_round-IsRound_example = watchdog_round-IsRound 9 two_requests

watchdog_round_test : watchdog_round 8 two_requests ≡ Round.waits_until 9
unfolding watchdog_round
watchdog_round_test = refl

-- The client connects again, and a packet arrives.
abbrev again : Client
again = on_message toy big nonce (packet 5) (on_open toy big (kx_pair toy []) (ok tt) 2 asker)

Runs-keys_example : keys_of again.session ≡ keys_of asker.session
Runs-keys_example =
    Runs-keys toy (receives big nonce (packet 5) (opens big (kx_pair toy []) (ok tt) 2 here)) refl

abbrev silent : Handlers (Unit {0})
silent = record {
  request_handlers = λ op. none;
  op_code_handlers = λ op. none;
  default_payload_handler = none;
  stream_handlers = λ op. none;
}

abbrev on_request : Callback (Unit {0} × PayloadReader) Payload
on_request = some (λ _. ok ping)

abbrev on_payload : Callback (Unit {0} × Payload) (Unit {0})
on_payload = some (λ _. ok tt)
