-- ===== src/WsServer/Tests.antt =====
-- Requests, messages and identities on concrete values.
use obscura_proto.Common.{◌≡◌, refl, [], ◌∷◌, true, some, arith, put}
use obscura_proto.Errors.{ok, err, logic_error}
use obscura_proto.Packet.{Payload}
use obscura_proto.WsServer.Requests
use obscura_proto.WsServer.Requests.{
  Requests, Deadline, complete, take_out, is_request, set_deadline, drop_deadline, register_request,
  receive_response, check_request_timeouts, resolve_request_timeout,
}
use obscura_proto.WsServer.Identities
use obscura_proto.WsServer.Identities.{
  Identities, accept, close_identity, find_identity, find_identity-owner, find_identity_lost,
}

abbrev body : Payload
body = record { op_code = 0x2001; parameters = 1 ∷ 2 ∷ [] }

-- One request to connection 7, made at 100 with a timeout of 50, and its answer.
abbrev asked : Requests
asked = (register_request 100 7 50 Requests.new).1

abbrev answered : Requests
answered = receive_response 7 0 body asked

abbrev deadline : Deadline
deadline = record { hdl = 7; request_id = 0; time = 150 }

timeout_test : resolve_request_timeout true 30000 0 ≡ 30000
unfolding resolve_request_timeout
timeout_test = refl

deadline_test : asked.request_deadlines ≡ deadline ∷ []
unfolding register_request set_deadline drop_deadline complete take_out Requests.new
deadline_test = refl

abbrev known : Identities
known = accept 3 (4 ∷ []) Identities.new

known_test : find_identity (4 ∷ []) known ≡ ok 3
unfolding find_identity accept put
known_test = refl

find_identity_lost_example :
    (find_identity
        (4 ∷ [])
        (close_identity 3 (accept 9 (4 ∷ []) (accept 3 (4 ∷ []) Identities.new)))
      ≡ err (logic_error "Identity is not connected."))
    × ((close_identity 3 (accept 9 (4 ∷ []) (accept 3 (4 ∷ []) Identities.new))).hdl_to_identity 9
        ≡ some (4 ∷ []))
find_identity_lost_example = find_identity_lost 3 9 (4 ∷ []) Identities.new (omega arith)
