-- ===== src/WsClient/Simulation.antt =====
-- The requests of the client are those of a server with one connection: each operation of
-- WsClient/Requests does what that of WsServer/Requests does. So what is proved of the server's
-- promises holds of the client's.
use obscura_proto.Common.{ℕ, ◌≡◌, refl, ap, inl, inr, List, [], ◌∷◌, ltb, leb, ◌==◌, Bool-cases}
use obscura_proto.Errors.{Exception, runtime_error}
use obscura_proto.Packet.{Payload}
use obscura_proto.WsServer.Requests.{
  Completion, Completed, value, is_request, set_deadline, fail_where, drop_connection,
  Requests as ServerRequests, Pending as ServerPending, Deadline as ServerDeadline,
  take_out as server_take_out, complete as server_complete, drop_deadline as server_drop_deadline,
  register_request as server_register_request, send_failed as server_send_failed,
  receive_response as server_receive_response, expire_one as server_expire_one,
  expire_all as server_expire_all, check_request_timeouts, close_requests, new as server_new,
}
use obscura_proto.WsServer.Completion.{Calls as ServerCalls}
use obscura_proto.WsClient.Requests.{
  Requests, Pending, Deadline, new, take_out, complete, drop_deadline, register_request,
  send_failed, receive_response, expire_one, expire_all, expire, fail_all, disconnect_requests,
}

abbrev pub pendings : List Pending → List ServerPending
pendings [] = []
pendings (p ∷ ps) = record { hdl = 0; request_id = p.request_id; promise = p.promise } ∷ pendings ps

abbrev pub deadlines : List Deadline → List ServerDeadline
deadlines [] = []
deadlines (d ∷ ds) = record { hdl = 0; request_id = d.request_id; time = d.time } ∷ deadlines ds

-- The client's requests as the server keeps them, for connection 0.
abbrev pub on_server : Requests → ServerRequests
on_server s = record {
  pending_requests = pendings s.pending_requests;
  request_deadlines = deadlines s.request_deadlines;
  next_request_id = s.next_request_id;
  promises_made = s.promises_made;
  completed = s.completed;
}

take_out-pendings :
    (id : ℕ) (ps : List Pending)
    → server_take_out 0 id (pendings ps) ≡ ((take_out id ps).0, pendings (take_out id ps).1)
unfolding take_out server_take_out is_request
take_out-pendings id [] = refl
take_out-pendings id (p ∷ ps) = elim (Bool-cases (p.request_id == id)) [
  | inl this ↦ rw this refl
  | inr other ↦ rw (other, take_out-pendings id ps) refl
]

complete-on_server :
    (id : ℕ) (c : Completion) (s : Requests)
    → server_complete 0 id c (on_server s) ≡ on_server (complete id c s)
unfolding complete server_complete
complete-on_server id c s = rw (take_out-pendings id s.pending_requests) refl

drop_deadline-deadlines :
    (id : ℕ) (ds : List Deadline)
    → server_drop_deadline 0 id (deadlines ds) ≡ deadlines (drop_deadline id ds)
unfolding drop_deadline server_drop_deadline
drop_deadline-deadlines id [] = refl
drop_deadline-deadlines id (d ∷ ds) = elim (Bool-cases (d.request_id == id)) [
  | inl this ↦ rw this (drop_deadline-deadlines id ds)
  | inr other ↦ rw (other, drop_deadline-deadlines id ds) refl
]

expire_one-on_server :
    (now : ℕ) (d : Deadline) (s : Requests)
    → server_expire_one now
        (record { hdl = 0; request_id = d.request_id; time = d.time })
        (on_server s)
      ≡ on_server (expire_one now d s)
unfolding expire_one server_expire_one
expire_one-on_server now d s = elim (Bool-cases (leb d.time now)) [
  | inl passed ↦ rw passed (complete-on_server d.request_id _ s)
  | inr early ↦ rw early refl
]

expire_all-on_server :
    (now : ℕ) (ds : List Deadline) (s : Requests)
    → server_expire_all now (deadlines ds) (on_server s) ≡ on_server (expire_all now ds s)
unfolding expire_all server_expire_all
expire_all-on_server now [] s = refl
expire_all-on_server now (d ∷ ds) s =
    rw (expire_all-on_server now ds s) (expire_one-on_server now d (expire_all now ds s))

fail_where-pendings :
    (ps : List Pending) (done : List Completed)
    → fail_where (λ p. p.hdl == 0) (runtime_error "Client disconnected") (pendings ps) done
      ≡ ([], fail_all ps done)
unfolding fail_where fail_all
fail_where-pendings [] done = refl
fail_where-pendings (p ∷ ps) done = rw (fail_where-pendings ps done) refl

drop_connection-deadlines : (ds : List Deadline) → drop_connection 0 (deadlines ds) ≡ []
unfolding drop_connection
drop_connection-deadlines [] = refl
drop_connection-deadlines (d ∷ ds) = drop_connection-deadlines ds

-- Every operation of the client on its requests is the one that the server has for a connection:
-- a new request, a send that fails, a response, the expiry of deadlines, and a disconnect, which
-- is the close of the connection.
pub on_server_simulates :
    (now timeout id : ℕ) (e : Exception) (p : Payload) (s : Requests)
    → (server_register_request now 0 timeout (on_server s)
        ≡ ((register_request now timeout s).0, on_server (register_request now timeout s).1))
      × (server_send_failed 0 id e (on_server s) ≡ on_server (send_failed id e s))
      × (server_receive_response 0 id p (on_server s) ≡ on_server (receive_response id p s))
      × (check_request_timeouts now (on_server s) ≡ on_server (expire now s))
      × (close_requests 0 (on_server s) ≡ on_server (disconnect_requests s))
unfolding server_register_request register_request server_send_failed send_failed
    server_receive_response receive_response check_request_timeouts expire close_requests
    disconnect_requests set_deadline
on_server_simulates now timeout id e p s = (
  elim (Bool-cases (ltb 0 timeout)) [
    | inl timed ↦
        rw
          (
            timed,
            take_out-pendings s.next_request_id s.pending_requests,
            drop_deadline-deadlines s.next_request_id s.request_deadlines,
          )
          refl
    | inr untimed ↦ rw (untimed, take_out-pendings s.next_request_id s.pending_requests) refl
  ],
  rw (take_out-pendings id s.pending_requests, drop_deadline-deadlines id s.request_deadlines) refl,
  complete-on_server id (value p) s,
  expire_all-on_server now s.request_deadlines (record s { request_deadlines = [] }),
  rw
      (
        fail_where-pendings s.pending_requests s.completed,
        drop_connection-deadlines s.request_deadlines,
      )
      refl,
)

-- The calls that work on the client's requests, in any order and with any arguments.
pub data Calls : Requests → Type 0 where
  starts : Calls new
  registers : {s : Requests} (now timeout : ℕ) → Calls s → Calls (register_request now timeout s).1
  fails : {s : Requests} (id : ℕ) (e : Exception) → Calls s → Calls (send_failed id e s)
  receives : {s : Requests} (id : ℕ) (p : Payload) → Calls s → Calls (receive_response id p s)
  expires : {s : Requests} (now : ℕ) → Calls s → Calls (expire now s)
  disconnects : {s : Requests} → Calls s → Calls (disconnect_requests s)

-- Some payload.
abbrev none_sent : Payload
none_sent = record { op_code = 0; parameters = [] }

Calls-on_server : {s : Requests} → Calls s → ServerCalls (on_server s)
unfolding new
Calls-on_server starts = unfold server_new in ServerCalls.starts
Calls-on_server (registers {s} now timeout c) =
    let (same, _, _, _, _) = on_server_simulates now timeout 0 (runtime_error "") none_sent s in
    rw (← ap (λ (r : ℕ × ServerRequests). r.1) same)
      (ServerCalls.registers now 0 timeout (Calls-on_server c))
Calls-on_server (fails {s} id e c) =
    let (_, same, _, _, _) = on_server_simulates 0 0 id e none_sent s in
    rw (← same) (ServerCalls.fails 0 id e (Calls-on_server c))
Calls-on_server (receives {s} id p c) =
    let (_, _, same, _, _) = on_server_simulates 0 0 id (runtime_error "") p s in
    rw (← same) (ServerCalls.receives 0 id p (Calls-on_server c))
Calls-on_server (expires {s} now c) =
    let (_, _, _, same, _) = on_server_simulates now 0 0 (runtime_error "") none_sent s in
    rw (← same) (ServerCalls.expires now (Calls-on_server c))
Calls-on_server (disconnects {s} c) =
    let (_, _, _, _, same) = on_server_simulates 0 0 0 (runtime_error "") none_sent s in
    rw (← same) (ServerCalls.closes 0 (Calls-on_server c))
