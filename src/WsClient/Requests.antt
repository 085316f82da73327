-- ===== src/WsClient/Requests.antt =====
-- pending_requests_, request_deadlines_ and next_request_id_ of WsClientWrapper, with the parts of
-- async_request, on_message, watchdog_loop and disconnect of src/ws_client.cpp that work on them.
-- A promise is named as in WsServer/Requests.
use obscura_proto.Common.{
  ℕ, ◌+◌, ◌%◌, ◌^◌, List, [], ◌∷◌, Option, none, some, ltb, leb, ◌==◌, if◌then◌else◌,
}
use obscura_proto.Errors.{Exception, runtime_error, timeout_error}
use obscura_proto.Packet.{Payload}
use obscura_proto.WsServer.Requests.{
  Completion, value, exception, broken_promise, Completed, finish,
}

pub record Pending : Type 0 where
  pub request_id : ℕ
  pub promise : ℕ

pub record Deadline : Type 0 where
  pub request_id : ℕ
  pub time : ℕ

pub record Requests : Type 0 where
  pub pending_requests : List Pending
  pub request_deadlines : List Deadline
  pub next_request_id : ℕ
  pub promises_made : ℕ
  pub completed : List Completed

unfoldable pub new : Requests
new = record {
  pending_requests = [];
  request_deadlines = [];
  next_request_id = 0;
  promises_made = 0;
  completed = [];
}

unfoldable pub take_out : ℕ → List Pending → Option ℕ × List Pending
take_out id [] = (none, [])
take_out id (p ∷ ps) =
    let (found, rest) = take_out id ps in
    if p.request_id == id then (some p.promise, ps) else (found, p ∷ rest)

unfoldable pub complete : ℕ → Completion → Requests → Requests
unfolding take_out
complete id c s =
    let (found, rest) = take_out id s.pending_requests in
    record s { pending_requests = rest; completed = finish found c s.completed }

unfoldable pub drop_deadline : ℕ → List Deadline → List Deadline
drop_deadline id [] = []
drop_deadline id (d ∷ ds) =
    let rest = drop_deadline id ds in if d.request_id == id then rest else d ∷ rest

-- The id, and the promise and the deadline under it.
unfoldable pub register_request : ℕ → ℕ → Requests → ℕ × Requests
unfolding complete drop_deadline
register_request now effective_timeout s =
    let id = s.next_request_id in
    let s' = complete id broken_promise s in
    (
      id,
      record s' {
        pending_requests =
            record { request_id = id; promise = s.promises_made } ∷ s'.pending_requests;
        request_deadlines =
            if ltb 0 effective_timeout
            then record { request_id = id; time = now + effective_timeout }
              ∷ drop_deadline id s.request_deadlines
            else s.request_deadlines;
        next_request_id = (id + 1) % 2 ^ 32;
        promises_made = s.promises_made + 1;
      },
    )

-- The handler of a send that throws.
unfoldable pub send_failed : ℕ → Exception → Requests → Requests
unfolding complete drop_deadline
send_failed id e s =
    let s' = complete id (exception e) s in
    record s' { request_deadlines = drop_deadline id s.request_deadlines }

unfoldable pub receive_response : ℕ → Payload → Requests → Requests
unfolding complete
receive_response id response s = complete id (value response) s

unfoldable pub expire_one : ℕ → Deadline → Requests → Requests
unfolding complete
expire_one now d s =
    if leb d.time now
    then complete d.request_id (exception (timeout_error "Request timed out")) s
    else record s { request_deadlines = d ∷ s.request_deadlines }

unfoldable pub expire_all : ℕ → List Deadline → Requests → Requests
unfolding expire_one
expire_all now [] s = s
expire_all now (d ∷ ds) s = expire_one now d (expire_all now ds s)

-- The inner loop of the watchdog, over all deadlines.
unfoldable pub expire : ℕ → Requests → Requests
unfolding expire_all
expire now s = expire_all now s.request_deadlines (record s { request_deadlines = [] })

-- The search for the earliest deadline.
unfoldable pub earlier : ℕ → Option ℕ → Option ℕ
earlier time none = some time
earlier time (some earliest) = if ltb time earliest then some time else some earliest

unfoldable pub earliest_from : Option ℕ → List Deadline → Option ℕ
unfolding earlier
earliest_from found [] = found
earliest_from found (d ∷ ds) = earliest_from (earlier d.time found) ds

-- One round of watchdog_loop: it waits to be notified, waits until a time, or expires requests and
-- goes on.
pub data Round : Type 0 where
  waits : Round
  waits_until : ℕ → Round
  expires : Requests → Round

unfoldable pub round_for : ℕ → Option ℕ → Requests → Round
unfolding expire
round_for now none s = waits
round_for now (some earliest) s =
    if leb earliest now then expires (expire now s) else waits_until earliest

unfoldable pub watchdog_round : ℕ → Requests → Round
unfolding round_for earliest_from
watchdog_round now s = round_for now (earliest_from none s.request_deadlines) s

unfoldable pub fail_all : List Pending → List Completed → List Completed
fail_all [] done = done
fail_all (p ∷ ps) done =
    record { promise = p.promise; completion = exception (runtime_error "Client disconnected") }
    ∷ fail_all ps done

-- disconnect
unfoldable pub disconnect_requests : Requests → Requests
unfolding fail_all
disconnect_requests s = record s {
  pending_requests = [];
  request_deadlines = [];
  completed = fail_all s.pending_requests s.completed;
}
