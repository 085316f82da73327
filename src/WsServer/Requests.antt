-- ===== src/WsServer/Requests.antt =====
-- pending_requests_, request_deadlines_ and next_request_id_ of WsServerWrapper, with the parts of
-- async_request, on_message, on_close, check_timeouts and stop that work on them. A map from
-- connections to maps from request ids is one list, with the pair as the key. The shared state of
-- each std::promise is named by the number of promises made before it.
use obscura_proto.Common.{
  ℕ, ◌+◌, ◌%◌, ◌^◌, List, [], ◌∷◌, Bool, true, ◌&&◌, Option, none, some, ltb, leb, ◌==◌,
  if◌then◌else◌,
}
use obscura_proto.Errors.{Exception, runtime_error, timeout_error}
use obscura_proto.Packet.{Payload}

-- set_value, set_exception, and the end of a promise that never got either.
pub data Completion : Type 0 where
  value : Payload → Completion
  exception : Exception → Completion
  broken_promise : Completion

pub record Pending : Type 0 where
  pub hdl : ℕ
  pub request_id : ℕ
  pub promise : ℕ

pub record Deadline : Type 0 where
  pub hdl : ℕ
  pub request_id : ℕ
  pub time : ℕ

pub record Completed : Type 0 where
  pub promise : ℕ
  pub completion : Completion

pub record Requests : Type 0 where
  pub pending_requests : List Pending
  pub request_deadlines : List Deadline
  pub next_request_id : ℕ
  pub promises_made : ℕ
  pub completed : List Completed

unfoldable pub new : Requests
new = record {
  pending_requests = [];
  request_deadlines = [];
  next_request_id = 0;
  promises_made = 0;
  completed = [];
}

unfoldable pub is_request : ℕ → ℕ → Pending → Bool
is_request hdl id p = p.hdl == hdl && p.request_id == id

-- The promise of a request, and the map without it.
unfoldable pub take_out : ℕ → ℕ → List Pending → Option ℕ × List Pending
take_out hdl id [] = (none, [])
take_out hdl id (p ∷ ps) =
    let (found, rest) = take_out hdl id ps in
    if is_request hdl id p then (some p.promise, ps) else (found, p ∷ rest)

abbrev pub finish : Option ℕ → Completion → List Completed → List Completed
finish none c done = done
finish (some promise) c done = record { promise = promise; completion = c } ∷ done

-- Find the request; if it is there, complete its promise and erase it.
unfoldable pub complete : ℕ → ℕ → Completion → Requests → Requests
complete hdl id c s =
    let (found, rest) = take_out hdl id s.pending_requests in
    record s { pending_requests = rest; completed = finish found c s.completed }

unfoldable pub drop_deadline : ℕ → ℕ → List Deadline → List Deadline
drop_deadline hdl id [] = []
drop_deadline hdl id (d ∷ ds) =
    let rest = drop_deadline hdl id ds in
    if d.hdl == hdl && d.request_id == id then rest else d ∷ rest

unfoldable pub set_deadline : ℕ → ℕ → ℕ → List Deadline → List Deadline
unfolding drop_deadline
set_deadline hdl id time ds =
    record { hdl = hdl; request_id = id; time = time } ∷ drop_deadline hdl id ds

-- An explicit timeout wins over that of the configuration; 0 is none.
unfoldable pub resolve_request_timeout : Bool → ℕ → ℕ → ℕ
resolve_request_timeout timeouts_enabled request_ms explicit_ms =
    if ltb 0 explicit_ms then explicit_ms else if timeouts_enabled then request_ms else 0

-- The first half of async_request: a new id, and the promise and the deadline under it. A promise
-- that is overwritten under the same id is broken.
unfoldable pub register_request : ℕ → ℕ → ℕ → Requests → ℕ × Requests
unfolding complete set_deadline
register_request now hdl effective_timeout s =
    let id = s.next_request_id in
    let s' = complete hdl id broken_promise s in
    (
      id,
      record s' {
        pending_requests =
            record { hdl = hdl; request_id = id; promise = s.promises_made } ∷ s'.pending_requests;
        request_deadlines =
            if ltb 0 effective_timeout
            then set_deadline hdl id (now + effective_timeout) s.request_deadlines
            else s.request_deadlines;
        next_request_id = (id + 1) % 2 ^ 32;
        promises_made = s.promises_made + 1;
      },
    )

-- The second half, if send throws.
unfoldable pub send_failed : ℕ → ℕ → Exception → Requests → Requests
unfolding complete drop_deadline
send_failed hdl id e s =
    let s' = complete hdl id (exception e) s in
    record s' { request_deadlines = drop_deadline hdl id s.request_deadlines }

-- A response from a connection. The deadline stays until it has passed.
unfoldable pub receive_response : ℕ → ℕ → Payload → Requests → Requests
unfolding complete
receive_response hdl id response s = complete hdl id (value response) s

-- One round of the loop of check_timeouts over the deadlines.
unfoldable pub expire_one : ℕ → Deadline → Requests → Requests
unfolding complete
expire_one now d s =
    if leb d.time now
    then complete d.hdl d.request_id (exception (timeout_error "Request timed out")) s
    else record s { request_deadlines = d ∷ s.request_deadlines }

unfoldable pub expire_all : ℕ → List Deadline → Requests → Requests
unfolding expire_one
expire_all now [] s = s
expire_all now (d ∷ ds) s = expire_one now d (expire_all now ds s)

unfoldable pub check_request_timeouts : ℕ → Requests → Requests
unfolding expire_all
check_request_timeouts now s =
    expire_all now s.request_deadlines (record s { request_deadlines = [] })

-- Completes the promises of the requests that pass the test, and keeps the other requests.
unfoldable pub fail_where :
    (Pending → Bool) → Exception → List Pending → List Completed → List Pending × List Completed
fail_where test e [] done = ([], done)
fail_where test e (p ∷ ps) done =
    let (rest, done') = fail_where test e ps done in
    if test p
    then (rest, record { promise = p.promise; completion = exception e } ∷ done')
    else (p ∷ rest, done')

unfoldable pub drop_connection : ℕ → List Deadline → List Deadline
drop_connection hdl [] = []
drop_connection hdl (d ∷ ds) =
    let rest = drop_connection hdl ds in if d.hdl == hdl then rest else d ∷ rest

-- on_close
unfoldable pub close_requests : ℕ → Requests → Requests
unfolding fail_where drop_connection
close_requests hdl s =
    let (rest, done) =
      fail_where (λ p. p.hdl == hdl) (runtime_error "Client disconnected") s.pending_requests
        s.completed in
    record s {
      pending_requests = rest;
      completed = done;
      request_deadlines = drop_connection hdl s.request_deadlines;
    }

-- stop
unfoldable pub stop_requests : Requests → Requests
unfolding fail_where
stop_requests s =
    let (_, done) =
      fail_where (λ p. true) (runtime_error "Server is stopping") s.pending_requests s.completed in
    record s { pending_requests = []; completed = done; request_deadlines = [] }
