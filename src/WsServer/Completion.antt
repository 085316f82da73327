-- ===== src/WsServer/Completion.antt =====
-- Every promise of a request is completed exactly once, or is still pending.
use obscura_proto.Common.{
  ℕ, ◌+◌, ◌%◌, ◌^◌, ◌≡◌, refl, ap, ◌∙◌, inl, inr, List, [], ◌∷◌, Bool, true, arith, ltb, leb, ◌==◌,
  if◌then◌else◌, Bool-cases,
}
use obscura_proto.Errors.{Exception, runtime_error}
use obscura_proto.Packet.{Payload}
use obscura_proto.WsServer.Requests.{
  Completion, Pending, Deadline, Completed, Requests, new, is_request, take_out, finish, complete,
  register_request, send_failed, receive_response, expire_one, expire_all, check_request_timeouts,
  fail_where, close_requests, stop_requests, broken_promise, exception, value,
}

abbrev one_if : Bool → ℕ
one_if b = if b then 1 else 0

abbrev pub count_pending : ℕ → List Pending → ℕ
count_pending t [] = 0
count_pending t (p ∷ ps) = one_if (p.promise == t) + count_pending t ps

abbrev pub count_completed : ℕ → List Completed → ℕ
count_completed t [] = 0
count_completed t (c ∷ cs) = one_if (c.promise == t) + count_completed t cs

-- How often a promise is pending or completed.
abbrev pub held : ℕ → Requests → ℕ
held t s = count_pending t s.pending_requests + count_completed t s.completed

module _ (t : ℕ) where
  take_out-finish :
      (hdl id : ℕ) (c : Completion) (ps : List Pending) (done : List Completed)
      → count_pending t (take_out hdl id ps).1
          + count_completed t (finish (take_out hdl id ps).0 c done)
        ≡ count_pending t ps + count_completed t done
  unfolding take_out
  take_out-finish hdl id c [] done = refl
  take_out-finish hdl id c (p ∷ ps) done = elim (Bool-cases (is_request hdl id p)) [
    | inl this ↦ rw this (omega arith)
    | inr other ↦ rw other (omega (arith, take_out-finish hdl id c ps done))
  ]

  held-complete :
      (hdl id : ℕ) (c : Completion) (s : Requests) → held t (complete hdl id c s) ≡ held t s
  unfolding complete
  held-complete hdl id c s = take_out-finish hdl id c s.pending_requests s.completed

  fail_where-held :
      (test : Pending → Bool) (e : Exception) (ps : List Pending) (done : List Completed)
      → count_pending t (fail_where test e ps done).0
          + count_completed t (fail_where test e ps done).1
        ≡ count_pending t ps + count_completed t done
  unfolding fail_where
  fail_where-held test e [] done = refl
  fail_where-held test e (p ∷ ps) done = elim (Bool-cases (test p)) [
    | inl this ↦ rw this (omega (arith, fail_where-held test e ps done))
    | inr other ↦ rw other (omega (arith, fail_where-held test e ps done))
  ]

  fail_where-all :
      (e : Exception) (ps : List Pending) (done : List Completed)
      → (fail_where (λ p. true) e ps done).0 ≡ []
  unfolding fail_where
  fail_where-all e [] done = refl
  fail_where-all e (p ∷ ps) done = fail_where-all e ps done

  held-expire_one : (now : ℕ) (d : Deadline) (s : Requests) → held t (expire_one now d s) ≡ held t s
  unfolding expire_one
  held-expire_one now d s = elim (Bool-cases (leb d.time now)) [
    | inl passed ↦ rw passed (held-complete d.hdl d.request_id _ s)
    | inr early ↦ rw early refl
  ]

  held-expire_all :
      (now : ℕ) (ds : List Deadline) (s : Requests) → held t (expire_all now ds s) ≡ held t s
  unfolding expire_all
  held-expire_all now [] s = refl
  held-expire_all now (d ∷ ds) s =
      held-expire_one now d (expire_all now ds s) ∙ held-expire_all now ds s

  held-register :
      (now hdl timeout : ℕ) (s : Requests)
      → held t (register_request now hdl timeout s).1 ≡ one_if (s.promises_made == t) + held t s
  unfolding register_request
  held-register now hdl timeout s =
      omega (arith, held-complete hdl s.next_request_id broken_promise s)

-- The calls that work on the requests, in any order and with any arguments.
pub data Calls : Requests → Type 0 where
  starts : Calls new
  registers :
      {s : Requests} (now hdl timeout : ℕ) → Calls s → Calls (register_request now hdl timeout s).1
  fails : {s : Requests} (hdl id : ℕ) (e : Exception) → Calls s → Calls (send_failed hdl id e s)
  receives :
      {s : Requests} (hdl id : ℕ) (p : Payload) → Calls s → Calls (receive_response hdl id p s)
  expires : {s : Requests} (now : ℕ) → Calls s → Calls (check_request_timeouts now s)
  closes : {s : Requests} (hdl : ℕ) → Calls s → Calls (close_requests hdl s)
  stops : {s : Requests} → Calls s → Calls (stop_requests s)
  -- An id is drawn for a request that is not registered.
  skips :
      {s : Requests}
      → Calls s
      → Calls (record s { next_request_id = (s.next_request_id + 1) % 2 ^ 32 })

made-expire_one :
    (now : ℕ) (d : Deadline) (s : Requests) → (expire_one now d s).promises_made ≡ s.promises_made
unfolding expire_one complete
made-expire_one now d s = ground arith

made-expire_all :
    (now : ℕ) (ds : List Deadline) (s : Requests)
    → (expire_all now ds s).promises_made ≡ s.promises_made
unfolding expire_all
made-expire_all now [] s = refl
made-expire_all now (d ∷ ds) s =
    made-expire_one now d (expire_all now ds s) ∙ made-expire_all now ds s

-- After any calls, each promise that was made is pending or completed, and only one of the two and
-- once; no other promise is either. So no promise is completed twice, and none is lost.
pub held_once :
    {s : Requests} → Calls s → (t : ℕ) → held t s ≡ (if ltb t s.promises_made then 1 else 0)
unfolding new register_request send_failed receive_response check_request_timeouts close_requests
    stop_requests
held_once starts t = ground arith
held_once (registers {s} now hdl timeout h) t =
    held-register t now hdl timeout s ∙ ground (arith, held_once h t)
held_once (fails {s} hdl id e h) t = held-complete t hdl id (exception e) s ∙ held_once h t
held_once (receives {s} hdl id p h) t = held-complete t hdl id (value p) s ∙ held_once h t
held_once (expires {s} now h) t =
    rw (made-expire_all now s.request_deadlines (record s { request_deadlines = [] })) (
      held-expire_all t now s.request_deadlines (record s { request_deadlines = [] })
      ∙ held_once h t)
held_once (closes {s} hdl h) t =
    fail_where-held t _ _ s.pending_requests s.completed ∙ held_once h t
held_once (stops {s} h) t =
    let e = runtime_error "Server is stopping" in
    let all = λ (p : Pending). true in
    let none_left = fail_where-all t e s.pending_requests s.completed in
    let same = fail_where-held t all e s.pending_requests s.completed in
    omega (arith, ap (count_pending t) none_left, same ∙ held_once h t)
held_once (skips h) t = held_once h t
