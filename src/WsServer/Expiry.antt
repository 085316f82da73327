-- ===== src/WsServer/Expiry.antt =====
-- A request whose deadline has passed is no longer pending after a check of the timeouts.
use obscura_proto.Common.{
  ℕ, ◌+◌, ◌≤◌, ◌≡◌, refl, ◌⊎◌, inl, inr, List, [], ◌∷◌, Bool, true, arith, leb, if◌then◌else◌,
  Bool-cases,
}
use obscura_proto.Errors.{Exception, timeout_error}
use obscura_proto.WsServer.Requests.{
  Completion, Pending, Deadline, Completed, Requests, new, is_request, take_out, complete,
  register_request, send_failed, receive_response, expire_one, expire_all, check_request_timeouts,
  fail_where, close_requests, stop_requests, exception, value,
}
use obscura_proto.WsServer.Completion.{
  Calls, starts, registers, fails, receives, expires, closes, stops, skips,
}

-- How many requests are pending under a key.
abbrev pub key_count : ℕ → ℕ → List Pending → ℕ
key_count hdl id [] = 0
key_count hdl id (p ∷ ps) = (if is_request hdl id p then 1 else 0) + key_count hdl id ps

abbrev pub MemDeadline : Deadline → List Deadline → Type 0
MemDeadline d [] = ⊥
MemDeadline d (x ∷ xs) = (d ≡ x) ⊎ MemDeadline d xs

request_key : (h i : ℕ) (p : Pending) → is_request h i p ≡ true → (p.hdl ≡ h) × (p.request_id ≡ i)
unfolding is_request
request_key h i p e = (ground arith, ground arith)

module _ (h i : ℕ) where
  take_out-key_count :
      (hdl id : ℕ) (ps : List Pending) → key_count h i (take_out hdl id ps).1 ≤ key_count h i ps
  unfolding take_out
  take_out-key_count hdl id [] = omega arith
  take_out-key_count hdl id (p ∷ ps) = elim (Bool-cases (is_request hdl id p)) [
    | inl this ↦ rw this (omega arith)
    | inr other ↦ rw other (omega (arith, take_out-key_count hdl id ps))
  ]

  complete-key_count :
      (hdl id : ℕ) (c : Completion) (s : Requests)
      → key_count h i (complete hdl id c s).pending_requests ≤ key_count h i s.pending_requests
  unfolding complete
  complete-key_count hdl id c s = take_out-key_count hdl id s.pending_requests

  fail_where-key_count :
      (test : Pending → Bool) (e : Exception) (ps : List Pending) (done : List Completed)
      → key_count h i (fail_where test e ps done).0 ≤ key_count h i ps
  unfolding fail_where
  fail_where-key_count test e [] done = omega arith
  fail_where-key_count test e (p ∷ ps) done = elim (Bool-cases (test p)) [
    | inl this ↦ rw this (omega (arith, fail_where-key_count test e ps done))
    | inr other ↦ rw other (omega (arith, fail_where-key_count test e ps done))
  ]

  take_out-own : (ps : List Pending) → key_count h i ps ≤ 1 → key_count h i (take_out h i ps).1 ≡ 0
  unfolding take_out
  take_out-own [] u = refl
  take_out-own (p ∷ ps) u = elim (Bool-cases (is_request h i p)) [
    | inl this ↦ rw this (omega (arith, rw this at u))
    | inr other ↦ let ih = take_out-own ps (omega arith) in rw other (grind (arith, ih))
  ]

  expire_one-key_count :
      (now : ℕ) (d : Deadline) (s : Requests)
      → key_count h i (expire_one now d s).pending_requests ≤ key_count h i s.pending_requests
  unfolding expire_one
  expire_one-key_count now d s = elim (Bool-cases (leb d.time now)) [
    | inl passed ↦
        rw passed
          (complete-key_count d.hdl d.request_id (exception (timeout_error "Request timed out")) s)
    | inr early ↦ rw early (omega arith)
  ]

  expire_all-key_count :
      (now : ℕ) (ds : List Deadline) (s : Requests)
      → key_count h i (expire_all now ds s).pending_requests ≤ key_count h i s.pending_requests
  unfolding expire_all
  expire_all-key_count now [] s = omega arith
  expire_all-key_count now (d ∷ ds) s =
      omega (arith, expire_one-key_count now d (expire_all now ds s), expire_all-key_count now ds s)

  register-key_count :
      (now hdl timeout : ℕ) (s : Requests)
      → key_count h i s.pending_requests ≤ 1
      → key_count h i (register_request now hdl timeout s).1.pending_requests ≤ 1
  unfolding register_request complete
  register-key_count now hdl timeout s u =
      let made : Pending = record {
        hdl = hdl;
        request_id = s.next_request_id;
        promise = s.promises_made;
      } in
      elim (Bool-cases (is_request h i made)) [
        | inl this ↦
            let (e₁, e₂) = request_key h i made this in
            rw (this, e₁, e₂) (omega (arith, take_out-own s.pending_requests u))
        | inr other ↦
            rw other (omega (arith, take_out-key_count hdl s.next_request_id s.pending_requests, u))
      ]

  -- After any calls a key is in the map at most once.
  Calls-key_count : {s : Requests} → Calls s → key_count h i s.pending_requests ≤ 1
  unfolding new send_failed receive_response check_request_timeouts close_requests stop_requests
  Calls-key_count starts = omega arith
  Calls-key_count (registers {s} now hdl timeout c) =
      register-key_count now hdl timeout s (Calls-key_count c)
  Calls-key_count (fails {s} hdl id e c) =
      omega (arith, complete-key_count hdl id (exception e) s, Calls-key_count c)
  Calls-key_count (receives {s} hdl id p c) =
      omega (arith, complete-key_count hdl id (value p) s, Calls-key_count c)
  Calls-key_count (expires {s} now c) = omega (
    arith,
    expire_all-key_count now s.request_deadlines (record s { request_deadlines = [] }),
    Calls-key_count c,
  )
  Calls-key_count (closes {s} hdl c) =
      omega (arith, fail_where-key_count _ _ s.pending_requests s.completed, Calls-key_count c)
  Calls-key_count (stops c) = omega arith
  Calls-key_count (skips c) = Calls-key_count c

expire_all-passed :
    (now : ℕ) (d : Deadline) (ds : List Deadline) (s : Requests)
    → MemDeadline d ds
    → d.time ≤ now
    → key_count d.hdl d.request_id s.pending_requests ≤ 1
    → key_count d.hdl d.request_id (expire_all now ds s).pending_requests ≡ 0
unfolding expire_all expire_one complete
expire_all-passed now d [] s m late u = absurd m
expire_all-passed now d (x ∷ ds) s (inl same) late u =
    let passed : leb d.time now ≡ true = ground arith in
    let before = expire_all-key_count d.hdl d.request_id now ds s in
    rw (← same, passed)
      (take_out-own d.hdl d.request_id (expire_all now ds s).pending_requests (omega arith))
expire_all-passed now d (x ∷ ds) s (inr m) late u = omega (
  arith,
  expire_one-key_count d.hdl d.request_id now x (expire_all now ds s),
  expire_all-passed now d ds s m late u,
)

-- After any calls, a check of the timeouts leaves no request pending whose deadline has passed.
pub check_timeouts_passed :
    {s : Requests} (now : ℕ) (d : Deadline)
    → Calls s
    → MemDeadline d s.request_deadlines
    → d.time ≤ now
    → key_count d.hdl d.request_id (check_request_timeouts now s).pending_requests ≡ 0
unfolding check_request_timeouts
check_timeouts_passed {s} now d c m late =
    expire_all-passed now d s.request_deadlines (record s { request_deadlines = [] }) m late
      (Calls-key_count d.hdl d.request_id c)
