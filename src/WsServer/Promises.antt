-- ===== src/WsServer/Promises.antt =====
-- The requests of the server under any calls: every method works on them as the calls of
-- WsServer/Completion do, so what holds after such calls holds for the server.
use obscura_proto.Common.{
  ℕ, ◌≤◌, ◌≡◌, refl, ◌∙◌, inl, inr, List, Bool, true, false, Option, none, some, arith, ltb,
  if◌then◌else◌, Option-cases,
}
use obscura_proto.Errors.{Result, ok, err, logic_error}
use obscura_proto.Endian.{Host}
use obscura_proto.Packet.{Payload}
use obscura_proto.Handshake.{PublicKey, KeyPair, ClientHello, ServerHello, deserialize_client}
use obscura_proto.Crypto.Libsodium.{Sodium}
use obscura_proto.Session
use obscura_proto.Session.{Session, server, server_respond_to_handshake, encrypt_payload}
use obscura_proto.RateLimiter.Floats.{Double}
use obscura_proto.RateLimiter.{Ip, check_handshake_rate}
use obscura_proto.Stream
use obscura_proto.Stream.{Stream}
use obscura_proto.WsServer.Requests.{
  Deadline, register_request, resolve_request_timeout, check_request_timeouts,
}
use obscura_proto.WsServer.Completion.{
  Calls, starts, registers, fails, expires, closes, stops, skips, held, held_once,
}
use obscura_proto.WsServer.Messages.{request_payload}
use obscura_proto.WsServer.Packets.{ConnectionState}
use obscura_proto.WsServer.State.{Server, Table, new, find_ready, find_known}
use obscura_proto.WsServer.Sending.{
  send, after_request, request_built, async_request, open_stream, with_stream, start_on,
  start_stream, start_stream_with, outgoing_stream_id, is_ready,
}
use obscura_proto.WsServer.Connections.{
  on_message, register_anonymous, register_identity, decision, log_decision, after_decision,
  admit_session, after_respond, answer_client, receive_hello,
}
use obscura_proto.WsServer.Lifecycle.{on_open, on_close, check_timeouts, stop}
use obscura_proto.WsServer.Expiry.{MemDeadline, key_count, check_timeouts_passed}
use obscura_proto.WsServer.Holding.{
  send-requests, send_anonymous-requests, send_built-requests, receive_known-Calls, if-Calls,
}
use obscura_proto.WsServer.Service.{Service}

module _ (sodium : Sodium) (d : Double) (h : Host) where
  after_decision-requests :
      (r : Result Bool) (ms : ℕ) (ip : Ip) (hdl : ℕ) (pk : PublicKey) (x : Session) (s : Server d)
      → (after_decision d sodium h r ms ip hdl pk x s).requests ≡ s.requests
  unfolding after_decision register_identity
  after_decision-requests (err e) ms ip hdl pk x s = refl
  after_decision-requests (ok true) ms ip hdl pk x s = refl
  after_decision-requests (ok false) ms ip hdl pk x s = refl

  log_decision-requests :
      (f : Option (ℕ × PublicKey → Result Bool)) (hdl : ℕ) (pk : PublicKey) (s : Server d)
      → (log_decision d sodium h f hdl pk s).requests ≡ s.requests
  log_decision-requests none hdl pk s = refl
  log_decision-requests (some f) hdl pk s = refl

  admit_session-requests :
      (is_identified : Bool) (peer : Option PublicKey) (ms : ℕ) (ip : Ip) (hdl : ℕ) (x : Session)
      (s : Server d)
      → (admit_session d sodium h is_identified peer ms ip hdl x s).requests ≡ s.requests
  unfolding admit_session register_anonymous
  admit_session-requests true (some pk) ms ip hdl x s =
      let logged = log_decision d sodium h s.client_identity_handler hdl pk s in
      after_decision-requests (decision d sodium h s.client_identity_handler hdl pk) ms ip hdl pk x
        logged
      ∙ log_decision-requests s.client_identity_handler hdl pk s
  admit_session-requests true none ms ip hdl x s = refl
  admit_session-requests false peer ms ip hdl x s = refl

  after_respond-requests :
      (is_identified : Bool) (ms : ℕ) (ip : Ip) (hdl : ℕ) (taken : Result (Unit {0}))
      (r : Result ServerHello × Session) (s : Server d)
      → (after_respond d sodium h ms ip hdl is_identified taken r s).requests ≡ s.requests
  unfolding after_respond
  after_respond-requests is_identified ms ip hdl taken (err e, x) s = refl
  after_respond-requests is_identified ms ip hdl (err e) (ok answer, x) s = refl
  after_respond-requests is_identified ms ip hdl (ok u) (ok answer, x) s =
      admit_session-requests is_identified x.peer_identity ms ip hdl x _

  answer_client-requests :
      (eph : KeyPair) (ms : ℕ) (ip : Ip) (hdl : ℕ) (taken : Result (Unit {0}))
      (r : Result ClientHello) (s : Server d)
      → (answer_client d sodium h eph ms ip hdl taken r s).requests ≡ s.requests
  unfolding answer_client
  answer_client-requests eph ms ip hdl taken (err e) s = refl
  answer_client-requests eph ms ip hdl taken (ok hello) s =
      after_respond-requests hello.has_client_identity ms ip hdl taken
        (server_respond_to_handshake sodium eph hello
          (Session.new server s.server_sign_key s.config.supported_versions))
        s

  receive_hello-requests :
      (eph : KeyPair) (ms : ℕ) (ip : Ip) (hdl : ℕ) (taken : Result (Unit {0})) (bytes : List ℕ)
      (s : Server d)
      → (receive_hello d sodium h eph ms ip hdl taken bytes s).requests ≡ s.requests
  unfolding receive_hello
  receive_hello-requests eph ms ip hdl taken bytes s =
      let (passes, l) = check_handshake_rate d ms ip s.rate_limiter in
      let r = deserialize_client h bytes in
      ground (
        arith,
        answer_client-requests eph ms ip hdl taken r (record s { rate_limiter = l }),
        answer_client-requests eph ms ip hdl taken r s,
      )

  on_message-Calls :
      (eph : KeyPair) (nonce : List ℕ) (us ms : ℕ) (ip : Ip) (hdl : ℕ) (taken : Result (Unit {0}))
      (bytes : List ℕ) (s : Server d)
      → Calls s.requests
      → Calls (on_message d sodium h eph nonce us ms ip hdl taken bytes s).requests
  unfolding on_message
  on_message-Calls eph nonce us ms ip hdl taken bytes s c =
      elim (Option-cases (find_known d hdl s)) [
        | inl unknown ↦ rw (unknown, receive_hello-requests eph ms ip hdl taken bytes s) c
        | inr ((t, x), known) ↦
            rw known (receive_known-Calls sodium d h nonce us ms hdl t x bytes s c)
      ]

  after_request-Calls :
      (hdl id promise : ℕ) (r : Result (Unit {0}) × Server d)
      → Calls r.1.requests
      → Calls (after_request sodium d h hdl id promise r).1.requests
  unfolding after_request
  after_request-Calls hdl id promise (ok u, s) c = c
  after_request-Calls hdl id promise (err e, s) c = fails hdl id e c

  request_built-Calls :
      (nonce : List ℕ) (ms hdl timeout : ℕ) (r : Result Payload) (s : Server d)
      → Calls s.requests
      → Calls (request_built sodium d h nonce ms hdl timeout r s).1.requests
  unfolding request_built
  request_built-Calls nonce ms hdl timeout (err e) s c = skips c
  request_built-Calls nonce ms hdl timeout (ok p) s c =
      let (id, made) = register_request ms hdl timeout s.requests in
      let s' = record s { requests = made } in
      after_request-Calls hdl id s.requests.promises_made (send sodium d h nonce hdl p s')
        (rw (send-requests sodium d h nonce hdl p s') (registers ms hdl timeout c))

  async_request-Calls :
      (nonce : List ℕ) (ms timeout_ms hdl : ℕ) (p : Payload) (s : Server d)
      → Calls s.requests
      → Calls (async_request sodium d h nonce ms timeout_ms hdl p s).1.requests
  unfolding async_request
  async_request-Calls nonce ms timeout_ms hdl p s c =
      let timeout =
        resolve_request_timeout s.config.timeouts.enabled s.config.timeouts.request_ms timeout_ms in
      let payload = request_payload h s.requests.next_request_id p in
      if-Calls sodium d h (is_ready sodium d h (find_ready d hdl s))
        (request_built sodium d h nonce ms hdl timeout payload s)
        (err (logic_error "Session not ready for sending requests."), s)
        (request_built-Calls nonce ms hdl timeout payload s c) c

  with_stream-requests :
      (stream : Stream) (r : Result (Unit {0}) × Server d)
      → (with_stream sodium d h stream r).1.requests ≡ r.1.requests
  with_stream-requests stream (ok u, s) = refl
  with_stream-requests stream (err e, s) = refl

  start_stream-requests :
      (nonce : List ℕ) (hdl : ℕ) (s : Server d)
      → (start_stream sodium d h nonce hdl s).1.requests ≡ s.requests
  unfolding start_stream open_stream
  start_stream-requests nonce hdl s =
      with_stream-requests _ _
      ∙ send_built-requests sodium d h nonce hdl (send sodium d h) _ _
          λ q. send-requests sodium d h nonce hdl q _

  start_on-requests :
      (nonce : List ℕ) (hdl op : ℕ) (stream : Stream) (o : Option (Table × ConnectionState))
      (s : Server d)
      → (start_on sodium d h nonce hdl op stream o s).1.requests ≡ s.requests
  start_on-requests nonce hdl op stream none s = refl
  start_on-requests nonce hdl op stream (some (t, c)) s =
      send_built-requests sodium d h nonce hdl (send sodium d h) _ s
        λ q. send-requests sodium d h nonce hdl q s

  start_stream_with-requests :
      (nonce : List ℕ) (hdl op : ℕ) (s : Server d)
      → (start_stream_with sodium d h nonce hdl op s).1.requests ≡ s.requests
  unfolding start_stream_with open_stream
  start_stream_with-requests nonce hdl op s =
      let stream = Stream.new (outgoing_stream_id sodium d h s) (some op) in
      let opened = open_stream sodium d h hdl stream s in
      let started = start_on sodium d h nonce hdl op stream (find_known d hdl s) opened in
      with_stream-requests stream started
      ∙ start_on-requests nonce hdl op stream (find_known d hdl s) opened

module _ (sodium : Sodium) (d : Double) where
  check_timeouts-requests :
      (ms : ℕ) (s : Server d)
      → (check_timeouts d ms s).requests ≡ check_request_timeouts ms s.requests
  unfolding check_timeouts
  check_timeouts-requests ms s = ground arith

  Service-Calls : {s : Server d} → Service sodium d s → Calls s.requests
  unfolding new on_close stop
  Service-Calls (Service.starts key config) = starts
  Service-Calls (Service.configures hs ahs incoming judge o c calls) = Service-Calls calls
  Service-Calls (Service.opens {s} ms ip hdl calls) =
      let same : (on_open d ms ip hdl s).requests ≡ s.requests = unfold on_open in ground arith in
      rw same (Service-Calls calls)
  Service-Calls (Service.closes hdl calls) = closes hdl (Service-Calls calls)
  Service-Calls (Service.receives {s} h fresh nonce us ms ip hdl taken bytes calls) =
      on_message-Calls sodium d h fresh nonce us ms ip hdl taken bytes s (Service-Calls calls)
  Service-Calls (Service.checks {s} ms calls) =
      rw (check_timeouts-requests ms s) (expires ms (Service-Calls calls))
  Service-Calls (Service.stops calls) = stops (Service-Calls calls)
  Service-Calls (Service.sends {s} h nonce hdl p calls) =
      rw (send-requests sodium d h nonce hdl p s) (Service-Calls calls)
  Service-Calls (Service.sends_anonymous {s} h nonce hdl p calls) =
      rw (send_anonymous-requests sodium d h nonce hdl p s) (Service-Calls calls)
  Service-Calls (Service.requests {s} h nonce ms timeout hdl p calls) =
      async_request-Calls sodium d h nonce ms timeout hdl p s (Service-Calls calls)
  Service-Calls (Service.streams {s} h nonce hdl calls) =
      rw (start_stream-requests sodium d h nonce hdl s) (Service-Calls calls)
  Service-Calls (Service.streams_with {s} h nonce hdl op calls) =
      rw (start_stream_with-requests sodium d h nonce hdl op s) (Service-Calls calls)

  -- Whatever the server and its peers do, each promise that async_request has made is pending or
  -- completed, and only one of the two and once; no other promise is either. So no promise is
  -- completed twice, and none is lost.
  pub requests-held :
      {s : Server d} (t : ℕ)
      → Service sodium d s
      → held t s.requests ≡ (if ltb t s.requests.promises_made then 1 else 0)
  requests-held t calls = held_once (Service-Calls calls) t

  -- Whatever the server and its peers do, a check of the timeouts leaves no request pending whose
  -- deadline has passed.
  pub check_timeouts-expires :
      {s : Server d} (ms : ℕ) (dl : Deadline)
      → Service sodium d s
      → MemDeadline dl s.requests.request_deadlines
      → dl.time ≤ ms
      → key_count dl.hdl dl.request_id (check_timeouts d ms s).requests.pending_requests ≡ 0
  check_timeouts-expires {s} ms dl calls m late =
      rw (check_timeouts-requests ms s) (check_timeouts_passed ms dl (Service-Calls calls) m late)
