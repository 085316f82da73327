-- ===== src/WsServer/Holding.antt =====
-- What sends and packets do to the requests of the server: nothing, or a call of those in
-- WsServer/Completion.
use obscura_proto.Common.{
  ℕ, ◌≡◌, refl, List, String, Bool, true, false, Option, none, some, arith, ◌==◌, if◌then◌else◌,
}
use obscura_proto.Common.Maps.{find}
use obscura_proto.Errors.{Result, ok, err}
use obscura_proto.Endian.{Host}
use obscura_proto.Packet.{Payload}
use obscura_proto.Packet.Builder.{uint32}
use obscura_proto.Packet.Reader
use obscura_proto.Packet.Reader.{PayloadReader, read_scalar}
use obscura_proto.Crypto.Libsodium.{Sodium}
use obscura_proto.Session.{Session, encrypt_payload}
use obscura_proto.RateLimiter.Floats.{Double}
use obscura_proto.Handlers.{Answer, finished, respond, dispatch_payload}
use obscura_proto.WsServer.Completion.{Calls, receives}
use obscura_proto.WsServer.Messages.{read_response}
use obscura_proto.WsServer.Packets.{
  ConnectionState, Verdict, ignored, closed, refused, dispatched, receive_packet,
}
use obscura_proto.WsServer.State.{
  Server, Table, authenticated, anonymous, store, find_ready, log_calls,
}
use obscura_proto.WsServer.Sending.{
  after_encrypt, send_on, send, send_anonymous, anonymous_ready, send_built, send_response,
  send_anonymous_response,
}
use obscura_proto.WsServer.Messaging.{
  after_response, after_stream_id, give_answer, process_payload, handlers_of, is_stream_code,
}
use obscura_proto.WsServer.Connections.{after_packet, receive_known}

module _ (sodium : Sodium) (d : Double) (h : Host) where
  store-requests :
      (t : Table) (hdl : ℕ) (c : ConnectionState) (s : Server d)
      → (store d t hdl c s).requests ≡ s.requests
  unfolding store
  store-requests authenticated hdl c s = refl
  store-requests anonymous hdl c s = refl

  after_encrypt-requests :
      (hdl : ℕ) (t : Table) (c : ConnectionState) (r : Result (List ℕ) × Session) (s : Server d)
      → (after_encrypt sodium d h hdl t c r s).requests ≡ s.requests
  unfolding after_encrypt
  after_encrypt-requests hdl t c (ok packet, x) s = store-requests t hdl _ s
  after_encrypt-requests hdl t c (err e, x) s = store-requests t hdl _ s

  send_on-requests :
      (nonce : List ℕ) (hdl : ℕ) (p : Payload) (message : String)
      (found : Option (Table × ConnectionState)) (s : Server d)
      → (send_on sodium d h nonce hdl p message found s).1.requests ≡ s.requests
  unfolding send_on
  send_on-requests nonce hdl p message none s = refl
  send_on-requests nonce hdl p message (some (t, c)) s =
      after_encrypt-requests hdl t c (encrypt_payload sodium h nonce p c.session) s

  pub send-requests :
      (nonce : List ℕ) (hdl : ℕ) (p : Payload) (s : Server d)
      → (send sodium d h nonce hdl p s).1.requests ≡ s.requests
  unfolding send
  send-requests nonce hdl p s = send_on-requests nonce hdl p _ (find_ready d hdl s) s

  pub send_anonymous-requests :
      (nonce : List ℕ) (hdl : ℕ) (p : Payload) (s : Server d)
      → (send_anonymous sodium d h nonce hdl p s).1.requests ≡ s.requests
  unfolding send_anonymous
  send_anonymous-requests nonce hdl p s =
      send_on-requests nonce hdl p _ (anonymous_ready sodium d h (find hdl s.anon_sessions)) s

  pub send_built-requests :
      (nonce : List ℕ) (hdl : ℕ)
      (by : List ℕ → ℕ → Payload → Server d → Result (Unit {0}) × Server d) (r : Result Payload)
      (s : Server d)
      → ((p : Payload) → (by nonce hdl p s).1.requests ≡ s.requests)
      → (send_built sodium d h nonce hdl by r s).1.requests ≡ s.requests
  send_built-requests nonce hdl by (err e) s same = refl
  send_built-requests nonce hdl by (ok p) s same = same p

  give_answer-requests :
      (nonce : List ℕ) (hdl : ℕ) (t : Table) (a : Answer) (s : Server d)
      → (give_answer sodium d h nonce hdl t a s).1.requests ≡ s.requests
  unfolding give_answer send_response send_anonymous_response
  give_answer-requests nonce hdl t (finished r) s = refl
  give_answer-requests nonce hdl authenticated (respond id p) s =
      send_built-requests nonce hdl (send sodium d h) _ s λ q. send-requests nonce hdl q s
  give_answer-requests nonce hdl anonymous (respond id p) s =
      send_built-requests nonce hdl (send_anonymous sodium d h) _ s
        λ q. send_anonymous-requests nonce hdl q s

  after_response-Calls :
      (hdl : ℕ) (r : Result (ℕ × Payload)) (s : Server d)
      → Calls s.requests
      → Calls (after_response sodium d h hdl r s).1.requests
  unfolding after_response
  after_response-Calls hdl (err e) s c = c
  after_response-Calls hdl (ok (id, p)) s c = receives hdl id p c

  after_stream_id-requests :
      (hdl : ℕ) (t : Table) (op : ℕ) (r : Result ℕ × PayloadReader) (s : Server d)
      → (after_stream_id sodium d h hdl t op r s).1.requests ≡ s.requests
  unfolding after_stream_id
  after_stream_id-requests hdl t op (err e, r) s = refl
  after_stream_id-requests hdl t op (ok id, r) s = ground arith

  pub if-Calls {ℓ} :
      {A : Type ℓ} (b : Bool) (x y : Result A × Server d)
      → Calls x.1.requests
      → Calls y.1.requests
      → Calls (if b then x else y).1.requests
  if-Calls true x y p q = p
  if-Calls false x y p q = q

  process_payload-Calls :
      (nonce : List ℕ) (hdl : ℕ) (t : Table) (p : Payload) (s : Server d)
      → Calls s.requests
      → Calls (process_payload sodium d h nonce hdl t p s).1.requests
  unfolding process_payload
  process_payload-Calls nonce hdl t p s c =
      let oc = s.config.opcodes in
      let (calls, answer) = dispatch_payload h hdl p (handlers_of sodium d h t s) in
      let responded = after_response sodium d h hdl (read_response h p) s in
      let id = read_scalar h uint32 (Reader.new p) in
      let streamed = after_stream_id sodium d h hdl t p.op_code id s in
      let answered = give_answer sodium d h nonce hdl t answer (log_calls d hdl calls s) in
      let is_stream = is_stream_code oc p.op_code in
      if-Calls (p.op_code == oc.response) responded (if is_stream then streamed else answered)
        (after_response-Calls hdl (read_response h p) s c)
        (if-Calls is_stream streamed answered (rw (after_stream_id-requests hdl t p.op_code id s) c)
          (rw (give_answer-requests nonce hdl t answer (log_calls d hdl calls s)) c))

  after_packet-Calls :
      (nonce : List ℕ) (hdl : ℕ) (t : Table) (v : Verdict) (s : Server d)
      → Calls s.requests
      → Calls (after_packet d sodium h nonce hdl t v s).requests
  unfolding after_packet
  after_packet-Calls nonce hdl t ignored s c = c
  after_packet-Calls nonce hdl t (closed reason) s c = c
  after_packet-Calls nonce hdl t (refused e) s c = c
  after_packet-Calls nonce hdl t (dispatched p) s c = process_payload-Calls nonce hdl t p s c

  pub receive_known-Calls :
      (nonce : List ℕ) (us ms hdl : ℕ) (t : Table) (x : ConnectionState) (bytes : List ℕ)
      (s : Server d)
      → Calls s.requests
      → Calls (receive_known d sodium h nonce us ms hdl t x bytes s).requests
  unfolding receive_known
  receive_known-Calls nonce us ms hdl t x bytes s c =
      let got =
        receive_packet sodium d h s.config.rate_limit s.config.message_limits us ms bytes x
          s.rate_limiter in
      after_packet-Calls nonce hdl t got.0 (record (store d t hdl got.1 s) { rate_limiter = got.2 })
        (rw (store-requests t hdl got.1 s) c)
