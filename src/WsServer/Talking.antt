-- ===== src/WsServer/Talking.antt =====
-- Sending, requests, streams and packets keep which connections there are and who is behind them.
use obscura_proto.Common.{
  ℕ, ◌≡◌, refl, sym, ◌∙◌, ap, List, String, Bool, true, false, Option, none, some, arith, ◌==◌,
  if◌then◌else◌,
}
use obscura_proto.Common.Maps.{find}
use obscura_proto.Errors.{Result, ok, err}
use obscura_proto.Endian.{Host}
use obscura_proto.Packet.{Payload}
use obscura_proto.Packet.Builder.{uint32}
use obscura_proto.Packet.Reader
use obscura_proto.Packet.Reader.{PayloadReader, read_scalar, read_param_bytes}
use obscura_proto.Crypto.Libsodium.{Sodium}
use obscura_proto.Session.{Session, encrypt_payload, decrypt_packet}
use obscura_proto.RateLimiter.Floats.{Double}
use obscura_proto.RateLimiter.Totals.{check_message_rate-total, record_message-total}
use obscura_proto.RateLimiter.{RateLimitConfig, RateLimiter, check_message_rate}
use obscura_proto.Config.{MessageLimitConfig}
use obscura_proto.Handlers.{Answer, finished, respond, dispatch_payload}
use obscura_proto.WsServer.Messages.{read_response}
use obscura_proto.WsServer.Packets.{
  ConnectionState, Verdict, ignored, closed, refused, dispatched, receive_packet, after_decrypt,
}
use obscura_proto.WsServer.State.{
  Server, Table, authenticated, anonymous, table_of, store, find_ready, log_calls,
}
use obscura_proto.WsServer.Sending.{
  after_encrypt, send_on, send, send_anonymous, anonymous_ready, send_built, send_response,
  send_anonymous_response,
}
use obscura_proto.WsServer.Messaging.{
  after_response, after_stream_id, give_answer, process_payload, handlers_of, is_stream_code,
}
use obscura_proto.WsServer.Connections.{after_packet, receive_known}
use obscura_proto.WsServer.Keeping.{
  view_of, Keeps, Keeps-trans, Untouched, Untouched-Keeps, store-Keeps, find_ready-held,
  encrypt_payload-view, decrypt_packet-view,
}

module _ (sodium : Sodium) (d : Double) (h : Host) where
  pub same_rest : (s s' t : Server d) → Keeps d s s' → Untouched d s' t → Keeps d s t
  same_rest s s' t k u = Keeps-trans d s s' t k (Untouched-Keeps d s' t u)

  after_encrypt-Untouched :
      (hdl : ℕ) (t : Table) (c : ConnectionState) (r : Result (List ℕ) × Session) (s : Server d)
      → Untouched d
          (store d t hdl (record c { session = r.1 }) s)
          (after_encrypt sodium d h hdl t c r s)
  unfolding after_encrypt
  after_encrypt-Untouched hdl t c (ok packet, x) s = (refl, refl, refl, refl, refl, refl)
  after_encrypt-Untouched hdl t c (err e, x) s = (refl, refl, refl, refl, refl, refl)

  send_on-Keeps :
      (nonce : List ℕ) (hdl : ℕ) (p : Payload) (message : String)
      (found : Option (Table × ConnectionState)) (s : Server d)
      → ((t : Table) (c : ConnectionState)
          → found ≡ some (t, c)
          → find hdl (table_of d t s) ≡ some c)
      → Keeps d s (send_on sodium d h nonce hdl p message found s).1
  unfolding send_on
  send_on-Keeps nonce hdl p message none s held =
      Untouched-Keeps d s s (refl, refl, refl, refl, refl, refl)
  send_on-Keeps nonce hdl p message (some (t, c)) s held =
      let r = encrypt_payload sodium h nonce p c.session in
      same_rest s (store d t hdl (record c { session = r.1 }) s) _
        (store-Keeps d t hdl c (record c { session = r.1 }) s (held t c refl)
          (ap some (encrypt_payload-view sodium h nonce p c.session)))
        (after_encrypt-Untouched hdl t c r s)

  pub send-Keeps :
      (nonce : List ℕ) (hdl : ℕ) (p : Payload) (s : Server d)
      → Keeps d s (send sodium d h nonce hdl p s).1
  unfolding send
  send-Keeps nonce hdl p s =
      send_on-Keeps nonce hdl p _ (find_ready d hdl s) s λ t c e. (find_ready-held d hdl s t c e).0

  anonymous_ready-held :
      (o : Option ConnectionState) (t : Table) (c : ConnectionState)
      → anonymous_ready sodium d h o ≡ some (t, c)
      → (t ≡ anonymous) × (o ≡ some c)
  anonymous_ready-held none t c e = cc
  anonymous_ready-held (some x) t c e = ground arith

  pub send_anonymous-Keeps :
      (nonce : List ℕ) (hdl : ℕ) (p : Payload) (s : Server d)
      → Keeps d s (send_anonymous sodium d h nonce hdl p s).1
  unfolding send_anonymous
  send_anonymous-Keeps nonce hdl p s =
      send_on-Keeps nonce hdl p _ (anonymous_ready sodium d h (find hdl s.anon_sessions)) s λ t c e.
        let (is_anon, held) = anonymous_ready-held (find hdl s.anon_sessions) t c e in
        rw is_anon held

  pub send_built-Keeps :
      (nonce : List ℕ) (hdl : ℕ)
      (by : List ℕ → ℕ → Payload → Server d → Result (Unit {0}) × Server d) (r : Result Payload)
      (s : Server d)
      → ((p : Payload) → Keeps d s (by nonce hdl p s).1)
      → Keeps d s (send_built sodium d h nonce hdl by r s).1
  send_built-Keeps nonce hdl by (err e) s keeps =
      Untouched-Keeps d s s (refl, refl, refl, refl, refl, refl)
  send_built-Keeps nonce hdl by (ok p) s keeps = keeps p

  pub give_answer-Keeps :
      (nonce : List ℕ) (hdl : ℕ) (t : Table) (a : Answer) (s : Server d)
      → Keeps d s (give_answer sodium d h nonce hdl t a s).1
  unfolding give_answer send_response send_anonymous_response
  give_answer-Keeps nonce hdl t (finished r) s =
      Untouched-Keeps d s s (refl, refl, refl, refl, refl, refl)
  give_answer-Keeps nonce hdl authenticated (respond id p) s =
      send_built-Keeps nonce hdl (send sodium d h) _ s λ q. send-Keeps nonce hdl q s
  give_answer-Keeps nonce hdl anonymous (respond id p) s =
      send_built-Keeps nonce hdl (send_anonymous sodium d h) _ s
        λ q. send_anonymous-Keeps nonce hdl q s

  pub if-Keeps {ℓ} :
      {A : Type ℓ} (b : Bool) (x y : Result A × Server d) (s : Server d)
      → Keeps d s x.1
      → Keeps d s y.1
      → Keeps d s (if b then x else y).1
  if-Keeps true x y s p q = p
  if-Keeps false x y s p q = q

  after_response-Untouched :
      (hdl : ℕ) (r : Result (ℕ × Payload)) (s : Server d)
      → Untouched d s (after_response sodium d h hdl r s).1
  unfolding after_response
  after_response-Untouched hdl (err e) s = (refl, refl, refl, refl, refl, refl)
  after_response-Untouched hdl (ok (id, p)) s = (refl, refl, refl, refl, refl, refl)

  after_stream_id-Untouched :
      (hdl : ℕ) (t : Table) (op : ℕ) (r : Result ℕ × PayloadReader) (s : Server d)
      → Untouched d s (after_stream_id sodium d h hdl t op r s).1
  unfolding after_stream_id
  after_stream_id-Untouched hdl t op (err e, r) s = (refl, refl, refl, refl, refl, refl)
  after_stream_id-Untouched hdl t op (ok id, r) s = ground arith

  pub process_payload-Keeps :
      (nonce : List ℕ) (hdl : ℕ) (t : Table) (p : Payload) (s : Server d)
      → Keeps d s (process_payload sodium d h nonce hdl t p s).1
  unfolding process_payload
  process_payload-Keeps nonce hdl t p s =
      let oc = s.config.opcodes in
      let (calls, answer) = dispatch_payload h hdl p (handlers_of sodium d h t s) in
      let responded = after_response sodium d h hdl (read_response h p) s in
      let id = read_scalar h uint32 (Reader.new p) in
      let streamed = after_stream_id sodium d h hdl t p.op_code id s in
      let answered = give_answer sodium d h nonce hdl t answer (log_calls d hdl calls s) in
      let is_stream = is_stream_code oc p.op_code in
      if-Keeps (p.op_code == oc.response) responded (if is_stream then streamed else answered) s
        (Untouched-Keeps d s _ (after_response-Untouched hdl (read_response h p) s))
        (if-Keeps is_stream streamed answered s
          (Untouched-Keeps d s _ (after_stream_id-Untouched hdl t p.op_code id s))
          (Keeps-trans d s (log_calls d hdl calls s) _
            (Untouched-Keeps d s _ (refl, refl, refl, refl, refl, refl))
            (give_answer-Keeps nonce hdl t answer (log_calls d hdl calls s))))

  after_decrypt-view :
      (rate : RateLimitConfig) (limits : MessageLimitConfig) (us ms : ℕ)
      (got : Result Payload × Session) (c : ConnectionState) (l : RateLimiter d)
      → view_of (after_decrypt sodium d rate limits us ms got c l).1.session ≡ view_of got.1
  unfolding after_decrypt
  after_decrypt-view rate limits us ms (err e, x) c l = refl
  after_decrypt-view rate limits us ms (ok p, x) c l = ground arith

  receive_packet-view :
      (rate : RateLimitConfig) (limits : MessageLimitConfig) (us ms : ℕ) (bytes : List ℕ)
      (c : ConnectionState) (l : RateLimiter d)
      → view_of (receive_packet sodium d h rate limits us ms bytes c l).1.session
        ≡ view_of c.session
  unfolding receive_packet
  receive_packet-view rate limits us ms bytes c l =
      let got = decrypt_packet sodium h bytes c.session in
      let checked =
        if rate.enabled then check_message_rate d us c.rate_limiter_id l else (true, l) in
      ground (
        arith,
        after_decrypt-view rate limits us ms got c checked.1,
        decrypt_packet-view sodium h bytes c.session,
      )

  after_decrypt-total :
      (rate : RateLimitConfig) (limits : MessageLimitConfig) (us ms : ℕ)
      (got : Result Payload × Session) (c : ConnectionState) (l : RateLimiter d)
      → (after_decrypt sodium d rate limits us ms got c l).2.total_connections ≡ l.total_connections
  unfolding after_decrypt
  after_decrypt-total rate limits us ms (err e, x) c l = refl
  after_decrypt-total rate limits us ms (ok p, x) c l =
      ground (arith, record_message-total d us l c.rate_limiter_id)

  receive_packet-total :
      (rate : RateLimitConfig) (limits : MessageLimitConfig) (us ms : ℕ) (bytes : List ℕ)
      (c : ConnectionState) (l : RateLimiter d)
      → (receive_packet sodium d h rate limits us ms bytes c l).2.total_connections
        ≡ l.total_connections
  unfolding receive_packet
  receive_packet-total rate limits us ms bytes c l =
      let got = decrypt_packet sodium h bytes c.session in
      let checked =
        if rate.enabled then check_message_rate d us c.rate_limiter_id l else (true, l) in
      ground (
        arith,
        after_decrypt-total rate limits us ms got c checked.1,
        check_message_rate-total d us l c.rate_limiter_id,
      )

  after_packet-Keeps :
      (nonce : List ℕ) (hdl : ℕ) (t : Table) (v : Verdict) (s : Server d)
      → Keeps d s (after_packet d sodium h nonce hdl t v s)
  unfolding after_packet
  after_packet-Keeps nonce hdl t ignored s =
      Untouched-Keeps d s _ (refl, refl, refl, refl, refl, refl)
  after_packet-Keeps nonce hdl t (closed reason) s =
      Untouched-Keeps d s _ (refl, refl, refl, refl, refl, refl)
  after_packet-Keeps nonce hdl t (refused e) s =
      Untouched-Keeps d s _ (refl, refl, refl, refl, refl, refl)
  after_packet-Keeps nonce hdl t (dispatched p) s = process_payload-Keeps nonce hdl t p s

  pub receive_known-Keeps :
      (nonce : List ℕ) (us ms hdl : ℕ) (t : Table) (c : ConnectionState) (bytes : List ℕ)
      (s : Server d)
      → find hdl (table_of d t s) ≡ some c
      → Keeps d s (receive_known d sodium h nonce us ms hdl t c bytes s)
  unfolding receive_known
  receive_known-Keeps nonce us ms hdl t c bytes s held =
      let got =
        receive_packet sodium d h s.config.rate_limit s.config.message_limits us ms bytes c
          s.rate_limiter in
      let stored = store d t hdl got.1 s in
      let seen = ap some (
        receive_packet-view s.config.rate_limit s.config.message_limits us ms bytes c
          s.rate_limiter) in
      let total =
        receive_packet-total s.config.rate_limit s.config.message_limits us ms bytes c
          s.rate_limiter
        ∙ sym (store-Keeps d t hdl c got.1 s held seen).total in
      Keeps-trans d s (record stored { rate_limiter = got.2 }) _
        (same_rest s stored _ (store-Keeps d t hdl c got.1 s held seen)
          (refl, refl, refl, refl, total, refl))
        (after_packet-Keeps nonce hdl t got.0 (record stored { rate_limiter = got.2 }))
