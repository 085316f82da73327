-- ===== src/Exchange/Answering.antt =====
-- The server's half: a request on a known connection, its handler, and the response it sends.
use obscura_proto.Common.{
  ℕ, ◌≡◌, refl, ap, ◌∙◌, List, [], ◌∷◌, true, false, some, ◌==◌, ==_refl, if◌then◌else◌,
}
use obscura_proto.Common.Maps.{find, insert, find-insert}
use obscura_proto.Errors.{Result, ok}
use obscura_proto.Endian.{Host}
use obscura_proto.Packet.{Payload}
use obscura_proto.Packet.Reader.{PayloadReader}
use obscura_proto.Handshake.{KeyPair}
use obscura_proto.Crypto.Libsodium.{Sodium}
use obscura_proto.Session.{Session, encrypt_payload, decrypt_packet}
use obscura_proto.RateLimiter.Floats.{Double}
use obscura_proto.RateLimiter.{RateLimiter, Ip, check_message_rate, record_message}
use obscura_proto.Handlers.{Handlers, Call, request_call, respond, dispatch_payload}
use obscura_proto.WsServer.Messages.{read_request, response_payload}
use obscura_proto.WsServer.Packets.{ConnectionState, dispatched, is_too_large, receive_packet}
use obscura_proto.WsServer.State.{
  Server, Table, authenticated, anonymous, table_of, store, find_known, frame_sent, called,
  log_calls,
}
use obscura_proto.WsServer.Sending.{send_response, send_anonymous_response}
use obscura_proto.WsServer.Messaging.{handlers_of, is_stream_code, give_answer, process_payload}
use obscura_proto.WsServer.Connections.{on_message}

module _ (sodium : Sodium) (d : Double) (h : Host) where
  -- The answer to a request that a handler takes.
  request-dispatched :
      {C : Type 0} (c : C) (p response : Payload) (id : ℕ) (r : PayloadReader) (hs : Handlers C)
      (f : C × PayloadReader → Result Payload)
      → hs.request_handlers p.op_code ≡ some (some f)
      → read_request h p ≡ (ok id, r)
      → f (c, r) ≡ ok response
      → dispatch_payload h c p hs ≡ (request_call r ∷ [], respond id response)
  unfolding dispatch_payload
  request-dispatched c p response id r hs f registered read answered =
      simp (registered, read, answered)

  module _ (nonce : List ℕ) (hdl id : ℕ) (response sent : Payload) (c : ConnectionState)
      (frame : List ℕ) (x : Session) (complete : c.session.handshake_complete ≡ true)
      (encrypted : encrypt_payload sodium h nonce sent c.session ≡ (ok frame, x)) where
    give_answer-framed :
        (t : Table) (s : Server d)
        → find hdl (table_of d t s) ≡ some c
        → response_payload h s.config.opcodes.response id response ≡ ok sent
        → (give_answer sodium d h nonce hdl t (respond id response) s).1.effects
          ≡ frame_sent hdl frame ∷ s.effects
    unfolding give_answer send_response send_anonymous_response store
    give_answer-framed authenticated s held written = simp (written, held, complete, encrypted)
    give_answer-framed anonymous s held written = simp (written, held, complete, encrypted)

  -- The guards in front of the dispatch.
  module _ (us ms : ℕ) (packet : List ℕ) (s : Server d) (c : ConnectionState) (p : Payload)
      (x : Session) (complete : c.session.handshake_complete ≡ true)
      (passes : (if s.config.rate_limit.enabled
          then check_message_rate d us c.rate_limiter_id s.rate_limiter
          else (true, s.rate_limiter)).0
        ≡ true)
      (decrypted : decrypt_packet sodium h packet c.session ≡ (ok p, x))
      (fits : is_too_large s.config.message_limits p ≡ false) where
    received-dispatched :
        (l : RateLimiter d) × (receive_packet sodium d h s.config.rate_limit s.config.message_limits
            us ms packet c s.rate_limiter
          ≡ (dispatched p, record c { session = x; last_activity_ms = ms }, l))
    unfolding receive_packet
    received-dispatched =
        let checked =
          if s.config.rate_limit.enabled
          then check_message_rate d us c.rate_limiter_id s.rate_limiter
          else (true, s.rate_limiter) in
        (
          if s.config.rate_limit.enabled
              then record_message d us c.rate_limiter_id checked.1
              else checked.1,
          simp (complete, passes, decrypted, fits),
        )

  table_of-log_calls :
      (hdl : ℕ) (calls : List Call) (t : Table) (s : Server d)
      → table_of d t (log_calls d hdl calls s) ≡ table_of d t s
  table_of-log_calls hdl calls authenticated s = refl
  table_of-log_calls hdl calls anonymous s = refl

  -- The packet of a request, from its payload on.
  process-framed :
      (nonce : List ℕ) (hdl id : ℕ) (t : Table) (p response sent : Payload) (r : PayloadReader)
      (f : ℕ × PayloadReader → Result Payload) (c : ConnectionState) (frame : List ℕ) (x : Session)
      (s : Server d)
      → find hdl (table_of d t s) ≡ some c
      → c.session.handshake_complete ≡ true
      → (p.op_code == s.config.opcodes.response) ≡ false
      → is_stream_code s.config.opcodes p.op_code ≡ false
      → (handlers_of sodium d h t s).request_handlers p.op_code ≡ some (some f)
      → read_request h p ≡ (ok id, r)
      → f (hdl, r) ≡ ok response
      → response_payload h s.config.opcodes.response id response ≡ ok sent
      → encrypt_payload sodium h nonce sent c.session ≡ (ok frame, x)
      → (process_payload sodium d h nonce hdl t p s).1.effects
        ≡ frame_sent hdl frame ∷ called hdl (request_call r) ∷ s.effects
  unfolding process_payload
  process-framed nonce hdl id t p response sent r f c frame x s held complete other no_stream
        registered read answered written encrypted =
      let calls : List Call = request_call r ∷ [] in
      let framed =
        give_answer-framed nonce hdl id response sent c frame x complete encrypted t
          (log_calls d hdl calls s) (ap (find hdl) (table_of-log_calls hdl calls t s) ∙ held)
          written in
      simp
        (
          other,
          no_stream,
          request-dispatched hdl p response id r (handlers_of sodium d h t s) f registered read
              answered,
        )
        framed

  find-insert_self :
      (hdl : ℕ) (c : ConnectionState) (m : List (ℕ × ConnectionState))
      → find hdl (insert hdl c m) ≡ some c
  find-insert_self hdl c m = rw (find-insert hdl hdl c m, ==_refl hdl) refl

  -- A request that arrives on a known connection is answered with the response of its handler.
  pub on_message-framed :
      (eph : KeyPair) (nonce : List ℕ) (us ms : ℕ) (ip : Ip) (hdl id : ℕ)
      (taken : Result (Unit {0})) (packet : List ℕ) (t : Table) (p response sent : Payload)
      (r : PayloadReader) (f : ℕ × PayloadReader → Result Payload) (c : ConnectionState)
      (frame : List ℕ) (x y : Session) (s : Server d)
      → find_known d hdl s ≡ some (t, c)
      → c.session.handshake_complete ≡ true
      → (if s.config.rate_limit.enabled
          then check_message_rate d us c.rate_limiter_id s.rate_limiter
          else (true, s.rate_limiter)).0
        ≡ true
      → decrypt_packet sodium h packet c.session ≡ (ok p, x)
      → x.handshake_complete ≡ true
      → is_too_large s.config.message_limits p ≡ false
      → (p.op_code == s.config.opcodes.response) ≡ false
      → is_stream_code s.config.opcodes p.op_code ≡ false
      → (handlers_of sodium d h t s).request_handlers p.op_code ≡ some (some f)
      → read_request h p ≡ (ok id, r)
      → f (hdl, r) ≡ ok response
      → response_payload h s.config.opcodes.response id response ≡ ok sent
      → encrypt_payload sodium h nonce sent x ≡ (ok frame, y)
      → (on_message d sodium h eph nonce us ms ip hdl taken packet s).effects
        ≡ frame_sent hdl frame ∷ called hdl (request_call r) ∷ s.effects
  unfolding on_message store
  on_message-framed eph nonce us ms ip hdl id taken packet authenticated p response sent r f c frame
        x y s known complete passes decrypted complete' fits other no_stream registered read
        answered written encrypted =
      let (l, got) = received-dispatched us ms packet s c p x complete passes decrypted fits in
      let c' : ConnectionState = record c { session = x; last_activity_ms = ms } in
      simp (known, got)
        (process-framed nonce hdl id authenticated p response sent r f c' frame y
          (record s { sessions = insert hdl c' s.sessions; rate_limiter = l })
          (find-insert_self hdl c' s.sessions) complete' other no_stream registered read answered
          written encrypted)
  on_message-framed eph nonce us ms ip hdl id taken packet anonymous p response sent r f c frame x y
        s known complete passes decrypted complete' fits other no_stream registered read answered
        written encrypted =
      let (l, got) = received-dispatched us ms packet s c p x complete passes decrypted fits in
      let c' : ConnectionState = record c { session = x; last_activity_ms = ms } in
      simp (known, got)
        (process-framed nonce hdl id anonymous p response sent r f c' frame y
          (record s { anon_sessions = insert hdl c' s.anon_sessions; rate_limiter = l })
          (find-insert_self hdl c' s.anon_sessions) complete' other no_stream registered read
          answered written encrypted)
