-- ===== src/WsClient/Keys.antt =====
-- What the methods of the client do to the keys of its session: once these are there, nothing.
use obscura_proto.Common.{
  ℕ, ◌≡◌, refl, ap, ltb, ◌∙◌, inl, inr, List, Bool, true, false, Option, none, some, arith,
  if◌then◌else◌, Bool-cases,
}
use obscura_proto.Errors.{Result, ok, err}
use obscura_proto.Endian.{Host}
use obscura_proto.Packet.{Payload}
use obscura_proto.Packet.Builder.{uint32}
use obscura_proto.Packet.Reader
use obscura_proto.Packet.Reader.{PayloadReader, read_scalar}
use obscura_proto.Handshake.{KeyPair, ClientHello, deserialize_server}
use obscura_proto.Crypto.{SessionKeys, DecryptedResult}
use obscura_proto.Crypto.Libsodium.{Sodium}
use obscura_proto.Session.{
  Session, set_client_identity_key, client_initiate_handshake, encrypt_payload, decrypt_packet,
  accept_counter,
}
use obscura_proto.Stream.{Stream}
use obscura_proto.WsServer.Requests.{resolve_request_timeout}
use obscura_proto.WsClient.Requests.{register_request}
use obscura_proto.Handlers.{Answer, finished, respond, dispatch_payload}
use obscura_proto.WsServer.Messages.{read_response, response_payload, request_payload}
use obscura_proto.WsServer.Packets.{is_too_large}
use obscura_proto.WsClient.State.{put_stream, ensure_watchdog, Client, disconnect, log_calls}
use obscura_proto.WsClient.Sending.{
  after_request, request_built, async_request, with_stream, open_stream, after_encrypt, send,
  send_built, send_response,
}
use obscura_proto.WsClient.Messages.{
  caught, send_hello, initiate, with_identity, on_open, after_response, after_stream_id,
  give_answer, process_payload, after_decrypt, receive_hello, on_message,
}

-- What the handshake has set.
abbrev pub keys_of : Session → Option SessionKeys × Option ℕ × Bool
keys_of x = (x.session_keys, x.selected_version, x.handshake_complete)

if_true {ℓ} : {A : Type ℓ} (b : Bool) (x y : A) → b ≡ true → (if b then x else y) ≡ x
if_true true x y e = refl
if_true false x y e = cc

module _ (sodium : Sodium) (h : Host) where
  caught-keys :
      (r : Result (Unit {0}) × Client) → keys_of (caught sodium h r).session ≡ keys_of r.1.session
  unfolding caught disconnect
  caught-keys (ok u, c) = refl
  caught-keys (err e, c) = ground arith

  after_encrypt-keys :
      (r : Result (List ℕ) × Session) (c : Client)
      → keys_of (after_encrypt sodium h r c).session ≡ keys_of r.1
  unfolding after_encrypt
  after_encrypt-keys (ok packet, x) c = refl
  after_encrypt-keys (err e, x) c = refl

  encrypt_payload-keys :
      (nonce : List ℕ) (p : Payload) (x : Session)
      → keys_of (encrypt_payload sodium h nonce p x).1 ≡ keys_of x
  unfolding encrypt_payload
  encrypt_payload-keys nonce p x = ground arith

  pub send-keys :
      (nonce : List ℕ) (p : Payload) (c : Client)
      → keys_of (send sodium h nonce p c).1.session ≡ keys_of c.session
  unfolding send
  send-keys nonce p c = ground (
    arith,
    after_encrypt-keys (encrypt_payload sodium h nonce p c.session) c,
    encrypt_payload-keys nonce p c.session,
  )

  send_built-keys :
      (nonce : List ℕ) (r : Result Payload) (c : Client)
      → keys_of (send_built sodium h nonce r c).1.session ≡ keys_of c.session
  send_built-keys nonce (err e) c = refl
  send_built-keys nonce (ok p) c = send-keys nonce p c

  pub give_answer-keys :
      (nonce : List ℕ) (a : Answer) (c : Client)
      → keys_of (give_answer sodium h nonce a c).1.session ≡ keys_of c.session
  unfolding give_answer send_response
  give_answer-keys nonce (finished r) c = refl
  give_answer-keys nonce (respond id p) c =
      send_built-keys nonce (response_payload h c.config.opcodes.response id p) c

  after_response-session :
      (r : Result (ℕ × Payload)) (c : Client) → (after_response sodium h r c).1.session ≡ c.session
  unfolding after_response
  after_response-session (err e) c = refl
  after_response-session (ok (id, p)) c = refl

  after_stream_id-session :
      (op : ℕ) (r : Result ℕ × PayloadReader) (c : Client)
      → (after_stream_id sodium h op r c).1.session ≡ c.session
  unfolding after_stream_id
  after_stream_id-session op (err e, r) c = refl
  after_stream_id-session op (ok id, r) c = ground arith

  process_payload-keys :
      (nonce : List ℕ) (p : Payload) (c : Client)
      → keys_of (process_payload sodium h nonce p c).1.session ≡ keys_of c.session
  unfolding process_payload
  process_payload-keys nonce p c =
      let (calls, answer) = dispatch_payload h tt p c.handlers in
      ground (
        arith,
        after_response-session (read_response h p) c,
        after_stream_id-session p.op_code (read_scalar h uint32 (Reader.new p)) c,
        give_answer-keys nonce answer (log_calls calls c),
      )

  accept_counter-keys :
      (r : Result DecryptedResult) (x : Session) → keys_of (accept_counter r x).1 ≡ keys_of x
  unfolding accept_counter
  accept_counter-keys (err e) x = refl
  accept_counter-keys (ok r) x = ground arith

  decrypt_packet-keys :
      (packet : List ℕ) (x : Session) → keys_of (decrypt_packet sodium h packet x).1 ≡ keys_of x
  unfolding decrypt_packet
  decrypt_packet-keys packet x = grind (arith, accept_counter-keys)

  after_decrypt-keys :
      (nonce : List ℕ) (r : Result Payload × Session) (c : Client)
      → keys_of (after_decrypt sodium h nonce r c).1.session ≡ keys_of r.1
  unfolding after_decrypt
  after_decrypt-keys nonce (err e, x) c = refl
  after_decrypt-keys nonce (ok p, x) c =
      elim (Bool-cases (is_too_large c.config.message_limits p)) [
        | inl big ↦ rw big (unfold disconnect in ground arith)
        | inr fits ↦ rw fits (process_payload-keys nonce p (record c { session = x }))
      ]

  pub on_message-keys :
      (nonce bytes : List ℕ) (c : Client)
      → c.session.handshake_complete ≡ true
      → keys_of (on_message sodium h nonce bytes c).session ≡ keys_of c.session
  unfolding on_message
  on_message-keys nonce bytes c complete =
      let r = after_decrypt sodium h nonce (decrypt_packet sodium h bytes c.session) c in
      let this =
        if_true c.session.handshake_complete r
          (receive_hello sodium h (deserialize_server h bytes) c) complete in
      ap (λ (q : Result (Unit {0}) × Client). keys_of (caught sodium h q).session) this
      ∙ caught-keys r
      ∙ after_decrypt-keys nonce (decrypt_packet sodium h bytes c.session) c
      ∙ decrypt_packet-keys bytes c.session

  initiated-keys :
      (fresh : KeyPair) (x : Session)
      → keys_of (client_initiate_handshake sodium fresh x).1 ≡ keys_of x
  unfolding client_initiate_handshake
  initiated-keys fresh x = ground arith

  send_hello-keys :
      (taken : Result (Unit {0})) (r : Result ClientHello × Session) (c : Client)
      → keys_of (send_hello sodium h taken r c).1.session ≡ keys_of r.1
  unfolding send_hello
  send_hello-keys taken (err e, x) c = refl
  send_hello-keys (err e) (ok hello, x) c = refl
  send_hello-keys (ok u) (ok hello, x) c = refl

  initiate-keys :
      (fresh : KeyPair) (taken : Result (Unit {0})) (r : Result (Unit {0}) × Session) (c : Client)
      → keys_of (initiate sodium h fresh taken r c).1.session ≡ keys_of r.1
  unfolding initiate
  initiate-keys fresh taken (err e, x) c = refl
  initiate-keys fresh taken (ok u, x) c =
      send_hello-keys taken (client_initiate_handshake sodium fresh x) c ∙ initiated-keys fresh x

  with_identity-keys :
      (kp : Option KeyPair) (x : Session) → keys_of (with_identity sodium h kp x).1 ≡ keys_of x
  with_identity-keys none x = refl
  with_identity-keys (some kp) x = unfold set_client_identity_key in ground arith

  pub on_open-keys :
      (fresh : KeyPair) (taken : Result (Unit {0})) (hdl : ℕ) (c : Client)
      → keys_of (on_open sodium h fresh taken hdl c).session ≡ keys_of c.session
  unfolding on_open
  on_open-keys fresh taken hdl c =
      let c' = record c { connection_hdl = hdl; is_connected = true } in
      let x = with_identity sodium h c.client_identity_kp c.session in
      caught-keys (initiate sodium h fresh taken x c')
      ∙ initiate-keys fresh taken x c'
      ∙ with_identity-keys c.client_identity_kp c.session

  after_request-session :
      (id promise : ℕ) (r : Result (Unit {0}) × Client)
      → (after_request sodium h id promise r).1.session ≡ r.1.session
  unfolding after_request
  after_request-session id promise (ok u, c) = refl
  after_request-session id promise (err e, c) = refl

  request_built-keys :
      (nonce : List ℕ) (ms timeout : ℕ) (r : Result Payload) (c : Client)
      → keys_of (request_built sodium h nonce ms timeout r c).1.session ≡ keys_of c.session
  unfolding request_built
  request_built-keys nonce ms timeout (err e) c = refl
  request_built-keys nonce ms timeout (ok p) c =
      let (id, made) = register_request ms timeout c.requests in
      let c' = record c { requests = made } in
      let c'' = if ltb 0 timeout then ensure_watchdog c' else c' in
      let same : keys_of c''.session ≡ keys_of c.session = unfold ensure_watchdog in ground arith in
      ap keys_of (after_request-session id c.requests.promises_made (send sodium h nonce p c''))
      ∙ send-keys nonce p c''
      ∙ same

  pub async_request-keys :
      (nonce : List ℕ) (ms timeout_ms : ℕ) (p : Payload) (c : Client)
      → keys_of (async_request sodium h nonce ms timeout_ms p c).1.session ≡ keys_of c.session
  unfolding async_request
  async_request-keys nonce ms timeout_ms p c =
      let timeout =
        resolve_request_timeout c.config.timeouts.enabled c.config.timeouts.request_ms timeout_ms in
      let payload = request_payload h c.requests.next_request_id p in
      ground (arith, request_built-keys nonce ms timeout payload c)

  with_stream-session :
      (stream : Stream) (r : Result (Unit {0}) × Client)
      → (with_stream sodium h stream r).1.session ≡ r.1.session
  with_stream-session stream (ok u, c) = refl
  with_stream-session stream (err e, c) = refl

  pub started-keys :
      (nonce : List ℕ) (stream : Stream) (r : Result Payload) (c : Client)
      → keys_of
          (with_stream sodium h stream
            (send_built sodium h nonce r (open_stream sodium h stream c))).1.session
        ≡ keys_of c.session
  unfolding open_stream put_stream
  started-keys nonce stream r c =
      let opened = open_stream sodium h stream c in
      ap keys_of (with_stream-session stream (send_built sodium h nonce r opened))
      ∙ send_built-keys nonce r opened
