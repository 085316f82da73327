-- ===== src/Exchange/RoundTrip.antt =====
-- A request over the wire and back: the future of the client's async_request gets what the handler
-- on the server returns.
use obscura_proto.Common.{
  ℕ, ◌+◌, ◌<◌, ◌^◌, ◌≡◌, sym, ap, ◌∙◌, List, ◌∷◌, true, false, none, some, ◌==◌, ==_refl,
  if◌then◌else◌, length,
}
use obscura_proto.Common.Words.{IsU16, IsU32}
use obscura_proto.Errors.{Result, ok}
use obscura_proto.Endian.{Host}
use obscura_proto.Packet.{Payload}
use obscura_proto.Packet.Reader.{PayloadReader}
use obscura_proto.Packet.Framing.{reader_at}
use obscura_proto.Handshake.{KeyPair}
use obscura_proto.Crypto.Libsodium.{Sodium, SodiumLaws}
use obscura_proto.Crypto.Envelope.{envelope}
use obscura_proto.Session.{Session, decrypt_packet}
use obscura_proto.Session.Channel.{Sent, Linked, sent_one, got_one}
use obscura_proto.RateLimiter.Floats.{Double}
use obscura_proto.RateLimiter.{Ip, check_message_rate}
use obscura_proto.Handlers.{request_call}
use obscura_proto.Config.{Config}
use obscura_proto.WsServer.Requests.{value, resolve_request_timeout}
use obscura_proto.WsServer.Messages.{
  request_payload, response_payload, read_request-request_payload, read_response-response_payload,
}
use obscura_proto.WsServer.Packets.{ConnectionState, is_too_large}
use obscura_proto.WsServer.State.{
  Server, Table, find_known, frame_sent as server_frame_sent, called,
}
use obscura_proto.WsServer.Messaging.{handlers_of, is_stream_code}
use obscura_proto.WsServer.Connections.{on_message as server_on_message}
use obscura_proto.WsClient.Requests.{
  Requests, take_out, complete, register_request, receive_response,
}
use obscura_proto.WsClient.State.{Client, frame_sent}
use obscura_proto.WsClient.Sending.{async_request}
use obscura_proto.WsClient.Messages.{on_message}
use obscura_proto.Exchange.Asking.{sent_next, async_request-Asked, on_message-response}
use obscura_proto.Exchange.Answering.{on_message-framed}

-- What a session receives does not matter for what it sends, nor the other way round.
Linked-turn :
    (a b : Session) (key : List ℕ) (m n : ℕ)
    → Linked a b key
    → Linked (record a { recv_counter = m }) (record b { send_counter = n }) key
Linked-turn a b key m n l = record {
  a_keys = l.a_keys;
  b_keys = l.b_keys;
  a_complete = l.a_complete;
  b_complete = l.b_complete;
  a_held = l.a_held;
  b_held = l.b_held;
  a_key = l.a_key;
  b_key = l.b_key;
  key_size = l.key_size;
  behind = l.behind;
}

-- A request under an id that is free, and its response: the new promise is completed, and the
-- other requests are as before.
registered-received :
    (ms timeout : ℕ) (response : Payload) (s : Requests)
    → take_out s.next_request_id s.pending_requests ≡ (none, s.pending_requests)
    → ((receive_response s.next_request_id response (register_request ms timeout s).1).completed
        ≡ record { promise = s.promises_made; completion = value response } ∷ s.completed)
      × ((receive_response s.next_request_id response
            (register_request ms timeout s).1).pending_requests
          ≡ s.pending_requests)
unfolding receive_response register_request
registered-received ms timeout response s free =
    (simp (free, ==_refl s.next_request_id), simp (free, ==_refl s.next_request_id))

module _ (sodium : Sodium) (laws : SodiumLaws sodium) (d : Double) (w r : Host) where
  -- Let a client be connected over a channel with equal keys at both ends, counters below 2 ^ 64,
  -- nonces of 12 bytes and packets within the message rate and the size limits; let the ids of the
  -- request and of the response be 32 bits wide and their operation codes 16; let no request be
  -- pending under the id, and the operation code of the request be none that is reserved. If the
  -- server has a handler for it that returns a response that fits a parameter, then the request is
  -- sent in one frame; the server, on getting the frame, calls the handler once, with a reader that
  -- stands in front of the request's parameters, and sends one frame back; and the client, on
  -- getting that frame, completes the future that async_request has returned with the response,
  -- and no other.
  pub request-response :
      (c : Client) (s : Server d) (hdl : ℕ) (t : Table) (cs : ConnectionState) (key back : List ℕ)
      (payload response sent reply : Payload) (f : ℕ × PayloadReader → Result Payload)
      (nonce nonce' nonce'' : List ℕ) (ms timeout_ms us ms' : ℕ) (eph : KeyPair) (ip : Ip)
      (taken : Result (Unit {0}))
      → c.is_connected ≡ true
      → find_known d hdl s ≡ some (t, cs)
      → Linked c.session cs.session key
      → Linked cs.session c.session back
      → c.session.send_counter + 1 < 2 ^ 64
      → cs.session.send_counter + 1 < 2 ^ 64
      → length nonce ≡ 12
      → length nonce' ≡ 12
      → IsU32 c.requests.next_request_id
      → IsU16 payload.op_code
      → IsU16 response.op_code
      → IsU16 s.config.opcodes.response
      → length response.parameters + 2 < 65536
      → take_out c.requests.next_request_id c.requests.pending_requests
        ≡ (none, c.requests.pending_requests)
      → request_payload w c.requests.next_request_id payload ≡ ok sent
      → response_payload r s.config.opcodes.response c.requests.next_request_id response ≡ ok reply
      → is_too_large c.config.message_limits sent ≡ false
      → is_too_large s.config.message_limits sent ≡ false
      → is_too_large c.config.message_limits reply ≡ false
      → s.config.opcodes.response ≡ c.config.opcodes.response
      → (payload.op_code == s.config.opcodes.response) ≡ false
      → is_stream_code s.config.opcodes payload.op_code ≡ false
      → (if s.config.rate_limit.enabled
          then check_message_rate d us cs.rate_limiter_id s.rate_limiter
          else (true, s.rate_limiter)).0
        ≡ true
      → (handlers_of sodium d r t s).request_handlers payload.op_code ≡ some (some f)
      → ((before : List ℕ) → f (hdl, reader_at before payload.parameters) ≡ ok response)
      → (packet packet' before : List ℕ) × ((async_request sodium w nonce ms timeout_ms payload c).0
          ≡ ok c.requests.promises_made)
        × ((async_request sodium w nonce ms timeout_ms payload c).1.effects
            ≡ frame_sent packet ∷ c.effects)
        × ((server_on_message d sodium r eph nonce' us ms' ip hdl taken packet s).effects
            ≡ server_frame_sent hdl packet'
              ∷ called hdl (request_call (reader_at before payload.parameters))
              ∷ s.effects)
        × ((on_message sodium w nonce'' packet'
              (async_request sodium w nonce ms timeout_ms payload c).1).requests.completed
            ≡ record { promise = c.requests.promises_made; completion = value response }
              ∷ c.requests.completed)
        × ((on_message sodium w nonce'' packet'
              (async_request sodium w nonce ms timeout_ms payload c).1).requests.pending_requests
            ≡ c.requests.pending_requests)
  request-response c s hdl t cs key back payload response sent reply f nonce nonce' nonce'' ms
        timeout_ms us ms' eph ip taken on known out home room room' size size' id_small op op' code
        fits_param free written replied fits_out fits_in fits_back same_code other no_stream passes
        registered answered =
      let id : ℕ = c.requests.next_request_id in
      let n : ℕ = c.session.send_counter + 1 in
      let n' : ℕ = cs.session.send_counter + 1 in
      let got : Session = record cs.session { recv_counter = n } in
      let timeout : ℕ =
        resolve_request_timeout c.config.timeouts.enabled c.config.timeouts.request_ms timeout_ms in
      let asked =
        async_request-Asked sodium laws w nonce cs.session key ms timeout_ms payload sent c out room
          on written fits_out in
      let c1 : Client = (async_request sodium w nonce ms timeout_ms payload c).1 in
      let (sent', before, written', sent_op, read) =
        read_request-request_payload w r id id_small payload in
      let e : sent' ≡ sent = cc (written', written) in
      let op_sent : sent.op_code ≡ payload.op_code = rw (← e) sent_op in
      let m : Sent = record { nonce = nonce; payload = sent; arrives = true } in
      let opened =
        got_one sodium laws w r c.session cs.session key m out (size, rw op_sent op) room in
      let turned = Linked-turn cs.session c.session back n n home in
      let m' : Sent = record { nonce = nonce'; payload = reply; arrives = true } in
      let (reply', replied', reply_op, read_back) =
        read_response-response_payload r w id id_small s.config.opcodes.response response op'
          fits_param in
      let e' : reply' ≡ reply = cc (replied', replied) in
      let op_reply : reply.op_code ≡ s.config.opcodes.response = rw (← e') reply_op in
      let opened' =
        got_one sodium laws r w got (sent_next c.session) back m' turned (size', rw op_reply code)
          room' in
      let done =
        on_message-response sodium laws w nonce'' (envelope sodium nonce' reply n' back) c1 reply
          response id (record (sent_next c.session) { recv_counter = n' })
          (ap (λ (x : Session). x.handshake_complete) asked.session ∙ out.a_complete)
          (ap (decrypt_packet sodium w (envelope sodium nonce' reply n' back)) asked.session
            ∙ opened')
          (ap (λ (g : Config). is_too_large g.message_limits reply) asked.config ∙ fits_back)
          (op_reply ∙ same_code ∙ ap (λ (g : Config). g.opcodes.response) (sym asked.config))
          (rw (← e') read_back) in
      let finished =
        ap (λ (x : Client). x.requests) done
        ∙ ap (receive_response id response) asked.requests_made in
      let (complete, pending) = registered-received ms timeout response c.requests free in
      (
        envelope sodium nonce sent n key,
        envelope sodium nonce' reply n' back,
        before,
        asked.future,
        asked.framed,
        on_message-framed sodium d r eph nonce' us ms' ip hdl id taken
            (envelope sodium nonce sent n key) t sent response reply
            (reader_at before payload.parameters) f cs (envelope sodium nonce' reply n' back) got
            (sent_next got) s known home.a_complete passes opened home.a_complete fits_in
            (rw op_sent other) (rw op_sent no_stream) (rw op_sent registered) (rw (← e) read)
            (answered before) replied
            (sent_one sodium laws r r got (sent_next c.session) back m' turned room'),
        ap (λ (q : Requests). q.completed) finished ∙ complete,
        ap (λ (q : Requests). q.pending_requests) finished ∙ pending,
      )
