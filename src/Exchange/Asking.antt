-- ===== src/Exchange/Asking.antt =====
-- The client's half: what async_request sends, and what the response does.
use obscura_proto.Common.{
  ℕ, ◌+◌, ◌<◌, ◌^◌, ◌≡◌, refl, ap, ◌∙◌, List, ◌∷◌, Bool, true, false, ◌&&◌, arith, ltb, ◌==◌,
  if◌then◌else◌,
}
use obscura_proto.Errors.{Result, ok, err, logic_error}
use obscura_proto.Endian.{Host}
use obscura_proto.Packet.{Payload}
use obscura_proto.Crypto.Libsodium.{Sodium, SodiumLaws}
use obscura_proto.Crypto.Envelope.{envelope}
use obscura_proto.Session.{Session, encrypt_payload, decrypt_packet}
use obscura_proto.Session.Channel.{Sent, Linked, sent_one}
use obscura_proto.Config.{Config}
use obscura_proto.WsServer.Requests.{resolve_request_timeout}
use obscura_proto.WsServer.Messages.{request_payload, read_response}
use obscura_proto.WsServer.Packets.{is_too_large}
use obscura_proto.WsClient.Requests.{register_request, receive_response, Requests}
use obscura_proto.WsClient.State.{Client, frame_sent, emit, ensure_watchdog}
use obscura_proto.WsClient.Sending.{send, after_request, request_built, async_request}
use obscura_proto.WsClient.Messages.{on_message}

-- A session whose next packet carries the next counter.
abbrev pub sent_next : Session → Session
sent_next a = record a { send_counter = a.send_counter + 1 }

both {ℓ} :
    {A : Type ℓ} (b b' : Bool) (x y : A) → b ≡ true → b' ≡ true → (if b && b' then x else y) ≡ x
both true true x y p q = refl
both true false x y p q = cc
both false b' x y p q = cc

module _ (sodium : Sodium) (laws : SodiumLaws sodium) (h : Host) where
  module _ (nonce : List ℕ) (p : Payload) (a b : Session) (key : List ℕ) (linked : Linked a b key)
      (room : a.send_counter + 1 < 2 ^ 64) where
    send_lem :
        (c : Client)
        → c.session ≡ a
        → c.is_connected ≡ true
        → is_too_large c.config.message_limits p ≡ false
        → send sodium h nonce p c ≡ (
          ok tt,
          emit
              (frame_sent (envelope sodium nonce p (a.send_counter + 1) key))
              (record c { session = sent_next a }),
        )
    unfolding send
    send_lem c same on fits =
        let m : Sent = record { nonce = nonce; payload = p; arrives = true } in
        let complete : c.session.handshake_complete ≡ true =
          ap (λ (x : Session). x.handshake_complete) same ∙ linked.a_complete in
        let encrypted : encrypt_payload sodium h nonce p c.session
            ≡ (ok (envelope sodium nonce p (a.send_counter + 1) key), sent_next a) =
          ap (encrypt_payload sodium h nonce p) same
          ∙ sent_one sodium laws h h a b key m linked room in
        simp (on, complete, fits, encrypted)

  -- The fields of the client that ensure_watchdog leaves alone.
  abbrev watched : Bool → Client → Client
  watched timed c = if timed then ensure_watchdog c else c

  watched_fields :
      (timed : Bool) (c : Client)
      → ((watched timed c).session ≡ c.session)
        × ((watched timed c).is_connected ≡ c.is_connected)
        × ((watched timed c).config ≡ c.config)
        × ((watched timed c).requests ≡ c.requests)
        × ((watched timed c).effects ≡ c.effects)
  unfolding ensure_watchdog
  watched_fields timed c = ground arith

  -- What the client is once its request is sent.
  pub record Asked (promise : ℕ) (frame : List ℕ) (requests : Requests) (c : Client)
      (r : Result ℕ × Client) : Type 0 where
    pub future : r.0 ≡ ok promise
    pub framed : r.1.effects ≡ frame_sent frame ∷ c.effects
    pub session : r.1.session ≡ sent_next c.session
    pub requests_made : r.1.requests ≡ requests
    pub config : r.1.config ≡ c.config

  module _ (nonce : List ℕ) (b : Session) (key : List ℕ) (ms timeout_ms : ℕ)
      (payload sent : Payload) (c : Client) (linked : Linked c.session b key)
      (room : c.session.send_counter + 1 < 2 ^ 64) (on : c.is_connected ≡ true)
      (written : request_payload h c.requests.next_request_id payload ≡ ok sent)
      (fits : is_too_large c.config.message_limits sent ≡ false) where
    abbrev pub timeout : ℕ
    timeout =
        resolve_request_timeout c.config.timeouts.enabled c.config.timeouts.request_ms timeout_ms

    abbrev pub asked_frame : List ℕ
    asked_frame = envelope sodium nonce sent (c.session.send_counter + 1) key

    pub async_request-Asked :
        Asked c.requests.promises_made asked_frame
          (register_request ms timeout c.requests).1
          c
          (async_request sodium h nonce ms timeout_ms payload c)
    unfolding async_request
    async_request-Asked =
        let registered = record c { requests = (register_request ms timeout c.requests).1 } in
        let (x, y, z, q, e) = watched_fields (ltb 0 timeout) registered in
        let done =
          send_lem nonce sent c.session b key linked room (watched (ltb 0 timeout) registered) x
            (y ∙ on) (ap (λ (g : Config). is_too_large g.message_limits sent) z ∙ fits) in
        let same : async_request sodium h nonce ms timeout_ms payload c ≡ (
          ok c.requests.promises_made,
          emit (frame_sent asked_frame)
              (record (watched (ltb 0 timeout) registered) { session = sent_next c.session }),
        ) =
          both c.is_connected c.session.handshake_complete
            (request_built sodium h nonce ms timeout
              (request_payload h c.requests.next_request_id payload) c)
            (err (logic_error "Session not ready for sending requests."), c) on linked.a_complete
          ∙ ap (λ (r : Result Payload). request_built sodium h nonce ms timeout r c) written
          ∙ ap
              (after_request sodium h (register_request ms timeout c.requests).0
                c.requests.promises_made)
              done in
        record {
          future = ap (λ (r : Result ℕ × Client). r.0) same;
          framed =
              ap (λ (r : Result ℕ × Client). r.1.effects) same
              ∙ ap (◌∷◌ (frame_sent asked_frame)) e;
          session = ap (λ (r : Result ℕ × Client). r.1.session) same;
          requests_made = ap (λ (r : Result ℕ × Client). r.1.requests) same ∙ q;
          config = ap (λ (r : Result ℕ × Client). r.1.config) same ∙ z;
        }

  -- A response that arrives, decrypted, completes the request of its id.
  pub on_message-response :
      (nonce packet : List ℕ) (c : Client) (p response : Payload) (id : ℕ) (x : Session)
      → c.session.handshake_complete ≡ true
      → decrypt_packet sodium h packet c.session ≡ (ok p, x)
      → is_too_large c.config.message_limits p ≡ false
      → p.op_code ≡ c.config.opcodes.response
      → read_response h p ≡ ok (id, response)
      → on_message sodium h nonce packet c
        ≡ record c { session = x; requests = receive_response id response c.requests }
  unfolding on_message
  on_message-response nonce packet c p response id x complete decrypted fits code read =
      let is_response : (p.op_code == c.config.opcodes.response) ≡ true = ground arith in
      simp (complete, decrypted, fits, is_response, read)
