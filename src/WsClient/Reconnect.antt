-- ===== src/WsClient/Reconnect.antt =====
-- The session of a client once its handshake is complete: it is never made again, so a second
-- connection goes on with the keys of the first.
use obscura_proto.Common.{ℕ, ◌≡◌, refl, ap, ◌∙◌, List, Bool, true, Option, arith}
use obscura_proto.Errors.{Result}
use obscura_proto.Endian.{Host}
use obscura_proto.Packet.{Payload}
use obscura_proto.Handshake.{KeyPair}
use obscura_proto.Crypto.{SessionKeys}
use obscura_proto.Crypto.Libsodium.{Sodium}
use obscura_proto.Stream.{Stream}
use obscura_proto.WsClient.Requests.{Requests}
use obscura_proto.Handlers.{Callback, Handlers, respond}
use obscura_proto.WsClient.State.{Client, disconnect, connect, on_close}
use obscura_proto.WsClient.Sending.{
  async_request, start_stream, start_stream_with, send, send_response,
}
use obscura_proto.WsClient.Messages.{on_open, give_answer, on_message}
use obscura_proto.WsClient.Keys.{
  keys_of, send-keys, give_answer-keys, on_message-keys, on_open-keys, async_request-keys,
  started-keys,
}

-- What happens to a client from one state on, in any order: connections that it makes, that open
-- and close, messages, and calls of its methods.
pub data Runs (sodium : Sodium) (c : Client) : Client → Type 0 where
  here : Runs sodium c c
  connects : {b : Client} (made : Bool) → Runs sodium c b → Runs sodium c (connect made b)
  opens :
      {b : Client} (h : Host) (fresh : KeyPair) (taken : Result (Unit {0})) (hdl : ℕ)
      → Runs sodium c b
      → Runs sodium c (on_open sodium h fresh taken hdl b)
  receives :
      {b : Client} (h : Host) (nonce bytes : List ℕ)
      → Runs sodium c b
      → Runs sodium c (on_message sodium h nonce bytes b)
  closes : {b : Client} → Runs sodium c b → Runs sodium c (on_close b)
  disconnects :
      {b : Client} (on_io_thread : Bool)
      → Runs sodium c b
      → Runs sodium c (disconnect on_io_thread b)
  sends :
      {b : Client} (h : Host) (nonce : List ℕ) (p : Payload)
      → Runs sodium c b
      → Runs sodium c (send sodium h nonce p b).1
  requests :
      {b : Client} (h : Host) (nonce : List ℕ) (ms timeout_ms : ℕ) (p : Payload)
      → Runs sodium c b
      → Runs sodium c (async_request sodium h nonce ms timeout_ms p b).1
  responds :
      {b : Client} (h : Host) (nonce : List ℕ) (id : ℕ) (p : Payload)
      → Runs sodium c b
      → Runs sodium c (send_response sodium h nonce id p b).1
  streams :
      {b : Client} (h : Host) (nonce : List ℕ)
      → Runs sodium c b
      → Runs sodium c (start_stream sodium h nonce b).1
  streams_with :
      {b : Client} (h : Host) (nonce : List ℕ) (op : ℕ)
      → Runs sodium c b
      → Runs sodium c (start_stream_with sodium h nonce op b).1
  -- The methods register_..., set_... and the watchdog, which leave the session alone.
  configures :
      {b : Client} (handlers : Handlers (Unit {0})) (incoming : Callback Stream Stream)
      (identity : Option KeyPair) (on_ready on_disconnect : Bool) (left : Requests)
      → Runs sodium c b
      → Runs sodium c (record b {
        handlers = handlers;
        incoming_stream_handler = incoming;
        client_identity_kp = identity;
        on_ready_callback = on_ready;
        on_disconnect_callback = on_disconnect;
        requests = left;
      })

-- Once the handshake of a client is complete, its session keys and its version never change, also
-- when it connects again and whatever the server sends: no further ServerHello is accepted.
pub Runs-keys :
    (sodium : Sodium) {c b : Client}
    → Runs sodium c b
    → c.session.handshake_complete ≡ true
    → keys_of b.session ≡ keys_of c.session
Runs-keys sodium here complete = refl
Runs-keys sodium (connects {b} made r) complete =
    let same : keys_of (connect made b).session ≡ keys_of b.session =
      unfold connect in ground arith in
    same ∙ Runs-keys sodium r complete
Runs-keys sodium (opens {b} h fresh taken hdl r) complete =
    on_open-keys sodium h fresh taken hdl b ∙ Runs-keys sodium r complete
Runs-keys sodium {c} (receives {b} h nonce bytes r) complete =
    let before = Runs-keys sodium r complete in
    let still = ap (λ (k : Option SessionKeys × Option ℕ × Bool). k.2) before ∙ complete in
    on_message-keys sodium h nonce bytes b still ∙ before
Runs-keys sodium (closes {b} r) complete =
    let same : keys_of (on_close b).session ≡ keys_of b.session = unfold on_close in ground arith in
    same ∙ Runs-keys sodium r complete
Runs-keys sodium (disconnects {b} on_io_thread r) complete =
    let same : keys_of (disconnect on_io_thread b).session ≡ keys_of b.session =
      unfold disconnect in ground arith in
    same ∙ Runs-keys sodium r complete
Runs-keys sodium (sends {b} h nonce p r) complete =
    send-keys sodium h nonce p b ∙ Runs-keys sodium r complete
Runs-keys sodium (requests {b} h nonce ms timeout_ms p r) complete =
    async_request-keys sodium h nonce ms timeout_ms p b ∙ Runs-keys sodium r complete
Runs-keys sodium (responds {b} h nonce id p r) complete =
    let same : keys_of (send_response sodium h nonce id p b).1.session ≡ keys_of b.session =
      unfold give_answer in give_answer-keys sodium h nonce (respond id p) b in
    same ∙ Runs-keys sodium r complete
Runs-keys sodium (streams {b} h nonce r) complete =
    let same : keys_of (start_stream sodium h nonce b).1.session ≡ keys_of b.session =
      unfold start_stream in started-keys sodium h nonce _ _ b in
    same ∙ Runs-keys sodium r complete
Runs-keys sodium (streams_with {b} h nonce op r) complete =
    let same : keys_of (start_stream_with sodium h nonce op b).1.session ≡ keys_of b.session =
      unfold start_stream_with in started-keys sodium h nonce _ _ b in
    same ∙ Runs-keys sodium r complete
Runs-keys sodium (configures hs incoming identity on_ready on_disconnect left r) complete =
    Runs-keys sodium r complete
