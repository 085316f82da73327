-- ===== src/WsServer/Asking.antt =====
-- Requests and streams keep which connections there are and who is behind them.
use obscura_proto.Common.{ℕ, refl, List, Option, none, some, if◌then◌else◌}
use obscura_proto.Errors.{Result, ok, err, logic_error}
use obscura_proto.Endian.{Host}
use obscura_proto.Packet.{Payload}
use obscura_proto.Crypto.Libsodium.{Sodium}
use obscura_proto.RateLimiter.Floats.{Double}
use obscura_proto.Stream
use obscura_proto.Stream.{Stream}
use obscura_proto.WsServer.Requests.{register_request, resolve_request_timeout}
use obscura_proto.WsServer.Messages.{request_payload}
use obscura_proto.WsServer.Packets.{ConnectionState}
use obscura_proto.WsServer.State.{Server, Table, find_ready, find_known}
use obscura_proto.WsServer.Sending.{
  send, send_built, after_request, request_built, async_request, open_stream, with_stream, start_on,
  start_stream, start_stream_with, outgoing_stream_id, stream_start_payload, has_stream_op_code,
  is_ready,
}
use obscura_proto.WsServer.Keeping.{Keeps, Keeps-trans, Untouched, Untouched-Keeps}
use obscura_proto.WsServer.Talking.{same_rest, send-Keeps, send_built-Keeps, if-Keeps}

module _ (sodium : Sodium) (d : Double) (h : Host) where
  after_request-Untouched :
      (hdl id promise : ℕ) (r : Result (Unit {0}) × Server d)
      → Untouched d r.1 (after_request sodium d h hdl id promise r).1
  unfolding after_request
  after_request-Untouched hdl id promise (ok u, s) = (refl, refl, refl, refl, refl, refl)
  after_request-Untouched hdl id promise (err e, s) = (refl, refl, refl, refl, refl, refl)

  request_built-Keeps :
      (nonce : List ℕ) (ms hdl timeout : ℕ) (r : Result Payload) (s : Server d)
      → Keeps d s (request_built sodium d h nonce ms hdl timeout r s).1
  unfolding request_built
  request_built-Keeps nonce ms hdl timeout (err e) s =
      Untouched-Keeps d s _ (refl, refl, refl, refl, refl, refl)
  request_built-Keeps nonce ms hdl timeout (ok p) s =
      let (id, requests) = register_request ms hdl timeout s.requests in
      let s' = record s { requests = requests } in
      same_rest sodium d h s (send sodium d h nonce hdl p s').1 _
        (Keeps-trans d s s' _ (Untouched-Keeps d s s' (refl, refl, refl, refl, refl, refl))
          (send-Keeps sodium d h nonce hdl p s'))
        (after_request-Untouched hdl id s.requests.promises_made (send sodium d h nonce hdl p s'))

  pub async_request-Keeps :
      (nonce : List ℕ) (ms timeout_ms hdl : ℕ) (p : Payload) (s : Server d)
      → Keeps d s (async_request sodium d h nonce ms timeout_ms hdl p s).1
  unfolding async_request
  async_request-Keeps nonce ms timeout_ms hdl p s =
      let timeout =
        resolve_request_timeout s.config.timeouts.enabled s.config.timeouts.request_ms timeout_ms in
      let payload = request_payload h s.requests.next_request_id p in
      if-Keeps sodium d h (is_ready sodium d h (find_ready d hdl s))
        (request_built sodium d h nonce ms hdl timeout payload s)
        (err (logic_error "Session not ready for sending requests."), s) s
        (request_built-Keeps nonce ms hdl timeout payload s)
        (Untouched-Keeps d s s (refl, refl, refl, refl, refl, refl))

  with_stream-Untouched :
      (stream : Stream) (r : Result (Unit {0}) × Server d)
      → Untouched d r.1 (with_stream sodium d h stream r).1
  with_stream-Untouched stream (ok u, s) = (refl, refl, refl, refl, refl, refl)
  with_stream-Untouched stream (err e, s) = (refl, refl, refl, refl, refl, refl)

  started-Keeps :
      (nonce : List ℕ) (hdl : ℕ) (stream : Stream) (r : Result Payload) (s s' : Server d)
      → Untouched d s s'
      → Keeps d s
          (with_stream sodium d h stream (send_built sodium d h nonce hdl (send sodium d h) r s')).1
  started-Keeps nonce hdl stream r s s' u =
      let sent = send_built sodium d h nonce hdl (send sodium d h) r s' in
      same_rest sodium d h s sent.1 _
        (Keeps-trans d s s' sent.1 (Untouched-Keeps d s s' u) (
          send_built-Keeps sodium d h nonce hdl (send sodium d h) r s'
            λ q. send-Keeps sodium d h nonce hdl q s'))
        (with_stream-Untouched stream sent)

  pub start_stream-Keeps :
      (nonce : List ℕ) (hdl : ℕ) (s : Server d) → Keeps d s (start_stream sodium d h nonce hdl s).1
  unfolding start_stream
  start_stream-Keeps nonce hdl s =
      let stream = Stream.new (outgoing_stream_id sodium d h s) none in
      let payload = stream_start_payload h s.config.opcodes.stream_start stream.stream_id none in
      started-Keeps nonce hdl stream payload s (open_stream sodium d h hdl stream s)
        (unfold open_stream in (refl, refl, refl, refl, refl, refl))

  start_on-Keeps :
      (nonce : List ℕ) (hdl op : ℕ) (stream : Stream) (o : Option (Table × ConnectionState))
      (s s' : Server d)
      → Untouched d s s'
      → Keeps d s (with_stream sodium d h stream (start_on sodium d h nonce hdl op stream o s')).1
  start_on-Keeps nonce hdl op stream none s s' u = Untouched-Keeps d s s' u
  start_on-Keeps nonce hdl op stream (some (t, c)) s s' u =
      let code = if has_stream_op_code c.session.selected_version then some op else none in
      started-Keeps nonce hdl stream
        (stream_start_payload h s'.config.opcodes.stream_start stream.stream_id code) s s' u

  pub start_stream_with-Keeps :
      (nonce : List ℕ) (hdl op : ℕ) (s : Server d)
      → Keeps d s (start_stream_with sodium d h nonce hdl op s).1
  unfolding start_stream_with
  start_stream_with-Keeps nonce hdl op s =
      let stream = Stream.new (outgoing_stream_id sodium d h s) (some op) in
      start_on-Keeps nonce hdl op stream (find_known d hdl s) s
        (open_stream sodium d h hdl stream s)
        (unfold open_stream in (refl, refl, refl, refl, refl, refl))
