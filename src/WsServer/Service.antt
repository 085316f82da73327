-- ===== src/WsServer/Service.antt =====
-- The server under any calls, and what they leave true: who is behind the connections that the
-- server has authenticated, and where send_to_identity sends.
use obscura_proto.Common.{
  ℕ, ◌≡◌, refl, sym, ap, ◌∙◌, inl, inr, List, Bool, true, Option, none, some, Option-cases,
}
use obscura_proto.Common.Maps.{find}
use obscura_proto.Errors.{Result, ok}
use obscura_proto.Endian.{Host}
use obscura_proto.Packet.{Payload}
use obscura_proto.Handshake.{PublicKey, KeyPair}
use obscura_proto.Crypto.Libsodium.{Sodium}
use obscura_proto.RateLimiter.Floats.{Double}
use obscura_proto.RateLimiter
use obscura_proto.RateLimiter.{Ip, active_total}
use obscura_proto.Common.{length, ◌+◌, ◌%◌, ◌^◌, false, arith}
use obscura_proto.WsServer.Counting.{Distinct, length-keys}
use obscura_proto.Config.{Config}
use obscura_proto.Stream.{Stream}
use obscura_proto.Handlers.{Callback, Handlers}
use obscura_proto.WsServer.Identities
use obscura_proto.WsServer.Identities.{IsSound, find_identity}
use obscura_proto.WsServer.Packets.{ConnectionState}
use obscura_proto.WsServer.State.{Server, new, get_client_identity}
use obscura_proto.WsServer.Sending.{
  send, send_anonymous, async_request, start_stream, start_stream_with,
}
use obscura_proto.WsServer.Connections.{on_message}
use obscura_proto.WsServer.Lifecycle.{on_open, on_close, check_timeouts, stop}
use obscura_proto.WsServer.Keeping.{view, view_of, keys}
use obscura_proto.WsServer.Talking.{send-Keeps, send_anonymous-Keeps}
use obscura_proto.WsServer.Asking.{async_request-Keeps, start_stream-Keeps, start_stream_with-Keeps}
use obscura_proto.WsServer.Safety.{
  peer_at, IsVerified, IsSafe, Keeps-IsSafe, Untouched-IsSafe, on_open-IsSafe, on_close-IsSafe,
  check_timeouts-IsSafe, stop-IsSafe,
}
use obscura_proto.WsServer.Hellos.{on_message-IsSafe}

module _ (sodium : Sodium) (d : Double) where
  -- The calls of the server's methods and of websocketpp, in any order and with any arguments.
  pub data Service : Server d → Type 0 where
    starts : (key : KeyPair) (config : Config) → Service (new d key config)
    -- The methods register_... and set_...
    configures :
        {s : Server d} (handlers anon_handlers : Handlers ℕ) (incoming : Callback Stream Stream)
        (judge : Callback (ℕ × PublicKey) Bool) (on_open_callback on_close_callback : Bool)
        → Service s
        → Service (record s {
          handlers = handlers;
          anon_handlers = anon_handlers;
          incoming_stream_handler = incoming;
          client_identity_handler = judge;
          on_open_callback = on_open_callback;
          on_close_callback = on_close_callback;
        })
    opens :
        {s : Server d} (ms : ℕ) (ip : Ip) (hdl : ℕ) → Service s → Service (on_open d ms ip hdl s)
    closes : {s : Server d} (hdl : ℕ) → Service s → Service (on_close d hdl s)
    receives :
        {s : Server d} (h : Host) (fresh : KeyPair) (nonce : List ℕ) (us ms : ℕ) (ip : Ip) (hdl : ℕ)
        (taken : Result (Unit {0})) (bytes : List ℕ)
        → Service s
        → Service (on_message d sodium h fresh nonce us ms ip hdl taken bytes s)
    checks : {s : Server d} (ms : ℕ) → Service s → Service (check_timeouts d ms s)
    stops : {s : Server d} → Service s → Service (stop d s)
    sends :
        {s : Server d} (h : Host) (nonce : List ℕ) (hdl : ℕ) (p : Payload)
        → Service s
        → Service (send sodium d h nonce hdl p s).1
    sends_anonymous :
        {s : Server d} (h : Host) (nonce : List ℕ) (hdl : ℕ) (p : Payload)
        → Service s
        → Service (send_anonymous sodium d h nonce hdl p s).1
    requests :
        {s : Server d} (h : Host) (nonce : List ℕ) (ms timeout hdl : ℕ) (p : Payload)
        → Service s
        → Service (async_request sodium d h nonce ms timeout hdl p s).1
    streams :
        {s : Server d} (h : Host) (nonce : List ℕ) (hdl : ℕ)
        → Service s
        → Service (start_stream sodium d h nonce hdl s).1
    streams_with :
        {s : Server d} (h : Host) (nonce : List ℕ) (hdl op : ℕ)
        → Service s
        → Service (start_stream_with sodium d h nonce hdl op s).1

  new-IsSafe : (key : KeyPair) (config : Config) → IsSafe sodium d (new d key config)
  unfolding new find
  new-IsSafe key config = record {
    shown = λ k v e. cc;
    unshown = λ k v e. cc;
    apart = λ k. inl refl;
    agree = λ k. unfold Identities.new in refl;
    sound = unfold IsSound Identities.new in λ pk hdl e. cc;
    distinct_auth = tt;
    distinct_anon = tt;
    counted = λ running. unfold RateLimiter.new in omega arith;
  }

  pub Service-IsSafe : {s : Server d} → Service s → IsSafe sodium d s
  Service-IsSafe (starts key config) = new-IsSafe key config
  Service-IsSafe (configures {s} hs ahs incoming judge o c calls) =
      Untouched-IsSafe sodium d s _ (refl, refl, refl, refl, refl, refl) (Service-IsSafe calls)
  Service-IsSafe (opens {s} ms ip hdl calls) =
      on_open-IsSafe sodium d ms ip hdl s (Service-IsSafe calls)
  Service-IsSafe (closes {s} hdl calls) = on_close-IsSafe sodium d hdl s (Service-IsSafe calls)
  Service-IsSafe (receives {s} h fresh nonce us ms ip hdl taken bytes calls) =
      on_message-IsSafe sodium d h fresh nonce us ms ip hdl taken bytes s (Service-IsSafe calls)
  Service-IsSafe (checks {s} ms calls) = check_timeouts-IsSafe sodium d ms s (Service-IsSafe calls)
  Service-IsSafe (stops {s} calls) = stop-IsSafe sodium d s
  Service-IsSafe (sends {s} h nonce hdl p calls) =
      Keeps-IsSafe sodium d s _ (send-Keeps sodium d h nonce hdl p s) (Service-IsSafe calls)
  Service-IsSafe (sends_anonymous {s} h nonce hdl p calls) =
      Keeps-IsSafe sodium d s _ (send_anonymous-Keeps sodium d h nonce hdl p s)
        (Service-IsSafe calls)
  Service-IsSafe (requests {s} h nonce ms timeout hdl p calls) =
      Keeps-IsSafe sodium d s _ (async_request-Keeps sodium d h nonce ms timeout hdl p s)
        (Service-IsSafe calls)
  Service-IsSafe (streams {s} h nonce hdl calls) =
      Keeps-IsSafe sodium d s _ (start_stream-Keeps sodium d h nonce hdl s) (Service-IsSafe calls)
  Service-IsSafe (streams_with {s} h nonce hdl op calls) =
      Keeps-IsSafe sodium d s _ (start_stream_with-Keeps sodium d h nonce hdl op s)
        (Service-IsSafe calls)

  view-none : (o : Option ConnectionState) → view o ≡ none → o ≡ none
  view-none none e = refl
  view-none (some c) e = cc

  -- Whatever the server and its peers do, a connection in the table of authenticated sessions has
  -- completed its handshake with an identity that has signed, verified by the server, the very
  -- ephemeral key from which the keys of this session were computed; that is the identity that
  -- get_client_identity returns, and the connection is not also an anonymous one.
  pub authenticated-IsVerified :
      {s : Server d} (hdl : ℕ) (c : ConnectionState)
      → Service s
      → find hdl s.sessions ≡ some c
      → (pk : PublicKey) × (get_client_identity d hdl s ≡ ok pk)
        × (c.session.peer_identity ≡ some pk)
        × (c.session.handshake_complete ≡ true)
        × (find hdl s.anon_sessions ≡ none)
        × IsVerified sodium d pk c.session.session_keys c.session.ephemeral_kx_kp
  authenticated-IsVerified {s} hdl c calls held =
      let safe = Service-IsSafe calls in
      let seen : view (find hdl s.sessions) ≡ some (view_of c.session) = ap view held in
      let (pk, peer, complete, verified) = safe.shown hdl (view_of c.session) seen in
      (
        pk,
        unfold get_client_identity in rw (held, peer) refl,
        peer,
        complete,
        elim (safe.apart hdl) [ inl gone ↦ cc (gone, seen) | inr gone ↦ view-none _ gone ],
        verified,
      )

  -- Whatever the server and its peers do, an anonymous session has no identity.
  pub anonymous-none :
      {s : Server d} (hdl : ℕ) (c : ConnectionState)
      → Service s
      → find hdl s.anon_sessions ≡ some c
      → c.session.peer_identity ≡ none
  anonymous-none {s} hdl c calls held =
      ((Service-IsSafe calls).unshown hdl (view_of c.session) (ap view held)).0

  -- Whatever the server and its peers do, what is sent to an identity goes to an authenticated
  -- connection whose handshake is complete, whose peer is that very identity, and whose session
  -- keys were computed from an ephemeral key that this identity has signed, verified by the server.
  pub find_identity-IsVerified :
      {s : Server d} (pk : PublicKey) (hdl : ℕ)
      → Service s
      → find_identity pk s.identities ≡ ok hdl
      → (c : ConnectionState) × (find hdl s.sessions ≡ some c)
        × (c.session.peer_identity ≡ some pk)
        × (c.session.handshake_complete ≡ true)
        × IsVerified sodium d pk c.session.session_keys c.session.ephemeral_kx_kp
  find_identity-IsVerified {s} pk hdl calls e =
      let safe = Service-IsSafe calls in
      let listed : s.identities.hdl_to_identity hdl ≡ some pk =
        elim (Option-cases (s.identities.identity_to_hdl pk)) [
          | inl missing ↦ unfold find_identity in cc (rw missing at e)
          | inr (k, held) ↦
              let same : k ≡ hdl = unfold find_identity in cc (rw held at e) in
              unfold IsSound in safe.sound pk hdl (rw held (ap some same))
        ] in
      let peer : peer_at (view (find hdl s.sessions)) ≡ some pk = sym (safe.agree hdl) ∙ listed in
      elim (Option-cases (find hdl s.sessions)) [
        | inl missing ↦ cc (rw missing at peer)
        | inr (c, held) ↦
            let mine : c.session.peer_identity ≡ some pk = rw held at peer in
            let (pk', peer', complete, verified) =
              safe.shown hdl (view_of c.session) (ap view held) in
            let e' : pk' ≡ pk = cc (peer', mine) in (c, held, mine, complete, rw (← e') verified)
      ]

  -- As long as the server has not been stopped, the number of active connections that the limit on
  -- the total reads is, modulo 2 ^ 32, the number of its sessions, authenticated and anonymous, and
  -- no connection has two.
  pub active_total-sessions :
      {s : Server d}
      → Service s
      → s.stopping ≡ false
      → (active_total d s.rate_limiter ≡ (length s.sessions + length s.anon_sessions) % 2 ^ 32)
        × Distinct (keys s.sessions)
        × Distinct (keys s.anon_sessions)
  unfolding active_total
  active_total-sessions {s} calls running =
      let safe = Service-IsSafe calls in
      (
        safe.counted running ∙ rw (length-keys s.sessions, length-keys s.anon_sessions) refl,
        safe.distinct_auth,
        safe.distinct_anon,
      )
