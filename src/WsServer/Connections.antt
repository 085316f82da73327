-- ===== src/WsServer/Connections.antt =====
-- on_message of WsServerWrapper of src/ws_server.cpp: the handshake of a new connection, and a packet
-- of one that is known. The times, the address of the peer, the ephemeral key pair and the nonce of
-- libsodium, and whether websocketpp takes the ServerHello are arguments.
use obscura_proto.Common.{ℕ, List, Bool, true, false, Option, none, some, if◌then◌else◌}
use obscura_proto.Common.Maps.{insert_new, remove}
use obscura_proto.Errors.{Result, ok, err}
use obscura_proto.Endian.{Host}
use obscura_proto.Handshake.{
  PublicKey, KeyPair, ClientHello, ServerHello, deserialize_client, serialize_server,
}
use obscura_proto.Crypto.Libsodium.{Sodium}
use obscura_proto.Session
use obscura_proto.Session.{Session, server, server_respond_to_handshake}
use obscura_proto.RateLimiter.Floats.{Double}
use obscura_proto.RateLimiter.{Ip, check_handshake_rate, record_handshake, register_connection}
use obscura_proto.WsServer.Identities.{accept}
use obscura_proto.WsServer.Packets.{
  ConnectionState, Verdict, ignored, closed, refused, dispatched, receive_packet,
}
use obscura_proto.WsServer.State.{
  Server, Table, frame_sent, identity_called, emit, store, find_known,
}
use obscura_proto.WsServer.Messaging.{process_payload}
use obscura_proto.WsServer.Lifecycle.{close}

module _ (d : Double) where
  module _ (sodium : Sodium) (h : Host) where
    unfoldable pub register_anonymous : ℕ → Ip → ℕ → Session → Server d → Server d
    register_anonymous now_ms ip hdl x s =
        let (id, l) = register_connection d ip s.rate_limiter in
        let c : ConnectionState = record {
          session = x;
          rate_limiter_id = id;
          remote_ip = ip;
          last_activity_ms = now_ms;
        } in
        record s {
          rate_limiter = l;
          anon_sessions = insert_new hdl c s.anon_sessions;
          handshake_open_time = remove hdl s.handshake_open_time;
        }

    unfoldable pub register_identity : ℕ → Ip → ℕ → PublicKey → Session → Server d → Server d
    register_identity now_ms ip hdl pk x s =
        let (id, l) = register_connection d ip s.rate_limiter in
        let c : ConnectionState = record {
          session = x;
          rate_limiter_id = id;
          remote_ip = ip;
          last_activity_ms = now_ms;
        } in
        record s {
          rate_limiter = l;
          sessions = insert_new hdl c s.sessions;
          identities = accept hdl pk s.identities;
          handshake_open_time = remove hdl s.handshake_open_time;
        }

    -- The decision of the identity handler, if there is one.
    abbrev pub decision : Option (ℕ × PublicKey → Result Bool) → ℕ → PublicKey → Result Bool
    decision none hdl pk = ok true
    decision (some f) hdl pk = f (hdl, pk)

    abbrev pub log_decision :
        Option (ℕ × PublicKey → Result Bool) → ℕ → PublicKey → Server d → Server d
    log_decision none hdl pk s = s
    log_decision (some f) hdl pk s = emit d (identity_called hdl pk) s

    unfoldable pub after_decision :
        Result Bool → ℕ → Ip → ℕ → PublicKey → Session → Server d → Server d
    unfolding register_identity
    after_decision (err e) now_ms ip hdl pk x s = close d hdl "Handshake error" s
    after_decision (ok true) now_ms ip hdl pk x s = register_identity now_ms ip hdl pk x s
    after_decision (ok false) now_ms ip hdl pk x s =
        let s' = close d hdl "Identity rejected" s in
        record s' { handshake_open_time = remove hdl s.handshake_open_time }

    -- A session is authenticated if the hello claims an identity and the session has verified one.
    unfoldable pub admit_session :
        Bool → Option PublicKey → ℕ → Ip → ℕ → Session → Server d → Server d
    unfolding after_decision register_anonymous
    admit_session true (some pk) now_ms ip hdl x s =
        after_decision (decision s.client_identity_handler hdl pk) now_ms ip hdl pk x
          (log_decision s.client_identity_handler hdl pk s)
    admit_session _ _ now_ms ip hdl x s = register_anonymous now_ms ip hdl x s

    unfoldable pub after_respond :
        ℕ → Ip → ℕ → Bool → Result (Unit {0}) → Result ServerHello × Session → Server d → Server d
    unfolding admit_session
    after_respond now_ms ip hdl is_identified taken (err e, x) s = close d hdl "Handshake error" s
    after_respond now_ms ip hdl is_identified (err e) (ok hello, x) s =
        close d hdl "Handshake error" s
    after_respond now_ms ip hdl is_identified (ok _) (ok hello, x) s =
        let sent = emit d (frame_sent hdl (serialize_server h hello)) s in
        let l =
          if s.config.rate_limit.enabled
          then record_handshake d now_ms ip s.rate_limiter
          else s.rate_limiter in
        admit_session is_identified x.peer_identity now_ms ip hdl x
          (record sent { rate_limiter = l })

    unfoldable pub answer_client :
        KeyPair → ℕ → Ip → ℕ → Result (Unit {0}) → Result ClientHello → Server d → Server d
    unfolding after_respond
    answer_client fresh now_ms ip hdl taken (err e) s = close d hdl "Handshake error" s
    answer_client fresh now_ms ip hdl taken (ok hello) s =
        after_respond now_ms ip hdl hello.has_client_identity taken
          (server_respond_to_handshake sodium fresh hello
            (Session.new server s.server_sign_key s.config.supported_versions))
          s

    -- The message of a connection that has no session yet.
    unfoldable pub receive_hello :
        KeyPair → ℕ → Ip → ℕ → Result (Unit {0}) → List ℕ → Server d → Server d
    unfolding answer_client
    receive_hello fresh now_ms ip hdl taken bytes s =
        let (passes, l) = check_handshake_rate d now_ms ip s.rate_limiter in
        if s.config.rate_limit.enabled
        then if passes
          then answer_client fresh now_ms ip hdl taken (deserialize_client h bytes)
              (record s { rate_limiter = l })
          else close d hdl "Handshake rate limit exceeded" (record s { rate_limiter = l })
        else answer_client fresh now_ms ip hdl taken (deserialize_client h bytes) s

    -- What on_message does behind the decryption; an exception is logged.
    unfoldable pub after_packet : List ℕ → ℕ → Table → Verdict → Server d → Server d
    after_packet nonce hdl t ignored s = s
    after_packet nonce hdl t (closed reason) s = close d hdl reason s
    after_packet nonce hdl t (refused e) s = s
    after_packet nonce hdl t (dispatched payload) s =
        (process_payload sodium d h nonce hdl t payload s).1

    unfoldable pub receive_known :
        List ℕ → ℕ → ℕ → ℕ → Table → ConnectionState → List ℕ → Server d → Server d
    unfolding after_packet store
    receive_known nonce now_us now_ms hdl t c bytes s =
        let (verdict, c', l) =
          receive_packet sodium d h s.config.rate_limit s.config.message_limits now_us now_ms bytes
            c s.rate_limiter in
        let s' = store d t hdl c' s in
        after_packet nonce hdl t verdict (record s' { rate_limiter = l })

    abbrev pub known_or :
        Option (Table × ConnectionState)
        → (Table → ConnectionState → Server d → Server d)
        → (Server d → Server d)
        → Server d
        → Server d
    known_or none known fresh s = fresh s
    known_or (some (t, c)) known fresh s = known t c s

    -- A binary message. Others are not looked at.
    unfoldable pub on_message :
        KeyPair → List ℕ → ℕ → ℕ → Ip → ℕ → Result (Unit {0}) → List ℕ → Server d → Server d
    unfolding receive_known receive_hello find_known
    on_message fresh nonce now_us now_ms ip hdl taken bytes s =
        known_or (find_known d hdl s) (λ t c. receive_known nonce now_us now_ms hdl t c bytes)
          (receive_hello fresh now_ms ip hdl taken bytes) s
