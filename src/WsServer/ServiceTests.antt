-- ===== src/WsServer/ServiceTests.antt =====
-- A server over the libsodium of Toy that a client with an identity has connected to.
use obscura_proto.Common.{ℕ, ◌≡◌, refl, List, [], ◌∷◌, ◌++◌, true, false, none, some}
use obscura_proto.Common.Maps.{find, insert_new}
use obscura_proto.Errors.{ok}
use obscura_proto.Endian.{little, ntohs, load}
use obscura_proto.Handshake.{
  KeyPair, ClientHello, ServerHello, deserialize_client, read_u16, read_bytes, read_versions,
  take_versions, read_byte, read_identity,
}
use obscura_proto.Crypto.Toy.{pad, toy}
use obscura_proto.Crypto.Agreement.{kx_pair}
use obscura_proto.Config.{Config}
use obscura_proto.RateLimiter
use obscura_proto.RateLimiter.{register_connection, active_total}
use obscura_proto.Common.{length, ◌%◌, ◌^◌}
use obscura_proto.WsServer.Counting.{Distinct}
use obscura_proto.WsServer.Keeping.{keys}
use obscura_proto.RateLimiter.Tests.{whole}
use obscura_proto.WsServer.PacketTests.{unlimited, limits}
use obscura_proto.Common.{put, ◌+◌, ◌≤◌, ◌<◌, ◌⊎◌, ◌↔◌, inl, arith}
use obscura_proto.WsServer.Timeouts.{check_timeouts-settles, check_timeouts-effects}
use obscura_proto.WsServer.Closes.{In, IsIdleClose, IsLateClose}
use obscura_proto.WsServer.Identities
use obscura_proto.Session
use obscura_proto.Session.{Session, server, server_respond_to_handshake}
use obscura_proto.Version.{negotiate, is_supported}
use obscura_proto.Crypto.{verify, sign, server_compute_session_keys, are_kx_sizes}
use obscura_proto.WsServer.Identities.{find_identity, accept}
use obscura_proto.WsServer.Packets.{ConnectionState}
use obscura_proto.WsServer.State.{Server, new, get_client_identity, connection_closed}
use obscura_proto.WsServer.Connections.{on_message}
use obscura_proto.WsServer.Lifecycle.{check_timeouts}
use obscura_proto.WsServer.Safety.{IsVerified}
use obscura_proto.WsServer.Service.{
  Service, starts, receives, authenticated-IsVerified, find_identity-IsVerified,
  active_total-sessions,
}

abbrev server_key : KeyPair
server_key = record { public_key = pad 32 (6 ∷ []); private_key = pad 64 (6 ∷ []) }

abbrev pk : List ℕ
pk = pad 32 (7 ∷ [])

abbrev hello : ClientHello
hello = record {
  supported_versions = 257 ∷ [];
  ephemeral_pk = pad 32 (8 ∷ []);
  has_client_identity = true;
  identity_pk = pk;
  identity_sig = pad 64 (8 ∷ []);
}

abbrev bytes : List ℕ
bytes = 0 ∷ 1 ∷ 1 ∷ 1 ∷ [] ++ (pad 32 (8 ∷ []) ++ (1 ∷ (pk ++ pad 64 (8 ∷ []))))

pub deserialize_test : deserialize_client little bytes ≡ ok hello
unfolding deserialize_client read_u16 read_bytes read_versions ntohs load take_versions read_byte
    read_identity
deserialize_test = refl

abbrev pub config : Config
config = record {
  rate_limit = unlimited;
  connection_limits = record { enabled = false; max_per_ip = 0; max_total = 0 };
  message_limits = limits;
  timeouts = record {
    enabled = false;
    handshake_ms = 0;
    idle_ms = 0;
    check_interval_ms = 0;
    request_ms = 0;
  };
  opcodes = record {
    response = 0xFFFF;
    stream_start = 0xFFFD;
    stream_data = 0xFFFC;
    stream_end = 0xFFFB;
    stream_cancel = 0xFFFA;
  };
  supported_versions = 257 ∷ [];
}

abbrev pub answered : Session
answered = record {
  role = server;
  handshake_complete = true;
  selected_version = some 257;
  supported_versions = 257 ∷ [];
  server_sign_key = server_key;
  ephemeral_kx_kp = some (kx_pair toy (pad 32 (9 ∷ [])));
  session_keys = some (record { rx = pad 32 (8 ∷ []); tx = pad 32 (9 ∷ []) });
  client_identity_kp = none;
  peer_identity = some pk;
  send_counter = 0;
  recv_counter = 0;
}

abbrev pub answer : ServerHello
answer = record {
  selected_version = 257;
  ephemeral_pk = pad 32 (9 ∷ []);
  signature = pad 64 (9 ∷ []);
}

pub respond_test :
    server_respond_to_handshake toy
      (kx_pair toy (pad 32 (9 ∷ [])))
      hello
      (Session.new server server_key (257 ∷ []))
    ≡ (ok answer, answered)
unfolding server_respond_to_handshake Session.new negotiate is_supported verify sign
    server_compute_session_keys are_kx_sizes
respond_test = refl

abbrev pub start : Server whole
start = new whole server_key config

-- The server after the hello of connection 3.
abbrev pub served : Server whole
served =
    on_message whole toy little (kx_pair toy (pad 32 (9 ∷ []))) [] 0 5 (49 ∷ []) 3 (ok tt) bytes
      start

abbrev pub connection : ConnectionState
connection = record {
  session = answered;
  rate_limiter_id = 0;
  remote_ip = 49 ∷ [];
  last_activity_ms = 5;
}

pub calls : Service toy whole served
calls =
    receives little (kx_pair toy (pad 32 (9 ∷ []))) [] 0 5 (49 ∷ []) 3 (ok tt) bytes
      (starts server_key config)

found_test : find 3 served.sessions ≡ some connection
unfolding on_message new register_connection RateLimiter.new find insert_new
found_test = rw (deserialize_test, respond_test) refl

identity_test : find_identity pk served.identities ≡ ok 3
unfolding on_message new register_connection RateLimiter.new find insert_new find_identity accept
    put Identities.new
identity_test = rw (deserialize_test, respond_test) refl

authenticated-IsVerified_example :
    (pk' : List ℕ) × (get_client_identity whole 3 served ≡ ok pk')
    × (connection.session.peer_identity ≡ some pk')
    × (connection.session.handshake_complete ≡ true)
    × (find 3 served.anon_sessions ≡ none)
    × IsVerified toy whole pk' connection.session.session_keys connection.session.ephemeral_kx_kp
authenticated-IsVerified_example = authenticated-IsVerified toy whole 3 connection calls found_test

find_identity-IsVerified_example :
    (c : ConnectionState) × (find 3 served.sessions ≡ some c)
    × (c.session.peer_identity ≡ some pk)
    × (c.session.handshake_complete ≡ true)
    × IsVerified toy whole pk c.session.session_keys c.session.ephemeral_kx_kp
find_identity-IsVerified_example = find_identity-IsVerified toy whole pk 3 calls identity_test

-- Connection 3 has been idle since 5, and connection 4 has not shaken hands since 2.
abbrev waiting : Server whole
waiting = record start {
  config = record config {
    timeouts = record {
      enabled = false;
      handshake_ms = 10;
      idle_ms = 20;
      check_interval_ms = 0;
      request_ms = 0;
    };
  };
  sessions = (3, connection) ∷ [];
  handshake_open_time = (4, 2) ∷ [];
}

check_timeouts-settles_example :
    (In (4, 2) (check_timeouts whole 30 waiting).handshake_open_time
      × (30 ≤ 2 + waiting.config.timeouts.handshake_ms))
    ⊎ ((¬ In (4, 2) (check_timeouts whole 30 waiting).handshake_open_time)
        × In (connection_closed 4 "Handshake timeout") (check_timeouts whole 30 waiting).effects
        × (2 + waiting.config.timeouts.handshake_ms < 30))
check_timeouts-settles_example =
    check_timeouts-settles whole 30 waiting 4 2 (omega arith) (inl refl)

check_timeouts-effects_example :
    In (connection_closed 3 "Idle timeout") (check_timeouts whole 30 waiting).effects ↔ (
      In (connection_closed 3 "Idle timeout") waiting.effects
      ⊎ (IsIdleClose 30 20 waiting.sessions (connection_closed 3 "Idle timeout")
          ⊎ (IsIdleClose 30 20 waiting.anon_sessions (connection_closed 3 "Idle timeout")
              ⊎ IsLateClose 30 10 waiting.handshake_open_time
                  (connection_closed 3 "Idle timeout"))))
check_timeouts-effects_example =
    check_timeouts-effects whole 30 waiting (connection_closed 3 "Idle timeout") (omega arith)
      (omega arith)

running_test : served.stopping ≡ false
unfolding on_message new find
running_test = rw (deserialize_test, respond_test) refl

active_total-sessions_example :
    (active_total whole served.rate_limiter
      ≡ (length served.sessions + length served.anon_sessions) % 2 ^ 32)
    × Distinct (keys served.sessions)
    × Distinct (keys served.anon_sessions)
active_total-sessions_example = active_total-sessions toy whole calls running_test
