-- ===== src/WsServer/State.antt =====
-- The state of WsServerWrapper of include/obscuraproto/ws_server.hpp, and the methods of
-- src/ws_server.cpp that only look up or change a connection in it. What the server does to the
-- network and the callbacks that it calls are the effects, newest first.
use obscura_proto.Common.{
  ℕ, List, [], ◌∷◌, ◌++◌, map, String, Bool, false, Option, none, some, if◌then◌else◌,
}
use obscura_proto.Common.Maps.{find, insert}
use obscura_proto.Errors.{Result, ok, err, logic_error}
use obscura_proto.Handshake.{PublicKey, KeyPair}
use obscura_proto.RateLimiter
use obscura_proto.RateLimiter.Floats.{Double}
use obscura_proto.RateLimiter.{RateLimiter}
use obscura_proto.Config.{Config}
use obscura_proto.Stream.{Stream}
use obscura_proto.Handlers.{Callback, Handlers, Call}
use obscura_proto.WsServer.Requests
use obscura_proto.WsServer.Requests.{Requests}
use obscura_proto.WsServer.Identities
use obscura_proto.WsServer.Identities.{Identities}
use obscura_proto.WsServer.Packets.{ConnectionState}

pub data Effect : Type 0 where
  frame_sent : ℕ → List ℕ → Effect
  connection_closed : ℕ → String → Effect
  called : ℕ → Call → Effect
  open_called : ℕ → Effect
  close_called : ℕ → Effect
  identity_called : ℕ → PublicKey → Effect

-- The two tables of sessions.
pub data Table : Type 0 where
  authenticated anonymous : Table

module _ (d : Double) where
  pub record Server : Type 0 where
    pub config : Config
    pub rate_limiter : RateLimiter d
    pub server_sign_key : KeyPair
    pub sessions : List (ℕ × ConnectionState)
    pub anon_sessions : List (ℕ × ConnectionState)
    pub handshake_open_time : List (ℕ × ℕ)
    pub handlers : Handlers ℕ
    pub anon_handlers : Handlers ℕ
    pub incoming_stream_handler : Callback Stream Stream
    pub client_identity_handler : Callback (ℕ × PublicKey) Bool
    pub on_open_callback : Bool
    pub on_close_callback : Bool
    pub requests : Requests
    pub per_connection_streams : ℕ → ℕ → Option Stream
    pub next_outgoing_stream_id : ℕ
    pub identities : Identities
    pub stopping : Bool
    pub effects : List Effect

  abbrev pub no_handlers : Handlers ℕ
  no_handlers = record {
    request_handlers = λ op. none;
    op_code_handlers = λ op. none;
    default_payload_handler = none;
    stream_handlers = λ op. none;
  }

  unfoldable pub new : KeyPair → Config → Server
  new server_sign_key config = record {
    config = config;
    rate_limiter = RateLimiter.new d config.rate_limit;
    server_sign_key = server_sign_key;
    sessions = [];
    anon_sessions = [];
    handshake_open_time = [];
    handlers = no_handlers;
    anon_handlers = no_handlers;
    incoming_stream_handler = none;
    client_identity_handler = none;
    on_open_callback = false;
    on_close_callback = false;
    requests = Requests.new;
    per_connection_streams = λ hdl id. none;
    next_outgoing_stream_id = 0;
    identities = Identities.new;
    stopping = false;
    effects = [];
  }

  abbrev pub emit : Effect → Server → Server
  emit e s = record s { effects = e ∷ s.effects }

  -- Calls of callbacks for a connection.
  abbrev pub log_calls : ℕ → List Call → Server → Server
  log_calls hdl calls s = record s { effects = map (called hdl) calls ++ s.effects }

  abbrev pub table_of : Table → Server → List (ℕ × ConnectionState)
  table_of authenticated s = s.sessions
  table_of anonymous s = s.anon_sessions

  -- The state of a connection, written back.
  unfoldable pub store : Table → ℕ → ConnectionState → Server → Server
  store authenticated hdl c s = record s { sessions = insert hdl c s.sessions }
  store anonymous hdl c s = record s { anon_sessions = insert hdl c s.anon_sessions }

  abbrev if_ready : Table → ConnectionState → Option (Table × ConnectionState)
  if_ready t c = if c.session.handshake_complete then some (t, c) else none

  abbrev ready : Table → Option ConnectionState → Option (Table × ConnectionState)
  ready t none = none
  ready t (some c) = if_ready t c

  abbrev first_of {ℓ} : {A : Type ℓ} → Option A → Option A → Option A
  first_of none b = b
  first_of (some a) b = some a

  -- The session that send and async_request use.
  unfoldable pub find_ready : ℕ → Server → Option (Table × ConnectionState)
  find_ready hdl s =
      first_of (ready authenticated (find hdl s.sessions))
        (ready anonymous (find hdl s.anon_sessions))

  abbrev tagged : Table → Option ConnectionState → Option (Table × ConnectionState)
  tagged t none = none
  tagged t (some c) = some (t, c)

  -- The session that a message belongs to, whatever its handshake.
  unfoldable pub find_known : ℕ → Server → Option (Table × ConnectionState)
  find_known hdl s =
      first_of (tagged authenticated (find hdl s.sessions))
        (tagged anonymous (find hdl s.anon_sessions))

  abbrev identity_of : Option PublicKey → Result PublicKey
  identity_of none = err (logic_error "Session has no peer identity.")
  identity_of (some pk) = ok pk

  abbrev identity_in : Option ConnectionState → Result PublicKey
  identity_in none = err (logic_error "Session not found for this connection.")
  identity_in (some c) = identity_of c.session.peer_identity

  unfoldable pub get_client_identity : ℕ → Server → Result PublicKey
  get_client_identity hdl s = identity_in (find hdl s.sessions)
