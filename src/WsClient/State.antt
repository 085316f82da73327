-- ===== src/WsClient/State.antt =====
-- The state of WsClientWrapper, connect, disconnect and the threads of the client and of the
-- watchdog as flags; ensure_watchdog, stop_watchdog, on_close and on_fail of src/ws_client.cpp.
use obscura_proto.Common.{
  ℕ, ◌*◌, ◌%◌, ◌^◌, List, [], ◌∷◌, ◌++◌, map, Bool, true, false, Option, none, some, ◌==◌,
  if◌then◌else◌, put,
}
use obscura_proto.Handshake.{KeyPair}
use obscura_proto.Session
use obscura_proto.Session.{Session, client}
use obscura_proto.Config.{Config}
use obscura_proto.Stream.{Stream}
use obscura_proto.Handlers.{Callback, Handlers, Call}
use obscura_proto.WsClient.Requests
use obscura_proto.WsClient.Requests.{Requests, disconnect_requests}

pub data Effect : Type 0 where
  frame_sent : List ℕ → Effect
  connection_closed : Effect
  io_stopped : Effect
  called : Call → Effect
  ready_called : Effect
  disconnect_called : Effect

pub record Client : Type 0 where
  pub config : Config
  pub session : Session
  pub client_identity_kp : Option KeyPair
  pub connection_hdl : ℕ
  -- A thread is held, and it can be joined.
  pub client_thread : Bool
  pub is_connected : Bool
  pub on_ready_callback : Bool
  pub on_disconnect_callback : Bool
  pub handlers : Handlers (Unit {0})
  pub incoming_stream_handler : Callback Stream Stream
  pub requests : Requests
  pub watchdog_started : Bool
  pub watchdog_stop : Bool
  pub active_streams : ℕ → Option Stream
  pub next_outgoing_stream_id : ℕ
  pub effects : List Effect

unfoldable pub new : KeyPair → Config → Client
new server_sign_key config = record {
  config = config;
  session = Session.new client server_sign_key config.supported_versions;
  client_identity_kp = none;
  connection_hdl = 0;
  client_thread = false;
  is_connected = false;
  on_ready_callback = false;
  on_disconnect_callback = false;
  handlers = record {
    request_handlers = λ op. none;
    op_code_handlers = λ op. none;
    default_payload_handler = none;
    stream_handlers = λ op. none;
  };
  incoming_stream_handler = none;
  requests = Requests.new;
  watchdog_started = false;
  watchdog_stop = false;
  active_streams = λ id. none;
  next_outgoing_stream_id = 0;
  effects = [];
}

abbrev pub emit : Effect → Client → Client
emit e c = record c { effects = e ∷ c.effects }

abbrev pub log_calls : List Call → Client → Client
log_calls calls c = record c { effects = map called calls ++ c.effects }

-- If websocketpp makes a connection, the old thread, if there is one, is joined and replaced. If it
-- does not, the exception is logged.
unfoldable pub connect : Bool → Client → Client
connect made c = if made then record c { client_thread = true } else c

unfoldable pub set_client_identity : KeyPair → Client → Client
set_client_identity kp c = record c { client_identity_kp = some kp }

-- The thread of the watchdog runs exactly while `watchdog_started` is set and not being stopped.
unfoldable pub ensure_watchdog : Client → Client
ensure_watchdog c =
    if c.watchdog_started then c else record c { watchdog_started = true; watchdog_stop = false }

unfoldable pub stop_watchdog : Client → Client
stop_watchdog c =
    if c.watchdog_started then record c { watchdog_started = false; watchdog_stop = true } else c

unfoldable pub close_if_connected : Client → Client
close_if_connected c = if c.is_connected then emit connection_closed c else c

-- On the io thread itself the thread is not joined, and is kept, with the watchdog, for a later
-- call from another thread.
unfoldable pub disconnect : Bool → Client → Client
unfolding close_if_connected stop_watchdog
disconnect on_io_thread c =
    let stopped = emit io_stopped (record c { requests = disconnect_requests c.requests }) in
    let left = record (close_if_connected stopped) { is_connected = false } in
    if c.client_thread
    then if on_io_thread then left else stop_watchdog (record left { client_thread = false })
    else c

unfoldable pub on_close : Client → Client
on_close c =
    let c' = record c { is_connected = false } in
    if c.on_disconnect_callback then emit disconnect_called c' else c'

-- The body of on_fail is that of on_close.
unfoldable pub on_fail : Client → Client
on_fail c =
    let c' = record c { is_connected = false } in
    if c.on_disconnect_callback then emit disconnect_called c' else c'

-- The id of the next stream: even, in 32 bits.
unfoldable pub outgoing_stream_id : Client → ℕ
outgoing_stream_id c = c.next_outgoing_stream_id * 2 % 2 ^ 32

unfoldable pub put_stream : Stream → Client → Client
unfolding put
put_stream stream c = record c {
  active_streams = put (◌==◌ stream.stream_id) stream c.active_streams;
}
