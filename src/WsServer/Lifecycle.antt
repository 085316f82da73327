-- ===== src/WsServer/Lifecycle.antt =====
-- on_open, on_close, check_timeouts and stop of WsServerWrapper of src/ws_server.cpp on the state of
-- the server. The time and the address of the peer are arguments. A close that throws is caught in
-- the code or taken not to happen.
use obscura_proto.Common.{
  ℕ, ◌+◌, List, [], ◌∷◌, String, true, ◌&&◌, Option, none, some, ltb, leb, ◌==◌, if◌then◌else◌,
}
use obscura_proto.Common.Maps.{find, insert, remove}
use obscura_proto.RateLimiter.Floats.{Double}
use obscura_proto.RateLimiter.{
  Ip, RateLimiter, check_connection_rate, record_connection, unregister_connection, active_total,
  cleanup,
}
use obscura_proto.WsServer.Requests.{close_requests, stop_requests, check_request_timeouts}
use obscura_proto.WsServer.Identities
use obscura_proto.WsServer.Identities.{accept, close_identity}
use obscura_proto.WsServer.Packets.{ConnectionState}
use obscura_proto.WsServer.State.{
  Server, Effect, connection_closed, open_called, close_called, emit,
}

module _ (d : Double) where
  abbrev pub close : ℕ → String → Server d → Server d
  close hdl reason s = emit d (connection_closed hdl reason) s

  -- The time of the open connection, for the handshake timeout, and the callback.
  unfoldable pub track_open : ℕ → ℕ → Server d → Server d
  track_open now_ms hdl s =
      let tracked =
        if s.config.timeouts.enabled && ltb 0 s.config.timeouts.handshake_ms
        then record s { handshake_open_time = insert hdl now_ms s.handshake_open_time }
        else s in
      if s.on_open_callback then emit d (open_called hdl) tracked else tracked

  unfoldable pub limit_total : ℕ → ℕ → Server d → Server d
  unfolding track_open
  limit_total now_ms hdl s =
      let limits = s.config.connection_limits in
      if limits.enabled
        && ltb 0 limits.max_total
        && leb limits.max_total (active_total d s.rate_limiter)
      then close hdl "Max connections reached" s
      else track_open now_ms hdl s

  unfoldable pub on_open : ℕ → Ip → ℕ → Server d → Server d
  unfolding limit_total
  on_open now_ms ip hdl s =
      let (passes, l) = check_connection_rate d now_ms ip s.rate_limiter in
      if s.config.rate_limit.enabled
      then if passes
        then limit_total now_ms hdl (record s { rate_limiter = record_connection d now_ms ip l })
        else close hdl "Connection rate limit exceeded" (record s { rate_limiter = l })
      else limit_total now_ms hdl s

  unfoldable pub unregister : Option ConnectionState → RateLimiter d → RateLimiter d
  unregister none l = l
  unregister (some c) l = unregister_connection d c.rate_limiter_id c.remote_ip l

  unfoldable pub on_close : ℕ → Server d → Server d
  unfolding unregister
  on_close hdl s =
      let s' = if s.on_close_callback then emit d (close_called hdl) s else s in
      record s' {
        rate_limiter =
            unregister (find hdl s.anon_sessions) (unregister (find hdl s.sessions) s.rate_limiter);
        sessions = remove hdl s.sessions;
        anon_sessions = remove hdl s.anon_sessions;
        per_connection_streams = λ k. if hdl == k then (λ id. none) else s.per_connection_streams k;
        identities = close_identity hdl s.identities;
        requests = close_requests hdl s.requests;
        handshake_open_time = remove hdl s.handshake_open_time;
      }

  -- The closes of the loop over the connections that are idle.
  unfoldable pub close_idle : ℕ → ℕ → List (ℕ × ConnectionState) → List Effect → List Effect
  close_idle now_ms idle_ms [] done = done
  close_idle now_ms idle_ms ((hdl, c) ∷ m) done = close_idle now_ms idle_ms m (
      if ltb 0 c.last_activity_ms && ltb (c.last_activity_ms + idle_ms) now_ms
      then connection_closed hdl "Idle timeout" ∷ done
      else done)

  -- The loop over the handshakes: what is still waited for, and the closes.
  unfoldable pub expire_handshakes : ℕ → ℕ → List (ℕ × ℕ) → List Effect → List (ℕ × ℕ) × List Effect
  expire_handshakes now_ms handshake_ms [] done = ([], done)
  expire_handshakes now_ms handshake_ms ((hdl, time) ∷ m) done =
      let (rest, done') = expire_handshakes now_ms handshake_ms m done in
      if ltb (time + handshake_ms) now_ms
      then (rest, connection_closed hdl "Handshake timeout" ∷ done')
      else ((hdl, time) ∷ rest, done')

  unfoldable pub check_idle : ℕ → Server d → Server d
  unfolding close_idle
  check_idle now_ms s =
      let idle = s.config.timeouts.idle_ms in
      if ltb 0 idle
      then record s {
        effects =
            close_idle now_ms idle s.anon_sessions (close_idle now_ms idle s.sessions s.effects);
      }
      else s

  unfoldable pub check_handshakes : ℕ → Server d → Server d
  unfolding expire_handshakes
  check_handshakes now_ms s =
      let limit = s.config.timeouts.handshake_ms in
      let (rest, done) = expire_handshakes now_ms limit s.handshake_open_time s.effects in
      if ltb 0 limit then record s { handshake_open_time = rest; effects = done } else s

  unfoldable pub check_timeouts : ℕ → Server d → Server d
  unfolding check_idle check_handshakes
  check_timeouts now_ms s =
      let s' = check_handshakes now_ms (check_idle now_ms s) in
      record s' {
        requests = check_request_timeouts now_ms s'.requests;
        rate_limiter = cleanup d now_ms s'.rate_limiter;
      }

  unfoldable pub close_all : List (ℕ × ConnectionState) → List Effect → List Effect
  close_all [] done = done
  close_all ((hdl, c) ∷ m) done = close_all m (connection_closed hdl "Server shutdown" ∷ done)

  unfoldable pub stop : Server d → Server d
  unfolding close_all
  stop s = record s {
    stopping = true;
    requests = stop_requests s.requests;
    effects = close_all s.anon_sessions (close_all s.sessions s.effects);
    sessions = [];
    anon_sessions = [];
    identities = Identities.new;
  }
