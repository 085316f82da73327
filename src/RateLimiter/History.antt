-- ===== src/RateLimiter/History.antt =====
-- The admission of connections and handshakes as WsServerWrapper of src/ws_server.cpp does it, and
-- the histories of a server for one address.
use obscura_proto.Common.{ℕ, ◌≤◌, ◌≢◌, List, [], ◌∷◌, Bool, ◌&&◌, if◌then◌else◌}
use obscura_proto.RateLimiter.Floats.{Double}
use obscura_proto.RateLimiter.{
  RateLimitConfig, Ip, RateLimiter, new, check_connection_rate, record_connection,
  check_handshake_rate, record_handshake, check_message_rate, record_message, register_connection,
  unregister_connection, cleanup,
}

module _ (d : Double) where
  -- The rate limiting of WsServerWrapper::on_open: the check, and the record if it admits.
  unfoldable pub admit_connection : ℕ → Ip → RateLimiter d → Bool × RateLimiter d
  admit_connection now ip s =
      let (admitted, s') = check_connection_rate d now ip s in
      (admitted, if admitted then record_connection d now ip s' else s')

  -- The same for a ClientHello in WsServerWrapper::on_message: the record comes behind the reading
  -- of the hello, the answer and its sending, any of which may throw. `completes` says that none
  -- does. The result is whether the handshake is answered.
  unfoldable pub admit_handshake : Bool → ℕ → Ip → RateLimiter d → Bool × RateLimiter d
  admit_handshake completes now ip s =
      let (passes, s') = check_handshake_rate d now ip s in
      let answered = passes && completes in
      (answered, if answered then record_handshake d now ip s' else s')

  -- A history: the time, the times at which connections of `ip` were admitted and its handshakes
  -- answered, newest first, and the state.
  pub data History (config : RateLimitConfig) (ip : Ip)
      : ℕ → List ℕ → List ℕ → RateLimiter d → Type 0 where
    starts : (now : ℕ) → History config ip now [] [] (new d config)
    waits :
        {now : ℕ} {cs hs : List ℕ} {s : RateLimiter d} (later : ℕ)
        → History config ip now cs hs s
        → now ≤ later
        → History config ip later cs hs s
    connects :
        {now : ℕ} {cs hs : List ℕ} {s : RateLimiter d}
        → History config ip now cs hs s
        → History config ip now
            (if (admit_connection now ip s).0 then now ∷ cs else cs)
            hs
            (admit_connection now ip s).1
    shakes_hands :
        {now : ℕ} {cs hs : List ℕ} {s : RateLimiter d} (completes : Bool)
        → History config ip now cs hs s
        → History config ip now cs
            (if (admit_handshake completes now ip s).0 then now ∷ hs else hs)
            (admit_handshake completes now ip s).1
    other_connects :
        {now : ℕ} {cs hs : List ℕ} {s : RateLimiter d} (other : Ip)
        → History config ip now cs hs s
        → other ≢ ip
        → History config ip now cs hs (admit_connection now other s).1
    other_shakes_hands :
        {now : ℕ} {cs hs : List ℕ} {s : RateLimiter d} (completes : Bool) (other : Ip)
        → History config ip now cs hs s
        → other ≢ ip
        → History config ip now cs hs (admit_handshake completes now other s).1
    checks_message :
        {now : ℕ} {cs hs : List ℕ} {s : RateLimiter d} (now_us conn_id : ℕ)
        → History config ip now cs hs s
        → History config ip now cs hs (check_message_rate d now_us conn_id s).1
    records_message :
        {now : ℕ} {cs hs : List ℕ} {s : RateLimiter d} (now_us conn_id : ℕ)
        → History config ip now cs hs s
        → History config ip now cs hs (record_message d now_us conn_id s)
    registers :
        {now : ℕ} {cs hs : List ℕ} {s : RateLimiter d} (any : Ip)
        → History config ip now cs hs s
        → History config ip now cs hs (register_connection d any s).1
    unregisters :
        {now : ℕ} {cs hs : List ℕ} {s : RateLimiter d} (conn_id : ℕ) (any : Ip)
        → History config ip now cs hs s
        → History config ip now cs hs (unregister_connection d conn_id any s)
    cleans :
        {now : ℕ} {cs hs : List ℕ} {s : RateLimiter d}
        → History config ip now cs hs s
        → History config ip now cs hs (cleanup d now s)
