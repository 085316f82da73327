-- ===== src/RateLimiter.antt =====
-- The class RateLimiter of include/obscuraproto/rate_limiter.hpp and src/rate_limiter.cpp. The
-- clock is an argument: `now` in milliseconds for the windows and in microseconds for the
-- buckets, on a steady clock that does not go back. A table is a function from its keys. The
-- mutex makes each method one step. Floating-point numbers are the parameter `Double`.
pub mod Floats
pub mod Windows
pub mod Tidy
pub mod Totals
pub mod History
pub mod Follows
pub mod Admission
pub mod Burst
pub mod Tests
use obscura_proto.Common.{
  ℕ, ◌+◌, ◌-◌, ◌*◌, ◌%◌, ◌^◌, List, [], ◌∷◌, ◌++◌, reverse, Bool, true, false, not, ◌&&◌, ◌||◌,
  Option, none, some, ltb, leb, ◌==◌, if◌then◌else◌, is_same, put, erase,
}
use obscura_proto.RateLimiter.Floats.{Double}

-- RateLimitConfig of include/obscuraproto/config.hpp
pub record RateLimitConfig : Type 0 where
  pub enabled : Bool
  pub messages_per_second : ℕ
  pub burst_size : ℕ
  pub handshake_attempts_per_minute : ℕ
  pub connections_per_minute : ℕ

pub record SlidingWindow : Type 0 where
  pub timestamps_ms : List ℕ

unfoldable pub add : ℕ → SlidingWindow → SlidingWindow
add now_ms w = record { timestamps_ms = w.timestamps_ms ++ (now_ms ∷ []) }

-- The loop of count_last, newest first: `*it >= now_ms - window_ms`.
unfoldable pub count_back : ℕ → ℕ → List ℕ → ℕ
count_back now_ms window_ms [] = 0
count_back now_ms window_ms (t ∷ ts) =
    let rest = count_back now_ms window_ms ts in if leb now_ms (t + window_ms) then 1 + rest else 0

unfoldable pub count_last : ℕ → ℕ → SlidingWindow → ℕ
count_last now_ms window_ms w =
    if window_ms == 0 then 0 else count_back now_ms window_ms (reverse w.timestamps_ms)

-- The loop of clean, oldest first: `front() < now_ms - window_ms`.
unfoldable pub clean_front : ℕ → ℕ → List ℕ → List ℕ
clean_front now_ms window_ms [] = []
clean_front now_ms window_ms (t ∷ ts) =
    let rest = clean_front now_ms window_ms ts in
    if ltb (t + window_ms) now_ms then rest else t ∷ ts

unfoldable pub clean : ℕ → ℕ → SlidingWindow → SlidingWindow
clean now_ms window_ms w = record {
  timestamps_ms = if window_ms == 0 then [] else clean_front now_ms window_ms w.timestamps_ms;
}

pub record PerIpState : Type 0 where
  pub connections : SlidingWindow
  pub handshakes : SlidingWindow
  pub active_connections : ℕ

abbrev pub no_state : PerIpState
no_state = record {
  connections = record { timestamps_ms = [] };
  handshakes = record { timestamps_ms = [] };
  active_connections = 0;
}

-- Addresses are strings: the codes of their characters.
abbrev pub Ip : Type 0
Ip = List ℕ

-- `per_ip_[ip]` makes a fresh entry where there is none.
abbrev pub entry : Option PerIpState → PerIpState
entry none = no_state
entry (some state) = state

abbrev pub is_empty : List ℕ → Bool
is_empty [] = true
is_empty (t ∷ ts) = false

-- One round of the loop of cleanup.
unfoldable pub tidy : ℕ → Option PerIpState → Option PerIpState
tidy now none = none
tidy now (some state) =
    let connections = clean now 60000 state.connections in
    let handshakes = clean now 60000 state.handshakes in
    if state.active_connections == 0
      && is_empty connections.timestamps_ms
      && is_empty handshakes.timestamps_ms
    then none
    else some (record state { connections = connections; handshakes = handshakes })

-- The size of a bucket.
unfoldable pub capacity : RateLimitConfig → ℕ
capacity config = if ltb 0 config.burst_size then config.burst_size else config.messages_per_second

module _ (d : Double) where
  pub record TokenBucket : Type 0 where
    pub tokens : d.Carrier
    pub last_refill_us : ℕ

  pub record RateLimiter : Type 0 where
    pub config : RateLimitConfig
    pub per_ip : Ip → Option PerIpState
    pub message_buckets : ℕ → Option TokenBucket
    pub conn_to_ip : ℕ → Option Ip
    pub total_connections : ℕ
    pub next_conn_id : ℕ

  unfoldable pub new : RateLimitConfig → RateLimiter
  new config = record {
    config = config;
    per_ip = λ ip. none;
    message_buckets = λ id. none;
    conn_to_ip = λ id. none;
    total_connections = 0;
    next_conn_id = 0;
  }

  -- `auto& state = per_ip_[ip];` and a change of that state.
  unfoldable pub change : Ip → (PerIpState → PerIpState) → RateLimiter → RateLimiter
  unfolding put
  change ip f s = record s { per_ip = put (is_same ip) (f (entry (s.per_ip ip))) s.per_ip }

  unfoldable pub check_connection_rate : ℕ → Ip → RateLimiter → Bool × RateLimiter
  check_connection_rate now ip s =
      if not s.config.enabled || s.config.connections_per_minute == 0 then (true, s) else (
        ltb (count_last now 60000 (entry (s.per_ip ip)).connections)
            s.config.connections_per_minute,
        change ip (λ state. state) s,
      )

  unfoldable pub record_connection : ℕ → Ip → RateLimiter → RateLimiter
  record_connection now ip s =
      if s.config.enabled
      then change ip (λ state. record state { connections = add now state.connections }) s
      else s

  unfoldable pub check_handshake_rate : ℕ → Ip → RateLimiter → Bool × RateLimiter
  check_handshake_rate now ip s =
      if not s.config.enabled || s.config.handshake_attempts_per_minute == 0 then (true, s) else (
        ltb (count_last now 60000 (entry (s.per_ip ip)).handshakes)
            s.config.handshake_attempts_per_minute,
        change ip (λ state. state) s,
      )

  unfoldable pub record_handshake : ℕ → Ip → RateLimiter → RateLimiter
  record_handshake now ip s =
      if s.config.enabled
      then change ip (λ state. record state { handshakes = add now state.handshakes }) s
      else s

  -- std::min
  unfoldable pub min : d.Carrier → d.Carrier → d.Carrier
  min a b = if d.lt b a then b else a

  unfoldable pub refill : RateLimitConfig → ℕ → TokenBucket → TokenBucket
  unfolding min
  refill config now bucket =
      let elapsed_s = d.div (d.of_ℕ (now - bucket.last_refill_us)) (d.of_ℕ 1000000) in
      record {
        tokens =
            min (d.add bucket.tokens (d.mul elapsed_s (d.of_ℕ config.messages_per_second)))
              (d.of_ℕ (capacity config));
        last_refill_us = now;
      }

  unfoldable pub check_message_rate : ℕ → ℕ → RateLimiter → Bool × RateLimiter
  unfolding put
  check_message_rate now conn_id s =
      if not s.config.enabled || s.config.messages_per_second == 0
      then (true, s)
      else elim (s.message_buckets conn_id) [
        | none ↦ (true, s)
        | some old ↦
            let bucket = refill s.config now old in
            (
              d.le (d.of_ℕ 1) bucket.tokens,
              record s { message_buckets = put (◌==◌ conn_id) bucket s.message_buckets },
            )
      ]

  -- A bucket with the given tokens at a time.
  unfoldable pub bucket_at : ℕ → d.Carrier → TokenBucket
  bucket_at now tokens = record { tokens = tokens; last_refill_us = now }

  unfoldable pub record_message : ℕ → ℕ → RateLimiter → RateLimiter
  unfolding put
  record_message now conn_id s =
      let set = λ (bucket : TokenBucket). record s {
        message_buckets = put (◌==◌ conn_id) bucket s.message_buckets;
      } in
      let full = d.of_ℕ (capacity s.config) in
      if not s.config.enabled then s else elim (s.message_buckets conn_id) [
        | none ↦ set (bucket_at now (if d.lt (d.of_ℕ 0) full then d.sub full (d.of_ℕ 1) else full))
        | some old ↦
            let bucket = refill s.config now old in
            set (
              if d.le (d.of_ℕ 1) bucket.tokens
              then record bucket { tokens = d.sub bucket.tokens (d.of_ℕ 1) }
              else bucket)
      ]

  abbrev is_below_limit : ℕ → Option PerIpState → Bool
  is_below_limit limit none = true
  is_below_limit limit (some state) = ltb state.active_connections limit

  unfoldable pub check_active_connections : Ip → RateLimiter → Bool
  check_active_connections ip s =
      let limit = s.config.connections_per_minute in
      let ip_ok = if ltb 0 limit then is_below_limit limit (s.per_ip ip) else true in
      let total_ok = if ltb 0 s.config.messages_per_second then false else true in
      if not s.config.enabled then true else ip_ok && total_ok

  unfoldable pub register_connection : Ip → RateLimiter → ℕ × RateLimiter
  unfolding change put
  register_connection ip s =
      let conn_id = s.next_conn_id in
      let grown = λ (state : PerIpState). record state {
        active_connections = (state.active_connections + 1) % 2 ^ 32;
      } in
      let s' = change ip grown s in
      (
        conn_id,
        record s' {
          total_connections = (s.total_connections + 1) % 2 ^ 32;
          next_conn_id = (conn_id + 1) % 2 ^ 64;
          conn_to_ip = put (◌==◌ conn_id) ip s.conn_to_ip;
        },
      )

  abbrev lose_one : Option PerIpState → Option PerIpState
  lose_one none = none
  lose_one (some state) =
      if ltb 0 state.active_connections
      then some (record state { active_connections = state.active_connections - 1 })
      else some state

  unfoldable pub unregister_connection : ℕ → Ip → RateLimiter → RateLimiter
  unfolding erase
  unregister_connection conn_id ip s = record s {
    total_connections = (s.total_connections + 2 ^ 32 - 1) % 2 ^ 32;
    per_ip = λ k. if is_same ip k then lose_one (s.per_ip k) else s.per_ip k;
    conn_to_ip = erase (◌==◌ conn_id) s.conn_to_ip;
    message_buckets = erase (◌==◌ conn_id) s.message_buckets;
  }

  unfoldable pub active_total : RateLimiter → ℕ
  active_total s = s.total_connections

  unfoldable pub cleanup : ℕ → RateLimiter → RateLimiter
  unfolding tidy
  cleanup now s = record s { per_ip = λ ip. tidy now (s.per_ip ip) }
