-- ===== src/RateLimiter/Admission.antt =====
-- The limits per minute on connections and on handshakes, for one address, over any history of a
-- server: attempts from this and other addresses, messages, registrations and cleanups.
use obscura_proto.Common.{ℕ, ◌≤◌, ◌≡◌, ◌≢◌, refl, List, true}
use obscura_proto.RateLimiter.Floats.{Double}
use obscura_proto.RateLimiter.{RateLimitConfig, Ip, RateLimiter, new}
use obscura_proto.RateLimiter.Windows.{count_in, Tracks-empty, Tracks-later}
use obscura_proto.RateLimiter.History.{
  History, starts, waits, connects, shakes_hands, other_connects, other_shakes_hands,
  checks_message, records_message, registers, unregisters, cleans,
}
use obscura_proto.RateLimiter.Follows.{
  Follows, apart_same, checks_message_same, records_message_same, registers_same, unregisters_same,
  connects-Follows, shakes_hands-Follows, other_connects_same, other_shakes_same, cleans-Follows,
}

module _ (d : Double) where
  History-Follows :
      (config : RateLimitConfig) (ip : Ip) {now : ℕ} {cs hs : List ℕ} {s : RateLimiter d}
      → config.enabled ≡ true
      → config.connections_per_minute ≢ 0
      → config.handshake_attempts_per_minute ≢ 0
      → History d config ip now cs hs s
      → Follows d config ip now cs hs s
  unfolding new
  History-Follows config ip on lc lh (starts now) = record {
    same_config = refl;
    connections = Tracks-empty _ now;
    handshakes = Tracks-empty _ now;
  }
  History-Follows config ip on lc lh (waits later h late) =
      let f = History-Follows config ip on lc lh h in
      record {
        same_config = f.same_config;
        connections = Tracks-later _ _ _ _ later late f.connections;
        handshakes = Tracks-later _ _ _ _ later late f.handshakes;
      }
  History-Follows config ip on lc lh (connects h) =
      connects-Follows d config ip _ _ _ _ on lc (History-Follows config ip on lc lh h)
  History-Follows config ip on lc lh (shakes_hands completes h) =
      shakes_hands-Follows d config ip _ _ _ _ completes on lh
        (History-Follows config ip on lc lh h)
  History-Follows config ip on lc lh (other_connects other h apart) =
      other_connects_same d config ip _ _ _ _ other (apart_same other ip apart)
        (History-Follows config ip on lc lh h)
  History-Follows config ip on lc lh (other_shakes_hands completes other h apart) =
      other_shakes_same d config ip _ _ _ _ completes other (apart_same other ip apart)
        (History-Follows config ip on lc lh h)
  History-Follows config ip on lc lh (checks_message now_us conn_id h) =
      checks_message_same d config ip _ _ _ _ now_us conn_id (History-Follows config ip on lc lh h)
  History-Follows config ip on lc lh (records_message now_us conn_id h) =
      records_message_same d config ip _ _ _ _ now_us conn_id (History-Follows config ip on lc lh h)
  History-Follows config ip on lc lh (registers any h) =
      registers_same d config ip _ _ _ _ any (History-Follows config ip on lc lh h)
  History-Follows config ip on lc lh (unregisters conn_id any h) =
      unregisters_same d config ip _ _ _ _ conn_id any (History-Follows config ip on lc lh h)
  History-Follows config ip on lc lh (cleans h) =
      cleans-Follows d config ip _ _ _ _ (History-Follows config ip on lc lh h)

  -- With rate limiting on and both limits set, in no minute are more connections of one address
  -- admitted, or more of its handshakes answered, than its limits, whatever else the server does
  -- and whichever attempts fail behind the check.
  pub admitted_per_minute :
      (config : RateLimitConfig) (ip : Ip) {now : ℕ} {cs hs : List ℕ} {s : RateLimiter d}
      → config.enabled ≡ true
      → config.connections_per_minute ≢ 0
      → config.handshake_attempts_per_minute ≢ 0
      → History d config ip now cs hs s
      → (start : ℕ)
      → (count_in start cs ≤ config.connections_per_minute)
        × (count_in start hs ≤ config.handshake_attempts_per_minute)
  admitted_per_minute config ip on lc lh h start =
      let f = History-Follows config ip on lc lh h in
      (f.connections.limited start, f.handshakes.limited start)
