-- ===== src/RateLimiter/Totals.antt =====
-- The count of connections in src/rate_limiter.cpp: only register_connection and
-- unregister_connection change it.
use obscura_proto.Common.{ℕ, ◌≡◌, refl, inl, inr, arith, Option-cases}
use obscura_proto.RateLimiter.Floats.{Double}
use obscura_proto.RateLimiter.{
  Ip, RateLimiter, change, check_connection_rate, record_connection, check_handshake_rate,
  record_handshake, check_message_rate, record_message, cleanup,
}

module _ (d : Double) (now : ℕ) (s : RateLimiter d) where
  pub check_connection_rate-total :
      (ip : Ip) → (check_connection_rate d now ip s).1.total_connections ≡ s.total_connections
  unfolding check_connection_rate change
  check_connection_rate-total ip = ground arith

  pub record_connection-total :
      (ip : Ip) → (record_connection d now ip s).total_connections ≡ s.total_connections
  unfolding record_connection change
  record_connection-total ip = ground arith

  pub check_handshake_rate-total :
      (ip : Ip) → (check_handshake_rate d now ip s).1.total_connections ≡ s.total_connections
  unfolding check_handshake_rate change
  check_handshake_rate-total ip = ground arith

  pub record_handshake-total :
      (ip : Ip) → (record_handshake d now ip s).total_connections ≡ s.total_connections
  unfolding record_handshake change
  record_handshake-total ip = ground arith

  pub check_message_rate-total :
      (id : ℕ) → (check_message_rate d now id s).1.total_connections ≡ s.total_connections
  unfolding check_message_rate
  check_message_rate-total id = elim (Option-cases (s.message_buckets id)) [
    | inl missing ↦ rw missing (ground arith)
    | inr (bucket, held) ↦ rw held (ground arith)
  ]

  pub record_message-total :
      (id : ℕ) → (record_message d now id s).total_connections ≡ s.total_connections
  unfolding record_message
  record_message-total id = elim (Option-cases (s.message_buckets id)) [
    | inl missing ↦ rw missing (ground arith)
    | inr (bucket, held) ↦ rw held (ground arith)
  ]

  pub cleanup-total : (cleanup d now s).total_connections ≡ s.total_connections
  unfolding cleanup
  cleanup-total = refl
