-- ===== src/RateLimiter/Follows.antt =====
-- Both windows of an address follow the logs of its admissions, whatever a server does.
use obscura_proto.Common.{
  Bool, put, ℕ, ◌≡◌, ◌≢◌, refl, ap, ◌∙◌, inl, inr, List, ◌∷◌, true, false, arith, ltb,
  if◌then◌else◌, Bool-cases, ltb→lt, is_same, is_same_refl, is_same→eq,
}
use obscura_proto.RateLimiter.Floats.{Double}
use obscura_proto.RateLimiter.{
  RateLimitConfig, add, count_last, Ip, entry, RateLimiter, change, check_connection_rate,
  record_connection, check_handshake_rate, record_handshake, check_message_rate, record_message,
  register_connection, unregister_connection, cleanup,
}
use obscura_proto.RateLimiter.Windows.{Tracks, Tracks-add, Tracks-clean}
use obscura_proto.RateLimiter.History.{admit_connection, admit_handshake}
use obscura_proto.RateLimiter.Tidy.{tidy-connections, tidy-handshakes}

pub apart_same : (a b : Ip) → a ≢ b → is_same a b ≡ false
apart_same a b apart = elim (Bool-cases (is_same a b)) [
  | inl same ↦ absurd (apart (is_same→eq a b same))
  | inr other ↦ other
]

module _ (d : Double) where
  -- Both windows of the address follow their logs.
  pub record Follows (config : RateLimitConfig) (ip : Ip) (now : ℕ) (cs hs : List ℕ)
      (s : RateLimiter d) : Type 0 where
    pub same_config : s.config ≡ config
    pub connections : Tracks config.connections_per_minute (entry (s.per_ip ip)).connections cs now
    pub handshakes :
        Tracks config.handshake_attempts_per_minute (entry (s.per_ip ip)).handshakes hs now

  -- A step that changes neither the configuration nor the windows of the address.
  Follows-same :
      (config : RateLimitConfig) (ip : Ip) (now : ℕ) (cs hs : List ℕ) (s s' : RateLimiter d)
      → s'.config ≡ s.config
      → (entry (s'.per_ip ip)).connections ≡ (entry (s.per_ip ip)).connections
      → (entry (s'.per_ip ip)).handshakes ≡ (entry (s.per_ip ip)).handshakes
      → Follows config ip now cs hs s
      → Follows config ip now cs hs s'
  Follows-same config ip now cs hs s s' ec e₁ e₂ f = record {
    same_config = ec ∙ f.same_config;
    connections = rw e₁ f.connections;
    handshakes = rw e₂ f.handshakes;
  }

  module _ (config : RateLimitConfig) (ip : Ip) (now : ℕ) (cs hs : List ℕ) (s : RateLimiter d) where
    pub checks_message_same :
        (now_us conn_id : ℕ)
        → Follows config ip now cs hs s
        → Follows config ip now cs hs (check_message_rate d now_us conn_id s).1
    unfolding check_message_rate
    checks_message_same now_us conn_id f =
        Follows-same config ip now cs hs s _ (ground arith) (ground arith) (ground arith) f

    pub records_message_same :
        (now_us conn_id : ℕ)
        → Follows config ip now cs hs s
        → Follows config ip now cs hs (record_message d now_us conn_id s)
    unfolding record_message
    records_message_same now_us conn_id f =
        Follows-same config ip now cs hs s _ (ground arith) (ground arith) (ground arith) f

    pub registers_same :
        (any : Ip)
        → Follows config ip now cs hs s
        → Follows config ip now cs hs (register_connection d any s).1
    unfolding register_connection change put
    registers_same any f = elim (Bool-cases (is_same any ip)) [
      | inl same ↦
          let e : any ≡ ip = is_same→eq any ip same in
          Follows-same config ip now cs hs s _ refl (rw (e, is_same_refl ip) refl)
            (rw (e, is_same_refl ip) refl) f
      | inr other ↦ Follows-same config ip now cs hs s _ refl (rw other refl) (rw other refl) f
    ]

    pub unregisters_same :
        (conn_id : ℕ) (any : Ip)
        → Follows config ip now cs hs s
        → Follows config ip now cs hs (unregister_connection d conn_id any s)
    unfolding unregister_connection
    unregisters_same conn_id any f =
        Follows-same config ip now cs hs s _ refl (ground arith) (ground arith) f

    checks_connection :
        config.enabled ≡ true
        → config.connections_per_minute ≢ 0
        → s.config ≡ config
        → check_connection_rate d now ip s ≡ (
          ltb
              (count_last now 60000 (entry (s.per_ip ip)).connections)
              config.connections_per_minute,
          change d ip (λ state. state) s,
        )
    unfolding check_connection_rate
    checks_connection on some_limit e = rw e (ground arith)

    checks_handshake :
        config.enabled ≡ true
        → config.handshake_attempts_per_minute ≢ 0
        → s.config ≡ config
        → check_handshake_rate d now ip s ≡ (
          ltb
              (count_last now 60000 (entry (s.per_ip ip)).handshakes)
              config.handshake_attempts_per_minute,
          change d ip (λ state. state) s,
        )
    unfolding check_handshake_rate
    checks_handshake on some_limit e = rw e (ground arith)

    records_connection :
        s.config.enabled ≡ true
        → record_connection d now ip (change d ip (λ state. state) s)
          ≡ change d ip
              (λ state. record state { connections = add now state.connections })
              (change d ip (λ state. state) s)
    unfolding record_connection change
    records_connection on = rw on refl

    pub connects-Follows :
        config.enabled ≡ true
        → config.connections_per_minute ≢ 0
        → Follows config ip now cs hs s
        → Follows config ip now
            (if (admit_connection d now ip s).0 then now ∷ cs else cs)
            hs
            (admit_connection d now ip s).1
    unfolding admit_connection change put
    connects-Follows on some_limit f =
        elim (Bool-cases (
          ltb (count_last now 60000 (entry (s.per_ip ip)).connections)
            config.connections_per_minute)) [
              | inl room ↦
                  rw
                    (
                      checks_connection on some_limit f.same_config,
                      room,
                      records_connection
                          (ap (λ (c : RateLimitConfig). c.enabled) f.same_config ∙ on),
                    )
                    (record {
                      same_config = f.same_config;
                      connections = rw (is_same_refl ip) (
                          Tracks-add config.connections_per_minute _ _ now f.connections
                            (ltb→lt _ _ room));
                      handshakes = rw (is_same_refl ip) f.handshakes;
                    })
              | inr full ↦
                  rw (checks_connection on some_limit f.same_config, full)
                    (record {
                      same_config = f.same_config;
                      connections = rw (is_same_refl ip) f.connections;
                      handshakes = rw (is_same_refl ip) f.handshakes;
                    })
            ]

    records_handshake :
        s.config.enabled ≡ true
        → record_handshake d now ip (change d ip (λ state. state) s)
          ≡ change d ip
              (λ state. record state { handshakes = add now state.handshakes })
              (change d ip (λ state. state) s)
    unfolding record_handshake change
    records_handshake on = rw on refl

    pub shakes_hands-Follows :
        (completes : Bool)
        → config.enabled ≡ true
        → config.handshake_attempts_per_minute ≢ 0
        → Follows config ip now cs hs s
        → Follows config ip now cs
            (if (admit_handshake d completes now ip s).0 then now ∷ hs else hs)
            (admit_handshake d completes now ip s).1
    unfolding admit_handshake change put
    shakes_hands-Follows false on some_limit f =
        elim (Bool-cases (
          ltb (count_last now 60000 (entry (s.per_ip ip)).handshakes)
            config.handshake_attempts_per_minute)) [
              | inl room ↦ rw (checks_handshake on some_limit f.same_config, room) unrecorded
              | inr full ↦ rw (checks_handshake on some_limit f.same_config, full) unrecorded
            ]
      where
        unrecorded : Follows config ip now cs hs (change d ip (λ state. state) s)
        unrecorded = record {
          same_config = f.same_config;
          connections = rw (is_same_refl ip) f.connections;
          handshakes = rw (is_same_refl ip) f.handshakes;
        }
    shakes_hands-Follows true on some_limit f =
        elim (Bool-cases (
          ltb (count_last now 60000 (entry (s.per_ip ip)).handshakes)
            config.handshake_attempts_per_minute)) [
              | inl room ↦
                  rw
                    (
                      checks_handshake on some_limit f.same_config,
                      room,
                      records_handshake
                          (ap (λ (c : RateLimitConfig). c.enabled) f.same_config ∙ on),
                    )
                    (record {
                      same_config = f.same_config;
                      handshakes = rw (is_same_refl ip) (
                          Tracks-add config.handshake_attempts_per_minute _ _ now f.handshakes
                            (ltb→lt _ _ room));
                      connections = rw (is_same_refl ip) f.connections;
                    })
              | inr full ↦
                  rw (checks_handshake on some_limit f.same_config, full)
                    (record {
                      same_config = f.same_config;
                      connections = rw (is_same_refl ip) f.connections;
                      handshakes = rw (is_same_refl ip) f.handshakes;
                    })
            ]

    pub other_connects_same :
        (other : Ip)
        → is_same other ip ≡ false
        → Follows config ip now cs hs s
        → Follows config ip now cs hs (admit_connection d now other s).1
    unfolding admit_connection check_connection_rate record_connection change put
    other_connects_same other apart f =
        Follows-same config ip now cs hs s _ (ground (arith, apart)) (ground (arith, apart))
          (ground (arith, apart)) f

    pub other_shakes_same :
        (completes : Bool) (other : Ip)
        → is_same other ip ≡ false
        → Follows config ip now cs hs s
        → Follows config ip now cs hs (admit_handshake d completes now other s).1
    unfolding admit_handshake check_handshake_rate record_handshake change put
    other_shakes_same completes other apart f =
        Follows-same config ip now cs hs s _ (ground (arith, apart)) (ground (arith, apart))
          (ground (arith, apart)) f

    pub cleans-Follows :
        Follows config ip now cs hs s → Follows config ip now cs hs (cleanup d now s)
    unfolding cleanup
    cleans-Follows f = record {
      same_config = f.same_config;
      connections = rw (tidy-connections now (s.per_ip ip)) (Tracks-clean _ _ _ now f.connections);
      handshakes = rw (tidy-handshakes now (s.per_ip ip)) (Tracks-clean _ _ _ now f.handshakes);
    }
