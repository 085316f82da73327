-- ===== src/WsServer/Attempts.antt =====
-- Handshake attempts that WsServerWrapper::on_message of src/ws_server.cpp cannot read, and the limit
-- on handshakes.
use obscura_proto.Common.{
  ℕ, ◌≡◌, refl, sym, ap, ◌∙◌, List, [], ◌∷◌, none, arith, inl, inr, Bool-cases, All, is_same,
  is_same→eq, Bool, not, ◌||◌, true, ltb, ◌==◌, if◌then◌else◌, put,
}
use obscura_proto.Errors.{Result, Exception, err}
use obscura_proto.Endian.{Host}
use obscura_proto.Handshake.{KeyPair, deserialize_client}
use obscura_proto.Crypto.Libsodium.{Sodium}
use obscura_proto.RateLimiter.Floats.{Double}
use obscura_proto.RateLimiter.{
  RateLimitConfig, PerIpState, Ip, RateLimiter, entry, change, count_last, check_handshake_rate,
}
use obscura_proto.WsServer.State.{Server, find_known}
use obscura_proto.WsServer.Connections.{answer_client, receive_hello, on_message}

-- A message: what libsodium draws, the clocks, the address, the connection, whether
-- websocketpp would take an answer, and the bytes.
pub record Attempt : Type 0 where
  pub fresh : KeyPair
  pub nonce : List ℕ
  pub now_us : ℕ
  pub now_ms : ℕ
  pub ip : Ip
  pub hdl : ℕ
  pub taken : Result (Unit {0})
  pub bytes : List ℕ

module _ (d : Double) where
  -- The addresses of two limiters have the same counts, whether or not there is an entry.
  record SameCounts (l l' : RateLimiter d) : Type 0 where
    pub config : l'.config ≡ l.config
    pub states : (ip : Ip) → entry (l'.per_ip ip) ≡ entry (l.per_ip ip)

  change-SameCounts : (ip : Ip) (l : RateLimiter d) → SameCounts l (change d ip (λ state. state) l)
  unfolding change put
  change-SameCounts ip l = record {
    config = refl;
    states = λ other. elim (Bool-cases (is_same ip other)) [
      | inl same ↦ rw (same, is_same→eq ip other same) refl
      | inr apart ↦ rw apart refl
    ];
  }

  check-SameCounts :
      (now : ℕ) (ip : Ip) (l : RateLimiter d) → SameCounts l (check_handshake_rate d now ip l).1
  unfolding check_handshake_rate
  check-SameCounts now ip l =
      elim (Bool-cases (not l.config.enabled || l.config.handshake_attempts_per_minute == 0)) [
        | inl off ↦ rw off (record { config = refl; states = λ other. refl })
        | inr on ↦ rw on (change-SameCounts ip l)
      ]

  abbrev passes : RateLimitConfig → PerIpState → ℕ → Bool
  passes config state now =
      if not config.enabled || config.handshake_attempts_per_minute == 0
      then true
      else ltb (count_last now 60000 state.handshakes) config.handshake_attempts_per_minute

  check-passes :
      (now : ℕ) (ip : Ip) (l : RateLimiter d)
      → (check_handshake_rate d now ip l).0 ≡ passes l.config (entry (l.per_ip ip)) now
  unfolding check_handshake_rate
  check-passes now ip l = ground arith

  check_same :
      (now : ℕ) (ip : Ip) (l l' : RateLimiter d)
      → SameCounts l l'
      → (check_handshake_rate d now ip l').0 ≡ (check_handshake_rate d now ip l).0
  check_same now ip l l' same =
      check-passes now ip l'
      ∙ ap (λ config. passes config (entry (l'.per_ip ip)) now) same.config
      ∙ ap (λ state. passes l.config state now) (same.states ip)
      ∙ sym (check-passes now ip l)

  module _ (sodium : Sodium) (h : Host) where
    -- What a message leaves of the tables, the settings and the counts.
    record IsUnnoticed (s s' : Server d) : Type 0 where
      pub config : s'.config ≡ s.config
      pub sessions : s'.sessions ≡ s.sessions
      pub anon_sessions : s'.anon_sessions ≡ s.anon_sessions
      pub counts : SameCounts s.rate_limiter s'.rate_limiter

    answer_unread :
        (a : Attempt) (e : Exception) (s : Server d)
        → deserialize_client h a.bytes ≡ err e
        → IsUnnoticed s (receive_hello d sodium h a.fresh a.now_ms a.ip a.hdl a.taken a.bytes s)
    unfolding receive_hello answer_client
    answer_unread a e s bad =
        let same = check-SameCounts a.now_ms a.ip s.rate_limiter in
        elim (Bool-cases s.config.rate_limit.enabled) [
          | inr off ↦
              rw (bad, off)
                (record {
                  config = refl;
                  sessions = refl;
                  anon_sessions = refl;
                  counts = record { config = refl; states = λ other. refl };
                })
          | inl on ↦ elim (Bool-cases (check_handshake_rate d a.now_ms a.ip s.rate_limiter).0) [
            | inl pass ↦
                rw (bad, on, pass)
                  (record { config = refl; sessions = refl; anon_sessions = refl; counts = same })
            | inr full ↦
                rw (on, full)
                  (record { config = refl; sessions = refl; anon_sessions = refl; counts = same })
          ]
        ]

    abbrev pub receive : Attempt → Server d → Server d
    receive a s =
        on_message d sodium h a.fresh a.nonce a.now_us a.now_ms a.ip a.hdl a.taken a.bytes s

    abbrev pub receive_all : List Attempt → Server d → Server d
    receive_all [] s = s
    receive_all (a ∷ attempts) s = receive_all attempts (receive a s)

    -- The message of a connection without a session, and no ClientHello.
    abbrev pub IsMalformed : Server d → Attempt → Type 0
    IsMalformed s a =
        (find_known d a.hdl s ≡ none) × ((e : Exception) × (deserialize_client h a.bytes ≡ err e))

    receive_malformed : (a : Attempt) (s : Server d) → IsMalformed s a → IsUnnoticed s (receive a s)
    unfolding on_message
    receive_malformed a s (unknown, (e, bad)) = rw unknown (answer_unread a e s bad)

    IsMalformed-receive :
        (s s' : Server d) (attempts : List Attempt)
        → IsUnnoticed s s'
        → All (IsMalformed s) attempts
        → All (IsMalformed s') attempts
    unfolding find_known
    IsMalformed-receive s s' [] same all = tt
    IsMalformed-receive s s' (a ∷ attempts) same ((unknown, bad), all) = (
      (rw (same.sessions, same.anon_sessions) unknown, bad),
      IsMalformed-receive s s' attempts same all,
    )

    -- Malformed hellos do not count as handshake attempts: whatever messages without a ClientHello
    -- arrive on connections without a session, from any addresses and at any times, the check of
    -- the handshake rate gives what it would have given without them, for every address.
    pub malformed-uncounted :
        (later : ℕ) (ip : Ip) (attempts : List Attempt) (s : Server d)
        → All (IsMalformed s) attempts
        → (check_handshake_rate d later ip (receive_all attempts s).rate_limiter).0
          ≡ (check_handshake_rate d later ip s.rate_limiter).0
    malformed-uncounted later ip [] s all = refl
    malformed-uncounted later ip (a ∷ attempts) s (bad, all) =
        let same = receive_malformed a s bad in
        malformed-uncounted later ip attempts (receive a s)
          (IsMalformed-receive s (receive a s) attempts same all)
        ∙ check_same later ip _ _ same.counts
