-- ===== src/WsServer/Timeouts.antt =====
-- check_timeouts of WsServerWrapper of src/ws_server.cpp: which connections it closes.
use obscura_proto.Common.{ℕ, ◌+◌, ◌≤◌, ◌<◌, ◌↔◌, ◌⊎◌, inl, inr, ltb, lt→ltb, Bool-cases}
use obscura_proto.RateLimiter.Floats.{Double}
use obscura_proto.WsServer.Packets.{ConnectionState}
use obscura_proto.WsServer.State.{Server, Effect, connection_closed}
use obscura_proto.WsServer.Lifecycle.{close_idle, check_timeouts}
use obscura_proto.WsServer.Closes.{
  In, IsIdleClose, IsLateClose, close_idle-keeps, close_idle-closes, expire_handshakes-keeps,
  expire_handshakes-ends, close_idle-only, expire_handshakes-only, close_idle-idle,
  expire_handshakes-late,
}

module _ (d : Double) (now : ℕ) (s : Server d) where
  -- With a handshake timeout that is not 0, a check of the timeouts treats every connection whose
  -- handshake is awaited: it stays awaited if the timeout has not passed; if it has, the connection
  -- is closed and no longer awaited.
  pub check_timeouts-settles :
      (hdl time : ℕ)
      → 0 < s.config.timeouts.handshake_ms
      → In (hdl, time) s.handshake_open_time
      → (In (hdl, time) (check_timeouts d now s).handshake_open_time
          × (now ≤ time + s.config.timeouts.handshake_ms))
        ⊎ ((¬ In (hdl, time) (check_timeouts d now s).handshake_open_time)
            × In (connection_closed hdl "Handshake timeout") (check_timeouts d now s).effects
            × (time + s.config.timeouts.handshake_ms < now))
  unfolding check_timeouts
  check_timeouts-settles hdl time on awaited = elim (Bool-cases (ltb 0 s.config.timeouts.idle_ms)) [
    | inl idle ↦
        rw (idle, lt→ltb 0 s.config.timeouts.handshake_ms on)
          (expire_handshakes-ends d now s.config.timeouts.handshake_ms hdl time
            s.handshake_open_time _ awaited)
    | inr not_idle ↦
        rw (not_idle, lt→ltb 0 s.config.timeouts.handshake_ms on)
          (expire_handshakes-ends d now s.config.timeouts.handshake_ms hdl time
            s.handshake_open_time _ awaited)
  ]

  -- With an idle timeout that is not 0, a check of the timeouts closes every connection, of either
  -- table, whose last activity lies longer back, whether the timeouts are enabled or not.
  pub check_timeouts-closes :
      (hdl : ℕ) (c : ConnectionState)
      → 0 < s.config.timeouts.idle_ms
      → 0 < c.last_activity_ms
      → c.last_activity_ms + s.config.timeouts.idle_ms < now
      → In (hdl, c) s.sessions ⊎ In (hdl, c) s.anon_sessions
      → In (connection_closed hdl "Idle timeout") (check_timeouts d now s).effects
  unfolding check_timeouts
  check_timeouts-closes hdl c on active late known =
      let x = connection_closed hdl "Idle timeout" in
      let idle = s.config.timeouts.idle_ms in
      let first = close_idle d now idle s.sessions s.effects in
      let closed : In x (close_idle d now idle s.anon_sessions first) = elim known [
        | inl auth ↦
            close_idle-keeps d now idle x s.anon_sessions first
              (close_idle-closes d now idle hdl c s.sessions s.effects auth active late)
        | inr anon ↦ close_idle-closes d now idle hdl c s.anon_sessions first anon active late
      ] in
      elim (Bool-cases (ltb 0 s.config.timeouts.handshake_ms)) [
        | inl both ↦
            rw (lt→ltb 0 idle on, both)
              (expire_handshakes-keeps d now s.config.timeouts.handshake_ms x s.handshake_open_time
                (close_idle d now idle s.anon_sessions first) closed)
        | inr only ↦ rw (lt→ltb 0 idle on, only) closed
      ]

  -- With both timeouts not 0, the effects of a check of the timeouts, whether these are enabled or
  -- not, are exactly the effects before it and the closes of the connections of either table whose
  -- last activity lies longer back than the idle timeout, and of those whose handshake has been
  -- awaited for longer than the handshake timeout.
  pub check_timeouts-effects :
      (x : Effect)
      → 0 < s.config.timeouts.idle_ms
      → 0 < s.config.timeouts.handshake_ms
      → In x (check_timeouts d now s).effects ↔ (
          In x s.effects
          ⊎ (IsIdleClose now s.config.timeouts.idle_ms s.sessions x
              ⊎ (IsIdleClose now s.config.timeouts.idle_ms s.anon_sessions x
                  ⊎ IsLateClose now s.config.timeouts.handshake_ms s.handshake_open_time x)))
  unfolding check_timeouts
  check_timeouts-effects x idle_on late_on =
      let idle = s.config.timeouts.idle_ms in
      let limit = s.config.timeouts.handshake_ms in
      let first = close_idle d now idle s.sessions s.effects in
      let second = close_idle d now idle s.anon_sessions first in
      let keep = expire_handshakes-keeps d now limit x s.handshake_open_time second in
      rw (lt→ltb 0 idle idle_on, lt→ltb 0 limit late_on)
        (
          λ h. elim (expire_handshakes-only d now limit x s.handshake_open_time second h) [
            | inr late ↦ inr (inr (inr late))
            | inl h' ↦ elim (close_idle-only d now idle x s.anon_sessions first h') [
              | inr anon ↦ inr (inr (inl anon))
              | inl h'' ↦ elim (close_idle-only d now idle x s.sessions s.effects h'') [
                | inr auth ↦ inr (inl auth)
                | inl before ↦ inl before
              ]
            ]
          ],
          λ h. elim h [
            | inl before ↦ keep (
                close_idle-keeps d now idle x s.anon_sessions first
                  (close_idle-keeps d now idle x s.sessions s.effects before))
            | inr (inl auth) ↦ keep (
                close_idle-keeps d now idle x s.anon_sessions first
                  (close_idle-idle d now idle x s.sessions s.effects auth))
            | inr (inr (inl anon)) ↦ keep (close_idle-idle d now idle x s.anon_sessions first anon)
            | inr (inr (inr late)) ↦
                expire_handshakes-late d now limit x s.handshake_open_time second late
          ],
        )
