-- ===== src/WsServer/Closes.antt =====
-- The loops of check_timeouts of src/ws_server.cpp that close connections, and which they close.
use obscura_proto.Common.{
  ℕ, ◌+◌, ◌≤◌, ◌<◌, ◌≡◌, ◌⊎◌, refl, ap, inl, inr, List, [], ◌∷◌, ◌&&◌, arith, ltb, ltb→lt, ltb→le,
  lt→ltb, Bool-cases,
}
use obscura_proto.RateLimiter.Floats.{Double}
use obscura_proto.WsServer.Packets.{ConnectionState}
use obscura_proto.WsServer.State.{Effect, connection_closed}
use obscura_proto.WsServer.Lifecycle.{close_idle, expire_handshakes}

-- An entry of a list.
abbrev pub In : {A : Type 0} → A → List A → Type 0
In a [] = ⊥
In a (x ∷ xs) = (a ≡ x) ⊎ In a xs

-- The close of a connection of a table that has been idle for too long.
abbrev pub IsIdleClose : ℕ → ℕ → List (ℕ × ConnectionState) → Effect → Type 0
IsIdleClose now idle m x =
    (hdl : ℕ) × (c : ConnectionState) × (x ≡ connection_closed hdl "Idle timeout")
    × In (hdl, c) m
    × (0 < c.last_activity_ms)
    × (c.last_activity_ms + idle < now)

-- The close of a connection whose handshake has been awaited for too long.
abbrev pub IsLateClose : ℕ → ℕ → List (ℕ × ℕ) → Effect → Type 0
IsLateClose now limit m x =
    (hdl : ℕ) × (time : ℕ) × (x ≡ connection_closed hdl "Handshake timeout")
    × In (hdl, time) m
    × (time + limit < now)

pub close_idle-keeps :
    (d : Double) (now idle : ℕ) (x : Effect) (m : List (ℕ × ConnectionState)) (done : List Effect)
    → In x done
    → In x (close_idle d now idle m done)
unfolding close_idle
close_idle-keeps d now idle x [] done h = h
close_idle-keeps d now idle x ((hdl, c) ∷ m) done h =
    elim (Bool-cases (ltb 0 c.last_activity_ms && ltb (c.last_activity_ms + idle) now)) [
      | inl late ↦ rw late (close_idle-keeps d now idle x m _ (inr h))
      | inr early ↦ rw early (close_idle-keeps d now idle x m done h)
    ]

pub close_idle-closes :
    (d : Double) (now idle hdl : ℕ) (c : ConnectionState) (m : List (ℕ × ConnectionState))
    (done : List Effect)
    → In (hdl, c) m
    → 0 < c.last_activity_ms
    → c.last_activity_ms + idle < now
    → In (connection_closed hdl "Idle timeout") (close_idle d now idle m done)
unfolding close_idle
close_idle-closes d now idle hdl c [] done h active late = absurd h
close_idle-closes d now idle hdl c ((k, x) ∷ m) done (inl same) active late =
    let x_same : c ≡ x = ap (λ (e : ℕ × ConnectionState). e.1) same in
    let k_same : hdl ≡ k = ap (λ (e : ℕ × ConnectionState). e.0) same in
    rw
      (
        ← x_same,
        ← k_same,
        lt→ltb 0 c.last_activity_ms active,
        lt→ltb (c.last_activity_ms + idle) now late,
      )
      (close_idle-keeps d now idle (connection_closed hdl "Idle timeout") m _ (inl refl))
close_idle-closes d now idle hdl c ((k, x) ∷ m) done (inr later) active late =
    close_idle-closes d now idle hdl c m _ later active late

pub expire_handshakes-keeps :
    (d : Double) (now limit : ℕ) (x : Effect) (m : List (ℕ × ℕ)) (done : List Effect)
    → In x done
    → In x (expire_handshakes d now limit m done).1
unfolding expire_handshakes
expire_handshakes-keeps d now limit x [] done h = h
expire_handshakes-keeps d now limit x ((hdl, time) ∷ m) done h =
    elim (Bool-cases (ltb (time + limit) now)) [
      | inl late ↦ rw late (inr (expire_handshakes-keeps d now limit x m done h))
      | inr early ↦ rw early (expire_handshakes-keeps d now limit x m done h)
    ]

pub expire_handshakes-settles :
    (d : Double) (now limit hdl time : ℕ) (m : List (ℕ × ℕ)) (done : List Effect)
    → In (hdl, time) m
    → (In (hdl, time) (expire_handshakes d now limit m done).0 × (now ≤ time + limit))
      ⊎ (In (connection_closed hdl "Handshake timeout") (expire_handshakes d now limit m done).1
          × (time + limit < now))
unfolding expire_handshakes
expire_handshakes-settles d now limit hdl time [] done h = absurd h
expire_handshakes-settles d now limit hdl time ((k, t) ∷ m) done (inl same) =
    let t_same : time ≡ t = ap (λ (e : ℕ × ℕ). e.1) same in
    let k_same : hdl ≡ k = ap (λ (e : ℕ × ℕ). e.0) same in
    rw (← t_same, ← k_same)
      (elim (Bool-cases (ltb (time + limit) now)) [
        | inl late ↦ rw late (inr (inl refl, ltb→lt _ _ late))
        | inr early ↦ rw early (inl (inl refl, ltb→le _ _ early))
      ])
expire_handshakes-settles d now limit hdl time ((k, t) ∷ m) done (inr later) =
    elim (Bool-cases (ltb (t + limit) now)) [
      | inl late ↦ rw late (elim (expire_handshakes-settles d now limit hdl time m done later) [
        | inl (waits, early) ↦ inl (waits, early)
        | inr (closes, passed) ↦ inr (inr closes, passed)
      ])
      | inr early ↦ rw early (elim (expire_handshakes-settles d now limit hdl time m done later) [
        | inl (waits, soon) ↦ inl (inr waits, soon)
        | inr (closes, passed) ↦ inr (closes, passed)
      ])
    ]

pub close_idle-only :
    (d : Double) (now idle : ℕ) (x : Effect) (m : List (ℕ × ConnectionState)) (done : List Effect)
    → In x (close_idle d now idle m done)
    → In x done ⊎ IsIdleClose now idle m x
unfolding close_idle
close_idle-only d now idle x [] done h = inl h
close_idle-only d now idle x ((k, c) ∷ m) done h =
    elim (Bool-cases (ltb 0 c.last_activity_ms && ltb (c.last_activity_ms + idle) now)) [
      | inr early ↦ elim (close_idle-only d now idle x m done (rw early at h)) [
        | inl before ↦ inl before
        | inr (hdl, y, same, known, active, passed) ↦ inr (hdl, y, same, inr known, active, passed)
      ]
      | inl late ↦ elim (close_idle-only d now idle x m _ (rw late at h)) [
        | inl (inl same) ↦
            let active : 0 < c.last_activity_ms = ground arith in
            let passed : c.last_activity_ms + idle < now = ground arith in
            inr (k, c, same, inl refl, active, passed)
        | inl (inr before) ↦ inl before
        | inr (hdl, y, same, known, active, passed) ↦ inr (hdl, y, same, inr known, active, passed)
      ]
    ]

pub expire_handshakes-only :
    (d : Double) (now limit : ℕ) (x : Effect) (m : List (ℕ × ℕ)) (done : List Effect)
    → In x (expire_handshakes d now limit m done).1
    → In x done ⊎ IsLateClose now limit m x
unfolding expire_handshakes
expire_handshakes-only d now limit x [] done h = inl h
expire_handshakes-only d now limit x ((k, t) ∷ m) done h = elim (Bool-cases (ltb (t + limit) now)) [
  | inr early ↦ elim (expire_handshakes-only d now limit x m done (rw early at h)) [
    | inl before ↦ inl before
    | inr (hdl, time, same, known, passed) ↦ inr (hdl, time, same, inr known, passed)
  ]
  | inl late ↦
      let seen : (x ≡ connection_closed k "Handshake timeout")
          ⊎ In x (expire_handshakes d now limit m done).1 =
        rw late at h in
      elim seen [
        | inl same ↦ inr (k, t, same, inl refl, ltb→lt _ _ late)
        | inr h' ↦ elim (expire_handshakes-only d now limit x m done h') [
          | inl before ↦ inl before
          | inr (hdl, time, same, known, passed) ↦ inr (hdl, time, same, inr known, passed)
        ]
      ]
]

pub close_idle-idle :
    (d : Double) (now idle : ℕ) (x : Effect) (m : List (ℕ × ConnectionState)) (done : List Effect)
    → IsIdleClose now idle m x
    → In x (close_idle d now idle m done)
close_idle-idle d now idle x m done (hdl, c, same, known, active, late) =
    rw same (close_idle-closes d now idle hdl c m done known active late)

pub expire_handshakes-late :
    (d : Double) (now limit : ℕ) (x : Effect) (m : List (ℕ × ℕ)) (done : List Effect)
    → IsLateClose now limit m x
    → In x (expire_handshakes d now limit m done).1
expire_handshakes-late d now limit x m done (hdl, time, same, known, passed) =
    rw same (elim (expire_handshakes-settles d now limit hdl time m done known) [
      | inl (waits, early) ↦ absurd (omega (arith, early, passed))
      | inr (closes, late) ↦ closes
    ])

waits_step :
    {Later : Type 0} (now limit : ℕ) (entry first : ℕ × ℕ)
    → now ≤ first.1 + limit
    → (entry ≡ first) ⊎ Later
    → (Later → now ≤ entry.1 + limit)
    → now ≤ entry.1 + limit
waits_step now limit entry first left (inl same) later = rw same left
waits_step now limit entry first left (inr waits) later = later waits

-- What is still awaited has time left.
pub expire_handshakes-waits :
    (d : Double) (now limit hdl time : ℕ) (m : List (ℕ × ℕ)) (done : List Effect)
    → In (hdl, time) (expire_handshakes d now limit m done).0
    → now ≤ time + limit
unfolding expire_handshakes
expire_handshakes-waits d now limit hdl time [] done h = absurd h
expire_handshakes-waits d now limit hdl time ((k, t) ∷ m) done h =
    elim (Bool-cases (ltb (t + limit) now)) [
      | inl late ↦ expire_handshakes-waits d now limit hdl time m done (rw late at h)
      | inr early ↦
          let seen : ((hdl, time) ≡ (k, t))
              ⊎ In (hdl, time) (expire_handshakes d now limit m done).0 =
            rw early at h in
          waits_step now limit (hdl, time) (k, t) (ltb→le _ _ early) seen
            (expire_handshakes-waits d now limit hdl time m done)
    ]

-- A wait goes on, or is over for good with the close of the connection.
pub expire_handshakes-ends :
    (d : Double) (now limit hdl time : ℕ) (m : List (ℕ × ℕ)) (done : List Effect)
    → In (hdl, time) m
    → (In (hdl, time) (expire_handshakes d now limit m done).0 × (now ≤ time + limit))
      ⊎ ((¬ In (hdl, time) (expire_handshakes d now limit m done).0)
          × In (connection_closed hdl "Handshake timeout") (expire_handshakes d now limit m done).1
          × (time + limit < now))
expire_handshakes-ends d now limit hdl time m done h =
    elim (expire_handshakes-settles d now limit hdl time m done h) [
      | inl waits ↦ inl waits
      | inr (closes, passed) ↦ inr (
        λ still.
            let early = expire_handshakes-waits d now limit hdl time m done still in
            omega (arith, early, passed),
        closes,
        passed,
      )
    ]
