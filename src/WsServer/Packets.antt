-- ===== src/WsServer/Packets.antt =====
-- on_message of WsServerWrapper for a packet of a known connection, up to the dispatch to the
-- handlers: the handshake, the message rate, the decryption, the size and the bookkeeping. The
-- branches for an authenticated and for an anonymous session are the same.
use obscura_proto.Common.{
  ℕ, ◌≡◌, ◌≢◌, refl, sym, ap, ◌∙◌, inl, inr, List, String, Bool, true, false, ◌&&◌, ltb,
  if◌then◌else◌, length, Bool-cases,
}
use obscura_proto.Errors.{Result, Exception, ok, err}
use obscura_proto.Endian.{Host}
use obscura_proto.Packet.{Payload}
use obscura_proto.Crypto.Libsodium.{Sodium}
use obscura_proto.Session.{Session, decrypt_packet}
use obscura_proto.Session.Reach.{Reach}
use obscura_proto.Session.Replay.{decrypt_packet_replayed}
use obscura_proto.RateLimiter.Floats.{Double}
use obscura_proto.RateLimiter.{RateLimitConfig, RateLimiter, Ip, check_message_rate, record_message}
use obscura_proto.Config.{MessageLimitConfig}

pub record ConnectionState : Type 0 where
  pub session : Session
  pub rate_limiter_id : ℕ
  pub remote_ip : Ip
  pub last_activity_ms : ℕ

-- How a packet ends: not looked at, the connection closed, refused with an exception that is
-- logged, or its payload dispatched.
pub data Verdict : Type 0 where
  ignored : Verdict
  closed : String → Verdict
  refused : Exception → Verdict
  dispatched : Payload → Verdict

-- The limit on the decrypted payload; 0 is none.
unfoldable pub is_too_large : MessageLimitConfig → Payload → Bool
is_too_large limits p =
    limits.enabled
    && ltb 0 limits.max_decrypted_payload
    && ltb limits.max_decrypted_payload (length p.parameters)

module _ (sodium : Sodium) (d : Double) where
  unfoldable pub after_decrypt :
      RateLimitConfig
      → MessageLimitConfig
      → ℕ
      → ℕ
      → Result Payload × Session
      → ConnectionState
      → RateLimiter d
      → Verdict × ConnectionState × RateLimiter d
  after_decrypt rate limits now_us now_ms (err e, s) c l = (refused e, record c { session = s }, l)
  after_decrypt rate limits now_us now_ms (ok p, s) c l =
      if is_too_large limits p then (closed "Payload too large", record c { session = s }, l) else (
        dispatched p,
        record c { session = s; last_activity_ms = now_ms },
        if rate.enabled then record_message d now_us c.rate_limiter_id l else l,
      )

  unfoldable pub receive_packet :
      Host
      → RateLimitConfig
      → MessageLimitConfig
      → ℕ
      → ℕ
      → List ℕ
      → ConnectionState
      → RateLimiter d
      → Verdict × ConnectionState × RateLimiter d
  unfolding after_decrypt
  receive_packet h rate limits now_us now_ms packet c l =
      let (passes, l') =
        if rate.enabled then check_message_rate d now_us c.rate_limiter_id l else (true, l) in
      if c.session.handshake_complete
      then if passes
        then after_decrypt rate limits now_us now_ms (decrypt_packet sodium h packet c.session) c l'
        else (closed "Message rate limit exceeded", c, l')
      else (ignored, c, l)

  after_decrypt-dispatched :
      (rate : RateLimitConfig) (limits : MessageLimitConfig) (now_us now_ms : ℕ)
      (got : Result Payload × Session) (c : ConnectionState) (l : RateLimiter d) (p : Payload)
      → (after_decrypt rate limits now_us now_ms got c l).0 ≡ dispatched p
      → (got.0 ≡ ok p)
        × (is_too_large limits p ≡ false)
        × ((after_decrypt rate limits now_us now_ms got c l).1.session ≡ got.1)
  unfolding after_decrypt
  after_decrypt-dispatched rate limits now_us now_ms (err x, s) c l p e = cc
  after_decrypt-dispatched rate limits now_us now_ms (ok q, s) c l p e =
      elim (Bool-cases (is_too_large limits q)) [
        | inl big ↦ cc (rw big at e)
        | inr fits ↦
            let same : q ≡ p = cc (rw fits at e) in (ap ok same, rw (← same) fits, rw fits refl)
      ]

  -- Of the three ways behind two guards only the first can dispatch.
  gate :
      (b b' : Bool) (x y z : Verdict × ConnectionState × RateLimiter d) (p : Payload)
      → y.0 ≢ dispatched p
      → z.0 ≢ dispatched p
      → (if b then if b' then x else y else z).0 ≡ dispatched p
      → (b ≡ true) × ((if b then if b' then x else y else z) ≡ x)
  gate true true x y z p ny nz e = (refl, refl)
  gate true false x y z p ny nz e = absurd (ny e)
  gate false b' x y z p ny nz e = absurd (nz e)

  module _ (h : Host) (rate : RateLimitConfig) (limits : MessageLimitConfig) (now_us now_ms : ℕ)
      (packet : List ℕ) (c : ConnectionState) (l : RateLimiter d) where
    abbrev checked : Bool × RateLimiter d
    checked = if rate.enabled then check_message_rate d now_us c.rate_limiter_id l else (true, l)

    dispatched-ok :
        (p : Payload)
        → (receive_packet h rate limits now_us now_ms packet c l).0 ≡ dispatched p
        → ((decrypt_packet sodium h packet c.session).0 ≡ ok p)
          × (c.session.handshake_complete ≡ true)
          × (is_too_large limits p ≡ false)
          × ((receive_packet h rate limits now_us now_ms packet c l).1.session
              ≡ (decrypt_packet sodium h packet c.session).1)
    unfolding receive_packet
    dispatched-ok p e =
        let decrypted =
          after_decrypt rate limits now_us now_ms (decrypt_packet sodium h packet c.session) c
            checked.1 in
        let (on, same) =
          gate c.session.handshake_complete checked.0 decrypted
            (closed "Message rate limit exceeded", c, checked.1) (ignored, c, l) p (λ k. cc)
            (λ k. cc) e in
        let (read, fits, kept) =
          after_decrypt-dispatched rate limits now_us now_ms
            (decrypt_packet sodium h packet c.session) c checked.1 p
            (ap (λ (v : Verdict × ConnectionState × RateLimiter d). v.0) (sym same) ∙ e) in
        (
          read,
          on,
          fits,
          ap (λ (v : Verdict × ConnectionState × RateLimiter d). v.1.session) same ∙ kept,
        )

  -- A payload that is dispatched was sent over a complete handshake, decrypted and within the size
  -- limit; and its packet is never dispatched again on that session, whatever methods of the
  -- session are called in between and whatever the limiter and the limits are then.
  pub dispatched_once :
      (h : Host) (rate rate' : RateLimitConfig) (limits limits' : MessageLimitConfig)
      (now_us now_ms now_us' now_ms' : ℕ) (packet : List ℕ) (c c' : ConnectionState)
      (l l' : RateLimiter d) (p q : Payload)
      → (receive_packet h rate limits now_us now_ms packet c l).0 ≡ dispatched p
      → Reach sodium (receive_packet h rate limits now_us now_ms packet c l).1.session c'.session
      → (c.session.handshake_complete ≡ true)
        × ((decrypt_packet sodium h packet c.session).0 ≡ ok p)
        × (is_too_large limits p ≡ false)
        × ((receive_packet h rate' limits' now_us' now_ms' packet c' l').0 ≢ dispatched q)
  dispatched_once h rate rate' limits limits' now_us now_ms now_us' now_ms' packet c c' l l' p q e
        r =
      let (read, on, fits, kept) = dispatched-ok h rate limits now_us now_ms packet c l p e in
      let (x, refused_then) =
        decrypt_packet_replayed sodium h packet c.session c'.session p read (rw kept at r) in
      (
        on,
        read,
        fits,
        λ e'.
            let again = (dispatched-ok h rate' limits' now_us' now_ms' packet c' l' q e').0 in
            cc (again, ap (λ (got : Result Payload × Session). got.0) refused_then),
      )
