-- ===== src/WsServer/Accepting.antt =====
-- A connection that is entered with a complete session keeps the tables safe: as an authenticated one
-- only with an identity whose signature the session has verified.
use obscura_proto.Common.{
  ℕ, ◌≡◌, ◌⊎◌, refl, sym, ap, ◌∙◌, inl, inr, Bool, true, false, Option, none, some, arith, ◌==◌,
  Bool-cases, ==_iff, ==_refl, put,
}
use mathlib.Core.Option.{some-injective}
use obscura_proto.Common.Maps.{find, insert_new-free}
use obscura_proto.Endian.{Host}
use obscura_proto.Handshake.{PublicKey}
use obscura_proto.Crypto.Libsodium.{Sodium}
use obscura_proto.Session.{Session}
use obscura_proto.RateLimiter.Floats.{Double}
use obscura_proto.RateLimiter.{Ip, register_connection}
use obscura_proto.WsServer.Identities.{accept, accept-IsSound}
use obscura_proto.WsServer.Packets.{ConnectionState}
use obscura_proto.WsServer.State.{Server}
use obscura_proto.WsServer.Connections.{register_anonymous, register_identity}
use obscura_proto.WsServer.Counting.{insert-Distinct, length-insert, find-has}
use obscura_proto.WsServer.Keeping.{view, Untouched}
use obscura_proto.WsServer.Safety.{peer_at, IsVerified, IsSafe, view-insert}

module _ (sodium : Sodium) (d : Double) (h : Host) where
  -- A connection that is in no table.
  pub record IsNew (hdl : ℕ) (s : Server d) : Type 0 where
    pub no_auth : find hdl s.sessions ≡ none
    pub no_anon : find hdl s.anon_sessions ≡ none

  pub Untouched-IsNew : (hdl : ℕ) (s s' : Server d) → Untouched d s s' → IsNew hdl s → IsNew hdl s'
  Untouched-IsNew hdl s s' u fresh = record {
    no_auth = rw u.0 fresh.no_auth;
    no_anon = rw u.1 fresh.no_anon;
  }

  -- What the session is when it answers.
  abbrev pub Shows : Bool → Session → Type 0
  Shows is_identified x =
      (x.handshake_complete ≡ true)
      × (((is_identified ≡ false) × (x.peer_identity ≡ none))
          ⊎ ((pk : PublicKey) × (is_identified ≡ true)
              × (x.peer_identity ≡ some pk)
              × IsVerified sodium d pk x.session_keys x.ephemeral_kx_kp))

  module _ (ms : ℕ) (ip : Ip) (hdl : ℕ) (x : Session) (s : Server d) (safe : IsSafe sodium d s)
      (fresh : IsNew hdl s) (complete : x.handshake_complete ≡ true) where
    pub register_anonymous-IsSafe :
        x.peer_identity ≡ none → IsSafe sodium d (register_anonymous d sodium h ms ip hdl x s)
    unfolding register_anonymous
    register_anonymous-IsSafe nobody =
        let c : ConnectionState = record {
          session = x;
          rate_limiter_id = (register_connection d ip s.rate_limiter).0;
          remote_ip = ip;
          last_activity_ms = ms;
        } in
        rw (insert_new-free hdl c s.anon_sessions fresh.no_anon) (record {
          shown = safe.shown;
          unshown = λ k v e. elim (Bool-cases (k == hdl)) [
            | inl this ↦
                let v_same =
                  some-injective _ _
                    (rw (view-insert sodium d k hdl c s.anon_sessions, this) at e) in
                rw (← v_same) (nobody, complete)
            | inr other ↦
                safe.unshown k v (rw (view-insert sodium d k hdl c s.anon_sessions, other) at e)
          ];
          apart = λ k. elim (Bool-cases (k == hdl)) [
            | inl this ↦ inl (rw ((==_iff k hdl).0 this, fresh.no_auth) refl)
            | inr other ↦ rw (view-insert sodium d k hdl c s.anon_sessions, other) (safe.apart k)
          ];
          agree = safe.agree;
          sound = safe.sound;
          distinct_auth = safe.distinct_auth;
          distinct_anon =
              insert-Distinct hdl c s.anon_sessions (find-has hdl s.anon_sessions fresh.no_anon)
                safe.distinct_anon;
          counted = λ running.
              unfold register_connection in
              omega (
                arith,
                length-insert hdl c s.anon_sessions (find-has hdl s.anon_sessions fresh.no_anon),
                safe.counted running,
              );
        })

    pub register_identity-IsSafe :
        (pk : PublicKey)
        → x.peer_identity ≡ some pk
        → IsVerified sodium d pk x.session_keys x.ephemeral_kx_kp
        → IsSafe sodium d (register_identity d sodium h ms ip hdl pk x s)
    unfolding register_identity
    register_identity-IsSafe pk peer verified =
        let c : ConnectionState = record {
          session = x;
          rate_limiter_id = (register_connection d ip s.rate_limiter).0;
          remote_ip = ip;
          last_activity_ms = ms;
        } in
        let free : s.identities.hdl_to_identity hdl ≡ none =
          safe.agree hdl ∙ ap (λ (o : Option ConnectionState). peer_at (view o)) fresh.no_auth in
        rw (insert_new-free hdl c s.sessions fresh.no_auth) (record {
          shown = λ k v e. elim (Bool-cases (k == hdl)) [
            | inl this ↦
                let v_same =
                  some-injective _ _ (rw (view-insert sodium d k hdl c s.sessions, this) at e) in
                rw (← v_same) (pk, peer, complete, verified)
            | inr other ↦ safe.shown k v (rw (view-insert sodium d k hdl c s.sessions, other) at e)
          ];
          unshown = safe.unshown;
          apart = λ k. elim (Bool-cases (k == hdl)) [
            | inl this ↦ inr (rw ((==_iff k hdl).0 this, fresh.no_anon) refl)
            | inr other ↦ rw (view-insert sodium d k hdl c s.sessions, other) (safe.apart k)
          ];
          agree = λ k. rw (view-insert sodium d k hdl c s.sessions) (elim (Bool-cases (k == hdl)) [
            | inl this ↦
                unfold accept put in rw (this, (==_iff k hdl).0 this, ==_refl hdl) (sym peer)
            | inr other ↦
                let flipped : (hdl == k) ≡ false = ground arith in
                unfold accept put in rw (other, flipped) (safe.agree k)
          ]);
          sound = accept-IsSound hdl pk s.identities free safe.sound;
          distinct_auth =
              insert-Distinct hdl c s.sessions (find-has hdl s.sessions fresh.no_auth)
                safe.distinct_auth;
          distinct_anon = safe.distinct_anon;
          counted = λ running.
              unfold register_connection in
              omega (
                arith,
                length-insert hdl c s.sessions (find-has hdl s.sessions fresh.no_auth),
                safe.counted running,
              );
        })
