-- ===== src/WsServer/Hellos.antt =====
-- A ClientHello, and any message, keeps the tables of the server safe.
use obscura_proto.Common.{
  ℕ, ◌≡◌, refl, ◌∙◌, inl, inr, List, Bool, true, false, Option, none, some, if◌then◌else◌,
  Bool-cases, Option-cases,
}
use obscura_proto.Errors.{Result, ok, err}
use obscura_proto.Endian.{Host}
use obscura_proto.Handshake.{PublicKey, KeyPair, ClientHello, ServerHello, deserialize_client}
use obscura_proto.Crypto.Libsodium.{Sodium}
use obscura_proto.Session
use obscura_proto.Session.{Session, server, server_respond_to_handshake}
use obscura_proto.Session.Authentication.{
  Accepted, server_respond-Accepted, Keyed, server_respond-Keyed,
}
use obscura_proto.RateLimiter.Floats.{Double}
use obscura_proto.RateLimiter.{record_handshake}
use obscura_proto.RateLimiter.Totals.{record_handshake-total, check_handshake_rate-total}
use obscura_proto.WsServer.State.{emit, frame_sent}
use obscura_proto.Handshake.{serialize_server}
use obscura_proto.Common.{arith, if◌then◌else◌}
use obscura_proto.RateLimiter.{Ip, check_handshake_rate}
use obscura_proto.WsServer.State.{Server, find_known}
use obscura_proto.WsServer.Connections.{
  after_decision, decision, log_decision, admit_session, after_respond, answer_client,
  receive_hello, on_message,
}
use obscura_proto.WsServer.Lifecycle.{close}
use obscura_proto.WsServer.Keeping.{Untouched, find_known-none, find_known-held}
use obscura_proto.WsServer.Talking.{receive_known-Keeps}
use obscura_proto.WsServer.Safety.{IsVerified, IsSafe, Keeps-IsSafe, Untouched-IsSafe}
use obscura_proto.WsServer.Accepting.{
  IsNew, Untouched-IsNew, Shows, register_anonymous-IsSafe, register_identity-IsSafe,
}

module _ (sodium : Sodium) (d : Double) (h : Host) where
  after_decision-IsSafe :
      (r : Result Bool) (ms : ℕ) (ip : Ip) (hdl : ℕ) (pk : PublicKey) (x : Session) (s : Server d)
      → IsSafe sodium d s
      → IsNew sodium d h hdl s
      → x.handshake_complete ≡ true
      → x.peer_identity ≡ some pk
      → IsVerified sodium d pk x.session_keys x.ephemeral_kx_kp
      → IsSafe sodium d (after_decision d sodium h r ms ip hdl pk x s)
  unfolding after_decision
  after_decision-IsSafe (err e) ms ip hdl pk x s safe fresh complete peer verified =
      Untouched-IsSafe sodium d s _ (refl, refl, refl, refl, refl, refl) safe
  after_decision-IsSafe (ok true) ms ip hdl pk x s safe fresh complete peer verified =
      register_identity-IsSafe sodium d h ms ip hdl x s safe fresh complete pk peer verified
  after_decision-IsSafe (ok false) ms ip hdl pk x s safe fresh complete peer verified =
      Untouched-IsSafe sodium d s _ (refl, refl, refl, refl, refl, refl) safe

  log_decision-Untouched :
      (f : Option (ℕ × PublicKey → Result Bool)) (hdl : ℕ) (pk : PublicKey) (s : Server d)
      → Untouched d s (log_decision d sodium h f hdl pk s)
  log_decision-Untouched none hdl pk s = (refl, refl, refl, refl, refl, refl)
  log_decision-Untouched (some f) hdl pk s = (refl, refl, refl, refl, refl, refl)

  shown-IsVerified :
      (x : Session) (pk : PublicKey)
      → Shows sodium d h true x
      → x.peer_identity ≡ some pk
      → IsVerified sodium d pk x.session_keys x.ephemeral_kx_kp
  shown-IsVerified x pk (complete, inl (plain, nobody)) same = cc
  shown-IsVerified x pk (complete, inr (pk', claimed, peer, verified)) same =
      let e : pk' ≡ pk = cc in rw (← e) verified

  unshown-none : (x : Session) → Shows sodium d h false x → x.peer_identity ≡ none
  unshown-none x (complete, inl (plain, nobody)) = nobody
  unshown-none x (complete, inr (pk, claimed, peer, verified)) = cc

  admit_session-IsSafe :
      (is_identified : Bool) (peer : Option PublicKey) (ms : ℕ) (ip : Ip) (hdl : ℕ) (x : Session)
      (s : Server d)
      → x.peer_identity ≡ peer
      → IsSafe sodium d s
      → IsNew sodium d h hdl s
      → Shows sodium d h is_identified x
      → IsSafe sodium d (admit_session d sodium h is_identified peer ms ip hdl x s)
  unfolding admit_session
  admit_session-IsSafe true (some pk) ms ip hdl x s same safe fresh shows =
      let logged = log_decision d sodium h s.client_identity_handler hdl pk s in
      let u = log_decision-Untouched s.client_identity_handler hdl pk s in
      after_decision-IsSafe (decision d sodium h s.client_identity_handler hdl pk) ms ip hdl pk x
        logged (Untouched-IsSafe sodium d s logged u safe)
        (Untouched-IsNew sodium d h hdl s logged u fresh) shows.0 same
        (shown-IsVerified x pk shows same)
  admit_session-IsSafe true none ms ip hdl x s same safe fresh shows =
      register_anonymous-IsSafe sodium d h ms ip hdl x s safe fresh shows.0 same
  admit_session-IsSafe false peer ms ip hdl x s same safe fresh shows =
      register_anonymous-IsSafe sodium d h ms ip hdl x s safe fresh shows.0 (unshown-none x shows)

  after_respond-IsSafe :
      (is_identified : Bool) (ms : ℕ) (ip : Ip) (hdl : ℕ) (taken : Result (Unit {0}))
      (r : Result ServerHello × Session) (s : Server d)
      → IsSafe sodium d s
      → IsNew sodium d h hdl s
      → ((answer : ServerHello) → r.0 ≡ ok answer → Shows sodium d h is_identified r.1)
      → IsSafe sodium d (after_respond d sodium h ms ip hdl is_identified taken r s)
  unfolding after_respond
  after_respond-IsSafe is_identified ms ip hdl taken (err e, x) s safe fresh shows =
      Untouched-IsSafe sodium d s _ (refl, refl, refl, refl, refl, refl) safe
  after_respond-IsSafe is_identified ms ip hdl (err e) (ok answer, x) s safe fresh shows =
      Untouched-IsSafe sodium d s _ (refl, refl, refl, refl, refl, refl) safe
  after_respond-IsSafe is_identified ms ip hdl (ok u) (ok answer, x) s safe fresh shows =
      let l =
        if s.config.rate_limit.enabled
        then record_handshake d ms ip s.rate_limiter
        else s.rate_limiter in
      let total : l.total_connections ≡ s.rate_limiter.total_connections =
        ground (arith, record_handshake-total d ms s.rate_limiter ip) in
      let sent = emit d (frame_sent hdl (serialize_server h answer)) s in
      let s' = record sent { rate_limiter = l } in
      let same : Untouched d s s' = (refl, refl, refl, refl, total, refl) in
      admit_session-IsSafe is_identified x.peer_identity ms ip hdl x s' refl
        (Untouched-IsSafe sodium d s s' same safe) (Untouched-IsNew sodium d h hdl s s' same fresh)
        (shows answer refl)

  Accepted-Shows :
      (eph : KeyPair) (hello : ClientHello) (answer : ServerHello) (key : KeyPair)
      (versions : List ℕ) (x : Session)
      → Accepted sodium hello answer (Session.new server key versions) x
      → Keyed sodium eph hello x
      → Shows sodium d h hello.has_client_identity x
  unfolding Session.new
  Accepted-Shows eph hello answer key versions x a (keys, computed, held_keys, held_own) = (
    a.complete,
    elim (Bool-cases hello.has_client_identity) [
      | inr plain ↦ inl (plain, a.peer ∙ rw plain refl)
      | inl claimed ↦ inr (
        hello.identity_pk,
        claimed,
        a.peer ∙ rw claimed refl,
        record {
          hello = hello;
          own = eph;
          keys_made = keys;
          identity = refl;
          signed = elim a.verified [ inl plain ↦ cc | inr signed ↦ signed ];
          computed = computed;
          held_keys = held_keys;
          held_own = held_own;
        },
      )
    ],
  )

  answer_client-IsSafe :
      (eph : KeyPair) (ms : ℕ) (ip : Ip) (hdl : ℕ) (taken : Result (Unit {0}))
      (r : Result ClientHello) (s : Server d)
      → IsSafe sodium d s
      → IsNew sodium d h hdl s
      → IsSafe sodium d (answer_client d sodium h eph ms ip hdl taken r s)
  unfolding answer_client
  answer_client-IsSafe eph ms ip hdl taken (err e) s safe fresh =
      Untouched-IsSafe sodium d s _ (refl, refl, refl, refl, refl, refl) safe
  answer_client-IsSafe eph ms ip hdl taken (ok hello) s safe fresh =
      let start = Session.new server s.server_sign_key s.config.supported_versions in
      after_respond-IsSafe hello.has_client_identity ms ip hdl taken
        (server_respond_to_handshake sodium eph hello start) s safe fresh
        λ answer e.
          Accepted-Shows eph hello answer s.server_sign_key s.config.supported_versions _
            (server_respond-Accepted sodium eph hello start answer e)
            (server_respond-Keyed sodium eph hello start answer e)

  if-IsSafe :
      (b : Bool) (x y : Server d)
      → IsSafe sodium d x
      → IsSafe sodium d y
      → IsSafe sodium d (if b then x else y)
  if-IsSafe true x y p q = p
  if-IsSafe false x y p q = q

  receive_hello-IsSafe :
      (eph : KeyPair) (ms : ℕ) (ip : Ip) (hdl : ℕ) (taken : Result (Unit {0})) (bytes : List ℕ)
      (s : Server d)
      → IsSafe sodium d s
      → IsNew sodium d h hdl s
      → IsSafe sodium d (receive_hello d sodium h eph ms ip hdl taken bytes s)
  unfolding receive_hello
  receive_hello-IsSafe eph ms ip hdl taken bytes s safe fresh =
      let (passes, l) = check_handshake_rate d ms ip s.rate_limiter in
      let s' = record s { rate_limiter = l } in
      let r = deserialize_client h bytes in
      let total = check_handshake_rate-total d ms s.rate_limiter ip in
      let same : Untouched d s s' = (refl, refl, refl, refl, total, refl) in
      let safe' = Untouched-IsSafe sodium d s s' same safe in
      let limited = close d hdl "Handshake rate limit exceeded" s' in
      let answered = answer_client d sodium h eph ms ip hdl taken r s' in
      if-IsSafe s.config.rate_limit.enabled (if passes then answered else limited)
        (answer_client d sodium h eph ms ip hdl taken r s)
        (if-IsSafe passes answered limited
          (answer_client-IsSafe eph ms ip hdl taken r s' safe'
            (Untouched-IsNew sodium d h hdl s s' same fresh))
          (Untouched-IsSafe sodium d s limited (refl, refl, refl, refl, total, refl) safe))
        (answer_client-IsSafe eph ms ip hdl taken r s safe fresh)

  pub on_message-IsSafe :
      (eph : KeyPair) (nonce : List ℕ) (us ms : ℕ) (ip : Ip) (hdl : ℕ) (taken : Result (Unit {0}))
      (bytes : List ℕ) (s : Server d)
      → IsSafe sodium d s
      → IsSafe sodium d (on_message d sodium h eph nonce us ms ip hdl taken bytes s)
  unfolding on_message
  on_message-IsSafe eph nonce us ms ip hdl taken bytes s safe =
      elim (Option-cases (find_known d hdl s)) [
        | inl unknown ↦
            let (no_auth, no_anon) = find_known-none d hdl s unknown in
            rw unknown (
              receive_hello-IsSafe eph ms ip hdl taken bytes s safe
                (record { no_auth = no_auth; no_anon = no_anon }))
        | inr ((t, c), known) ↦ rw known (
            Keeps-IsSafe sodium d s _
              (receive_known-Keeps sodium d h nonce us ms hdl t c bytes s
                (find_known-held d hdl s t c known))
              safe)
      ]
