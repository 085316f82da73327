-- ===== src/WsServer/Safety.antt =====
-- What holds of the two tables of sessions and of the table of identities whatever is called.
use obscura_proto.Common.{
  ℕ, ◌≡◌, ◌⊎◌, refl, sym, ◌∙◌, inl, inr, List, true, Option, none, some, arith, ◌==◌, if◌then◌else◌,
  Bool-cases,
}
use obscura_proto.Common.{length, ◌+◌, ◌%◌, ◌^◌, false, ap, Option-cases}
use obscura_proto.Common.Maps.{find, remove, find-remove, find-insert, insert}
use obscura_proto.Handshake.{PublicKey, KeyPair, ClientHello}
use obscura_proto.Errors.{ok}
use obscura_proto.Crypto.{SessionKeys, verify, server_compute_session_keys}
use obscura_proto.Crypto.Libsodium.{Sodium}
use obscura_proto.RateLimiter.Floats.{Double}
use obscura_proto.RateLimiter.{
  Ip, RateLimiter, check_connection_rate, cleanup, unregister_connection,
}
use obscura_proto.RateLimiter.Totals.{check_connection_rate-total, record_connection-total}
use obscura_proto.WsServer.Identities
use obscura_proto.WsServer.Identities.{
  Identities, IsSound, accept, accept-IsSound, close_identity, close-IsSound, hdl_to_identity-close,
}
use obscura_proto.WsServer.Packets.{ConnectionState}
use obscura_proto.WsServer.State.{Server}
use obscura_proto.WsServer.Lifecycle.{on_open, on_close, check_timeouts, stop}
use obscura_proto.WsServer.Counting.{
  Distinct, find-has, remove-Distinct, remove_absent, length-remove,
}
use obscura_proto.WsServer.Lifecycle.{unregister}
use obscura_proto.WsServer.Keeping.{View, view_of, keys, view, Keeps, Untouched, Untouched-Keeps}

abbrev pub peer_at : Option View → Option PublicKey
peer_at none = none
peer_at (some v) = v.0

module _ (sodium : Sodium) (d : Double) where
  -- The identity has signed the very ephemeral key from which, with an own key pair, the keys of
  -- the session were computed, and the signature was verified.
  pub record IsVerified (pk : PublicKey) (session_keys : Option SessionKeys)
      (ephemeral_kx_kp : Option KeyPair) : Type 0 where
    pub hello : ClientHello
    pub own : KeyPair
    pub keys_made : SessionKeys
    pub identity : hello.identity_pk ≡ pk
    pub signed : verify sodium hello.identity_sig hello.ephemeral_pk pk ≡ true
    pub computed : server_compute_session_keys sodium own hello.ephemeral_pk ≡ ok keys_made
    pub held_keys : session_keys ≡ some keys_made
    pub held_own : ephemeral_kx_kp ≡ some own

  -- Authenticated connections have shown an identity, anonymous ones have none, no connection is
  -- both, the table of identities lists the authenticated ones, and the limiter has counted them all
  -- until the server stops.
  pub record IsSafe (s : Server d) : Type 0 where
    pub shown :
        (hdl : ℕ) (v : View)
        → view (find hdl s.sessions) ≡ some v
        → (pk : PublicKey) × (v.0 ≡ some pk) × (v.1 ≡ true) × IsVerified pk v.2 v.3
    pub unshown :
        (hdl : ℕ) (v : View)
        → view (find hdl s.anon_sessions) ≡ some v
        → (v.0 ≡ none) × (v.1 ≡ true)
    pub apart :
        (hdl : ℕ) → (view (find hdl s.sessions) ≡ none) ⊎ (view (find hdl s.anon_sessions) ≡ none)
    pub agree : (hdl : ℕ) → s.identities.hdl_to_identity hdl ≡ peer_at (view (find hdl s.sessions))
    pub sound : IsSound s.identities
    pub distinct_auth : Distinct (keys s.sessions)
    pub distinct_anon : Distinct (keys s.anon_sessions)
    pub counted :
        s.stopping ≡ false
        → s.rate_limiter.total_connections
          ≡ (length (keys s.sessions) + length (keys s.anon_sessions)) % 2 ^ 32

  pub Keeps-IsSafe : (s s' : Server d) → Keeps d s s' → IsSafe s → IsSafe s'
  Keeps-IsSafe s s' k safe = record {
    shown = λ hdl v e. safe.shown hdl v (sym (k.auth hdl) ∙ e);
    unshown = λ hdl v e. safe.unshown hdl v (sym (k.anon hdl) ∙ e);
    apart = λ hdl. rw (k.auth hdl, k.anon hdl) (safe.apart hdl);
    agree = λ hdl. rw (k.ids, k.auth hdl) (safe.agree hdl);
    sound = rw k.ids safe.sound;
    distinct_auth = rw k.auth_keys safe.distinct_auth;
    distinct_anon = rw k.anon_keys safe.distinct_anon;
    counted = λ running.
        rw (k.total, k.auth_keys, k.anon_keys) (safe.counted (sym k.stop_flag ∙ running));
  }

  pub Untouched-IsSafe : (s s' : Server d) → Untouched d s s' → IsSafe s → IsSafe s'
  Untouched-IsSafe s s' u = Keeps-IsSafe s s' (Untouched-Keeps d s s' u)

  pub on_open-IsSafe :
      (ms : ℕ) (ip : Ip) (hdl : ℕ) (s : Server d) → IsSafe s → IsSafe (on_open d ms ip hdl s)
  on_open-IsSafe ms ip hdl s =
      let l = (check_connection_rate d ms ip s.rate_limiter).1 in
      Untouched-IsSafe s (on_open d ms ip hdl s) (
        unfold on_open in
        ground (
          arith,
          check_connection_rate-total d ms s.rate_limiter ip,
          record_connection-total d ms l ip,
        ))

  pub check_timeouts-IsSafe : (ms : ℕ) (s : Server d) → IsSafe s → IsSafe (check_timeouts d ms s)
  check_timeouts-IsSafe ms s =
      Untouched-IsSafe s (check_timeouts d ms s) (unfold check_timeouts cleanup in ground arith)

  pub view-remove :
      (k hdl : ℕ) (m : List (ℕ × ConnectionState))
      → view (find k (remove hdl m)) ≡ (if k == hdl then none else view (find k m))
  view-remove k hdl m = ground (arith, find-remove k hdl m)

  pub view-insert :
      (k hdl : ℕ) (c : ConnectionState) (m : List (ℕ × ConnectionState))
      → view (find k (insert hdl c m))
        ≡ (if k == hdl then some (view_of c.session) else view (find k m))
  view-insert k hdl c m = ground (arith, find-insert k hdl c m)

  -- A connection that leaves a table is counted off.
  total-unregister :
      (k n : ℕ) (m : List (ℕ × ConnectionState)) (l : RateLimiter d)
      → Distinct (keys m)
      → l.total_connections ≡ (length (keys m) + n) % 2 ^ 32
      → (unregister d (find k m) l).total_connections ≡ (length (keys (remove k m)) + n) % 2 ^ 32
  unfolding unregister unregister_connection
  total-unregister k n m l all e = elim (Option-cases (find k m)) [
    | inl missing ↦ rw (missing, remove_absent k m (find-has k m missing)) e
    | inr (c, held) ↦ rw held (omega (arith, e, length-remove k c m held all))
  ]

  on_close-running : (hdl : ℕ) (s : Server d) → (on_close d hdl s).stopping ≡ s.stopping
  unfolding on_close
  on_close-running hdl s = ground arith

  on_close-counted :
      (hdl : ℕ) (s : Server d)
      → IsSafe s
      → s.stopping ≡ false
      → (on_close d hdl s).rate_limiter.total_connections
        ≡ (length (keys (remove hdl s.sessions)) + length (keys (remove hdl s.anon_sessions)))
          % 2 ^ 32
  unfolding on_close
  on_close-counted hdl s safe running =
      let a = length (keys (remove hdl s.sessions)) in
      let b = length (keys s.anon_sessions) in
      let b' = length (keys (remove hdl s.anon_sessions)) in
      let l = unregister d (find hdl s.sessions) s.rate_limiter in
      let once =
        total-unregister hdl b s.sessions s.rate_limiter safe.distinct_auth
          (safe.counted running) in
      let swapped : a + b ≡ b + a = omega arith in
      let back : b' + a ≡ a + b' = omega arith in
      total-unregister hdl a s.anon_sessions l safe.distinct_anon
        (once ∙ ap (λ (n : ℕ). n % 2 ^ 32) swapped)
      ∙ ap (λ (n : ℕ). n % 2 ^ 32) back

  pub on_close-IsSafe : (hdl : ℕ) (s : Server d) → IsSafe s → IsSafe (on_close d hdl s)
  unfolding on_close
  on_close-IsSafe hdl s safe = record {
    shown = λ k v e. elim (Bool-cases (k == hdl)) [
      | inl this ↦ cc (rw (view-remove k hdl s.sessions, this) at e)
      | inr other ↦ safe.shown k v (rw (view-remove k hdl s.sessions, other) at e)
    ];
    unshown = λ k v e. elim (Bool-cases (k == hdl)) [
      | inl this ↦ cc (rw (view-remove k hdl s.anon_sessions, this) at e)
      | inr other ↦ safe.unshown k v (rw (view-remove k hdl s.anon_sessions, other) at e)
    ];
    apart = λ k. elim (Bool-cases (k == hdl)) [
      | inl this ↦ inl (rw (view-remove k hdl s.sessions, this) refl)
      | inr other ↦
          rw (view-remove k hdl s.sessions, view-remove k hdl s.anon_sessions, other) (safe.apart k)
    ];
    agree = λ k.
        rw (hdl_to_identity-close hdl k s.identities, view-remove k hdl s.sessions)
          (elim (Bool-cases (k == hdl)) [
            | inl this ↦ rw this refl
            | inr other ↦ rw other (safe.agree k)
          ]);
    sound = close-IsSound hdl s.identities safe.sound;
    distinct_auth = remove-Distinct hdl s.sessions safe.distinct_auth;
    distinct_anon = remove-Distinct hdl s.anon_sessions safe.distinct_anon;
    counted = λ running. on_close-counted hdl s safe (sym (on_close-running hdl s) ∙ running);
  }

  pub stop-IsSafe : (s : Server d) → IsSafe (stop d s)
  unfolding stop find
  stop-IsSafe s = record {
    shown = λ k v e. cc;
    unshown = λ k v e. cc;
    apart = λ k. inl refl;
    agree = λ k. unfold Identities.new in refl;
    sound = unfold IsSound Identities.new in λ pk hdl e. cc;
    distinct_auth = tt;
    distinct_anon = tt;
    counted = λ running. cc;
  }
