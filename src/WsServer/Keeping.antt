-- ===== src/WsServer/Keeping.antt =====
-- What the methods of WsServerWrapper leave alone: those that only talk over connections keep which
-- connections there are, who is behind them, and the table of identities.
use obscura_proto.Common.{
  ℕ, ◌≡◌, refl, sym, ap, ◌∙◌, inl, inr, List, [], ◌∷◌, Bool, true, Option, none, some, arith, ◌==◌,
  Bool-cases, ==_iff,
}
use obscura_proto.Common.Maps.{find, insert, find-insert}
use obscura_proto.Errors.{Result, ok, err}
use obscura_proto.Endian.{Host}
use obscura_proto.Packet.{Payload}
use obscura_proto.Handshake.{PublicKey, KeyPair}
use obscura_proto.Crypto.{SessionKeys, DecryptedResult}
use obscura_proto.Crypto.Libsodium.{Sodium}
use obscura_proto.Session.{Session, encrypt_payload, decrypt_packet, accept_counter}
use obscura_proto.RateLimiter.Floats.{Double}
use obscura_proto.WsServer.Packets.{ConnectionState}
use obscura_proto.WsServer.State.{
  Server, Table, authenticated, anonymous, table_of, store, find_ready, find_known,
}

-- Who is behind a session, whether its handshake is complete, and the keys that this has set.
abbrev pub View : Type 0
View = Option PublicKey × Bool × Option SessionKeys × Option KeyPair

abbrev pub view_of : Session → View
view_of x = (x.peer_identity, x.handshake_complete, x.session_keys, x.ephemeral_kx_kp)

abbrev pub view : Option ConnectionState → Option View
view none = none
view (some c) = some (view_of c.session)

-- The connections of a table.
abbrev pub keys : List (ℕ × ConnectionState) → List ℕ
keys [] = []
keys ((hdl, c) ∷ m) = hdl ∷ keys m

keys-insert :
    (hdl : ℕ) (c c' : ConnectionState) (m : List (ℕ × ConnectionState))
    → find hdl m ≡ some c
    → keys (insert hdl c' m) ≡ keys m
unfolding find insert
keys-insert hdl c c' [] held = cc
keys-insert hdl c c' ((k, x) ∷ m) held = elim (Bool-cases (hdl == k)) [
  | inl this ↦ rw this (ap (λ (j : ℕ). j ∷ keys m) ((==_iff hdl k).0 this))
  | inr other ↦ rw other (ap (◌∷◌ k) (keys-insert hdl c c' m (rw other at held)))
]

module _ (d : Double) where
  pub record Keeps (s s' : Server d) : Type 0 where
    pub auth : (hdl : ℕ) → view (find hdl s'.sessions) ≡ view (find hdl s.sessions)
    pub anon : (hdl : ℕ) → view (find hdl s'.anon_sessions) ≡ view (find hdl s.anon_sessions)
    pub ids : s'.identities ≡ s.identities
    pub key : s'.server_sign_key ≡ s.server_sign_key
    pub auth_keys : keys s'.sessions ≡ keys s.sessions
    pub anon_keys : keys s'.anon_sessions ≡ keys s.anon_sessions
    pub total : s'.rate_limiter.total_connections ≡ s.rate_limiter.total_connections
    pub stop_flag : s'.stopping ≡ s.stopping

  pub Keeps-trans : (a b c : Server d) → Keeps a b → Keeps b c → Keeps a c
  Keeps-trans a b c p q = record {
    auth = λ hdl. q.auth hdl ∙ p.auth hdl;
    anon = λ hdl. q.anon hdl ∙ p.anon hdl;
    ids = q.ids ∙ p.ids;
    key = q.key ∙ p.key;
    auth_keys = q.auth_keys ∙ p.auth_keys;
    anon_keys = q.anon_keys ∙ p.anon_keys;
    total = q.total ∙ p.total;
    stop_flag = q.stop_flag ∙ p.stop_flag;
  }

  -- The parts of the state that matter are the same.
  abbrev pub Untouched : Server d → Server d → Type 0
  Untouched s s' =
      (s'.sessions ≡ s.sessions)
      × (s'.anon_sessions ≡ s.anon_sessions)
      × (s'.identities ≡ s.identities)
      × (s'.server_sign_key ≡ s.server_sign_key)
      × (s'.rate_limiter.total_connections ≡ s.rate_limiter.total_connections)
      × (s'.stopping ≡ s.stopping)

  pub Untouched-Keeps : (s s' : Server d) → Untouched s s' → Keeps s s'
  Untouched-Keeps s s' (p, q, r, t, n, f) = record {
    auth = λ hdl. ap (λ (m : List (ℕ × ConnectionState)). view (find hdl m)) p;
    anon = λ hdl. ap (λ (m : List (ℕ × ConnectionState)). view (find hdl m)) q;
    ids = r;
    key = t;
    auth_keys = ap keys p;
    anon_keys = ap keys q;
    total = n;
    stop_flag = f;
  }

  find-kept :
      (hdl k : ℕ) (c c' : ConnectionState) (m : List (ℕ × ConnectionState))
      → find hdl m ≡ some c
      → view (some c') ≡ view (some c)
      → view (find k (insert hdl c' m)) ≡ view (find k m)
  find-kept hdl k c c' m held same = elim (Bool-cases (k == hdl)) [
    | inl this ↦
        let here : find k m ≡ some c = rw ((==_iff k hdl).0 this) held in
        rw (find-insert k hdl c' m, this) (same ∙ sym (ap view here))
    | inr other ↦ rw (find-insert k hdl c' m, other) refl
  ]

  pub store-Keeps :
      (t : Table) (hdl : ℕ) (c c' : ConnectionState) (s : Server d)
      → find hdl (table_of d t s) ≡ some c
      → view (some c') ≡ view (some c)
      → Keeps s (store d t hdl c' s)
  unfolding store
  store-Keeps authenticated hdl c c' s held same = record {
    auth = λ k. find-kept hdl k c c' s.sessions held same;
    anon = λ k. refl;
    ids = refl;
    key = refl;
    auth_keys = keys-insert hdl c c' s.sessions held;
    anon_keys = refl;
    total = refl;
    stop_flag = refl;
  }
  store-Keeps anonymous hdl c c' s held same = record {
    auth = λ k. refl;
    anon = λ k. find-kept hdl k c c' s.anon_sessions held same;
    ids = refl;
    key = refl;
    auth_keys = refl;
    anon_keys = keys-insert hdl c c' s.anon_sessions held;
    total = refl;
    stop_flag = refl;
  }

  -- The connection that was looked up is in the table that was named.
  pub find_ready-held :
      (hdl : ℕ) (s : Server d) (t : Table) (c : ConnectionState)
      → find_ready d hdl s ≡ some (t, c)
      → (find hdl (table_of d t s) ≡ some c) × (c.session.handshake_complete ≡ true)
  unfolding find_ready
  find_ready-held hdl s authenticated c e = ground arith
  find_ready-held hdl s anonymous c e = ground arith

  pub find_known-held :
      (hdl : ℕ) (s : Server d) (t : Table) (c : ConnectionState)
      → find_known d hdl s ≡ some (t, c)
      → find hdl (table_of d t s) ≡ some c
  unfolding find_known
  find_known-held hdl s authenticated c e = ground arith
  find_known-held hdl s anonymous c e = ground arith

  pub find_known-none :
      (hdl : ℕ) (s : Server d)
      → find_known d hdl s ≡ none
      → (find hdl s.sessions ≡ none) × (find hdl s.anon_sessions ≡ none)
  unfolding find_known
  find_known-none hdl s e = ground arith

module _ (sodium : Sodium) (h : Host) where
  pub encrypt_payload-view :
      (nonce : List ℕ) (p : Payload) (x : Session)
      → view_of (encrypt_payload sodium h nonce p x).1 ≡ view_of x
  unfolding encrypt_payload
  encrypt_payload-view nonce p x = ground arith

  accept_counter-view :
      (r : Result DecryptedResult) (x : Session) → view_of (accept_counter r x).1 ≡ view_of x
  unfolding accept_counter
  accept_counter-view (err e) x = refl
  accept_counter-view (ok r) x = ground arith

  pub decrypt_packet-view :
      (packet : List ℕ) (x : Session) → view_of (decrypt_packet sodium h packet x).1 ≡ view_of x
  unfolding decrypt_packet
  decrypt_packet-view packet x = grind (arith, accept_counter-view)
