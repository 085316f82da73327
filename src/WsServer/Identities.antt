-- ===== src/WsServer/Identities.antt =====
-- identity_to_hdl_ and hdl_to_identity_ of WsServerWrapper, as on_message, on_close, stop and
-- send_to_identity use them.
use obscura_proto.Common.{
  ℕ, ◌≡◌, ◌≢◌, refl, ap, inl, inr, false, Option, none, some, arith, ◌==◌, if◌then◌else◌, ==_refl,
  ==_iff, Bool-cases, Option-cases, is_same, is_same_refl, is_same→eq, put, erase,
}
use obscura_proto.Errors.{Result, ok, err, logic_error}
use obscura_proto.Handshake.{PublicKey}

pub record Identities : Type 0 where
  pub identity_to_hdl : PublicKey → Option ℕ
  pub hdl_to_identity : ℕ → Option PublicKey

unfoldable pub new : Identities
new = record { identity_to_hdl = λ pk. none; hdl_to_identity = λ hdl. none }

-- on_message, when a client with an identity is accepted
unfoldable pub accept : ℕ → PublicKey → Identities → Identities
accept hdl pk s = record {
  identity_to_hdl = put (is_same pk) hdl s.identity_to_hdl;
  hdl_to_identity = put (◌==◌ hdl) pk s.hdl_to_identity;
}

-- on_close
unfoldable pub close_identity : ℕ → Identities → Identities
close_identity hdl s = elim (s.hdl_to_identity hdl) [
  | none ↦ s
  | some pk ↦ record {
    identity_to_hdl = erase (is_same pk) s.identity_to_hdl;
    hdl_to_identity = erase (◌==◌ hdl) s.hdl_to_identity;
  }
]

abbrev or_not_connected : Option ℕ → Result ℕ
or_not_connected none = err (logic_error "Identity is not connected.")
or_not_connected (some hdl) = ok hdl

-- The connection that send_to_identity and async_request_to_identity send to.
unfoldable pub find_identity : PublicKey → Identities → Result ℕ
find_identity pk s = or_not_connected (s.identity_to_hdl pk)

-- The calls in any order. A connection has one handshake, so its handle is new when it is
-- accepted. stop clears both tables, which is `starts`.
pub data Calls : Identities → Type 0 where
  starts : Calls new
  accepts :
      {s : Identities} (hdl : ℕ) (pk : PublicKey)
      → Calls s
      → s.hdl_to_identity hdl ≡ none
      → Calls (accept hdl pk s)
  closes : {s : Identities} (hdl : ℕ) → Calls s → Calls (close_identity hdl s)

unfoldable pub IsSound : Identities → Type 0
IsSound s =
    (pk : PublicKey) (hdl : ℕ) → s.identity_to_hdl pk ≡ some hdl → s.hdl_to_identity hdl ≡ some pk

pub accept-IsSound :
    (hdl : ℕ) (pk : PublicKey) (s : Identities)
    → s.hdl_to_identity hdl ≡ none
    → IsSound s
    → IsSound (accept hdl pk s)
unfolding IsSound accept put
accept-IsSound hdl pk s free sound pk' hdl' e = elim (Bool-cases (is_same pk pk')) [
  | inl same ↦
      let owner : hdl ≡ hdl' = cc (rw same at e) in
      rw (← owner, ==_refl hdl) (ap some (is_same→eq pk pk' same))
  | inr other ↦
      let before = sound pk' hdl' (rw other at e) in
      elim (Bool-cases (hdl == hdl')) [
        | inl same ↦ cc (before, free, (==_iff hdl hdl').0 same)
        | inr apart ↦ rw apart before
      ]
]

close-none : (hdl : ℕ) (s : Identities) → s.hdl_to_identity hdl ≡ none → close_identity hdl s ≡ s
unfolding close_identity
close-none hdl s e = rw (e, close_identity) refl

close-some :
    (hdl : ℕ) (pk : PublicKey) (s : Identities)
    → s.hdl_to_identity hdl ≡ some pk
    → close_identity hdl s ≡ record {
      identity_to_hdl = erase (is_same pk) s.identity_to_hdl;
      hdl_to_identity = erase (◌==◌ hdl) s.hdl_to_identity;
    }
unfolding close_identity
close-some hdl pk s e = rw (e, close_identity) refl

erased-IsSound :
    (hdl : ℕ) (pk : PublicKey) (s : Identities)
    → IsSound s
    → s.hdl_to_identity hdl ≡ some pk
    → (pk' : PublicKey) (hdl' : ℕ) → erase (is_same pk) s.identity_to_hdl pk' ≡ some hdl'
    → erase (◌==◌ hdl) s.hdl_to_identity hdl' ≡ some pk'
unfolding IsSound erase
erased-IsSound hdl pk s sound held pk' hdl' e = elim (Bool-cases (is_same pk pk')) [
  | inl same ↦ cc (rw same at e)
  | inr other ↦
      let before = sound pk' hdl' (rw other at e) in
      elim (Bool-cases (hdl == hdl')) [
        | inl same ↦
            let key : pk ≡ pk' = cc (before, held, (==_iff hdl hdl').0 same) in
            cc (rw (← key, is_same_refl pk) at other)
        | inr apart ↦ rw apart before
      ]
]

pub close-IsSound : (hdl : ℕ) (s : Identities) → IsSound s → IsSound (close_identity hdl s)
unfolding IsSound
close-IsSound hdl s sound pk' hdl' e = elim (Option-cases (s.hdl_to_identity hdl)) [
  | inl missing ↦
      rw (close-none hdl s missing) (sound pk' hdl' (rw (close-none hdl s missing) at e))
  | inr (pk, held) ↦
      rw (close-some hdl pk s held)
        (erased-IsSound hdl pk s sound held pk' hdl' (rw (close-some hdl pk s held) at e))
]

-- A closed connection has no identity, and the others have theirs.
pub hdl_to_identity-close :
    (hdl k : ℕ) (s : Identities)
    → (close_identity hdl s).hdl_to_identity k ≡ (if k == hdl then none else s.hdl_to_identity k)
hdl_to_identity-close hdl k s = elim (Option-cases (s.hdl_to_identity hdl)) [
  | inl missing ↦ rw (close-none hdl s missing) (elim (Bool-cases (k == hdl)) [
    | inl same ↦ rw same (rw ((==_iff k hdl).0 same) missing)
    | inr apart ↦ rw apart refl
  ])
  | inr (pk, held) ↦ rw (close-some hdl pk s held) (unfold erase in ground arith)
]

Calls-IsSound : {s : Identities} → Calls s → IsSound s
Calls-IsSound starts = unfold IsSound new in λ pk hdl e. cc
Calls-IsSound (accepts {s} hdl pk c free) = accept-IsSound hdl pk s free (Calls-IsSound c)
Calls-IsSound (closes {s} hdl c) = close-IsSound hdl s (Calls-IsSound c)

-- After any calls, what is sent to an identity goes to a connection that has shown that identity
-- and is not closed.
pub find_identity-owner :
    {s : Identities} (pk : PublicKey) (hdl : ℕ)
    → Calls s
    → find_identity pk s ≡ ok hdl
    → s.hdl_to_identity hdl ≡ some pk
unfolding find_identity IsSound
find_identity-owner {s} pk hdl c e = elim (Option-cases (s.identity_to_hdl pk)) [
  | inl missing ↦ cc (rw missing at e)
  | inr (h, held) ↦
      let same : h ≡ hdl = cc (rw held at e) in Calls-IsSound c pk hdl (rw held (ap some same))
]

-- A client that has connected again under its identity cannot be reached by it once the old
-- connection is closed, although the new one is open.
pub find_identity_lost :
    (old fresh : ℕ) (pk : PublicKey) (s : Identities)
    → old ≢ fresh
    → (find_identity pk (close_identity old (accept fresh pk (accept old pk s)))
        ≡ err (logic_error "Identity is not connected."))
      × ((close_identity old (accept fresh pk (accept old pk s))).hdl_to_identity fresh ≡ some pk)
unfolding find_identity accept put erase
find_identity_lost old fresh pk s apart =
    let newer : (fresh == old) ≡ false = ground arith in
    let older : (old == fresh) ≡ false = ground arith in
    let held : (accept fresh pk (accept old pk s)).hdl_to_identity old ≡ some pk =
      rw (newer, ==_refl old) refl in
    rw (close-some old pk (accept fresh pk (accept old pk s)) held)
      (rw (is_same_refl pk) refl, rw (older, ==_refl fresh) refl)
