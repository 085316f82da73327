-- ===== src/Version/Choice.antt =====
-- Which version is chosen.
use obscura_proto.Common.{
  ℕ, ◌≤◌, ◌≡◌, ◌↔◌, ◌⊎◌, inl, inr, refl, List, [], ◌∷◌, ◌++◌, Option, none, some, true, arith,
  Bool-cases, All,
}
use obscura_proto.Version.{is_supported, negotiate}

abbrev pub In : ℕ → List ℕ → Type 0
In v [] = ⊥
In v (x ∷ xs) = (v ≡ x) ⊎ In v xs

pub is_supported-In : (v : ℕ) (ss : List ℕ) → (is_supported v ss ≡ true) ↔ In v ss
unfolding is_supported
is_supported-In v [] = (λ h. cc, λ h. absurd h)
is_supported-In v (s ∷ ss) = ground (arith, is_supported-In v ss)

-- How a negotiation ends: with the first version of the client that the server has, or with no
-- version in both lists.
pub data Negotiated (client server : List ℕ) (res : Option ℕ) : Type 0 where
  chosen :
      (before after : List ℕ) (v : ℕ)
      → res ≡ some v
      → client ≡ before ++ v ∷ after
      → In v server
      → All (λ u. ¬ In u server) before
      → Negotiated client server res
  nothing : res ≡ none → All (λ u. ¬ In u server) client → Negotiated client server res

negotiate_later :
    (c : ℕ) {client server : List ℕ} {res : Option ℕ}
    → ¬ In c server
    → Negotiated client server res
    → Negotiated (c ∷ client) server res
negotiate_later c out (chosen before after v e split held skipped) =
    chosen (c ∷ before) after v e (rw split) held (out, skipped)
negotiate_later c out (nothing e skipped) = nothing e (out, skipped)

-- The server takes the first of the client's versions that it has, and none only if there is
-- none in both lists.
pub negotiate-Negotiated :
    (client server : List ℕ) → Negotiated client server (negotiate client server)
unfolding negotiate
negotiate-Negotiated [] server = nothing refl tt
negotiate-Negotiated (c ∷ cs) server = elim (Bool-cases (is_supported c server)) [
  | inl held ↦ rw held (chosen [] cs c refl refl ((is_supported-In c server).0 held) tt)
  | inr missing ↦ rw missing (
      negotiate_later c (λ h. cc (missing, (is_supported-In c server).1 h))
        (negotiate-Negotiated cs server))
]

abbrev pub IsDescending : List ℕ → Type 0
IsDescending [] = Unit {0}
IsDescending (x ∷ xs) = ((w : ℕ) → In w xs → w ≤ x) × IsDescending xs

-- If the client lists its versions in descending order, the version chosen is the highest that
-- both have.
pub negotiate_highest :
    (client server : List ℕ) (v w : ℕ)
    → IsDescending client
    → negotiate client server ≡ some v
    → In w client
    → In w server
    → w ≤ v
unfolding negotiate
negotiate_highest [] server v w d e mine theirs = absurd mine
negotiate_highest (c ∷ cs) server v w d e (inl same) theirs =
    ground (arith, (is_supported-In w server).1 theirs)
negotiate_highest (c ∷ cs) server v w d e (inr later) theirs =
    elim (Bool-cases (is_supported c server)) [
      | inl held ↦ let p : c ≡ v = cc (rw held at e) in rw (← p) (d.0 w later)
      | inr missing ↦ negotiate_highest cs server v w d.1 (rw missing at e) later theirs
    ]

-- A chosen version is one that the server has.
pub negotiate-is_supported :
    (client server : List ℕ) {v : ℕ}
    → negotiate client server ≡ some v
    → is_supported v server ≡ true
unfolding negotiate
negotiate-is_supported [] server e = cc
negotiate-is_supported (c ∷ cs) server {v} e = elim (Bool-cases (is_supported c server)) [
  | inl held ↦ let same : c ≡ v = cc (rw held at e) in rw (← same) held
  | inr missing ↦ negotiate-is_supported cs server (rw missing at e)
]

-- And one that the client listed.
pub negotiate_listed :
    (client server : List ℕ) {v : ℕ} → negotiate client server ≡ some v → In v client
unfolding negotiate
negotiate_listed [] server e = cc
negotiate_listed (c ∷ cs) server {v} e = elim (Bool-cases (is_supported c server)) [
  | inl held ↦ inl (cc (rw held at e))
  | inr missing ↦ inr (negotiate_listed cs server (rw missing at e))
]

pub All-In {κ} : (P : ℕ → Type κ) (xs : List ℕ) {v : ℕ} → All P xs → In v xs → P v
All-In P [] a i = absurd i
All-In P (x ∷ xs) (px, pxs) (inl same) = rw same px
All-In P (x ∷ xs) (px, pxs) (inr later) = All-In P xs pxs later
