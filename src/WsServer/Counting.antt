-- ===== src/WsServer/Counting.antt =====
-- The connections of a table of WsServerWrapper: each is there once, and how many there are.
use obscura_proto.Common.{
  ℕ, suc, ◌≡◌, refl, ap, inl, inr, List, [], ◌∷◌, Bool, true, false, none, some, arith, ◌==◌,
  ==_iff, if◌then◌else◌, Bool-cases, length,
}
use obscura_proto.Common.Maps.{find, insert, remove}
use obscura_proto.WsServer.Packets.{ConnectionState}
use obscura_proto.WsServer.Keeping.{keys}

abbrev pub has : ℕ → List ℕ → Bool
has k [] = false
has k (j ∷ ks) = if k == j then true else has k ks

abbrev pub Distinct : List ℕ → Type 0
Distinct [] = Unit {0}
Distinct (k ∷ ks) = (has k ks ≡ false) × Distinct ks

pub find-has : (k : ℕ) (m : List (ℕ × ConnectionState)) → find k m ≡ none → has k (keys m) ≡ false
unfolding find
find-has k [] e = refl
find-has k ((j, c) ∷ m) e = elim (Bool-cases (k == j)) [
  | inl this ↦ cc (rw this at e)
  | inr other ↦ rw other (find-has k m (rw other at e))
]

has-insert :
    (j k : ℕ) (c : ConnectionState) (m : List (ℕ × ConnectionState))
    → has j (keys (insert k c m)) ≡ (if j == k then true else has j (keys m))
unfolding insert
has-insert j k c [] = refl
has-insert j k c ((i, x) ∷ m) = ground (arith, has-insert j k c m)

has-remove :
    (j k : ℕ) (m : List (ℕ × ConnectionState))
    → has j (keys (remove k m)) ≡ (if j == k then false else has j (keys m))
unfolding remove
has-remove j k [] = ground arith
has-remove j k ((i, x) ∷ m) = ground (arith, has-remove j k m)

pub insert-Distinct :
    (k : ℕ) (c : ConnectionState) (m : List (ℕ × ConnectionState))
    → has k (keys m) ≡ false
    → Distinct (keys m)
    → Distinct (keys (insert k c m))
unfolding insert
insert-Distinct k c [] free all = (refl, tt)
insert-Distinct k c ((j, x) ∷ m) free (one, rest) = elim (Bool-cases (k == j)) [
  | inl this ↦ cc (rw this at free)
  | inr other ↦
      let flipped : (j == k) ≡ false = ground arith in
      rw other (rw (has-insert j k c m, flipped) one, insert-Distinct k c m (rw other at free) rest)
]

pub length-insert :
    (k : ℕ) (c : ConnectionState) (m : List (ℕ × ConnectionState))
    → has k (keys m) ≡ false
    → length (keys (insert k c m)) ≡ suc (length (keys m))
unfolding insert
length-insert k c [] free = refl
length-insert k c ((j, x) ∷ m) free = elim (Bool-cases (k == j)) [
  | inl this ↦ cc (rw this at free)
  | inr other ↦ rw other (ap suc (length-insert k c m (rw other at free)))
]

pub remove-Distinct :
    (k : ℕ) (m : List (ℕ × ConnectionState)) → Distinct (keys m) → Distinct (keys (remove k m))
unfolding remove
remove-Distinct k [] all = tt
remove-Distinct k ((j, x) ∷ m) (one, rest) = elim (Bool-cases (k == j)) [
  | inl this ↦ rw this (remove-Distinct k m rest)
  | inr other ↦
      let flipped : (j == k) ≡ false = ground arith in
      rw other (rw (has-remove j k m, flipped) one, remove-Distinct k m rest)
]

pub remove_absent :
    (k : ℕ) (m : List (ℕ × ConnectionState)) → has k (keys m) ≡ false → keys (remove k m) ≡ keys m
unfolding remove
remove_absent k [] free = refl
remove_absent k ((j, x) ∷ m) free = elim (Bool-cases (k == j)) [
  | inl this ↦ cc (rw this at free)
  | inr other ↦ rw other (ap (◌∷◌ j) (remove_absent k m (rw other at free)))
]

pub length-remove :
    (k : ℕ) (c : ConnectionState) (m : List (ℕ × ConnectionState))
    → find k m ≡ some c
    → Distinct (keys m)
    → suc (length (keys (remove k m))) ≡ length (keys m)
unfolding find remove
length-remove k c [] held all = cc
length-remove k c ((j, x) ∷ m) held (one, rest) = elim (Bool-cases (k == j)) [
  | inl this ↦
      let alone : has k (keys m) ≡ false = rw ((==_iff k j).0 this) one in
      rw this (ap (λ (ks : List ℕ). suc (length ks)) (remove_absent k m alone))
  | inr other ↦ rw other (ap suc (length-remove k c m (rw other at held) rest))
]

pub length-keys : (m : List (ℕ × ConnectionState)) → length (keys m) ≡ length m
length-keys [] = refl
length-keys ((k, c) ∷ m) = ap suc (length-keys m)
