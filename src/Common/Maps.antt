-- ===== src/Common/Maps.antt =====
-- A std::map from numbers as the list of its entries. `insert_new` is emplace, which keeps what is
-- there; `insert` is the assignment through operator[].
use Prim.Native.Nat.{ℕ}
use mathlib.Core.Path.{◌≡◌, refl}
use mathlib.Core.Option.{Option, none, some}
use mathlib.Core.List.{List, [], ◌∷◌}
use native.Mathlib.Omega.{arith}
use obscura_proto.Common.Tests.{◌==◌, if◌then◌else◌}

module _ {ℓ} {V : Type ℓ} where
  unfoldable pub find : ℕ → List (ℕ × V) → Option V
  find k [] = none
  find k ((j, v) ∷ m) = if k == j then some v else find k m

  unfoldable pub insert : ℕ → V → List (ℕ × V) → List (ℕ × V)
  insert k v [] = (k, v) ∷ []
  insert k v ((j, w) ∷ m) = let rest = insert k v m in if k == j then (k, v) ∷ m else (j, w) ∷ rest

  unfoldable pub remove : ℕ → List (ℕ × V) → List (ℕ × V)
  remove k [] = []
  remove k ((j, w) ∷ m) = let rest = remove k m in if k == j then rest else (j, w) ∷ rest

  unfoldable pub insert_new : ℕ → V → List (ℕ × V) → List (ℕ × V)
  unfolding insert find
  insert_new k v m = elim (find k m) [ none ↦ insert k v m | some _ ↦ m ]

  pub find-insert :
      (j k : ℕ) (v : V) (m : List (ℕ × V))
      → find j (insert k v m) ≡ (if j == k then some v else find j m)
  unfolding find insert
  find-insert j k v [] = refl
  find-insert j k v ((i, w) ∷ m) = ground (arith, find-insert j k v m)

  pub find-remove :
      (j k : ℕ) (m : List (ℕ × V)) → find j (remove k m) ≡ (if j == k then none else find j m)
  unfolding find remove
  find-remove j k [] = ground arith
  find-remove j k ((i, w) ∷ m) = ground (arith, find-remove j k m)

  pub insert_new-free :
      (k : ℕ) (v : V) (m : List (ℕ × V)) → find k m ≡ none → insert_new k v m ≡ insert k v m
  unfolding insert_new
  insert_new-free k v m free = rw (free, insert_new) refl
