-- ===== src/SecureBuffer/Bytes.antt =====
-- The bytes that an object holds while other objects change.
use obscura_proto.Common.{
  ℕ, zero, suc, ◌-◌, ◌≤◌, ◌≡◌, refl, ap, ◌∙◌, inl, inr, List, [], ◌∷◌, false, Option, none, some,
  arith, ◌==◌, ==_iff, ==_refl, if◌then◌else◌, length, take, drop, put, erase, Bool-cases,
  Option-cases,
}
use obscura_proto.SecureBuffer.{
  Buffer, null, Heap, zeros, Pages, set_object, bytes_at, block_of, contents, overwrite, copy_into,
  clear, swap,
}
use obscura_proto.SecureBuffer.Ownership.{Owns}

pub drop-zeros : (m n : ℕ) → drop m (zeros n) ≡ zeros (n - m)
drop-zeros zero n = ap zeros (omega arith)
drop-zeros (suc m) zero = ap zeros (let e : 0 ≡ 0 - suc m = omega arith in e)
drop-zeros (suc m) (suc n) =
    drop-zeros m n ∙ ap zeros (let e : n - m ≡ suc n - suc m = omega arith in e)

pub take_all : (n : ℕ) (xs : List ℕ) → length xs ≤ n → take n xs ≡ xs
take_all zero [] h = refl
take_all zero (x ∷ xs) h = absurd (omega arith)
take_all (suc n) [] h = refl
take_all (suc n) (x ∷ xs) h = ap (◌∷◌ x) (take_all n xs (omega arith))

pub nil_of-length : (xs : List ℕ) → length xs ≤ 0 → xs ≡ []
nil_of-length [] h = refl
nil_of-length (x ∷ xs) h = absurd (omega arith)

pub null-contents : (i : ℕ) (h : Heap) → h.objects i ≡ null → contents i h ≡ []
unfolding contents
null-contents i h e = ap (λ (b : Buffer). block_of b.address h) e

-- A block of another address does not matter to an object.
pub contents_at :
    (k : ℕ) (h h' : Heap) (o : Owns h)
    → h'.objects k ≡ h.objects k
    → ((q : ℕ) (raw : List ℕ)
        → (h.objects k).address ≡ some q
        → h.blocks q ≡ some raw
        → h'.blocks q ≡ h.blocks q)
    → contents k h' ≡ contents k h
unfolding contents
contents_at k h h' o same kept = elim (Option-cases (h.objects k).address) [
  | inl nothing ↦ rw (same, nothing) refl
  | inr (q, e) ↦
      let (raw, there, _, _) = o.held k q e in rw (same, e) (ap bytes_at (kept q raw e there))
]

pub clear-contents :
    (pages : Pages) (i k : ℕ) (h : Heap)
    → (k == i) ≡ false
    → Owns h
    → contents k (clear pages i h) ≡ contents k h
unfolding clear set_object erase
clear-contents pages i k h other o = elim (Option-cases (h.objects i).address) [
  | inl nothing ↦ rw nothing refl
  | inr (p, e) ↦
      let gone : Heap = record {
        blocks = erase (◌==◌ p) h.blocks;
        objects = λ m. if m == i then null else h.objects m;
        freed = pages.sodium_memzero (h.objects i).size (bytes_at (h.blocks p)) ∷ h.freed;
      } in
      let kept = contents_at k h gone o (rw other refl) λ q raw e' there.
        elim (Bool-cases (p == q)) [
          | inl hit ↦
              let mine : (h.objects i).address ≡ some q = e ∙ ap some ((==_iff p q).0 hit) in
              cc (other, (==_iff k i).1 (o.distinct k i q e' mine))
          | inr miss ↦ rw miss refl
        ] in
      rw e kept
]

block_of-blocks : (a : Option ℕ) (h h' : Heap) → h'.blocks ≡ h.blocks → block_of a h' ≡ block_of a h
block_of-blocks none h h' e = refl
block_of-blocks (some p) h h' e = ap (λ (b : ℕ → Option (List ℕ)). bytes_at (b p)) e

pub swap-contents : (i j : ℕ) (h : Heap) → (i == j) ≡ false → contents i (swap i j h) ≡ contents j h
unfolding swap set_object contents
swap-contents i j h apart =
    rw (apart, ==_refl i) (block_of-blocks (h.objects j).address h (swap i j h) refl)

-- A copy to the front of an object's block.
pub copied :
    (i p : ℕ) (new old : List ℕ) (h : Heap)
    → (h.objects i).address ≡ some p
    → h.blocks p ≡ some old
    → contents i (copy_into i new h) ≡ overwrite new old
unfolding contents copy_into put
copied i p new old h e there = rw e (rw e (rw (==_refl p, there) refl))
