-- ===== src/SecureBuffer/Tests.antt =====
-- The theorems of SecureBuffer, applied to a memory of two blocks that hold sevens when they are
-- fresh.
use obscura_proto.Common.{
  ℕ, zero, suc, ◌-◌, ◌≡◌, ◌⊎◌, refl, ap, inl, inr, List, [], ◌∷◌, ◌++◌, true, false, Option, none,
  some, length, take, Option-cases,
}
use obscura_proto.SecureBuffer.{
  Heap, null, zeros, Pages, PagesLaws, contents, construct, copy_construct, resize,
}
use obscura_proto.SecureBuffer.Ownership.{Owns}
use obscura_proto.SecureBuffer.Methods.{Uses, starts, constructs, copies, Uses-Owns}
use obscura_proto.SecureBuffer.Contents.{copy_construct_lem, resize_lem}

abbrev sevens : ℕ → List ℕ
sevens zero = []
sevens (suc n) = 7 ∷ sevens n

length-sevens : (n : ℕ) → length (sevens n) ≡ n
length-sevens zero = refl
length-sevens (suc n) = ap suc (length-sevens n)

abbrev take_free : ℕ → ℕ → Option (List ℕ) → Option (ℕ × List ℕ) → Option (ℕ × List ℕ)
take_free p n none otherwise = some (p, sevens n)
take_free p n (some raw) otherwise = otherwise

abbrev two : Pages
two = record {
  sodium_malloc = λ n h. take_free 0 n (h.blocks 0) (take_free 1 n (h.blocks 1) none);
  sodium_memzero = λ n raw. zeros n;
}

fresh_lem :
    (n : ℕ) (h : Heap) (p : ℕ) (raw : List ℕ)
    → two.sodium_malloc n h ≡ some (p, raw)
    → (h.blocks p ≡ none) × (length raw ≡ n)
fresh_lem n h p raw e = elim (Option-cases (h.blocks 0)) [
  | inl free ↦
      let got : ◌≡◌ {A = Option (ℕ × List ℕ)} (some (0, sevens n)) (some (p, raw)) = rw free at e in
      let at_p : ◌≡◌ {A = ℕ} 0 p = cc in
      let bytes : sevens n ≡ raw = cc in (rw (← at_p) free, rw (← bytes) (length-sevens n))
  | inr (x, used) ↦ elim (Option-cases (h.blocks 1)) [
    | inl free ↦
        let got : ◌≡◌ {A = Option (ℕ × List ℕ)} (some (1, sevens n)) (some (p, raw)) =
          rw (used, free) at e in
        let at_p : ◌≡◌ {A = ℕ} 1 p = cc in
        let bytes : sevens n ≡ raw = cc in (rw (← at_p) free, rw (← bytes) (length-sevens n))
    | inr (y, used') ↦ cc (rw (used, used') at e)
  ]
]

two_laws : PagesLaws two
two_laws = record { malloc_fresh = fresh_lem; memzero_zeros = λ n raw e. refl }

abbrev empty : Heap
empty = record { blocks = λ p. none; objects = λ i. null; freed = [] }

-- Object 0 of three bytes.
abbrev one : Heap
one = (construct two 0 3 empty).1

uses : Uses two two_laws one
uses = constructs 0 3 starts refl

fresh_test : (one.objects 1 ≡ null) × (contents 0 one ≡ 0 ∷ 0 ∷ 0 ∷ [])
unfolding construct contents
fresh_test = (refl, refl)

Uses-Owns_example : Owns (copy_construct two 1 0 one).1
Uses-Owns_example = Uses-Owns two two_laws (copies 1 0 uses fresh_test.0)

copy_construct_lem_example :
    (((copy_construct two 1 0 one).0 ≡ true)
      × (contents 1 (copy_construct two 1 0 one).1 ≡ contents 0 one)
      × (contents 0 (copy_construct two 1 0 one).1 ≡ contents 0 one))
    ⊎ (((copy_construct two 1 0 one).0 ≡ false) × ((copy_construct two 1 0 one).1 ≡ one))
copy_construct_lem_example =
    copy_construct_lem two two_laws 1 0 one (Uses-Owns two two_laws uses) fresh_test.0 refl

resize_lem_example :
    (((resize two 0 1 5 one).0 ≡ true)
      × (contents 0 (resize two 0 1 5 one).1
          ≡ take 5 (contents 0 one) ++ zeros (5 - (one.objects 0).size)))
    ⊎ (((resize two 0 1 5 one).0 ≡ false) × ((resize two 0 1 5 one).1 ≡ one))
resize_lem_example =
    resize_lem two two_laws 0 1 5 one (Uses-Owns two two_laws uses) fresh_test.0 refl
