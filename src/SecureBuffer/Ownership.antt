-- ===== src/SecureBuffer/Ownership.antt =====
-- Every block of memory has one owner, and is all zeros when it is freed.
use obscura_proto.Common.{
  ℕ, zero, suc, ◌<◌, ◌≡◌, refl, sym, ap, ◌∙◌, inl, inr, List, ◌∷◌, Option, none, some, arith, ◌==◌,
  ==_iff, ==_refl, if◌then◌else◌, length, All, put, erase, Bool-cases, Option-cases,
}
use obscura_proto.SecureBuffer.{
  Buffer, null, Heap, zeros, Pages, PagesLaws, set_object, bytes_at, clear, move_construct, swap,
}

abbrev pub IsWiped : List ℕ → Type 0
IsWiped bytes = All (λ b. ◌≡◌ {A = ℕ} b 0) bytes

pub length-zeros : (n : ℕ) → length (zeros n) ≡ n
length-zeros zero = refl
length-zeros (suc n) = ap suc (length-zeros n)

zeros-IsWiped : (n : ℕ) → IsWiped (zeros n)
zeros-IsWiped zero = tt
zeros-IsWiped (suc n) = (refl, zeros-IsWiped n)

-- An object that points to memory points to a block of its size, which no other object points to;
-- every block belongs to an object; and what was freed had been wiped.
pub record Owns (h : Heap) : Type 0 where
  pub held :
      (i p : ℕ)
      → (h.objects i).address ≡ some p
      → (raw : List ℕ) × (h.blocks p ≡ some raw)
        × (length raw ≡ (h.objects i).size)
        × (0 < (h.objects i).size)
  pub null_size : (i : ℕ) → (h.objects i).address ≡ none → (h.objects i).size ≡ 0
  pub distinct :
      (i j p : ℕ) → (h.objects i).address ≡ some p → (h.objects j).address ≡ some p → i ≡ j
  pub owned :
      (p : ℕ) (raw : List ℕ) → h.blocks p ≡ some raw → (i : ℕ) × ((h.objects i).address ≡ some p)
  pub wiped : All IsWiped h.freed

-- A renaming of the objects.
Owns-renamed :
    (h h' : Heap) (name : ℕ → ℕ)
    → ((k : ℕ) → name (name k) ≡ k)
    → h'.blocks ≡ h.blocks
    → h'.freed ≡ h.freed
    → ((k : ℕ) → h'.objects k ≡ h.objects (name k))
    → Owns h
    → Owns h'
Owns-renamed h h' name back blocks freed same o = record {
  held = λ i p e. rw (same i, blocks) (o.held (name i) p (rw (same i) at e));
  null_size = λ i e. rw (same i) (o.null_size (name i) (rw (same i) at e));
  distinct = λ i j p e e'.
      let s : name i ≡ name j =
        o.distinct (name i) (name j) p (rw (same i) at e) (rw (same j) at e') in
      sym (back i) ∙ ap name s ∙ back j;
  owned = λ p raw e.
      let (i, e') = o.owned p raw (rw blocks at e) in (name i, rw (same (name i), back i) e');
  wiped = rw freed o.wiped;
}

abbrev exchange : ℕ → ℕ → ℕ → ℕ
exchange i j k = if k == j then i else if k == i then j else k

exchange_back : (i j k : ℕ) → exchange i j (exchange i j k) ≡ k
exchange_back i j k = ground arith

pub swap-Owns : (i j : ℕ) (h : Heap) → Owns h → Owns (swap i j h)
unfolding swap set_object
swap-Owns i j h = Owns-renamed h (swap i j h) (exchange i j) (exchange_back i j) refl refl λ k.
    elim (Bool-cases (k == j)) [
      | inl first ↦ rw first refl
      | inr not_first ↦ elim (Bool-cases (k == i)) [
        | inl second ↦ rw (not_first, second) refl
        | inr neither ↦ rw (not_first, neither) refl
      ]
    ]

-- A move to a null object is an exchange.
pub move_construct-Owns :
    (i j : ℕ) (h : Heap) → h.objects i ≡ null → Owns h → Owns (move_construct i j h)
unfolding move_construct set_object
move_construct-Owns i j h fresh =
    Owns-renamed h (move_construct i j h) (exchange i j) (exchange_back i j) refl refl λ k.
      elim (Bool-cases (k == j)) [
        | inl first ↦ rw first (sym fresh)
        | inr not_first ↦ elim (Bool-cases (k == i)) [
          | inl second ↦ rw (not_first, second) refl
          | inr neither ↦ rw (not_first, neither) refl
        ]
      ]

module _ (pages : Pages) (laws : PagesLaws pages) where
  -- The heap after a block is given to a null object.
  pub given-Owns :
      (i n p : ℕ) (raw : List ℕ) (h : Heap)
      → h.objects i ≡ null
      → 0 < n
      → h.blocks p ≡ none
      → length raw ≡ n
      → Owns h
      → Owns (
          set_object i
            (record { address = some p; size = n })
            (record h { blocks = put (◌==◌ p) raw h.blocks }))
  unfolding set_object put
  given-Owns i n p raw h fresh pos free size o = record {
    held = λ k q e. elim (Bool-cases (k == i)) [
      | inl this ↦
          let same : p ≡ q = cc (rw this at e) in
          (raw, rw (← same, ==_refl p) refl, rw this size, rw this pos)
      | inr other ↦
          let (bytes, there, length_ok, positive) = o.held k q (rw other at e) in
          elim (Bool-cases (p == q)) [
            | inl hit ↦ cc (there, free, (==_iff p q).0 hit)
            | inr miss ↦ (bytes, rw miss there, rw other length_ok, rw other positive)
          ]
    ];
    null_size = λ k e. elim (Bool-cases (k == i)) [
      | inl this ↦ cc (rw this at e)
      | inr other ↦ rw other (o.null_size k (rw other at e))
    ];
    distinct = λ a b q e e'. elim (Bool-cases (a == i)) [
      | inl a_this ↦ elim (Bool-cases (b == i)) [
        | inl b_this ↦ (==_iff a i).0 a_this ∙ sym ((==_iff b i).0 b_this)
        | inr b_other ↦
            let same : p ≡ q = cc (rw a_this at e) in
            let (bytes, there, _, _) = o.held b q (rw b_other at e') in cc (there, free, same)
      ]
      | inr a_other ↦ elim (Bool-cases (b == i)) [
        | inl b_this ↦
            let same : p ≡ q = cc (rw b_this at e') in
            let (bytes, there, _, _) = o.held a q (rw a_other at e) in cc (there, free, same)
        | inr b_other ↦ o.distinct a b q (rw a_other at e) (rw b_other at e')
      ]
    ];
    owned = λ q bytes e. elim (Bool-cases (p == q)) [
      | inl hit ↦ (i, rw (==_refl i) (ap some ((==_iff p q).0 hit)))
      | inr miss ↦
          let (k, e') = o.owned q bytes (rw miss at e) in
          elim (Bool-cases (k == i)) [
            | inl this ↦
                let gone : (h.objects k).address ≡ none =
                  rw ((==_iff k i).0 this) (ap (λ (b : Buffer). b.address) fresh) in
                cc (gone, e')
            | inr other ↦ (k, rw other e')
          ]
    ];
    wiped = o.wiped;
  }

  -- The heap after an object's memory is wiped and freed.
  freed-Owns :
      (i p : ℕ) (h : Heap)
      → (h.objects i).address ≡ some p
      → Owns h
      → Owns (
          set_object i null (record h {
            blocks = erase (◌==◌ p) h.blocks;
            freed = pages.sodium_memzero (h.objects i).size (bytes_at (h.blocks p)) ∷ h.freed;
          }))
  unfolding set_object erase
  freed-Owns i p h mine o = record {
    held = λ k q e. elim (Bool-cases (k == i)) [
      | inl this ↦ cc (rw this at e)
      | inr other ↦
          let (bytes, there, length_ok, positive) = o.held k q (rw other at e) in
          elim (Bool-cases (p == q)) [
            | inl hit ↦
                let e' : (h.objects k).address ≡ some p =
                  rw other at e ∙ ap some (sym ((==_iff p q).0 hit)) in
                cc (other, (==_iff k i).1 (o.distinct k i p e' mine))
            | inr miss ↦ (bytes, rw miss there, rw other length_ok, rw other positive)
          ]
    ];
    null_size = λ k e. elim (Bool-cases (k == i)) [
      | inl this ↦ rw this refl
      | inr other ↦ rw other (o.null_size k (rw other at e))
    ];
    distinct = λ a b q e e'. elim (Bool-cases (a == i)) [
      | inl this ↦ cc (rw this at e)
      | inr a_other ↦ elim (Bool-cases (b == i)) [
        | inl this ↦ cc (rw this at e')
        | inr b_other ↦ o.distinct a b q (rw a_other at e) (rw b_other at e')
      ]
    ];
    owned = λ q bytes e. elim (Bool-cases (p == q)) [
      | inl hit ↦ cc (rw hit at e)
      | inr miss ↦
          let (k, e') = o.owned q bytes (rw miss at e) in
          elim (Bool-cases (k == i)) [
            | inl this ↦
                let same : p ≡ q = cc (mine, e', (==_iff k i).0 this) in
                cc (miss, (==_iff p q).1 same)
            | inr other ↦ (k, rw other e')
          ]
    ];
    wiped =
        let (bytes, there, length_ok, positive) = o.held i p mine in
        let zeroed : pages.sodium_memzero (h.objects i).size (bytes_at (h.blocks p))
            ≡ zeros (h.objects i).size =
          laws.memzero_zeros _ _
            (ap (λ (b : Option (List ℕ)). length (bytes_at b)) there ∙ length_ok) in
        (rw zeroed (zeros-IsWiped (h.objects i).size), o.wiped);
  }

  pub clear-Owns : (i : ℕ) (h : Heap) → Owns h → Owns (clear pages i h)
  unfolding clear
  clear-Owns i h o = elim (Option-cases (h.objects i).address) [
    | inl nothing ↦ rw nothing o
    | inr (p, e) ↦ rw e (freed-Owns i p h e o)
  ]
