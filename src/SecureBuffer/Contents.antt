-- ===== src/SecureBuffer/Contents.antt =====
-- The bytes that an object holds after a copy and after a resize, and after one that fails.
use obscura_proto.Common.{
  ℕ, ◌-◌, ◌≤◌, ◌≡◌, ◌⊎◌, refl, sym, ap, ◌∙◌, inl, inr, List, ◌++◌, append-nil, Bool, true, false,
  some, arith, ltb, ltb→lt, ltb→le, ◌==◌, ==_iff, ==_refl, if◌then◌else◌, length, length-take,
  length-take-le, take, put, Bool-cases, Option-cases,
}
use obscura_proto.SecureBuffer.{
  Buffer, null, Heap, zeros, Pages, PagesLaws, set_object, contents, overwrite, copy_into, copy_at,
  allocate, allocated, clear, construct, fill, then_copy, copy_construct, swap, resize, resized,
}
use obscura_proto.SecureBuffer.Ownership.{Owns, swap-Owns}
use obscura_proto.SecureBuffer.Methods.{contents-size, fill-Owns}
use obscura_proto.SecureBuffer.Bytes.{
  drop-zeros, take_all, nil_of-length, null-contents, contents_at, clear-contents, swap-contents,
  copied,
}

module _ (pages : Pages) (laws : PagesLaws pages) where
  -- What an allocation with a copy leaves, if it succeeds.
  filled :
      (i n : ℕ) (new : List ℕ) (h : Heap)
      → h.objects i ≡ null
      → length new ≤ n
      → Owns h
      → (fill pages i n new h).0 ≡ true
      → contents i (fill pages i n new h).1 ≡ new ++ zeros (n - length new)
  unfolding fill
  filled i n new h fresh fits o done = elim (Bool-cases (ltb 0 n)) [
    | inr empty ↦
        let few = ltb→le 0 n empty in
        let nothing = nil_of-length new (omega arith) in
        let none_left : n - length new ≡ 0 = omega arith in
        rw (empty, none_left, nothing) (null-contents i h fresh)
    | inl pos ↦ elim (Option-cases (pages.sodium_malloc n h)) [
      | inl nothing ↦ unfold allocate in cc (rw (pos, nothing) at done)
      | inr ((p, raw), got) ↦
          let (free, size) = laws.malloc_fresh n h p raw got in
          let zeroed = laws.memzero_zeros n raw size in
          let given = (allocated pages i n (some (p, raw)) h).1 in
          let address : (given.objects i).address ≡ some p =
            unfold set_object in rw (==_refl i) refl in
          let block : given.blocks p ≡ some (zeros n) =
            unfold set_object put in rw (==_refl p, zeroed) refl in
          unfold allocate in
          rw (pos, got)
            (copied i p new (zeros n) given address block
              ∙ (unfold overwrite in ap (◌++◌ new) (drop-zeros (length new) n)))
    ]
  ]

  fill-failed :
      (i n : ℕ) (new : List ℕ) (h : Heap)
      → (fill pages i n new h).0 ≡ false
      → (fill pages i n new h).1 ≡ h
  unfolding fill allocate
  fill-failed i n new h failed = elim (Bool-cases (ltb 0 n)) [
    | inr empty ↦ rw empty refl
    | inl pos ↦ elim (Option-cases (pages.sodium_malloc n h)) [
      | inl nothing ↦ rw (pos, nothing) refl
      | inr ((p, raw), got) ↦ cc (rw (pos, got) at failed)
    ]
  ]

  filled-others :
      (i k n : ℕ) (new : List ℕ) (h : Heap)
      → (k == i) ≡ false
      → Owns h
      → contents k (fill pages i n new h).1 ≡ contents k h
  unfolding fill
  filled-others i k n new h other o = elim (Bool-cases (ltb 0 n)) [
    | inr empty ↦ rw empty refl
    | inl pos ↦ elim (Option-cases (pages.sodium_malloc n h)) [
      | inl nothing ↦ unfold allocate in rw (pos, nothing) refl
      | inr ((p, raw), got) ↦
          let (free, size) = laws.malloc_fresh n h p raw got in
          let given = (allocated pages i n (some (p, raw)) h).1 in
          let address : (given.objects i).address ≡ some p =
            unfold set_object in rw (==_refl i) refl in
          unfold allocate in
          rw (pos, got)
            (contents_at k h (copy_into i new given) o
              (unfold copy_into set_object in rw address (rw other refl))
              λ q bytes e there. elim (Bool-cases (p == q)) [
                | inl hit ↦ cc (there, free, (==_iff p q).0 hit)
                | inr miss ↦ unfold copy_into put set_object in rw address (rw miss refl)
              ])
    ]
  ]

  abbrev finish : ℕ → ℕ → Bool × Heap → Bool × Heap
  finish i tmp (false, h) = (false, h)
  finish i tmp (true, h) = (true, clear pages tmp (swap i tmp h))

  resized-finish :
      (i tmp : ℕ) (new : List ℕ) (r : Bool × Heap)
      → resized pages i tmp new r ≡ finish i tmp (then_copy pages tmp new r)
  resized-finish i tmp new (false, h) = refl
  resized-finish i tmp new (true, h) = refl

  resized-fill :
      (i tmp n : ℕ) (new : List ℕ) (h : Heap)
      → h.objects tmp ≡ null
      → resized pages i tmp new (construct pages tmp n h) ≡ finish i tmp (fill pages tmp n new h)
  unfolding construct fill
  resized-fill i tmp n new h fresh = elim (Bool-cases (ltb 0 n)) [
    | inl pos ↦ rw pos (resized-finish i tmp new (allocate pages tmp n h))
    | inr empty ↦ rw empty (ap (λ (g : Heap). finish i tmp (true, g)) copied_nothing)
  ]
    where
      copied_nothing : copy_into tmp new h ≡ h
      copied_nothing = unfold copy_into in ap (λ (b : Buffer). copy_at b.address new h) fresh

  -- A copy of an object either holds the same bytes, and the original still does, or it throws and
  -- nothing has changed.
  pub copy_construct_lem :
      (i j : ℕ) (h : Heap)
      → Owns h
      → h.objects i ≡ null
      → (j == i) ≡ false
      → (((copy_construct pages i j h).0 ≡ true)
          × (contents i (copy_construct pages i j h).1 ≡ contents j h)
          × (contents j (copy_construct pages i j h).1 ≡ contents j h))
        ⊎ (((copy_construct pages i j h).0 ≡ false) × ((copy_construct pages i j h).1 ≡ h))
  unfolding copy_construct
  copy_construct_lem i j h o fresh apart =
      let n = (h.objects j).size in
      let old = contents j h in
      let full = contents-size j h o in
      let whole : take n old ≡ old = take_all n old (omega arith) in
      elim (Bool-cases (fill pages i n (take n old) h).0) [
        | inr failed ↦ inr (failed, fill-failed i n (take n old) h failed)
        | inl done ↦
            let bytes = filled i n (take n old) h fresh (length-take-le {0} n old) o done in
            let tail : n - length (take n old) ≡ 0 = omega (arith, ap length whole) in
            inl (
              done,
              bytes ∙ ap (λ (m : ℕ). take n old ++ zeros m) tail ∙ append-nil (take n old) ∙ whole,
              filled-others i j n (take n old) h apart o,
            )
      ]

  -- The swap with the filled temporary, and its end.
  finished :
      (i tmp n : ℕ) (new : List ℕ) {bytes : List ℕ} (h : Heap)
      → Owns h
      → h.objects tmp ≡ null
      → (i == tmp) ≡ false
      → length new ≤ n
      → new ++ zeros (n - length new) ≡ bytes
      → (((finish i tmp (fill pages tmp n new h)).0 ≡ true)
          × (contents i (finish i tmp (fill pages tmp n new h)).1 ≡ bytes))
        ⊎ (((finish i tmp (fill pages tmp n new h)).0 ≡ false)
            × ((finish i tmp (fill pages tmp n new h)).1 ≡ h))
  finished i tmp n new {bytes} h o fresh apart few whole =
      cases (fill pages tmp n new h) (fill-Owns pages laws tmp n new h fresh few o)
        (fill-failed tmp n new h) (filled tmp n new h fresh few o)
    where
      cases :
          (r : Bool × Heap)
          → Owns r.1
          → (r.0 ≡ false → r.1 ≡ h)
          → (r.0 ≡ true → contents tmp r.1 ≡ new ++ zeros (n - length new))
          → (((finish i tmp r).0 ≡ true) × (contents i (finish i tmp r).1 ≡ bytes))
            ⊎ (((finish i tmp r).0 ≡ false) × ((finish i tmp r).1 ≡ h))
      cases (false, g) own failed done = inr (refl, failed refl)
      cases (true, g) own failed done = inl (
        refl,
        clear-contents pages tmp i (swap i tmp g) apart (swap-Owns i tmp g own)
            ∙ swap-contents i tmp g apart
            ∙ done refl
            ∙ whole,
      )

  -- A resize keeps the bytes that fit and puts zeros behind them, or it throws and nothing has
  -- changed.
  pub resize_lem :
      (i tmp n : ℕ) (h : Heap)
      → Owns h
      → h.objects tmp ≡ null
      → (i == tmp) ≡ false
      → (((resize pages i tmp n h).0 ≡ true)
          × (contents i (resize pages i tmp n h).1
              ≡ take n (contents i h) ++ zeros (n - (h.objects i).size)))
        ⊎ (((resize pages i tmp n h).0 ≡ false) × ((resize pages i tmp n h).1 ≡ h))
  unfolding resize
  resize_lem i tmp n h o fresh apart =
      let size = (h.objects i).size in
      let old = contents i h in
      let full = contents-size i h o in
      let m : ℕ = if ltb n size then n else size in
      let new = take m old in
      let bound : m ≤ n = ground arith in
      let few : length new ≤ n = omega (arith, length-take-le {0} m old, bound) in
      let cut : (new ≡ take n old) × (n - length new ≡ n - size) = elim (Bool-cases (ltb n size)) [
        | inl shrinks ↦
            let less = ltb→lt n size shrinks in
            rw shrinks (refl, omega (arith, length-take {0} n old (omega arith)))
        | inr grows ↦
            let more = ltb→le n size grows in
            let all = take_all n old (omega arith) in
            let whole = take_all size old (omega arith) in
            rw grows (whole ∙ sym all, omega (arith, ap length whole))
      ] in
      elim (Bool-cases (n == size)) [
        | inl same ↦
            let e = (==_iff n size).0 same in
            let none_left : n - size ≡ 0 = omega arith in
            inl (
              rw same refl,
              rw same (
                  sym (
                    ap (λ (k : ℕ). take n old ++ zeros k) none_left
                    ∙ append-nil (take n old)
                    ∙ take_all n old (omega arith))),
            )
        | inr changes ↦
            rw (changes, resized-fill i tmp n new h fresh)
              (finished i tmp n new h o fresh apart few (
                ap (λ (xs : List ℕ). xs ++ zeros (n - length new)) cut.0
                ∙ ap (λ (k : ℕ). take n old ++ zeros k) cut.1))
      ]
