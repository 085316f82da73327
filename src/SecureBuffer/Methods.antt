-- ===== src/SecureBuffer/Methods.antt =====
-- Every method of SecureBuffer keeps the ownership of memory, also when it throws.
use obscura_proto.Common.{
  ℕ, ◌≤◌, ◌<◌, ◌≡◌, refl, sym, ap, ◌∙◌, inl, inr, List, [], Bool, true, false, Option, none, some,
  arith, ltb, ltb→lt, ltb→le, ◌==◌, ==_iff, ==_refl, if◌then◌else◌, length, length-append,
  length-drop, length-take-le, take, drop, put, Bool-cases, Option-cases,
}
use obscura_proto.SecureBuffer.{
  Buffer, null, Heap, Pages, PagesLaws, set_object, bytes_at, contents, overwrite, copy_into,
  allocate, clear, construct, fill, then_copy, copy_construct, copy_assign, move_construct,
  move_assign, assign, swap, resize, resized,
}
use obscura_proto.SecureBuffer.Ownership.{
  Owns, swap-Owns, move_construct-Owns, given-Owns, clear-Owns, length-zeros,
}

pub contents-size : (i : ℕ) (h : Heap) → Owns h → length (contents i h) ≡ (h.objects i).size
unfolding contents
contents-size i h o = elim (Option-cases (h.objects i).address) [
  | inl nothing ↦ rw nothing (sym (o.null_size i nothing))
  | inr (p, e) ↦
      let (raw, there, size, positive) = o.held i p e in
      rw e (ap (λ (b : Option (List ℕ)). length (bytes_at b)) there ∙ size)
]

pub length-overwrite :
    (new old : List ℕ) → length new ≤ length old → length (overwrite new old) ≡ length old
unfolding overwrite
length-overwrite new old h =
    omega (arith, length-append {0} new (drop (length new) old), length-drop {0} (length new) old)

-- A write into the block of an object.
written-Owns :
    (i p : ℕ) (new : List ℕ) (h : Heap)
    → (h.objects i).address ≡ some p
    → length new ≤ (h.objects i).size
    → Owns h
    → Owns (record h { blocks = put (◌==◌ p) (overwrite new (bytes_at (h.blocks p))) h.blocks })
unfolding put
written-Owns i p new h mine fits o =
    let (old, there, size, positive) = o.held i p mine in
    let old_size : length (bytes_at (h.blocks p)) ≡ (h.objects i).size =
      ap (λ (b : Option (List ℕ)). length (bytes_at b)) there ∙ size in
    record {
      held = λ k q e. elim (Bool-cases (p == q)) [
        | inl hit ↦
            let same : k ≡ i = o.distinct k i q e (mine ∙ ap some ((==_iff p q).0 hit)) in
            (
              overwrite new (bytes_at (h.blocks p)),
              rw hit refl,
              length-overwrite new (bytes_at (h.blocks p)) (omega arith)
                  ∙ old_size
                  ∙ ap (λ (n : ℕ). (h.objects n).size) (sym same),
              (o.held k q e).3,
            )
        | inr miss ↦
            let (raw, there', size', positive') = o.held k q e in
            (raw, rw miss there', size', positive')
      ];
      null_size = o.null_size;
      distinct = o.distinct;
      owned = λ q raw e. elim (Bool-cases (p == q)) [
        | inl hit ↦ (i, mine ∙ ap some ((==_iff p q).0 hit))
        | inr miss ↦ o.owned q raw (rw miss at e)
      ];
      wiped = o.wiped;
    }

copy_into-Owns :
    (i : ℕ) (new : List ℕ) (h : Heap)
    → length new ≤ (h.objects i).size
    → Owns h
    → Owns (copy_into i new h)
unfolding copy_into
copy_into-Owns i new h fits o = elim (Option-cases (h.objects i).address) [
  | inl nothing ↦ rw nothing o
  | inr (p, e) ↦ rw e (written-Owns i p new h e fits o)
]

module _ (pages : Pages) (laws : PagesLaws pages) where
  allocate-Owns :
      (i n : ℕ) (h : Heap)
      → h.objects i ≡ null
      → 0 < n
      → Owns h
      → Owns (allocate pages i n h).1
        × (((allocate pages i n h).0 ≡ true) → ((allocate pages i n h).1.objects i).size ≡ n)
  unfolding allocate
  allocate-Owns i n h fresh pos o = elim (Option-cases (pages.sodium_malloc n h)) [
    | inl nothing ↦ rw nothing (o, λ e. cc)
    | inr ((p, raw), got) ↦
        let (free, size) = laws.malloc_fresh n h p raw got in
        let zeroed = laws.memzero_zeros n raw size in
        rw got (
          given-Owns pages laws i n p (pages.sodium_memzero n raw) h fresh pos free
              (ap length zeroed ∙ length-zeros n) o,
          λ e. unfold set_object in rw (==_refl i) refl,
        )
  ]

  then_copy-Owns :
      (i : ℕ) (new : List ℕ) (r : Bool × Heap)
      → Owns r.1
      → (r.0 ≡ true → length new ≤ (r.1.objects i).size)
      → Owns (then_copy pages i new r).1
  then_copy-Owns i new (false, h) o fits = o
  then_copy-Owns i new (true, h) o fits = copy_into-Owns i new h (fits refl) o

  pub fill-Owns :
      (i n : ℕ) (new : List ℕ) (h : Heap)
      → h.objects i ≡ null
      → length new ≤ n
      → Owns h
      → Owns (fill pages i n new h).1
  unfolding fill
  fill-Owns i n new h fresh fits o = elim (Bool-cases (ltb 0 n)) [
    | inl pos ↦
        let (o', size) = allocate-Owns i n h fresh (ltb→lt 0 n pos) o in
        rw pos (then_copy-Owns i new (allocate pages i n h) o' λ e. omega (arith, size e))
    | inr empty ↦ rw empty o
  ]

  pub clear-null : (i : ℕ) (h : Heap) → Owns h → (clear pages i h).objects i ≡ null
  unfolding clear set_object
  clear-null i h o = elim (Option-cases (h.objects i).address) [
    | inl nothing ↦ rw nothing (is_null (h.objects i) nothing (o.null_size i nothing))
    | inr (p, e) ↦ rw (e, ==_refl i) refl
  ]
    where
      is_null : (b : Buffer) → b.address ≡ none → b.size ≡ 0 → b ≡ null
      is_null b p q = λ k. record { address = p k; size = q k }

  pub copy_construct-Owns :
      (i j : ℕ) (h : Heap) → h.objects i ≡ null → Owns h → Owns (copy_construct pages i j h).1
  unfolding copy_construct
  copy_construct-Owns i j h fresh o =
      fill-Owns i (h.objects j).size (take (h.objects j).size (contents j h)) h fresh
        (length-take-le {0} (h.objects j).size (contents j h)) o

  if-Owns : (b : Bool) (x y : Bool × Heap) → Owns x.1 → Owns y.1 → Owns (if b then x else y).1
  if-Owns true x y p q = p
  if-Owns false x y p q = q

  pub copy_assign-Owns : (i j : ℕ) (h : Heap) → Owns h → Owns (copy_assign pages i j h).1
  unfolding copy_assign
  copy_assign-Owns i j h o =
      if-Owns (i == j) (true, h) (copy_construct pages i j (clear pages i h)) o
        (copy_construct-Owns i j (clear pages i h) (clear-null i h o) (clear-Owns pages laws i h o))

  pub move_assign-Owns : (i j : ℕ) (h : Heap) → Owns h → Owns (move_assign pages i j h)
  unfolding move_assign
  move_assign-Owns i j h o = elim (Bool-cases (i == j)) [
    | inl same ↦ rw same o
    | inr other ↦
        rw other (
          move_construct-Owns i j (clear pages i h) (clear-null i h o)
            (clear-Owns pages laws i h o))
  ]

  pub assign-Owns : (i : ℕ) (new : List ℕ) (h : Heap) → Owns h → Owns (assign pages i new h).1
  unfolding assign
  assign-Owns i new h o =
      fill-Owns i (length new) new (clear pages i h) (clear-null i h o) (omega arith)
        (clear-Owns pages laws i h o)

  pub construct-Owns :
      (i n : ℕ) (h : Heap)
      → h.objects i ≡ null
      → Owns h
      → Owns (construct pages i n h).1
        × (((construct pages i n h).0 ≡ true) → ((construct pages i n h).1.objects i).size ≡ n)
  unfolding construct
  construct-Owns i n h fresh o = elim (Bool-cases (ltb 0 n)) [
    | inl pos ↦ rw pos (allocate-Owns i n h fresh (ltb→lt 0 n pos) o)
    | inr empty ↦
        let none_left = ltb→le 0 n empty in
        rw empty (o, λ e. omega (arith, ap (λ (b : Buffer). b.size) fresh))
  ]

  resized-Owns :
      (i tmp : ℕ) (new : List ℕ) (r : Bool × Heap)
      → Owns r.1
      → (r.0 ≡ true → length new ≤ (r.1.objects tmp).size)
      → Owns (resized pages i tmp new r).1
  resized-Owns i tmp new (false, h) o fits = o
  resized-Owns i tmp new (true, h) o fits =
      clear-Owns pages laws tmp (swap i tmp (copy_into tmp new h))
        (swap-Owns i tmp (copy_into tmp new h) (copy_into-Owns tmp new h (fits refl) o))

  pub resize-Owns :
      (i tmp n : ℕ) (h : Heap) → h.objects tmp ≡ null → Owns h → Owns (resize pages i tmp n h).1
  unfolding resize
  resize-Owns i tmp n h fresh o =
      let size = (h.objects i).size in
      let copy_size : ℕ = if ltb n size then n else size in
      let new = take copy_size (contents i h) in
      let small : copy_size ≤ n = ground arith in
      let (o', made) = construct-Owns tmp n h fresh o in
      if-Owns (n == size) (true, h) (resized pages i tmp new (construct pages tmp n h)) o
        (resized-Owns i tmp new (construct pages tmp n h) o'
          λ e. omega (arith, made e, length-take-le {0} copy_size (contents i h)))

  -- The methods in any order, on objects that are not constructed yet where they construct one.
  pub data Uses : Heap → Type 0 where
    starts : Uses (record { blocks = λ p. none; objects = λ i. null; freed = [] })
    constructs : {h : Heap} (i n : ℕ) → Uses h → h.objects i ≡ null → Uses (construct pages i n h).1
    copies :
        {h : Heap} (i j : ℕ) → Uses h → h.objects i ≡ null → Uses (copy_construct pages i j h).1
    copy_assigns : {h : Heap} (i j : ℕ) → Uses h → Uses (copy_assign pages i j h).1
    moves : {h : Heap} (i j : ℕ) → Uses h → h.objects i ≡ null → Uses (move_construct i j h)
    move_assigns : {h : Heap} (i j : ℕ) → Uses h → Uses (move_assign pages i j h)
    assigns : {h : Heap} (i : ℕ) (new : List ℕ) → Uses h → Uses (assign pages i new h).1
    resizes :
        {h : Heap} (i tmp n : ℕ) → Uses h → h.objects tmp ≡ null → Uses (resize pages i tmp n h).1
    clears : {h : Heap} (i : ℕ) → Uses h → Uses (clear pages i h)

  -- After any methods, also those that throw, each object points to a block of its own size that
  -- no other object points to, no block is without an owner, and all memory that was freed had
  -- been overwritten with zeros: nothing is freed twice, leaked, or freed with secrets in it.
  pub Uses-Owns : {h : Heap} → Uses h → Owns h
  Uses-Owns starts = record {
    held = λ i p e. cc;
    null_size = λ i e. refl;
    distinct = λ i j p e e'. cc;
    owned = λ p raw e. cc;
    wiped = tt;
  }
  Uses-Owns (constructs {h} i n u fresh) = (construct-Owns i n h fresh (Uses-Owns u)).0
  Uses-Owns (copies {h} i j u fresh) = copy_construct-Owns i j h fresh (Uses-Owns u)
  Uses-Owns (copy_assigns {h} i j u) = copy_assign-Owns i j h (Uses-Owns u)
  Uses-Owns (moves {h} i j u fresh) = move_construct-Owns i j h fresh (Uses-Owns u)
  Uses-Owns (move_assigns {h} i j u) = move_assign-Owns i j h (Uses-Owns u)
  Uses-Owns (assigns {h} i new u) = assign-Owns i new h (Uses-Owns u)
  Uses-Owns (resizes {h} i tmp n u fresh) = resize-Owns i tmp n h fresh (Uses-Owns u)
  Uses-Owns (clears {h} i u) = clear-Owns pages laws i h (Uses-Owns u)
