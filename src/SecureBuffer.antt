-- ===== src/SecureBuffer.antt =====
-- The class SecureBuffer of include/obscuraproto/secure_buffer.hpp: a vector of bytes in memory of
-- libsodium that is wiped before it is freed. Objects are named by numbers and live on a heap with
-- the blocks of memory; an object that is not constructed yet, or destroyed, is like a null one.
-- A method returns false where it throws std::bad_alloc, with the heap as it leaves it. `Pages` is
-- libsodium's memory: sodium_malloc gives a fresh block of any contents, or none.
pub mod Ownership
pub mod Methods
pub mod Bytes
pub mod Contents
mod Tests
use obscura_proto.Common.{
  ℕ, zero, suc, ◌≡◌, List, [], ◌∷◌, ◌++◌, Bool, true, false, not, Option, none, some, ltb, ◌==◌,
  if◌then◌else◌, length, take, drop, get_elem?, put, erase,
}

-- data_ and size_; a null pointer is `none`.
pub record Buffer : Type 0 where
  pub address : Option ℕ
  pub size : ℕ

abbrev pub null : Buffer
null = record { address = none; size = 0 }

-- The blocks that are allocated, the objects, and the contents of blocks when they were freed.
pub record Heap : Type 0 where
  pub blocks : ℕ → Option (List ℕ)
  pub objects : ℕ → Buffer
  pub freed : List (List ℕ)

abbrev pub zeros : ℕ → List ℕ
zeros zero = []
zeros (suc n) = 0 ∷ zeros n

pub record Pages : Type 0 where
  pub sodium_malloc : ℕ → Heap → Option (ℕ × List ℕ)
  -- The block after the first bytes are zeroed.
  pub sodium_memzero : ℕ → List ℕ → List ℕ

pub record PagesLaws (pages : Pages) : Type 0 where
  pub malloc_fresh :
      (n : ℕ) (h : Heap) (p : ℕ) (raw : List ℕ)
      → pages.sodium_malloc n h ≡ some (p, raw)
      → (h.blocks p ≡ none) × (length raw ≡ n)
  pub memzero_zeros : (n : ℕ) (raw : List ℕ) → length raw ≡ n → pages.sodium_memzero n raw ≡ zeros n

unfoldable pub set_object : ℕ → Buffer → Heap → Heap
set_object i b h = record h { objects = λ k. if k == i then b else h.objects k }

-- The bytes of a block, and those that a buffer holds.
abbrev pub bytes_at : Option (List ℕ) → List ℕ
bytes_at none = []
bytes_at (some raw) = raw

abbrev pub block_of : Option ℕ → Heap → List ℕ
block_of none h = []
block_of (some p) h = bytes_at (h.blocks p)

unfoldable pub contents : ℕ → Heap → List ℕ
contents i h = block_of (h.objects i).address h

-- memcpy to the front of a block.
unfoldable pub overwrite : List ℕ → List ℕ → List ℕ
overwrite new old = new ++ drop (length new) old

abbrev pub copy_at : Option ℕ → List ℕ → Heap → Heap
copy_at none new h = h
copy_at (some p) new h = record h {
  blocks = put (◌==◌ p) (overwrite new (bytes_at (h.blocks p))) h.blocks;
}

unfoldable pub copy_into : ℕ → List ℕ → Heap → Heap
unfolding put overwrite
copy_into i new h = copy_at (h.objects i).address new h

-- operator[], which checks nothing: `none` is outside of the buffer.
unfoldable pub at : ℕ → ℕ → Heap → Option ℕ
unfolding contents
at i k h = get_elem? (contents i h) k

unfoldable pub move_construct : ℕ → ℕ → Heap → Heap
unfolding set_object
move_construct i j h = set_object j null (set_object i (h.objects j) h)

-- std::swap of both fields.
unfoldable pub swap : ℕ → ℕ → Heap → Heap
unfolding set_object
swap i j h = set_object j (h.objects i) (set_object i (h.objects j) h)

module _ (pages : Pages) where
  abbrev pub allocated : ℕ → ℕ → Option (ℕ × List ℕ) → Heap → Bool × Heap
  allocated i size none h = (false, h)
  allocated i size (some (p, raw)) h = (
    true,
    set_object i (record { address = some p; size = size })
        (record h { blocks = put (◌==◌ p) (pages.sodium_memzero size raw) h.blocks }),
  )

  unfoldable pub allocate : ℕ → ℕ → Heap → Bool × Heap
  unfolding put set_object
  allocate i size h = allocated i size (pages.sodium_malloc size h) h

  abbrev cleared : ℕ → ℕ → Option ℕ → Heap → Heap
  cleared i size none h = h
  cleared i size (some p) h = set_object i null (record h {
    blocks = erase (◌==◌ p) h.blocks;
    freed = pages.sodium_memzero size (bytes_at (h.blocks p)) ∷ h.freed;
  })

  -- The destructor is a clear.
  unfoldable pub clear : ℕ → Heap → Heap
  unfolding erase set_object
  clear i h = cleared i (h.objects i).size (h.objects i).address h

  unfoldable pub construct : ℕ → ℕ → Heap → Bool × Heap
  unfolding allocate
  construct i size h = if ltb 0 size then allocate i size h else (true, h)

  abbrev pub then_copy : ℕ → List ℕ → Bool × Heap → Bool × Heap
  then_copy i new (false, h) = (false, h)
  then_copy i new (true, h) = (true, copy_into i new h)

  -- The allocation of so many bytes and the copy of these bytes to their front.
  unfoldable pub fill : ℕ → ℕ → List ℕ → Heap → Bool × Heap
  unfolding allocate copy_into
  fill i size new h = if ltb 0 size then then_copy i new (allocate i size h) else (true, h)

  unfoldable pub copy_construct : ℕ → ℕ → Heap → Bool × Heap
  unfolding fill
  copy_construct i j h = fill i (h.objects j).size (take (h.objects j).size (contents j h)) h

  unfoldable pub copy_assign : ℕ → ℕ → Heap → Bool × Heap
  unfolding copy_construct clear
  copy_assign i j h = if i == j then (true, h) else copy_construct i j (clear i h)

  unfoldable pub move_assign : ℕ → ℕ → Heap → Heap
  unfolding move_construct clear
  move_assign i j h = if i == j then h else move_construct i j (clear i h)

  unfoldable pub assign : ℕ → List ℕ → Heap → Bool × Heap
  unfolding fill clear
  assign i new h = fill i (length new) new (clear i h)

  -- What resize does once its temporary is made: copy, swap, and the temporary's destructor.
  abbrev pub resized : ℕ → ℕ → List ℕ → Bool × Heap → Bool × Heap
  resized i tmp new (false, h) = (false, h)
  resized i tmp new (true, h) = (true, clear tmp (swap i tmp (copy_into tmp new h)))

  -- `tmp` is the name of the temporary.
  unfoldable pub resize : ℕ → ℕ → ℕ → Heap → Bool × Heap
  unfolding construct clear swap copy_into
  resize i tmp new_size h =
      let b = h.objects i in
      let copy_size = if ltb new_size b.size then new_size else b.size in
      if new_size == b.size
      then (true, h)
      else resized i tmp (take copy_size (contents i h)) (construct tmp new_size h)
