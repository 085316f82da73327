-- ===== src/Endian/Laws.antt =====
-- What the conversions amount to: big-endian bytes, whatever the machine.
use mathlib.Core.List.{reverse-reverse, reverse-cons}
use obscura_proto.Common.{
  ℕ, zero, suc, ◌+◌, ◌*◌, ◌/◌, ◌%◌, ◌≡◌, refl, ap, ◌∙◌, List, [], ◌∷◌, reverse, arith, length,
  length-reverse, All, All-append,
}
use obscura_proto.Common.Words.{IsByte, IsU16, IsU32, IsU64}
use obscura_proto.Endian.{
  Host, little, big, le_bytes, load_le, image, load, swap_bytes, htons, ntohs, htonl, ntohl,
  htonll_local, ntohll_local,
}

-- The n bytes of a number, highest first.
unfoldable pub be_bytes : ℕ → ℕ → List ℕ
be_bytes n v = reverse (le_bytes n v)

unfoldable pub load_be : List ℕ → ℕ
load_be bs = load_le (reverse bs)

pub length-le_bytes : (n v : ℕ) → length (le_bytes n v) ≡ n
length-le_bytes zero v = refl
length-le_bytes (suc n) v = ap suc (length-le_bytes n (v / 256))

pub All-reverse : (xs : List ℕ) → All IsByte xs → All IsByte (reverse xs)
All-reverse [] h = tt
All-reverse (x ∷ xs) (hx, hxs) =
    rw (reverse-cons x xs) (All-append IsByte (reverse xs) (x ∷ []) (All-reverse xs hxs) (hx, tt))

le_bytes-load_le : (bs : List ℕ) → All IsByte bs → le_bytes (length bs) (load_le bs) ≡ bs
le_bytes-load_le [] h = refl
le_bytes-load_le (b ∷ bs) (hb, hbs) =
    let low : (b + 256 * load_le bs) % 256 ≡ b = omega arith in
    let high : (b + 256 * load_le bs) / 256 ≡ load_le bs = omega arith in
    rw (low, high, le_bytes-load_le bs hbs)

le_bytes-IsByte : (n v : ℕ) → All IsByte (le_bytes n v)
le_bytes-IsByte zero v = tt
le_bytes-IsByte (suc n) v = (omega arith, le_bytes-IsByte n (v / 256))

le_bytes-swap_bytes : (n v : ℕ) → le_bytes n (swap_bytes n v) ≡ reverse (le_bytes n v)
le_bytes-swap_bytes n v =
    let e : length (reverse (le_bytes n v)) ≡ n =
      length-reverse (le_bytes n v) ∙ length-le_bytes n v in
    rw e at (le_bytes-load_le (reverse (le_bytes n v)) (All-reverse _ (le_bytes-IsByte n v)))

-- The memory of a converted integer is its bytes, highest first.
pub image-htons : (h : Host) (v : ℕ) → image h 2 (htons h v) ≡ be_bytes 2 v
unfolding image htons be_bytes
image-htons little v = le_bytes-swap_bytes 2 v
image-htons big v = refl

pub image-htonl : (h : Host) (v : ℕ) → image h 4 (htonl h v) ≡ be_bytes 4 v
unfolding image htonl be_bytes
image-htonl little v = le_bytes-swap_bytes 4 v
image-htonl big v = refl

pub image-htonll_local : (h : Host) (v : ℕ) → IsU64 v → image h 8 (htonll_local h v) ≡ be_bytes 8 v
unfolding image htonll_local be_bytes
image-htonll_local little v b = ground arith
image-htonll_local big v b = refl

pub ntohs-load :
    (h : Host) (bs : List ℕ) → All IsByte bs → length bs ≡ 2 → ntohs h (load h bs) ≡ load_be bs
unfolding ntohs load load_be
ntohs-load little bs a e = ap (λ l. load_le (reverse l)) (rw e at (le_bytes-load_le bs a))
ntohs-load big bs a e = refl

pub ntohl-load :
    (h : Host) (bs : List ℕ) → All IsByte bs → length bs ≡ 4 → ntohl h (load h bs) ≡ load_be bs
unfolding ntohl load load_be
ntohl-load little bs a e = ap (λ l. load_le (reverse l)) (rw e at (le_bytes-load_le bs a))
ntohl-load big bs a e = refl

pub load_be-u16 : (v : ℕ) → IsU16 v → load_be (be_bytes 2 v) ≡ v
unfolding load_be be_bytes
load_be-u16 v h = omega arith

pub load_be-u32 : (v : ℕ) → IsU32 v → load_be (be_bytes 4 v) ≡ v
unfolding load_be be_bytes
load_be-u32 v h = omega arith

pub load_be-u64 : (v : ℕ) → IsU64 v → load_be (be_bytes 8 v) ≡ v
unfolding load_be be_bytes
load_be-u64 v h = omega arith

-- On a little-endian machine `ntohll_local` reverses the eight bytes, half by half.
reverse_eight : (v : ℕ) → IsU64 v → ntohll_local little v ≡ swap_bytes 8 v
unfolding ntohll_local
reverse_eight v h = omega arith

load_le-lt : (bs : List ℕ) → All IsByte bs → length bs ≡ 8 → IsU64 (load_le bs)
load_le-lt (a ∷ b ∷ c ∷ d ∷ e ∷ f ∷ g ∷ h ∷ []) r q = omega arith
load_le-lt _ r q = absurd (omega arith)

pub load_be-lt : (bs : List ℕ) → All IsByte bs → length bs ≡ 8 → IsU64 (load_be bs)
unfolding load_be
load_be-lt bs a e = load_le-lt (reverse bs) (All-reverse bs a) (length-reverse bs ∙ e)

pub ntohll_local-load :
    (h : Host) (bs : List ℕ)
    → All IsByte bs
    → length bs ≡ 8
    → ntohll_local h (load h bs) ≡ load_be bs
unfolding ntohll_local load load_be
ntohll_local-load little bs a e =
    reverse_eight (load_le bs) (load_le-lt bs a e)
    ∙ ap (λ l. load_le (reverse l)) (rw e at (le_bytes-load_le bs a))
ntohll_local-load big bs a e = refl

pub length-be_bytes : (n v : ℕ) → length (be_bytes n v) ≡ n
unfolding be_bytes
length-be_bytes n v = length-reverse (le_bytes n v) ∙ length-le_bytes n v

pub be_bytes-IsByte : (n v : ℕ) → All IsByte (be_bytes n v)
unfolding be_bytes
be_bytes-IsByte n v = All-reverse _ (le_bytes-IsByte n v)

-- Bytes that were read as an integer are that integer's bytes.
pub be_bytes-load_be : (bs : List ℕ) → All IsByte bs → be_bytes (length bs) (load_be bs) ≡ bs
unfolding be_bytes load_be
be_bytes-load_be bs a =
    ap reverse (rw (length-reverse bs) at (le_bytes-load_le (reverse bs) (All-reverse bs a)))
    ∙ reverse-reverse bs
