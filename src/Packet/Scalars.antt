-- ===== src/Packet/Scalars.antt =====
-- Numbers as parameters: what add_param writes for each arithmetic type, and what read_param gets.
use obscura_proto.Common.{
  ℕ, ◌<◌, ◌^◌, ◌≡◌, refl, ap, ◌∙◌, Bool, List, ◌++◌, ==_refl, true, false, arith, if◌then◌else◌,
  length, length-reverse,
}
use obscura_proto.Errors.{ok}
use obscura_proto.Endian.{Host, little, big, image, load, le_bytes, swap_bytes}
use obscura_proto.Endian.Laws.{
  be_bytes, image-htons, image-htonl, image-htonll_local, ntohs-load, ntohl-load, ntohll_local-load,
  length-be_bytes, length-le_bytes, be_bytes-IsByte, load_be-u16, load_be-u32, load_be-u64,
}
use obscura_proto.Packet.Builder.{
  Scalar, bool, int8, uint8, int16, uint16, int32, uint32, int64, uint64, float, double, sizeof,
  scalar_bytes,
}
use obscura_proto.Packet.Reader.{from_network, read_scalar}
use obscura_proto.Packet.Framing.{frame, reader_at, read_param_bytes-frame}

-- The bit patterns of a type. A bool is 0 or 1.
abbrev pub InRange : Scalar → ℕ → Type 0
InRange bool v = v < 2
InRange t v = v < 256 ^ sizeof t

-- The types that add_param converts to network order, or that have one byte.
abbrev pub IsInteger : Scalar → Type 0
IsInteger float = ⊥
IsInteger double = ⊥
IsInteger _ = Unit {0}

abbrev pub IsFloating : Scalar → Type 0
IsFloating float = Unit {0}
IsFloating double = Unit {0}
IsFloating _ = ⊥

-- An integer is written highest byte first, on every machine.
pub scalar_bytes-be_bytes :
    (h : Host) (t : Scalar) (v : ℕ)
    → IsInteger t
    → InRange t v
    → scalar_bytes h t v ≡ be_bytes (sizeof t) v
unfolding scalar_bytes be_bytes
scalar_bytes-be_bytes h bool v i b = ground arith
scalar_bytes-be_bytes h int8 v i b = ground arith
scalar_bytes-be_bytes h uint8 v i b = ground arith
scalar_bytes-be_bytes h int16 v i b = image-htons h v
scalar_bytes-be_bytes h uint16 v i b = image-htons h v
scalar_bytes-be_bytes h int32 v i b = image-htonl h v
scalar_bytes-be_bytes h uint32 v i b = image-htonl h v
scalar_bytes-be_bytes h int64 v i b = image-htonll_local h v b
scalar_bytes-be_bytes h uint64 v i b = image-htonll_local h v b
scalar_bytes-be_bytes h float v i b = absurd i
scalar_bytes-be_bytes h double v i b = absurd i

load_one : (h : Host) (v : ℕ) → v < 256 → load h (be_bytes 1 v) ≡ v
unfolding load be_bytes
load_one little v b = omega arith
load_one big v b = omega arith

length-image : (h : Host) (n v : ℕ) → length (image h n v) ≡ n
unfolding image
length-image little n v = length-le_bytes n v
length-image big n v = length-reverse (le_bytes n v) ∙ length-le_bytes n v

load-image :
    (h : Host) (t : Scalar) (v : ℕ)
    → IsFloating t
    → v < 256 ^ sizeof t
    → load h (image h (sizeof t) v) ≡ v
unfolding load image
load-image little float v i b = omega arith
load-image big float v i b = omega arith
load-image little double v i b = omega arith
load-image big double v i b = omega arith
load-image h _ v i b = absurd i

scalar_bytes-image :
    (h : Host) (t : Scalar) (v : ℕ) → IsFloating t → scalar_bytes h t v ≡ image h (sizeof t) v
unfolding scalar_bytes
scalar_bytes-image h float v i = refl
scalar_bytes-image h double v i = refl
scalar_bytes-image h _ v i = absurd i

from_network_floating : (h : Host) (t : Scalar) (v : ℕ) → IsFloating t → from_network h t v ≡ v
unfolding from_network
from_network_floating h float v i = refl
from_network_floating h double v i = refl
from_network_floating h _ v i = absurd i

small : (t : Scalar) (param : List ℕ) → length param ≡ sizeof t → length param < 65536
small bool param e = omega arith
small _ param e = omega arith

from_network-be_bytes :
    (h : Host) (t : Scalar) (v : ℕ)
    → IsInteger t
    → InRange t v
    → from_network h t (load h (be_bytes (sizeof t) v)) ≡ v
unfolding from_network
from_network-be_bytes h bool v i b = load_one h v (omega arith)
from_network-be_bytes h int8 v i b = load_one h v b
from_network-be_bytes h uint8 v i b = load_one h v b
from_network-be_bytes h int16 v i b =
    ntohs-load h _ (be_bytes-IsByte 2 v) (length-be_bytes 2 v) ∙ load_be-u16 v b
from_network-be_bytes h uint16 v i b =
    ntohs-load h _ (be_bytes-IsByte 2 v) (length-be_bytes 2 v) ∙ load_be-u16 v b
from_network-be_bytes h int32 v i b =
    ntohl-load h _ (be_bytes-IsByte 4 v) (length-be_bytes 4 v) ∙ load_be-u32 v b
from_network-be_bytes h uint32 v i b =
    ntohl-load h _ (be_bytes-IsByte 4 v) (length-be_bytes 4 v) ∙ load_be-u32 v b
from_network-be_bytes h int64 v i b =
    ntohll_local-load h _ (be_bytes-IsByte 8 v) (length-be_bytes 8 v) ∙ load_be-u64 v b
from_network-be_bytes h uint64 v i b =
    ntohll_local-load h _ (be_bytes-IsByte 8 v) (length-be_bytes 8 v) ∙ load_be-u64 v b
from_network-be_bytes h float v i b = absurd i
from_network-be_bytes h double v i b = absurd i

-- `read_param<T>` on a parameter of the size of T converts its bytes.
pub read_scalar-frame :
    (h : Host) (t : Scalar) (before param left : List ℕ)
    → length param ≡ sizeof t
    → read_scalar h t (reader_at before (frame param ++ left))
      ≡ (ok (from_network h t (load h param)), reader_at (before ++ frame param) left)
unfolding read_scalar
read_scalar-frame h t before param left e =
    rw (read_param_bytes-frame h before param left (small t param e), e, ==_refl (sizeof t))

-- An integer in the range of its type, written on one machine, is read on any other as itself,
-- and the reader then stands right behind it.
pub read_scalar-scalar_bytes :
    (w r : Host) (t : Scalar) (v : ℕ) (before left : List ℕ)
    → IsInteger t
    → InRange t v
    → read_scalar r t (reader_at before (frame (scalar_bytes w t v) ++ left))
      ≡ (ok v, reader_at (before ++ frame (scalar_bytes w t v)) left)
read_scalar-scalar_bytes w r t v before left i b = rw (scalar_bytes-be_bytes w t v i b) (
    read_scalar-frame r t before (be_bytes (sizeof t) v) left (length-be_bytes (sizeof t) v)
    ∙ rw (from_network-be_bytes r t v i b))

read_floating :
    (w r : Host) (t : Scalar) (v : ℕ) (before left : List ℕ)
    → IsFloating t
    → (read_scalar r t (reader_at before (frame (scalar_bytes w t v) ++ left))).0
      ≡ ok (load r (image w (sizeof t) v))
read_floating w r t v before left i = rw (
  scalar_bytes-image w t v i,
  read_scalar-frame r t before (image w (sizeof t) v) left (length-image w (sizeof t) v),
  from_network_floating r t (load r (image w (sizeof t) v)) i,
)

abbrev pub same_order : Host → Host → Bool
same_order little little = true
same_order big big = true
same_order _ _ = false

load-image_at :
    (w r : Host) (t : Scalar) (v : ℕ)
    → IsFloating t
    → v < 256 ^ sizeof t
    → load r (image w (sizeof t) v) ≡ (if same_order w r then v else swap_bytes (sizeof t) v)
load-image_at little little t v i b = load-image little t v i b
load-image_at little big t v i b = unfold load image in refl
load-image_at big little t v i b = unfold load image in refl
load-image_at big big t v i b = load-image big t v i b

-- A float or double goes out as it lies in memory: a machine of the same byte order reads back
-- the value, and a machine of the other byte order reads the value with its bytes reversed.
pub read_scalar_floating :
    (w r : Host) (t : Scalar) (v : ℕ) (before left : List ℕ)
    → IsFloating t
    → v < 256 ^ sizeof t
    → (read_scalar r t (reader_at before (frame (scalar_bytes w t v) ++ left))).0
      ≡ ok (if same_order w r then v else swap_bytes (sizeof t) v)
read_scalar_floating w r t v before left i b =
    read_floating w r t v before left i ∙ ap ok (load-image_at w r t v i b)
