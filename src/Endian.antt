-- ===== src/Endian.antt =====
-- The byte order of integers on the wire: htons, htonl and their inverses, the 64-bit
-- htonll_local and ntohll_local of include/obscuraproto/packet.hpp and src/crypto.cpp, and the
-- copies between an integer's memory and a byte vector that the code makes by reinterpret_cast.
-- The byte order of the machine is a parameter, so that both branches of the #if are modelled.
-- An integer of n bytes is a number below 2 ^ (8 * n); a signed one is its bit pattern.
pub mod Laws
use obscura_proto.Common.{ℕ, zero, suc, ◌+◌, ◌*◌, ◌/◌, ◌%◌, ◌^◌, List, [], ◌∷◌, reverse}

pub data Host : Type 0 where
  little big : Host

-- The low n bytes of a number, lowest first.
abbrev pub le_bytes : ℕ → ℕ → List ℕ
le_bytes zero v = []
le_bytes (suc n) v = v % 256 ∷ le_bytes n (v / 256)

abbrev pub load_le : List ℕ → ℕ
load_le [] = 0
load_le (b ∷ bs) = b + 256 * load_le bs

-- The bytes of an integer in memory, from the lowest address on.
unfoldable pub image : Host → ℕ → ℕ → List ℕ
image little n v = le_bytes n v
image big n v = reverse (le_bytes n v)

unfoldable pub load : Host → List ℕ → ℕ
load little bs = load_le bs
load big bs = load_le (reverse bs)

-- The reversal of an integer's bytes.
abbrev pub swap_bytes : ℕ → ℕ → ℕ
swap_bytes n v = load_le (reverse (le_bytes n v))

unfoldable pub htons : Host → ℕ → ℕ
htons little v = swap_bytes 2 v
htons big v = v

unfoldable pub ntohs : Host → ℕ → ℕ
ntohs little v = swap_bytes 2 v
ntohs big v = v

unfoldable pub htonl : Host → ℕ → ℕ
htonl little v = swap_bytes 4 v
htonl big v = v

unfoldable pub ntohl : Host → ℕ → ℕ
ntohl little v = swap_bytes 4 v
ntohl big v = v

-- `((uint64_t) htonl(val) << 32) + htonl(val >> 32)`, where htonl takes the low 32 bits.
unfoldable pub htonll_local : Host → ℕ → ℕ
unfolding htonl
htonll_local little v =
    (htonl little (v % 2 ^ 32) * 2 ^ 32 % 2 ^ 64 + htonl little (v / 2 ^ 32 % 2 ^ 32)) % 2 ^ 64
htonll_local big v = v

unfoldable pub ntohll_local : Host → ℕ → ℕ
unfolding ntohl
ntohll_local little v =
    (ntohl little (v % 2 ^ 32) * 2 ^ 32 % 2 ^ 64 + ntohl little (v / 2 ^ 32 % 2 ^ 32)) % 2 ^ 64
ntohll_local big v = v
