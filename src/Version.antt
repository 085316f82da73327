-- ===== src/Version.antt =====
-- VersionNegotiator of src/version.cpp, and the versions of include/obscuraproto/version.hpp.
pub mod Choice
mod Tests
use obscura_proto.Common.{
  ℕ, List, [], ◌∷◌, Option, none, some, Bool, true, false, ◌==◌, if◌then◌else◌,
}

abbrev pub v1_0 : ℕ
v1_0 = 0x0100

abbrev pub v1_1 : ℕ
v1_1 = 0x0101

abbrev pub default_versions : List ℕ
default_versions = v1_1 ∷ v1_0 ∷ []

-- The inner loop: is the version in the list?
unfoldable pub is_supported : ℕ → List ℕ → Bool
is_supported v [] = false
is_supported v (s ∷ ss) = if v == s then true else is_supported v ss

unfoldable pub negotiate : List ℕ → List ℕ → Option ℕ
negotiate [] server = none
negotiate (c ∷ cs) server = if is_supported c server then some c else negotiate cs server
