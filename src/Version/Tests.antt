-- ===== src/Version/Tests.antt =====
-- Negotiations between concrete lists.
use obscura_proto.Common.{◌≤◌, ◌≡◌, refl, inl, inr, [], ◌∷◌, none, some, arith}
use obscura_proto.Version.{v1_0, v1_1, default_versions, is_supported, negotiate}
use obscura_proto.Version.Choice.{Negotiated, negotiate-Negotiated, negotiate_highest}

default_test : negotiate default_versions default_versions ≡ some v1_1
unfolding negotiate is_supported
default_test = refl

old_server_test : negotiate default_versions (v1_0 ∷ []) ≡ some v1_0
unfolding negotiate is_supported
old_server_test = refl

no_common_test : negotiate (v1_1 ∷ []) (v1_0 ∷ []) ≡ none
unfolding negotiate is_supported
no_common_test = refl

negotiate-Negotiated_example :
    Negotiated default_versions (v1_0 ∷ []) (negotiate default_versions (v1_0 ∷ []))
negotiate-Negotiated_example = negotiate-Negotiated default_versions (v1_0 ∷ [])

negotiate_highest_example : v1_0 ≤ v1_1
negotiate_highest_example =
    negotiate_highest default_versions default_versions v1_1 v1_0
      (λ w h. ground arith, (λ w h. absurd h, tt)) default_test (inr (inl refl)) (inr (inl refl))
