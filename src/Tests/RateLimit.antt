-- ===== src/Tests/RateLimit.antt =====
-- A host that is asked for before it is limited.
use respondent_community.Common.{ℕ, ◌≡◌, refl, Bool, none, some, List, [], ◌∷◌, ltb}
use respondent_community.Common.Dict.{get, put, remove}
use respondent_community.Common.Int.{pos}
use respondent_community.RateLimit.{new_transport, bucket_for, set_host_limit}
use respondent_community.RateLimit.Buckets.{
  Use, limit, request, apply_all, apply, last_limit, bucket_for-apply_all,
}

abbrev is_positive : ℕ → Bool
is_positive n = ltb 0 n

abbrev uses : List (Use ℕ)
uses = request "api" ∷ limit "api" 2 (pos 0) ∷ limit "api" 0 (pos 9) ∷ request "api" ∷ []

limited_once :
    (bucket_for "api" (apply_all is_positive uses new_transport)).1
    ≡ some (record { rate = 2; burst = pos 1 })
unfolding bucket_for apply_all apply set_host_limit new_transport get put remove
limited_once = refl

bucket_for-apply_all_example :
    (bucket_for "api" (apply_all is_positive uses new_transport)).1
    ≡ last_limit is_positive "api" uses none
bucket_for-apply_all_example = bucket_for-apply_all is_positive uses "api"
