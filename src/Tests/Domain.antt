-- ===== src/Tests/Domain.antt =====
-- The registry with a few sources.
use respondent_community.Common.{
  ℕ, ◌≡◌, String, none, List, [], ◌∷◌, count, string_eq, if◌then◌else◌,
}
use respondent_community.Domain.Registry.{Registry, new_registry, register, lookup_source_types}
use respondent_community.Domain.Registry.Sources.{IsConsistent, register-IsConsistent, feeds}
use respondent_community.Domain.Registry.History.{
  new_registry-IsConsistent, Change, registered, last_layer, started, count-lookup_source_types,
}

abbrev empty_registry : Registry ℕ ℕ ℕ
empty_registry = new_registry

abbrev one_source : Registry ℕ ℕ ℕ
one_source = register empty_registry "adsb" "flights"

one_source-IsConsistent : IsConsistent one_source
one_source-IsConsistent =
    register-IsConsistent empty_registry "adsb" "flights" new_registry-IsConsistent

register-IsConsistent_example : IsConsistent (register one_source "adsb" "aircraft")
register-IsConsistent_example =
    register-IsConsistent one_source "adsb" "aircraft" one_source-IsConsistent

abbrev moves : List Change
moves =
    registered "adsb" "flights" ∷ registered "opensky" "flights" ∷ registered "adsb" "aircraft" ∷ []

count-lookup_source_types_example :
    count "adsb" (lookup_source_types (started ℕ ℕ ℕ moves) "aircraft")
    ≡ (if feeds (last_layer "adsb" none moves) "aircraft" then 1 else 0)
count-lookup_source_types_example = count-lookup_source_types ℕ ℕ ℕ moves "adsb" "aircraft"

abbrev first_origins : List String
first_origins = "https://a.example" ∷ []

abbrev second_origins : List String
second_origins = "https://b.example" ∷ []
