-- ===== src/Tests/Sources.antt =====
-- Mirrors that fail and tokens that expire.
use respondent_community.Common.{
  ◌≡◌, refl, String, true, false, none, some, List, [], ◌∷◌, ◌==◌, string_eq,
}
use respondent_community.Ingest.Mirrors.{
  Request, all_requests, fetch_discovered, after_lookup, each_origin, try_origins, attempt, reset,
}
use respondent_community.Ingest.Tokens.{
  OAuth2Spec, Provider, Grant, get_header, authenticate_exchange,
}

abbrev hosts : List String
hosts = "a" ∷ "b" ∷ "c" ∷ []

abbrev only : String → List String → Request
only name origins = record {
  origins = some origins;
  succeeds = λ o. o == name;
  canceled = λ o. false;
}

abbrev requests : List Request
requests = only "b" hosts ∷ only "b" hosts ∷ only "c" hosts ∷ only "c" hosts ∷ []

abandoned :
    all_requests requests reset
    ≡ attempt hosts 0 "a" false
      ∷ attempt hosts 1 "b" true
      ∷ attempt hosts 1 "b" true
      ∷ attempt hosts 1 "b" false
      ∷ attempt hosts 2 "c" true
      ∷ []
unfolding all_requests fetch_discovered after_lookup each_origin try_origins
abandoned = refl

abbrev swapped : List String
swapped = "b" ∷ "a" ∷ []

-- A lookup that orders the origins anew between two pages moves a pinned index to another origin.
another_origin :
    all_requests (only "a" hosts ∷ only "b" swapped ∷ []) reset
    ≡ attempt hosts 0 "a" true ∷ attempt swapped 0 "b" true ∷ []
unfolding all_requests fetch_discovered after_lookup each_origin try_origins
another_origin = refl

abbrev spec : OAuth2Spec
spec = record { token_header = ""; token_prefix = ""; refresh_before_expiry = 10 }

abbrev unsigned : Provider
unsigned = record { access_token = ""; refresh_token = ""; expires_at = 0 }

abbrev grant : Grant
grant = record { access = "t1"; refresh = some "r1"; expires_in = some 60 }

first_header : get_header spec 5 none (some grant) unsigned ≡ record {
  provider = record { access_token = "t1"; refresh_token = "r1"; expires_at = 60_000_000_005 };
  exchanges = authenticate_exchange ∷ [];
  header = some ("Authorization", "Bearer t1");
}
unfolding get_header
first_header = refl

abbrev token : String
token = "t1"
