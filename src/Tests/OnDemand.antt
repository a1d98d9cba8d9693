-- ===== src/Tests/OnDemand.antt =====
-- A sparse region with one cached entity.
use respondent_community.Common.{
  ℕ, ◌+◌, ◌≡◌, refl, String, true, none, some, [], ◌∷◌, count, contains, All, List, string_eq,
  if◌then◌else◌,
}
use respondent_community.Common.Int.{pos}
use respondent_community.Realtime.OnDemand.Tickers.{
  Call, start, stop, calls, no_tickers, call, start_on_demand_ticker, stop_on_demand_ticker,
}
use respondent_community.Realtime.OnDemand.Tickers.Matched.{Matched, calls-Matched}
use respondent_community.Realtime.OnDemand.Persist.{
  Directory, persist_on_demand, IsWritten, persist_on_demand-IsWritten,
}
use respondent_community.Realtime.Client.{Client, new_client, can_on_demand, can_backfill, cooldown}
use respondent_community.Common.Dict.{get, put}
use respondent_community.Realtime.OnDemand.{Observation, Entity, Found, ids_of}
use respondent_community.Realtime.OnDemand.Region.{Fill, fetch_sparse_region}
use respondent_community.Realtime.OnDemand.Merge.{
  live_ids, stored_ids, asked, answered, count-fetch_sparse_region,
}

abbrev plane : String → Entity ℕ
plane n = record { external_id = n; layer_type = "flights"; id = ""; source = ""; rest = 0 }

abbrev seen : String → Found ℕ
seen n = (plane n, record { entity_id = ""; source = ""; rest = 1 })

abbrev fill : Fill ℕ
fill = record {
  on_demand = record {
    enabled = true;
    layer_apis = ("flights", "http://api/{lat}/{lon}") ∷ [];
    cooldown = 10;
  };
  backfill = record { enabled = true; cooldown = 5; thresholds = [] };
  parser = true;
  repos = record {
    has_entities = true;
    has_observations = true;
    directory = λ layer externals. some (("b", "id-b") ∷ []);
  };
  results =
      record {
        entities = some (plane "a") ∷ none ∷ some (plane "b") ∷ [];
        observations = (seen "a").1 ∷ (seen "x").1 ∷ (seen "b").1 ∷ [];
      }
      ∷ record { entities = some (plane "b") ∷ []; observations = (seen "b").1 ∷ [] }
      ∷ [];
  rows = some (seen "b" ∷ seen "c" ∷ []);
}

abbrev name : String
name = "b"

abbrev client : Client ℕ
client = new_client

three_planes :
    ids_of (fetch_sparse_region fill "l1" "flights" 100 client (plane "a" ∷ [])).1
    ≡ "a" ∷ "b" ∷ "c" ∷ []
unfolding fetch_sparse_region get can_on_demand cooldown new_client can_backfill
three_planes = refl

-- The live one is under the id in the store.
stored_id :
    (fetch_sparse_region fill "l1" "flights" 100 client (plane "a" ∷ [])).2
    ≡ record { entity_id = "id-b"; source = "live"; rest = 1 }
      ∷ record { entity_id = "flights:c"; source = "stale"; rest = 1 }
      ∷ []
unfolding fetch_sparse_region get put can_on_demand cooldown new_client can_backfill
stored_id = refl

count-fetch_sparse_region_example :
    count name (ids_of (fetch_sparse_region fill "l1" "flights" 100 client (plane "a" ∷ [])).1)
    ≡ count name ("a" ∷ [])
      + (if contains name ("a" ∷ [])
          then 0
          else if contains name (live_ids fill "flights" (asked fill "l1" "flights" 100 client).1)
          then 1
          else count name
              (stored_ids fill (answered fill "l1" "flights" 100 client (plane "a" ∷ [])).1))
count-fetch_sparse_region_example =
    count-fetch_sparse_region fill "l1" "flights" 100 client name (plane "a" ∷ [])

abbrev moves : List Call
moves = start "l1" (pos 5) ∷ start "l1" (pos 5) ∷ start "l2" (pos 5) ∷ stop "l1" ∷ []

two_polls : (calls (start "l1" (pos 5) ∷ start "l2" (pos 5) ∷ []) no_tickers).live ≡ 1 ∷ 0 ∷ []
unfolding calls call start_on_demand_ticker stop_on_demand_ticker get put
two_polls = refl

calls-Matched_example : Matched (calls moves no_tickers)
calls-Matched_example = calls-Matched moves

abbrev directory : Directory
directory layer externals = some (("a", "id-1") ∷ [])

abbrev observed : String → Observation ℕ
observed id = record { entity_id = id; source = "live"; rest = 0 }

stored_only :
    persist_on_demand true true directory
      (plane "a" ∷ plane "b" ∷ [])
      (observed "flights:a" ∷ observed "flights:b" ∷ [])
    ≡ observed "id-1" ∷ []
unfolding persist_on_demand get put
stored_only = refl

persist_on_demand-IsWritten_example :
    All
      (IsWritten directory (observed "flights:a" ∷ []))
      (persist_on_demand true true directory (plane "a" ∷ []) (observed "flights:a" ∷ []))
persist_on_demand-IsWritten_example =
    persist_on_demand-IsWritten directory true true (plane "a" ∷ []) (observed "flights:a" ∷ [])
