-- ===== src/Realtime/OnDemand/Region.antt =====
-- internal/realtime/ondemand.go: the fill of a sparse viewport. What the cells of the viewport gave, in
-- the order in which their fetches ended, and the rows of the store are given.
use respondent_community.Common.{
  ℕ, String, Bool, false, not, ◌&&◌, ◌||◌, Option, none, some, List, [], ◌∷◌, if◌then◌else◌,
  contains, string_eq,
}
use mathlib.Core.List.{◌++◌ as append}
use respondent_community.Common.Dict.{has}
use respondent_community.Common.MultiMap.{is_nil}
use respondent_community.Realtime.Client.{Client, can_backfill, can_on_demand}
use respondent_community.Realtime.OnDemand.{
  Entity, Observation, Found, entity_id, FetchResult, BackfillConfig, OnDemandConfig, external_ids,
  ids_of, entities_of, observations_of,
}
use respondent_community.Realtime.OnDemand.Persist.{Repositories, persisted}

module _ {P : Type 0} where
  -- The entity and its observation under the composite id, with their source.
  abbrev pub tagged : String → Entity P → Observation P → Found P
  tagged source e o =
      let id = entity_id e.layer_type e.external_id in
      (record e { source = source; id = id }, record o { source = source; entity_id = id })

  -- The entities of a cell that have an observation.
  abbrev pub paired : List (Option (Entity P)) → List (Observation P) → List (Found P)
  paired [] obs = []
  paired (e ∷ es) [] = []
  paired (none ∷ es) (o ∷ obs) = paired es obs
  paired (some e ∷ es) (o ∷ obs) = (e, o) ∷ paired es obs

  abbrev pub all_paired : List (FetchResult P) → List (Found P)
  all_paired [] = []
  all_paired (r ∷ results) = append (paired r.entities r.observations) (all_paired results)

  -- The new ones, without those that exist or were seen.
  unfoldable pub merge_found : List String → List String → List (Found P) → List (Found P)
  merge_found existing seen [] = []
  merge_found existing seen ((e, o) ∷ found) =
      let skipped = merge_found existing seen found in
      let taken = tagged "live" e o ∷ merge_found existing (e.external_id ∷ seen) found in
      if contains e.external_id existing || contains e.external_id seen then skipped else taken

  -- `parser` says whether one is configured.
  unfoldable pub do_on_demand_fetch_core :
      OnDemandConfig
      → Bool
      → Repositories
      → String
      → List String
      → List (FetchResult P)
      → List (Found P)
  unfolding merge_found persisted
  do_on_demand_fetch_core config parser repos layer_type existing results =
      if not (has layer_type config.layer_apis)
      then []
      else if not parser
      then []
      else persisted repos (merge_found existing [] (all_paired results))

  -- `rows` is `none` when the query failed.
  unfoldable pub do_backfill : List String → Option (List (Found P)) → List (Found P)
  do_backfill existing none = []
  do_backfill existing (some []) = []
  do_backfill existing (some ((e, o) ∷ rows)) =
      let rest = do_backfill existing (some rows) in
      if contains e.external_id existing then rest else tagged "stale" e o ∷ rest

  -- The found ones whose external id is not listed.
  abbrev pub absent_from : List String → List (Found P) → List (Found P)
  absent_from ids [] = []
  absent_from ids ((e, o) ∷ found) =
      let rest = absent_from ids found in
      if not (contains e.external_id ids) then (e, o) ∷ rest else rest

-- What a fill works with: the configurations, whether there is a parser, the repositories, the
-- cells' results, and the store's rows.
pub record Fill (P : Type 0) : Type 0 where
  pub on_demand : OnDemandConfig
  pub backfill : BackfillConfig
  pub parser : Bool
  pub repos : Repositories
  pub results : List (FetchResult P)
  pub rows : Option (List (Found P))

abbrev pub second : ℕ
second = 1_000_000_000

module _ {P : Type 0} where
  -- The entities of the region, and the observations of those that are not from the cache.
  abbrev pub merged_region :
      List (Entity P) → List (Found P) → List (Found P) → List (Entity P) × List (Observation P)
  merged_region cache live stale =
      let added = absent_from (append (ids_of cache) (external_ids live)) stale in
      (
        append cache (append (entities_of live) (entities_of added)),
        append (observations_of live) (observations_of added),
      )

module _ {P : Type 0} (fill : Fill P) where
  unfoldable pub on_demand_found : String → List (Entity P) → Bool → List (Found P)
  unfolding do_on_demand_fetch_core
  on_demand_found layer_type cache allowed =
      if allowed
      then do_on_demand_fetch_core fill.on_demand fill.parser fill.repos layer_type (ids_of cache)
          fill.results
      else []

  unfoldable pub backfill_found : List (Entity P) → Bool → List (Found P)
  unfolding do_backfill
  backfill_found cache allowed = if allowed then do_backfill (ids_of cache) fill.rows else []

module _ {F P : Type 0} (fill : Fill P) (layer layer_type : String) (now : ℕ) where
  -- The guards of the on-demand fetch, and the client after its cooldown was asked.
  unfoldable pub on_demand_allowed : Client F → Client F × Bool
  on_demand_allowed c =
      if not fill.on_demand.enabled
      then (c, false)
      else if not (has layer_type fill.on_demand.layer_apis)
      then (c, false)
      else can_on_demand c layer fill.on_demand.cooldown now

  -- `cached` is whether the cache has entities.
  unfoldable pub backfill_allowed : Bool → Client F → Client F × Bool
  backfill_allowed cached c =
      if fill.backfill.enabled && fill.repos.has_observations
      then can_backfill c layer (if cached then fill.backfill.cooldown else second) now
      else (c, false)

  unfoldable pub fetch_sparse_region :
      Client F → List (Entity P) → Client F × List (Entity P) × List (Observation P)
  unfolding on_demand_allowed backfill_allowed on_demand_found backfill_found
  fetch_sparse_region c cache =
      let (asked, live) = on_demand_allowed c in
      let (done, stale) = backfill_allowed (not (is_nil cache)) asked in
      let (entities, observations) =
        merged_region cache (on_demand_found fill layer_type cache live)
          (backfill_found fill cache stale) in
      (done, entities, observations)
