-- ===== src/Realtime/OnDemand/Merge.antt =====
-- Which entities a fill returns.
use respondent_community.Common.{
  ℕ, ◌+◌, ◌≡◌, refl, ap, String, Bool, true, false, not, ◌&&◌, ◌||◌, Option, none, some, List, [],
  ◌∷◌, if◌then◌else◌, contains, count, count-append, arith, ltb, string_eq, eq_iff, Bool-cases, inl,
  inr,
}
use mathlib.Core.List.{◌++◌}
use respondent_community.Common.Dict.{Dict, has}
use respondent_community.Common.MultiMap.{is_nil}
use respondent_community.Realtime.Client.{Client}
use respondent_community.Realtime.OnDemand.{Entity, Found, external_ids, ids_of, entities_of}
use respondent_community.Realtime.OnDemand.Persist.{Repositories, persisted, rewritten}
use respondent_community.Realtime.OnDemand.Region.{
  all_paired, merge_found, do_on_demand_fetch_core, do_backfill, absent_from, Fill,
  on_demand_allowed, backfill_allowed, on_demand_found, backfill_found, merged_region,
  fetch_sparse_region,
}

abbrev pub or_empty : {P : Type 0} → Option (List (Found P)) → List String
or_empty none = []
or_empty (some rows) = external_ids rows

contains-append :
    (x : String) (xs ys : List String) → contains x (xs ++ ys) ≡ (contains x xs || contains x ys)
contains-append x [] ys = refl
contains-append x (y ∷ xs) ys = ground (arith, contains-append x xs ys)

contains_count : (x : String) (xs : List String) → contains x xs ≡ ltb 0 (count x xs)
contains_count x [] = ground arith
contains_count x (y ∷ xs) = ground (arith, contains_count x xs)

module _ {P : Type 0} where
  -- Of the ids found, those that neither exist nor were seen are merged once.
  count-merge_found :
      (x : String) (existing seen : List String) (found : List (Found P))
      → count x (external_ids (merge_found existing seen found)) ≡ (
          if contains x existing || contains x seen
          then 0
          else if contains x (external_ids found)
          then 1
          else 0)
  unfolding merge_found
  count-merge_found x existing seen [] = ground arith
  count-merge_found x existing seen ((e, o) ∷ found) = ground (
    arith,
    eq_iff e.external_id x,
    count-merge_found x existing seen found,
    count-merge_found x existing (e.external_id ∷ seen) found,
  )

  external_ids-rewritten :
      (ids : Dict String String) (found : List (Found P))
      → external_ids (rewritten ids found) ≡ external_ids found
  external_ids-rewritten ids [] = refl
  external_ids-rewritten ids ((e, o) ∷ found) =
      ap (λ l. e.external_id ∷ l) (external_ids-rewritten ids found)

  external_ids-persisted :
      (repos : Repositories) (found : List (Found P))
      → external_ids (persisted repos found) ≡ external_ids found
  unfolding persisted
  external_ids-persisted repos found =
      elim (Bool-cases (repos.has_observations && repos.has_entities)) [
        | inl on ↦ rw on (external_ids-rewritten _ found)
        | inr off ↦ rw off refl
      ]

  count-do_backfill :
      (x : String) (existing : List String) (rows : List (Found P))
      → count x (external_ids (do_backfill existing (some rows)))
        ≡ (if contains x existing then 0 else count x (external_ids rows))
  unfolding do_backfill
  count-do_backfill x existing [] = ground arith
  count-do_backfill x existing ((e, o) ∷ rows) =
      ground (arith, eq_iff e.external_id x, count-do_backfill x existing rows)

  count-absent_from :
      (x : String) (ids : List String) (found : List (Found P))
      → count x (external_ids (absent_from ids found))
        ≡ (if contains x ids then 0 else count x (external_ids found))
  count-absent_from x ids [] = ground arith
  count-absent_from x ids ((e, o) ∷ found) =
      ground (arith, eq_iff e.external_id x, count-absent_from x ids found)

  ids_of-entities_of : (found : List (Found P)) → ids_of (entities_of found) ≡ external_ids found
  ids_of-entities_of [] = refl
  ids_of-entities_of ((e, o) ∷ found) = ap (λ l. e.external_id ∷ l) (ids_of-entities_of found)

  ids_of-append : (es fs : List (Entity P)) → ids_of (es ++ fs) ≡ ids_of es ++ ids_of fs
  ids_of-append [] fs = refl
  ids_of-append (e ∷ es) fs = ap (λ l. e.external_id ∷ l) (ids_of-append es fs)

  count-merged_region :
      (x : String) (cache : List (Entity P)) (live stale : List (Found P))
      → count x (ids_of (merged_region cache live stale).0)
        ≡ count x (ids_of cache)
          + count x (external_ids live)
          + (if contains x (ids_of cache) || contains x (external_ids live)
              then 0
              else count x (external_ids stale))
  count-merged_region x cache live stale =
      let added = absent_from (ids_of cache ++ external_ids live) stale in
      rw
        (
          ids_of-append, ids_of-append, ids_of-entities_of, ids_of-entities_of, count-append,
          count-append, count-absent_from, contains-append,
        )
        (omega arith)

module _ {P : Type 0} (fill : Fill P) where
  -- The ids that the cells found for a layer with an API, when there is a parser.
  abbrev pub live_ids : String → Bool → List String
  live_ids layer_type allowed =
      if allowed && (has layer_type fill.on_demand.layer_apis && fill.parser)
      then external_ids (all_paired fill.results)
      else []

  -- The ids of the store's rows.
  abbrev pub stored_ids : Bool → List String
  stored_ids allowed = if allowed then or_empty fill.rows else []

  count-on_demand_found :
      (x layer_type : String) (cache : List (Entity P)) (allowed : Bool)
      → count x (external_ids (on_demand_found fill layer_type cache allowed)) ≡ (
          if contains x (ids_of cache)
          then 0
          else if contains x (live_ids layer_type allowed)
          then 1
          else 0)
  unfolding on_demand_found do_on_demand_fetch_core
  count-on_demand_found x layer_type cache allowed =
      let found = merge_found (ids_of cache) [] (all_paired fill.results) in
      ground (
        arith,
        ap (count x) (external_ids-persisted fill.repos found),
        count-merge_found x (ids_of cache) [] (all_paired fill.results),
      )

  count-rows :
      (x : String) (existing : List String) (rows : Option (List (Found P)))
      → count x (external_ids (do_backfill existing rows))
        ≡ (if contains x existing then 0 else count x (or_empty rows))
  count-rows x existing none = unfold do_backfill in ground arith
  count-rows x existing (some rows) = count-do_backfill x existing rows

  count-backfill_found :
      (x : String) (cache : List (Entity P)) (allowed : Bool)
      → count x (external_ids (backfill_found fill cache allowed))
        ≡ (if contains x (ids_of cache) then 0 else count x (stored_ids allowed))
  unfolding backfill_found
  count-backfill_found x cache true = count-rows x (ids_of cache) fill.rows
  count-backfill_found x cache false = ground arith

module _ {F P : Type 0} (fill : Fill P) (layer layer_type : String) (now : ℕ) (c : Client F) where
  abbrev pub asked : Client F × Bool
  asked = on_demand_allowed fill layer layer_type now c

  abbrev pub answered : List (Entity P) → Client F × Bool
  answered cache = backfill_allowed fill layer layer_type now (not (is_nil cache)) asked.0

  -- The entities of a sparse region, as many times as each external id occurs: those of the cache,
  -- then once each that the cells found and the cache does not have, and then those rows of the store
  -- that neither has, where the on-demand fetch and the backfill are allowed.
  pub count-fetch_sparse_region :
      (x : String) (cache : List (Entity P))
      → count x (ids_of (fetch_sparse_region fill layer layer_type now c cache).1)
        ≡ count x (ids_of cache)
          + (if contains x (ids_of cache)
              then 0
              else if contains x (live_ids fill layer_type asked.1)
              then 1
              else count x (stored_ids fill (answered cache).1))
  unfolding fetch_sparse_region
  count-fetch_sparse_region x cache =
      let live = on_demand_found fill layer_type cache asked.1 in
      let stale = backfill_found fill cache (answered cache).1 in
      let a = count-merged_region x cache live stale in
      let b = count-on_demand_found fill x layer_type cache asked.1 in
      let d = count-backfill_found fill x cache (answered cache).1 in
      let e = contains_count x (external_ids live) in ground (arith, a, b, d, e)
