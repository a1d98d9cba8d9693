-- ===== src/Realtime/OnDemand.antt =====
-- internal/realtime/ondemand.go: the data of the fill of a sparse viewport. `P` is the rest of an entity
-- or observation.
pub mod Persist
pub mod Region
pub mod Merge
pub mod Tickers
use Prim.Native.String.{◌++◌}
use respondent_community.Common.{ℕ, String, Bool, Option, none, some, List, [], ◌∷◌, map, string_eq}
use respondent_community.Common.Dict.{Dict, get}

pub record Entity (P : Type 0) : Type 0 where
  pub external_id : String
  pub layer_type : String
  pub id : String
  pub source : String
  pub rest : P

pub record Observation (P : Type 0) : Type 0 where
  pub entity_id : String
  pub source : String
  pub rest : P

-- An entity and its observation.
abbrev pub Found : Type 0 → Type 0
Found P = Entity P × Observation P

-- `domain.EntityID`
abbrev pub entity_id : String → String → String
entity_id layer external = layer ++ (":" ++ external)

-- What the fetch of one cell gave; an entity may be nil.
pub record FetchResult (P : Type 0) : Type 0 where
  pub entities : List (Option (Entity P))
  pub observations : List (Observation P)

pub record BackfillConfig : Type 0 where
  pub enabled : Bool
  pub cooldown : ℕ
  pub thresholds : Dict String ℕ

pub record OnDemandConfig : Type 0 where
  pub enabled : Bool
  pub layer_apis : Dict String String
  pub cooldown : ℕ

unfoldable pub get_backfill_threshold : BackfillConfig → String → ℕ
get_backfill_threshold config layer_type = elim (get layer_type config.thresholds) [
  | some t ↦ t
  | none ↦ 10
]

module _ {P : Type 0} where
  abbrev pub external_ids : List (Found P) → List String
  external_ids [] = []
  external_ids ((e, o) ∷ found) = e.external_id ∷ external_ids found

  abbrev pub ids_of : List (Entity P) → List String
  ids_of [] = []
  ids_of (e ∷ es) = e.external_id ∷ ids_of es

  abbrev pub entities_of : List (Found P) → List (Entity P)
  entities_of found = map (λ (p : Found P). p.0) found

  abbrev pub observations_of : List (Found P) → List (Observation P)
  observations_of found = map (λ (p : Found P). p.1) found
