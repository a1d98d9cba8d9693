-- ===== src/Domain/Registry.antt =====
-- internal/domain/dynamic_registry.go: the state of the `DynamicSourceRegistry` and its operations.
-- Source and layer types are strings. `Rest` stands for the rendering fields of a display
-- configuration that no operation reads, `Spec` and `Geo` for the two payloads that the registry only
-- keeps. The mutex makes each operation one step.
pub mod Sources
pub mod History
pub mod Media
pub mod Style
pub mod Layers
use respondent_community.Common.{
  ℕ, String, Bool, true, false, not, ◌&&◌, Option, none, some, List, [], ◌∷◌, ◌++◌, map, contains,
  erase, length, if◌then◌else◌, ltb, string_eq, ◌==◌,
}
use respondent_community.Common.Dict
use respondent_community.Common.Dict.{Dict}
use respondent_community.Common.MultiMap
use respondent_community.Common.Int.{ℤ}

pub record StyleConfig : Type 0 where
  pub color : String
  pub point_size : ℤ

pub record MediaConfig (Rest : Type 0) : Type 0 where
  pub id : String
  pub allowed_origins : List String
  pub rest : Rest

pub record DisplayConfig (Rest : Type 0) : Type 0 where
  pub style : Option StyleConfig
  pub media : List (MediaConfig Rest)
  pub rest : Rest

pub record HistoryConfig : Type 0 where
  pub max_lookback_hours : ℤ
  pub max_range_span_hours : ℤ

pub record Registry (Rest Spec Geo : Type 0) : Type 0 where
  pub source_to_layer : Dict String String
  pub layer_to_sources : Dict String (List String)
  pub display_configs : Dict String (DisplayConfig Rest)
  pub filtering_modes : Dict String String
  pub backfill_thresholds : Dict String ℤ
  pub on_demand_urls : Dict String String
  pub history_configs : Dict String HistoryConfig
  pub cache_ttls : Dict String ℤ
  pub rendering_modes : Dict String String
  pub indicator_specs : Dict String Spec
  pub geo_cache_configs : Dict String Geo
  pub layer_display_names : Dict String String

-- The first step of `Register`: a source that moves to another layer leaves its old one.
unfoldable pub leave_old_layer :
    String → String → Option String → Dict String (List String) → Dict String (List String)
leave_old_layer st lt none m = m
leave_old_layer st lt (some old) m = if old == lt then m else MultiMap.remove_value old st m

-- The last step: the source is appended unless it is there.
unfoldable pub add_source : String → String → Dict String (List String) → Dict String (List String)
add_source st lt m =
    let sources = MultiMap.values lt m in
    if contains st sources then m else Dict.put lt (sources ++ st ∷ []) m

unfoldable pub indicator_keys : Dict String String → List String
indicator_keys [] = []
indicator_keys ((lt, mode) ∷ m) =
    if mode == "indicator" then lt ∷ indicator_keys m else indicator_keys m

module _ {Rest Spec Geo : Type 0} where
  unfoldable pub new_registry : Registry Rest Spec Geo
  new_registry = record {
    source_to_layer = [];
    layer_to_sources = [];
    display_configs = [];
    filtering_modes = [];
    backfill_thresholds = [];
    on_demand_urls = [];
    history_configs = [];
    cache_ttls = [];
    rendering_modes = [];
    indicator_specs = [];
    geo_cache_configs = [];
    layer_display_names = [];
  }

  unfoldable pub register : Registry Rest Spec Geo → String → String → Registry Rest Spec Geo
  register r st lt =
      let left = leave_old_layer st lt (Dict.get st r.source_to_layer) r.layer_to_sources in
      record r {
        source_to_layer = Dict.put st lt r.source_to_layer;
        layer_to_sources = add_source st lt left;
      }

  unfoldable pub unregister : Registry Rest Spec Geo → String → Registry Rest Spec Geo
  unregister r st = elim (Dict.get st r.source_to_layer) [
    | none ↦ r
    | some lt ↦ record r {
      source_to_layer = Dict.remove st r.source_to_layer;
      layer_to_sources = MultiMap.remove_value lt st r.layer_to_sources;
    }
  ]

  unfoldable pub lookup_layer_type : Registry Rest Spec Geo → String → Option String
  lookup_layer_type r st = Dict.get st r.source_to_layer

  unfoldable pub is_registered : Registry Rest Spec Geo → String → Bool
  is_registered r st = Dict.has st r.source_to_layer

  unfoldable pub lookup_source_types : Registry Rest Spec Geo → String → List String
  lookup_source_types r lt = MultiMap.values lt r.layer_to_sources

  -- `AllLayerTypes`: the keys of `layerToSources`.
  unfoldable pub all_layer_types : Registry Rest Spec Geo → List String
  all_layer_types r = map (λ (p : String × List String). p.0) r.layer_to_sources

  unfoldable pub set_filtering_mode :
      Registry Rest Spec Geo → String → String → Registry Rest Spec Geo
  set_filtering_mode r lt mode = record r { filtering_modes = Dict.put lt mode r.filtering_modes }

  unfoldable pub lookup_filtering_mode : Registry Rest Spec Geo → String → Option String
  lookup_filtering_mode r lt = Dict.get lt r.filtering_modes

  unfoldable pub set_rendering_mode :
      Registry Rest Spec Geo → String → String → Registry Rest Spec Geo
  set_rendering_mode r lt mode = record r { rendering_modes = Dict.put lt mode r.rendering_modes }

  unfoldable pub lookup_rendering_mode : Registry Rest Spec Geo → String → Option String
  lookup_rendering_mode r lt = Dict.get lt r.rendering_modes

  unfoldable pub set_history_config :
      Registry Rest Spec Geo → String → HistoryConfig → Registry Rest Spec Geo
  set_history_config r lt hc = record r { history_configs = Dict.put lt hc r.history_configs }

  unfoldable pub lookup_history_config : Registry Rest Spec Geo → String → Option HistoryConfig
  lookup_history_config r lt = Dict.get lt r.history_configs

  unfoldable pub lookup_display_config :
      Registry Rest Spec Geo → String → Option (DisplayConfig Rest)
  lookup_display_config r lt = Dict.get lt r.display_configs

  -- `AllIndicatorLayerTypes`
  unfoldable pub all_indicator_layer_types : Registry Rest Spec Geo → List String
  unfolding indicator_keys
  all_indicator_layer_types r = indicator_keys r.rendering_modes

  unfoldable pub all_source_types : Registry Rest Spec Geo → Dict String String
  all_source_types r = r.source_to_layer

  unfoldable pub set_layer_display_name :
      Registry Rest Spec Geo → String → String → Registry Rest Spec Geo
  set_layer_display_name r lt name = record r {
    layer_display_names = Dict.put lt name r.layer_display_names;
  }

  unfoldable pub lookup_layer_display_name : Registry Rest Spec Geo → String → Option String
  lookup_layer_display_name r lt = Dict.get lt r.layer_display_names

  unfoldable pub set_backfill_threshold :
      Registry Rest Spec Geo → String → ℤ → Registry Rest Spec Geo
  set_backfill_threshold r lt threshold = record r {
    backfill_thresholds = Dict.put lt threshold r.backfill_thresholds;
  }

  unfoldable pub lookup_backfill_threshold : Registry Rest Spec Geo → String → Option ℤ
  lookup_backfill_threshold r lt = Dict.get lt r.backfill_thresholds

  unfoldable pub set_on_demand_url :
      Registry Rest Spec Geo → String → String → Registry Rest Spec Geo
  set_on_demand_url r lt url = record r { on_demand_urls = Dict.put lt url r.on_demand_urls }

  unfoldable pub lookup_on_demand_url : Registry Rest Spec Geo → String → Option String
  lookup_on_demand_url r lt = Dict.get lt r.on_demand_urls

  unfoldable pub set_cache_ttl : Registry Rest Spec Geo → String → ℤ → Registry Rest Spec Geo
  set_cache_ttl r lt ttl = record r { cache_ttls = Dict.put lt ttl r.cache_ttls }

  unfoldable pub set_indicator_spec :
      Registry Rest Spec Geo → String → Spec → Registry Rest Spec Geo
  set_indicator_spec r lt spec = record r { indicator_specs = Dict.put lt spec r.indicator_specs }

  unfoldable pub lookup_indicator_spec : Registry Rest Spec Geo → String → Option Spec
  lookup_indicator_spec r lt = Dict.get lt r.indicator_specs

  unfoldable pub set_geo_cache_config :
      Registry Rest Spec Geo → String → Geo → Registry Rest Spec Geo
  set_geo_cache_config r lt cfg = record r {
    geo_cache_configs = Dict.put lt cfg r.geo_cache_configs;
  }

  unfoldable pub lookup_geo_cache_config : Registry Rest Spec Geo → String → Option Geo
  lookup_geo_cache_config r lt = Dict.get lt r.geo_cache_configs

  -- `AllFilteringModes`, `AllBackfillThresholds`, `AllOnDemandURLs` and `AllCacheTTLs`: copies.
  unfoldable pub all_filtering_modes : Registry Rest Spec Geo → Dict String String
  all_filtering_modes r = r.filtering_modes

  unfoldable pub all_backfill_thresholds : Registry Rest Spec Geo → Dict String ℤ
  all_backfill_thresholds r = r.backfill_thresholds

  unfoldable pub all_on_demand_urls : Registry Rest Spec Geo → Dict String String
  all_on_demand_urls r = r.on_demand_urls

  unfoldable pub all_cache_ttls : Registry Rest Spec Geo → Dict String ℤ
  all_cache_ttls r = r.cache_ttls
