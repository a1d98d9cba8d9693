-- ===== src/Domain/Registry/Layers.antt =====
-- The list of layers, against the sources that feed them.
use respondent_community.Common.{
  String, ◌≡◌, ◌≢◌, refl, ◌∙◌, not, Option, none, some, List, [], ◌∷◌, map, arith, contains,
  is_some, string_eq,
}
use respondent_community.Common.Dict
use respondent_community.Common.Dict.{Dict}
use respondent_community.Common.MultiMap.{is_nil, or_nil}
use respondent_community.Domain.Registry.{Registry, all_layer_types, lookup_source_types}
use respondent_community.Domain.Registry.Sources.{IsConsistent}

contains-keys :
    {V : Type 0} (k : String) (m : Dict String V)
    → contains k (map (λ (p : String × V). p.0) m) ≡ Dict.has k m
unfolding Dict.get
contains-keys k [] = refl
contains-keys k ((j, v) ∷ m) = ground (arith, contains-keys k m)

found_full : (o : Option (List String)) → o ≢ some [] → is_some o ≡ not (is_nil (or_nil o))
found_full none h = refl
found_full (some []) h = absurd (h refl)
found_full (some (x ∷ l)) h = refl

module _ {Rest Spec Geo : Type 0} where
  -- In a consistent registry, a layer is among all the layers exactly when a source feeds it.
  pub contains-all_layer_types :
      (r : Registry Rest Spec Geo) (lt : String)
      → IsConsistent r
      → contains lt (all_layer_types r) ≡ not (is_nil (lookup_source_types r lt))
  unfolding all_layer_types lookup_source_types
  contains-all_layer_types r lt v =
      contains-keys lt r.layer_to_sources ∙ found_full (Dict.get lt r.layer_to_sources) (v.full lt)
