-- ===== src/Realtime/OnDemand/Persist.antt =====
-- internal/realtime/ondemand.go: `persistOnDemand`. The store's batch lookup of a layer's external ids
-- is a parameter: it fails, or gives external ids with the ids of the stored entities.
use respondent_community.Common.{
  ◌≡◌, refl, ◌⊎◌, ap, sym, String, Bool, ◌&&◌, Option, none, some, List, [], ◌∷◌, if◌then◌else◌,
  All, arith, string_eq, Bool-cases, inl, inr,
}
use respondent_community.Common.Dict.{Dict, get, put, get-put_found, get-empty}
use respondent_community.Common.MultiMap.{values}
use mathlib.Core.List.{◌++◌ as append}
use respondent_community.Realtime.OnDemand.{Entity, Observation, Found, entity_id, entities_of}

abbrev pub Directory : Type 0
Directory = String → List String → Option (List (String × String))

module _ {P : Type 0} where
  -- The external ids of each layer.
  unfoldable pub by_layer : List (Entity P) → Dict String (List String) → Dict String (List String)
  by_layer [] layers = layers
  by_layer (e ∷ es) layers =
      by_layer es
        (put e.layer_type (append (values e.layer_type layers) (e.external_id ∷ [])) layers)

abbrev pub add_stored : String → List (String × String) → Dict String String → Dict String String
add_stored layer [] ids = ids
add_stored layer ((external, id) ∷ stored) ids =
    add_stored layer stored (put (entity_id layer external) id ids)

abbrev pub or_none : Option (List (String × String)) → List (String × String)
or_none none = []
or_none (some stored) = stored

-- The ids in the store by the composite ids, for the layers whose lookup does not fail.
unfoldable pub uuid_map :
    Directory → Dict String (List String) → Dict String String → Dict String String
uuid_map lookup [] ids = ids
uuid_map lookup ((layer, externals) ∷ layers) ids =
    uuid_map lookup layers (add_stored layer (or_none (lookup layer externals)) ids)

module _ {P : Type 0} where
  abbrev pub under : Observation P → Option String → List (Observation P) → List (Observation P)
  under o none rest = rest
  under o (some id) rest = record o { entity_id = id } ∷ rest

  -- The observations of stored entities, under the ids in the store.
  unfoldable pub valid_observations :
      Dict String String → List (Observation P) → List (Observation P)
  valid_observations ids [] = []
  valid_observations ids (o ∷ obs) = under o (get o.entity_id ids) (valid_observations ids obs)

  -- The observations that are written; none when a repository is missing.
  unfoldable pub persist_on_demand :
      Bool → Bool → Directory → List (Entity P) → List (Observation P) → List (Observation P)
  unfolding by_layer uuid_map valid_observations
  persist_on_demand has_entities has_observations lookup entities obs =
      if has_observations && has_entities
      then valid_observations (uuid_map lookup (by_layer entities []) []) obs
      else []

-- Which repositories there are, and the lookup of the entities'.
pub record Repositories : Type 0 where
  pub has_entities : Bool
  pub has_observations : Bool
  pub directory : Directory

abbrev pub id_after : String → Option String → String
id_after composite none = composite
id_after composite (some id) = id

module _ {P : Type 0} where
  -- The found ones after the write, which changes the observations that it is given.
  abbrev pub rewritten : Dict String String → List (Found P) → List (Found P)
  rewritten ids [] = []
  rewritten ids ((e, o) ∷ found) =
      (e, record o { entity_id = id_after o.entity_id (get o.entity_id ids) }) ∷ rewritten ids found

  unfoldable pub persisted : Repositories → List (Found P) → List (Found P)
  unfolding by_layer uuid_map
  persisted repos found =
      if repos.has_observations && repos.has_entities
      then rewritten (uuid_map repos.directory (by_layer (entities_of found) []) []) found
      else found

abbrev pub Listed : {A : Type 0} → A → List A → Type 0
Listed a [] = ⊥
Listed a (x ∷ xs) = (a ≡ x) ⊎ Listed a xs

-- The store gave this id for an external id of a layer that was asked for.
pub record IsStored (lookup : Directory) (composite id : String) : Type 0 where
  pub layer : String
  pub external : String
  pub asked : List String
  pub given : List (String × String)
  pub answer : lookup layer asked ≡ some given
  pub listed : Listed (external, id) given
  pub named : composite ≡ entity_id layer external

module _ (lookup : Directory) where
  abbrev AllStored : Dict String String → Type 0
  AllStored ids = (c id : String) → get c ids ≡ some id → IsStored lookup c id

  add_stored-AllStored :
      (layer : String) (asked : List String) (given stored : List (String × String))
      (ids : Dict String String)
      → lookup layer asked ≡ some given
      → ((p : String × String) → Listed p stored → Listed p given)
      → AllStored ids
      → AllStored (add_stored layer stored ids)
  add_stored-AllStored layer asked given [] ids e sub h = h
  add_stored-AllStored layer asked given ((external, id) ∷ stored) ids e sub h =
      add_stored-AllStored layer asked given stored (put (entity_id layer external) id ids) e
        (λ p l. sub p (inr l))
        (λ c j g. elim (get-put_found (entity_id layer external) c id j ids g) [
          | inl (composite, same) ↦ record {
            layer = layer;
            external = external;
            asked = asked;
            given = given;
            answer = e;
            listed = sub (external, j) (inl (ap (λ i. (external, i)) (sym same)));
            named = sym composite;
          }
          | inr old ↦ h c j old
        ])

  layer-AllStored :
      (layer : String) (asked : List String) (o : Option (List (String × String)))
      (ids : Dict String String)
      → lookup layer asked ≡ o
      → AllStored ids
      → AllStored (add_stored layer (or_none o) ids)
  layer-AllStored layer asked none ids e h = h
  layer-AllStored layer asked (some given) ids e h =
      add_stored-AllStored layer asked given given ids e (λ p l. l) h

  uuid_map-AllStored :
      (layers : Dict String (List String)) (ids : Dict String String)
      → AllStored ids
      → AllStored (uuid_map lookup layers ids)
  unfolding uuid_map
  uuid_map-AllStored [] ids h = h
  uuid_map-AllStored ((layer, asked) ∷ layers) ids h =
      uuid_map-AllStored layers _ (layer-AllStored layer asked (lookup layer asked) ids refl h)

  module _ {P : Type 0} where
    -- An observation that was given, under an id that the store gave for its entity.
    pub record IsWritten (given : List (Observation P)) (o : Observation P) : Type 0 where
      pub original : Observation P
      pub listed : Listed original given
      pub changed : o ≡ record original { entity_id = o.entity_id }
      pub stored : IsStored lookup original.entity_id o.entity_id

    weaker :
        (x : Observation P) (given written : List (Observation P))
        → All (IsWritten given) written
        → All (IsWritten (x ∷ given)) written
    weaker x given [] h = tt
    weaker x given (o ∷ written) (w, ws) = (
      record {
        original = w.original;
        listed = inr w.listed;
        changed = w.changed;
        stored = w.stored;
      },
      weaker x given written ws,
    )

    valid-IsWritten :
        (ids : Dict String String) (obs : List (Observation P))
        → AllStored ids
        → All (IsWritten obs) (valid_observations ids obs)
    unfolding valid_observations
    valid-IsWritten ids [] h = tt
    valid-IsWritten ids (o ∷ obs) h =
        go (get o.entity_id ids) refl (weaker o obs _ (valid-IsWritten ids obs h))
      where
        go :
            (found : Option String)
            → get o.entity_id ids ≡ found
            → All (IsWritten (o ∷ obs)) (valid_observations ids obs)
            → All (IsWritten (o ∷ obs)) (under o found (valid_observations ids obs))
        go none e rest = rest
        go (some id) e rest = (
          record { original = o; listed = inl refl; changed = refl; stored = h o.entity_id id e },
          rest,
        )

    -- Whatever the store answers, every observation that an on-demand fill writes is one that was
    -- fetched, with its composite id replaced by the id that the store gave for its entity.
    pub persist_on_demand-IsWritten :
        (has_entities has_observations : Bool) (entities : List (Entity P))
        (obs : List (Observation P))
        → All (IsWritten obs) (persist_on_demand has_entities has_observations lookup entities obs)
    unfolding persist_on_demand
    persist_on_demand-IsWritten has_entities has_observations entities obs =
        elim (Bool-cases (has_observations && has_entities)) [
          | inl on ↦ rw on (
              valid-IsWritten _ obs (
                uuid_map-AllStored (by_layer entities []) []
                  (λ c id g. absurd (ground (arith, get-empty {V = String} c, g)))))
          | inr off ↦ rw off tt
        ]
