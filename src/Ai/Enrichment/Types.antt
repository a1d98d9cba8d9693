-- ===== src/Ai/Enrichment/Types.antt =====
-- The data of an enrichment job: what an operation reads and writes, and how it ends.
use respondent_community.Common.{ℕ, String, Bool, Option, List}
use respondent_community.Common.Dict.{Dict}
use respondent_community.Common.Int.{ℤ}
use respondent_community.Llm.Retry.{Attempt}

pub data Status : Type 0 where
  pending skipped failed completed : Status

pub data OpError : Type 0 where
  load_entity render_prompt llm_call schema_validation patch_observation patch_entity : OpError

pub data Outcome : Type 0 where
  done : Outcome
  terminal : OpError → Outcome
  transient : OpError → Outcome

-- The row of the audit log is to be created, or to get its last status, which may fail and is then
-- only logged; the model is asked, in so many calls of the provider; the metadata of
-- an observation or the entity is patched, which may fail; the entity is moved; a notification is
-- pushed; a cache entry is set.
pub data Effect (V : Type 0) : Type 0 where
  create finish : Status → Bool → Effect V
  ask : ℕ → Effect V
  patch : Option String → Dict String V → Bool → Effect V
  move : Effect V
  notify : List String → Effect V
  remember : String → String → Effect V

-- `output_target`, and `CacheTTL` parsed.
pub record Operation : Type 0 where
  pub name : String
  pub filter : String
  pub has_schema : Bool
  pub output_mapping : Dict String String
  pub target : String
  pub patch_coordinates : Bool
  pub cache_ttl : ℤ

pub data Lookup : Type 0 where
  found not_found lookup_failed : Lookup

-- The results are maps; a whole result is a value too. `complete` is given the number of the
-- corrective messages.
pub record World (V : Type 0) : Type 0 where
  -- whether the audit log takes a row with this status, and an update to it
  pub creates_row : Status → Bool
  pub updates_row : Status → Bool
  pub has_cache : Bool
  pub cached : String → Option String
  pub entity : Lookup
  pub observation : Option String
  pub evaluate : String → Option Bool
  pub rendered : Option String
  pub hash : String → String
  pub decode : String → Option (Dict String V)
  pub encode : Dict String V → String
  pub complete : ℕ → ℕ → Attempt String
  pub free_result : String → Dict String V
  pub validate : String → Option (Dict String V)
  pub whole : Dict String V → V
  pub patched : Bool
  pub resolved : Bool
  pub has_notifier : Bool

-- `SourceAIConfig`
pub record SourceConfig : Type 0 where
  pub enabled : Bool
  pub operations : List Operation

pub data JobResult (V : Type 0) : Type 0 where
  malformed ignored : JobResult V
  ran : List (List (Effect V) × Outcome) → Bool → JobResult V
