-- ===== src/Ai/Enrichment.antt =====
-- internal/ai/enrichment/worker.go. What an operation reads of the cache, the store, the filter, the
-- prompt and the provider is its `World`; what it writes is a list of effects. `R` is a result and `V`
-- a value of one.
mod Types
pub mod Trail
pub mod Settled
pub use Types.*
use Prim.Native.String.{◌++◌}
use text.Mathlib.Text.{find?}
use respondent_community.Common.{
  ℕ, zero, suc, ◌≡◌, String, Bool, true, false, not, ◌&&◌, ◌||◌, Option, none, some, List, [], ◌∷◌,
  if◌then◌else◌, is_some, string_eq, ◌==◌,
}
use mathlib.Core.List.{◌++◌ as append}
use respondent_community.Common.Dict.{Dict, get, put}
use respondent_community.Common.MultiMap.{is_nil}
use respondent_community.Common.Int.{ℤ, pos, ltb_ℤ}
use respondent_community.Llm.Retry.{
  LlmError, Attempt, Result, response, permanent, context_error, exhausted, Trace,
  retryable_complete,
}

abbrev pub keys {ℓ} : {A : Type ℓ} → Dict String A → List String
keys [] = []
keys ((k, v) ∷ m) = k ∷ keys m

unfoldable pub is_llm_transient : LlmError → Bool
is_llm_transient e =
    if e.rate_limited || e.provider_unavailable
    then true
    else is_some (find? e.message "context deadline exceeded")
      || is_some (find? e.message "Client.Timeout")

-- The error of a call that gave no response.
unfoldable pub call_error : Result String → Outcome
unfolding is_llm_transient
call_error (response content) = done
call_error (permanent e) = if is_llm_transient e then transient llm_call else terminal llm_call
call_error (context_error e) = if is_llm_transient e then transient llm_call else terminal llm_call
call_error (exhausted none) = terminal llm_call
call_error (exhausted (some e)) =
    if is_llm_transient e then transient llm_call else terminal llm_call

abbrev pub entity_cache_key : String → String → String
entity_cache_key entity op = "ai:enrich:" ++ (entity ++ (":" ++ op))

abbrev pub is_hit : Option String → Bool
is_hit none = false
is_hit (some s) = not (s == "")

module _ {V : Type 0} where
  unfoldable pub mapped : Dict String String → Dict String V → Dict String V
  mapped [] result = []
  mapped ((source, target) ∷ mapping) result =
      let rest = mapped mapping result in
      elim (get source result) [ none ↦ rest | some v ↦ put target v rest ]

  unfoldable pub apply_output_mapping :
      (Dict String V → V) → Operation → Dict String V → Dict String V
  unfolding mapped
  apply_output_mapping whole op result =
      if is_nil op.output_mapping
      then (op.name, whole result) ∷ []
      else mapped op.output_mapping result

module _ {V : Type 0} (w : World V) (entity : String) (op : Operation) where
  -- `createAuditLog` and `updateAuditLog`
  abbrev pub create_audit_log : Status → Effect V
  create_audit_log s = create s (w.creates_row s)

  abbrev pub update_audit_log : Status → Effect V
  update_audit_log s = finish s (w.updates_row s)

  -- The observation that is patched; the entity is when there is none.
  abbrev pub patch_target : Option String
  patch_target =
      if (op.target == "observation") && is_hit w.observation then w.observation else none

  abbrev pub patch_error : OpError
  patch_error = elim patch_target [ some id ↦ patch_observation | none ↦ patch_entity ]

  -- After the patch: coordinates, notification and caches.
  abbrev pub afterwards : String → Dict String V → Dict String V → List (Effect V)
  afterwards prompt_key fields result =
      append (if op.patch_coordinates && w.resolved then move ∷ [] else []) (
        append (if w.has_notifier then notify (keys fields) ∷ [] else []) (
          append
            (if ltb_ℤ (pos 0) op.cache_ttl && w.has_cache
              then remember (entity_cache_key entity op.name) "1"
                ∷ remember prompt_key (w.encode result)
                ∷ []
              else [])
            (update_audit_log completed ∷ [])))

  abbrev pub after_patch : String → Dict String V → Dict String V → Bool → List (Effect V) × Outcome
  after_patch prompt_key fields result true =
      (patch patch_target fields true ∷ afterwards prompt_key fields result, done)
  after_patch prompt_key fields result false =
      (patch patch_target fields false ∷ update_audit_log failed ∷ [], transient patch_error)

  unfoldable pub store_result : String → Dict String V → List (Effect V) × Outcome
  unfolding apply_output_mapping
  store_result prompt_key result =
      after_patch prompt_key (apply_output_mapping w.whole op result) result w.patched

  abbrev pub before : Effect V → List (Effect V) × Outcome → List (Effect V) × Outcome
  before x (effects, outcome) = (x ∷ effects, outcome)

  -- What a response is worth: `none` fails the schema.
  abbrev pub checked : String → Option (Dict String V)
  checked content = if not op.has_schema then some (w.free_result content) else w.validate content

  unfoldable pub stored_or :
      String → Option (Dict String V) → List (Effect V) × Outcome → List (Effect V) × Outcome
  unfolding store_result
  stored_or prompt_key (some result) retry = store_result prompt_key result
  stored_or prompt_key none retry = retry

  unfoldable pub answer_model :
      String → Result String → List (Effect V) × Outcome → List (Effect V) × Outcome
  unfolding call_error stored_or
  answer_model prompt_key (response content) retry = stored_or prompt_key (checked content) retry
  answer_model prompt_key failure retry = (update_audit_log failed ∷ [], call_error failure)

  -- The attempts that are left after this one, and the corrective messages sent before it.
  unfoldable pub ask_model : String → ℕ → ℕ → List (Effect V) × Outcome
  unfolding answer_model retryable_complete
  ask_model prompt_key zero corrections =
      let trace = retryable_complete (w.complete corrections) (pos 2) in
      before (ask trace.calls) (
        answer_model prompt_key trace.result
          (update_audit_log failed ∷ [], terminal schema_validation))
  ask_model prompt_key (suc left) corrections =
      let trace = retryable_complete (w.complete corrections) (pos 2) in
      before (ask trace.calls)
        (answer_model prompt_key trace.result (ask_model prompt_key left (suc corrections)))

  -- The result in the prompt cache, if there is one that can be read.
  abbrev pub cached_result : String → Option (Dict String V)
  cached_result prompt_key =
      if w.has_cache && is_hit (w.cached prompt_key) then decoded (w.cached prompt_key) else none
    where
      decoded : Option String → Option (Dict String V)
      decoded none = none
      decoded (some text) = w.decode text

  unfoldable pub answered_with : String → Option (Dict String V) → List (Effect V) × Outcome
  unfolding ask_model store_result
  answered_with prompt_key (some result) = store_result prompt_key result
  answered_with prompt_key none = ask_model prompt_key 2 0

  unfoldable pub prompted : Option String → List (Effect V) × Outcome
  unfolding answered_with
  prompted none = (create_audit_log failed ∷ [], terminal render_prompt)
  prompted (some text) =
      let prompt_key = "ai:prompt:" ++ w.hash text in
      before (create_audit_log pending) (answered_with prompt_key (cached_result prompt_key))

  -- A filter that cannot be evaluated rejects.
  abbrev pub passes : Bool
  passes =
      if not (op.filter == "")
      then (elim (w.evaluate op.filter) [ none ↦ false | some pass ↦ pass ])
      else true

  unfoldable pub loaded : Lookup → List (Effect V) × Outcome
  unfolding prompted
  loaded not_found = ([], done)
  loaded lookup_failed = ([], transient load_entity)
  loaded found = if not passes then (create_audit_log skipped ∷ [], done) else prompted w.rendered

  unfoldable pub process_operation : List (Effect V) × Outcome
  unfolding loaded
  process_operation =
      if w.has_cache && is_hit (w.cached (entity_cache_key entity op.name))
      then ([], done)
      else loaded w.entity

abbrev pub is_done : Outcome → Bool
is_done done = true
is_done _ = false

abbrev pub all_done : List Outcome → Bool
all_done [] = true
all_done (o ∷ outcomes) = is_done o && all_done outcomes

module _ {V : Type 0} (worlds : ℕ → World V) (entity : String) where
  -- The operations from the i-th on; an error does not stop the next ones.
  unfoldable pub run_operations : ℕ → List Operation → List (List (Effect V) × Outcome)
  unfolding process_operation
  run_operations i [] = []
  run_operations i (op ∷ ops) = process_operation (worlds i) entity op ∷ run_operations (suc i) ops

abbrev pub outcomes {ℓ} : {A : Type ℓ} → List (A × Outcome) → List Outcome
outcomes [] = []
outcomes ((a, o) ∷ runs) = o ∷ outcomes runs

-- A job is its entity and its source; `none` is one that cannot be decoded. The flag says whether the
-- completion callback runs.
unfoldable pub process_job :
    {V : Type 0}
    → (ℕ → World V)
    → Dict String SourceConfig
    → Bool
    → Option (String × String)
    → JobResult V
unfolding run_operations
process_job worlds configs has_callback none = malformed
process_job worlds configs has_callback (some (entity, source)) = elim (get source configs) [
  | none ↦ ignored
  | some config ↦
      let runs = run_operations worlds entity 0 config.operations in
      if not config.enabled then ignored else ran runs (all_done (outcomes runs) && has_callback)
]
