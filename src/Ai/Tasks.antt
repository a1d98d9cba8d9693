-- ===== src/Ai/Tasks.antt =====
-- internal/ai/tasks: definition.go and engine.go. The template engine, the model provider, the
-- schemas, JSON, the HTTP client and the delivery targets are the `Services` that a step calls; `V` is
-- their values, `E` the data of the trigger, and `F` a float64.
mod Types
pub mod Pipeline
pub mod Steps
pub mod Loader
use Prim.Native.String.{◌++◌}
pub use Types.*
use respondent_community.Common.{
  ℕ, suc, String, Bool, true, false, not, ◌&&◌, ◌||◌, Option, none, some, List, [], ◌∷◌,
  if◌then◌else◌, string_eq, ◌==◌,
}
use respondent_community.Common.Dict.{Dict, put}
use respondent_community.Common.Int.{ℤ, pos, ltb_ℤ, leb_ℤ}
use respondent_community.Llm.Retry.{Attempt, Result, response, retryable_complete}

unfoldable pub schema_key : String → String → String
schema_key task step = "task/" ++ (task ++ ("/" ++ step))

-- `fmt` prints a list of texts with blanks between them.
abbrev pub joined : List String → String
joined [] = ""
joined (t ∷ []) = t
joined (t ∷ u ∷ ts) = t ++ (" " ++ joined (u ∷ ts))

abbrev pub listing : List String → String
listing ts = "[" ++ (joined ts ++ "]")

abbrev pub method_of : {F : Type 0} → StepConfig F → String
method_of step = if step.method == "" then "GET" else step.method

abbrev pub default_max_retries : ℤ
default_max_retries = pos 2

-- The reports of the deliveries, of which the first is the n-th call.
unfoldable pub deliver_all :
    {V : Type 0}
    → (ℕ → String → Payload V → Option String)
    → ℕ
    → List String
    → Payload V
    → Dict String (Option String)
    → Dict String (Option String)
deliver_all deliver n [] payload reports = reports
deliver_all deliver n (target ∷ targets) payload reports =
    deliver_all deliver (suc n) targets payload (put target (deliver n target payload) reports)

unfoldable pub delivered :
    {V F : Type 0}
    → StepConfig F
    → (ℕ → String → Payload V → Option String)
    → Payload V
    → StepResult V
unfolding deliver_all
delivered step deliver payload = record {
  name = step.name;
  result = report (deliver_all deliver 0 step.targets payload []);
  raw = "delivered to " ++ listing step.targets;
}

module _ {V E F : Type 0} (services : Services V E F) where
  -- The request of an AI step with its rendered prompt and the JSON text of its schema.
  unfoldable pub completion_request : StepConfig F → String → String → CompletionRequest F
  completion_request step prompt schema = record {
    system =
        if not (schema == "")
        then some ("Respond with JSON matching this exact schema:\n" ++ schema)
        else none;
    user = prompt;
    max_tokens = if ltb_ℤ (pos 0) step.max_tokens then some step.max_tokens else none;
    temperature = if services.is_positive step.temperature then some step.temperature else none;
    json = not (schema == "");
  }

  abbrev pub parsed_content : String → StepConfig F → String → Bool → Checked V
  parsed_content task step content true =
      or_error invalid_response (services.validate (schema_key task step.name) content)
  parsed_content task step content false = ok (services.raw_value content)

  -- The result of an AI step from what the calls of the provider returned.
  abbrev pub ai_result : String → StepConfig F → Result String → Checked (StepResult V)
  ai_result task step (response content) =
      bind_checked (parsed_content task step content step.has_schema)
        (λ v. ok (record { name = step.name; result = value v; raw = content }))
  ai_result task step failure = err (completion_failed failure)

  unfoldable pub ai_step_with :
      String
      → StepConfig F
      → StepContext V E
      → Option (CompletionRequest F → ℕ → Attempt String)
      → Checked (StepResult V)
  unfolding schema_key completion_request retryable_complete
  ai_step_with task step ctx none = err no_provider
  ai_step_with task step ctx (some complete) =
      bind_checked (or_error render_failed (services.render step.prompt ctx)) (λ prompt.
        let schema = services.schema_json (schema_key task step.name) in
        let attempt = complete (completion_request step prompt schema) in
        ai_result task step (retryable_complete attempt default_max_retries).result)

  unfoldable pub execute_ai_step : String → StepConfig F → StepContext V E → Checked (StepResult V)
  unfolding ai_step_with
  execute_ai_step task step ctx = ai_step_with task step ctx services.provider

  abbrev pub http_value : String → Value V
  http_value body = elim (services.parse_json body) [
    | none ↦ value (services.raw_value body)
    | some v ↦ value v
  ]

  abbrev pub http_result : StepConfig F → HttpReply → Checked (StepResult V)
  http_result step invalid_request = err bad_request
  http_result step no_reply = err request_failed
  http_result step (reply status none) = err read_failed
  http_result step (reply status (some body)) =
      if ltb_ℤ status (pos 200) || leb_ℤ (pos 300) status
      then err (bad_status status body)
      else ok (record { name = step.name; result = http_value body; raw = body })

  unfoldable pub execute_http_step : StepConfig F → StepContext V E → Checked (StepResult V)
  execute_http_step step ctx =
      bind_checked (or_error render_failed (services.render step.url ctx)) (λ url.
        http_result step
          (services.http (record { method = method_of step; url = url; headers = step.headers })))

  abbrev pub payload_of : StepConfig F → StepContext V E → Checked (Payload V)
  payload_of step ctx =
      if not (step.prompt == "")
      then bind_checked (or_error render_failed (services.render step.prompt ctx))
          (λ text. ok (rendered text))
      else ok (results ctx.steps)

  unfoldable pub target_step_with :
      StepConfig F
      → StepContext V E
      → Option (ℕ → String → Payload V → Option String)
      → Checked (StepResult V)
  unfolding delivered
  target_step_with step ctx none = ok (record {
    name = step.name;
    result = placeholder step.targets;
    raw = "placeholder delivery to " ++ listing step.targets;
  })
  target_step_with step ctx (some deliver) =
      bind_checked (payload_of step ctx) (λ payload. ok (delivered step deliver payload))

  unfoldable pub execute_target_step : StepConfig F → StepContext V E → Checked (StepResult V)
  unfolding target_step_with
  execute_target_step step ctx = target_step_with step ctx services.deliver

  unfoldable pub execute_step : String → StepConfig F → StepContext V E → Checked (StepResult V)
  unfolding execute_ai_step execute_http_step execute_target_step
  execute_step task step ctx =
      if step.kind == "ai"
      then execute_ai_step task step ctx
      else if step.kind == "http_request"
      then execute_http_step step ctx
      else if step.kind == "target"
      then execute_target_step step ctx
      else err (unknown_type step.kind)

abbrev pub store_result : {V E : Type 0} → StepContext V E → String → StepResult V → StepContext V E
store_result ctx name r = record ctx { steps = put name r ctx.steps }

-- The services of the i-th step are those at i.
module _ {V E F : Type 0} (world : ℕ → Services V E F) (task : String) where
  abbrev pub continue :
      ℕ
      → String
      → StepContext V E
      → Checked (StepResult V)
      → (StepContext V E → Execution V E)
      → Execution V E
  continue i name ctx (ok r) rest = rest (store_result ctx name r)
  continue i name ctx (err e) rest = stopped ctx i e

  unfoldable pub run_steps : ℕ → List (StepConfig F) → StepContext V E → Execution V E
  unfolding execute_step
  run_steps i [] ctx = completed ctx
  run_steps i (step ∷ steps) ctx =
      continue i step.name ctx (execute_step (world i) task step ctx)
        (λ next. run_steps (suc i) steps next)

unfoldable pub execute_task :
    {V E F : Type 0} → (ℕ → Services V E F) → TaskDefinition F → E → Execution V E
unfolding run_steps
execute_task world def trigger_data =
    if not def.enabled
    then disabled
    else run_steps world def.name 0 def.steps (record { entity = trigger_data; steps = [] })
