-- ===== src/Ai/Tasks/Types.antt =====
-- The data of a task pipeline: definition.go of internal/ai/tasks, and what engine.go works with.
use respondent_community.Common.{ℕ, String, Bool, Option, none, some, List}
use respondent_community.Common.Dict.{Dict}
use respondent_community.Common.Int.{ℤ}
use respondent_community.Llm.Retry.{Attempt, Result}

-- The parsed value of a step, the report of its deliveries (`none` is delivered), or a placeholder.
pub data Value (V : Type 0) : Type 0 where
  value : V → Value V
  report : Dict String (Option String) → Value V
  placeholder : List String → Value V

-- `Error` is never set.
pub record StepResult (V : Type 0) : Type 0 where
  pub name : String
  pub result : Value V
  pub raw : String

pub record StepContext (V E : Type 0) : Type 0 where
  pub entity : E
  pub steps : Dict String (StepResult V)

-- Whether the step has an output schema is all that the engine reads of it.
pub record StepConfig (F : Type 0) : Type 0 where
  pub name : String
  pub kind : String
  pub prompt : String
  pub has_schema : Bool
  pub max_tokens : ℤ
  pub temperature : F
  pub url : String
  pub method : String
  pub headers : Dict String String
  pub targets : List String

pub record TriggerConfig : Type 0 where
  pub kind : String
  pub source : String
  pub filter : String
  pub interval : String
  pub cron : String

-- The schema version and the display name are only shown.
pub record TaskDefinition (F : Type 0) : Type 0 where
  pub name : String
  pub enabled : Bool
  pub trigger : TriggerConfig
  pub steps : List (StepConfig F)

-- The system message, the user's, and the settings that differ from the provider's defaults.
pub record CompletionRequest (F : Type 0) : Type 0 where
  pub system : Option String
  pub user : String
  pub max_tokens : Option ℤ
  pub temperature : Option F
  pub json : Bool

pub record HttpRequest : Type 0 where
  pub method : String
  pub url : String
  pub headers : Dict String String

-- The body is absent when reading it failed.
pub data HttpReply : Type 0 where
  invalid_request no_reply : HttpReply
  reply : ℤ → Option String → HttpReply

-- What is delivered: a rendered prompt, or the results of all steps.
pub data Payload (V : Type 0) : Type 0 where
  rendered : String → Payload V
  results : Dict String (StepResult V) → Payload V

pub data StepError : Type 0 where
  no_provider render_failed invalid_response : StepError
  completion_failed : Result String → StepError
  bad_request request_failed read_failed : StepError
  bad_status : ℤ → String → StepError
  unknown_type : String → StepError

pub data Checked (A : Type 0) : Type 0 where
  ok : A → Checked A
  err : StepError → Checked A

-- A provider answers a request with what its attempts give; a deliverer answers its n-th call.
pub record Services (V E F : Type 0) : Type 0 where
  pub render : String → StepContext V E → Option String
  pub provider : Option (CompletionRequest F → ℕ → Attempt String)
  pub schema_json : String → String
  pub validate : String → String → Option V
  pub raw_value : String → V
  pub parse_json : String → Option V
  pub http : HttpRequest → HttpReply
  pub deliver : Option (ℕ → String → Payload V → Option String)
  pub is_positive : F → Bool

abbrev pub bind_checked : {A B : Type 0} → Checked A → (A → Checked B) → Checked B
bind_checked (ok a) f = f a
bind_checked (err e) f = err e

abbrev pub or_error : {A : Type 0} → StepError → Option A → Checked A
or_error e none = err e
or_error e (some a) = ok a

-- The task is disabled, a step failed in a context, or all steps are done.
pub data Execution (V E : Type 0) : Type 0 where
  disabled : Execution V E
  stopped : StepContext V E → ℕ → StepError → Execution V E
  completed : StepContext V E → Execution V E
