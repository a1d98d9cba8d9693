-- ===== src/Tests/Tasks.antt =====
-- A task of three steps.
use respondent_community.Common.{
  ℕ, zero, suc, ◌≡◌, refl, inl, String, true, false, Option, none, some, [], ◌∷◌, All, map_option,
  string_eq, ◌==◌, if◌then◌else◌,
}
use respondent_community.Common.Dict.{Dict, get, put}
use respondent_community.Common.Int.{pos}
use respondent_community.Llm.Retry.{Attempt, answered}
use respondent_community.Ai.Tasks.{
  StepConfig, StepContext, StepResult, TaskDefinition, Services, CompletionRequest, reply, Payload,
  results, completed, ok, report, execute_task, execute_ai_step, execute_http_step,
  execute_target_step, value,
}
use respondent_community.Ai.Tasks.Pipeline.{IsRun, execute_task-IsRun, Recorded, start}
use respondent_community.Ai.Tasks.Loader.{Checks, load_file, load_definitions}
use respondent_community.Ai.Tasks.Loader.Loaded.{
  IsLoaded, load_definitions-IsLoaded, execute_task-load_file,
}
use respondent_community.Ai.Tasks.Steps.{
  last_call, execute_target_step_reports, Completed, execute_ai_step-Completed,
}

abbrev step : String → String → StepConfig ℕ
step name kind = record {
  name = name;
  kind = kind;
  prompt = if kind == "ai" then "Summarise" else "";
  has_schema = false;
  max_tokens = pos 0;
  temperature = 0;
  url = "http://site/";
  method = "";
  headers = [];
  targets = "mail" ∷ "log" ∷ "mail" ∷ [];
}

abbrev digest : TaskDefinition ℕ
digest = record {
  name = "digest";
  enabled = true;
  trigger = record { kind = "event"; source = "quakes"; filter = ""; interval = ""; cron = "" };
  steps = step "fetch" "http_request" ∷ step "write" "ai" ∷ step "send" "target" ∷ [];
}

-- The second delivery to "mail" fails.
abbrev deliver : ℕ → String → Payload String → Option String
deliver zero target payload = none
deliver (suc n) target payload = some "full"

abbrev provider : CompletionRequest ℕ → ℕ → Attempt String
provider request n = record { canceled = none; jitter = 0; outcome = answered "calm" }

abbrev services : Services String ℕ ℕ
services = record {
  render = λ text ctx. some text;
  provider = some provider;
  schema_json = λ key. "";
  validate = λ key content. none;
  raw_value = λ text. text;
  parse_json = λ text. none;
  http = λ request. reply (pos 200) (some "3 quakes");
  deliver = some deliver;
  is_positive = λ n. false;
}

abbrev nothing_done : StepContext String ℕ
nothing_done = record { entity = 5; steps = [] }

abbrev fetched : StepResult String
fetched = record { name = "fetch"; result = value "3 quakes"; raw = "3 quakes" }

abbrev written : StepResult String
written = record { name = "write"; result = value "calm"; raw = "calm" }

fetch_done : execute_http_step services (step "fetch" "http_request") nothing_done ≡ ok fetched
unfolding execute_http_step
fetch_done = refl

write_done : execute_ai_step services "digest" (step "write" "ai") nothing_done ≡ ok written
unfolding execute_ai_step
write_done = refl

execute_ai_step-Completed_example :
    Completed services (step "write" "ai") nothing_done "digest" written
execute_ai_step-Completed_example =
    execute_ai_step-Completed services (step "write" "ai") nothing_done "digest" written write_done

execute_target_step_reports_example :
    (reports : Dict String (Option String)) × (r : StepResult String) × (execute_target_step
        services
        (step "send" "target")
        nothing_done
      ≡ ok r)
    × (r.result ≡ report reports)
    × ((t : String)
        → get t reports
          ≡ map_option
              (λ k. deliver k t (results []))
              (last_call t 0 ("mail" ∷ "log" ∷ "mail" ∷ [])))
execute_target_step_reports_example =
    execute_target_step_reports services (step "send" "target") nothing_done deliver (results [])
      refl refl

execute_task-IsRun_example : IsRun (λ i. services) digest 5 (execute_task (λ i. services) digest 5)
execute_task-IsRun_example = execute_task-IsRun (λ i. services) digest 5

abbrev checks : Checks ℕ
checks = record {
  fits_tags = λ def. true;
  parse_duration = λ text. none;
  compiles = λ text. true;
  registers = λ key step. true;
}

digest_loads : load_file checks digest ≡ none
unfolding load_file
digest_loads = refl

abbrev finished : StepContext String ℕ
finished = elim (execute_task (λ i. services) digest 5) [ completed end ↦ end | _ ↦ nothing_done ]

digest_completes : execute_task (λ i. services) digest 5 ≡ completed finished
unfolding execute_task put
digest_completes = refl

execute_task-load_file_example :
    Recorded (λ i. services) "digest" 0 (start (λ i. services) digest 5) digest.steps finished
execute_task-load_file_example =
    execute_task-load_file checks (λ i. services) digest 5 finished digest_loads digest_completes

one_loaded : load_definitions checks [] (some digest ∷ []) ≡ inl (("digest", digest) ∷ [])
unfolding load_definitions get put
one_loaded = refl

load_definitions-IsLoaded_example :
    All (IsLoaded checks (("digest", digest) ∷ [])) (some digest ∷ [])
load_definitions-IsLoaded_example =
    load_definitions-IsLoaded checks (some digest ∷ []) (("digest", digest) ∷ []) one_loaded
