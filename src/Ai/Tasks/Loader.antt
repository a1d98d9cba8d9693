-- ===== src/Ai/Tasks/Loader.antt =====
-- internal/ai/tasks/loader.go: the checks of a definition and of a directory of them. Reading and
-- parsing the files, the validation by struct tags, durations, CEL expressions and JSON schemas are
-- parameters; a duration is an int64 of nanoseconds.
pub mod Loaded
use respondent_community.Common.{
  ℕ, suc, ◌≡◌, ◌≢◌, refl, subst, ◌⊎◌, inl, inr, String, Bool, true, false, not, ◌&&◌, ◌||◌, Option,
  none, some, List, [], ◌∷◌, if◌then◌else◌, All, contains, is_some, arith, string_eq, ◌==◌, eq_iff,
  Bool-cases,
}
use respondent_community.Common.Dict.{Dict, has, get, put, get-put}
use respondent_community.Common.MultiMap.{is_nil}
use respondent_community.Common.Int.{ℤ, pos, leb_ℤ}
use respondent_community.Ai.Tasks.{StepConfig, TriggerConfig, TaskDefinition, schema_key}

pub data LoadError : Type 0 where
  unreadable invalid : LoadError
  no_source no_schedule two_schedules bad_interval negative_interval bad_filter : LoadError
  duplicate_step : String → ℕ → LoadError
  no_prompt bad_schema no_url no_targets : LoadError
  duplicate_definition : String → LoadError

pub record Checks (F : Type 0) : Type 0 where
  pub fits_tags : TaskDefinition F → Bool
  pub parse_duration : String → Option ℤ
  pub compiles : String → Bool
  pub registers : String → StepConfig F → Bool

abbrev pub check : Bool → LoadError → Option LoadError
check true e = none
check false e = some e

abbrev pub first_error : Option LoadError → Option LoadError → Option LoadError
first_error none rest = rest
first_error (some e) rest = some e

module _ {F : Type 0} (checks : Checks F) where
  abbrev pub check_interval : String → Option LoadError
  check_interval interval = elim (checks.parse_duration interval) [
    | none ↦ some bad_interval
    | some d ↦ if leb_ℤ d (pos 0) then some negative_interval else none
  ]

  abbrev pub check_filter : TriggerConfig → Option LoadError
  check_filter tc = check ((tc.filter == "") || checks.compiles tc.filter) bad_filter

  abbrev pub check_schedule : TriggerConfig → Option LoadError
  check_schedule tc =
      if (tc.interval == "") && (tc.cron == "")
      then some no_schedule
      else if not (tc.interval == "") && not (tc.cron == "")
      then some two_schedules
      else if not (tc.interval == "")
      then check_interval tc.interval
      else none

  unfoldable pub validate_trigger : TriggerConfig → Option LoadError
  validate_trigger tc =
      if tc.kind == "event"
      then (if tc.source == "" then some no_source else check_filter tc)
      else if tc.kind == "schedule"
      then first_error (check_schedule tc) (check_filter tc)
      else check_filter tc

  unfoldable pub validate_step : String → StepConfig F → Option LoadError
  unfolding schema_key
  validate_step task step =
      if step.kind == "ai"
      then (if step.prompt == ""
          then some no_prompt
          else if step.has_schema
          then check (checks.registers (schema_key task step.name) step) bad_schema
          else none)
      else if step.kind == "http_request"
      then (if step.url == "" then some no_url else none)
      else if step.kind == "target"
      then (if is_nil step.targets then some no_targets else none)
      else none

  -- The names seen before, and the index of the next step.
  unfoldable pub check_steps : String → List String → ℕ → List (StepConfig F) → Option LoadError
  unfolding validate_step
  check_steps task seen i [] = none
  check_steps task seen i (step ∷ steps) =
      let rest = check_steps task (step.name ∷ seen) (suc i) steps in
      if contains step.name seen
      then some (duplicate_step step.name i)
      else first_error (validate_step task step) rest

  -- The checks of a definition that was read and parsed.
  unfoldable pub load_file : TaskDefinition F → Option LoadError
  unfolding validate_trigger check_steps
  load_file def =
      if not (checks.fits_tags def)
      then some invalid
      else first_error (validate_trigger def.trigger) (check_steps def.name [] 0 def.steps)

  -- The definitions by their names; a file that cannot be read or parsed is `none`.
  unfoldable pub load_definitions :
      Dict String (TaskDefinition F)
      → List (Option (TaskDefinition F))
      → Dict String (TaskDefinition F) ⊎ LoadError
  unfolding load_file
  load_definitions definitions [] = inl definitions
  load_definitions definitions (none ∷ files) = inr unreadable
  load_definitions definitions (some def ∷ files) =
      let rest = load_definitions (put def.name def definitions) files in
      elim (load_file def) [
        | some e ↦ inr e
        | none ↦ if has def.name definitions then inr (duplicate_definition def.name) else rest
      ]
