-- ===== src/Ai/Tasks/Loader/Loaded.antt =====
-- What the loader's checks establish for the engine.
use respondent_community.Common.{
  ℕ, suc, ◌≡◌, ◌≢◌, refl, subst, ◌⊎◌, inl, inr, String, Bool, true, false, not, Option, none, some,
  List, [], ◌∷◌, if◌then◌else◌, All, contains, arith, string_eq, ◌==◌, eq_iff, Bool-cases,
}
use respondent_community.Common.Dict.{Dict, has, get, put, get-put}
use respondent_community.Ai.Tasks.{
  StepConfig, StepContext, TaskDefinition, Services, completed, execute_task,
}
use respondent_community.Ai.Tasks.Pipeline.{IsDistinct, Recorded, start, execute_task-Recorded}
use respondent_community.Ai.Tasks.Loader.{
  LoadError, invalid, duplicate_step, no_prompt, no_url, no_targets, duplicate_definition, Checks,
  first_error, validate_trigger, validate_step, check_steps, load_file, load_definitions,
}

if_none :
    (b : Bool) (e : LoadError) (rest : Option LoadError)
    → (if b then some e else rest) ≡ none
    → (b ≡ false) × (rest ≡ none)
if_none true e rest h = cc
if_none false e rest h = (refl, h)

first_none : (a b : Option LoadError) → first_error a b ≡ none → (a ≡ none) × (b ≡ none)
first_none none b h = (refl, h)
first_none (some e) b h = cc

-- The fields that the type of a step needs.
abbrev pub IsComplete : {F : Type 0} → StepConfig F → Type 0
IsComplete s =
    (s.kind ≡ "ai" → s.prompt ≢ "")
    × (s.kind ≡ "http_request" → s.url ≢ "")
    × (s.kind ≡ "target" → s.targets ≢ [])

module _ {F : Type 0} (checks : Checks F) where
  no_prompt_lem :
      (task : String) (s : StepConfig F)
      → s.kind ≡ "ai"
      → s.prompt ≡ ""
      → validate_step checks task s ≡ some no_prompt
  unfolding validate_step
  no_prompt_lem task s k e = simp (k, e)

  no_url_lem :
      (task : String) (s : StepConfig F)
      → s.kind ≡ "http_request"
      → s.url ≡ ""
      → validate_step checks task s ≡ some no_url
  unfolding validate_step
  no_url_lem task s k e = simp (k, e)

  no_targets_lem :
      (task : String) (s : StepConfig F)
      → s.kind ≡ "target"
      → s.targets ≡ []
      → validate_step checks task s ≡ some no_targets
  unfolding validate_step
  no_targets_lem task s k e = simp (k, e)

  validate_step-IsComplete :
      (task : String) (s : StepConfig F) → validate_step checks task s ≡ none → IsComplete s
  validate_step-IsComplete task s h = (
    λ k e. let x = no_prompt_lem task s k e in cc,
    λ k e. let x = no_url_lem task s k e in cc,
    λ k e. let x = no_targets_lem task s k e in cc,
  )

  -- What the checks of the steps establish.
  record Passed (seen : List String) (steps : List (StepConfig F)) : Type 0 where
    fresh : All (λ (t : StepConfig F). contains t.name seen ≡ false) steps
    distinct : IsDistinct steps
    whole : All IsComplete steps

  weaker :
      (n : String) (seen : List String) (steps : List (StepConfig F))
      → All (λ (t : StepConfig F). contains t.name (n ∷ seen) ≡ false) steps
      → All (λ (t : StepConfig F). contains t.name seen ≡ false) steps
        × All (λ (t : StepConfig F). n ≢ t.name) steps
  weaker n seen [] h = (tt, tt)
  weaker n seen (s ∷ steps) (h, hs) =
      let (a, b) = weaker n seen steps hs in
      let off : (n == s.name) ≡ false = ground arith in
      ((ground arith, a), ((λ e. ground (arith, off, eq_iff n s.name, e)), b))

  check_steps-Passed :
      (task : String) (seen : List String) (i : ℕ) (steps : List (StepConfig F))
      → check_steps checks task seen i steps ≡ none
      → Passed seen steps
  unfolding check_steps
  check_steps-Passed task seen i [] h = record { fresh = tt; distinct = tt; whole = tt }
  check_steps-Passed task seen i (s ∷ steps) h =
      let (new, rest) = if_none (contains s.name seen) (duplicate_step s.name i) _ h in
      let (valid, later) = first_none (validate_step checks task s) _ rest in
      let p = check_steps-Passed task (s.name ∷ seen) (suc i) steps later in
      let (fresh, apart) = weaker s.name seen steps p.fresh in
      record {
        fresh = (new, fresh);
        distinct = (apart, p.distinct);
        whole = (validate_step-IsComplete task s valid, p.whole);
      }

  -- A definition that is loaded has steps of different names, each with the fields its type needs.
  pub load_file-IsDistinct :
      (def : TaskDefinition F)
      → load_file checks def ≡ none
      → IsDistinct def.steps × All IsComplete def.steps
  unfolding load_file
  load_file-IsDistinct def h =
      let (tags, rest) = if_none (not (checks.fits_tags def)) invalid _ h in
      let (trigger, steps) = first_none (validate_trigger checks def.trigger) _ rest in
      let p = check_steps-Passed def.name [] 0 def.steps steps in (p.distinct, p.whole)

  -- The file has a definition that passed the checks and stands under its name.
  abbrev pub IsLoaded : Dict String (TaskDefinition F) → Option (TaskDefinition F) → Type 0
  IsLoaded definitions none = ⊥
  IsLoaded definitions (some def) =
      (load_file checks def ≡ none) × (get def.name definitions ≡ some def)

  abbrev pub Loads :
      Dict String (TaskDefinition F)
      → List (Option (TaskDefinition F))
      → Dict String (TaskDefinition F) ⊎ LoadError
      → Type 0
  Loads before files (inl definitions) =
      ((n : String) (d : TaskDefinition F) → get n before ≡ some d → get n definitions ≡ some d)
      × All (IsLoaded definitions) files
  Loads before files (inr e) = Unit

  Loads-file :
      (before : Dict String (TaskDefinition F)) (def : TaskDefinition F)
      (files : List (Option (TaskDefinition F))) (o : Dict String (TaskDefinition F) ⊎ LoadError)
      → load_file checks def ≡ none
      → has def.name before ≡ false
      → Loads (put def.name def before) files o
      → Loads before (some def ∷ files) o
  Loads-file before def files (inr e) fine new h = tt
  Loads-file before def files (inl definitions) fine new (kept, loaded) = (
    λ n d e. kept n d (ground (arith, get-put def.name n def before, eq_iff def.name n, new, e)),
    (
      (
        fine,
        kept def.name def
            (ground (arith, get-put def.name def.name def before, eq_iff def.name def.name)),
      ),
      loaded,
    ),
  )

  load_definitions-Loads :
      (files : List (Option (TaskDefinition F))) (before : Dict String (TaskDefinition F))
      → Loads before files (load_definitions checks before files)
  unfolding load_definitions
  load_definitions-Loads [] before = (λ n d e. e, tt)
  load_definitions-Loads (none ∷ files) before = tt
  load_definitions-Loads (some def ∷ files) before =
      go (load_file checks def) refl (load_definitions-Loads files (put def.name def before))
    where
      rest : Dict String (TaskDefinition F) ⊎ LoadError
      rest = load_definitions checks (put def.name def before) files

      go :
          (e : Option LoadError)
          → load_file checks def ≡ e
          → Loads (put def.name def before) files rest
          → Loads before (some def ∷ files) (elim e [
            | some x ↦ inr x
            | none ↦ if has def.name before then inr (duplicate_definition def.name) else rest
          ])
      go (some x) fine h = tt
      go none fine h = elim (Bool-cases (has def.name before)) [
        | inl old ↦ rw old tt
        | inr new ↦ rw new (Loads-file before def files rest fine new h)
      ]

  -- When a directory loads, every file has a definition that passed the checks, and it stands under
  -- its name: no definition replaces another.
  pub load_definitions-IsLoaded :
      (files : List (Option (TaskDefinition F))) (definitions : Dict String (TaskDefinition F))
      → load_definitions checks [] files ≡ inl definitions
      → All (IsLoaded definitions) files
  load_definitions-IsLoaded files definitions e =
      (subst (Loads [] files) e (load_definitions-Loads files [])).1

-- When a definition that passes the loader's checks is executed to completion, every step has
-- succeeded, and the context holds each result under its step's name, whatever the services answer.
pub execute_task-load_file :
    {V E F : Type 0} (checks : Checks F) (world : ℕ → Services V E F) (def : TaskDefinition F)
    (trigger : E) (end : StepContext V E)
    → load_file checks def ≡ none
    → execute_task world def trigger ≡ completed end
    → Recorded world def.name 0 (start world def trigger) def.steps end
execute_task-load_file checks world def trigger end loaded run =
    execute_task-Recorded world def trigger end (load_file-IsDistinct checks def loaded).0 run
