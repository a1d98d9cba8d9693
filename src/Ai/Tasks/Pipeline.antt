-- ===== src/Ai/Tasks/Pipeline.antt =====
-- Which steps of a task run, and in which context.
use respondent_community.Common.{
  ℕ, suc, ◌+◌, ◌≡◌, ◌≢◌, refl, ap, sym, subst, ◌∙◌, String, true, false, some, List, [], ◌∷◌, ◌++◌,
  length, All, arith, Bool-cases, inl, inr, string_eq, eq_iff,
}
use respondent_community.Common.Dict.{get, put, get-put}
use respondent_community.Ai.Tasks.{
  StepResult, StepContext, StepConfig, TaskDefinition, Services, Checked, ok, err, execute_step,
  store_result, Execution, disabled, stopped, completed, continue, run_steps, execute_task,
}

-- The names of the steps differ.
abbrev pub IsDistinct : {F : Type 0} → List (StepConfig F) → Type 0
IsDistinct [] = Unit
IsDistinct {F} (s ∷ steps) = All (λ (t : StepConfig F). s.name ≢ t.name) steps × IsDistinct steps

module _ {V E F : Type 0} (world : ℕ → Services V E F) (task : String) where
  -- Steps that all succeed, each in the context that holds the results of those before it.
  abbrev pub Chain : ℕ → StepContext V E → List (StepConfig F) → StepContext V E → Type 0
  Chain i ctx [] end = ctx ≡ end
  Chain i ctx (s ∷ steps) end =
      (r : StepResult V) × (execute_step (world i) task s ctx ≡ ok r)
      × Chain (suc i) (store_result ctx s.name r) steps end

  -- How far the steps came: to their end, or to a step that failed in the context that is returned.
  abbrev pub Reaches : ℕ → StepContext V E → List (StepConfig F) → Execution V E → Type 0
  Reaches i ctx steps disabled = ⊥
  Reaches i ctx steps (completed end) = Chain i ctx steps end
  Reaches i ctx steps (stopped end j e) =
      (done : List (StepConfig F)) × (step : StepConfig F) × (rest : List (StepConfig F)) × (steps
        ≡ done ++ step ∷ rest)
      × (j ≡ i + length done)
      × Chain i ctx done end
      × (execute_step (world j) task step end ≡ err e)

  Reaches-step :
      (i : ℕ) (ctx : StepContext V E) (s : StepConfig F) (steps : List (StepConfig F))
      (r : StepResult V) (o : Execution V E)
      → execute_step (world i) task s ctx ≡ ok r
      → Reaches (suc i) (store_result ctx s.name r) steps o
      → Reaches i ctx (s ∷ steps) o
  Reaches-step i ctx s steps r disabled e h = h
  Reaches-step i ctx s steps r (completed end) e h = (r, e, h)
  Reaches-step i ctx s steps r (stopped end j x) e (done, step, rest, cut, at, chain, fails) =
      (s ∷ done, step, rest, ap (λ l. s ∷ l) cut, omega (arith, at), (r, e, chain), fails)

  continue-Reaches :
      (i : ℕ) (ctx : StepContext V E) (s : StepConfig F) (steps : List (StepConfig F))
      (c : Checked (StepResult V)) (next : StepContext V E → Execution V E)
      → execute_step (world i) task s ctx ≡ c
      → ((ctx' : StepContext V E) → Reaches (suc i) ctx' steps (next ctx'))
      → Reaches i ctx (s ∷ steps) (continue world task i s.name ctx c next)
  continue-Reaches i ctx s steps (ok r) next e h =
      Reaches-step i ctx s steps r (next (store_result ctx s.name r)) e
        (h (store_result ctx s.name r))
  continue-Reaches i ctx s steps (err x) next e h = ([], s, steps, refl, omega arith, refl, e)

  pub run_steps-Reaches :
      (i : ℕ) (steps : List (StepConfig F)) (ctx : StepContext V E)
      → Reaches i ctx steps (run_steps world task i steps ctx)
  unfolding run_steps
  run_steps-Reaches i [] ctx = refl
  run_steps-Reaches i (s ∷ steps) ctx =
      continue-Reaches i ctx s steps (execute_step (world i) task s ctx) _ refl
        (λ next. run_steps-Reaches (suc i) steps next)

  -- The results of steps that all succeeded, each under its step's name.
  abbrev pub Recorded : ℕ → StepContext V E → List (StepConfig F) → StepContext V E → Type 0
  Recorded i ctx [] end = Unit
  Recorded i ctx (s ∷ steps) end =
      (r : StepResult V) × (execute_step (world i) task s ctx ≡ ok r)
      × (get s.name end.steps ≡ some r)
      × Recorded (suc i) (store_result ctx s.name r) steps end

  get-store_result :
      (ctx : StepContext V E) (j : String) (r : StepResult V) (k : String)
      → j ≢ k
      → get j (store_result ctx k r).steps ≡ get j ctx.steps
  get-store_result ctx j r k ne = ground (arith, get-put k j r ctx.steps, eq_iff k j, ne)

  Chain-keeps :
      (i : ℕ) (ctx : StepContext V E) (steps : List (StepConfig F)) (end : StepContext V E)
      (name : String)
      → All (λ (t : StepConfig F). name ≢ t.name) steps
      → Chain i ctx steps end
      → get name end.steps ≡ get name ctx.steps
  Chain-keeps i ctx [] end name far e = ap (λ c. get name c.steps) (sym e)
  Chain-keeps i ctx (s ∷ steps) end name (far, others) (r, e, chain) =
      Chain-keeps (suc i) (store_result ctx s.name r) steps end name others chain
      ∙ get-store_result ctx name r s.name far

  get-put_same :
      (ctx : StepContext V E) (k : String) (r : StepResult V) → get k (put k r ctx.steps) ≡ some r
  get-put_same ctx k r = ground (arith, get-put k k r ctx.steps, eq_iff k k)

  pub Chain-Recorded :
      (i : ℕ) (ctx : StepContext V E) (steps : List (StepConfig F)) (end : StepContext V E)
      → IsDistinct steps
      → Chain i ctx steps end
      → Recorded i ctx steps end
  Chain-Recorded i ctx [] end d chain = tt
  Chain-Recorded i ctx (s ∷ steps) end (far, others) (r, e, chain) =
      let next = store_result ctx s.name r in
      (
        r,
        e,
        Chain-keeps (suc i) next steps end s.name far chain ∙ get-put_same ctx s.name r,
        Chain-Recorded (suc i) next steps end others chain,
      )

module _ {V E F : Type 0} (world : ℕ → Services V E F) (def : TaskDefinition F) (trigger : E) where
  abbrev pub start : StepContext V E
  start = record { entity = trigger; steps = [] }

  abbrev pub IsRun : Execution V E → Type 0
  IsRun disabled = def.enabled ≡ false
  IsRun (stopped end j e) =
      (def.enabled ≡ true) × Reaches world def.name 0 start def.steps (stopped end j e)
  IsRun (completed end) = (def.enabled ≡ true) × Chain world def.name 0 start def.steps end

  enabled_lem :
      def.enabled ≡ true
      → execute_task world def trigger ≡ run_steps world def.name 0 def.steps start
  unfolding execute_task
  enabled_lem on = simp on

  disabled_lem : def.enabled ≡ false → execute_task world def trigger ≡ disabled
  unfolding execute_task
  disabled_lem off = simp off

  enabled-IsRun :
      (o : Execution V E)
      → def.enabled ≡ true
      → Reaches world def.name 0 start def.steps o
      → IsRun o
  enabled-IsRun disabled on h = absurd h
  enabled-IsRun (stopped end j e) on h = (on, h)
  enabled-IsRun (completed end) on h = (on, h)

  -- Whatever the services answer, a disabled task runs no step, and an enabled one runs its steps in
  -- order, each in a context with the results of those before it, until all have succeeded or one
  -- fails; the task then stops with that step's index and error and the context of the steps before
  -- it.
  pub execute_task-IsRun : IsRun (execute_task world def trigger)
  execute_task-IsRun = elim (Bool-cases def.enabled) [
    | inl on ↦
        subst IsRun (sym (enabled_lem on))
          (enabled-IsRun _ on (run_steps-Reaches world def.name 0 def.steps start))
    | inr off ↦ subst IsRun (sym (disabled_lem off)) off
  ]

  -- When the names of the steps differ and the task completes, every step has succeeded, and the
  -- context holds each result under its step's name.
  pub execute_task-Recorded :
      (end : StepContext V E)
      → IsDistinct def.steps
      → execute_task world def trigger ≡ completed end
      → Recorded world def.name 0 start def.steps end
  execute_task-Recorded end distinct e =
      Chain-Recorded world def.name 0 start def.steps end distinct
        (subst IsRun e execute_task-IsRun).1
