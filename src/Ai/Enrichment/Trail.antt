-- ===== src/Ai/Enrichment/Trail.antt =====
-- The trail that an operation leaves: its audit row, its patches and its questions.
use respondent_community.Common.{
  ℕ, suc, ◌+◌, ◌*◌, ◌≤◌, ◌≡◌, ◌≢◌, ◌⊎◌, refl, Bool, true, false, List, [], ◌∷◌, if◌then◌else◌,
}
use mathlib.Core.List.{◌++◌ as append}
use respondent_community.Ai.Enrichment.{
  Status, pending, skipped, failed, completed, OpError, load_entity, render_prompt, Outcome, done,
  terminal, transient, Effect, create, finish, ask, patch, move, notify, remember, llm_call,
}

module _ {V : Type 0} where
  -- The audit rows to be created and their updates, each with whether the audit log took it; the
  -- patches that succeed; the questions; and the calls of the provider for them.
  abbrev pub creates : List (Effect V) → List (Status × Bool)
  creates [] = []
  creates (create s good ∷ effects) = (s, good) ∷ creates effects
  creates (_ ∷ effects) = creates effects

  abbrev pub finishes : List (Effect V) → List (Status × Bool)
  finishes [] = []
  finishes (finish s good ∷ effects) = (s, good) ∷ finishes effects
  finishes (_ ∷ effects) = finishes effects

  abbrev pub patches : List (Effect V) → ℕ
  patches [] = 0
  patches (patch target fields true ∷ effects) = suc (patches effects)
  patches (_ ∷ effects) = patches effects

  abbrev pub asks : List (Effect V) → ℕ
  asks [] = 0
  asks (ask calls ∷ effects) = suc (asks effects)
  asks (_ ∷ effects) = asks effects

  abbrev pub provider_calls : List (Effect V) → ℕ
  provider_calls [] = 0
  provider_calls (ask calls ∷ effects) = calls + provider_calls effects
  provider_calls (_ ∷ effects) = provider_calls effects

-- How an operation may leave things: nothing is written; the entity could not be loaded; a row is
-- skipped, or failed without a prompt; a row that is pending is to become failed, with no patch; or it
-- is to become completed, with one. The flags are those of the writes.
pub data Trail : List (Status × Bool) → List (Status × Bool) → ℕ → Outcome → Type 0 where
  unwritten : Trail [] [] 0 done
  unloaded : Trail [] [] 0 (transient load_entity)
  rejected : {b : Bool} → Trail ((skipped, b) ∷ []) [] 0 done
  unrendered : {b : Bool} → Trail ((failed, b) ∷ []) [] 0 (terminal render_prompt)
  broken : {b u : Bool} {o : Outcome} → o ≢ done → Trail ((pending, b) ∷ []) ((failed, u) ∷ []) 0 o
  finished : {b u : Bool} → Trail ((pending, b) ∷ []) ((completed, u) ∷ []) 1 done

-- The effects leave this trail, after at most `limit` questions of three calls.
pub record Settled {V : Type 0} (limit : ℕ) (run : List (Effect V) × Outcome) : Type 0 where
  pub trail : Trail (creates run.0) (finishes run.0) (patches run.0) run.1
  pub asked : asks run.0 ≤ limit
  pub called : provider_calls run.0 ≤ 3 * limit

-- The part of a run after the row was created.
pub record Closed {V : Type 0} (limit : ℕ) (run : List (Effect V) × Outcome) : Type 0 where
  pub opened : creates run.0 ≡ []
  pub closing :
      ((u : Bool) × (finishes run.0 ≡ (failed, u) ∷ []) × (patches run.0 ≡ 0) × (run.1 ≢ done))
      ⊎ ((u : Bool) × (finishes run.0 ≡ (completed, u) ∷ []) × (patches run.0 ≡ 1) × (run.1 ≡ done))
  pub asked : asks run.0 ≤ limit
  pub called : provider_calls run.0 ≤ 3 * limit

pub terminal_not_done : (e : OpError) → terminal e ≢ done
terminal_not_done e h = cc

pub transient_not_done : (e : OpError) → transient e ≢ done
transient_not_done e h = cc

-- Effects outside the audit log, the patches and the questions.
abbrev pub Quiet : {V : Type 0} → List (Effect V) → Type 0
Quiet [] = Unit
Quiet (move ∷ effects) = Quiet effects
Quiet (notify fields ∷ effects) = Quiet effects
Quiet (remember k v ∷ effects) = Quiet effects
Quiet (_ ∷ effects) = ⊥

module _ {V : Type 0} where
  abbrev pub tally : List (Effect V) → List (Status × Bool) × List (Status × Bool) × ℕ × ℕ × ℕ
  tally effects =
      (creates effects, finishes effects, patches effects, asks effects, provider_calls effects)

  pub tally-Quiet : (xs ys : List (Effect V)) → Quiet xs → tally (append xs ys) ≡ tally ys
  tally-Quiet [] ys q = refl
  tally-Quiet (move ∷ xs) ys q = tally-Quiet xs ys q
  tally-Quiet (notify fields ∷ xs) ys q = tally-Quiet xs ys q
  tally-Quiet (remember k v ∷ xs) ys q = tally-Quiet xs ys q
  tally-Quiet (create s good ∷ xs) ys q = absurd q
  tally-Quiet (finish s good ∷ xs) ys q = absurd q
  tally-Quiet (ask calls ∷ xs) ys q = absurd q
  tally-Quiet (patch target fields good ∷ xs) ys q = absurd q

  pub tally_if :
      (b : Bool) (xs ys : List (Effect V))
      → Quiet xs
      → tally (append (if b then xs else []) ys) ≡ tally ys
  tally_if true xs ys q = tally-Quiet xs ys q
  tally_if false xs ys q = refl

pub transient_or_terminal :
    (b : Bool) → (if b then transient llm_call else terminal llm_call) ≢ done
transient_or_terminal true = transient_not_done llm_call
transient_or_terminal false = terminal_not_done llm_call
