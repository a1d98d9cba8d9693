-- ===== src/Llm/Retry.antt =====
-- internal/llm/retry.go. The provider, the random jitter and the cancellation of the context are an
-- environment: what the call of an attempt gives, and what the wait before it sees. A duration is an
-- int64 of nanoseconds.
pub mod Explained
pub mod Waits
use respondent_community.Common.{
  ℕ, zero, suc, ◌*◌, String, Bool, true, false, not, ◌&&◌, ◌||◌, Option, none, some, List, [], ◌∷◌,
  ◌++◌, if◌then◌else◌, ltb, is_some, any,
}
use text.Mathlib.Text.{find?}
use respondent_community.Common.Int.{ℤ, pos, negsuc, ◌+ℤ◌, ltb_ℤ, wrapped_int}

-- What `errors.Is` says of the two sentinels, and the message.
pub record LlmError : Type 0 where
  pub rate_limited : Bool
  pub provider_unavailable : Bool
  pub message : String

abbrev pub transient_messages : List String
transient_messages =
    "status 429" ∷ "status 500" ∷ "status 502" ∷ "status 503" ∷ "status 504" ∷ "connection refused"
    ∷ "connection reset" ∷ "i/o timeout" ∷ "no such host" ∷ "context deadline exceeded"
    ∷ "Client.Timeout" ∷ []

unfoldable pub is_retryable : Option LlmError → Bool
is_retryable none = false
is_retryable (some e) =
    if e.rate_limited || e.provider_unavailable
    then true
    else any (λ part. is_some (find? e.message part)) transient_messages

pub data Outcome (R : Type 0) : Type 0 where
  answered : R → Outcome R
  failed : LlmError → Outcome R

pub record Attempt (R : Type 0) : Type 0 where
  pub canceled : Option LlmError
  pub jitter : ℕ
  pub outcome : Outcome R

pub data Result (R : Type 0) : Type 0 where
  response : R → Result R
  permanent : LlmError → Result R
  context_error : LlmError → Result R
  exhausted : Option LlmError → Result R

-- The calls of the provider, the waits between them, and what is returned.
pub record Trace (R : Type 0) : Type 0 where
  pub calls : ℕ
  pub waits : List ℤ
  pub result : Result R

abbrev pub second : ℕ
second = 1_000_000_000

unfoldable pub backoff : ℕ → ℤ
backoff attempt =
    let d = wrapped_int (attempt * attempt * second) in
    if ltb_ℤ (pos (30 * second)) d then pos (30 * second) else d

-- The values of `attempt` for which the loop goes on.
abbrev pub attempts : ℤ → ℕ
attempts (pos n) = suc n
attempts (negsuc n) = 0

module _ {R : Type 0} where
  abbrev pub error_of : Outcome R → Option LlmError
  error_of (answered r) = none
  error_of (failed e) = some e

  abbrev pub waits_before : Attempt R → ℕ → List ℤ
  unfolding backoff
  waits_before a attempt = if ltb 0 attempt then (backoff attempt +ℤ pos a.jitter) ∷ [] else []

  abbrev pub after_call : List ℤ → Outcome R → Trace R → Trace R
  after_call waits (answered r) rest = record { calls = 1; waits = waits; result = response r }
  after_call waits (failed e) rest =
      if not (is_retryable (some e))
      then record { calls = 1; waits = waits; result = permanent e }
      else record { calls = suc rest.calls; waits = waits ++ rest.waits; result = rest.result }

  abbrev pub before_call : ℕ → Attempt R → Trace R → Trace R
  before_call zero a called = called
  before_call (suc n) a called = elim a.canceled [
    | none ↦ called
    | some e ↦ record { calls = 0; waits = []; result = context_error e }
  ]

  -- The attempts that are left, the number of the next one, and `lastErr`.
  unfoldable pub retry_loop : (ℕ → Attempt R) → ℕ → ℕ → Option LlmError → Trace R
  unfolding is_retryable
  retry_loop world zero attempt last = record { calls = 0; waits = []; result = exhausted last }
  retry_loop world (suc left) attempt last =
      let a = world attempt in
      let rest = retry_loop world left (suc attempt) (error_of a.outcome) in
      before_call attempt a (after_call (waits_before a attempt) a.outcome rest)

  unfoldable pub retryable_complete : (ℕ → Attempt R) → ℤ → Trace R
  unfolding retry_loop
  retryable_complete world max_retries = retry_loop world (attempts max_retries) 0 none
