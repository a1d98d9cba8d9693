-- ===== src/Tests/Llm.antt =====
-- Retries against a provider that is busy at first.
use respondent_community.Common.{ℕ, zero, suc, ◌<◌, ◌≡◌, refl, String, false, none, All, arith}
use respondent_community.Common.Int.{pos}
use respondent_community.Llm.Retry.{
  LlmError, Outcome, answered, failed, Attempt, response, attempts, retryable_complete, retry_loop,
  is_retryable, second,
}
use respondent_community.Llm.Retry.Explained.{Explained, retryable_complete-Explained}
use respondent_community.Llm.Retry.Waits.{IsShort, retryable_complete_waits}

abbrev busy : LlmError
busy = record { rate_limited = false; provider_unavailable = false; message = "status 503: busy" }

abbrev outcome_at : ℕ → Outcome String
outcome_at zero = failed busy
outcome_at (suc n) = answered "done"

abbrev world : ℕ → Attempt String
world n = record { canceled = none; jitter = 7; outcome = outcome_at n }

second_attempt : (retryable_complete world (pos 2)).result ≡ response "done"
unfolding retryable_complete retry_loop is_retryable
second_attempt = refl

retryable_complete-Explained_example :
    Explained world 0 (attempts (pos 2)) (retryable_complete world (pos 2))
retryable_complete-Explained_example = retryable_complete-Explained world (pos 2)

small_jitter : (n : ℕ) → (world n).jitter < second
small_jitter n = omega arith

retryable_complete_waits_example : All IsShort (retryable_complete world (pos 2)).waits
retryable_complete_waits_example = retryable_complete_waits world small_jitter (pos 2)
