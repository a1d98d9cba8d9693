-- ===== src/Llm/Retry/Waits.antt =====
-- How long the loop waits.
use respondent_community.Common.{
  ℕ, zero, suc, ◌*◌, ◌<◌, ◌≡◌, refl, Option, none, some, List, arith, All, All-append, Bool-cases,
  inl, inr, ltb,
}
use respondent_community.Common.Int.{ℤ, pos, ◌+ℤ◌, ◌≤ℤ◌, +ℤ_parts}
use respondent_community.Llm.Retry.{
  LlmError, is_retryable, Outcome, answered, failed, Attempt, Trace, error_of, waits_before,
  after_call, before_call, retry_loop, second, backoff, attempts, retryable_complete,
}

backoff_le : (attempt : ℕ) → backoff attempt ≤ℤ pos (30 * second)
unfolding backoff
backoff_le attempt = ground arith

abbrev pub IsShort : ℤ → Type 0
IsShort wait = wait ≤ℤ pos (31 * second)

wait-IsShort : (attempt jitter : ℕ) → jitter < second → IsShort (backoff attempt +ℤ pos jitter)
wait-IsShort attempt jitter h =
    omega (arith, +ℤ_parts (backoff attempt) (pos jitter), backoff_le attempt)

module _ {R : Type 0} (world : ℕ → Attempt R) (fair : (i : ℕ) → (world i).jitter < second) where
  waits_before-IsShort : (i : ℕ) → All IsShort (waits_before (world i) i)
  unfolding waits_before
  waits_before-IsShort i = elim (Bool-cases (ltb 0 i)) [
    | inl later ↦ rw later (wait-IsShort i (world i).jitter (fair i), tt)
    | inr first ↦ rw first tt
  ]

  call-IsShort :
      (waits : List ℤ) (o : Outcome R) (rest : Trace R)
      → All IsShort waits
      → All IsShort rest.waits
      → All IsShort (after_call waits o rest).waits
  call-IsShort waits (answered r) rest h k = h
  call-IsShort waits (failed e) rest h k = elim (Bool-cases (is_retryable (some e))) [
    | inl again ↦ rw again (All-append IsShort waits rest.waits h k)
    | inr final ↦ rw final h
  ]

  attempt-IsShort :
      (i : ℕ) (called : Trace R) (c : Option LlmError)
      → (world i).canceled ≡ c
      → All IsShort called.waits
      → All IsShort (before_call i (world i) called).waits
  attempt-IsShort zero called c same h = h
  attempt-IsShort (suc i) called none same h = rw same h
  attempt-IsShort (suc i) called (some e) same h = rw same tt

  loop-IsShort :
      (left i : ℕ) (last : Option LlmError) → All IsShort (retry_loop world left i last).waits
  unfolding retry_loop
  loop-IsShort zero i last = tt
  loop-IsShort (suc left) i last =
      let a = world i in
      let rest = retry_loop world left (suc i) (error_of a.outcome) in
      attempt-IsShort i (after_call (waits_before a i) a.outcome rest) a.canceled refl (
        call-IsShort (waits_before a i) a.outcome rest (waits_before-IsShort i)
          (loop-IsShort left (suc i) (error_of a.outcome)))

  -- With a jitter of less than a second, no wait is longer than 31 seconds, however many retries are
  -- allowed: the product that the wait is computed from can wrap, but its result is cut at 30
  -- seconds.
  pub retryable_complete_waits :
      (max_retries : ℤ) → All IsShort (retryable_complete world max_retries).waits
  unfolding retryable_complete
  retryable_complete_waits max_retries = loop-IsShort (attempts max_retries) 0 none
