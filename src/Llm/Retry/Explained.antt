-- ===== src/Llm/Retry/Explained.antt =====
-- Which attempts are made, and why the last one is the last.
use respondent_community.Common.{
  ℕ, zero, suc, ◌+◌, ◌≤◌, ◌<◌, ◌≡◌, refl, sym, true, false, Option, none, some, List, arith,
  Bool-cases, ℕ-cases, inl, inr,
}
use respondent_community.Common.Int.{ℤ}
use respondent_community.Llm.Retry.{
  LlmError, is_retryable, Outcome, answered, failed, Attempt, Result, response, permanent,
  context_error, exhausted, Trace, error_of, waits_before, after_call, before_call, retry_loop,
  attempts, retryable_complete,
}

module _ {R : Type 0} where
  -- A failure after which the loop goes on.
  abbrev pub IsTransient : Outcome R → Type 0
  IsTransient (answered r) = ⊥
  IsTransient (failed e) = is_retryable (some e) ≡ true

  -- `lastErr` when an attempt starts.
  abbrev pub last_error : (ℕ → Attempt R) → ℕ → Option LlmError
  last_error world zero = none
  last_error world (suc k) = error_of (world k).outcome

  -- Why a loop that started at the attempt `from` ended at the attempt `stop`.
  abbrev pub Ends : (ℕ → Attempt R) → ℕ → ℕ → ℕ → ℕ → Result R → Type 0
  Ends world from limit stop calls (response r) =
      (from + calls ≡ suc stop) × ((world stop).outcome ≡ answered r)
  Ends world from limit stop calls (permanent e) =
      (from + calls ≡ suc stop)
      × ((world stop).outcome ≡ failed e)
      × (is_retryable (some e) ≡ false)
  Ends world from limit stop calls (context_error e) =
      (from + calls ≡ stop) × ((world stop).canceled ≡ some e) × (0 < stop)
  Ends world from limit stop calls (exhausted last) =
      (from + calls ≡ stop) × (stop ≡ limit) × (last ≡ last_error world stop)

  -- The attempt at which the loop ended: those before it failed with a transient error.
  pub record Explained (world : ℕ → Attempt R) (from limit : ℕ) (t : Trace R) : Type 0 where
    pub stop : ℕ
    pub after : from ≤ stop
    pub within : stop ≤ limit
    pub bounded : from + t.calls ≤ limit
    pub retried : (i : ℕ) → from ≤ i → i < stop → IsTransient (world i).outcome
    pub ends : Ends world from limit stop t.calls t.result

  Ends-suc :
      (world : ℕ → Attempt R) (from limit stop calls : ℕ) (r : Result R)
      → Ends world (suc from) limit stop calls r
      → Ends world from limit stop (suc calls) r
  Ends-suc world from limit stop calls (response r) (c, e) = (omega arith, e)
  Ends-suc world from limit stop calls (permanent x) (c, e, p) = (omega arith, e, p)
  Ends-suc world from limit stop calls (context_error x) (c, e, p) = (omega arith, e, p)
  Ends-suc world from limit stop calls (exhausted x) (c, e, p) = (omega arith, e, p)

  call-Explained :
      (world : ℕ → Attempt R) (from limit : ℕ) (waits : List ℤ) (rest : Trace R) (o : Outcome R)
      → (world from).outcome ≡ o
      → from < limit
      → Explained world (suc from) limit rest
      → Explained world from limit (after_call waits o rest)
  call-Explained world from limit waits rest (answered r) same room x = record {
    stop = from;
    after = omega arith;
    within = omega arith;
    bounded = omega arith;
    retried = λ i a b. absurd (omega arith);
    ends = (omega arith, same);
  }
  call-Explained world from limit waits rest (failed e) same room x =
      elim (Bool-cases (is_retryable (some e))) [
        | inl again ↦ rw again (record {
          stop = x.stop;
          after = omega (arith, x.after);
          within = x.within;
          bounded = omega (arith, x.bounded);
          retried = λ i a b. elim (ℕ-cases from i a) [
            | inl here ↦ rw (sym here, same) again
            | inr later ↦ x.retried i later b
          ];
          ends = Ends-suc world from limit x.stop rest.calls rest.result x.ends;
        })
        | inr final ↦ rw final (record {
          stop = from;
          after = omega arith;
          within = omega arith;
          bounded = omega arith;
          retried = λ i a b. absurd (omega arith);
          ends = (omega arith, same, final);
        })
      ]

  attempt-Explained :
      (world : ℕ → Attempt R) (from limit : ℕ) (called : Trace R) (c : Option LlmError)
      → (world from).canceled ≡ c
      → from < limit
      → Explained world from limit called
      → Explained world from limit (before_call from (world from) called)
  attempt-Explained world zero limit called c same room x = x
  attempt-Explained world (suc n) limit called none same room x = rw same x
  attempt-Explained world (suc n) limit called (some e) same room x = rw same (record {
    stop = suc n;
    after = omega arith;
    within = omega arith;
    bounded = omega arith;
    retried = λ i a b. absurd (omega arith);
    ends = (omega arith, same, omega arith);
  })

  loop-Explained :
      (world : ℕ → Attempt R) (left from limit : ℕ)
      → from + left ≡ limit
      → Explained world from limit (retry_loop world left from (last_error world from))
  unfolding retry_loop
  loop-Explained world zero from limit e = record {
    stop = from;
    after = omega arith;
    within = omega (arith, e);
    bounded = omega (arith, e);
    retried = λ i a b. absurd (omega arith);
    ends = (omega arith, omega (arith, e), refl);
  }
  loop-Explained world (suc left) from limit e =
      let a = world from in
      let rest = retry_loop world left (suc from) (error_of a.outcome) in
      let room : from < limit = omega (arith, e) in
      attempt-Explained world from limit (after_call (waits_before a from) a.outcome rest)
        a.canceled refl room
        (call-Explained world from limit (waits_before a from) rest a.outcome refl room
          (loop-Explained world left (suc from) limit (omega (arith, e))))

  -- Whatever the provider does and whenever the context is cancelled, the call returns after at most
  -- one attempt more than the retries it is allowed. Every attempt before the last failed with a
  -- transient error; a response, or an error that is not transient, is that of the last attempt; the
  -- context's error is returned when it was cancelled in the wait before the next attempt; and the
  -- retries are reported as exhausted, with the last error, only when all of them were made.
  pub retryable_complete-Explained :
      (world : ℕ → Attempt R) (max_retries : ℤ)
      → Explained world 0 (attempts max_retries) (retryable_complete world max_retries)
  unfolding retryable_complete
  retryable_complete-Explained world max_retries =
      loop-Explained world (attempts max_retries) 0 (attempts max_retries) (omega arith)
