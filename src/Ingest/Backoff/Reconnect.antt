-- ===== src/Ingest/Backoff/Reconnect.antt =====
-- internal/ingest/declarative/reconnect.go: `reconnectLoop`. What happens to a connection is a
-- sequence of rounds: `connectFn` fails, or `recvLoop` ends after an uptime, or the context is
-- cancelled, which the loop sees before it counts its attempts, or in its wait.
use respondent_community.Common.{
  ℕ, suc, ◌+◌, ◌-◌, ◌*◌, ◌≤◌, ◌<◌, ◌≡◌, ◌≢◌, ap, Bool, false, ◌&&◌, Option, none, some, List, [],
  ◌∷◌, if◌then◌else◌, ltb, leb, length, All, arith, Bool-cases, inl, inr,
}
use respondent_community.Ingest.Backoff.{ReconnectSpec}

pub data Round : Type 0 where
  refused : Round
  ended : ℕ → Round
  canceled : Round

pub data Exit : Type 0 where
  context_done : Exit
  exhausted : Exit

-- `maxAttempts` (0 is no limit) and `resetAfter`.
pub record Limits : Type 0 where
  pub max_attempts : ℕ
  pub reset_after : ℕ

unfoldable pub limits : Option ReconnectSpec → Limits
limits none = record { max_attempts = 0; reset_after = 300 * 1_000_000_000 }
limits (some spec) = record {
  max_attempts = spec.max_attempts;
  reset_after = if ltb 0 spec.reset_after then spec.reset_after else 300 * 1_000_000_000;
}

abbrev pub gives_up : Limits → ℕ → Bool
gives_up l attempt = ltb 0 attempt && (ltb 0 l.max_attempts && leb l.max_attempts attempt)

-- The calls of `connectFn`, and how the loop ends, if it does in these rounds.
unfoldable pub reconnect_loop : Limits → ℕ → List Round → ℕ × Option Exit
reconnect_loop l attempt [] = (0, if gives_up l attempt then some exhausted else none)
reconnect_loop l attempt (canceled ∷ rounds) = (0, some context_done)
reconnect_loop l attempt (refused ∷ rounds) =
    let (calls, exit) = reconnect_loop l (suc attempt) rounds in
    if gives_up l attempt then (0, some exhausted) else (suc calls, exit)
reconnect_loop l attempt (ended uptime ∷ rounds) =
    let next = suc (if leb l.reset_after uptime then 0 else attempt) in
    let (calls, exit) = reconnect_loop l next rounds in
    if gives_up l attempt then (0, some exhausted) else (suc calls, exit)

-- A round that does not reset the count of attempts.
abbrev pub IsShort : Limits → Round → Type 0
IsShort l refused = Unit
IsShort l (ended uptime) = uptime < l.reset_after
IsShort l canceled = ⊥

-- Where the number of attempts is limited and no connection lasts, the loop gives up after exactly
-- that many connection attempts.
pub reconnect_loop_exhausted :
    (l : Limits) (attempt : ℕ) (rounds : List Round)
    → 0 < l.max_attempts
    → attempt ≤ l.max_attempts
    → All (IsShort l) rounds
    → l.max_attempts ≤ attempt + length rounds
    → reconnect_loop l attempt rounds ≡ (l.max_attempts - attempt, some exhausted)
unfolding reconnect_loop
reconnect_loop_exhausted l attempt [] h le short enough = ground (arith, h, le, enough)
reconnect_loop_exhausted l attempt (canceled ∷ rounds) h le short enough = absurd short.0
reconnect_loop_exhausted l attempt (refused ∷ rounds) h le short enough =
    elim (Bool-cases (gives_up l attempt)) [
      | inl over ↦ rw over (ap (λ k. (k, some exhausted)) (ground (arith, over)))
      | inr on ↦
          let more : attempt < l.max_attempts = ground (arith, on, h) in
          rw (on, reconnect_loop_exhausted l (suc attempt) rounds h more short.1 (omega arith))
            (ap (λ k. (k, some exhausted)) (omega (arith, more)))
    ]
reconnect_loop_exhausted l attempt (ended uptime ∷ rounds) h le short enough =
    let brief : leb l.reset_after uptime ≡ false = ground (arith, short.0) in
    elim (Bool-cases (gives_up l attempt)) [
      | inl over ↦ rw over (ap (λ k. (k, some exhausted)) (ground (arith, over)))
      | inr on ↦
          let more : attempt < l.max_attempts = ground (arith, on, h) in
          rw
            (
              on,
              brief,
              reconnect_loop_exhausted l (suc attempt) rounds h more short.1 (omega arith),
            )
            (ap (λ k. (k, some exhausted)) (omega (arith, more)))
    ]

patient : (l : Limits) (attempt : ℕ) → l.max_attempts ≡ 0 → gives_up l attempt ≡ false
patient l attempt h = ground (arith, h)

-- Where it is not limited, the loop never gives up by itself.
pub reconnect_loop_unlimited :
    (l : Limits) (attempt : ℕ) (rounds : List Round)
    → l.max_attempts ≡ 0
    → (reconnect_loop l attempt rounds).1 ≢ some exhausted
unfolding reconnect_loop
reconnect_loop_unlimited l attempt [] h = rw (patient l attempt h) (λ e. cc)
reconnect_loop_unlimited l attempt (canceled ∷ rounds) h = λ e. cc
reconnect_loop_unlimited l attempt (refused ∷ rounds) h =
    rw (patient l attempt h) (reconnect_loop_unlimited l (suc attempt) rounds h)
reconnect_loop_unlimited l attempt (ended uptime ∷ rounds) h =
    rw (patient l attempt h)
      (reconnect_loop_unlimited l (suc (if leb l.reset_after uptime then 0 else attempt)) rounds h)
