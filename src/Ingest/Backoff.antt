-- ===== src/Ingest/Backoff.antt =====
-- internal/ingest/declarative/adapter_retry.go (`calculateBackoff`) and reconnect.go
-- (`reconnectBackoff`, `reconnectLoop`). A duration is an int64 of nanoseconds, a positive one a
-- number below 2 ^ 63; the specification's durations that are not positive, which select the
-- defaults, read as 0. `jitter half` stands for `time.Duration(rand.Float64() * float64(half))`.
pub mod Delay
pub mod Reconnect
use respondent_community.Common.{
  ℕ, suc, ◌+◌, ◌-◌, ◌*◌, ◌/◌, ◌%◌, ◌^◌, ◌≡◌, String, Bool, true, false, ◌&&◌, Option, none, some,
  List, [], ◌∷◌, if◌then◌else◌, ltb, leb, string_eq, ◌==◌,
}
use respondent_community.Common.Int.{ℤ, pos, negsuc}

abbrev pub second : ℕ
second = 1_000_000_000

pub record Backoff : Type 0 where
  pub backoff : String
  pub initial_delay : ℕ
  pub max_delay : ℕ

pub record ReconnectSpec : Type 0 where
  pub delays : Backoff
  pub max_attempts : ℕ
  pub reset_after : ℕ

abbrev pub or_default : ℕ → ℕ → ℕ
or_default default n = if ltb 0 n then n else default

-- `half + jitter` with `half = delay / 2`.
unfoldable pub jittered : (ℕ → ℕ) → ℕ → ℕ
jittered jitter delay = delay / 2 + jitter (delay / 2)

-- `reconnectBackoff` before the jitter: the three settings, and the delay.
unfoldable pub reconnect_settings : Option ReconnectSpec → Backoff
reconnect_settings none = record {
  backoff = "exponential";
  initial_delay = second;
  max_delay = 60 * second;
}
reconnect_settings (some spec) = record {
  backoff = if spec.delays.backoff == "" then "exponential" else spec.delays.backoff;
  initial_delay = or_default second spec.delays.initial_delay;
  max_delay = or_default (60 * second) spec.delays.max_delay;
}

abbrev pub clamp : ℕ → ℕ → ℕ
clamp max_delay delay = if ltb max_delay delay then max_delay else delay

-- `maxDelay >> n` and the int64 `initialDelay << n`
unfoldable pub doubled : Backoff → ℕ → ℕ
doubled s n =
    if ltb n 63 && leb s.initial_delay (s.max_delay / 2 ^ n)
    then s.initial_delay * 2 ^ n % 2 ^ 64
    else s.max_delay

-- The delay before attempt `suc n`.
unfoldable pub reconnect_delay : Backoff → ℕ → ℕ
unfolding doubled
reconnect_delay s n =
    clamp s.max_delay (if s.backoff == "exponential" then doubled s n else s.initial_delay)

unfoldable pub reconnect_backoff : (ℕ → ℕ) → Option ReconnectSpec → ℕ → ℕ
unfolding jittered reconnect_delay reconnect_settings
reconnect_backoff jitter spec n = jittered jitter (reconnect_delay (reconnect_settings spec) n)

-- `calculateBackoff` before the jitter, for attempt `suc n` with `n < 63`: the product wraps to an
-- int64, and a negative one is below the maximum; it reads as 0, the delay of a timer that fires at
-- once.
unfoldable pub retry_settings : Backoff → Backoff
retry_settings spec = record {
  backoff = spec.backoff;
  initial_delay = or_default second spec.initial_delay;
  max_delay = or_default (30 * second) spec.max_delay;
}

abbrev pub signed : ℕ → ℕ
signed w = if ltb w (2 ^ 63) then w else 0

unfoldable pub retry_delay : Backoff → ℕ → ℕ
retry_delay s n = clamp s.max_delay (
    if s.backoff == "exponential"
    then signed (s.initial_delay * 2 ^ n % 2 ^ 64)
    else s.initial_delay)

unfoldable pub calculate_backoff : (ℕ → ℕ) → Option Backoff → ℕ → ℕ
unfolding jittered retry_delay retry_settings
calculate_backoff jitter none n = second
calculate_backoff jitter (some spec) n = jittered jitter (retry_delay (retry_settings spec) n)
