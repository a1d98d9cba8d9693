-- ===== src/Ingest/Backoff/Delay.antt =====
-- The delays double up to the maximum, and the jitter leaves at least half of them.
use respondent_community.Common.{
  ℕ, zero, suc, ◌*◌, ◌/◌, ◌%◌, ◌^◌, ◌≤◌, ◌<◌, ◌≡◌, min, Option, none, some, ltb, leb, string_eq,
  eq_iff, arith, Bool-cases, inl, inr,
}
use native.Mathlib.Nat.{le-div_iff_mul-le, one-le-pow, pow-le-pow_right}
use respondent_community.Ingest.Backoff.{
  Backoff, ReconnectSpec, jittered, reconnect_settings, doubled, reconnect_delay, reconnect_backoff,
  retry_delay,
}

-- The delay that is meant: the initial one doubled `n` times, or the maximum if that is less.
abbrev pub ideal : Backoff → ℕ → ℕ
ideal s n = min (s.initial_delay * 2 ^ n) s.max_delay

pub record IsValid (s : Backoff) : Type 0 where
  pub positive : 0 < s.initial_delay
  pub int64 : s.max_delay < 2 ^ 63

div_iff : (x y n : ℕ) → (x ≤ y / 2 ^ n → x * 2 ^ n ≤ y) × (x * 2 ^ n ≤ y → x ≤ y / 2 ^ n)
div_iff x y n =
    let both = le-div_iff_mul-le {k = 2 ^ n} {x = x} {y = y} (one-le-pow n 2 (omega arith)) in
    (both.0, both.1)

le_mul : (x p : ℕ) → 0 < x → p ≤ x * p
le_mul zero p h = absurd (omega arith)
le_mul (suc k) p h = grind arith

many : (s : Backoff) (n : ℕ) → IsValid s → 63 ≤ n → s.max_delay ≤ s.initial_delay * 2 ^ n
many s n v h =
    let big : 2 ^ 63 ≤ 2 ^ n = pow-le-pow_right (omega arith) h in
    let more = le_mul s.initial_delay (2 ^ n) v.positive in omega (arith, big, more, v.int64)

-- A number below 2 ^ 63 is its own remainder.
small_mod : (w : ℕ) → w < 2 ^ 63 → w % 2 ^ 64 ≡ w
small_mod w h = omega (arith, h)

doubled_fits :
    (s : Backoff) (n : ℕ)
    → s.initial_delay ≤ s.max_delay / 2 ^ n
    → s.max_delay < 2 ^ 63
    → (s.initial_delay * 2 ^ n % 2 ^ 64 ≡ s.initial_delay * 2 ^ n)
      × (s.initial_delay * 2 ^ n ≤ s.max_delay)
doubled_fits s n fits bound =
    let le = (div_iff s.initial_delay s.max_delay n).0 fits in
    (small_mod (s.initial_delay * 2 ^ n) (omega (arith, le, bound)), le)

doubled_large :
    (s : Backoff) (n : ℕ)
    → s.max_delay / 2 ^ n < s.initial_delay
    → s.max_delay < s.initial_delay * 2 ^ n
doubled_large s n large =
    let back = (div_iff s.initial_delay s.max_delay n).1 in
    elim (Bool-cases (leb (s.initial_delay * 2 ^ n) s.max_delay)) [
      | inl le ↦ absurd (ground (arith, large, back (ground (arith, le))))
      | inr gt ↦ ground (arith, gt)
    ]

doubled-ideal : (s : Backoff) (n : ℕ) → IsValid s → doubled s n ≡ ideal s n
unfolding doubled
doubled-ideal s n v = elim (Bool-cases (ltb n 63)) [
  | inl few ↦ elim (Bool-cases (leb s.initial_delay (s.max_delay / 2 ^ n))) [
    | inl fits ↦
        let f = doubled_fits s n (ground (arith, fits)) v.int64 in
        rw (few, fits) (omega (arith, f.0, f.1))
    | inr large ↦ rw (few, large) (omega (arith, doubled_large s n (ground (arith, large))))
  ]
  | inr lots ↦ rw lots (omega (arith, many s n v (ground (arith, lots))))
]

-- No wrap-around happens in the exponential delay of `reconnectBackoff`: after any number of failed
-- attempts it is the initial delay doubled that often, or the maximum if that is less.
pub reconnect_delay-ideal :
    (s : Backoff) (n : ℕ) → s.backoff ≡ "exponential" → IsValid s → reconnect_delay s n ≡ ideal s n
unfolding reconnect_delay
reconnect_delay-ideal s n e v =
    rw ((eq_iff s.backoff "exponential").1 e, doubled-ideal s n v) (ground arith)

-- The exponential delay of `calculateBackoff` is the initial delay doubled for each attempt before,
-- or the maximum if that is less, as long as the doubling stays below 2 ^ 63 nanoseconds.
pub retry_delay-ideal :
    (s : Backoff) (n : ℕ)
    → s.backoff ≡ "exponential"
    → s.initial_delay * 2 ^ n < 2 ^ 63
    → retry_delay s n ≡ ideal s n
unfolding retry_delay
retry_delay-ideal s n e h =
    rw ((eq_iff s.backoff "exponential").1 e, small_mod (s.initial_delay * 2 ^ n) h)
      (ground (arith, h))

-- The jitter is a part of the half that it is given.
abbrev pub IsJitter : (ℕ → ℕ) → Type 0
IsJitter jitter = (half : ℕ) → jitter half ≤ half

jittered_bounds :
    (jitter : ℕ → ℕ) (delay : ℕ)
    → IsJitter jitter
    → (delay / 2 ≤ jittered jitter delay) × (jittered jitter delay ≤ delay)
unfolding jittered
jittered_bounds jitter delay h = (omega arith, omega (arith, h (delay / 2)))

reconnect_settings_positive :
    (spec : Option ReconnectSpec) → 0 < (reconnect_settings spec).initial_delay
unfolding reconnect_settings
reconnect_settings_positive none = omega arith
reconnect_settings_positive (some spec) = ground arith

-- Whatever the jitter, an exponential reconnection waits at least half of the ideal delay, the
-- initial one doubled for each failed attempt up to the maximum, and never longer than all of it.
pub reconnect_backoff_bounds :
    (jitter : ℕ → ℕ) (spec : Option ReconnectSpec) (n : ℕ)
    → IsJitter jitter
    → (reconnect_settings spec).backoff ≡ "exponential"
    → (reconnect_settings spec).max_delay < 2 ^ 63
    → (ideal (reconnect_settings spec) n / 2 ≤ reconnect_backoff jitter spec n)
      × (reconnect_backoff jitter spec n ≤ ideal (reconnect_settings spec) n)
unfolding reconnect_backoff
reconnect_backoff_bounds jitter spec n h e bound =
    let s = reconnect_settings spec in
    let v : IsValid s = record { positive = reconnect_settings_positive spec; int64 = bound } in
    rw (reconnect_delay-ideal s n e v) (jittered_bounds jitter (ideal s n) h)
