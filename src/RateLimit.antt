-- ===== src/RateLimit.antt =====
-- internal/ratelimit/transport.go. `F` is float64 with the test for a positive rate; the token bucket
-- of x/time/rate is a parameter of which only the rate and the burst are known.
pub mod Buckets
use respondent_community.Common.{
  ℕ, suc, ◌-◌, ◌≡◌, String, Bool, true, false, not, Option, none, some, List, [], ◌∷◌,
  if◌then◌else◌, ltb, string_eq,
}
use respondent_community.Common.Dict.{Dict, get, put, remove}
use respondent_community.Common.Int.{ℤ, pos, ltb_ℤ}

-- A limiter, by the rate and the burst that it was made with.
pub record Limiter (F : Type 0) : Type 0 where
  pub rate : F
  pub burst : ℤ

-- The cached bucket of a host is `none` when the host is not limited.
pub record Transport (F : Type 0) : Type 0 where
  pub buckets : Dict String (Option (Limiter F))
  pub limits : Dict String F
  pub bursts : Dict String ℤ

-- A missing burst reads as 0.
abbrev pub or_zero : Option ℤ → ℤ
or_zero none = pos 0
or_zero (some n) = n

unfoldable pub new_transport : {F : Type 0} → Transport F
new_transport = record { buckets = []; limits = []; bursts = [] }

module _ {F : Type 0} (is_positive : F → Bool) where
  unfoldable pub set_host_limit : String → F → ℤ → Transport F → Transport F
  set_host_limit host per_second burst t = if not (is_positive per_second) then t else record {
    buckets = remove host t.buckets;
    limits = put host per_second t.limits;
    bursts = put host (if ltb_ℤ burst (pos 1) then pos 1 else burst) t.bursts;
  }

-- What is configured for a host.
abbrev pub configured : {F : Type 0} → Option F → ℤ → Option (Limiter F)
configured none burst = none
configured (some rate) burst = some (record { rate = rate; burst = burst })

module _ {F : Type 0} where
  abbrev pub made : String → Transport F → Option (Limiter F)
  made host t = configured (get host t.limits) (or_zero (get host t.bursts))

  abbrev pub cached_or_made :
      String → Transport F → Option (Option (Limiter F)) → Transport F × Option (Limiter F)
  cached_or_made host t (some bucket) = (t, bucket)
  cached_or_made host t none =
      let bucket = made host t in (record t { buckets = put host bucket t.buckets }, bucket)

  unfoldable pub bucket_for : String → Transport F → Transport F × Option (Limiter F)
  bucket_for host t = cached_or_made host t (get host t.buckets)
