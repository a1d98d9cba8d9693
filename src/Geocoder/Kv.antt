-- ===== src/Geocoder/Kv.antt =====
-- internal/infra/inmem/kv.go: `KVCache`, and the interface that its clients rely on. Times are
-- nanoseconds; each operation takes the mutex, and the time at which it reads the clock.
use respondent_community.Common.{
  ℕ, ◌+◌, ◌≡◌, String, Bool, true, false, Option, none, some, if◌then◌else◌, ltb, leb, string_eq,
  ◌==◌, arith, Bool-cases, inl, inr,
}
use respondent_community.Common.Dict
use respondent_community.Common.Dict.{Dict, get-put, beq_refl}

-- The entry expires after `expires_at`; `none` is the zero time.
pub record Entry : Type 0 where
  pub value : String
  pub expires_at : Option ℕ

abbrev pub past : ℕ → Option ℕ → Bool
past now none = false
past now (some t) = ltb t now

unfoldable pub expired : ℕ → Entry → Bool
expired now e = past now e.expires_at

abbrev pub live_value : ℕ → Option Entry → Option String
live_value now none = none
live_value now (some e) = if expired now e then none else some e.value

-- `Get`; `none` is `NotFoundError`.
unfoldable pub kv_get : ℕ → String → Dict String Entry → Option String
kv_get now key entries = live_value now (Dict.get key entries)

-- `Set`
unfoldable pub kv_set : ℕ → ℕ → String → String → Dict String Entry → Dict String Entry
kv_set now ttl key value entries =
    Dict.put key
      (record { value = value; expires_at = if ltb 0 ttl then some (now + ttl) else none }) entries

-- A value written at `now` is there at `later`: it has no time limit, or is within it.
abbrev pub is_fresh : ℕ → ℕ → ℕ → Bool
is_fresh now ttl later = if ltb 0 ttl then leb later (now + ttl) else true

-- What the geocoder relies on.
pub record KvCache : Type 1 where
  pub Store : Type 0
  pub get : ℕ → String → Store → Option String
  pub set : ℕ → ℕ → String → String → Store → Store
  pub get_set :
      (now ttl later : ℕ) (k j value : String) (s : Store)
      → get later j (set now ttl k value s)
        ≡ (if k == j then (if is_fresh now ttl later then some value else none) else get later j s)

-- A value that was set is found until its time limit passes and not after it, and every other key is
-- found as before.
pub kv_get-kv_set :
    (now ttl later : ℕ) (k j value : String) (entries : Dict String Entry)
    → kv_get later j (kv_set now ttl k value entries) ≡ (
        if k == j
        then (if is_fresh now ttl later then some value else none)
        else kv_get later j entries)
unfolding kv_get kv_set expired
kv_get-kv_set now ttl later k j value entries = elim (Bool-cases (k == j)) [
  | inl same ↦ rw (get-put, same) (ground arith)
  | inr other ↦ rw (get-put, other)
]

abbrev pub inmem_cache : KvCache
inmem_cache = record {
  Store = Dict String Entry;
  get = kv_get;
  set = kv_set;
  get_set = kv_get-kv_set;
}
