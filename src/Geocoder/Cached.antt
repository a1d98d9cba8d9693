-- ===== src/Geocoder/Cached.antt =====
-- internal/geocoder/cached.go: the read-through cache of a geocoding provider. The provider, the key
-- of a query (a prefix of its SHA-256) and the JSON of a result are parameters.
use respondent_community.Common.{
  ℕ, ◌≡◌, ◌⊎◌, inl, inr, refl, ap, ◌∙◌, String, Bool, true, false, Option, none, some,
  if◌then◌else◌, ltb, string_eq, eq_iff, ◌==◌, arith, Bool-cases,
}
use respondent_community.Geocoder.Kv.{KvCache, is_fresh}

-- What the provider returns.
pub data Answer (R : Type 0) : Type 0 where
  failed : Answer R
  no_match : Answer R
  found : R → Answer R

-- `json.Marshal` and `json.Unmarshal` of a result: what is written reads back, and is not the marker
-- of a miss, which starts with a NUL byte.
pub record Codec (R : Type 0) : Type 0 where
  pub encode : R → String
  pub decode : String → Option R
  pub marker : String
  pub decode_encode : (r : R) → decode (encode r) ≡ some r
  pub encode_marker : (r : R) → (encode r == marker) ≡ false

pub record Ttls : Type 0 where
  pub ttl : ℕ
  pub negative_ttl : ℕ

module _ (kv : KvCache) {R : Type 0} (codec : Codec R) where
  open kv use {Store, get, set, get_set}
  open codec use {encode, decode, marker, decode_encode, encode_marker}

  abbrev pub decoded : Option R → Option (Answer R)
  decoded none = none
  decoded (some r) = some (found r)

  abbrev pub read : Option String → Option (Answer R)
  read none = none
  read (some raw) = if raw == marker then some no_match else decoded (decode raw)

  -- `lookup`; `none` is a miss or an entry that does not decode.
  unfoldable pub lookup : ℕ → String → Store → Option (Answer R)
  lookup now key s = read (get now key s)

  unfoldable pub store : Ttls → ℕ → String → Answer R → Store → Store
  store t now key failed s = s
  store t now key no_match s =
      if ltb 0 t.negative_ttl then set now t.negative_ttl key marker s else s
  store t now key (found r) s = set now t.ttl key (encode r) s

  -- `Geocode` and `ReverseGeocode` from the key on: the answer, the cache, and whether the provider
  -- was asked. `inner` is what it answers, if it is.
  abbrev pub answer_from :
      Ttls → ℕ → String → Answer R → Store → Option (Answer R) → Answer R × Store × Bool
  answer_from t now key inner s (some a) = (a, s, false)
  answer_from t now key inner s none = (inner, store t now key inner s, true)

  unfoldable pub geocode : Ttls → ℕ → String → Answer R → Store → Answer R × Store × Bool
  unfolding lookup store
  geocode t now key inner s = answer_from t now key inner s (lookup now key s)

  lookup-set :
      (now ttl later : ℕ) (k j value : String) (s : Store)
      → lookup later j (set now ttl k value s) ≡ (
          if k == j
          then (if is_fresh now ttl later then read (some value) else none)
          else lookup later j s)
  unfolding lookup
  lookup-set now ttl later k j value s = elim (Bool-cases (k == j)) [
    | inl same ↦ elim (Bool-cases (is_fresh now ttl later)) [
      | inl fresh ↦ rw (get_set, same, fresh)
      | inr stale ↦ rw (get_set, same, stale)
    ]
    | inr other ↦ rw (get_set, other)
  ]

  read-encode : (r : R) → read (some (encode r)) ≡ some (found r)
  read-encode r = rw (encode_marker r) (ap decoded (decode_encode r))

  read-marker : read (some marker) ≡ some no_match
  read-marker = rw ((eq_iff marker marker).1 refl)

  -- The answers that a later query finds, by the answer that was stored.
  abbrev pub remembered : Ttls → ℕ → ℕ → Answer R → Option (Answer R) → Option (Answer R)
  remembered t now later failed before = before
  remembered t now later no_match before =
      if ltb 0 t.negative_ttl
      then if is_fresh now t.negative_ttl later then some no_match else none
      else before
  remembered t now later (found r) before =
      if is_fresh now t.ttl later then some (found r) else none

  lookup-store :
      (t : Ttls) (now later : ℕ) (k j : String) (a : Answer R) (s : Store)
      → lookup later j (store t now k a s)
        ≡ (if k == j then remembered t now later a (lookup later j s) else lookup later j s)
  unfolding store
  lookup-store t now later k j failed s = ground arith
  lookup-store t now later k j no_match s = elim (Bool-cases (ltb 0 t.negative_ttl)) [
    | inl on ↦ rw (on, lookup-set, read-marker, on)
    | inr off ↦ rw off (ground arith)
  ]
  lookup-store t now later k j (found r) s = rw (lookup-set, read-encode)

  -- The second of two queries for one key, the first of which missed the cache: the answer of the
  -- provider to the first is given again without asking it, as long as that answer is fresh.
  pub geocode_repeated :
      (t : Ttls) (now later : ℕ) (key : String) (a b other : Answer R) (s : Store)
      → lookup now key s ≡ none
      → remembered t now later a (lookup later key s) ≡ some b
      → geocode t later key other (geocode t now key a s).1 ≡ (b, (geocode t now key a s).1, false)
  unfolding geocode
  geocode_repeated t now later key a b other s miss kept =
      let hit : lookup later key (store t now key a s) ≡ some b =
        rw (lookup-store, (eq_iff key key).1 refl) kept in
      rw miss (rw hit)

  module _ (key : String → String) (provider : String → Answer R) where
    -- Whatever the cache answers for a query is what the provider answers.
    abbrev pub Coherent : Store → Type 0
    Coherent s =
        (q : String) (now : ℕ) (a : Answer R) → lookup now (key q) s ≡ some a → a ≡ provider q

    remembered_sound :
        (t : Ttls) (now later : ℕ) (a b : Answer R) (before : Option (Answer R))
        → remembered t now later a before ≡ some b
        → (b ≡ a) ⊎ (before ≡ some b)
    remembered_sound t now later failed b before e = inr e
    remembered_sound t now later no_match b before e = ground (arith, e)
    remembered_sound t now later (found r) b before e = ground (arith, e)

    store-Coherent :
        (t : Ttls) (now : ℕ) (q : String) (s : Store)
        → ((p : String) → key q ≡ key p → q ≡ p)
        → Coherent s
        → Coherent (store t now (key q) (provider q) s)
    store-Coherent t now q s injective c p later a e = elim (Bool-cases (key q == key p)) [
      | inl same ↦
          let keys = (eq_iff (key q) (key p)).0 same in
          let stored = lookup-store t now later (key q) (key p) (provider q) s in
          let r : remembered t now later (provider q) (lookup later (key p) s) ≡ some a =
            ground (arith, stored, e, same) in
          elim (remembered_sound t now later (provider q) a (lookup later (key p) s) r) [
            | inl new ↦ new ∙ ap provider (injective p keys)
            | inr old ↦ c p later a old
          ]
      | inr other ↦
          c p later a
            (ground (arith, e, other, lookup-store t now later (key q) (key p) (provider q) s))
    ]

    -- If no other query has the key of a query, and the cache is coherent with the provider, the cached
    -- geocoder answers the query as the provider does, whether it asks it or not, and the cache stays
    -- coherent.
    pub geocode-Coherent :
        (t : Ttls) (now : ℕ) (q : String) (s : Store)
        → ((p : String) → key q ≡ key p → q ≡ p)
        → Coherent s
        → (let r = geocode t now (key q) (provider q) s in (r.0 ≡ provider q) × Coherent r.1)
    unfolding geocode
    geocode-Coherent t now q s injective c = go (lookup now (key q) s) refl
      where
        go :
            (o : Option (Answer R))
            → lookup now (key q) s ≡ o
            → (let r = answer_from t now (key q) (provider q) s o in
                (r.0 ≡ provider q) × Coherent r.1)
        go none e = (refl, store-Coherent t now q s injective c)
        go (some a) e = (c q now a e, c)
