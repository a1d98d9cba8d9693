-- ===== src/Ingest/Origins.antt =====
-- internal/ingest/declarative/discovery.go: the `endpointResolver`. A time is a number of nanoseconds,
-- and the zero time is 0. The records are those a lookup gave, `none` for a nil one.
pub mod Listed
pub mod Fresh
use respondent_community.Common.{
  ℕ, ◌+◌, Bool, true, false, not, ◌&&◌, ◌||◌, Option, none, some, List, [], ◌∷◌, ◌++◌,
  if◌then◌else◌, ltb, eqb, bytes_eq, ◌==◌, map, contains, ◌>>=◌,
}
use respondent_community.Common.MultiMap.{is_nil}
use respondent_community.Ingest.Hosts.{
  Text, text, Netip, canonical_dns_host, trim_left, trim_right, trim_dot, lower,
}

pub record SrvRecord : Type 0 where
  pub target : Text
  pub port : ℕ
  pub priority : ℕ
  pub weight : ℕ

pub record DiscoverySpec : Type 0 where
  pub srv_name : Text
  pub allowed_suffix : Text
  pub port : ℕ
  pub cache_ttl : ℕ

pub record Candidate : Type 0 where
  pub host : Text
  pub priority : ℕ
  pub weight : ℕ

abbrev pub has_prefix : Text → Text → Bool
has_prefix [] s = true
has_prefix (p ∷ ps) [] = false
has_prefix (p ∷ ps) (c ∷ cs) = eqb p c && has_prefix ps cs

abbrev pub has_suffix : Text → Text → Bool
has_suffix s [] = s == []
has_suffix s (c ∷ cs) = s == c ∷ cs || has_suffix s cs

-- That a host is the suffix or a name below it.
abbrev pub is_under : Text → Text → Bool
is_under suffix host = host == suffix || has_suffix (b'.' ∷ suffix) host

abbrev pub host_before : Text → Text → Bool
host_before s [] = false
host_before [] (d ∷ ds) = true
host_before (c ∷ cs) (d ∷ ds) =
    if ltb c d then true else if ltb d c then false else host_before cs ds

abbrev pub preferred : Candidate → Candidate → Bool
preferred a b =
    if not (eqb a.priority b.priority)
    then ltb a.priority b.priority
    else if not (eqb a.weight b.weight)
    then ltb b.weight a.weight
    else host_before a.host b.host

-- `sort.SliceStable`: a candidate goes behind those that are not less preferred.
abbrev pub insert : Candidate → List Candidate → List Candidate
insert c [] = c ∷ []
insert c (d ∷ ds) = if preferred c d then c ∷ d ∷ ds else d ∷ insert c ds

abbrev pub sort_onto : List Candidate → List Candidate → List Candidate
sort_onto sorted [] = sorted
sort_onto sorted (c ∷ cs) = sort_onto (insert c sorted) cs

abbrev pub origin : Candidate → Text
origin c = text "https://" ++ c.host

-- The loop over the sorted candidates, with the origins seen.
unfoldable pub new_origins : List Text → List Candidate → List Text
new_origins seen [] = []
new_origins seen (c ∷ cs) =
    if contains (origin c) seen
    then new_origins seen cs
    else origin c ∷ new_origins (origin c ∷ seen) cs

abbrev pub with_candidate : Option Candidate → List Candidate → List Candidate
with_candidate none cs = cs
with_candidate (some c) cs = c ∷ cs

module _ (net : Netip) (spec : DiscoverySpec) where
  abbrev pub named_candidate : Text → SrvRecord → Option Text → Option Candidate
  named_candidate suffix rec none = none
  named_candidate suffix rec (some host) =
      if is_under suffix host
      then some (record { host = host; priority = rec.priority; weight = rec.weight })
      else none

  abbrev pub candidate : Text → Option SrvRecord → Option Candidate
  candidate suffix none = none
  candidate suffix (some rec) =
      if not (eqb rec.port spec.port)
      then none
      else named_candidate suffix rec (canonical_dns_host net rec.target)

  unfoldable pub accepted_records : Text → List (Option SrvRecord) → List Candidate
  accepted_records suffix [] = []
  accepted_records suffix (rec ∷ records) =
      with_candidate (candidate suffix rec) (accepted_records suffix records)

  abbrev pub origins_under : Option Text → List (Option SrvRecord) → List Text
  origins_under none records = []
  origins_under (some suffix) records =
      new_origins [] (sort_onto [] (accepted_records suffix records))

  unfoldable pub acceptable_origins : List (Option SrvRecord) → List Text
  acceptable_origins = origins_under (canonical_dns_host net spec.allowed_suffix)

-- The text up to the first dot, and the text behind it.
abbrev pub in_part : ℕ → Option (Text × Text) → Option (Text × Text)
in_part c none = none
in_part c (some (before, rest)) = some (c ∷ before, rest)

abbrev pub cut : Text → Option (Text × Text)
cut [] = none
cut (c ∷ cs) = if eqb c b'.' then some ([], cs) else in_part c (cut cs)

abbrev pub underscored : Text → Option Text
underscored [] = none
underscored (c ∷ cs) = if eqb c b'_' then some cs else none

-- The service, the protocol and the name.
pub record SrvName : Type 0 where
  pub service : Text
  pub proto : Text
  pub name : Text

abbrev pub split_srv_name : Text → Option SrvName
split_srv_name srv_name = do
  (first, behind) ← cut (map lower (trim_dot (trim_right (trim_left srv_name))))
  (second, name) ← cut behind
  service ← underscored first
  proto ← underscored second
  some (record { service = service; proto = proto; name = name })

pub record Resolver : Type 0 where
  pub origins : List Text
  pub expires : ℕ

abbrev pub new_endpoint_resolver : Resolver
new_endpoint_resolver = record { origins = []; expires = 0 }

pub data OriginsError : Type 0 where
  context_done invalid_srv_name lookup_failed no_target : OriginsError

pub data OriginsAnswer : Type 0 where
  served : List Text → OriginsAnswer
  failed : OriginsError → OriginsAnswer

-- One call: whether its context is done, the time, and what the lookup answers if it is asked.
pub record OriginsCall : Type 0 where
  pub canceled : Bool
  pub now : ℕ
  pub lookup_srv : SrvName → Option (List (Option SrvRecord))

module _ (net : Netip) (spec : DiscoverySpec) where
  abbrev pub kept_until : ℕ → List Text → Resolver × OriginsAnswer
  kept_until expires [] = (new_endpoint_resolver, failed no_target)
  kept_until expires (o ∷ os) = (record { origins = o ∷ os; expires = expires }, served (o ∷ os))

  abbrev pub looked_up : ℕ → Option (List (Option SrvRecord)) → Resolver × OriginsAnswer
  looked_up now none = (new_endpoint_resolver, failed lookup_failed)
  looked_up now (some records) =
      kept_until (now + spec.cache_ttl) (acceptable_origins net spec records)

  abbrev pub ask : OriginsCall → Resolver → Option SrvName → Resolver × OriginsAnswer
  ask call r none = (r, failed invalid_srv_name)
  ask call r (some name) = looked_up call.now (call.lookup_srv name)

  abbrev pub is_cached : ℕ → Resolver → Bool
  is_cached now r = not (is_nil r.origins) && ltb now r.expires

  unfoldable pub origins : OriginsCall → Resolver → Resolver × OriginsAnswer
  origins call r =
      if call.canceled
      then (r, failed context_done)
      else if is_cached call.now r
      then (r, served r.origins)
      else ask call r (split_srv_name spec.srv_name)
