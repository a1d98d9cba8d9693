-- ===== src/Tests/Origins.antt =====
-- The origins of a lookup, and a resolver that serves them.
use respondent_community.Common.{
  ℕ, ◌≡◌, ◌⊎◌, refl, true, false, Option, none, some, List, [], ◌∷◌, if◌then◌else◌, count, any,
  ◌==◌, bytes_eq,
}
use respondent_community.Inproc.Subject.{split}
use respondent_community.Ingest.Hosts.{
  Text, text, Netip, host_invalid, host_dns_name, host_ip_literal, canonical_host,
}
use respondent_community.Ingest.Origins.{
  SrvRecord, DiscoverySpec, OriginsCall, served, failed, lookup_failed, acceptable_origins,
  accepted_records, new_origins, origins,
}
use respondent_community.Ingest.Origins.Listed.{offers, count-acceptable_origins}
use respondent_community.Ingest.Origins.Fresh.{after_calls, Gave, Recent, Some, origins-Recent}

-- A parser that knows one address.
abbrev net : Netip
net = record {
  Addr = ℕ;
  parse_addr = λ t. if t == text "8.8.8.8" then some 8 else none;
  unmap = λ a. a;
  is_4 = λ a. true;
  string = λ a. text "8.8.8.8";
  is_global_unicast = λ a. true;
  is_private = λ a. false;
  is_loopback = λ a. false;
  is_link_local_unicast = λ a. false;
  is_multicast = λ a. false;
  is_unspecified = λ a. false;
  is_interface_local_multicast = λ a. false;
  prefix_contains = λ p a. false;
}

spelled : canonical_host net (text " API.Example.com.") ≡ host_dns_name (text "api.example.com")
unfolding canonical_host split
spelled = refl

address : canonical_host net (text "8.8.8.8") ≡ host_ip_literal (text "8.8.8.8")
unfolding canonical_host split
address = refl

short_loopback : canonical_host net (text "127.1") ≡ host_invalid
unfolding canonical_host split
short_loopback = refl

hexadecimal : canonical_host net (text "a.0x7f") ≡ host_invalid
unfolding canonical_host split
hexadecimal = refl

-- A hexadecimal label of more than 64 bits is taken for a name.
overlong_hexadecimal :
    canonical_host net (text "a.0x10000000000000000") ≡ host_dns_name (text "a.0x10000000000000000")
unfolding canonical_host split
overlong_hexadecimal = refl

abbrev target : Text → ℕ → ℕ → Option SrvRecord
target t priority weight =
    some (record { target = t; port = 443; priority = priority; weight = weight })

abbrev records : List (Option SrvRecord)
records =
    target (text "b.example.com.") 10 5
    ∷ none
    ∷ target (text "evil.net") 0 0
    ∷ target (text "c.example.com") 10 9
    ∷ target (text "A.example.com") 1 0
    ∷ target (text "a.example.com") 20 0
    ∷ []

abbrev spec : DiscoverySpec
spec = record {
  srv_name = text "_api._tcp.example.com.";
  allowed_suffix = text "Example.com";
  port = 443;
  cache_ttl = 100;
}

abbrev mirrors : List Text
mirrors =
    text "https://a.example.com" ∷ text "https://c.example.com" ∷ text "https://b.example.com" ∷ []

ordered : acceptable_origins net spec records ≡ mirrors
unfolding acceptable_origins accepted_records new_origins canonical_host split
ordered = refl

count-acceptable_origins_example :
    count (text "https://a.example.com") (acceptable_origins net spec records)
    ≡ (if any (offers net spec (text "https://a.example.com")) records then 1 else 0)
count-acceptable_origins_example =
    count-acceptable_origins net spec (text "https://a.example.com") records

abbrev at : ℕ → Option (List (Option SrvRecord)) → OriginsCall
at now answer = record { canceled = false; now = now; lookup_srv = λ name. answer }

kept :
    (origins net spec (at 50 none) (after_calls net spec (at 7 (some records) ∷ []))).1
    ≡ served mirrors
unfolding origins after_calls acceptable_origins accepted_records new_origins canonical_host split
kept = refl

expired :
    (origins net spec (at 107 none) (after_calls net spec (at 7 (some records) ∷ []))).1
    ≡ failed lookup_failed
unfolding origins after_calls acceptable_origins accepted_records new_origins canonical_host split
expired = refl

origins-Recent_example :
    Gave net spec mirrors (at 50 none)
    ⊎ Some (Recent net spec mirrors 50) (at 7 (some records) ∷ [])
origins-Recent_example =
    origins-Recent net spec (at 50 none) (at 7 (some records) ∷ []) mirrors kept
