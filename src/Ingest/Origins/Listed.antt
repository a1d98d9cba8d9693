-- ===== src/Ingest/Origins/Listed.antt =====
-- Which origins are accepted of the records of a lookup.
use respondent_community.Common.{
  ◌≡◌, ◌∙◌, sym, ap, refl, Bool, false, ◌&&◌, ◌||◌, Option, none, some, List, [], ◌∷◌, ◌++◌,
  if◌then◌else◌, eqb, bytes_eq, bytes_beq_iff, ◌==◌, contains, count, any, arith, Bool-cases,
  Option-cases, inl, inr,
}
use respondent_community.Ingest.Hosts.{Text, text, Netip, canonical_dns_host}
use respondent_community.Ingest.Origins.{
  SrvRecord, DiscoverySpec, Candidate, is_under, insert, preferred, sort_onto, origin, new_origins,
  candidate, named_candidate, with_candidate, accepted_records, acceptable_origins,
}

-- That a target stands for an origin under the suffix: both are public names.
abbrev pub stands_for : Text → Option Text → Option Text → Bool
stands_for o (some suffix) (some host) = is_under suffix host && text "https://" ++ host == o
stands_for o _ _ = false

module _ (net : Netip) (spec : DiscoverySpec) (o : Text) where
  abbrev pub offers : Option SrvRecord → Bool
  offers none = false
  offers (some rec) =
      eqb rec.port spec.port
      && stands_for o (canonical_dns_host net spec.allowed_suffix)
          (canonical_dns_host net rec.target)

abbrev names : Text → Candidate → Bool
names o c = origin c == o

or_swap : (a b c : Bool) → (a || (b || c)) ≡ (b || (a || c))
or_swap a b c = ground arith

or_false : (a : Bool) → (a || false) ≡ a
or_false a = ground arith

or_assoc : (a b c : Bool) → ((a || b) || c) ≡ (b || (a || c))
or_assoc a b c = ground arith

any-insert :
    (o : Text) (c : Candidate) (ds : List Candidate)
    → any (names o) (insert c ds) ≡ (names o c || any (names o) ds)
any-insert o c [] = refl
any-insert o c (d ∷ ds) = elim (Bool-cases (preferred c d)) [
  | inl first ↦ rw first refl
  | inr behind ↦ rw (behind, any-insert o c ds) (or_swap (names o d) (names o c) _)
]

any-sort_onto :
    (o : Text) (sorted cs : List Candidate)
    → any (names o) (sort_onto sorted cs) ≡ (any (names o) sorted || any (names o) cs)
any-sort_onto o sorted [] = sym (or_false _)
any-sort_onto o sorted (c ∷ cs) =
    rw (any-sort_onto o (insert c sorted) cs, any-insert o c sorted)
      (or_assoc (names o c) (any (names o) sorted) (any (names o) cs))

count-new_origins :
    (o : Text) (seen : List Text) (cs : List Candidate)
    → count o (new_origins seen cs)
      ≡ (if contains o seen then 0 else if any (names o) cs then 1 else 0)
unfolding new_origins
count-new_origins o seen [] = ground arith
count-new_origins o seen (c ∷ cs) =
    let old = count-new_origins o seen cs in
    let new = count-new_origins o (origin c ∷ seen) cs in
    elim (Bool-cases (names o c)) [
      | inl same ↦
          let e : contains (origin c) seen ≡ contains o seen =
            ap (λ x. contains x seen) ((bytes_beq_iff (origin c) o).0 same) in
          elim (Bool-cases (contains (origin c) seen)) [
            | inl known ↦ ground (arith, known, same, e, old)
            | inr fresh ↦ ground (arith, fresh, same, e, new)
          ]
      | inr other ↦ elim (Bool-cases (contains (origin c) seen)) [
        | inl known ↦ ground (arith, known, other, old)
        | inr fresh ↦ ground (arith, fresh, other, new)
      ]
    ]

named_offered :
    (net : Netip) (spec : DiscoverySpec) (o suffix : Text) (rec : SrvRecord) (host : Option Text)
    (cs : List Candidate)
    → any (names o) (with_candidate (named_candidate net spec suffix rec host) cs)
      ≡ (stands_for o (some suffix) host || any (names o) cs)
named_offered net spec o suffix rec none cs = refl
named_offered net spec o suffix rec (some host) cs = elim (Bool-cases (is_under suffix host)) [
  | inl below ↦ rw below refl
  | inr other ↦ rw other refl
]

offered :
    (net : Netip) (spec : DiscoverySpec) (o suffix : Text) (rec : Option SrvRecord)
    (cs : List Candidate)
    → canonical_dns_host net spec.allowed_suffix ≡ some suffix
    → any (names o) (with_candidate (candidate net spec suffix rec) cs)
      ≡ (offers net spec o rec || any (names o) cs)
offered net spec o suffix none cs h = refl
offered net spec o suffix (some rec) cs h = elim (Bool-cases (eqb rec.port spec.port)) [
  | inr other ↦ rw other refl
  | inl same ↦
      rw (same, h) (named_offered net spec o suffix rec (canonical_dns_host net rec.target) cs)
]

any-accepted_records :
    (net : Netip) (spec : DiscoverySpec) (o suffix : Text) (records : List (Option SrvRecord))
    → canonical_dns_host net spec.allowed_suffix ≡ some suffix
    → any (names o) (accepted_records net spec suffix records) ≡ any (offers net spec o) records
unfolding accepted_records
any-accepted_records net spec o suffix [] h = refl
any-accepted_records net spec o suffix (rec ∷ records) h =
    offered net spec o suffix rec (accepted_records net spec suffix records) h
    ∙ ap (λ b. offers net spec o rec || b) (any-accepted_records net spec o suffix records h)

-- Without a suffix nothing is offered.
offers_nothing :
    (net : Netip) (spec : DiscoverySpec) (o : Text) (records : List (Option SrvRecord))
    → canonical_dns_host net spec.allowed_suffix ≡ none
    → any (offers net spec o) records ≡ false
offers_nothing net spec o [] h = refl
offers_nothing net spec o (none ∷ records) h = offers_nothing net spec o records h
offers_nothing net spec o (some rec ∷ records) h =
    rw (h, offers_nothing net spec o records h)
      (elim (Bool-cases (eqb rec.port spec.port)) [
        | inl same ↦ rw same refl
        | inr other ↦ rw other refl
      ])

-- An origin is listed once if a record has the declared port, the canonical spelling of its target is
-- a public name that is the suffix or below it, and the origin is "https://" and that name; else it
-- is not listed. If the declared suffix is no public name, none is.
pub count-acceptable_origins :
    (net : Netip) (spec : DiscoverySpec) (o : Text) (records : List (Option SrvRecord))
    → count o (acceptable_origins net spec records)
      ≡ (if any (offers net spec o) records then 1 else 0)
unfolding acceptable_origins
count-acceptable_origins net spec o records =
    elim (Option-cases (canonical_dns_host net spec.allowed_suffix)) [
      | inl bad ↦ rw (bad, offers_nothing net spec o records bad) refl
      | inr (suffix, good) ↦ rw good (
          count-new_origins o [] (sort_onto [] (accepted_records net spec suffix records))
          ∙ ap (λ b. if b then 1 else 0)
              (any-sort_onto o [] (accepted_records net spec suffix records)
                ∙ any-accepted_records net spec o suffix records good))
    ]
