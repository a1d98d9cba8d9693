-- ===== src/Ingest/Origins/Fresh.antt =====
-- How old the origins are that a resolver serves.
use respondent_community.Common.{
  ℕ, ◌+◌, ◌<◌, ◌≡◌, ◌⊎◌, inl, inr, refl, subst, Bool, true, false, not, ◌&&◌, Option, none, some,
  List, [], ◌∷◌, ltb→lt, and_true, arith, ltb, if◌then◌else◌,
}
use respondent_community.Common.MultiMap.{is_nil}
use respondent_community.Ingest.Hosts.{Text, Netip}
use respondent_community.Ingest.Origins.{
  SrvRecord, SrvName, DiscoverySpec, Resolver, new_endpoint_resolver, OriginsAnswer, served,
  OriginsCall, kept_until, looked_up, ask, is_cached, origins, acceptable_origins, split_srv_name,
}

module _ (net : Netip) (spec : DiscoverySpec) where
  -- The resolver after these calls, the latest first.
  unfoldable pub after_calls : List OriginsCall → Resolver
  after_calls [] = new_endpoint_resolver
  after_calls (c ∷ cs) = (origins net spec c (after_calls cs)).0

  -- That these are the accepted origins of what the lookup of a call answered.
  abbrev pub Gave : List Text → OriginsCall → Type 0
  Gave os c =
      (name : SrvName) × (records : List (Option SrvRecord)) × (split_srv_name spec.srv_name
        ≡ some name)
      × (c.lookup_srv name ≡ some records)
      × (acceptable_origins net spec records ≡ os)

  abbrev pub Until : Resolver → OriginsCall → Type 0
  Until r c = Gave r.origins c × (c.now + spec.cache_ttl ≡ r.expires)

  -- One of the calls gave these origins, less than the time to live before.
  abbrev pub Recent : List Text → ℕ → OriginsCall → Type 0
  Recent os now c = Gave os c × (now < c.now + spec.cache_ttl)

abbrev pub Some : (OriginsCall → Type 0) → List OriginsCall → Type 0
Some P [] = ⊥
Some P (c ∷ cs) = P c ⊎ Some P cs

map-Some :
    {P Q : OriginsCall → Type 0}
    → ((c : OriginsCall) → P c → Q c)
    → (cs : List OriginsCall) → Some P cs
    → Some Q cs
map-Some f [] h = h
map-Some f (c ∷ cs) (inl p) = inl (f c p)
map-Some f (c ∷ cs) (inr h) = inr (map-Some f cs h)

if_holds :
    {A : Type 0} (P : A → Type 0) (b : Bool) {x y : A}
    → (b ≡ true → P x)
    → (b ≡ false → P y)
    → P (if b then x else y)
if_holds P true h k = h refl
if_holds P false h k = k refl

served_inj : {xs ys : List Text} → served xs ≡ served ys → xs ≡ ys
served_inj e = cc

empty_cached : (os : List Text) (b : Bool) → os ≡ [] → (not (is_nil os) && b) ≡ true → ⊥
empty_cached [] b e h = cc
empty_cached (o ∷ os) b e h = cc

-- What a resolver holds was looked up in one of the calls.
abbrev Holds : Netip → DiscoverySpec → List OriginsCall → Resolver → Type 0
Holds net spec cs r = (r.origins ≡ []) ⊎ Some (Until net spec r) cs

module _ (net : Netip) (spec : DiscoverySpec) where
  earlier :
      (c : OriginsCall) (cs : List OriginsCall) (r : Resolver)
      → Holds net spec cs r
      → Holds net spec (c ∷ cs) r
  earlier c cs r (inl e) = inl e
  earlier c cs r (inr h) = inr (inr h)

  -- The lookup of a call: what is held after it, and what is served.
  kept_until-Holds :
      (c : OriginsCall) (cs : List OriginsCall) (os : List Text)
      → Gave net spec os c
      → Holds net spec (c ∷ cs) (kept_until net spec (c.now + spec.cache_ttl) os).0
  kept_until-Holds c cs [] g = inl refl
  kept_until-Holds c cs (o ∷ os) g = inr (inl (g, refl))

  looked_up-Holds :
      (c : OriginsCall) (cs : List OriginsCall) (name : SrvName)
      (answer : Option (List (Option SrvRecord)))
      → split_srv_name spec.srv_name ≡ some name
      → c.lookup_srv name ≡ answer
      → Holds net spec (c ∷ cs) (looked_up net spec c.now answer).0
  looked_up-Holds c cs name none good lost = inl refl
  looked_up-Holds c cs name (some records) good found =
      kept_until-Holds c cs (acceptable_origins net spec records) (name, records, good, found, refl)

  ask-Holds :
      (c : OriginsCall) (cs : List OriginsCall) (r : Resolver) (name : Option SrvName)
      → split_srv_name spec.srv_name ≡ name
      → Holds net spec cs r
      → Holds net spec (c ∷ cs) (ask net spec c r name).0
  ask-Holds c cs r none bad h = earlier c cs r h
  ask-Holds c cs r (some name) good h = looked_up-Holds c cs name (c.lookup_srv name) good refl

  after_calls-Holds : (cs : List OriginsCall) → Holds net spec cs (after_calls net spec cs)
  unfolding after_calls origins
  after_calls-Holds [] = inl refl
  after_calls-Holds (c ∷ cs) =
      let h = after_calls-Holds cs in
      let r = after_calls net spec cs in
      if_holds (λ (a : Resolver × OriginsAnswer). Holds net spec (c ∷ cs) a.0) c.canceled
        (λ done. earlier c cs r h)
        (λ on.
          if_holds (λ (a : Resolver × OriginsAnswer). Holds net spec (c ∷ cs) a.0)
            (is_cached net spec c.now r) (λ cached. earlier c cs r h)
            (λ old. ask-Holds c cs r (split_srv_name spec.srv_name) refl h))

  kept_until_served :
      (expires : ℕ) (os given : List Text)
      → (kept_until net spec expires given).1 ≡ served os
      → given ≡ os
  kept_until_served expires os [] e = cc
  kept_until_served expires os (o ∷ given) e = cc

  looked_up_served :
      (c : OriginsCall) (os : List Text) (name : SrvName)
      (answer : Option (List (Option SrvRecord)))
      → split_srv_name spec.srv_name ≡ some name
      → c.lookup_srv name ≡ answer
      → (looked_up net spec c.now answer).1 ≡ served os
      → Gave net spec os c
  looked_up_served c os name none good lost e = cc
  looked_up_served c os name (some records) good found e =
      (name, records, good, found, kept_until_served (c.now + spec.cache_ttl) os _ e)

  ask_served :
      (c : OriginsCall) (r : Resolver) (os : List Text) (name : Option SrvName)
      → split_srv_name spec.srv_name ≡ name
      → (ask net spec c r name).1 ≡ served os
      → Gave net spec os c
  ask_served c r os none bad e = cc
  ask_served c r os (some name) good e = looked_up_served c os name (c.lookup_srv name) good refl e

  cached_served :
      (c : OriginsCall) (cs : List OriginsCall) (r : Resolver)
      → Holds net spec cs r
      → is_cached net spec c.now r ≡ true
      → Some (Recent net spec r.origins c.now) cs
  cached_served c cs r (inl e) h = absurd (empty_cached r.origins _ e h)
  cached_served c cs r (inr held) h =
      let soon =
        ltb→lt c.now r.expires (and_true (not (is_nil r.origins)) (ltb c.now r.expires) h).1 in
      map-Some (λ d (g, until). (g, omega (arith, until, soon))) cs held

-- After any calls, origins are served only if this call looked them up, or an earlier one did less
-- than the time to live before.
pub origins-Recent :
    (net : Netip) (spec : DiscoverySpec) (c : OriginsCall) (cs : List OriginsCall) (os : List Text)
    → (origins net spec c (after_calls net spec cs)).1 ≡ served os
    → Gave net spec os c ⊎ Some (Recent net spec os c.now) cs
unfolding origins
origins-Recent net spec c cs os =
    let r = after_calls net spec cs in
    let Fine = λ (a : Resolver × OriginsAnswer).
      a.1 ≡ served os → Gave net spec os c ⊎ Some (Recent net spec os c.now) cs in
    if_holds Fine c.canceled (λ done e. cc)
      (λ on.
        if_holds Fine (is_cached net spec c.now r)
          (λ cached e. inr (
            subst (λ x. Some (Recent net spec x c.now) cs) (served_inj e)
              (cached_served net spec c cs r (after_calls-Holds net spec cs) cached)))
          (λ old e. inl (ask_served net spec c r os (split_srv_name spec.srv_name) refl e)))
