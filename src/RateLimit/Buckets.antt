-- ===== src/RateLimit/Buckets.antt =====
-- Which limit a request meets.
use respondent_community.Common.{
  ◌≡◌, refl, subst, ap, sym, ◌∙◌, String, Bool, true, false, ◌&&◌, Option, none, some, List, [],
  ◌∷◌, if◌then◌else◌, arith, string_eq, ◌==◌, Bool-cases, inl, inr,
}
use respondent_community.Common.Dict.{
  Dict, get, put, remove, get-put, get-remove, get-put_found, get-empty,
}
use respondent_community.Common.Int.{ℤ, pos, ltb_ℤ}
use respondent_community.RateLimit.{
  Limiter, Transport, new_transport, set_host_limit, made, cached_or_made, bucket_for,
}

-- What is done with a transport: a limit is set, or a request looks for its bucket.
pub data Use (F : Type 0) : Type 0 where
  limit : String → F → ℤ → Use F
  request : String → Use F

abbrev pub at_least_one : ℤ → ℤ
at_least_one burst = if ltb_ℤ burst (pos 1) then pos 1 else burst

module _ {F : Type 0} (is_positive : F → Bool) where
  unfoldable pub apply : Use F → Transport F → Transport F
  unfolding set_host_limit bucket_for
  apply (limit host rate burst) t = set_host_limit is_positive host rate burst t
  apply (request host) t = (bucket_for host t).0

  unfoldable pub apply_all : List (Use F) → Transport F → Transport F
  unfolding apply
  apply_all [] t = t
  apply_all (u ∷ uses) t = apply_all uses (apply u t)

  -- What limits a host after a use, if `now` did before.
  abbrev pub after : Use F → String → Option (Limiter F) → Option (Limiter F)
  after (request other) host now = now
  after (limit other rate burst) host now =
      if is_positive rate && (other == host)
      then some (record { rate = rate; burst = at_least_one burst })
      else now

  -- The last limit that was set for the host with a positive rate, or the one before.
  abbrev pub last_limit : String → List (Use F) → Option (Limiter F) → Option (Limiter F)
  last_limit host [] now = now
  last_limit host (u ∷ uses) now = last_limit host uses (after u host now)

-- The cached buckets are those that would be made now.
abbrev IsCurrent : {F : Type 0} → Transport F → Type 0
IsCurrent {F} t =
    (host : String) (b : Option (Limiter F)) → get host t.buckets ≡ some b → b ≡ made host t

get-remove_found :
    {X : Type 0} (host other : String) (b : X) (m : Dict String X)
    → get other (remove host m) ≡ some b
    → ((host == other) ≡ false) × (get other m ≡ some b)
get-remove_found host other b m h = elim (Bool-cases (host == other)) [
  | inl same ↦ absurd (ground (arith, get-remove host other m, same, h))
  | inr differ ↦ (differ, ground (arith, get-remove host other m, differ, h))
]

module _ {F : Type 0} where
  lookup-IsCurrent :
      (host : String) (t : Transport F) (cached : Option (Option (Limiter F)))
      → get host t.buckets ≡ cached
      → IsCurrent t
      → ((cached_or_made host t cached).1 ≡ made host t)
        × IsCurrent (cached_or_made host t cached).0
        × ((other : String) → made other (cached_or_made host t cached).0 ≡ made other t)
  lookup-IsCurrent host t (some bucket) e h = (h host bucket e, h, λ other. refl)
  lookup-IsCurrent host t none e h = (
    refl,
    λ other b g. elim (get-put_found host other (made host t) b t.buckets g) [
      | inl (same, value) ↦ sym value ∙ ap (λ k. made k t) same
      | inr old ↦ h other b old
    ],
    λ other. refl,
  )

  bucket_for-IsCurrent :
      (host : String) (t : Transport F)
      → IsCurrent t
      → ((bucket_for host t).1 ≡ made host t)
        × IsCurrent (bucket_for host t).0
        × ((other : String) → made other (bucket_for host t).0 ≡ made other t)
  unfolding bucket_for
  bucket_for-IsCurrent host t h = lookup-IsCurrent host t (get host t.buckets) refl h

module _ {F : Type 0} (is_positive : F → Bool) where
  limited : String → F → ℤ → Transport F → Transport F
  limited host rate burst t = record {
    buckets = remove host t.buckets;
    limits = put host rate t.limits;
    bursts = put host (at_least_one burst) t.bursts;
  }

  made-limited :
      (host other : String) (rate : F) (burst : ℤ) (t : Transport F)
      → made other (limited host rate burst t) ≡ (
          if host == other
          then some (record { rate = rate; burst = at_least_one burst })
          else made other t)
  unfolding limited
  made-limited host other rate burst t = elim (Bool-cases (host == other)) [
    | inl same ↦
        rw
          (get-put host other rate t.limits, get-put host other (at_least_one burst) t.bursts, same)
          refl
    | inr differ ↦
        rw
          (
            get-put host other rate t.limits,
            get-put host other (at_least_one burst) t.bursts,
            differ,
          )
          refl
  ]

  limited-IsCurrent :
      (host : String) (rate : F) (burst : ℤ) (t : Transport F)
      → IsCurrent t
      → IsCurrent (limited host rate burst t)
  unfolding limited
  limited-IsCurrent host rate burst t h other b g =
      let (differ, old) = get-remove_found host other b t.buckets g in
      h other b old
      ∙ sym (
          made-limited host other rate burst t
          ∙ ap
              (λ c.
                if c
                then some (record { rate = rate; burst = at_least_one burst })
                else made other t)
              differ)

  set_on :
      (host : String) (rate : F) (burst : ℤ) (t : Transport F)
      → is_positive rate ≡ true
      → set_host_limit is_positive host rate burst t ≡ limited host rate burst t
  unfolding set_host_limit limited
  set_on host rate burst t on = simp on

  set_off :
      (host : String) (rate : F) (burst : ℤ) (t : Transport F)
      → is_positive rate ≡ false
      → set_host_limit is_positive host rate burst t ≡ t
  unfolding set_host_limit
  set_off host rate burst t off = simp off

  -- The buckets stay current, and a use changes the limits as it should.
  Follows : Use F → Transport F → Transport F → Type 0
  Follows u t t' =
      IsCurrent t' × ((host : String) → made host t' ≡ after is_positive u host (made host t))

  apply-Follows : (u : Use F) (t : Transport F) → IsCurrent t → Follows u t (apply is_positive u t)
  unfolding apply Follows
  apply-Follows (request other) t h =
      let (found, current, same) = bucket_for-IsCurrent other t h in (current, same)
  apply-Follows (limit other rate burst) t h = elim (Bool-cases (is_positive rate)) [
    | inl on ↦ subst (Follows (limit other rate burst) t) (sym (set_on other rate burst t on)) (
      limited-IsCurrent other rate burst t h,
      λ host. rw on (made-limited other host rate burst t),
    )
    | inr off ↦
        subst (Follows (limit other rate burst) t) (sym (set_off other rate burst t off))
          (h, λ host. rw off refl)
  ]

  -- The state after some uses, and what a host is limited by.
  after_uses :
      (uses : List (Use F)) (t : Transport F)
      → IsCurrent t
      → IsCurrent (apply_all is_positive uses t)
        × ((host : String)
            → made host (apply_all is_positive uses t)
              ≡ last_limit is_positive host uses (made host t))
  unfolding apply_all Follows
  after_uses [] t h = (h, λ host. refl)
  after_uses (u ∷ uses) t h =
      let (current, step) = apply-Follows u t h in
      let (now, made_now) = after_uses uses (apply is_positive u t) current in
      (now, λ host. made_now host ∙ ap (last_limit is_positive host uses) (step host))

  new_transport-IsCurrent : IsCurrent {F = F} new_transport
  unfolding new_transport
  new_transport-IsCurrent other b g =
      absurd (ground (arith, get-empty {V = Option (Limiter F)} other, g))

  made-new_transport : (host : String) → made {F = F} host new_transport ≡ none
  unfolding new_transport get
  made-new_transport host = refl

  -- However limits are set and requests interleave, the bucket that a request finds for its host has
  -- the last rate that was set for that host and is positive, with a burst of at least one, even if
  -- another bucket was cached for the host before; a host without such a rate has none.
  pub bucket_for-apply_all :
      (uses : List (Use F)) (host : String)
      → (bucket_for host (apply_all is_positive uses new_transport)).1
        ≡ last_limit is_positive host uses none
  bucket_for-apply_all uses host =
      let (current, limits) = after_uses uses new_transport new_transport-IsCurrent in
      let (found, _, _) =
        bucket_for-IsCurrent host (apply_all is_positive uses new_transport) current in
      found ∙ (limits host ∙ ap (last_limit is_positive host uses) (made-new_transport host))
