-- ===== src/Domain/Registry/History.antt =====
-- The sources of a layer after any sequence of registrations and removals.
use respondent_community.Common.{
  String, ◌≡◌, refl, ap, ◌∙◌, Option, none, some, List, [], ◌∷◌, arith, count, if◌then◌else◌,
  string_eq, ◌==◌, eq_iff, Option-cases, inl, inr,
}
use respondent_community.Common.Dict
use respondent_community.Common.Dict.{Dict, get-put, get-remove}
use respondent_community.Domain.Registry.{
  Registry, register, unregister, new_registry, lookup_source_types,
}
use respondent_community.Domain.Registry.Sources.{
  IsConsistent, feeds, register-IsConsistent, unregister-IsConsistent,
}

pub data Change : Type 0 where
  registered : String → String → Change
  unregistered : String → Change

-- The layer of the last registration that still stands.
abbrev pub last_layer : String → Option String → List Change → Option String
last_layer st o [] = o
last_layer st o (registered s l ∷ changes) = last_layer st (if s == st then some l else o) changes
last_layer st o (unregistered s ∷ changes) = last_layer st (if s == st then none else o) changes

module _ {Rest Spec Geo : Type 0} where
  layer-unregister :
      (r : Registry Rest Spec Geo) (s st : String)
      → Dict.get st (unregister r s).source_to_layer
        ≡ (if s == st then none else Dict.get st r.source_to_layer)
  unfolding unregister
  layer-unregister r s st = elim (Option-cases (Dict.get s r.source_to_layer)) [
    | inl unknown ↦
        rw (unknown, unregister)
          (ground (arith, eq_iff s st, unknown, ap (λ (k : String). Dict.get k r.source_to_layer)))
    | inr (lt, known) ↦ rw (known, unregister, get-remove)
  ]

  unfoldable pub run : Registry Rest Spec Geo → List Change → Registry Rest Spec Geo
  run r [] = r
  run r (registered st lt ∷ changes) = run (register r st lt) changes
  run r (unregistered st ∷ changes) = run (unregister r st) changes

  run-IsConsistent :
      (r : Registry Rest Spec Geo) (changes : List Change)
      → IsConsistent r
      → IsConsistent (run r changes)
  unfolding run
  run-IsConsistent r [] v = v
  run-IsConsistent r (registered st lt ∷ changes) v =
      run-IsConsistent (register r st lt) changes (register-IsConsistent r st lt v)
  run-IsConsistent r (unregistered st ∷ changes) v =
      run-IsConsistent (unregister r st) changes (unregister-IsConsistent r st v)

  pub new_registry-IsConsistent :
      IsConsistent (new_registry {Rest = Rest} {Spec = Spec} {Geo = Geo})
  unfolding new_registry Dict.get
  new_registry-IsConsistent = record { listed = λ st lt. refl; full = λ lt e. cc }

  layer-run :
      (r : Registry Rest Spec Geo) (st : String) (changes : List Change)
      → Dict.get st (run r changes).source_to_layer
        ≡ last_layer st (Dict.get st r.source_to_layer) changes
  unfolding run
  layer-run r st [] = refl
  layer-run r st (registered s l ∷ changes) =
      layer-run (register r s l) st changes
      ∙ ap (λ o. last_layer st o changes) (unfold register in get-put s st l r.source_to_layer)
  layer-run r st (unregistered s ∷ changes) =
      layer-run (unregister r s) st changes
      ∙ ap (λ o. last_layer st o changes) (layer-unregister r s st)

initial_layer :
    {Rest Spec Geo : Type 0} (r : Registry Rest Spec Geo) (st : String)
    → r ≡ new_registry
    → Dict.get st r.source_to_layer ≡ none
unfolding new_registry Dict.get
initial_layer r st e = rw e

module _ (Rest Spec Geo : Type 0) where
  abbrev pub started : List Change → Registry Rest Spec Geo
  started changes = run new_registry changes

  -- After any sequence of registrations and removals, a layer lists a source exactly once if the
  -- source's last registration was under that layer and has not been removed since, and not at all
  -- otherwise.
  pub count-lookup_source_types :
      (changes : List Change) (st lt : String)
      → count st (lookup_source_types (started changes) lt)
        ≡ (if feeds (last_layer st none changes) lt then 1 else 0)
  unfolding lookup_source_types
  count-lookup_source_types changes st lt =
      (run-IsConsistent new_registry changes new_registry-IsConsistent).listed st lt
      ∙ ap (λ (o : Option String). if feeds o lt then 1 else 0)
          (layer-run new_registry st changes
            ∙ ap (λ o. last_layer st o changes) (initial_layer new_registry st refl))
