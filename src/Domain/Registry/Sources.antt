-- ===== src/Domain/Registry/Sources.antt =====
-- The two maps between sources and layers agree, whatever is registered and unregistered.
use respondent_community.Common.{
  ◌+◌, String, ◌≡◌, ◌≢◌, refl, ap, Bool, false, not, ◌&&◌, Option, none, some, List, [], ◌∷◌, ◌++◌,
  arith, contains, count, count-append, count-erase, count_absent, count_present, if◌then◌else◌,
  string_eq, ◌==◌, eq_iff, Bool-cases, Option-cases, inl, inr,
}
use respondent_community.Common.Dict
use respondent_community.Common.Dict.{Dict, get-put, get-remove}
use respondent_community.Common.MultiMap.{
  values, values-put, values-remove_value, remove_value, remove_value-full,
}
use respondent_community.Domain.Registry.{
  Registry, register, unregister, leave_old_layer, add_source,
}

abbrev pub feeds : Option String → String → Bool
feeds none lt = false
feeds (some l) lt = l == lt

-- Each source is listed once under the layer that it feeds, and under no other; and a layer that is
-- a key has a source.
pub record IsConsistent {Rest Spec Geo : Type 0} (r : Registry Rest Spec Geo) : Type 0 where
  pub listed :
      (st lt : String)
      → count st (values lt r.layer_to_sources)
        ≡ (if feeds (Dict.get st r.source_to_layer) lt then 1 else 0)
  pub full : (lt : String) → Dict.get lt r.layer_to_sources ≢ some []

append_ne_nil {ℓ} : {A : Type ℓ} (xs : List A) (a : A) → (xs ++ a ∷ []) ≢ []
append_ne_nil [] a e = cc
append_ne_nil (x ∷ xs) a e = cc

some-append_ne {ℓ} : {A : Type ℓ} (xs : List A) (a : A) → some (xs ++ a ∷ []) ≢ some []
some-append_ne [] a e = cc
some-append_ne (x ∷ xs) a e = cc

add_source-full :
    (st lt j : String) (m : Dict String (List String))
    → ((i : String) → Dict.get i m ≢ some [])
    → Dict.get j (add_source st lt m) ≢ some []
unfolding add_source
add_source-full st lt j m full = elim (Bool-cases (contains st (values lt m))) [
  | inl old ↦ rw old (full j)
  | inr new ↦
      rw (new, get-put)
        (elim (Bool-cases (lt == j)) [
          | inl same ↦ rw same (some-append_ne (values lt m) st)
          | inr other ↦ rw other (full j)
        ])
]

leave_old_layer-full :
    (st lt j : String) (o : Option String) (m : Dict String (List String))
    → ((i : String) → Dict.get i m ≢ some [])
    → Dict.get j (leave_old_layer st lt o m) ≢ some []
unfolding leave_old_layer
leave_old_layer-full st lt j none m full = full j
leave_old_layer-full st lt j (some old) m full = elim (Bool-cases (old == lt)) [
  | inl same ↦ rw same (full j)
  | inr moved ↦ rw moved (remove_value-full old j st m full)
]

count-leave_old_layer_ne :
    (st lt c j : String) (o : Option String) (m : Dict String (List String))
    → (st == c) ≡ false
    → count c (values j (leave_old_layer st lt o m)) ≡ count c (values j m)
unfolding leave_old_layer
count-leave_old_layer_ne st lt c j none m n = refl
count-leave_old_layer_ne st lt c j (some old) m n = elim (Bool-cases (old == lt)) [
  | inl same ↦ rw same
  | inr moved ↦
      rw (moved, values-remove_value)
        (ground (
          arith,
          eq_iff old j,
          count-erase c st (values old m),
          ap (λ (k : String). count c (values k m)),
        ))
]

-- Once a source has left its old layer, only the new layer can still list it.
count-leave_old_layer_self :
    (st lt j : String) (o : Option String) (m : Dict String (List String))
    → ((k : String) → count st (values k m) ≡ (if feeds o k then 1 else 0))
    → count st (values j (leave_old_layer st lt o m)) ≡ (if feeds o lt && lt == j then 1 else 0)
unfolding leave_old_layer
count-leave_old_layer_self st lt j none m h = h j
count-leave_old_layer_self st lt j (some old) m h = elim (Bool-cases (old == lt)) [
  | inl same ↦ rw (same, h j) (ground (arith, eq_iff old lt, eq_iff old j, eq_iff lt j))
  | inr moved ↦
      rw (moved, values-remove_value)
        (ground (
          arith,
          eq_iff old j,
          count-erase st st (values old m),
          eq_iff st st,
          h old,
          h j,
          eq_iff old old,
        ))
]

count-add_source :
    (st lt c j : String) (m : Dict String (List String))
    → count c (values j (add_source st lt m))
      ≡ count c (values j m)
        + (if not (contains st (values lt m)) && (lt == j && st == c) then 1 else 0)
unfolding add_source
count-add_source st lt c j m = elim (Bool-cases (contains st (values lt m))) [
  | inl old ↦ rw old (omega arith)
  | inr new ↦
      rw (new, values-put)
        (ground (
          arith,
          eq_iff lt j,
          count-append c (values lt m) (st ∷ []),
          ap (λ (k : String). count c (values k m)),
        ))
]

-- The source that has just been registered is listed under its layer, once, and nowhere else.
count-add_source_self :
    (st lt j : String) (o : Option String) (m : Dict String (List String))
    → ((k : String) → count st (values k m) ≡ (if feeds o lt && lt == k then 1 else 0))
    → count st (values j (add_source st lt m)) ≡ (if lt == j then 1 else 0)
count-add_source_self st lt j o m h =
    rw (count-add_source st lt st j m, h j)
      (elim (Bool-cases (contains st (values lt m))) [
        | inl old ↦ rw old (
            ground (
              arith,
              count_present st (values lt m) old,
              h lt,
              eq_iff lt lt,
              eq_iff lt j,
              eq_iff st st,
            ))
        | inr new ↦ rw new (
            ground (
              arith,
              count_absent st (values lt m) new,
              h lt,
              eq_iff lt lt,
              eq_iff lt j,
              eq_iff st st,
            ))
      ])

module _ {Rest Spec Geo : Type 0} where
  register-listed :
      (r : Registry Rest Spec Geo) (st lt c j : String)
      → IsConsistent r
      → count c (values j (register r st lt).layer_to_sources)
        ≡ (if feeds (Dict.get c (register r st lt).source_to_layer) j then 1 else 0)
  unfolding register
  register-listed r st lt c j v =
      let o = Dict.get st r.source_to_layer in
      let m = leave_old_layer st lt o r.layer_to_sources in
      rw get-put (elim (Bool-cases (st == c)) [
        | inl same ↦
            rw (same, ← (eq_iff st c).0 same)
              (count-add_source_self st lt j o m
                (λ k. count-leave_old_layer_self st lt k o r.layer_to_sources (v.listed st)))
        | inr other ↦
            rw (other, count-add_source st lt c j m, other)
              (ground (
                arith,
                count-leave_old_layer_ne st lt c j o r.layer_to_sources other,
                v.listed c j,
              ))
      ])

  -- Registering a source, new or known, under the same layer or another, keeps the two maps of the
  -- registry in agreement.
  pub register-IsConsistent :
      (r : Registry Rest Spec Geo) (st lt : String)
      → IsConsistent r
      → IsConsistent (register r st lt)
  register-IsConsistent r st lt v = record {
    listed = λ c j. register-listed r st lt c j v;
    full = λ j.
        unfold register in
        add_source-full st lt j
          (leave_old_layer st lt (Dict.get st r.source_to_layer) r.layer_to_sources)
          (λ i.
            leave_old_layer-full st lt i (Dict.get st r.source_to_layer) r.layer_to_sources v.full);
  }

  unregister_known-IsConsistent :
      (r : Registry Rest Spec Geo) (st lt : String)
      → IsConsistent r
      → Dict.get st r.source_to_layer ≡ some lt
      → IsConsistent (record r {
        source_to_layer = Dict.remove st r.source_to_layer;
        layer_to_sources = remove_value lt st r.layer_to_sources;
      })
  unregister_known-IsConsistent r st lt v known = record {
    listed = λ c j.
        rw (values-remove_value, get-remove)
          (ground (
            arith,
            eq_iff lt j,
            eq_iff st c,
            count-erase c st (values lt r.layer_to_sources),
            v.listed c j,
            v.listed st j,
            v.listed c lt,
            v.listed st lt,
            known,
            eq_iff lt lt,
            ap (λ (k : String). count c (values k r.layer_to_sources)),
          ));
    full = λ j. remove_value-full lt j st r.layer_to_sources v.full;
  }

  -- So does unregistering one, known or not.
  pub unregister-IsConsistent :
      (r : Registry Rest Spec Geo) (st : String) → IsConsistent r → IsConsistent (unregister r st)
  unfolding unregister
  unregister-IsConsistent r st v = elim (Option-cases (Dict.get st r.source_to_layer)) [
    | inl unknown ↦ rw (unknown, unregister) v
    | inr (lt, known) ↦ rw (known, unregister) (unregister_known-IsConsistent r st lt v known)
  ]
