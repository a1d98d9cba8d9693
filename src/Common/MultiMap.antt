-- ===== src/Common/MultiMap.antt =====
-- Go's `map[K][]V`, with the removal of one value that both the bus and the source registry write
-- out: the shortened list is written back only if the value was found, and an empty list is deleted.
use mathlib.Core.Path.{◌≡◌, refl, ap, sym, ◌∙◌}
use mathlib.Core.Logic.{◌≢◌, inl, inr}
use mathlib.Core.Bool.{Bool, true, false, false≢true}
use mathlib.Core.Option.{Option, none, some}
use mathlib.Core.List.{List, [], ◌∷◌}
use native.Mathlib.Omega.{arith}
use respondent_community.Common.Tests.{if◌then◌else◌, Bool-cases}
use respondent_community.Common.Equality.{Eq, ◌==◌}
use respondent_community.Common.Counting.{contains, erase, erase_absent}
use respondent_community.Common.Dict
use respondent_community.Common.Dict.{Dict, get-put, get-remove}

abbrev pub or_nil {ℓ} : {A : Type ℓ} → Option (List A) → List A
or_nil none = []
or_nil (some l) = l

abbrev pub is_nil {ℓ} : {A : Type ℓ} → List A → Bool
is_nil [] = true
is_nil (x ∷ xs) = false

is_nil_sound {ℓ} : {A : Type ℓ} (l : List A) → is_nil l ≡ true → l ≡ []
is_nil_sound [] h = refl
is_nil_sound (x ∷ l) h = cc

not_some_nil {ℓ} : {A : Type ℓ} (o : Option (List A)) → is_nil (or_nil o) ≡ false → o ≢ some []
not_some_nil none h e = cc
not_some_nil (some l) h e = absurd (false≢true (sym h ∙ ap (λ o. is_nil (or_nil o)) e))

module _ {ℓ κ} {K : Type ℓ} {V : Type κ} ⦃e : Eq K⦄ where
  -- `m[k]`: a missing key reads as the nil slice.
  abbrev pub values : K → Dict K (List V) → List V
  values k m = or_nil (Dict.get k m)

  unfoldable pub prune : K → Dict K (List V) → Dict K (List V)
  prune k m = if is_nil (values k m) then Dict.remove k m else m

  pub values-put :
      (k j : K) (l : List V) (m : Dict K (List V))
      → values j (Dict.put k l m) ≡ (if k == j then l else values j m)
  values-put k j l m = rw get-put (ground arith)

  values-prune : (k j : K) (m : Dict K (List V)) → values j (prune k m) ≡ values j m
  unfolding prune
  values-prune k j m = elim (Bool-cases (is_nil (values k m))) [
    | inl empty ↦
        rw (empty, get-remove) (ground (arith, e.beq_iff k j, is_nil_sound (values k m) empty))
    | inr full ↦ rw full
  ]

  get-pruned :
      (k j : K) (m : Dict K (List V))
      → is_nil (values k m) ≡ true
      → Dict.get j (prune k m) ≡ (if k == j then none else Dict.get j m)
  unfolding prune
  get-pruned k j m empty = rw (empty, get-remove)

  get-kept :
      (k j : K) (m : Dict K (List V))
      → is_nil (values k m) ≡ false
      → Dict.get j (prune k m) ≡ Dict.get j m
  unfolding prune
  get-kept k j m full = rw full

  module _ ⦃d : Eq V⦄ where
    unfoldable pub write_back : K → V → Dict K (List V) → Dict K (List V)
    write_back k v m = let vs = values k m in if contains v vs then Dict.put k (erase v vs) m else m

    unfoldable pub remove_value : K → V → Dict K (List V) → Dict K (List V)
    unfolding write_back prune
    remove_value k v m = prune k (write_back k v m)

    values-write_back :
        (k j : K) (v : V) (m : Dict K (List V))
        → values j (write_back k v m) ≡ (if k == j then erase v (values k m) else values j m)
    unfolding write_back
    values-write_back k j v m = elim (Bool-cases (contains v (values k m))) [
      | inl found ↦ rw found (values-put k j (erase v (values k m)) m)
      | inr absent ↦ rw absent (
          ground
            (arith, e.beq_iff k j, erase_absent v (values k m) absent, ap (λ (i : K). values i m)))
    ]

    -- After a removal the list under the key has lost the value, and no other list changes.
    pub values-remove_value :
        (k j : K) (v : V) (m : Dict K (List V))
        → values j (remove_value k v m) ≡ (if k == j then erase v (values k m) else values j m)
    unfolding remove_value
    values-remove_value k j v m = values-prune k j (write_back k v m) ∙ values-write_back k j v m

    get-write_back_ne :
        (k j : K) (v : V) (m : Dict K (List V))
        → (k == j) ≡ false
        → Dict.get j (write_back k v m) ≡ Dict.get j m
    unfolding write_back
    get-write_back_ne k j v m n = elim (Bool-cases (contains v (values k m))) [
      | inl found ↦ rw (found, get-put, n)
      | inr absent ↦ rw absent
    ]

    -- A removal never leaves an empty list under a key, if there was none.
    pub remove_value-full :
        (k j : K) (v : V) (m : Dict K (List V))
        → ((i : K) → Dict.get i m ≢ some [])
        → Dict.get j (remove_value k v m) ≢ some []
    unfolding remove_value
    remove_value-full k j v m full x = elim (Bool-cases (is_nil (values k (write_back k v m)))) [
      | inl empty ↦ elim (Bool-cases (k == j)) [
        | inl same ↦ cc (x, get-pruned k j (write_back k v m) empty, same)
        | inr other ↦ full j (
            ground
              (arith, get-pruned k j (write_back k v m) empty, get-write_back_ne k j v m other))
      ]
      | inr kept ↦ elim (Bool-cases (k == j)) [
        | inl same ↦ not_some_nil (Dict.get k (write_back k v m)) kept (
            ap (λ (i : K). Dict.get i (write_back k v m)) ((e.beq_iff k j).0 same)
            ∙ (sym (get-kept k j (write_back k v m) kept) ∙ x))
        | inr other ↦ full j (
            sym (get-write_back_ne k j v m other)
            ∙ (sym (get-kept k j (write_back k v m) kept) ∙ x))
      ]
    ]
