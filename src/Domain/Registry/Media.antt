-- ===== src/Domain/Registry/Media.antt =====
-- `mergeMediaOrigins` and `RegisterWithDisplay` of internal/domain/dynamic_registry.go: when a second
-- source of a layer brings its display configuration, the origins that the first one declared for a
-- media slot stay admitted.
use Prim.Native.Nat.{Ordering}
use Prim.Native.String.{compare}
use respondent_community.Common.{
  String, ◌≡◌, refl, ap, Bool, false, ◌||◌, Option, none, some, List, [], ◌∷◌, ◌++◌, map, arith,
  contains, if◌then◌else◌, string_eq, ◌==◌, eq_iff, Bool-cases, inl, inr,
}
use respondent_community.Common.Dict
use respondent_community.Common.Dict.{Dict, get-put}
use respondent_community.Common.MultiMap.{is_nil}
use respondent_community.Domain.Registry.{Registry, DisplayConfig, MediaConfig, register}

-- `slices.Sort` on strings, as an insertion sort
unfoldable pub insert_sorted : String → List String → List String
insert_sorted a [] = a ∷ []
insert_sorted a (x ∷ xs) = elim (compare x a) [
  | Ordering.lt ↦ x ∷ insert_sorted a xs
  | _ ↦ a ∷ x ∷ xs
]

unfoldable pub sort : List String → List String
unfolding insert_sorted
sort [] = []
sort (x ∷ xs) = insert_sorted x (sort xs)

-- The loop that appends the origins that are not there.
unfoldable pub add_origins : List String → List String → List String
add_origins [] origins = origins
add_origins (o ∷ prior) origins =
    add_origins prior (if contains o origins then origins else origins ++ o ∷ [])

unfoldable pub merged_origins : Option (List String) → List String → List String
unfolding sort add_origins
merged_origins none [] = []
merged_origins none (o ∷ origins) = sort (o ∷ origins)
merged_origins (some prior) [] = []
merged_origins (some []) (o ∷ origins) = []
merged_origins (some (p ∷ prior)) (o ∷ origins) = sort (add_origins (p ∷ prior) (o ∷ origins))

module _ {Rest : Type 0} where
  -- The maps `prior` and `seen`, in one: a later slot of the same name overwrites an earlier one.
  unfoldable pub prior_origins :
      List (MediaConfig Rest) → Dict String (List String) → Dict String (List String)
  prior_origins [] m = m
  prior_origins (media ∷ rest) m = prior_origins rest (Dict.put media.id media.allowed_origins m)

  unfoldable pub merge_media_origins : DisplayConfig Rest → DisplayConfig Rest → DisplayConfig Rest
  unfolding merged_origins prior_origins
  merge_media_origins previous incoming =
      let prior = prior_origins previous.media [] in
      record incoming {
        media =
            map
              (λ (media : MediaConfig Rest). record media {
                allowed_origins = merged_origins (Dict.get media.id prior) media.allowed_origins;
              })
              incoming.media;
      }

  module _ {Spec Geo : Type 0} where
    unfoldable pub register_with_display :
        Registry Rest Spec Geo
        → String
        → String
        → Option (DisplayConfig Rest)
        → Registry Rest Spec Geo
    register_with_display r st lt none = register r st lt
    register_with_display r st lt (some dc) =
        let r' = register r st lt in
        let dc' : DisplayConfig Rest = elim (Dict.get lt r'.display_configs) [
          | none ↦ dc
          | some previous ↦ merge_media_origins previous dc
        ] in
        record r' { display_configs = Dict.put lt dc' r'.display_configs }

-- The client admits any origin for a slot that declares none, and else the declared ones.
abbrev pub admits : List String → String → Bool
admits origins o = is_nil origins || contains o origins

abbrev pub admits_prior : Option (List String) → String → Bool
admits_prior none o = false
admits_prior (some prior) o = admits prior o

contains-insert_sorted :
    (o a : String) (xs : List String) → contains o (insert_sorted a xs) ≡ (a == o || contains o xs)
unfolding insert_sorted
contains-insert_sorted o a [] = refl
contains-insert_sorted o a (x ∷ xs) = ground (arith, contains-insert_sorted o a xs)

contains-sort : (o : String) (xs : List String) → contains o (sort xs) ≡ contains o xs
unfolding sort
contains-sort o [] = refl
contains-sort o (x ∷ xs) = ground (arith, contains-insert_sorted o x (sort xs), contains-sort o xs)

contains-append :
    (o : String) (xs ys : List String) → contains o (xs ++ ys) ≡ (contains o xs || contains o ys)
contains-append o [] ys = refl
contains-append o (x ∷ xs) ys = ground (arith, contains-append o xs ys)

contains-add_origins :
    (o : String) (prior origins : List String)
    → contains o (add_origins prior origins) ≡ (contains o prior || contains o origins)
unfolding add_origins
contains-add_origins o [] origins = refl
contains-add_origins o (p ∷ prior) origins = elim (Bool-cases (contains p origins)) [
  | inl old ↦ rw old (
      ground (
        arith,
        contains-add_origins o prior origins,
        eq_iff p o,
        old,
        ap (λ (k : String). contains k origins),
      ))
  | inr new ↦ rw new (
      ground (
        arith,
        contains-add_origins o prior (origins ++ p ∷ []),
        contains-append o origins (p ∷ []),
      ))
]

is_nil-insert_sorted : (a : String) (xs : List String) → is_nil (insert_sorted a xs) ≡ false
unfolding insert_sorted
is_nil-insert_sorted a [] = refl
is_nil-insert_sorted a (x ∷ xs) = ground arith

is_nil-sort : (xs : List String) → is_nil (sort xs) ≡ is_nil xs
unfolding sort
is_nil-sort [] = refl
is_nil-sort (x ∷ xs) = is_nil-insert_sorted x (sort xs)

is_nil-add_origins :
    (prior : List String) (o : String) (origins : List String)
    → is_nil (add_origins prior (o ∷ origins)) ≡ false
unfolding add_origins
is_nil-add_origins [] o origins = refl
is_nil-add_origins (p ∷ prior) o origins = elim (Bool-cases (contains p (o ∷ origins))) [
  | inl old ↦ rw old (is_nil-add_origins prior o origins)
  | inr new ↦ rw new (is_nil-add_origins prior o (origins ++ p ∷ []))
]

-- A merged media slot admits exactly the origins that the earlier or the new declaration admits,
-- where a declaration without origins admits them all.
pub admits-merged_origins :
    (prior : Option (List String)) (origins : List String) (o : String)
    → admits (merged_origins prior origins) o ≡ (admits_prior prior o || admits origins o)
unfolding merged_origins
admits-merged_origins none [] o = refl
admits-merged_origins none (x ∷ origins) o =
    rw (is_nil-sort (x ∷ origins), contains-sort o (x ∷ origins))
admits-merged_origins (some []) [] o = refl
admits-merged_origins (some []) (x ∷ origins) o = refl
admits-merged_origins (some (p ∷ prior)) [] o = ground arith
admits-merged_origins (some (p ∷ prior)) (x ∷ origins) o = rw (
  is_nil-sort (add_origins (p ∷ prior) (x ∷ origins)),
  is_nil-add_origins (p ∷ prior) x origins,
  contains-sort o (add_origins (p ∷ prior) (x ∷ origins)),
  contains-add_origins o (p ∷ prior) (x ∷ origins),
)
