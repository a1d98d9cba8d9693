-- ===== src/Common/Counting.antt =====
-- How often an element is listed, and Go's removal of its first occurrence,
-- `append(l[:i], l[i+1:]...)`.
use Prim.Native.Nat.{ℕ, ◌+◌, ◌-◌, ◌<◌}
use mathlib.Core.Path.{◌≡◌, refl}
use mathlib.Core.Bool.{Bool, true, false}
use mathlib.Core.List.{List, [], ◌∷◌, ◌++◌}
use native.Mathlib.Omega.{arith}
use respondent_community.Common.Tests.{if◌then◌else◌}
use respondent_community.Common.Lists.{any}
use respondent_community.Common.Equality.{Eq, ◌==◌}

module _ {ℓ} {A : Type ℓ} ⦃e : Eq A⦄ where
  abbrev pub count : A → List A → ℕ
  count a [] = 0
  count a (x ∷ xs) = (if x == a then 1 else 0) + count a xs

  abbrev pub contains : A → List A → Bool
  contains a xs = any (λ x. x == a) xs

  unfoldable pub erase : A → List A → List A
  erase a [] = []
  erase a (x ∷ xs) = if x == a then xs else x ∷ erase a xs

  pub count-append : (a : A) (xs ys : List A) → count a (xs ++ ys) ≡ count a xs + count a ys
  count-append a [] ys = omega arith
  count-append a (x ∷ xs) ys = ground (arith, count-append a xs ys)

  pub count-erase :
      (a b : A) (xs : List A)
      → count a (erase b xs) ≡ (if b == a then count a xs - 1 else count a xs)
  unfolding erase
  count-erase a b [] = ground arith
  count-erase a b (x ∷ xs) =
      ground (arith, count-erase a b xs, e.beq_iff x b, e.beq_iff x a, e.beq_iff b a)

  pub erase_head : (a : A) (xs : List A) → erase a (a ∷ xs) ≡ xs
  unfolding erase
  erase_head a xs = ground (arith, e.beq_iff a a)

  -- An element that is not found is not removed.
  pub erase_absent : (a : A) (xs : List A) → contains a xs ≡ false → erase a xs ≡ xs
  unfolding erase
  erase_absent a [] h = refl
  erase_absent a (x ∷ xs) h = ground (arith, erase_absent a xs)

  pub count_absent : (a : A) (xs : List A) → contains a xs ≡ false → count a xs ≡ 0
  count_absent a [] h = refl
  count_absent a (x ∷ xs) h = ground (arith, count_absent a xs)

  pub count_present : (a : A) (xs : List A) → contains a xs ≡ true → 0 < count a xs
  count_present a [] h = cc
  count_present a (x ∷ xs) h = ground (arith, count_present a xs)

  -- Removing an element just added to a list without it gives the list back.
  pub erase-append_new : (a : A) (xs : List A) → count a xs ≡ 0 → erase a (xs ++ a ∷ []) ≡ xs
  unfolding erase
  erase-append_new a [] h = ground (arith, e.beq_iff a a)
  erase-append_new a (x ∷ xs) h = ground (arith, erase-append_new a xs)
