-- ===== src/Common/Partial.antt =====
-- Code that can panic or fail, as an `Option` with `do`, and that it does not.
use mathlib.Core.Path.{◌≡◌, refl}
use mathlib.Core.Bool.{Bool, true, false}
use mathlib.Core.Option.{Option, none, some}
use respondent_community.Common.Tests.{if◌then◌else◌}

infixl 5 ◌>>=◌
abbrev pub ◌>>=◌ {ℓ κ} : {A : Type ℓ} {B : Type κ} → Option A → (A → Option B) → Option B
none >>= f = none
some a >>= f = f a

abbrev pub map_option {ℓ κ} : {A : Type ℓ} {B : Type κ} → (A → B) → Option A → Option B
map_option f none = none
map_option f (some a) = some (f a)

-- There is a result, and it has the property.
pub data Returns {ℓ κ} {A : Type ℓ} (P : A → Type κ) : Option A → Type (ℓ ⊔ κ) where
  result : {a : A} → P a → Returns P (some a)

module _ {ℓ κ ℓ' κ'} {A : Type ℓ} {B : Type ℓ'} {P : A → Type κ} {Q : B → Type κ'} where
  pub bind-Returns :
      (f : A → Option B) (o : Option A)
      → ((a : A) → P a → Returns Q (f a))
      → Returns P o
      → Returns Q (o >>= f)
  bind-Returns f _ k (result p) = k _ p

  pub map-Returns :
      (f : A → B) (o : Option A)
      → ((a : A) → P a → Q (f a))
      → Returns P o
      → Returns Q (map_option f o)
  map-Returns f _ k (result p) = result (k _ p)

pub Returns-mono {ℓ κ κ'} :
    {A : Type ℓ} {P : A → Type κ} {Q : A → Type κ'} {o : Option A}
    → ((a : A) → P a → Q a)
    → Returns P o
    → Returns Q o
Returns-mono k (result p) = result (k _ p)

pub if_Returns {ℓ κ} :
    {A : Type ℓ} {P : A → Type κ} (b : Bool) (x y : Option A)
    → (b ≡ true → Returns P x)
    → (b ≡ false → Returns P y)
    → Returns P (if b then x else y)
if_Returns true x y p q = p refl
if_Returns false x y p q = q refl

-- If there is a result, it has the property.
pub data Yields {ℓ κ} {A : Type ℓ} (P : A → Type κ) : Option A → Type (ℓ ⊔ κ) where
  no_result : Yields P none
  yields : {a : A} → P a → Yields P (some a)

pub if_Yields {ℓ κ} :
    {A : Type ℓ} {P : A → Type κ} (b : Bool) (x y : Option A)
    → (b ≡ true → Yields P x)
    → (b ≡ false → Yields P y)
    → Yields P (if b then x else y)
if_Yields true x y p q = p refl
if_Yields false x y p q = q refl

pub bind-Yields {ℓ κ ℓ' κ'} :
    {A : Type ℓ} {B : Type ℓ'} {P : A → Type κ} {Q : B → Type κ'} (f : A → Option B) {o : Option A}
    → ((a : A) → P a → Yields Q (f a))
    → Yields P o
    → Yields Q (o >>= f)
bind-Yields f k no_result = no_result
bind-Yields f k (yields p) = k _ p

pub Yields-mono {ℓ κ κ'} :
    {A : Type ℓ} {P : A → Type κ} {Q : A → Type κ'} {o : Option A}
    → ((a : A) → P a → Q a)
    → Yields P o
    → Yields Q o
Yields-mono k no_result = no_result
Yields-mono k (yields p) = yields (k _ p)
