-- ===== src/Ingest/Mirrors/Order.antt =====
-- In which order the requests of a refresh try the mirrors.
use respondent_community.Common.{
  ℕ, zero, suc, ◌≡◌, String, Option, none, some, List, [], ◌∷◌, ◌++◌, if◌then◌else◌,
}
use respondent_community.Ingest.Mirrors.{Attempt, Tried}

abbrev pub at : {A : Type 0} → ℕ → List A → Option A
at i [] = none
at zero (x ∷ xs) = some x
at (suc i) (x ∷ xs) = at i xs

-- The attempts go from an index on in order: each is on the current index of the origins that its
-- request looked up, and the index changes to the next one when it fails.
abbrev pub Climbs : ℕ → List Attempt → Type 0
Climbs i [] = Unit
Climbs i (a ∷ attempts) =
    (a.index ≡ i) × (at i a.listed ≡ some a.origin) × Climbs (if a.good then i else suc i) attempts

-- A request's attempts, and those of the requests after it.
Follows : ℕ → Tried → Type 0
Follows i t = (rest : List Attempt) → Climbs t.selector.idx rest → Climbs i (t.attempts ++ rest)

-- These are the origins from an index on, or the first of them.
Starts : List String → ℕ → List String → Type 0
Starts listed i [] = Unit
Starts listed i (o ∷ os) = (at i listed ≡ some o) × Starts listed (suc i) os
