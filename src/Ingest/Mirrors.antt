-- ===== src/Ingest/Mirrors.antt =====
-- internal/ingest/declarative/discovery.go: `mirrorSelector`, and `fetchDiscovered` of transport.go,
-- which looks the origins up for every request.
pub mod Thorough
pub mod Order
use respondent_community.Common.{
  ℕ, zero, suc, ◌+◌, ◌≡◌, refl, String, Bool, true, false, Option, none, some, List, [], ◌∷◌, ◌++◌,
  if◌then◌else◌, length, take, drop, leb, arith, Bool-cases, inl, inr, ap, ◌∙◌, subst,
}

pub record Selector : Type 0 where
  pub idx : ℕ
  pub pinned : Bool

abbrev pub reset : Selector
reset = record { idx = 0; pinned = false }

-- What one request meets: the origins that its lookup gives, unless it fails or the URL of the source
-- does not parse, whether the attempt on an
-- origin succeeds, and whether the context is cancelled after it.
pub record Request : Type 0 where
  pub origins : Option (List String)
  pub succeeds : String → Bool
  pub canceled : String → Bool

-- An attempt: the index of its origin, the origin, the origins of its request, and whether it answered.
pub record Attempt : Type 0 where
  pub index : ℕ
  pub origin : String
  pub listed : List String
  pub good : Bool

-- The selector afterwards, the attempts, and whether the request was answered.
pub record Tried : Type 0 where
  pub selector : Selector
  pub attempts : List Attempt
  pub answered : Bool

module _ (listed : List String) where
  abbrev pub attempt : ℕ → String → Bool → Attempt
  attempt i origin good = record { index = i; origin = origin; listed = listed; good = good }

  abbrev pub one_try : ℕ → String → Bool → Tried
  one_try i origin true = record {
    selector = record { idx = i; pinned = true };
    attempts = attempt i origin true ∷ [];
    answered = true;
  }
  one_try i origin false = record {
    selector = record { idx = suc i; pinned = false };
    attempts = attempt i origin false ∷ [];
    answered = false;
  }

  abbrev pub tried_before : ℕ → String → Tried → Tried
  tried_before i origin t = record t { attempts = attempt i origin false ∷ t.attempts }

  -- The origins that are left, and the next one's index.
  unfoldable pub try_origins : Request → List String → ℕ → Tried
  try_origins r [] i = record {
    selector = record { idx = i; pinned = false };
    attempts = [];
    answered = false;
  }
  try_origins r (origin ∷ left) i =
      let rest = try_origins r left (suc i) in
      if r.succeeds origin
      then one_try i origin true
      else if r.canceled origin
      then one_try i origin false
      else tried_before i origin rest

abbrev pub no_attempt : Selector → Tried
no_attempt s = record { selector = s; attempts = []; answered = false }

-- `each` over these origins.
unfoldable pub each_origin : List String → Request → Selector → Tried
unfolding try_origins
each_origin origins r s =
    let left = drop s.idx origins in
    if leb (length origins) s.idx
    then no_attempt s
    else try_origins origins r (if s.pinned then take 1 left else left) s.idx

unfoldable pub after_lookup : Option (List String) → Request → Selector → Tried
unfolding each_origin
after_lookup none r s = no_attempt s
after_lookup (some origins) r s = each_origin origins r s

-- One request.
unfoldable pub fetch_discovered : Request → Selector → Tried
unfolding after_lookup
fetch_discovered r s = after_lookup r.origins r s

-- The requests of one refresh.
unfoldable pub all_requests : List Request → Selector → List Attempt
unfolding fetch_discovered
all_requests [] s = []
all_requests (r ∷ rs) s = let t = fetch_discovered r s in t.attempts ++ all_requests rs t.selector
