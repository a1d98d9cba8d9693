-- ===== src/Ingest/Mirrors/Thorough.antt =====
-- How far one request goes through the mirrors.
use respondent_community.Common.{
  ℕ, suc, ◌+◌, ◌≤◌, ◌≡◌, refl, String, Bool, true, false, Option, none, some, List, [], ◌∷◌,
  if◌then◌else◌, length, take, drop, leb, arith, Bool-cases, inl, inr, subst, length-take,
  length-drop, leb→le,
}
use respondent_community.Ingest.Mirrors.{
  Selector, Request, Tried, try_origins, no_attempt, each_origin, after_lookup, fetch_discovered,
}

-- What one request does: after an answer it makes one attempt at most, an answer pins its origin, and
-- otherwise, if the context lives, it is not given up before the last origin failed.
pub record Thorough (s : Selector) (r : Request) (t : Tried) : Type 0 where
  pub single : s.pinned ≡ true → length t.attempts ≤ 1
  pub pins : t.answered ≡ true → t.selector.pinned ≡ true
  pub exhausts :
      (os : List String)
      → t.answered ≡ false
      → s.pinned ≡ false
      → r.origins ≡ some os
      → ((o : String) → r.canceled o ≡ false)
      → length os ≤ t.selector.idx

-- The requests of a refresh, each from the selector that the one before left.
abbrev pub AllThorough : List Request → Selector → Type 0
AllThorough [] s = Unit
AllThorough (r ∷ rs) s =
    Thorough s r (fetch_discovered r s) × AllThorough rs (fetch_discovered r s).selector

-- The attempts over the origins that are left.
record Tries (r : Request) (left : List String) (i : ℕ) (t : Tried) : Type 0 where
  short : length t.attempts ≤ length left
  pins : t.answered ≡ true → t.selector.pinned ≡ true
  exhausts :
      t.answered ≡ false → ((o : String) → r.canceled o ≡ false) → t.selector.idx ≡ i + length left

try_origins-Tries :
    (listed : List String) (r : Request) (left : List String) (i : ℕ)
    → Tries r left i (try_origins listed r left i)
unfolding try_origins
try_origins-Tries listed r [] i = record {
  short = omega arith;
  pins = λ h. cc;
  exhausts = λ h k. omega arith;
}
try_origins-Tries listed r (o ∷ left) i = elim (Bool-cases (r.succeeds o)) [
  | inl good ↦ rw good (record { short = omega arith; pins = λ h. refl; exhausts = λ h k. cc })
  | inr bad ↦ elim (Bool-cases (r.canceled o)) [
    | inl off ↦
        rw (bad, off)
          (record { short = omega arith; pins = λ h. cc; exhausts = λ h k. let live = k o in cc })
    | inr on ↦
        let t = try_origins-Tries listed r left (suc i) in
        rw (bad, on)
          (record {
            short = omega (arith, t.short);
            pins = t.pins;
            exhausts = λ h k. omega (arith, t.exhausts h k);
          })
  ]
]

no_attempt-Thorough :
    (r : Request) (s : Selector)
    → ((os : List String) → r.origins ≡ some os → length os ≤ s.idx)
    → Thorough s r (no_attempt s)
no_attempt-Thorough r s h = record {
  single = λ p. omega arith;
  pins = λ a. cc;
  exhausts = λ os a b e k. h os e;
}

room-Thorough :
    (origins : List String) (r : Request) (s : Selector)
    → r.origins ≡ some origins
    → leb (length origins) s.idx ≡ false
    → (b : Bool) → s.pinned ≡ b
    → Thorough s r (
        try_origins origins r (if b then take 1 (drop s.idx origins) else drop s.idx origins) s.idx)
room-Thorough origins r s found room true pinned =
    let t = try_origins-Tries origins r (take 1 (drop s.idx origins)) s.idx in
    record {
      single = λ p. omega (arith, t.short, length-take 1 (drop s.idx origins));
      pins = t.pins;
      exhausts = λ os a b e k. cc;
    }
room-Thorough origins r s found room false free =
    let t = try_origins-Tries origins r (drop s.idx origins) s.idx in
    record {
      single = λ p. cc;
      pins = t.pins;
      exhausts = λ os a b e k.
          let same : origins ≡ os = cc in
          subst (λ l. length l ≤ (try_origins origins r (drop s.idx origins) s.idx).selector.idx)
            same (ground (arith, t.exhausts a k, length-drop s.idx origins, room));
    }

each_origin-Thorough :
    (origins : List String) (r : Request) (s : Selector)
    → r.origins ≡ some origins
    → Thorough s r (each_origin origins r s)
unfolding each_origin
each_origin-Thorough origins r s found = elim (Bool-cases (leb (length origins) s.idx)) [
  | inl out ↦ rw out (
      no_attempt-Thorough r s (λ os e.
        let same : origins ≡ os = cc in
        subst (λ l. length l ≤ s.idx) same (leb→le (length origins) s.idx out)))
  | inr room ↦ rw room (room-Thorough origins r s found room s.pinned refl)
]

after_lookup-Thorough :
    (found : Option (List String)) (r : Request) (s : Selector)
    → r.origins ≡ found
    → Thorough s r (after_lookup found r s)
unfolding after_lookup
after_lookup-Thorough none r s e = no_attempt-Thorough r s (λ os f. cc)
after_lookup-Thorough (some origins) r s e = each_origin-Thorough origins r s e

pub all_requests-Thorough : (rs : List Request) (s : Selector) → AllThorough rs s
unfolding fetch_discovered
all_requests-Thorough [] s = tt
all_requests-Thorough (r ∷ rs) s = (
  after_lookup-Thorough r.origins r s refl,
  all_requests-Thorough rs (fetch_discovered r s).selector,
)
