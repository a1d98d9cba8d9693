-- ===== src/Ingest/Pagination/Refresh.antt =====
-- What a refresh publishes.
use respondent_community.Common.{
  ℕ, zero, suc, ◌+◌, ◌≤◌, ◌<◌, ◌≡◌, ◌⊎◌, refl, String, Bool, true, false, not, Option, none, some,
  arith, Bool-cases, inl, inr, subst, ℕ-cases, if◌then◌else◌,
}
use respondent_community.Ingest.Pagination.{
  WalkError, Walk, Publication, context_done, refresh_failed, published, refresh_loop,
  PaginationSpec, Reader, World, fetch_all_pages, fetch_paginated, after_walk, refresh_attempts,
}

module _ {R : Type 0} (walks : ℕ → Walk R) (done : ℕ → Bool) where
  -- The walk ended with an error while the context was live.
  abbrev pub Fails : ℕ → Type 0
  Fails k = (e : WalkError) × ((walks k).error ≡ some e) × (done k ≡ false)

  abbrev pub error_before : ℕ → Option WalkError
  error_before zero = none
  error_before (suc k) = (walks k).error

  abbrev pub Ends : Bool → ℕ → ℕ → Publication R → Type 0
  Ends discovered limit k context_done =
      (e : WalkError) × ((walks k).error ≡ some e) × (done k ≡ true)
  Ends discovered limit k (refresh_failed e) =
      (discovered ≡ true) × (k ≡ limit) × (error_before k ≡ some e)
  Ends discovered limit k (published records) =
      (records ≡ (walks k).records)
      × (k < limit)
      × (((walks k).error ≡ none) ⊎ ((discovered ≡ false) × Fails k))

  pub record Decided (discovered : Bool) (from limit : ℕ) (o : Publication R) : Type 0 where
    pub round : ℕ
    pub bounds : (from ≤ round) × (round ≤ limit)
    pub failed : (i : ℕ) → from ≤ i → i < round → Fails i
    pub ends : Ends discovered limit round o

  -- What is known when a later round starts.
  abbrev Ready : Bool → ℕ → Option WalkError → Type 0
  Ready discovered from last =
      0 < from
      → (e : WalkError) × (discovered ≡ true) × (last ≡ some e) × (error_before from ≡ some e)

  round-Decided :
      (discovered : Bool) (from limit : ℕ) (rest : Publication R) (e : Option WalkError)
      → (walks from).error ≡ e
      → from < limit
      → ((x : WalkError)
          → e ≡ some x
          → discovered ≡ true
          → Decided discovered (suc from) limit rest)
      → Decided discovered from limit (after_walk walks done discovered from e rest)
  round-Decided discovered from limit rest none same room g = record {
    round = from;
    bounds = (omega arith, omega arith);
    failed = λ i a b. absurd (omega arith);
    ends = (refl, room, inl same);
  }
  round-Decided discovered from limit rest (some x) same room g = elim (Bool-cases (done from)) [
    | inl off ↦ rw off (record {
      round = from;
      bounds = (omega arith, omega arith);
      failed = λ i a b. absurd (omega arith);
      ends = (x, same, off);
    })
    | inr live ↦ rw live (next live discovered refl (g x refl))
  ]
    where
      next :
          done from ≡ false
          → (d : Bool) → discovered ≡ d
          → (discovered ≡ true → Decided discovered (suc from) limit rest)
          → Decided discovered from limit (if not d then published (walks from).records else rest)
      next live false fixed more = record {
        round = from;
        bounds = (omega arith, omega arith);
        failed = λ i a b. absurd (omega arith);
        ends = (refl, room, inr (fixed, (x, same, live)));
      }
      next live true found more =
          let d = more found in
          record {
            round = d.round;
            bounds = (omega (arith, d.bounds), omega (arith, d.bounds));
            failed = λ i a b. elim (ℕ-cases from i a) [
              | inl here ↦ subst Fails here (x, same, live)
              | inr later ↦ d.failed i later b
            ];
            ends = d.ends;
          }

  loop-Decided :
      (discovered : Bool) (left from limit : ℕ) (last : Option WalkError)
      → from + left ≡ limit
      → 0 < limit
      → Ready discovered from last
      → Decided discovered from limit (refresh_loop walks done discovered left from last)
  unfolding refresh_loop
  loop-Decided discovered zero from limit last e some_round ready =
      let (x, found, same, error) = ready (omega arith) in
      rw same (record {
        round = from;
        bounds = (omega arith, omega arith);
        failed = λ i a b. absurd (omega arith);
        ends = (found, omega arith, error);
      })
  loop-Decided discovered (suc left) from limit last e some_round ready =
      round-Decided discovered from limit
        (refresh_loop walks done discovered left (suc from) (walks from).error) (walks from).error
        refl (omega arith)
        (λ x same found.
          loop-Decided discovered left (suc from) limit (walks from).error (omega arith) some_round
            (λ _. (x, found, same, same)))

module _ {B R : Type 0} (base : String) (spec : PaginationSpec) (reader : Reader B R) where
  -- What a refresh publishes are the records of one walk, whatever the walks meet. With a discovered
  -- origin it is the first, second or third walk, which had no error, and those before it failed; the
  -- refresh fails only after three walks that failed, with the last one's error, and then publishes
  -- nothing. With a fixed origin the first walk is published even if an error cut it short. A context that is cancelled
  -- during a failing walk ends the refresh without a publication.
  pub fetch_paginated-Decided :
      (discovered : Bool) (worlds : ℕ → World B) (done : ℕ → Bool)
      → Decided
          (λ k. fetch_all_pages base spec reader (worlds k))
          done
          discovered
          0
          (if discovered then 3 else 1)
          (fetch_paginated base spec reader discovered worlds done)
  unfolding fetch_paginated
  fetch_paginated-Decided discovered worlds done =
      loop-Decided (λ k. fetch_all_pages base spec reader (worlds k)) done discovered
        (refresh_attempts discovered) 0 (if discovered then 3 else 1) none (ground arith)
        (ground arith) (λ h. absurd (omega arith))
