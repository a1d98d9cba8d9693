-- ===== src/Inproc/Subject.antt =====
-- internal/infra/inproc/bus.go: `isWildcard` and `SubjectMatches`. Subjects and filters are byte
-- strings.
pub mod Split
pub mod Exact
use respondent_community.Common.{
  ℕ, ◌≡◌, refl, ◌≢◌, ◌↔◌, ◌⊎◌, inl, inr, Bool, true, false, not, ◌&&◌, ◌||◌, List, [], ◌∷◌, arith,
  if◌then◌else◌, any, eqb, ◌==◌, bytes_eq, bytes_beq, bytes_beq_iff, Bool-cases,
}
use respondent_community.Common.MultiMap.{is_nil}

abbrev pub Bytes : Type 0
Bytes = List ℕ

abbrev pub dot : ℕ
dot = b'.'

-- the tokens "*" and ">"
abbrev pub star_token : Bytes
star_token = b'*' ∷ []

abbrev pub tail_token : Bytes
tail_token = b'>' ∷ []

abbrev pub prepend : ℕ → List Bytes → List Bytes
prepend c [] = (c ∷ []) ∷ []
prepend c (t ∷ ts) = (c ∷ t) ∷ ts

-- `strings.Split(s, ".")`
unfoldable pub split : Bytes → List Bytes
split [] = [] ∷ []
split (c ∷ s) = if eqb c dot then [] ∷ split s else prepend c (split s)

-- `strings.HasSuffix(s, ">")`
unfoldable pub ends_in_tail : Bytes → Bool
ends_in_tail [] = false
ends_in_tail (c ∷ []) = eqb c b'>'
ends_in_tail (c ∷ d ∷ s) = ends_in_tail (d ∷ s)

-- `strings.Contains(s, "*")`
unfoldable pub has_star : Bytes → Bool
has_star s = any (λ c. eqb c b'*') s

unfoldable pub is_wildcard : Bytes → Bool
is_wildcard filter = ends_in_tail filter || has_star filter

-- The loop over the tokens of the filter. That `i` is the last index is that no token follows, and
-- `i < len(st)` is that a token of the subject is left.
unfoldable pub match_tokens : List Bytes → List Bytes → Bool
match_tokens [] [] = true
match_tokens [] (s ∷ ss) = false
match_tokens (t ∷ ts) [] = false
match_tokens (t ∷ ts) (s ∷ ss) =
    if bytes_beq t tail_token
    then is_nil ts
    else if bytes_beq t star_token
    then match_tokens ts ss
    else bytes_beq t s && match_tokens ts ss

unfoldable pub subject_matches : Bytes → Bytes → Bool
subject_matches filter subject = filter == subject || match_tokens (split filter) (split subject)

-- The rules of a subject filter, read token by token.
pub data Matches : List Bytes → List Bytes → Type 0 where
  done : Matches [] []
  any_token :
      {t s : Bytes} {ts ss : List Bytes}
      → t ≡ star_token
      → Matches ts ss
      → Matches (t ∷ ts) (s ∷ ss)
  same_token :
      {t s : Bytes} {ts ss : List Bytes}
      → t ≢ tail_token
      → t ≡ s
      → Matches ts ss
      → Matches (t ∷ ts) (s ∷ ss)
  rest_tokens : {t s : Bytes} {ss : List Bytes} → t ≡ tail_token → Matches (t ∷ []) (s ∷ ss)

match_tokens_sound : (ts ss : List Bytes) → match_tokens ts ss ≡ true → Matches ts ss
unfolding match_tokens
match_tokens_sound [] [] h = done
match_tokens_sound [] (s ∷ ss) h = cc
match_tokens_sound (t ∷ ts) [] h = cc
match_tokens_sound (t ∷ []) (s ∷ ss) h = elim (Bool-cases (bytes_beq t tail_token)) [
  | inl p ↦ rest_tokens ((bytes_beq_iff t tail_token).0 p)
  | inr p ↦ elim (Bool-cases (bytes_beq t star_token)) [
    | inl q ↦ any_token ((bytes_beq_iff t star_token).0 q) (match_tokens_sound [] ss (ground arith))
    | inr q ↦
        same_token (λ e. cc ((bytes_beq_iff t tail_token).1 e)) (ground (arith, bytes_beq_iff t s))
          (match_tokens_sound [] ss (ground arith))
  ]
]
match_tokens_sound (t ∷ u ∷ ts) (s ∷ ss) h = elim (Bool-cases (bytes_beq t tail_token)) [
  | inl p ↦ absurd (ground arith)
  | inr p ↦ elim (Bool-cases (bytes_beq t star_token)) [
    | inl q ↦
        any_token ((bytes_beq_iff t star_token).0 q) (match_tokens_sound (u ∷ ts) ss (ground arith))
    | inr q ↦
        same_token (λ e. cc ((bytes_beq_iff t tail_token).1 e)) (ground (arith, bytes_beq_iff t s))
          (match_tokens_sound (u ∷ ts) ss (ground arith))
  ]
]

match_tokens_complete : {ts ss : List Bytes} → Matches ts ss → match_tokens ts ss ≡ true
unfolding match_tokens
match_tokens_complete done = refl
match_tokens_complete (any_token e d) = rw (e, match_tokens_complete d)
match_tokens_complete (same_token {t} {s} {ts} {ss} n e d) =
    ground (arith, match_tokens_complete d, bytes_beq_iff t tail_token, bytes_beq_iff t s)
match_tokens_complete (rest_tokens e) = rw e

-- A filter matches a subject exactly when they are the same text, or the tokens of the filter,
-- read by the rules of `*` and a final `>`, match those of the subject.
pub subject_matches_iff :
    (filter subject : Bytes)
    → (subject_matches filter subject ≡ true)
      ↔ ((filter ≡ subject) ⊎ Matches (split filter) (split subject))
unfolding subject_matches
subject_matches_iff filter subject = (
  λ h. elim (Bool-cases (bytes_beq filter subject)) [
    | inl p ↦ inl ((bytes_beq_iff filter subject).0 p)
    | inr p ↦ inr (match_tokens_sound (split filter) (split subject) (ground arith))
  ],
  elim [
    | inl e ↦ ground (arith, bytes_beq_iff filter subject)
    | inr d ↦ ground (arith, match_tokens_complete d)
  ],
)
