-- ===== src/Inproc/Subject/Exact.antt =====
-- A filter that `is_wildcard` takes for a plain subject matches itself and nothing else, so keeping
-- such subscriptions in a map keyed by the filter loses no match.
use respondent_community.Common.{
  ℕ, ◌≡◌, refl, ap, ◌∙◌, sym, true, false, List, [], ◌∷◌, arith, eqb, Bool-cases, inl, inr, All,
  ap₂, bytes_beq_iff, bytes_beq,
}
use respondent_community.Inproc.Subject.{
  Bytes, dot, split, has_star, ends_in_tail, is_wildcard, match_tokens, subject_matches, star_token,
  tail_token,
}
use respondent_community.Inproc.Subject.Split.{join, join-split, split_first}

abbrev LastIsPlain : List Bytes → Type 0
LastIsPlain [] = Unit
LastIsPlain (t ∷ []) = ends_in_tail t ≡ false
LastIsPlain (t ∷ u ∷ ts) = LastIsPlain (u ∷ ts)

abbrev HasNoStar : Bytes → Type 0
HasNoStar t = has_star t ≡ false

split-HasNoStar : (s : Bytes) → HasNoStar s → All HasNoStar (split s)
unfolding split has_star
split-HasNoStar [] h = (refl, tt)
split-HasNoStar (c ∷ s) h =
    let (t, ts, e) = split_first s in
    let ih : All HasNoStar (t ∷ ts) = rw e at (split-HasNoStar s (ground arith)) in
    elim (Bool-cases (eqb c dot)) [
      | inl p ↦ rw (p, e) (refl, ih)
      | inr p ↦ rw (p, e) (ground arith, ih.1)
    ]

LastIsPlain-longer :
    (c : ℕ) (t : Bytes) (ts : List Bytes)
    → (ts ≡ [] → ends_in_tail (c ∷ t) ≡ false)
    → LastIsPlain (t ∷ ts)
    → LastIsPlain ((c ∷ t) ∷ ts)
LastIsPlain-longer c t [] plain h = plain refl
LastIsPlain-longer c t (u ∷ ts) plain h = h

-- A split into one token is the text itself.
split_single : (s t : Bytes) (ts : List Bytes) → split s ≡ t ∷ ts → ts ≡ [] → t ≡ s
unfolding join
split_single s t ts e n = sym (ap join (e ∙ ap (λ x. t ∷ x) n)) ∙ join-split s

split-LastIsPlain : (s : Bytes) → ends_in_tail s ≡ false → LastIsPlain (split s)
unfolding split
split-LastIsPlain [] h = unfold ends_in_tail in refl
split-LastIsPlain (c ∷ []) h = unfold ends_in_tail in ground arith
split-LastIsPlain (c ∷ d ∷ s) h =
    let (t, ts, e) = split_first (d ∷ s) in
    let plain : ends_in_tail (d ∷ s) ≡ false = unfold ends_in_tail in h in
    let ih : LastIsPlain (t ∷ ts) = rw e at (split-LastIsPlain (d ∷ s) plain) in
    elim (Bool-cases (eqb c dot)) [
      | inl p ↦ rw (p, e) ih
      | inr p ↦ rw (p, e) (LastIsPlain-longer c t ts (λ n. rw (split_single (d ∷ s) t ts e n) h) ih)
    ]

not_star : (t : Bytes) → HasNoStar t → bytes_beq t star_token ≡ false
unfolding has_star
not_star t h = elim (Bool-cases (bytes_beq t star_token)) [
  | inl p ↦ cc (h, ap has_star ((bytes_beq_iff t star_token).0 p))
  | inr p ↦ p
]

not_tail : (t : Bytes) → ends_in_tail t ≡ false → bytes_beq t tail_token ≡ false
unfolding ends_in_tail
not_tail t h = elim (Bool-cases (bytes_beq t tail_token)) [
  | inl p ↦ cc (h, ap ends_in_tail ((bytes_beq_iff t tail_token).0 p))
  | inr p ↦ p
]

match_tokens-plain :
    (ts ss : List Bytes) → All HasNoStar ts → LastIsPlain ts → match_tokens ts ss ≡ true → ts ≡ ss
unfolding match_tokens
match_tokens-plain [] [] a l h = refl
match_tokens-plain [] (s ∷ ss) a l h = cc
match_tokens-plain (t ∷ ts) [] a l h = cc
match_tokens-plain (t ∷ []) (s ∷ ss) a l h =
    let tail : bytes_beq t tail_token ≡ false = not_tail t l in
    let star : bytes_beq t star_token ≡ false = not_star t a.0 in
    ap₂ ◌∷◌ (ground (arith, bytes_beq_iff t s)) (match_tokens-plain [] ss tt tt (ground arith))
match_tokens-plain (t ∷ u ∷ ts) (s ∷ ss) a l h =
    let star : bytes_beq t star_token ≡ false = not_star t a.0 in
    ap₂ ◌∷◌ (ground (arith, bytes_beq_iff t s))
      (match_tokens-plain (u ∷ ts) ss a.1 l (ground arith))

-- A filter without wildcards matches no subject but itself.
pub subject_matches-plain :
    (filter subject : Bytes)
    → is_wildcard filter ≡ false
    → subject_matches filter subject ≡ true
    → filter ≡ subject
unfolding is_wildcard subject_matches
subject_matches-plain f s plain h = elim (Bool-cases (bytes_beq f s)) [
  | inl p ↦ (bytes_beq_iff f s).0 p
  | inr p ↦
      let same : split f ≡ split s =
        match_tokens-plain (split f) (split s) (split-HasNoStar f (ground arith))
          (split-LastIsPlain f (ground arith)) (ground arith) in
      sym (join-split f) ∙ ap join same ∙ join-split s
]
