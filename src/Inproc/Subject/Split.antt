-- ===== src/Inproc/Subject/Split.antt =====
-- Splitting a subject into tokens loses nothing: the tokens joined again are the subject.
use respondent_community.Common.{
  ℕ, ◌≡◌, refl, List, [], ◌∷◌, ◌++◌, arith, eqb, eqb_iff, Bool-cases, inl, inr,
}
use respondent_community.Inproc.Subject.{Bytes, dot, prepend, split}

unfoldable pub join : List Bytes → Bytes
join [] = []
join (t ∷ []) = t
join (t ∷ u ∷ ts) = t ++ dot ∷ join (u ∷ ts)

join-prepend : (c : ℕ) (t : Bytes) (ts : List Bytes) → join (prepend c (t ∷ ts)) ≡ c ∷ join (t ∷ ts)
unfolding join
join-prepend c t [] = refl
join-prepend c t (u ∷ ts) = refl

join-dot : (t : Bytes) (ts : List Bytes) → join ([] ∷ t ∷ ts) ≡ dot ∷ join (t ∷ ts)
unfolding join
join-dot t ts = refl

-- A split has a first token.
pub split_first : (s : Bytes) → (t : Bytes) × (ts : List Bytes) × (split s ≡ t ∷ ts)
unfolding split
split_first [] = ([], [], refl)
split_first (c ∷ s) =
    let (t, ts, e) = split_first s in
    elim (Bool-cases (eqb c dot)) [ inl h ↦ ([], split s, rw h) | inr h ↦ (c ∷ t, ts, rw (h, e)) ]

pub join-split : (s : Bytes) → join (split s) ≡ s
unfolding split
join-split [] = unfold join in refl
join-split (c ∷ s) =
    let (t, ts, e) = split_first s in
    let ih = join-split s in
    elim (Bool-cases (eqb c dot)) [
      | inl h ↦ rw (h, e, join-dot) (ground (arith, (eqb_iff c dot).0 h, ih, e))
      | inr h ↦ rw (h, e, join-prepend) (ground (arith, ih, e))
    ]
