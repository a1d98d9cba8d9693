-- ===== src/Inproc/Bus/Channels.antt =====
-- How often a channel stands among the wildcard subscriptions that match a subject.
use respondent_community.Common.{
  ℕ, ◌+◌, ◌≡◌, ◌≢◌, refl, ◌&&◌, List, [], ◌∷◌, ◌++◌, arith, count, nat_eq, if◌then◌else◌, eqb,
  bytes_eq,
}
use respondent_community.Inproc.Subject.{Bytes, subject_matches}
use respondent_community.Inproc.Bus.{WildcardSub, erase_wildcard, wildcard_targets}

pub count-wildcard_targets-append :
    (c : ℕ) (s : Bytes) (ws : List WildcardSub) (w : WildcardSub)
    → count c (wildcard_targets s (ws ++ w ∷ []))
      ≡ count c (wildcard_targets s ws)
        + (if subject_matches w.filter s && eqb w.ch c then 1 else 0)
unfolding wildcard_targets
count-wildcard_targets-append c s [] w = ground arith
count-wildcard_targets-append c s (v ∷ ws) w =
    ground (arith, count-wildcard_targets-append c s ws w)

pub count-wildcard_targets-erase_ne :
    (c ch : ℕ) (s : Bytes) (ws : List WildcardSub)
    → c ≢ ch
    → count c (wildcard_targets s (erase_wildcard ch ws)) ≡ count c (wildcard_targets s ws)
unfolding wildcard_targets erase_wildcard
count-wildcard_targets-erase_ne c ch s [] n = refl
count-wildcard_targets-erase_ne c ch s (v ∷ ws) n =
    ground (arith, count-wildcard_targets-erase_ne c ch s ws)
