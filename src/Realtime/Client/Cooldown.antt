-- ===== src/Realtime/Client/Cooldown.antt =====
-- The cooldown tables: queries for one layer that pass are at least the cooldown apart.
use respondent_community.Common.{
  ℕ, ◌+◌, ◌≤◌, ◌≡◌, ◌&&◌, String, true, Option, none, some, List, [], ◌∷◌, arith, if◌then◌else◌,
  string_eq, eq_iff, Bool-cases, inl, inr, ◌==◌,
}
use respondent_community.Common.Dict
use respondent_community.Common.Dict.{Dict, get-put, beq_refl}
use respondent_community.Realtime.Client.{cooldown, cooldown_passes, elapsed}

-- The times at which the requests for one layer pass, among requests for any layers.
unfoldable pub passed : Dict String ℕ → String → ℕ → List (String × ℕ) → List ℕ
passed last layer wait [] = []
passed last layer wait ((l, now) ∷ requests) =
    let (table, ok) = cooldown last l wait now in
    let rest = passed table layer wait requests in if ok && l == layer then now ∷ rest else rest

abbrev pub NotBefore : Option ℕ → ℕ → ℕ → Type 0
NotBefore none wait t = Unit
NotBefore (some s) wait t = s + wait ≤ t

abbrev pub Spaced : Option ℕ → ℕ → List ℕ → Type 0
Spaced last wait [] = Unit
Spaced last wait (t ∷ ts) = NotBefore last wait t × Spaced (some t) wait ts

elapsed-NotBefore : (o : Option ℕ) (wait now : ℕ) → elapsed o wait now ≡ true → NotBefore o wait now
elapsed-NotBefore none wait now h = tt
elapsed-NotBefore (some s) wait now h = ground arith

-- Whatever requests arrive, and for whatever layers, two requests for a layer that pass one after
-- the other are at least the cooldown apart, and the first is at least that long after the time
-- that the table holds.
pub passed-Spaced :
    (last : Dict String ℕ) (layer : String) (wait : ℕ) (requests : List (String × ℕ))
    → Spaced (Dict.get layer last) wait (passed last layer wait requests)
unfolding passed cooldown
passed-Spaced last layer wait [] = tt
passed-Spaced last layer wait ((l, now) ∷ requests) =
    elim (Bool-cases (cooldown_passes last l wait now)) [
      | inl pass ↦
          let ih = passed-Spaced (Dict.put l now last) layer wait requests in
          elim (Bool-cases (l == layer)) [
            | inl same ↦
                rw (pass, same)
                  (
                    rw ((eq_iff l layer).0 same) at (
                        elapsed-NotBefore (Dict.get l last) wait now
                          (unfold cooldown_passes in pass)),
                    rw (get-put, same) at ih,
                  )
            | inr other ↦ rw (pass, other) (rw (get-put, other) at ih)
          ]
      | inr fail ↦ rw fail (passed-Spaced last layer wait requests)
    ]
