-- ===== src/Sql/ReadOnly.antt =====
-- What a query that passes the validator is.
use respondent_community.Common.{
  subst, sym, String, ◌≢◌, string_eq, ◌==◌, eq_iff, Bool-cases, ℕ, ◌≡◌, refl, ◌↔◌, inl, inr, Bool,
  true, false, Option, none, some, List, [], ◌∷◌, ltb, arith,
}
use respondent_community.Sql.{
  Node, select_stmt, other_stmt, SelectStmt, select_of, Ctes, no_ctes, skipped, cte, Operand,
  absent, operand, SqlError, select_into, locking, ◌then◌, wrapped, rejected, Parser,
  validate_parsed, validate_read_only_sql, validate_statement, validate_select_stmt, validate_ctes,
  validate_operand,
}

pub data Listed : Node → Ctes → Type 0 where
  first_cte : {n : Node} {cs : Ctes} → Listed n (cte n cs)
  later_cte : {n m : Node} {cs : Ctes} → Listed n cs → Listed n (cte m cs)
  later_skipped : {n : Node} {cs : Ctes} → Listed n cs → Listed n (skipped cs)

-- The statement itself, a query of its WITH clauses, or an operand of its set operations, at any
-- depth.
pub data Within : Node → Node → Type 0 where
  itself : {n : Node} → Within n n
  in_with :
      {cs : Ctes} {into : Bool} {locks : ℕ} {limited : Bool} {l r : Operand} {n m : Node}
      → Listed n cs
      → Within n m
      → Within (select_stmt (select_of cs into locks limited l r)) m
  in_left :
      {cs : Ctes} {into : Bool} {locks : ℕ} {limited : Bool} {s : SelectStmt} {r : Operand}
      {m : Node}
      → Within (select_stmt s) m
      → Within (select_stmt (select_of cs into locks limited (operand s) r)) m
  in_right :
      {cs : Ctes} {into : Bool} {locks : ℕ} {limited : Bool} {l : Operand} {s : SelectStmt}
      {m : Node}
      → Within (select_stmt s) m
      → Within (select_stmt (select_of cs into locks limited l (operand s))) m

-- A SELECT without INTO and without locking clauses.
abbrev pub IsPlainSelect : Node → Type 0
IsPlainSelect (select_stmt (select_of _ into locks _ _ _)) = (into ≡ false) × (locks ≡ 0)
IsPlainSelect (other_stmt k) = ⊥

then_none : (a b : Option SqlError) → ((a then b) ≡ none) ↔ ((a ≡ none) × (b ≡ none))
then_none none b = (λ h. (refl, h), λ h. h.1)
then_none (some e) b = (λ h. cc, λ h. h.0)

wrapped-none : (a : Option SqlError) → (wrapped a ≡ none) ↔ (a ≡ none)
wrapped-none none = (λ h. h, λ h. h)
wrapped-none (some e) = (λ h. cc, λ h. cc)

rejected-none : (b : Bool) (e : SqlError) → (rejected b e ≡ none) ↔ (b ≡ false)
rejected-none true e = (λ h. cc, λ h. cc)
rejected-none false e = (λ h. refl, λ h. refl)

-- The checks of a SELECT.
select_none :
    (cs : Ctes) (into : Bool) (locks : ℕ) (limited : Bool) (l r : Operand)
    → (validate_select_stmt (select_of cs into locks limited l r) ≡ none) ↔ (
        (validate_ctes cs ≡ none)
        × ((into ≡ false) × (locks ≡ 0))
        × ((validate_operand l ≡ none) × (validate_operand r ≡ none)))
unfolding validate_statement
select_none cs into locks limited l r =
    let a = then_none (validate_ctes cs) _ in
    let b = then_none (rejected into select_into) _ in
    let c = then_none (rejected (ltb 0 locks) locking) _ in
    let d = then_none (validate_operand l) (validate_operand r) in
    let i = rejected-none into select_into in
    let k = rejected-none (ltb 0 locks) locking in
    (
      λ h.
          let (x, rest) = a.0 h in
          let (y, rest₂) = b.0 rest in
          let (z, rest₃) = c.0 rest₂ in
          let short : ltb 0 locks ≡ false = k.0 z in (x, (i.0 y, ground arith), d.0 rest₃),
      λ (x, (y, z), ops).
          let short : ltb 0 locks ≡ false = ground arith in
          a.1 (x, b.1 (i.1 y, c.1 (k.1 short, d.1 ops))),
    )

Listed-accepted :
    {n : Node} (cs : Ctes) → Listed n cs → validate_ctes cs ≡ none → validate_statement n ≡ none
unfolding validate_statement
Listed-accepted no_ctes i h = elim i [ ]
Listed-accepted (cte n cs) first_cte h =
    (wrapped-none (validate_statement n)).0
      ((then_none (wrapped (validate_statement n)) (validate_ctes cs)).0 h).0
Listed-accepted (cte m cs) (later_cte i) h =
    Listed-accepted cs i ((then_none (wrapped (validate_statement m)) (validate_ctes cs)).0 h).1
Listed-accepted (skipped cs) (later_skipped i) h = Listed-accepted cs i h

accepted_plain : (n : Node) → validate_statement n ≡ none → IsPlainSelect n
unfolding validate_statement
accepted_plain (select_stmt (select_of cs into locks limited l r)) h =
    ((select_none cs into locks limited l r).0 h).1
accepted_plain (other_stmt k) h = cc

accepted-Within :
    {n m : Node} → Within n m → validate_statement n ≡ none → validate_statement m ≡ none
unfolding validate_statement
accepted-Within itself h = h
accepted-Within (in_with {cs} {into} {locks} {limited} {l} {r} i w) h =
    accepted-Within w (Listed-accepted cs i ((select_none cs into locks limited l r).0 h).0)
accepted-Within (in_left {cs} {into} {locks} {limited} {s} {r} w) h =
    accepted-Within w ((select_none cs into locks limited (operand s) r).0 h).2.0
accepted-Within (in_right {cs} {into} {locks} {limited} {l} {s} w) h =
    accepted-Within w ((select_none cs into locks limited l (operand s)).0 h).2.1

mutual
  unfolding validate_statement

  plain_accepted :
      (n : Node) → ((m : Node) → Within n m → IsPlainSelect m) → validate_statement n ≡ none
  plain_accepted (select_stmt s) plain = plain_select s plain
  plain_accepted (other_stmt k) plain = absurd (plain (other_stmt k) itself)

  plain_select :
      (s : SelectStmt)
      → ((m : Node) → Within (select_stmt s) m → IsPlainSelect m)
      → validate_select_stmt s ≡ none
  plain_select (select_of cs into locks limited l r) plain =
      (select_none cs into locks limited l r).1 (
        plain_ctes cs (λ n m i w. plain m (in_with i w)),
        plain (select_stmt (select_of cs into locks limited l r)) itself,
        (
          plain_operand l (λ s e m w. plain m (
              subst (λ o. Within (select_stmt (select_of cs into locks limited o r)) m) (sym e)
                (in_left w))),
          plain_operand r (λ s e m w. plain m (
              subst (λ o. Within (select_stmt (select_of cs into locks limited l o)) m) (sym e)
                (in_right w))),
        ),
      )

  plain_ctes :
      (cs : Ctes)
      → ((n m : Node) → Listed n cs → Within n m → IsPlainSelect m)
      → validate_ctes cs ≡ none
  plain_ctes no_ctes plain = refl
  plain_ctes (skipped cs) plain = plain_ctes cs (λ n m i w. plain n m (later_skipped i) w)
  plain_ctes (cte n cs) plain = (then_none (wrapped (validate_statement n)) (validate_ctes cs)).1 (
    (wrapped-none (validate_statement n)).1 (plain_accepted n (λ m w. plain n m first_cte w)),
    plain_ctes cs (λ k m i w. plain k m (later_cte i) w),
  )

  plain_operand :
      (o : Operand)
      → ((s : SelectStmt) → o ≡ operand s → (m : Node) → Within (select_stmt s) m → IsPlainSelect m)
      → validate_operand o ≡ none
  plain_operand absent plain = refl
  plain_operand (operand s) plain = plain_select s (plain s refl)

validate_statement_iff :
    (n : Node) → (validate_statement n ≡ none) ↔ ((m : Node) → Within n m → IsPlainSelect m)
validate_statement_iff n = (λ h m w. accepted_plain m (accepted-Within w h), plain_accepted n)

module _ (parse : Parser) where
  parsed_single :
      (p : Option (List (Option Node)))
      → validate_parsed parse p ≡ none
      → (n : Node) × (p ≡ some (some n ∷ [])) × (validate_statement n ≡ none)
  unfolding validate_statement
  parsed_single none h = cc
  parsed_single (some []) h = cc
  parsed_single (some (none ∷ [])) h = cc
  parsed_single (some (some n ∷ [])) h = (n, refl, h)
  parsed_single (some (none ∷ _ ∷ rest)) h = cc
  parsed_single (some (some n ∷ _ ∷ rest)) h = cc

  -- What the validator promises: one statement, which with every query of its WITH clauses and every
  -- operand of its set operations, at any depth, is a SELECT without INTO and locking clauses.
  abbrev pub IsReadOnly : String → Type 0
  IsReadOnly sql =
      (n : Node) × (parse sql ≡ some (some n ∷ [])) × ((m : Node) → Within n m → IsPlainSelect m)

  -- Whatever the parser, a text passes the validator exactly when it is not empty and is one
  -- statement that with every query of its WITH clauses and every operand of its set operations, at
  -- any depth, is a SELECT without INTO and without locking clauses.
  pub validate_read_only_sql_iff :
      (sql : String) → (validate_read_only_sql parse sql ≡ none) ↔ ((sql ≢ "") × IsReadOnly sql)
  unfolding validate_read_only_sql validate_statement
  validate_read_only_sql_iff sql = elim (Bool-cases (sql == "")) [
    | inl e ↦ rw e (λ h. cc, λ (ne, _). absurd (ne ((eq_iff sql "").0 e)))
    | inr n ↦ rw n (
      λ h.
          let (s, single, fine) = parsed_single (parse sql) h in
          (
            (λ e. ground (arith, eq_iff sql "", e, n)),
            (s, single, (validate_statement_iff s).0 fine),
          ),
      λ (_, (s, single, plain)). rw single ((validate_statement_iff s).1 plain),
    )
  ]
