-- ===== src/Sql/Limit.antt =====
-- The bounds that are put on a validated query.
use Prim.Native.String.{◌++◌}
use respondent_community.Common.{
  ℕ, ◌/◌, ◌≡◌, refl, String, Bool, Option, none, some, List, [], ◌∷◌, if◌then◌else◌, ap, ◌∙◌,
}
use respondent_community.Common.Int.{ℤ}
use respondent_community.Common.Decimal.{decimal, decimal_ℤ}
use respondent_community.Sql.{
  Node, select_stmt, other_stmt, SelectStmt, select_of, Parser, validate_read_only_sql,
}
use respondent_community.Sql.ReadOnly.{Within, itself, IsPlainSelect, validate_read_only_sql_iff}

abbrev pub has_limit : SelectStmt → Bool
has_limit (select_of _ _ _ limited _ _) = limited

-- The query of a parsed text, with LIMIT added to a first statement that has none.
abbrev pub limited_text : String → ℤ → Option (List (Option Node)) → String
limited_text sql rows (some (some (select_stmt s) ∷ _)) =
    if has_limit s then sql else sql ++ (" LIMIT " ++ decimal_ℤ rows)
limited_text sql rows _ = sql

-- The timeout is a number of nanoseconds.
unfoldable pub enforce_limit_and_timeout : Parser → String → ℤ → ℕ → String × String
enforce_limit_and_timeout parse sql rows timeout = (
  "SET LOCAL statement_timeout = '" ++ (decimal (timeout / 1000000) ++ "ms'"),
  limited_text sql rows (parse sql),
)

-- What is known of the one statement of a validated text.
single_select :
    (n : Node)
    → ((m : Node) → Within n m → IsPlainSelect m)
    → (s : SelectStmt) × (n ≡ select_stmt s)
single_select (select_stmt s) plain = (s, refl)
single_select (other_stmt k) plain = absurd (plain (other_stmt k) itself)

-- Whatever the parser, a text that passes the validator is one SELECT, and the query that is run is
-- the text itself when that SELECT has a LIMIT, and else the text with one added at its end.
pub limit-validate :
    (parse : Parser) (sql : String) (rows : ℤ) (timeout : ℕ)
    → validate_read_only_sql parse sql ≡ none
    → (s : SelectStmt) × (parse sql ≡ some (some (select_stmt s) ∷ []))
      × ((enforce_limit_and_timeout parse sql rows timeout).1
          ≡ (if has_limit s then sql else sql ++ (" LIMIT " ++ decimal_ℤ rows)))
unfolding enforce_limit_and_timeout
limit-validate parse sql rows timeout h =
    let (n, single, plain) = ((validate_read_only_sql_iff parse sql).0 h).1 in
    let (s, same) = single_select n plain in
    let parsed : parse sql ≡ some (some (select_stmt s) ∷ []) =
      single ∙ ap (λ k. some (some k ∷ [])) same in
    (s, parsed, ap (limited_text sql rows) parsed)
