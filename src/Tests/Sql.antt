-- ===== src/Tests/Sql.antt =====
-- The validator on concrete statements.
use respondent_community.Common.{
  ◌≡◌, ◌≢◌, refl, ◌↔◌, String, false, none, some, [], ◌∷◌, string_eq, ◌==◌, if◌then◌else◌,
}
use respondent_community.Common.Int.{pos}
use respondent_community.Sql.{
  select_stmt, other_stmt, SelectStmt, select_of, no_ctes, cte, absent, operand, delete, Parser,
  in_cte, not_allowed, validate_read_only_sql, validate_statement,
}
use respondent_community.Sql.ReadOnly.{IsReadOnly, validate_read_only_sql_iff}
use respondent_community.Sql.Limit.{enforce_limit_and_timeout, limit-validate, has_limit}
use Prim.Native.String.{◌++◌}
use respondent_community.Common.Decimal.{decimal_ℤ}

abbrev plain : SelectStmt
plain = select_of no_ctes false 0 false absent absent

abbrev union : SelectStmt
union = select_of (cte (select_stmt plain) no_ctes) false 0 false (operand plain) (operand plain)

abbrev deleting : SelectStmt
deleting = select_of (cte (other_stmt delete) no_ctes) false 0 false absent absent

abbrev accepted : String
accepted = "union"

abbrev parse : Parser
parse sql =
    if sql == "union"
    then some (some (select_stmt union) ∷ [])
    else if sql == "deleting"
    then some (some (select_stmt deleting) ∷ [])
    else none

deleting_rejected : validate_read_only_sql parse "deleting" ≡ some (in_cte (not_allowed delete))
unfolding validate_read_only_sql validate_statement
deleting_rejected = refl

union_accepted : validate_read_only_sql parse "union" ≡ none
unfolding validate_read_only_sql validate_statement
union_accepted = refl

validate_read_only_sql_iff_example :
    (validate_read_only_sql parse accepted ≡ none) ↔ ((accepted ≢ "") × IsReadOnly parse accepted)
validate_read_only_sql_iff_example = validate_read_only_sql_iff parse accepted

limit-validate_example :
    (s : SelectStmt) × (parse "union" ≡ some (some (select_stmt s) ∷ []))
    × ((enforce_limit_and_timeout parse "union" (pos 100) 5_000_000_000).1
        ≡ (if has_limit s then "union" else "union" ++ (" LIMIT " ++ decimal_ℤ (pos 100))))
limit-validate_example = limit-validate parse "union" (pos 100) 5_000_000_000 union_accepted
