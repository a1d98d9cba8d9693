-- ===== src/Sql.antt =====
-- internal/sqlsafety/validator.go. `Node` is what the rules read of the syntax tree of pg_query, whose
-- parser is a parameter: it gives no tree, or the statements, of which some may be absent. A common
-- table expression without a query is `skipped`.
pub mod ReadOnly
pub mod Limit
use respondent_community.Common.{
  ℕ, suc, String, Bool, true, false, Option, none, some, List, [], ◌∷◌, length, if◌then◌else◌, ltb,
  string_eq, ◌==◌,
}

-- The statements that are not a SELECT, by the case of the switch that rejects them.
pub data Kind : Type 0 where
  insert update delete merge : Kind
  create_table drop_object alter_table truncate : Kind
  grant grant_role : Kind
  copy execute call : Kind
  transaction set_variable explain : Kind
  other_kind : Kind

mutual
  pub data Node : Type 0 where
    select_stmt : SelectStmt → Node
    other_stmt : Kind → Node

  -- The common table expressions, whether there is an INTO, the number of locking clauses, whether
  -- there is a LIMIT, and the operands of a set operation.
  pub data SelectStmt : Type 0 where
    select_of : Ctes → Bool → ℕ → Bool → Operand → Operand → SelectStmt

  pub data Ctes : Type 0 where
    no_ctes : Ctes
    skipped : Ctes → Ctes
    cte : Node → Ctes → Ctes

  pub data Operand : Type 0 where
    absent : Operand
    operand : SelectStmt → Operand

pub data SqlError : Type 0 where
  empty_input parse_failed no_statements empty_statement : SqlError
  multiple : ℕ → SqlError
  not_allowed : Kind → SqlError
  in_cte : SqlError → SqlError
  select_into locking : SqlError

-- The error of the first check that fails.
infixr 4 ◌then◌
abbrev pub ◌then◌ : Option SqlError → Option SqlError → Option SqlError
none then e = e
some e then _ = some e

abbrev pub wrapped : Option SqlError → Option SqlError
wrapped none = none
wrapped (some e) = some (in_cte e)

abbrev pub rejected : Bool → SqlError → Option SqlError
rejected true e = some e
rejected false e = none

unfoldable mutual
  pub validate_statement : Node → Option SqlError
  validate_statement (select_stmt s) = validate_select_stmt s
  validate_statement (other_stmt k) = some (not_allowed k)

  pub validate_select_stmt : SelectStmt → Option SqlError
  validate_select_stmt (select_of ctes into locks limited l r) =
      validate_ctes ctes
      then rejected into select_into
      then rejected (ltb 0 locks) locking
      then validate_operand l
      then validate_operand r

  pub validate_ctes : Ctes → Option SqlError
  validate_ctes no_ctes = none
  validate_ctes (skipped cs) = validate_ctes cs
  validate_ctes (cte n cs) = wrapped (validate_statement n) then validate_ctes cs

  pub validate_operand : Operand → Option SqlError
  validate_operand absent = none
  validate_operand (operand s) = validate_select_stmt s

-- `pg_query.Parse`
abbrev pub Parser : Type 0
Parser = String → Option (List (Option Node))

module _ (parse : Parser) where
  abbrev pub validate_parsed : Option (List (Option Node)) → Option SqlError
  validate_parsed none = some parse_failed
  validate_parsed (some []) = some no_statements
  validate_parsed (some (none ∷ [])) = some empty_statement
  validate_parsed (some (some n ∷ [])) = validate_statement n
  validate_parsed (some (_ ∷ _ ∷ rest)) = some (multiple (suc (suc (length rest))))

  unfoldable pub validate_read_only_sql : String → Option SqlError
  validate_read_only_sql sql = if sql == "" then some empty_input else validate_parsed (parse sql)
