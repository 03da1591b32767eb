-- ===== src/Hunting/Policy.antt =====
-- The policy on queries (crates/kql-parser/src/policy.rs), over what the grammar makes of a text. The
-- grammar is compiled from a pest file, so the parser is a parameter: it gives the analysis of the
-- parse tree (src/lib.rs of the crate) and its last statement.
pub mod Accepted
use microsoft_defender_mcp.Prelude.{
  ℕ, zero, suc, ◌+◌, ◌-◌, ◌*◌, ◌/◌, ◌%◌, ◌≤◌, ◌<◌, String, ◌≡◌, refl, sym, ap, ◌∙◌, ◌≢◌, ◌↔◌, ◌⊎◌,
  inl, inr, Bool, true, false, ◌&&◌, ◌||◌, not, Option, none, some, List, [], ◌∷◌, ◌++◌, map,
  append-nil, append_assoc, arith, str_eq, eq_iff, ltb, leb, ◌==◌, if◌then◌else◌, ==_iff, leb→le,
  Bool-cases, Option-cases, Result, ok, err, refuse, map_err, is_ok, ok_or, unwrap_or, length, take,
  any, all, is_empty, All, Any, length-append, All-append, any-eq-false_iff, all-eq-true_iff,
  All-map,
}
use microsoft_defender_mcp.Hunting.Commands.{Position, leading_dot, dot_statement_at}
use microsoft_defender_mcp.Text.{
  Text, lit, text_eq, starts_with, ends_with, is_whitespace, trim_end,
}
use microsoft_defender_mcp.Text.Decimal.{decimal}

pub data Code : Type 0 where
  parse_error : Code
  management_command : Code
  external_data : Code
  cross_cluster : Code
  external_plugin : Code
  set_statement : Code
  unscoped_search : Code
  wildcard_table : Code
  not_tabular : Code

-- `Code::as_str`
abbrev pub code_str : Code → String
code_str parse_error = "parse_error"
code_str management_command = "management_command"
code_str external_data = "external_data"
code_str cross_cluster = "cross_cluster"
code_str external_plugin = "external_plugin"
code_str set_statement = "set_statement"
code_str unscoped_search = "unscoped_search"
code_str wildcard_table = "wildcard_table"
code_str not_tabular = "not_tabular"

pub record Problem : Type 0 where
  pub code : Code
  pub message : Text
  pub position : Option Position

abbrev new_problem : Code → Text → Problem
new_problem code message = record { code = code; message = message; position = none }

abbrev at : Problem → Position → Problem
at problem position = record problem { position = some position }

-- What a query reads and does; a set is the list of its members, in their order.
pub record Analysis : Type 0 where
  pub tables : List Text
  pub table_patterns : List Text
  pub functions : List Text
  pub plugins : List Text
  pub invoked : List Text
  pub cross_cluster : Bool
  pub external_data : Bool
  pub unscoped_search : Bool
  pub set_options : List Text
  pub let_names : List Text
  pub operators : List Text
  pub names : List Text
  pub declared : List Text
  pub ungrouped_aggregate : Bool
  pub time_literals : Bool

-- A statement: whether it is a tabular expression (`Rule::pipe_expr`), and the text up to its end.
pub record Statement : Type 0 where
  pub pipe_expr : Bool
  pub text_to_end : Text

pub record Parsed : Type 0 where
  pub analysis : Analysis
  pub last_statement : Option Statement

pub record ParseError : Type 0 where
  pub line : ℕ
  pub column : ℕ
  pub message : Text

abbrev pub Parser : Type 0
Parser = Text → Result Parsed ParseError

abbrev pub external_plugins : List String
external_plugins =
    "http_request" ∷ "http_request_post" ∷ "sql_request" ∷ "mysql_request" ∷ "postgresql_request"
    ∷ "cosmosdb_sql_request" ∷ "azure_digital_twins_query_request" ∷ []

unfoldable pub is_external_plugin : Text → Bool
is_external_plugin p = any (λ name. text_eq p (lit name)) external_plugins

-- `if test { out.push(problem) }`
abbrev pub push_if : Bool → Problem → List Problem
push_if test problem = if test then problem ∷ [] else []

abbrev pub plugin_problems : List Text → List Problem
plugin_problems [] = []
plugin_problems (p ∷ ps) =
    push_if (is_external_plugin p) (
      new_problem external_plugin
        (lit "`evaluate " ++ (p ++ lit "` is not allowed: it calls an external service")))
    ++ plugin_problems ps

abbrev pub pattern_problem : Text → Problem
pattern_problem p =
    new_problem wildcard_table
      (lit "wildcard table name `" ++ (p ++ lit "` is not allowed: name each table"))

abbrev pub option_problem : Text → Problem
option_problem o =
    new_problem set_statement
      (lit "`set " ++ (o ++ lit "` is not allowed: the service sets the query options and bounds"))

unfoldable pub check : Analysis → List Problem
check a =
    push_if a.cross_cluster (
      new_problem cross_cluster (
        lit "`cluster()`/`database()` are not allowed: the query must read only the data in scope"))
    ++ (push_if a.external_data (
          new_problem external_data (
            lit
              "`externaldata`/`external_table()` are not allowed: the query must not read outside data"))
        ++ (plugin_problems a.plugins
            ++ (push_if a.unscoped_search (
                  new_problem unscoped_search
                    (lit "`search`/`find` must name its tables with `in (...)`"))
                ++ (map pattern_problem a.table_patterns ++ map option_problem a.set_options))))

abbrev management_command_problem : Problem
management_command_problem =
    new_problem management_command (
      lit
        "management commands (`.show`, `.create`, `.drop`...) are not queries and are not allowed")

abbrev pub is_tabular : Option Statement → Bool
is_tabular none = false
is_tabular (some s) = s.pipe_expr

abbrev tabular_problem : Problem
tabular_problem =
    new_problem not_tabular
      (lit "the query must end with a tabular expression: its rows are bounded with `| take`")

-- What is refused of a text that parses.
abbrev pub problems_of : Parsed → List Problem
problems_of query =
    check query.analysis ++ push_if (not (is_tabular query.last_statement)) tabular_problem

abbrev parse_problem : Text → ParseError → Problem
parse_problem text e =
    let position : Position = record { line = e.line; column = e.column } in
    at
      (if dot_statement_at text position
        then management_command_problem
        else new_problem parse_error e.message)
      position

module _ (parse : Parser) where
  unfoldable pub check_query : Text → Result Analysis (List Problem)
  check_query text = elim (leading_dot text) [
    | some position ↦ err (at management_command_problem position ∷ [])
    | none ↦ elim (parse text) [
      | err e ↦ err (parse_problem text e ∷ [])
      | ok query ↦
          if is_empty (problems_of query) then ok query.analysis else err (problems_of query)
    ]
  ]

  -- `Result::ok`
  abbrev pub analyze : Text → Option Analysis
  analyze text = elim (parse text) [ err e ↦ none | ok query ↦ some query.analysis ]

  unfoldable trim_tail : Text → Text
  trim_tail [] = []
  trim_tail (c ∷ s) =
      if all (λ d. d == b';' || is_whitespace d) (c ∷ s) then [] else c ∷ trim_tail s

  unfoldable pub body_of : Text → Text
  unfolding trim_tail
  body_of text = elim (parse text) [
    | err e ↦ trim_tail text
    | ok query ↦ elim query.last_statement [ none ↦ trim_tail text | some s ↦ s.text_to_end ]
  ]

  unfoldable pub bounded : Text → ℕ → Text
  unfolding decimal
  bounded text max_rows = body_of text ++ (lit "\n| take " ++ decimal (max_rows + 1))
