-- ===== src/Server/Hunting.antt =====
-- `defender_hunting` of src/server.rs, with its four actions. The client's answer to a query, the
-- parser and the clock are parameters, and the cache of schemas is passed on.
pub mod Sends
use microsoft_defender_mcp.Prelude.{
  ℕ, String, ◌&&◌, not, Option, none, some, List, [], ◌∷◌, ◌++◌, str_eq, ltb, leb, if◌then◌else◌,
  Result, ok, err, refuse, unwrap_or, is_empty, ◌>>=◌, ◌>>◌,
}
use microsoft_defender_mcp.Error.{unknown_action_error, join}
use microsoft_defender_mcp.Hunting.{
  Finding, is_error, findings_items, Validation, is_valid, validate, is_table_name, schema_query,
}
use microsoft_defender_mcp.Hunting.Answer.{compact, schema_answer, tables_answer}
use microsoft_defender_mcp.Hunting.Cache.{SchemaCache, get_schema, put_schema}
use microsoft_defender_mcp.Hunting.Describe.{with_analysis}
use microsoft_defender_mcp.Hunting.Policy.{Parser, bounded}
use microsoft_defender_mcp.Json.{
  Json, Fields, obj, end, field, str, arr, boolean, CallToolResult, structured, structured_error,
  ErrorData, invalid_params,
}
use microsoft_defender_mcp.Server.Tools.{required}
use microsoft_defender_mcp.Text.{Text, lit, trim, byte_len}
use microsoft_defender_mcp.Text.Decimal.{decimal}

pub record HuntingInput : Type 0 where
  pub action : String
  pub query : Option Text
  pub timespan : Option Text
  pub max_rows : Option ℕ
  pub table : Option Text
  pub filter : Option Text

-- `default_hunting_action`
abbrev pub default_action : String
default_action = "run"

abbrev pub default_max_rows : ℕ
default_max_rows = 1000

abbrev pub max_max_rows : ℕ
max_max_rows = 99999

abbrev pub default_timespan : String
default_timespan = "P30D"

abbrev pub hunting_actions : List String
hunting_actions = "validate" ∷ "run" ∷ "schema" ∷ "tables" ∷ []

-- `validate_kql_query`
unfoldable pub validate_kql_query : Text → Result (Unit {0}) ErrorData
validate_kql_query query =
    refuse (is_empty (trim query)) (invalid_params (lit "KQL query cannot be empty"))
    >> refuse (ltb 128000 (byte_len query))
        (invalid_params (lit "KQL query exceeds maximum length of 128KB"))

-- A request to `runHuntingQuery`.
pub record HuntingQuery : Type 0 where
  pub query : Text
  pub timespan : Text

-- `graph_post_explained` on that path.
abbrev pub Graph : Type 0
Graph = HuntingQuery → Result Json CallToolResult

-- What an action comes to: its result, the requests that it made and the cache that it leaves.
pub record Hunt : Type 0 where
  pub result : Result CallToolResult ErrorData
  pub requests : List HuntingQuery
  pub cache : SchemaCache

-- `opt.as_deref().map(str::trim).filter(|t| !t.is_empty())`
abbrev pub given : Option Text → Option Text
given none = none
given (some t) = if is_empty (trim t) then none else some (trim t)

abbrev errors : List Finding → List Text
errors [] = []
errors (f ∷ fs) = if is_error f then f.message ∷ errors fs else errors fs

unfoldable not_run : Validation → CallToolResult
unfolding join
not_run checked = structured_error (
    obj (
      field "error"
        (str (lit "The query was not run: " ++ join (lit "; ") (errors checked.findings)))
        (field "problems" (arr (findings_items checked.findings)) end)))

-- `out.insert("warnings", …)`: the key comes after all that `compact` writes.
abbrev append_field : String → Json → Fields → Fields
append_field key v end = field key v end
append_field key v (field k w fs) = field k w (append_field key v fs)

abbrev with_warnings : List Finding → Fields → Fields
with_warnings [] fields = fields
with_warnings (f ∷ fs) fields = append_field "warnings" (arr (findings_items (f ∷ fs))) fields

unfoldable rows_check : (max_rows : ℕ) → Result (Unit {0}) ErrorData
unfolding decimal
rows_check max_rows =
    refuse (not (leb 1 max_rows && leb max_rows max_max_rows))
      (invalid_params (lit "maxRows must be between 1 and " ++ decimal max_max_rows))

abbrev pub no_request : SchemaCache → Result CallToolResult ErrorData → Hunt
no_request cache result = record { result = result; requests = []; cache = cache }

unfoldable pub checked_text : Option Text → (action : String) → Result Text ErrorData
unfolding required validate_kql_query
checked_text query action =
    required query "query" action >>= λ text. (validate_kql_query text >>= λ _. ok text)

unfoldable validation_json : Validation → Json
unfolding is_valid
validation_json v = obj (
    with_analysis v.analysis (λ rest. field "problems" (arr (findings_items v.findings)) rest)
      (λ rest. field "valid" (boolean (is_valid v)) rest))

unfoldable pub run_answer :
    List Finding → (max_rows : ℕ) → Result Json CallToolResult → CallToolResult
unfolding compact
run_answer findings max_rows (ok answer) =
    structured (obj (with_warnings findings (compact answer max_rows)))
run_answer findings max_rows (err e) = e

-- The text and the number of rows, once they are checked.
unfoldable pub read_run : HuntingInput → Result (Text × ℕ) ErrorData
unfolding checked_text rows_check
read_run input = checked_text input.query "run" >>= λ text.
    (let max_rows = unwrap_or default_max_rows input.max_rows in
      rows_check max_rows >>= λ _. ok (text, max_rows))

unfoldable pub read_table : HuntingInput → Result Text ErrorData
unfolding required is_table_name
read_table input = required input.table "table" "schema" >>= λ table.
    (if is_table_name (trim table)
      then ok (trim table)
      else err (
          invalid_params
            (lit "table must be a table name such as DeviceProcessEvents (letters, digits, _)")))

unfoldable pub schema_request : Text → HuntingQuery
unfolding schema_query
schema_request table = record { query = schema_query table; timespan = lit "P1D" }

unfoldable pub hunting_tables : HuntingInput → CallToolResult
unfolding tables_answer
hunting_tables input = structured (tables_answer (given input.filter))

module _ (parse : Parser) where
  unfoldable pub hunting_validate : HuntingInput → Result CallToolResult ErrorData
  unfolding validate validation_json checked_text
  hunting_validate input = checked_text input.query "validate" >>= λ text.
      ok (structured (validation_json (validate parse text)))

  unfoldable pub run_query : Text → (max_rows : ℕ) → Option Text → HuntingQuery
  unfolding bounded
  run_query text max_rows timespan = record {
    query = bounded parse text max_rows;
    timespan = unwrap_or (lit default_timespan) (given timespan);
  }

module _ (graph : Graph) (parse : Parser) where
  unfoldable pub hunting_run : SchemaCache → HuntingInput → Hunt
  unfolding validate is_valid not_run run_answer run_query read_run
  hunting_run cache input = elim (read_run input) [
    | err e ↦ no_request cache (err e)
    | ok (text, max_rows) ↦
        let checked = validate parse text in
        let sent = run_query parse text max_rows input.timespan in
        if is_valid checked
        then record {
          result = ok (run_answer checked.findings max_rows (graph sent));
          requests = sent ∷ [];
          cache = cache;
        }
        else no_request cache (ok (not_run checked))
  ]

  -- The times are those of the look-up and of the put.
  unfoldable pub hunting_schema : SchemaCache → (now later : ℕ) → HuntingInput → Hunt
  unfolding read_table get_schema put_schema schema_answer schema_request
  hunting_schema cache now later input = elim (read_table input) [
    | err e ↦ no_request cache (err e)
    | ok table ↦ elim (get_schema cache now table) [
      | some cached ↦ no_request cache (ok (structured cached))
      | none ↦ elim (graph (schema_request table)) [
        | err e ↦ record { result = ok e; requests = schema_request table ∷ []; cache = cache }
        | ok answer ↦
            let schema = schema_answer table answer in
            record {
              result = ok (structured schema);
              requests = schema_request table ∷ [];
              cache = put_schema cache later table schema;
            }
      ]
    ]
  ]

  unfoldable pub defender_hunting : SchemaCache → (now later : ℕ) → HuntingInput → Hunt
  unfolding hunting_validate hunting_run hunting_schema hunting_tables unknown_action_error
  defender_hunting cache now later input =
      if str_eq input.action "validate"
      then no_request cache (hunting_validate parse input)
      else if str_eq input.action "run"
      then hunting_run cache input
      else if str_eq input.action "schema"
      then hunting_schema cache now later input
      else if str_eq input.action "tables"
      then no_request cache (ok (hunting_tables input))
      else no_request cache
          (err (unknown_action_error "defender_hunting" input.action hunting_actions))
