-- ===== src/Tests/Hunting.antt =====
-- Runs of `defender_hunting`, with a stand-in for the parser: every text is one tabular statement.
use microsoft_defender_mcp.Prelude.{
  ◌++◌, String, ◌≡◌, refl, ◌≢◌, ◌↔◌, ◌⊎◌, true, false, none, some, List, [], ◌∷◌, map, arith, ok,
  length, All,
}
use microsoft_defender_mcp.Hunting.{is_table_name}
use microsoft_defender_mcp.Hunting.Answer.{compact, rows_of}
use microsoft_defender_mcp.Hunting.Answer.Cut.{IsCut, compact-IsCut}
use microsoft_defender_mcp.Hunting.Cache.{
  Put, empty_cache, get_schema, put_schema, cache_after, last_put, fresh, value_of,
  get_schema-last_put,
}
use microsoft_defender_mcp.Hunting.Catalog.{find_table}
use microsoft_defender_mcp.Hunting.Commands.{leading_dot, dot_statement_at}
use microsoft_defender_mcp.Hunting.Describe.{operator_keywords, columns}
use microsoft_defender_mcp.Hunting.Policy.{
  Statement, is_external_plugin, body_of, external_plugin, external_data, Analysis, Parser,
  check_query, check,
}
use microsoft_defender_mcp.Hunting.Policy.Accepted.{IsAccepted, IsScoped, check_query_iff}
use microsoft_defender_mcp.Json.{Json, null, obj, end, field, str, arr, nil, cons, number}
use microsoft_defender_mcp.Server.Hunting.{HuntingInput, Graph, hunting_run, defender_hunting}
use microsoft_defender_mcp.Server.Hunting.Sends.{
  IsTimespan, IsRun, IsSchema, IsSized, defender_hunting-sends, accepted_runs,
}
use microsoft_defender_mcp.Text.{
  ends_with, trim, is_whitespace, byte_len, starts_with, text_eq, Text, lit, trim_end,
}
use microsoft_defender_mcp.Text.Decimal.{decimal}

abbrev reads_one : Analysis
reads_one = record {
  tables = lit "DeviceInfo" ∷ [];
  table_patterns = [];
  functions = lit "ago" ∷ [];
  plugins = lit "bag_unpack" ∷ [];
  invoked = [];
  cross_cluster = false;
  external_data = false;
  unscoped_search = false;
  set_options = [];
  let_names = [];
  operators = lit "where_op" ∷ lit "mv_expand_op" ∷ lit "take_op" ∷ [];
  names = lit "count_" ∷ lit "DeviceId" ∷ [];
  declared = [];
  ungrouped_aggregate = false;
  time_literals = false;
}

abbrev parse : Parser
parse text = ok (record {
  analysis = reads_one;
  last_statement = some (record { pipe_expr = true; text_to_end = trim_end text });
})

abbrev two_rows : Json
two_rows = obj (
    field "results"
      (arr (
        cons (obj (field "DeviceName" (str (lit "a")) end))
          (cons (obj (field "DeviceName" (str (lit "b")) end)) nil)))
      end)

abbrev graph : Graph
graph sent = ok two_rows

abbrev query : Text
query = lit "DeviceInfo | where true \n"

abbrev input : String → HuntingInput
input action = record {
  action = action;
  query = some query;
  timespan = none;
  max_rows = some 1;
  table = some (lit " DeviceInfo ");
  filter = none;
}

run_is_bounded :
    (defender_hunting graph parse empty_cache 0 0 (input "run")).requests
    ≡ record { query = lit "DeviceInfo | where true\n| take 2"; timespan = lit "P30D" } ∷ []
unfolding defender_hunting trim lit is_whitespace byte_len check_query leading_dot starts_with check
    is_external_plugin text_eq find_table body_of
run_is_bounded = refl

schema_is_sent :
    (defender_hunting graph parse empty_cache 0 0 (input "schema")).requests
    ≡ record {
      query = lit "DeviceInfo\n| getschema\n| project ColumnName, ColumnType";
      timespan = lit "P1D";
    }
      ∷ []
unfolding defender_hunting trim lit is_whitespace byte_len
schema_is_sent = refl

validate_sends_nothing :
    (defender_hunting graph parse empty_cache 0 0 (input "validate")).requests ≡ []
unfolding defender_hunting
validate_sends_nothing = refl

one_row_is_kept : length (rows_of two_rows 1) ≡ 1
unfolding rows_of
one_row_is_kept = refl

keywords_are_sorted :
    operator_keywords reads_one.operators ≡ lit "mv-expand" ∷ lit "take" ∷ lit "where" ∷ []
unfolding operator_keywords text_eq lit
keywords_are_sorted = refl

generated_names_are_left_out : columns reads_one ≡ lit "DeviceId" ∷ []
unfolding columns text_eq lit starts_with
generated_names_are_left_out = refl

commands_are_found :
    leading_dot (lit "// list them\n  .drop table T") ≡ some (record { line = 2; column = 3 })
unfolding leading_dot lit is_whitespace starts_with
commands_are_found = refl

later_commands_are_found :
    dot_statement_at (lit "T | take 1;\n.show tables") (record { line = 2; column = 1 }) ≡ true
unfolding dot_statement_at lit starts_with ends_with trim_end is_whitespace
later_commands_are_found = refl

member_access_is_no_command :
    dot_statement_at (lit "T | where .x") (record { line = 1; column = 11 }) ≡ false
unfolding dot_statement_at lit starts_with ends_with trim_end is_whitespace
member_access_is_no_command = refl

outside_data_is_refused :
    map
      (λ p. p.code)
      (check (record reads_one { external_data = true; plugins = lit "http_request" ∷ [] }))
    ≡ external_data ∷ external_plugin ∷ []
unfolding check is_external_plugin text_eq lit
outside_data_is_refused = refl

table_names_are_plain :
    (is_table_name (lit "DeviceInfo") ≡ true) × (is_table_name (lit "T | take 1") ≡ false)
unfolding is_table_name lit byte_len
table_names_are_plain = (refl, refl)

scoped : IsScoped reads_one
unfolding is_external_plugin text_eq lit
scoped = record {
  one_cluster = refl;
  no_outside_data = refl;
  no_outside_plugin = (refl, tt);
  no_search = refl;
  no_pattern = refl;
  no_option = refl;
}

abbrev accepted : IsAccepted parse query reads_one
unfolding leading_dot lit is_whitespace starts_with
accepted = record {
  no_command = refl;
  query = record {
    analysis = reads_one;
    last_statement = some (record { pipe_expr = true; text_to_end = trim_end query });
  };
  parses = refl;
  analysed = refl;
  tabular = refl;
  scoped = scoped;
}

check_query_iff_example :
    (check_query parse query ≡ ok reads_one) ↔ IsAccepted parse query reads_one
check_query_iff_example = check_query_iff parse query reads_one

defender_hunting-sends_example :
    All
      (λ sent. IsRun parse sent ⊎ IsSchema sent)
      (defender_hunting graph parse empty_cache 0 0 (input "run")).requests
defender_hunting-sends_example = defender_hunting-sends graph parse empty_cache 0 0 (input "run")

sized : IsSized query 1
unfolding trim lit is_whitespace byte_len
sized = record {
  not_blank = refl;
  not_long = omega arith;
  some_row = omega arith;
  not_many = omega arith;
}

names_table : reads_one.tables ≢ []
names_table p = absurd (cc)

accepted_runs_example :
    (s : Statement) × (span : Text) × (accepted.query.last_statement ≡ some s)
    × IsTimespan none span
    × ((hunting_run graph parse empty_cache (input "run")).requests
        ≡ record { query = s.text_to_end ++ (lit "\n| take " ++ decimal 2); timespan = span } ∷ [])
accepted_runs_example =
    accepted_runs graph parse empty_cache (input "run") query reads_one refl sized accepted
      names_table

compact-IsCut_example : IsCut two_rows 1 (compact two_rows 1)
compact-IsCut_example = compact-IsCut two_rows 1

-- One schema of a table after another, and one of another table, an hour and a half later.
abbrev history : List Put
history =
    record { at = 5400000000000; table = lit "DeviceEvents"; schema = null }
    ∷ record { at = 2000; table = lit "DeviceInfo"; schema = number 2 }
    ∷ record { at = 1000; table = lit "DeviceInfo"; schema = number 1 }
    ∷ []

newest_is_served :
    get_schema
      (cache_after (record { at = 2000; table = lit "DeviceInfo"; schema = number 2 } ∷ []))
      3000
      (lit "DeviceInfo")
    ≡ some (number 2)
unfolding get_schema cache_after put_schema text_eq lit
newest_is_served = refl

stale_is_not_served : get_schema (cache_after history) 5400000000000 (lit "DeviceInfo") ≡ none
unfolding get_schema cache_after put_schema text_eq lit
stale_is_not_served = refl

get_schema-last_put_example :
    get_schema (cache_after history) 5400000000001 (lit "DeviceEvents")
    ≡ value_of (fresh 5400000000001 (last_put history (lit "DeviceEvents")))
get_schema-last_put_example =
    get_schema-last_put history 5400000000001 (lit "DeviceEvents")
      (omega arith, (omega arith, (omega arith, tt)))
