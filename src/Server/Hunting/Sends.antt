-- ===== src/Server/Hunting/Sends.antt =====
-- What `defender_hunting` sends to Microsoft Graph.
use microsoft_defender_mcp.Prelude.{
  none, is_empty-eq-true_iff, is_empty-eq-false_iff, ◌++◌, ◌+◌, Option, ℕ, ◌≤◌, ◌≡◌, refl, ◌≢◌, ◌↔◌,
  ◌⊎◌, inl, inr, true, false, some, [], ◌∷◌, arith, str_eq, Bool-cases, Option-cases, ok, unwrap_or,
  is_empty, All, All-map, Result-cases,
}
use microsoft_defender_mcp.Hunting.{is_valid, validate, is_table_name, schema_query}
use microsoft_defender_mcp.Hunting.Cache.{SchemaCache, get_schema}
use microsoft_defender_mcp.Hunting.Policy.{
  Parsed, Statement, is_tabular, body_of, Analysis, Parser, bounded,
}
use microsoft_defender_mcp.Hunting.Policy.Accepted.{IsAccepted, check_query_iff}
use microsoft_defender_mcp.Hunting.Valid.{validate-is_valid_iff}
use microsoft_defender_mcp.Server.Hunting.{
  given, HuntingInput, HuntingQuery, Graph, default_max_rows, validate_kql_query, read_run,
  run_query, hunting_run, read_table, schema_request, hunting_schema, defender_hunting,
  checked_text, rows_check,
}
use microsoft_defender_mcp.Server.Tools.{required}
use microsoft_defender_mcp.Text.{lit, Text, byte_len, trim}
use microsoft_defender_mcp.Text.Decimal.{decimal}

-- A size that `run` takes: a text that is not blank and not too long, and a number of rows.
pub record IsSized (text : Text) (max_rows : ℕ) : Type 0 where
  pub not_blank : is_empty (trim text) ≡ false
  pub not_long : byte_len text ≤ 128000
  pub some_row : 1 ≤ max_rows
  pub not_many : max_rows ≤ 99999

-- A query that `run` sends: it passes the policy, reads a table, and is bounded.
pub record IsRun (parse : Parser) (sent : HuntingQuery) : Type 0 where
  pub text : Text
  pub max_rows : ℕ
  pub sized : IsSized text max_rows
  pub analysis : Analysis
  pub passes : IsAccepted parse text analysis
  pub reads_table : analysis.tables ≢ []
  pub is_bounded : sent.query ≡ bounded parse text max_rows

-- A query that `schema` sends: it lists the columns of a plain identifier.
pub record IsSchema (sent : HuntingQuery) : Type 0 where
  pub table : Text
  pub identifier : is_table_name table ≡ true
  pub lists_columns : sent.query ≡ schema_query table

pub read_run_iff :
    (input : HuntingInput) (text : Text) (max_rows : ℕ)
    → (read_run input ≡ ok (text, max_rows)) ↔ (
        (input.query ≡ some text)
        × (unwrap_or default_max_rows input.max_rows ≡ max_rows)
        × IsSized text max_rows)
unfolding read_run checked_text required validate_kql_query rows_check
read_run_iff input text max_rows = ground arith

read_table-identifier :
    (input : HuntingInput) (table : Text) → read_table input ≡ ok table → is_table_name table ≡ true
unfolding read_table
read_table-identifier input table e = ground arith

-- The timespan that is sent: the one that is given, trimmed, unless it is blank, or else 30 days.
pub data IsTimespan : Option Text → Text → Type 0 where
  asked : (t : Text) → trim t ≢ [] → IsTimespan (some t) (trim t)
  blank : (t : Text) → trim t ≡ [] → IsTimespan (some t) (lit "P30D")
  unasked : IsTimespan none (lit "P30D")

timespan_sent : (t : Option Text) → IsTimespan t (unwrap_or (lit "P30D") (given t))
timespan_sent none = unasked
timespan_sent (some t) = elim (Bool-cases (is_empty (trim t))) [
  | inl empty ↦ rw empty (blank t ((is_empty-eq-true_iff _).0 empty))
  | inr full ↦ rw full (asked t ((is_empty-eq-false_iff _).0 full))
]

tabular_statement :
    (q : Parsed)
    → is_tabular q.last_statement ≡ true
    → (s : Statement) × (q.last_statement ≡ some s)
tabular_statement q h = elim (Option-cases q.last_statement) [
  | inl missing ↦ absurd (ground arith)
  | inr (s, there) ↦ (s, there)
]

module _ (graph : Graph) (parse : Parser) where
  hunting_run-IsRun :
      (cache : SchemaCache) (input : HuntingInput)
      → All (IsRun parse) (hunting_run graph parse cache input).requests
  unfolding hunting_run run_query
  hunting_run-IsRun cache input = elim (Result-cases (read_run input)) [
    | inr (e, refused) ↦ rw (hunting_run, refused) tt
    | inl ((text, max_rows), read) ↦ elim (Bool-cases (is_valid (validate parse text))) [
      | inr invalid ↦ rw (hunting_run, read, invalid) tt
      | inl valid ↦
          let (a, accepted, named) = (validate-is_valid_iff parse text).0 valid in
          let run : IsRun parse (run_query parse text max_rows input.timespan) = record {
            text = text;
            max_rows = max_rows;
            sized = ((read_run_iff input text max_rows).0 read).2;
            analysis = a;
            passes = (check_query_iff parse text a).0 accepted;
            reads_table = named;
            is_bounded = refl;
          } in
          rw (hunting_run, read, valid) (run, tt)
    ]
  ]

  hunting_schema-IsSchema :
      (cache : SchemaCache) (now later : ℕ) (input : HuntingInput)
      → All IsSchema (hunting_schema graph parse cache now later input).requests
  unfolding hunting_schema
  hunting_schema-IsSchema cache now later input = elim (Result-cases (read_table input)) [
    | inr (e, refused) ↦ rw (hunting_schema, refused) tt
    | inl (table, read) ↦
        let request : IsSchema (schema_request table) = record {
          table = table;
          identifier = read_table-identifier input table read;
          lists_columns = refl;
        } in
        elim (Option-cases (get_schema cache now table)) [
          | inr (cached, hit) ↦ rw (hunting_schema, read, hit) tt
          | inl miss ↦ elim (Result-cases (graph (schema_request table))) [
            | inl (answer, answered) ↦ rw (hunting_schema, read, miss, answered) (request, tt)
            | inr (e, failed) ↦ rw (hunting_schema, read, miss, failed) (request, tt)
          ]
        ]
  ]

  -- Whatever the action and its input, `defender_hunting` sends nothing but queries of two forms: a
  -- text that is not blank, not too long, passes the policy and reads a table, bounded to between one
  -- and 99999 rows and one more; or the listing of the columns of a plain identifier.
  pub defender_hunting-sends :
      (cache : SchemaCache) (now later : ℕ) (input : HuntingInput)
      → All
          (λ sent. IsRun parse sent ⊎ IsSchema sent)
          (defender_hunting graph parse cache now later input).requests
  unfolding defender_hunting
  defender_hunting-sends cache now later input =
      let runs = All-map (IsRun parse) (λ sent. IsRun parse sent ⊎ IsSchema sent) (λ _ h. inl h) in
      let lists = All-map IsSchema (λ sent. IsRun parse sent ⊎ IsSchema sent) (λ _ h. inr h) in
      elim (Bool-cases (str_eq input.action "validate")) [
        | inl v ↦ rw v tt
        | inr v ↦ elim (Bool-cases (str_eq input.action "run")) [
          | inl r ↦ rw (v, r) (runs _ (hunting_run-IsRun cache input))
          | inr r ↦ elim (Bool-cases (str_eq input.action "schema")) [
            | inl s ↦ rw (v, r, s) (lists _ (hunting_schema-IsSchema cache now later input))
            | inr s ↦ elim (Bool-cases (str_eq input.action "tables")) [
              | inl t ↦ rw (v, r, s, t) tt
              | inr t ↦ rw (v, r, s, t) tt
            ]
          ]
        ]
      ]

  -- A text of a size that `run` takes, which the policy accepts and which reads a table, is sent: it
  -- is the one request, the text up to the end of its last statement, as the parser gives it, bounded
  -- with `take` to one row more than the input asks for, or than 1000, over the trimmed timespan of the
  -- input, or 30 days.
  pub accepted_runs :
      (cache : SchemaCache) (input : HuntingInput) (text : Text) (a : Analysis)
      → input.query ≡ some text
      → IsSized text (unwrap_or 1000 input.max_rows)
      → (accepted : IsAccepted parse text a) → a.tables ≢ []
      → (s : Statement) × (span : Text) × (accepted.query.last_statement ≡ some s)
        × IsTimespan input.timespan span
        × ((hunting_run graph parse cache input).requests
            ≡ record {
              query =
                  s.text_to_end ++ (lit "\n| take " ++ decimal (unwrap_or 1000 input.max_rows + 1));
              timespan = span;
            }
              ∷ [])
  unfolding hunting_run bounded body_of run_query
  accepted_runs cache input text a given sized accepted named =
      let read = (read_run_iff input text _).1 (given, refl, sized) in
      let valid =
        (validate-is_valid_iff parse text).1
          (a, (check_query_iff parse text a).1 accepted, named) in
      let (s, last) = tabular_statement accepted.query accepted.tabular in
      let parsed = accepted.parses in
      (
        s,
        _,
        last,
        timespan_sent input.timespan,
        rw (hunting_run, read, valid, run_query, bounded, body_of, parsed, last) refl,
      )
