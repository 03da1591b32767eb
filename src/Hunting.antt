-- ===== src/Hunting.antt =====
-- Advanced Hunting (src/hunting/mod.rs): what the server makes of a query and of its answer.
pub mod Commands
pub mod Policy
pub mod Catalog
pub mod Cache
pub mod Describe
pub mod Answer
pub mod Valid
use microsoft_defender_mcp.Prelude.{
  ℕ, zero, suc, ◌+◌, ◌-◌, ◌*◌, ◌/◌, ◌%◌, ◌≤◌, ◌<◌, String, ◌≡◌, refl, sym, ap, ◌∙◌, ◌≢◌, ◌↔◌, ◌⊎◌,
  inl, inr, Bool, true, false, ◌&&◌, ◌||◌, not, Option, none, some, List, [], ◌∷◌, ◌++◌, map,
  append-nil, append_assoc, arith, str_eq, eq_iff, ltb, leb, ◌==◌, if◌then◌else◌, ==_iff, leb→le,
  Bool-cases, Option-cases, Result, ok, err, refuse, map_err, is_ok, ok_or, unwrap_or, length, take,
  any, all, is_empty, All, Any, length-append, All-append, any-eq-false_iff, all-eq-true_iff,
  All-map,
}
use microsoft_defender_mcp.Hunting.Catalog.{Table, find_table, find_ignoring_case}
use microsoft_defender_mcp.Hunting.Commands.{Position}
use microsoft_defender_mcp.Hunting.Policy.{
  Code, parse_error, management_command, code_str, Problem, Analysis, Parser, check_query, analyze,
}
use microsoft_defender_mcp.Json.{Json, Items, nil, cons, Fields, obj, end, field, str, arr, number}
use microsoft_defender_mcp.Text.{Text, lit, is_alpha, is_alphanumeric, byte_len}

pub record Finding : Type 0 where
  pub code : String
  pub severity : String
  pub message : Text
  pub line : Option ℕ
  pub column : Option ℕ

abbrev pub error_finding : String → Text → Finding
error_finding code message = record {
  code = code;
  severity = "error";
  message = message;
  line = none;
  column = none;
}

abbrev pub warning_finding : String → Text → Finding
warning_finding code message = record (error_finding code message) { severity = "warning" }

abbrev pub is_error : Finding → Bool
is_error f = str_eq f.severity "error"

abbrev map_option : {A B : Type 0} → (A → B) → Option A → Option B
map_option f none = none
map_option f (some a) = some (f a)

-- `From<Problem>`
abbrev pub from_problem : Problem → Finding
from_problem p = record {
  code = code_str p.code;
  severity = "error";
  message = p.message;
  line = map_option (λ q. q.line) p.position;
  column = map_option (λ q. q.column) p.position;
}

abbrev pub finding_json : Finding → Json
finding_json f =
    let rest = field "message" (str f.message) (field "severity" (str (lit f.severity)) end) in
    obj (elim f.line [
      | none ↦ field "code" (str (lit f.code)) rest
      | some l ↦ elim f.column [
        | none ↦ field "code" (str (lit f.code)) rest
        | some c ↦
            field "code" (str (lit f.code))
              (field "column" (number c) (field "line" (number l) rest))
      ]
    ])

abbrev pub findings_items : List Finding → Items
findings_items [] = nil
findings_items (f ∷ fs) = cons (finding_json f) (findings_items fs)

pub record Validation : Type 0 where
  pub analysis : Option Analysis
  pub findings : List Finding

unfoldable pub is_valid : Validation → Bool
is_valid v = not (any is_error v.findings)

abbrev unknown_message : Text → Text
unknown_message t = elim (find_ignoring_case t) [
  | some known ↦
      lit "`"
      ++ (t
          ++ (lit
                "` is not an Advanced Hunting table: table names are case-sensitive, did you mean `"
              ++ (lit known.name ++ lit "`?")))
  | none ↦
      lit "`"
      ++ (t
          ++ lit
              "` is not a known Advanced Hunting table: a custom table works, a missing one is refused by Defender")
]

abbrev pub table_warnings : List Text → List Finding
table_warnings [] = []
table_warnings (t ∷ ts) = elim (find_table t) [
  | some _ ↦ table_warnings ts
  | none ↦ warning_finding "unknown_table" (unknown_message t) ∷ table_warnings ts
]

abbrev pub no_table : Finding
no_table =
    error_finding "no_table"
      (lit "the query reads no table: name an Advanced Hunting table (action `tables` lists them)")

abbrev pub ungrouped : Finding
ungrouped = warning_finding "ungrouped_aggregate" (
    lit
      "an ungrouped `summarize`/`count` returns one row whether or not anything matched: group by an entity, or return the events")

-- What an analysis adds to the findings.
unfoldable pub analysis_findings : Option Analysis → List Finding
analysis_findings none = []
analysis_findings (some a) =
    (if is_empty a.tables then no_table ∷ [] else [])
    ++ (table_warnings a.tables ++ (if a.ungrouped_aggregate then ungrouped ∷ [] else []))

-- The codes of a text that has no parse tree to report.
abbrev pub unparsed : Problem → Bool
unparsed p = elim p.code [ parse_error ↦ true | management_command ↦ true | _ ↦ false ]

module _ (parse : Parser) where
  unfoldable pub validate : Text → Validation
  unfolding analysis_findings
  validate query = elim (check_query parse query) [
    | ok a ↦ record { analysis = some a; findings = analysis_findings (some a) }
    | err problems ↦
        let analysis = if any unparsed problems then none else analyze parse query in
        record {
          analysis = analysis;
          findings = map from_problem problems ++ analysis_findings analysis;
        }
  ]

unfoldable pub is_table_name : Text → Bool
is_table_name [] = false
is_table_name (c ∷ s) =
    (is_alpha c || c == b'_')
    && (all (λ d. is_alphanumeric d || d == b'_') s && leb (byte_len (c ∷ s)) 256)

unfoldable pub schema_query : Text → Text
schema_query table = table ++ lit "\n| getschema\n| project ColumnName, ColumnType"
