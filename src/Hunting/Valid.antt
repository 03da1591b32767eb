-- ===== src/Hunting/Valid.antt =====
-- Which queries may be sent.
use microsoft_defender_mcp.Prelude.{
  any-append, is_empty-eq-false_iff, Result-cases, ◌≡◌, refl, ◌∙◌, ◌≢◌, ◌↔◌, inl, inr, Bool, true,
  false, some, List, [], ◌∷◌, ◌++◌, map, arith, if◌then◌else◌, Option-cases, ok, err, any, is_empty,
}
use microsoft_defender_mcp.Hunting.{
  Finding, is_error, from_problem, is_valid, table_warnings, no_table, ungrouped, analysis_findings,
  validate,
}
use microsoft_defender_mcp.Hunting.Catalog.{find_table}
use microsoft_defender_mcp.Hunting.Commands.{leading_dot}
use microsoft_defender_mcp.Hunting.Policy.{Problem, Analysis, Parser, check_query}
use microsoft_defender_mcp.Text.{Text}

table_warnings-harmless : (ts : List Text) → any is_error (table_warnings ts) ≡ false
table_warnings-harmless [] = refl
table_warnings-harmless (t ∷ ts) = elim (Option-cases (find_table t)) [
  | inl unknown ↦ rw (any, unknown) (table_warnings-harmless ts)
  | inr (_, known) ↦ rw (any, known) (table_warnings-harmless ts)
]

ungrouped-harmless : (b : Bool) → any is_error (if b then ungrouped ∷ [] else []) ≡ false
ungrouped-harmless true = refl
ungrouped-harmless false = refl

no_table-counts :
    (ts : List Text) → any is_error (if is_empty ts then no_table ∷ [] else []) ≡ is_empty ts
no_table-counts [] = refl
no_table-counts (t ∷ ts) = refl

-- The analysis adds an error exactly when the query reads no table.
analysis_findings-error :
    (a : Analysis) → any is_error (analysis_findings (some a)) ≡ is_empty a.tables
unfolding analysis_findings
analysis_findings-error a =
    let first = no_table-counts a.tables in
    let tables = table_warnings-harmless a.tables in
    let aggregate = ungrouped-harmless a.ungrouped_aggregate in
    let outer = any-append is_error (if is_empty a.tables then no_table ∷ [] else []) in
    let inner = any-append is_error (table_warnings a.tables) in
    outer _ ∙ rw (first, inner, tables, aggregate) (ground arith)

refused-nonempty :
    (parse : Parser) (text : Text) (problems : List Problem)
    → check_query parse text ≡ err problems
    → is_empty problems ≡ false
unfolding check_query
refused-nonempty parse text problems e = elim (Option-cases (leading_dot text)) [
  | inr (p, dot) ↦ ground arith
  | inl no_dot ↦ elim (Result-cases (parse text)) [
    | inr (why, failed) ↦ ground arith
    | inl (q, parsed) ↦ ground arith
  ]
]

problems-count :
    (problems : List Problem) (rest : List Finding)
    → is_empty problems ≡ false
    → any is_error (map from_problem problems ++ rest) ≡ true
problems-count [] rest h = absurd (ground arith)
problems-count (p ∷ ps) rest h = refl

-- A query is valid, with no error among its findings, exactly when the policy accepts it and its
-- analysis reads a table; warnings do not count.
pub validate-is_valid_iff :
    (parse : Parser) (text : Text)
    → (is_valid (validate parse text) ≡ true)
      ↔ ((a : Analysis) × (check_query parse text ≡ ok a) × (a.tables ≢ []))
unfolding validate is_valid
validate-is_valid_iff parse text = elim (Result-cases (check_query parse text)) [
  | inl (a, accepted) ↦
      let errors = analysis_findings-error a in
      let named = is_empty-eq-false_iff a.tables in
      (
        λ v. let clean : is_empty a.tables ≡ false = ground arith in (a, accepted, named.0 clean),
        λ h.
            let (b, eb, nb) = h in
            let same : a ≡ b = cc in
            let clean : is_empty a.tables ≡ false = named.1 (rw same nb) in ground arith,
      )
  | inr (problems, refused) ↦
      let some_problem = refused-nonempty parse text problems refused in
      let errors = problems-count problems in
      (λ v. absurd (ground arith), λ h. let (b, eb, _) = h in absurd (cc))
]
