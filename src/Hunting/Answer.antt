-- ===== src/Hunting/Answer.antt =====
-- The answers of Advanced Hunting made compact (`compact`, `schema_answer` and `tables_answer` of
-- src/hunting/mod.rs).
pub mod Cut
use microsoft_defender_mcp.Prelude.{
  length-map, length-take-all, length-take-cut, any, ◌||◌, Bool, unwrap_or, ℕ, ◌≤◌, ◌<◌, String,
  ◌≡◌, refl, ◌∙◌, ◌⊎◌, inl, inr, true, false, Option, none, some, List, [], ◌∷◌, ◌++◌, map, arith,
  ltb, if◌then◌else◌, Bool-cases, length, take, is_empty,
}
use microsoft_defender_mcp.Hunting.Catalog.{table_fields, table_json, Table, catalog, find_table}
use microsoft_defender_mcp.Json.{
  elements, array, Json, Fields, obj, end, field, get, get_field, as_str, str, arr, number, boolean,
  null,
}
use microsoft_defender_mcp.Server.Tools.{optional_field}
use microsoft_defender_mcp.Text.{Text, lit, text_eq}
use microsoft_defender_mcp.Text.Decimal.{decimal}

abbrev pub members : Option Json → List Json
members (some (arr vs)) = elements vs
members _ = []

-- `answer.get(key).and_then(Value::as_array)`, or no member.
unfoldable pub array_at : String → Json → List Json
unfolding get
array_at key answer = members (get key answer)

-- `answer.get("results").and_then(Value::as_array)`, or no row.
unfoldable pub results_of : Json → List Json
unfolding array_at
results_of answer = array_at "results" answer

-- `c.get(key).or_else(|| c.get(other))`
unfoldable pub get_either : String → String → Json → Option Json
unfolding get
get_either key other v = elim (get key v) [ some w ↦ some w | none ↦ get other v ]

abbrev pub text_at : Option Json → Option Text
text_at none = none
text_at (some v) = as_str v

abbrev pub Column : Type 0
Column = Text × Option Text

unfoldable pub columns_in : List Json → List Column
unfolding get_either
columns_in [] = []
columns_in (c ∷ cs) = elim (text_at (get_either "name" "Name" c)) [
  | none ↦ columns_in cs
  | some name ↦ (name, text_at (get_either "type" "Type" c)) ∷ columns_in cs
]

abbrev pub keys : Fields → List Column
keys end = []
keys (field k v fs) = (lit k, none) ∷ keys fs

abbrev pub first_keys : List Json → List Column
first_keys (obj fs ∷ rows) = keys fs
first_keys _ = []

unfoldable pub columns_of : Json → List Column
unfolding array_at columns_in results_of
columns_of answer =
    let columns = columns_in (array_at "schema" answer) in
    if is_empty columns then first_keys (results_of answer) else columns

abbrev pub cell : Text → Fields → Json
cell name end = null
cell name (field k v fs) = if text_eq (lit k) name then v else cell name fs

unfoldable pub row : List Column → Json → Json
row columns (obj fs) = arr (array (map (λ c. cell c.0 fs) columns))
row columns other = other

abbrev pub column_json : Column → Json
column_json (name, kind) =
    obj (field "name" (str name) (optional_field "type" (λ t. str t) kind end))

-- The rows kept of an answer.
unfoldable pub rows_of : Json → (max_rows : ℕ) → List Json
unfolding row columns_of results_of
rows_of answer max_rows = map (row (columns_of answer)) (take max_rows (results_of answer))

unfoldable cut_note : ℕ → Text
unfolding decimal
cut_note max_rows =
    lit "more than "
    ++ (decimal max_rows
        ++ lit
            " rows matched: this answer is cut and is not the complete result; summarize, narrow the query or raise maxRows")

unfoldable pub compact : Json → (max_rows : ℕ) → Fields
unfolding columns_of results_of rows_of cut_note
compact answer max_rows =
    let rows = rows_of answer max_rows in
    let truncated = ltb max_rows (length (results_of answer)) in
    let after : Fields =
      field "rowCount" (number (length rows))
        (field "rows" (arr (array rows)) (field "truncated" (boolean truncated) end)) in
    field "columns" (arr (array (map column_json (columns_of answer)))) (
      field "maxRows" (number max_rows)
        (if truncated then field "note" (str (cut_note max_rows)) after else after))

unfoldable schema_columns : List Json → List Json
unfolding get
schema_columns [] = []
schema_columns (r ∷ rs) = elim (text_at (get "ColumnName" r)) [
  | none ↦ schema_columns rs
  | some name ↦
      obj (
        field "name" (str name)
          (field "type" (str (unwrap_or [] (text_at (get "ColumnType" r)))) end))
      ∷ schema_columns rs
]

-- The columns, and what the catalog says of the table, but for its tags.
unfoldable pub schema_answer : (table : Text) → Json → Json
unfolding schema_columns results_of
schema_answer table answer =
    let columns = arr (array (schema_columns (results_of answer))) in
    elim (find_table table) [
      | none ↦
          obj
            (field "columns" columns (field "known" (boolean false) (field "name" (str table) end)))
      | some t ↦ obj (field "columns" columns (table_fields t (λ fs. fs)))
    ]

abbrev is_kind : Text → Table → Bool
is_kind f t = text_eq (lit t.kind) f || any (λ tag. text_eq (lit tag) f) t.tags

abbrev listed_tables : Option Text → List Table → List Json
listed_tables filter [] = []
listed_tables filter (t ∷ ts) =
    let rest = listed_tables filter ts in
    elim filter [
      | none ↦ table_json t ∷ rest
      | some f ↦ if is_kind f t then table_json t ∷ rest else rest
    ]

unfoldable pub tables_answer : Option Text → Json
unfolding catalog
tables_answer filter = obj (
    field "note"
      (str (
        lit
          "Microsoft's schema reference; which tables hold data depends on the Defender products deployed. Use action `schema` for a table's columns in this tenant."))
      (field "tables" (arr (array (listed_tables filter catalog))) end))
