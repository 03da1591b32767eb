-- ===== src/Hunting/Describe.antt =====
-- What an analysis says of its query (`Analysis` of crates/kql-parser/src/lib.rs), as the answer of
-- `validate` shows it.
use microsoft_defender_mcp.Prelude.{
  true, String, Bool, false, ◌&&◌, ◌||◌, not, Option, none, some, List, [], ◌∷◌, map, ◌==◌,
  if◌then◌else◌, any, all, is_empty,
}
use microsoft_defender_mcp.Hunting.Catalog.{ascii_lower}
use microsoft_defender_mcp.Hunting.Policy.{Analysis}
use microsoft_defender_mcp.Inputs.Args.{before}
use microsoft_defender_mcp.Json.{Fields, end, field, boolean, arr}
use microsoft_defender_mcp.Server.Tools.{texts}
use microsoft_defender_mcp.Text.{Text, lit, text_eq, starts_with, is_digit}

abbrev has_text : List String → Text → Bool
has_text names t = any (λ name. text_eq (lit name) t) names

abbrev member : List Text → Text → Bool
member ts t = any (text_eq t) ts

unfoldable pub row_limited : Analysis → Bool
row_limited a =
    any
      (has_text ("take_op" ∷ "top_op" ∷ "top_hitters_op" ∷ "sample_op" ∷ "sample_distinct_op" ∷ []))
      a.operators

unfoldable pub time_narrowed : Analysis → Bool
time_narrowed a =
    a.time_literals
    || any
        (λ f.
          has_text
            ("ago" ∷ "now" ∷ "startofday" ∷ "startofweek" ∷ "startofmonth" ∷ "startofyear"
              ∷ "endofday" ∷ "endofweek" ∷ "endofmonth" ∷ "endofyear" ∷ "datetime_add" ∷ [])
            (map ascii_lower f))
        a.functions

-- `str::strip_prefix`
abbrev strip_prefix : Text → Text → Option Text
strip_prefix [] s = some s
strip_prefix (p ∷ ps) [] = none
strip_prefix (p ∷ ps) (c ∷ s) = if p == c then strip_prefix ps s else none

abbrev then_holds : (Text → Bool) → Option Text → Bool
then_holds test none = false
then_holds test (some rest) = test rest

abbrev numbered : Text → String → Bool
numbered n prefix =
    then_holds (λ d. not (is_empty d) && all is_digit d) (strip_prefix (lit prefix) n)

unfoldable is_generated_name : Text → Bool
is_generated_name n =
    starts_with (lit "$") n
    || (numbered n "Column"
        || (numbered n "print_"
            || any (λ p. then_holds (starts_with (lit "_")) (strip_prefix (lit p) n))
                ("count" ∷ "dcount" ∷ "sum" ∷ "avg" ∷ "min" ∷ "max" ∷ "any" ∷ "take_any" ∷ "arg_max"
                  ∷ "arg_min" ∷ "make_set" ∷ "make_list" ∷ "make_bag" ∷ "countif" ∷ "dcountif"
                  ∷ "sumif" ∷ "avgif" ∷ "minif" ∷ "maxif" ∷ "percentile" ∷ "percentiles" ∷ "stdev"
                  ∷ "variance" ∷ "hll" ∷ "tdigest" ∷ [])))

abbrev filter_texts : (Text → Bool) → List Text → List Text
filter_texts p [] = []
filter_texts p (t ∷ ts) = let rest = filter_texts p ts in if p t then t ∷ rest else rest

unfoldable pub columns : Analysis → List Text
unfolding is_generated_name
columns a =
    filter_texts
      (λ n.
        not (member a.declared n)
        && (not (member a.let_names n) && (not (member a.tables n) && not (is_generated_name n))))
      a.names

-- Nothing but `_op`, any number of times.
abbrev only_ops : Text → Bool
only_ops [] = true
only_ops (a ∷ []) = false
only_ops (a ∷ b ∷ []) = false
only_ops (a ∷ b ∷ c ∷ s) = text_eq (a ∷ b ∷ c ∷ []) (lit "_op") && only_ops s

-- `trim_end_matches("_op")`: every such ending is cut off.
unfoldable trim_op : Text → Text
trim_op [] = []
trim_op (c ∷ s) = if only_ops (c ∷ s) then [] else c ∷ trim_op s

-- `BTreeSet::insert`
unfoldable insert_text_once : Text → List Text → List Text
unfolding before
insert_text_once t [] = t ∷ []
insert_text_once t (u ∷ us) =
    let rest = insert_text_once t us in
    if text_eq t u then u ∷ us else if before t u then t ∷ u ∷ us else u ∷ rest

unfoldable keyword : Text → Text
unfolding trim_op
keyword o = map (λ c. if c == b'_' then b'-' else c) (trim_op o)

unfoldable pub operator_keywords : List Text → List Text
unfolding insert_text_once keyword
operator_keywords [] = []
operator_keywords (o ∷ os) = insert_text_once (keyword o) (operator_keywords os)

-- The fields of `Validation::to_json` that the analysis gives.
unfoldable pub with_analysis : Option Analysis → (problems valid : Fields → Fields) → Fields
unfolding row_limited time_narrowed columns operator_keywords
with_analysis none problems valid = problems (valid end)
with_analysis (some a) problems valid = field "columns" (arr (texts (columns a))) (
    field "operators" (arr (texts (operator_keywords a.operators))) (
      problems (
        field "rowLimited" (boolean (row_limited a)) (
          field "tables" (arr (texts a.tables)) (
            field "timeNarrowed" (boolean (time_narrowed a))
              (field "ungroupedAggregate" (boolean a.ungrouped_aggregate) (valid end)))))))
