-- ===== src/Hunting/Answer/Cut.antt =====
-- What a compact answer keeps of the upstream one, and what it says of its own completeness.
use microsoft_defender_mcp.Prelude.{
  ℕ, zero, suc, ◌+◌, ◌≤◌, String, ◌≡◌, refl, sym, ap, ◌∙◌, ◌≢◌, ◌⊎◌, inl, inr, true, false, Option,
  none, some, List, [], ◌∷◌, ◌++◌, map, arith, ltb, leb→le, Bool-cases, Option-cases, length, take,
  is_empty, length-append, is_empty-eq-true_iff, is_empty-eq-false_iff, Each, Each-map, take-splits,
  length-map, length-take-all, length-take-cut,
}
use microsoft_defender_mcp.Hunting.Answer.{
  members, array_at, results_of, get_either, text_at, Column, columns_in, keys, first_keys,
  columns_of, cell, row, column_json, rows_of, compact,
}
use microsoft_defender_mcp.Json.{
  array, elements, Json, Items, nil, cons, null, boolean, number, other_number, str, arr, obj,
  Fields, end, field, get, get_field,
}
use microsoft_defender_mcp.Text.{Text, lit, text_eq}
use microsoft_defender_mcp.Text.Search.{text_eq_iff}

-- The members that an answer has under a key, if it has an array there.
pub data IsMembers (key : String) (answer : Json) : List Json → Type 0 where
  present : (vs : List Json) → get key answer ≡ some (arr (array vs)) → IsMembers key answer vs
  absent : ((vs : List Json) → get key answer ≢ some (arr (array vs))) → IsMembers key answer []

-- The name of a column of a schema.
pub data IsName (c : Json) (n : Text) : Type 0 where
  lower : get "name" c ≡ some (str n) → IsName c n
  upper : get "name" c ≡ none → get "Name" c ≡ some (str n) → IsName c n

-- The names of a schema, in their order; a column without one is passed over.
pub data Names : List Json → List Text → Type 0 where
  no_more : Names [] []
  named :
      (c : Json) (n : Text) (cs : List Json) (ns : List Text)
      → IsName c n
      → Names cs ns
      → Names (c ∷ cs) (n ∷ ns)
  unnamed :
      (c : Json) (cs : List Json) (ns : List Text)
      → ((n : Text) → IsName c n → ⊥)
      → Names cs ns
      → Names (c ∷ cs) ns

abbrev pub field_names : Fields → List Text
field_names end = []
field_names (field k v fs) = lit k ∷ field_names fs

-- The names of the columns: those of the schema, or, if it names none, the keys of the first row.
pub data IsHead (schema results : List Json) : List Text → Type 0 where
  of_schema : (ns : List Text) → Names schema ns → ns ≢ [] → IsHead schema results ns
  of_row :
      (fs : Fields) (rest : List Json)
      → Names schema []
      → results ≡ obj fs ∷ rest
      → IsHead schema results (field_names fs)
  of_nothing :
      Names schema []
      → ((fs : Fields) (rest : List Json) → results ≢ obj fs ∷ rest)
      → IsHead schema results []

-- The value of a column in a row; a row without it has a null there.
pub data IsCell (name : Text) : Fields → Json → Type 0 where
  missing : IsCell name end null
  here : (k : String) (v : Json) (fs : Fields) → lit k ≡ name → IsCell name (field k v fs) v
  later :
      (k : String) (v w : Json) (fs : Fields)
      → lit k ≢ name
      → IsCell name fs v
      → IsCell name (field k w fs) v

-- A row of the answer, of one of the upstream answer.
pub data IsRow (names : List Text) : Json → Json → Type 0 where
  of_object :
      (fs : Fields) (cells : List Json)
      → Each (λ n c. IsCell n fs c) names cells
      → IsRow names (obj fs) (arr (array cells))
  as_it_is : (v : Json) → ((fs : Fields) → v ≢ obj fs) → IsRow names v v

-- What the fields of a compact answer say of the upstream one.
pub record IsCut (answer : Json) (max_rows : ℕ) (fields : Fields) : Type 0 where
  pub results : List Json
  pub schema : List Json
  pub given : IsMembers "results" answer results
  pub described : IsMembers "schema" answer schema
  pub names : List Text
  pub headed : IsHead schema results names
  pub columns : List Json
  pub shown : get_field "columns" fields ≡ some (arr (array columns))
  pub each_column : Each (λ n c. get "name" c ≡ some (str n)) names columns
  pub rows : List Json
  pub listed : get_field "rows" fields ≡ some (arr (array rows))
  pub counted : get_field "rowCount" fields ≡ some (number (length rows))
  pub within : length rows ≤ max_rows
  pub first : List Json
  pub rest : List Json
  pub kept : results ≡ first ++ rest
  pub each_row : Each (IsRow names) first rows
  pub all_or_cut :
      ((rest ≡ []) × (get_field "truncated" fields ≡ some (boolean false)))
      ⊎ ((rest ≢ []) × (get_field "truncated" fields ≡ some (boolean true)))

array-elements : (vs : Items) → array (elements vs) ≡ vs
array-elements nil = refl
array-elements (cons v vs) = ap (cons v) (array-elements vs)

members-IsMembers :
    (key : String) (answer : Json) (found : Option Json)
    → get key answer ≡ found
    → IsMembers key answer (members found)
members-IsMembers key answer none e = absent (λ vs p. absurd (cc))
members-IsMembers key answer (some (arr vs)) e =
    present (elements vs) (e ∙ ap (λ ws. some (arr ws)) (sym (array-elements vs)))
members-IsMembers key answer (some null) e = absent (λ vs p. absurd (cc))
members-IsMembers key answer (some (boolean b)) e = absent (λ vs p. absurd (cc))
members-IsMembers key answer (some (number n)) e = absent (λ vs p. absurd (cc))
members-IsMembers key answer (some (other_number t)) e = absent (λ vs p. absurd (cc))
members-IsMembers key answer (some (str t)) e = absent (λ vs p. absurd (cc))
members-IsMembers key answer (some (obj fs)) e = absent (λ vs p. absurd (cc))

array_at-IsMembers : (key : String) (answer : Json) → IsMembers key answer (array_at key answer)
unfolding array_at
array_at-IsMembers key answer = members-IsMembers key answer (get key answer) refl

text_at_sound : (o : Option Json) (n : Text) → text_at o ≡ some n → o ≡ some (str n)
text_at_sound none n h = absurd (cc)
text_at_sound (some (str t)) n h = ap (λ s. some (str s)) (cc)
text_at_sound (some null) n h = absurd (cc)
text_at_sound (some (boolean b)) n h = absurd (cc)
text_at_sound (some (number m)) n h = absurd (cc)
text_at_sound (some (other_number t)) n h = absurd (cc)
text_at_sound (some (arr vs)) n h = absurd (cc)
text_at_sound (some (obj fs)) n h = absurd (cc)

get_either-IsName :
    (c : Json) (n : Text) → text_at (get_either "name" "Name" c) ≡ some n → IsName c n
unfolding get_either
get_either-IsName c n h = elim (Option-cases (get "name" c)) [
  | inr (v, there) ↦ lower (there ∙ text_at_sound (some v) n (rw (get_either, there) at h))
  | inl gone ↦ upper gone (text_at_sound (get "Name" c) n (rw (get_either, gone) at h))
]

IsName-get_either :
    (c : Json) (n : Text) → IsName c n → text_at (get_either "name" "Name" c) ≡ some n
unfolding get_either
IsName-get_either c n (lower h) = rw (get_either, h) refl
IsName-get_either c n (upper gone h) = rw (get_either, gone, h) refl

columns_in-Names : (cs : List Json) → Names cs (map (λ (c : Column). c.0) (columns_in cs))
unfolding columns_in
columns_in-Names [] = no_more
columns_in-Names (c ∷ cs) = elim (Option-cases (text_at (get_either "name" "Name" c))) [
  | inl nameless ↦
      rw (columns_in, nameless)
        (unnamed c cs _ (λ n is_name. let found = IsName-get_either c n is_name in absurd (cc))
          (columns_in-Names cs))
  | inr (n, found) ↦
      rw (columns_in, found) (named c n cs _ (get_either-IsName c n found) (columns_in-Names cs))
]

key_names : (fs : Fields) → map (λ (c : Column). c.0) (keys fs) ≡ field_names fs
key_names end = refl
key_names (field k v fs) = ap (λ ns. lit k ∷ ns) (key_names fs)

first_keys-IsHead :
    (schema results : List Json)
    → Names schema []
    → IsHead schema results (map (λ (c : Column). c.0) (first_keys results))
first_keys-IsHead schema [] h = of_nothing h (λ fs rest p. absurd (cc))
first_keys-IsHead schema (obj fs ∷ rs) h = rw (key_names fs) (of_row fs rs h refl)
first_keys-IsHead schema (null ∷ rs) h = of_nothing h (λ fs rest p. absurd (ground arith))
first_keys-IsHead schema (boolean b ∷ rs) h = of_nothing h (λ fs rest p. absurd (ground arith))
first_keys-IsHead schema (number n ∷ rs) h = of_nothing h (λ fs rest p. absurd (ground arith))
first_keys-IsHead schema (other_number t ∷ rs) h = of_nothing h (λ fs rest p. absurd (ground arith))
first_keys-IsHead schema (str t ∷ rs) h = of_nothing h (λ fs rest p. absurd (ground arith))
first_keys-IsHead schema (arr vs ∷ rs) h = of_nothing h (λ fs rest p. absurd (ground arith))

map-nonempty : (cs : List Column) → cs ≢ [] → map (λ (c : Column). c.0) cs ≢ []
map-nonempty [] h = absurd (h refl)
map-nonempty (c ∷ cs) h = cc

columns_of-IsHead :
    (answer : Json)
    → IsHead
        (array_at "schema" answer)
        (results_of answer)
        (map (λ (c : Column). c.0) (columns_of answer))
unfolding columns_of results_of
columns_of-IsHead answer =
    let listed = columns_in-Names (array_at "schema" answer) in
    elim (Bool-cases (is_empty (columns_in (array_at "schema" answer)))) [
      | inl empty ↦
          let none_named : columns_in (array_at "schema" answer) ≡ [] =
            (is_empty-eq-true_iff _).0 empty in
          rw (columns_of, empty) (first_keys-IsHead _ _ (rw none_named at listed))
      | inr full ↦
          rw (columns_of, full)
            (of_schema _ listed (map-nonempty _ ((is_empty-eq-false_iff _).0 full)))
    ]

cell-IsCell : (name : Text) (fs : Fields) → IsCell name fs (cell name fs)
cell-IsCell name end = missing
cell-IsCell name (field k v fs) = elim (Bool-cases (text_eq (lit k) name)) [
  | inl same ↦ rw same (here k v fs ((text_eq_iff (lit k) name).0 same))
  | inr other ↦ rw other (
      later k (cell name fs) v fs (λ p. let yes = (text_eq_iff (lit k) name).1 p in absurd (cc))
        (cell-IsCell name fs))
]

cells_of :
    (cs : List Column) (fs : Fields)
    → Each
        (λ n c. IsCell n fs c)
        (map (λ (c : Column). c.0) cs)
        (map (λ (c : Column). cell c.0 fs) cs)
cells_of [] fs = tt
cells_of (c ∷ cs) fs = (cell-IsCell c.0 fs, cells_of cs fs)

row-IsRow : (cs : List Column) (v : Json) → IsRow (map (λ (c : Column). c.0) cs) v (row cs v)
unfolding row
row-IsRow cs (obj fs) = of_object fs (map (λ (c : Column). cell c.0 fs) cs) (cells_of cs fs)
row-IsRow cs null = as_it_is null (λ fs. cc)
row-IsRow cs (boolean b) = as_it_is (boolean b) (λ fs. cc)
row-IsRow cs (number n) = as_it_is (number n) (λ fs. cc)
row-IsRow cs (other_number t) = as_it_is (other_number t) (λ fs. cc)
row-IsRow cs (str t) = as_it_is (str t) (λ fs. cc)
row-IsRow cs (arr vs) = as_it_is (arr vs) (λ fs. cc)

shown_columns :
    (cs : List Column)
    → Each (λ n c. get "name" c ≡ some (str n)) (map (λ (c : Column). c.0) cs) (map column_json cs)
unfolding get get_field
shown_columns [] = tt
shown_columns (c ∷ cs) = (refl, shown_columns cs)

length-zero : (xs : List Json) → length xs ≡ 0 → xs ≡ []
length-zero [] h = refl
length-zero (x ∷ xs) h = absurd (omega (arith, h))

length-take-le : (n : ℕ) (xs : List Json) → length (take n xs) ≤ n
length-take-le zero xs = omega arith
length-take-le (suc n) [] = omega arith
length-take-le (suc n) (x ∷ xs) = omega (arith, length-take-le n xs)

take-rest :
    (n : ℕ) (xs rest : List Json)
    → xs ≡ take n xs ++ rest
    → length xs ≡ length (take n xs) + length rest
take-rest n xs rest same = ap length same ∙ length-append (take n xs) rest

-- A compact answer lists the columns of the upstream answer's schema, or, where that names none, of
-- its first row. Its rows are the first rows of the upstream answer, at most `max_rows` of them, in
-- their order, each with its value for every listed column, and it says how many they are. It says
-- that it is not truncated, and has every row of the upstream answer, or it says that it is, and
-- there are more.
pub compact-IsCut : (answer : Json) (max_rows : ℕ) → IsCut answer max_rows (compact answer max_rows)
unfolding compact rows_of get_field results_of
compact-IsCut answer max_rows =
    let results = results_of answer in
    let (rest, same) = take-splits max_rows results in
    let total = take-rest max_rows results rest same in
    let counts = length-map (row (columns_of answer)) (take max_rows results) in
    let long = ltb max_rows (length results) in
    let ending : ((rest ≡ []) × (long ≡ false)) ⊎ ((rest ≢ []) × (long ≡ true)) =
      elim (Bool-cases long) [
        | inl more ↦
            let cut = length-take-cut max_rows results (ground arith) in
            inr (
              λ p.
                  let none_left : length rest ≡ 0 = ap length p in
                  omega (
                    arith,
                    total,
                    cut,
                    none_left,
                    leb→le (suc max_rows) (length results) (ground arith),
                  ),
              more,
            )
        | inr fits ↦
            let whole = length-take-all max_rows results (ground arith) in
            inl (length-zero rest (omega (arith, total, whole)), fits)
      ] in
    let short = length-take-le max_rows results in
    record {
      results = results;
      schema = array_at "schema" answer;
      given = array_at-IsMembers "results" answer;
      described = array_at-IsMembers "schema" answer;
      names = map (λ (c : Column). c.0) (columns_of answer);
      headed = columns_of-IsHead answer;
      columns = map column_json (columns_of answer);
      shown = refl;
      each_column = shown_columns (columns_of answer);
      rows = rows_of answer max_rows;
      listed = elim (Bool-cases long) [ inl more ↦ rw more refl | inr fits ↦ rw fits refl ];
      counted = elim (Bool-cases long) [ inl more ↦ rw more refl | inr fits ↦ rw fits refl ];
      within = omega (arith, counts, short);
      first = take max_rows results;
      rest = rest;
      kept = same;
      each_row =
          Each-map (IsRow (map (λ (c : Column). c.0) (columns_of answer))) (row (columns_of answer))
            (row-IsRow (columns_of answer)) (take max_rows results);
      all_or_cut = elim ending [
        | inl (whole, fits) ↦ inl (whole, rw fits refl)
        | inr (cut, more) ↦ inr (cut, rw more refl)
      ];
    }
