-- ===== src/Inputs/Args.antt =====
-- The arguments of one action of a tool, as a map from names to values in the order of the names, and
-- how serde reads a struct from them (src/server.rs: `action_args`, `rename_arg`, `call_action`).
use microsoft_defender_mcp.Prelude.{
  String, Bool, true, false, ◌&&◌, ◌||◌, Option, none, some, List, [], ◌∷◌, str_eq, ltb, ◌==◌,
  if◌then◌else◌, Result, ok, err, ok_or, ◌>>=◌,
}
use microsoft_defender_mcp.Server.Device.{contains_str}
use microsoft_defender_mcp.Text.{Text, lit}
use microsoft_defender_mcp.Text.Decimal.{ℤ}

pub data Arg : Type 0 where
  text : Text → Arg
  int : ℤ → Arg
  flag : Bool → Arg

abbrev pub Args : Type 0
Args = List (String × Arg)

-- The order of the keys of a map: that of their bytes.
unfoldable pub before : Text → Text → Bool
before [] [] = false
before [] (d ∷ t) = true
before (c ∷ s) [] = false
before (c ∷ s) (d ∷ t) = ltb c d || (c == d && before s t)

-- `Map::insert`, `Map::remove` and `Map::contains_key`
unfoldable pub insert_arg : String → Arg → Args → Args
unfolding before
insert_arg key v [] = (key, v) ∷ []
insert_arg key v ((k, w) ∷ args) =
    let rest = insert_arg key v args in
    if str_eq key k
    then (key, v) ∷ args
    else if before (lit key) (lit k)
    then (key, v) ∷ (k, w) ∷ args
    else (k, w) ∷ rest

abbrev pub remove_arg : String → Args → Args
remove_arg key [] = []
remove_arg key ((k, w) ∷ args) = if str_eq key k then args else (k, w) ∷ remove_arg key args

abbrev pub find_arg : String → Args → Option Arg
find_arg key [] = none
find_arg key ((k, w) ∷ args) = if str_eq key k then some w else find_arg key args

-- `action_args`: the fields that are given, without `action`.
unfoldable pub action_args : List (String × Option Arg) → Args
unfolding insert_arg
action_args [] = []
action_args ((key, given) ∷ fields) = elim given [
  | none ↦ action_args fields
  | some v ↦ insert_arg key v (action_args fields)
]

unfoldable pub rename_arg : (from to : String) → Args → Args
unfolding insert_arg
rename_arg from to args = elim (find_arg to args) [
  | some _ ↦ args
  | none ↦ elim (find_arg from args) [
    | none ↦ args
    | some v ↦ insert_arg to v (remove_arg from args)
  ]
]

-- Why serde does not read the arguments of an action: in the order of the keys, a field that its
-- input does not have or a second value of a field, or else a required field that is not there.
pub data Misfit : Type 0 where
  unknown_field duplicate_field missing_field : String → Misfit

abbrev find_name : String → List (String × String) → Option String
find_name key [] = none
find_name key ((k, f) ∷ names) = if str_eq key k then some f else find_name key names

-- The values by field, where `names` says which keys stand for which fields.
unfoldable pub read_keys :
    (names : List (String × String)) (seen : List String) → Args → Result Args Misfit
read_keys names seen [] = ok []
read_keys names seen ((k, v) ∷ args) = elim (find_name k names) [
  | none ↦ err (unknown_field k)
  | some f ↦
      if contains_str seen f
      then err (duplicate_field f)
      else (read_keys names (f ∷ seen) args >>= λ fields. ok ((f, v) ∷ fields))
]

abbrev pub text_of : String → Args → Option Text
text_of f args = elim (find_arg f args) [ some (text t) ↦ some t | _ ↦ none ]

abbrev pub int_of : String → Args → Option ℤ
int_of f args = elim (find_arg f args) [ some (int n) ↦ some n | _ ↦ none ]

abbrev pub flag_of : String → Args → Option Bool
flag_of f args = elim (find_arg f args) [ some (flag b) ↦ some b | _ ↦ none ]

abbrev pub need_text : String → Args → Result Text Misfit
need_text f args = ok_or (missing_field f) (text_of f args)
