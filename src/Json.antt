-- ===== src/Json.antt =====
-- JSON values (serde_json's `Value`), and MCP results and errors (rmcp's `CallToolResult` and
-- `ErrorData`), as the data that the server builds and reads. The fields of an object that the server
-- builds are written in the order of their keys, as serde_json keeps them.
use microsoft_defender_mcp.Prelude.{
  List, [], ◌∷◌, Bool, ℕ, String, Option, none, some, str_eq, if◌then◌else◌,
}
use microsoft_defender_mcp.Text.{Text}

mutual
  pub data Json : Type 0 where
    null : Json
    boolean : Bool → Json
    number : ℕ → Json
    -- A negative or fractional number, by its text.
    other_number : Text → Json
    str : Text → Json
    arr : Items → Json
    obj : Fields → Json

  pub data Items : Type 0 where
    nil : Items
    cons : Json → Items → Items

  pub data Fields : Type 0 where
    end : Fields
    field : String → Json → Fields → Fields

-- The members of an array, and the array of some members.
abbrev pub elements : Items → List Json
elements nil = []
elements (cons v vs) = v ∷ elements vs

abbrev pub array : List Json → Items
array [] = nil
array (v ∷ vs) = cons v (array vs)

-- `Map::get`
unfoldable pub get_field : String → Fields → Option Json
get_field k end = none
get_field k (field j v fs) = if str_eq j k then some v else get_field k fs

-- `Value::get`, `Value::as_str`, `Value::as_u64` and `Value::as_bool`
unfoldable pub get : String → Json → Option Json
unfolding get_field
get k (obj fs) = get_field k fs
get k _ = none

abbrev pub as_str : Json → Option Text
as_str (str s) = some s
as_str _ = none

abbrev pub as_u64 : Json → Option ℕ
as_u64 (number n) = some n
as_u64 _ = none

abbrev pub as_bool : Json → Option Bool
as_bool (boolean b) = some b
as_bool _ = none

pub data CallToolResult : Type 0 where
  structured : Json → CallToolResult
  structured_error : Json → CallToolResult

abbrev pub structured_content : CallToolResult → Json
structured_content (structured v) = v
structured_content (structured_error v) = v

pub data ErrorData : Type 0 where
  internal_error : Text → ErrorData
  invalid_params : Text → ErrorData

abbrev pub message : ErrorData → Text
message (internal_error m) = m
message (invalid_params m) = m
