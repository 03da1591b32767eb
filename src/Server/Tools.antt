-- ===== src/Server/Tools.antt =====
-- What the mutating tools of src/server.rs share: the API client that they call, the required
-- parameters, and the results that they wrap.
use microsoft_defender_mcp.Prelude.{
  ◌>>=◌, ◌∷◌, refl, Bool, List, ◌≡◌, String, Option, none, some, [], ◌++◌, Result, ok, err, ok_or,
  unwrap_or,
}
use microsoft_defender_mcp.Auth.Identity.{PermissionCategory}
use microsoft_defender_mcp.Error.{tool_error}
use microsoft_defender_mcp.Json.{
  cons, nil, Items, Fields, Json, str, obj, end, field, get, as_str, CallToolResult, ErrorData,
  invalid_params, message,
}
use microsoft_defender_mcp.Server.Attempt.{MutationResponse}
use microsoft_defender_mcp.Text.{Text, lit}
use microsoft_defender_mcp.Validation.Encoding.{PercentEncoding}
use microsoft_defender_mcp.Validation.Hashes.{Regex}
use microsoft_defender_mcp.Validation.Indicators.{Chrono, Url}

-- The endpoint client's answers to the requests of the mutating tools (src/client.rs).
pub record Endpoint : Type 0 where
  pub post_as :
      (path : Text) (body : Json) → PermissionCategory → Result MutationResponse CallToolResult
  pub delete_as : (path : Text) → PermissionCategory → Result MutationResponse CallToolResult
  pub patch_as :
      (path : Text) (body : Json) → PermissionCategory → Result MutationResponse CallToolResult
  pub multipart_upload :
      (path file_name content description : Text) (parameters_description : Option Text)
      (override_if_exists : Option Bool)
      → Result MutationResponse CallToolResult

-- The Graph client's answers (src/client.rs).
pub record Graph : Type 0 where
  pub graph_patch_as :
      (path : Text) (body : Json) → PermissionCategory → Result MutationResponse CallToolResult
  pub graph_post_as : (path : Text) (body : Json) → PermissionCategory → Result Json CallToolResult

pub record Libraries : Type 0 where
  pub regex : Regex
  pub percent : PercentEncoding
  pub parse_url : Text → Result Url Text
  pub chrono : Chrono

-- `required`
unfoldable pub required : Option Text → (name action : String) → Result Text ErrorData
required value name action =
    ok_or
      (invalid_params
        (lit "action '" ++ (lit action ++ (lit "' requires '" ++ (lit name ++ lit "'")))))
      value

-- `.map(str::to_string).unwrap_or_default()`
abbrev pub text_or_empty : Result Text ErrorData → Text
text_or_empty (ok t) = t
text_or_empty (err e) = []

-- `.map(|_| ()).map_err(|e| tool_error(e.message))`
abbrev pub as_tool_error : {A : Type 0} → Result A ErrorData → Result (Unit {0}) CallToolResult
as_tool_error (ok _) = ok tt
as_tool_error (err e) = err (tool_error (message e))

pub as_tool_error-ok :
    {A : Type 0} (r : Result A ErrorData) → as_tool_error r ≡ ok tt → (a : A) × (r ≡ ok a)
as_tool_error-ok (ok a) h = (a, refl)
as_tool_error-ok (err e) h = cc

-- The first error of two checks.
abbrev pub both :
    {A B : Type 0} → Result A ErrorData → Result B ErrorData → Result (Unit {0}) CallToolResult
both (ok _) (ok _) = ok tt
both (err e) _ = err (tool_error (message e))
both (ok _) (err e) = err (tool_error (message e))

-- `resp.get(key).and_then(Value::as_str)`
abbrev pub get_str : String → Json → Option Text
get_str key v = elim (get key v) [ none ↦ none | some w ↦ as_str w ]

poll_with : (action id_name : String) → Text → Json
poll_with action id_name id = obj (
    field "action" (str (lit action))
      (field id_name (str id) (field "tool" (str (lit "defender_forensics")) end)))

unfoldable pub wrap_machine_action : MutationResponse → (warning : Option String) → MutationResponse
unfolding poll_with
wrap_machine_action resp warning =
    let id = unwrap_or [] (get_str "id" resp.body) in
    let tail : Fields = elim warning [ none ↦ end | some w ↦ field "warning" (str (lit w)) end ] in
    record {
      http_status = resp.http_status;
      body = obj (
          field "machineAction" resp.body
            (field "poll_with" (poll_with "machine_action_get_status" "action_id" id) tail));
    }

unfoldable pub wrap_investigation : MutationResponse → MutationResponse
unfolding poll_with
wrap_investigation resp =
    let id = unwrap_or [] (get_str "id" resp.body) in
    record {
      http_status = resp.http_status;
      body = obj (
          field "investigation" resp.body
            (field "poll_with" (poll_with "investigation_get" "investigation_id" id) end));
    }

-- `.map(…).transpose()` of a check of an optional field.
abbrev pub check_given :
    {A B : Type 0} → (A → Result B ErrorData) → Option A → Result (Unit {0}) ErrorData
check_given check none = ok tt
check_given check (some a) = check a >>= λ _. ok tt

-- `if let Some(a) = … { map.insert(key, …) }`
abbrev pub optional_field : {A : Type 0} → String → (A → Json) → Option A → Fields → Fields
optional_field key make none rest = rest
optional_field key make (some a) rest = field key (make a) rest

abbrev pub texts : List Text → Items
texts [] = nil
texts (t ∷ ts) = cons (str t) (texts ts)
