-- ===== src/Error.antt =====
-- The errors that a tool answers with (src/error.rs).
use microsoft_defender_mcp.Prelude.{map, String, List, [], ◌∷◌, ◌++◌}
use microsoft_defender_mcp.Json.{
  number, str, obj, end, field, CallToolResult, structured_error, ErrorData, invalid_params,
}
use microsoft_defender_mcp.Text.{Text, lit}

-- `slice::join`
unfoldable pub join : Text → List Text → Text
join sep [] = []
join sep (x ∷ []) = x
join sep (x ∷ y ∷ xs) = x ++ (sep ++ join sep (y ∷ xs))

unfoldable pub tool_error : Text → CallToolResult
tool_error m = structured_error (obj (field "error" (str m) end))

abbrev coded : Text → String → CallToolResult
coded m c = structured_error (obj (field "code" (str (lit c)) (field "error" (str m) end)))

unfoldable pub read_only_violation : String → CallToolResult
read_only_violation name =
    coded
      (lit "Server is operating in read-only mode: mutating operation '"
        ++ (lit name ++ lit "' is disallowed"))
      "read_only_violation"

unfoldable pub category_disabled : String → CallToolResult
category_disabled flag =
    coded (lit "Category is disabled. Enable it with " ++ lit flag) "category_disabled"

unfoldable pub confirmation_unavailable : CallToolResult
confirmation_unavailable =
    coded
      (lit
        "The client cannot show confirmation prompts (it did not declare the elicitation capability with form mode). To run destructive tools without confirmation in trusted automation, start the server with --disable-human-confirmation.")
      "confirmation_unavailable"

unfoldable pub not_confirmed : CallToolResult
not_confirmed = coded (lit "Action not confirmed by user") "not_confirmed"

unfoldable pub audit_unavailable : CallToolResult
audit_unavailable =
    coded (lit "Audit log is not available; mutating action was rejected") "audit_unavailable"

unfoldable pub reauthentication_required : String → CallToolResult
reauthentication_required reason = structured_error (
    obj (
      field "code" (str (lit "reauthentication_required")) (
        field "error"
          (str (
            lit "Re-authentication required ("
            ++ (lit reason ++ lit "). Restart the server to sign in again.")))
          (field "reason" (str (lit reason)) end))))

unfoldable pub consent_missing : String → List Text → CallToolResult
unfolding join
consent_missing audience scopes =
    let explanation =
      lit "The signed-in user has not consented to "
      ++ (lit audience
          ++ (lit " scopes ("
              ++ (join (lit " ") scopes
                  ++ lit "); an administrator must grant consent, then restart the server."))) in
    structured_error (
      obj (
        field "audience" (str (lit audience))
          (field "code" (str (lit "consent_missing")) (field "error" (str explanation) end))))

unfoldable pub unknown_action_error : String → String → List String → ErrorData
unfolding join
unknown_action_error tool action valid_actions = invalid_params (
    lit "Unknown action '"
    ++ (lit action
        ++ (lit "' for tool '"
            ++ (lit tool
                ++ (lit "'. Valid actions are: " ++ join (lit ", ") (map lit valid_actions))))))

unfoldable pub scope_not_requested : (action scope : String) → CallToolResult
scope_not_requested action scope =
    coded
      (lit action
        ++ (lit " needs "
            ++ (lit scope ++ lit ", which is write-named and is not requested under --read-only")))
      "scope_not_requested"

unfoldable pub package_not_ready : (status : Text) → CallToolResult
package_not_ready status = structured_error (
    obj (
      field "error"
        (str (
          lit "Investigation package is not ready yet (current status: "
          ++ (status ++ lit "). Please retry when status is Succeeded.")))
        (field "httpStatus" (number 404) (field "status" (str status) end))))
