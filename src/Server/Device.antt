-- ===== src/Server/Device.antt =====
-- `device_response_action` and `defender_device_response` of src/server.rs.
pub mod Rules
pub mod Sends
use microsoft_defender_mcp.Prelude.{
  ◌>>=◌, ◌>>◌, ℕ, zero, suc, ◌+◌, ◌-◌, ◌*◌, ◌/◌, ◌%◌, ◌≤◌, ◌<◌, String, ◌≡◌, refl, sym, ap, ◌∙◌,
  ◌≢◌, ◌↔◌, ◌⊎◌, inl, inr, Bool, true, false, ◌&&◌, ◌||◌, not, Option, none, some, List, [], ◌∷◌,
  ◌++◌, map, append-nil, append_assoc, arith, str_eq, eq_iff, ltb, leb, ◌==◌, if◌then◌else◌, ==_iff,
  leb→le, Bool-cases, Option-cases, Result, ok, err, refuse, map_err, is_ok, ok_or, unwrap_or,
  length, take, any, all, is_empty, All, Any, length-append, All-append, any-eq-false_iff,
  all-eq-true_iff, All-map,
}
use microsoft_defender_mcp.Audit.{AuditTarget, target, machine_id, machine_action_id}
use microsoft_defender_mcp.Auth.Identity.{PermissionCategory}
use microsoft_defender_mcp.Cli.Categories.{MutatingTool}
use microsoft_defender_mcp.Error.{tool_error, unknown_action_error}
use microsoft_defender_mcp.Inputs.Device.{
  DeviceResponseInput, IsolationType, isolation_type_str, scan_type_str, device_value_str,
}
use microsoft_defender_mcp.Json.{
  Json, str, obj, end, field, Fields, get, as_str, CallToolResult, ErrorData, invalid_params,
  internal_error, message,
}
use microsoft_defender_mcp.Server.Attempt.{
  Event, Outside, DefenderServer, MutationResponse, MutationRequest,
}
use microsoft_defender_mcp.Server.Mutation.{execute_mutation}
use microsoft_defender_mcp.Server.Prepare.{Prepared, prepare, comment_of}
use microsoft_defender_mcp.Server.Rejection.{audit_validation_error}
use microsoft_defender_mcp.Server.Tools.{
  Endpoint, Libraries, required, text_or_empty, as_tool_error, both, get_str, wrap_machine_action,
  wrap_investigation,
}
use microsoft_defender_mcp.Text.{Text, lit}
use microsoft_defender_mcp.Validation.Encoding.{encode_path_segment}
use microsoft_defender_mcp.Validation.Hashes.{validate_machine_id}
use microsoft_defender_mcp.Validation.Names.{validate_action_id, validate_tag}

-- `slice::contains`
abbrev pub contains_str : List String → String → Bool
contains_str names name = any (λ n. str_eq n name) names

abbrev pub device_response_actions_without_offboard : List String
device_response_actions_without_offboard =
    "isolate" ∷ "unisolate" ∷ "restrict_app_execution" ∷ "unrestrict_app_execution" ∷ "run_av_scan"
    ∷ "start_investigation" ∷ "cancel_machine_action" ∷ "tag_add" ∷ "tag_remove"
    ∷ "set_device_value" ∷ []

abbrev pub device_response_actions : List String
device_response_actions = device_response_actions_without_offboard ++ "offboard" ∷ []

abbrev pub is_some {ℓ} : {A : Type ℓ} → Option A → Bool
is_some none = false
is_some (some a) = true

-- The name of the first field that is given.
abbrev pub first_given : List (Bool × String) → Option String
first_given [] = none
first_given ((given, name) ∷ fields) = if given then some name else first_given fields

unfoldable pub unused_field : DeviceResponseInput → Option String
unused_field input =
    let action_id : Bool × String = (is_some input.action_id, "action_id") in
    let isolation_type : Bool × String = (is_some input.isolation_type, "isolation_type") in
    let scan_type : Bool × String = (is_some input.scan_type, "scan_type") in
    let tag : Bool × String = (is_some input.tag, "tag") in
    let device_value : Bool × String = (is_some input.device_value, "device_value") in
    if str_eq input.action "isolate"
    then first_given (action_id ∷ scan_type ∷ tag ∷ device_value ∷ [])
    else if str_eq input.action "unisolate"
        || str_eq input.action "restrict_app_execution"
        || str_eq input.action "unrestrict_app_execution"
        || str_eq input.action "start_investigation"
        || str_eq input.action "offboard"
    then first_given (action_id ∷ isolation_type ∷ scan_type ∷ tag ∷ device_value ∷ [])
    else if str_eq input.action "run_av_scan"
    then first_given (action_id ∷ isolation_type ∷ tag ∷ device_value ∷ [])
    else if str_eq input.action "cancel_machine_action"
    then first_given (
        (is_some input.machine_id, "machine_id")
        ∷ isolation_type
        ∷ scan_type
        ∷ tag
        ∷ device_value
        ∷ [])
    else if str_eq input.action "tag_add" || str_eq input.action "tag_remove"
    then first_given (action_id ∷ isolation_type ∷ scan_type ∷ device_value ∷ [])
    else if str_eq input.action "set_device_value"
    then first_given (action_id ∷ isolation_type ∷ scan_type ∷ tag ∷ [])
    else none

-- The first of the values that is there, as `or_else` does, read as a text.
abbrev first_str : List (Option Json) → Option Text
first_str [] = none
first_str (none ∷ vs) = first_str vs
first_str (some v ∷ vs) = as_str v

abbrev nested : String → String → Json → Option Json
nested outer inner v = elim (get outer v) [ none ↦ none | some w ↦ get inner w ]

unfoldable pub device_tracking : MutationResponse → Option Text × Option Text
device_tracking resp =
    let body = resp.body in
    (
      first_str (
          get "id" body ∷ nested "machineAction" "id" body ∷ nested "investigation" "id" body ∷ []),
      first_str (
          get "status" body
          ∷ nested "machineAction" "status" body
          ∷ nested "investigation" "state" body
          ∷ []),
    )

unfoldable pub wrap_device_response : String → MutationResponse → MutationResponse
unfolding wrap_machine_action wrap_investigation
wrap_device_response action resp =
    if str_eq action "isolate"
      || str_eq action "unisolate"
      || str_eq action "restrict_app_execution"
      || str_eq action "unrestrict_app_execution"
      || str_eq action "run_av_scan"
      || str_eq action "cancel_machine_action"
    then wrap_machine_action resp none
    else if str_eq action "start_investigation"
    then wrap_investigation resp
    else if str_eq action "offboard"
    then wrap_machine_action resp (
        some
          "Offboarding cannot be undone remotely; the device stops reporting until re-onboarded. On Windows the API stops the sensor service but does not remove onboarding registry data.")
    else resp

unfoldable pub device_category : String → PermissionCategory
device_category action =
    if str_eq action "offboard"
    then PermissionCategory.offboarding
    else PermissionCategory.device_response

module _ (world : Outside) (server : DefenderServer) (libraries : Libraries) (endpoint : Endpoint)
    (input : DeviceResponseInput) where
  abbrev pub valid_actions : List String
  valid_actions =
      if server.categories.offboarding
      then device_response_actions
      else device_response_actions_without_offboard

  unfoldable pub unknown_device_action : ErrorData
  unfolding unknown_action_error
  unknown_device_action =
      let e = unknown_action_error "defender_device_response" input.action valid_actions in
      if str_eq input.action "offboard" && not server.categories.offboarding
      then invalid_params (message e ++ lit ". offboard requires --enable-offboarding")
      else e

  -- The request that refuses an unused field.
  unfoldable pub unused_field_request : String → MutationRequest
  unfolding device_category
  unused_field_request f =
      let refusal = tool_error (
        lit "field '"
        ++ (lit f ++ (lit "' is not used by action '" ++ (lit input.action ++ lit "'")))) in
      record {
        tool = MutatingTool.device_response;
        action = input.action;
        category = device_category input.action;
        targets = [];
        parameters = end;
        justification = input.comment;
        validation_result = err refusal;
        extract_tracking = λ _. (none, none);
        upstream = err refusal;
      }

  unfoldable pub device_request : Prepared → MutationRequest
  unfolding device_category device_tracking wrap_device_response
  device_request p = record {
    tool = MutatingTool.device_response;
    action = input.action;
    category = device_category input.action;
    targets = p.targets;
    parameters = p.parameters;
    justification = some (comment_of input);
    validation_result = p.validation;
    extract_tracking = device_tracking;
    upstream = endpoint.post_as p.path p.body (device_category input.action) >>= λ resp.
        ok (wrap_device_response input.action resp);
  }

  abbrev run : MutationRequest → Result CallToolResult ErrorData × List Event
  run req = let (r, es) = execute_mutation world server req in (ok r, es)

  abbrev run_prepared : Result Prepared ErrorData → Result CallToolResult ErrorData × List Event
  run_prepared (err e) = (err e, [])
  run_prepared (ok p) = run (device_request p)

  unfoldable pub device_response_action : Result CallToolResult ErrorData × List Event
  unfolding prepare unused_field unused_field_request device_request unknown_device_action
  device_response_action =
      if not (contains_str valid_actions input.action)
      then (err unknown_device_action, [])
      else elim (unused_field input) [
        | some f ↦ run (unused_field_request f)
        | none ↦ run_prepared (prepare libraries input)
      ]

  -- `defender_device_response`: protocol errors of known actions are audited.
  unfoldable pub defender_device_response : Result CallToolResult ErrorData × List Event
  unfolding device_response_action device_category audit_validation_error
  defender_device_response =
      if not (contains_str valid_actions input.action)
      then device_response_action
      else let (r, es) =
          audit_validation_error MutatingTool.device_response input.action
            (device_category input.action) input.comment world server device_response_action in
        (ok r, es)
