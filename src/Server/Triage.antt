-- ===== src/Server/Triage.antt =====
-- `triage_action` and `defender_triage` of src/server.rs: updates of alerts and incidents.
pub mod Rules
pub mod Bodies
pub mod Sends
use microsoft_defender_mcp.Prelude.{
  ℕ, zero, suc, ◌+◌, ◌-◌, ◌*◌, ◌/◌, ◌%◌, ◌≤◌, ◌<◌, String, ◌≡◌, refl, sym, ap, ◌∙◌, ◌≢◌, ◌↔◌, ◌⊎◌,
  inl, inr, Bool, true, false, ◌&&◌, ◌||◌, not, Option, none, some, List, [], ◌∷◌, ◌++◌, map,
  append-nil, append_assoc, arith, str_eq, eq_iff, ltb, leb, ◌==◌, if◌then◌else◌, ==_iff, leb→le,
  Bool-cases, Option-cases, Result, ok, err, refuse, map_err, is_ok, ok_or, unwrap_or, length, take,
  any, all, is_empty, All, Any, length-append, All-append, any-eq-false_iff, all-eq-true_iff,
  All-map, ◌>>=◌, ◌>>◌,
}
use microsoft_defender_mcp.Audit.{AuditTarget, target, alert_id, incident_id}
use microsoft_defender_mcp.Auth.Identity.{PermissionCategory}
use microsoft_defender_mcp.Cli.Categories.{MutatingTool}
use microsoft_defender_mcp.Constants.{max_alert_batch}
use microsoft_defender_mcp.Error.{tool_error, unknown_action_error}
use microsoft_defender_mcp.Inputs.Triage.{
  TriageInput, TriageTarget, mde_alert_patch, mde_alert_batch, xdr_alert, xdr_incident, status_str,
  status_wire, classification_str, classification_wire, determination_str, determination_wire,
}
use microsoft_defender_mcp.Json.{
  Json, str, number, arr, obj, end, field, Fields, CallToolResult, ErrorData, invalid_params,
  internal_error,
}
use microsoft_defender_mcp.Server.Attempt.{
  Event, Outside, DefenderServer, MutationResponse, MutationRequest,
}
use microsoft_defender_mcp.Server.Device.{contains_str, first_given, is_some}
use microsoft_defender_mcp.Server.Dispatch.{refusing_request, not_used, run_request, audited}
use microsoft_defender_mcp.Server.Prepare.{targets_of}
use microsoft_defender_mcp.Server.Tools.{
  Endpoint, Graph, Libraries, required, text_or_empty, as_tool_error, check_given, optional_field,
  texts,
}
use microsoft_defender_mcp.Text.{Text, lit}
use microsoft_defender_mcp.Validation.Encoding.{encode_path_segment}
use microsoft_defender_mcp.Validation.Indicators.{validate_classification_pair}
use microsoft_defender_mcp.Validation.Names.{validate_text, validate_required_id, validate_batch}

abbrev pub triage_actions : List String
triage_actions =
    "endpoint_alert_update" ∷ "endpoint_alert_batch_update" ∷ "endpoint_alert_comment"
    ∷ "xdr_alert_update" ∷ "xdr_alert_comment" ∷ "xdr_incident_update" ∷ "xdr_incident_comment" ∷ []

unfoldable pub unused_triage_field : TriageInput → Option String
unused_triage_field input =
    let id : Bool × String = (is_some input.id, "id") in
    let ids : Bool × String = (is_some input.ids, "ids") in
    let tags : Bool × String = (is_some input.tags, "tags") in
    let comment : Bool × String = (is_some input.comment, "comment") in
    let changes : List (Bool × String) =
      ids
      ∷ (is_some input.status, "status")
      ∷ (is_some input.assigned_to, "assigned_to")
      ∷ (is_some input.classification, "classification")
      ∷ (is_some input.determination, "determination")
      ∷ tags
      ∷ [] in
    if str_eq input.action "endpoint_alert_batch_update"
    then first_given (id ∷ tags ∷ [])
    else if str_eq input.action "endpoint_alert_update"
    then first_given (ids ∷ tags ∷ [])
    else if str_eq input.action "endpoint_alert_comment"
    then first_given changes
    else if str_eq input.action "xdr_alert_update"
    then first_given (ids ∷ tags ∷ comment ∷ [])
    else if str_eq input.action "xdr_alert_comment"
    then first_given changes
    else if str_eq input.action "xdr_incident_update"
    then first_given (ids ∷ comment ∷ [])
    else if str_eq input.action "xdr_incident_comment"
    then first_given changes
    else none

-- An update must change something.
unfoldable pub has_change : TriageInput → Bool
has_change input =
    let common =
      is_some input.status || is_some input.assigned_to || is_some input.classification in
    if str_eq input.action "endpoint_alert_update"
      || str_eq input.action "endpoint_alert_batch_update"
    then common || is_some input.comment
    else if str_eq input.action "xdr_alert_update"
    then common
    else if str_eq input.action "xdr_incident_update"
    then common || is_some input.tags
    else true

abbrev pub is_comment_action : String → Bool
is_comment_action action =
    str_eq action "endpoint_alert_comment"
    || str_eq action "xdr_alert_comment"
    || str_eq action "xdr_incident_comment"

-- The outer error is that of the required field, which ends the call at once.
unfoldable pub comment_check : TriageInput → Result (Result (Unit {0}) ErrorData) ErrorData
unfolding required
comment_check input =
    if is_comment_action input.action
    then (required input.comment "comment" input.action >>= λ c.
        ok (check_given (λ c. validate_text c 1000 "comment") (some c)))
    else if str_eq input.action "endpoint_alert_update"
        || str_eq input.action "endpoint_alert_batch_update"
    then ok (check_given (λ c. validate_text c 1000 "comment") input.comment)
    else ok (ok tt)

unfoldable pub validate_tags : List Text → Result (Unit {0}) ErrorData
validate_tags [] = ok tt
validate_tags (t ∷ tags) = validate_text t 128 "tags" >>= λ _. validate_tags tags

-- The last case is not reached: the action is one of the valid ones.
unfoldable pub triage_target : String → TriageTarget
triage_target action =
    if str_eq action "endpoint_alert_batch_update"
    then mde_alert_batch
    else if str_eq action "endpoint_alert_update" || str_eq action "endpoint_alert_comment"
    then mde_alert_patch
    else if str_eq action "xdr_alert_update" || str_eq action "xdr_alert_comment"
    then xdr_alert
    else xdr_incident

-- The first error of the five checks.
unfoldable pub triage_check :
    TriageInput → Result (Unit {0}) ErrorData → Result (Unit {0}) CallToolResult
unfolding validate_tags triage_target
triage_check input comment_res = do
  as_tool_error (validate_classification_pair input.classification input.determination)
  as_tool_error (check_given (λ a. validate_text a 256 "assigned_to") input.assigned_to)
  as_tool_error comment_res
  as_tool_error (check_given validate_tags input.tags)
  as_tool_error (check_given (λ s. status_wire s (triage_target input.action)) input.status)

unfoldable pub triage_parameters : TriageInput → Fields
triage_parameters input = optional_field "assigned_to" str input.assigned_to (
    optional_field "classification" (λ c. str (lit (classification_str c))) input.classification
      (optional_field "determination" (λ d. str (lit (determination_str d))) input.determination
        (optional_field "status" (λ s. str (lit (status_str s))) input.status end)))

-- `if let Ok(Some(s)) = status_wire`
abbrev pub wire_status : TriageInput → Option String
unfolding triage_target
wire_status input = elim input.status [
  | none ↦ none
  | some s ↦ elim (status_wire s (triage_target input.action)) [ ok w ↦ some w | err e ↦ none ]
]

-- The fields that a batch and a single update share, in front of `rest` and before the status.
abbrev pub changed_fields : TriageInput → (tags : Fields → Fields) → Fields
unfolding triage_target
changed_fields input tags =
    let t = triage_target input.action in
    optional_field "assignedTo" str input.assigned_to (
      optional_field "classification" (λ c. str (lit (classification_wire t c)))
        input.classification
        (optional_field "comment" str input.comment (
          tags (
            optional_field "determination" (λ d. str (lit (determination_wire t d)))
              input.determination
              (optional_field "status" (λ s. str (lit s)) (wire_status input) end)))))

unfoldable pub batch_body : TriageInput → List Text → Json
batch_body input ids = obj (field "alertIds" (arr (texts ids)) (changed_fields input λ rest. rest))

unfoldable pub update_body : TriageInput → Json
update_body input =
    let fields =
      changed_fields input
        λ rest. optional_field "customTags" (λ ts. arr (texts ts)) input.tags rest in
    if str_eq input.action "xdr_alert_comment" || str_eq input.action "xdr_incident_comment"
    then obj (field "@odata.type" (str (lit "microsoft.graph.security.alertComment")) fields)
    else obj fields

abbrev pub and_then :
    Result (Unit {0}) CallToolResult
    → Result (Unit {0}) CallToolResult
    → Result (Unit {0}) CallToolResult
and_then first second = first >>= λ _. second

module _ (libraries : Libraries) (endpoint : Endpoint) (graph : Graph) (input : TriageInput) where
  abbrev refuse_with : Text → MutationRequest
  refuse_with reason =
      refusing_request MutatingTool.triage input.action PermissionCategory.triage
        input.justification (tool_error reason)

  unfoldable pub batch_request : Result (Unit {0}) ErrorData → List Text → MutationRequest
  unfolding triage_check batch_body triage_parameters
  batch_request comment_res ids = record {
    tool = MutatingTool.triage;
    action = input.action;
    category = PermissionCategory.triage;
    targets = map (target alert_id) ids;
    parameters = triage_parameters input;
    justification = input.justification;
    validation_result =
        and_then (triage_check input comment_res)
          (as_tool_error (validate_batch ids max_alert_batch "ids"));
    extract_tracking = λ _. (none, none);
    upstream =
        endpoint.post_as (lit "/api/alerts/batchUpdate") (batch_body input ids)
          PermissionCategory.triage
        >>= λ _. ok (record {
          http_status = 200;
          body = obj (field "count" (number (length ids)) (field "status" (str (lit "ok")) end));
        });
  }

  -- `action.starts_with("xdr_incident")`, for the valid actions.
  abbrev is_incident : Bool
  is_incident =
      str_eq input.action "xdr_incident_update" || str_eq input.action "xdr_incident_comment"

  abbrev target_kind : Text → AuditTarget
  target_kind = if is_incident then target incident_id else target alert_id

  abbrev commented : Result Json CallToolResult → Result MutationResponse CallToolResult
  commented r = r >>= λ v. ok (record { http_status = 201; body = v })

  -- The last case is not reached: the action is one of the valid ones.
  unfoldable pub send_update : (id_str : Text) → Result MutationResponse CallToolResult
  unfolding update_body
  send_update id_str =
      let enc = encode_path_segment libraries.percent id_str in
      let body = update_body input in
      let category = PermissionCategory.triage in
      if str_eq input.action "endpoint_alert_update" || str_eq input.action "endpoint_alert_comment"
      then endpoint.patch_as (lit "/api/alerts/" ++ enc) body category
      else if str_eq input.action "xdr_alert_update"
      then graph.graph_patch_as (lit "/security/alerts_v2/" ++ enc) body category
      else if str_eq input.action "xdr_alert_comment"
      then commented (
          graph.graph_post_as (lit "/security/alerts_v2/" ++ (enc ++ lit "/comments")) body
            category)
      else if str_eq input.action "xdr_incident_update"
      then graph.graph_patch_as (lit "/security/incidents/" ++ enc) body category
      else if str_eq input.action "xdr_incident_comment"
      then commented (
          graph.graph_post_as (lit "/security/incidents/" ++ (enc ++ lit "/comments")) body
            category)
      else err (tool_error (lit "internal error: entered unreachable code"))

  unfoldable pub update_request : Result (Unit {0}) ErrorData → (id : Text) → MutationRequest
  unfolding triage_check send_update triage_parameters
  update_request comment_res id =
      let id_res = validate_required_id id "id" in
      let id_str = text_or_empty id_res in
      record {
        tool = MutatingTool.triage;
        action = input.action;
        category = PermissionCategory.triage;
        targets = targets_of target_kind id_str;
        parameters = triage_parameters input;
        justification = input.justification;
        validation_result = and_then (triage_check input comment_res) (as_tool_error id_res);
        extract_tracking = λ _. (some id_str, none);
        upstream = send_update id_str;
      }

  -- The request that the action makes of the input.
  unfoldable pub triage_request : Result MutationRequest ErrorData
  unfolding comment_check batch_request update_request required
  triage_request = do
    comment_res ← comment_check input
    if str_eq input.action "endpoint_alert_batch_update"
        then (ok_or (invalid_params (lit "action 'endpoint_alert_batch_update' requires 'ids'"))
              input.ids
            >>= λ ids. ok (batch_request comment_res ids))
        else (required input.id "id" input.action >>= λ id. ok (update_request comment_res id))

  unfoldable pub triage_plan : Result MutationRequest ErrorData
  unfolding unused_triage_field has_change triage_request not_used
  triage_plan = elim (unused_triage_field input) [
    | some f ↦ ok (refuse_with (not_used f input.action))
    | none ↦
        if has_change input
        then triage_request
        else ok (refuse_with (lit "at least one update field must be specified"))
  ]

  module _ (world : Outside) (server : DefenderServer) where
    unfoldable pub triage_action : Result CallToolResult ErrorData × List Event
    unfolding triage_plan
    triage_action =
        if not (contains_str triage_actions input.action)
        then (err (unknown_action_error "defender_triage" input.action triage_actions), [])
        else run_request world server triage_plan

    unfoldable pub defender_triage : Result CallToolResult ErrorData × List Event
    unfolding triage_action audited
    defender_triage =
        if not (contains_str triage_actions input.action)
        then triage_action
        else audited world server MutatingTool.triage input.action PermissionCategory.triage
            input.justification triage_action
