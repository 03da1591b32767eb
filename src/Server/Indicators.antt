-- ===== src/Server/Indicators.antt =====
-- `indicators_action` and `defender_indicators` of src/server.rs.
pub mod Sends
use microsoft_defender_mcp.Prelude.{
  ℕ, zero, suc, ◌+◌, ◌-◌, ◌*◌, ◌/◌, ◌%◌, ◌≤◌, ◌<◌, String, ◌≡◌, refl, sym, ap, ◌∙◌, ◌≢◌, ◌↔◌, ◌⊎◌,
  inl, inr, Bool, true, false, ◌&&◌, ◌||◌, not, Option, none, some, List, [], ◌∷◌, ◌++◌, map,
  append-nil, append_assoc, arith, str_eq, eq_iff, ltb, leb, ◌==◌, if◌then◌else◌, ==_iff, leb→le,
  Bool-cases, Option-cases, Result, ok, err, refuse, map_err, is_ok, ok_or, unwrap_or, length, take,
  any, all, is_empty, All, Any, length-append, All-append, any-eq-false_iff, all-eq-true_iff,
  All-map, ◌>>=◌, ◌>>◌,
}
use microsoft_defender_mcp.Audit.{target, indicator_id, indicator_value}
use microsoft_defender_mcp.Auth.Identity.{PermissionCategory}
use microsoft_defender_mcp.Cli.Categories.{MutatingTool}
use microsoft_defender_mcp.Constants.{max_indicator_batch}
use microsoft_defender_mcp.Error.{tool_error, unknown_action_error}
use microsoft_defender_mcp.Inputs.Indicator.{
  IndicatorsInput, IndicatorType, IndicatorAction, indicator_type_str, indicator_action_str,
  severity_str,
}
use microsoft_defender_mcp.Json.{
  Json, Items, nil, cons, str, number, boolean, arr, obj, end, field, Fields, CallToolResult,
  ErrorData, invalid_params, internal_error,
}
use microsoft_defender_mcp.Server.Attempt.{
  Event, Outside, DefenderServer, MutationResponse, MutationRequest,
}
use microsoft_defender_mcp.Server.Device.{contains_str, first_given, is_some}
use microsoft_defender_mcp.Server.Mutation.{execute_mutation}
use microsoft_defender_mcp.Server.Prepare.{targets_of}
use microsoft_defender_mcp.Server.Rejection.{audit_validation_error}
use microsoft_defender_mcp.Server.Tools.{
  check_given, optional_field, texts, Endpoint, Libraries, required, text_or_empty, as_tool_error,
  get_str,
}
use microsoft_defender_mcp.Text.{Text, lit}
use microsoft_defender_mcp.Validation.Encoding.{encode_path_segment}
use microsoft_defender_mcp.Validation.Indicators.{
  validate_indicator_value, validate_indicator_action, validate_future_rfc3339,
}
use microsoft_defender_mcp.Validation.Names.{
  validate_text, validate_description, validate_required_id, validate_batch,
}

abbrev pub indicators_actions : List String
indicators_actions = "submit" ∷ "delete" ∷ "batch_delete" ∷ []

unfoldable pub unused_indicator_field : IndicatorsInput → Option String
unused_indicator_field input =
    let indicator_id : Bool × String = (is_some input.indicator_id, "indicator_id") in
    let indicator_ids : Bool × String = (is_some input.indicator_ids, "indicator_ids") in
    let submitted : List (Bool × String) =
      (is_some input.indicator_value, "indicator_value")
      ∷ (is_some input.indicator_type, "indicator_type")
      ∷ (is_some input.indicator_action, "indicator_action")
      ∷ (is_some input.title, "title")
      ∷ (is_some input.description, "description")
      ∷ (is_some input.severity, "severity")
      ∷ (is_some input.expiration_time, "expiration_time")
      ∷ (is_some input.rbac_group_names, "rbac_group_names")
      ∷ (is_some input.recommended_actions, "recommended_actions")
      ∷ (is_some input.generate_alert, "generate_alert")
      ∷ [] in
    if str_eq input.action "submit"
    then first_given (indicator_id ∷ indicator_ids ∷ [])
    else if str_eq input.action "delete"
    then first_given (submitted ++ indicator_ids ∷ [])
    else if str_eq input.action "batch_delete"
    then first_given (indicator_id ∷ submitted)
    else none

unfoldable pub validate_groups : List Text → Result (Unit {0}) ErrorData
validate_groups [] = ok tt
validate_groups (g ∷ groups) =
    validate_text g 128 "rbac_group_names" >>= λ _. validate_groups groups

-- What a submission is made of, once the fields that it requires are there.
pub record Submission : Type 0 where
  pub title : Text
  pub description : Text
  pub value : Text
  pub type : IndicatorType
  pub action : IndicatorAction

-- `generateAlert` is sent as true with an audit, and as given with another action.
unfoldable pub sent_alert : IndicatorAction → Option Bool → Option Bool
sent_alert IndicatorAction.audit given = some true
sent_alert _ given = given

module _ (libraries : Libraries) (input : IndicatorsInput) where
  unfoldable pub read_submission : Result Submission ErrorData
  unfolding required
  read_submission = do
    title ← required input.title "title" input.action
    desc ← required input.description "description" input.action
    val ← required input.indicator_value "indicator_value" input.action
    itype ←
        ok_or (invalid_params (lit "action 'submit' requires 'indicator_type'"))
          input.indicator_type
    iact ←
        ok_or (invalid_params (lit "action 'submit' requires 'indicator_action'"))
          input.indicator_action
    ok (record { title = title; description = desc; value = val; type = itype; action = iact })

  -- The first error of the six checks.
  unfoldable pub submission_check : Submission → Result (Unit {0}) CallToolResult
  unfolding validate_groups
  submission_check s = do
    as_tool_error (validate_text s.title 256 "title")
    as_tool_error (validate_description s.description)
    as_tool_error (validate_indicator_value libraries.parse_url s.type s.value)
    as_tool_error (validate_indicator_action s.type s.action input.generate_alert)
    as_tool_error (
        check_given (λ exp. validate_future_rfc3339 libraries.chrono exp "expiration_time")
          input.expiration_time)
    as_tool_error (check_given validate_groups input.rbac_group_names)

  unfoldable pub submission_body : Submission → Json
  unfolding sent_alert
  submission_body s = obj (
      field "action" (str (lit (indicator_action_str s.action))) (
        field "description" (str s.description) (
          optional_field "expirationTime" str input.expiration_time (
            optional_field "generateAlert" boolean (sent_alert s.action input.generate_alert) (
              field "indicatorType" (str (lit (indicator_type_str s.type))) (
                field "indicatorValue" (str s.value) (
                  optional_field "rbacGroupNames" (λ gs. arr (texts gs)) input.rbac_group_names
                    (optional_field "recommendedActions" str input.recommended_actions (
                      optional_field "severity" (λ v. str (lit (severity_str v))) input.severity
                        (field "title" (str s.title) end))))))))))

  module _ (endpoint : Endpoint) where
    abbrev justified : Option Text
    justified = some (unwrap_or [] input.comment)

    unfoldable pub submit_request : Submission → MutationRequest
    unfolding submission_check submission_body
    submit_request s = record {
      tool = MutatingTool.indicators;
      action = "submit";
      category = PermissionCategory.indicators;
      targets =
          if is_ok (validate_indicator_value libraries.parse_url s.type s.value)
          then target indicator_value s.value ∷ []
          else [];
      parameters = field "indicator_action" (str (lit (indicator_action_str s.action))) (
          field "indicator_type" (str (lit (indicator_type_str s.type)))
            (optional_field "severity" (λ v. str (lit (severity_str v))) input.severity end));
      justification = justified;
      validation_result = submission_check s;
      extract_tracking = λ resp. (get_str "id" resp.body, none);
      upstream =
          endpoint.post_as (lit "/api/indicators") (submission_body s)
            PermissionCategory.indicators;
    }

    unfoldable pub delete_request : (id : Text) → MutationRequest
    delete_request id =
        let id_res = validate_required_id id "indicator_id" in
        let id_str = text_or_empty id_res in
        record {
          tool = MutatingTool.indicators;
          action = "delete";
          category = PermissionCategory.indicators;
          targets = targets_of (target indicator_id) id_str;
          parameters = end;
          justification = justified;
          validation_result = as_tool_error id_res;
          extract_tracking = λ _. (none, none);
          upstream =
              endpoint.delete_as
                (lit "/api/indicators/" ++ encode_path_segment libraries.percent id_str)
                PermissionCategory.indicators
              >>= λ _. ok (record {
                http_status = 204;
                body =
                    obj (
                      field "indicator_id" (str id_str) (field "status" (str (lit "deleted")) end));
              });
        }

    unfoldable pub batch_delete_request : (ids : List Text) → MutationRequest
    batch_delete_request ids = record {
      tool = MutatingTool.indicators;
      action = "batch_delete";
      category = PermissionCategory.indicators;
      targets = map (target indicator_id) ids;
      parameters = field "count" (number (length ids)) end;
      justification = justified;
      validation_result = as_tool_error (validate_batch ids max_indicator_batch "indicator_ids");
      extract_tracking = λ _. (none, none);
      upstream =
          endpoint.post_as (lit "/api/indicators/BatchDelete")
            (obj (field "IndicatorIds" (arr (texts ids)) end)) PermissionCategory.indicators
          >>= λ _. ok (record {
            http_status = 204;
            body =
                obj
                  (field "count" (number (length ids)) (field "status" (str (lit "deleted")) end));
          });
    }

    -- The last case is not reached: the action is one of the valid ones.
    unfoldable pub indicator_request : Result MutationRequest ErrorData
    unfolding read_submission submit_request delete_request batch_delete_request required
    indicator_request =
        if str_eq input.action "submit"
        then (read_submission >>= λ s. ok (submit_request s))
        else if str_eq input.action "delete"
        then (required input.indicator_id "indicator_id" input.action >>= λ id.
            ok (delete_request id))
        else if str_eq input.action "batch_delete"
        then (ok_or (invalid_params (lit "action 'batch_delete' requires 'indicator_ids'"))
              input.indicator_ids
            >>= λ ids. ok (batch_delete_request ids))
        else err (internal_error (lit "internal error: entered unreachable code"))

    -- The request that refuses an unused field.
    unfoldable pub unused_indicator_request : String → MutationRequest
    unused_indicator_request f =
        let refusal = tool_error (
          lit "field '"
          ++ (lit f ++ (lit "' is not used by action '" ++ (lit input.action ++ lit "'")))) in
        record {
          tool = MutatingTool.indicators;
          action = input.action;
          category = PermissionCategory.indicators;
          targets = [];
          parameters = end;
          justification = input.comment;
          validation_result = err refusal;
          extract_tracking = λ _. (none, none);
          upstream = err refusal;
        }

    module _ (world : Outside) (server : DefenderServer) where
      abbrev run_request :
          Result MutationRequest ErrorData → Result CallToolResult ErrorData × List Event
      run_request (err e) = (err e, [])
      run_request (ok req) = let (r, es) = execute_mutation world server req in (ok r, es)

      unfoldable pub indicators_action : Result CallToolResult ErrorData × List Event
      unfolding unused_indicator_field unused_indicator_request indicator_request
      indicators_action =
          if not (contains_str indicators_actions input.action)
          then (
            err (unknown_action_error "defender_indicators" input.action indicators_actions),
            [],
          )
          else elim (unused_indicator_field input) [
            | some f ↦ run_request (ok (unused_indicator_request f))
            | none ↦ run_request indicator_request
          ]

      unfoldable pub defender_indicators : Result CallToolResult ErrorData × List Event
      unfolding indicators_action audit_validation_error
      defender_indicators =
          if not (contains_str indicators_actions input.action)
          then indicators_action
          else let (r, es) =
              audit_validation_error MutatingTool.indicators input.action
                PermissionCategory.indicators input.comment world server indicators_action in
            (ok r, es)
