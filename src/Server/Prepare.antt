-- ===== src/Server/Prepare.antt =====
-- What each device action of `device_response_action` (src/server.rs) sends, and how it is audited.
pub mod Aims
use microsoft_defender_mcp.Prelude.{
  ◌>>=◌, String, ◌||◌, List, [], ◌∷◌, ◌++◌, str_eq, if◌then◌else◌, Result, ok, err, ok_or,
  unwrap_or, is_empty,
}
use microsoft_defender_mcp.Audit.{AuditTarget, target, machine_id, machine_action_id}
use microsoft_defender_mcp.Inputs.Device.{
  DeviceResponseInput, IsolationType, isolation_type_str, scan_type_str, device_value_str,
}
use microsoft_defender_mcp.Json.{
  Json, str, obj, end, field, Fields, CallToolResult, ErrorData, invalid_params, internal_error,
}
use microsoft_defender_mcp.Server.Tools.{Libraries, required, text_or_empty, as_tool_error, both}
use microsoft_defender_mcp.Text.{Text, lit}
use microsoft_defender_mcp.Validation.Encoding.{encode_path_segment}
use microsoft_defender_mcp.Validation.Hashes.{validate_machine_id}
use microsoft_defender_mcp.Validation.Names.{validate_action_id, validate_tag}

-- What an action sends, and how it is audited.
pub record Prepared : Type 0 where
  pub targets : List AuditTarget
  pub validation : Result (Unit {0}) CallToolResult
  pub path : Text
  pub body : Json
  pub parameters : Fields

abbrev pub comment_of : DeviceResponseInput → Text
comment_of input = unwrap_or [] input.comment

abbrev pub comment_field : DeviceResponseInput → Fields → Json
comment_field input rest = obj (field "Comment" (str (comment_of input)) rest)

abbrev pub targets_of : (Text → AuditTarget) → Text → List AuditTarget
targets_of make id = if is_empty id then [] else make id ∷ []

module _ (libraries : Libraries) (input : DeviceResponseInput) where
  unfoldable pub prepare_cancel : Result Prepared ErrorData
  unfolding required
  prepare_cancel = do
    given ← required input.action_id "action_id" input.action
    let res = validate_action_id given
    let id = text_or_empty res
    ok (record {
      targets = targets_of (target machine_action_id) id;
      validation = as_tool_error res;
      path =
          lit "/api/machineactions/" ++ (encode_path_segment libraries.percent id ++ lit "/cancel");
      body = comment_field input end;
      parameters = end;
    })

  -- The actions on a machine, once its identifier is checked.
  module _ (res : Result Text ErrorData) where
    abbrev pub machine_path : String → Text
    machine_path suffix =
        lit "/api/machines/"
        ++ (encode_path_segment libraries.percent (text_or_empty res) ++ lit suffix)

    abbrev pub machine_request : String → Json → Fields → Prepared
    machine_request suffix body parameters = record {
      targets = targets_of (target machine_id) (text_or_empty res);
      validation = as_tool_error res;
      path = machine_path suffix;
      body = body;
      parameters = parameters;
    }

    abbrev pub plain : String → Result Prepared ErrorData
    plain suffix = ok (machine_request suffix (comment_field input end) end)

    unfoldable pub prepare_isolate : Result Prepared ErrorData
    prepare_isolate =
        let iso =
          str (lit (isolation_type_str (unwrap_or IsolationType.full input.isolation_type))) in
        ok (
          machine_request "/isolate" (comment_field input (field "IsolationType" iso end))
            (field "isolation_type" iso end))

    unfoldable pub prepare_scan : Result Prepared ErrorData
    prepare_scan = do
      scan ←
          ok_or (invalid_params (lit "action 'run_av_scan' requires 'scan_type'")) input.scan_type
      let name = str (lit (scan_type_str scan))
      ok (
          machine_request "/runAntiVirusScan" (comment_field input (field "ScanType" name end))
            (field "scan_type" name end))

    unfoldable pub prepare_tag : Result Prepared ErrorData
    unfolding required
    prepare_tag = do
      given ← required input.tag "tag" input.action
      let tag_res = validate_tag given
      let tag = str (text_or_empty tag_res)
      let act = if str_eq input.action "tag_add" then "Add" else "Remove"
      ok
          (record (machine_request "/tags"
            (obj (field "Action" (str (lit act)) (field "Value" tag end))) (field "tag" tag end)) {
              validation = both res tag_res;
            })

    unfoldable pub prepare_device_value : Result Prepared ErrorData
    prepare_device_value = do
      value ←
          ok_or (invalid_params (lit "action 'set_device_value' requires 'device_value'"))
            input.device_value
      let name = str (lit (device_value_str value))
      ok (
          machine_request "/setDeviceValue" (obj (field "DeviceValue" name end))
            (field "device_value" name end))

    -- The last case is not reached: the action is one of the valid ones.
    unfoldable pub prepare_machine : Result Prepared ErrorData
    unfolding prepare_isolate prepare_scan prepare_tag prepare_device_value
    prepare_machine =
        if str_eq input.action "isolate"
        then prepare_isolate
        else if str_eq input.action "unisolate"
        then plain "/unisolate"
        else if str_eq input.action "restrict_app_execution"
        then plain "/restrictCodeExecution"
        else if str_eq input.action "unrestrict_app_execution"
        then plain "/unrestrictCodeExecution"
        else if str_eq input.action "run_av_scan"
        then prepare_scan
        else if str_eq input.action "start_investigation"
        then plain "/startInvestigation"
        else if str_eq input.action "tag_add" || str_eq input.action "tag_remove"
        then prepare_tag
        else if str_eq input.action "set_device_value"
        then prepare_device_value
        else if str_eq input.action "offboard"
        then plain "/offboard"
        else err (internal_error (lit "internal error: entered unreachable code"))

  unfoldable pub prepare : Result Prepared ErrorData
  unfolding prepare_cancel prepare_machine required
  prepare = if str_eq input.action "cancel_machine_action" then prepare_cancel else do
    given ← required input.machine_id "machine_id" input.action
    prepare_machine (validate_machine_id libraries.regex given)
