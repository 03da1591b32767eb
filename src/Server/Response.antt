-- ===== src/Server/Response.antt =====
-- `response_action` and `defender_response` of src/server.rs: Live Response and the library of its files.
pub mod Sends
use microsoft_defender_mcp.Prelude.{
  ℕ, zero, suc, ◌+◌, ◌-◌, ◌*◌, ◌/◌, ◌%◌, ◌≤◌, ◌<◌, String, ◌≡◌, refl, sym, ap, ◌∙◌, ◌≢◌, ◌↔◌, ◌⊎◌,
  inl, inr, Bool, true, false, ◌&&◌, ◌||◌, not, Option, none, some, List, [], ◌∷◌, ◌++◌, map,
  append-nil, append_assoc, arith, str_eq, eq_iff, ltb, leb, ◌==◌, if◌then◌else◌, ==_iff, leb→le,
  Bool-cases, Option-cases, Result, ok, err, refuse, map_err, is_ok, ok_or, unwrap_or, length, take,
  any, all, is_empty, All, Any, length-append, All-append, any-eq-false_iff, all-eq-true_iff,
  All-map, ◌>>=◌, ◌>>◌,
}
use microsoft_defender_mcp.Audit.{AuditTarget, target, machine_id, sha1, file_name}
use microsoft_defender_mcp.Auth.Identity.{PermissionCategory}
use microsoft_defender_mcp.Cli.Categories.{MutatingTool}
use microsoft_defender_mcp.Constants.{max_library_file_size}
use microsoft_defender_mcp.Error.{tool_error, unknown_action_error}
use microsoft_defender_mcp.Inputs.Args.{Misfit}
use microsoft_defender_mcp.Inputs.Response.{
  ResponseInput, LiveResponseRunInput, LiveResponseLibraryUploadInput, read_run, read_upload,
}
use microsoft_defender_mcp.Json.{
  Json, str, boolean, arr, obj, end, field, Fields, Items, nil, cons, CallToolResult, ErrorData,
  invalid_params,
}
use microsoft_defender_mcp.Server.Attempt.{
  Event, Outside, DefenderServer, MutationResponse, MutationRequest,
}
use microsoft_defender_mcp.Server.Device.{contains_str, first_given, is_some}
use microsoft_defender_mcp.Server.Dispatch.{not_used, run_request, audited}
use microsoft_defender_mcp.Server.Tools.{
  Endpoint, Libraries, required, text_or_empty, as_tool_error, both, get_str, optional_field,
}
use microsoft_defender_mcp.Text.{Text, lit, byte_len}
use microsoft_defender_mcp.Text.Decimal.{decimal}
use microsoft_defender_mcp.Validation.Commands.{
  LiveResponseCommand, LiveResponseParam, command_type_str, validate_live_response_commands,
}
use microsoft_defender_mcp.Validation.Encoding.{encode_path_segment}
use microsoft_defender_mcp.Validation.Hashes.{validate_machine_id, validate_sha1}
use microsoft_defender_mcp.Validation.Names.{
  validate_required_id, validate_file_name, validate_description,
}

abbrev pub response_actions : List String
response_actions =
    "collect_investigation_package" ∷ "live_response_run" ∷ "upload_library_file"
    ∷ "stop_and_quarantine_file" ∷ "library_file_delete" ∷ []

abbrev command_names : List LiveResponseCommand → Items
command_names [] = nil
command_names (c ∷ commands) =
    cons (str (lit (command_type_str c.cmd_type))) (command_names commands)

abbrev pub params_json : List LiveResponseParam → Items
params_json [] = nil
params_json (p ∷ params) =
    cons (obj (field "key" (str p.key) (field "value" (str p.value) end))) (params_json params)

abbrev pub commands_json : List LiveResponseCommand → Items
commands_json [] = nil
commands_json (c ∷ commands) =
    cons
      (obj (
        field "params" (arr (params_json c.params))
          (field "type" (str (lit (command_type_str c.cmd_type))) end)))
      (commands_json commands)

unfoldable pub content_check : Text → Result (Unit {0}) CallToolResult
content_check content = do
  refuse (is_empty content) (tool_error (lit "file_content cannot be empty"))
  refuse (ltb max_library_file_size (byte_len content)) (
      tool_error (
        lit "File size "
        ++ (decimal (byte_len content)
            ++ (lit " bytes exceeds maximum of "
                ++ (decimal max_library_file_size ++ lit " bytes (20 MB)")))))
  ok tt

unfoldable pub unused_delete_field : ResponseInput → Option String
unused_delete_field input = first_given (
    (is_some input.machine_id, "machine_id")
    ∷ (is_some input.sha1, "sha1")
    ∷ (is_some input.commands, "commands")
    ∷ (is_some input.file_content, "file_content")
    ∷ (is_some input.description, "description")
    ∷ (is_some input.parameters_description, "parameters_description")
    ∷ (is_some input.override_if_exists, "override_if_exists")
    ∷ [])

-- The targets where a check succeeded.
abbrev pub targets_if {ℓ κ} :
    {A : Type ℓ} {E : Type κ} → Result A E → AuditTarget → List AuditTarget
targets_if (ok _) t = t ∷ []
targets_if (err _) t = []

abbrev tracking : MutationResponse → Option Text × Option Text
tracking resp = (get_str "id" resp.body, get_str "status" resp.body)

module _ (libraries : Libraries) (endpoint : Endpoint) (explain : Misfit → Text)
    (live_response_allowed_commands : Option (List String)) (input : ResponseInput) where
  abbrev comment_val : Text
  comment_val = unwrap_or [] input.comment

  abbrev live_request : (justification : Text) → MutationRequest
  live_request justification = record {
    tool = MutatingTool.response;
    action = input.action;
    category = PermissionCategory.live_response;
    targets = [];
    parameters = end;
    justification = some justification;
    validation_result = ok tt;
    extract_tracking = tracking;
    upstream = err (tool_error []);
  }

  abbrev pub machine_path : Text → String → Text
  machine_path id suffix =
      lit "/api/machines/" ++ (encode_path_segment libraries.percent id ++ lit suffix)

  abbrev post_as : Text → Json → Result MutationResponse CallToolResult
  post_as path body = endpoint.post_as path body PermissionCategory.live_response

  unfoldable pub collect_request : (given : Text) → MutationRequest
  collect_request given =
      let machine_id_res = validate_machine_id libraries.regex given in
      let id = text_or_empty machine_id_res in
      record (live_request comment_val) {
        targets = targets_if machine_id_res (target machine_id id);
        validation_result = as_tool_error machine_id_res;
        upstream =
            post_as (machine_path id "/collectInvestigationPackage")
              (obj (field "Comment" (str comment_val) end));
      }

  unfoldable pub quarantine_request : (given given_sha1 : Text) → MutationRequest
  quarantine_request given given_sha1 =
      let machine_id_res = validate_machine_id libraries.regex given in
      let sha1_res = validate_sha1 libraries.regex given_sha1 in
      let id = text_or_empty machine_id_res in
      let sha1_str = text_or_empty sha1_res in
      record (live_request comment_val) {
        targets =
            targets_if machine_id_res (target machine_id id)
            ++ targets_if sha1_res (target sha1 sha1_str);
        validation_result = both machine_id_res sha1_res;
        upstream =
            post_as (machine_path id "/StopAndQuarantineFile")
              (obj (field "Comment" (str comment_val) (field "Sha1" (str sha1_str) end)));
      }

  unfoldable pub run_live_request : LiveResponseRunInput → MutationRequest
  run_live_request p =
      let machine_res = validate_required_id p.machine_id "machine_id" in
      let commands_res =
        validate_live_response_commands p.commands live_response_allowed_commands in
      let id = text_or_empty machine_res in
      let val_res = both machine_res commands_res in
      record (live_request p.comment) {
        targets = targets_if val_res (target machine_id id);
        parameters = field "commands" (arr (command_names p.commands)) end;
        validation_result = val_res;
        upstream = post_as (machine_path id "/runliveresponse") (
            obj (
              field "Commands" (arr (commands_json p.commands))
                (field "Comment" (str p.comment) end)));
      }

  -- The first error of the three checks.
  abbrev upload_check :
      Result Text ErrorData
      → Result Text ErrorData
      → Result (Unit {0}) CallToolResult
      → Result (Unit {0}) CallToolResult
  upload_check file_name_res desc_res content_res = both file_name_res desc_res >>= λ _. content_res

  unfoldable pub upload_request : LiveResponseLibraryUploadInput → MutationRequest
  unfolding content_check
  upload_request p =
      let file_name_res = validate_file_name p.file_name in
      let desc_res = validate_description p.description in
      let val_res = upload_check file_name_res desc_res (content_check p.file_content) in
      let file_name_str = text_or_empty file_name_res in
      let description_str = text_or_empty desc_res in
      record (live_request (unwrap_or description_str input.comment)) {
        targets = targets_if val_res (target file_name file_name_str);
        parameters =
            optional_field "override_if_exists" boolean p.override_if_exists
              (optional_field "parameters_description" str p.parameters_description end);
        validation_result = val_res;
        extract_tracking = λ resp. (get_str "id" resp.body, none);
        upstream =
            endpoint.multipart_upload (lit "/api/libraryfiles") file_name_str p.file_content
              description_str p.parameters_description p.override_if_exists;
      }

  unfoldable pub library_delete_request : (given : Text) → MutationRequest
  library_delete_request given =
      let fn_res = validate_file_name given in
      let fn_str = text_or_empty fn_res in
      let fn_enc = encode_path_segment libraries.percent fn_str in
      record (live_request comment_val) {
        targets = targets_if fn_res (target file_name fn_str);
        validation_result = as_tool_error fn_res;
        extract_tracking = λ _. (none, none);
        upstream =
            endpoint.delete_as (lit "/api/libraryfiles/" ++ fn_enc) PermissionCategory.live_response
            >>= λ _. ok (record {
              http_status = 204;
              body =
                  obj (field "file_name" (str fn_str) (field "status" (str (lit "deleted")) end));
            });
      }

  abbrev pub read {ℓ} : {A : Type ℓ} → Result A Misfit → Result A ErrorData
  read r = map_err (λ e. invalid_params (lit "invalid arguments for this action: " ++ explain e)) r

  unfoldable pub delete_plan : Result MutationRequest ErrorData
  unfolding unused_delete_field library_delete_request required not_used
  delete_plan = elim (unused_delete_field input) [
    | some f ↦ err (invalid_params (not_used f "library_file_delete"))
    | none ↦ required input.file_name "file_name" input.action >>= λ given.
        ok (library_delete_request given)
  ]

  -- The request that the action makes of the input.
  unfoldable pub response_request : Result MutationRequest ErrorData
  unfolding collect_request quarantine_request run_live_request upload_request delete_plan read_run
      read_upload required
  response_request =
      if str_eq input.action "collect_investigation_package"
      then (required input.machine_id "machine_id" input.action >>= λ given.
          ok (collect_request given))
      else if str_eq input.action "stop_and_quarantine_file"
      then (required input.machine_id "machine_id" input.action >>= λ given.
          (required input.sha1 "sha1" input.action >>= λ given_sha1.
          ok (quarantine_request given given_sha1)))
      else if str_eq input.action "live_response_run"
      then (read (read_run input) >>= λ p. ok (run_live_request p))
      else if str_eq input.action "upload_library_file"
      then (read (read_upload input) >>= λ p. ok (upload_request p))
      else if str_eq input.action "library_file_delete"
      then delete_plan
      else err (unknown_action_error "defender_response" input.action response_actions)

  module _ (world : Outside) (server : DefenderServer) where
    unfoldable pub response_action : Result CallToolResult ErrorData × List Event
    unfolding response_request
    response_action =
        if not (contains_str response_actions input.action)
        then (err (unknown_action_error "defender_response" input.action response_actions), [])
        else run_request world server response_request

    unfoldable pub defender_response : Result CallToolResult ErrorData × List Event
    unfolding response_action audited
    defender_response =
        let justification =
          if str_eq input.action "upload_library_file" then input.description else input.comment in
        if not (contains_str response_actions input.action)
        then response_action
        else audited world server MutatingTool.response input.action
            PermissionCategory.live_response justification response_action
