-- ===== src/Tests/Response.antt =====
-- Runs of the Live Response actions.
use microsoft_defender_mcp.Prelude.{◌≡◌, refl, true, none, some, [], ◌∷◌, ok}
use microsoft_defender_mcp.Audit.{ConfirmationOutcome}
use microsoft_defender_mcp.Cli.Categories.{tool_enabled, destructive}
use microsoft_defender_mcp.Confirm.{map_elicitation_result}
use microsoft_defender_mcp.Inputs.Args.{Misfit}
use microsoft_defender_mcp.Inputs.Response.{ResponseInput}
use microsoft_defender_mcp.Json.{get_field}
use microsoft_defender_mcp.Server.Attempt.{MutationRequest}
use microsoft_defender_mcp.Server.Device.{contains_str}
use microsoft_defender_mcp.Server.Mutation.{execute_mutation}
use microsoft_defender_mcp.Server.Mutation.Gates.{calls, IsCleared}
use microsoft_defender_mcp.Server.Response.{response_actions, response_request, response_action}
use microsoft_defender_mcp.Server.Response.Sends.{IsAimed, response_calls}
use microsoft_defender_mcp.Tests.Device.{libraries, endpoint}
use microsoft_defender_mcp.Tests.Pipeline.{outside, server, reason}
use microsoft_defender_mcp.Text.{trim, is_whitespace, text_eq, is_control, byte_len, Text}
use microsoft_defender_mcp.Validation.Names.{validate_file_name, validate_description}

abbrev explain : Misfit → Text
explain misfit = []

abbrev name : Text
name = b' ' ∷ b'a' ∷ b'.' ∷ b'p' ∷ []

abbrev upload : ResponseInput
upload = record {
  action = "upload_library_file";
  machine_id = none;
  comment = some reason;
  commands = none;
  file_name = some name;
  file_content = some name;
  description = some name;
  parameters_description = none;
  override_if_exists = some true;
  sha1 = none;
}

upload-calls : calls (response_action libraries endpoint explain none upload outside server).1 ≡ 1
unfolding response_action execute_mutation tool_enabled validate_file_name trim is_whitespace
    text_eq is_control validate_description byte_len destructive map_elicitation_result get_field
upload-calls = refl

response_calls_example :
    (contains_str response_actions upload.action ≡ true)
    × ((req : MutationRequest) × (response_request libraries endpoint explain none upload ≡ ok req)
        × IsAimed libraries none upload endpoint req
        × ((reason : Text) × (c : ConfirmationOutcome) × IsCleared outside server req reason c))
response_calls_example =
    response_calls libraries none upload endpoint explain outside server upload-calls
