-- ===== src/Tests/Indicators.antt =====
-- Runs of the indicator actions.
use microsoft_defender_mcp.Prelude.{◌≡◌, refl, true, none, some, [], ◌∷◌, ok}
use microsoft_defender_mcp.Audit.{ConfirmationOutcome, target, indicator_value}
use microsoft_defender_mcp.Auth.Identity.{PermissionCategory}
use microsoft_defender_mcp.Cli.Categories.{destructive, tool_enabled}
use microsoft_defender_mcp.Confirm.{map_elicitation_result}
use microsoft_defender_mcp.Inputs.Indicator.{IndicatorsInput, domain_name, block}
use microsoft_defender_mcp.Json.{Json, get_field}
use microsoft_defender_mcp.Server.Attempt.{MutationRequest}
use microsoft_defender_mcp.Server.Device.{contains_str}
use microsoft_defender_mcp.Server.Indicators.{
  indicator_request, Submission, submit_request, unused_indicator_field, indicators_actions,
  indicators_action,
}
use microsoft_defender_mcp.Server.Indicators.Sends.{
  Describes, IsSubmission, submission_check-IsSubmission, indicators_calls,
}
use microsoft_defender_mcp.Server.Mutation.{execute_mutation}
use microsoft_defender_mcp.Server.Mutation.Gates.{IsCleared, calls}
use microsoft_defender_mcp.Tests.Device.{libraries, endpoint}
use microsoft_defender_mcp.Tests.Pipeline.{outside, server, reason}
use microsoft_defender_mcp.Text.{
  lit, trim, is_whitespace, ends_with, is_control, byte_len, contains, Text,
}
use microsoft_defender_mcp.Validation.Indicators.{
  validate_indicator_value, validate_domain_indicator, validate_indicator_action,
}
use microsoft_defender_mcp.Validation.Ip.{is_ip}
use microsoft_defender_mcp.Validation.Names.{
  validate_text, allows_newlines, validate_description, validate_hostname,
}

abbrev value : Text
value = b' ' ∷ b'a' ∷ b'.' ∷ b'b' ∷ []

abbrev title : Text
title = b'b' ∷ b'a' ∷ b'd' ∷ []

abbrev submit_input : IndicatorsInput
submit_input = record {
  action = "submit";
  comment = some reason;
  indicator_value = some value;
  indicator_type = some domain_name;
  indicator_action = some block;
  title = some title;
  description = some title;
  severity = none;
  expiration_time = none;
  rbac_group_names = some (title ∷ []);
  recommended_actions = none;
  generate_alert = none;
  indicator_id = none;
  indicator_ids = none;
}

abbrev submission : Submission
submission = record {
  title = title;
  description = title;
  value = value;
  type = domain_name;
  action = block;
}

submission_passes :
    (submit_request libraries submit_input endpoint submission).validation_result ≡ ok tt
unfolding submit_request validate_text trim is_whitespace allows_newlines ends_with lit is_control
    validate_description validate_indicator_value validate_domain_indicator is_ip validate_hostname
    byte_len contains validate_indicator_action
submission_passes = refl

submission_check-IsSubmission_example :
    IsSubmission libraries submit_input submission
    × ((submit_request libraries submit_input endpoint submission).targets
        ≡ target indicator_value value ∷ [])
    × ((body : Json) × Describes libraries submit_input submission body
        × ((submit_request libraries submit_input endpoint submission).upstream
            ≡ endpoint.post_as (lit "/api/indicators") body PermissionCategory.indicators))
submission_check-IsSubmission_example =
    submission_check-IsSubmission libraries submit_input endpoint submission submission_passes

submit_input-calls : calls (indicators_action libraries submit_input endpoint outside server).1 ≡ 1
unfolding indicators_action execute_mutation tool_enabled validate_text trim is_whitespace
    allows_newlines ends_with lit is_control validate_description validate_indicator_value
    validate_domain_indicator is_ip validate_hostname byte_len contains validate_indicator_action
    destructive map_elicitation_result get_field
submit_input-calls = refl

indicators_calls_example :
    (contains_str indicators_actions submit_input.action ≡ true)
    × (unused_indicator_field submit_input ≡ none)
    × ((req : MutationRequest) × (indicator_request libraries submit_input endpoint ≡ ok req)
        × ((reason : Text) × (c : ConfirmationOutcome) × IsCleared outside server req reason c))
indicators_calls_example =
    indicators_calls libraries submit_input endpoint outside server submit_input-calls
