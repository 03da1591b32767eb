-- ===== src/Tests/Triage.antt =====
-- Runs of the triage actions.
use microsoft_defender_mcp.Prelude.{◌≡◌, refl, ◌↔◌, true, none, some, [], ◌∷◌, ok}
use microsoft_defender_mcp.Audit.{ConfirmationOutcome}
use microsoft_defender_mcp.Cli.Categories.{tool_enabled, destructive}
use microsoft_defender_mcp.Inputs.Triage.{status_wire, TriageInput, resolved}
use microsoft_defender_mcp.Json.{obj, end}
use microsoft_defender_mcp.Server.Attempt.{MutationRequest}
use microsoft_defender_mcp.Server.Device.{contains_str}
use microsoft_defender_mcp.Server.Mutation.{execute_mutation}
use microsoft_defender_mcp.Server.Mutation.Gates.{calls, IsCleared}
use microsoft_defender_mcp.Server.Tools.{Graph}
use microsoft_defender_mcp.Server.Triage.{
  triage_actions, unused_triage_field, has_change, triage_request, triage_action,
}
use microsoft_defender_mcp.Server.Triage.Rules.{
  IsCommented, TakesTriageFields, unused_triage_field_iff, IsUpdate,
}
use microsoft_defender_mcp.Server.Triage.Sends.{IsAimed, triage_calls}
use microsoft_defender_mcp.Tests.Device.{libraries, endpoint}
use microsoft_defender_mcp.Tests.Pipeline.{outside, server, reason}
use microsoft_defender_mcp.Text.{trim, is_whitespace, text_eq, is_control, Text}
use microsoft_defender_mcp.Validation.Indicators.{validate_classification_pair}
use microsoft_defender_mcp.Validation.Names.{validate_required_id}

abbrev pub graph : Graph
graph = record {
  graph_patch_as = λ path body category. ok (record { http_status = 200; body = obj end });
  graph_post_as = λ path body category. ok (obj end);
}

abbrev alert : Text
alert = b'd' ∷ b'a' ∷ b'1' ∷ b' ' ∷ []

abbrev resolve : TriageInput
resolve = record {
  action = "xdr_alert_update";
  justification = some reason;
  id = some alert;
  ids = none;
  status = some resolved;
  assigned_to = none;
  classification = none;
  determination = none;
  tags = none;
  comment = none;
}

unused_triage_field_iff_example : (unused_triage_field resolve ≡ none) ↔ TakesTriageFields resolve
unused_triage_field_iff_example = unused_triage_field_iff resolve refl

resolve-calls : calls (triage_action libraries endpoint graph resolve outside server).1 ≡ 1
unfolding triage_action execute_mutation tool_enabled validate_classification_pair status_wire
    validate_required_id trim is_whitespace text_eq is_control destructive
resolve-calls = refl

triage_calls_example :
    (contains_str triage_actions resolve.action ≡ true)
    × (unused_triage_field resolve ≡ none)
    × (has_change resolve ≡ true)
    × ((req : MutationRequest) × (triage_request libraries endpoint graph resolve ≡ ok req)
        × IsUpdate resolve
        × IsCommented resolve
        × IsAimed libraries endpoint graph resolve req
        × ((reason : Text) × (c : ConfirmationOutcome) × IsCleared outside server req reason c))
triage_calls_example = triage_calls libraries endpoint graph resolve outside server resolve-calls
