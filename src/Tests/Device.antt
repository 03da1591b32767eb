-- ===== src/Tests/Device.antt =====
-- Runs of the device actions.
use microsoft_defender_mcp.Prelude.{
  ℕ, zero, suc, ◌≡◌, refl, ◌↔◌, true, none, some, [], ◌∷◌, ◌++◌, ok, unwrap_or,
}
use microsoft_defender_mcp.Audit.{machine_action_id, ConfirmationOutcome, target}
use microsoft_defender_mcp.Cli.Categories.{tool_enabled, destructive}
use microsoft_defender_mcp.Confirm.{map_elicitation_result}
use microsoft_defender_mcp.Inputs.Device.{DeviceResponseInput}
use microsoft_defender_mcp.Json.{get_field, obj, str, field, end}
use microsoft_defender_mcp.Server.Device.{
  valid_actions, contains_str, device_response_action, device_request, unused_field,
}
use microsoft_defender_mcp.Server.Device.Rules.{unused_field_iff, TakesFields}
use microsoft_defender_mcp.Server.Device.Sends.{device_calls}
use microsoft_defender_mcp.Server.Mutation.{execute_mutation}
use microsoft_defender_mcp.Server.Mutation.Gates.{calls, IsCleared}
use microsoft_defender_mcp.Server.Prepare.{prepare, Prepared}
use microsoft_defender_mcp.Server.Prepare.Aims.{Aims, prepare-Aims}
use microsoft_defender_mcp.Server.Tools.{Endpoint, Libraries}
use microsoft_defender_mcp.Tests.Crates.{chrono_crate, url_crate, regex_crate, percent_crate}
use microsoft_defender_mcp.Tests.Pipeline.{outside, server}
use microsoft_defender_mcp.Text.{byte_len, trim, is_whitespace, lit, Text}
use microsoft_defender_mcp.Validation.Encoding.{encode_path_segment, path_segment_encode_set}
use microsoft_defender_mcp.Validation.Hashes.{validate_machine_id}
use microsoft_defender_mcp.Validation.Names.{validate_action_id}

abbrev pub libraries : Libraries
libraries = record {
  regex = regex_crate;
  percent = percent_crate;
  parse_url = url_crate;
  chrono = chrono_crate;
}

abbrev pub endpoint : Endpoint
endpoint = record {
  post_as = λ path body category. ok (record { http_status = 201; body = obj end });
  delete_as = λ path category. ok (record { http_status = 204; body = obj end });
  patch_as = λ path body category. ok (record { http_status = 200; body = obj end });
  multipart_upload = λ path file_name content description parameters_description override.
      ok (record { http_status = 200; body = obj end });
}

abbrev machine : Text
machine = repeat 40
  where
    repeat : ℕ → Text
    repeat zero = []
    repeat (suc n) = b'a' ∷ repeat n

abbrev isolate_machine : DeviceResponseInput
isolate_machine = record {
  action = "isolate";
  machine_id = some machine;
  action_id = none;
  comment =
      some (b' ' ∷ b'c' ∷ b'o' ∷ b'n' ∷ b't' ∷ b'a' ∷ b'i' ∷ b'n' ∷ b'm' ∷ b'e' ∷ b'n' ∷ b't' ∷ []);
  isolation_type = none;
  scan_type = none;
  tag = none;
  device_value = none;
}

unused_field_iff_example : (unused_field isolate_machine ≡ none) ↔ TakesFields isolate_machine
unused_field_iff_example = unused_field_iff isolate_machine refl

abbrev cancel : DeviceResponseInput
cancel = record isolate_machine {
  action = "cancel_machine_action";
  machine_id = none;
  action_id = some (b'a' ∷ b'1' ∷ b' ' ∷ []);
}

abbrev cancel_prepared : Prepared
cancel_prepared = record {
  targets = target machine_action_id (b'a' ∷ b'1' ∷ []) ∷ [];
  validation = ok tt;
  path = lit "/api/machineactions/" ++ ((b'a' ∷ b'1' ∷ []) ++ lit "/cancel");
  body = obj (field "Comment" (str (unwrap_or [] isolate_machine.comment)) end);
  parameters = end;
}

cancel_prepares : prepare libraries cancel ≡ ok cancel_prepared
unfolding prepare validate_action_id encode_path_segment trim percent_crate is_whitespace byte_len
    path_segment_encode_set
cancel_prepares = refl

prepare-Aims_example : Aims libraries cancel cancel_prepared
prepare-Aims_example = prepare-Aims libraries cancel cancel_prepared cancel_prepares refl

isolate-calls :
    calls (device_response_action outside server libraries endpoint isolate_machine).1 ≡ 1
unfolding device_response_action execute_mutation tool_enabled validate_machine_id regex_crate trim
    is_whitespace destructive map_elicitation_result get_field
isolate-calls = refl

device_calls_example :
    (contains_str
        (valid_actions outside server libraries endpoint isolate_machine)
        isolate_machine.action
      ≡ true)
    × (unused_field isolate_machine ≡ none)
    × ((p : Prepared) × (prepare libraries isolate_machine ≡ ok p)
        × ((reason : Text) × (c : ConfirmationOutcome) × IsCleared outside server
              (device_request outside server libraries endpoint isolate_machine p)
              reason
              c))
device_calls_example = device_calls outside server libraries endpoint isolate_machine isolate-calls
