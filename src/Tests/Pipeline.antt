-- ===== src/Tests/Pipeline.antt =====
-- Runs of the pipeline of mutating actions.
use microsoft_defender_mcp.Prelude.{
  Result, ◌++◌, arith, inl, ◌↔◌, All, ◌≤◌, ◌⊎◌, ◌≡◌, refl, true, false, none, some, [], ◌∷◌, ok,
}
use microsoft_defender_mcp.Audit.{
  AuditResult, outcome, pending, intent, RejectReason, accepted, rejected, ConfirmationOutcome,
  target, machine_id,
}
use microsoft_defender_mcp.Auth.Identity.{IdentitySnapshot, PermissionCategory}
use microsoft_defender_mcp.Cli.Categories.{
  any_category, destructive, from_flags, tool_enabled, MutatingTool, MutationCategories,
}
use microsoft_defender_mcp.Cli.Gating.{from_flags_iff, flag_of}
use microsoft_defender_mcp.Confirm.{map_elicitation_result, ElicitResult, accept, form}
use microsoft_defender_mcp.Confirm.Answers.{map_elicitation_result_iff, SaysYes}
use microsoft_defender_mcp.Error.{audit_unavailable}
use microsoft_defender_mcp.Json.{CallToolResult, get_field, boolean, end, field, obj}
use microsoft_defender_mcp.Server.Attempt.{
  called, written, Outside, DefenderServer, MutationRequest,
}
use microsoft_defender_mcp.Server.Mutation.{request_confirmation, record_of, execute_mutation}
use microsoft_defender_mcp.Server.Mutation.Gates.{
  IsAnswer, logged_event, cleared_trace, called-IsCleared, IsCleared, asked,
  calls-execute_mutation-le-one, calls,
}
use microsoft_defender_mcp.Server.Mutation.Refusals.{
  all_gates, refused_first, passed_gates, gates, fails_closed, final_result, first_failing,
}
use microsoft_defender_mcp.Server.Mutation.Trail.{
  execute_mutation-IsAttributed, lifecycle, IsAttributed, closed, OfRecord, fresh, advance_all,
}
use microsoft_defender_mcp.Text.{is_whitespace, trim, Text}

abbrev yes_form : ElicitResult
yes_form = record { action = accept; content = some (field "confirm" (boolean true) end) }

abbrev yes_answer : Result ElicitResult Text
yes_answer = ok yes_form

-- A client with a form that is accepted, and an audit file that takes every record.
abbrev pub outside : Outside
outside = record {
  modes = form ∷ [];
  answer = λ _. ok yes_form;
  append = λ _. true;
  now = λ _. 7;
  random = 1 ∷ 255 ∷ [];
  show = λ _. [];
  first_text = λ _. none;
}

-- The same, with an audit file that cannot be written.
abbrev full_disk : Outside
full_disk = record outside { append = λ _. false }

abbrev pub every_category : MutationCategories
every_category = record {
  live_response = true;
  device_response = true;
  offboarding = true;
  indicators = true;
  triage = true;
}

abbrev pub server : DefenderServer
server = record {
  read_only = false;
  categories = every_category;
  confirm_destructive = true;
  allowed_commands = none;
  identity = IdentitySnapshot.app [];
  audit_sink = true;
}

abbrev read_only_server : DefenderServer
read_only_server = record server { read_only = true }

abbrev unlogged_server : DefenderServer
unlogged_server = record server { audit_sink = false }

abbrev pub reason : Text
reason = b' ' ∷ b'c' ∷ b'o' ∷ b'n' ∷ b't' ∷ b'a' ∷ b'i' ∷ b'n' ∷ b'm' ∷ b'e' ∷ b'n' ∷ b't' ∷ []

abbrev isolate : MutationRequest
isolate = record {
  tool = MutatingTool.device_response;
  action = "isolate";
  category = PermissionCategory.device_response;
  targets = target machine_id (b'a' ∷ []) ∷ [];
  parameters = end;
  justification = some reason;
  validation_result = ok tt;
  extract_tracking = λ _. (none, none);
  upstream = ok (record { http_status = 201; body = obj end });
}

isolate-calls : calls (execute_mutation outside server isolate).1 ≡ 1
unfolding execute_mutation tool_enabled trim is_whitespace destructive map_elicitation_result
    get_field
isolate-calls = refl

isolate-IsCleared : IsCleared outside server isolate (trim reason) accepted
unfolding execute_mutation tool_enabled trim is_whitespace destructive map_elicitation_result
    get_field request_confirmation
isolate-IsCleared = record {
  writable = refl;
  enabled = refl;
  offboarding = inl refl;
  valid = refl;
  justified = (reason, refl, refl);
  long = omega arith;
  confirmed = inl (refl, refl, refl, refl);
  sink = refl;
  logged = refl;
}

calls-execute_mutation-le-one_example : calls (execute_mutation outside server isolate).1 ≤ 1
calls-execute_mutation-le-one_example = calls-execute_mutation-le-one outside server isolate

called-IsCleared_example :
    (r : Text) × (c : ConfirmationOutcome) × IsCleared outside server isolate r c
called-IsCleared_example = called-IsCleared outside server isolate isolate-calls

cleared_trace_example :
    (result : AuditResult) × (answer : CallToolResult) × IsAnswer outside server isolate
      isolate.upstream result answer
    × (execute_mutation outside server isolate ≡ (
      answer,
      asked outside server isolate (trim reason)
          ++ (written
                (record_of outside server isolate intent (some (trim reason)) accepted pending)
              ∷ called
              ∷ logged_event outside server isolate
                  (record_of outside server isolate outcome (some (trim reason)) accepted result)
              ∷ []),
    ))
cleared_trace_example =
    cleared_trace outside server isolate (trim reason) accepted isolate-IsCleared

lifecycle_example : advance_all fresh (execute_mutation full_disk server isolate).1 ≡ some closed
lifecycle_example = lifecycle full_disk server isolate refl

execute_mutation-IsAttributed_example :
    All (OfRecord (IsAttributed outside server isolate)) (execute_mutation outside server isolate).1
execute_mutation-IsAttributed_example = execute_mutation-IsAttributed outside server isolate

read_only_fails :
    first_failing (all_gates outside read_only_server isolate)
    ≡ some (rejected RejectReason.read_only)
read_only_fails = refl

full_disk_fails :
    first_failing (all_gates full_disk server isolate)
    ≡ some (rejected RejectReason.audit_unavailable)
unfolding tool_enabled trim is_whitespace destructive request_confirmation map_elicitation_result
    get_field
full_disk_fails = refl

refused_first_example :
    (final_result (execute_mutation outside read_only_server isolate).1
      ≡ some (rejected RejectReason.read_only))
    × (calls (execute_mutation outside read_only_server isolate).1 ≡ 0)
refused_first_example =
    refused_first outside read_only_server isolate (rejected RejectReason.read_only) refl
      read_only_fails

isolate_passes : first_failing (gates full_disk server isolate) ≡ none
unfolding tool_enabled trim is_whitespace destructive map_elicitation_result get_field
    request_confirmation
isolate_passes = refl

passed_gates_example :
    (calls (execute_mutation full_disk server isolate).1 ≡ 1)
    ⊎ ((execute_mutation full_disk server isolate).0 ≡ audit_unavailable)
      × (calls (execute_mutation full_disk server isolate).1 ≡ 0)
passed_gates_example = passed_gates full_disk server isolate isolate_passes

fails_closed_example : calls (execute_mutation full_disk server isolate).1 ≡ 0
fails_closed_example = fails_closed full_disk server isolate (inl (λ r. refl))

from_flags_iff_example :
    ((t : MutatingTool)
      → (tool_enabled (from_flags false true false true false true) t ≡ true)
        ↔ ((false ≡ false) × (flag_of t true false false true ≡ true)))
    × (((from_flags false true false true false true).offboarding ≡ true)
        ↔ ((false ≡ false) × (true ≡ true) × (false ≡ true)))
    × ((any_category (from_flags false true false true false true) ≡ true) ↔ (
        (t : MutatingTool) × (tool_enabled (from_flags false true false true false true) t ≡ true)))
from_flags_iff_example = from_flags_iff false true false true false true

map_elicitation_result_iff_example :
    ((map_elicitation_result yes_answer ≡ accepted)
      ↔ ((res : ElicitResult) × (yes_answer ≡ ok res) × SaysYes res))
    × ((map_elicitation_result yes_answer ≡ accepted)
        ⊎ (map_elicitation_result yes_answer ≡ ConfirmationOutcome.declined))
map_elicitation_result_iff_example = map_elicitation_result_iff yes_answer
