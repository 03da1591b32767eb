-- ===== src/Server/Device/Sends.antt =====
-- When the device actions make an upstream request, and what they leave in the audit log.
use microsoft_defender_mcp.Prelude.{
  ◌≢◌, Bool-cases, none, Result-cases, String, ◌≡◌, inl, inr, true, arith, Option-cases, ok,
}
use microsoft_defender_mcp.Audit.{ConfirmationOutcome}
use microsoft_defender_mcp.Inputs.Device.{DeviceResponseInput}
use microsoft_defender_mcp.Server.Attempt.{DefenderServer, Outside}
use microsoft_defender_mcp.Server.Device.{
  unused_field_request, device_request, unused_field, valid_actions, contains_str,
  device_response_action,
}
use microsoft_defender_mcp.Server.Mutation.{execute_mutation}
use microsoft_defender_mcp.Server.Mutation.Gates.{called-IsCleared, IsCleared, calls}
use microsoft_defender_mcp.Server.Prepare.{prepare, Prepared}
use microsoft_defender_mcp.Server.Tools.{Endpoint, Libraries}
use microsoft_defender_mcp.Text.{Text}

module _ (world : Outside) (server : DefenderServer) (libraries : Libraries) (endpoint : Endpoint)
    (input : DeviceResponseInput) where
  never_unused :
      (f : String)
      → (unused_field_request world server libraries endpoint input f).validation_result ≢ ok tt
  unfolding unused_field_request
  never_unused f = cc

  -- If the device tool makes an upstream request, the action is one of the valid ones, no unused field
  -- was given, and the prepared request passed every gate of the pipeline.
  pub device_calls :
      calls (device_response_action world server libraries endpoint input).1 ≡ 1
      → (contains_str (valid_actions world server libraries endpoint input) input.action ≡ true)
        × (unused_field input ≡ none)
        × ((p : Prepared) × (prepare libraries input ≡ ok p)
            × ((reason : Text) × (c : ConfirmationOutcome) × IsCleared world server
                  (device_request world server libraries endpoint input p)
                  reason
                  c))
  unfolding device_response_action
  device_calls h =
      elim (Bool-cases
        (contains_str (valid_actions world server libraries endpoint input) input.action)) [
          | inr unknown ↦ absurd (ground arith)
          | inl known ↦ elim (Option-cases (unused_field input)) [
            | inr (f, given) ↦
                let req = unused_field_request world server libraries endpoint input f in
                let once : calls (execute_mutation world server req).1 ≡ 1 = ground arith in
                absurd (never_unused f (called-IsCleared world server req once).2.valid)
            | inl fits ↦ elim (Result-cases (prepare libraries input)) [
              | inr (why, failed) ↦ absurd (ground arith)
              | inl (p, prepared) ↦ (
                known,
                fits,
                (
                  p,
                  prepared,
                  called-IsCleared world server
                      (device_request world server libraries endpoint input p) (ground arith),
                ),
              )
            ]
          ]
        ]
