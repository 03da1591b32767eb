-- ===== src/Server/Dispatch.antt =====
-- How a tool of src/server.rs runs the request that its action makes of the input: the same few lines
-- for each of the mutating tools.
use microsoft_defender_mcp.Prelude.{
  String, ◌≡◌, refl, true, Option, none, List, [], ◌++◌, Result, ok, err, is_ok,
}
use microsoft_defender_mcp.Audit.{ConfirmationOutcome}
use microsoft_defender_mcp.Auth.Identity.{PermissionCategory}
use microsoft_defender_mcp.Cli.Categories.{MutatingTool}
use microsoft_defender_mcp.Json.{CallToolResult, ErrorData, end}
use microsoft_defender_mcp.Server.Attempt.{Event, Outside, DefenderServer, MutationRequest}
use microsoft_defender_mcp.Server.Mutation.{execute_mutation}
use microsoft_defender_mcp.Server.Mutation.Gates.{calls, called-IsCleared, IsCleared}
use microsoft_defender_mcp.Server.Mutation.Trail.{Lives, execute_mutation-Lives}
use microsoft_defender_mcp.Server.Rejection.{audit_validation_error, rejected_request}
use microsoft_defender_mcp.Text.{Text, lit}

-- The request that refuses an input before anything is made of it.
abbrev pub refusing_request :
    MutatingTool
    → (action : String) → PermissionCategory
    → (justification : Option Text) → CallToolResult
    → MutationRequest
refusing_request tool action category justification refusal = record {
  tool = tool;
  action = action;
  category = category;
  targets = [];
  parameters = end;
  justification = justification;
  validation_result = err refusal;
  extract_tracking = λ _. (none, none);
  upstream = err refusal;
}

-- `field '{f}' is not used by action '{action}'`
unfoldable pub not_used : (field action : String) → Text
not_used f action =
    lit "field '" ++ (lit f ++ (lit "' is not used by action '" ++ (lit action ++ lit "'")))

module _ (world : Outside) (server : DefenderServer) where
  abbrev pub run_request :
      Result MutationRequest ErrorData → Result CallToolResult ErrorData × List Event
  run_request (err e) = (err e, [])
  run_request (ok req) = let (r, es) = execute_mutation world server req in (ok r, es)

  -- Only a request that passed every gate is sent.
  pub run_request-IsCleared :
      (plan : Result MutationRequest ErrorData)
      → calls (run_request plan).1 ≡ 1
      → (req : MutationRequest) × (plan ≡ ok req)
        × ((reason : Text) × (c : ConfirmationOutcome) × IsCleared world server req reason c)
  run_request-IsCleared (err e) h = absurd (cc)
  run_request-IsCleared (ok req) h = (req, refl, called-IsCleared world server req h)

  module _ (tool : MutatingTool) (action : String) (category : PermissionCategory)
      (justification : Option Text) where
    -- A protocol error of a known action is audited and becomes a tool error.
    unfoldable pub audited :
        Result CallToolResult ErrorData × List Event → Result CallToolResult ErrorData × List Event
    unfolding audit_validation_error
    audited result =
        let (r, es) =
          audit_validation_error tool action category justification world server result in
        (ok r, es)

    -- Whatever request an action makes of its input, or fails to make, the attempt ends with a tool
    -- result, and its life in the audit log is one.
    pub audited-run_request :
        (plan : Result MutationRequest ErrorData)
        → (is_ok (audited (run_request plan)).0 ≡ true)
          × Lives server (audited (run_request plan)).1
    unfolding audited
    audited-run_request (ok req) = (refl, execute_mutation-Lives world server req)
    audited-run_request (err e) = (
      refl,
      execute_mutation-Lives world server (rejected_request tool action category justification e),
    )
