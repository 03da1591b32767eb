-- ===== src/Server/Rejection.antt =====
-- `audit_validation_error` of src/server.rs: a protocol error of a known action becomes a final
-- validation record and a tool error.
use microsoft_defender_mcp.Prelude.{
  String, ◌≡◌, Option, none, List, [], ◌++◌, arith, Result, ok, err,
}
use microsoft_defender_mcp.Auth.Identity.{PermissionCategory}
use microsoft_defender_mcp.Cli.Categories.{MutatingTool}
use microsoft_defender_mcp.Error.{tool_error}
use microsoft_defender_mcp.Json.{end, CallToolResult, ErrorData, message}
use microsoft_defender_mcp.Server.Attempt.{Event, Outside, DefenderServer, MutationRequest}
use microsoft_defender_mcp.Server.Mutation.{execute_mutation}
use microsoft_defender_mcp.Server.Mutation.Gates.{calls}
use microsoft_defender_mcp.Text.{Text, lit}

module _ (tool : MutatingTool) (action : String) (category : PermissionCategory)
    (justification : Option Text) where
  -- The request that is made of an error, so that the pipeline refuses and records it.
  abbrev pub rejected_request : ErrorData → MutationRequest
  rejected_request e = record {
    tool = tool;
    action = action;
    category = category;
    targets = [];
    parameters = end;
    justification = justification;
    validation_result = err (tool_error (message e));
    extract_tracking = λ _. (none, none);
    upstream = err (tool_error (lit "internal error: upstream called after a validation failure"));
  }

  module _ (world : Outside) (server : DefenderServer) where
    -- `result` comes with the events that making it left.
    unfoldable pub audit_validation_error :
        Result CallToolResult ErrorData × List Event → CallToolResult × List Event
    audit_validation_error (ok r, es) = (r, es)
    audit_validation_error (err e, es) =
        let (r, fs) = execute_mutation world server (rejected_request e) in (r, es ++ fs)

    pub calls-audit_validation_error :
        (e : ErrorData) → calls (audit_validation_error (err e, [])).1 ≡ 0
    unfolding audit_validation_error execute_mutation
    calls-audit_validation_error e = ground arith
