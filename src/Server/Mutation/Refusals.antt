-- ===== src/Server/Mutation/Refusals.antt =====
-- Which refusal an attempt ends with: that of the first gate it fails, in a fixed order.
use microsoft_defender_mcp.Prelude.{
  ◌≡◌, ◌⊎◌, Bool, true, false, ◌&&◌, not, Option, none, some, List, [], ◌∷◌, ◌++◌, arith, str_eq,
  leb, if◌then◌else◌, is_ok, unwrap_or, length,
}
use microsoft_defender_mcp.Audit.{
  AuditRecord, AuditPhase, AuditResult, RejectReason, rejected, final, ConfirmationOutcome,
  accepted, unavailable, turned_off, not_applicable, intent, pending,
}
use microsoft_defender_mcp.Cli.Categories.{destructive, tool_enabled}
use microsoft_defender_mcp.Constants.{min_justification_len}
use microsoft_defender_mcp.Error.{audit_unavailable}
use microsoft_defender_mcp.Server.Attempt.{
  Event, written, write_failed, printed, Outside, DefenderServer, MutationRequest,
}
use microsoft_defender_mcp.Server.Mutation.{execute_mutation, request_confirmation, record_of}
use microsoft_defender_mcp.Server.Mutation.Gates.{calls}
use microsoft_defender_mcp.Text.{Text, trim}

-- The first reason whose test holds.
abbrev pub first_failing : List (Bool × AuditResult) → Option AuditResult
first_failing [] = none
first_failing ((failed, reason) ∷ gates) = if failed then some reason else first_failing gates

-- The result in the final record of a trace.
abbrev final_result_of : AuditPhase → AuditResult → Option AuditResult → Option AuditResult
final_result_of final r rest = some r
final_result_of _ r rest = rest

abbrev pub final_result : List Event → Option AuditResult
final_result [] = none
final_result (written r ∷ es) = final_result_of r.phase r.result (final_result es)
final_result (write_failed r ∷ es) = final_result_of r.phase r.result (final_result es)
final_result (printed r ∷ es) = final_result_of r.phase r.result (final_result es)
final_result (_ ∷ es) = final_result es

abbrev is_accepted : ConfirmationOutcome → Bool
is_accepted accepted = true
is_accepted _ = false

abbrev is_unavailable : ConfirmationOutcome → Bool
is_unavailable unavailable = true
is_unavailable _ = false

abbrev is_long : Option Text → Bool
is_long none = false
is_long (some j) = leb min_justification_len (length (trim j))

module _ (world : Outside) (server : DefenderServer) (req : MutationRequest) where
  abbrev prompts : Bool
  prompts = destructive req.tool && server.confirm_destructive

  abbrev reply : ConfirmationOutcome
  reply = (request_confirmation world server req (trim (unwrap_or [] req.justification))).0

  -- The gates in the order in which they are documented, up to the human confirmation.
  abbrev pub gates : List (Bool × AuditResult)
  gates =
      (server.read_only, rejected RejectReason.read_only)
      ∷ (not (tool_enabled server.categories req.tool), rejected RejectReason.category_disabled)
      ∷ (
        str_eq req.action "offboard" && not server.categories.offboarding,
        rejected RejectReason.category_disabled,
      )
      ∷ (not (is_ok req.validation_result), rejected RejectReason.validation)
      ∷ (not (is_long req.justification), rejected RejectReason.validation)
      ∷ (prompts && is_unavailable reply, rejected RejectReason.confirmation_unavailable)
      ∷ (prompts && not (is_accepted reply), AuditResult.declined)
      ∷ []

  -- How an attempt that reaches the intent record was confirmed.
  abbrev confirmed : ConfirmationOutcome
  confirmed =
      if destructive req.tool
      then if server.confirm_destructive then accepted else turned_off
      else not_applicable

  -- The last gate: the intent record must be in the audit log.
  abbrev intent_record : AuditRecord
  intent_record =
      record_of world server req intent (some (trim (unwrap_or [] req.justification))) confirmed
        pending

  abbrev pub all_gates : List (Bool × AuditResult)
  all_gates =
      gates ++ ((not (world.append intent_record), rejected RejectReason.audit_unavailable) ∷ [])

  -- Where there is an audit sink, an attempt that fails a gate, that of the intent record included,
  -- makes no upstream request, and its final record carries the reason of the first gate that it
  -- fails, whether or not the record could be appended.
  pub refused_first :
      (reason : AuditResult)
      → server.audit_sink ≡ true
      → first_failing all_gates ≡ some reason
      → (final_result (execute_mutation world server req).1 ≡ some reason)
        × (calls (execute_mutation world server req).1 ≡ 0)
  unfolding execute_mutation
  refused_first reason sink h = ground arith

  -- An attempt that passes every gate up to the confirmation makes its one upstream request, or is
  -- answered that the audit log is unavailable and makes none.
  pub passed_gates :
      first_failing gates ≡ none
      → (calls (execute_mutation world server req).1 ≡ 1)
        ⊎ ((execute_mutation world server req).0 ≡ audit_unavailable)
          × (calls (execute_mutation world server req).1 ≡ 0)
  unfolding execute_mutation
  passed_gates h = ground arith

  -- The audit log fails closed: if no record can be appended, or there is no audit sink, no upstream
  -- request is made.
  pub fails_closed :
      ((r : AuditRecord) → world.append r ≡ false) ⊎ (server.audit_sink ≡ false)
      → calls (execute_mutation world server req).1 ≡ 0
  unfolding execute_mutation
  fails_closed h = grind arith
