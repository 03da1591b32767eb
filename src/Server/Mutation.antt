-- ===== src/Server/Mutation.antt =====
-- `execute_mutation` of src/server.rs: the pipeline through which every mutating action goes, one
-- definition for each of its stages.
pub mod Gates
pub mod Trail
pub mod Refusals
use microsoft_defender_mcp.Prelude.{
  ℕ, ◌%◌, String, Option, none, some, List, [], ◌∷◌, ◌++◌, Bool, ◌&&◌, ◌||◌, not, leb, length,
  str_eq, if◌then◌else◌, Result, ok, err,
}
use microsoft_defender_mcp.Audit.{
  AuditPhase, ConfirmationOutcome, RejectReason, AuditResult, AuditRecord, intent, outcome, final,
  accepted, declined, unavailable, turned_off, not_applicable, submitted, upstream_error,
  transport_error, rejected, pending,
}
use microsoft_defender_mcp.Audit.AttemptId.{new_attempt_id}
use microsoft_defender_mcp.Cli.Categories.{
  MutatingTool, tool_name, destructive, enable_flag, tool_enabled,
}
use microsoft_defender_mcp.Confirm.{
  build_confirmation_message, check_elicitation_mode_supported, map_elicitation_result,
}
use microsoft_defender_mcp.Constants.{min_justification_len}
use microsoft_defender_mcp.Error.{
  tool_error, read_only_violation, category_disabled, confirmation_unavailable, not_confirmed,
  audit_unavailable,
}
use microsoft_defender_mcp.Json.{get, as_u64, CallToolResult, structured, structured_content}
use microsoft_defender_mcp.Server.Attempt.{
  Event, written, write_failed, printed, prompted, called, Outside, DefenderServer,
  MutationResponse, MutationRequest, Attempt, ◌>>=◌, ◌>>◌, pure, return, after, answer_of, trace_of,
}
use microsoft_defender_mcp.Text.{Text, lit, trim}

-- `http_status_of`
unfoldable pub http_status_of : CallToolResult → Option ℕ
http_status_of result = elim (get "httpStatus" (structured_content result)) [
  | none ↦ none
  | some v ↦ as_u64 v
]

module _ (world : Outside) (server : DefenderServer) where
  -- `sink.append(record)`, with the report of a failure.
  abbrev pub append_record : AuditRecord → Event
  append_record r = if world.append r then written r else write_failed r

  unfoldable pub write_audit_record_best_effort : AuditRecord → List Event
  write_audit_record_best_effort r = if server.audit_sink then append_record r ∷ [] else []

  unfoldable pub request_confirmation :
      (req : MutationRequest) (justification : Text) → ConfirmationOutcome × List Event
  unfolding check_elicitation_mode_supported
  request_confirmation req justification =
      let form =
        build_confirmation_message world.show (tool_name req.tool) req.action req.parameters
          req.targets justification server.identity in
      if check_elicitation_mode_supported world.modes
      then (map_elicitation_result (world.answer form), prompted form ∷ [])
      else (unavailable, [])

  module _ (req : MutationRequest) where
    -- The record of a phase; the identity and the attempt are those of the whole pipeline.
    abbrev pub record_of :
        AuditPhase → Option Text → ConfirmationOutcome → AuditResult → AuditRecord
    record_of phase justification confirmation result = record {
      ts = world.now phase;
      attempt_id = new_attempt_id world.random;
      phase = phase;
      tool = tool_name req.tool;
      action = req.action;
      targets = req.targets;
      parameters = req.parameters;
      justification = justification;
      identity = server.identity;
      confirmation = confirmation;
      result = result;
    }

    abbrev pub record_final : RejectReason → ConfirmationOutcome → AuditRecord
    record_final reason confirmation =
        record_of final req.justification confirmation (rejected reason)

    unfoldable pub reject :
        {A : Type 0} → RejectReason → ConfirmationOutcome → CallToolResult → Attempt A
    unfolding write_audit_record_best_effort
    reject reason confirmation result =
        return (write_audit_record_best_effort (record_final reason confirmation)) result

    -- 1. Read-only check
    unfoldable pub read_only_check : Attempt (Unit {0})
    unfolding reject
    read_only_check =
        if server.read_only
        then reject RejectReason.read_only not_applicable (read_only_violation (tool_name req.tool))
        else pure tt

    -- 2. Category check (including offboarding)
    unfoldable pub offboarding_disabled : Bool
    offboarding_disabled = str_eq req.action "offboard" && not server.categories.offboarding

    unfoldable pub category_check : Attempt (Unit {0})
    unfolding reject offboarding_disabled
    category_check =
        let flag = if offboarding_disabled then "--enable-offboarding" else enable_flag req.tool in
        if not (tool_enabled server.categories req.tool) || offboarding_disabled
        then reject RejectReason.category_disabled not_applicable (category_disabled flag)
        else pure tt

    -- 3. Validation check
    abbrev validation_of : Result (Unit {0}) CallToolResult → Attempt (Unit {0})
    unfolding reject
    validation_of (ok _) = pure tt
    validation_of (err val_err) = reject RejectReason.validation not_applicable val_err

    unfoldable pub validation_check : Attempt (Unit {0})
    unfolding reject
    validation_check = validation_of req.validation_result

    abbrev comment_field : MutatingTool → String
    comment_field MutatingTool.triage = "justification"
    comment_field _ = "comment"

    unfoldable pub too_short : CallToolResult
    too_short = tool_error (
        lit (comment_field req.tool)
        ++ lit " must be at least 10 characters describing the purpose")

    abbrev justification_of : Option Text → Attempt Text
    unfolding reject
    justification_of none = reject RejectReason.validation not_applicable too_short
    justification_of (some j) =
        if leb min_justification_len (length (trim j))
        then pure (trim j)
        else reject RejectReason.validation not_applicable too_short

    unfoldable pub justification_check : Attempt Text
    unfolding reject
    justification_check = justification_of req.justification

    -- 4. Confirmation
    abbrev confirmation_of : Text → ConfirmationOutcome × List Event → Attempt ConfirmationOutcome
    unfolding reject write_audit_record_best_effort
    confirmation_of j (accepted, es) = (ok accepted, es)
    confirmation_of j (unavailable, es) =
        after es (reject RejectReason.confirmation_unavailable unavailable confirmation_unavailable)
    confirmation_of j (_, es) =
        let rec = record_of final (some j) declined AuditResult.declined in
        return (es ++ write_audit_record_best_effort rec) not_confirmed

    unfoldable pub confirm : Text → Attempt ConfirmationOutcome
    unfolding reject write_audit_record_best_effort request_confirmation
    confirm j =
        if destructive req.tool && server.confirm_destructive
        then confirmation_of j (request_confirmation req j)
        else if destructive req.tool
        then pure turned_off
        else pure not_applicable

    -- 5. Intent record
    unfoldable pub write_intent : Text → ConfirmationOutcome → Attempt (Unit {0})
    unfolding reject write_audit_record_best_effort
    write_intent j confirmation =
        let unlogged = record_final RejectReason.audit_unavailable confirmation in
        let rec = record_of intent (some j) confirmation pending in
        if server.audit_sink
        then if world.append rec
          then (ok tt, written rec ∷ [])
          else return (write_failed rec ∷ write_audit_record_best_effort unlogged) audit_unavailable
        else return (printed unlogged ∷ []) audit_unavailable

    -- 6. Upstream request, and 7. the outcome record
    abbrev pub failure_of : Option ℕ → Text → AuditResult
    failure_of none msg = transport_error msg
    failure_of (some status) msg = upstream_error (status % 65536) msg

    abbrev pub outcome_of : Result MutationResponse CallToolResult → AuditResult × CallToolResult
    unfolding http_status_of
    outcome_of (ok resp) =
        let (tracking_id, upstream_status) = req.extract_tracking resp in
        (submitted resp.http_status tracking_id upstream_status, structured resp.body)
    outcome_of (err failure) =
        let msg : Text = elim (world.first_text failure) [
          | none ↦ lit "upstream error"
          | some text ↦ text
        ] in
        (failure_of (http_status_of failure) msg, failure)

    unfoldable pub submit : Text → ConfirmationOutcome → Attempt CallToolResult
    unfolding write_audit_record_best_effort http_status_of
    submit j confirmation =
        let (result, answer) = outcome_of req.upstream in
        let rec = record_of outcome (some j) confirmation result in
        (ok answer, called ∷ write_audit_record_best_effort rec)

    unfoldable pub pipeline : Attempt CallToolResult
    pipeline = do
      read_only_check
      category_check
      validation_check
      j ← justification_check
      confirmation ← confirm j
      write_intent j confirmation
      submit j confirmation

    unfoldable pub execute_mutation : CallToolResult × List Event
    unfolding pipeline read_only_check category_check validation_check justification_check confirm
        write_intent submit
    execute_mutation = (answer_of pipeline, trace_of pipeline)
