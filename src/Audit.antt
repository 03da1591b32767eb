-- ===== src/Audit.antt =====
-- The audit log of mutating actions (src/audit.rs): its records, their stderr summary, and the
-- identifier of an attempt.
pub mod AttemptId
use microsoft_defender_mcp.Prelude.{[], ℕ, String, Option, none, some, List, ◌++◌, length}
use microsoft_defender_mcp.Auth.Identity.{IdentitySnapshot, display_summary}
use microsoft_defender_mcp.Json.{Fields}
use microsoft_defender_mcp.Text.{Text, lit}

pub data AuditPhase : Type 0 where
  intent outcome final : AuditPhase

pub data ConfirmationOutcome : Type 0 where
  accepted declined unavailable turned_off not_applicable : ConfirmationOutcome

unfoldable pub confirmation_str : ConfirmationOutcome → String
confirmation_str accepted = "accepted"
confirmation_str declined = "declined"
confirmation_str unavailable = "unavailable"
confirmation_str turned_off = "turned_off"
confirmation_str not_applicable = "not_applicable"

pub data RejectReason : Type 0 where
  read_only category_disabled validation confirmation_unavailable : RejectReason
  not_confirmed audit_unavailable : RejectReason

pub data AuditTargetKind : Type 0 where
  machine_id machine_action_id indicator_id indicator_value : AuditTargetKind
  alert_id incident_id file_name sha1 : AuditTargetKind

pub record AuditTarget : Type 0 where
  pub kind : AuditTargetKind
  pub value : Text

abbrev pub target : AuditTargetKind → Text → AuditTarget
target k v = record { kind = k; value = v }

pub data AuditResult : Type 0 where
  pending : AuditResult
  submitted : (http_status : ℕ) (tracking_id upstream_status : Option Text) → AuditResult
  upstream_error : (http_status : ℕ) (message : Text) → AuditResult
  transport_error : (message : Text) → AuditResult
  rejected : (reason : RejectReason) → AuditResult
  declined : AuditResult

unfoldable pub kind_str : AuditResult → String
kind_str pending = "pending"
kind_str (submitted _ _ _) = "submitted"
kind_str (upstream_error _ _) = "upstream_error"
kind_str (transport_error _) = "transport_error"
kind_str (rejected _) = "rejected"
kind_str AuditResult.declined = "declined"

pub record AuditRecord : Type 0 where
  pub ts : ℕ
  pub attempt_id : Text
  pub phase : AuditPhase
  pub tool : String
  pub action : String
  pub targets : List AuditTarget
  pub parameters : Fields
  pub justification : Option Text
  pub identity : IdentitySnapshot
  pub confirmation : ConfirmationOutcome
  pub result : AuditResult

-- The parts of the summary line that depend on the result.
status_part : (ℕ → Text) → AuditResult → Text
status_part show (submitted n _ _) = lit " status=" ++ show n
status_part show (upstream_error n _) = lit " status=" ++ show n
status_part show _ = []

id_part : AuditResult → Text
id_part (submitted _ (some id) _) = lit " id=" ++ id
id_part _ = []

-- `print_stderr_summary`: `show` prints a number and `date` a time stamp.
unfoldable pub summary : (show date : ℕ → Text) → AuditRecord → Text
unfolding status_part id_part
summary show date r =
    lit "AUDIT "
    ++ (date r.ts
        ++ (lit " "
            ++ (lit r.tool
                ++ (lit "."
                    ++ (lit r.action
                        ++ (lit " targets="
                            ++ (show (length r.targets)
                                ++ (lit " identity="
                                    ++ (display_summary r.identity
                                        ++ (lit " confirmation="
                                            ++ (lit (confirmation_str r.confirmation)
                                                ++ (lit " result="
                                                    ++ (lit (kind_str r.result)
                                                        ++ (status_part show r.result
                                                            ++ id_part r.result))))))))))))))
