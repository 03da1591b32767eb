-- ===== src/Server/Attempt.antt =====
-- One attempt of a mutating action: what it answers, and the events that the outside sees, in
-- order. `Err` is an early return of the pipeline of src/server.rs.
use microsoft_defender_mcp.Prelude.{ℕ, String, Option, List, [], ◌++◌, Bool, Result, ok, err}
use microsoft_defender_mcp.Audit.{AuditRecord, AuditPhase, AuditTarget}
use microsoft_defender_mcp.Auth.Identity.{IdentitySnapshot, PermissionCategory}
use microsoft_defender_mcp.Cli.Categories.{MutatingTool, MutationCategories}
use microsoft_defender_mcp.Confirm.{ElicitationMode, ElicitResult}
use microsoft_defender_mcp.Json.{Json, Fields, CallToolResult}
use microsoft_defender_mcp.Text.{Text}

pub data Event : Type 0 where
  -- The line is appended to the audit log and flushed, and its summary printed.
  written : AuditRecord → Event
  -- The append failed, and the failure is reported on stderr.
  write_failed : AuditRecord → Event
  -- The summary alone is printed on stderr.
  printed : AuditRecord → Event
  -- The form is shown to the user.
  prompted : (message : Text) → Event
  -- The upstream request is made.
  called : Event

-- What the server does not decide: the client, the audit file, the clock and the libraries.
pub record Outside : Type 0 where
  -- The elicitation modes of the client, and its answer to a form.
  pub modes : List ElicitationMode
  pub answer : Text → Result ElicitResult Text
  -- Whether a record can be appended to the audit file and flushed.
  pub append : AuditRecord → Bool
  -- The time at which the record of a phase is made.
  pub now : AuditPhase → ℕ
  -- The bytes of `getrandom::fill`.
  pub random : List ℕ
  -- serde_json's `Value::to_string`, and the first text of a result's content.
  pub show : Json → Text
  pub first_text : CallToolResult → Option Text

-- The parts of `DefenderServer` that the pipeline reads; `audit_sink` says whether there is one.
pub record DefenderServer : Type 0 where
  pub read_only : Bool
  pub categories : MutationCategories
  pub confirm_destructive : Bool
  pub allowed_commands : Option (List String)
  pub identity : IdentitySnapshot
  pub audit_sink : Bool

pub record MutationResponse : Type 0 where
  pub http_status : ℕ
  pub body : Json

-- `upstream` is what the upstream closure gives if it is called.
pub record MutationRequest : Type 0 where
  pub tool : MutatingTool
  pub action : String
  pub category : PermissionCategory
  pub targets : List AuditTarget
  pub parameters : Fields
  pub justification : Option Text
  pub validation_result : Result (Unit {0}) CallToolResult
  pub extract_tracking : MutationResponse → Option Text × Option Text
  pub upstream : Result MutationResponse CallToolResult

abbrev pub Attempt : Type 0 → Type 0
Attempt A = Result A CallToolResult × List Event

abbrev pub after : {A : Type 0} → List Event → Attempt A → Attempt A
after es (r, fs) = (r, es ++ fs)

infixl 5 ◌>>=◌ ◌>>◌
abbrev pub ◌>>=◌ : {A B : Type 0} → Attempt A → (A → Attempt B) → Attempt B
(ok a, es) >>= f = after es (f a)
(err r, es) >>= f = (err r, es)

abbrev pub ◌>>◌ : {B : Type 0} → Attempt (Unit {0}) → Attempt B → Attempt B
m >> k = m >>= λ _. k

abbrev pub pure : {A : Type 0} → A → Attempt A
pure a = (ok a, [])

-- `return Ok(result)` after the events `es`.
abbrev pub return : {A : Type 0} → List Event → CallToolResult → Attempt A
return es r = (err r, es)

abbrev pub answer_of : Attempt CallToolResult → CallToolResult
answer_of (ok r, es) = r
answer_of (err r, es) = r

abbrev pub trace_of : Attempt CallToolResult → List Event
trace_of a = a.1
