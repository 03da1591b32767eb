-- ===== src/Confirm.antt =====
-- Human confirmation of destructive actions by an MCP form (src/confirm.rs).
pub mod Answers
use microsoft_defender_mcp.Prelude.{
  any, true, ℕ, String, Option, none, some, List, [], ◌∷◌, ◌++◌, Bool, false, length, take, ltb,
  if◌then◌else◌, Result, ok, err, unwrap_or,
}
use microsoft_defender_mcp.Audit.{AuditTarget, ConfirmationOutcome, accepted, declined}
use microsoft_defender_mcp.Auth.Identity.{IdentitySnapshot, display_prompt}
use microsoft_defender_mcp.Error.{join}
use microsoft_defender_mcp.Json.{Json, str, Fields, end, field, get_field, as_bool}
use microsoft_defender_mcp.Text.{Text, lit}

unfoldable pub truncate_ellipsis : Text → ℕ → Text
truncate_ellipsis s max_chars = if ltb max_chars (length s) then take max_chars s ++ lit "…" else s

-- `Value::to_string` of serde_json is the parameter `show`.
module _ (show : Json → Text) where
  abbrev value_text : Json → Text
  value_text (str s) = s
  value_text other = show other

  params_parts : Fields → List Text
  unfolding truncate_ellipsis
  params_parts end = []
  params_parts (field k v fs) =
      (lit k ++ (lit "=" ++ truncate_ellipsis (value_text v) 200)) ∷ params_parts fs

  action_str : String → Fields → Text
  unfolding params_parts join
  action_str action end = lit action
  action_str action (field k v fs) =
      lit action ++ (lit " (" ++ (join (lit ", ") (params_parts (field k v fs)) ++ lit ")"))

  target_lines : List AuditTarget → List Text
  unfolding truncate_ellipsis
  target_lines [] = []
  target_lines (t ∷ ts) = (lit "  " ++ truncate_ellipsis t.value 200) ∷ target_lines ts

  targets_str : List AuditTarget → Text
  unfolding target_lines truncate_ellipsis join
  targets_str [] = lit "Targets: (none)"
  targets_str (t ∷ []) = lit "Targets: " ++ truncate_ellipsis t.value 200
  targets_str (t ∷ u ∷ ts) = join (b'\n' ∷ []) (lit "Targets:" ∷ target_lines (t ∷ u ∷ ts))

  unfoldable pub build_confirmation_message :
      (tool action : String) (parameters : Fields) (targets : List AuditTarget)
      (justification : Text) (identity : IdentitySnapshot)
      → Text
  unfolding action_str targets_str truncate_ellipsis display_prompt
  build_confirmation_message tool action parameters targets justification identity =
      join (b'\n' ∷ []) (
        lit "Confirm destructive Microsoft Defender action"
        ∷ (lit "Tool:    " ++ lit tool)
        ∷ (lit "Action:  " ++ action_str action parameters)
        ∷ targets_str targets
        ∷ (lit "Reason:  " ++ truncate_ellipsis justification 200)
        ∷ (lit "Acting as: " ++ display_prompt identity)
        ∷ lit "This request was generated by an AI agent. Approve only if you intended it."
        ∷ [])

-- The elicitation modes that a client declares.
pub data ElicitationMode : Type 0 where
  form url : ElicitationMode

abbrev is_form : ElicitationMode → Bool
is_form form = true
is_form url = false

unfoldable pub check_elicitation_mode_supported : List ElicitationMode → Bool
check_elicitation_mode_supported modes = any is_form modes

-- What the client answers to the form.
pub data ElicitationAction : Type 0 where
  accept decline cancel : ElicitationAction

-- A content that is not an object is as none: it has no `confirm`.
pub record ElicitResult : Type 0 where
  pub action : ElicitationAction
  pub content : Option Fields

abbrev confirm_of : Option Fields → ConfirmationOutcome
confirm_of none = declined
confirm_of (some content) =
    let confirmed : Bool =
      unwrap_or false (elim (get_field "confirm" content) [ none ↦ none | some v ↦ as_bool v ]) in
    if confirmed then accepted else declined

abbrev outcome_of : ElicitationAction → Option Fields → ConfirmationOutcome
outcome_of accept content = confirm_of content
outcome_of _ content = declined

unfoldable pub map_elicitation_result : {E : Type 0} → Result ElicitResult E → ConfirmationOutcome
map_elicitation_result (ok res) = outcome_of res.action res.content
map_elicitation_result (err e) = declined
