-- ===== src/Server/Triage/Rules.antt =====
-- Which fields each triage action takes, and what an update is.
use microsoft_defender_mcp.Prelude.{
  ◌||◌, inl, inr, Option-cases, ℕ, ◌≤◌, String, ◌≡◌, refl, ◌≢◌, ◌↔◌, ◌⊎◌, true, false, Option, none,
  some, List, [], ◌∷◌, arith, str_eq, Result, ok, length, All, >>=-eq-ok,
}
use microsoft_defender_mcp.Inputs.Triage.{TriageInput, TriageStatus, status_wire}
use microsoft_defender_mcp.Inputs.Triage.Wire.{Supports, status_wire_iff}
use microsoft_defender_mcp.Json.{ErrorData}
use microsoft_defender_mcp.Server.Device.{contains_str}
use microsoft_defender_mcp.Server.Device.Rules.{pick}
use microsoft_defender_mcp.Server.Tools.{required, as_tool_error, as_tool_error-ok, check_given}
use microsoft_defender_mcp.Server.Triage.{
  comment_check, triage_actions, unused_triage_field, is_comment_action, triage_target,
  triage_check, validate_tags,
}
use microsoft_defender_mcp.Text.{Text, trim}
use microsoft_defender_mcp.Validation.Indicators.{validate_classification_pair}
use microsoft_defender_mcp.Validation.Indicators.Rules.{Listed, validate_classification_pair_iff}
use microsoft_defender_mcp.Validation.Names.{validate_text}
use microsoft_defender_mcp.Validation.Names.Free.{validate_text_iff}

-- Every field that is given is one that the action takes.
pub record TakesTriageFields (input : TriageInput) : Type 0 where
  pub id : (input.id ≡ none) ⊎ (str_eq input.action "endpoint_alert_batch_update" ≡ false)
  pub ids : (input.ids ≡ none) ⊎ (str_eq input.action "endpoint_alert_batch_update" ≡ true)
  pub tags : (input.tags ≡ none) ⊎ (str_eq input.action "xdr_incident_update" ≡ true)
  pub comment :
      (input.comment ≡ none)
      ⊎ ((str_eq input.action "xdr_alert_update" ≡ false)
          × (str_eq input.action "xdr_incident_update" ≡ false))
  pub status : (input.status ≡ none) ⊎ (is_comment_action input.action ≡ false)
  pub assigned_to : (input.assigned_to ≡ none) ⊎ (is_comment_action input.action ≡ false)
  pub classification : (input.classification ≡ none) ⊎ (is_comment_action input.action ≡ false)
  pub determination : (input.determination ≡ none) ⊎ (is_comment_action input.action ≡ false)

abbrev Agrees : TriageInput → String → Type 0
Agrees input name =
    let named = record input { action = name } in
    (unused_triage_field named ≡ none) ↔ TakesTriageFields named

each-Agrees : (input : TriageInput) → All (Agrees input) triage_actions
unfolding unused_triage_field
each-Agrees input = ground arith

-- A known triage action is refused for an unused field exactly if a field is given that it does not
-- take: `ids` is for the batch update alone, which takes no `id`; `tags` for the incident update
-- alone; a comment for all but the alert and the incident update of XDR; and the status, the owner,
-- the classification and the determination for all but the comment actions.
pub unused_triage_field_iff :
    (input : TriageInput)
    → contains_str triage_actions input.action ≡ true
    → (unused_triage_field input ≡ none) ↔ TakesTriageFields input
unused_triage_field_iff input known =
    pick (Agrees input) triage_actions input.action known (each-Agrees input)

-- A free text, when trimmed, that is not empty and has at most `max` characters.
abbrev pub IsShort : ℕ → Text → Type 0
IsShort max t = (trim t ≢ []) × (length (trim t) ≤ max)

validate_text-IsShort :
    (s : Text) (max : ℕ) (field : String) (t : Text)
    → validate_text s max field ≡ ok t
    → IsShort max s
validate_text-IsShort s max field t e =
    let (same, nonempty, short, _) = (validate_text_iff s max field t).0 e in
    (rw (← same) nonempty, rw (← same) short)

validate_tags_sound : (tags : List Text) → validate_tags tags ≡ ok tt → All (IsShort 128) tags
unfolding validate_tags
validate_tags_sound [] h = tt
validate_tags_sound (t ∷ tags) h =
    let (u, accepted, rest) = >>=-eq-ok _ (validate_text t 128 "tags") h in
    (validate_text-IsShort t 128 "tags" u accepted, validate_tags_sound tags rest)

-- A check of a given value that passes says what it says of the value.
check_given_sound :
    {A B : Type 0} (check : A → Result B ErrorData) (given : Option A) (P : A → Type 0)
    → ((a : A) (b : B) → check a ≡ ok b → P a)
    → check_given check given ≡ ok tt
    → (a : A) → given ≡ some a
    → P a
check_given_sound check none P sound h a e = absurd (cc)
check_given_sound check (some a') P sound h a e =
    let (b, accepted, _) = >>=-eq-ok _ (check a') h in
    let same : a' ≡ a = cc in rw (← same) (sound a' b accepted)

-- What an update says: a determination that is listed for the classification, a status that the
-- target takes, and texts that are not empty and not too long.
pub record IsUpdate (input : TriageInput) : Type 0 where
  pub pair :
      (input.determination ≡ none)
      ⊎ ((k : _) × (e : _) × (input.classification ≡ some k)
          × (input.determination ≡ some e)
          × Listed k e)
  pub status : (s : TriageStatus) → input.status ≡ some s → Supports (triage_target input.action) s
  pub assigned_to : (a : Text) → input.assigned_to ≡ some a → IsShort 256 a
  pub tags : (ts : List Text) → input.tags ≡ some ts → All (IsShort 128) ts

-- The checks of the triage tool pass only an update that is one.
pub triage_check-IsUpdate :
    (input : TriageInput) (comment_res : Result (Unit {0}) ErrorData)
    → triage_check input comment_res ≡ ok tt
    → IsUpdate input × (comment_res ≡ ok tt)
unfolding triage_check
triage_check-IsUpdate input comment_res h =
    let pair = validate_classification_pair input.classification input.determination in
    let assigned = check_given (λ a. validate_text a 256 "assigned_to") input.assigned_to in
    let tagged = check_given validate_tags input.tags in
    let (_, p, h1) = >>=-eq-ok _ (as_tool_error pair) h in
    let (_, a, h2) = >>=-eq-ok _ (as_tool_error assigned) h1 in
    let (_, c, h3) = >>=-eq-ok _ (as_tool_error comment_res) h2 in
    let (_, t, s) = >>=-eq-ok _ (as_tool_error tagged) h3 in
    let (_, p') = as_tool_error-ok pair p in
    let (_, a') = as_tool_error-ok assigned a in
    let (_, c') = as_tool_error-ok comment_res c in
    let (_, t') = as_tool_error-ok tagged t in
    let (_, s') =
      as_tool_error-ok (check_given (λ s. status_wire s (triage_target input.action)) input.status)
        s in
    (
      record {
        pair = (validate_classification_pair_iff input.classification input.determination).0 p';
        status =
            check_given_sound _ input.status (Supports (triage_target input.action))
              (λ v w e. (status_wire_iff (triage_target input.action) v).0 (rw e refl)) s';
        assigned_to =
            check_given_sound _ input.assigned_to (IsShort 256)
              (λ v w e. validate_text-IsShort v 256 "assigned_to" w e) a';
        tags =
            check_given_sound _ input.tags (All (IsShort 128)) (λ v w e. validate_tags_sound v e)
              t';
      },
      c',
    )

-- The comment that an action takes is not empty and has at most 1000 characters.
pub record IsCommented (input : TriageInput) : Type 0 where
  pub needed : is_comment_action input.action ≡ true → (c : Text) × (input.comment ≡ some c)
  pub short : (c : Text) → input.comment ≡ some c → IsShort 1000 c

-- An action that is not one of the two without a comment takes one.
abbrev Comments : String → Type 0
Comments name =
    (str_eq name "xdr_alert_update" ≡ true)
    ⊎ (str_eq name "xdr_incident_update" ≡ true)
    ⊎ (is_comment_action name ≡ true)
    ⊎ ((str_eq name "endpoint_alert_update" || str_eq name "endpoint_alert_batch_update") ≡ true)

each-Comments : All Comments triage_actions
each-Comments = ground arith

takes_comment :
    (input : TriageInput) (c : Text)
    → contains_str triage_actions input.action ≡ true
    → TakesTriageFields input
    → input.comment ≡ some c
    → (is_comment_action input.action ≡ true)
      ⊎ ((str_eq input.action "endpoint_alert_update"
            || str_eq input.action "endpoint_alert_batch_update")
          ≡ true)
takes_comment input c known fields e = elim fields.comment [
  | inl missing ↦ absurd (cc)
  | inr (not_alert, not_incident) ↦
      let comments = pick Comments triage_actions input.action known each-Comments in ground arith
]

checked_comment :
    (input : TriageInput) (c : Text)
    → check_given (λ c. validate_text c 1000 "comment") (some c) ≡ ok tt
    → IsShort 1000 c
checked_comment input c h =
    let (t, accepted, _) = >>=-eq-ok _ (validate_text c 1000 "comment") h in
    validate_text-IsShort c 1000 "comment" t accepted

pub comment_check-IsCommented :
    (input : TriageInput)
    → contains_str triage_actions input.action ≡ true
    → TakesTriageFields input
    → comment_check input ≡ ok (ok tt)
    → IsCommented input
unfolding comment_check required
comment_check-IsCommented input known fields h = record {
  needed = λ comments. elim (Option-cases input.comment) [
    | inr given ↦ given
    | inl missing ↦ absurd (ground arith)
  ];
  short = λ c given. elim (takes_comment input c known fields given) [
    | inl comments ↦ checked_comment input c (ground arith)
    | inr updates ↦ checked_comment input c (ground arith)
  ];
}
