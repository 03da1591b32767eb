-- ===== src/Inputs/Triage.antt =====
-- The inputs of `defender_triage` and their spellings in the upstream requests (src/server.rs).
pub mod Wire
use microsoft_defender_mcp.Prelude.{
  ℕ, zero, suc, ◌+◌, ◌-◌, ◌*◌, ◌/◌, ◌%◌, ◌≤◌, ◌<◌, String, ◌≡◌, refl, sym, ap, ◌∙◌, ◌≢◌, ◌↔◌, ◌⊎◌,
  inl, inr, Bool, true, false, ◌&&◌, ◌||◌, not, Option, none, some, List, [], ◌∷◌, ◌++◌, map,
  append-nil, append_assoc, arith, str_eq, eq_iff, ltb, leb, ◌==◌, if◌then◌else◌, ==_iff, leb→le,
  Bool-cases, Option-cases, Result, ok, err, refuse, map_err, is_ok, ok_or, unwrap_or, length, take,
  any, all, is_empty, All, Any, length-append, All-append, any-eq-false_iff, all-eq-true_iff,
  All-map,
}
use microsoft_defender_mcp.Inputs.ClosedEnum.{
  closed_enum, RoundTrips, closed_enum_iff, name_injective,
}
use microsoft_defender_mcp.Json.{ErrorData, invalid_params}
use microsoft_defender_mcp.Text.{Text, lit}

pub data TriageTarget : Type 0 where
  mde_alert_patch mde_alert_batch xdr_alert xdr_incident : TriageTarget

pub data TriageStatus : Type 0 where
  new in_progress resolved active redirected : TriageStatus

unfoldable pub status_str : TriageStatus → String
status_str new = "new"
status_str in_progress = "inProgress"
status_str resolved = "resolved"
status_str active = "active"
status_str redirected = "redirected"

abbrev unsupported : TriageStatus → String → Result String ErrorData
unsupported s valid = err (invalid_params (lit "status '" ++ (lit (status_str s) ++ lit valid)))

abbrev mde_status : TriageStatus → Result String ErrorData
mde_status new = ok "New"
mde_status in_progress = ok "InProgress"
mde_status resolved = ok "Resolved"
mde_status s =
    unsupported s "' is not supported for endpoint alerts; valid: new, inProgress, resolved"

abbrev xdr_alert_status : TriageStatus → Result String ErrorData
xdr_alert_status new = ok "new"
xdr_alert_status in_progress = ok "inProgress"
xdr_alert_status resolved = ok "resolved"
xdr_alert_status s =
    unsupported s "' is not supported for XDR alerts; valid: new, inProgress, resolved"

abbrev xdr_incident_status : TriageStatus → Result String ErrorData
xdr_incident_status active = ok "active"
xdr_incident_status in_progress = ok "inProgress"
xdr_incident_status resolved = ok "resolved"
xdr_incident_status redirected = ok "redirected"
xdr_incident_status new = err (
    invalid_params (
      lit
        "status 'new' is not supported for XDR incidents; valid: active, inProgress, resolved, redirected"))

unfoldable pub status_wire : TriageStatus → TriageTarget → Result String ErrorData
status_wire s mde_alert_patch = mde_status s
status_wire s mde_alert_batch = mde_status s
status_wire s xdr_alert = xdr_alert_status s
status_wire s xdr_incident = xdr_incident_status s

abbrev pub statuses : List TriageStatus
statuses = new ∷ in_progress ∷ resolved ∷ active ∷ redirected ∷ []

unfoldable pub read_status : String → Result TriageStatus Text
unfolding closed_enum status_str
read_status = closed_enum status_str "status" statuses

pub data Classification : Type 0 where
  true_positive informational_expected_activity false_positive : Classification

unfoldable pub classification_str : Classification → String
classification_str true_positive = "truePositive"
classification_str informational_expected_activity = "informationalExpectedActivity"
classification_str false_positive = "falsePositive"

abbrev mde_classification : Classification → String
mde_classification true_positive = "TruePositive"
mde_classification informational_expected_activity = "InformationalExpectedActivity"
mde_classification false_positive = "FalsePositive"

unfoldable pub classification_wire : TriageTarget → Classification → String
unfolding classification_str
classification_wire mde_alert_patch c = mde_classification c
classification_wire mde_alert_batch c = mde_classification c
classification_wire xdr_alert c = classification_str c
classification_wire xdr_incident c = classification_str c

abbrev pub classifications : List Classification
classifications = true_positive ∷ informational_expected_activity ∷ false_positive ∷ []

unfoldable pub read_classification : String → Result Classification Text
unfolding closed_enum classification_str
read_classification = closed_enum classification_str "classification" classifications

pub data Determination : Type 0 where
  multi_staged_attack malicious_user_activity compromised_account malware : Determination
  phishing unwanted_software security_testing line_of_business_application : Determination
  confirmed_activity not_malicious not_enough_data_to_validate other : Determination

-- The derived equality compares discriminants.
unfoldable pub discriminant : Determination → ℕ
discriminant multi_staged_attack = 0
discriminant malicious_user_activity = 1
discriminant compromised_account = 2
discriminant malware = 3
discriminant phishing = 4
discriminant unwanted_software = 5
discriminant security_testing = 6
discriminant line_of_business_application = 7
discriminant confirmed_activity = 8
discriminant not_malicious = 9
discriminant not_enough_data_to_validate = 10
discriminant other = 11

unfoldable pub determination_str : Determination → String
determination_str multi_staged_attack = "multiStagedAttack"
determination_str malicious_user_activity = "maliciousUserActivity"
determination_str compromised_account = "compromisedAccount"
determination_str malware = "malware"
determination_str phishing = "phishing"
determination_str unwanted_software = "unwantedSoftware"
determination_str security_testing = "securityTesting"
determination_str line_of_business_application = "lineOfBusinessApplication"
determination_str confirmed_activity = "confirmedActivity"
determination_str not_malicious = "notMalicious"
determination_str not_enough_data_to_validate = "notEnoughDataToValidate"
determination_str other = "other"

unfoldable pub allowed_for : Classification → List Determination
allowed_for true_positive =
    multi_staged_attack ∷ malicious_user_activity ∷ compromised_account ∷ malware ∷ phishing
    ∷ unwanted_software ∷ other ∷ []
allowed_for informational_expected_activity =
    security_testing ∷ line_of_business_application ∷ confirmed_activity ∷ other ∷ []
allowed_for false_positive = not_malicious ∷ not_enough_data_to_validate ∷ other ∷ []

abbrev mde_determination : Determination → String
mde_determination multi_staged_attack = "MultiStagedAttack"
mde_determination malicious_user_activity = "MaliciousUserActivity"
mde_determination compromised_account = "CompromisedUser"
mde_determination malware = "Malware"
mde_determination phishing = "Phishing"
mde_determination unwanted_software = "UnwantedSoftware"
mde_determination security_testing = "SecurityTesting"
mde_determination line_of_business_application = "LineOfBusinessApplication"
mde_determination confirmed_activity = "ConfirmedActivity"
mde_determination not_malicious = "NotMalicious"
mde_determination not_enough_data_to_validate = "InsufficientData"
mde_determination other = "Other"

abbrev mde_batch_determination : Determination → String
mde_batch_determination confirmed_activity = "ConfirmedUserActivity"
mde_batch_determination not_malicious = "Clean"
mde_batch_determination d = mde_determination d

unfoldable pub determination_wire : TriageTarget → Determination → String
unfolding determination_str
determination_wire mde_alert_patch d = mde_determination d
determination_wire mde_alert_batch d = mde_batch_determination d
determination_wire xdr_alert d = determination_str d
determination_wire xdr_incident d = determination_str d

abbrev pub determinations : List Determination
determinations =
    multi_staged_attack ∷ malicious_user_activity ∷ compromised_account ∷ malware ∷ phishing
    ∷ unwanted_software ∷ security_testing ∷ line_of_business_application ∷ confirmed_activity
    ∷ not_malicious ∷ not_enough_data_to_validate ∷ other ∷ []

unfoldable pub read_determination : String → Result Determination Text
unfolding closed_enum determination_str
read_determination = closed_enum determination_str "determination" determinations

pub record TriageInput : Type 0 where
  pub action : String
  pub justification : Option Text
  pub id : Option Text
  pub ids : Option (List Text)
  pub status : Option TriageStatus
  pub assigned_to : Option Text
  pub classification : Option Classification
  pub determination : Option Determination
  pub tags : Option (List Text)
  pub comment : Option Text
