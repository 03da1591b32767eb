-- ===== src/Inputs/Indicator.antt =====
-- The inputs of `defender_indicators` (src/server.rs).
use microsoft_defender_mcp.Prelude.{
  String, ◌≡◌, refl, ◌↔◌, Bool, ◌||◌, Option, List, [], ◌∷◌, ◌++◌, arith, str_eq, if◌then◌else◌,
  Result, ok, err,
}
use microsoft_defender_mcp.Inputs.ClosedEnum.{closed_enum, closed_enum_iff, closed_enum_sound}
use microsoft_defender_mcp.Text.{Text, lit}

pub data IndicatorType : Type 0 where
  file_sha1 file_sha256 file_md5 certificate_thumbprint ip_address domain_name url : IndicatorType

unfoldable pub indicator_type_str : IndicatorType → String
indicator_type_str file_sha1 = "FileSha1"
indicator_type_str file_sha256 = "FileSha256"
indicator_type_str file_md5 = "FileMd5"
indicator_type_str certificate_thumbprint = "CertificateThumbprint"
indicator_type_str ip_address = "IpAddress"
indicator_type_str domain_name = "DomainName"
indicator_type_str url = "Url"

abbrev indicator_types : List IndicatorType
indicator_types =
    file_sha1 ∷ file_sha256 ∷ file_md5 ∷ certificate_thumbprint ∷ ip_address ∷ domain_name ∷ url
    ∷ []

unfoldable pub read_indicator_type : String → Result IndicatorType Text
unfolding closed_enum indicator_type_str
read_indicator_type = closed_enum indicator_type_str "indicator_type" indicator_types

pub data IndicatorAction : Type 0 where
  allowed audit warn block block_and_remediate : IndicatorAction

unfoldable pub indicator_action_str : IndicatorAction → String
indicator_action_str allowed = "Allowed"
indicator_action_str audit = "Audit"
indicator_action_str warn = "Warn"
indicator_action_str block = "Block"
indicator_action_str block_and_remediate = "BlockAndRemediate"

abbrev indicator_actions : List IndicatorAction
indicator_actions = allowed ∷ audit ∷ warn ∷ block ∷ block_and_remediate ∷ []

-- The legacy names are refused with a message of their own.
unfoldable pub read_indicator_action : String → Result IndicatorAction Text
unfolding closed_enum indicator_action_str
read_indicator_action value =
    if str_eq value "Alert" || str_eq value "AlertAndBlock"
    then err (
        lit "indicator_action '"
        ++ (lit value ++ lit "' is legacy, unsupported since January 2022"))
    else closed_enum indicator_action_str "indicator_action" indicator_actions value

pub data IndicatorSeverity : Type 0 where
  informational low medium high : IndicatorSeverity

unfoldable pub severity_str : IndicatorSeverity → String
severity_str informational = "Informational"
severity_str low = "Low"
severity_str medium = "Medium"
severity_str high = "High"

abbrev severities : List IndicatorSeverity
severities = informational ∷ low ∷ medium ∷ high ∷ []

unfoldable pub read_severity : String → Result IndicatorSeverity Text
unfolding closed_enum severity_str
read_severity = closed_enum severity_str "severity" severities

pub record IndicatorsInput : Type 0 where
  pub action : String
  pub comment : Option Text
  pub indicator_value : Option Text
  pub indicator_type : Option IndicatorType
  pub indicator_action : Option IndicatorAction
  pub title : Option Text
  pub description : Option Text
  pub severity : Option IndicatorSeverity
  pub expiration_time : Option Text
  pub rbac_group_names : Option (List Text)
  pub recommended_actions : Option Text
  pub generate_alert : Option Bool
  pub indicator_id : Option Text
  pub indicator_ids : Option (List Text)

indicator_type_trips : (v : IndicatorType) → read_indicator_type (indicator_type_str v) ≡ ok v
unfolding read_indicator_type
indicator_type_trips file_sha1 = refl
indicator_type_trips file_sha256 = refl
indicator_type_trips file_md5 = refl
indicator_type_trips certificate_thumbprint = refl
indicator_type_trips ip_address = refl
indicator_type_trips domain_name = refl
indicator_type_trips url = refl

severity_trips : (v : IndicatorSeverity) → read_severity (severity_str v) ≡ ok v
unfolding read_severity
severity_trips informational = refl
severity_trips low = refl
severity_trips medium = refl
severity_trips high = refl

indicator_action_trips :
    (v : IndicatorAction) → read_indicator_action (indicator_action_str v) ≡ ok v
unfolding read_indicator_action
indicator_action_trips allowed = refl
indicator_action_trips audit = refl
indicator_action_trips warn = refl
indicator_action_trips block = refl
indicator_action_trips block_and_remediate = refl

indicator_action_sound :
    (s : String) (v : IndicatorAction) → read_indicator_action s ≡ ok v → indicator_action_str v ≡ s
unfolding read_indicator_action
indicator_action_sound s v h =
    closed_enum_sound indicator_action_str "indicator_action" indicator_actions s v (ground arith)

-- Each enumeration of the indicators is read exactly from the names of its values: the two legacy
-- action names, `Alert` and `AlertAndBlock`, are read as nothing.
pub indicator_enums_iff :
    ((s : String) (v : IndicatorType) → (read_indicator_type s ≡ ok v) ↔ (indicator_type_str v ≡ s))
    × ((s : String) (v : IndicatorAction)
        → (read_indicator_action s ≡ ok v) ↔ (indicator_action_str v ≡ s))
    × ((s : String) (v : IndicatorSeverity) → (read_severity s ≡ ok v) ↔ (severity_str v ≡ s))
unfolding read_indicator_type read_severity
indicator_enums_iff = (
  closed_enum_iff indicator_type_str "indicator_type" indicator_types indicator_type_trips,
  λ s v. (indicator_action_sound s v, λ e. rw (← e) (indicator_action_trips v)),
  closed_enum_iff severity_str "severity" severities severity_trips,
)
