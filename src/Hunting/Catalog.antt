-- ===== src/Hunting/Catalog.antt =====
-- The Advanced Hunting tables that the server knows (src/hunting/catalog.rs).
use microsoft_defender_mcp.Prelude.{
  ℕ, ◌+◌, String, Bool, Option, none, some, List, [], ◌∷◌, map, str_eq, if◌then◌else◌,
}
use microsoft_defender_mcp.Inputs.Args.{before}
use microsoft_defender_mcp.Json.{Json, Fields, obj, end, field, str, arr, null}
use microsoft_defender_mcp.Server.Tools.{texts}
use microsoft_defender_mcp.Text.{Text, lit, text_eq, between}

pub record Table : Type 0 where
  pub name : String
  pub kind : String
  pub time : Option String
  pub tags : List String
  pub entities : List (String × String)

-- `Map::insert`, on texts, with the keys in their order.
unfoldable insert_text : String → String → Fields → Fields
unfolding before
insert_text key v end = field key (str (lit v)) end
insert_text key v (field k w fs) =
    let rest = insert_text key v fs in
    if str_eq key k
    then field key (str (lit v)) fs
    else if before (lit key) (lit k)
    then field key (str (lit v)) (field k w fs)
    else field k w rest

unfoldable insert_texts : List (String × String) → Fields → Fields
unfolding insert_text
insert_texts [] fs = fs
insert_texts ((k, v) ∷ es) fs = insert_texts es (insert_text k v fs)

abbrev pub text_or_null : Option String → Json
text_or_null none = null
text_or_null (some s) = str (lit s)

-- The fields of a table in the order of their keys, with or without its tags.
unfoldable pub table_fields : Table → (tags : Fields → Fields) → Fields
unfolding insert_texts
table_fields t tags = field "entities" (obj (insert_texts t.entities end)) (
    field "kind" (str (lit t.kind))
      (field "name" (str (lit t.name)) (tags (field "timeColumn" (text_or_null t.time) end))))

-- `Table::to_json`
unfoldable pub table_json : Table → Json
unfolding table_fields
table_json t = obj (table_fields t (field "tags" (arr (texts (map lit t.tags)))))

abbrev ev : String → (tags : List String) → List (String × String) → Table
ev name tags entities = record {
  name = name;
  kind = "raw_event";
  time = some "Timestamp";
  tags = tags;
  entities = entities;
}

abbrev alert : String → List (String × String) → Table
alert name entities = record {
  name = name;
  kind = "alert";
  time = some "Timestamp";
  tags = "alert" ∷ [];
  entities = entities;
}

abbrev state : String → Option String → (tags : List String) → List (String × String) → Table
state name time tags entities = record {
  name = name;
  kind = "inventory";
  time = time;
  tags = tags;
  entities = entities;
}

abbrev device : String × String
device = ("device", "DeviceName")

unfoldable pub catalog : List Table
catalog =
    ev "DeviceEvents" ("endpoint" ∷ "process" ∷ "security_event" ∷ []) (
      device
      ∷ ("user", "InitiatingProcessAccountUpn")
      ∷ ("file_hash", "SHA256")
      ∷ ("ip", "RemoteIP")
      ∷ [])
    ∷ ev "DeviceFileCertificateInfo" ("endpoint" ∷ "file" ∷ "certificate" ∷ [])
        (device ∷ ("file_hash", "SHA1") ∷ [])
    ∷ ev "DeviceFileEvents" ("endpoint" ∷ "file" ∷ [])
        (device ∷ ("user", "InitiatingProcessAccountUpn") ∷ ("file_hash", "SHA256") ∷ [])
    ∷ ev "DeviceImageLoadEvents" ("endpoint" ∷ "module" ∷ "process" ∷ [])
        (device ∷ ("user", "InitiatingProcessAccountUpn") ∷ ("file_hash", "SHA256") ∷ [])
    ∷ ev "DeviceLogonEvents" ("endpoint" ∷ "logon" ∷ "authentication" ∷ [])
        (device ∷ ("user", "AccountName") ∷ ("ip", "RemoteIP") ∷ [])
    ∷ ev "DeviceNetworkEvents" ("endpoint" ∷ "network" ∷ []) (
        device
        ∷ ("user", "InitiatingProcessAccountUpn")
        ∷ ("ip", "RemoteIP")
        ∷ ("url", "RemoteUrl")
        ∷ [])
    ∷ ev "DeviceProcessEvents" ("endpoint" ∷ "process" ∷ [])
        (device ∷ ("user", "AccountUpn") ∷ ("file_hash", "SHA256") ∷ ("process", "FileName") ∷ [])
    ∷ ev "DeviceRegistryEvents" ("endpoint" ∷ "registry" ∷ [])
        (device ∷ ("user", "InitiatingProcessAccountUpn") ∷ [])
    ∷ state "DeviceInfo" (some "Timestamp") ("endpoint" ∷ "inventory" ∷ "device" ∷ []) (device ∷ [])
    ∷ state "DeviceNetworkInfo" (some "Timestamp") ("endpoint" ∷ "inventory" ∷ "network" ∷ [])
        (device ∷ [])
    ∷ state "DeviceTvmSoftwareInventory" none ("vulnerability" ∷ "inventory" ∷ "software" ∷ [])
        (device ∷ [])
    ∷ state "DeviceTvmSoftwareVulnerabilities" none ("vulnerability" ∷ "inventory" ∷ "cve" ∷ [])
        (device ∷ [])
    ∷ state "DeviceTvmSoftwareVulnerabilitiesKB" none
        ("vulnerability" ∷ "knowledge_base" ∷ "cve" ∷ []) []
    ∷ state "DeviceTvmSecureConfigurationAssessment" (some "Timestamp")
        ("vulnerability" ∷ "configuration" ∷ []) (device ∷ [])
    ∷ state "DeviceTvmSecureConfigurationAssessmentKB" none
        ("vulnerability" ∷ "knowledge_base" ∷ "configuration" ∷ []) []
    ∷ alert "AlertEvidence" (
        device
        ∷ ("user", "AccountUpn")
        ∷ ("ip", "RemoteIP")
        ∷ ("file_hash", "SHA256")
        ∷ ("url", "RemoteUrl")
        ∷ [])
    ∷ alert "AlertInfo" []
    ∷ alert "BehaviorEntities" (device ∷ ("user", "AccountUpn") ∷ ("ip", "RemoteIP") ∷ [])
    ∷ alert "BehaviorInfo" []
    ∷ ev "EmailAttachmentInfo" ("email" ∷ "file" ∷ [])
        (("email", "RecipientEmailAddress") ∷ ("file_hash", "SHA256") ∷ [])
    ∷ ev "EmailEvents" ("email" ∷ []) (("email", "RecipientEmailAddress") ∷ [])
    ∷ ev "EmailPostDeliveryEvents" ("email" ∷ []) (("email", "RecipientEmailAddress") ∷ [])
    ∷ ev "EmailUrlInfo" ("email" ∷ "url" ∷ []) (("url", "Url") ∷ [])
    ∷ ev "UrlClickEvents" ("email" ∷ "url" ∷ [])
        (("user", "AccountUpn") ∷ ("url", "Url") ∷ ("ip", "IPAddress") ∷ [])
    ∷ ev "IdentityDirectoryEvents" ("identity" ∷ "directory" ∷ [])
        (("user", "AccountUpn") ∷ device ∷ ("ip", "IPAddress") ∷ [])
    ∷ state "IdentityInfo" (some "Timestamp") ("identity" ∷ "inventory" ∷ [])
        (("user", "AccountUpn") ∷ [])
    ∷ ev "IdentityLogonEvents" ("identity" ∷ "logon" ∷ "authentication" ∷ [])
        (("user", "AccountUpn") ∷ device ∷ ("ip", "IPAddress") ∷ [])
    ∷ ev "IdentityQueryEvents" ("identity" ∷ "directory" ∷ "query" ∷ [])
        (("user", "AccountUpn") ∷ device ∷ ("ip", "IPAddress") ∷ [])
    ∷ ev "AADSignInEventsBeta" ("identity" ∷ "logon" ∷ "cloud" ∷ [])
        (("user", "AccountUpn") ∷ ("ip", "IPAddress") ∷ [])
    ∷ ev "AADSpnSignInEventsBeta" ("identity" ∷ "logon" ∷ "cloud" ∷ "service_principal" ∷ [])
        (("ip", "IPAddress") ∷ [])
    ∷ ev "EntraIdSignInEvents" ("identity" ∷ "logon" ∷ "cloud" ∷ [])
        (("user", "AccountUpn") ∷ ("ip", "IPAddress") ∷ [])
    ∷ ev "EntraIdSpnSignInEvents" ("identity" ∷ "logon" ∷ "cloud" ∷ "service_principal" ∷ [])
        (("ip", "IPAddress") ∷ [])
    ∷ ev "CloudAppEvents" ("cloud" ∷ "saas" ∷ [])
        (("user", "AccountObjectId") ∷ ("ip", "IPAddress") ∷ [])
    ∷ ev "CloudAuditEvents" ("cloud" ∷ "audit" ∷ []) (("ip", "IPAddress") ∷ [])
    ∷ ev "CloudProcessEvents" ("cloud" ∷ "process" ∷ "container" ∷ [])
        (("process", "FileName") ∷ [])
    ∷ state "ExposureGraphEdges" none ("exposure" ∷ "graph" ∷ []) []
    ∷ state "ExposureGraphNodes" none ("exposure" ∷ "graph" ∷ []) []
    ∷ []

abbrev first_table : (Table → Bool) → List Table → Option Table
first_table p [] = none
first_table p (t ∷ ts) = if p t then some t else first_table p ts

-- `catalog::find`
unfoldable pub find_table : Text → Option Table
unfolding catalog
find_table name = first_table (λ t. text_eq (lit t.name) name) catalog

abbrev pub ascii_lower : ℕ → ℕ
ascii_lower c = if between b'A' b'Z' c then c + 32 else c

-- `catalog::find_ignoring_case`
unfoldable pub find_ignoring_case : Text → Option Table
unfolding catalog
find_ignoring_case name =
    first_table (λ t. text_eq (map ascii_lower (lit t.name)) (map ascii_lower name)) catalog
