-- ===== src/Auth/Identity.antt =====
-- Who acts, and under which permission (src/auth.rs, src/auth/session.rs).
use microsoft_defender_mcp.Prelude.{false, String, ◌++◌, Bool}
use microsoft_defender_mcp.Text.{Text, lit}

pub data AuthKind : Type 0 where
  app user : AuthKind

pub data IdentitySnapshot : Type 0 where
  app : (client_id : Text) → IdentitySnapshot
  user : (account tenant_id : Text) → IdentitySnapshot

unfoldable pub display_prompt : IdentitySnapshot → Text
display_prompt (IdentitySnapshot.app client_id) = lit "application " ++ (client_id ++ lit " (app)")
display_prompt (IdentitySnapshot.user account tenant_id) = account ++ lit " (user)"

unfoldable pub display_summary : IdentitySnapshot → Text
display_summary (IdentitySnapshot.app client_id) = lit "app:" ++ client_id
display_summary (IdentitySnapshot.user account tenant_id) = lit "user:" ++ account

pub data PermissionCategory : Type 0 where
  read_endpoint read_graph read_write_named live_response device_response : PermissionCategory
  offboarding indicators triage : PermissionCategory

unfoldable pub wire_name : PermissionCategory → String
wire_name read_endpoint = "read_endpoint"
wire_name read_graph = "read_graph"
wire_name read_write_named = "read_write_named"
wire_name live_response = "live_response"
wire_name device_response = "device_response"
wire_name offboarding = "offboarding"
wire_name indicators = "indicators"
wire_name triage = "triage"

unfoldable pub category_name : PermissionCategory → String
category_name read_endpoint = "Read (endpoint)"
category_name read_graph = "Read (Graph)"
category_name read_write_named = "Reads needing write-named scopes"
category_name live_response = "Live Response"
category_name device_response = "Device response"
category_name offboarding = "Offboarding"
category_name indicators = "Indicators"
category_name triage = "Triage"

unfoldable pub category_audience : PermissionCategory → String
category_audience read_graph = "graph"
category_audience triage = "graph"
category_audience _ = "endpoint"

unfoldable pub delegated_scope : PermissionCategory → String
delegated_scope read_endpoint = "the *.Read equivalents, plus User.Read.All"
delegated_scope read_graph =
    "ThreatHunting.Read.All, ThreatIntelligence.Read.All, SecurityAlert.Read.All, SecurityIncident.Read.All"
delegated_scope read_write_named =
    "Machine.ReadWrite, Alert.ReadWrite, Ti.ReadWrite, Library.Manage"
delegated_scope live_response =
    "Machine.LiveResponse, Machine.CollectForensics, Machine.StopAndQuarantine, Library.Manage"
delegated_scope device_response =
    "Machine.Isolate, Machine.RestrictExecution, Machine.Scan, Machine.ReadWrite, Alert.ReadWrite"
delegated_scope offboarding = "Machine.Offboard"
delegated_scope indicators = "Ti.ReadWrite"
delegated_scope triage =
    "Alert.ReadWrite, SecurityAlert.ReadWrite.All, SecurityIncident.ReadWrite.All"

unfoldable pub defender_role : PermissionCategory → String
defender_role read_endpoint = "View data"
defender_role read_graph = "Entra Security Reader, or a Unified RBAC role with equivalent read"
defender_role read_write_named = "View data"
defender_role live_response =
    "Live response capabilities; Alerts investigation; Active remediation actions"
defender_role device_response =
    "Active remediation actions (isolate, restrict, scan, investigate); Manage security settings (tags, device value)"
defender_role offboarding = "Per Permission options"
defender_role indicators = "Active remediation actions (manage indicators)"
defender_role triage = "Alerts investigation; Entra Security Operator"

unfoldable pub is_app_only : PermissionCategory → Bool
is_app_only _ = false
