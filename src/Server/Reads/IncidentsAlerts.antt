-- ===== src/Server/Reads/IncidentsAlerts.antt =====
-- `defender_incidents_alerts` of src/server.rs.
use microsoft_defender_mcp.Prelude.{String, List, [], ◌∷◌, err}
use microsoft_defender_mcp.Error.{unknown_action_error}
use microsoft_defender_mcp.Inputs.Args.{Args, Misfit, rename_arg}
use microsoft_defender_mcp.Inputs.Reads.{
  read_id, read_named, read_odata_list, read_endpoint_odata, read_incident,
}
use microsoft_defender_mcp.Inputs.Tools.{IncidentsAlertsInput, incidents_alerts_args}
use microsoft_defender_mcp.Server.Reads.{Planned, call_action, select_action}
use microsoft_defender_mcp.Server.Reads.Entities.{
  defender_endpoint_alert_get, defender_endpoint_alert_list,
  defender_endpoint_domain_related_alerts, defender_endpoint_file_related_alerts,
  defender_endpoint_ip_related_alerts, defender_endpoint_user_related_alerts,
  defender_xdr_alert_get, defender_xdr_alert_list, defender_xdr_incident_get,
  defender_xdr_incident_list,
}
use microsoft_defender_mcp.Server.Reads.Scope.{ReadConfig, unless_blocked}
use microsoft_defender_mcp.Server.Tools.{Libraries}
use microsoft_defender_mcp.Text.{Text}

abbrev pub incidents_alerts_actions : List String
incidents_alerts_actions =
    "xdr_alert_list" ∷ "xdr_alert_get" ∷ "xdr_incident_list" ∷ "xdr_incident_get"
    ∷ "endpoint_alert_list" ∷ "endpoint_alert_get" ∷ "ip_related_alerts" ∷ "domain_related_alerts"
    ∷ "file_related_alerts" ∷ "user_related_alerts" ∷ []

module _ (libraries : Libraries) (explain : Misfit → Text) (config : ReadConfig)
    (input : IncidentsAlertsInput) where
  abbrev args : Args
  args = incidents_alerts_args input

  abbrev pub incidents_alerts_action_table : List (String × Planned)
  incidents_alerts_action_table =
      (
        "xdr_alert_list",
        call_action explain (read_odata_list args) (defender_xdr_alert_list libraries),
      )
      ∷ (
        "xdr_alert_get",
        call_action explain (read_id "alert_id" args) (defender_xdr_alert_get libraries),
      )
      ∷ (
        "xdr_incident_list",
        call_action explain (read_odata_list args) (defender_xdr_incident_list libraries),
      )
      ∷ (
        "xdr_incident_get",
        call_action explain (read_incident args) (defender_xdr_incident_get libraries),
      )
      ∷ (
        "endpoint_alert_list",
        call_action explain (read_endpoint_odata args) (defender_endpoint_alert_list libraries),
      )
      ∷ (
        "endpoint_alert_get",
        call_action explain (read_id "alert_id" args) (defender_endpoint_alert_get libraries),
      )
      ∷ (
        "ip_related_alerts",
        call_action explain (read_named "ip_address" (rename_arg "id" "ip_address" args))
            (defender_endpoint_ip_related_alerts libraries),
      )
      ∷ (
        "domain_related_alerts",
        call_action explain (read_named "domain_name" (rename_arg "id" "domain_name" args))
            (defender_endpoint_domain_related_alerts libraries),
      )
      ∷ (
        "file_related_alerts",
        call_action explain (read_named "file_sha1" (rename_arg "id" "file_sha1" args))
            (defender_endpoint_file_related_alerts libraries),
      )
      ∷ (
        "user_related_alerts",
        call_action explain (read_named "user_id" (rename_arg "id" "user_id" args))
            (defender_endpoint_user_related_alerts libraries),
      )
      ∷ []

  unfoldable pub defender_incidents_alerts : Planned
  defender_incidents_alerts = unless_blocked config input.action (
      select_action input.action incidents_alerts_action_table (
        err
          (unknown_action_error "defender_incidents_alerts" input.action incidents_alerts_actions)))
