-- ===== src/Server/Reads/Reach/IncidentsAlerts.antt =====
-- What `defender_incidents_alerts` of src/server.rs reaches.
use microsoft_defender_mcp.Prelude.{All}
use microsoft_defender_mcp.Client.{Client}
use microsoft_defender_mcp.Inputs.Args.{Misfit}
use microsoft_defender_mcp.Inputs.Tools.{IncidentsAlertsInput}
use microsoft_defender_mcp.Server.Reads.{serve}
use microsoft_defender_mcp.Server.Reads.IncidentsAlerts.{
  defender_incidents_alerts, incidents_alerts_action_table,
}
use microsoft_defender_mcp.Server.Reads.Reach.Entities.{
  defender_endpoint_alert_get-Bounded, defender_endpoint_alert_list-Bounded,
  defender_endpoint_domain_related_alerts-Bounded, defender_endpoint_file_related_alerts-Bounded,
  defender_endpoint_ip_related_alerts-Bounded, defender_endpoint_user_related_alerts-Bounded,
  defender_xdr_alert_get-Bounded, defender_xdr_alert_list-Bounded,
  defender_xdr_incident_get-Bounded, defender_xdr_incident_list-Bounded,
}
use microsoft_defender_mcp.Server.Reads.Safe.{Reaches}
use microsoft_defender_mcp.Server.Reads.Scope.{ReadConfig}
use microsoft_defender_mcp.Server.Reads.Scoped.{
  needs_scope, scope_requested, unless_blocked-Bounded, serve-Reaches,
}
use microsoft_defender_mcp.Server.Reads.Steps.{
  Each, no_more, ◌also◌, Bounded-err, call_action-Bounded, select_action-Bounded,
}
use microsoft_defender_mcp.Server.Tools.{Libraries}
use microsoft_defender_mcp.Text.{Text}

module _ (libraries : Libraries) (explain : Misfit → Text) (config : ReadConfig)
    (input : IncidentsAlertsInput) where
  defender_incidents_alerts-Each :
      Each needs_scope (incidents_alerts_action_table libraries explain config input)
  defender_incidents_alerts-Each =
      call_action-Bounded _ explain _ _ (defender_xdr_alert_list-Bounded libraries _)
      also call_action-Bounded _ explain _ _ (defender_xdr_alert_get-Bounded libraries _)
      also call_action-Bounded _ explain _ _ (defender_xdr_incident_list-Bounded libraries _)
      also call_action-Bounded _ explain _ _ (defender_xdr_incident_get-Bounded libraries _)
      also call_action-Bounded _ explain _ _ (defender_endpoint_alert_list-Bounded libraries _)
      also call_action-Bounded _ explain _ _ (defender_endpoint_alert_get-Bounded libraries _)
      also call_action-Bounded _ explain _ _
          (defender_endpoint_ip_related_alerts-Bounded libraries _)
      also call_action-Bounded _ explain _ _
          (defender_endpoint_domain_related_alerts-Bounded libraries _)
      also call_action-Bounded _ explain _ _
          (defender_endpoint_file_related_alerts-Bounded libraries _)
      also call_action-Bounded _ explain _ _
          (defender_endpoint_user_related_alerts-Bounded libraries _)
      also no_more

  -- Every request that `defender_incidents_alerts` makes has a path each of whose segments names a child, so that no
  -- value of the input leads elsewhere, and is under a category of reads, unless the action is one that
  -- needs a write-named scope and a user did not sign in under `--read-only`.
  pub defender_incidents_alerts-Reaches :
      (client : Client)
      → All
          (Reaches (scope_requested config input.action))
          (serve client (defender_incidents_alerts libraries explain config input)).1
  unfolding defender_incidents_alerts
  defender_incidents_alerts-Reaches client = serve-Reaches _ client _ (
      unless_blocked-Bounded config input.action _ (
        select_action-Bounded needs_scope input.action
          (incidents_alerts_action_table libraries explain config input) _
          defender_incidents_alerts-Each (Bounded-err _ _)))
