-- ===== src/Server/Reads/Reach/Vulnerabilities.antt =====
-- What `defender_vulnerabilities` of src/server.rs reaches.
use microsoft_defender_mcp.Prelude.{false, refuse, All}
use microsoft_defender_mcp.Client.{Client}
use microsoft_defender_mcp.Inputs.Args.{Misfit}
use microsoft_defender_mcp.Inputs.Tools.{VulnerabilitiesInput}
use microsoft_defender_mcp.Server.Reads.{Planned, serve}
use microsoft_defender_mcp.Server.Reads.Reach.Devices.{
  defender_endpoint_exposure_score-Bounded,
  defender_endpoint_exposure_score_by_machine_groups-Bounded,
  defender_endpoint_recommendation_by_software-Bounded,
  defender_endpoint_recommendation_get-Bounded, defender_endpoint_recommendation_list-Bounded,
  defender_endpoint_recommendation_machines-Bounded,
  defender_endpoint_recommendation_vulnerabilities-Bounded,
  defender_endpoint_remediation_exposed_devices-Bounded, defender_endpoint_remediation_get-Bounded,
  defender_endpoint_remediation_list-Bounded, defender_endpoint_software_distribution-Bounded,
  defender_endpoint_software_get-Bounded, defender_endpoint_software_list-Bounded,
  defender_endpoint_software_machines-Bounded, defender_endpoint_software_missing_kbs-Bounded,
  defender_endpoint_software_vulnerabilities-Bounded,
  defender_endpoint_vulnerability_get_by_cve-Bounded,
  defender_endpoint_vulnerability_get_by_machine_software-Bounded,
  defender_endpoint_vulnerability_get_machines-Bounded,
  defender_endpoint_vulnerability_list-Bounded,
}
use microsoft_defender_mcp.Server.Reads.Safe.{Reaches, Bounded}
use microsoft_defender_mcp.Server.Reads.Scope.{ReadConfig}
use microsoft_defender_mcp.Server.Reads.Scoped.{serve-Reaches}
use microsoft_defender_mcp.Server.Reads.Steps.{
  Each, no_more, ◌also◌, Bounded-err, Bounded-after, call_action-Bounded, select_action-Bounded,
}
use microsoft_defender_mcp.Server.Reads.Vulnerabilities.{
  defender_vulnerabilities, vulnerabilities_action_table, no_parameters,
}
use microsoft_defender_mcp.Server.Tools.{Libraries}
use microsoft_defender_mcp.Text.{Text}

module _ (libraries : Libraries) (explain : Misfit → Text) (config : ReadConfig)
    (input : VulnerabilitiesInput) where
  no_parameters-Bounded :
      (plan : Planned)
      → Bounded false plan
      → Bounded false (no_parameters libraries explain config input plan)
  no_parameters-Bounded plan k = Bounded-after false (refuse _ _) plan k

  defender_vulnerabilities-Each :
      Each (λ _. false) (vulnerabilities_action_table libraries explain config input)
  defender_vulnerabilities-Each =
      call_action-Bounded _ explain _ _ (defender_endpoint_software_list-Bounded libraries _)
      also call_action-Bounded _ explain _ _ (defender_endpoint_software_get-Bounded libraries _)
      also call_action-Bounded _ explain _ _
          (defender_endpoint_software_machines-Bounded libraries _)
      also call_action-Bounded _ explain _ _
          (defender_endpoint_software_vulnerabilities-Bounded libraries _)
      also call_action-Bounded _ explain _ _
          (defender_endpoint_software_missing_kbs-Bounded libraries _)
      also call_action-Bounded _ explain _ _
          (defender_endpoint_software_distribution-Bounded libraries _)
      also call_action-Bounded _ explain _ _
          (defender_endpoint_vulnerability_list-Bounded libraries _)
      also call_action-Bounded _ explain _ _
          (defender_endpoint_vulnerability_get_by_cve-Bounded libraries _)
      also call_action-Bounded _ explain _ _
          (defender_endpoint_vulnerability_get_machines-Bounded libraries _)
      also call_action-Bounded _ explain _ _
          (defender_endpoint_vulnerability_get_by_machine_software-Bounded libraries _)
      also call_action-Bounded _ explain _ _
          (defender_endpoint_recommendation_list-Bounded libraries _)
      also call_action-Bounded _ explain _ _
          (defender_endpoint_recommendation_get-Bounded libraries _)
      also call_action-Bounded _ explain _ _
          (defender_endpoint_recommendation_machines-Bounded libraries _)
      also call_action-Bounded _ explain _ _
          (defender_endpoint_recommendation_vulnerabilities-Bounded libraries _)
      also call_action-Bounded _ explain _ _
          (defender_endpoint_recommendation_by_software-Bounded libraries _)
      also call_action-Bounded _ explain _ _
          (defender_endpoint_remediation_list-Bounded libraries _)
      also call_action-Bounded _ explain _ _ (defender_endpoint_remediation_get-Bounded libraries _)
      also call_action-Bounded _ explain _ _
          (defender_endpoint_remediation_exposed_devices-Bounded libraries _)
      also no_parameters-Bounded _ (defender_endpoint_exposure_score-Bounded libraries _)
      also no_parameters-Bounded _
          (defender_endpoint_exposure_score_by_machine_groups-Bounded libraries _)
      also no_more

  -- Every request that `defender_vulnerabilities` makes has a path each of whose segments names a child, so that no
  -- value of the input leads elsewhere, and is under a category of reads:
  -- the tool has no action that needs a write-named scope.
  pub defender_vulnerabilities-Reaches :
      (client : Client)
      → All
          (Reaches false)
          (serve client (defender_vulnerabilities libraries explain config input)).1
  unfolding defender_vulnerabilities
  defender_vulnerabilities-Reaches client = serve-Reaches _ client _ (
      select_action-Bounded (λ _. false) input.action
        (vulnerabilities_action_table libraries explain config input) _
        defender_vulnerabilities-Each (Bounded-err _ _))
