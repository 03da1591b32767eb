-- ===== src/Server/Reads/Vulnerabilities.antt =====
-- `defender_vulnerabilities` of src/server.rs.
use microsoft_defender_mcp.Prelude.{
  String, true, false, not, List, [], ◌∷◌, ◌++◌, if◌then◌else◌, err, refuse, is_empty, ◌>>=◌,
}
use microsoft_defender_mcp.Error.{unknown_action_error}
use microsoft_defender_mcp.Inputs.Args.{Args, Misfit, rename_arg}
use microsoft_defender_mcp.Inputs.Reads.{read_id, read_endpoint_odata, read_endpoint_id_odata}
use microsoft_defender_mcp.Inputs.Tools.{VulnerabilitiesInput, vulnerabilities_args}
use microsoft_defender_mcp.Json.{invalid_params}
use microsoft_defender_mcp.Server.Reads.{Planned, call_action, select_action}
use microsoft_defender_mcp.Server.Reads.Devices.{
  defender_endpoint_exposure_score_by_machine_groups, defender_endpoint_exposure_score,
  defender_endpoint_recommendation_by_software, defender_endpoint_recommendation_get,
  defender_endpoint_recommendation_list, defender_endpoint_recommendation_machines,
  defender_endpoint_recommendation_vulnerabilities, defender_endpoint_remediation_exposed_devices,
  defender_endpoint_remediation_get, defender_endpoint_remediation_list,
  defender_endpoint_software_distribution, defender_endpoint_software_get,
  defender_endpoint_software_list, defender_endpoint_software_machines,
  defender_endpoint_software_missing_kbs, defender_endpoint_software_vulnerabilities,
  defender_endpoint_vulnerability_get_by_cve,
  defender_endpoint_vulnerability_get_by_machine_software,
  defender_endpoint_vulnerability_get_machines, defender_endpoint_vulnerability_list,
}
use microsoft_defender_mcp.Server.Reads.Scope.{ReadConfig}
use microsoft_defender_mcp.Server.Tools.{Libraries}
use microsoft_defender_mcp.Text.{Text, lit, starts_with}

abbrev pub vulnerabilities_actions : List String
vulnerabilities_actions =
    "software_list" ∷ "software_get" ∷ "software_machines" ∷ "software_vulnerabilities"
    ∷ "software_missing_kbs" ∷ "software_distribution" ∷ "vulnerability_list"
    ∷ "vulnerability_get_by_cve" ∷ "vulnerability_get_machines"
    ∷ "vulnerability_get_by_machine_software" ∷ "recommendation_list" ∷ "recommendation_get"
    ∷ "recommendation_machines" ∷ "recommendation_vulnerabilities" ∷ "recommendation_by_software"
    ∷ "remediation_list" ∷ "remediation_get" ∷ "remediation_exposed_devices" ∷ "exposure_score"
    ∷ "exposure_score_by_machine_groups" ∷ []

module _ (libraries : Libraries) (explain : Misfit → Text) (config : ReadConfig)
    (input : VulnerabilitiesInput) where
  abbrev args : Args
  args =
      let given = vulnerabilities_args input in
      let software =
        if starts_with (lit "software_") (lit input.action)
        then rename_arg "id" "software_id" given
        else given in
      if starts_with (lit "vulnerability_get") (lit input.action)
      then rename_arg "id" "cve_id" software
      else software

  abbrev pub no_parameters : Planned → Planned
  no_parameters plan =
      refuse (not (is_empty args))
        (invalid_params (lit "action '" ++ (lit input.action ++ lit "' takes no parameters")))
      >>= λ _. plan

  abbrev pub vulnerabilities_action_table : List (String × Planned)
  vulnerabilities_action_table =
      (
        "software_list",
        call_action explain (read_endpoint_odata args) (defender_endpoint_software_list libraries),
      )
      ∷ (
        "software_get",
        call_action explain (read_id "software_id" args) (defender_endpoint_software_get libraries),
      )
      ∷ (
        "software_machines",
        call_action explain (read_endpoint_id_odata "software_id" true args)
            (defender_endpoint_software_machines libraries),
      )
      ∷ (
        "software_vulnerabilities",
        call_action explain (read_id "software_id" args)
            (defender_endpoint_software_vulnerabilities libraries),
      )
      ∷ (
        "software_missing_kbs",
        call_action explain (read_id "software_id" args)
            (defender_endpoint_software_missing_kbs libraries),
      )
      ∷ (
        "software_distribution",
        call_action explain (read_id "software_id" args)
            (defender_endpoint_software_distribution libraries),
      )
      ∷ (
        "vulnerability_list",
        call_action explain (read_endpoint_odata args)
            (defender_endpoint_vulnerability_list libraries),
      )
      ∷ (
        "vulnerability_get_by_cve",
        call_action explain (read_id "cve_id" args)
            (defender_endpoint_vulnerability_get_by_cve libraries),
      )
      ∷ (
        "vulnerability_get_machines",
        call_action explain (read_endpoint_id_odata "cve_id" false args)
            (defender_endpoint_vulnerability_get_machines libraries),
      )
      ∷ (
        "vulnerability_get_by_machine_software",
        call_action explain (read_endpoint_odata args)
            (defender_endpoint_vulnerability_get_by_machine_software libraries),
      )
      ∷ (
        "recommendation_list",
        call_action explain (read_endpoint_odata args)
            (defender_endpoint_recommendation_list libraries),
      )
      ∷ (
        "recommendation_get",
        call_action explain (read_id "recommendation_id" args)
            (defender_endpoint_recommendation_get libraries),
      )
      ∷ (
        "recommendation_machines",
        call_action explain (read_id "recommendation_id" args)
            (defender_endpoint_recommendation_machines libraries),
      )
      ∷ (
        "recommendation_vulnerabilities",
        call_action explain (read_id "recommendation_id" args)
            (defender_endpoint_recommendation_vulnerabilities libraries),
      )
      ∷ (
        "recommendation_by_software",
        call_action explain (read_id "recommendation_id" args)
            (defender_endpoint_recommendation_by_software libraries),
      )
      ∷ (
        "remediation_list",
        call_action explain (read_endpoint_odata args)
            (defender_endpoint_remediation_list libraries),
      )
      ∷ (
        "remediation_get",
        call_action explain (read_id "remediation_id" args)
            (defender_endpoint_remediation_get libraries),
      )
      ∷ (
        "remediation_exposed_devices",
        call_action explain (read_endpoint_id_odata "remediation_id" true args)
            (defender_endpoint_remediation_exposed_devices libraries),
      )
      ∷ ("exposure_score", no_parameters (defender_endpoint_exposure_score libraries))
      ∷ (
        "exposure_score_by_machine_groups",
        no_parameters (defender_endpoint_exposure_score_by_machine_groups libraries),
      )
      ∷ []

  unfoldable pub defender_vulnerabilities : Planned
  defender_vulnerabilities =
      select_action input.action vulnerabilities_action_table
        (err (unknown_action_error "defender_vulnerabilities" input.action vulnerabilities_actions))
