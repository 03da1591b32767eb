-- ===== src/Server/Reads/Devices.antt =====
-- Devices, software, vulnerabilities, recommendations and remediation tasks (src/server.rs).
use microsoft_defender_mcp.Prelude.{[], ◌∷◌, if◌then◌else◌, ok, ◌>>=◌}
use microsoft_defender_mcp.Client.{endpoint_get}
use microsoft_defender_mcp.Inputs.Reads.{EndpointODataInput, EndpointIdODataInput, FindByTagInput}
use microsoft_defender_mcp.Server.Reads.{
  Planned, fetch, ep_odata, ep_simple_get, ep_get_child, ep_get_child_of, ep_list_child_of,
  ep_list_all,
}
use microsoft_defender_mcp.Server.Tools.{Libraries}
use microsoft_defender_mcp.Text.{Text, lit}
use microsoft_defender_mcp.Validation.Hashes.{validate_cve_id}
use microsoft_defender_mcp.Validation.Names.{validate_required_id, validate_tag_name}

module _ (libraries : Libraries) where
  unfoldable pub defender_endpoint_machine_list : EndpointODataInput → Planned
  defender_endpoint_machine_list i =
      ep_list_all i.top i.skip (ep_odata i.filter i.top i.skip) "/api/machines"

  unfoldable pub defender_endpoint_machine_get : Text → Planned
  defender_endpoint_machine_get id =
      ep_get_child libraries.percent (validate_required_id id "machine_id") "/api/machines/"

  unfoldable pub defender_endpoint_machine_logged_on_users : Text → Planned
  defender_endpoint_machine_logged_on_users id =
      ep_get_child_of libraries.percent (validate_required_id id "machine_id") "/api/machines/"
        "/logonusers"

  unfoldable pub defender_endpoint_machine_find_by_tag : FindByTagInput → Planned
  defender_endpoint_machine_find_by_tag i = validate_tag_name i.tag_name >>= λ tag. ok (
      fetch (
        endpoint_get (lit "/api/machines/findByTag") (
          ("tag", tag)
          ∷ ("useStartsWithFilter", if i.use_starts_with then lit "true" else lit "false")
          ∷ [])))

  unfoldable pub defender_endpoint_machine_list_software : Text → Planned
  defender_endpoint_machine_list_software id =
      ep_get_child_of libraries.percent (validate_required_id id "machine_id") "/api/machines/"
        "/software"

  unfoldable pub defender_endpoint_machine_security_recommendations : Text → Planned
  defender_endpoint_machine_security_recommendations id =
      ep_get_child_of libraries.percent (validate_required_id id "machine_id") "/api/machines/"
        "/recommendations"

  unfoldable pub defender_endpoint_software_list : EndpointODataInput → Planned
  defender_endpoint_software_list i =
      ep_list_all i.top i.skip (ep_odata i.filter i.top i.skip) "/api/Software"

  unfoldable pub defender_endpoint_software_get : Text → Planned
  defender_endpoint_software_get id =
      ep_get_child libraries.percent (validate_required_id id "software_id") "/api/Software/"

  unfoldable pub defender_endpoint_software_machines : EndpointIdODataInput → Planned
  defender_endpoint_software_machines i =
      ep_list_child_of libraries.percent (validate_required_id i.id "software_id") i.top i.skip
        (ep_odata i.filter i.top i.skip) "/api/Software/" "/machineReferences"

  unfoldable pub defender_endpoint_software_vulnerabilities : Text → Planned
  defender_endpoint_software_vulnerabilities id =
      ep_get_child_of libraries.percent (validate_required_id id "software_id") "/api/Software/"
        "/vulnerabilities"

  unfoldable pub defender_endpoint_software_missing_kbs : Text → Planned
  defender_endpoint_software_missing_kbs id =
      ep_get_child_of libraries.percent (validate_required_id id "software_id") "/api/Software/"
        "/getmissingkbs"

  unfoldable pub defender_endpoint_software_distribution : Text → Planned
  defender_endpoint_software_distribution id =
      ep_get_child_of libraries.percent (validate_required_id id "software_id") "/api/Software/"
        "/distributions"

  unfoldable pub defender_endpoint_vulnerability_list : EndpointODataInput → Planned
  defender_endpoint_vulnerability_list i =
      ep_list_all i.top i.skip (ep_odata i.filter i.top i.skip) "/api/vulnerabilities"

  unfoldable pub defender_endpoint_vulnerability_get_by_cve : Text → Planned
  defender_endpoint_vulnerability_get_by_cve id =
      ep_get_child libraries.percent (validate_cve_id libraries.regex id) "/api/vulnerabilities/"

  unfoldable pub defender_endpoint_vulnerability_get_machines : EndpointIdODataInput → Planned
  defender_endpoint_vulnerability_get_machines i =
      ep_list_child_of libraries.percent (validate_cve_id libraries.regex i.id) i.top i.skip
        (ep_odata i.filter i.top i.skip) "/api/vulnerabilities/" "/machineReferences"

  unfoldable pub defender_endpoint_vulnerability_get_by_machine_software :
      EndpointODataInput → Planned
  defender_endpoint_vulnerability_get_by_machine_software i =
      ep_list_all i.top i.skip (ep_odata i.filter i.top i.skip)
        "/api/vulnerabilities/machinesVulnerabilities"

  unfoldable pub defender_endpoint_recommendation_list : EndpointODataInput → Planned
  defender_endpoint_recommendation_list i =
      ep_list_all i.top i.skip (ep_odata i.filter i.top i.skip) "/api/recommendations"

  unfoldable pub defender_endpoint_recommendation_get : Text → Planned
  defender_endpoint_recommendation_get id =
      ep_get_child libraries.percent (validate_required_id id "recommendation_id")
        "/api/recommendations/"

  unfoldable pub defender_endpoint_recommendation_machines : Text → Planned
  defender_endpoint_recommendation_machines id =
      ep_get_child_of libraries.percent (validate_required_id id "recommendation_id")
        "/api/recommendations/" "/machineReferences"

  unfoldable pub defender_endpoint_recommendation_vulnerabilities : Text → Planned
  defender_endpoint_recommendation_vulnerabilities id =
      ep_get_child_of libraries.percent (validate_required_id id "recommendation_id")
        "/api/recommendations/" "/vulnerabilities"

  unfoldable pub defender_endpoint_recommendation_by_software : Text → Planned
  defender_endpoint_recommendation_by_software id =
      ep_get_child_of libraries.percent (validate_required_id id "recommendation_id")
        "/api/recommendations/" "/software"

  unfoldable pub defender_endpoint_remediation_list : EndpointODataInput → Planned
  defender_endpoint_remediation_list i =
      ep_list_all i.top i.skip (ep_odata i.filter i.top i.skip) "/api/remediationTasks"

  unfoldable pub defender_endpoint_remediation_get : Text → Planned
  defender_endpoint_remediation_get id =
      ep_get_child libraries.percent (validate_required_id id "remediation_id")
        "/api/remediationTasks/"

  unfoldable pub defender_endpoint_remediation_exposed_devices : EndpointIdODataInput → Planned
  defender_endpoint_remediation_exposed_devices i =
      ep_list_child_of libraries.percent (validate_required_id i.id "remediation_id") i.top i.skip
        (ep_odata i.filter i.top i.skip) "/api/remediationTasks/" "/machinereferences"

  unfoldable pub defender_endpoint_exposure_score : Planned
  defender_endpoint_exposure_score = ep_simple_get (lit "/api/exposureScore")

  unfoldable pub defender_endpoint_exposure_score_by_machine_groups : Planned
  defender_endpoint_exposure_score_by_machine_groups =
      ep_simple_get (lit "/api/exposureScore/ByMachineGroups")
