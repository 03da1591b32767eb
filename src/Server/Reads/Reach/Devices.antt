-- ===== src/Server/Reads/Reach/Devices.antt =====
-- The actions of Devices.antt stay in their bounds.
use microsoft_defender_mcp.Prelude.{refl, inl, inr, Bool, OnOk-bind}
use microsoft_defender_mcp.Client.{endpoint_get}
use microsoft_defender_mcp.Client.Paths.{
  is_base, is_confined, split_slash, is_segment, literal-Confined,
}
use microsoft_defender_mcp.Inputs.Reads.{EndpointODataInput, EndpointIdODataInput, FindByTagInput}
use microsoft_defender_mcp.Server.Reads.Devices.{
  defender_endpoint_exposure_score, defender_endpoint_exposure_score_by_machine_groups,
  defender_endpoint_machine_find_by_tag, defender_endpoint_machine_get,
  defender_endpoint_machine_list, defender_endpoint_machine_list_software,
  defender_endpoint_machine_logged_on_users, defender_endpoint_machine_security_recommendations,
  defender_endpoint_recommendation_by_software, defender_endpoint_recommendation_get,
  defender_endpoint_recommendation_list, defender_endpoint_recommendation_machines,
  defender_endpoint_recommendation_vulnerabilities, defender_endpoint_remediation_exposed_devices,
  defender_endpoint_remediation_get, defender_endpoint_remediation_list,
  defender_endpoint_software_distribution, defender_endpoint_software_get,
  defender_endpoint_software_list, defender_endpoint_software_machines,
  defender_endpoint_software_missing_kbs, defender_endpoint_software_vulnerabilities,
  defender_endpoint_vulnerability_get_by_cve,
  defender_endpoint_vulnerability_get_by_machine_software,
  defender_endpoint_vulnerability_get_machines, defender_endpoint_vulnerability_list,
}
use microsoft_defender_mcp.Server.Reads.Safe.{
  Reaching, Bounded, required_id-IsChild, cve_id-IsChild,
}
use microsoft_defender_mcp.Server.Reads.Steps.{
  Bounded-fetch, ep_list_all-Bounded, ep_simple_get-Bounded, ep_get_child-Bounded,
  ep_get_child_of-Bounded, ep_list_child_of-Bounded,
}
use microsoft_defender_mcp.Server.Tools.{Libraries}
use microsoft_defender_mcp.Text.{Text, lit, text_eq}
use microsoft_defender_mcp.Validation.Hashes.{validate_cve_id}
use microsoft_defender_mcp.Validation.Names.{validate_required_id, validate_tag_name}

module _ (libraries : Libraries) (w : Bool) where
  pub defender_endpoint_machine_list-Bounded :
      (i : EndpointODataInput) → Bounded w (defender_endpoint_machine_list libraries i)
  unfolding defender_endpoint_machine_list is_base is_confined split_slash is_segment lit text_eq
  defender_endpoint_machine_list-Bounded i = ep_list_all-Bounded w _ _ _ "/api/machines" refl

  pub defender_endpoint_machine_get-Bounded :
      (id : Text) → Bounded w (defender_endpoint_machine_get libraries id)
  unfolding defender_endpoint_machine_get is_base is_confined split_slash is_segment lit text_eq
  defender_endpoint_machine_get-Bounded id =
      ep_get_child-Bounded w libraries.percent (validate_required_id id "machine_id")
        (required_id-IsChild id "machine_id") "/api/machines/" refl

  pub defender_endpoint_machine_logged_on_users-Bounded :
      (id : Text) → Bounded w (defender_endpoint_machine_logged_on_users libraries id)
  unfolding defender_endpoint_machine_logged_on_users is_base is_confined split_slash is_segment lit
      text_eq
  defender_endpoint_machine_logged_on_users-Bounded id =
      ep_get_child_of-Bounded w libraries.percent (validate_required_id id "machine_id")
        (required_id-IsChild id "machine_id") "/api/machines/" refl "/logonusers" refl

  pub defender_endpoint_machine_find_by_tag-Bounded :
      (i : FindByTagInput) → Bounded w (defender_endpoint_machine_find_by_tag libraries i)
  unfolding defender_endpoint_machine_find_by_tag is_base is_confined split_slash is_segment lit
      text_eq
  defender_endpoint_machine_find_by_tag-Bounded i =
      OnOk-bind (Reaching w) (validate_tag_name i.tag_name) _ λ tag _.
        Bounded-fetch w (endpoint_get (lit "/api/machines/findByTag") _) (record {
          path = literal-Confined (lit "/api/machines/findByTag") refl;
          reading = inr (inl refl);
        })

  pub defender_endpoint_machine_list_software-Bounded :
      (id : Text) → Bounded w (defender_endpoint_machine_list_software libraries id)
  unfolding defender_endpoint_machine_list_software is_base is_confined split_slash is_segment lit
      text_eq
  defender_endpoint_machine_list_software-Bounded id =
      ep_get_child_of-Bounded w libraries.percent (validate_required_id id "machine_id")
        (required_id-IsChild id "machine_id") "/api/machines/" refl "/software" refl

  pub defender_endpoint_machine_security_recommendations-Bounded :
      (id : Text) → Bounded w (defender_endpoint_machine_security_recommendations libraries id)
  unfolding defender_endpoint_machine_security_recommendations is_base is_confined split_slash
      is_segment lit text_eq
  defender_endpoint_machine_security_recommendations-Bounded id =
      ep_get_child_of-Bounded w libraries.percent (validate_required_id id "machine_id")
        (required_id-IsChild id "machine_id") "/api/machines/" refl "/recommendations" refl

  pub defender_endpoint_software_list-Bounded :
      (i : EndpointODataInput) → Bounded w (defender_endpoint_software_list libraries i)
  unfolding defender_endpoint_software_list is_base is_confined split_slash is_segment lit text_eq
  defender_endpoint_software_list-Bounded i = ep_list_all-Bounded w _ _ _ "/api/Software" refl

  pub defender_endpoint_software_get-Bounded :
      (id : Text) → Bounded w (defender_endpoint_software_get libraries id)
  unfolding defender_endpoint_software_get is_base is_confined split_slash is_segment lit text_eq
  defender_endpoint_software_get-Bounded id =
      ep_get_child-Bounded w libraries.percent (validate_required_id id "software_id")
        (required_id-IsChild id "software_id") "/api/Software/" refl

  pub defender_endpoint_software_machines-Bounded :
      (i : EndpointIdODataInput) → Bounded w (defender_endpoint_software_machines libraries i)
  unfolding defender_endpoint_software_machines is_base is_confined split_slash is_segment lit
      text_eq
  defender_endpoint_software_machines-Bounded i =
      ep_list_child_of-Bounded w libraries.percent (validate_required_id i.id "software_id")
        (required_id-IsChild i.id "software_id") "/api/Software/" refl "/machineReferences" refl _ _
        _

  pub defender_endpoint_software_vulnerabilities-Bounded :
      (id : Text) → Bounded w (defender_endpoint_software_vulnerabilities libraries id)
  unfolding defender_endpoint_software_vulnerabilities is_base is_confined split_slash is_segment
      lit text_eq
  defender_endpoint_software_vulnerabilities-Bounded id =
      ep_get_child_of-Bounded w libraries.percent (validate_required_id id "software_id")
        (required_id-IsChild id "software_id") "/api/Software/" refl "/vulnerabilities" refl

  pub defender_endpoint_software_missing_kbs-Bounded :
      (id : Text) → Bounded w (defender_endpoint_software_missing_kbs libraries id)
  unfolding defender_endpoint_software_missing_kbs is_base is_confined split_slash is_segment lit
      text_eq
  defender_endpoint_software_missing_kbs-Bounded id =
      ep_get_child_of-Bounded w libraries.percent (validate_required_id id "software_id")
        (required_id-IsChild id "software_id") "/api/Software/" refl "/getmissingkbs" refl

  pub defender_endpoint_software_distribution-Bounded :
      (id : Text) → Bounded w (defender_endpoint_software_distribution libraries id)
  unfolding defender_endpoint_software_distribution is_base is_confined split_slash is_segment lit
      text_eq
  defender_endpoint_software_distribution-Bounded id =
      ep_get_child_of-Bounded w libraries.percent (validate_required_id id "software_id")
        (required_id-IsChild id "software_id") "/api/Software/" refl "/distributions" refl

  pub defender_endpoint_vulnerability_list-Bounded :
      (i : EndpointODataInput) → Bounded w (defender_endpoint_vulnerability_list libraries i)
  unfolding defender_endpoint_vulnerability_list is_base is_confined split_slash is_segment lit
      text_eq
  defender_endpoint_vulnerability_list-Bounded i =
      ep_list_all-Bounded w _ _ _ "/api/vulnerabilities" refl

  pub defender_endpoint_vulnerability_get_by_cve-Bounded :
      (id : Text) → Bounded w (defender_endpoint_vulnerability_get_by_cve libraries id)
  unfolding defender_endpoint_vulnerability_get_by_cve is_base is_confined split_slash is_segment
      lit text_eq
  defender_endpoint_vulnerability_get_by_cve-Bounded id =
      ep_get_child-Bounded w libraries.percent (validate_cve_id libraries.regex id)
        (cve_id-IsChild libraries.regex id) "/api/vulnerabilities/" refl

  pub defender_endpoint_vulnerability_get_machines-Bounded :
      (i : EndpointIdODataInput)
      → Bounded w (defender_endpoint_vulnerability_get_machines libraries i)
  unfolding defender_endpoint_vulnerability_get_machines is_base is_confined split_slash is_segment
      lit text_eq
  defender_endpoint_vulnerability_get_machines-Bounded i =
      ep_list_child_of-Bounded w libraries.percent (validate_cve_id libraries.regex i.id)
        (cve_id-IsChild libraries.regex i.id) "/api/vulnerabilities/" refl "/machineReferences" refl
        _ _ _

  pub defender_endpoint_vulnerability_get_by_machine_software-Bounded :
      (i : EndpointODataInput)
      → Bounded w (defender_endpoint_vulnerability_get_by_machine_software libraries i)
  unfolding defender_endpoint_vulnerability_get_by_machine_software is_base is_confined split_slash
      is_segment lit text_eq
  defender_endpoint_vulnerability_get_by_machine_software-Bounded i =
      ep_list_all-Bounded w _ _ _ "/api/vulnerabilities/machinesVulnerabilities" refl

  pub defender_endpoint_recommendation_list-Bounded :
      (i : EndpointODataInput) → Bounded w (defender_endpoint_recommendation_list libraries i)
  unfolding defender_endpoint_recommendation_list is_base is_confined split_slash is_segment lit
      text_eq
  defender_endpoint_recommendation_list-Bounded i =
      ep_list_all-Bounded w _ _ _ "/api/recommendations" refl

  pub defender_endpoint_recommendation_get-Bounded :
      (id : Text) → Bounded w (defender_endpoint_recommendation_get libraries id)
  unfolding defender_endpoint_recommendation_get is_base is_confined split_slash is_segment lit
      text_eq
  defender_endpoint_recommendation_get-Bounded id =
      ep_get_child-Bounded w libraries.percent (validate_required_id id "recommendation_id")
        (required_id-IsChild id "recommendation_id") "/api/recommendations/" refl

  pub defender_endpoint_recommendation_machines-Bounded :
      (id : Text) → Bounded w (defender_endpoint_recommendation_machines libraries id)
  unfolding defender_endpoint_recommendation_machines is_base is_confined split_slash is_segment lit
      text_eq
  defender_endpoint_recommendation_machines-Bounded id =
      ep_get_child_of-Bounded w libraries.percent (validate_required_id id "recommendation_id")
        (required_id-IsChild id "recommendation_id") "/api/recommendations/" refl
        "/machineReferences" refl

  pub defender_endpoint_recommendation_vulnerabilities-Bounded :
      (id : Text) → Bounded w (defender_endpoint_recommendation_vulnerabilities libraries id)
  unfolding defender_endpoint_recommendation_vulnerabilities is_base is_confined split_slash
      is_segment lit text_eq
  defender_endpoint_recommendation_vulnerabilities-Bounded id =
      ep_get_child_of-Bounded w libraries.percent (validate_required_id id "recommendation_id")
        (required_id-IsChild id "recommendation_id") "/api/recommendations/" refl "/vulnerabilities"
        refl

  pub defender_endpoint_recommendation_by_software-Bounded :
      (id : Text) → Bounded w (defender_endpoint_recommendation_by_software libraries id)
  unfolding defender_endpoint_recommendation_by_software is_base is_confined split_slash is_segment
      lit text_eq
  defender_endpoint_recommendation_by_software-Bounded id =
      ep_get_child_of-Bounded w libraries.percent (validate_required_id id "recommendation_id")
        (required_id-IsChild id "recommendation_id") "/api/recommendations/" refl "/software" refl

  pub defender_endpoint_remediation_list-Bounded :
      (i : EndpointODataInput) → Bounded w (defender_endpoint_remediation_list libraries i)
  unfolding defender_endpoint_remediation_list is_base is_confined split_slash is_segment lit
      text_eq
  defender_endpoint_remediation_list-Bounded i =
      ep_list_all-Bounded w _ _ _ "/api/remediationTasks" refl

  pub defender_endpoint_remediation_get-Bounded :
      (id : Text) → Bounded w (defender_endpoint_remediation_get libraries id)
  unfolding defender_endpoint_remediation_get is_base is_confined split_slash is_segment lit text_eq
  defender_endpoint_remediation_get-Bounded id =
      ep_get_child-Bounded w libraries.percent (validate_required_id id "remediation_id")
        (required_id-IsChild id "remediation_id") "/api/remediationTasks/" refl

  pub defender_endpoint_remediation_exposed_devices-Bounded :
      (i : EndpointIdODataInput)
      → Bounded w (defender_endpoint_remediation_exposed_devices libraries i)
  unfolding defender_endpoint_remediation_exposed_devices is_base is_confined split_slash is_segment
      lit text_eq
  defender_endpoint_remediation_exposed_devices-Bounded i =
      ep_list_child_of-Bounded w libraries.percent (validate_required_id i.id "remediation_id")
        (required_id-IsChild i.id "remediation_id") "/api/remediationTasks/" refl
        "/machinereferences" refl _ _ _

  pub defender_endpoint_exposure_score-Bounded :
      Bounded w (defender_endpoint_exposure_score libraries)
  unfolding defender_endpoint_exposure_score is_base is_confined split_slash is_segment lit text_eq
  defender_endpoint_exposure_score-Bounded = ep_simple_get-Bounded w "/api/exposureScore" refl

  pub defender_endpoint_exposure_score_by_machine_groups-Bounded :
      Bounded w (defender_endpoint_exposure_score_by_machine_groups libraries)
  unfolding defender_endpoint_exposure_score_by_machine_groups is_base is_confined split_slash
      is_segment lit text_eq
  defender_endpoint_exposure_score_by_machine_groups-Bounded =
      ep_simple_get-Bounded w "/api/exposureScore/ByMachineGroups" refl
