-- ===== src/Server/Reads/Reach/Entities.antt =====
-- The actions of Entities.antt stay in their bounds.
use microsoft_defender_mcp.Prelude.{refl, inl, inr, Bool, not, [], refuse, OnOk-if, OnOk-bind}
use microsoft_defender_mcp.Client.{endpoint_get, graph_get_with_odata}
use microsoft_defender_mcp.Client.Paths.{is_base, is_confined, split_slash, is_segment}
use microsoft_defender_mcp.Inputs.Reads.{
  ODataListInput, EndpointODataInput, StatsInput, XdrIncidentIdInput, LiveResponseResultInput,
}
use microsoft_defender_mcp.Server.Reads.{child}
use microsoft_defender_mcp.Server.Reads.Entities.{
  is_negative, defender_endpoint_alert_get, defender_endpoint_alert_list,
  defender_endpoint_domain_related_alerts, defender_endpoint_domain_related_machines,
  defender_endpoint_domain_statistics, defender_endpoint_file_get,
  defender_endpoint_file_related_alerts, defender_endpoint_file_related_machines,
  defender_endpoint_file_statistics, defender_endpoint_ip_related_alerts,
  defender_endpoint_ip_statistics, defender_endpoint_live_response_get_result,
  defender_endpoint_machine_action_get_status, defender_endpoint_machine_action_list,
  defender_endpoint_user_related_alerts, defender_endpoint_user_related_machines,
  defender_xdr_alert_get, defender_xdr_alert_list, defender_xdr_incident_get,
  defender_xdr_incident_list,
}
use microsoft_defender_mcp.Server.Reads.Literal.{index_link-Confined}
use microsoft_defender_mcp.Server.Reads.Safe.{
  Reaching, Bounded, required_id-IsChild, hostname-IsChild, sha1-IsChild, file_hash-IsChild,
  ip_address-IsChild, child-Confined,
}
use microsoft_defender_mcp.Server.Reads.Steps.{
  Bounded-done, Bounded-fetch, Bounded-after, list_all-Bounded, ep_list_all-Bounded,
  get_child-Bounded, ep_get_child-Bounded, ep_get_child_of-Bounded, stats-Bounded,
}
use microsoft_defender_mcp.Server.Tools.{Libraries}
use microsoft_defender_mcp.Text.{Text, lit, text_eq}
use microsoft_defender_mcp.Validation.Hashes.{validate_sha1, validate_file_hash}
use microsoft_defender_mcp.Validation.Ip.{validate_ip_address}
use microsoft_defender_mcp.Validation.Names.{validate_required_id, validate_hostname}

module _ (libraries : Libraries) (w : Bool) where
  pub defender_endpoint_ip_statistics-Bounded :
      (i : StatsInput) → Bounded w (defender_endpoint_ip_statistics libraries i)
  unfolding defender_endpoint_ip_statistics is_base is_confined split_slash is_segment lit text_eq
  defender_endpoint_ip_statistics-Bounded i =
      stats-Bounded w libraries.percent (validate_ip_address i.id) (ip_address-IsChild i.id)
        "/api/ips/" refl _ refl

  pub defender_endpoint_ip_related_alerts-Bounded :
      (id : Text) → Bounded w (defender_endpoint_ip_related_alerts libraries id)
  unfolding defender_endpoint_ip_related_alerts is_base is_confined split_slash is_segment lit
      text_eq
  defender_endpoint_ip_related_alerts-Bounded id =
      ep_get_child_of-Bounded w libraries.percent (validate_ip_address id) (ip_address-IsChild id)
        "/api/ips/" refl "/alerts" refl

  pub defender_endpoint_domain_statistics-Bounded :
      (i : StatsInput) → Bounded w (defender_endpoint_domain_statistics libraries i)
  unfolding defender_endpoint_domain_statistics is_base is_confined split_slash is_segment lit
      text_eq
  defender_endpoint_domain_statistics-Bounded i =
      stats-Bounded w libraries.percent (validate_hostname i.id) (hostname-IsChild i.id)
        "/api/domains/" refl _ refl

  pub defender_endpoint_domain_related_machines-Bounded :
      (id : Text) → Bounded w (defender_endpoint_domain_related_machines libraries id)
  unfolding defender_endpoint_domain_related_machines is_base is_confined split_slash is_segment lit
      text_eq
  defender_endpoint_domain_related_machines-Bounded id =
      ep_get_child_of-Bounded w libraries.percent (validate_hostname id) (hostname-IsChild id)
        "/api/domains/" refl "/machines" refl

  pub defender_endpoint_domain_related_alerts-Bounded :
      (id : Text) → Bounded w (defender_endpoint_domain_related_alerts libraries id)
  unfolding defender_endpoint_domain_related_alerts is_base is_confined split_slash is_segment lit
      text_eq
  defender_endpoint_domain_related_alerts-Bounded id =
      ep_get_child_of-Bounded w libraries.percent (validate_hostname id) (hostname-IsChild id)
        "/api/domains/" refl "/alerts" refl

  pub defender_endpoint_file_get-Bounded :
      (id : Text) → Bounded w (defender_endpoint_file_get libraries id)
  unfolding defender_endpoint_file_get is_base is_confined split_slash is_segment lit text_eq
  defender_endpoint_file_get-Bounded id =
      ep_get_child-Bounded w libraries.percent (validate_file_hash libraries.regex id)
        (file_hash-IsChild libraries.regex id) "/api/files/" refl

  pub defender_endpoint_file_statistics-Bounded :
      (i : StatsInput) → Bounded w (defender_endpoint_file_statistics libraries i)
  unfolding defender_endpoint_file_statistics is_base is_confined split_slash is_segment lit text_eq
  defender_endpoint_file_statistics-Bounded i =
      stats-Bounded w libraries.percent (validate_sha1 libraries.regex i.id)
        (sha1-IsChild libraries.regex i.id) "/api/files/" refl _ refl

  pub defender_endpoint_file_related_machines-Bounded :
      (id : Text) → Bounded w (defender_endpoint_file_related_machines libraries id)
  unfolding defender_endpoint_file_related_machines is_base is_confined split_slash is_segment lit
      text_eq
  defender_endpoint_file_related_machines-Bounded id =
      ep_get_child_of-Bounded w libraries.percent (validate_sha1 libraries.regex id)
        (sha1-IsChild libraries.regex id) "/api/files/" refl "/machines" refl

  pub defender_endpoint_file_related_alerts-Bounded :
      (id : Text) → Bounded w (defender_endpoint_file_related_alerts libraries id)
  unfolding defender_endpoint_file_related_alerts is_base is_confined split_slash is_segment lit
      text_eq
  defender_endpoint_file_related_alerts-Bounded id =
      ep_get_child_of-Bounded w libraries.percent (validate_sha1 libraries.regex id)
        (sha1-IsChild libraries.regex id) "/api/files/" refl "/alerts" refl

  pub defender_endpoint_user_related_alerts-Bounded :
      (id : Text) → Bounded w (defender_endpoint_user_related_alerts libraries id)
  unfolding defender_endpoint_user_related_alerts is_base is_confined split_slash is_segment lit
      text_eq
  defender_endpoint_user_related_alerts-Bounded id =
      ep_get_child_of-Bounded w libraries.percent (validate_required_id id "user_id")
        (required_id-IsChild id "user_id") "/api/users/" refl "/alerts" refl

  pub defender_endpoint_user_related_machines-Bounded :
      (id : Text) → Bounded w (defender_endpoint_user_related_machines libraries id)
  unfolding defender_endpoint_user_related_machines is_base is_confined split_slash is_segment lit
      text_eq
  defender_endpoint_user_related_machines-Bounded id =
      ep_get_child_of-Bounded w libraries.percent (validate_required_id id "user_id")
        (required_id-IsChild id "user_id") "/api/users/" refl "/machines" refl

  pub defender_endpoint_alert_list-Bounded :
      (i : EndpointODataInput) → Bounded w (defender_endpoint_alert_list libraries i)
  unfolding defender_endpoint_alert_list is_base is_confined split_slash is_segment lit text_eq
  defender_endpoint_alert_list-Bounded i = ep_list_all-Bounded w _ _ _ "/api/alerts" refl

  pub defender_endpoint_alert_get-Bounded :
      (id : Text) → Bounded w (defender_endpoint_alert_get libraries id)
  unfolding defender_endpoint_alert_get is_base is_confined split_slash is_segment lit text_eq
  defender_endpoint_alert_get-Bounded id =
      ep_get_child-Bounded w libraries.percent (validate_required_id id "alert_id")
        (required_id-IsChild id "alert_id") "/api/alerts/" refl

  pub defender_endpoint_machine_action_list-Bounded :
      (i : EndpointODataInput) → Bounded w (defender_endpoint_machine_action_list libraries i)
  unfolding defender_endpoint_machine_action_list is_base is_confined split_slash is_segment lit
      text_eq
  defender_endpoint_machine_action_list-Bounded i =
      ep_list_all-Bounded w _ _ _ "/api/machineactions" refl

  pub defender_endpoint_machine_action_get_status-Bounded :
      (id : Text) → Bounded w (defender_endpoint_machine_action_get_status libraries id)
  unfolding defender_endpoint_machine_action_get_status is_base is_confined split_slash is_segment
      lit text_eq
  defender_endpoint_machine_action_get_status-Bounded id =
      ep_get_child-Bounded w libraries.percent (validate_required_id id "action_id")
        (required_id-IsChild id "action_id") "/api/machineactions/" refl

  pub defender_xdr_alert_list-Bounded :
      (i : ODataListInput) → Bounded w (defender_xdr_alert_list libraries i)
  unfolding defender_xdr_alert_list is_base is_confined split_slash is_segment lit text_eq
  defender_xdr_alert_list-Bounded i = list_all-Bounded w _ _ _ "/security/alerts_v2" refl

  pub defender_xdr_alert_get-Bounded : (id : Text) → Bounded w (defender_xdr_alert_get libraries id)
  unfolding defender_xdr_alert_get is_base is_confined split_slash is_segment lit text_eq
  defender_xdr_alert_get-Bounded id =
      get_child-Bounded w libraries.percent (validate_required_id id "alert_id")
        (required_id-IsChild id "alert_id") "/security/alerts_v2/" refl

  pub defender_xdr_incident_list-Bounded :
      (i : ODataListInput) → Bounded w (defender_xdr_incident_list libraries i)
  unfolding defender_xdr_incident_list is_base is_confined split_slash is_segment lit text_eq
  defender_xdr_incident_list-Bounded i = list_all-Bounded w _ _ _ "/security/incidents" refl

  pub defender_xdr_incident_get-Bounded :
      (i : XdrIncidentIdInput) → Bounded w (defender_xdr_incident_get libraries i)
  unfolding defender_xdr_incident_get is_base is_confined split_slash is_segment lit text_eq
  defender_xdr_incident_get-Bounded i =
      OnOk-bind (Reaching w) (validate_required_id i.incident_id "incident_id") _ λ id e.
        Bounded-fetch w (graph_get_with_odata (child libraries.percent "/security/incidents/" id) _)
          (record {
            path =
                child-Confined libraries.percent "/security/incidents/" id refl
                  (required_id-IsChild i.incident_id "incident_id" id e);
            reading = inl refl;
          })

  pub defender_endpoint_live_response_get_result-Bounded :
      (live_response : Bool) (i : LiveResponseResultInput)
      → Bounded w (defender_endpoint_live_response_get_result libraries live_response i)
  unfolding defender_endpoint_live_response_get_result is_base is_confined split_slash is_segment
      lit text_eq
  defender_endpoint_live_response_get_result-Bounded live_response i =
      OnOk-if (Reaching w) (not live_response) _ _ (λ _. Bounded-done w _)
        λ _. OnOk-bind (Reaching w) (validate_required_id i.action_id "action_id") _ λ id e.
          Bounded-after w (refuse (is_negative i.command_index) _) _ (
            Bounded-fetch w (endpoint_get _ []) (record {
              path =
                  index_link-Confined libraries.percent id i.command_index
                    (required_id-IsChild i.action_id "action_id" id e);
              reading = inr (inl refl);
            }))
