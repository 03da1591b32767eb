-- ===== src/Server/Reads/Entities.antt =====
-- Addresses, domains, files, users, alerts, incidents and actions (src/server.rs).
use microsoft_defender_mcp.Prelude.{
  String, Bool, true, false, not, Option, [], ◌∷◌, ◌++◌, if◌then◌else◌, Result, ok, refuse,
  unwrap_or, ◌>>=◌,
}
use microsoft_defender_mcp.Client.{no_odata, endpoint_get}
use microsoft_defender_mcp.Constants.{default_look_back_hours}
use microsoft_defender_mcp.Error.{tool_error}
use microsoft_defender_mcp.Inputs.Reads.{
  ODataListInput, EndpointODataInput, StatsInput, XdrIncidentIdInput, LiveResponseResultInput,
}
use microsoft_defender_mcp.Json.{ErrorData, invalid_params}
use microsoft_defender_mcp.Server.Reads.{
  Planned, done, fetch, from_odata_list, ep_odata, odata_get, ep_simple_get, child, child_of,
  get_child, ep_get_child, ep_get_child_of, list_all, ep_list_all,
}
use microsoft_defender_mcp.Server.Tools.{Libraries}
use microsoft_defender_mcp.Text.{Text, lit}
use microsoft_defender_mcp.Text.Decimal.{ℤ, pos, negsuc, decimal_int}
use microsoft_defender_mcp.Validation.Encoding.{PercentEncoding, encode_path_segment}
use microsoft_defender_mcp.Validation.Hashes.{validate_sha1, validate_file_hash}
use microsoft_defender_mcp.Validation.Ip.{validate_ip_address}
use microsoft_defender_mcp.Validation.Names.{validate_required_id, validate_hostname}
use microsoft_defender_mcp.Validation.Odata.{validate_look_back_hours}

-- The statistics of an entity, over the given hours or 30 days.
abbrev pub stats :
    PercentEncoding
    → Result Text ErrorData
    → (look_back_hours : Option ℤ) → (base : String) → Planned
stats percent checked look_back_hours base = checked >>= λ id.
    (validate_look_back_hours look_back_hours >>= λ _.
    (let lh = decimal_int (unwrap_or (pos default_look_back_hours) look_back_hours) in
      ok (fetch (endpoint_get (child_of percent base id "/stats") (("lookBackHours", lh) ∷ [])))))

abbrev pub is_negative : ℤ → Bool
is_negative (pos n) = false
is_negative (negsuc n) = true

module _ (libraries : Libraries) where
  unfoldable pub defender_endpoint_ip_statistics : StatsInput → Planned
  defender_endpoint_ip_statistics i =
      stats libraries.percent (validate_ip_address i.id) i.look_back_hours "/api/ips/"

  unfoldable pub defender_endpoint_ip_related_alerts : Text → Planned
  defender_endpoint_ip_related_alerts id =
      ep_get_child_of libraries.percent (validate_ip_address id) "/api/ips/" "/alerts"

  unfoldable pub defender_endpoint_domain_statistics : StatsInput → Planned
  defender_endpoint_domain_statistics i =
      stats libraries.percent (validate_hostname i.id) i.look_back_hours "/api/domains/"

  unfoldable pub defender_endpoint_domain_related_machines : Text → Planned
  defender_endpoint_domain_related_machines id =
      ep_get_child_of libraries.percent (validate_hostname id) "/api/domains/" "/machines"

  unfoldable pub defender_endpoint_domain_related_alerts : Text → Planned
  defender_endpoint_domain_related_alerts id =
      ep_get_child_of libraries.percent (validate_hostname id) "/api/domains/" "/alerts"

  unfoldable pub defender_endpoint_file_get : Text → Planned
  defender_endpoint_file_get id =
      ep_get_child libraries.percent (validate_file_hash libraries.regex id) "/api/files/"

  unfoldable pub defender_endpoint_file_statistics : StatsInput → Planned
  defender_endpoint_file_statistics i =
      stats libraries.percent (validate_sha1 libraries.regex i.id) i.look_back_hours "/api/files/"

  unfoldable pub defender_endpoint_file_related_machines : Text → Planned
  defender_endpoint_file_related_machines id =
      ep_get_child_of libraries.percent (validate_sha1 libraries.regex id) "/api/files/" "/machines"

  unfoldable pub defender_endpoint_file_related_alerts : Text → Planned
  defender_endpoint_file_related_alerts id =
      ep_get_child_of libraries.percent (validate_sha1 libraries.regex id) "/api/files/" "/alerts"

  unfoldable pub defender_endpoint_user_related_alerts : Text → Planned
  defender_endpoint_user_related_alerts id =
      ep_get_child_of libraries.percent (validate_required_id id "user_id") "/api/users/" "/alerts"

  unfoldable pub defender_endpoint_user_related_machines : Text → Planned
  defender_endpoint_user_related_machines id =
      ep_get_child_of libraries.percent (validate_required_id id "user_id") "/api/users/"
        "/machines"

  unfoldable pub defender_endpoint_alert_list : EndpointODataInput → Planned
  defender_endpoint_alert_list i =
      ep_list_all i.top i.skip (ep_odata i.filter i.top i.skip) "/api/alerts"

  unfoldable pub defender_endpoint_alert_get : Text → Planned
  defender_endpoint_alert_get id =
      ep_get_child libraries.percent (validate_required_id id "alert_id") "/api/alerts/"

  unfoldable pub defender_endpoint_machine_action_list : EndpointODataInput → Planned
  defender_endpoint_machine_action_list i =
      ep_list_all i.top i.skip (ep_odata i.filter i.top i.skip) "/api/machineactions"

  unfoldable pub defender_endpoint_machine_action_get_status : Text → Planned
  defender_endpoint_machine_action_get_status id =
      ep_get_child libraries.percent (validate_required_id id "action_id") "/api/machineactions/"

  unfoldable pub defender_xdr_alert_list : ODataListInput → Planned
  defender_xdr_alert_list i = list_all i.top i.skip (from_odata_list i) "/security/alerts_v2"

  unfoldable pub defender_xdr_alert_get : Text → Planned
  defender_xdr_alert_get id =
      get_child libraries.percent (validate_required_id id "alert_id") "/security/alerts_v2/"

  unfoldable pub defender_xdr_incident_list : ODataListInput → Planned
  defender_xdr_incident_list i = list_all i.top i.skip (from_odata_list i) "/security/incidents"

  unfoldable pub defender_xdr_incident_get : XdrIncidentIdInput → Planned
  defender_xdr_incident_get i = validate_required_id i.incident_id "incident_id" >>= λ id.
      odata_get (child libraries.percent "/security/incidents/" id)
        (record no_odata { expand = i.expand })

  -- `self.config.categories.live_response`
  unfoldable pub defender_endpoint_live_response_get_result :
      (live_response : Bool) → LiveResponseResultInput → Planned
  defender_endpoint_live_response_get_result live_response i =
      if not live_response
      then ok (
          done (
            tool_error
              (lit "Live Response is disabled. Set DEFENDER_ENABLE_LIVE_RESPONSE=true to enable.")))
      else (validate_required_id i.action_id "action_id" >>= λ action_id.
          (refuse (is_negative i.command_index) (
              invalid_params
                (lit "command_index must be zero or greater, got " ++ decimal_int i.command_index))
            >>= λ _. ep_simple_get (
                lit "/api/machineactions/"
                ++ (encode_path_segment libraries.percent action_id
                    ++ (lit "/GetLiveResponseResultDownloadLink(index="
                        ++ (decimal_int i.command_index ++ lit ")"))))))
