-- ===== src/Server/Reads/Hosts.antt =====
-- Threat intelligence about hosts (src/server.rs).
use microsoft_defender_mcp.Inputs.Reads.{HostnameODataInput}
use microsoft_defender_mcp.Server.Reads.{
  Planned, from_hostname_odata, get_child, get_child_of, list_child_of,
}
use microsoft_defender_mcp.Server.Tools.{Libraries}
use microsoft_defender_mcp.Text.{Text}
use microsoft_defender_mcp.Validation.Names.{validate_required_id, validate_hostname}

module _ (libraries : Libraries) where
  unfoldable pub defender_ti_host_get : Text → Planned
  defender_ti_host_get id =
      get_child libraries.percent (validate_hostname id) "/security/threatIntelligence/hosts/"

  unfoldable pub defender_ti_host_reputation_get : Text → Planned
  defender_ti_host_reputation_get id =
      get_child_of libraries.percent (validate_hostname id) "/security/threatIntelligence/hosts/"
        "/reputation"

  unfoldable pub defender_ti_host_components_list : HostnameODataInput → Planned
  defender_ti_host_components_list i =
      list_child_of libraries.percent (validate_hostname i.hostname) i.top i.skip
        (from_hostname_odata i) "/security/threatIntelligence/hosts/" "/components"

  unfoldable pub defender_ti_host_component_get : Text → Planned
  defender_ti_host_component_get id =
      get_child libraries.percent (validate_required_id id "component_id")
        "/security/threatIntelligence/hostComponents/"

  unfoldable pub defender_ti_host_cookies_list : HostnameODataInput → Planned
  defender_ti_host_cookies_list i =
      list_child_of libraries.percent (validate_hostname i.hostname) i.top i.skip
        (from_hostname_odata i) "/security/threatIntelligence/hosts/" "/cookies"

  unfoldable pub defender_ti_host_cookie_get : Text → Planned
  defender_ti_host_cookie_get id =
      get_child libraries.percent (validate_required_id id "cookie_id")
        "/security/threatIntelligence/hostCookies/"

  unfoldable pub defender_ti_host_ports_list : HostnameODataInput → Planned
  defender_ti_host_ports_list i =
      list_child_of libraries.percent (validate_hostname i.hostname) i.top i.skip
        (from_hostname_odata i) "/security/threatIntelligence/hosts/" "/ports"

  unfoldable pub defender_ti_host_port_get : Text → Planned
  defender_ti_host_port_get id =
      get_child libraries.percent (validate_required_id id "port_id")
        "/security/threatIntelligence/hostPorts/"

  unfoldable pub defender_ti_host_trackers_list : HostnameODataInput → Planned
  defender_ti_host_trackers_list i =
      list_child_of libraries.percent (validate_hostname i.hostname) i.top i.skip
        (from_hostname_odata i) "/security/threatIntelligence/hosts/" "/trackers"

  unfoldable pub defender_ti_host_tracker_get : Text → Planned
  defender_ti_host_tracker_get id =
      get_child libraries.percent (validate_required_id id "tracker_id")
        "/security/threatIntelligence/hostTrackers/"

  unfoldable pub defender_ti_host_subdomains_list : HostnameODataInput → Planned
  defender_ti_host_subdomains_list i =
      list_child_of libraries.percent (validate_hostname i.hostname) i.top i.skip
        (from_hostname_odata i) "/security/threatIntelligence/hosts/" "/subdomains"

  unfoldable pub defender_ti_host_ssl_certs_list : HostnameODataInput → Planned
  defender_ti_host_ssl_certs_list i =
      list_child_of libraries.percent (validate_hostname i.hostname) i.top i.skip
        (from_hostname_odata i) "/security/threatIntelligence/hosts/" "/sslCertificates"

  unfoldable pub defender_ti_host_whois_get : Text → Planned
  defender_ti_host_whois_get id =
      get_child_of libraries.percent (validate_hostname id) "/security/threatIntelligence/hosts/"
        "/whois"

  unfoldable pub defender_ti_host_whois_history_list : HostnameODataInput → Planned
  defender_ti_host_whois_history_list i =
      list_child_of libraries.percent (validate_hostname i.hostname) i.top i.skip
        (from_hostname_odata i) "/security/threatIntelligence/hosts/" "/whoisHistoryRecords"

  unfoldable pub defender_ti_host_pairs_list : HostnameODataInput → Planned
  defender_ti_host_pairs_list i =
      list_child_of libraries.percent (validate_hostname i.hostname) i.top i.skip
        (from_hostname_odata i) "/security/threatIntelligence/hosts/" "/hostPairs"

  unfoldable pub defender_ti_host_pair_get : Text → Planned
  defender_ti_host_pair_get id =
      get_child libraries.percent (validate_required_id id "pair_id")
        "/security/threatIntelligence/hostPairs/"

  unfoldable pub defender_ti_host_child_pairs_list : HostnameODataInput → Planned
  defender_ti_host_child_pairs_list i =
      list_child_of libraries.percent (validate_hostname i.hostname) i.top i.skip
        (from_hostname_odata i) "/security/threatIntelligence/hosts/" "/childHostPairs"

  unfoldable pub defender_ti_host_parent_pairs_list : HostnameODataInput → Planned
  defender_ti_host_parent_pairs_list i =
      list_child_of libraries.percent (validate_hostname i.hostname) i.top i.skip
        (from_hostname_odata i) "/security/threatIntelligence/hosts/" "/parentHostPairs"

  unfoldable pub defender_ti_host_passive_dns_list : HostnameODataInput → Planned
  defender_ti_host_passive_dns_list i =
      list_child_of libraries.percent (validate_hostname i.hostname) i.top i.skip
        (from_hostname_odata i) "/security/threatIntelligence/hosts/" "/passiveDns"

  unfoldable pub defender_ti_host_passive_dns_reverse_list : HostnameODataInput → Planned
  defender_ti_host_passive_dns_reverse_list i =
      list_child_of libraries.percent (validate_hostname i.hostname) i.top i.skip
        (from_hostname_odata i) "/security/threatIntelligence/hosts/" "/passiveDnsReverse"
