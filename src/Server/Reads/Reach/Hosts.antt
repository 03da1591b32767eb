-- ===== src/Server/Reads/Reach/Hosts.antt =====
-- The actions of Hosts.antt stay in their bounds.
use microsoft_defender_mcp.Prelude.{refl, Bool}
use microsoft_defender_mcp.Client.Paths.{is_base, is_confined, split_slash, is_segment}
use microsoft_defender_mcp.Inputs.Reads.{HostnameODataInput}
use microsoft_defender_mcp.Server.Reads.Hosts.{
  defender_ti_host_child_pairs_list, defender_ti_host_component_get,
  defender_ti_host_components_list, defender_ti_host_cookie_get, defender_ti_host_cookies_list,
  defender_ti_host_get, defender_ti_host_pair_get, defender_ti_host_pairs_list,
  defender_ti_host_parent_pairs_list, defender_ti_host_passive_dns_list,
  defender_ti_host_passive_dns_reverse_list, defender_ti_host_port_get, defender_ti_host_ports_list,
  defender_ti_host_reputation_get, defender_ti_host_ssl_certs_list,
  defender_ti_host_subdomains_list, defender_ti_host_tracker_get, defender_ti_host_trackers_list,
  defender_ti_host_whois_get, defender_ti_host_whois_history_list,
}
use microsoft_defender_mcp.Server.Reads.Safe.{Bounded, required_id-IsChild, hostname-IsChild}
use microsoft_defender_mcp.Server.Reads.Steps.{
  get_child-Bounded, get_child_of-Bounded, list_child_of-Bounded,
}
use microsoft_defender_mcp.Server.Tools.{Libraries}
use microsoft_defender_mcp.Text.{Text, lit, text_eq}
use microsoft_defender_mcp.Validation.Names.{validate_required_id, validate_hostname}

module _ (libraries : Libraries) (w : Bool) where
  pub defender_ti_host_get-Bounded : (id : Text) → Bounded w (defender_ti_host_get libraries id)
  unfolding defender_ti_host_get is_base is_confined split_slash is_segment lit text_eq
  defender_ti_host_get-Bounded id =
      get_child-Bounded w libraries.percent (validate_hostname id) (hostname-IsChild id)
        "/security/threatIntelligence/hosts/" refl

  pub defender_ti_host_reputation_get-Bounded :
      (id : Text) → Bounded w (defender_ti_host_reputation_get libraries id)
  unfolding defender_ti_host_reputation_get is_base is_confined split_slash is_segment lit text_eq
  defender_ti_host_reputation_get-Bounded id =
      get_child_of-Bounded w libraries.percent (validate_hostname id) (hostname-IsChild id)
        "/security/threatIntelligence/hosts/" refl "/reputation" refl

  pub defender_ti_host_components_list-Bounded :
      (i : HostnameODataInput) → Bounded w (defender_ti_host_components_list libraries i)
  unfolding defender_ti_host_components_list is_base is_confined split_slash is_segment lit text_eq
  defender_ti_host_components_list-Bounded i =
      list_child_of-Bounded w libraries.percent (validate_hostname i.hostname)
        (hostname-IsChild i.hostname) "/security/threatIntelligence/hosts/" refl "/components" refl
        _ _ _

  pub defender_ti_host_component_get-Bounded :
      (id : Text) → Bounded w (defender_ti_host_component_get libraries id)
  unfolding defender_ti_host_component_get is_base is_confined split_slash is_segment lit text_eq
  defender_ti_host_component_get-Bounded id =
      get_child-Bounded w libraries.percent (validate_required_id id "component_id")
        (required_id-IsChild id "component_id") "/security/threatIntelligence/hostComponents/" refl

  pub defender_ti_host_cookies_list-Bounded :
      (i : HostnameODataInput) → Bounded w (defender_ti_host_cookies_list libraries i)
  unfolding defender_ti_host_cookies_list is_base is_confined split_slash is_segment lit text_eq
  defender_ti_host_cookies_list-Bounded i =
      list_child_of-Bounded w libraries.percent (validate_hostname i.hostname)
        (hostname-IsChild i.hostname) "/security/threatIntelligence/hosts/" refl "/cookies" refl _ _
        _

  pub defender_ti_host_cookie_get-Bounded :
      (id : Text) → Bounded w (defender_ti_host_cookie_get libraries id)
  unfolding defender_ti_host_cookie_get is_base is_confined split_slash is_segment lit text_eq
  defender_ti_host_cookie_get-Bounded id =
      get_child-Bounded w libraries.percent (validate_required_id id "cookie_id")
        (required_id-IsChild id "cookie_id") "/security/threatIntelligence/hostCookies/" refl

  pub defender_ti_host_ports_list-Bounded :
      (i : HostnameODataInput) → Bounded w (defender_ti_host_ports_list libraries i)
  unfolding defender_ti_host_ports_list is_base is_confined split_slash is_segment lit text_eq
  defender_ti_host_ports_list-Bounded i =
      list_child_of-Bounded w libraries.percent (validate_hostname i.hostname)
        (hostname-IsChild i.hostname) "/security/threatIntelligence/hosts/" refl "/ports" refl _ _ _

  pub defender_ti_host_port_get-Bounded :
      (id : Text) → Bounded w (defender_ti_host_port_get libraries id)
  unfolding defender_ti_host_port_get is_base is_confined split_slash is_segment lit text_eq
  defender_ti_host_port_get-Bounded id =
      get_child-Bounded w libraries.percent (validate_required_id id "port_id")
        (required_id-IsChild id "port_id") "/security/threatIntelligence/hostPorts/" refl

  pub defender_ti_host_trackers_list-Bounded :
      (i : HostnameODataInput) → Bounded w (defender_ti_host_trackers_list libraries i)
  unfolding defender_ti_host_trackers_list is_base is_confined split_slash is_segment lit text_eq
  defender_ti_host_trackers_list-Bounded i =
      list_child_of-Bounded w libraries.percent (validate_hostname i.hostname)
        (hostname-IsChild i.hostname) "/security/threatIntelligence/hosts/" refl "/trackers" refl _
        _ _

  pub defender_ti_host_tracker_get-Bounded :
      (id : Text) → Bounded w (defender_ti_host_tracker_get libraries id)
  unfolding defender_ti_host_tracker_get is_base is_confined split_slash is_segment lit text_eq
  defender_ti_host_tracker_get-Bounded id =
      get_child-Bounded w libraries.percent (validate_required_id id "tracker_id")
        (required_id-IsChild id "tracker_id") "/security/threatIntelligence/hostTrackers/" refl

  pub defender_ti_host_subdomains_list-Bounded :
      (i : HostnameODataInput) → Bounded w (defender_ti_host_subdomains_list libraries i)
  unfolding defender_ti_host_subdomains_list is_base is_confined split_slash is_segment lit text_eq
  defender_ti_host_subdomains_list-Bounded i =
      list_child_of-Bounded w libraries.percent (validate_hostname i.hostname)
        (hostname-IsChild i.hostname) "/security/threatIntelligence/hosts/" refl "/subdomains" refl
        _ _ _

  pub defender_ti_host_ssl_certs_list-Bounded :
      (i : HostnameODataInput) → Bounded w (defender_ti_host_ssl_certs_list libraries i)
  unfolding defender_ti_host_ssl_certs_list is_base is_confined split_slash is_segment lit text_eq
  defender_ti_host_ssl_certs_list-Bounded i =
      list_child_of-Bounded w libraries.percent (validate_hostname i.hostname)
        (hostname-IsChild i.hostname) "/security/threatIntelligence/hosts/" refl "/sslCertificates"
        refl _ _ _

  pub defender_ti_host_whois_get-Bounded :
      (id : Text) → Bounded w (defender_ti_host_whois_get libraries id)
  unfolding defender_ti_host_whois_get is_base is_confined split_slash is_segment lit text_eq
  defender_ti_host_whois_get-Bounded id =
      get_child_of-Bounded w libraries.percent (validate_hostname id) (hostname-IsChild id)
        "/security/threatIntelligence/hosts/" refl "/whois" refl

  pub defender_ti_host_whois_history_list-Bounded :
      (i : HostnameODataInput) → Bounded w (defender_ti_host_whois_history_list libraries i)
  unfolding defender_ti_host_whois_history_list is_base is_confined split_slash is_segment lit
      text_eq
  defender_ti_host_whois_history_list-Bounded i =
      list_child_of-Bounded w libraries.percent (validate_hostname i.hostname)
        (hostname-IsChild i.hostname) "/security/threatIntelligence/hosts/" refl
        "/whoisHistoryRecords" refl _ _ _

  pub defender_ti_host_pairs_list-Bounded :
      (i : HostnameODataInput) → Bounded w (defender_ti_host_pairs_list libraries i)
  unfolding defender_ti_host_pairs_list is_base is_confined split_slash is_segment lit text_eq
  defender_ti_host_pairs_list-Bounded i =
      list_child_of-Bounded w libraries.percent (validate_hostname i.hostname)
        (hostname-IsChild i.hostname) "/security/threatIntelligence/hosts/" refl "/hostPairs" refl _
        _ _

  pub defender_ti_host_pair_get-Bounded :
      (id : Text) → Bounded w (defender_ti_host_pair_get libraries id)
  unfolding defender_ti_host_pair_get is_base is_confined split_slash is_segment lit text_eq
  defender_ti_host_pair_get-Bounded id =
      get_child-Bounded w libraries.percent (validate_required_id id "pair_id")
        (required_id-IsChild id "pair_id") "/security/threatIntelligence/hostPairs/" refl

  pub defender_ti_host_child_pairs_list-Bounded :
      (i : HostnameODataInput) → Bounded w (defender_ti_host_child_pairs_list libraries i)
  unfolding defender_ti_host_child_pairs_list is_base is_confined split_slash is_segment lit text_eq
  defender_ti_host_child_pairs_list-Bounded i =
      list_child_of-Bounded w libraries.percent (validate_hostname i.hostname)
        (hostname-IsChild i.hostname) "/security/threatIntelligence/hosts/" refl "/childHostPairs"
        refl _ _ _

  pub defender_ti_host_parent_pairs_list-Bounded :
      (i : HostnameODataInput) → Bounded w (defender_ti_host_parent_pairs_list libraries i)
  unfolding defender_ti_host_parent_pairs_list is_base is_confined split_slash is_segment lit
      text_eq
  defender_ti_host_parent_pairs_list-Bounded i =
      list_child_of-Bounded w libraries.percent (validate_hostname i.hostname)
        (hostname-IsChild i.hostname) "/security/threatIntelligence/hosts/" refl "/parentHostPairs"
        refl _ _ _

  pub defender_ti_host_passive_dns_list-Bounded :
      (i : HostnameODataInput) → Bounded w (defender_ti_host_passive_dns_list libraries i)
  unfolding defender_ti_host_passive_dns_list is_base is_confined split_slash is_segment lit text_eq
  defender_ti_host_passive_dns_list-Bounded i =
      list_child_of-Bounded w libraries.percent (validate_hostname i.hostname)
        (hostname-IsChild i.hostname) "/security/threatIntelligence/hosts/" refl "/passiveDns" refl
        _ _ _

  pub defender_ti_host_passive_dns_reverse_list-Bounded :
      (i : HostnameODataInput) → Bounded w (defender_ti_host_passive_dns_reverse_list libraries i)
  unfolding defender_ti_host_passive_dns_reverse_list is_base is_confined split_slash is_segment lit
      text_eq
  defender_ti_host_passive_dns_reverse_list-Bounded i =
      list_child_of-Bounded w libraries.percent (validate_hostname i.hostname)
        (hostname-IsChild i.hostname) "/security/threatIntelligence/hosts/" refl
        "/passiveDnsReverse" refl _ _ _
