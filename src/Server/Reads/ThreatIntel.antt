-- ===== src/Server/Reads/ThreatIntel.antt =====
-- `defender_ti` of src/server.rs.
use microsoft_defender_mcp.Prelude.{
  String, Bool, ◌&&◌, ◌||◌, not, List, [], ◌∷◌, str_eq, if◌then◌else◌, err, unwrap_or, ◌>>=◌,
}
use microsoft_defender_mcp.Auth.Identity.{PermissionCategory}
use microsoft_defender_mcp.Client.{ODataParams}
use microsoft_defender_mcp.Constants.{default_top}
use microsoft_defender_mcp.Error.{unknown_action_error}
use microsoft_defender_mcp.Inputs.Args.{Args, Misfit, rename_arg}
use microsoft_defender_mcp.Inputs.Reads.{
  read_id, read_named, read_odata_list, read_hostname_odata, read_intel_profile_odata,
  read_article_odata, read_cert_related, read_vulnerability_odata, read_vuln_component,
}
use microsoft_defender_mcp.Inputs.Tools.{ThreatIntelInput, threat_intel_args}
use microsoft_defender_mcp.Server.Device.{is_some}
use microsoft_defender_mcp.Server.Reads.{
  Planned, call_action, select_action, ep_odata, ep_odata_get_as,
}
use microsoft_defender_mcp.Server.Reads.Hosts.{
  defender_ti_host_child_pairs_list, defender_ti_host_component_get,
  defender_ti_host_components_list, defender_ti_host_cookie_get, defender_ti_host_cookies_list,
  defender_ti_host_get, defender_ti_host_pair_get, defender_ti_host_pairs_list,
  defender_ti_host_parent_pairs_list, defender_ti_host_passive_dns_list,
  defender_ti_host_passive_dns_reverse_list, defender_ti_host_port_get, defender_ti_host_ports_list,
  defender_ti_host_reputation_get, defender_ti_host_ssl_certs_list,
  defender_ti_host_subdomains_list, defender_ti_host_tracker_get, defender_ti_host_trackers_list,
  defender_ti_host_whois_get, defender_ti_host_whois_history_list,
}
use microsoft_defender_mcp.Server.Reads.Intel.{
  defender_ti_article_get, defender_ti_article_indicator_get,
  defender_ti_article_indicators_global_list, defender_ti_article_indicators_list,
  defender_ti_articles_list, defender_ti_intel_profile_get, defender_ti_intel_profile_indicator_get,
  defender_ti_intel_profile_indicators_global_list, defender_ti_intel_profile_indicators_list,
  defender_ti_intel_profiles_list, defender_ti_passive_dns_get, defender_ti_ssl_cert_get,
  defender_ti_ssl_cert_related_hosts_list, defender_ti_ssl_certs_list,
  defender_ti_vulnerability_component_get, defender_ti_vulnerability_components_list,
  defender_ti_vulnerability_get, defender_ti_whois_record_get, defender_ti_whois_records_list,
}
use microsoft_defender_mcp.Server.Reads.Scope.{ReadConfig, unless_blocked, without}
use microsoft_defender_mcp.Server.Tools.{Libraries}
use microsoft_defender_mcp.Text.{Text, lit, starts_with}
use microsoft_defender_mcp.Text.Decimal.{pos}
use microsoft_defender_mcp.Validation.Odata.{validate_endpoint_odata_params}

abbrev pub ti_actions : List String
ti_actions =
    "intel_profiles_list" ∷ "intel_profile_get" ∷ "intel_profile_indicators_list"
    ∷ "intel_profile_indicator_get" ∷ "intel_profile_indicators_global_list" ∷ "articles_list"
    ∷ "article_get" ∷ "article_indicators_list" ∷ "article_indicator_get"
    ∷ "article_indicators_global_list" ∷ "host_get" ∷ "host_reputation_get" ∷ "host_components_list"
    ∷ "host_component_get" ∷ "host_cookies_list" ∷ "host_cookie_get" ∷ "host_ports_list"
    ∷ "host_port_get" ∷ "host_trackers_list" ∷ "host_tracker_get" ∷ "host_subdomains_list"
    ∷ "host_ssl_certs_list" ∷ "host_whois_get" ∷ "host_whois_history_list" ∷ "host_pairs_list"
    ∷ "host_pair_get" ∷ "host_child_pairs_list" ∷ "host_parent_pairs_list" ∷ "host_passive_dns_list"
    ∷ "host_passive_dns_reverse_list" ∷ "ssl_certs_list" ∷ "ssl_cert_get"
    ∷ "ssl_cert_related_hosts_list" ∷ "whois_records_list" ∷ "whois_record_get" ∷ "passive_dns_get"
    ∷ "vulnerability_get" ∷ "vulnerability_components_list" ∷ "vulnerability_component_get"
    ∷ "custom_indicator_list" ∷ []

module _ (libraries : Libraries) (explain : Misfit → Text) (config : ReadConfig)
    (input : ThreatIntelInput) where
  -- `id` is the host name or the number of the vulnerability where an action asks for one.
  abbrev pub host_by_name : Bool
  host_by_name =
      starts_with (lit "host_") (lit input.action)
      && not (
          str_eq input.action "host_component_get"
          || str_eq input.action "host_cookie_get"
          || str_eq input.action "host_port_get"
          || str_eq input.action "host_tracker_get"
          || str_eq input.action "host_pair_get")

  abbrev args : Args
  args =
      let given = threat_intel_args input in
      let named = if host_by_name then rename_arg "id" "hostname" given else given in
      if starts_with (lit "vulnerability_") (lit input.action)
      then rename_arg "id" "vulnerability_id" named
      else named

  -- The fields that the list does not use, in the order of the checks.
  abbrev pub unused_fields : List (Bool × String)
  unused_fields =
      (is_some input.id, "id")
      ∷ (is_some input.hostname, "hostname")
      ∷ (is_some input.component_id, "component_id")
      ∷ (is_some input.select, "select")
      ∷ (is_some input.expand, "expand")
      ∷ (is_some input.search, "search")
      ∷ (is_some input.count, "count")
      ∷ []

  abbrev pub page : ODataParams
  page =
      ep_odata input.filter (unwrap_or (pos default_top) input.top) (unwrap_or (pos 0) input.skip)

  unfoldable pub custom_indicator_list : Planned
  custom_indicator_list = without unused_fields "custom_indicator_list" (
      validate_endpoint_odata_params input.top input.skip >>= λ _.
      ep_odata_get_as (lit "/api/indicators") page PermissionCategory.indicators)

  abbrev pub ti_action_table : List (String × Planned)
  ti_action_table =
      (
        "intel_profiles_list",
        call_action explain (read_odata_list args) (defender_ti_intel_profiles_list libraries),
      )
      ∷ (
        "intel_profile_get",
        call_action explain (read_id "intel_profile_id" args)
            (defender_ti_intel_profile_get libraries),
      )
      ∷ (
        "intel_profile_indicators_list",
        call_action explain (read_intel_profile_odata args)
            (defender_ti_intel_profile_indicators_list libraries),
      )
      ∷ (
        "intel_profile_indicator_get",
        call_action explain (read_id "indicator_id" args)
            (defender_ti_intel_profile_indicator_get libraries),
      )
      ∷ (
        "intel_profile_indicators_global_list",
        call_action explain (read_odata_list args)
            (defender_ti_intel_profile_indicators_global_list libraries),
      )
      ∷ (
        "articles_list",
        call_action explain (read_odata_list args) (defender_ti_articles_list libraries),
      )
      ∷ (
        "article_get",
        call_action explain (read_id "article_id" args) (defender_ti_article_get libraries),
      )
      ∷ (
        "article_indicators_list",
        call_action explain (read_article_odata args)
            (defender_ti_article_indicators_list libraries),
      )
      ∷ (
        "article_indicator_get",
        call_action explain (read_id "indicator_id" args)
            (defender_ti_article_indicator_get libraries),
      )
      ∷ (
        "article_indicators_global_list",
        call_action explain (read_odata_list args)
            (defender_ti_article_indicators_global_list libraries),
      )
      ∷ (
        "host_get",
        call_action explain (read_named "hostname" args) (defender_ti_host_get libraries),
      )
      ∷ (
        "host_reputation_get",
        call_action explain (read_named "hostname" args)
            (defender_ti_host_reputation_get libraries),
      )
      ∷ (
        "host_components_list",
        call_action explain (read_hostname_odata args) (defender_ti_host_components_list libraries),
      )
      ∷ (
        "host_component_get",
        call_action explain (read_id "component_id" args)
            (defender_ti_host_component_get libraries),
      )
      ∷ (
        "host_cookies_list",
        call_action explain (read_hostname_odata args) (defender_ti_host_cookies_list libraries),
      )
      ∷ (
        "host_cookie_get",
        call_action explain (read_id "cookie_id" args) (defender_ti_host_cookie_get libraries),
      )
      ∷ (
        "host_ports_list",
        call_action explain (read_hostname_odata args) (defender_ti_host_ports_list libraries),
      )
      ∷ (
        "host_port_get",
        call_action explain (read_id "port_id" args) (defender_ti_host_port_get libraries),
      )
      ∷ (
        "host_trackers_list",
        call_action explain (read_hostname_odata args) (defender_ti_host_trackers_list libraries),
      )
      ∷ (
        "host_tracker_get",
        call_action explain (read_id "tracker_id" args) (defender_ti_host_tracker_get libraries),
      )
      ∷ (
        "host_subdomains_list",
        call_action explain (read_hostname_odata args) (defender_ti_host_subdomains_list libraries),
      )
      ∷ (
        "host_ssl_certs_list",
        call_action explain (read_hostname_odata args) (defender_ti_host_ssl_certs_list libraries),
      )
      ∷ (
        "host_whois_get",
        call_action explain (read_named "hostname" args) (defender_ti_host_whois_get libraries),
      )
      ∷ (
        "host_whois_history_list",
        call_action explain (read_hostname_odata args)
            (defender_ti_host_whois_history_list libraries),
      )
      ∷ (
        "host_pairs_list",
        call_action explain (read_hostname_odata args) (defender_ti_host_pairs_list libraries),
      )
      ∷ (
        "host_pair_get",
        call_action explain (read_id "pair_id" args) (defender_ti_host_pair_get libraries),
      )
      ∷ (
        "host_child_pairs_list",
        call_action explain (read_hostname_odata args)
            (defender_ti_host_child_pairs_list libraries),
      )
      ∷ (
        "host_parent_pairs_list",
        call_action explain (read_hostname_odata args)
            (defender_ti_host_parent_pairs_list libraries),
      )
      ∷ (
        "host_passive_dns_list",
        call_action explain (read_hostname_odata args)
            (defender_ti_host_passive_dns_list libraries),
      )
      ∷ (
        "host_passive_dns_reverse_list",
        call_action explain (read_hostname_odata args)
            (defender_ti_host_passive_dns_reverse_list libraries),
      )
      ∷ (
        "ssl_certs_list",
        call_action explain (read_odata_list args) (defender_ti_ssl_certs_list libraries),
      )
      ∷ (
        "ssl_cert_get",
        call_action explain (read_id "certificate_id" args) (defender_ti_ssl_cert_get libraries),
      )
      ∷ (
        "ssl_cert_related_hosts_list",
        call_action explain (read_cert_related args)
            (defender_ti_ssl_cert_related_hosts_list libraries),
      )
      ∷ (
        "whois_records_list",
        call_action explain (read_odata_list args) (defender_ti_whois_records_list libraries),
      )
      ∷ (
        "whois_record_get",
        call_action explain (read_id "record_id" args) (defender_ti_whois_record_get libraries),
      )
      ∷ (
        "passive_dns_get",
        call_action explain (read_id "record_id" args) (defender_ti_passive_dns_get libraries),
      )
      ∷ (
        "vulnerability_get",
        call_action explain (read_named "vulnerability_id" args)
            (defender_ti_vulnerability_get libraries),
      )
      ∷ (
        "vulnerability_components_list",
        call_action explain (read_vulnerability_odata args)
            (defender_ti_vulnerability_components_list libraries),
      )
      ∷ (
        "vulnerability_component_get",
        call_action explain (read_vuln_component args)
            (defender_ti_vulnerability_component_get libraries),
      )
      ∷ ("custom_indicator_list", custom_indicator_list)
      ∷ []

  unfoldable pub defender_ti : Planned
  defender_ti = unless_blocked config input.action (
      select_action input.action ti_action_table
        (err (unknown_action_error "defender_ti" input.action ti_actions)))
