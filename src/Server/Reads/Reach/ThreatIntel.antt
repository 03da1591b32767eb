-- ===== src/Server/Reads/Reach/ThreatIntel.antt =====
-- What `defender_ti` of src/server.rs reaches.
use microsoft_defender_mcp.Prelude.{refl, inr, All}
use microsoft_defender_mcp.Auth.Identity.{PermissionCategory}
use microsoft_defender_mcp.Client.{Client, endpoint_get_with_odata_as}
use microsoft_defender_mcp.Client.Paths.{is_base, is_confined, literal-Confined}
use microsoft_defender_mcp.Inputs.Args.{Misfit}
use microsoft_defender_mcp.Inputs.Tools.{ThreatIntelInput}
use microsoft_defender_mcp.Server.Reads.{serve}
use microsoft_defender_mcp.Server.Reads.Reach.Hosts.{
  defender_ti_host_child_pairs_list-Bounded, defender_ti_host_component_get-Bounded,
  defender_ti_host_components_list-Bounded, defender_ti_host_cookie_get-Bounded,
  defender_ti_host_cookies_list-Bounded, defender_ti_host_get-Bounded,
  defender_ti_host_pair_get-Bounded, defender_ti_host_pairs_list-Bounded,
  defender_ti_host_parent_pairs_list-Bounded, defender_ti_host_passive_dns_list-Bounded,
  defender_ti_host_passive_dns_reverse_list-Bounded, defender_ti_host_port_get-Bounded,
  defender_ti_host_ports_list-Bounded, defender_ti_host_reputation_get-Bounded,
  defender_ti_host_ssl_certs_list-Bounded, defender_ti_host_subdomains_list-Bounded,
  defender_ti_host_tracker_get-Bounded, defender_ti_host_trackers_list-Bounded,
  defender_ti_host_whois_get-Bounded, defender_ti_host_whois_history_list-Bounded,
}
use microsoft_defender_mcp.Server.Reads.Reach.Intel.{
  defender_ti_article_get-Bounded, defender_ti_article_indicator_get-Bounded,
  defender_ti_article_indicators_global_list-Bounded, defender_ti_article_indicators_list-Bounded,
  defender_ti_articles_list-Bounded, defender_ti_intel_profile_get-Bounded,
  defender_ti_intel_profile_indicator_get-Bounded,
  defender_ti_intel_profile_indicators_global_list-Bounded,
  defender_ti_intel_profile_indicators_list-Bounded, defender_ti_intel_profiles_list-Bounded,
  defender_ti_passive_dns_get-Bounded, defender_ti_ssl_cert_get-Bounded,
  defender_ti_ssl_cert_related_hosts_list-Bounded, defender_ti_ssl_certs_list-Bounded,
  defender_ti_vulnerability_component_get-Bounded,
  defender_ti_vulnerability_components_list-Bounded, defender_ti_vulnerability_get-Bounded,
  defender_ti_whois_record_get-Bounded, defender_ti_whois_records_list-Bounded,
}
use microsoft_defender_mcp.Server.Reads.Safe.{Reaches, Bounded}
use microsoft_defender_mcp.Server.Reads.Scope.{ReadConfig, scope_of}
use microsoft_defender_mcp.Server.Reads.Scoped.{
  needs_scope, scope_requested, unless_blocked-Bounded, without-Bounded, serve-Reaches,
}
use microsoft_defender_mcp.Server.Reads.Steps.{
  Each, no_more, ◌also◌, Bounded-err, Bounded-fetch, Bounded-after, call_action-Bounded,
  select_action-Bounded,
}
use microsoft_defender_mcp.Server.Reads.ThreatIntel.{
  defender_ti, ti_action_table, custom_indicator_list, unused_fields, page,
}
use microsoft_defender_mcp.Server.Tools.{Libraries}
use microsoft_defender_mcp.Text.{Text, lit, text_eq}
use microsoft_defender_mcp.Validation.Odata.{validate_endpoint_odata_params}

module _ (libraries : Libraries) (explain : Misfit → Text) (config : ReadConfig)
    (input : ThreatIntelInput) where
  custom_indicator_list-Bounded :
      Bounded
        (needs_scope "custom_indicator_list")
        (custom_indicator_list libraries explain config input)
  unfolding custom_indicator_list is_base is_confined lit text_eq scope_of
  custom_indicator_list-Bounded =
      without-Bounded _ (unused_fields libraries explain config input) "custom_indicator_list" _ (
        Bounded-after _ (validate_endpoint_odata_params input.top input.skip) _ (
          Bounded-fetch _
            (endpoint_get_with_odata_as (lit "/api/indicators")
              (page libraries explain config input) PermissionCategory.indicators)
            (record {
              path = literal-Confined (lit "/api/indicators") refl;
              reading = inr (inr refl);
            })))

  defender_ti-Each : Each needs_scope (ti_action_table libraries explain config input)
  defender_ti-Each =
      call_action-Bounded _ explain _ _ (defender_ti_intel_profiles_list-Bounded libraries _)
      also call_action-Bounded _ explain _ _ (defender_ti_intel_profile_get-Bounded libraries _)
      also call_action-Bounded _ explain _ _
          (defender_ti_intel_profile_indicators_list-Bounded libraries _)
      also call_action-Bounded _ explain _ _
          (defender_ti_intel_profile_indicator_get-Bounded libraries _)
      also call_action-Bounded _ explain _ _
          (defender_ti_intel_profile_indicators_global_list-Bounded libraries _)
      also call_action-Bounded _ explain _ _ (defender_ti_articles_list-Bounded libraries _)
      also call_action-Bounded _ explain _ _ (defender_ti_article_get-Bounded libraries _)
      also call_action-Bounded _ explain _ _
          (defender_ti_article_indicators_list-Bounded libraries _)
      also call_action-Bounded _ explain _ _ (defender_ti_article_indicator_get-Bounded libraries _)
      also call_action-Bounded _ explain _ _
          (defender_ti_article_indicators_global_list-Bounded libraries _)
      also call_action-Bounded _ explain _ _ (defender_ti_host_get-Bounded libraries _)
      also call_action-Bounded _ explain _ _ (defender_ti_host_reputation_get-Bounded libraries _)
      also call_action-Bounded _ explain _ _ (defender_ti_host_components_list-Bounded libraries _)
      also call_action-Bounded _ explain _ _ (defender_ti_host_component_get-Bounded libraries _)
      also call_action-Bounded _ explain _ _ (defender_ti_host_cookies_list-Bounded libraries _)
      also call_action-Bounded _ explain _ _ (defender_ti_host_cookie_get-Bounded libraries _)
      also call_action-Bounded _ explain _ _ (defender_ti_host_ports_list-Bounded libraries _)
      also call_action-Bounded _ explain _ _ (defender_ti_host_port_get-Bounded libraries _)
      also call_action-Bounded _ explain _ _ (defender_ti_host_trackers_list-Bounded libraries _)
      also call_action-Bounded _ explain _ _ (defender_ti_host_tracker_get-Bounded libraries _)
      also call_action-Bounded _ explain _ _ (defender_ti_host_subdomains_list-Bounded libraries _)
      also call_action-Bounded _ explain _ _ (defender_ti_host_ssl_certs_list-Bounded libraries _)
      also call_action-Bounded _ explain _ _ (defender_ti_host_whois_get-Bounded libraries _)
      also call_action-Bounded _ explain _ _
          (defender_ti_host_whois_history_list-Bounded libraries _)
      also call_action-Bounded _ explain _ _ (defender_ti_host_pairs_list-Bounded libraries _)
      also call_action-Bounded _ explain _ _ (defender_ti_host_pair_get-Bounded libraries _)
      also call_action-Bounded _ explain _ _ (defender_ti_host_child_pairs_list-Bounded libraries _)
      also call_action-Bounded _ explain _ _
          (defender_ti_host_parent_pairs_list-Bounded libraries _)
      also call_action-Bounded _ explain _ _ (defender_ti_host_passive_dns_list-Bounded libraries _)
      also call_action-Bounded _ explain _ _
          (defender_ti_host_passive_dns_reverse_list-Bounded libraries _)
      also call_action-Bounded _ explain _ _ (defender_ti_ssl_certs_list-Bounded libraries _)
      also call_action-Bounded _ explain _ _ (defender_ti_ssl_cert_get-Bounded libraries _)
      also call_action-Bounded _ explain _ _
          (defender_ti_ssl_cert_related_hosts_list-Bounded libraries _)
      also call_action-Bounded _ explain _ _ (defender_ti_whois_records_list-Bounded libraries _)
      also call_action-Bounded _ explain _ _ (defender_ti_whois_record_get-Bounded libraries _)
      also call_action-Bounded _ explain _ _ (defender_ti_passive_dns_get-Bounded libraries _)
      also call_action-Bounded _ explain _ _ (defender_ti_vulnerability_get-Bounded libraries _)
      also call_action-Bounded _ explain _ _
          (defender_ti_vulnerability_components_list-Bounded libraries _)
      also call_action-Bounded _ explain _ _
          (defender_ti_vulnerability_component_get-Bounded libraries _)
      also custom_indicator_list-Bounded
      also no_more

  -- Every request that `defender_ti` makes has a path each of whose segments names a child, so that no
  -- value of the input leads elsewhere, and is under a category of reads, unless the action is one that
  -- needs a write-named scope and a user did not sign in under `--read-only`.
  pub defender_ti-Reaches :
      (client : Client)
      → All
          (Reaches (scope_requested config input.action))
          (serve client (defender_ti libraries explain config input)).1
  unfolding defender_ti
  defender_ti-Reaches client = serve-Reaches _ client _ (
      unless_blocked-Bounded config input.action _ (
        select_action-Bounded needs_scope input.action
          (ti_action_table libraries explain config input) _ defender_ti-Each (Bounded-err _ _)))
