-- ===== src/Server/Reads/Reach/Intel.antt =====
-- The actions of Intel.antt stay in their bounds.
use microsoft_defender_mcp.Prelude.{◌++◌, refl, inl, Bool, [], OnOk-bind}
use microsoft_defender_mcp.Client.{graph_get}
use microsoft_defender_mcp.Client.Paths.{
  is_base, is_confined, split_slash, is_segment, base-Confined, segment-Follows-Confined,
}
use microsoft_defender_mcp.Inputs.Reads.{
  ODataListInput, IntelProfileIdODataInput, ArticleIdODataInput, CertRelatedHostsInput,
  VulnerabilityODataInput, VulnComponentGetInput,
}
use microsoft_defender_mcp.Server.Reads.{child}
use microsoft_defender_mcp.Server.Reads.Intel.{
  defender_ti_article_get, defender_ti_article_indicator_get,
  defender_ti_article_indicators_global_list, defender_ti_article_indicators_list,
  defender_ti_articles_list, defender_ti_intel_profile_get, defender_ti_intel_profile_indicator_get,
  defender_ti_intel_profile_indicators_global_list, defender_ti_intel_profile_indicators_list,
  defender_ti_intel_profiles_list, defender_ti_passive_dns_get, defender_ti_ssl_cert_get,
  defender_ti_ssl_cert_related_hosts_list, defender_ti_ssl_certs_list,
  defender_ti_vulnerability_component_get, defender_ti_vulnerability_components_list,
  defender_ti_vulnerability_get, defender_ti_whois_record_get, defender_ti_whois_records_list,
}
use microsoft_defender_mcp.Server.Reads.Safe.{
  Reaching, Bounded, required_id-IsChild, cve_id-IsChild, child-Confined, encode-IsSegment,
}
use microsoft_defender_mcp.Server.Reads.Steps.{
  Bounded-fetch, list_all-Bounded, get_child-Bounded, list_child_of-Bounded,
}
use microsoft_defender_mcp.Server.Tools.{Libraries}
use microsoft_defender_mcp.Text.{Text, lit, text_eq}
use microsoft_defender_mcp.Validation.Encoding.{encode_path_segment}
use microsoft_defender_mcp.Validation.Hashes.{validate_cve_id}
use microsoft_defender_mcp.Validation.Names.{validate_required_id}

module _ (libraries : Libraries) (w : Bool) where
  pub defender_ti_intel_profiles_list-Bounded :
      (i : ODataListInput) → Bounded w (defender_ti_intel_profiles_list libraries i)
  unfolding defender_ti_intel_profiles_list is_base is_confined split_slash is_segment lit text_eq
  defender_ti_intel_profiles_list-Bounded i =
      list_all-Bounded w _ _ _ "/security/threatIntelligence/intelProfiles" refl

  pub defender_ti_intel_profile_get-Bounded :
      (id : Text) → Bounded w (defender_ti_intel_profile_get libraries id)
  unfolding defender_ti_intel_profile_get is_base is_confined split_slash is_segment lit text_eq
  defender_ti_intel_profile_get-Bounded id =
      get_child-Bounded w libraries.percent (validate_required_id id "intel_profile_id")
        (required_id-IsChild id "intel_profile_id") "/security/threatIntelligence/intelProfiles/"
        refl

  pub defender_ti_intel_profile_indicators_list-Bounded :
      (i : IntelProfileIdODataInput)
      → Bounded w (defender_ti_intel_profile_indicators_list libraries i)
  unfolding defender_ti_intel_profile_indicators_list is_base is_confined split_slash is_segment lit
      text_eq
  defender_ti_intel_profile_indicators_list-Bounded i =
      list_child_of-Bounded w libraries.percent
        (validate_required_id i.intel_profile_id "intel_profile_id")
        (required_id-IsChild i.intel_profile_id "intel_profile_id")
        "/security/threatIntelligence/intelProfiles/" refl "/indicators" refl _ _ _

  pub defender_ti_intel_profile_indicator_get-Bounded :
      (id : Text) → Bounded w (defender_ti_intel_profile_indicator_get libraries id)
  unfolding defender_ti_intel_profile_indicator_get is_base is_confined split_slash is_segment lit
      text_eq
  defender_ti_intel_profile_indicator_get-Bounded id =
      get_child-Bounded w libraries.percent (validate_required_id id "indicator_id")
        (required_id-IsChild id "indicator_id")
        "/security/threatIntelligence/intelProfileIndicators/" refl

  pub defender_ti_intel_profile_indicators_global_list-Bounded :
      (i : ODataListInput)
      → Bounded w (defender_ti_intel_profile_indicators_global_list libraries i)
  unfolding defender_ti_intel_profile_indicators_global_list is_base is_confined split_slash
      is_segment lit text_eq
  defender_ti_intel_profile_indicators_global_list-Bounded i =
      list_all-Bounded w _ _ _ "/security/threatIntelligence/intelProfileIndicators" refl

  pub defender_ti_articles_list-Bounded :
      (i : ODataListInput) → Bounded w (defender_ti_articles_list libraries i)
  unfolding defender_ti_articles_list is_base is_confined split_slash is_segment lit text_eq
  defender_ti_articles_list-Bounded i =
      list_all-Bounded w _ _ _ "/security/threatIntelligence/articles" refl

  pub defender_ti_article_get-Bounded :
      (id : Text) → Bounded w (defender_ti_article_get libraries id)
  unfolding defender_ti_article_get is_base is_confined split_slash is_segment lit text_eq
  defender_ti_article_get-Bounded id =
      get_child-Bounded w libraries.percent (validate_required_id id "article_id")
        (required_id-IsChild id "article_id") "/security/threatIntelligence/articles/" refl

  pub defender_ti_article_indicators_list-Bounded :
      (i : ArticleIdODataInput) → Bounded w (defender_ti_article_indicators_list libraries i)
  unfolding defender_ti_article_indicators_list is_base is_confined split_slash is_segment lit
      text_eq
  defender_ti_article_indicators_list-Bounded i =
      list_child_of-Bounded w libraries.percent (validate_required_id i.article_id "article_id")
        (required_id-IsChild i.article_id "article_id") "/security/threatIntelligence/articles/"
        refl "/indicators" refl _ _ _

  pub defender_ti_article_indicator_get-Bounded :
      (id : Text) → Bounded w (defender_ti_article_indicator_get libraries id)
  unfolding defender_ti_article_indicator_get is_base is_confined split_slash is_segment lit text_eq
  defender_ti_article_indicator_get-Bounded id =
      get_child-Bounded w libraries.percent (validate_required_id id "indicator_id")
        (required_id-IsChild id "indicator_id") "/security/threatIntelligence/articleIndicators/"
        refl

  pub defender_ti_article_indicators_global_list-Bounded :
      (i : ODataListInput) → Bounded w (defender_ti_article_indicators_global_list libraries i)
  unfolding defender_ti_article_indicators_global_list is_base is_confined split_slash is_segment
      lit text_eq
  defender_ti_article_indicators_global_list-Bounded i =
      list_all-Bounded w _ _ _ "/security/threatIntelligence/articleIndicators" refl

  pub defender_ti_ssl_certs_list-Bounded :
      (i : ODataListInput) → Bounded w (defender_ti_ssl_certs_list libraries i)
  unfolding defender_ti_ssl_certs_list is_base is_confined split_slash is_segment lit text_eq
  defender_ti_ssl_certs_list-Bounded i =
      list_all-Bounded w _ _ _ "/security/threatIntelligence/sslCertificates" refl

  pub defender_ti_ssl_cert_get-Bounded :
      (id : Text) → Bounded w (defender_ti_ssl_cert_get libraries id)
  unfolding defender_ti_ssl_cert_get is_base is_confined split_slash is_segment lit text_eq
  defender_ti_ssl_cert_get-Bounded id =
      get_child-Bounded w libraries.percent (validate_required_id id "certificate_id")
        (required_id-IsChild id "certificate_id") "/security/threatIntelligence/sslCertificates/"
        refl

  pub defender_ti_ssl_cert_related_hosts_list-Bounded :
      (i : CertRelatedHostsInput) → Bounded w (defender_ti_ssl_cert_related_hosts_list libraries i)
  unfolding defender_ti_ssl_cert_related_hosts_list is_base is_confined split_slash is_segment lit
      text_eq
  defender_ti_ssl_cert_related_hosts_list-Bounded i =
      list_child_of-Bounded w libraries.percent
        (validate_required_id i.certificate_id "certificate_id")
        (required_id-IsChild i.certificate_id "certificate_id")
        "/security/threatIntelligence/sslCertificates/" refl "/relatedHosts" refl _ _ _

  pub defender_ti_whois_records_list-Bounded :
      (i : ODataListInput) → Bounded w (defender_ti_whois_records_list libraries i)
  unfolding defender_ti_whois_records_list is_base is_confined split_slash is_segment lit text_eq
  defender_ti_whois_records_list-Bounded i =
      list_all-Bounded w _ _ _ "/security/threatIntelligence/whoisRecords" refl

  pub defender_ti_whois_record_get-Bounded :
      (id : Text) → Bounded w (defender_ti_whois_record_get libraries id)
  unfolding defender_ti_whois_record_get is_base is_confined split_slash is_segment lit text_eq
  defender_ti_whois_record_get-Bounded id =
      get_child-Bounded w libraries.percent (validate_required_id id "record_id")
        (required_id-IsChild id "record_id") "/security/threatIntelligence/whoisRecords/" refl

  pub defender_ti_passive_dns_get-Bounded :
      (id : Text) → Bounded w (defender_ti_passive_dns_get libraries id)
  unfolding defender_ti_passive_dns_get is_base is_confined split_slash is_segment lit text_eq
  defender_ti_passive_dns_get-Bounded id =
      get_child-Bounded w libraries.percent (validate_required_id id "record_id")
        (required_id-IsChild id "record_id") "/security/threatIntelligence/passiveDnsRecords/" refl

  pub defender_ti_vulnerability_get-Bounded :
      (id : Text) → Bounded w (defender_ti_vulnerability_get libraries id)
  unfolding defender_ti_vulnerability_get is_base is_confined split_slash is_segment lit text_eq
  defender_ti_vulnerability_get-Bounded id =
      get_child-Bounded w libraries.percent (validate_cve_id libraries.regex id)
        (cve_id-IsChild libraries.regex id) "/security/threatIntelligence/vulnerabilities/" refl

  pub defender_ti_vulnerability_components_list-Bounded :
      (i : VulnerabilityODataInput)
      → Bounded w (defender_ti_vulnerability_components_list libraries i)
  unfolding defender_ti_vulnerability_components_list is_base is_confined split_slash is_segment lit
      text_eq
  defender_ti_vulnerability_components_list-Bounded i =
      list_child_of-Bounded w libraries.percent (validate_cve_id libraries.regex i.vulnerability_id)
        (cve_id-IsChild libraries.regex i.vulnerability_id)
        "/security/threatIntelligence/vulnerabilities/" refl "/components" refl _ _ _

  pub defender_ti_vulnerability_component_get-Bounded :
      (i : VulnComponentGetInput) → Bounded w (defender_ti_vulnerability_component_get libraries i)
  unfolding defender_ti_vulnerability_component_get is_base is_confined split_slash is_segment lit
      text_eq
  defender_ti_vulnerability_component_get-Bounded i =
      OnOk-bind (Reaching w) (validate_cve_id libraries.regex i.vulnerability_id) _ λ v e.
        OnOk-bind (Reaching w) (validate_required_id i.component_id "component_id") _ λ c f.
          let vulnerability = encode_path_segment libraries.percent v in
          let component = child libraries.percent "/components/" c in
          let named = required_id-IsChild i.component_id "component_id" c f in
          let numbered = cve_id-IsChild libraries.regex i.vulnerability_id v e in
          Bounded-fetch w
            (graph_get
              (lit "/security/threatIntelligence/vulnerabilities/" ++ (vulnerability ++ component))
              [])
            (record {
              path =
                  base-Confined (lit "/security/threatIntelligence/vulnerabilities/")
                    (vulnerability ++ component) refl
                    (segment-Follows-Confined vulnerability component
                      (encode-IsSegment libraries.percent v numbered)
                      (child-Confined libraries.percent "/components/" c refl named));
              reading = inl refl;
            })
