-- ===== src/Server/Reads/Intel.antt =====
-- Threat intelligence of src/server.rs: profiles, articles, certificates, records and vulnerabilities.
use microsoft_defender_mcp.Prelude.{some, ◌++◌, ◌>>=◌}
use microsoft_defender_mcp.Client.{no_odata}
use microsoft_defender_mcp.Inputs.Reads.{
  ODataListInput, IntelProfileIdODataInput, ArticleIdODataInput, CertRelatedHostsInput,
  VulnerabilityODataInput, VulnComponentGetInput,
}
use microsoft_defender_mcp.Server.Reads.{
  Planned, from_odata_list, from_intel_profile_odata, from_article_odata, from_cert_related_odata,
  simple_get, get_child, list_child_of, list_all,
}
use microsoft_defender_mcp.Server.Tools.{Libraries}
use microsoft_defender_mcp.Text.{Text, lit}
use microsoft_defender_mcp.Validation.Encoding.{encode_path_segment}
use microsoft_defender_mcp.Validation.Hashes.{validate_cve_id}
use microsoft_defender_mcp.Validation.Names.{validate_required_id}

module _ (libraries : Libraries) where
  unfoldable pub defender_ti_intel_profiles_list : ODataListInput → Planned
  defender_ti_intel_profiles_list i =
      list_all i.top i.skip (from_odata_list i) "/security/threatIntelligence/intelProfiles"

  unfoldable pub defender_ti_intel_profile_get : Text → Planned
  defender_ti_intel_profile_get id =
      get_child libraries.percent (validate_required_id id "intel_profile_id")
        "/security/threatIntelligence/intelProfiles/"

  unfoldable pub defender_ti_intel_profile_indicators_list : IntelProfileIdODataInput → Planned
  defender_ti_intel_profile_indicators_list i =
      list_child_of libraries.percent (validate_required_id i.intel_profile_id "intel_profile_id")
        i.top i.skip (from_intel_profile_odata i) "/security/threatIntelligence/intelProfiles/"
        "/indicators"

  unfoldable pub defender_ti_intel_profile_indicator_get : Text → Planned
  defender_ti_intel_profile_indicator_get id =
      get_child libraries.percent (validate_required_id id "indicator_id")
        "/security/threatIntelligence/intelProfileIndicators/"

  unfoldable pub defender_ti_intel_profile_indicators_global_list : ODataListInput → Planned
  defender_ti_intel_profile_indicators_global_list i =
      list_all i.top i.skip (from_odata_list i)
        "/security/threatIntelligence/intelProfileIndicators"

  unfoldable pub defender_ti_articles_list : ODataListInput → Planned
  defender_ti_articles_list i =
      list_all i.top i.skip (from_odata_list i) "/security/threatIntelligence/articles"

  unfoldable pub defender_ti_article_get : Text → Planned
  defender_ti_article_get id =
      get_child libraries.percent (validate_required_id id "article_id")
        "/security/threatIntelligence/articles/"

  unfoldable pub defender_ti_article_indicators_list : ArticleIdODataInput → Planned
  defender_ti_article_indicators_list i =
      list_child_of libraries.percent (validate_required_id i.article_id "article_id") i.top i.skip
        (from_article_odata i) "/security/threatIntelligence/articles/" "/indicators"

  unfoldable pub defender_ti_article_indicator_get : Text → Planned
  defender_ti_article_indicator_get id =
      get_child libraries.percent (validate_required_id id "indicator_id")
        "/security/threatIntelligence/articleIndicators/"

  unfoldable pub defender_ti_article_indicators_global_list : ODataListInput → Planned
  defender_ti_article_indicators_global_list i =
      list_all i.top i.skip (from_odata_list i) "/security/threatIntelligence/articleIndicators"

  unfoldable pub defender_ti_ssl_certs_list : ODataListInput → Planned
  defender_ti_ssl_certs_list i =
      list_all i.top i.skip (from_odata_list i) "/security/threatIntelligence/sslCertificates"

  unfoldable pub defender_ti_ssl_cert_get : Text → Planned
  defender_ti_ssl_cert_get id =
      get_child libraries.percent (validate_required_id id "certificate_id")
        "/security/threatIntelligence/sslCertificates/"

  unfoldable pub defender_ti_ssl_cert_related_hosts_list : CertRelatedHostsInput → Planned
  defender_ti_ssl_cert_related_hosts_list i =
      list_child_of libraries.percent (validate_required_id i.certificate_id "certificate_id") i.top
        i.skip (from_cert_related_odata i) "/security/threatIntelligence/sslCertificates/"
        "/relatedHosts"

  unfoldable pub defender_ti_whois_records_list : ODataListInput → Planned
  defender_ti_whois_records_list i =
      list_all i.top i.skip (from_odata_list i) "/security/threatIntelligence/whoisRecords"

  unfoldable pub defender_ti_whois_record_get : Text → Planned
  defender_ti_whois_record_get id =
      get_child libraries.percent (validate_required_id id "record_id")
        "/security/threatIntelligence/whoisRecords/"

  unfoldable pub defender_ti_passive_dns_get : Text → Planned
  defender_ti_passive_dns_get id =
      get_child libraries.percent (validate_required_id id "record_id")
        "/security/threatIntelligence/passiveDnsRecords/"

  unfoldable pub defender_ti_vulnerability_get : Text → Planned
  defender_ti_vulnerability_get id =
      get_child libraries.percent (validate_cve_id libraries.regex id)
        "/security/threatIntelligence/vulnerabilities/"

  unfoldable pub defender_ti_vulnerability_components_list : VulnerabilityODataInput → Planned
  defender_ti_vulnerability_components_list i =
      list_child_of libraries.percent (validate_cve_id libraries.regex i.vulnerability_id) i.top
        i.skip (record no_odata { top = some i.top; skip = some i.skip; select = i.select })
        "/security/threatIntelligence/vulnerabilities/" "/components"

  unfoldable pub defender_ti_vulnerability_component_get : VulnComponentGetInput → Planned
  defender_ti_vulnerability_component_get i =
      validate_cve_id libraries.regex i.vulnerability_id >>= λ vulnerability.
      (validate_required_id i.component_id "component_id" >>= λ component. simple_get (
        lit "/security/threatIntelligence/vulnerabilities/"
        ++ (encode_path_segment libraries.percent vulnerability
            ++ (lit "/components/" ++ encode_path_segment libraries.percent component))))
