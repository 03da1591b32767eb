-- ===== src/Inputs/Reads.antt =====
-- The inputs of the read-only tools and of their actions (src/server.rs). An input of one text is that
-- text; inputs that differ in the name of their identifier alone are one record here.
use microsoft_defender_mcp.Prelude.{
  String, Bool, false, Option, List, [], ◌∷◌, if◌then◌else◌, Result, ok, unwrap_or, ◌>>=◌,
}
use microsoft_defender_mcp.Constants.{default_top}
use microsoft_defender_mcp.Inputs.Args.{
  Args, Misfit, read_keys, text_of, int_of, flag_of, need_text,
}
use microsoft_defender_mcp.Text.{Text}
use microsoft_defender_mcp.Text.Decimal.{ℤ, pos}

pub record ODataListInput : Type 0 where
  pub top : ℤ
  pub skip : ℤ
  pub filter : Option Text
  pub select : Option Text
  pub expand : Option Text
  pub search : Option Text
  pub count : Option Bool

pub record HostnameODataInput : Type 0 where
  pub hostname : Text
  pub top : ℤ
  pub skip : ℤ
  pub filter : Option Text
  pub select : Option Text
  pub expand : Option Text
  pub count : Option Bool

pub record IntelProfileIdODataInput : Type 0 where
  pub intel_profile_id : Text
  pub top : ℤ
  pub skip : ℤ
  pub filter : Option Text
  pub select : Option Text
  pub expand : Option Text

pub record ArticleIdODataInput : Type 0 where
  pub article_id : Text
  pub top : ℤ
  pub skip : ℤ
  pub select : Option Text

pub record CertRelatedHostsInput : Type 0 where
  pub certificate_id : Text
  pub top : ℤ
  pub skip : ℤ
  pub count : Option Bool

pub record VulnerabilityODataInput : Type 0 where
  pub vulnerability_id : Text
  pub top : ℤ
  pub skip : ℤ
  pub select : Option Text

pub record VulnComponentGetInput : Type 0 where
  pub vulnerability_id : Text
  pub component_id : Text

pub record EndpointODataInput : Type 0 where
  pub filter : Option Text
  pub top : ℤ
  pub skip : ℤ

-- `SoftwareODataInput`, `CveODataInput` and `RemediationODataInput`
pub record EndpointIdODataInput : Type 0 where
  pub id : Text
  pub filter : Option Text
  pub top : ℤ
  pub skip : ℤ

pub record FindByTagInput : Type 0 where
  pub tag_name : Text
  pub use_starts_with : Bool

-- `IpStatsInput`, `DomainStatsInput` and `FileStatsInput`
pub record StatsInput : Type 0 where
  pub id : Text
  pub look_back_hours : Option ℤ

pub record XdrIncidentIdInput : Type 0 where
  pub incident_id : Text
  pub expand : Option Text

pub record LiveResponseResultInput : Type 0 where
  pub action_id : Text
  pub command_index : ℤ

-- The fields under their own names.
abbrev own : List String → List (String × String)
own [] = []
own (f ∷ fields) = (f, f) ∷ own fields

-- `#[serde(alias = "id")]`
abbrev aliased : String → List (String × String) → List (String × String)
aliased f names = (f, f) ∷ ("id", f) ∷ names

abbrev top_of : Args → ℤ
top_of args = unwrap_or (pos default_top) (int_of "top" args)

abbrev skip_of : Args → ℤ
skip_of args = unwrap_or (pos 0) (int_of "skip" args)

-- An input of one text, with the alias `id` and without.
unfoldable pub read_id : String → Args → Result Text Misfit
unfolding read_keys
read_id f args = read_keys (aliased f []) [] args >>= λ fields. need_text f fields

unfoldable pub read_named : String → Args → Result Text Misfit
unfolding read_keys
read_named f args = read_keys (own (f ∷ [])) [] args >>= λ fields. need_text f fields

unfoldable pub read_odata_list : Args → Result ODataListInput Misfit
unfolding read_keys
read_odata_list args =
    read_keys (own ("top" ∷ "skip" ∷ "filter" ∷ "select" ∷ "expand" ∷ "search" ∷ "count" ∷ [])) []
      args
    >>= λ fields. ok (record {
      top = top_of fields;
      skip = skip_of fields;
      filter = text_of "filter" fields;
      select = text_of "select" fields;
      expand = text_of "expand" fields;
      search = text_of "search" fields;
      count = flag_of "count" fields;
    })

unfoldable pub read_hostname_odata : Args → Result HostnameODataInput Misfit
unfolding read_keys
read_hostname_odata args =
    read_keys (own ("hostname" ∷ "top" ∷ "skip" ∷ "filter" ∷ "select" ∷ "expand" ∷ "count" ∷ [])) []
      args
    >>= λ fields.
        (need_text "hostname" fields >>= λ id. ok (record {
          hostname = id;
          top = top_of fields;
          skip = skip_of fields;
          filter = text_of "filter" fields;
          select = text_of "select" fields;
          expand = text_of "expand" fields;
          count = flag_of "count" fields;
        }))

unfoldable pub read_intel_profile_odata : Args → Result IntelProfileIdODataInput Misfit
unfolding read_keys
read_intel_profile_odata args =
    read_keys
      (aliased "intel_profile_id" (own ("top" ∷ "skip" ∷ "filter" ∷ "select" ∷ "expand" ∷ []))) []
      args
    >>= λ fields.
        (need_text "intel_profile_id" fields >>= λ id. ok (record {
          intel_profile_id = id;
          top = top_of fields;
          skip = skip_of fields;
          filter = text_of "filter" fields;
          select = text_of "select" fields;
          expand = text_of "expand" fields;
        }))

unfoldable pub read_article_odata : Args → Result ArticleIdODataInput Misfit
unfolding read_keys
read_article_odata args =
    read_keys (aliased "article_id" (own ("top" ∷ "skip" ∷ "select" ∷ []))) [] args >>= λ fields.
    (need_text "article_id" fields >>= λ id. ok (record {
      article_id = id;
      top = top_of fields;
      skip = skip_of fields;
      select = text_of "select" fields;
    }))

unfoldable pub read_cert_related : Args → Result CertRelatedHostsInput Misfit
unfolding read_keys
read_cert_related args =
    read_keys (aliased "certificate_id" (own ("top" ∷ "skip" ∷ "count" ∷ []))) [] args >>= λ fields.
    (need_text "certificate_id" fields >>= λ id. ok (record {
      certificate_id = id;
      top = top_of fields;
      skip = skip_of fields;
      count = flag_of "count" fields;
    }))

unfoldable pub read_vulnerability_odata : Args → Result VulnerabilityODataInput Misfit
unfolding read_keys
read_vulnerability_odata args =
    read_keys (own ("vulnerability_id" ∷ "top" ∷ "skip" ∷ "select" ∷ [])) [] args >>= λ fields.
    (need_text "vulnerability_id" fields >>= λ id. ok (record {
      vulnerability_id = id;
      top = top_of fields;
      skip = skip_of fields;
      select = text_of "select" fields;
    }))

unfoldable pub read_endpoint_odata : Args → Result EndpointODataInput Misfit
unfolding read_keys
read_endpoint_odata args = read_keys (own ("filter" ∷ "top" ∷ "skip" ∷ [])) [] args >>= λ fields.
    ok (record { filter = text_of "filter" fields; top = top_of fields; skip = skip_of fields })

unfoldable pub read_vuln_component : Args → Result VulnComponentGetInput Misfit
unfolding read_keys
read_vuln_component args =
    read_keys (own ("vulnerability_id" ∷ "component_id" ∷ [])) [] args >>= λ fields.
    (need_text "vulnerability_id" fields >>= λ vulnerability.
    (need_text "component_id" fields >>= λ component.
    ok (record { vulnerability_id = vulnerability; component_id = component })))

-- By the name of the identifier, and whether `id` stands for it.
unfoldable pub read_endpoint_id_odata :
    String → (alias : Bool) → Args → Result EndpointIdODataInput Misfit
unfolding read_keys
read_endpoint_id_odata f alias args =
    let rest = own ("filter" ∷ "top" ∷ "skip" ∷ []) in
    read_keys (if alias then aliased f rest else (f, f) ∷ rest) [] args >>= λ fields.
    (need_text f fields >>= λ id. ok (record {
      id = id;
      filter = text_of "filter" fields;
      top = top_of fields;
      skip = skip_of fields;
    }))

unfoldable pub read_stats : String → Args → Result StatsInput Misfit
unfolding read_keys
read_stats f args = read_keys (own (f ∷ "look_back_hours" ∷ [])) [] args >>= λ fields.
    (need_text f fields >>= λ id.
    ok (record { id = id; look_back_hours = int_of "look_back_hours" fields }))

unfoldable pub read_find_by_tag : Args → Result FindByTagInput Misfit
unfolding read_keys
read_find_by_tag args = read_keys (own ("tag_name" ∷ "use_starts_with" ∷ [])) [] args >>= λ fields.
    (need_text "tag_name" fields >>= λ id. ok (record {
      tag_name = id;
      use_starts_with = unwrap_or false (flag_of "use_starts_with" fields);
    }))

unfoldable pub read_incident : Args → Result XdrIncidentIdInput Misfit
unfolding read_keys
read_incident args = read_keys (aliased "incident_id" (own ("expand" ∷ []))) [] args >>= λ fields.
    (need_text "incident_id" fields >>= λ id.
    ok (record { incident_id = id; expand = text_of "expand" fields }))

unfoldable pub read_live_response_result : Args → Result LiveResponseResultInput Misfit
unfolding read_keys
read_live_response_result args =
    read_keys (own ("action_id" ∷ "command_index" ∷ [])) [] args >>= λ fields.
    (need_text "action_id" fields >>= λ id.
    ok (record {
      action_id = id;
      command_index = unwrap_or (pos 0) (int_of "command_index" fields);
    }))
