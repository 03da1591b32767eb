-- ===== src/Server/Reads.antt =====
-- What the read-only tools of src/server.rs share: the requests that they make, and how an action is
-- chosen and its arguments are read.
pub mod Safe
pub mod Steps
pub mod Literal
pub mod Intel
pub mod Hosts
pub mod Devices
pub mod Entities
pub mod Scope
pub mod Scoped
pub mod ThreatIntel
pub mod IncidentsAlerts
pub mod Vulnerabilities
pub mod Machines
pub mod Forensics
pub mod Downloads
pub mod Reach
use microsoft_defender_mcp.Prelude.{
  ℕ, zero, suc, ◌+◌, ◌-◌, ◌*◌, ◌/◌, ◌%◌, ◌≤◌, ◌<◌, String, ◌≡◌, refl, sym, ap, ◌∙◌, ◌≢◌, ◌↔◌, ◌⊎◌,
  inl, inr, Bool, true, false, ◌&&◌, ◌||◌, not, Option, none, some, List, [], ◌∷◌, ◌++◌, map,
  append-nil, append_assoc, arith, str_eq, eq_iff, ltb, leb, ◌==◌, if◌then◌else◌, ==_iff, leb→le,
  Bool-cases, Option-cases, Result, ok, err, refuse, map_err, is_ok, ok_or, unwrap_or, length, take,
  any, all, is_empty, All, Any, length-append, All-append, any-eq-false_iff, all-eq-true_iff,
  All-map, ◌>>=◌,
}
use microsoft_defender_mcp.Auth.Identity.{PermissionCategory}
use microsoft_defender_mcp.Client.{
  ODataParams, no_odata, Request, Client, graph_get, graph_get_with_odata, endpoint_get,
  endpoint_get_as, endpoint_get_with_odata, endpoint_get_with_odata_as,
}
use microsoft_defender_mcp.Inputs.Args.{Args, Misfit}
use microsoft_defender_mcp.Inputs.Reads.{
  ODataListInput, HostnameODataInput, IntelProfileIdODataInput, ArticleIdODataInput,
  CertRelatedHostsInput,
}
use microsoft_defender_mcp.Json.{
  Json, CallToolResult, structured, structured_error, obj, end, field, str, ErrorData,
  invalid_params,
}
use microsoft_defender_mcp.Text.{Text, lit}
use microsoft_defender_mcp.Text.Decimal.{ℤ}
use microsoft_defender_mcp.Validation.Encoding.{PercentEncoding, encode_path_segment}
use microsoft_defender_mcp.Validation.Odata.{validate_odata_params, validate_endpoint_odata_params}

-- What a read comes to: an answer of the server itself, or a request whose answer is passed on.
pub data Plan : Type 0 where
  done : CallToolResult → Plan
  fetch : Request → Plan

-- `tool_result`
abbrev pub tool_result : Result Json CallToolResult → CallToolResult
tool_result (ok v) = structured v
tool_result (err e) = e

-- The result of a plan, and the requests that it made.
unfoldable pub serve :
    Client → Result Plan ErrorData → Result CallToolResult ErrorData × List Request
serve client (err e) = (err e, [])
serve client (ok (done r)) = (ok r, [])
serve client (ok (fetch req)) = (ok (tool_result (client req)), req ∷ [])

abbrev pub from_odata_list : ODataListInput → ODataParams
from_odata_list i = record {
  top = some i.top;
  skip = some i.skip;
  filter = i.filter;
  select = i.select;
  expand = i.expand;
  search = i.search;
  count = i.count;
}

abbrev pub from_hostname_odata : HostnameODataInput → ODataParams
from_hostname_odata i = record no_odata {
  top = some i.top;
  skip = some i.skip;
  filter = i.filter;
  select = i.select;
  expand = i.expand;
  count = i.count;
}

abbrev pub from_intel_profile_odata : IntelProfileIdODataInput → ODataParams
from_intel_profile_odata i = record no_odata {
  top = some i.top;
  skip = some i.skip;
  filter = i.filter;
  select = i.select;
  expand = i.expand;
}

abbrev pub from_article_odata : ArticleIdODataInput → ODataParams
from_article_odata i = record no_odata { top = some i.top; skip = some i.skip; select = i.select }

abbrev pub from_cert_related_odata : CertRelatedHostsInput → ODataParams
from_cert_related_odata i = record no_odata {
  top = some i.top;
  skip = some i.skip;
  count = i.count;
}

abbrev pub ep_odata : Option Text → (top skip : ℤ) → ODataParams
ep_odata filter top skip = record no_odata { top = some top; skip = some skip; filter = filter }

abbrev pub Planned : Type 0
Planned = Result Plan ErrorData

abbrev pub simple_get : Text → Planned
simple_get path = ok (fetch (graph_get path []))

abbrev pub odata_get : Text → ODataParams → Planned
odata_get path odata = ok (fetch (graph_get_with_odata path odata))

abbrev pub ep_simple_get : Text → Planned
ep_simple_get path = ok (fetch (endpoint_get path []))

abbrev pub ep_odata_get : Text → ODataParams → Planned
ep_odata_get path odata = ok (fetch (endpoint_get_with_odata path odata))

abbrev pub ep_simple_get_as : Text → PermissionCategory → Planned
ep_simple_get_as path category = ok (fetch (endpoint_get_as path [] category))

abbrev pub ep_odata_get_as : Text → ODataParams → PermissionCategory → Planned
ep_odata_get_as path odata category = ok (fetch (endpoint_get_with_odata_as path odata category))

-- The steps that the actions share: a path with one checked identifier, and a page of a list.
module _ (percent : PercentEncoding) where
  abbrev pub child : (base : String) → Text → Text
  child base id = lit base ++ encode_path_segment percent id

  abbrev pub child_of : (base : String) → Text → (rest : String) → Text
  child_of base id rest = lit base ++ (encode_path_segment percent id ++ lit rest)

  abbrev pub get_child : Result Text ErrorData → (base : String) → Planned
  get_child checked base = checked >>= λ id. simple_get (child base id)

  abbrev pub get_child_of : Result Text ErrorData → (base rest : String) → Planned
  get_child_of checked base rest = checked >>= λ id. simple_get (child_of base id rest)

  abbrev pub list_child_of :
      Result Text ErrorData → (top skip : ℤ) → ODataParams → (base rest : String) → Planned
  list_child_of checked top skip odata base rest = checked >>= λ id.
      (validate_odata_params (some top) (some skip) >>= λ _.
      odata_get (child_of base id rest) odata)

  abbrev pub ep_get_child : Result Text ErrorData → (base : String) → Planned
  ep_get_child checked base = checked >>= λ id. ep_simple_get (child base id)

  abbrev pub ep_get_child_of : Result Text ErrorData → (base rest : String) → Planned
  ep_get_child_of checked base rest = checked >>= λ id. ep_simple_get (child_of base id rest)

  abbrev pub ep_list_child_of :
      Result Text ErrorData → (top skip : ℤ) → ODataParams → (base rest : String) → Planned
  ep_list_child_of checked top skip odata base rest = checked >>= λ id.
      (validate_endpoint_odata_params (some top) (some skip) >>= λ _.
      ep_odata_get (child_of base id rest) odata)

abbrev pub list_all : (top skip : ℤ) → ODataParams → (path : String) → Planned
list_all top skip odata path =
    validate_odata_params (some top) (some skip) >>= λ _. odata_get (lit path) odata

abbrev pub ep_list_all : (top skip : ℤ) → ODataParams → (path : String) → Planned
ep_list_all top skip odata path =
    validate_endpoint_odata_params (some top) (some skip) >>= λ _. ep_odata_get (lit path) odata

-- `call_action!`; what serde says of arguments that do not fit is a parameter.
abbrev pub call_action :
    {P : Type 0} → (explain : Misfit → Text) → Result P Misfit → (P → Planned) → Planned
call_action explain params method =
    map_err (λ e. invalid_params (lit "invalid arguments for this action: " ++ explain e)) params
    >>= method

-- `match action { … }`
abbrev pub select_action : String → List (String × Planned) → (other : Planned) → Planned
select_action action [] other = other
select_action action ((name, plan) ∷ actions) other =
    if str_eq action name then plan else select_action action actions other
