-- ===== src/Client.antt =====
-- The requests to Microsoft Graph and to the endpoint API that the read-only tools make, with their
-- query parameters (src/client.rs).
pub mod Query
pub mod Paths
use microsoft_defender_mcp.Prelude.{
  ℕ, zero, suc, ◌+◌, ◌-◌, ◌*◌, ◌/◌, ◌%◌, ◌≤◌, ◌<◌, String, ◌≡◌, refl, sym, ap, ◌∙◌, ◌≢◌, ◌↔◌, ◌⊎◌,
  inl, inr, Bool, true, false, ◌&&◌, ◌||◌, not, Option, none, some, List, [], ◌∷◌, ◌++◌, map,
  append-nil, append_assoc, arith, str_eq, eq_iff, ltb, leb, ◌==◌, if◌then◌else◌, ==_iff, leb→le,
  Bool-cases, Option-cases, Result, ok, err, refuse, map_err, is_ok, ok_or, unwrap_or, length, take,
  any, all, is_empty, All, Any, length-append, All-append, any-eq-false_iff, all-eq-true_iff,
  All-map,
}
use microsoft_defender_mcp.Auth.Identity.{PermissionCategory, read_graph, read_endpoint}
use microsoft_defender_mcp.Json.{Json, CallToolResult, structured}
use microsoft_defender_mcp.Text.{Text, lit}
use microsoft_defender_mcp.Text.Decimal.{ℤ, decimal_int}

pub record ODataParams : Type 0 where
  pub top : Option ℤ
  pub skip : Option ℤ
  pub filter : Option Text
  pub select : Option Text
  pub expand : Option Text
  pub search : Option Text
  pub count : Option Bool

abbrev pub no_odata : ODataParams
no_odata = record {
  top = none;
  skip = none;
  filter = none;
  select = none;
  expand = none;
  search = none;
  count = none;
}

abbrev pub Query : Type 0
Query = List (String × Text)

abbrev pub pair_if : {A : Type 0} → String → (A → Text) → Option A → Query → Query
pair_if key show none rest = rest
pair_if key show (some a) rest = (key, show a) ∷ rest

-- `value.filter(|v| !v.is_empty())`
abbrev pub non_empty : Option Text → Option Text
non_empty none = none
non_empty (some v) = if is_empty v then none else some v

abbrev pub counted : Option Bool → Option Text
counted (some true) = some (lit "true")
counted _ = none

unfoldable pub to_query_vec : ODataParams → Query
to_query_vec odata = pair_if "$top" decimal_int odata.top (
    pair_if "$skip" decimal_int odata.skip (
      pair_if "$filter" (λ v. v) (non_empty odata.filter)
        (pair_if "$select" (λ v. v) (non_empty odata.select)
          (pair_if "$expand" (λ v. v) (non_empty odata.expand)
            (pair_if "$search" (λ v. v) (non_empty odata.search)
              (pair_if "$count" (λ v. v) (counted odata.count) []))))))

pub data Api : Type 0 where
  graph endpoint : Api

-- A GET request of one of the two clients.
pub record Request : Type 0 where
  pub api : Api
  pub path : Text
  pub query : Query
  pub category : PermissionCategory

abbrev pub graph_get_as : Text → Query → PermissionCategory → Request
graph_get_as path query category = record {
  api = graph;
  path = path;
  query = query;
  category = category;
}

abbrev pub graph_get : Text → Query → Request
graph_get path query = graph_get_as path query read_graph

abbrev pub graph_get_with_odata_as : Text → ODataParams → PermissionCategory → Request
graph_get_with_odata_as path odata category = graph_get_as path (to_query_vec odata) category

abbrev pub graph_get_with_odata : Text → ODataParams → Request
graph_get_with_odata path odata = graph_get_with_odata_as path odata read_graph

abbrev pub endpoint_get_as : Text → Query → PermissionCategory → Request
endpoint_get_as path query category = record {
  api = endpoint;
  path = path;
  query = query;
  category = category;
}

abbrev pub endpoint_get : Text → Query → Request
endpoint_get path query = endpoint_get_as path query read_endpoint

abbrev pub endpoint_get_with_odata_as : Text → ODataParams → PermissionCategory → Request
endpoint_get_with_odata_as path odata category = endpoint_get_as path (to_query_vec odata) category

abbrev pub endpoint_get_with_odata : Text → ODataParams → Request
endpoint_get_with_odata path odata = endpoint_get_with_odata_as path odata read_endpoint

-- The answers of the two services.
abbrev pub Client : Type 0
Client = Request → Result Json CallToolResult
