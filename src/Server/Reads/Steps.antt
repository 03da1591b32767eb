-- ===== src/Server/Reads/Steps.antt =====
-- The steps that the read-only actions share stay in the bounds of the action.
use microsoft_defender_mcp.Prelude.{
  String, ◌≡◌, refl, inl, inr, Bool, true, Option, some, List, [], ◌∷◌, ◌++◌, str_eq, eq_iff,
  Result, ok, err, map_err, ◌>>=◌, OnOk-ok, OnOk-err, OnOk-if, OnOk-bind,
}
use microsoft_defender_mcp.Client.{
  ODataParams, graph_get, endpoint_get, graph_get_with_odata, endpoint_get_with_odata,
}
use microsoft_defender_mcp.Client.Paths.{is_base, is_confined, literal-Confined}
use microsoft_defender_mcp.Inputs.Args.{Misfit}
use microsoft_defender_mcp.Json.{ErrorData, CallToolResult, invalid_params}
use microsoft_defender_mcp.Server.Reads.{
  child, child_of, done, fetch, Planned, get_child, get_child_of, list_child_of, ep_get_child,
  ep_get_child_of, ep_list_child_of, list_all, ep_list_all, ep_simple_get, call_action,
  select_action,
}
use microsoft_defender_mcp.Server.Reads.Entities.{stats}
use microsoft_defender_mcp.Server.Reads.Safe.{
  IsChild, Reaches, Reaching, Bounded, child-Confined, child_of-Confined,
}
use microsoft_defender_mcp.Text.{Text, lit}
use microsoft_defender_mcp.Text.Decimal.{ℤ}
use microsoft_defender_mcp.Validation.Encoding.{PercentEncoding}
use microsoft_defender_mcp.Validation.Odata.{
  validate_odata_params, validate_endpoint_odata_params, validate_look_back_hours,
}

module _ (write_named : Bool) where
  pub Bounded-done : (r : CallToolResult) → Bounded write_named (ok (done r))
  Bounded-done r = OnOk-ok (Reaching write_named) (done r) tt

  pub Bounded-err : (e : ErrorData) → Bounded write_named (err e)
  Bounded-err e = OnOk-err (Reaching write_named) e

  pub Bounded-fetch : (req : _) → Reaches write_named req → Bounded write_named (ok (fetch req))
  Bounded-fetch req k = OnOk-ok (Reaching write_named) (fetch req) k

  -- After a check whose value is not used.
  pub Bounded-after :
      {B : Type 0} (check : Result B ErrorData) (plan : Planned)
      → Bounded write_named plan
      → Bounded write_named (check >>= λ _. plan)
  Bounded-after check plan k = OnOk-bind (Reaching write_named) check _ λ _ _. k

  -- The identifiers that a check passes name children.
  abbrev pub Children : Result Text ErrorData → Type 0
  Children checked = (id : Text) → checked ≡ ok id → IsChild id

  pub list_all-Bounded :
      (top skip : ℤ) (odata : ODataParams) (path : String)
      → is_confined (lit path) ≡ true
      → Bounded write_named (list_all top skip odata path)
  list_all-Bounded top skip odata path h =
      Bounded-after (validate_odata_params (some top) (some skip)) _ (
        Bounded-fetch (graph_get_with_odata (lit path) odata)
          (record { path = literal-Confined (lit path) h; reading = inl refl }))

  pub ep_list_all-Bounded :
      (top skip : ℤ) (odata : ODataParams) (path : String)
      → is_confined (lit path) ≡ true
      → Bounded write_named (ep_list_all top skip odata path)
  ep_list_all-Bounded top skip odata path h =
      Bounded-after (validate_endpoint_odata_params (some top) (some skip)) _ (
        Bounded-fetch (endpoint_get_with_odata (lit path) odata)
          (record { path = literal-Confined (lit path) h; reading = inr (inl refl) }))

  pub ep_simple_get-Bounded :
      (path : String)
      → is_confined (lit path) ≡ true
      → Bounded write_named (ep_simple_get (lit path))
  ep_simple_get-Bounded path h =
      Bounded-fetch (endpoint_get (lit path) [])
        (record { path = literal-Confined (lit path) h; reading = inr (inl refl) })

  module _ (percent : PercentEncoding) (checked : Result Text ErrorData)
      (children : Children checked) (base : String) (h : is_base (lit base) ≡ true) where
    pub get_child-Bounded : Bounded write_named (get_child percent checked base)
    get_child-Bounded = OnOk-bind (Reaching write_named) checked _ λ id e.
        Bounded-fetch (graph_get (child percent base id) [])
          (record { path = child-Confined percent base id h (children id e); reading = inl refl })

    pub ep_get_child-Bounded : Bounded write_named (ep_get_child percent checked base)
    ep_get_child-Bounded = OnOk-bind (Reaching write_named) checked _ λ id e.
        Bounded-fetch (endpoint_get (child percent base id) []) (record {
          path = child-Confined percent base id h (children id e);
          reading = inr (inl refl);
        })

    module _ (rest : String) (r : is_confined (lit rest) ≡ true) where
      pub get_child_of-Bounded : Bounded write_named (get_child_of percent checked base rest)
      get_child_of-Bounded = OnOk-bind (Reaching write_named) checked _ λ id e.
          Bounded-fetch (graph_get (child_of percent base id rest) []) (record {
            path = child_of-Confined percent base id rest h r (children id e);
            reading = inl refl;
          })

      pub ep_get_child_of-Bounded : Bounded write_named (ep_get_child_of percent checked base rest)
      ep_get_child_of-Bounded = OnOk-bind (Reaching write_named) checked _ λ id e.
          Bounded-fetch (endpoint_get (child_of percent base id rest) []) (record {
            path = child_of-Confined percent base id rest h r (children id e);
            reading = inr (inl refl);
          })

      pub list_child_of-Bounded :
          (top skip : ℤ) (odata : ODataParams)
          → Bounded write_named (list_child_of percent checked top skip odata base rest)
      list_child_of-Bounded top skip odata = OnOk-bind (Reaching write_named) checked _ λ id e.
          Bounded-after (validate_odata_params (some top) (some skip)) _ (
            Bounded-fetch (graph_get_with_odata (child_of percent base id rest) odata) (record {
              path = child_of-Confined percent base id rest h r (children id e);
              reading = inl refl;
            }))

      pub ep_list_child_of-Bounded :
          (top skip : ℤ) (odata : ODataParams)
          → Bounded write_named (ep_list_child_of percent checked top skip odata base rest)
      ep_list_child_of-Bounded top skip odata = OnOk-bind (Reaching write_named) checked _ λ id e.
          Bounded-after (validate_endpoint_odata_params (some top) (some skip)) _ (
            Bounded-fetch (endpoint_get_with_odata (child_of percent base id rest) odata) (record {
              path = child_of-Confined percent base id rest h r (children id e);
              reading = inr (inl refl);
            }))

    pub stats-Bounded :
        (hours : Option ℤ)
        → is_confined (lit "/stats") ≡ true
        → Bounded write_named (stats percent checked hours base)
    stats-Bounded hours r = OnOk-bind (Reaching write_named) checked _ λ id e.
        Bounded-after (validate_look_back_hours hours) _ (
          Bounded-fetch (endpoint_get (child_of percent base id "/stats") _) (record {
            path = child_of-Confined percent base id "/stats" h r (children id e);
            reading = inr (inl refl);
          }))

  pub call_action-Bounded :
      {P : Type 0} (explain : Misfit → Text) (params : Result P Misfit) (method : P → Planned)
      → ((p : P) → Bounded write_named (method p))
      → Bounded write_named (call_action explain params method)
  call_action-Bounded explain params method k =
      OnOk-bind (Reaching write_named)
        (map_err (λ e. invalid_params (lit "invalid arguments for this action: " ++ explain e))
          params)
        method λ p _. k p

-- The plan of each action of a table is in the bounds of that action.
pub data Each (bound : String → Bool) : List (String × Planned) → Type 0 where
  no_more : Each bound []
  next :
      {name : String} {plan : Planned} {actions : List (String × Planned)}
      → Bounded (bound name) plan
      → Each bound actions
      → Each bound ((name, plan) ∷ actions)

infixr 4 ◌also◌
pub ◌also◌ :
    {bound : String → Bool} {name : String} {plan : Planned} {actions : List (String × Planned)}
    → Bounded (bound name) plan
    → Each bound actions
    → Each bound ((name, plan) ∷ actions)
first also rest = next first rest

-- Whatever action is chosen, its plan is in the bounds of that action.
pub select_action-Bounded :
    (bound : String → Bool) (action : String) (actions : List (String × Planned)) (other : Planned)
    → Each bound actions
    → Bounded (bound action) other
    → Bounded (bound action) (select_action action actions other)
select_action-Bounded bound action [] other no_more k = k
select_action-Bounded bound action ((name, plan) ∷ actions) other (next h each) k =
    OnOk-if (Reaching (bound action)) (str_eq action name) _ _
      (λ e. let same = (eq_iff action name).0 e in rw same h)
      (λ _. select_action-Bounded bound action actions other each k)
