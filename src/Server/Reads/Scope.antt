-- ===== src/Server/Reads/Scope.antt =====
-- Which reads need a scope that is named for writing, and what the tools of src/server.rs share in
-- choosing an action.
use microsoft_defender_mcp.Prelude.{
  String, Bool, ◌&&◌, Option, none, some, List, [], ◌∷◌, str_eq, if◌then◌else◌, ok, err,
}
use microsoft_defender_mcp.Error.{scope_not_requested}
use microsoft_defender_mcp.Json.{CallToolResult, invalid_params}
use microsoft_defender_mcp.Server.Device.{contains_str, first_given}
use microsoft_defender_mcp.Server.Dispatch.{not_used}
use microsoft_defender_mcp.Server.Reads.{done, Planned}

-- What the reads look at in the configuration: whether a user is signed in (`AuthConfig::User`),
-- `--read-only`, and the Live Response category.
pub record ReadConfig : Type 0 where
  pub delegated : Bool
  pub read_only : Bool
  pub live_response : Bool

unfoldable pub scope_of : (action : String) → Option String
scope_of action =
    if contains_str
      ("domain_related_machines" ∷ "file_related_machines" ∷ "user_related_machines" ∷ "find_by_ip"
        ∷ "download_quarantined_file" ∷ "download_live_response_result" ∷ "live_response_get_result"
        ∷ [])
      action
    then some "Machine.ReadWrite"
    else if contains_str
        ("file_related_alerts" ∷ "machine_alerts" ∷ "get_investigation_package_sas_url"
          ∷ "download_investigation_package" ∷ "investigation_list" ∷ "investigation_get" ∷ [])
        action
    then some "Alert.ReadWrite"
    else if str_eq action "custom_indicator_list"
    then some "Ti.ReadWrite"
    else if str_eq action "library_file_list"
    then some "Library.Manage"
    else none

abbrev pub blocked_by : (action : String) → Option String → Option CallToolResult
blocked_by action none = none
blocked_by action (some s) = some (scope_not_requested action s)

unfoldable pub check_scope_not_requested : ReadConfig → (action : String) → Option CallToolResult
unfolding scope_of
check_scope_not_requested config action =
    if config.delegated && config.read_only then blocked_by action (scope_of action) else none

abbrev pub unless : Option CallToolResult → Planned → Planned
unless (some blocked) plan = ok (done blocked)
unless none plan = plan

-- `if let Some(blocked) = self.check_scope_not_requested(action) { return Ok(blocked); }`
abbrev pub unless_blocked : ReadConfig → (action : String) → Planned → Planned
unless_blocked config action plan = unless (check_scope_not_requested config action) plan

abbrev pub refuse_field : Option String → (action : String) → Planned → Planned
refuse_field (some f) action plan = err (invalid_params (not_used f action))
refuse_field none action plan = plan

-- The checks that an action's unused fields are not given.
abbrev pub without : List (Bool × String) → (action : String) → Planned → Planned
without unused action plan = refuse_field (first_given unused) action plan
