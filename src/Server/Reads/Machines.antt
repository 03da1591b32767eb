-- ===== src/Server/Reads/Machines.antt =====
-- `defender_machines` of src/server.rs.
use microsoft_defender_mcp.Prelude.{
  String, Bool, none, some, List, [], ◌∷◌, ◌++◌, Result, err, ok_or, unwrap_or, ◌>>=◌,
}
use microsoft_defender_mcp.Auth.Identity.{PermissionCategory, read_write_named, read_endpoint}
use microsoft_defender_mcp.Client.{ODataParams}
use microsoft_defender_mcp.Constants.{default_top, find_by_ip_max_age_days}
use microsoft_defender_mcp.Error.{unknown_action_error}
use microsoft_defender_mcp.Inputs.Args.{Args, Misfit, rename_arg}
use microsoft_defender_mcp.Inputs.Reads.{
  read_id, read_named, read_endpoint_odata, read_stats, read_find_by_tag,
}
use microsoft_defender_mcp.Inputs.Tools.{MachinesInput, machines_args}
use microsoft_defender_mcp.Json.{ErrorData, invalid_params}
use microsoft_defender_mcp.Server.Device.{is_some}
use microsoft_defender_mcp.Server.Reads.{
  Planned, call_action, select_action, ep_odata, ep_odata_get_as, ep_simple_get_as, child_of,
}
use microsoft_defender_mcp.Server.Reads.Devices.{
  defender_endpoint_machine_find_by_tag, defender_endpoint_machine_get,
  defender_endpoint_machine_list, defender_endpoint_machine_list_software,
  defender_endpoint_machine_logged_on_users, defender_endpoint_machine_security_recommendations,
}
use microsoft_defender_mcp.Server.Reads.Entities.{
  defender_endpoint_domain_related_machines, defender_endpoint_domain_statistics,
  defender_endpoint_file_get, defender_endpoint_file_related_machines,
  defender_endpoint_file_statistics, defender_endpoint_ip_statistics,
  defender_endpoint_user_related_machines,
}
use microsoft_defender_mcp.Server.Reads.Scope.{ReadConfig, unless_blocked, without}
use microsoft_defender_mcp.Server.Tools.{Libraries, required}
use microsoft_defender_mcp.Text.{Text, lit}
use microsoft_defender_mcp.Text.Decimal.{pos}
use microsoft_defender_mcp.Validation.Hashes.{validate_machine_id}
use microsoft_defender_mcp.Validation.Indicators.{validate_recent_timestamp}
use microsoft_defender_mcp.Validation.Ip.{validate_ip_address}
use microsoft_defender_mcp.Validation.Odata.{validate_endpoint_odata_params}

abbrev pub machines_actions : List String
machines_actions =
    "machine_list" ∷ "machine_get" ∷ "logged_on_users" ∷ "find_by_tag" ∷ "installed_software"
    ∷ "security_recommendations" ∷ "ip_statistics" ∷ "domain_statistics" ∷ "domain_related_machines"
    ∷ "file_get" ∷ "file_statistics" ∷ "file_related_machines" ∷ "user_related_machines"
    ∷ "find_by_ip" ∷ "machine_alerts" ∷ "machine_vulnerabilities" ∷ "machine_missing_kbs" ∷ []

module _ (libraries : Libraries) (explain : Misfit → Text) (config : ReadConfig)
    (input : MachinesInput) where
  abbrev args : Args
  args = machines_args input

  -- The fields that the machine actions do not use, in the order of the checks.
  abbrev pub tag_fields : List (Bool × String) → List (Bool × String)
  tag_fields rest =
      (is_some input.tag_name, "tag_name")
      ∷ (is_some input.use_starts_with, "use_starts_with")
      ∷ (is_some input.look_back_hours, "look_back_hours")
      ∷ rest

  abbrev pub page_fields : List (Bool × String)
  page_fields =
      (is_some input.top, "top")
      ∷ (is_some input.skip, "skip")
      ∷ (is_some input.filter, "filter")
      ∷ []

  abbrev pub page : ODataParams
  page =
      ep_odata input.filter (unwrap_or (pos default_top) input.top) (unwrap_or (pos 0) input.skip)

  abbrev pub ip_path : (ip timestamp : Text) → Text
  ip_path ip timestamp =
      lit "/api/machines/findbyip(ip='" ++ (ip ++ (lit "',timestamp=" ++ (timestamp ++ lit ")")))

  unfoldable pub find_by_ip : Planned
  unfolding required
  find_by_ip =
      without ((is_some input.machine_id, "machine_id") ∷ tag_fields page_fields) "find_by_ip" (
        required input.id "id" input.action >>= λ ip.
        (validate_ip_address ip >>= λ validated_ip.
        (required input.timestamp "timestamp" input.action >>= λ ts.
        (validate_recent_timestamp libraries.chrono ts find_by_ip_max_age_days >>= λ normalized_ts.
        ep_simple_get_as (ip_path validated_ip normalized_ts) read_write_named))))

  -- `input.machine_id.or(input.id)`
  abbrev pub machine_of : (action : String) → Result Text ErrorData
  machine_of action =
      ok_or (invalid_params (lit "action '" ++ (lit action ++ lit "' requires 'machine_id'")))
        (elim input.machine_id [ some m ↦ some m | none ↦ input.id ])

  abbrev pub machine_page : PermissionCategory → (action rest : String) → Planned
  machine_page category action rest =
      without ((is_some input.timestamp, "timestamp") ∷ tag_fields []) action (
        machine_of action >>= λ m_id.
        (validate_machine_id libraries.regex m_id >>= λ validated.
        (validate_endpoint_odata_params input.top input.skip >>= λ _.
        ep_odata_get_as (child_of libraries.percent "/api/machines/" validated rest) page
          category)))

  unfoldable pub machine_alerts : Planned
  machine_alerts = machine_page read_write_named "machine_alerts" "/alerts"

  unfoldable pub machine_vulnerabilities : Planned
  machine_vulnerabilities = machine_page read_endpoint "machine_vulnerabilities" "/vulnerabilities"

  unfoldable pub machine_missing_kbs : Planned
  machine_missing_kbs =
      without ((is_some input.timestamp, "timestamp") ∷ tag_fields page_fields)
        "machine_missing_kbs"
        (machine_of "machine_missing_kbs" >>= λ m_id.
          (validate_machine_id libraries.regex m_id >>= λ validated.
          ep_simple_get_as (child_of libraries.percent "/api/machines/" validated "/getmissingkbs")
            read_endpoint))

  abbrev pub machines_action_table : List (String × Planned)
  machines_action_table =
      (
        "machine_list",
        call_action explain (read_endpoint_odata args) (defender_endpoint_machine_list libraries),
      )
      ∷ (
        "machine_get",
        call_action explain (read_id "machine_id" args) (defender_endpoint_machine_get libraries),
      )
      ∷ (
        "logged_on_users",
        call_action explain (read_id "machine_id" args)
            (defender_endpoint_machine_logged_on_users libraries),
      )
      ∷ (
        "find_by_tag",
        call_action explain (read_find_by_tag (rename_arg "id" "tag_name" args))
            (defender_endpoint_machine_find_by_tag libraries),
      )
      ∷ (
        "installed_software",
        call_action explain (read_id "machine_id" args)
            (defender_endpoint_machine_list_software libraries),
      )
      ∷ (
        "security_recommendations",
        call_action explain (read_id "machine_id" args)
            (defender_endpoint_machine_security_recommendations libraries),
      )
      ∷ (
        "ip_statistics",
        call_action explain (read_stats "ip_address" (rename_arg "id" "ip_address" args))
            (defender_endpoint_ip_statistics libraries),
      )
      ∷ (
        "domain_statistics",
        call_action explain (read_stats "domain_name" (rename_arg "id" "domain_name" args))
            (defender_endpoint_domain_statistics libraries),
      )
      ∷ (
        "domain_related_machines",
        call_action explain (read_named "domain_name" (rename_arg "id" "domain_name" args))
            (defender_endpoint_domain_related_machines libraries),
      )
      ∷ (
        "file_get",
        call_action explain (read_named "file_id" (rename_arg "id" "file_id" args))
            (defender_endpoint_file_get libraries),
      )
      ∷ (
        "file_statistics",
        call_action explain (read_stats "file_sha1" (rename_arg "id" "file_sha1" args))
            (defender_endpoint_file_statistics libraries),
      )
      ∷ (
        "file_related_machines",
        call_action explain (read_named "file_sha1" (rename_arg "id" "file_sha1" args))
            (defender_endpoint_file_related_machines libraries),
      )
      ∷ (
        "user_related_machines",
        call_action explain (read_named "user_id" (rename_arg "id" "user_id" args))
            (defender_endpoint_user_related_machines libraries),
      )
      ∷ ("find_by_ip", find_by_ip)
      ∷ ("machine_alerts", machine_alerts)
      ∷ ("machine_vulnerabilities", machine_vulnerabilities)
      ∷ ("machine_missing_kbs", machine_missing_kbs)
      ∷ []

  unfoldable pub defender_machines : Planned
  defender_machines = unless_blocked config input.action (
      select_action input.action machines_action_table
        (err (unknown_action_error "defender_machines" input.action machines_actions)))
