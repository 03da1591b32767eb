-- ===== src/Server/Reads/Forensics.antt =====
-- The actions of `defender_forensics` of src/server.rs that make one request.
use microsoft_defender_mcp.Prelude.{unwrap_or, ◌>>=◌, Bool, String, List, [], ◌∷◌, err}
use microsoft_defender_mcp.Auth.Identity.{read_write_named}
use microsoft_defender_mcp.Client.{ODataParams}
use microsoft_defender_mcp.Constants.{default_top}
use microsoft_defender_mcp.Error.{unknown_action_error}
use microsoft_defender_mcp.Inputs.Args.{Args, Misfit}
use microsoft_defender_mcp.Inputs.Reads.{read_id, read_endpoint_odata, read_live_response_result}
use microsoft_defender_mcp.Inputs.Tools.{ForensicsInput, forensics_args}
use microsoft_defender_mcp.Server.Device.{is_some}
use microsoft_defender_mcp.Server.Reads.{
  child, ep_odata, ep_odata_get_as, ep_simple_get_as, validate_endpoint_odata_params, Planned,
  call_action, select_action,
}
use microsoft_defender_mcp.Server.Reads.Entities.{
  defender_endpoint_live_response_get_result, defender_endpoint_machine_action_get_status,
  defender_endpoint_machine_action_list,
}
use microsoft_defender_mcp.Server.Reads.Scope.{without, ReadConfig}
use microsoft_defender_mcp.Server.Tools.{required, Libraries}
use microsoft_defender_mcp.Text.{lit, Text}
use microsoft_defender_mcp.Text.Decimal.{pos}
use microsoft_defender_mcp.Validation.Names.{validate_required_id}

abbrev pub forensics_actions : List String
forensics_actions =
    "machine_action_list" ∷ "machine_action_get_status" ∷ "get_investigation_package_sas_url"
    ∷ "download_investigation_package" ∷ "download_quarantined_file" ∷ "live_response_get_result"
    ∷ "investigation_list" ∷ "investigation_get" ∷ "library_file_list" ∷ []

module _ (libraries : Libraries) (explain : Misfit → Text) (config : ReadConfig)
    (input : ForensicsInput) where
  abbrev args : Args
  args = forensics_args input

  -- The fields that the investigation and library actions do not use, in the order of the checks.
  abbrev pub action_fields : List (Bool × String) → List (Bool × String)
  action_fields rest =
      (is_some input.action_id, "action_id")
      ∷ (is_some input.sha1, "sha1")
      ∷ (is_some input.command_index, "command_index")
      ∷ (is_some input.destination_dir, "destination_dir")
      ∷ rest

  abbrev pub page_fields : List (Bool × String)
  page_fields =
      (is_some input.top, "top")
      ∷ (is_some input.skip, "skip")
      ∷ (is_some input.filter, "filter")
      ∷ []

  abbrev pub investigation_id_field : Bool × String
  investigation_id_field = (is_some input.investigation_id, "investigation_id")

  abbrev pub page : ODataParams
  page =
      ep_odata input.filter (unwrap_or (pos default_top) input.top) (unwrap_or (pos 0) input.skip)

  unfoldable pub investigation_list : Planned
  investigation_list = without (action_fields (investigation_id_field ∷ [])) "investigation_list" (
      validate_endpoint_odata_params input.top input.skip >>= λ _.
      ep_odata_get_as (lit "/api/investigations") page read_write_named)

  unfoldable pub investigation_get : Planned
  unfolding required
  investigation_get = without (action_fields page_fields) "investigation_get" (
      required input.investigation_id "investigation_id" input.action >>= λ id.
      (validate_required_id id "investigation_id" >>= λ validated_id.
      ep_simple_get_as (child libraries.percent "/api/investigations/" validated_id)
        read_write_named))

  unfoldable pub library_file_list : Planned
  library_file_list =
      without (action_fields (investigation_id_field ∷ page_fields)) "library_file_list"
        (ep_simple_get_as (lit "/api/libraryfiles") read_write_named)

  abbrev pub forensics_action_table : List (String × Planned)
  forensics_action_table =
      (
        "machine_action_list",
        call_action explain (read_endpoint_odata args)
            (defender_endpoint_machine_action_list libraries),
      )
      ∷ (
        "machine_action_get_status",
        call_action explain (read_id "action_id" args)
            (defender_endpoint_machine_action_get_status libraries),
      )
      ∷ (
        "live_response_get_result",
        call_action explain (read_live_response_result args)
            (defender_endpoint_live_response_get_result libraries config.live_response),
      )
      ∷ ("investigation_list", investigation_list)
      ∷ ("investigation_get", investigation_get)
      ∷ ("library_file_list", library_file_list)
      ∷ []

  unfoldable pub forensics_read : Planned
  unfolding investigation_list investigation_get library_file_list
  forensics_read =
      select_action input.action forensics_action_table
        (err (unknown_action_error "defender_forensics" input.action forensics_actions))
