-- ===== src/Server/Reads/Reach/Forensics.antt =====
-- What `defender_forensics` of src/server.rs reaches.
use microsoft_defender_mcp.Prelude.{refl, inr, [], ◌∷◌, OnOk-bind}
use microsoft_defender_mcp.Auth.Identity.{read_write_named}
use microsoft_defender_mcp.Client.{endpoint_get_as, endpoint_get_with_odata_as}
use microsoft_defender_mcp.Client.Paths.{is_base, is_confined, literal-Confined}
use microsoft_defender_mcp.Inputs.Args.{Misfit}
use microsoft_defender_mcp.Inputs.Tools.{ForensicsInput}
use microsoft_defender_mcp.Server.Reads.{child}
use microsoft_defender_mcp.Server.Reads.Forensics.{
  forensics_read, forensics_action_table, investigation_list, investigation_get, library_file_list,
  action_fields, page_fields, investigation_id_field, page,
}
use microsoft_defender_mcp.Server.Reads.Reach.Entities.{
  defender_endpoint_live_response_get_result-Bounded,
  defender_endpoint_machine_action_get_status-Bounded,
  defender_endpoint_machine_action_list-Bounded,
}
use microsoft_defender_mcp.Server.Reads.Safe.{
  Reaching, Bounded, child-Confined, required_id-IsChild,
}
use microsoft_defender_mcp.Server.Reads.Scope.{ReadConfig, scope_of}
use microsoft_defender_mcp.Server.Reads.Scoped.{needs_scope, without-Bounded}
use microsoft_defender_mcp.Server.Reads.Steps.{
  Each, no_more, ◌also◌, Bounded-err, Bounded-fetch, Bounded-after, call_action-Bounded,
  select_action-Bounded,
}
use microsoft_defender_mcp.Server.Tools.{Libraries, required}
use microsoft_defender_mcp.Text.{Text, lit, text_eq}
use microsoft_defender_mcp.Validation.Names.{validate_required_id}
use microsoft_defender_mcp.Validation.Odata.{validate_endpoint_odata_params}

module _ (libraries : Libraries) (explain : Misfit → Text) (config : ReadConfig)
    (input : ForensicsInput) where
  investigation_list-Bounded :
      Bounded (needs_scope "investigation_list") (investigation_list libraries explain config input)
  unfolding investigation_list is_base is_confined lit text_eq scope_of
  investigation_list-Bounded =
      without-Bounded _
        (action_fields libraries explain config input
          (investigation_id_field libraries explain config input ∷ []))
        "investigation_list" _
        (Bounded-after _ (validate_endpoint_odata_params input.top input.skip) _ (
          Bounded-fetch _
            (endpoint_get_with_odata_as (lit "/api/investigations")
              (page libraries explain config input) read_write_named)
            (record {
              path = literal-Confined (lit "/api/investigations") refl;
              reading = inr (inr refl);
            })))

  investigation_get-Bounded :
      Bounded (needs_scope "investigation_get") (investigation_get libraries explain config input)
  unfolding investigation_get is_base is_confined lit text_eq scope_of
  investigation_get-Bounded =
      without-Bounded _
        (action_fields libraries explain config input (page_fields libraries explain config input))
        "investigation_get" _
        (OnOk-bind (Reaching _) (required input.investigation_id "investigation_id" input.action) _
          λ given _.
            OnOk-bind (Reaching _) (validate_required_id given "investigation_id") _ λ id e.
              Bounded-fetch _
                (endpoint_get_as (child libraries.percent "/api/investigations/" id) []
                  read_write_named)
                (record {
                  path =
                      child-Confined libraries.percent "/api/investigations/" id refl
                        (required_id-IsChild given "investigation_id" id e);
                  reading = inr (inr refl);
                }))

  library_file_list-Bounded :
      Bounded (needs_scope "library_file_list") (library_file_list libraries explain config input)
  unfolding library_file_list is_base is_confined lit text_eq scope_of
  library_file_list-Bounded =
      without-Bounded _
        (action_fields libraries explain config input (
          investigation_id_field libraries explain config input
          ∷ page_fields libraries explain config input))
        "library_file_list" _
        (Bounded-fetch _ (endpoint_get_as (lit "/api/libraryfiles") [] read_write_named) (record {
          path = literal-Confined (lit "/api/libraryfiles") refl;
          reading = inr (inr refl);
        }))

  forensics_read-Each : Each needs_scope (forensics_action_table libraries explain config input)
  forensics_read-Each =
      call_action-Bounded _ explain _ _ (defender_endpoint_machine_action_list-Bounded libraries _)
      also call_action-Bounded _ explain _ _
          (defender_endpoint_machine_action_get_status-Bounded libraries _)
      also call_action-Bounded _ explain _ _
          (defender_endpoint_live_response_get_result-Bounded libraries _ config.live_response)
      also investigation_list-Bounded
      also investigation_get-Bounded
      also library_file_list-Bounded
      also no_more

  pub forensics_read-Bounded :
      Bounded (needs_scope input.action) (forensics_read libraries explain config input)
  unfolding forensics_read
  forensics_read-Bounded =
      select_action-Bounded needs_scope input.action
        (forensics_action_table libraries explain config input) _ forensics_read-Each
        (Bounded-err _ _)
