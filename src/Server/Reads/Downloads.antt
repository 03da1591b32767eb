-- ===== src/Server/Reads/Downloads.antt =====
-- The forensic downloads of `defender_forensics` (src/server.rs): where an artifact is staged, and the
-- requests that lead to its address.
use microsoft_defender_mcp.Prelude.{
  ℕ, ◌+◌, Bool, true, false, ◌&&◌, ◌||◌, not, Option, none, some, List, [], ◌∷◌, ◌++◌, map, str_eq,
  ◌==◌, if◌then◌else◌, Result, ok, err, refuse, ok_or, unwrap_or, all, is_empty, ◌>>=◌,
}
use microsoft_defender_mcp.Client.{Request, Client, endpoint_get}
use microsoft_defender_mcp.Client.Paths.{split_slash}
use microsoft_defender_mcp.Error.{tool_error, package_not_ready}
use microsoft_defender_mcp.Inputs.Args.{Misfit}
use microsoft_defender_mcp.Inputs.Tools.{ForensicsInput}
use microsoft_defender_mcp.Json.{
  Json, str, obj, field, end, CallToolResult, structured, ErrorData, invalid_params,
}
use microsoft_defender_mcp.Server.Mutation.{http_status_of}
use microsoft_defender_mcp.Server.Reads.{serve, child, child_of}
use microsoft_defender_mcp.Server.Reads.Entities.{is_negative}
use microsoft_defender_mcp.Server.Reads.Forensics.{forensics_read}
use microsoft_defender_mcp.Server.Reads.Scope.{ReadConfig, check_scope_not_requested}
use microsoft_defender_mcp.Server.Tools.{Libraries, required, get_str}
use microsoft_defender_mcp.Text.{Text, lit, trim, text_eq, between}
use microsoft_defender_mcp.Text.Decimal.{ℤ, pos, decimal_int}
use microsoft_defender_mcp.Validation.Encoding.{encode_path_segment}
use microsoft_defender_mcp.Validation.Hashes.{validate_sha1}
use microsoft_defender_mcp.Validation.Names.{dot, dot_dot, validate_action_id}

-- `std::path::Component` on Unix, and `Path::components`: empty pieces are skipped, and so is `.` but
-- at the beginning.
pub data Component : Type 0 where
  root_dir cur_dir parent_dir : Component
  normal : Text → Component

abbrev pub inner_components : List Text → List Component
inner_components [] = []
inner_components (w ∷ ws) =
    if is_empty w || text_eq w dot
    then inner_components ws
    else (if text_eq w dot_dot then parent_dir else normal w) ∷ inner_components ws

unfoldable pub components : Text → List Component
unfolding split_slash
components path = elim (split_slash path) [
  | [] ↦ []
  | w ∷ ws ↦
      if is_empty w && not (is_empty ws)
      then root_dir ∷ inner_components ws
      else if text_eq w dot
      then cur_dir ∷ inner_components ws
      else inner_components (w ∷ ws)
]

abbrev pub is_inner : Component → Bool
is_inner (normal _) = true
is_inner cur_dir = true
is_inner _ = false

-- Where an artifact is staged: the quarantine directory, or the subdirectory joined to it.
abbrev non_blank : Option Text → Option Text
non_blank none = none
non_blank (some dir) = if is_empty (trim dir) then none else some (trim dir)

unfoldable pub staging_dir : (destination_dir : Option Text) → Result (Option Text) ErrorData
unfolding components
staging_dir destination_dir = elim (non_blank destination_dir) [
  | none ↦ ok none
  | some sub ↦
      refuse (not (all is_inner (components sub))) (
        invalid_params (
          lit
            "destination_dir must be a relative subdirectory of the quarantine directory (no absolute paths or '..')"))
      >>= λ _. ok (some sub)
]

unfoldable pub sas_url : Json → Result Text CallToolResult
sas_url value =
    ok_or (tool_error (lit "upstream response did not contain a download URL in 'value'"))
      (get_str "value" value)

module _ (libraries : Libraries) (client : Client) where
  abbrev pub package_request : Text → Request
  package_request action_id =
      endpoint_get (child_of libraries.percent "/api/machineactions/" action_id "/getPackageUri") []

  abbrev pub action_request : Text → Request
  action_request action_id =
      endpoint_get (child libraries.percent "/api/machineactions/" action_id) []

  -- The status of an action whose package is not there yet.
  abbrev status_of : Json → Text
  status_of action = unwrap_or (lit "Unknown") (get_str "status" action)

  abbrev package_missing : Text → (not_found : CallToolResult) → Result Text CallToolResult
  package_missing action_id not_found = elim (client (action_request action_id)) [
    | ok action ↦ err (package_not_ready (status_of action))
    | err _ ↦ err not_found
  ]

  abbrev pub is_404 : Option ℕ → Bool
  is_404 none = false
  is_404 (some status) = status == 404

  abbrev pub package_answer :
      Text → Result Json CallToolResult → Result Text CallToolResult × List Request
  package_answer action_id (ok v) = (sas_url v, package_request action_id ∷ [])
  package_answer action_id (err e) =
      if is_404 (http_status_of e)
      then (package_missing action_id e, package_request action_id ∷ action_request action_id ∷ [])
      else (err e, package_request action_id ∷ [])

  unfoldable pub investigation_package_url : Text → Result Text CallToolResult × List Request
  unfolding sas_url http_status_of
  investigation_package_url action_id =
      package_answer action_id (client (package_request action_id))

-- The checks of an action, and then what it does with the values that they pass.
abbrev pub after_checks :
    {A : Type 0}
    → Result A ErrorData
    → (A → CallToolResult × List Request)
    → Result CallToolResult ErrorData × List Request
after_checks (err e) act = (err e, [])
after_checks (ok a) act = let (result, requests) = act a in (ok result, requests)

-- `str::to_ascii_lowercase`
abbrev to_ascii_lowercase : Text → Text
to_ascii_lowercase t = map (λ c. if between b'A' b'Z' c then c + 32 else c) t

-- What a download of a quarantined file is checked to be about.
pub record Quarantined : Type 0 where
  pub action_id : Text
  pub index : ℤ
  pub sha1 : Option Text
  pub dir : Option Text

-- How `download_artifact` of src/client.rs ends: the staged artifact as JSON, or an error.
abbrev pub Download : Type 0
Download =
    (url : Text) (subdirectory : Option Text) (file_name action_id : Text) (sha1 : Option Text)
    → Result Json CallToolResult

module _ (libraries : Libraries) (explain : Misfit → Text) (config : ReadConfig) (client : Client)
    (download : Download) (input : ForensicsInput) where
  -- `stage_artifact`
  abbrev stage_artifact :
      (url : Text) (dir : Option Text) (file_name action_id : Text) (sha1 : Option Text)
      → CallToolResult
  stage_artifact url dir file_name action_id sha1 =
      elim (download url dir file_name action_id sha1) [ ok v ↦ structured v | err e ↦ e ]

  unfoldable pub checked_action_id : Result Text ErrorData
  unfolding required
  checked_action_id =
      required input.action_id "action_id" input.action >>= λ id. validate_action_id id

  abbrev package_url : Text → Result Text CallToolResult × List Request
  package_url action_id = investigation_package_url libraries client action_id

  unfoldable pub get_investigation_package_sas_url : Result CallToolResult ErrorData × List Request
  unfolding checked_action_id
  get_investigation_package_sas_url = after_checks checked_action_id λ action_id.
      let (answer, requests) = package_url action_id in
      (
        elim answer [
          | ok url ↦
              structured (obj (field "action_id" (str action_id) (field "value" (str url) end)))
          | err e ↦ e
        ],
        requests,
      )

  unfoldable pub checked_package : Result (Text × Option Text) ErrorData
  unfolding checked_action_id staging_dir
  checked_package = checked_action_id >>= λ action_id.
      (staging_dir input.destination_dir >>= λ dir. ok (action_id, dir))

  unfoldable pub download_investigation_package : Result CallToolResult ErrorData × List Request
  unfolding checked_package
  download_investigation_package = after_checks checked_package λ checked.
      let (action_id, dir) = checked in
      let (answer, requests) = package_url action_id in
      (
        elim answer [
          | ok url ↦
              stage_artifact url dir (lit "investigation_package_" ++ (action_id ++ lit ".zip"))
                action_id none
          | err e ↦ e
        ],
        requests,
      )

  abbrev lowercase_sha1 : Result (Option Text) ErrorData
  lowercase_sha1 = elim input.sha1 [
    | none ↦ ok none
    | some given ↦ validate_sha1 libraries.regex given >>= λ s. ok (some (to_ascii_lowercase s))
  ]

  unfoldable pub checked_quarantined : Result Quarantined ErrorData
  unfolding checked_action_id staging_dir
  checked_quarantined =
      let index = unwrap_or (pos 0) input.command_index in
      checked_action_id >>= λ action_id.
      (refuse (is_negative index)
          (invalid_params (lit "command_index must be zero or greater, got " ++ decimal_int index))
        >>= λ _.
            (lowercase_sha1 >>= λ sha1.
            (staging_dir input.destination_dir >>= λ dir.
            ok (record { action_id = action_id; index = index; sha1 = sha1; dir = dir }))))

  abbrev pub link_request : Text → ℤ → Request
  link_request action_id index =
      endpoint_get
        (lit "/api/machineactions/"
          ++ (encode_path_segment libraries.percent action_id
              ++ (lit "/GetLiveResponseResultDownloadLink(index="
                  ++ (decimal_int index ++ lit ")"))))
        []

  abbrev quarantine_name : Quarantined → Text
  quarantine_name q = elim q.sha1 [
    | some sha1 ↦ lit "quarantine_" ++ (sha1 ++ lit ".zip")
    | none ↦ lit "quarantine_" ++ (q.action_id ++ (lit "_" ++ (decimal_int q.index ++ lit ".zip")))
  ]

  unfoldable pub download_quarantined_file : Result CallToolResult ErrorData × List Request
  unfolding checked_quarantined sas_url
  download_quarantined_file = after_checks checked_quarantined λ q.
      let asked = link_request q.action_id q.index in
      (
        elim (client asked >>= λ link. sas_url link) [
          | err e ↦ e
          | ok url ↦ stage_artifact url q.dir (quarantine_name q) q.action_id q.sha1
        ],
        asked ∷ [],
      )

  unfoldable pub forensics_action : Result CallToolResult ErrorData × List Request
  unfolding get_investigation_package_sas_url download_investigation_package
      download_quarantined_file forensics_read serve
  forensics_action =
      if str_eq input.action "get_investigation_package_sas_url"
      then get_investigation_package_sas_url
      else if str_eq input.action "download_investigation_package"
      then download_investigation_package
      else if str_eq input.action "download_quarantined_file"
      then download_quarantined_file
      else serve client (forensics_read libraries explain config input)

  abbrev pub unless_answered :
      Option CallToolResult
      → Result CallToolResult ErrorData × List Request
      → Result CallToolResult ErrorData × List Request
  unless_answered (some blocked) result = (ok blocked, [])
  unless_answered none result = result

  unfoldable pub defender_forensics : Result CallToolResult ErrorData × List Request
  unfolding forensics_action check_scope_not_requested
  defender_forensics =
      unless_answered (check_scope_not_requested config input.action) forensics_action
