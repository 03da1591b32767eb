-- ===== src/Server/Response/Sends.antt =====
-- What the Live Response actions send, and what they leave in the audit log.
use microsoft_defender_mcp.Prelude.{
  ◌++◌, map, ap, unwrap_or, ◌>>=◌, OnOk-err, OnOk-ok, OnOk-bind, OnOk-if, ◌≤◌, String, ◌≡◌, refl,
  ◌≢◌, ◌↔◌, inl, inr, true, Option, none, some, List, [], ◌∷◌, arith, str_eq, Bool-cases,
  Option-cases, Result, ok, err, length, All, >>=-eq-ok,
}
use microsoft_defender_mcp.Audit.{ConfirmationOutcome, target, machine_id, sha1, file_name}
use microsoft_defender_mcp.Auth.Identity.{PermissionCategory}
use microsoft_defender_mcp.Constants.{max_library_file_size}
use microsoft_defender_mcp.Inputs.Args.{Misfit}
use microsoft_defender_mcp.Inputs.Response.{
  ResponseInput, LiveResponseRunInput, LiveResponseLibraryUploadInput, read_run, read_upload,
}
use microsoft_defender_mcp.Json.{
  Json, CallToolResult, array, arr, obj, field, end, str, cons, ErrorData,
}
use microsoft_defender_mcp.Server.Attempt.{
  MutationResponse, Outside, DefenderServer, MutationRequest,
}
use microsoft_defender_mcp.Server.Device.{contains_str}
use microsoft_defender_mcp.Server.Dispatch.{run_request, run_request-IsCleared}
use microsoft_defender_mcp.Server.Mutation.Gates.{calls, IsCleared}
use microsoft_defender_mcp.Server.Prepare.Aims.{machine_id-IsHex}
use microsoft_defender_mcp.Server.Response.{
  params_json, commands_json, response_actions, content_check, unused_delete_field, collect_request,
  quarantine_request, run_live_request, upload_request, library_delete_request, delete_plan, read,
  response_request, response_action,
}
use microsoft_defender_mcp.Server.Tools.{Endpoint, Libraries, as_tool_error-ok, required, both}
use microsoft_defender_mcp.Text.{lit, Text, trim, byte_len}
use microsoft_defender_mcp.Validation.Commands.{
  LiveResponseParam, command_type_str, LiveResponseCommand, IsAllowed,
  validate_live_response_commands, validate_live_response_commands_iff,
}
use microsoft_defender_mcp.Validation.Encoding.{encode_path_segment}
use microsoft_defender_mcp.Validation.Hashes.{IsHex, validate_machine_id, validate_sha1}
use microsoft_defender_mcp.Validation.Names.{
  validate_required_id, validate_file_name, validate_description,
}
use microsoft_defender_mcp.Validation.Names.Accepted.{
  IsRequiredId, IsFileName, validate_required_id_iff, validate_file_name_iff,
}
use microsoft_defender_mcp.Validation.Names.Free.{description_and_tag_name_iff}

pub both-ok :
    {A B : Type 0} (r : Result A ErrorData) (q : Result B ErrorData)
    → both r q ≡ ok tt
    → ((a : A) × (r ≡ ok a)) × ((b : B) × (q ≡ ok b))
both-ok (ok a) (ok b) h = ((a, refl), (b, refl))
both-ok (ok a) (err e) h = absurd (cc)
both-ok (err e) q h = absurd (cc)

-- The content of a library file has 1 to 20 MiB bytes.
content_check_iff :
    (content : Text)
    → (content_check content ≡ ok tt)
      ↔ ((content ≢ []) × (byte_len content ≤ max_library_file_size))
unfolding content_check
content_check_iff [] = ground arith
content_check_iff (c ∷ content) = ground arith

abbrev param_object : LiveResponseParam → Json
param_object p = obj (field "key" (str p.key) (field "value" (str p.value) end))

abbrev command_object : LiveResponseCommand → Json
command_object c = obj (
    field "params" (arr (array (map param_object c.params)))
      (field "type" (str (lit (command_type_str c.cmd_type))) end))

params_listed : (ps : List LiveResponseParam) → params_json ps ≡ array (map param_object ps)
params_listed [] = refl
params_listed (p ∷ ps) = ap (cons (param_object p)) (params_listed ps)

commands_listed : (cs : List LiveResponseCommand) → commands_json cs ≡ array (map command_object cs)
commands_listed [] = refl
commands_listed (c ∷ cs) =
    let params = params_listed c.params in let rest = commands_listed cs in rw (params, rest) refl

module _ (libraries : Libraries) (allowed : Option (List String)) (input : ResponseInput)
    (endpoint : Endpoint) where
  -- The path of an action of a machine.
  abbrev path_of : (id : Text) (suffix : String) → Text
  path_of id suffix =
      lit "/api/machines/" ++ (encode_path_segment libraries.percent id ++ lit suffix)

  abbrev post : Text → Json → Result MutationResponse CallToolResult
  post path body = endpoint.post_as path body PermissionCategory.live_response

  -- What a request of the Live Response tool is aimed at, with what its validation saw to: what is
  -- audited as its target, and the request that is sent.
  pub data IsAimed (req : MutationRequest) : Type 0 where
    at_machine :
        (given id : Text)
        → str_eq input.action "collect_investigation_package" ≡ true
        → input.machine_id ≡ some given
        → (id ≡ trim given) × IsHex 40 id
        → req.targets ≡ target machine_id id ∷ []
        → req.upstream
          ≡ post
              (path_of id "/collectInvestigationPackage")
              (obj (field "Comment" (str (unwrap_or [] input.comment)) end))
        → IsAimed req
    at_file :
        (given id given_sha1 hash : Text)
        → str_eq input.action "stop_and_quarantine_file" ≡ true
        → input.machine_id ≡ some given
        → input.sha1 ≡ some given_sha1
        → (id ≡ trim given) × IsHex 40 id
        → (hash ≡ trim given_sha1) × IsHex 40 hash
        → req.targets ≡ target machine_id id ∷ target sha1 hash ∷ []
        → req.upstream
          ≡ post (path_of id "/StopAndQuarantineFile") (
              obj
                (field "Comment" (str (unwrap_or [] input.comment)) (field "Sha1" (str hash) end)))
        → IsAimed req
    at_session :
        (given comment : Text) (commands : List LiveResponseCommand)
        → str_eq input.action "live_response_run" ≡ true
        → input.machine_id ≡ some given
        → input.commands ≡ some commands
        → input.comment ≡ some comment
        → IsRequiredId (trim given)
        → (1 ≤ length commands) × (length commands ≤ 20) × All (IsAllowed allowed) commands
        → req.targets ≡ target machine_id (trim given) ∷ []
        → req.upstream
          ≡ post (path_of (trim given) "/runliveresponse") (
              obj (
                field "Commands"
                  (arr (array (map command_object commands)))
                  (field "Comment" (str comment) end)))
        → IsAimed req
    at_upload :
        (given content description : Text)
        → str_eq input.action "upload_library_file" ≡ true
        → input.file_name ≡ some given
        → input.file_content ≡ some content
        → input.description ≡ some description
        → IsFileName (trim given)
        → (content ≢ []) × (byte_len content ≤ max_library_file_size)
        → trim description ≢ []
        → req.targets ≡ target file_name (trim given) ∷ []
        → req.upstream
          ≡ endpoint.multipart_upload
              (lit "/api/libraryfiles")
              (trim given)
              content
              (trim description)
              input.parameters_description
              input.override_if_exists
        → IsAimed req
    at_library :
        (given : Text)
        → str_eq input.action "library_file_delete" ≡ true
        → input.file_name ≡ some given
        → unused_delete_field input ≡ none
        → IsFileName (trim given)
        → req.targets ≡ target file_name (trim given) ∷ []
        → req.upstream ≡ (
            endpoint.delete_as
              (lit "/api/libraryfiles/" ++ encode_path_segment libraries.percent (trim given))
              PermissionCategory.live_response
            >>= λ _. ok (record {
              http_status = 204;
              body =
                  obj (
                    field "file_name"
                      (str (trim given))
                      (field "status" (str (lit "deleted")) end));
            }))
        → IsAimed req

  checked_id :
      (given id : Text)
      → validate_machine_id libraries.regex given ≡ ok id
      → (id ≡ trim given) × IsHex 40 id
  unfolding validate_machine_id
  checked_id given id e = (ground arith, machine_id-IsHex libraries given id e)

  checked_sha1 :
      (given hash : Text)
      → validate_sha1 libraries.regex given ≡ ok hash
      → (hash ≡ trim given) × IsHex 40 hash
  unfolding validate_sha1
  checked_sha1 given hash e =
      let m = libraries.regex.match_sha1 (trim given) in
      let same : hash ≡ trim given = ground arith in (same, rw same (m.0 (ground arith)))

  read_run_sound :
      (p : LiveResponseRunInput)
      → read_run input ≡ ok p
      → (input.machine_id ≡ some p.machine_id)
        × (input.commands ≡ some p.commands)
        × (input.comment ≡ some p.comment)
  unfolding read_run
  read_run_sound p e = ground arith

  read_upload_sound :
      (p : LiveResponseLibraryUploadInput)
      → read_upload input ≡ ok p
      → (input.file_name ≡ some p.file_name)
        × (input.file_content ≡ some p.file_content)
        × (input.description ≡ some p.description)
        × (input.parameters_description ≡ p.parameters_description)
        × (input.override_if_exists ≡ p.override_if_exists)
  unfolding read_upload
  read_upload_sound p e = ground arith

  module _ (explain : Misfit → Text) where
    collect-IsAimed :
        str_eq input.action "collect_investigation_package" ≡ true
        → (given : Text) → input.machine_id ≡ some given
        → (collect_request libraries endpoint explain allowed input given).validation_result ≡ ok tt
        → IsAimed (collect_request libraries endpoint explain allowed input given)
    unfolding collect_request
    collect-IsAimed act given present h =
        let (id, accepted) = as_tool_error-ok (validate_machine_id libraries.regex given) h in
        at_machine given id act present (checked_id given id accepted) (rw accepted refl)
          (rw accepted refl)

    quarantine-IsAimed :
        str_eq input.action "stop_and_quarantine_file" ≡ true
        → (given given_sha1 : Text) → input.machine_id ≡ some given
        → input.sha1 ≡ some given_sha1
        → (quarantine_request libraries endpoint explain allowed input given
            given_sha1).validation_result
          ≡ ok tt
        → IsAimed (quarantine_request libraries endpoint explain allowed input given given_sha1)
    unfolding quarantine_request
    quarantine-IsAimed act given given_sha1 present present_sha1 h =
        let ((id, accepted), (hash, hashed)) =
          both-ok (validate_machine_id libraries.regex given)
            (validate_sha1 libraries.regex given_sha1) h in
        at_file given id given_sha1 hash act present present_sha1 (checked_id given id accepted)
          (checked_sha1 given_sha1 hash hashed) (rw (accepted, hashed) refl)
          (rw (accepted, hashed) refl)

    run-IsAimed :
        str_eq input.action "live_response_run" ≡ true
        → (p : LiveResponseRunInput) → read_run input ≡ ok p
        → (run_live_request libraries endpoint explain allowed input p).validation_result ≡ ok tt
        → IsAimed (run_live_request libraries endpoint explain allowed input p)
    unfolding run_live_request
    run-IsAimed act p e h =
        let (present, listed, said) = read_run_sound p e in
        let bodies = commands_listed p.commands in
        let ((id, accepted), (_, fits)) =
          both-ok (validate_required_id p.machine_id "machine_id")
            (validate_live_response_commands p.commands allowed) h in
        let (same, is_id) = (validate_required_id_iff p.machine_id "machine_id" id).0 accepted in
        at_session p.machine_id p.comment p.commands act present listed said (rw same at is_id)
          ((validate_live_response_commands_iff p.commands allowed).0 fits)
          (rw (accepted, fits, same) refl) (rw (accepted, same, bodies) refl)

    upload-IsAimed :
        str_eq input.action "upload_library_file" ≡ true
        → (p : LiveResponseLibraryUploadInput) → read_upload input ≡ ok p
        → (upload_request libraries endpoint explain allowed input p).validation_result ≡ ok tt
        → IsAimed (upload_request libraries endpoint explain allowed input p)
    unfolding upload_request
    upload-IsAimed act p e h =
        let (named, filled, described, more, over) = read_upload_sound p e in
        let (_, texts, fits) =
          >>=-eq-ok _ (both (validate_file_name p.file_name) (validate_description p.description))
            h in
        let ((name, accepted), (d, told)) =
          both-ok (validate_file_name p.file_name) (validate_description p.description) texts in
        let (same, is_name) = (validate_file_name_iff p.file_name name).0 accepted in
        let (same_d, some_d, _) = (description_and_tag_name_iff p.description d).0.0 told in
        at_upload p.file_name p.file_content p.description act named filled described
          (rw same at is_name) ((content_check_iff p.file_content).0 fits) (rw (← same_d) some_d)
          (rw (accepted, told, fits, same) refl)
          (rw (accepted, told, same, same_d, more, over) refl)

    delete-IsAimed :
        str_eq input.action "library_file_delete" ≡ true
        → (req : MutationRequest) → delete_plan libraries endpoint explain allowed input ≡ ok req
        → req.validation_result ≡ ok tt
        → IsAimed req
    unfolding delete_plan library_delete_request required
    delete-IsAimed act req e h = elim (Option-cases (unused_delete_field input)) [
      | inr (f, given) ↦ absurd (ground arith)
      | inl unused ↦ elim (Option-cases input.file_name) [
        | inl missing ↦ absurd (ground arith)
        | inr (given, present) ↦
            let made : library_delete_request libraries endpoint explain allowed input given ≡ req =
              ground arith in
            let (name, accepted) = as_tool_error-ok (validate_file_name given) (rw (← made) at h) in
            let (same, is_name) = (validate_file_name_iff given name).0 accepted in
            rw (← made) (
              at_library given act present unused (rw same at is_name) (rw (accepted, same) refl)
                (rw (accepted, same) refl))
      ]
    ]

    given_of :
        (value : Option Text) (name action : String) (given : Text)
        → required value name action ≡ ok given
        → value ≡ some given
    unfolding required
    given_of value name action given e = ground arith

    read-ok :
        {A : Type 0} (r : Result A Misfit) (a : A)
        → read libraries endpoint explain allowed input r ≡ ok a
        → r ≡ ok a
    read-ok (ok b) a e = cc
    read-ok (err why) a e = absurd (cc)

    -- The request is aimed at what the input names, if it passes validation.
    abbrev Sound : MutationRequest → Type 0
    Sound req = req.validation_result ≡ ok tt → IsAimed req

    -- A request that the tool makes of the input and that passes validation is aimed at what the
    -- input names.
    pub response_request-IsAimed :
        (req : MutationRequest)
        → response_request libraries endpoint explain allowed input ≡ ok req
        → req.validation_result ≡ ok tt
        → IsAimed req
    unfolding response_request
    response_request-IsAimed req e h =
        OnOk-if Sound (str_eq input.action "collect_investigation_package") _ _
          (λ act.
            OnOk-bind Sound (required input.machine_id "machine_id" input.action) _ λ given asked.
              OnOk-ok Sound _
                (collect-IsAimed act given (given_of input.machine_id _ _ given asked)))
          (λ _.
            OnOk-if Sound (str_eq input.action "stop_and_quarantine_file") _ _
              (λ act.
                OnOk-bind Sound (required input.machine_id "machine_id" input.action) _
                  λ given asked.
                    OnOk-bind Sound (required input.sha1 "sha1" input.action) _
                      λ given_sha1 asked_sha1. OnOk-ok Sound _ (
                        quarantine-IsAimed act given given_sha1
                          (given_of input.machine_id _ _ given asked)
                          (given_of input.sha1 _ _ given_sha1 asked_sha1)))
              (λ _.
                OnOk-if Sound (str_eq input.action "live_response_run") _ _
                  (λ act.
                    OnOk-bind Sound (read libraries endpoint explain allowed input (read_run input))
                      _
                      λ p asked.
                        OnOk-ok Sound _ (run-IsAimed act p (read-ok (read_run input) p asked)))
                  (λ _.
                    OnOk-if Sound (str_eq input.action "upload_library_file") _ _
                      (λ act.
                        OnOk-bind Sound
                          (read libraries endpoint explain allowed input (read_upload input)) _
                          λ p asked.
                            OnOk-ok Sound _
                              (upload-IsAimed act p (read-ok (read_upload input) p asked)))
                      (λ _.
                        OnOk-if Sound (str_eq input.action "library_file_delete") _ _
                          (λ act. delete-IsAimed act) (λ _. OnOk-err Sound _)))))
          req e h

    module _ (world : Outside) (server : DefenderServer) where
      -- If the Live Response tool makes an upstream request, the action is a known one, and the
      -- request that the action made of the input passed every gate of the pipeline. It is aimed at
      -- what the input names: at a machine whose trimmed identifier has 40 hexadecimal digits, for the
      -- quarantine with a file whose trimmed SHA-1 has too; at a machine, to run 1 to 20 commands that
      -- the operator allows; or at a library file with a simple name, for an upload with a description
      -- and 1 byte to 20 MiB of content, for a deletion without any field that it does not use. What
      -- is audited as its target is what its path, or the upload's file name, says. An action of a
      -- machine sends the comment, a quarantine the trimmed hash and a run the commands too; an upload
      -- sends the content and the trimmed description.
      pub response_calls :
          calls (response_action libraries endpoint explain allowed input world server).1 ≡ 1
          → (contains_str response_actions input.action ≡ true)
            × ((req : MutationRequest) × (response_request libraries endpoint explain allowed input
                  ≡ ok req)
                × IsAimed req
                × ((reason : Text) × (c : ConfirmationOutcome) × IsCleared world server req reason
                      c))
      unfolding response_action
      response_calls h = elim (Bool-cases (contains_str response_actions input.action)) [
        | inr unknown ↦ absurd (ground arith)
        | inl known ↦
            let plan = response_request libraries endpoint explain allowed input in
            let sent : calls (run_request world server plan).1 ≡ 1 = ground arith in
            let (req, made, cleared) = run_request-IsCleared world server plan sent in
            (known, (req, made, response_request-IsAimed req made cleared.2.valid, cleared))
      ]
