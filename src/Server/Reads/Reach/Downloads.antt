-- ===== src/Server/Reads/Reach/Downloads.antt =====
-- What `defender_forensics` of src/server.rs reaches.
use microsoft_defender_mcp.Prelude.{
  true, false, ◌≡◌, refl, inl, inr, Bool, Option, none, some, List, arith, str_eq, if◌then◌else◌,
  Bool-cases, Result, ok, err, All, >>=-eq-ok, Result-cases,
}
use microsoft_defender_mcp.Client.{Request, Client}
use microsoft_defender_mcp.Client.Paths.{is_base, is_confined}
use microsoft_defender_mcp.Inputs.Args.{Misfit}
use microsoft_defender_mcp.Inputs.Tools.{ForensicsInput}
use microsoft_defender_mcp.Json.{Json, ErrorData, CallToolResult}
use microsoft_defender_mcp.Server.Mutation.{http_status_of}
use microsoft_defender_mcp.Server.Reads.Downloads.{
  link_request, package_answer, checked_package, forensics_action, unless_answered, is_404,
  staging_dir, Download, after_checks, package_request, action_request, investigation_package_url,
  checked_action_id, checked_quarantined, get_investigation_package_sas_url,
  download_investigation_package, download_quarantined_file, defender_forensics, Quarantined,
}
use microsoft_defender_mcp.Server.Reads.Literal.{index_link-Confined}
use microsoft_defender_mcp.Server.Reads.Reach.Forensics.{forensics_read-Bounded}
use microsoft_defender_mcp.Server.Reads.Safe.{IsChild, Reaches, child-Confined, child_of-Confined}
use microsoft_defender_mcp.Server.Reads.Scope.{ReadConfig, check_scope_not_requested}
use microsoft_defender_mcp.Server.Reads.Scoped.{
  needs_scope, scope_requested, serve-Reaches, unblocked,
}
use microsoft_defender_mcp.Server.Tools.{Libraries, required}
use microsoft_defender_mcp.Text.{Text, lit, text_eq}
use microsoft_defender_mcp.Validation.Names.{validate_action_id}
use microsoft_defender_mcp.Validation.Names.Accepted.{validate_action_id_iff}

action_id-IsChild : (s t : Text) → validate_action_id s ≡ ok t → IsChild t
action_id-IsChild s t e =
    let (_, nonempty, _, chars) = (validate_action_id_iff s t).0 e in
    (
      nonempty,
      λ p. let dotted = rw p at chars in absurd (ground arith),
      λ p. let dotted = rw p at chars in absurd (ground arith),
    )

-- What an action that passed its checks asks for is what it asks for.
after_checks-Reaches :
    {A : Type 0} (w : Bool) (checks : Result A ErrorData) (act : A → CallToolResult × List Request)
    → ((a : A) → checks ≡ ok a → All (Reaches w) (act a).1)
    → All (Reaches w) (after_checks checks act).1
after_checks-Reaches w (err e) act k = tt
after_checks-Reaches w (ok a) act k = k a refl

module _ (libraries : Libraries) (client : Client) (w : Bool) where
  package_request-Reaches :
      (id : Text) → IsChild id → Reaches w (package_request libraries client id)
  unfolding is_base is_confined lit text_eq
  package_request-Reaches id k = record {
    path =
        child_of-Confined libraries.percent "/api/machineactions/" id "/getPackageUri" refl refl k;
    reading = inr (inl refl);
  }

  action_request-Reaches : (id : Text) → IsChild id → Reaches w (action_request libraries client id)
  unfolding is_base is_confined lit text_eq
  action_request-Reaches id k = record {
    path = child-Confined libraries.percent "/api/machineactions/" id refl k;
    reading = inr (inl refl);
  }

  answer-Reaches :
      (id : Text) (r : Result Json CallToolResult)
      → IsChild id
      → All (Reaches w) (package_answer libraries client id r).1
  unfolding is_base is_confined lit text_eq
  answer-Reaches id (ok v) k = (package_request-Reaches id k, tt)
  answer-Reaches id (err e) k = elim (Bool-cases (is_404 libraries client (http_status_of e))) [
    | inl missing ↦ rw missing (package_request-Reaches id k, (action_request-Reaches id k, tt))
    | inr other ↦ rw other (package_request-Reaches id k, tt)
  ]

  package_url-Reaches :
      (id : Text) → IsChild id → All (Reaches w) (investigation_package_url libraries client id).1
  unfolding investigation_package_url
  package_url-Reaches id k = answer-Reaches id (client (package_request libraries client id)) k

module _ (libraries : Libraries) (explain : Misfit → Text) (config : ReadConfig) (client : Client)
    (download : Download) (input : ForensicsInput) where
  checked-IsChild :
      (id : Text)
      → checked_action_id libraries explain config client download input ≡ ok id
      → IsChild id
  unfolding checked_action_id
  checked-IsChild id e =
      let (given, _, accepted) =
        >>=-eq-ok (λ id. validate_action_id id) (required input.action_id "action_id" input.action)
          e in
      action_id-IsChild given id accepted

  quarantined-IsChild :
      (q : Quarantined)
      → checked_quarantined libraries explain config client download input ≡ ok q
      → IsChild q.action_id
  unfolding checked_quarantined
  quarantined-IsChild q e =
      elim (Result-cases (checked_action_id libraries explain config client download input)) [
        | inr (why, failed) ↦ absurd (ground arith)
        | inl (id, passed) ↦
            let same : q.action_id ≡ id = ground arith in rw same (checked-IsChild id passed)
      ]

  package-IsChild :
      (p : Text × Option Text)
      → checked_package libraries explain config client download input ≡ ok p
      → IsChild p.0
  unfolding checked_package
  package-IsChild p e =
      elim (Result-cases (checked_action_id libraries explain config client download input)) [
        | inr (why, failed) ↦ absurd (ground arith)
        | inl (id, passed) ↦ elim (Result-cases (staging_dir input.destination_dir)) [
          | inr (why, failed) ↦ absurd (ground arith)
          | inl (dir, staged) ↦
              let same : p.0 ≡ id = ground arith in rw same (checked-IsChild id passed)
        ]
      ]

  module _ (w : Bool) where
    sas_url-Reaches :
        All
          (Reaches w)
          (get_investigation_package_sas_url libraries explain config client download input).1
    unfolding get_investigation_package_sas_url
    sas_url-Reaches =
        after_checks-Reaches w _ _
          λ id e. package_url-Reaches libraries client w id (checked-IsChild id e)

    package-Reaches :
        All
          (Reaches w)
          (download_investigation_package libraries explain config client download input).1
    unfolding download_investigation_package
    package-Reaches =
        after_checks-Reaches w (checked_package libraries explain config client download input) _
          λ checked e. package_url-Reaches libraries client w checked.0 (package-IsChild checked e)

    file-Reaches :
        All (Reaches w) (download_quarantined_file libraries explain config client download input).1
    unfolding download_quarantined_file
    file-Reaches =
        let asked : (q : Quarantined)
            → checked_quarantined libraries explain config client download input ≡ ok q
            → Reaches w
                (link_request libraries explain config client download input q.action_id q.index)
              × Unit {0} =
          λ q e. (
            record {
              path =
                  index_link-Confined libraries.percent q.action_id q.index
                    (quarantined-IsChild q e);
              reading = inr (inl refl);
            },
            tt,
          ) in
        after_checks-Reaches w (checked_quarantined libraries explain config client download input)
          _ asked

  Made-if :
      (w b : Bool) (x y : Result CallToolResult ErrorData × List Request)
      → All (Reaches w) x.1
      → All (Reaches w) y.1
      → All (Reaches w) (if b then x else y).1
  Made-if w true x y h k = h
  Made-if w false x y h k = k

  Made-unless :
      (w : Bool) (blocked : Option CallToolResult)
      (result : Result CallToolResult ErrorData × List Request)
      → (blocked ≡ none → All (Reaches w) result.1)
      → All
          (Reaches w)
          (unless_answered libraries explain config client download input blocked result).1
  Made-unless w (some r) result k = tt
  Made-unless w none result k = k refl

  action-Reaches :
      All
        (Reaches (needs_scope input.action))
        (forensics_action libraries explain config client download input).1
  unfolding forensics_action
  action-Reaches =
      Made-if _ (str_eq input.action "get_investigation_package_sas_url") _ _ (sas_url-Reaches _) (
        Made-if _ (str_eq input.action "download_investigation_package") _ _ (package-Reaches _) (
          Made-if _ (str_eq input.action "download_quarantined_file") _ _ (file-Reaches _)
            (serve-Reaches _ client _ (forensics_read-Bounded libraries explain config input))))

  -- Every request that `defender_forensics` makes, those on the way to a download included, has a path
  -- each of whose segments names a child, so that no value of the input leads elsewhere, and is under a
  -- category of reads, unless the action is one that needs a write-named scope and a user did not sign
  -- in under `--read-only`. This does not speak of the download from the address that is answered.
  pub defender_forensics-Reaches :
      All
        (Reaches (scope_requested config input.action))
        (defender_forensics libraries explain config client download input).1
  unfolding defender_forensics
  defender_forensics-Reaches =
      Made-unless _ (check_scope_not_requested config input.action) _
        λ h. rw (unblocked config input.action h) action-Reaches
