-- ===== src/Server/Triage/Sends.antt =====
-- What the triage actions send, and what they leave in the audit log.
use microsoft_defender_mcp.Prelude.{
  if◌then◌else◌, String, ◌⊎◌, ◌++◌, ap, ◌>>=◌, ◌||◌, is_empty-eq-false_iff, ◌≤◌, ◌≡◌, refl, ◌≢◌,
  inl, inr, true, false, none, some, List, [], ◌∷◌, map, arith, str_eq, Bool-cases, Option-cases,
  Result, ok, length, All, >>=-eq-ok,
}
use microsoft_defender_mcp.Audit.{incident_id, ConfirmationOutcome, target, alert_id}
use microsoft_defender_mcp.Auth.Identity.{PermissionCategory}
use microsoft_defender_mcp.Constants.{max_alert_batch}
use microsoft_defender_mcp.Inputs.Triage.{TriageInput}
use microsoft_defender_mcp.Json.{
  Json, CallToolResult, array, arr, obj, field, end, str, number, get, ErrorData,
}
use microsoft_defender_mcp.Server.Attempt.{
  MutationResponse, Outside, DefenderServer, MutationRequest,
}
use microsoft_defender_mcp.Server.Device.{contains_str}
use microsoft_defender_mcp.Server.Device.Rules.{pick}
use microsoft_defender_mcp.Server.Dispatch.{run_request, run_request-IsCleared}
use microsoft_defender_mcp.Server.Mutation.Gates.{calls, IsCleared}
use microsoft_defender_mcp.Server.Tools.{Endpoint, Graph, Libraries, as_tool_error-ok, required}
use microsoft_defender_mcp.Server.Triage.{
  update_body, batch_body, send_update, triage_actions, unused_triage_field, has_change,
  comment_check, triage_check, batch_request, update_request, triage_request, triage_plan,
  triage_action, refuse_with,
}
use microsoft_defender_mcp.Server.Triage.Bodies.{
  Says, update_body-Says, batch_body-Says, ids_listed,
}
use microsoft_defender_mcp.Server.Triage.Rules.{
  IsCommented, comment_check-IsCommented, unused_triage_field_iff, IsUpdate, triage_check-IsUpdate,
}
use microsoft_defender_mcp.Text.{lit, Text, trim}
use microsoft_defender_mcp.Validation.Encoding.{encode_path_segment}
use microsoft_defender_mcp.Validation.Names.{validate_required_id, validate_batch}
use microsoft_defender_mcp.Validation.Names.Accepted.{
  IsRequiredId, validate_required_id_iff, validate_batch_iff,
}

-- The kinds of the known actions.
abbrev Kinds : String → Type 0
Kinds name =
    ((str_eq name "endpoint_alert_update" || str_eq name "endpoint_alert_comment") ≡ true)
    ⊎ (str_eq name "xdr_alert_update" ≡ true)
    ⊎ (str_eq name "xdr_alert_comment" ≡ true)
    ⊎ (str_eq name "xdr_incident_update" ≡ true)
    ⊎ (str_eq name "xdr_incident_comment" ≡ true)
    ⊎ (str_eq name "endpoint_alert_batch_update" ≡ true)

each-Kinds : All Kinds triage_actions
each-Kinds = ground arith

module _ (libraries : Libraries) (endpoint : Endpoint) (graph : Graph) (input : TriageInput) where
  abbrev commented_with : Result Json CallToolResult → Result MutationResponse CallToolResult
  commented_with answer = answer >>= λ v. ok (record { http_status = 201; body = v })

  -- The request of an action on one alert or incident, by the path that names it.
  pub data IsSent (enc : Text) (body : Json) (upstream : Result MutationResponse CallToolResult)
      : Type 0 where
    alert :
        (str_eq input.action "endpoint_alert_update"
            || str_eq input.action "endpoint_alert_comment")
          ≡ true
        → upstream ≡ endpoint.patch_as (lit "/api/alerts/" ++ enc) body PermissionCategory.triage
        → IsSent enc body upstream
    xdr_alert :
        str_eq input.action "xdr_alert_update" ≡ true
        → upstream
          ≡ graph.graph_patch_as (lit "/security/alerts_v2/" ++ enc) body PermissionCategory.triage
        → IsSent enc body upstream
    xdr_alert_comment :
        str_eq input.action "xdr_alert_comment" ≡ true
        → upstream
          ≡ commented_with (
              graph.graph_post_as
                (lit "/security/alerts_v2/" ++ (enc ++ lit "/comments"))
                body
                PermissionCategory.triage)
        → IsSent enc body upstream
    incident :
        str_eq input.action "xdr_incident_update" ≡ true
        → upstream
          ≡ graph.graph_patch_as (lit "/security/incidents/" ++ enc) body PermissionCategory.triage
        → IsSent enc body upstream
    incident_comment :
        str_eq input.action "xdr_incident_comment" ≡ true
        → upstream
          ≡ commented_with (
              graph.graph_post_as
                (lit "/security/incidents/" ++ (enc ++ lit "/comments"))
                body
                PermissionCategory.triage)
        → IsSent enc body upstream

  send_update-IsSent :
      (id : Text)
      → contains_str triage_actions input.action ≡ true
      → str_eq input.action "endpoint_alert_batch_update" ≡ false
      → IsSent
          (encode_path_segment libraries.percent id)
          (update_body input)
          (send_update libraries endpoint graph input id)
  unfolding send_update
  send_update-IsSent id known single =
      elim (Bool-cases (
        str_eq input.action "endpoint_alert_update"
        || str_eq input.action "endpoint_alert_comment")) [
          | inl a ↦ alert a (rw (send_update, a) refl)
          | inr a ↦ elim (Bool-cases (str_eq input.action "xdr_alert_update")) [
            | inl b ↦ xdr_alert b (rw (send_update, a, b) refl)
            | inr b ↦ elim (Bool-cases (str_eq input.action "xdr_alert_comment")) [
              | inl c ↦ xdr_alert_comment c (rw (send_update, a, b, c) refl)
              | inr c ↦ elim (Bool-cases (str_eq input.action "xdr_incident_update")) [
                | inl d ↦ incident d (rw (send_update, a, b, c, d) refl)
                | inr d ↦ elim (Bool-cases (str_eq input.action "xdr_incident_comment")) [
                  | inl e ↦ incident_comment e (rw (send_update, a, b, c, d, e) refl)
                  | inr e ↦
                      let kind = pick Kinds triage_actions input.action known each-Kinds in
                      absurd (ground arith)
                ]
              ]
            ]
          ]
        ]

  -- What a triage request is aimed at: the given alerts, of a batch, or one alert or incident; what is
  -- audited as its targets, and the request that is sent.
  pub data IsAimed (req : MutationRequest) : Type 0 where
    at_batch :
        (ids : List Text)
        → input.ids ≡ some ids
        → str_eq input.action "endpoint_alert_batch_update" ≡ true
        → (1 ≤ length ids) × (length ids ≤ max_alert_batch)
        → All (λ id. IsRequiredId (trim id)) ids
        → req.targets ≡ map (target alert_id) ids
        → (body : Json) → Says input body
        → get "alertIds" body ≡ some (arr (array (map str ids)))
        → req.upstream ≡ (
            endpoint.post_as (lit "/api/alerts/batchUpdate") body PermissionCategory.triage >>= λ _.
            ok (record {
              http_status = 200;
              body =
                  obj (field "count" (number (length ids)) (field "status" (str (lit "ok")) end));
            }))
        → IsAimed req
    at_one :
        (id : Text)
        → input.id ≡ some id
        → str_eq input.action "endpoint_alert_batch_update" ≡ false
        → IsRequiredId (trim id)
        → req.targets
          ≡ (if str_eq input.action "xdr_incident_update"
                  || str_eq input.action "xdr_incident_comment"
                then target incident_id
                else target alert_id)
              (trim id)
            ∷ []
        → (body : Json) → Says input body
        → IsSent (encode_path_segment libraries.percent (trim id)) body req.upstream
        → IsAimed req

  batch-IsAimed :
      (comment_res : Result (Unit {0}) ErrorData) (ids : List Text)
      → input.ids ≡ some ids
      → str_eq input.action "endpoint_alert_batch_update" ≡ true
      → (batch_request libraries endpoint graph input comment_res ids).validation_result ≡ ok tt
      → IsUpdate input
        × (comment_res ≡ ok tt)
        × IsAimed (batch_request libraries endpoint graph input comment_res ids)
  unfolding batch_request batch_body get
  batch-IsAimed comment_res ids given batch h =
      let (_, checked, listed) = >>=-eq-ok _ (triage_check input comment_res) h in
      let (_, accepted) = as_tool_error-ok (validate_batch ids max_alert_batch "ids") listed in
      let (some_ids, few, each) = (validate_batch_iff ids max_alert_batch "ids").0 accepted in
      (
        (triage_check-IsUpdate input comment_res checked).0,
        (triage_check-IsUpdate input comment_res checked).1,
        at_batch ids given batch (some_ids, few) each refl (batch_body input ids)
            (batch_body-Says input ids) (ap (λ vs. some (arr vs)) (ids_listed ids)) refl,
      )

  single-IsAimed :
      (comment_res : Result (Unit {0}) ErrorData) (id : Text)
      → contains_str triage_actions input.action ≡ true
      → input.id ≡ some id
      → str_eq input.action "endpoint_alert_batch_update" ≡ false
      → (update_request libraries endpoint graph input comment_res id).validation_result ≡ ok tt
      → IsUpdate input
        × (comment_res ≡ ok tt)
        × IsAimed (update_request libraries endpoint graph input comment_res id)
  unfolding update_request
  single-IsAimed comment_res id known given single h =
      let (_, checked, named) = >>=-eq-ok _ (triage_check input comment_res) h in
      let (t, accepted) = as_tool_error-ok (validate_required_id id "id") named in
      let (same, is_id) = (validate_required_id_iff id "id" t).0 accepted in
      let some_id = (is_empty-eq-false_iff t).1 is_id.nonempty in
      (
        (triage_check-IsUpdate input comment_res checked).0,
        (triage_check-IsUpdate input comment_res checked).1,
        at_one id given single (rw same at is_id) (rw (accepted, some_id, same) refl)
            (update_body input) (update_body-Says input)
            (rw (accepted, same) (send_update-IsSent (trim id) known single)),
      )

  -- A request that triage makes of the input and that passes validation is an update, aimed at what
  -- the input names.
  pub triage_request-IsAimed :
      (req : MutationRequest)
      → contains_str triage_actions input.action ≡ true
      → triage_request libraries endpoint graph input ≡ ok req
      → req.validation_result ≡ ok tt
      → IsUpdate input × (comment_check input ≡ ok (ok tt)) × IsAimed req
  unfolding triage_request required
  triage_request-IsAimed req known e h =
      let (comment_res, checked, e') = >>=-eq-ok _ (comment_check input) e in
      elim (Bool-cases (str_eq input.action "endpoint_alert_batch_update")) [
        | inl batch ↦ elim (Option-cases input.ids) [
          | inl missing ↦ absurd (ground arith)
          | inr (ids, given) ↦
              let same : batch_request libraries endpoint graph input comment_res ids ≡ req =
                ground arith in
              let (update, passed, aimed) =
                batch-IsAimed comment_res ids given batch (rw (← same) at h) in
              (update, rw passed at checked, rw (← same) aimed)
        ]
        | inr single ↦ elim (Option-cases input.id) [
          | inl missing ↦ absurd (ground arith)
          | inr (id, given) ↦
              let same : update_request libraries endpoint graph input comment_res id ≡ req =
                ground arith in
              let (update, passed, aimed) =
                single-IsAimed comment_res id known given single (rw (← same) at h) in
              (update, rw passed at checked, rw (← same) aimed)
        ]
      ]

  never_refused :
      (reason : Text)
      → (refuse_with libraries endpoint graph input reason).validation_result ≢ ok tt
  never_refused reason = cc

  module _ (world : Outside) (server : DefenderServer) where
    -- If the triage tool makes an upstream request, the action is a known one, no unused field was
    -- given, something is changed, and the request that the action made of the input passed every gate
    -- of the pipeline: it is an update whose comment, owner and tags are not empty and are short, and
    -- whose classification fits. It is aimed at 1 to `max_alert_batch` acceptable alert identifiers,
    -- which are audited and sent as given, or at the one alert or incident that the input names, whose
    -- identifier is acceptable, audited trimmed, and the one in the path. The body has the comment and
    -- the owner as they were given.
    pub triage_calls :
        calls (triage_action libraries endpoint graph input world server).1 ≡ 1
        → (contains_str triage_actions input.action ≡ true)
          × (unused_triage_field input ≡ none)
          × (has_change input ≡ true)
          × ((req : MutationRequest) × (triage_request libraries endpoint graph input ≡ ok req)
              × IsUpdate input
              × IsCommented input
              × IsAimed req
              × ((reason : Text) × (c : ConfirmationOutcome) × IsCleared world server req reason c))
    unfolding triage_action triage_plan
    triage_calls h = elim (Bool-cases (contains_str triage_actions input.action)) [
      | inr unknown ↦ absurd (ground arith)
      | inl known ↦
          let sent : calls (run_request world server (triage_plan libraries endpoint graph input)).1
              ≡ 1 =
            ground arith in
          let (req, planned, cleared) =
            run_request-IsCleared world server (triage_plan libraries endpoint graph input) sent in
          elim (Option-cases (unused_triage_field input)) [
            | inr (f, given) ↦ let valid = cleared.2.valid in absurd (ground arith)
            | inl fits ↦ elim (Bool-cases (has_change input)) [
              | inr idle ↦ let valid = cleared.2.valid in absurd (ground arith)
              | inl changes ↦
                  let made : triage_request libraries endpoint graph input ≡ ok req =
                    ground arith in
                  let (update, checked, aimed) =
                    triage_request-IsAimed req known made cleared.2.valid in
                  let fields = (unused_triage_field_iff input known).0 fits in
                  let told = comment_check-IsCommented input known fields checked in
                  (known, fits, changes, (req, made, update, told, aimed, cleared))
            ]
          ]
    ]
