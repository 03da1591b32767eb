-- ===== src/Server/Indicators/Sends.antt =====
-- What the indicator actions send upstream, and what they leave in the audit log.
use microsoft_defender_mcp.Prelude.{
  Result-cases, inl, Bool-cases, inr, Option-cases, is_ok, List, ℕ, ◌≤◌, ◌<◌, String, ◌≡◌, refl,
  ◌≢◌, ◌↔◌, ◌⊎◌, true, none, some, [], ◌∷◌, arith, str_eq, ok, length, All, >>=-eq-ok,
}
use microsoft_defender_mcp.Audit.{ConfirmationOutcome, target, indicator_value}
use microsoft_defender_mcp.Auth.Identity.{PermissionCategory}
use microsoft_defender_mcp.Cli.Categories.{MutatingTool}
use microsoft_defender_mcp.Inputs.Indicator.{
  IndicatorsInput, indicator_type_str, indicator_action_str,
}
use microsoft_defender_mcp.Json.{Json, str, get}
use microsoft_defender_mcp.Server.Attempt.{MutationRequest, DefenderServer, Outside}
use microsoft_defender_mcp.Server.Device.{contains_str}
use microsoft_defender_mcp.Server.Device.Rules.{pick}
use microsoft_defender_mcp.Server.Indicators.{
  indicator_request, defender_indicators, indicators_action, unused_indicator_request,
  validate_groups, indicators_actions, unused_indicator_field, Submission, check_given,
  submission_check, submission_body, submit_request,
}
use microsoft_defender_mcp.Server.Mutation.{execute_mutation}
use microsoft_defender_mcp.Server.Mutation.Gates.{called-IsCleared, IsCleared, calls}
use microsoft_defender_mcp.Server.Mutation.Trail.{lifecycle, closed, fresh, advance_all}
use microsoft_defender_mcp.Server.Rejection.{rejected_request}
use microsoft_defender_mcp.Server.Tools.{as_tool_error-ok, Endpoint, Libraries, as_tool_error}
use microsoft_defender_mcp.Text.{Text, trim, lit}
use microsoft_defender_mcp.Validation.Indicators.{
  validate_indicator_value, validate_indicator_action, validate_future_rfc3339,
}
use microsoft_defender_mcp.Validation.Indicators.Rules.{
  IsIndicatorValue, Permits, validate_indicator_value_sound, validate_indicator_action_iff,
  validate_future_rfc3339_iff,
}
use microsoft_defender_mcp.Validation.Names.{validate_text, validate_description}
use microsoft_defender_mcp.Validation.Names.Free.{validate_text_iff, description_and_tag_name_iff}

-- Every field that is given is one that the action takes.
pub record TakesIndicatorFields (input : IndicatorsInput) : Type 0 where
  pub id : (input.indicator_id ≡ none) ⊎ (str_eq input.action "delete" ≡ true)
  pub ids : (input.indicator_ids ≡ none) ⊎ (str_eq input.action "batch_delete" ≡ true)
  pub value : (input.indicator_value ≡ none) ⊎ (str_eq input.action "submit" ≡ true)
  pub type : (input.indicator_type ≡ none) ⊎ (str_eq input.action "submit" ≡ true)
  pub action : (input.indicator_action ≡ none) ⊎ (str_eq input.action "submit" ≡ true)
  pub title : (input.title ≡ none) ⊎ (str_eq input.action "submit" ≡ true)
  pub description : (input.description ≡ none) ⊎ (str_eq input.action "submit" ≡ true)
  pub severity : (input.severity ≡ none) ⊎ (str_eq input.action "submit" ≡ true)
  pub expiration : (input.expiration_time ≡ none) ⊎ (str_eq input.action "submit" ≡ true)
  pub groups : (input.rbac_group_names ≡ none) ⊎ (str_eq input.action "submit" ≡ true)
  pub recommended : (input.recommended_actions ≡ none) ⊎ (str_eq input.action "submit" ≡ true)
  pub alert : (input.generate_alert ≡ none) ⊎ (str_eq input.action "submit" ≡ true)

abbrev Agrees : IndicatorsInput → String → Type 0
Agrees input name =
    let named = record input { action = name } in
    (unused_indicator_field named ≡ none) ↔ TakesIndicatorFields named

each-Agrees : (input : IndicatorsInput) → All (Agrees input) indicators_actions
unfolding unused_indicator_field
each-Agrees input = ground arith

-- A known indicator action is refused for an unused field exactly if a field is given that it does
-- not take: `indicator_id` is for `delete` alone, `indicator_ids` for `batch_delete` alone, and all
-- the fields that describe an indicator for `submit` alone.
pub unused_indicator_field_iff :
    (input : IndicatorsInput)
    → contains_str indicators_actions input.action ≡ true
    → (unused_indicator_field input ≡ none) ↔ TakesIndicatorFields input
unused_indicator_field_iff input known =
    pick (Agrees input) indicators_actions input.action known (each-Agrees input)

validate_groups_sound :
    (gs : List Text)
    → validate_groups gs ≡ ok tt
    → All (λ g. (trim g ≢ []) × (length (trim g) ≤ 128)) gs
unfolding validate_groups
validate_groups_sound [] h = tt
validate_groups_sound (g ∷ gs) h =
    let (t, accepted, rest) = >>=-eq-ok _ (validate_text g 128 "rbac_group_names") h in
    let (same, nonempty, short, _) = (validate_text_iff g 128 "rbac_group_names" t).0 accepted in
    ((rw (← same) nonempty, rw (← same) short), validate_groups_sound gs rest)

module _ (libraries : Libraries) (input : IndicatorsInput) where
  -- What a submission must be: its value, once trimmed, is what its type asks for, its action is
  -- permitted for the type, its texts are not empty and not too long, and its expiry is in the future.
  pub record IsSubmission (s : Submission) : Type 0 where
    pub value : IsIndicatorValue libraries.parse_url s.type (trim s.value)
    pub action : Permits s.type s.action input.generate_alert
    pub title : (trim s.title ≢ []) × (length (trim s.title) ≤ 256)
    pub description : trim s.description ≢ []
    pub expiry :
        (exp : Text)
        → input.expiration_time ≡ some exp
        → (dt : ℕ) × (libraries.chrono.parse_from_rfc3339 (trim exp) ≡ ok dt)
          × (libraries.chrono.now < dt)
    pub groups :
        (gs : List Text)
        → input.rbac_group_names ≡ some gs
        → All (λ g. (trim g ≢ []) × (length (trim g) ≤ 128)) gs

  expiry_sound :
      (exp : Text)
      → input.expiration_time ≡ some exp
      → as_tool_error (
          check_given
            (λ exp. validate_future_rfc3339 libraries.chrono exp "expiration_time")
            input.expiration_time)
        ≡ ok tt
      → (dt : ℕ) × (libraries.chrono.parse_from_rfc3339 (trim exp) ≡ ok dt)
        × (libraries.chrono.now < dt)
  expiry_sound exp given h =
      let (_, checked) = as_tool_error-ok _ (rw given at h) in
      let (dt, accepted, _) =
        >>=-eq-ok _ (validate_future_rfc3339 libraries.chrono exp "expiration_time") checked in
      let (parsed, later) =
        (validate_future_rfc3339_iff libraries.chrono exp "expiration_time" dt).0 accepted in
      (dt, parsed, later)

  groups_sound :
      (gs : List Text)
      → input.rbac_group_names ≡ some gs
      → as_tool_error (check_given validate_groups input.rbac_group_names) ≡ ok tt
      → All (λ g. (trim g ≢ []) × (length (trim g) ≤ 128)) gs
  groups_sound gs given h =
      let (_, checked) = as_tool_error-ok _ (rw given at h) in
      let (_, accepted, _) = >>=-eq-ok _ (validate_groups gs) checked in
      validate_groups_sound gs accepted

  -- What the body of a submission says of the indicator: the texts as they were given.
  pub record Describes (s : Submission) (body : Json) : Type 0 where
    pub value : get "indicatorValue" body ≡ some (str s.value)
    pub title : get "title" body ≡ some (str s.title)
    pub description : get "description" body ≡ some (str s.description)
    pub type : get "indicatorType" body ≡ some (str (lit (indicator_type_str s.type)))
    pub action : get "action" body ≡ some (str (lit (indicator_action_str s.action)))

  submission_body-Describes : (s : Submission) → Describes s (submission_body libraries input s)
  unfolding submission_body get
  submission_body-Describes s = record {
    value = ground arith;
    title = ground arith;
    description = ground arith;
    type = ground arith;
    action = ground arith;
  }

  -- A submission that passes its checks has a value that is, when trimmed, what its type asks for,
  -- an action that is permitted for the type, a title, a description and groups that are not empty,
  -- a title of at most 256 and groups of at most 128 characters when trimmed, and an expiry, if
  -- any, in the future. Its request posts to `/api/indicators` a body with the value, the title, the
  -- description, the type and the action of the submission; the value that is sent and audited is
  -- the given one, which is not trimmed.
  pub submission_check-IsSubmission :
      (endpoint : Endpoint) (s : Submission)
      → (submit_request libraries input endpoint s).validation_result ≡ ok tt
      → IsSubmission s
        × ((submit_request libraries input endpoint s).targets
            ≡ target indicator_value s.value ∷ [])
        × ((body : Json) × Describes s body
            × ((submit_request libraries input endpoint s).upstream
                ≡ endpoint.post_as (lit "/api/indicators") body PermissionCategory.indicators))
  unfolding submit_request submission_check
  submission_check-IsSubmission endpoint s h =
      let (_, titled, h1) = >>=-eq-ok _ (as_tool_error (validate_text s.title 256 "title")) h in
      let (_, described, h2) =
        >>=-eq-ok _ (as_tool_error (validate_description s.description)) h1 in
      let (_, valued, h3) =
        >>=-eq-ok _ (as_tool_error (validate_indicator_value libraries.parse_url s.type s.value))
          h2 in
      let (_, acted, h4) =
        >>=-eq-ok _ (as_tool_error (validate_indicator_action s.type s.action input.generate_alert))
          h3 in
      let (_, expires, grouped) =
        >>=-eq-ok _
          (as_tool_error (
            check_given (λ exp. validate_future_rfc3339 libraries.chrono exp "expiration_time")
              input.expiration_time))
          h4 in
      let (t, title) = as_tool_error-ok (validate_text s.title 256 "title") titled in
      let (d, description) = as_tool_error-ok (validate_description s.description) described in
      let (v, value) =
        as_tool_error-ok (validate_indicator_value libraries.parse_url s.type s.value) valued in
      let (_, action) =
        as_tool_error-ok (validate_indicator_action s.type s.action input.generate_alert) acted in
      let (same_t, t_nonempty, t_short, _) = (validate_text_iff s.title 256 "title" t).0 title in
      let (same_d, d_nonempty, _) =
        (description_and_tag_name_iff s.description d).0.0 description in
      let (same_v, is_value) =
        validate_indicator_value_sound libraries.parse_url s.type s.value v value in
      (
        record {
          value = rw same_v at is_value;
          action = (validate_indicator_action_iff s.type s.action input.generate_alert).0 action;
          title = (rw (← same_t) t_nonempty, rw (← same_t) t_short);
          description = rw (← same_d) d_nonempty;
          expiry = λ exp given. expiry_sound exp given expires;
          groups = λ gs given. groups_sound gs given grouped;
        },
        rw value refl,
        (submission_body libraries input s, submission_body-Describes s, refl),
      )

module _ (libraries : Libraries) (input : IndicatorsInput) (endpoint : Endpoint) (world : Outside)
    (server : DefenderServer) where
  never_unused :
      (f : String) → (unused_indicator_request libraries input endpoint f).validation_result ≢ ok tt
  unfolding unused_indicator_request
  never_unused f = cc

  -- If the indicator tool makes an upstream request, the action is a known one, no unused field was
  -- given, and the request that the action made of the input passed every gate of the pipeline.
  pub indicators_calls :
      calls (indicators_action libraries input endpoint world server).1 ≡ 1
      → (contains_str indicators_actions input.action ≡ true)
        × (unused_indicator_field input ≡ none)
        × ((req : MutationRequest) × (indicator_request libraries input endpoint ≡ ok req)
            × ((reason : Text) × (c : ConfirmationOutcome) × IsCleared world server req reason c))
  unfolding indicators_action
  indicators_calls h = elim (Bool-cases (contains_str indicators_actions input.action)) [
    | inr unknown ↦ absurd (ground arith)
    | inl known ↦ elim (Option-cases (unused_indicator_field input)) [
      | inr (f, given) ↦
          let req = unused_indicator_request libraries input endpoint f in
          let once : calls (execute_mutation world server req).1 ≡ 1 = ground arith in
          absurd (never_unused f (called-IsCleared world server req once).2.valid)
      | inl fits ↦ elim (Result-cases (indicator_request libraries input endpoint)) [
        | inr (why, failed) ↦ absurd (ground arith)
        | inl (req, prepared) ↦
            (known, fits, (req, prepared, called-IsCleared world server req (ground arith)))
      ]
    ]
  ]

  -- Every attempt of a known indicator action ends with a tool result, never with a protocol error,
  -- and where there is an audit sink it runs through its life in the audit log to the end.
  pub defender_indicators-audited :
      contains_str indicators_actions input.action ≡ true
      → server.audit_sink ≡ true
      → (is_ok (defender_indicators libraries input endpoint world server).0 ≡ true)
        × (advance_all fresh (defender_indicators libraries input endpoint world server).1
            ≡ some closed)
  unfolding defender_indicators
  defender_indicators-audited known sink = elim (Option-cases (unused_indicator_field input)) [
    | inr (f, given) ↦
        let life =
          lifecycle world server (unused_indicator_request libraries input endpoint f) sink in
        ground arith
    | inl fits ↦ elim (Result-cases (indicator_request libraries input endpoint)) [
      | inr (why, failed) ↦
          let life =
            lifecycle world server
              (rejected_request MutatingTool.indicators input.action PermissionCategory.indicators
                input.comment why)
              sink in
          ground arith
      | inl (req, prepared) ↦ let life = lifecycle world server req sink in ground arith
    ]
  ]
