-- ===== src/Server/Mutation/Gates.antt =====
-- Which gates an action must pass before the upstream request is made.
use microsoft_defender_mcp.Prelude.{
  ℕ, suc, ◌+◌, ◌≤◌, ◌≡◌, refl, ◌⊎◌, inl, inr, true, false, ◌&&◌, none, some, List, [], ◌∷◌, ◌++◌,
  arith, str_eq, if◌then◌else◌, Option-cases, ok, err, length, Result, Option, ◌%◌, ◌≢◌, ap, ◌∙◌,
}
use microsoft_defender_mcp.Audit.{
  ConfirmationOutcome, accepted, AuditResult, AuditRecord, submitted, upstream_error,
  transport_error,
}
use microsoft_defender_mcp.Cli.Categories.{tool_enabled, destructive}
use microsoft_defender_mcp.Constants.{min_justification_len}
use microsoft_defender_mcp.Json.{
  null, boolean, other_number, str, arr, obj, Json, CallToolResult, get, as_u64, number, structured,
  structured_content,
}
use microsoft_defender_mcp.Server.Attempt.{
  MutationResponse, Event, called, prompted, written, write_failed, printed, Outside,
  DefenderServer, MutationRequest,
}
use microsoft_defender_mcp.Server.Mutation.{
  http_status_of, failure_of, not_applicable, outcome, turned_off, pending, request_confirmation,
  intent, record_of, outcome_of, execute_mutation,
}
use microsoft_defender_mcp.Text.{trim, Text, lit}

-- How many upstream requests a trace holds.
abbrev pub calls : List Event → ℕ
calls [] = 0
calls (called ∷ es) = suc (calls es)
calls (_ ∷ es) = calls es

pub calls-append : (xs ys : List Event) → calls (xs ++ ys) ≡ calls xs + calls ys
calls-append [] ys = omega arith
calls-append (called ∷ xs) ys = omega (arith, calls-append xs ys)
calls-append (written _ ∷ xs) ys = omega (arith, calls-append xs ys)
calls-append (write_failed _ ∷ xs) ys = omega (arith, calls-append xs ys)
calls-append (printed _ ∷ xs) ys = omega (arith, calls-append xs ys)
calls-append (prompted _ ∷ xs) ys = omega (arith, calls-append xs ys)

module _ (world : Outside) (server : DefenderServer) (req : MutationRequest) where
  -- How the confirmation of a cleared action was settled.
  abbrev pub Confirmed : Text → ConfirmationOutcome → Type 0
  Confirmed reason c =
      ((destructive req.tool ≡ true)
        × (server.confirm_destructive ≡ true)
        × (c ≡ accepted)
        × ((request_confirmation world server req reason).0 ≡ accepted))
      ⊎ ((destructive req.tool ≡ true) × (server.confirm_destructive ≡ false) × (c ≡ turned_off))
      ⊎ ((destructive req.tool ≡ false) × (c ≡ not_applicable))

  -- Every gate is passed, with this reason and this confirmation.
  pub record IsCleared (reason : Text) (c : ConfirmationOutcome) : Type 0 where
    pub writable : server.read_only ≡ false
    pub enabled : tool_enabled server.categories req.tool ≡ true
    pub offboarding :
        (str_eq req.action "offboard" ≡ false) ⊎ (server.categories.offboarding ≡ true)
    pub valid : req.validation_result ≡ ok tt
    pub justified : (j : Text) × (req.justification ≡ some j) × (reason ≡ trim j)
    pub long : min_justification_len ≤ length reason
    pub confirmed : Confirmed reason c
    pub sink : server.audit_sink ≡ true
    pub logged : world.append (record_of world server req intent (some reason) c pending) ≡ true

  -- One attempt makes at most one upstream request: there is no retry.
  pub calls-execute_mutation-le-one : calls (execute_mutation world server req).1 ≤ 1
  unfolding execute_mutation
  calls-execute_mutation-le-one = ground arith

  confirmation_from : Text → ConfirmationOutcome
  confirmation_from reason =
      if destructive req.tool
      then if server.confirm_destructive then accepted else turned_off
      else not_applicable

  called_gates :
      (j : Text)
      → req.justification ≡ some j
      → calls (execute_mutation world server req).1 ≡ 1
      → IsCleared (trim j) (confirmation_from (trim j))
  unfolding execute_mutation confirmation_from
  called_gates j given h = record {
    writable = ground arith;
    enabled = ground arith;
    offboarding = ground arith;
    valid = ground arith;
    justified = (j, given, refl);
    long = ground arith;
    confirmed = ground arith;
    sink = ground arith;
    logged = ground arith;
  }

  unjustified : req.justification ≡ none → calls (execute_mutation world server req).1 ≡ 0
  unfolding execute_mutation
  unjustified h = ground arith

  -- If the pipeline makes its upstream request, every gate was passed: the server is not read-only,
  -- the tool's category is on, and offboarding too if that is the action; validation succeeded; the
  -- trimmed justification has at least ten characters; a destructive action was confirmed by the user,
  -- unless the operator turned confirmation off; and the intent record was appended to the audit log.
  pub called-IsCleared :
      calls (execute_mutation world server req).1 ≡ 1
      → (reason : Text) × (c : ConfirmationOutcome) × IsCleared reason c
  called-IsCleared h = elim (Option-cases req.justification) [
    | inl missing ↦ absurd (omega (arith, unjustified missing))
    | inr (j, given) ↦ (trim j, confirmation_from (trim j), called_gates j given h)
  ]

  -- The message of a failure.
  abbrev IsMessage : CallToolResult → Text → Type 0
  IsMessage failure msg =
      (world.first_text failure ≡ some msg)
      ⊎ ((world.first_text failure ≡ none) × (msg ≡ lit "upstream error"))

  -- What the caller gets and what the outcome record says, of what upstream gave.
  pub data IsAnswer
      : Result MutationResponse CallToolResult → AuditResult → CallToolResult → Type 0 where
    responded :
        (resp : MutationResponse) (id status : Option Text)
        → req.extract_tracking resp ≡ (id, status)
        → IsAnswer (ok resp) (submitted resp.http_status id status) (structured resp.body)
    failed_with :
        (failure : CallToolResult) (status : ℕ) (msg : Text)
        → get "httpStatus" (structured_content failure) ≡ some (number status)
        → IsMessage failure msg
        → IsAnswer (err failure) (upstream_error (status % 65536) msg) failure
    failed :
        (failure : CallToolResult) (msg : Text)
        → ((status : ℕ) → get "httpStatus" (structured_content failure) ≢ some (number status))
        → IsMessage failure msg
        → IsAnswer (err failure) (transport_error msg) failure

  as_u64_sound : (v : Json) (n : ℕ) → as_u64 v ≡ some n → v ≡ number n
  as_u64_sound (number m) n h = ap number (cc)
  as_u64_sound null n h = absurd (cc)
  as_u64_sound (boolean b) n h = absurd (cc)
  as_u64_sound (other_number t) n h = absurd (cc)
  as_u64_sound (str t) n h = absurd (cc)
  as_u64_sound (arr vs) n h = absurd (cc)
  as_u64_sound (obj fs) n h = absurd (cc)

  status_sound :
      (failure : CallToolResult) (n : ℕ)
      → http_status_of failure ≡ some n
      → get "httpStatus" (structured_content failure) ≡ some (number n)
  unfolding http_status_of
  status_sound failure n h = elim (Option-cases (get "httpStatus" (structured_content failure))) [
    | inl missing ↦ absurd (ground arith)
    | inr (v, there) ↦
        let read : as_u64 v ≡ some n = ground arith in there ∙ ap some (as_u64_sound v n read)
  ]

  failure-IsAnswer :
      (failure : CallToolResult) (msg : Text)
      → IsMessage failure msg
      → (status : Option ℕ) → http_status_of failure ≡ status
      → IsAnswer (err failure) (failure_of world server req status msg) failure
  unfolding http_status_of
  failure-IsAnswer failure msg said none h =
      failed failure msg (λ n there. absurd (ground arith)) said
  failure-IsAnswer failure msg said (some n) h =
      failed_with failure n msg (status_sound failure n h) said

  outcome_of-IsAnswer :
      (upstream : Result MutationResponse CallToolResult)
      → IsAnswer upstream
          (outcome_of world server req upstream).0
          (outcome_of world server req upstream).1
  unfolding outcome_of
  outcome_of-IsAnswer (ok resp) = responded resp _ _ refl
  outcome_of-IsAnswer (err failure) =
      failure-IsAnswer failure _
        (elim (Option-cases (world.first_text failure)) [
          | inl silent ↦ inr (silent, rw silent refl)
          | inr (text, said) ↦ inl (said ∙ rw said refl)
        ])
        (http_status_of failure) refl

  -- The outcome record, in the log or reported as not written.
  abbrev pub logged_event : AuditRecord → Event
  logged_event r = if world.append r then written r else write_failed r

  -- The events before the intent record: the form, if one was shown.
  abbrev pub asked : Text → List Event
  asked reason =
      if destructive req.tool && server.confirm_destructive
      then (request_confirmation world server req reason).1
      else []

  -- If every gate is passed, the events are the form, if one was shown, then the intent record,
  -- appended, then the one upstream request, then the outcome record, appended or reported as not
  -- written. The caller gets what upstream answered: the body of a response, or the failure as it is.
  -- The outcome record says what that was: a submission with the response's status and what the action
  -- tracks, or an upstream error with the failure's status, cut to 16 bits, or else a transport error,
  -- with the failure's first text or `upstream error`.
  pub cleared_trace :
      (reason : Text) (c : ConfirmationOutcome)
      → IsCleared reason c
      → (result : AuditResult) × (answer : CallToolResult) × IsAnswer req.upstream result answer
        × (execute_mutation world server req ≡ (
          answer,
          asked reason
              ++ (written (record_of world server req intent (some reason) c pending)
                  ∷ called
                  ∷ logged_event (record_of world server req outcome (some reason) c result)
                  ∷ []),
        ))
  unfolding execute_mutation
  cleared_trace reason c cleared =
      let (j, given, same) = cleared.justified in
      let (result, answer) = outcome_of world server req req.upstream in
      (result, answer, outcome_of-IsAnswer req.upstream, ground arith)
