-- ===== src/Server/Prepare/Aims.antt =====
-- What a prepared request of the device actions aims at.
use microsoft_defender_mcp.Prelude.{
  is_empty-eq-false_iff, >>=-eq-ok, Bool-cases, ◌||◌, ◌∙◌, str_eq, ◌>>=◌, Result-cases, String, ◌≡◌,
  refl, inl, inr, Bool, true, false, some, [], ◌∷◌, ◌++◌, arith, if◌then◌else◌, Option-cases,
  Result, ok, err, is_ok, length, is_empty, All-map,
}
use microsoft_defender_mcp.Audit.{target, machine_id, machine_action_id}
use microsoft_defender_mcp.Inputs.Device.{DeviceResponseInput}
use microsoft_defender_mcp.Json.{Fields, Json, ErrorData}
use microsoft_defender_mcp.Server.Prepare.{
  machine_request, machine_path, prepare, prepare_device_value, prepare_isolate, prepare_scan,
  prepare_tag, targets_of, Prepared, prepare_cancel, prepare_machine,
}
use microsoft_defender_mcp.Server.Tools.{required, both, Libraries, text_or_empty, as_tool_error}
use microsoft_defender_mcp.Text.{Text, lit, trim, is_hexdigit}
use microsoft_defender_mcp.Validation.Encoding.{
  encode_path_segment, encode_of_unreserved, action_id-segment, is_unreserved,
}
use microsoft_defender_mcp.Validation.Hashes.{IsHex, validate_machine_id}
use microsoft_defender_mcp.Validation.Names.{validate_tag, validate_action_id}
use microsoft_defender_mcp.Validation.Names.Accepted.{validate_action_id_iff}

module _ (libraries : Libraries) where
  pub machine_id-IsHex : (s id : Text) → validate_machine_id libraries.regex s ≡ ok id → IsHex 40 id
  unfolding validate_machine_id
  machine_id-IsHex s id e =
      let m = libraries.regex.match_sha1 (trim s) in
      let same : id ≡ trim s = ground arith in rw same (m.0 (ground arith))

  machine_id-segment :
      (s id : Text)
      → validate_machine_id libraries.regex s ≡ ok id
      → (encode_path_segment libraries.percent id ≡ id) × (is_empty id ≡ false)
  machine_id-segment s id e =
      let (long, hex) = machine_id-IsHex s id e in
      (
        encode_of_unreserved libraries.percent id (
            All-map (λ c. is_hexdigit c ≡ true) (λ c. is_unreserved c ≡ true) (λ c h. ground arith)
              id hex),
        not_empty id long,
      )
    where
      not_empty : (t : Text) → length t ≡ 40 → is_empty t ≡ false
      not_empty [] h = absurd (omega arith)
      not_empty (c ∷ t) h = refl

  -- What a prepared request aims at: the value in the audit record is the one in the path.
  pub data Aims (input : DeviceResponseInput) (p : Prepared) : Type 0 where
    at_action :
        (given id : Text)
        → input.action_id ≡ some given
        → validate_action_id given ≡ ok id
        → p.targets ≡ target machine_action_id id ∷ []
        → p.path ≡ lit "/api/machineactions/" ++ (id ++ lit "/cancel")
        → Aims input p
    at_machine :
        (given id : Text) (suffix : String)
        → input.machine_id ≡ some given
        → validate_machine_id libraries.regex given ≡ ok id
        → p.targets ≡ target machine_id id ∷ []
        → p.path ≡ lit "/api/machines/" ++ (id ++ lit suffix)
        → Aims input p

  module _ (input : DeviceResponseInput) where
    cancel-Aims :
        (p : Prepared) → prepare_cancel libraries input ≡ ok p → p.validation ≡ ok tt → Aims input p
    unfolding prepare_cancel
    cancel-Aims p e valid = elim (Option-cases input.action_id) [
      | inl missing ↦ absurd (ground arith)
      | inr (given, present) ↦ elim (Result-cases (validate_action_id given)) [
        | inr (why, refused) ↦ absurd (ground arith)
        | inl (id, accepted) ↦
            let same = action_id-segment libraries.percent given id accepted in
            let n = (is_empty-eq-false_iff id).1 ((validate_action_id_iff given id).0 accepted).1 in
            at_action given id present accepted (ground arith) (ground arith)
      ]
    ]

    module _ (res : Result Text ErrorData) where
      -- A request on the machine whose identifier was checked with the result `res`.
      record OnMachine (p : Prepared) : Type 0 where
        suffix : String
        aim : p.targets ≡ targets_of (target machine_id) (text_or_empty res)
        path :
            p.path
            ≡ lit "/api/machines/"
              ++ (encode_path_segment libraries.percent (text_or_empty res) ++ lit suffix)
        checked : p.validation ≡ ok tt → is_ok res ≡ true

      abbrev Shaped : Result Prepared ErrorData → Type 0
      Shaped r = (p : Prepared) → r ≡ ok p → OnMachine p

      Shaped-ok :
          (suffix : String) (p : Prepared)
          → p.targets ≡ targets_of (target machine_id) (text_or_empty res)
          → p.path ≡ machine_path libraries input res suffix
          → (p.validation ≡ ok tt → is_ok res ≡ true)
          → Shaped (ok p)
      Shaped-ok suffix p t u c q e =
          let same : p ≡ q = ground arith in
          rw (← same) (record { suffix = suffix; aim = t; path = u; checked = c })

      as_tool_error-ok : (r : Result Text ErrorData) → as_tool_error r ≡ ok tt → is_ok r ≡ true
      as_tool_error-ok (ok t) h = refl
      as_tool_error-ok (err e) h = cc

      both-ok : (r q : Result Text ErrorData) → both r q ≡ ok tt → is_ok r ≡ true
      both-ok (ok t) q h = refl
      both-ok (err e) q h = cc

      Shaped-request :
          (suffix : String) (body : Json) (parameters : Fields)
          → Shaped (ok (machine_request libraries input res suffix body parameters))
      Shaped-request suffix body parameters = Shaped-ok suffix _ refl refl (as_tool_error-ok res)

      Shaped-err : (e : ErrorData) → Shaped (err e)
      Shaped-err e p h = absurd (ground arith)

      Shaped-if :
          (b : Bool) (x y : Result Prepared ErrorData)
          → Shaped x
          → Shaped y
          → Shaped (if b then x else y)
      Shaped-if true x y hx hy = hx
      Shaped-if false x y hx hy = hy

      Shaped-bind :
          {A : Type 0} (m : Result A ErrorData) (k : A → Result Prepared ErrorData)
          → ((a : A) → Shaped (k a))
          → Shaped (m >>= k)
      Shaped-bind (ok a) k h = h a
      Shaped-bind (err e) k h = Shaped-err e

      prepare_scan-Shaped : Shaped (prepare_scan libraries input res)
      unfolding prepare_scan
      prepare_scan-Shaped = Shaped-bind _ _ λ scan. Shaped-request "/runAntiVirusScan" _ _

      prepare_device_value-Shaped : Shaped (prepare_device_value libraries input res)
      unfolding prepare_device_value
      prepare_device_value-Shaped = Shaped-bind _ _ λ value. Shaped-request "/setDeviceValue" _ _

      prepare_tag-Shaped : Shaped (prepare_tag libraries input res)
      unfolding prepare_tag
      prepare_tag-Shaped =
          Shaped-bind _ _ λ given. Shaped-ok "/tags" _ refl refl (both-ok res (validate_tag given))

      prepare_isolate-Shaped : Shaped (prepare_isolate libraries input res)
      unfolding prepare_isolate
      prepare_isolate-Shaped = Shaped-request "/isolate" _ _

      prepare_machine-Shaped : Shaped (prepare_machine libraries input res)
      unfolding prepare_machine
      prepare_machine-Shaped =
          Shaped-if (str_eq input.action "isolate") _ _ prepare_isolate-Shaped (
            Shaped-if (str_eq input.action "unisolate") _ _ (Shaped-request "/unisolate" _ _) (
              Shaped-if (str_eq input.action "restrict_app_execution") _ _
                (Shaped-request "/restrictCodeExecution" _ _)
                (Shaped-if (str_eq input.action "unrestrict_app_execution") _ _
                  (Shaped-request "/unrestrictCodeExecution" _ _)
                  (Shaped-if (str_eq input.action "run_av_scan") _ _ prepare_scan-Shaped (
                    Shaped-if (str_eq input.action "start_investigation") _ _
                      (Shaped-request "/startInvestigation" _ _)
                      (Shaped-if (str_eq input.action "tag_add" || str_eq input.action "tag_remove")
                        _ _ prepare_tag-Shaped
                        (Shaped-if (str_eq input.action "set_device_value") _ _
                          prepare_device_value-Shaped
                          (Shaped-if (str_eq input.action "offboard") _ _
                            (Shaped-request "/offboard" _ _) (Shaped-err _)))))))))

    machine-Aims :
        (given : Text)
        → input.machine_id ≡ some given
        → (p : Prepared)
        → prepare_machine libraries input (validate_machine_id libraries.regex given) ≡ ok p
        → p.validation ≡ ok tt
        → Aims input p
    machine-Aims given present p e valid =
        let shape = prepare_machine-Shaped (validate_machine_id libraries.regex given) p e in
        elim (Result-cases (validate_machine_id libraries.regex given)) [
          | inr (why, refused) ↦
              let c : is_ok (validate_machine_id libraries.regex given) ≡ true =
                shape.checked valid in
              absurd (ground arith)
          | inl (id, accepted) ↦
              let (same, n) = machine_id-segment given id accepted in
              at_machine given id shape.suffix present accepted (shape.aim ∙ (rw accepted (rw n)))
                (shape.path ∙ (rw accepted (rw same)))
        ]

    required_sound :
        (given : Text)
        → required input.machine_id "machine_id" input.action ≡ ok given
        → input.machine_id ≡ some given
    unfolding required
    required_sound given h = ground arith

    -- A prepared request of the device tool that passed validation aims at what its audit record
    -- names: the one target is the validated action identifier, and the path cancels that action,
    -- or it is the validated machine identifier of 40 hexadecimal digits, and the path is one of
    -- that machine; either stands in the path as it is.
    pub prepare-Aims :
        (p : Prepared) → prepare libraries input ≡ ok p → p.validation ≡ ok tt → Aims input p
    unfolding prepare
    prepare-Aims p e valid = elim (Bool-cases (str_eq input.action "cancel_machine_action")) [
      | inl cancel ↦ cancel-Aims p (ground arith) valid
      | inr other ↦
          let chain = rw other at e in
          let (given, needed, prepared) =
            >>=-eq-ok
              (λ given. prepare_machine libraries input (validate_machine_id libraries.regex given))
              (required input.machine_id "machine_id" input.action) chain in
          machine-Aims given (required_sound given needed) p prepared valid
    ]
