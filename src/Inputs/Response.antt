-- ===== src/Inputs/Response.antt =====
-- The input of the Live Response tool, and how serde reads the arguments of two of its actions
-- (src/server.rs).
use microsoft_defender_mcp.Prelude.{
  String, Bool, Option, none, some, List, [], ◌∷◌, Result, ok, err, ok_or, ◌>>=◌,
}
use microsoft_defender_mcp.Inputs.Args.{Misfit, unknown_field, missing_field}
use microsoft_defender_mcp.Server.Device.{first_given, is_some}
use microsoft_defender_mcp.Text.{Text}
use microsoft_defender_mcp.Validation.Commands.{LiveResponseCommand}

pub record ResponseInput : Type 0 where
  pub action : String
  pub machine_id : Option Text
  pub comment : Option Text
  pub commands : Option (List LiveResponseCommand)
  pub file_name : Option Text
  pub file_content : Option Text
  pub description : Option Text
  pub parameters_description : Option Text
  pub override_if_exists : Option Bool
  pub sha1 : Option Text

pub record LiveResponseRunInput : Type 0 where
  pub machine_id : Text
  pub commands : List LiveResponseCommand
  pub comment : Text

pub record LiveResponseLibraryUploadInput : Type 0 where
  pub file_name : Text
  pub file_content : Text
  pub description : Text
  pub parameters_description : Option Text
  pub override_if_exists : Option Bool

-- `serde_json::from_value(Value::Object(action_args(&input)))`
unfoldable pub read_run : ResponseInput → Result LiveResponseRunInput Misfit
read_run input =
    elim (first_given (
      (is_some input.description, "description")
      ∷ (is_some input.file_content, "file_content")
      ∷ (is_some input.file_name, "file_name")
      ∷ (is_some input.override_if_exists, "override_if_exists")
      ∷ (is_some input.parameters_description, "parameters_description")
      ∷ (is_some input.sha1, "sha1")
      ∷ [])) [
        | some f ↦ err (unknown_field f)
        | none ↦ ok_or (missing_field "machine_id") input.machine_id >>= λ machine.
            (ok_or (missing_field "commands") input.commands >>= λ commands.
            (ok_or (missing_field "comment") input.comment >>= λ comment.
            ok (record { machine_id = machine; commands = commands; comment = comment })))
      ]

-- The comment is removed from the arguments before they are read.
unfoldable pub read_upload : ResponseInput → Result LiveResponseLibraryUploadInput Misfit
read_upload input =
    elim (first_given (
      (is_some input.commands, "commands")
      ∷ (is_some input.machine_id, "machine_id")
      ∷ (is_some input.sha1, "sha1")
      ∷ [])) [
        | some f ↦ err (unknown_field f)
        | none ↦ ok_or (missing_field "file_name") input.file_name >>= λ name.
            (ok_or (missing_field "file_content") input.file_content >>= λ content.
            (ok_or (missing_field "description") input.description >>= λ description. ok (record {
              file_name = name;
              file_content = content;
              description = description;
              parameters_description = input.parameters_description;
              override_if_exists = input.override_if_exists;
            })))
      ]
