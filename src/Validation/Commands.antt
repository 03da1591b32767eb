-- ===== src/Validation/Commands.antt =====
-- The commands of a Live Response session (src/validation.rs, src/server.rs).
use microsoft_defender_mcp.Prelude.{
  ◌>>=◌, ◌>>◌, ◌≤◌, String, ◌≡◌, refl, ◌↔◌, true, not, Option, none, some, List, [], ◌∷◌, ◌++◌, map,
  arith, str_eq, eq_iff, ltb, Result, ok, refuse, length, any, is_empty, All, Any,
}
use microsoft_defender_mcp.Constants.{max_live_response_commands}
use microsoft_defender_mcp.Error.{join}
use microsoft_defender_mcp.Json.{ErrorData, invalid_params}
use microsoft_defender_mcp.Text.{Text, lit}
use microsoft_defender_mcp.Text.Decimal.{decimal}

pub data LiveResponseCommandType : Type 0 where
  put_file run_script get_file : LiveResponseCommandType

unfoldable pub command_type_str : LiveResponseCommandType → String
command_type_str put_file = "PutFile"
command_type_str run_script = "RunScript"
command_type_str get_file = "GetFile"

pub record LiveResponseParam : Type 0 where
  pub key : Text
  pub value : Text

pub record LiveResponseCommand : Type 0 where
  pub cmd_type : LiveResponseCommandType
  pub params : List LiveResponseParam

-- The loop over the commands, against a given allowlist.
unfoldable pub check_allowed :
    (allowed : List String) → List LiveResponseCommand → Result (Unit {0}) ErrorData
check_allowed allowed [] = ok tt
check_allowed allowed (cmd ∷ commands) =
    let cmd_str = command_type_str cmd.cmd_type in
    refuse (not (any (λ a. str_eq a cmd_str) allowed)) (
      invalid_params (
        lit "Command type '"
        ++ (lit cmd_str
            ++ (lit "' is not in the allowed list (DEFENDER_LIVE_RESPONSE_ALLOWED_COMMANDS="
                ++ (join (lit ",") (map lit allowed) ++ lit ")")))))
    >>= λ _. check_allowed allowed commands

abbrev check_allowlist :
    Option (List String) → List LiveResponseCommand → Result (Unit {0}) ErrorData
check_allowlist none commands = ok tt
check_allowlist (some allowed) commands = check_allowed allowed commands

unfoldable pub validate_live_response_commands :
    List LiveResponseCommand → (allowed : Option (List String)) → Result (Unit {0}) ErrorData
unfolding check_allowed
validate_live_response_commands commands allowed = do
  refuse (is_empty commands)
      (invalid_params (lit "commands array cannot be empty — at least one command is required"))
  refuse (ltb max_live_response_commands (length commands)) (
      invalid_params (
        lit "commands array exceeds maximum of "
        ++ (decimal max_live_response_commands ++ lit " commands")))
  check_allowlist allowed commands

-- The command's name is in the allowlist, if there is one.
abbrev pub IsAllowed : Option (List String) → LiveResponseCommand → Type 0
IsAllowed none cmd = Unit
IsAllowed (some allowed) cmd = Any (λ a. a ≡ command_type_str cmd.cmd_type) allowed

named_iff :
    (name : String) (allowed : List String)
    → (any (λ a. str_eq a name) allowed ≡ true) ↔ Any (λ a. a ≡ name) allowed
named_iff name [] = ground arith
named_iff name (a ∷ allowed) = ground (arith, eq_iff a name, named_iff name allowed)

check_allowed_iff :
    (allowed : List String) (commands : List LiveResponseCommand)
    → (check_allowed allowed commands ≡ ok tt) ↔ All (IsAllowed (some allowed)) commands
unfolding check_allowed
check_allowed_iff allowed [] = (λ _. tt, λ _. refl)
check_allowed_iff allowed (cmd ∷ commands) =
    ground
      (arith, named_iff (command_type_str cmd.cmd_type) allowed, check_allowed_iff allowed commands)

All-Unit : (commands : List LiveResponseCommand) → All (IsAllowed none) commands
All-Unit [] = tt
All-Unit (cmd ∷ commands) = (tt, All-Unit commands)

-- Commands are accepted exactly if there are 1 to 20 of them and, where the operator set an
-- allowlist, each is of a type that it names.
pub validate_live_response_commands_iff :
    (commands : List LiveResponseCommand) (allowed : Option (List String))
    → (validate_live_response_commands commands allowed ≡ ok tt)
      ↔ ((1 ≤ length commands) × (length commands ≤ 20) × All (IsAllowed allowed) commands)
unfolding validate_live_response_commands
validate_live_response_commands_iff [] allowed = ground arith
validate_live_response_commands_iff (cmd ∷ commands) none =
    ground (arith, All-Unit (cmd ∷ commands))
validate_live_response_commands_iff (cmd ∷ commands) (some allowed) =
    let each = check_allowed_iff allowed (cmd ∷ commands) in
    (
      λ e. (omega arith, ground arith, each.0 (ground arith)),
      λ e. let valid = each.1 e.2 in ground arith,
    )
