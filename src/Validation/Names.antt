-- ===== src/Validation/Names.antt =====
-- Host names, identifiers, file names, tags and free texts (src/validation.rs).
pub mod Accepted
pub mod Free
use microsoft_defender_mcp.Prelude.{
  ◌>>=◌, ◌>>◌, ℕ, zero, suc, ◌+◌, ◌-◌, ◌*◌, ◌/◌, ◌%◌, ◌≤◌, ◌<◌, String, ◌≡◌, refl, sym, ap, ◌∙◌,
  ◌≢◌, ◌↔◌, ◌⊎◌, inl, inr, Bool, true, false, ◌&&◌, ◌||◌, not, Option, none, some, List, [], ◌∷◌,
  ◌++◌, map, append-nil, append_assoc, arith, str_eq, eq_iff, ltb, leb, ◌==◌, if◌then◌else◌, ==_iff,
  leb→le, Bool-cases, Option-cases, Result, ok, err, refuse, map_err, is_ok, ok_or, unwrap_or,
  length, take, any, all, is_empty, All, Any, length-append, All-append, any-eq-false_iff,
  all-eq-true_iff, All-map,
}
use microsoft_defender_mcp.Constants.{min_justification_len}
use microsoft_defender_mcp.Json.{ErrorData, invalid_params}
use microsoft_defender_mcp.Text.{
  Text, lit, trim, byte_len, is_control, is_whitespace, is_alphanumeric, is_hexdigit, contains,
  contains_char, text_eq, ends_with,
}
use microsoft_defender_mcp.Text.Decimal.{decimal}

abbrev pub dot : Text
dot = b'.' ∷ []

abbrev pub dot_dot : Text
dot_dot = b'.' ∷ b'.' ∷ []

unfoldable pub validate_hostname : Text → Result Text ErrorData
unfolding trim
validate_hostname hostname = do
  let trimmed = trim hostname
  refuse (is_empty trimmed) (invalid_params (lit "hostname cannot be empty"))
  refuse (ltb 253 (byte_len trimmed))
      (invalid_params (lit "hostname exceeds maximum length of 253 characters"))
  refuse (contains_char b'/' trimmed) (
      invalid_params
        (lit "hostname must not contain slashes — provide a single hostname, not a URL"))
  refuse (any is_control trimmed)
      (invalid_params (lit "hostname contains invalid control characters"))
  refuse (any is_whitespace trimmed) (invalid_params (lit "hostname must not contain whitespace"))
  refuse (text_eq trimmed dot || contains dot_dot trimmed)
      (invalid_params (lit "hostname must not contain dot segments"))
  ok trimmed

unfoldable pub validate_required_id : Text → (param_name : String) → Result Text ErrorData
validate_required_id value param_name = do
  let trimmed = trim value
  refuse (is_empty trimmed) (invalid_params (lit param_name ++ lit " cannot be empty"))
  refuse (text_eq trimmed dot || text_eq trimmed dot_dot)
      (invalid_params (lit param_name ++ lit " cannot be '.' or '..'"))
  refuse (any is_control trimmed)
      (invalid_params (lit param_name ++ lit " contains invalid control characters"))
  ok trimmed

abbrev pub is_action_char : ℕ → Bool
is_action_char b = is_alphanumeric b || b == b'-'

-- The test reads bytes; a byte of a scalar value above 127 is above 127 and fails it too.
unfoldable pub validate_action_id : Text → Result Text ErrorData
validate_action_id action_id = do
  let trimmed = trim action_id
  refuse (is_empty trimmed || ltb 64 (byte_len trimmed) || not (all is_action_char trimmed)) (
      invalid_params (
        lit
          "action_id must be a machine action GUID or hex ID (ASCII letters, digits, and '-' only)"))
  ok trimmed

unfoldable pub validate_comment : Text → (field_name : String) → Result Text ErrorData
validate_comment comment field_name = do
  let trimmed = trim comment
  let char_count = length trimmed
  refuse (ltb char_count min_justification_len) (
      invalid_params (
        lit field_name
        ++ (lit " must be at least "
            ++ (decimal min_justification_len
                ++ (lit " characters describing the purpose (got "
                    ++ (decimal char_count ++ lit ")"))))))
  ok trimmed

unfoldable pub validate_tag_name : Text → Result Text ErrorData
validate_tag_name tag_name = do
  let trimmed = trim tag_name
  refuse (is_empty trimmed) (invalid_params (lit "tag_name cannot be empty"))
  refuse (any is_control trimmed)
      (invalid_params (lit "tag_name contains invalid control characters"))
  ok trimmed

unfoldable pub validate_file_name : Text → Result Text ErrorData
validate_file_name file_name = do
  let trimmed = trim file_name
  refuse (is_empty trimmed) (invalid_params (lit "file_name cannot be empty"))
  refuse (text_eq trimmed dot || text_eq trimmed dot_dot)
      (invalid_params (lit "file_name cannot be '.' or '..'"))
  refuse (contains_char b'/' trimmed || contains_char b'\\' trimmed) (
      invalid_params
        (lit "file_name must be a simple file name without path separators ('/' or '\\')"))
  refuse (any is_control trimmed)
      (invalid_params (lit "file_name contains invalid control characters"))
  ok trimmed

-- A control character other than `\n`, `\r` and `\t`.
abbrev pub is_stray_control : ℕ → Bool
is_stray_control c = is_control c && not (c == b'\n') && not (c == b'\r') && not (c == b'\t')

unfoldable pub validate_description : Text → Result Text ErrorData
validate_description description = do
  let trimmed = trim description
  refuse (is_empty trimmed) (invalid_params (lit "description cannot be empty"))
  refuse (any is_stray_control trimmed)
      (invalid_params (lit "description contains invalid control characters"))
  ok trimmed

unfoldable pub allows_newlines : String → Bool
allows_newlines field =
    str_eq field "comment"
    || str_eq field "justification"
    || ends_with (lit "_comment") (lit field)
    || ends_with (lit "_justification") (lit field)

unfoldable pub validate_text : Text → (max : ℕ) (field : String) → Result Text ErrorData
validate_text s max field = do
  let trimmed = trim s
  let char_count = length trimmed
  refuse (is_empty trimmed) (invalid_params (lit field ++ lit " cannot be empty"))
  refuse (ltb max char_count) (
      invalid_params (
        lit field
        ++ (lit " exceeds maximum length of "
            ++ (decimal max ++ (lit " characters (got " ++ (decimal char_count ++ lit ")"))))))
  refuse (if allows_newlines field then any is_stray_control trimmed else any is_control trimmed)
      (invalid_params (lit field ++ lit " contains invalid control characters"))
  ok trimmed

unfoldable pub validate_each : List Text → String → Result (Unit {0}) ErrorData
unfolding validate_required_id
validate_each [] field = ok tt
validate_each (id ∷ ids) field = validate_required_id id field >>= λ _. validate_each ids field

unfoldable pub validate_batch : List Text → (max : ℕ) (field : String) → Result (Unit {0}) ErrorData
unfolding validate_each
validate_batch ids max field = do
  refuse (is_empty ids) (
      invalid_params (
        lit field
        ++ (lit " cannot be empty (must contain between 1 and " ++ (decimal max ++ lit " items)"))))
  refuse (ltb max (length ids)) (
      invalid_params (
        lit field
        ++ (lit " exceeds maximum batch size of "
            ++ (decimal max
                ++ (lit " items (got " ++ (decimal (length ids) ++ lit ") (server policy)"))))))
  validate_each ids field

unfoldable pub validate_tag : Text → Result Text ErrorData
validate_tag tag = do
  let trimmed = trim tag
  let count = length trimmed
  refuse (is_empty trimmed) (invalid_params (lit "tag cannot be empty"))
  refuse (ltb 200 count) (
      invalid_params
        (lit "tag exceeds maximum length of 200 characters (got " ++ (decimal count ++ lit ")")))
  refuse (any is_control trimmed) (invalid_params (lit "tag contains invalid control characters"))
  ok trimmed

unfoldable pub validate_hex : Text → (len : ℕ) (field : String) → Result Text ErrorData
validate_hex s len field = do
  let trimmed = trim s
  refuse (not (byte_len trimmed == len) || not (all is_hexdigit trimmed)) (
      invalid_params (
        lit field
        ++ (lit " must be a "
            ++ (decimal len ++ (lit "-character hex string, got '" ++ (trimmed ++ lit "'"))))))
  ok trimmed
