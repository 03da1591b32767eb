-- ===== src/Tests/Validators.antt =====
-- Runs of the validators of parameters.
use microsoft_defender_mcp.Prelude.{
  ◌≤◌, ◌≡◌, refl, ◌≢◌, ◌↔◌, true, false, some, [], ◌∷◌, ok, is_empty, All,
}
use microsoft_defender_mcp.Inputs.Indicator.{domain_name}
use microsoft_defender_mcp.Tests.Crates.{percent_crate, url_crate}
use microsoft_defender_mcp.Text.{contains, text_eq, is_whitespace, is_control, byte_len, Text, trim}
use microsoft_defender_mcp.Validation.Commands.{
  validate_live_response_commands_iff, IsAllowed, run_script, LiveResponseCommand,
  validate_live_response_commands,
}
use microsoft_defender_mcp.Validation.Encoding.{
  required_id-segment, encode_path_segment, is_segment_char,
}
use microsoft_defender_mcp.Validation.Indicators.{
  validate_domain_indicator, validate_indicator_value,
}
use microsoft_defender_mcp.Validation.Indicators.Rules.{
  validate_indicator_value_sound, IsIndicatorValue,
}
use microsoft_defender_mcp.Validation.Ip.{is_ip, validate_ip_address}
use microsoft_defender_mcp.Validation.Ip.Safe.{validate_ip_address_safe, IsIpText}
use microsoft_defender_mcp.Validation.Names.{
  dot_dot, dot, validate_hostname, validate_required_id, validate_file_name,
}
use microsoft_defender_mcp.Validation.Names.Accepted.{
  validate_file_name_iff, validate_hostname_iff, IsFileName, IsHostname,
}

abbrev word : Text
word = b' ' ∷ b'a' ∷ b'.' ∷ b'b' ∷ []

abbrev trimmed : Text
trimmed = b'a' ∷ b'.' ∷ b'b' ∷ []

validate_hostname_iff_example :
    (validate_hostname word ≡ ok trimmed) ↔ ((trimmed ≡ trim word) × IsHostname trimmed)
validate_hostname_iff_example = validate_hostname_iff word trimmed

validate_file_name_iff_example :
    (validate_file_name word ≡ ok trimmed) ↔ ((trimmed ≡ trim word) × IsFileName trimmed)
validate_file_name_iff_example = validate_file_name_iff word trimmed

abbrev address : Text
address = b' ' ∷ b'1' ∷ b'.' ∷ b'2' ∷ b'.' ∷ b'3' ∷ b'.' ∷ b'4' ∷ []

abbrev address_trimmed : Text
address_trimmed = b'1' ∷ b'.' ∷ b'2' ∷ b'.' ∷ b'3' ∷ b'.' ∷ b'4' ∷ []

address_valid : validate_ip_address address ≡ ok address_trimmed
unfolding validate_ip_address trim is_whitespace is_ip
address_valid = refl

validate_ip_address_safe_example :
    (address_trimmed ≡ trim address) × (is_empty address_trimmed ≡ false) × IsIpText address_trimmed
validate_ip_address_safe_example = validate_ip_address_safe address address_trimmed address_valid

abbrev run_script_command : LiveResponseCommand
run_script_command = record { cmd_type = run_script; params = [] }

validate_live_response_commands_iff_example :
    (validate_live_response_commands (run_script_command ∷ []) (some ("GetFile" ∷ [])) ≡ ok tt)
    ↔ ((1 ≤ 1) × (1 ≤ 20) × All (IsAllowed (some ("GetFile" ∷ []))) (run_script_command ∷ []))
validate_live_response_commands_iff_example =
    validate_live_response_commands_iff (run_script_command ∷ []) (some ("GetFile" ∷ []))

word_id : validate_required_id word "alert_id" ≡ ok trimmed
unfolding validate_required_id trim is_whitespace text_eq is_control
word_id = refl

required_id-segment_example :
    (encode_path_segment percent_crate trimmed ≢ [])
    × (encode_path_segment percent_crate trimmed ≢ dot)
    × (encode_path_segment percent_crate trimmed ≢ dot_dot)
    × All (λ d. is_segment_char d ≡ true) (encode_path_segment percent_crate trimmed)
required_id-segment_example = required_id-segment percent_crate word "alert_id" trimmed word_id

word_domain : validate_indicator_value url_crate domain_name word ≡ ok trimmed
unfolding validate_indicator_value validate_domain_indicator is_ip trim is_whitespace
    validate_hostname byte_len is_control text_eq contains
word_domain = refl

validate_indicator_value_sound_example :
    (trimmed ≡ trim word) × IsIndicatorValue url_crate domain_name trimmed
validate_indicator_value_sound_example =
    validate_indicator_value_sound url_crate domain_name word trimmed word_domain
