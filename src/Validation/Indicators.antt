-- ===== src/Validation/Indicators.antt =====
-- Custom indicators, time stamps and triage classifications (src/validation.rs). URLs are parsed by
-- the url crate and time stamps by the chrono crate, which are parameters.
pub mod Rules
use microsoft_defender_mcp.Prelude.{
  ◌==◌, ◌>>=◌, ◌>>◌, ℕ, zero, suc, ◌+◌, ◌-◌, ◌*◌, ◌/◌, ◌%◌, ◌≤◌, ◌<◌, String, ◌≡◌, refl, sym, ap,
  ◌∙◌, ◌≢◌, ◌↔◌, ◌⊎◌, inl, inr, Bool, true, false, ◌&&◌, ◌||◌, not, Option, none, some, List, [],
  ◌∷◌, ◌++◌, map, append-nil, append_assoc, arith, str_eq, eq_iff, ltb, leb, if◌then◌else◌, ==_iff,
  leb→le, Bool-cases, Option-cases, Result, ok, err, refuse, map_err, is_ok, ok_or, unwrap_or,
  length, take, any, all, is_empty, All, Any, length-append, All-append, any-eq-false_iff,
  all-eq-true_iff, All-map,
}
use microsoft_defender_mcp.Error.{join}
use microsoft_defender_mcp.Inputs.Indicator.{
  IndicatorType, file_sha1, file_sha256, file_md5, certificate_thumbprint, ip_address, domain_name,
  url, indicator_type_str, IndicatorAction, allowed, audit, warn, block, block_and_remediate,
}
use microsoft_defender_mcp.Inputs.Triage.{
  Classification, Determination, allowed_for, discriminant, determination_str, classification_str,
}
use microsoft_defender_mcp.Json.{ErrorData, invalid_params, message}
use microsoft_defender_mcp.Text.{Text, lit, trim, text_eq}
use microsoft_defender_mcp.Text.Decimal.{decimal}
use microsoft_defender_mcp.Validation.Ip.{is_ip}
use microsoft_defender_mcp.Validation.Names.{validate_hostname, validate_hex}

-- The url crate: what it says of a text, or why it is no URL.
pub record Url : Type 0 where
  pub scheme : Text
  pub host : Option Text

unfoldable pub validate_url_indicator :
    (parse : Text → Result Url Text) → Text → Result Text ErrorData
validate_url_indicator parse s = do
  let trimmed = trim s
  parsed ←
      map_err (λ e. invalid_params (lit "indicator_value must be a valid URL: " ++ e))
        (parse trimmed)
  refuse (not (text_eq parsed.scheme (lit "http")) && not (text_eq parsed.scheme (lit "https"))) (
      invalid_params (
        lit "indicator_value URL must use http or https scheme, got '"
        ++ (parsed.scheme ++ lit "'")))
  refuse (is_empty (unwrap_or [] parsed.host))
      (invalid_params (lit "indicator_value URL must include a host"))
  ok trimmed

unfoldable pub validate_domain_indicator : Text → Result Text ErrorData
validate_domain_indicator s = do
  let trimmed = trim s
  refuse (is_ip trimmed) (
      invalid_params (
        lit "indicator_value for DomainName must not be an IP address, got '"
        ++ (trimmed ++ lit "'")))
  map_err (λ e. invalid_params (lit "indicator_value: " ++ message e)) (validate_hostname trimmed)

unfoldable pub validate_ip_indicator : Text → Result Text ErrorData
validate_ip_indicator value = do
  let trimmed = trim value
  refuse (is_empty trimmed) (invalid_params (lit "indicator_value cannot be empty"))
  refuse (not (is_ip trimmed)) (
      invalid_params
        (lit "indicator_value must be a valid IPv4 or IPv6 address, got '" ++ (trimmed ++ lit "'")))
  ok trimmed

unfoldable pub validate_indicator_value :
    (parse : Text → Result Url Text) → IndicatorType → Text → Result Text ErrorData
unfolding validate_ip_indicator
validate_indicator_value parse file_sha1 value = validate_hex value 40 "indicator_value"
validate_indicator_value parse certificate_thumbprint value =
    validate_hex value 40 "indicator_value"
validate_indicator_value parse file_sha256 value = validate_hex value 64 "indicator_value"
validate_indicator_value parse file_md5 value = validate_hex value 32 "indicator_value"
validate_indicator_value parse ip_address value = validate_ip_indicator value
validate_indicator_value parse domain_name value = validate_domain_indicator value
validate_indicator_value parse url value = validate_url_indicator parse value

abbrev is_file_like : IndicatorType → Bool
is_file_like file_sha1 = true
is_file_like file_sha256 = true
is_file_like file_md5 = true
is_file_like certificate_thumbprint = true
is_file_like _ = false

abbrev is_network : IndicatorType → Bool
is_network ip_address = true
is_network domain_name = true
is_network url = true
is_network _ = false

abbrev is_false : Option Bool → Bool
is_false (some false) = true
is_false _ = false

unfoldable pub validate_indicator_action :
    IndicatorType → IndicatorAction → (generate_alert : Option Bool) → Result (Unit {0}) ErrorData
validate_indicator_action t block_and_remediate generate_alert = refuse (not (is_file_like t)) (
    invalid_params (
      lit
        "indicator_action 'BlockAndRemediate' is only supported for file hashes and CertificateThumbprint, got "
      ++ lit (indicator_type_str t)))
validate_indicator_action t warn generate_alert = refuse (not (is_network t)) (
    invalid_params (
      lit "indicator_action 'Warn' is only supported for IpAddress, DomainName, and Url, got "
      ++ lit (indicator_type_str t)))
validate_indicator_action t audit generate_alert =
    refuse (is_false generate_alert)
      (invalid_params (lit "generate_alert must be true or omitted when indicator_action is Audit"))
validate_indicator_action t _ generate_alert = ok tt

-- The chrono crate and the clock: instants count ticks from the earliest one.
pub record Chrono : Type 0 where
  pub parse_from_rfc3339 : Text → Result ℕ Text
  pub now : ℕ
  pub ticks_per_day : ℕ
  pub format_utc : ℕ → Text

module _ (chrono : Chrono) where
  unfoldable pub validate_future_rfc3339 : Text → (field : String) → Result ℕ ErrorData
  validate_future_rfc3339 s field = do
    let trimmed = trim s
    dt ←
        map_err
          (λ e. invalid_params (lit field ++ (lit " must be a valid RFC 3339 timestamp: " ++ e)))
          (chrono.parse_from_rfc3339 trimmed)
    refuse (leb dt chrono.now) (
        invalid_params (lit field ++ (lit " must be in the future, got '" ++ (trimmed ++ lit "'"))))
    ok dt

  -- `utc_dt < now - max_age_days`, with the days on the other side.
  unfoldable pub validate_recent_timestamp : Text → (max_age_days : ℕ) → Result Text ErrorData
  validate_recent_timestamp s max_age_days = do
    let trimmed = trim s
    dt ←
        map_err (λ e. invalid_params (lit "timestamp must be a valid RFC 3339 timestamp: " ++ e))
          (chrono.parse_from_rfc3339 trimmed)
    refuse (ltb chrono.now dt) (invalid_params (lit "timestamp cannot be in the future"))
    refuse (ltb (dt + max_age_days * chrono.ticks_per_day) chrono.now) (
        invalid_params (
          lit "timestamp cannot be older than "
          ++ (decimal max_age_days ++ (lit " days, got '" ++ (trimmed ++ lit "'")))))
    ok (chrono.format_utc dt)

-- `slice::contains`, by the derived equality.
unfoldable pub contains_determination : List Determination → Determination → Bool
unfolding discriminant
contains_determination items d = any (λ item. discriminant item == discriminant d) items

unfoldable pub validate_classification_pair :
    Option Classification → Option Determination → Result (Unit {0}) ErrorData
validate_classification_pair none (some d) =
    err (invalid_params (lit "determination requires classification to be specified"))
validate_classification_pair (some c) (some d) =
    refuse (not (contains_determination (allowed_for c) d)) (
      invalid_params (
        lit "determination '"
        ++ (lit (determination_str d)
            ++ (lit "' is not valid for classification '"
                ++ (lit (classification_str c)
                    ++ (lit "'; valid: "
                        ++ join (lit ", ")
                            (map (λ item. lit (determination_str item)) (allowed_for c))))))))
validate_classification_pair _ none = ok tt
