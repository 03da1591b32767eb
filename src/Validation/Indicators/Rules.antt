-- ===== src/Validation/Indicators/Rules.antt =====
-- Which indicators, time stamps and classifications are accepted.
use microsoft_defender_mcp.Prelude.{
  is_empty-eq-false_iff, Result-cases, ℕ, ◌+◌, ◌*◌, ◌≤◌, ◌<◌, String, ◌≡◌, refl, sym, ◌∙◌, ◌≢◌, ◌↔◌,
  ◌⊎◌, inl, inr, Bool, true, false, Option, none, some, [], arith, Result, ok, unwrap_or,
  all-eq-true_iff,
}
use microsoft_defender_mcp.Inputs.Indicator.{
  IndicatorType, file_sha1, file_sha256, file_md5, certificate_thumbprint, ip_address, domain_name,
  url, IndicatorAction, audit, warn, block_and_remediate,
}
use microsoft_defender_mcp.Inputs.Triage.{
  discriminant, Classification, true_positive, informational_expected_activity, false_positive,
  Determination, multi_staged_attack, other, security_testing, line_of_business_application,
  confirmed_activity, not_malicious, not_enough_data_to_validate, allowed_for,
}
use microsoft_defender_mcp.Text.{Text, lit, trim, byte_len, is_hexdigit}
use microsoft_defender_mcp.Text.Search.{text_eq_iff}
use microsoft_defender_mcp.Text.Trim.{trim_idem}
use microsoft_defender_mcp.Validation.Hashes.{IsHex, byte_len_of_hex}
use microsoft_defender_mcp.Validation.Indicators.{
  Url, validate_url_indicator, validate_domain_indicator, validate_indicator_value,
  validate_indicator_action, Chrono, validate_future_rfc3339, validate_recent_timestamp,
  contains_determination, validate_classification_pair,
}
use microsoft_defender_mcp.Validation.Ip.{is_ip}
use microsoft_defender_mcp.Validation.Names.{validate_hostname, validate_hex}
use microsoft_defender_mcp.Validation.Names.Accepted.{IsHostname, validate_hostname_iff}

validate_hex_sound :
    (s : Text) (n : ℕ) (field : String) (t : Text)
    → validate_hex s n field ≡ ok t
    → (t ≡ trim s) × IsHex n t
unfolding validate_hex
validate_hex_sound s n field t e =
    let same : t ≡ trim s = ground arith in
    let a = (all-eq-true_iff is_hexdigit (trim s)).0 (ground arith) in
    let b = byte_len_of_hex (trim s) a in
    let l : byte_len (trim s) ≡ n = ground arith in (same, rw same (sym b ∙ l, a))

-- What an indicator's value must be, by its type. `parse` is the URL parser.
abbrev pub IsIndicatorValue : (Text → Result Url Text) → IndicatorType → Text → Type 0
IsIndicatorValue parse file_sha1 t = IsHex 40 t
IsIndicatorValue parse certificate_thumbprint t = IsHex 40 t
IsIndicatorValue parse file_sha256 t = IsHex 64 t
IsIndicatorValue parse file_md5 t = IsHex 32 t
IsIndicatorValue parse ip_address t = is_ip t ≡ true
IsIndicatorValue parse domain_name t = IsHostname t × (is_ip t ≡ false)
IsIndicatorValue parse url t =
    (u : Url) × (parse t ≡ ok u)
    × ((u.scheme ≡ lit "http") ⊎ (u.scheme ≡ lit "https"))
    × (unwrap_or [] u.host ≢ [])

domain_sound :
    (value t : Text)
    → validate_domain_indicator value ≡ ok t
    → (t ≡ trim value) × IsHostname t × (is_ip t ≡ false)
unfolding validate_domain_indicator
domain_sound value t e =
    let accepted : validate_hostname (trim value) ≡ ok t = ground arith in
    let (same, k) = (validate_hostname_iff (trim value) t).0 accepted in
    let same' : t ≡ trim value = same ∙ trim_idem value in (same', k, rw same' (ground arith))

url_sound :
    (parse : Text → Result Url Text) (value t : Text)
    → validate_url_indicator parse value ≡ ok t
    → (t ≡ trim value) × IsIndicatorValue parse url t
unfolding validate_url_indicator
url_sound parse value t e = elim (Result-cases (parse (trim value))) [
  | inr (why, failed) ↦ absurd (ground arith)
  | inl (u, parsed) ↦
      let same : t ≡ trim value = ground arith in
      let h = text_eq_iff u.scheme (lit "http") in
      let s = text_eq_iff u.scheme (lit "https") in
      let n = is_empty-eq-false_iff (unwrap_or [] u.host) in
      (same, (u, rw same parsed, ground arith, n.0 (ground arith)))
]

-- An accepted indicator value is the given one, trimmed, and is what its type asks for: a hash of
-- the right length, an address, a host name that is no address, or an http(s) URL with a host.
pub validate_indicator_value_sound :
    (parse : Text → Result Url Text) (type : IndicatorType) (value t : Text)
    → validate_indicator_value parse type value ≡ ok t
    → (t ≡ trim value) × IsIndicatorValue parse type t
unfolding validate_indicator_value
validate_indicator_value_sound parse file_sha1 value t e = validate_hex_sound value 40 _ t e
validate_indicator_value_sound parse certificate_thumbprint value t e =
    validate_hex_sound value 40 _ t e
validate_indicator_value_sound parse file_sha256 value t e = validate_hex_sound value 64 _ t e
validate_indicator_value_sound parse file_md5 value t e = validate_hex_sound value 32 _ t e
validate_indicator_value_sound parse ip_address value t e =
    let same : t ≡ trim value = ground arith in (same, rw same (ground arith))
validate_indicator_value_sound parse domain_name value t e =
    let (same, k, n) = domain_sound value t e in (same, (k, n))
validate_indicator_value_sound parse url value t e = url_sound parse value t e

-- The rules on actions: `BlockAndRemediate` is for files and certificates, `Warn` for addresses,
-- domains and URLs, and an audit always generates an alert.
abbrev pub Permits : IndicatorType → IndicatorAction → Option Bool → Type 0
Permits t block_and_remediate alert =
    (t ≡ file_sha1) ⊎ (t ≡ file_sha256) ⊎ (t ≡ file_md5) ⊎ (t ≡ certificate_thumbprint)
Permits t warn alert = (t ≡ ip_address) ⊎ (t ≡ domain_name) ⊎ (t ≡ url)
Permits t audit alert = alert ≢ some false
Permits t _ alert = Unit

-- An indicator action is accepted exactly if the rules permit it: `BlockAndRemediate` for files and
-- certificates alone, `Warn` for addresses, domains and URLs alone, `Audit` unless the alert is
-- turned off, and the others always.
pub validate_indicator_action_iff :
    (t : IndicatorType) (a : IndicatorAction) (alert : Option Bool)
    → (validate_indicator_action t a alert ≡ ok tt) ↔ Permits t a alert
unfolding validate_indicator_action
validate_indicator_action_iff file_sha1 audit alert = ground arith
validate_indicator_action_iff t a alert = ground arith

module _ (chrono : Chrono) where
  -- A time stamp for an expiry is accepted exactly if it parses to an instant after now.
  pub validate_future_rfc3339_iff :
      (s : Text) (field : String) (dt : ℕ)
      → (validate_future_rfc3339 chrono s field ≡ ok dt)
        ↔ ((chrono.parse_from_rfc3339 (trim s) ≡ ok dt) × (chrono.now < dt))
  unfolding validate_future_rfc3339
  validate_future_rfc3339_iff s field dt = ground arith

-- The determination is one of those listed for the classification.
abbrev pub Listed : Classification → Determination → Type 0
Listed c d = contains_determination (allowed_for c) d ≡ true

-- A classification and a determination are accepted exactly if there is no determination, or there
-- are both and the determination is listed for the classification.
pub validate_classification_pair_iff :
    (c : Option Classification) (d : Option Determination)
    → (validate_classification_pair c d ≡ ok tt) ↔ (
        (d ≡ none)
        ⊎ ((k : Classification) × (e : Determination) × (c ≡ some k) × (d ≡ some e) × Listed k e))
unfolding validate_classification_pair
validate_classification_pair_iff c none = ground arith
validate_classification_pair_iff none (some e) = ground arith
validate_classification_pair_iff (some k) (some e) =
    (λ h. inr (k, e, refl, refl, ground arith), λ h. ground arith)

-- The one classification that a determination belongs to; `other` belongs to none in particular.
abbrev pub owner : Determination → Option Classification
owner other = none
owner security_testing = some informational_expected_activity
owner line_of_business_application = some informational_expected_activity
owner confirmed_activity = some informational_expected_activity
owner not_malicious = some false_positive
owner not_enough_data_to_validate = some false_positive
owner _ = some true_positive

-- A determination is listed for its own classification and no other, except that `other` is listed
-- for all.
pub Listed-iff :
    (c : Classification) (d : Determination) → Listed c d ↔ ((owner d ≡ some c) ⊎ (d ≡ other))
unfolding contains_determination allowed_for discriminant
Listed-iff true_positive multi_staged_attack = ground arith
Listed-iff informational_expected_activity multi_staged_attack = ground arith
Listed-iff false_positive multi_staged_attack = ground arith
Listed-iff _ _ = ground arith

module _ (chrono : Chrono) where
  -- A time stamp of the past is accepted exactly if it parses to an instant that is not after now and
  -- at most `max_age_days` days before it, and is returned as the instant's UTC text.
  pub validate_recent_timestamp_iff :
      (s : Text) (max_age_days : ℕ) (t : Text)
      → (validate_recent_timestamp chrono s max_age_days ≡ ok t) ↔ (
          (dt : ℕ) × (chrono.parse_from_rfc3339 (trim s) ≡ ok dt)
          × (dt ≤ chrono.now)
          × (chrono.now ≤ dt + max_age_days * chrono.ticks_per_day)
          × (t ≡ chrono.format_utc dt))
  unfolding validate_recent_timestamp
  validate_recent_timestamp_iff s max_age_days t =
      elim (Result-cases (chrono.parse_from_rfc3339 (trim s))) [
        | inl (dt, parsed) ↦ (
          λ e. (dt, parsed, ground arith, ground arith, ground arith),
          λ h. let (dt', p, a, b, c) = h in ground arith,
        )
        | inr (why, failed) ↦ (λ e. absurd (ground arith), λ h. absurd (ground arith))
      ]
