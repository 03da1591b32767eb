-- ===== src/Validation/Hashes.antt =====
-- Hashes, machine identifiers and CVE numbers (src/validation.rs). The regular expressions are
-- matched by the regex crate, which is a parameter with its documented behaviour.
use microsoft_defender_mcp.Prelude.{
  ◌>>◌, ℕ, suc, ◌≤◌, String, ◌≡◌, refl, ap, ◌∙◌, ◌↔◌, ◌⊎◌, Bool, true, false, not, [], ◌∷◌, ◌++◌,
  arith, ◌==◌, if◌then◌else◌, Result, ok, refuse, length, All, all-eq-true_iff,
}
use microsoft_defender_mcp.Json.{ErrorData, invalid_params}
use microsoft_defender_mcp.Text.{Text, lit, trim, byte_len, is_digit, is_hexdigit}
use microsoft_defender_mcp.Validation.Names.{validate_hex}

abbrev pub cve_re : String
cve_re = "^CVE-\\d{4}-\\d{4,}$"

abbrev pub sha1_re : String
sha1_re = "^[a-fA-F0-9]{40}$"

abbrev pub sha256_re : String
sha256_re = "^[a-fA-F0-9]{64}$"

abbrev pub md5_re : String
md5_re = "^[a-fA-F0-9]{32}$"

-- `n` hexadecimal digits and nothing else.
abbrev pub IsHex : ℕ → Text → Type 0
IsHex n t = (length t ≡ n) × All (λ c. is_hexdigit c ≡ true) t

abbrev pub cve_prefix : Text
cve_prefix = b'C' ∷ b'V' ∷ b'E' ∷ b'-' ∷ []

-- `CVE-`, four digits, `-`, and four digits or more.
abbrev pub IsCve : (ℕ → Bool) → Text → Type 0
IsCve digit t =
    (year : Text) × (serial : Text) × (t ≡ cve_prefix ++ (year ++ (b'-' ∷ serial)))
    × (length year ≡ 4)
    × (4 ≤ length serial)
    × All (λ c. digit c ≡ true) year
    × All (λ c. digit c ≡ true) serial

-- The regex crate: `is_match`, and which characters `\d` stands for.
pub record Regex : Type 0 where
  pub is_match : String → Text → Bool
  pub digit : ℕ → Bool
  pub digit_ascii : (c : ℕ) → is_digit c ≡ true → digit c ≡ true
  pub match_md5 : (t : Text) → (is_match md5_re t ≡ true) ↔ IsHex 32 t
  pub match_sha1 : (t : Text) → (is_match sha1_re t ≡ true) ↔ IsHex 40 t
  pub match_sha256 : (t : Text) → (is_match sha256_re t ≡ true) ↔ IsHex 64 t
  pub match_cve : (t : Text) → (is_match cve_re t ≡ true) ↔ IsCve digit t

module _ (regex : Regex) where
  unfoldable pub validate_sha1 : Text → Result Text ErrorData
  validate_sha1 hash = do
    let trimmed = trim hash
    refuse (not (regex.is_match sha1_re trimmed))
        (invalid_params (lit "file_sha1 must be a 40-character hex string (SHA1 hash)"))
    ok trimmed

  unfoldable pub validate_machine_id : Text → Result Text ErrorData
  validate_machine_id machine_id = do
    let trimmed = trim machine_id
    refuse (not (regex.is_match sha1_re trimmed))
        (invalid_params (lit "machine_id must be a 40-character hex string (Defender machine ID)"))
    ok trimmed

  unfoldable pub hash_matches : Text → Bool
  hash_matches trimmed =
      let len = byte_len trimmed in
      if len == 32
      then regex.is_match md5_re trimmed
      else if len == 40
      then regex.is_match sha1_re trimmed
      else if len == 64
      then regex.is_match sha256_re trimmed
      else false

  unfoldable pub validate_file_hash : Text → Result Text ErrorData
  unfolding hash_matches
  validate_file_hash hash = do
    let trimmed = trim hash
    refuse (not (hash_matches trimmed)) (
        invalid_params (lit "file_id must be a valid MD5 (32), SHA1 (40), or SHA256 (64) hex hash"))
    ok trimmed

  unfoldable pub validate_cve_id : Text → Result Text ErrorData
  validate_cve_id cve_id = do
    let trimmed = trim cve_id
    refuse (not (regex.is_match cve_re trimmed))
        (invalid_params (lit "CVE ID must match pattern CVE-YYYY-NNNN+ (e.g., CVE-2021-44228)"))
    ok trimmed

char_len_of_hexdigit :
    (c : ℕ) (s : Text) → is_hexdigit c ≡ true → byte_len (c ∷ s) ≡ suc (byte_len s)
unfolding byte_len
char_len_of_hexdigit c s h = ground arith

-- A text of hexadecimal digits has as many bytes as characters.
pub byte_len_of_hex : (t : Text) → All (λ c. is_hexdigit c ≡ true) t → byte_len t ≡ length t
unfolding byte_len
byte_len_of_hex [] h = refl
byte_len_of_hex (c ∷ t) h = char_len_of_hexdigit c t h.0 ∙ ap suc (byte_len_of_hex t h.1)

module _ (regex : Regex) where
  -- A file hash is accepted exactly if it has 32, 40 or 64 hexadecimal digits when trimmed.
  pub validate_file_hash_iff :
      (hash t : Text)
      → (validate_file_hash regex hash ≡ ok t)
        ↔ ((t ≡ trim hash) × (IsHex 32 t ⊎ IsHex 40 t ⊎ IsHex 64 t))
  unfolding validate_file_hash
  validate_file_hash_iff hash t =
      let m = regex.match_md5 (trim hash) in
      let s = regex.match_sha1 (trim hash) in
      let l = regex.match_sha256 (trim hash) in
      (
        λ e. let same : t ≡ trim hash = ground arith in (same, rw same (ground arith)),
        λ e.
            let (same, k) = e in
            let k' : IsHex 32 (trim hash) ⊎ IsHex 40 (trim hash) ⊎ IsHex 64 (trim hash) =
              rw (← same) k in
            let b = byte_len_of_hex (trim hash) in ground arith,
      )

  -- Three checks of a SHA-1 value agree: that of file hashes, that of machine identifiers, and the
  -- check of hexadecimal indicators at length 40.
  pub sha1_checks_agree :
      (s : Text) (field : String) (t : Text)
      → ((validate_sha1 regex s ≡ ok t) ↔ (validate_machine_id regex s ≡ ok t))
        × ((validate_sha1 regex s ≡ ok t) ↔ (validate_hex s 40 field ≡ ok t))
  unfolding validate_sha1 validate_machine_id validate_hex
  sha1_checks_agree s field t =
      let m = regex.match_sha1 (trim s) in
      let a = all-eq-true_iff is_hexdigit (trim s) in
      let b = byte_len_of_hex (trim s) in ground arith
