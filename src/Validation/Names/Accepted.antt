-- ===== src/Validation/Names/Accepted.antt =====
-- Which host names, identifiers and file names are accepted.
use microsoft_defender_mcp.Prelude.{
  is_empty-eq-false_iff, refl, all-eq-true_iff, >>=-eq-ok, length, true, List, sym, String, ℕ, ◌≤◌,
  ◌≡◌, ◌≢◌, ◌↔◌, inl, inr, Bool, false, [], ◌∷◌, ◌++◌, arith, ◌==◌, Bool-cases, ok, All,
  any-eq-false_iff,
}
use microsoft_defender_mcp.Text.{Text, trim, byte_len, is_control, is_whitespace, contains, text_eq}
use microsoft_defender_mcp.Text.Search.{text_eq_iff, contains_iff}
use microsoft_defender_mcp.Text.Trim.{trim_idem}
use microsoft_defender_mcp.Validation.Names.{
  is_action_char, validate_action_id, validate_batch, validate_each, validate_file_name,
  validate_required_id, dot, dot_dot, validate_hostname,
}

-- No character satisfies the test.
abbrev pub Free : (ℕ → Bool) → Text → Type 0
Free p s = All (λ c. p c ≡ false) s

pub ne_text : (s t : Text) → (text_eq s t ≡ false) ↔ (s ≢ t)
ne_text s t = ground (arith, text_eq_iff s t)

-- What a host name must be, once it is trimmed.
pub record IsHostname (t : Text) : Type 0 where
  pub nonempty : t ≢ []
  pub short : byte_len t ≤ 253
  pub no_slash : Free (λ c. c == b'/') t
  pub no_control : Free is_control t
  pub no_space : Free is_whitespace t
  pub not_dot : t ≢ dot
  pub no_dots : (u v : Text) → t ≢ u ++ (dot_dot ++ v)

not_contains_iff : (p t : Text) → (contains p t ≡ false) ↔ ((u v : Text) → t ≢ u ++ (p ++ v))
not_contains_iff p t = (
  λ h u v e. let found = (contains_iff p t).1 (u, v, e) in ground arith,
  λ h. elim (Bool-cases (contains p t)) [
    | inl found ↦ let (u, v, e) = (contains_iff p t).0 found in absurd (h u v e)
    | inr missing ↦ missing
  ],
)

-- A host name is accepted exactly if, when trimmed, it is not empty, has at most 253 bytes, has no
-- slash, no control character and no white space, is not `.` and does not contain `..`; it is
-- returned trimmed.
pub validate_hostname_iff :
    (h t : Text) → (validate_hostname h ≡ ok t) ↔ ((t ≡ trim h) × IsHostname t)
unfolding validate_hostname
validate_hostname_iff h t = (
  λ e. (
    ground arith,
    let same : t ≡ trim h = ground arith in
        rw same (record {
          nonempty = (is_empty-eq-false_iff (trim h)).0 (ground arith);
          short = ground arith;
          no_slash = (any-eq-false_iff _ (trim h)).0 (ground arith);
          no_control = (any-eq-false_iff _ (trim h)).0 (ground arith);
          no_space = (any-eq-false_iff _ (trim h)).0 (ground arith);
          not_dot = (ne_text (trim h) dot).0 (ground arith);
          no_dots = (not_contains_iff dot_dot (trim h)).0 (ground arith);
        }),
  ),
  λ e.
      let (same, k) = e in
      let n = (is_empty-eq-false_iff t).1 k.nonempty in
      let s = (any-eq-false_iff _ t).1 k.no_slash in
      let c = (any-eq-false_iff _ t).1 k.no_control in
      let w = (any-eq-false_iff _ t).1 k.no_space in
      let d = (ne_text t dot).1 k.not_dot in
      let dd = (not_contains_iff dot_dot t).1 k.no_dots in rw (← same) (ground arith),
)

-- What an identifier must be, once it is trimmed.
pub record IsRequiredId (t : Text) : Type 0 where
  pub nonempty : t ≢ []
  pub not_dot : t ≢ dot
  pub not_dot_dot : t ≢ dot_dot
  pub no_control : Free is_control t

-- An identifier is accepted exactly if, when trimmed, it is not empty, is not `.` or `..`, and has
-- no control character, whatever the parameter is called; it is returned trimmed.
pub validate_required_id_iff :
    (value : Text) (param_name : String) (t : Text)
    → (validate_required_id value param_name ≡ ok t) ↔ ((t ≡ trim value) × IsRequiredId t)
unfolding validate_required_id
validate_required_id_iff value param_name t = (
  λ e. (
    ground arith,
    let same : t ≡ trim value = ground arith in
        rw same (record {
          nonempty = (is_empty-eq-false_iff (trim value)).0 (ground arith);
          not_dot = (ne_text (trim value) dot).0 (ground arith);
          not_dot_dot = (ne_text (trim value) dot_dot).0 (ground arith);
          no_control = (any-eq-false_iff _ (trim value)).0 (ground arith);
        }),
  ),
  λ e.
      let (same, k) = e in
      let n = (is_empty-eq-false_iff t).1 k.nonempty in
      let c = (any-eq-false_iff _ t).1 k.no_control in
      let d = (ne_text t dot).1 k.not_dot in
      let dd = (ne_text t dot_dot).1 k.not_dot_dot in rw (← same) (ground arith),
)

-- A file name is an identifier without path separators.
pub record IsFileName (t : Text) : Type 0 where
  pub id : IsRequiredId t
  pub no_slash : Free (λ c. c == b'/') t
  pub no_backslash : Free (λ c. c == b'\\') t

-- A file name is accepted exactly if, when trimmed, it is not empty, is not `.` or `..`, and has no
-- control character, no slash and no backslash; it is returned trimmed.
pub validate_file_name_iff :
    (name t : Text) → (validate_file_name name ≡ ok t) ↔ ((t ≡ trim name) × IsFileName t)
unfolding validate_file_name
validate_file_name_iff name t = (
  λ e. (
    ground arith,
    let same : t ≡ trim name = ground arith in
        rw same (record {
          id = record {
            nonempty = (is_empty-eq-false_iff (trim name)).0 (ground arith);
            not_dot = (ne_text (trim name) dot).0 (ground arith);
            not_dot_dot = (ne_text (trim name) dot_dot).0 (ground arith);
            no_control = (any-eq-false_iff _ (trim name)).0 (ground arith);
          };
          no_slash = (any-eq-false_iff _ (trim name)).0 (ground arith);
          no_backslash = (any-eq-false_iff _ (trim name)).0 (ground arith);
        }),
  ),
  λ e.
      let (same, k) = e in
      let n = (is_empty-eq-false_iff t).1 k.id.nonempty in
      let c = (any-eq-false_iff _ t).1 k.id.no_control in
      let d = (ne_text t dot).1 k.id.not_dot in
      let dd = (ne_text t dot_dot).1 k.id.not_dot_dot in
      let s = (any-eq-false_iff _ t).1 k.no_slash in
      let b = (any-eq-false_iff _ t).1 k.no_backslash in rw (← same) (ground arith),
)

-- An action identifier is accepted exactly if it has 1 to 64 bytes when trimmed, each an ASCII
-- letter, a digit or `-`.
pub validate_action_id_iff :
    (action_id t : Text)
    → (validate_action_id action_id ≡ ok t)
      ↔ ((t ≡ trim action_id) × (t ≢ []) × (byte_len t ≤ 64) × All (λ c. is_action_char c ≡ true) t)
unfolding validate_action_id
validate_action_id_iff action_id t = (
  λ e.
      let same : t ≡ trim action_id = ground arith in
      (
        same,
        rw same ((is_empty-eq-false_iff (trim action_id)).0 (ground arith)),
        rw same (ground arith),
        rw same ((all-eq-true_iff is_action_char (trim action_id)).0 (ground arith)),
      ),
  λ e.
      let (same, nonempty, short, chars) = e in
      let n = (is_empty-eq-false_iff t).1 nonempty in
      let a = (all-eq-true_iff is_action_char t).1 chars in rw (← same) (ground arith),
)

validate_each_iff :
    (ids : List Text) (field : String)
    → (validate_each ids field ≡ ok tt) ↔ All (λ id. IsRequiredId (trim id)) ids
unfolding validate_each
validate_each_iff [] field = (λ _. tt, λ _. refl)
validate_each_iff (id ∷ ids) field = (
  λ e.
      let (t, accepted, rest) = >>=-eq-ok _ (validate_required_id id field) e in
      let (same, is_id) = (validate_required_id_iff id field t).0 accepted in
      (rw same at is_id, (validate_each_iff ids field).0 rest),
  λ h.
      rw ((validate_required_id_iff id field (trim id)).1 (refl, h.0))
        ((validate_each_iff ids field).1 h.1),
)

-- A batch is accepted exactly if it holds 1 to `max` values, and each, when trimmed, is not empty,
-- is not `.` or `..`, and has no control character.
pub validate_batch_iff :
    (ids : List Text) (max : ℕ) (field : String)
    → (validate_batch ids max field ≡ ok tt)
      ↔ ((1 ≤ length ids) × (length ids ≤ max) × All (λ id. IsRequiredId (trim id)) ids)
unfolding validate_batch
validate_batch_iff [] max field = ground arith
validate_batch_iff (id ∷ ids) max field =
    let each = validate_each_iff (id ∷ ids) field in
    (
      λ e. (omega arith, ground arith, each.0 (ground arith)),
      λ e. let valid = each.1 e.2 in ground arith,
    )

-- The host name, identifier, file name or action identifier that a check returned passes the same
-- check again, unchanged.
pub validated_idem :
    (s t : Text) (field : String)
    → (validate_hostname s ≡ ok t → validate_hostname t ≡ ok t)
      × (validate_required_id s field ≡ ok t → validate_required_id t field ≡ ok t)
      × (validate_file_name s ≡ ok t → validate_file_name t ≡ ok t)
      × (validate_action_id s ≡ ok t → validate_action_id t ≡ ok t)
validated_idem s t field = (
  λ e.
      let (same, k) = (validate_hostname_iff s t).0 e in
      (validate_hostname_iff t t).1 (trimmed_again same, k),
  λ e.
      let (same, k) = (validate_required_id_iff s field t).0 e in
      (validate_required_id_iff t field t).1 (trimmed_again same, k),
  λ e.
      let (same, k) = (validate_file_name_iff s t).0 e in
      (validate_file_name_iff t t).1 (trimmed_again same, k),
  λ e.
      let (same, n, l, a) = (validate_action_id_iff s t).0 e in
      (validate_action_id_iff t t).1 (trimmed_again same, n, l, a),
)
  where
    trimmed_again : t ≡ trim s → t ≡ trim t
    trimmed_again same = rw same (sym (trim_idem s))
