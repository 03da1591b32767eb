-- ===== src/Validation/Encoding.antt =====
-- Percent-encoding of path segments (src/validation.rs). The encoder is the percent_encoding crate,
-- a parameter with its documented behaviour; the set of characters is the program's.
use microsoft_defender_mcp.Prelude.{
  ℕ, String, ◌≡◌, refl, sym, ap, ◌∙◌, ◌≢◌, inl, inr, Bool, true, ◌&&◌, ◌||◌, not, [], ◌∷◌, ◌++◌,
  arith, ltb, ◌==◌, if◌then◌else◌, Bool-cases, ok, All, All-append, All-map,
}
use microsoft_defender_mcp.Text.{Text, is_alphanumeric, is_hexdigit}
use microsoft_defender_mcp.Validation.Names.{
  dot, dot_dot, validate_required_id, validate_action_id, is_action_char,
}
use microsoft_defender_mcp.Validation.Names.Accepted.{
  validate_required_id_iff, validate_action_id_iff,
}

-- `PATH_SEGMENT_ENCODE_SET`: the ASCII characters to encode are all but letters, digits and `-._~`.
unfoldable pub path_segment_encode_set : ℕ → Bool
path_segment_encode_set c =
    ltb c 128
    && not (is_alphanumeric c)
    && not (c == b'-')
    && not (c == b'.')
    && not (c == b'_')
    && not (c == b'~')

-- The crate: characters of the set, and all that are not ASCII, are written as `%` and hexadecimal
-- digits, byte by byte; the others are kept.
pub record PercentEncoding : Type 0 where
  pub utf8_percent_encode : Text → (ℕ → Bool) → Text
  pub escape : ℕ → Text
  pub encode_nil : (set : ℕ → Bool) → utf8_percent_encode [] set ≡ []
  pub encode_cons :
      (set : ℕ → Bool) (c : ℕ) (s : Text)
      → utf8_percent_encode (c ∷ s) set ≡ (
          if ltb c 128 && not (set c)
          then c ∷ utf8_percent_encode s set
          else (b'%' ∷ escape c) ++ utf8_percent_encode s set)
  pub escape_chars : (c : ℕ) → All (λ d. (is_hexdigit d || d == b'%') ≡ true) (escape c)

-- A character that may stand in a path segment as it is (RFC 3986, section 2.3).
abbrev pub is_unreserved : ℕ → Bool
is_unreserved c = is_alphanumeric c || c == b'-' || c == b'.' || c == b'_' || c == b'~'

abbrev pub is_segment_char : ℕ → Bool
is_segment_char c = is_unreserved c || c == b'%'

module _ (crate : PercentEncoding) where
  unfoldable pub encode_path_segment : Text → Text
  encode_path_segment segment = crate.utf8_percent_encode segment path_segment_encode_set

  encode-cons :
      (c : ℕ) (s : Text)
      → encode_path_segment (c ∷ s) ≡ (
          if is_unreserved c
          then c ∷ encode_path_segment s
          else (b'%' ∷ crate.escape c) ++ encode_path_segment s)
  unfolding encode_path_segment path_segment_encode_set
  encode-cons c s = ground (arith, crate.encode_cons path_segment_encode_set c s)

  encode-nil : encode_path_segment [] ≡ []
  unfolding encode_path_segment
  encode-nil = crate.encode_nil path_segment_encode_set

  escape-segment : (c : ℕ) → All (λ d. is_segment_char d ≡ true) (b'%' ∷ crate.escape c)
  escape-segment c =
      (refl, All-map _ _ (λ d h. ground arith) (crate.escape c) (crate.escape_chars c))

  -- Whatever the value, its encoding is one path segment: letters, digits, `-._~` and `%` alone.
  pub encode_path_segment-chars :
      (s : Text) → All (λ d. is_segment_char d ≡ true) (encode_path_segment s)
  encode_path_segment-chars [] = rw encode-nil tt
  encode_path_segment-chars (c ∷ s) = elim (Bool-cases (is_unreserved c)) [
    | inl kept ↦ rw (encode-cons c s, kept) (ground arith, encode_path_segment-chars s)
    | inr coded ↦
        rw (encode-cons c s, coded)
          (All-append _ (b'%' ∷ crate.escape c) (encode_path_segment s) (escape-segment c)
            (encode_path_segment-chars s))
  ]

  -- Unreserved text is kept as it is.
  pub encode_of_unreserved :
      (s : Text) → All (λ d. is_unreserved d ≡ true) s → encode_path_segment s ≡ s
  encode_of_unreserved [] h = encode-nil
  encode_of_unreserved (c ∷ s) h =
      rw (encode-cons c s, h.0) (ap (λ t. c ∷ t) (encode_of_unreserved s h.1))

  -- An encoding without `%` is the value itself.
  encode_fixed : (s u : Text) → All (λ d. d ≢ b'%') u → encode_path_segment s ≡ u → s ≡ u
  encode_fixed [] u h e = sym encode-nil ∙ e
  encode_fixed (c ∷ s) [] h e = elim (Bool-cases (is_unreserved c)) [
    | inl kept ↦ let e' = rw (encode-cons c s, kept) at e in cc
    | inr coded ↦ let e' = rw (encode-cons c s, coded) at e in cc
  ]
  encode_fixed (c ∷ s) (d ∷ u) h e = elim (Bool-cases (is_unreserved c)) [
    | inl kept ↦
        let e' = rw (encode-cons c s, kept) at e in
        let rest : encode_path_segment s ≡ u = cc in let ih = encode_fixed s u h.1 rest in cc
    | inr coded ↦
        let e' = rw (encode-cons c s, coded) at e in
        let first : b'%' ≡ d = cc in absurd (h.0 (sym first))
  ]

  -- Whatever names a child is encoded as a segment that does.
  pub encode_of_child :
      (t : Text)
      → t ≢ []
      → t ≢ dot
      → t ≢ dot_dot
      → (encode_path_segment t ≢ [])
        × (encode_path_segment t ≢ dot)
        × (encode_path_segment t ≢ dot_dot)
        × All (λ d. is_segment_char d ≡ true) (encode_path_segment t)
  encode_of_child t nonempty not_dot not_dot_dot = (
    λ p. nonempty (encode_fixed t [] tt p),
    λ p. not_dot (encode_fixed t dot (omega arith, tt) p),
    λ p. not_dot_dot (encode_fixed t dot_dot (omega arith, (omega arith, tt)) p),
    encode_path_segment-chars t,
  )

  -- An accepted identifier becomes one path segment that names a child: it is not empty, it is not
  -- `.` or `..`, and it holds letters, digits, `-._~` and `%` alone, so no slash, no query and no
  -- white space.
  pub required_id-segment :
      (value : Text) (param_name : String) (t : Text)
      → validate_required_id value param_name ≡ ok t
      → (encode_path_segment t ≢ [])
        × (encode_path_segment t ≢ dot)
        × (encode_path_segment t ≢ dot_dot)
        × All (λ d. is_segment_char d ≡ true) (encode_path_segment t)
  required_id-segment value param_name t e =
      let k = ((validate_required_id_iff value param_name t).0 e).1 in
      encode_of_child t k.nonempty k.not_dot k.not_dot_dot

  -- An accepted action identifier is sent as it is: encoding it changes nothing.
  pub action_id-segment :
      (action_id t : Text) → validate_action_id action_id ≡ ok t → encode_path_segment t ≡ t
  action_id-segment action_id t e =
      let (_, _, _, chars) = (validate_action_id_iff action_id t).0 e in
      encode_of_unreserved t (
        All-map (λ c. is_action_char c ≡ true) (λ d. is_unreserved d ≡ true) (λ c h. ground arith) t
          chars)
