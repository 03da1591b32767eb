-- ===== src/Validation/Names/Free.antt =====
-- Which comments, tags, descriptions and free texts are accepted.
use microsoft_defender_mcp.Prelude.{
  is_empty-eq-false_iff, ℕ, ◌≤◌, String, ◌≡◌, refl, ◌≢◌, ◌↔◌, inl, inr, false, [], arith,
  if◌then◌else◌, Bool-cases, ok, length, any-eq-false_iff,
}
use microsoft_defender_mcp.Text.{ends_with, Text, lit, trim, is_control}
use microsoft_defender_mcp.Validation.Names.{
  is_stray_control, validate_comment, validate_tag_name, validate_tag, validate_description,
  validate_text, allows_newlines,
}
use microsoft_defender_mcp.Validation.Names.Accepted.{Free}

-- A comment is accepted exactly if it has at least ten characters when trimmed.
pub validate_comment_iff :
    (comment : Text) (field : String) (t : Text)
    → (validate_comment comment field ≡ ok t) ↔ ((t ≡ trim comment) × (10 ≤ length t))
unfolding validate_comment
validate_comment_iff comment field t = ground arith

-- A free text is accepted exactly if it is not empty when trimmed, has at most `max` characters, and
-- has no control character, where a comment or a justification may hold `\n`, `\r` and `\t`.
pub validate_text_iff :
    (s : Text) (max : ℕ) (field : String) (t : Text)
    → (validate_text s max field ≡ ok t) ↔ (
        (t ≡ trim s)
        × (t ≢ [])
        × (length t ≤ max)
        × (if allows_newlines field then Free is_stray_control t else Free is_control t))
unfolding validate_text
validate_text_iff s max field t = elim (Bool-cases (allows_newlines field)) [
  | inl newlines ↦
      let n = is_empty-eq-false_iff t in
      let f = any-eq-false_iff is_stray_control t in
      let n' = is_empty-eq-false_iff (trim s) in
      let f' = any-eq-false_iff is_stray_control (trim s) in rw newlines (ground arith)
  | inr plain ↦
      let n = is_empty-eq-false_iff t in
      let f = any-eq-false_iff is_control t in
      let n' = is_empty-eq-false_iff (trim s) in
      let f' = any-eq-false_iff is_control (trim s) in rw plain (ground arith)
]

tag_is_plain : allows_newlines "tag" ≡ false
unfolding allows_newlines lit ends_with
tag_is_plain = refl

-- A tag is accepted exactly as a free text of at most 200 characters under the field `tag` is.
pub validate_tag-validate_text :
    (tag t : Text) → (validate_tag tag ≡ ok t) ↔ (validate_text tag 200 "tag" ≡ ok t)
unfolding validate_tag validate_text
validate_tag-validate_text tag t = rw tag_is_plain (ground arith)

-- A description is accepted exactly if it is not empty when trimmed and has no control character but
-- `\n`, `\r` and `\t`; a tag name, if it is not empty when trimmed and has no control character.
pub description_and_tag_name_iff :
    (s t : Text)
    → ((validate_description s ≡ ok t) ↔ ((t ≡ trim s) × (t ≢ []) × Free is_stray_control t))
      × ((validate_tag_name s ≡ ok t) ↔ ((t ≡ trim s) × (t ≢ []) × Free is_control t))
unfolding validate_description validate_tag_name
description_and_tag_name_iff s t =
    let n = is_empty-eq-false_iff t in
    let f = any-eq-false_iff is_stray_control t in
    let g = any-eq-false_iff is_control t in
    let n' = is_empty-eq-false_iff (trim s) in
    let f' = any-eq-false_iff is_stray_control (trim s) in
    let g' = any-eq-false_iff is_control (trim s) in ground arith
