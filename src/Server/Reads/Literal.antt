-- ===== src/Server/Reads/Literal.antt =====
-- Paths whose last segment is put together from literals, numbers and checked values.
use microsoft_defender_mcp.Prelude.{
  ℕ, ◌≡◌, refl, true, false, ◌∷◌, ◌++◌, arith, ◌==◌, All, All-append, all-eq-true_iff, All-map,
}
use microsoft_defender_mcp.Client.Paths.{
  is_pchar, IsSegment, Confined, is_base, base-Confined, segment-Follows, segment-Follows-Confined,
}
use microsoft_defender_mcp.Server.Reads.Safe.{IsChild, encode-IsSegment}
use microsoft_defender_mcp.Text.{Text, lit, text_eq}
use microsoft_defender_mcp.Text.Decimal.{ℤ, decimal_int, decimal_int-chars}
use microsoft_defender_mcp.Validation.Encoding.{PercentEncoding, encode_path_segment}

-- A text that begins with no dot, and whose characters may stand in a segment, is one.
pub plain-IsSegment :
    (c : ℕ) (t : Text)
    → (c == b'.') ≡ false
    → All (λ d. is_pchar d ≡ true) (c ∷ t)
    → IsSegment (c ∷ t)
plain-IsSegment c t h k = record {
  nonempty = λ p. cc;
  not_dot = λ p. let same : c ≡ b'.' = cc in absurd (ground arith);
  not_dot_dot = λ p. let same : c ≡ b'.' = cc in absurd (ground arith);
  chars = k;
}

abbrev link_name : ℤ → Text
link_name index = lit "GetLiveResponseResultDownloadLink(index=" ++ (decimal_int index ++ lit ")")

link_name-IsSegment : (index : ℤ) → IsSegment (link_name index)
unfolding lit
link_name-IsSegment index =
    let digits =
      All-map _ (λ d. is_pchar d ≡ true) (λ d h. ground arith) _ (decimal_int-chars index) in
    let closed =
      All-append (λ d. is_pchar d ≡ true) (decimal_int index) (lit ")") digits (refl, tt) in
    let name = lit "GetLiveResponseResultDownloadLink(index=" in
    plain-IsSegment b'G' _ refl (
      All-append (λ d. is_pchar d ≡ true) name (decimal_int index ++ lit ")")
        ((all-eq-true_iff is_pchar name).0 refl) closed)

link-Confined :
    (index : ℤ)
    → Confined (lit "/GetLiveResponseResultDownloadLink(index=" ++ (decimal_int index ++ lit ")"))
unfolding lit is_base text_eq
link-Confined index =
    base-Confined (lit "/") (link_name index) refl
      (segment-Follows (link_name index) (link_name-IsSegment index))

-- The path to the result of one command of a Live Response action.
pub index_link-Confined :
    (percent : PercentEncoding) (id : Text) (index : ℤ)
    → IsChild id
    → Confined (
        lit "/api/machineactions/"
        ++ (encode_path_segment percent id
            ++ (lit "/GetLiveResponseResultDownloadLink(index=" ++ (decimal_int index ++ lit ")"))))
unfolding is_base text_eq lit
index_link-Confined percent id index k =
    let link = lit "/GetLiveResponseResultDownloadLink(index=" ++ (decimal_int index ++ lit ")") in
    let enc = encode_path_segment percent id in
    base-Confined (lit "/api/machineactions/") (enc ++ link) refl
      (segment-Follows-Confined enc link (encode-IsSegment percent id k) (link-Confined index))
