-- ===== src/Server/Reads/Safe.antt =====
-- The requests of a read stay where the path's literals put them, and use no scope for writing unless
-- the action is known to need one.
use microsoft_defender_mcp.Prelude.{
  ◌∙◌, ℕ, ◌≤◌, String, ◌≡◌, refl, ap, ◌≢◌, ◌⊎◌, inl, inr, Bool, true, false, [], ◌∷◌, ◌++◌, arith,
  ok, length, All-map, OnOk,
}
use microsoft_defender_mcp.Auth.Identity.{read_graph, read_endpoint}
use microsoft_defender_mcp.Client.{Request}
use microsoft_defender_mcp.Client.Paths.{
  is_pchar, IsSegment, Confined, is_base, is_confined, base-Confined, literal-Confined,
  segment-Follows, segment-Follows-Confined,
}
use microsoft_defender_mcp.Server.Reads.{Plan, done, fetch, Planned, child, child_of}
use microsoft_defender_mcp.Text.{trim, Text, lit}
use microsoft_defender_mcp.Validation.Encoding.{
  PercentEncoding, encode_path_segment, encode_of_child, is_segment_char,
}
use microsoft_defender_mcp.Validation.Hashes.{
  cve_prefix, Regex, IsHex, validate_cve_id, validate_sha1, validate_file_hash,
  validate_file_hash_iff, validate_machine_id,
}
use microsoft_defender_mcp.Validation.Ip.{validate_ip_address, is_ip}
use microsoft_defender_mcp.Validation.Names.{dot, dot_dot, validate_required_id, validate_hostname}
use microsoft_defender_mcp.Validation.Names.Accepted.{
  validate_required_id_iff, validate_hostname_iff,
}

-- A text that names a child of a path, once it is encoded.
abbrev pub IsChild : Text → Type 0
IsChild t = (t ≢ []) × (t ≢ dot) × (t ≢ dot_dot)

pub required_id-IsChild :
    (value : Text) (param_name : String) (t : Text)
    → validate_required_id value param_name ≡ ok t
    → IsChild t
required_id-IsChild value param_name t e =
    let k = ((validate_required_id_iff value param_name t).0 e).1 in
    (k.nonempty, k.not_dot, k.not_dot_dot)

pub hostname-IsChild : (h t : Text) → validate_hostname h ≡ ok t → IsChild t
hostname-IsChild h t e =
    let k = ((validate_hostname_iff h t).0 e).1 in (k.nonempty, k.not_dot, λ p. k.no_dots [] [] p)

IsHex-IsChild : (n : ℕ) (t : Text) → 3 ≤ n → IsHex n t → IsChild t
IsHex-IsChild n t long h = (
  λ p. let zero_long : length t ≡ 0 = ap length p in omega (arith, zero_long, h.0),
  λ p. let one_long : length t ≡ 1 = ap length p in omega (arith, one_long, h.0),
  λ p. let two_long : length t ≡ 2 = ap length p in omega (arith, two_long, h.0),
)

module _ (regex : Regex) where
  pub cve_id-IsChild : (s t : Text) → validate_cve_id regex s ≡ ok t → IsChild t
  unfolding validate_cve_id
  cve_id-IsChild s t e =
      let same : t ≡ trim s = ground arith in
      let (year, serial, shaped, _, _, _, _) = (regex.match_cve (trim s)).0 (ground arith) in
      let written : t ≡ cve_prefix ++ (year ++ (b'-' ∷ serial)) = same ∙ shaped in
      (λ p. cc, λ p. absurd (cc), λ p. absurd (cc))

  pub sha1-IsChild : (s t : Text) → validate_sha1 regex s ≡ ok t → IsChild t
  unfolding validate_sha1
  sha1-IsChild s t e =
      let m = regex.match_sha1 (trim s) in
      let same : t ≡ trim s = ground arith in
      IsHex-IsChild 40 t (omega arith) (rw same (m.0 (ground arith)))

  pub machine_id-IsChild : (s t : Text) → validate_machine_id regex s ≡ ok t → IsChild t
  unfolding validate_machine_id
  machine_id-IsChild s t e =
      let m = regex.match_sha1 (trim s) in
      let same : t ≡ trim s = ground arith in
      IsHex-IsChild 40 t (omega arith) (rw same (m.0 (ground arith)))

  pub file_hash-IsChild : (s t : Text) → validate_file_hash regex s ≡ ok t → IsChild t
  file_hash-IsChild s t e = elim ((validate_file_hash_iff regex s t).0 e).1 [
    | inl md5 ↦ IsHex-IsChild 32 t (omega arith) md5
    | inr (inl sha1) ↦ IsHex-IsChild 40 t (omega arith) sha1
    | inr (inr sha256) ↦ IsHex-IsChild 64 t (omega arith) sha256
  ]

not_ip : (is_ip [] ≡ false) × (is_ip dot ≡ false) × (is_ip dot_dot ≡ false)
unfolding is_ip
not_ip = (refl, refl, refl)

is_ip-IsChild : (t : Text) → is_ip t ≡ true → IsChild t
is_ip-IsChild t h = (
  λ p. let e = ap is_ip p in let (n, _, _) = not_ip in cc,
  λ p. let e = ap is_ip p in let (_, n, _) = not_ip in cc,
  λ p. let e = ap is_ip p in let (_, _, n) = not_ip in cc,
)

pub ip_address-IsChild : (s t : Text) → validate_ip_address s ≡ ok t → IsChild t
unfolding validate_ip_address
ip_address-IsChild s t e =
    let same : t ≡ trim s = ground arith in is_ip-IsChild t (rw same (ground arith))

-- A request in the bounds of an action: its path is confined, and its category is one of reads, or
-- else the action is one that needs a write-named scope.
pub record Reaches (write_named : Bool) (req : Request) : Type 0 where
  pub path : Confined req.path
  pub reading : (req.category ≡ read_graph) ⊎ (req.category ≡ read_endpoint) ⊎ (write_named ≡ true)

abbrev pub Reaching : Bool → Plan → Type 0
Reaching write_named (done _) = Unit
Reaching write_named (fetch req) = Reaches write_named req

-- Whatever the plan fetches is in the bounds of the action.
abbrev pub Bounded : Bool → Planned → Type 0
Bounded write_named plan = OnOk (Reaching write_named) plan

module _ (percent : PercentEncoding) where
  pub encode-IsSegment : (t : Text) → IsChild t → IsSegment (encode_path_segment percent t)
  encode-IsSegment t k =
      let (nonempty, not_dot, not_dot_dot, chars) = encode_of_child percent t k.0 k.1 k.2 in
      record {
        nonempty = nonempty;
        not_dot = not_dot;
        not_dot_dot = not_dot_dot;
        chars =
            All-map (λ c. is_segment_char c ≡ true) (λ c. is_pchar c ≡ true) (λ c h. ground arith) _
              chars;
      }

  pub child-Confined :
      (base : String) (id : Text)
      → is_base (lit base) ≡ true
      → IsChild id
      → Confined (child percent base id)
  child-Confined base id h k =
      base-Confined (lit base) _ h (segment-Follows _ (encode-IsSegment id k))

  pub child_of-Confined :
      (base : String) (id : Text) (rest : String)
      → is_base (lit base) ≡ true
      → is_confined (lit rest) ≡ true
      → IsChild id
      → Confined (child_of percent base id rest)
  child_of-Confined base id rest h r k =
      base-Confined (lit base) _ h
        (segment-Follows-Confined _ _ (encode-IsSegment id k) (literal-Confined (lit rest) r))
