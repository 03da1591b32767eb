-- ===== src/Tests/Crates.antt =====
-- Stand-ins for the crates, which meet what the model asks of them.
use microsoft_defender_mcp.Prelude.{
  ℕ, ◌+◌, ◌-◌, ◌/◌, ◌%◌, ◌≤◌, String, ◌≡◌, refl, ◌↔◌, Bool, true, false, ◌&&◌, ◌||◌, not, some,
  List, [], ◌∷◌, ◌++◌, arith, str_eq, ltb, leb, ◌==◌, if◌then◌else◌, ==_iff, Result, ok, err,
  length, all, All, all-eq-true_iff,
}
use microsoft_defender_mcp.Text.{text_eq, Text, lit, is_hexdigit, is_digit}
use microsoft_defender_mcp.Validation.Encoding.{PercentEncoding}
use microsoft_defender_mcp.Validation.Hashes.{
  Regex, IsHex, IsCve, cve_prefix, md5_re, sha1_re, sha256_re,
}
use microsoft_defender_mcp.Validation.Indicators.{Chrono, Url}

unfoldable pub is_hex : ℕ → Text → Bool
is_hex n t = length t == n && all is_hexdigit t

pub is_hex_iff : (n : ℕ) (t : Text) → (is_hex n t ≡ true) ↔ IsHex n t
unfolding is_hex
is_hex_iff n t =
    let a = all-eq-true_iff is_hexdigit t in let l = ==_iff (length t) n in ground arith

unfoldable pub is_cve : Text → Bool
is_cve (c ∷ v ∷ e ∷ d ∷ y1 ∷ y2 ∷ y3 ∷ y4 ∷ d' ∷ serial) =
    c == b'C'
    && v == b'V'
    && e == b'E'
    && d == b'-'
    && all is_digit (y1 ∷ y2 ∷ y3 ∷ y4 ∷ [])
    && d' == b'-'
    && leb 4 (length serial)
    && all is_digit serial
is_cve _ = false

pub IsCve-only :
    (c v e d y1 y2 y3 y4 d' : ℕ) (serial : Text)
    → is_cve (c ∷ v ∷ e ∷ d ∷ y1 ∷ y2 ∷ y3 ∷ y4 ∷ d' ∷ serial) ≡ true
    → IsCve is_digit (c ∷ v ∷ e ∷ d ∷ y1 ∷ y2 ∷ y3 ∷ y4 ∷ d' ∷ serial)
unfolding is_cve
IsCve-only c v e d y1 y2 y3 y4 d' serial h =
    let a = all-eq-true_iff is_digit serial in
    let pc : c ≡ b'C' = ground arith in
    let pv : v ≡ b'V' = ground arith in
    let pe : e ≡ b'E' = ground arith in
    let pd : d ≡ b'-' = ground arith in
    let pd' : d' ≡ b'-' = ground arith in
    (
      y1 ∷ y2 ∷ y3 ∷ y4 ∷ [],
      serial,
      rw (pc, pv, pe, pd, pd') refl,
      refl,
      ground arith,
      ground arith,
      a.0 (ground arith),
    )

pub is_cve_sound : (t : Text) → is_cve t ≡ true → IsCve is_digit t
unfolding is_cve
is_cve_sound (c ∷ v ∷ e ∷ d ∷ y1 ∷ y2 ∷ y3 ∷ y4 ∷ d' ∷ serial) h =
    IsCve-only c v e d y1 y2 y3 y4 d' serial h
is_cve_sound _ h = absurd (cc)

pub is_cve_complete :
    (year serial : Text)
    → length year ≡ 4
    → 4 ≤ length serial
    → All (λ c. is_digit c ≡ true) year
    → All (λ c. is_digit c ≡ true) serial
    → is_cve (cve_prefix ++ (year ++ (b'-' ∷ serial))) ≡ true
unfolding is_cve
is_cve_complete (y1 ∷ y2 ∷ y3 ∷ y4 ∷ []) serial l m hy hs =
    let a = (all-eq-true_iff is_digit serial).1 hs in ground arith
is_cve_complete _ serial l m hy hs = absurd (omega arith)

unfoldable pub matches : String → Text → Bool
unfolding is_hex is_cve
matches re t =
    if str_eq re md5_re
    then is_hex 32 t
    else if str_eq re sha1_re
    then is_hex 40 t
    else if str_eq re sha256_re
    then is_hex 64 t
    else is_cve t

unfoldable pub regex_crate : Regex
unfolding matches
regex_crate = record {
  is_match = matches;
  digit = is_digit;
  digit_ascii = λ c h. h;
  match_md5 = is_hex_iff 32;
  match_sha1 = is_hex_iff 40;
  match_sha256 = is_hex_iff 64;
  match_cve = λ t. (
    is_cve_sound t,
    λ h. let (year, serial, same, a, b, c, d) = h in rw same (is_cve_complete year serial a b c d),
  );
}

-- Percent-encoding of a character's UTF-8 bytes, in upper-case digits; the first `%` is left out.
unfoldable pub upper_digit : ℕ → ℕ
upper_digit n = if ltb (n % 16) 10 then b'0' + n % 16 else b'A' + n % 16 - 10

pub is_hexdigit-upper_digit : (n : ℕ) → is_hexdigit (upper_digit n) ≡ true
unfolding upper_digit
is_hexdigit-upper_digit n = ground arith

unfoldable pub escape_byte : ℕ → Text → Text
unfolding upper_digit
escape_byte b rest = upper_digit (b / 16) ∷ upper_digit b ∷ rest

abbrev pub IsEscape : Text → Type 0
IsEscape t = All (λ d. (is_hexdigit d || d == b'%') ≡ true) t

pub escape_byte-IsEscape : (b : ℕ) (rest : Text) → IsEscape rest → IsEscape (escape_byte b rest)
unfolding escape_byte
escape_byte-IsEscape b rest h =
    let p = is_hexdigit-upper_digit (b / 16) in let q = is_hexdigit-upper_digit b in ground arith

-- The UTF-8 bytes of a character, the first apart.
unfoldable pub utf8 : ℕ → ℕ × List ℕ
utf8 c =
    let low = 128 + c % 64 in
    let middle = 128 + c / 64 % 64 in
    if ltb c 128
    then (c, [])
    else if ltb c 2048
    then (192 + c / 64, low ∷ [])
    else if ltb c 65536
    then (224 + c / 4096, middle ∷ low ∷ [])
    else (240 + c / 262144, (128 + c / 4096 % 64) ∷ middle ∷ low ∷ [])

unfoldable pub escape_all : List ℕ → Text
unfolding escape_byte
escape_all [] = []
escape_all (b ∷ bs) = b'%' ∷ escape_byte b (escape_all bs)

pub escape_all-IsEscape : (bs : List ℕ) → IsEscape (escape_all bs)
unfolding escape_all
escape_all-IsEscape [] = tt
escape_all-IsEscape (b ∷ bs) =
    (refl, escape_byte-IsEscape b (escape_all bs) (escape_all-IsEscape bs))

unfoldable pub escape_char : ℕ → Text
unfolding escape_byte utf8 escape_all
escape_char c = escape_byte (utf8 c).0 (escape_all (utf8 c).1)

pub escape_char-IsEscape : (c : ℕ) → IsEscape (escape_char c)
unfolding escape_char
escape_char-IsEscape c =
    escape_byte-IsEscape (utf8 c).0 (escape_all (utf8 c).1) (escape_all-IsEscape (utf8 c).1)

unfoldable pub encode_text : Text → (ℕ → Bool) → Text
unfolding escape_char
encode_text [] set = []
encode_text (c ∷ s) set =
    let rest = encode_text s set in
    if ltb c 128 && not (set c) then c ∷ rest else (b'%' ∷ escape_char c) ++ rest

unfoldable pub percent_crate : PercentEncoding
unfolding encode_text
percent_crate = record {
  utf8_percent_encode = encode_text;
  escape = escape_char;
  encode_nil = λ set. refl;
  encode_cons = λ set c s. refl;
  escape_chars = escape_char-IsEscape;
}

-- Two time stamps, one of the future and one seven days old, with ten ticks to the day.
unfoldable pub chrono_crate : Chrono
unfolding text_eq lit
chrono_crate = record {
  parse_from_rfc3339 = λ t.
      if text_eq t (lit "2031-05-01T00:00:00Z")
      then ok 100
      else if text_eq t (lit "2031-04-23T00:00:00Z")
      then ok 20
      else err (lit "premature end of input");
  now = 90;
  ticks_per_day = 10;
  format_utc = λ dt. lit "2031-05-01T00:00:00.000Z";
}

unfoldable pub url_crate : Text → Result Url Text
unfolding lit
url_crate t = ok (record { scheme = lit "https"; host = some (lit "evil.example") })
