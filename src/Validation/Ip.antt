-- ===== src/Validation/Ip.antt =====
-- IP addresses: the parser of the standard library's `IpAddr` that src/validation.rs asks, and the
-- check itself. A parser gives what it read and the rest of the text.
pub mod Safe
use microsoft_defender_mcp.Prelude.{
  ◌>>=◌, ◌>>◌, ℕ, zero, suc, ◌+◌, ◌-◌, ◌*◌, ◌/◌, ◌%◌, ◌≤◌, ◌<◌, String, ◌≡◌, refl, sym, ap, ◌∙◌,
  ◌≢◌, ◌↔◌, ◌⊎◌, inl, inr, Bool, true, false, ◌&&◌, ◌||◌, not, Option, none, some, List, [], ◌∷◌,
  ◌++◌, map, append-nil, append_assoc, arith, str_eq, eq_iff, ltb, leb, ◌==◌, if◌then◌else◌, ==_iff,
  leb→le, Bool-cases, Option-cases, Result, ok, err, refuse, map_err, is_ok, ok_or, unwrap_or,
  length, take, any, all, is_empty, All, Any, length-append, All-append, any-eq-false_iff,
  all-eq-true_iff, All-map,
}
use microsoft_defender_mcp.Json.{ErrorData, invalid_params}
use microsoft_defender_mcp.Text.{Text, lit, trim, is_digit, between}

abbrev pub Reader : Type 0 → Type 0
Reader A = Text → Option (A × Text)

module _ {A B : Type 0} where
  abbrev pub then_read : Option (A × Text) → (A → Reader B) → Option (B × Text)
  then_read none k = none
  then_read (some (a, s)) k = k a s

-- The value of a digit in base ten or sixteen.
unfoldable pub digit_value : (radix : ℕ) → ℕ → Option ℕ
digit_value radix c =
    if is_digit c
    then some (c - b'0')
    else if radix == 16 && between b'a' b'f' c
    then some (c - b'a' + 10)
    else if radix == 16 && between b'A' b'F' c
    then some (c - b'A' + 10)
    else none

unfoldable pub read_char : ℕ → Reader (Unit {0})
read_char x [] = none
read_char x (c ∷ s) = if c == x then some (tt, s) else none

-- The digits of a number: at most `room` more of them, `none` when there are more or when the value
-- reaches `limit`. The text falls with every digit.
unfoldable pub read_digits : (radix limit room acc : ℕ) → Reader ℕ
unfolding digit_value
read_digits radix limit room acc [] = some (acc, [])
read_digits radix limit zero acc (c ∷ s) = elim (digit_value radix c) [
  | none ↦ some (acc, c ∷ s)
  | some d ↦ none
]
read_digits radix limit (suc room) acc (c ∷ s) =
    let value = unwrap_or 0 (digit_value radix c) in
    let more = read_digits radix limit room (acc * radix + value) s in
    elim (digit_value radix c) [
      | none ↦ some (acc, c ∷ s)
      | some d ↦ if leb limit (acc * radix + d) then none else more
    ]

abbrev pub starts_with_digit : ℕ → Text → Bool
starts_with_digit radix [] = false
starts_with_digit radix (c ∷ s) = elim (digit_value radix c) [ none ↦ false | some d ↦ true ]

-- Two digits or more, the first of them `0`.
abbrev pub has_leading_zero : ℕ → Text → Bool
has_leading_zero radix [] = false
has_leading_zero radix (c ∷ s) = c == b'0' && starts_with_digit radix s

-- `read_number`
unfoldable pub read_number : (radix limit max_digits : ℕ) (allow_zero_prefix : Bool) → Reader ℕ
unfolding read_digits
read_number radix limit max_digits allow_zero_prefix s =
    if not (starts_with_digit radix s)
    then none
    else if not allow_zero_prefix && has_leading_zero radix s
    then none
    else read_digits radix limit max_digits 0 s

abbrev pub read_octet : Reader ℕ
read_octet s = read_number 10 256 3 false s

-- `read_ipv4_addr`
unfoldable pub read_ipv4 : Reader (Unit {0})
unfolding read_number read_char
read_ipv4 s = then_read (read_octet s) λ _ s. then_read (read_char b'.' s) λ _ s.
    then_read (read_octet s) λ _ s. then_read (read_char b'.' s) λ _ s.
      then_read (read_octet s)
        λ _ s. then_read (read_char b'.' s) λ _ s. then_read (read_octet s) λ _ s. some (tt, s)

-- `read_separator(':', index, …)`: no separator before the first group.
abbrev pub read_separated : (first : Bool) → Reader (Unit {0}) → Reader (Unit {0})
read_separated first read s = if first then read s else then_read (read_char b':' s) λ _ s. read s

abbrev pub read_group : Reader (Unit {0})
read_group s = then_read (read_number 16 65536 4 true s) λ _ s. some (tt, s)

-- `read_groups` with `room` groups left: how many groups of sixteen bits were read, whether an IPv4
-- address ended them, and the rest of the text.
unfoldable pub read_groups : (room : ℕ) (first : Bool) → Text → ℕ × Bool × Text
unfolding read_ipv4
read_groups zero first s = (0, false, s)
read_groups (suc room) first s =
    let embedded = if leb 1 room then read_separated first read_ipv4 s else none in
    elim embedded [
      | some (_, rest) ↦ (2, true, rest)
      | none ↦ elim (read_separated first read_group s) [
        | some (_, rest) ↦ let (n, v4, final) = read_groups room false rest in (suc n, v4, final)
        | none ↦ (0, false, s)
      ]
    ]

-- `read_ipv6_addr`
unfoldable pub read_ipv6 : Reader (Unit {0})
unfolding read_groups read_char
read_ipv6 s =
    let (head_size, head_ipv4, s) = read_groups 8 true s in
    if head_size == 8
    then some (tt, s)
    else if head_ipv4
    then none
    else then_read (read_char b':' s)
        λ _ s. then_read (read_char b':' s) λ _ s. some (tt, (read_groups (7 - head_size) true s).2)

abbrev at_end : Option (Unit {0} × Text) → Bool
at_end none = false
at_end (some (_, s)) = is_empty s

-- `str::parse::<IpAddr>().is_ok()`: the whole text is one address.
unfoldable pub is_ip : Text → Bool
unfolding read_ipv4 read_ipv6
is_ip s = elim (read_ipv4 s) [ some (_, rest) ↦ is_empty rest | none ↦ at_end (read_ipv6 s) ]

unfoldable pub validate_ip_address : Text → Result Text ErrorData
validate_ip_address ip = do
  let trimmed = trim ip
  refuse (is_empty trimmed) (invalid_params (lit "ip_address cannot be empty"))
  refuse (not (is_ip trimmed)) (
      invalid_params
        (lit "ip_address must be a valid IPv4 or IPv6 address, got '" ++ (trimmed ++ lit "'")))
  ok trimmed

is_ip_tests :
    (is_ip (lit "10.0.0.1") ≡ true)
    × (is_ip (lit "::1") ≡ true)
    × (is_ip (lit "256.1.1.1") ≡ false)
    × (is_ip (lit "fe80::1:2") ≡ true)
    × (is_ip (lit "::ffff:1.2.3.4") ≡ true)
    × (is_ip (lit "1:2:3:4:5:6:7:8") ≡ true)
    × (is_ip (lit "1.2.3.04") ≡ false)
    × (is_ip (lit "1::2::3") ≡ false)
    × (is_ip (lit "::") ≡ true)
    × (is_ip (lit "1:2:3:4:5:6:7:8:9") ≡ false)
    × (is_ip (lit "12345::") ≡ false)
unfolding is_ip lit
is_ip_tests = (refl, refl, refl, refl, refl, refl, refl, refl, refl, refl, refl)
