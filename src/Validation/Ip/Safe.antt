-- ===== src/Validation/Ip/Safe.antt =====
-- What an accepted IP address is made of.
use microsoft_defender_mcp.Prelude.{
  ℕ, zero, suc, ◌+◌, ◌-◌, ◌*◌, ◌≡◌, refl, inl, inr, Bool, true, false, ◌||◌, none, some, [], ◌∷◌,
  arith, leb, ◌==◌, if◌then◌else◌, ==_iff, Bool-cases, Option-cases, ok, is_empty, All,
}
use microsoft_defender_mcp.Text.{Text, trim, is_hexdigit}
use microsoft_defender_mcp.Validation.Ip.{
  Reader, then_read, digit_value, read_char, read_digits, read_number, read_octet, read_ipv4,
  read_separated, read_group, read_groups, read_ipv6, is_ip, validate_ip_address,
}

-- A hexadecimal digit, a dot or a colon.
abbrev pub is_ip_char : ℕ → Bool
is_ip_char c = is_hexdigit c || c == b'.' || c == b':'

abbrev pub IsIpText : Text → Type 0
IsIpText s = All (λ c. is_ip_char c ≡ true) s

digit_value-is_ip_char : (radix c d : ℕ) → digit_value radix c ≡ some d → is_ip_char c ≡ true
unfolding digit_value
digit_value-is_ip_char radix c d h = ground arith

-- What a reader takes off the front of a text is made of such characters.
abbrev Takes : {A : Type 0} → Reader A → Type 0
Takes {A} read =
    (s : Text) (a : A) (rest : Text) → read s ≡ some (a, rest) → IsIpText rest → IsIpText s

read_char-Takes : (x : ℕ) → is_ip_char x ≡ true → Takes (read_char x)
unfolding read_char
read_char-Takes x h [] a rest e k = cc
read_char-Takes x h (c ∷ s) a rest e k = ground (arith, ==_iff c x)

read_digits-Takes : (radix limit room acc : ℕ) → Takes (read_digits radix limit room acc)
unfolding read_digits
read_digits-Takes radix limit room acc [] a rest e k = tt
read_digits-Takes radix limit zero acc (c ∷ s) a rest e k = ground arith
read_digits-Takes radix limit (suc room) acc (c ∷ s) a rest e k =
    elim (Option-cases (digit_value radix c)) [
      | inl missing ↦ ground arith
      | inr (d, found) ↦
          let here = digit_value-is_ip_char radix c d found in
          let ih = read_digits-Takes radix limit room (acc * radix + d) s a rest in ground arith
    ]

read_number-Takes :
    (radix limit most : ℕ) (zeros : Bool) → Takes (read_number radix limit most zeros)
unfolding read_number
read_number-Takes radix limit most zeros s a rest e k =
    let ih = read_digits-Takes radix limit most 0 s a rest in ground arith

then_read-Takes :
    {A B : Type 0} (read : Reader A) (k : A → Reader B)
    → Takes read
    → ((a : A) → Takes (k a))
    → Takes (λ s. then_read (read s) k)
then_read-Takes read k first second s b rest e good = elim (Option-cases (read s)) [
  | inl missing ↦ absurd (ground arith)
  | inr ((a, s'), found) ↦ first s a s' found (second a s' b rest (ground arith) good)
]

return-Takes : Takes (λ s. some (tt {0}, s))
return-Takes s a rest e k = ground arith

octet_dot :
    {B : Type 0} (k : Reader B)
    → Takes k
    → Takes (λ s. then_read (read_octet s) λ _ s. then_read (read_char b'.' s) λ _ s. k s)
octet_dot k h =
    then_read-Takes read_octet _ (read_number-Takes 10 256 3 false)
      λ _. then_read-Takes (read_char b'.') _ (read_char-Takes b'.' refl) λ _. h

read_ipv4-Takes : Takes read_ipv4
unfolding read_ipv4
read_ipv4-Takes = octet_dot _ (
    octet_dot _ (
      octet_dot _
        (then_read-Takes read_octet _ (read_number-Takes 10 256 3 false) λ _. return-Takes)))

read_separated-Takes :
    (first : Bool) (read : Reader (Unit {0})) → Takes read → Takes (read_separated first read)
read_separated-Takes true read h = h
read_separated-Takes false read h =
    then_read-Takes (read_char b':') _ (read_char-Takes b':' refl) λ _. h

read_group-Takes : Takes read_group
read_group-Takes =
    then_read-Takes (read_number 16 65536 4 true) _ (read_number-Takes 16 65536 4 true)
      λ _. return-Takes

read_groups-Takes :
    (room : ℕ) (first : Bool) (s : Text) → IsIpText (read_groups room first s).2 → IsIpText s
unfolding read_groups
read_groups-Takes zero first s k = k
read_groups-Takes (suc room) first s k =
    let a = read_separated-Takes first read_ipv4 read_ipv4-Takes s tt in
    let g = read_separated-Takes first read_group read_group-Takes s tt in
    elim (Option-cases (if leb 1 room then read_separated first read_ipv4 s else none)) [
      | inr ((_, rest), found) ↦ a rest (ground arith) (rw (found, read_groups) at k)
      | inl plain ↦ elim (Option-cases (read_separated first read_group s)) [
        | inr ((_, rest), found) ↦
            g rest found (read_groups-Takes room false rest (rw (plain, found, read_groups) at k))
        | inl missing ↦ rw (plain, missing, read_groups) at k
      ]
    ]

tail-Takes : (n : ℕ) → Takes (λ s. some (tt {0}, (read_groups n true s).2))
tail-Takes n s a rest e k =
    let same : (read_groups n true s).2 ≡ rest = ground arith in
    read_groups-Takes n true s (rw same k)

back-Takes :
    (n : ℕ)
    → Takes (λ s.
      then_read
        (read_char b':' s)
        λ _ s. then_read (read_char b':' s) λ _ s. some (tt {0}, (read_groups n true s).2))
back-Takes n =
    then_read-Takes (read_char b':') _ (read_char-Takes b':' refl)
      λ _. then_read-Takes (read_char b':') _ (read_char-Takes b':' refl) λ _. tail-Takes n

read_ipv6-Takes : Takes read_ipv6
unfolding read_ipv6
read_ipv6-Takes s a rest e k =
    read_groups-Takes 8 true s
      (go (read_groups 8 true s).0 (read_groups 8 true s).1 (read_groups 8 true s).2 e)
  where
    go :
        (size : ℕ) (v4 : Bool) (s' : Text)
        → (if size == 8
            then some (tt, s')
            else if v4
            then none
            else then_read (read_char b':' s') λ _ s.
              then_read (read_char b':' s) λ _ s. some (tt, (read_groups (7 - size) true s).2))
          ≡ some (a, rest)
        → IsIpText s'
    go size v4 s' e = elim (Bool-cases (size == 8)) [
      | inl whole ↦ ground arith
      | inr part ↦ elim (Bool-cases v4) [
        | inl ended ↦ absurd (ground arith)
        | inr open_end ↦ back-Takes (7 - size) s' a rest (ground arith) k
      ]
    ]

-- Every character of an accepted address is a hexadecimal digit, a dot or a colon: it has no slash,
-- no percent sign, no white space and no control character.
pub is_ip-IsIpText : (s : Text) → is_ip s ≡ true → IsIpText s
unfolding is_ip
is_ip-IsIpText s h = elim (Option-cases (read_ipv4 s)) [
  | inr ((a, rest), found) ↦ read_ipv4-Takes s a rest found (nothing rest (ground arith))
  | inl missing ↦ elim (Option-cases (read_ipv6 s)) [
    | inr ((a, rest), found) ↦ read_ipv6-Takes s a rest found (nothing rest (ground arith))
    | inl none_left ↦ absurd (ground arith)
  ]
]
  where
    nothing : (rest : Text) → is_empty rest ≡ true → IsIpText rest
    nothing [] h = tt
    nothing (c ∷ rest) h = absurd (cc)

-- An accepted address is the given one, trimmed; it is not empty, and each of its characters is a
-- hexadecimal digit, a dot or a colon.
pub validate_ip_address_safe :
    (ip t : Text)
    → validate_ip_address ip ≡ ok t
    → (t ≡ trim ip) × (is_empty t ≡ false) × IsIpText t
unfolding validate_ip_address
validate_ip_address_safe ip t e =
    let same : t ≡ trim ip = ground arith in
    (same, rw same (ground arith), is_ip-IsIpText t (rw same (ground arith)))
