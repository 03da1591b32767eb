-- ===== src/Audit/AttemptId.antt =====
-- `new_attempt_id` of src/audit.rs: sixteen random bytes, written as hexadecimal digits.
use microsoft_defender_mcp.Prelude.{
  true, ℕ, ◌+◌, ◌-◌, ◌*◌, ◌/◌, ◌%◌, ◌<◌, ◌≡◌, refl, List, [], ◌∷◌, All, length, ltb, if◌then◌else◌,
  arith,
}
use microsoft_defender_mcp.Text.{Text, is_hexdigit}

unfoldable pub hex_digit : ℕ → ℕ
hex_digit n = if ltb n 10 then b'0' + n else b'a' + n - 10

-- `write!(&mut hex, "{:02x}", b)` for each byte in turn.
unfoldable pub new_attempt_id : (bytes : List ℕ) → Text
unfolding hex_digit
new_attempt_id [] = []
new_attempt_id (b ∷ bytes) = hex_digit (b / 16) ∷ hex_digit (b % 16) ∷ new_attempt_id bytes

abbrev pub IsByte : ℕ → Type 0
IsByte b = b < 256

hex_digit_injective : (a b : ℕ) → a < 16 → b < 16 → hex_digit a ≡ hex_digit b → a ≡ b
unfolding hex_digit
hex_digit_injective a b h k e = ground arith

is_hexdigit-hex_digit : (n : ℕ) → n < 16 → is_hexdigit (hex_digit n) ≡ true
unfolding hex_digit
is_hexdigit-hex_digit n h = ground arith

-- Every byte gives two hexadecimal digits, so sixteen bytes give an identifier of 32 digits.
pub new_attempt_id_format :
    (bytes : List ℕ)
    → All IsByte bytes
    → (length (new_attempt_id bytes) ≡ 2 * length bytes)
      × All (λ c. is_hexdigit c ≡ true) (new_attempt_id bytes)
unfolding new_attempt_id
new_attempt_id_format [] h = (refl, tt)
new_attempt_id_format (b ∷ bytes) (h, hs) =
    let (l, a) = new_attempt_id_format bytes hs in
    (
      omega arith,
      (
        is_hexdigit-hex_digit (b / 16) (omega arith),
        (is_hexdigit-hex_digit (b % 16) (omega arith), a),
      ),
    )

cons_injective : {a b : ℕ} {s t : Text} → a ∷ s ≡ b ∷ t → (a ≡ b) × (s ≡ t)
cons_injective e = (cc, cc)

-- Different sequences of bytes give different identifiers.
pub new_attempt_id_injective :
    (xs ys : List ℕ)
    → All IsByte xs
    → All IsByte ys
    → new_attempt_id xs ≡ new_attempt_id ys
    → xs ≡ ys
unfolding new_attempt_id
new_attempt_id_injective [] [] h k e = refl
new_attempt_id_injective [] (y ∷ ys) h k e = cc
new_attempt_id_injective (x ∷ xs) [] h k e = cc
new_attempt_id_injective (x ∷ xs) (y ∷ ys) (hx, h) (hy, k) e =
    let (hi, e') = cons_injective e in
    let (lo, e'') = cons_injective e' in
    let p = hex_digit_injective (x / 16) (y / 16) (omega arith) (omega arith) hi in
    let q = hex_digit_injective (x % 16) (y % 16) (omega arith) (omega arith) lo in
    let same = new_attempt_id_injective xs ys h k e'' in let first : x ≡ y = omega arith in cc
