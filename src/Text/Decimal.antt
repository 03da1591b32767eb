-- ===== src/Text/Decimal.antt =====
-- Printing numbers in base ten, as `Display` does, and signed 32-bit integers.
use microsoft_defender_mcp.Prelude.{
  ℕ, zero, suc, ◌+◌, ◌-◌, ◌*◌, ◌/◌, ◌%◌, ◌≤◌, ◌<◌, ◌≡◌, refl, ap, ◌∙◌, ◌↔◌, inl, inr, Bool, true,
  false, ◌&&◌, [], ◌∷◌, arith, ltb, leb, if◌then◌else◌, Bool-cases, All, All-map, ◌||◌, ◌==◌,
}
use microsoft_defender_mcp.Text.{Text, is_digit}

-- The digits of `n` before `rest`; the fuel is more than the number has digits.
decimal_from : ℕ → ℕ → Text → Text
decimal_from zero n rest = rest
decimal_from (suc fuel) n rest =
    let more = decimal_from fuel (n / 10) ((b'0' + n % 10) ∷ rest) in
    if ltb n 10 then (b'0' + n) ∷ rest else more

unfoldable pub decimal : ℕ → Text
unfolding decimal_from
decimal n = decimal_from (suc n) n []

-- `negsuc n` is -(n + 1).
pub data ℤ : Type 0 where
  pos : ℕ → ℤ
  negsuc : ℕ → ℤ

unfoldable pub decimal_int : ℤ → Text
unfolding decimal
decimal_int (pos n) = decimal n
decimal_int (negsuc n) = b'-' ∷ decimal (suc n)

-- `(lo..=hi).contains(&x)`
abbrev pub in_range : ℕ → ℕ → ℤ → Bool
in_range lo hi (pos n) = leb lo n && leb n hi
in_range lo hi (negsuc n) = false

abbrev pub InRange : ℕ → ℕ → ℤ → Type 0
InRange lo hi (pos n) = (lo ≤ n) × (n ≤ hi)
InRange lo hi (negsuc n) = ⊥

pub in_range_iff : (lo hi : ℕ) (x : ℤ) → (in_range lo hi x ≡ true) ↔ InRange lo hi x
in_range_iff lo hi (pos n) = ground arith
in_range_iff lo hi (negsuc n) = ground arith

-- Reading a run of digits back, from the value `acc` read so far.
abbrev pub value_from : ℕ → Text → ℕ
value_from acc [] = acc
value_from acc (c ∷ s) = value_from (acc * 10 + (c - b'0')) s

value_from-decimal_from :
    (fuel n : ℕ) (rest : Text)
    → n < fuel
    → value_from 0 (decimal_from fuel n rest) ≡ value_from n rest
unfolding decimal_from
value_from-decimal_from zero n rest h = absurd (omega arith)
value_from-decimal_from (suc fuel) n rest h = elim (Bool-cases (ltb n 10)) [
  | inl small ↦ rw small (ap (λ k. value_from k rest) (omega arith))
  | inr large ↦ rw large (
      value_from-decimal_from fuel (n / 10) ((b'0' + n % 10) ∷ rest) (ground arith)
      ∙ ap (λ k. value_from k rest) (omega arith))
]

-- The fuel is enough: a printed number is read back as itself.
pub value_from-decimal : (n : ℕ) → value_from 0 (decimal n) ≡ n
unfolding decimal
value_from-decimal n = value_from-decimal_from (suc n) n [] (omega arith)

decimal_from-chars :
    (fuel n : ℕ) (rest : Text)
    → n < fuel
    → All (λ c. is_digit c ≡ true) rest
    → All (λ c. is_digit c ≡ true) (decimal_from fuel n rest)
unfolding decimal_from
decimal_from-chars zero n rest h k = absurd (omega arith)
decimal_from-chars (suc fuel) n rest h k = elim (Bool-cases (ltb n 10)) [
  | inl small ↦ rw small (ground arith, k)
  | inr large ↦
      let digit : is_digit (b'0' + n % 10) ≡ true = ground arith in
      rw large (decimal_from-chars fuel (n / 10) _ (ground arith) (digit, k))
]

decimal-chars : (n : ℕ) → All (λ c. is_digit c ≡ true) (decimal n)
unfolding decimal
decimal-chars n = decimal_from-chars (suc n) n [] (omega arith) tt

-- A printed integer is of digits, but for a minus sign in front.
pub decimal_int-chars : (n : ℤ) → All (λ c. (is_digit c || c == b'-') ≡ true) (decimal_int n)
unfolding decimal_int
decimal_int-chars (pos n) = All-map _ _ (λ c h. ground arith) _ (decimal-chars n)
decimal_int-chars (negsuc n) = (refl, All-map _ _ (λ c h. ground arith) _ (decimal-chars (suc n)))

decimal_test : decimal 1203 ≡ b'1' ∷ b'2' ∷ b'0' ∷ b'3' ∷ []
unfolding decimal
decimal_test = refl
