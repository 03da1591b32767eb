-- ===== src/Hunting/Commands.antt =====
-- Where a text holds a management command (`leading_dot`, `dot_statement_at` and `byte_offset` of
-- crates/kql-parser/src/policy.rs).
use microsoft_defender_mcp.Prelude.{
  ℕ, zero, suc, ◌+◌, ◌-◌, Bool, false, ◌&&◌, ◌||◌, Option, none, some, List, [], ◌∷◌, ltb, ◌==◌,
  if◌then◌else◌, length, take, is_empty,
}
use microsoft_defender_mcp.Text.{Text, lit, starts_with, ends_with, is_whitespace, trim_end}

-- The line and the column, from 1, in characters.
pub record Position : Type 0 where
  pub line : ℕ
  pub column : ℕ

abbrev put_first : ℕ → List Text → List Text
put_first c [] = (c ∷ []) ∷ []
put_first c (line ∷ lines) = (c ∷ line) ∷ lines

-- `split('\n')`
unfoldable pub split_lines : Text → List Text
split_lines [] = [] ∷ []
split_lines (c ∷ s) =
    let lines = split_lines s in if c == b'\n' then [] ∷ lines else put_first c lines

-- `trim_start_matches(|c| c.is_whitespace() || c == '\u{feff}')`
unfoldable pub trim_margin : Text → Text
trim_margin [] = []
trim_margin (c ∷ s) = if is_whitespace c || c == 65279 then trim_margin s else c ∷ s

-- The carriage return that `lines` cuts off is white space, and does not change where a line starts.
unfoldable leading_dot_from : ℕ → List Text → Option Position
unfolding trim_margin
leading_dot_from i [] = none
leading_dot_from i (line ∷ lines) =
    let trimmed = trim_margin line in
    let rest = leading_dot_from (suc i) lines in
    if is_empty trimmed || starts_with (lit "//") trimmed
    then rest
    else if starts_with (lit ".") trimmed
    then some (record { line = i + 1; column = length line - length trimmed + 1 })
    else none

unfoldable pub leading_dot : Text → Option Position
unfolding leading_dot_from split_lines
leading_dot text = leading_dot_from 0 (split_lines text)

-- Where a position is in the text, in characters (`byte_offset` counts the bytes up to there).
unfoldable offset_from : ℕ → ℕ → List Text → Position → Option ℕ
offset_from i start [] at = none
offset_from i start (line ∷ lines) at =
    let rest = offset_from (suc i) (start + length line + 1) lines at in
    if i + 1 == at.line
    then (if ltb (at.column - 1) (length line) then some (start + (at.column - 1)) else none)
    else rest

abbrev drop : ℕ → Text → Text
drop zero s = s
drop (suc n) [] = []
drop (suc n) (c ∷ s) = drop n s

unfoldable pub dot_statement_at : Text → Position → Bool
unfolding offset_from split_lines
dot_statement_at text at = elim (offset_from 0 0 (split_lines text) at) [
  | none ↦ false
  | some o ↦ starts_with (lit ".") (drop o text) && ends_with (lit ";") (trim_end (take o text))
]
