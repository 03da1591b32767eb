-- ===== src/Confirm/Answers.antt =====
-- What counts as a confirmation, and what of a request is shown.
use microsoft_defender_mcp.Prelude.{
  ℕ, zero, suc, ◌≤◌, ◌≡◌, refl, ap, ◌∙◌, ◌↔◌, ◌⊎◌, inl, inr, true, false, some, [], ◌∷◌, ◌++◌,
  arith, ltb, Bool-cases, Option-cases, Result, ok, err, unwrap_or, length, take, length-append,
}
use microsoft_defender_mcp.Audit.{accepted, declined}
use microsoft_defender_mcp.Confirm.{ElicitResult, accept, map_elicitation_result, truncate_ellipsis}
use microsoft_defender_mcp.Json.{Json, Fields, boolean, get_field, as_bool}
use microsoft_defender_mcp.Text.{Text, lit}

-- The user accepted the form, and its content says `confirm: true`.
pub record SaysYes (res : ElicitResult) : Type 0 where
  pub action : res.action ≡ accept
  pub content :
      (fs : Fields) × (res.content ≡ some fs) × (get_field "confirm" fs ≡ some (boolean true))

is_true : (v : Json) → unwrap_or false (as_bool v) ≡ true → v ≡ boolean true
is_true v h = ground arith

accepted_iff :
    (E : Type 0) (res : ElicitResult)
    → (map_elicitation_result {E = E} (ok res) ≡ accepted)
      ↔ ((res' : ElicitResult) × (res ≡ res') × SaysYes res')
unfolding map_elicitation_result
accepted_iff E res = (
  λ h. elim (Option-cases res.content) [
    | inl missing ↦ absurd (ground arith)
    | inr (fs, given) ↦ elim (Option-cases (get_field "confirm" fs)) [
      | inl missing ↦ absurd (ground arith)
      | inr (v, found) ↦ (
        res,
        refl,
        record {
          action = ground arith;
          content = (fs, given, found ∙ ap some (is_true v (ground arith)));
        },
      )
    ]
  ],
  λ h.
      let (res', same, said) = h in
      let (fs, given, found) = said.content in
      let a = said.action in rw same (rw (a, given, found) refl),
)

-- An answer counts as a confirmation exactly if the user accepted the form and its content holds
-- `confirm: true`; every other answer, and every error, declines.
pub map_elicitation_result_iff :
    {E : Type 0} (r : Result ElicitResult E)
    → ((map_elicitation_result r ≡ accepted) ↔ ((res : ElicitResult) × (r ≡ ok res) × SaysYes res))
      × ((map_elicitation_result r ≡ accepted) ⊎ (map_elicitation_result r ≡ declined))
unfolding map_elicitation_result
map_elicitation_result_iff (err e) = ((λ h. absurd (cc), λ h. absurd (ground arith)), inr refl)
map_elicitation_result_iff {E = E} (ok res) = (
  (
    λ h. let (res', same, said) = (accepted_iff E res).0 h in (res', ap ok same, said),
    λ h. let (res', same, said) = h in (accepted_iff E res).1 (res', cc, said),
  ),
  ground arith,
)

length-take-le : (n : ℕ) (s : Text) → length (take n s) ≤ n
length-take-le zero s = omega arith
length-take-le (suc n) [] = omega arith
length-take-le (suc n) (c ∷ s) = omega (arith, length-take-le n s)

take-prefix : (n : ℕ) (s : Text) → (rest : Text) × (s ≡ take n s ++ rest)
take-prefix zero s = (s, refl)
take-prefix (suc n) [] = ([], refl)
take-prefix (suc n) (c ∷ s) = let (rest, e) = take-prefix n s in (rest, ap (λ t. c ∷ t) e)

-- A shown value is the value itself where it is short enough, and else its first characters and an
-- ellipsis: it has at most one character more than the limit.
pub truncate_ellipsis_bounds :
    (s : Text) (max_chars : ℕ)
    → (length (truncate_ellipsis s max_chars) ≤ suc max_chars)
      × ((truncate_ellipsis s max_chars ≡ s)
          ⊎ ((rest : Text) × (s ≡ take max_chars s ++ rest)
              × (truncate_ellipsis s max_chars ≡ take max_chars s ++ lit "…")))
unfolding truncate_ellipsis lit
truncate_ellipsis_bounds s max_chars = elim (Bool-cases (ltb max_chars (length s))) [
  | inr short ↦ rw short (ground arith, inl refl)
  | inl long ↦
      let (rest, e) = take-prefix max_chars s in
      rw long (
        omega (arith, length-take-le max_chars s, length-append (take max_chars s) (lit "…")),
        inr (rest, e, refl),
      )
]
