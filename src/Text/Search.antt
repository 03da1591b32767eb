-- ===== src/Text/Search.antt =====
-- What the comparisons and the searches in a text decide.
use microsoft_defender_mcp.Prelude.{
  ◌≡◌, refl, ap, ◌↔◌, inl, inr, [], ◌∷◌, ◌++◌, true, arith, Bool-cases,
}
use microsoft_defender_mcp.Text.{Text, text_eq, starts_with, contains}

pub text_eq_iff : (s t : Text) → (text_eq s t ≡ true) ↔ (s ≡ t)
unfolding text_eq
text_eq_iff [] [] = (λ _. refl, λ _. refl)
text_eq_iff [] (b ∷ t) = ground arith
text_eq_iff (a ∷ s) [] = ground arith
text_eq_iff (a ∷ s) (b ∷ t) = ground (arith, text_eq_iff s t)

starts_with_sound : (p s : Text) → starts_with p s ≡ true → (v : Text) × (s ≡ p ++ v)
unfolding starts_with
starts_with_sound [] s h = (s, refl)
starts_with_sound (p ∷ ps) [] h = cc
starts_with_sound (p ∷ ps) (c ∷ s) h =
    let (v, e) = starts_with_sound ps s (ground arith) in (v, ground (arith, e))

starts_with_complete : (p v : Text) → starts_with p (p ++ v) ≡ true
unfolding starts_with
starts_with_complete [] v = refl
starts_with_complete (p ∷ ps) v = ground (arith, starts_with_complete ps v)

-- `contains` finds exactly the texts that stand somewhere inside.
contains_sound : (p s : Text) → contains p s ≡ true → (u : Text) × (v : Text) × (s ≡ u ++ (p ++ v))
unfolding contains
contains_sound p [] h = let (v, e) = starts_with_sound p [] h in ([], v, e)
contains_sound p (c ∷ s) h = elim (Bool-cases (starts_with p (c ∷ s))) [
  | inl here ↦ let (v, e) = starts_with_sound p (c ∷ s) here in ([], v, e)
  | inr later ↦ let (u, v, e) = contains_sound p s (ground arith) in (c ∷ u, v, ap (λ t. c ∷ t) e)
]

contains_complete : (p u v : Text) → contains p (u ++ (p ++ v)) ≡ true
unfolding contains
contains_complete [] [] [] = refl
contains_complete [] [] (c ∷ v) = refl
contains_complete (p ∷ ps) [] v = rw (starts_with_complete (p ∷ ps) v)
contains_complete p (c ∷ u) v = ground (arith, contains_complete p u v)

pub contains_iff :
    (p s : Text) → (contains p s ≡ true) ↔ ((u : Text) × (v : Text) × (s ≡ u ++ (p ++ v)))
contains_iff p s = (contains_sound p s, λ h. let (u, v, e) = h in rw e (contains_complete p u v))
