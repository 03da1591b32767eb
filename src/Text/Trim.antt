-- ===== src/Text/Trim.antt =====
-- What `str::trim` takes away and what it leaves.
use microsoft_defender_mcp.Prelude.{
  inr, inl, ◌≡◌, refl, ap, [], ◌∷◌, ◌++◌, true, false, arith, Bool-cases, all, All, all-eq-true_iff,
}
use microsoft_defender_mcp.Text.{Text, is_whitespace, trim_start, trim_end, trim}

-- No white space at the front.
abbrev pub StartsClean : Text → Type 0
StartsClean [] = Unit
StartsClean (c ∷ s) = is_whitespace c ≡ false

trim_start-StartsClean : (s : Text) → StartsClean (trim_start s)
unfolding trim_start
trim_start-StartsClean [] = tt
trim_start-StartsClean (c ∷ s) = ground (arith, trim_start-StartsClean s)

trim_start_of_StartsClean : (s : Text) → StartsClean s → trim_start s ≡ s
unfolding trim_start
trim_start_of_StartsClean [] h = refl
trim_start_of_StartsClean (c ∷ s) h = rw h

trim_end-StartsClean : (s : Text) → StartsClean s → StartsClean (trim_end s)
unfolding trim_end
trim_end-StartsClean [] h = tt
trim_end-StartsClean (c ∷ s) h = rw h h

all-trim_end : (s : Text) → all is_whitespace (trim_end s) ≡ all is_whitespace s
unfolding trim_end
all-trim_end [] = refl
all-trim_end (c ∷ s) = ground (arith, all-trim_end s)

trim_end_idem : (s : Text) → trim_end (trim_end s) ≡ trim_end s
unfolding trim_end
trim_end_idem [] = refl
trim_end_idem (c ∷ s) = ground (arith, all-trim_end s, trim_end_idem s)

-- Trimming a second time changes nothing.
pub trim_idem : (s : Text) → trim (trim s) ≡ trim s
unfolding trim
trim_idem s =
    let h = trim_start-StartsClean s in
    rw (trim_start_of_StartsClean _ (trim_end-StartsClean _ h)) (trim_end_idem (trim_start s))

trim_start-splits :
    (s : Text) → (pre : Text) × (s ≡ pre ++ trim_start s) × All (λ c. is_whitespace c ≡ true) pre
unfolding trim_start
trim_start-splits [] = ([], refl, tt)
trim_start-splits (c ∷ s) = elim (Bool-cases (is_whitespace c)) [
  | inl w ↦ let (pre, e, h) = trim_start-splits s in rw w (c ∷ pre, ap (λ t. c ∷ t) e, (w, h))
  | inr w ↦ rw w ([], refl, tt)
]

trim_end-splits :
    (s : Text) → (post : Text) × (s ≡ trim_end s ++ post) × All (λ c. is_whitespace c ≡ true) post
unfolding trim_end
trim_end-splits [] = ([], refl, tt)
trim_end-splits (c ∷ s) = elim (Bool-cases (all is_whitespace (c ∷ s))) [
  | inl w ↦ rw w (c ∷ s, refl, (all-eq-true_iff is_whitespace (c ∷ s)).0 w)
  | inr w ↦ let (post, e, h) = trim_end-splits s in rw w (post, ap (λ t. c ∷ t) e, h)
]

-- Only white space is cut off, at the two ends.
pub trim-splits :
    (s : Text)
    → (pre : Text) × (post : Text) × (s ≡ pre ++ (trim s ++ post))
      × All (λ c. is_whitespace c ≡ true) pre
      × All (λ c. is_whitespace c ≡ true) post
unfolding trim
trim-splits s =
    let (pre, e, h) = trim_start-splits s in
    let (post, f, k) = trim_end-splits (trim_start s) in (pre, post, rw (← f) e, h, k)

pub trim-StartsClean : (s : Text) → StartsClean (trim s)
unfolding trim
trim-StartsClean s = trim_end-StartsClean _ (trim_start-StartsClean s)
