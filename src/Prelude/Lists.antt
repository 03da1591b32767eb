-- ===== src/Prelude/Lists.antt =====
-- Lists over the native numbers, the tests `any` and `all`, and the predicates that they decide.
use Prim.Native.Nat.{ℕ, zero, suc, ◌+◌, ◌≤◌, ◌<◌}
use mathlib.Core.Path.{◌≡◌, refl, ap}
use mathlib.Core.Logic.{◌↔◌, ◌⊎◌, ◌≢◌}
use mathlib.Core.Bool.{Bool, true, false, ◌&&◌, ◌||◌}
use mathlib.Core.List.{List, [], ◌∷◌, ◌++◌, map}
use native.Mathlib.Omega.{arith}

module _ {ℓ} {A : Type ℓ} where
  abbrev pub length : List A → ℕ
  length [] = 0
  length (x ∷ xs) = suc (length xs)

  abbrev pub take : ℕ → List A → List A
  take zero xs = []
  take (suc n) [] = []
  take (suc n) (x ∷ xs) = x ∷ take n xs

  abbrev pub any : (A → Bool) → List A → Bool
  any p [] = false
  any p (x ∷ xs) = p x || any p xs

  abbrev pub all : (A → Bool) → List A → Bool
  all p [] = true
  all p (x ∷ xs) = p x && all p xs

  abbrev pub is_empty : List A → Bool
  is_empty [] = true
  is_empty (x ∷ xs) = false

  abbrev pub All {κ} : (A → Type κ) → List A → Type κ
  All P [] = Unit
  All P (x ∷ xs) = P x × All P xs

  -- Two lists of one length, with related members.
  abbrev pub Each {κ} : {B : Type κ} → (A → B → Type 0) → List A → List B → Type 0
  Each R [] [] = Unit
  Each R (x ∷ xs) (y ∷ ys) = R x y × Each R xs ys
  Each R _ _ = ⊥

  abbrev pub Any : (A → Type 0) → List A → Type 0
  Any P [] = ⊥
  Any P (x ∷ xs) = P x ⊎ Any P xs

module _ {ℓ} {A : Type ℓ} where
  pub length-append : (xs ys : List A) → length (xs ++ ys) ≡ length xs + length ys
  length-append [] ys = omega arith
  length-append (x ∷ xs) ys = omega (arith, length-append xs ys)

  pub All-append {κ} : (P : A → Type κ) (xs ys : List A) → All P xs → All P ys → All P (xs ++ ys)
  All-append P [] ys h k = k
  All-append P (x ∷ xs) ys h k = (h.0, All-append P xs ys h.1 k)

  pub any-eq-false_iff :
      (p : A → Bool) (xs : List A) → (any p xs ≡ false) ↔ All (λ x. p x ≡ false) xs
  any-eq-false_iff p [] = (λ _. tt, λ _. refl)
  any-eq-false_iff p (x ∷ xs) = ground (arith, any-eq-false_iff p xs)

  pub all-eq-true_iff : (p : A → Bool) (xs : List A) → (all p xs ≡ true) ↔ All (λ x. p x ≡ true) xs
  all-eq-true_iff p [] = (λ _. tt, λ _. refl)
  all-eq-true_iff p (x ∷ xs) = ground (arith, all-eq-true_iff p xs)

  pub All-map {κ μ} :
      (P : A → Type κ) (Q : A → Type μ) (f : (x : A) → P x → Q x) (xs : List A)
      → All P xs
      → All Q xs
  All-map P Q f [] h = tt
  All-map P Q f (x ∷ xs) h = (f x h.0, All-map P Q f xs h.1)

  pub append-empty_iff : (xs ys : List A) → (xs ++ ys ≡ []) ↔ ((xs ≡ []) × (ys ≡ []))
  append-empty_iff [] ys = ground arith
  append-empty_iff (x ∷ xs) ys = ground arith

  pub is_empty-eq-true_iff : (xs : List A) → (is_empty xs ≡ true) ↔ (xs ≡ [])
  is_empty-eq-true_iff [] = ground arith
  is_empty-eq-true_iff (x ∷ xs) = ground arith

  pub is_empty-eq-false_iff : (xs : List A) → (is_empty xs ≡ false) ↔ (xs ≢ [])
  is_empty-eq-false_iff [] = ground arith
  is_empty-eq-false_iff (x ∷ xs) = ground arith

  pub any-append : (p : A → Bool) (xs ys : List A) → any p (xs ++ ys) ≡ (any p xs || any p ys)
  any-append p [] ys = refl
  any-append p (x ∷ xs) ys = ground (arith, any-append p xs ys)

  pub length-map {κ} : {B : Type κ} (f : A → B) (xs : List A) → length (map f xs) ≡ length xs
  length-map f [] = refl
  length-map f (x ∷ xs) = ap suc (length-map f xs)

  pub length-take-all : (n : ℕ) (xs : List A) → length xs ≤ n → length (take n xs) ≡ length xs
  length-take-all zero [] h = refl
  length-take-all zero (x ∷ xs) h = absurd (omega (arith, h))
  length-take-all (suc n) [] h = refl
  length-take-all (suc n) (x ∷ xs) h = ap suc (length-take-all n xs (omega arith))

  pub length-take-cut : (n : ℕ) (xs : List A) → n < length xs → length (take n xs) ≡ n
  length-take-cut zero xs h = refl
  length-take-cut (suc n) [] h = absurd (omega (arith, h))
  length-take-cut (suc n) (x ∷ xs) h = ap suc (length-take-cut n xs (omega arith))

  pub Each-map {κ} :
      {B : Type κ} (R : A → B → Type 0) (f : A → B)
      → ((x : A) → R x (f x))
      → (xs : List A) → Each R xs (map f xs)
  Each-map R f h [] = tt
  Each-map R f h (x ∷ xs) = (h x, Each-map R f h xs)

  pub take-splits : (n : ℕ) (xs : List A) → (rest : List A) × (xs ≡ take n xs ++ rest)
  take-splits zero xs = (xs, refl)
  take-splits (suc n) [] = ([], refl)
  take-splits (suc n) (x ∷ xs) =
      let (rest, same) = take-splits n xs in (rest, ap (λ ys. x ∷ ys) same)
