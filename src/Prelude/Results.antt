-- ===== src/Prelude/Results.antt =====
-- Rust's `Result`, with the chain that `?` makes.
use mathlib.Core.Path.{◌≡◌, refl}
use mathlib.Core.Logic.{◌⊎◌, inl, inr}
use mathlib.Core.Bool.{Bool, true, false}
use mathlib.Core.Option.{Option, none, some}

pub data Result {ℓ κ} (A : Type ℓ) (E : Type κ) : Type (ℓ ⊔ κ) where
  ok : A → Result A E
  err : E → Result A E

infixl 5 ◌>>=◌
abbrev pub ◌>>=◌ {ℓ κ μ} :
    {A : Type ℓ} {B : Type κ} {E : Type μ} → Result A E → (A → Result B E) → Result B E
err why >>= k = err why
ok value >>= k = k value

module _ {ℓ κ μ} {A : Type ℓ} {B : Type κ} {E : Type μ} (k : A → Result B E) {last : B} where
  -- A chain that succeeds has a first step that does, and the rest succeeds on its value.
  pub >>=-eq-ok :
      (first : Result A E)
      → (first >>= k) ≡ ok last
      → (value : A) × (first ≡ ok value) × (k value ≡ ok last)
  >>=-eq-ok (err why) chained = cc
  >>=-eq-ok (ok value) chained = (value, refl, chained)

infixl 5 ◌>>◌
abbrev pub ◌>>◌ {κ μ} : {B : Type κ} {E : Type μ} → Result (Unit {0}) E → Result B E → Result B E
m >> k = m >>= λ _. k

-- `if cond { return Err(e); }`
abbrev pub refuse {μ} : {E : Type μ} → Bool → E → Result (Unit {0}) E
refuse true e = err e
refuse false e = ok tt

abbrev pub map_err {ℓ μ ν} :
    {A : Type ℓ} {E : Type μ} {F : Type ν} → (E → F) → Result A E → Result A F
map_err f (ok a) = ok a
map_err f (err e) = err (f e)

abbrev pub is_ok {ℓ μ} : {A : Type ℓ} {E : Type μ} → Result A E → Bool
is_ok (ok a) = true
is_ok (err e) = false

pub Result-cases {ℓ μ} :
    {A : Type ℓ} {E : Type μ} (r : Result A E) → ((a : A) × (r ≡ ok a)) ⊎ ((e : E) × (r ≡ err e))
Result-cases (ok a) = inl (a, refl)
Result-cases (err e) = inr (e, refl)

-- `Option::ok_or_else`
abbrev pub ok_or {ℓ μ} : {A : Type ℓ} {E : Type μ} → E → Option A → Result A E
ok_or e none = err e
ok_or e (some a) = ok a

abbrev pub unwrap_or {ℓ} : {A : Type ℓ} → A → Option A → A
unwrap_or d none = d
unwrap_or d (some a) = a
