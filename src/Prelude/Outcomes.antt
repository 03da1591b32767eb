-- ===== src/Prelude/Outcomes.antt =====
-- What holds of the value of a chain that succeeds, along the shape of the chain.
use mathlib.Core.Path.{◌≡◌, refl}
use mathlib.Core.Bool.{Bool, true, false}
use microsoft_defender_mcp.Prelude.Tests.{if◌then◌else◌}
use microsoft_defender_mcp.Prelude.Results.{Result, ok, err, ◌>>=◌}

module _ {ℓ κ} {A : Type ℓ} {E : Type κ} (P : A → Type 0) where
  -- If the result is a value, the predicate holds of it.
  abbrev pub OnOk : Result A E → Type (ℓ ⊔ κ)
  OnOk r = (a : A) → r ≡ ok a → P a

  pub OnOk-ok : (a : A) → P a → OnOk (ok a)
  OnOk-ok a p b e = let same : a ≡ b = cc in rw (← same) p

  pub OnOk-err : (e : E) → OnOk (err e)
  OnOk-err e a h = absurd (cc)

  -- Each branch, under its condition.
  pub OnOk-if :
      (b : Bool) (x y : Result A E)
      → (b ≡ true → OnOk x)
      → (b ≡ false → OnOk y)
      → OnOk (if b then x else y)
  OnOk-if true x y hx hy = hx refl
  OnOk-if false x y hx hy = hy refl

  -- The rest of a chain, on the value of its first step.
  pub OnOk-bind {μ} :
      {B : Type μ} (m : Result B E) (k : B → Result A E)
      → ((b : B) → m ≡ ok b → OnOk (k b))
      → OnOk (m >>= k)
  OnOk-bind (ok b) k h = h b refl
  OnOk-bind (err e) k h = OnOk-err e
