-- ===== src/Validation/Odata.antt =====
-- Paging parameters and look-back hours (src/validation.rs), over 32-bit signed integers.
use microsoft_defender_mcp.Prelude.{
  >>=-eq-ok, ◌>>◌, ℕ, String, ◌≡◌, refl, ◌↔◌, not, Option, none, some, ◌++◌, arith, Result, ok,
  refuse,
}
use microsoft_defender_mcp.Constants.{max_top, endpoint_max_top, max_skip, max_look_back_hours}
use microsoft_defender_mcp.Json.{ErrorData, invalid_params}
use microsoft_defender_mcp.Text.{lit}
use microsoft_defender_mcp.Text.Decimal.{ℤ, decimal, decimal_int, in_range, InRange, in_range_iff}

-- `name must be between lo and hi, got x`, where `x` is given and outside.
abbrev check_range : String → ℕ → ℕ → Option ℤ → Result (Unit {0}) ErrorData
check_range name lo hi none = ok tt
check_range name lo hi (some x) = refuse (not (in_range lo hi x)) (
    invalid_params (
      lit name
      ++ (lit " must be between "
          ++ (decimal lo ++ (lit " and " ++ (decimal hi ++ (lit ", got " ++ decimal_int x)))))))

unfoldable pub validate_top : Option ℤ → Result (Unit {0}) ErrorData
validate_top top = check_range "top" 1 max_top top

unfoldable pub validate_endpoint_top : Option ℤ → Result (Unit {0}) ErrorData
validate_endpoint_top top = check_range "top" 1 endpoint_max_top top

unfoldable pub validate_skip : Option ℤ → Result (Unit {0}) ErrorData
validate_skip skip = check_range "skip" 0 max_skip skip

unfoldable pub validate_odata_params : (top skip : Option ℤ) → Result (Unit {0}) ErrorData
unfolding validate_top validate_skip
validate_odata_params top skip = do validate_top top; validate_skip skip; ok tt

unfoldable pub validate_endpoint_odata_params : (top skip : Option ℤ) → Result (Unit {0}) ErrorData
unfolding validate_endpoint_top validate_skip
validate_endpoint_odata_params top skip = do validate_endpoint_top top; validate_skip skip; ok tt

unfoldable pub validate_look_back_hours : Option ℤ → Result (Unit {0}) ErrorData
validate_look_back_hours none = ok tt
validate_look_back_hours (some h) =
    refuse (not (in_range 1 max_look_back_hours h))
      (invalid_params (lit "look_back_hours must be between 1 and " ++ decimal max_look_back_hours))

-- Absent, or within the bounds.
abbrev pub IsWithin : ℕ → ℕ → Option ℤ → Type 0
IsWithin lo hi none = Unit
IsWithin lo hi (some x) = InRange lo hi x

check_range_iff :
    (name : String) (lo hi : ℕ) (x : Option ℤ)
    → (check_range name lo hi x ≡ ok tt) ↔ IsWithin lo hi x
check_range_iff name lo hi none = (λ _. tt, λ _. refl)
check_range_iff name lo hi (some x) =
    let r = in_range_iff lo hi x in
    (λ e. r.0 (ground arith), λ h. let inside = r.1 h in ground arith)

-- Paging parameters are accepted exactly if each is absent or within its bounds: `top` from 1 to 1000
-- for Graph and to 10000 for the endpoint API, `skip` from 0 to 100000.
pub validate_odata_params_iff :
    (top skip : Option ℤ)
    → ((validate_odata_params top skip ≡ ok tt) ↔ (IsWithin 1 1000 top × IsWithin 0 100000 skip))
      × ((validate_endpoint_odata_params top skip ≡ ok tt)
          ↔ (IsWithin 1 10000 top × IsWithin 0 100000 skip))
unfolding validate_odata_params validate_endpoint_odata_params
validate_odata_params_iff top skip =
    let g = check_range_iff "top" 1 1000 top in
    let e = check_range_iff "top" 1 10000 top in
    let s = check_range_iff "skip" 0 100000 skip in
    (
      (
        λ h.
            let (_, a, rest) = >>=-eq-ok _ (validate_top top) h in
            let (_, b, _) = >>=-eq-ok _ (validate_skip skip) rest in (g.0 a, s.0 b),
        λ h. rw (g.1 h.0, s.1 h.1),
      ),
      (
        λ h.
            let (_, a, rest) = >>=-eq-ok _ (validate_endpoint_top top) h in
            let (_, b, _) = >>=-eq-ok _ (validate_skip skip) rest in (e.0 a, s.0 b),
        λ h. rw (e.1 h.0, s.1 h.1),
      ),
    )

-- Look-back hours are accepted exactly if they are absent or from 1 to 720.
pub validate_look_back_hours_iff :
    (hours : Option ℤ) → (validate_look_back_hours hours ≡ ok tt) ↔ IsWithin 1 720 hours
unfolding validate_look_back_hours
validate_look_back_hours_iff none = (λ _. tt, λ _. refl)
validate_look_back_hours_iff (some h) =
    let r = in_range_iff 1 720 h in
    (λ e. r.0 (ground arith), λ k. let inside = r.1 k in ground arith)
