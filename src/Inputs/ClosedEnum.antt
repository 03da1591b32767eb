-- ===== src/Inputs/ClosedEnum.antt =====
-- `closed_enum` of src/server.rs: an input enumeration is read from its exact spelling.
use microsoft_defender_mcp.Prelude.{
  String, ◌≡◌, ◌↔◌, inl, inr, Option, none, some, List, [], ◌∷◌, ◌++◌, map, arith, str_eq, eq_iff,
  if◌then◌else◌, Bool-cases, Option-cases, Result, ok, ok_or,
}
use microsoft_defender_mcp.Error.{join}
use microsoft_defender_mcp.Text.{Text, lit}

module _ {T : Type 0} (name : T → String) where
  unfoldable pub find_variant : List T → String → Option T
  find_variant [] value = none
  find_variant (v ∷ vs) value = if str_eq (name v) value then some v else find_variant vs value

  unfoldable pub closed_enum : (field : String) (variants : List T) (value : String) → Result T Text
  unfolding find_variant
  closed_enum field variants value =
      ok_or
        (lit "invalid "
          ++ (lit field
              ++ (lit " '"
                  ++ (lit value
                      ++ (lit "'; valid values: "
                          ++ join (lit ", ") (map (λ v. lit (name v)) variants))))))
        (find_variant variants value)

  find_variant_sound :
      (vs : List T) (value : String) (v : T) → find_variant vs value ≡ some v → name v ≡ value
  unfolding find_variant
  find_variant_sound [] value v h = cc
  find_variant_sound (w ∷ vs) value v h = elim (Bool-cases (str_eq (name w) value)) [
    | inl same ↦
        let e : some w ≡ some v = ground arith in
        let p = (eq_iff (name w) value).0 same in let q : w ≡ v = cc in rw (← q) p
    | inr other ↦ find_variant_sound vs value v (ground arith)
  ]

  pub closed_enum_sound :
      (field : String) (vs : List T) (value : String) (v : T)
      → closed_enum field vs value ≡ ok v
      → name v ≡ value
  unfolding closed_enum
  closed_enum_sound field vs value v h = elim (Option-cases (find_variant vs value)) [
    | inl missing ↦ absurd (ground arith)
    | inr (w, found) ↦
        let e : w ≡ v = ground arith in rw (← e) (find_variant_sound vs value w found)
  ]

  -- The variants are all listed under names of their own.
  abbrev pub RoundTrips : String → List T → Type 0
  RoundTrips field vs = (v : T) → closed_enum field vs (name v) ≡ ok v

  pub name_injective :
      (field : String) (vs : List T) → RoundTrips field vs → (a b : T) → name a ≡ name b → a ≡ b
  name_injective field vs trip a b e =
      let p = trip a in
      let q = trip b in let r : closed_enum field vs (name b) ≡ ok a = rw (← e) p in cc

  -- A spelling is read as a variant exactly when it is that variant's name.
  pub closed_enum_iff :
      (field : String) (vs : List T)
      → RoundTrips field vs
      → (value : String) (v : T) → (closed_enum field vs value ≡ ok v) ↔ (name v ≡ value)
  closed_enum_iff field vs trip value v =
      (closed_enum_sound field vs value v, λ e. rw (← e) (trip v))
