-- ===== src/Client/Query.antt =====
-- The query of a request says what the parameters say.
use microsoft_defender_mcp.Prelude.{
  String, ◌≡◌, ◌≢◌, ◌↔◌, refl, All, inl, inr, Bool-cases, eq_iff, List, Bool, true, false, Option,
  none, some, [], ◌∷◌, arith, str_eq, if◌then◌else◌,
}
use microsoft_defender_mcp.Client.{pair_if, ODataParams, Query, to_query_vec, non_empty, counted}
use microsoft_defender_mcp.Text.{Text, lit}
use microsoft_defender_mcp.Text.Decimal.{ℤ, decimal_int}

-- All the values of a key.
abbrev pub found_under : String → Query → List Text
found_under key [] = []
found_under key ((k, v) ∷ query) =
    if str_eq k key then v ∷ found_under key query else found_under key query

-- What a parameter puts in the query: a given number in base ten, a given text that is not empty, and
-- the count where it is asked for.
pub data IsParameter (odata : ODataParams) : String → Text → Type 0 where
  top : (n : ℤ) → odata.top ≡ some n → IsParameter odata "$top" (decimal_int n)
  skip : (n : ℤ) → odata.skip ≡ some n → IsParameter odata "$skip" (decimal_int n)
  filter : (t : Text) → odata.filter ≡ some t → t ≢ [] → IsParameter odata "$filter" t
  select : (t : Text) → odata.select ≡ some t → t ≢ [] → IsParameter odata "$select" t
  expand : (t : Text) → odata.expand ≡ some t → t ≢ [] → IsParameter odata "$expand" t
  search : (t : Text) → odata.search ≡ some t → t ≢ [] → IsParameter odata "$search" t
  count : odata.count ≡ some true → IsParameter odata "$count" (lit "true")

All-pair_if :
    {A : Type 0} (P : String × Text → Type 0) (key : String) (show : A → Text) (given : Option A)
    (rest : Query)
    → ((a : A) → given ≡ some a → P (key, show a))
    → All P rest
    → All P (pair_if key show given rest)
All-pair_if P key show none rest here there = there
All-pair_if P key show (some a) rest here there = (here a refl, there)

non_empty_iff :
    (given : Option Text) (t : Text) → (non_empty given ≡ some t) ↔ ((given ≡ some t) × (t ≢ []))
non_empty_iff none t = ground arith
non_empty_iff (some []) t = ground arith
non_empty_iff (some (c ∷ s)) t = ground arith

counted_iff :
    (given : Option Bool) (t : Text)
    → (counted given ≡ some t) ↔ ((given ≡ some true) × (t ≡ lit "true"))
counted_iff none t = ground arith
counted_iff (some true) t = ground arith
counted_iff (some false) t = ground arith

module _ (odata : ODataParams) where
  abbrev IsPair : String × Text → Type 0
  IsPair pair = IsParameter odata pair.0 pair.1

  each-IsParameter : All IsPair (to_query_vec odata)
  unfolding to_query_vec
  each-IsParameter =
      let text = λ (key : String). All-pair_if IsPair key (λ v. v) in
      let given = λ (field : Option Text) (v : Text). (non_empty_iff field v).0 in
      All-pair_if IsPair "$top" decimal_int odata.top _ top (
        All-pair_if IsPair "$skip" decimal_int odata.skip _ skip (
          text "$filter" _ _ (λ v e. let (g, n) = given odata.filter v e in filter v g n)
            (text "$select" _ _ (λ v e. let (g, n) = given odata.select v e in select v g n)
              (text "$expand" _ _ (λ v e. let (g, n) = given odata.expand v e in expand v g n)
                (text "$search" _ _ (λ v e. let (g, n) = given odata.search v e in search v g n)
                  (text "$count" _ _
                    (λ v e. let (g, same) = (counted_iff odata.count v).0 e in rw same (count g))
                    tt))))))

  query_sound :
      (query : Query) (key : String) (value : Text)
      → All IsPair query
      → found_under key query ≡ value ∷ []
      → IsParameter odata key value
  query_sound [] key value h e = absurd (cc)
  query_sound ((k, v) ∷ query) key value h e = elim (Bool-cases (str_eq k key)) [
    | inl here ↦
        let same : k ≡ key = (eq_iff k key).0 here in
        let listed : v ∷ found_under key query ≡ value ∷ [] = rw here at e in
        let first : v ≡ value = ground arith in rw (← same, ← first) h.0
    | inr there ↦ query_sound query key value h.1 (rw there at e)
  ]

  query_complete :
      (key : String) (value : Text)
      → IsParameter odata key value
      → found_under key (to_query_vec odata) ≡ value ∷ []
  unfolding to_query_vec
  query_complete key value (top n e) = ground arith
  query_complete key value (skip n e) = ground arith
  query_complete key value (filter t e h) =
      let x = (non_empty_iff odata.filter t).1 (e, h) in ground arith
  query_complete key value (select t e h) =
      let x = (non_empty_iff odata.select t).1 (e, h) in ground arith
  query_complete key value (expand t e h) =
      let x = (non_empty_iff odata.expand t).1 (e, h) in ground arith
  query_complete key value (search t e h) =
      let x = (non_empty_iff odata.search t).1 (e, h) in ground arith
  query_complete key value (count e) = ground arith

  -- Every pair of the query is one that a parameter gives; and a key has one value in the query, and a
  -- certain one, exactly if a parameter gives it that value: a given number in base ten, a given text
  -- that is not empty, and the count where it is asked for, each under its key.
  pub to_query_vec_values :
      (key : String) (value : Text)
      → All (λ pair. IsParameter odata pair.0 pair.1) (to_query_vec odata)
        × ((found_under key (to_query_vec odata) ≡ value ∷ []) ↔ IsParameter odata key value)
  to_query_vec_values key value = (
    each-IsParameter,
    (query_sound (to_query_vec odata) key value each-IsParameter, query_complete key value),
  )
