-- ===== src/Server/Triage/Bodies.antt =====
-- What the bodies of the triage requests say.
use microsoft_defender_mcp.Prelude.{
  String, ◌≡◌, refl, ap, ◌∙◌, true, false, ◌||◌, Option, none, some, List, [], ◌∷◌, map, str_eq,
  Bool-cases, inl, inr,
}
use microsoft_defender_mcp.Inputs.Triage.{TriageInput}
use microsoft_defender_mcp.Json.{arr, Json, Fields, end, get, get_field, str, cons, array}
use microsoft_defender_mcp.Server.Tools.{optional_field, texts}
use microsoft_defender_mcp.Server.Triage.{changed_fields, update_body, batch_body, wire_status}
use microsoft_defender_mcp.Text.{Text}

-- A given text as it stands in a body.
abbrev pub as_given : Option Text → Option Json
as_given none = none
as_given (some t) = some (str t)

-- What a body says of the comment and of the owner: what was given, as it was given.
pub record Says (input : TriageInput) (body : Json) : Type 0 where
  pub comment : get "comment" body ≡ as_given input.comment
  pub assigned_to : get "assignedTo" body ≡ as_given input.assigned_to

-- Another optional field does not change what is found under a key.
passes :
    {A : Type 0} (key other : String) (make : A → Json) (given : Option A) (rest : Fields)
    → str_eq other key ≡ false
    → get_field key (optional_field other make given rest) ≡ get_field key rest
unfolding get_field
passes key other make none rest h = refl
passes key other make (some a) rest h = rw h refl

finds :
    (key : String) (given : Option Text) (rest : Fields)
    → str_eq key key ≡ true
    → get_field key rest ≡ none
    → get_field key (optional_field key str given rest) ≡ as_given given
unfolding get_field
finds key none rest same h = h
finds key (some t) rest same h = rw same refl

module _ (input : TriageInput) (tags : Fields → Fields)
    (others : (key : String) (rest : Fields)
      → str_eq "customTags" key ≡ false
      → get_field key (tags rest) ≡ get_field key rest) where
  comment_said : get_field "comment" (changed_fields input tags) ≡ as_given input.comment
  unfolding changed_fields get_field
  comment_said =
      passes "comment" "assignedTo" _ input.assigned_to _ refl
      ∙ (passes "comment" "classification" _ input.classification _ refl
          ∙ finds "comment" input.comment _ refl (
              others "comment" _ refl
              ∙ (passes "comment" "determination" _ input.determination _ refl
                  ∙ passes "comment" "status" _ (wire_status input) end refl)))

  owner_said : get_field "assignedTo" (changed_fields input tags) ≡ as_given input.assigned_to
  unfolding changed_fields get_field
  owner_said = finds "assignedTo" input.assigned_to _ refl (
      passes "assignedTo" "classification" _ input.classification _ refl
      ∙ (passes "assignedTo" "comment" _ input.comment _ refl
          ∙ (others "assignedTo" _ refl
              ∙ (passes "assignedTo" "determination" _ input.determination _ refl
                  ∙ passes "assignedTo" "status" _ (wire_status input) end refl))))

pub update_body-Says : (input : TriageInput) → Says input (update_body input)
unfolding update_body get get_field
update_body-Says input =
    let others = λ (key : String) (rest : Fields).
      passes key "customTags" (λ ts. arr (texts ts)) input.tags rest in
    let c = comment_said input _ others in
    let o = owner_said input _ others in
    elim (Bool-cases
      (str_eq input.action "xdr_alert_comment" || str_eq input.action "xdr_incident_comment")) [
        | inl typed ↦ record { comment = rw typed c; assigned_to = rw typed o }
        | inr plain ↦ record { comment = rw plain c; assigned_to = rw plain o }
      ]

pub batch_body-Says : (input : TriageInput) (ids : List Text) → Says input (batch_body input ids)
unfolding batch_body get get_field
batch_body-Says input ids = record {
  comment = comment_said input (λ rest. rest) (λ key rest h. refl);
  assigned_to = owner_said input (λ rest. rest) (λ key rest h. refl);
}

pub ids_listed : (ids : List Text) → texts ids ≡ array (map str ids)
ids_listed [] = refl
ids_listed (t ∷ ts) = ap (cons (str t)) (ids_listed ts)
