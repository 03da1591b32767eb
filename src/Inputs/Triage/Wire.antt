-- ===== src/Inputs/Triage/Wire.antt =====
-- The spellings of the triage enumerations, in the input and on the wire.
use microsoft_defender_mcp.Prelude.{String, ◌≡◌, refl, ◌≢◌, ◌↔◌, true, arith, ok, is_ok}
use microsoft_defender_mcp.Inputs.ClosedEnum.{
  closed_enum, RoundTrips, closed_enum_iff, name_injective,
}
use microsoft_defender_mcp.Inputs.Triage.{
  TriageTarget, mde_alert_patch, mde_alert_batch, xdr_alert, xdr_incident, TriageStatus, new,
  active, redirected, statuses, status_str, read_status, status_wire, Classification, true_positive,
  classifications, classification_str, read_classification, classification_wire, Determination,
  multi_staged_attack, determinations, determination_str, read_determination, determination_wire,
}

status_trips : (v : TriageStatus) → read_status (status_str v) ≡ ok v
unfolding read_status
status_trips new = refl
status_trips _ = refl

classification_trips : (v : Classification) → read_classification (classification_str v) ≡ ok v
unfolding read_classification
classification_trips true_positive = refl
classification_trips _ = refl

determination_trips : (v : Determination) → read_determination (determination_str v) ≡ ok v
unfolding read_determination
determination_trips multi_staged_attack = refl
determination_trips _ = refl

-- Each enumeration of the triage actions is read exactly from the names of its values.
pub triage_enums_iff :
    ((s : String) (v : TriageStatus) → (read_status s ≡ ok v) ↔ (status_str v ≡ s))
    × ((s : String) (v : Classification)
        → (read_classification s ≡ ok v) ↔ (classification_str v ≡ s))
    × ((s : String) (v : Determination) → (read_determination s ≡ ok v) ↔ (determination_str v ≡ s))
unfolding read_status read_classification read_determination
triage_enums_iff = (
  closed_enum_iff status_str "status" statuses status_trips,
  closed_enum_iff classification_str "classification" classifications classification_trips,
  closed_enum_iff determination_str "determination" determinations determination_trips,
)

-- A wire spelling is read back by the same search, over the wire names of the target.
determination_wire_trips :
    (t : TriageTarget) → RoundTrips (determination_wire t) "determination" determinations
unfolding closed_enum determination_wire
determination_wire_trips mde_alert_patch multi_staged_attack = refl
determination_wire_trips mde_alert_patch _ = refl
determination_wire_trips mde_alert_batch multi_staged_attack = refl
determination_wire_trips mde_alert_batch _ = refl
determination_wire_trips xdr_alert multi_staged_attack = refl
determination_wire_trips xdr_alert _ = refl
determination_wire_trips xdr_incident multi_staged_attack = refl
determination_wire_trips xdr_incident _ = refl

classification_wire_trips :
    (t : TriageTarget) → RoundTrips (classification_wire t) "classification" classifications
unfolding closed_enum classification_wire
classification_wire_trips mde_alert_patch true_positive = refl
classification_wire_trips mde_alert_patch _ = refl
classification_wire_trips mde_alert_batch true_positive = refl
classification_wire_trips mde_alert_batch _ = refl
classification_wire_trips xdr_alert true_positive = refl
classification_wire_trips xdr_alert _ = refl
classification_wire_trips xdr_incident true_positive = refl
classification_wire_trips xdr_incident _ = refl

-- For every target, different determinations and different classifications are sent under different
-- names, so that nothing is lost on the wire.
pub wire_injective :
    (t : TriageTarget)
    → ((a b : Determination) → determination_wire t a ≡ determination_wire t b → a ≡ b)
      × ((a b : Classification) → classification_wire t a ≡ classification_wire t b → a ≡ b)
wire_injective t = (
  name_injective (determination_wire t) "determination" determinations (determination_wire_trips t),
  name_injective (classification_wire t) "classification" classifications
      (classification_wire_trips t),
)

-- The statuses that a target takes.
abbrev pub Supports : TriageTarget → TriageStatus → Type 0
Supports xdr_incident s = s ≢ new
Supports _ s = (s ≢ active) × (s ≢ redirected)

-- A status has a wire name for a target exactly when the target takes it: XDR incidents take all but
-- `new`, the other targets all but `active` and `redirected`.
pub status_wire_iff :
    (t : TriageTarget) (s : TriageStatus) → (is_ok (status_wire s t) ≡ true) ↔ Supports t s
unfolding status_wire
status_wire_iff mde_alert_patch new = ground arith
status_wire_iff mde_alert_batch new = ground arith
status_wire_iff xdr_alert new = ground arith
status_wire_iff xdr_incident new = ground arith
status_wire_iff _ _ = ground arith
