-- ===== src/Server/Device/Rules.antt =====
-- Which fields each device action takes.
use microsoft_defender_mcp.Prelude.{
  String, ◌≡◌, ◌↔◌, ◌⊎◌, inl, inr, true, false, none, List, [], ◌∷◌, arith, str_eq, eq_iff,
  Bool-cases, all, All,
}
use microsoft_defender_mcp.Inputs.Device.{DeviceResponseInput}
use microsoft_defender_mcp.Server.Device.{device_response_actions, unused_field, contains_str}

-- Every field that is given is one that the action takes.
pub record TakesFields (input : DeviceResponseInput) : Type 0 where
  pub machine_id : (input.machine_id ≡ none) ⊎ (str_eq input.action "cancel_machine_action" ≡ false)
  pub action_id : (input.action_id ≡ none) ⊎ (str_eq input.action "cancel_machine_action" ≡ true)
  pub isolation_type : (input.isolation_type ≡ none) ⊎ (str_eq input.action "isolate" ≡ true)
  pub scan_type : (input.scan_type ≡ none) ⊎ (str_eq input.action "run_av_scan" ≡ true)
  pub tag :
      (input.tag ≡ none)
      ⊎ (str_eq input.action "tag_add" ≡ true)
      ⊎ (str_eq input.action "tag_remove" ≡ true)
  pub device_value : (input.device_value ≡ none) ⊎ (str_eq input.action "set_device_value" ≡ true)

abbrev Agrees : DeviceResponseInput → String → Type 0
Agrees input name =
    let named = record input { action = name } in (unused_field named ≡ none) ↔ TakesFields named

each-Agrees : (input : DeviceResponseInput) → All (Agrees input) device_response_actions
unfolding unused_field
each-Agrees input = ground arith

pub pick {ℓ} :
    (P : String → Type ℓ) (names : List String) (name : String)
    → contains_str names name ≡ true
    → All P names
    → P name
pick P [] name h all = absurd (cc)
pick P (n ∷ names) name h all = elim (Bool-cases (str_eq n name)) [
  | inl same ↦ rw (← (eq_iff n name).0 same) all.0
  | inr other ↦ pick P names name (ground arith) all.1
]

-- A known action is refused for an unused field exactly if a field is given that it does not take:
-- `action_id` is for cancelling alone, which takes no `machine_id`; `isolation_type`, `scan_type`,
-- `tag` and `device_value` are for the actions named after them.
pub unused_field_iff :
    (input : DeviceResponseInput)
    → contains_str device_response_actions input.action ≡ true
    → (unused_field input ≡ none) ↔ TakesFields input
unused_field_iff input known =
    pick (Agrees input) device_response_actions input.action known (each-Agrees input)
