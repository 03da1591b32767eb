-- ===== src/Inputs/Tools.antt =====
-- The inputs of the read-only tools, and the arguments that they make of them (src/server.rs).
use microsoft_defender_mcp.Prelude.{String, Bool, Option, none, some, [], ◌∷◌}
use microsoft_defender_mcp.Inputs.Args.{Arg, text, int, flag, Args, action_args}
use microsoft_defender_mcp.Text.{Text}
use microsoft_defender_mcp.Text.Decimal.{ℤ}

abbrev given : {A : Type 0} → (A → Arg) → Option A → Option Arg
given make none = none
given make (some a) = some (make a)

pub record ThreatIntelInput : Type 0 where
  pub action : String
  pub id : Option Text
  pub hostname : Option Text
  pub component_id : Option Text
  pub top : Option ℤ
  pub skip : Option ℤ
  pub filter : Option Text
  pub select : Option Text
  pub expand : Option Text
  pub search : Option Text
  pub count : Option Bool

abbrev pub threat_intel_args : ThreatIntelInput → Args
threat_intel_args input = action_args (
    ("id", given text input.id)
    ∷ ("hostname", given text input.hostname)
    ∷ ("component_id", given text input.component_id)
    ∷ ("top", given int input.top)
    ∷ ("skip", given int input.skip)
    ∷ ("filter", given text input.filter)
    ∷ ("select", given text input.select)
    ∷ ("expand", given text input.expand)
    ∷ ("search", given text input.search)
    ∷ ("count", given flag input.count)
    ∷ [])

pub record IncidentsAlertsInput : Type 0 where
  pub action : String
  pub id : Option Text
  pub top : Option ℤ
  pub skip : Option ℤ
  pub filter : Option Text
  pub select : Option Text
  pub expand : Option Text
  pub search : Option Text
  pub count : Option Bool

abbrev pub incidents_alerts_args : IncidentsAlertsInput → Args
incidents_alerts_args input = action_args (
    ("id", given text input.id)
    ∷ ("top", given int input.top)
    ∷ ("skip", given int input.skip)
    ∷ ("filter", given text input.filter)
    ∷ ("select", given text input.select)
    ∷ ("expand", given text input.expand)
    ∷ ("search", given text input.search)
    ∷ ("count", given flag input.count)
    ∷ [])

pub record MachinesInput : Type 0 where
  pub action : String
  pub machine_id : Option Text
  pub id : Option Text
  pub tag_name : Option Text
  pub use_starts_with : Option Bool
  pub look_back_hours : Option ℤ
  pub top : Option ℤ
  pub skip : Option ℤ
  pub filter : Option Text
  pub timestamp : Option Text

abbrev pub machines_args : MachinesInput → Args
machines_args input = action_args (
    ("machine_id", given text input.machine_id)
    ∷ ("id", given text input.id)
    ∷ ("tag_name", given text input.tag_name)
    ∷ ("use_starts_with", given flag input.use_starts_with)
    ∷ ("look_back_hours", given int input.look_back_hours)
    ∷ ("top", given int input.top)
    ∷ ("skip", given int input.skip)
    ∷ ("filter", given text input.filter)
    ∷ ("timestamp", given text input.timestamp)
    ∷ [])

pub record VulnerabilitiesInput : Type 0 where
  pub action : String
  pub id : Option Text
  pub cve_id : Option Text
  pub software_id : Option Text
  pub top : Option ℤ
  pub skip : Option ℤ
  pub filter : Option Text

abbrev pub vulnerabilities_args : VulnerabilitiesInput → Args
vulnerabilities_args input = action_args (
    ("id", given text input.id)
    ∷ ("cve_id", given text input.cve_id)
    ∷ ("software_id", given text input.software_id)
    ∷ ("top", given int input.top)
    ∷ ("skip", given int input.skip)
    ∷ ("filter", given text input.filter)
    ∷ [])

pub record ForensicsInput : Type 0 where
  pub action : String
  pub action_id : Option Text
  pub sha1 : Option Text
  pub command_index : Option ℤ
  pub destination_dir : Option Text
  pub top : Option ℤ
  pub skip : Option ℤ
  pub filter : Option Text
  pub investigation_id : Option Text

abbrev pub forensics_args : ForensicsInput → Args
forensics_args input = action_args (
    ("action_id", given text input.action_id)
    ∷ ("sha1", given text input.sha1)
    ∷ ("command_index", given int input.command_index)
    ∷ ("destination_dir", given text input.destination_dir)
    ∷ ("top", given int input.top)
    ∷ ("skip", given int input.skip)
    ∷ ("filter", given text input.filter)
    ∷ ("investigation_id", given text input.investigation_id)
    ∷ [])
