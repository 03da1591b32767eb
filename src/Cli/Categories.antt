-- ===== src/Cli/Categories.antt =====
-- The mutating tools and the categories that the flags enable (src/cli.rs).
use microsoft_defender_mcp.Prelude.{
  some, str_eq, none, Option, if◌then◌else◌, String, List, [], ◌∷◌, Bool, true, false, ◌&&◌, ◌||◌,
}

pub data MutatingTool : Type 0 where
  response device_response indicators triage : MutatingTool

unfoldable pub tool_name : MutatingTool → String
tool_name response = "defender_response"
tool_name device_response = "defender_device_response"
tool_name indicators = "defender_indicators"
tool_name triage = "defender_triage"

abbrev pub all_tools : List MutatingTool
all_tools = response ∷ device_response ∷ indicators ∷ triage ∷ []

unfoldable pub find_name : String → List MutatingTool → Option MutatingTool
unfolding tool_name
find_name name [] = none
find_name name (tool ∷ tools) =
    if str_eq (tool_name tool) name then some tool else find_name name tools

-- `MutatingTool::from_name`
unfoldable pub from_name : String → Option MutatingTool
unfolding find_name
from_name name = find_name name all_tools

unfoldable pub destructive : MutatingTool → Bool
destructive triage = false
destructive _ = true

unfoldable pub enable_flag : MutatingTool → String
enable_flag response = "--enable-live-response"
enable_flag device_response = "--enable-device-response"
enable_flag indicators = "--enable-indicators"
enable_flag triage = "--enable-triage"

pub record MutationCategories : Type 0 where
  pub live_response : Bool
  pub device_response : Bool
  pub offboarding : Bool
  pub indicators : Bool
  pub triage : Bool

abbrev pub no_categories : MutationCategories
no_categories = record {
  live_response = false;
  device_response = false;
  offboarding = false;
  indicators = false;
  triage = false;
}

unfoldable pub from_flags :
    (read_only live_response device_response offboarding indicators triage : Bool)
    → MutationCategories
from_flags read_only live device off ind tri = if read_only then no_categories else record {
  live_response = live;
  device_response = device;
  offboarding = off && device;
  indicators = ind;
  triage = tri;
}

unfoldable pub any_category : MutationCategories → Bool
any_category c = c.live_response || c.device_response || c.indicators || c.triage

unfoldable pub tool_enabled : MutationCategories → MutatingTool → Bool
tool_enabled c response = c.live_response
tool_enabled c device_response = c.device_response
tool_enabled c indicators = c.indicators
tool_enabled c triage = c.triage
