-- ===== src/Inputs/Device.antt =====
-- The inputs of `defender_device_response` (src/server.rs).
use microsoft_defender_mcp.Prelude.{List, String, ◌≡◌, refl, ◌↔◌, Option, [], ◌∷◌, Result, ok}
use microsoft_defender_mcp.Inputs.ClosedEnum.{closed_enum, closed_enum_iff}
use microsoft_defender_mcp.Text.{Text}

pub data IsolationType : Type 0 where
  full selective un_managed_device : IsolationType

unfoldable pub isolation_type_str : IsolationType → String
isolation_type_str full = "Full"
isolation_type_str selective = "Selective"
isolation_type_str un_managed_device = "UnManagedDevice"

abbrev isolation_types : List IsolationType
isolation_types = full ∷ selective ∷ un_managed_device ∷ []

unfoldable pub read_isolation_type : String → Result IsolationType Text
unfolding closed_enum isolation_type_str
read_isolation_type = closed_enum isolation_type_str "isolation_type" isolation_types

pub data ScanType : Type 0 where
  quick full : ScanType

unfoldable pub scan_type_str : ScanType → String
scan_type_str quick = "Quick"
scan_type_str ScanType.full = "Full"

abbrev scan_types : List ScanType
scan_types = quick ∷ ScanType.full ∷ []

unfoldable pub read_scan_type : String → Result ScanType Text
unfolding closed_enum scan_type_str
read_scan_type = closed_enum scan_type_str "scan_type" scan_types

pub data DeviceValue : Type 0 where
  low normal high : DeviceValue

unfoldable pub device_value_str : DeviceValue → String
device_value_str low = "Low"
device_value_str normal = "Normal"
device_value_str high = "High"

abbrev device_values : List DeviceValue
device_values = low ∷ normal ∷ high ∷ []

unfoldable pub read_device_value : String → Result DeviceValue Text
unfolding closed_enum device_value_str
read_device_value = closed_enum device_value_str "device_value" device_values

pub record DeviceResponseInput : Type 0 where
  pub action : String
  pub machine_id : Option Text
  pub action_id : Option Text
  pub comment : Option Text
  pub isolation_type : Option IsolationType
  pub scan_type : Option ScanType
  pub tag : Option Text
  pub device_value : Option DeviceValue

isolation_type_trips : (v : IsolationType) → read_isolation_type (isolation_type_str v) ≡ ok v
unfolding read_isolation_type
isolation_type_trips full = refl
isolation_type_trips selective = refl
isolation_type_trips un_managed_device = refl

scan_type_trips : (v : ScanType) → read_scan_type (scan_type_str v) ≡ ok v
unfolding read_scan_type
scan_type_trips quick = refl
scan_type_trips ScanType.full = refl

device_value_trips : (v : DeviceValue) → read_device_value (device_value_str v) ≡ ok v
unfolding read_device_value
device_value_trips low = refl
device_value_trips normal = refl
device_value_trips high = refl

-- Each enumeration of the device actions is read exactly from the names of its values.
pub device_enums_iff :
    ((s : String) (v : IsolationType) → (read_isolation_type s ≡ ok v) ↔ (isolation_type_str v ≡ s))
    × ((s : String) (v : ScanType) → (read_scan_type s ≡ ok v) ↔ (scan_type_str v ≡ s))
    × ((s : String) (v : DeviceValue) → (read_device_value s ≡ ok v) ↔ (device_value_str v ≡ s))
unfolding read_isolation_type read_scan_type read_device_value
device_enums_iff = (
  closed_enum_iff isolation_type_str "isolation_type" isolation_types isolation_type_trips,
  closed_enum_iff scan_type_str "scan_type" scan_types scan_type_trips,
  closed_enum_iff device_value_str "device_value" device_values device_value_trips,
)
