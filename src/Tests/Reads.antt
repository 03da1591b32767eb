-- ===== src/Tests/Reads.antt =====
-- Runs of the read-only tools.
use microsoft_defender_mcp.Prelude.{
  ◌↔◌, ℕ, ◌≡◌, refl, true, false, none, some, [], ◌∷◌, ok, length, All, all-eq-true_iff,
}
use microsoft_defender_mcp.Client.{ODataParams, to_query_vec, Client}
use microsoft_defender_mcp.Client.Paths.{is_pchar}
use microsoft_defender_mcp.Client.Query.{IsParameter, found_under, to_query_vec_values}
use microsoft_defender_mcp.Inputs.Args.{rename_arg, action_args, Misfit}
use microsoft_defender_mcp.Inputs.Reads.{read_endpoint_id_odata, read_incident, read_hostname_odata}
use microsoft_defender_mcp.Inputs.Tools.{
  ThreatIntelInput, IncidentsAlertsInput, MachinesInput, VulnerabilitiesInput, ForensicsInput,
}
use microsoft_defender_mcp.Json.{obj, end, str, field}
use microsoft_defender_mcp.Server.Reads.{serve}
use microsoft_defender_mcp.Server.Reads.Devices.{defender_endpoint_software_machines}
use microsoft_defender_mcp.Server.Reads.Downloads.{Download, defender_forensics}
use microsoft_defender_mcp.Server.Reads.Entities.{defender_xdr_incident_get}
use microsoft_defender_mcp.Server.Reads.Hosts.{defender_ti_host_cookies_list}
use microsoft_defender_mcp.Server.Reads.IncidentsAlerts.{defender_incidents_alerts}
use microsoft_defender_mcp.Server.Reads.Machines.{find_by_ip, defender_machines}
use microsoft_defender_mcp.Server.Reads.Reach.Downloads.{defender_forensics-Reaches}
use microsoft_defender_mcp.Server.Reads.Reach.Machines.{defender_machines-Reaches}
use microsoft_defender_mcp.Server.Reads.Reach.ThreatIntel.{defender_ti-Reaches}
use microsoft_defender_mcp.Server.Reads.Safe.{Reaches}
use microsoft_defender_mcp.Server.Reads.Scope.{check_scope_not_requested, ReadConfig}
use microsoft_defender_mcp.Server.Reads.Scoped.{scope_requested}
use microsoft_defender_mcp.Server.Reads.ThreatIntel.{defender_ti}
use microsoft_defender_mcp.Server.Reads.Vulnerabilities.{defender_vulnerabilities}
use microsoft_defender_mcp.Tests.Crates.{chrono_crate}
use microsoft_defender_mcp.Tests.Device.{libraries}
use microsoft_defender_mcp.Text.{
  starts_with, lit, is_control, text_eq, contains, trim, is_whitespace, byte_len, Text,
}
use microsoft_defender_mcp.Text.Decimal.{pos}
use microsoft_defender_mcp.Validation.Indicators.{validate_recent_timestamp}
use microsoft_defender_mcp.Validation.Ip.{validate_ip_address, is_ip}
use microsoft_defender_mcp.Validation.Names.{
  validate_required_id, validate_hostname, validate_action_id,
}
use microsoft_defender_mcp.Validation.Odata.{validate_endpoint_odata_params, validate_odata_params}

abbrev explain : Misfit → Text
explain misfit = []

abbrev config : ReadConfig
config = record { delegated = true; read_only = false; live_response = true }

abbrev client : Client
client req = ok (obj (field "value" (str []) end))

abbrev download : Download
download url subdirectory file_name action_id sha1 = ok (obj end)

abbrev id : Text
id = b'a' ∷ b'/' ∷ b'1' ∷ b' ' ∷ []

abbrev host : ThreatIntelInput
host = record {
  action = "host_cookies_list";
  id = some (b'a' ∷ b'.' ∷ b'b' ∷ []);
  hostname = none;
  component_id = none;
  top = some (pos 20);
  skip = none;
  filter = none;
  select = none;
  expand = none;
  search = none;
  count = none;
}

host-asks : length (serve client (defender_ti libraries explain config host)).1 ≡ 1
unfolding serve defender_ti check_scope_not_requested read_hostname_odata starts_with lit rename_arg
    action_args defender_ti_host_cookies_list validate_hostname is_whitespace byte_len is_control
    text_eq contains validate_odata_params
host-asks = refl

defender_ti-Reaches_example :
    All
      (Reaches (scope_requested config host.action))
      (serve client (defender_ti libraries explain config host)).1
defender_ti-Reaches_example = defender_ti-Reaches libraries explain config host client

abbrev incident : IncidentsAlertsInput
incident = record {
  action = "xdr_incident_get";
  id = some id;
  top = none;
  skip = none;
  filter = none;
  select = none;
  expand = none;
  search = none;
  count = none;
}

incident-asks :
    length (serve client (defender_incidents_alerts libraries explain config incident)).1 ≡ 1
unfolding serve defender_incidents_alerts check_scope_not_requested read_incident action_args
    defender_xdr_incident_get validate_required_id trim is_whitespace text_eq is_control
incident-asks = refl

abbrev machine : MachinesInput
machine = record {
  action = "find_by_ip";
  machine_id = none;
  id = some (b'1' ∷ b'.' ∷ b'1' ∷ b'.' ∷ b'1' ∷ b'.' ∷ b'1' ∷ []);
  tag_name = none;
  use_starts_with = none;
  look_back_hours = none;
  top = none;
  skip = none;
  filter = none;
  timestamp = some (lit "2031-04-23T00:00:00Z");
}

abbrev software : VulnerabilitiesInput
software = record {
  action = "software_machines";
  id = some id;
  cve_id = none;
  software_id = none;
  top = none;
  skip = none;
  filter = none;
}

software-asks :
    length (serve client (defender_vulnerabilities libraries explain config software)).1 ≡ 1
unfolding serve defender_vulnerabilities read_endpoint_id_odata starts_with lit rename_arg
    action_args defender_endpoint_software_machines validate_required_id trim is_whitespace text_eq
    is_control validate_endpoint_odata_params
software-asks = refl

abbrev file : ForensicsInput
file = record {
  action = "download_quarantined_file";
  action_id = some (b'a' ∷ b'1' ∷ []);
  sha1 = none;
  command_index = some (pos 2);
  destination_dir = none;
  top = none;
  skip = none;
  filter = none;
  investigation_id = none;
}

file-asks : length (defender_forensics libraries explain config client download file).1 ≡ 1
unfolding defender_forensics validate_action_id trim is_whitespace byte_len
file-asks = refl

defender_forensics-Reaches_example :
    All
      (Reaches (scope_requested config file.action))
      (defender_forensics libraries explain config client download file).1
defender_forensics-Reaches_example =
    defender_forensics-Reaches libraries explain config client download file

machine-asks : length (serve client (defender_machines libraries explain config machine)).1 ≡ 1
unfolding serve defender_machines check_scope_not_requested find_by_ip validate_ip_address trim
    is_whitespace is_ip validate_recent_timestamp chrono_crate
machine-asks = refl

utc_chars : (n : ℕ) → All (λ c. is_pchar c ≡ true) (libraries.chrono.format_utc n)
unfolding chrono_crate
utc_chars n = (all-eq-true_iff is_pchar (libraries.chrono.format_utc n)).0 refl

defender_machines-Reaches_example :
    All
      (Reaches (scope_requested config machine.action))
      (serve client (defender_machines libraries explain config machine)).1
defender_machines-Reaches_example =
    defender_machines-Reaches libraries explain config machine utc_chars client

abbrev odata : ODataParams
odata = record {
  top = some (pos 20);
  skip = some (pos 0);
  filter = some [];
  select = none;
  expand = some id;
  search = none;
  count = some true;
}

to_query_vec_values_example :
    All (λ pair. IsParameter odata pair.0 pair.1) (to_query_vec odata)
    × ((found_under "$expand" (to_query_vec odata) ≡ lit "id" ∷ [])
        ↔ IsParameter odata "$expand" (lit "id"))
to_query_vec_values_example = to_query_vec_values odata "$expand" (lit "id")
