-- ===== src/Constants.antt =====
-- Shared constants of the server (src/constants.rs).
use microsoft_defender_mcp.Prelude.{ℕ, ◌*◌}

-- Maximum `top` of Graph list tools, of Endpoint list tools, and maximum `skip`.
abbrev pub max_top : ℕ
max_top = 1000

abbrev pub endpoint_max_top : ℕ
endpoint_max_top = 10000

abbrev pub max_skip : ℕ
max_skip = 100000

abbrev pub max_look_back_hours : ℕ
max_look_back_hours = 720

abbrev pub max_live_response_commands : ℕ
max_live_response_commands = 20

abbrev pub max_indicator_batch : ℕ
max_indicator_batch = 500

abbrev pub max_alert_batch : ℕ
max_alert_batch = 500

abbrev pub min_justification_len : ℕ
min_justification_len = 10

-- 20 MB
abbrev pub max_library_file_size : ℕ
max_library_file_size = 20 * 1024 * 1024

-- Safety margin of the token cache in seconds.
abbrev pub token_expiry_buffer_secs : ℕ
token_expiry_buffer_secs = 60

abbrev pub default_top : ℕ
default_top = 50

abbrev pub default_look_back_hours : ℕ
default_look_back_hours = 720

abbrev pub find_by_ip_max_age_days : ℕ
find_by_ip_max_age_days = 30
