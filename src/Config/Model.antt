-- ===== src/Config/Model.antt =====
-- config/model.go: `SystemConfig`; config/config.go: its defaults.
use routercli.Base.{Bool, true, false, List, [], ◌∷◌, ℤ, pos, Text, codes}

-- `Type` of the source is `type_name`.
pub record AuthProviderConfig : Type 0 where
  pub name : Text
  pub type_name : Text

pub record SystemConfig : Type 0 where
  pub product_name : Text
  pub prevent_escape : Bool
  pub log_level : ℤ
  pub log_file : Text
  pub base_dir : Text
  pub history_file : Text
  pub audit_log_file : Text
  pub audit_log_enabled : Bool
  pub current_language : Text
  pub default_language : Text
  pub language_dir : Text
  pub session_idle_timeout : ℤ
  pub elevation_timeout : ℤ
  pub reauth_grace_period : ℤ
  pub auth_bypass_trust_window : ℤ
  pub tree_structure : Text
  pub common_tree_file : Text
  pub startup_config_file : Text
  pub vendor_config_file : Text
  pub auth_required : Bool
  pub users_file : Text
  pub daemon_socket_path : Text
  pub login_max_attempts : ℤ
  pub login_attempt_window : ℤ
  pub login_lockout_duration : ℤ
  pub command_level_max_attempts : ℤ
  pub command_level_attempt_window : ℤ
  pub command_level_lockout_duration : ℤ
  pub command_password_max_attempts : ℤ
  pub command_password_attempt_window : ℤ
  pub command_password_lockout_duration : ℤ
  pub totp_issuer : Text
  pub totp_max_attempts : ℤ
  pub password_min_length : ℤ
  pub password_require_uppercase : Bool
  pub password_require_numbers : Bool
  pub password_require_special_chars : Bool
  pub password_change_max_attempts : ℤ
  pub enable_host_authentication : Bool
  pub enable_cli_authentication : Bool
  pub enable_totp_authentication : Bool
  pub auth_providers : List AuthProviderConfig
  pub cli_auth_provider : Text
  pub alphabetical_command_order : Bool
  pub merge_common_commands : Bool
  pub paging_enabled : Bool
  pub default_page_lines : ℤ
  pub default_history_size : ℤ
  pub filter_match_mode : Text
  pub max_filter_chain_depth : ℤ
  pub roles_file : Text
  pub defaults_dir : Text

-- `DefaultSystemConfig`.
abbrev pub default_system_config : SystemConfig
default_system_config = record {
  product_name = codes "RouterCLI";
  prevent_escape = false;
  log_level = pos 0;
  log_file = [];
  base_dir = [];
  history_file = [];
  audit_log_file = [];
  audit_log_enabled = false;
  current_language = codes "en";
  default_language = codes "en";
  language_dir = [];
  session_idle_timeout = pos 0;
  elevation_timeout = pos 0;
  reauth_grace_period = pos 0;
  auth_bypass_trust_window = pos 300000000000;
  tree_structure = [];
  common_tree_file = [];
  startup_config_file = [];
  vendor_config_file = [];
  auth_required = false;
  users_file = [];
  daemon_socket_path = [];
  login_max_attempts = pos 3;
  login_attempt_window = pos 0;
  login_lockout_duration = pos 0;
  command_level_max_attempts = pos 0;
  command_level_attempt_window = pos 0;
  command_level_lockout_duration = pos 0;
  command_password_max_attempts = pos 0;
  command_password_attempt_window = pos 0;
  command_password_lockout_duration = pos 0;
  totp_issuer = codes "RouterCLI";
  totp_max_attempts = pos 3;
  password_min_length = pos 10;
  password_require_uppercase = false;
  password_require_numbers = false;
  password_require_special_chars = false;
  password_change_max_attempts = pos 3;
  enable_host_authentication = false;
  enable_cli_authentication = true;
  enable_totp_authentication = true;
  auth_providers = record { name = codes "local"; type_name = codes "local" } ∷ [];
  cli_auth_provider = codes "local";
  alphabetical_command_order = true;
  merge_common_commands = true;
  paging_enabled = true;
  default_page_lines = pos 24;
  default_history_size = pos 500;
  filter_match_mode = codes "substring";
  max_filter_chain_depth = pos 2;
  roles_file = [];
  defaults_dir = [];
}
