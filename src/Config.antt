-- ===== src/Config.antt =====
-- Package config: the system configuration. A duration is a number of nanoseconds. What the YAML
-- library makes of a file is an argument, as are `time.ParseDuration` and the functions of
-- path/filepath.
pub mod Model
pub mod Validate
pub mod Paths
mod Tests
use routercli.Base.{
  ℕ, Bool, true, false, not, ◌&&◌, ◌||◌, Option, none, some, List, [], ◌∷◌, if◌then◌else◌, ℤ, pos,
  negsuc, ltz, is_zero, ◌==◌, Text, codes, text_eq,
}
use routercli.Config.Model.{SystemConfig, AuthProviderConfig, default_system_config}

-- A node, as far as `UnmarshalYAML` looks at it.
pub record Node : Type 0 where
  pub is_scalar : Bool
  pub is_null : Bool
  pub value : Text

pub data DurationResult : Type 0 where
  duration : ℤ → DurationResult
  not_scalar : DurationResult
  invalid_duration negative_duration : Text → DurationResult

-- `Duration.UnmarshalYAML`.
unfoldable pub unmarshal_yaml : (Text → Option ℤ) → Node → DurationResult
unmarshal_yaml parse_duration node =
    if not node.is_scalar
    then not_scalar
    else if node.is_null
    then duration (pos 0)
    else if text_eq node.value [] || text_eq node.value (codes "0")
    then duration (pos 0)
    else elim (parse_duration node.value) [
      | none ↦ invalid_duration node.value
      | some parsed ↦ if ltz parsed (pos 0) then negative_duration node.value else duration parsed
    ]

-- The errors of `validate`, by what is wrong.
pub data ConfigError : Type 0 where
  log_level login_max_attempts totp_max_attempts password_min_length : ConfigError
  password_change_max_attempts merge_without_alphabetical default_page_lines : ConfigError
  default_history_size filter_match_mode max_filter_chain_depth : ConfigError
  session_idle_timeout elevation_timeout reauth_grace_period : ConfigError
  auth_bypass_trust_window : ConfigError
  attempt_window_pair : Text → ConfigError
  no_identity totp_alone empty_provider_name : ConfigError
  empty_provider_type repeated_provider : Text → ConfigError
  no_cli_provider : ConfigError
  unknown_cli_provider : Text → ConfigError

-- A check that returns early, and what comes after it.
abbrev pub refuse : Bool → ConfigError → Option ConfigError → Option ConfigError
refuse true e rest = some e
refuse false e rest = rest

abbrev pub or_else : Option ConfigError → Option ConfigError → Option ConfigError
or_else none rest = rest
or_else (some e) rest = some e

abbrev pub same : Bool → Bool → Bool
same true b = b
same false b = not b

-- `validateAttemptWindowPair`.
unfoldable pub validate_attempt_window_pair : Text → ℤ → ℤ → Option ConfigError
validate_attempt_window_pair prefix window lockout =
    if not (same (is_zero window) (is_zero lockout))
    then some (attempt_window_pair prefix)
    else none

-- `seenNames[name]`.
unfoldable pub has_name : List Text → Text → Bool
has_name [] name = false
has_name (n ∷ names) name = if text_eq n name then true else has_name names name

-- The loop over the providers: the error, or the names that were seen.
pub data Providers : Type 0 where
  seen : List Text → Providers
  refused : ConfigError → Providers

unfoldable pub check_providers : List Text → List AuthProviderConfig → Providers
unfolding has_name
check_providers names [] = seen names
check_providers names (p ∷ providers) =
    let rest = check_providers (p.name ∷ names) providers in
    if text_eq p.name []
    then refused empty_provider_name
    else if text_eq p.type_name []
    then refused (empty_provider_type p.name)
    else if has_name names p.name
    then refused (repeated_provider p.name)
    else rest

abbrev pub check_cli_provider : SystemConfig → Providers → Option ConfigError
check_cli_provider c (refused e) = some e
check_cli_provider c (seen names) =
    if c.enable_cli_authentication
    then refuse (text_eq c.cli_auth_provider []) no_cli_provider (
        refuse (not (has_name names c.cli_auth_provider)) (unknown_cli_provider c.cli_auth_provider)
          none)
    else none

-- `validateAuthSources`.
unfoldable pub validate_auth_sources : SystemConfig → Option ConfigError
unfolding check_providers
validate_auth_sources c =
    refuse (c.auth_required && not c.enable_host_authentication && not c.enable_cli_authentication)
      no_identity
      (refuse
        (c.enable_totp_authentication
          && not c.enable_host_authentication
          && not c.enable_cli_authentication)
        totp_alone (check_cli_provider c (check_providers [] c.auth_providers)))

-- The levels that `LogLevel` may have.
abbrev pub is_log_level : ℤ → Bool
is_log_level (pos n) = n == 0 || n == 1 || n == 3 || n == 5
is_log_level (negsuc n) = false

abbrev pub is_match_mode : Text → Bool
is_match_mode mode = text_eq mode (codes "substring") || text_eq mode (codes "regex")

-- The three pairs, and then the sources of authentication.
unfoldable pub validate_pairs : SystemConfig → Option ConfigError
unfolding validate_attempt_window_pair validate_auth_sources
validate_pairs c =
    or_else
      (validate_attempt_window_pair (codes "Login") c.login_attempt_window c.login_lockout_duration)
      (or_else
        (validate_attempt_window_pair (codes "CommandLevel") c.command_level_attempt_window
          c.command_level_lockout_duration)
        (or_else
          (validate_attempt_window_pair (codes "CommandPassword") c.command_password_attempt_window
            c.command_password_lockout_duration)
          (validate_auth_sources c)))

-- `validate`: `none` is a nil error.
unfoldable pub validate : SystemConfig → Option ConfigError
unfolding validate_pairs
validate c = refuse (not (is_log_level c.log_level)) log_level (
    refuse (ltz c.login_max_attempts (pos 1)) login_max_attempts (
      refuse (ltz c.totp_max_attempts (pos 1)) totp_max_attempts (
        refuse (ltz c.password_min_length (pos 1)) password_min_length (
          refuse (ltz c.password_change_max_attempts (pos 1)) password_change_max_attempts (
            refuse (not c.alphabetical_command_order && c.merge_common_commands)
              merge_without_alphabetical
              (refuse (ltz c.default_page_lines (pos 1)) default_page_lines (
                refuse (ltz c.default_history_size (pos 0)) default_history_size (
                  refuse (not (is_match_mode c.filter_match_mode)) filter_match_mode (
                    refuse (ltz c.max_filter_chain_depth (pos 0)) max_filter_chain_depth (
                      refuse (ltz c.session_idle_timeout (pos 0)) session_idle_timeout (
                        refuse (ltz c.elevation_timeout (pos 0)) elevation_timeout (
                          refuse (ltz c.reauth_grace_period (pos 0)) reauth_grace_period (
                            refuse (ltz c.auth_bypass_trust_window (pos 0)) auth_bypass_trust_window
                              (validate_pairs c))))))))))))))

-- path/filepath.
pub record Filepath : Type 0 where
  pub is_abs : Text → Bool
  pub join : Text → Text → Text
  pub dir : Text → Text
  pub clean : Text → Text

-- The body of the loop of `resolvePaths`.
unfoldable pub resolve_path : Filepath → Text → Text → Text
resolve_path fp base p = if text_eq p [] || fp.is_abs p then p else fp.join base p

-- `base`.
abbrev pub base_of : Filepath → Text → Text → Text
base_of fp config_file base_dir =
    if not (fp.is_abs base_dir)
    then fp.clean (fp.join (fp.dir config_file) base_dir)
    else fp.clean base_dir

abbrev pub under : Filepath → Text → SystemConfig → SystemConfig
under fp base c = record c {
  base_dir = base;
  history_file = resolve_path fp base c.history_file;
  audit_log_file = resolve_path fp base c.audit_log_file;
  language_dir = resolve_path fp base c.language_dir;
  tree_structure = resolve_path fp base c.tree_structure;
  common_tree_file = resolve_path fp base c.common_tree_file;
  startup_config_file = resolve_path fp base c.startup_config_file;
  vendor_config_file = resolve_path fp base c.vendor_config_file;
  users_file = resolve_path fp base c.users_file;
  roles_file = resolve_path fp base c.roles_file;
  defaults_dir = resolve_path fp base c.defaults_dir;
  daemon_socket_path = resolve_path fp base c.daemon_socket_path;
}

-- `resolvePaths`.
unfoldable pub resolve_paths : Filepath → Text → SystemConfig → SystemConfig
unfolding resolve_path
resolve_paths fp config_file c =
    if text_eq c.base_dir [] then c else under fp (base_of fp config_file c.base_dir) c

-- A configuration file: what the decoder makes of it, over the defaults.
pub data ConfigFile : Type 0 where
  unreadable undecodable several_documents : ConfigFile
  no_document : ConfigFile
  document : SystemConfig → ConfigFile

pub data Loaded : Type 0 where
  config : SystemConfig → Loaded
  not_named bad_file undecoded many_documents : Loaded
  invalid : ConfigError → Loaded

abbrev pub checked : SystemConfig → Loaded
checked c = elim (validate c) [ none ↦ config c | some e ↦ invalid e ]

-- `LoadSystemConfig`.
unfoldable pub load_system_config : Filepath → Text → ConfigFile → Loaded
unfolding resolve_paths validate
load_system_config fp config_file file = if text_eq config_file [] then not_named else elim file [
  | unreadable ↦ bad_file
  | undecodable ↦ undecoded
  | several_documents ↦ many_documents
  | no_document ↦ config default_system_config
  | document c ↦ checked (resolve_paths fp config_file c)
]

-- `LoadSystemConfigOrDefaults`.
unfoldable pub load_system_config_or_defaults : Filepath → Text → Bool → ConfigFile → Loaded
unfolding load_system_config
load_system_config_or_defaults fp config_file exists file =
    if text_eq config_file []
    then config default_system_config
    else if not exists
    then config default_system_config
    else load_system_config fp config_file file
