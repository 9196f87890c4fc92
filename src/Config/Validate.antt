-- ===== src/Config/Validate.antt =====
-- The configurations that `validate` passes.
use routercli.Base.{
  ℕ, ◌≤◌, Bool, true, false, not, ◌&&◌, Option, none, some, List, [], ◌∷◌, ◌≡◌, ◌≢◌, ◌↔◌, ◌⊎◌, refl,
  arith, ℤ, pos, negsuc, ltz, is_zero, Text, codes, text_eq_iff,
}
use routercli.Command.Roles.Gate.{Has}
use routercli.Config.Model.{SystemConfig, AuthProviderConfig, default_system_config}
use routercli.Config.{
  ConfigError, refuse, or_else, validate_attempt_window_pair, has_name, seen, check_providers,
  check_cli_provider, validate_auth_sources, is_log_level, is_match_mode, validate_pairs, validate,
}

-- At least a natural number.
abbrev pub AtLeast : ℕ → ℤ → Type 0
AtLeast n z = (k : ℕ) × (z ≡ pos k) × (n ≤ k)

abbrev pub IsLogLevel : ℤ → Type 0
IsLogLevel z = (z ≡ pos 0) ⊎ ((z ≡ pos 1) ⊎ ((z ≡ pos 3) ⊎ (z ≡ pos 5)))

-- Both are set or both are zero.
abbrev pub ArePaired : ℤ → ℤ → Type 0
ArePaired window lockout = (window ≡ pos 0) ↔ (lockout ≡ pos 0)

-- The providers have names and types, and no name that is there before or twice.
abbrev pub AreProviders : List Text → List AuthProviderConfig → Type 0
AreProviders names [] = Unit
AreProviders names (p ∷ providers) =
    ((p.name ≢ []) × ((p.type_name ≢ []) × ¬ Has p.name names))
    × AreProviders (p.name ∷ names) providers

abbrev pub IsProvider : Text → List Text → List AuthProviderConfig → Type 0
IsProvider name names [] = Has name names
IsProvider name names (p ∷ providers) = IsProvider name (p.name ∷ names) providers

-- There is a way to establish an identity where one is needed, and the provider of the command line
-- is there where it is used.
abbrev pub AreSources : SystemConfig → Type 0
AreSources c =
    (c.auth_required ≡ true
      → (c.enable_host_authentication ≡ true) ⊎ (c.enable_cli_authentication ≡ true))
    × ((c.enable_totp_authentication ≡ true
          → (c.enable_host_authentication ≡ true) ⊎ (c.enable_cli_authentication ≡ true))
        × (AreProviders [] c.auth_providers
            × (c.enable_cli_authentication ≡ true
                → (c.cli_auth_provider ≢ []) × IsProvider c.cli_auth_provider [] c.auth_providers)))

abbrev pub ArePairs : SystemConfig → Type 0
ArePairs c =
    ArePaired c.login_attempt_window c.login_lockout_duration
    × (ArePaired c.command_level_attempt_window c.command_level_lockout_duration
        × (ArePaired c.command_password_attempt_window c.command_password_lockout_duration
            × AreSources c))

abbrev pub IsValid : SystemConfig → Type 0
IsValid c =
    IsLogLevel c.log_level
    × (AtLeast 1 c.login_max_attempts
        × (AtLeast 1 c.totp_max_attempts
            × (AtLeast 1 c.password_min_length
                × (AtLeast 1 c.password_change_max_attempts
                    × ((c.merge_common_commands ≡ true → c.alphabetical_command_order ≡ true)
                        × (AtLeast 1 c.default_page_lines
                            × (AtLeast 0 c.default_history_size
                                × (((c.filter_match_mode ≡ codes "substring")
                                      ⊎ (c.filter_match_mode ≡ codes "regex"))
                                    × (AtLeast 0 c.max_filter_chain_depth
                                        × (AtLeast 0 c.session_idle_timeout
                                            × (AtLeast 0 c.elevation_timeout
                                                × (AtLeast 0 c.reauth_grace_period
                                                    × (AtLeast 0 c.auth_bypass_trust_window
                                                        × ArePairs c)))))))))))))

refuse_iff :
    {P Q : Type 0} (b : Bool) (e : ConfigError) (rest : Option ConfigError)
    → (b ≡ false) ↔ P
    → (rest ≡ none) ↔ Q
    → (refuse b e rest ≡ none) ↔ (P × Q)
refuse_iff true e rest p q = (λ h. cc, λ h. cc (p.1 h.0))
refuse_iff false e rest p q = (λ h. (p.0 refl, q.0 h), λ h. q.1 h.1)

or_else_iff :
    {P Q : Type 0} (o rest : Option ConfigError)
    → (o ≡ none) ↔ P
    → (rest ≡ none) ↔ Q
    → (or_else o rest ≡ none) ↔ (P × Q)
or_else_iff none rest p q = (λ h. (p.0 refl, q.0 h), λ h. q.1 h.1)
or_else_iff (some e) rest p q = (λ h. cc, λ h. cc (p.1 h.0))

pos-injective : {a b : ℕ} → pos a ≡ pos b → a ≡ b
pos-injective h = cc

pos_iff : (a b : ℕ) → (pos a ≡ pos b) ↔ (a ≡ b)
pos_iff a b = (λ h. pos-injective h, λ h. cc)

AtLeast-iff : (n : ℕ) (z : ℤ) → (ltz z (pos n) ≡ false) ↔ AtLeast n z
AtLeast-iff n (pos k) = (λ h. (k, refl, ground arith), λ (m, e, h). ground (arith, pos-injective e))
AtLeast-iff n (negsuc k) = (λ h. cc, λ (m, e, h). cc)

IsLogLevel-iff : (z : ℤ) → (not (is_log_level z) ≡ false) ↔ IsLogLevel z
IsLogLevel-iff (pos n) = ground (arith, pos_iff n 0, pos_iff n 1, pos_iff n 3, pos_iff n 5)
IsLogLevel-iff (negsuc n) = ground arith

is_zero_iff : (z : ℤ) → (is_zero z ≡ true) ↔ (z ≡ pos 0)
is_zero_iff (pos n) = ground (arith, pos_iff n 0)
is_zero_iff (negsuc n) = ground arith

pair_iff :
    (prefix : Text) (window lockout : ℤ)
    → (validate_attempt_window_pair prefix window lockout ≡ none) ↔ ArePaired window lockout
unfolding validate_attempt_window_pair
pair_iff prefix window lockout = ground (arith, is_zero_iff window, is_zero_iff lockout)

has_name_iff : (names : List Text) (name : Text) → (has_name names name ≡ true) ↔ Has name names
unfolding has_name
has_name_iff [] name = ground arith
has_name_iff (n ∷ names) name = ground (arith, text_eq_iff n name, has_name_iff names name)

-- The check of the provider of the command line, by the names that were seen.
cli_iff :
    (c : SystemConfig) (names : List Text)
    → (check_cli_provider c (seen names) ≡ none) ↔ (
        c.enable_cli_authentication ≡ true
        → (c.cli_auth_provider ≢ []) × Has c.cli_auth_provider names)
cli_iff c names =
    ground (arith, text_eq_iff c.cli_auth_provider [], has_name_iff names c.cli_auth_provider)

providers_iff :
    (c : SystemConfig) (names : List Text) (providers : List AuthProviderConfig)
    → (check_cli_provider c (check_providers names providers) ≡ none) ↔ (
        AreProviders names providers
        × (c.enable_cli_authentication ≡ true
            → (c.cli_auth_provider ≢ []) × IsProvider c.cli_auth_provider names providers))
unfolding check_providers
providers_iff c names [] = ground (arith, cli_iff c names)
providers_iff c names (p ∷ providers) = ground (
  arith,
  text_eq_iff p.name [],
  text_eq_iff p.type_name [],
  has_name_iff names p.name,
  providers_iff c (p.name ∷ names) providers,
)

no_identity_iff :
    (needed host cli : Bool)
    → ((needed && not host && not cli) ≡ false) ↔ (needed ≡ true → (host ≡ true) ⊎ (cli ≡ true))
no_identity_iff needed host cli = ground arith

sources_iff : (c : SystemConfig) → (validate_auth_sources c ≡ none) ↔ AreSources c
unfolding validate_auth_sources
sources_iff c =
    refuse_iff _ _ _
      (no_identity_iff c.auth_required c.enable_host_authentication c.enable_cli_authentication)
      (refuse_iff _ _ _
        (no_identity_iff c.enable_totp_authentication c.enable_host_authentication
          c.enable_cli_authentication)
        (providers_iff c [] c.auth_providers))

pairs_iff : (c : SystemConfig) → (validate_pairs c ≡ none) ↔ ArePairs c
unfolding validate_pairs
pairs_iff c =
    or_else_iff _ _ (pair_iff (codes "Login") c.login_attempt_window c.login_lockout_duration) (
      or_else_iff _ _
        (pair_iff (codes "CommandLevel") c.command_level_attempt_window
          c.command_level_lockout_duration)
        (or_else_iff _ _
          (pair_iff (codes "CommandPassword") c.command_password_attempt_window
            c.command_password_lockout_duration)
          (sources_iff c)))

merge_iff :
    (alphabetical merge : Bool)
    → ((not alphabetical && merge) ≡ false) ↔ (merge ≡ true → alphabetical ≡ true)
merge_iff alphabetical merge = ground arith

match_mode_iff :
    (mode : Text)
    → (not (is_match_mode mode) ≡ false) ↔ ((mode ≡ codes "substring") ⊎ (mode ≡ codes "regex"))
match_mode_iff mode =
    ground (arith, text_eq_iff mode (codes "substring"), text_eq_iff mode (codes "regex"))

-- `validate` passes exactly the configurations that keep to the ranges: a log level of 0, 1, 3 or 5,
-- numbers of attempts, a password length and a page length of one at least, no negative size or
-- duration, a window and a lockout that are both set or both not, commands merged only in
-- alphabetical order, different providers with names and types, and a way to log in where one is
-- needed.
pub validate_iff : (c : SystemConfig) → (validate c ≡ none) ↔ IsValid c
unfolding validate
validate_iff c = refuse_iff _ _ _ (IsLogLevel-iff c.log_level) (
    refuse_iff _ _ _ (AtLeast-iff 1 c.login_max_attempts) (
      refuse_iff _ _ _ (AtLeast-iff 1 c.totp_max_attempts) (
        refuse_iff _ _ _ (AtLeast-iff 1 c.password_min_length) (
          refuse_iff _ _ _ (AtLeast-iff 1 c.password_change_max_attempts) (
            refuse_iff _ _ _ (merge_iff c.alphabetical_command_order c.merge_common_commands) (
              refuse_iff _ _ _ (AtLeast-iff 1 c.default_page_lines) (
                refuse_iff _ _ _ (AtLeast-iff 0 c.default_history_size) (
                  refuse_iff _ _ _ (match_mode_iff c.filter_match_mode) (
                    refuse_iff _ _ _ (AtLeast-iff 0 c.max_filter_chain_depth) (
                      refuse_iff _ _ _ (AtLeast-iff 0 c.session_idle_timeout) (
                        refuse_iff _ _ _ (AtLeast-iff 0 c.elevation_timeout) (
                          refuse_iff _ _ _ (AtLeast-iff 0 c.reauth_grace_period) (
                            refuse_iff _ _ _ (AtLeast-iff 0 c.auth_bypass_trust_window)
                              (pairs_iff c))))))))))))))

pub validate_default : validate default_system_config ≡ none
unfolding validate
validate_default = refl
