-- ===== src/Command/Level.antt =====
-- command/treestructure.go: the gates between Command Levels, `EnterCommandLevel` and
-- `ExitCommandLevel`. The source reads the clock before the prompt and after it, and the terminal
-- once: `Clock` has the two instants, and `answer` is what `PromptSecret` would return, `none` being
-- its error.
pub mod Gates
pub mod Moves
pub mod Outcomes
use routercli.Base.{
  ℕ, ◌-◌, Bool, true, false, not, ◌&&◌, Option, none, some, List, [], ◌∷◌, ltb, ◌==◌, if◌then◌else◌,
  Text, text_eq,
}
use routercli.Auth.RateLimiter.{allow, record_failure, record_success}
use routercli.Auth.Password.{Hashers, verify_password}
use routercli.Auth.Model.{Session}
use routercli.Command.Context.{
  CommandLevel, CommandLevelFrame, TreeStructure, AppContext, effective_password_hash, write_level,
}
use routercli.Command.Stack.{current, set_root_tree}
use routercli.Command.Roles.{authorized}

pub record Clock : Type 0 where
  pub asked : ℕ
  pub answered : ℕ

-- The errors, by the key and the arguments of their message.
pub data LevelError : Type 0 where
  wrong_level : Text → Text → LevelError
  access_denied : LevelError
  too_many_attempts : ℕ → LevelError

-- What `EnterCommandLevel` and `ExitCommandLevel` return, with the context that they leave.
pub data Move : Type 0 where
  moved : AppContext → Move
  stayed : AppContext → Move
  refused : LevelError → AppContext → Move
  panics : Move

-- `RequireCurrentCommandLevel` at the frame that is current.
unfoldable pub require_current_command_level : Text → Text → Text → Option LevelError
require_current_command_level current_name target parent =
    if not (text_eq current_name parent) then some (wrong_level target parent) else none

-- `withinReauthGracePeriod`.
unfoldable pub within_reauth_grace_period : AppContext → CommandLevel → ℕ → Bool
within_reauth_grace_period ctx level now =
    if ctx.reauth_grace_period == 0
    then false
    else if level.last_authenticated_at == 0
    then false
    else ltb (now - level.last_authenticated_at) ctx.reauth_grace_period

-- The loop of `withinAuthBypassTrust`.
unfoldable pub any_trusted : ℕ → ℕ → List CommandLevel → Bool
any_trusted window now [] = false
any_trusted window now (l ∷ order) =
    if not l.grant_auth_bypass
    then any_trusted window now order
    else if l.last_authenticated_at == 0
    then any_trusted window now order
    else if ltb (now - l.last_authenticated_at) window
    then true
    else any_trusted window now order

-- `withinAuthBypassTrust`.
unfoldable pub within_auth_bypass_trust : AppContext → ℕ → Bool
unfolding any_trusted
within_auth_bypass_trust ctx now =
    if ctx.auth_bypass_trust_window == 0 then false else elim (ctx.levels) [
      | none ↦ false
      | some levels ↦ any_trusted ctx.auth_bypass_trust_window now levels.order
    ]

-- The role gate refuses.
unfoldable pub role_refused : AppContext → CommandLevel → Bool
role_refused ctx level =
    not ctx.replaying_startup_config
    && (elim (level.allowed_roles) [ [] ↦ false | r ∷ roles ↦ not (authorized ctx (r ∷ roles)) ])

abbrev pub checked : Hashers → Text → Option Text → Bool
checked hashers hash none = false
checked hashers hash (some password) = verify_password hashers hash password

-- The `default` case of the password `switch`: the rate limit, the prompt and the check.
unfoldable pub prompt_gate :
    Hashers → CommandLevel → Text → Clock → Option Text → CommandLevel × Option LevelError
prompt_gate hashers level hash clock answer =
    let answered = allow level.rate_limiter clock.asked in
    if not answered.0
    then (level, some (too_many_attempts answered.1))
    else if checked hashers hash answer
    then (
      record level {
        rate_limiter = record_success level.rate_limiter;
        last_authenticated_at = clock.answered;
      },
      none,
    )
    else (
      record level { rate_limiter = record_failure level.rate_limiter clock.answered },
      some access_denied,
    )

-- The password `switch`: the level that it leaves, and the error where it refuses.
unfoldable pub password_gate :
    Hashers → AppContext → CommandLevel → Clock → Option Text → CommandLevel × Option LevelError
unfolding prompt_gate
password_gate hashers ctx level clock answer =
    let hash = effective_password_hash level.vendor_defined_password_hash level.password_hash in
    if ctx.replaying_startup_config
    then (level, none)
    else if text_eq hash []
    then (level, none)
    else if within_reauth_grace_period ctx level clock.asked
    then (record level { last_authenticated_at = clock.answered }, none)
    else if within_auth_bypass_trust ctx clock.asked
    then (level, none)
    else prompt_gate hashers level hash clock answer

-- The level behind the pointer is the one of its name in `ctx.Levels`.
abbrev pub put_level : AppContext → CommandLevel → AppContext
put_level ctx level = elim (ctx.levels) [
  | none ↦ ctx
  | some levels ↦ record ctx { levels = some (record { order = write_level levels.order level }) }
]

-- The session and the root frame move to the level.
unfoldable pub move_to : AppContext → Session → CommandLevel → Option ℕ → Move
move_to ctx s level entered_at =
    elim (set_root_tree ctx.position level.name level.prompt_suffix level.tree) [
      | none ↦ panics
      | some position ↦ moved (record ctx {
        session = some (record s {
          command_level = level.name;
          command_level_entered_at = elim entered_at [
            | none ↦ s.command_level_entered_at
            | some t ↦ t
          ];
        });
        position = position;
      })
    ]

abbrev pub enter_gated : AppContext → Session → ℕ → CommandLevel × Option LevelError → Move
enter_gated ctx s now (level, some e) = refused e (put_level ctx level)
enter_gated ctx s now (level, none) = move_to (put_level ctx level) s level (some now)

-- A nil session, or a stack without a frame, is a panic.
abbrev pub or_panic {ℓ} : {A : Type ℓ} → Option A → (A → Move) → Move
or_panic none run = panics
or_panic (some a) run = run a

-- `EnterCommandLevel`, with a session and a current frame.
unfoldable pub enter_from :
    Hashers → AppContext → CommandLevel → Clock → Option Text → Session → CommandLevelFrame → Move
unfolding require_current_command_level
enter_from hashers ctx level clock answer s frame =
    elim (require_current_command_level frame.name level.name level.parent) [
      | some e ↦ refused e ctx
      | none ↦
          if role_refused ctx level
          then refused access_denied ctx
          else enter_gated ctx s clock.answered (password_gate hashers ctx level clock answer)
    ]

-- `EnterCommandLevel`.
unfoldable pub enter_command_level :
    Hashers → AppContext → CommandLevel → Clock → Option Text → Move
unfolding enter_from
enter_command_level hashers ctx level clock answer = or_panic ctx.session (λ s.
    if text_eq s.command_level level.name
    then stayed ctx
    else or_panic (current ctx.position) (enter_from hashers ctx level clock answer s))

-- `ExitCommandLevel`.
unfoldable pub exit_command_level : AppContext → CommandLevel → CommandLevel → Move
exit_command_level ctx level parent = or_panic ctx.session (λ s.
    if not (text_eq s.command_level level.name) then stayed ctx else move_to ctx s parent none)
