-- ===== src/Command/Context.antt =====
-- command/model.go and command/roles.go: the levels, the position of a session, and
-- the part of `AppContext` that the gates read. A `*CommandLevel` that several places share is known
-- by its name, as `ByName` and `Order` hold the same levels; an instant is a number of nanoseconds
-- after the zero time, and a duration a number of nanoseconds. The zero time says "never".
use routercli.Base.{ℕ, Bool, Option, none, some, List, [], ◌∷◌, if◌then◌else◌, Text, text_eq}
use routercli.Command.Tree.{Tree}
use routercli.Auth.Model.{Session, Users}
use routercli.Auth.RateLimiter.{RateLimiter}

pub record Role : Type 0 where
  pub name : Text
  pub desc : Text
  pub bypass : Bool

pub record RoleSet : Type 0 where
  pub order : List Role
  pub bypass_role : Text

-- `CommandLevelFrame`; what `Context` holds is known by a text.
pub record CommandLevelFrame : Type 0 where
  pub name : Text
  pub prompt_suffix : Text
  pub tree : Tree
  pub context : Text

-- The frames, the root first.
pub record CommandLevelStack : Type 0 where
  pub frames : List CommandLevelFrame

pub record CommandLevel : Type 0 where
  pub name : Text
  pub tree_file : Text
  pub is_base : Bool
  pub parent : Text
  pub inherit_parent : Bool
  pub enter_command : Text
  pub exit_command : Text
  pub password_hash : Text
  pub vendor_defined_password_hash : Text
  pub password_user_settable : Option Bool
  pub hidden : Bool
  pub vendor_restricted : Bool
  pub grant_auth_bypass : Bool
  pub show_secrets : Bool
  pub allowed_roles : List Text
  pub prompt_suffix : Text
  pub skip_common_merge : Bool
  pub tree : Tree
  pub rate_limiter : Option RateLimiter
  pub last_authenticated_at : ℕ
  pub aliases : List (Text × List Text)

-- `ByName` is read through `Order`.
pub record TreeStructure : Type 0 where
  pub order : List CommandLevel

pub record AppContext : Type 0 where
  pub session : Option Session
  pub users : Option Users
  pub levels : Option TreeStructure
  pub position : CommandLevelStack
  pub negated : Bool
  pub roles : Option RoleSet
  pub auth_required : Bool
  pub reauth_grace_period : ℕ
  pub auth_bypass_trust_window : ℕ
  pub replaying_startup_config : Bool

-- `effectivePasswordHash`.
abbrev pub effective_password_hash : Text → Text → Text
effective_password_hash vendor_defined ordinary =
    if text_eq vendor_defined [] then ordinary else vendor_defined

-- `levels.ByName[name]`.
unfoldable pub find_level : List CommandLevel → Text → Option CommandLevel
find_level [] name = none
find_level (l ∷ levels) name = if text_eq l.name name then some l else find_level levels name

-- A write through the pointer to the level.
unfoldable pub write_level : List CommandLevel → CommandLevel → List CommandLevel
write_level [] level = []
write_level (l ∷ levels) level =
    if text_eq l.name level.name then level ∷ levels else l ∷ write_level levels level
