-- ===== src/Command/Tree.antt =====
-- command/model.go: `Command`, and the map of commands that a Command Level and `Subcommands` hold.
-- A map is a list of its entries; `find` reads the first entry of a key, so a map has one value for
-- each key. `RunFunc` is known by the name of its handler, and is `none` where the source has nil.
-- `PasswordRateLimiter` is left out: it is modelled in auth.
use routercli.Base.{
  ℕ, Bool, true, false, Option, none, some, List, [], if◌then◌else◌, Text, text_eq,
}

-- A `HandlerFunc`, by the name that it is registered under.
abbrev pub Handler : Type 0
Handler = Text

pub record Fields : Type 0 where
  pub desc : Text
  pub desc_key : Text
  pub help : Text
  pub help_key : Text
  pub arg_help : Text
  pub arg_help_key : Text
  pub run : Text
  pub alias : Text
  pub hidden : Bool
  pub negatable : Bool
  pub password_hash : Text
  pub vendor_defined_password_hash : Text
  pub password_user_settable : Option Bool
  pub min_args : Option ℕ
  pub max_args : Option ℕ
  pub max_arg_length : ℕ
  pub requires : Text
  pub allowed_roles : List Text
  pub pageable : Bool
  pub run_func : Option Handler
  pub def_index : ℕ
  pub is_common_command : Bool

mutual
  pub data Command : Type 0 where
    command : Fields → Tree → Command

  pub data Tree : Type 0 where
    nil : Tree
    entry : Text → Command → Tree → Tree

abbrev pub fields : Command → Fields
fields (command f s) = f

abbrev pub subcommands : Command → Tree
subcommands (command f s) = s

-- `tree[name]`.
unfoldable pub find : Tree → Text → Option Command
find nil name = none
find (entry key c rest) name = if text_eq key name then some c else find rest name

-- `len(tree) > 0`.
abbrev pub is_empty : Tree → Bool
is_empty nil = true
is_empty (entry key c rest) = false

-- A command that sets nothing.
abbrev pub plain_fields : Fields
plain_fields = record {
  desc = [];
  desc_key = [];
  help = [];
  help_key = [];
  arg_help = [];
  arg_help_key = [];
  run = [];
  alias = [];
  hidden = false;
  negatable = false;
  password_hash = [];
  vendor_defined_password_hash = [];
  password_user_settable = none;
  min_args = none;
  max_args = none;
  max_arg_length = 0;
  requires = [];
  allowed_roles = [];
  pageable = false;
  run_func = none;
  def_index = 0;
  is_common_command = false;
}
