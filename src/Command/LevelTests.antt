-- ===== src/Command/LevelTests.antt =====
-- Runs of the levels, and the theorems about them at inputs that meet their hypotheses.
use routercli.Base.{
  Bool, true, false, none, some, List, [], ◌∷◌, ◌≡◌, ◌≢◌, ◌↔◌, refl, arith, suc, length, codes,
}
use routercli.Auth.RateLimiter.{new_rate_limiter, allow}
use routercli.Auth.Password.{
  plaintext_hasher, Hashers, find_hasher, verify_password, split_password_string, split_dollar,
}
use routercli.Command.Tree.{nil}
use routercli.Auth.Model.{Session, User, find_user}
use routercli.Command.Context.{CommandLevel, CommandLevelFrame, AppContext, write_level}
use routercli.Command.Stack.{new_command_level_stack, current, depth, at_root, set_root_tree}
use routercli.Command.Stack.Refine.{
  Op, pushed, popped, ended, switched, at_start, promised_run, perform_run, stack, top, is_nil,
  perform_run-new,
}
use routercli.Command.Roles.{authorized}
use routercli.Command.Level.{
  Clock, Move, moved, password_gate, move_to, enter_command_level, role_refused,
  within_reauth_grace_period, within_auth_bypass_trust,
}
use routercli.Command.Level.Gates.{IsAdmitted, IsInRole}
use routercli.Command.Level.Moves.{HasMoved, enter_command_level_iff}
use routercli.Command.Level.Outcomes.{Leaves, enter_command_level-Leaves}

abbrev pub base_level : CommandLevel
base_level = record {
  name = codes "base";
  tree_file = [];
  is_base = true;
  parent = [];
  inherit_parent = false;
  enter_command = [];
  exit_command = [];
  password_hash = [];
  vendor_defined_password_hash = [];
  password_user_settable = none;
  hidden = false;
  vendor_restricted = false;
  grant_auth_bypass = false;
  show_secrets = false;
  allowed_roles = [];
  prompt_suffix = codes ">";
  skip_common_merge = false;
  tree = nil;
  rate_limiter = none;
  last_authenticated_at = 0;
  aliases = [];
}

abbrev pub admin_level : CommandLevel
admin_level = record base_level {
  name = codes "admin";
  is_base = false;
  parent = codes "base";
  prompt_suffix = codes "#";
  password_hash = codes "$0$pw";
  allowed_roles = codes "ops" ∷ [];
  rate_limiter = some (new_rate_limiter 3 20 60);
}

abbrev session : Session
session = record {
  username = codes "ann";
  authenticated = true;
  command_level = codes "base";
  command_level_entered_at = 5;
}

abbrev ann : User
ann = record {
  username = codes "ann";
  password_hash = [];
  totp_secret = [];
  totp_last_counter = 0;
  roles = codes "ops" ∷ [];
  must_change_password = false;
}

abbrev pub ctx : AppContext
ctx = record {
  session = some session;
  users = some ((codes "ann", ann) ∷ []);
  levels = some (record { order = base_level ∷ admin_level ∷ [] });
  position = new_command_level_stack (codes "base") (codes ">") nil;
  negated = false;
  roles = none;
  auth_required = true;
  reauth_grace_period = 100;
  auth_bypass_trust_window = 0;
  replaying_startup_config = false;
}

abbrev hashers : Hashers
hashers = (codes "0", plaintext_hasher) ∷ []

abbrev clock : Clock
clock = record { asked = 50; answered = 60 }

abbrev root_frame : CommandLevelFrame
root_frame = record { name = codes "base"; prompt_suffix = codes ">"; tree = nil; context = [] }

abbrev is_moved : Move → Bool
is_moved (moved c) = true
is_moved _ = false

enter_right_password :
    is_moved (enter_command_level hashers ctx admin_level clock (some (codes "pw"))) ≡ true
unfolding enter_command_level current role_refused authorized find_user password_gate
    within_reauth_grace_period within_auth_bypass_trust routercli.Auth.RateLimiter.allow
    verify_password split_password_string split_dollar find_hasher move_to set_root_tree
enter_right_password = refl

enter_wrong_password :
    is_moved (enter_command_level hashers ctx admin_level clock (some (codes "no"))) ≡ false
unfolding enter_command_level current role_refused authorized find_user password_gate
    within_reauth_grace_period within_auth_bypass_trust routercli.Auth.RateLimiter.allow
    verify_password split_password_string split_dollar find_hasher
enter_wrong_password = refl

-- The context that the right password leaves.
abbrev entered_level : CommandLevel
entered_level = record admin_level { last_authenticated_at = 60 }

abbrev entered : AppContext
entered = record ctx {
  session = some (record session { command_level = codes "admin"; command_level_entered_at = 60 });
  levels = some (record { order = base_level ∷ entered_level ∷ [] });
  position = new_command_level_stack (codes "admin") (codes "#") nil;
}

enter_admin : enter_command_level hashers ctx admin_level clock (some (codes "pw")) ≡ moved entered
unfolding enter_command_level current role_refused authorized find_user password_gate
    within_reauth_grace_period within_auth_bypass_trust routercli.Auth.RateLimiter.allow
    verify_password split_password_string split_dollar find_hasher move_to set_root_tree
    routercli.Auth.RateLimiter.record_success write_level
enter_admin = refl

current_frame : current ctx.position ≡ some root_frame
unfolding current
current_frame = refl

enter_command_level_iff_example :
    HasMoved (enter_command_level hashers ctx admin_level clock (some (codes "pw"))) ↔ (
      (session.command_level ≢ codes "admin")
      × (root_frame.name ≡ codes "base")
      × IsInRole ctx admin_level
      × IsAdmitted hashers ctx admin_level clock (some (codes "pw")))
enter_command_level_iff_example =
    enter_command_level_iff hashers ctx admin_level clock (some (codes "pw")) session root_frame
      refl current_frame

enter_command_level-Leaves_example :
    Leaves ctx session admin_level 60
      (enter_command_level hashers ctx admin_level clock (some (codes "no")))
enter_command_level-Leaves_example =
    enter_command_level-Leaves hashers ctx admin_level clock (some (codes "no")) session root_frame
      refl current_frame

stamped :
    (password_gate hashers ctx admin_level clock (some (codes "pw"))).0.last_authenticated_at
    ≢ admin_level.last_authenticated_at
unfolding password_gate within_reauth_grace_period within_auth_bypass_trust
    routercli.Auth.RateLimiter.allow verify_password split_password_string split_dollar find_hasher
stamped = ground arith

abbrev ops : List Op
ops = pushed root_frame ∷ switched (codes "exec") (codes "%") nil ∷ popped ∷ popped ∷ ended ∷ []

perform_run-new_example :
    let p = promised_run (at_start (codes "base") (codes ">") nil) ops in
    (perform_run (new_command_level_stack (codes "base") (codes ">") nil) ops ≡ some (stack p))
    × (current (stack p) ≡ some (top p))
    × (depth (stack p) ≡ suc (length p.above))
    × (at_root (stack p) ≡ is_nil p.above)
perform_run-new_example = perform_run-new (codes "base") (codes ">") nil ops
