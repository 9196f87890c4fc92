-- ===== src/Command/TreeTests.antt =====
-- Runs of the assembly of trees, of replay and of a pending reload, and the theorems about them at
-- inputs that meet their hypotheses.
use routercli.Base.{false, Option, none, some, List, [], ◌∷◌, ◌≡◌, inl, refl, Text, codes}
use routercli.Command.Tree.{command, Tree, nil, entry, Fields, find, plain_fields}
use routercli.Command.Context.{CommandLevel, AppContext, find_level}
use routercli.Command.Stack.{merge_trees, new_command_level_stack}
use routercli.Command.Stack.Merge.{IsMerge, merge_trees-IsMerge}
use routercli.Command.Prune.{Flags, left, prune_disabled_commands}
use routercli.Command.Prune.Kept.{lookup, lookup_enabled, prune_disabled_commands-left}
use routercli.Command.Build.{err, parent_cycle, filter_commands, load_tree_structure, has_name}
use routercli.Command.Build.Switches.{nested_switch_kept}
use routercli.Command.Build.Steps.{Post}
use routercli.Command.Build.Complete.{IsStructure, load_tree_structure-IsStructure}
use routercli.Command.Replay.{Handlers, returned, load_startup_config, contents}
use routercli.Command.Replay.Resets.{IsStarted, load_startup_config-IsStarted}
use routercli.Command.Reload.{new_pending_reload, schedule}
use routercli.Command.Reload.Run.{In, Trace, beginning, scheduled, here, step}
use routercli.Command.Reload.Fires.{LeadsToSend, sent_not_stopped, reload_fires}
use routercli.Command.LevelTests.{base_level, admin_level, ctx}

abbrev one : Text → Fields → Tree → Tree
one name f sub = entry name (command f sub) nil

abbrev runs : Text → Fields
runs name = record plain_fields { run = name }

abbrev needs : Text → Fields
needs flag_name = record plain_fields { requires = flag_name }

abbrev show_tree : Tree
show_tree = one (codes "version") (runs (codes "ShowVersion")) nil

abbrev tree : Tree
tree =
    entry (codes "totp") (command (needs (codes "mfa")) nil)
      (one (codes "show") plain_fields show_tree)

abbrev off : Flags
off = (codes "mfa", false) ∷ []

prune-tree : prune_disabled_commands tree off [] ≡ left (one (codes "show") plain_fields show_tree)
unfolding prune_disabled_commands
prune-tree = refl

prune_disabled_commands-left_example :
    lookup (one (codes "show") plain_fields show_tree) (codes "totp") []
    ≡ lookup_enabled off tree (codes "totp") []
unfolding find prune_disabled_commands
prune_disabled_commands-left_example =
    prune_disabled_commands-left tree off [] (one (codes "show") plain_fields show_tree) (refl, tt)
      (refl, tt, (refl, (refl, tt, tt), tt)) refl (codes "totp") []

merge_trees-IsMerge_example : IsMerge tree show_tree (merge_trees tree show_tree)
unfolding find
merge_trees-IsMerge_example = merge_trees-IsMerge tree show_tree (refl, tt)

merge_twice : merge_trees tree tree ≡ none
unfolding merge_trees find
merge_twice = refl

abbrev switches : List Text
switches = codes "EnterConfig" ∷ []

abbrev nested : Tree
nested = one (codes "system") plain_fields (
    one (codes "setup") (runs (codes "ShowSetup"))
      (one (codes "config") (runs (codes "EnterConfig")) nil))

nested_switch_kept_example :
    lookup (filter_commands switches nested) (codes "system") (codes "setup" ∷ codes "config" ∷ [])
    ≡ some (runs (codes "EnterConfig"))
unfolding has_name find
nested_switch_kept_example =
    nested_switch_kept switches nested (codes "system") plain_fields
      (one (codes "setup") (runs (codes "ShowSetup"))
        (one (codes "config") (runs (codes "EnterConfig")) nil))
      refl refl (refl, λ h. cc h, tt) (codes "setup") (codes "config" ∷ [])

abbrev levels : List CommandLevel
levels = admin_level ∷ base_level ∷ []

abbrev load : Text → Option Tree
load path = some (one (codes "exit") plain_fields nil)

abbrev loops : List CommandLevel
loops = base_level ∷ record admin_level { parent = codes "admin" } ∷ []

load-loops : load_tree_structure load loops [] ≡ err (parent_cycle (codes "admin"))
unfolding load_tree_structure find_level
load-loops = refl

load_tree_structure-IsStructure_example :
    Post (IsStructure levels) (load_tree_structure load levels (codes "common.yaml"))
unfolding find_level
load_tree_structure-IsStructure_example =
    load_tree_structure-IsStructure load levels (codes "common.yaml") (refl, (refl, tt))

abbrev handlers : Handlers
handlers name c args = returned c none

abbrev config : List Text
config = codes "! saved" ∷ codes "exit" ∷ []

abbrev replay_ctx : AppContext
replay_ctx = record ctx {
  position =
      new_command_level_stack (codes "base") (codes ">")
        (one (codes "exit") (record plain_fields { run_func = some (codes "Exit") }) nil);
}

load_startup_config-IsStarted_example :
    IsStarted replay_ctx (load_startup_config 3 handlers replay_ctx (contents (codes "exit")))
load_startup_config-IsStarted_example =
    load_startup_config-IsStarted 3 handlers replay_ctx (contents (codes "exit")) refl refl

abbrev one_scheduled : Trace
one_scheduled = record beginning { state = schedule new_pending_reload }

abbrev replaced : Trace
replaced = record { state = schedule (schedule new_pending_reload); stopped = 0 ∷ []; sent = [] }

sent_not_stopped_example : ¬ In 0 []
unfolding schedule
sent_not_stopped_example =
    sent_not_stopped replaced (step (step here scheduled) scheduled) 0 (inl refl)

reload_fires_example : LeadsToSend 0 one_scheduled
unfolding schedule
reload_fires_example = reload_fires one_scheduled 0 (step here scheduled) refl
