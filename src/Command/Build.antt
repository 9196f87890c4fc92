-- ===== src/Command/Build.antt =====
-- command/treestructure.go: how `LoadTreeStructure` makes the tree of each Command Level. The
-- reading of a file is the argument `load_tree`, with `none` as its error. A map of levels is a list;
-- the source visits the levels that remain in any order, the model in that of the list.
pub mod Switches
mod Names
pub mod Steps
pub mod Turns
pub mod Hierarchy
pub mod Complete
use routercli.Base.{
  ℕ, zero, suc, Bool, true, false, not, ◌&&◌, ◌||◌, Option, none, some, List, [], ◌∷◌, ◌++◌, ltb,
  ◌==◌, if◌then◌else◌, length, Text, text_eq,
}
use routercli.Command.Tree.{Command, command, Tree, nil, entry, Fields, is_empty}
use routercli.Command.Context.{CommandLevel, TreeStructure, find_level}
use routercli.Command.Stack.{merge_trees}

-- `markCommonCommands`.
unfoldable pub mark_common_commands : Tree → Tree
mark_common_commands nil = nil
mark_common_commands (entry name (command f sub) rest) =
    entry name (command (record f { is_common_command = true }) (mark_common_commands sub))
      (mark_common_commands rest)

-- `switchNames[run]`.
unfoldable pub has_name : List Text → Text → Bool
has_name [] name = false
has_name (n ∷ names) name = if text_eq n name then true else has_name names name

-- `len(tree)`.
abbrev pub size : Tree → ℕ
size nil = 0
size (entry name c rest) = suc (size rest)

-- An entry that does not switch levels, by its subcommands as they are and as they are filtered.
unfoldable pub filtered_entry : Text → Fields → Tree → Tree → Tree → Tree
filtered_entry name f sub filtered_sub out =
    if not (is_empty sub) && not (size filtered_sub == size sub)
    then (if text_eq f.run [] && size filtered_sub == 0
        then out
        else entry name (command f filtered_sub) out)
    else entry name (command f sub) out

-- `filterLevelSwitchCommands`, with at least one name.
unfoldable pub filter_commands : List Text → Tree → Tree
unfolding has_name filtered_entry
filter_commands switch_names nil = nil
filter_commands switch_names (entry name (command f sub) rest) =
    let out = filter_commands switch_names rest in
    let filtered_sub = filter_commands switch_names sub in
    if not (text_eq f.run []) && has_name switch_names f.run
    then out
    else filtered_entry name f sub filtered_sub out

-- `filterLevelSwitchCommands`.
unfoldable pub filter_level_switch_commands : Tree → List Text → Tree
unfolding filter_commands
filter_level_switch_commands tree [] = tree
filter_level_switch_commands tree (n ∷ switch_names) = filter_commands (n ∷ switch_names) tree

pub data BuildError : Type 0 where
  no_base many_bases : BuildError
  unknown_parent : Text → Text → BuildError
  parent_cycle : Text → BuildError
  common_unreadable : BuildError
  unreadable : Text → Text → BuildError
  parent_conflict : Text → Text → BuildError
  common_conflict : Text → BuildError
  no_order : BuildError

unfoldable pub base_count : List CommandLevel → ℕ
base_count [] = 0
base_count (l ∷ levels) = if l.is_base then suc (base_count levels) else base_count levels

-- The first level with a parent that is not defined.
unfoldable pub missing_parent : List CommandLevel → List CommandLevel → Option BuildError
missing_parent levels [] = none
missing_parent levels (l ∷ rest) =
    if text_eq l.parent [] then missing_parent levels rest else elim (find_level levels l.parent) [
      | none ↦ some (unknown_parent l.name l.parent)
      | some p ↦ missing_parent levels rest
    ]

-- The walk from a level to a base: it may take as many steps as there are levels. Every parent is
-- defined by then.
unfoldable pub chain_ends : ℕ → List CommandLevel → Text → Bool
chain_ends zero levels parent = text_eq parent []
chain_ends (suc steps) levels parent = elim (text_eq parent []) [
  | true ↦ true
  | false ↦ elim (find_level levels parent) [
    | none ↦ false
    | some p ↦ chain_ends steps levels p.parent
  ]
]

unfoldable pub endless : List CommandLevel → List CommandLevel → Option BuildError
unfolding chain_ends
endless levels [] = none
endless levels (l ∷ rest) =
    if chain_ends (length levels) levels l.parent
    then endless levels rest
    else some (parent_cycle l.name)

abbrev pub or_else {ℓ} : {A : Type ℓ} → Option A → Option A → Option A
or_else none o = o
or_else (some a) o = some a

-- `verifyLevelHierarchy`.
unfoldable pub verify_level_hierarchy : List CommandLevel → Option BuildError
unfolding base_count missing_parent endless
verify_level_hierarchy levels =
    if base_count levels == 0
    then some no_base
    else if ltb 1 (base_count levels)
    then some many_bases
    else or_else (missing_parent levels levels) (endless levels levels)

-- The names of the commands that enter and leave levels.
unfoldable pub level_switch_names : List CommandLevel → List Text
level_switch_names [] = []
level_switch_names (l ∷ levels) =
    let enter = if not (text_eq l.enter_command []) then l.enter_command ∷ [] else [] in
    let exit = if not (text_eq l.exit_command []) then l.exit_command ∷ [] else [] in
    enter ++ (exit ++ level_switch_names levels)

pub data Result {ℓ} (A : Type ℓ) : Type ℓ where
  ok : A → Result A
  err : BuildError → Result A
  no_fuel : Result A

abbrev pub and_then {ℓ κ} : {A : Type ℓ} {B : Type κ} → Result A → (A → Result B) → Result B
and_then (ok a) run = run a
and_then (err e) run = err e
and_then no_fuel run = no_fuel

abbrev pub or_fail {ℓ} : {A : Type ℓ} → Option A → BuildError → Result A
or_fail none e = err e
or_fail (some a) e = ok a

-- The loop's `rawTrees` and `order`.
pub record Progress : Type 0 where
  pub raw_trees : List (Text × Tree)
  pub order : List CommandLevel

-- `rawTrees[name]`.
unfoldable pub raw_tree : List (Text × Tree) → Text → Option Tree
raw_tree [] name = none
raw_tree ((key, t) ∷ raw) name = if text_eq key name then some t else raw_tree raw name

abbrev pub or_nil : Option Tree → Tree
or_nil none = nil
or_nil (some t) = t

-- The parent of the level is not resolved yet.
unfoldable pub waits : Progress → CommandLevel → Bool
unfolding raw_tree
waits p l =
    if text_eq l.parent []
    then false
    else elim (raw_tree p.raw_trees l.parent) [ none ↦ true | some t ↦ false ]

-- `effectiveRaw`.
unfoldable pub effective_raw : List Text → Progress → CommandLevel → Tree → Result Tree
unfolding filter_level_switch_commands raw_tree
effective_raw switch_names p l own_raw =
    if l.inherit_parent && not (text_eq l.parent [])
    then or_fail
        (merge_trees
          (filter_level_switch_commands (or_nil (raw_tree p.raw_trees l.parent)) switch_names)
          own_raw)
        (parent_conflict l.name l.parent)
    else ok own_raw

-- `finalTree`.
unfoldable pub final_tree : Tree → CommandLevel → Tree → Result Tree
final_tree common_tree l effective =
    if not l.skip_common_merge
    then or_fail (merge_trees effective common_tree) (common_conflict l.name)
    else ok effective

-- One level of the inner loop, its parent being there.
unfoldable pub resolve_level :
    (Text → Option Tree) → Tree → List Text → Progress → CommandLevel → Result Progress
unfolding effective_raw final_tree
resolve_level load_tree common_tree switch_names p l =
    and_then (or_fail (load_tree l.tree_file) (unreadable l.name l.tree_file)) (λ own_raw.
      and_then (effective_raw switch_names p l own_raw) (λ effective.
        and_then (final_tree common_tree l effective) (λ final. ok (record {
          raw_trees = (l.name, effective) ∷ p.raw_trees;
          order = p.order ++ record l { tree = final } ∷ [];
        }))))

-- What one turn of the outer loop leaves.
pub record Turn : Type 0 where
  pub remaining : List CommandLevel
  pub progress : Progress
  pub progressed : Bool

abbrev pub keep_waiting : CommandLevel → Turn → Result Turn
keep_waiting l t = ok (record t { remaining = l ∷ t.remaining })

abbrev pub note_progress : Turn → Result Turn
note_progress t = ok (record t { progressed = true })

-- The inner loop.
unfoldable pub turn :
    (Text → Option Tree) → Tree → List Text → List CommandLevel → Progress → Result Turn
unfolding waits resolve_level
turn load_tree common_tree switch_names [] p =
    ok (record { remaining = []; progress = p; progressed = false })
turn load_tree common_tree switch_names (l ∷ remaining) p = elim (waits p l) [
  | true ↦ and_then (turn load_tree common_tree switch_names remaining p) (keep_waiting l)
  | false ↦
      and_then (resolve_level load_tree common_tree switch_names p l)
        (λ p'. and_then (turn load_tree common_tree switch_names remaining p') note_progress)
]

-- The outer loop.
unfoldable pub build_order :
    ℕ → (Text → Option Tree) → Tree → List Text → List CommandLevel → Progress → Result Progress
unfolding turn
build_order fuel load_tree common_tree switch_names [] p = ok p
build_order zero load_tree common_tree switch_names (l ∷ remaining) p = no_fuel
build_order (suc fuel) load_tree common_tree switch_names (l ∷ remaining) p =
    and_then (turn load_tree common_tree switch_names (l ∷ remaining) p) (λ t.
      if not t.progressed
      then err no_order
      else build_order fuel load_tree common_tree switch_names t.remaining t.progress)

abbrev at_start : Progress
at_start = record { raw_trees = []; order = [] }

abbrev structure : Progress → Result TreeStructure
structure p = ok (record { order = p.order })

-- `LoadTreeStructure`, on the levels that `parseTreeManifest` reads.
unfoldable pub load_tree_structure :
    (Text → Option Tree) → List CommandLevel → Text → Result TreeStructure
unfolding verify_level_hierarchy level_switch_names build_order mark_common_commands
load_tree_structure load_tree levels common_path = elim (verify_level_hierarchy levels) [
  | some e ↦ err e
  | none ↦ and_then (or_fail (load_tree common_path) common_unreadable) (λ common_tree.
      and_then
        (build_order (length levels) load_tree (mark_common_commands common_tree)
          (level_switch_names levels) levels at_start)
        structure)
]

-- `Base`, with `none` as its panic.
unfoldable pub base : List CommandLevel → Option CommandLevel
base [] = none
base (l ∷ order) = if l.is_base then some l else base order
