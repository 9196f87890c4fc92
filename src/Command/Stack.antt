-- ===== src/Command/Stack.antt =====
-- command/commandlevelstack.go: `CommandLevelStack` and `MergeTrees`. An operation that would index out of range
-- returns `none`, a panic in the source.
pub mod Refine
pub mod Merge
use routercli.Base.{
  ℕ, ◌-◌, Bool, true, false, Option, none, some, List, [], ◌∷◌, ◌++◌, leb, if◌then◌else◌, length,
  take, get_elem?, Text,
}
use routercli.Command.Tree.{Command, Tree, nil, entry, find}
use routercli.Command.Context.{CommandLevelFrame, CommandLevelStack}

-- `NewCommandLevelStack`.
abbrev pub new_command_level_stack : Text → Text → Tree → CommandLevelStack
new_command_level_stack root_name root_suffix root_tree = record {
  frames =
      record { name = root_name; prompt_suffix = root_suffix; tree = root_tree; context = [] } ∷ [];
}

-- `Push`.
unfoldable pub push : CommandLevelStack → CommandLevelFrame → CommandLevelStack
push m frame = record { frames = m.frames ++ frame ∷ [] }

-- `Pop`: whether it popped, and the stack.
unfoldable pub pop : CommandLevelStack → Bool × CommandLevelStack
pop m =
    if leb (length m.frames) 1
    then (false, m)
    else (true, record { frames = take (length m.frames - 1) m.frames })

-- `PopToRoot`: `frames[:1]`.
unfoldable pub pop_to_root : CommandLevelStack → Option CommandLevelStack
pop_to_root m = elim (m.frames) [
  | [] ↦ none
  | root ∷ above ↦ some (record { frames = take 1 (root ∷ above) })
]

-- `Current`.
unfoldable pub current : CommandLevelStack → Option CommandLevelFrame
current m = elim (m.frames) [
  | [] ↦ none
  | root ∷ above ↦ get_elem? (root ∷ above) (length (root ∷ above) - 1)
]

-- `AtRoot`.
unfoldable pub at_root : CommandLevelStack → Bool
at_root m = leb (length m.frames) 1

-- `Depth`.
unfoldable pub depth : CommandLevelStack → ℕ
depth m = length m.frames

-- `SetRootTree`.
unfoldable pub set_root_tree : CommandLevelStack → Text → Text → Tree → Option CommandLevelStack
set_root_tree m name prompt_suffix tree = elim (m.frames) [
  | [] ↦ none
  | root ∷ above ↦ some (record {
    frames = record root { name = name; prompt_suffix = prompt_suffix; tree = tree } ∷ above;
  })
]

-- The loop of `MergeTrees` over `overlay`: `none` is the error on a name that is in both.
unfoldable pub overlay_onto : Tree → Tree → Option Tree
overlay_onto merged nil = some merged
overlay_onto merged (entry name c rest) = elim (find merged name) [
  | some other ↦ none
  | none ↦ overlay_onto (entry name c merged) rest
]

-- `MergeTrees`.
unfoldable pub merge_trees : Tree → Tree → Option Tree
unfolding overlay_onto
merge_trees base overlay = overlay_onto base overlay
