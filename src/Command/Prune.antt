-- ===== src/Command/Prune.antt =====
-- command/prune.go: `PruneDisabledCommands`. The walk deletes from the map that it ranges over; the
-- model returns the map that is left, or the error, after which the callers give the tree up.
pub mod Kept
use routercli.Base.{
  Bool, true, false, not, Option, none, some, List, [], ◌∷◌, ◌++◌, if◌then◌else◌, Text, codes,
  text_eq,
}
use routercli.Command.Tree.{Command, command, Tree, nil, entry, Fields}

-- The flags, by name.
abbrev pub Flags : Type 0
Flags = List (Text × Bool)

-- `enabled[name]`, with `none` where it is not known.
unfoldable pub flag : Flags → Text → Option Bool
flag [] name = none
flag ((key, on) ∷ enabled) name = if text_eq key name then some on else flag enabled name

-- The command, by its path, and the flag that it names.
pub data Pruned : Type 0 where
  left : Tree → Pruned
  unknown_flag : Text → Text → Pruned

-- What the flags say of a command: it stays, it goes, or its flag is not known.
pub data Verdict : Type 0 where
  stays goes unknown : Verdict

unfoldable pub verdict : Flags → Text → Verdict
unfolding flag
verdict enabled [] = stays
verdict enabled (c ∷ requires) = elim (flag enabled (c ∷ requires)) [
  | none ↦ unknown
  | some true ↦ stays
  | some false ↦ goes
]

abbrev pub path_of : Text → Text → Text
path_of path name = if not (text_eq path []) then path ++ (codes " " ++ name) else name

-- The entry, by its verdict and what became of its subcommands and of the other entries.
abbrev pub with_entry : Verdict → Text → Text → Fields → Pruned → Pruned → Pruned
with_entry unknown at name f sub rest = unknown_flag at f.requires
with_entry goes at name f sub rest = rest
with_entry stays at name f (left sub) (left rest) = left (entry name (command f sub) rest)
with_entry stays at name f (left sub) (unknown_flag p r) = unknown_flag p r
with_entry stays at name f (unknown_flag p r) rest = unknown_flag p r

-- `PruneDisabledCommands`.
unfoldable pub prune_disabled_commands : Tree → Flags → Text → Pruned
unfolding verdict
prune_disabled_commands nil enabled path = left nil
prune_disabled_commands (entry name (command f sub) rest) enabled path =
    with_entry (verdict enabled f.requires) (path_of path name) name f
      (prune_disabled_commands sub enabled (path_of path name))
      (prune_disabled_commands rest enabled path)
