-- ===== src/Command/Literal.antt =====
-- command/literalpath.go: `LiteralCommandPath`. The source ranges over a map, so it may find any of
-- several commands; the model finds the first entry.
pub mod Leads
use routercli.Base.{
  Bool, true, false, not, ◌&&◌, Option, none, some, List, [], ◌∷◌, if◌then◌else◌, Text, text_eq,
}
use routercli.Command.Tree.{Command, command, Tree, nil, entry, Fields, is_empty}

-- The path below `key`, or else what the other entries give.
abbrev pub below_or : Text → Option (List Text) → Option (List Text) → Option (List Text)
below_or key none others = others
below_or key (some rest) others = some (key ∷ rest)

-- `LiteralCommandPath`.
unfoldable pub literal_command_path : Tree → Text → Option (List Text)
literal_command_path nil run_key = none
literal_command_path (entry key (command f sub) rest) run_key =
    let below = literal_command_path sub run_key in
    let others = literal_command_path rest run_key in
    if text_eq f.run run_key
    then some (key ∷ [])
    else if not (is_empty sub)
    then below_or key below others
    else others
