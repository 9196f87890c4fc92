-- ===== src/Command/HelpTests.antt =====
-- Runs of the loading, the checks and the help of a tree, and the theorems about them at inputs that
-- meet their hypotheses.
use routercli.Base.{none, some, [], ◌∷◌, ◌≡◌, ◌↔◌, refl, arith, codes}
use routercli.Command.Tree.{command, Tree, nil, entry, Fields, plain_fields}
use routercli.Command.Registry.{Registry}
use routercli.Command.Prune.Kept.{lookup}
use routercli.Command.Loader.{linked, resolve_handlers}
use routercli.Command.Loader.Handlers.{IsLinked, resolve_handlers-linked}
use routercli.Command.Verify.{verify_registered_commands_are_reachable}
use routercli.Command.Roles.Gate.{Has}
use routercli.Command.Verify.Reach.{IsRegistered, IsReached, reachable_iff}
use routercli.Command.Help.Names.{default_list_options, listable_names, sort_command_names}
use routercli.Command.Help.{help_text, desc_of}
use routercli.Command.Help.Listing.{AnyBlank, help_text-none_iff}
use routercli.Command.LevelTests.{base_level}

abbrev registry : Registry
registry = (codes "ShowVersion", codes "ShowVersion") ∷ (codes "Old", codes "Old") ∷ []

abbrev version : Fields
version = record plain_fields { run = codes "ShowVersion"; desc = codes "Show it" }

abbrev tree : Tree
tree = entry (codes "version") (command version nil) nil

abbrev ready : Tree
ready =
    entry (codes "version") (command (record version { run_func = some (codes "ShowVersion") }) nil)
      nil

linked_tree : resolve_handlers registry tree [] ≡ linked ready
unfolding resolve_handlers
linked_tree = refl

resolve_handlers-linked_example :
    IsLinked registry (lookup tree (codes "version") []) (lookup ready (codes "version") [])
resolve_handlers-linked_example =
    resolve_handlers-linked registry tree [] ready linked_tree (codes "version") []

reachable_iff_example :
    Has (codes "Old") (verify_registered_commands_are_reachable (λ n. n) registry (base_level ∷ []))
    ↔ (IsRegistered (codes "Old") registry × ¬ IsReached (codes "Old") (base_level ∷ []))
reachable_iff_example =
    reachable_iff (λ n. n) registry (base_level ∷ []) (codes "Old") (ground arith)

abbrev blank : Tree
blank = entry (codes "version") (command (record version { desc = codes "  " }) nil) nil

help_text-none_iff_example :
    (help_text blank none default_list_options 80 ≡ none)
    ↔ AnyBlank
        (desc_of none blank)
        (sort_command_names (listable_names blank) blank default_list_options)
help_text-none_iff_example = help_text-none_iff blank none default_list_options 80
