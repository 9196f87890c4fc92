-- ===== src/Command/Registry.antt =====
-- command/registry.go: the registry of handlers. `none` is the panic on a name that is registered
-- twice.
use routercli.Base.{Option, none, some, List, [], ◌∷◌, if◌then◌else◌, Text, text_eq}
use routercli.Command.Tree.{Handler}

abbrev pub Registry : Type 0
Registry = List (Text × Handler)

-- `lookupHandler`.
unfoldable pub lookup_handler : Registry → Text → Option Handler
lookup_handler [] name = none
lookup_handler ((key, f) ∷ registry) name =
    if text_eq key name then some f else lookup_handler registry name

-- `Register`.
unfoldable pub register : Registry → Text → Handler → Option Registry
unfolding lookup_handler
register registry name f = elim (lookup_handler registry name) [
  | some g ↦ none
  | none ↦ some ((name, f) ∷ registry)
]
