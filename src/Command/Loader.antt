-- ===== src/Command/Loader.antt =====
-- command/loader.go: from a decoded file to a tree that can run. What the YAML library makes of a
-- node is an argument. The strings of a tree are their runes here, each valid UTF-8, and the texts of
-- a command are tested in one order, where the source ranges over a map.
pub mod Clean
pub mod Handlers
use routercli.Base.{
  ℕ, suc, Bool, true, false, not, Option, none, some, List, [], ◌∷◌, ◌++◌, map, if◌then◌else◌, Text,
  codes, text_eq,
}
use routercli.Sanitize.{Piece, rune, InputError, validate_input}
use routercli.Command.Tree.{Command, command, Tree, nil, entry, Fields}
use routercli.Command.Registry.{Registry, lookup_handler}

-- `prefix + " " + name`, or the name alone.
abbrev pub path_of : Text → Text → Text
path_of prefix name = if not (text_eq prefix []) then prefix ++ (codes " " ++ name) else name

abbrev pub first_error : List (Text × Text) → Option (Text × InputError)
first_error [] = none
first_error ((label, value) ∷ texts) = elim (validate_input (map rune value)) [
  | none ↦ first_error texts
  | some e ↦ some (label, e)
]

-- The texts of a command that a terminal may show, by their labels.
abbrev pub texts_of : Text → Fields → List (Text × Text)
texts_of name f =
    (codes "name", name)
    ∷ (codes "desc", f.desc)
    ∷ (codes "help", f.help)
    ∷ (codes "arghelp", f.arg_help)
    ∷ []

-- The command, the label of the text, and what is wrong with it.
pub data TextError : Type 0 where
  unusable : Text → Text × InputError → TextError

abbrev pub or_else {ℓ} : {A : Type ℓ} → Option A → Option A → Option A
or_else none o = o
or_else (some a) o = some a

abbrev pub unusable_text : Text → Option (Text × InputError) → Option TextError
unusable_text full none = none
unusable_text full (some e) = some (unusable full e)

-- `validateTreeText`: `none` is a nil error.
unfoldable pub validate_tree_text : Tree → Text → Option TextError
validate_tree_text nil prefix = none
validate_tree_text (entry name (command f sub) rest) prefix =
    or_else (unusable_text (path_of prefix name) (first_error (texts_of name f)))
      (or_else (validate_tree_text sub (path_of prefix name)) (validate_tree_text rest prefix))

-- The tree with its handlers, or the command and the handler that nothing registered.
pub data Resolved : Type 0 where
  linked : Tree → Resolved
  unregistered : Text → Text → Resolved

abbrev pub linked_entry : Text → Fields → Resolved → Resolved → Resolved
linked_entry name f (linked sub) (linked rest) = linked (entry name (command f sub) rest)
linked_entry name f (linked sub) (unregistered p r) = unregistered p r
linked_entry name f (unregistered p r) rest = unregistered p r

-- The handler of a command: `none` is one that nothing registered.
unfoldable pub with_handler : Registry → Fields → Option Fields
unfolding lookup_handler
with_handler registry f =
    if text_eq f.run [] then some f else elim (lookup_handler registry f.run) [
      | none ↦ none
      | some fn ↦ some (record f { run_func = some fn })
    ]

abbrev pub link : Text → Text → Option Fields → Text → Resolved → Resolved → Resolved
link at name none run sub rest = unregistered at run
link at name (some f) run sub rest = linked_entry name f sub rest

-- `resolveHandlers`.
unfoldable pub resolve_handlers : Registry → Tree → Text → Resolved
unfolding with_handler
resolve_handlers registry nil path = linked nil
resolve_handlers registry (entry name (command f sub) rest) path =
    link (path_of path name) name (with_handler registry f) f.run
      (resolve_handlers registry sub (path_of path name)) (resolve_handlers registry rest path)

-- What the decoder makes of a file: no document, a tree, or an error.
pub data Decoded : Type 0 where
  no_document : Decoded
  one_document : Tree → Decoded
  many_documents undecodable : Decoded

pub data Loaded : Type 0 where
  tree : Tree → Loaded
  bad_file several_documents : Loaded
  bad_text : TextError → Loaded
  bad_handler : Text → Text → Loaded

abbrev pub built : Resolved → Loaded
built (linked t) = tree t
built (unregistered at run) = bad_handler at run

-- `LoadTree`, after the file is read and decoded.
unfoldable pub load_tree : Registry → Decoded → Loaded
unfolding validate_tree_text resolve_handlers
load_tree registry no_document = tree nil
load_tree registry many_documents = several_documents
load_tree registry undecodable = bad_file
load_tree registry (one_document raw) = elim (validate_tree_text raw []) [
  | some e ↦ bad_text e
  | none ↦ built (resolve_handlers registry raw [])
]

-- `result[name] = cmd`.
unfoldable pub assign : Tree → Text → Command → Tree
assign nil name c = entry name c nil
assign (entry key d rest) name c =
    if text_eq key name then entry key c rest else entry key d (assign rest name c)

abbrev pub with_index : ℕ → Command → Command
with_index i (command f sub) = command (record f { def_index = i }) sub

pub data Mapping : Type 0 where
  mapping : Tree → Mapping
  bad_name : Mapping
  bad_command : Text → Mapping

-- The loop of `UnmarshalYAML` over the pairs of a mapping node: a decoder of names, and one of
-- commands.
unfoldable pub unmarshal_pairs {ℓ} :
    {Node : Type ℓ}
    → (Node → Option Text)
    → (Node → Option Command)
    → ℕ
    → List (Node × Node)
    → Tree
    → Mapping
unfolding assign
unmarshal_pairs decode_name decode_command i [] result = mapping result
unmarshal_pairs decode_name decode_command i ((key, value) ∷ pairs) result =
    elim (decode_name key) [
      | none ↦ bad_name
      | some name ↦ elim (decode_command value) [
        | none ↦ bad_command name
        | some cmd ↦
            unmarshal_pairs decode_name decode_command (suc i) pairs
              (assign result name (with_index i cmd))
      ]
    ]
