-- ===== src/Completer.antt =====
-- completer/completer.go: what a Tab and a "?" do to the line that is being edited. The line and
-- what is printed are runes; a cursor beyond the line, or at its start under a "?", is a panic of
-- the source. `is_same` is the comparison of two pointers to commands. Debug logging is left out, as
-- is the terminal width, which is a field of `Env`.
pub mod Words
pub mod Rewrite
pub mod Keys
pub mod Unwrap
pub mod Lost
mod Tests
use routercli.Base.{
  ℕ, zero, suc, ◌+◌, ◌-◌, Bool, true, false, not, ◌&&◌, ◌||◌, Option, none, some, List, [], ◌∷◌,
  ◌++◌, ltb, leb, ◌==◌, if◌then◌else◌, length, take, drop, get_elem?, Text, codes, text_eq, join,
}
use routercli.Command.Tree.{Command, Tree, fields as command_fields, find, subcommands, is_empty}
use routercli.Command.Args.{accepts_more_args}
use routercli.Command.Resolve.{ResolveResult, Outcome, returns, nil_dereference, no_fuel, resolve}
use routercli.Command.Help.{
  Shown, shows, panics, out_of_fuel, lines_of, cr_line, tree_of, help_for_path, empty_at, is_some,
}
use routercli.Command.Help.Layout.{fields, println}
use routercli.Command.Help.Names.{Translate, ListOptions, resolved_arg_help, sort_command_names}

-- What the listener was made with, and `l.position.Current().Tree`.
pub record Env : Type 0 where
  pub fuel : ℕ
  pub tree : Tree
  pub is_same : Command → Command → Bool
  pub translate : Translate
  pub list_options : ListOptions
  pub width : ℕ
  pub current_prompt : Text

-- `TreeListener`, by the fields that a key press changes.
pub record TreeListener : Type 0 where
  pub last_ambiguous_input : Text
  pub tap_count : ℕ

abbrev pub reset : TreeListener
reset = record { last_ambiguous_input = []; tap_count = 0 }

-- What a key press leaves: the listener, what is printed, and the line with its cursor where it is
-- rewritten.
pub record Change : Type 0 where
  pub listener : TreeListener
  pub printed : Text
  pub new_line : Option (Text × ℕ)

pub data Changed : Type 0 where
  changed : Change → Changed
  crashed : Changed
  unresolved : Changed

-- `strings.HasSuffix(s, " ")`.
unfoldable pub ends_in_space : Text → Bool
ends_in_space [] = false
ends_in_space (r ∷ []) = r == b' '
ends_in_space (r ∷ q ∷ s) = ends_in_space (q ∷ s)

-- `isHelpCommand`.
unfoldable pub is_help_command : Env → Option Command → Bool
is_help_command env none = false
is_help_command env (some cmd) = elim (find env.tree (codes "help")) [
  | none ↦ false
  | some target ↦ env.is_same target cmd
]

abbrev pub is_nil {ℓ} : {A : Type ℓ} → List A → Bool
is_nil [] = true
is_nil (a ∷ l) = false

-- What a resolution tells the loop of `unwrapHelpTokens`: to return, or to go on with the arguments.
unfoldable pub unwraps : Env → ResolveResult → Bool
unfolding is_help_command
unwraps env res =
    is_nil res.ambiguous
    && is_some res.directives
    && not (is_nil res.args)
    && is_help_command env res.directives

pub data Unwrapped : Type 0 where
  unwrapped : List Text → Text → Unwrapped
  broken : Unwrapped
  endless : Unwrapped

abbrev pub unwrap_with : Outcome ResolveResult → (ResolveResult → Unwrapped) → Unwrapped
unwrap_with nil_dereference run = broken
unwrap_with no_fuel run = endless
unwrap_with (returns res) run = run res

abbrev pub help_prefix : Text → ResolveResult → Text
help_prefix prefix res = prefix ++ (join res.full_name (codes " ") ++ codes " ")

-- `unwrapHelpTokens`, with a number of turns.
unfoldable pub unwrap_help_tokens : ℕ → Env → List Text → Text → Unwrapped
unfolding unwraps
unwrap_help_tokens zero env tokens prefix =
    unwrap_with (resolve env.fuel env.tree tokens)
      (λ res. elim (unwraps env res) [ true ↦ endless | false ↦ unwrapped tokens prefix ])
unwrap_help_tokens (suc turns) env tokens prefix =
    unwrap_with (resolve env.fuel env.tree tokens) (λ res. elim (unwraps env res) [
      | true ↦ unwrap_help_tokens turns env res.args (help_prefix prefix res)
      | false ↦ unwrapped tokens prefix
    ])

abbrev pub ambig_index : ResolveResult → ℕ
ambig_index res = if res.negated then suc res.ambig_at else res.ambig_at

abbrev pub token_at : List Text → ℕ → Text
token_at tokens i = elim (get_elem? tokens i) [ none ↦ [] | some tok ↦ tok ]

-- `ambiguousRewriteBuffer`.
unfoldable pub ambiguous_rewrite_buffer : List Text → ResolveResult → Text → Text
ambiguous_rewrite_buffer tokens res no_prefix =
    let resolved_prefix = join res.full_name (codes " ") in
    let separator = if not (text_eq resolved_prefix []) then codes " " else [] in
    no_prefix ++ (resolved_prefix ++ (separator ++ token_at tokens (ambig_index res)))

-- `ambiguousTokenIsEmpty`.
unfoldable pub ambiguous_token_is_empty : List Text → ResolveResult → Bool
ambiguous_token_is_empty tokens res = empty_at tokens (ambig_index res)

-- The count of Tabs on one input.
unfoldable pub tap : TreeListener → Text → TreeListener
tap l typed =
    if text_eq typed l.last_ambiguous_input
    then record l { tap_count = suc l.tap_count }
    else record { last_ambiguous_input = typed; tap_count = 1 }

-- `completeAmbiguous`.
unfoldable pub complete_ambiguous :
    Env → TreeListener → Text → List Text → ResolveResult → Text → Text → Change
unfolding ambiguous_rewrite_buffer ambiguous_token_is_empty tap
complete_ambiguous env l typed tokens res line_prefix no_prefix =
    let new_buf = line_prefix ++ ambiguous_rewrite_buffer tokens res no_prefix in
    let tapped = tap l typed in
    let names = sort_command_names res.ambiguous (tree_of res.ambiguous_tree) env.list_options in
    record {
      listener = tapped;
      printed =
          if ambiguous_token_is_empty tokens res || leb 2 tapped.tap_count
          then println (env.current_prompt ++ typed)
            ++ (lines_of (codes " ") names ++ cr_line (codes " <cr>") res.runnable)
          else [];
      new_line = if text_eq new_buf typed then none else some (new_buf, length new_buf);
    }

abbrev pub with_space : Text → Text
with_space s = if not (text_eq s []) && not (ends_in_space s) then s ++ codes " " else s

-- `resolvedLine`.
unfoldable pub resolved_line : ResolveResult → Text → Text → Text
unfolding ends_in_space
resolved_line res line_prefix no_prefix =
    let line = line_prefix ++ (no_prefix ++ join res.full_name (codes " ")) in
    if not (is_nil res.args) then with_space line ++ join res.args (codes " ") else with_space line

-- Whether the last of the arguments is empty.
unfoldable pub last_is_empty : List Text → Bool
last_is_empty [] = false
last_is_empty (a ∷ []) = text_eq a []
last_is_empty (a ∷ b ∷ args) = last_is_empty (b ∷ args)

-- The hint of a command to which one more argument may come.
unfoldable pub hint_lines : Env → ResolveResult → Command → Text
hint_lines env res cmd =
    let hint =
      if accepts_more_args (some cmd) res.args then resolved_arg_help env.translate cmd else [] in
    if not (text_eq hint []) && res.runnable
    then println (codes " " ++ hint) ++ println (codes " <cr>")
    else if not (text_eq hint [])
    then println (codes " " ++ hint)
    else if res.runnable
    then println (codes " <cr>")
    else []

abbrev pub is_leaf : Command → Bool
is_leaf cmd = is_some (command_fields cmd).run_func && is_empty (subcommands cmd)

-- What the hint prints.
unfoldable pub hint_printed : Env → Text → Bool → ResolveResult → Text
unfolding last_is_empty hint_lines
hint_printed env typed trailing_space res = elim (res.directives) [
  | none ↦ []
  | some cmd ↦
      if trailing_space && last_is_empty res.args && is_leaf cmd
      then (if text_eq (hint_lines env res cmd) []
          then []
          else println (env.current_prompt ++ typed) ++ hint_lines env res cmd)
      else []
]

-- `completeResolved`.
unfoldable pub complete_resolved :
    Env → Text → ℕ → Text → Bool → ResolveResult → Text → Text → Change
unfolding resolved_line hint_printed
complete_resolved env line pos typed trailing_space res line_prefix no_prefix =
    let resolved = resolved_line res line_prefix no_prefix in
    let full = resolved ++ drop pos line in
    record {
      listener = reset;
      printed = hint_printed env typed trailing_space res;
      new_line = if text_eq full line then none else some (full, length resolved);
    }

abbrev pub no_prefix_of : ResolveResult → Text
no_prefix_of res = if res.negated then codes "no " else []

unfoldable pub complete_result :
    Env → TreeListener → Text → ℕ → Text → List Text → Text → ResolveResult → Change
unfolding complete_ambiguous complete_resolved
complete_result env l line pos typed tokens line_prefix res =
    if not (is_nil res.ambiguous)
    then complete_ambiguous env l typed tokens res line_prefix (no_prefix_of res)
    else complete_resolved env line pos typed (ends_in_space typed) res line_prefix
        (no_prefix_of res)

abbrev pub on_outcome : Outcome ResolveResult → (ResolveResult → Change) → Changed
on_outcome nil_dereference run = crashed
on_outcome no_fuel run = unresolved
on_outcome (returns res) run = changed (run res)

-- The tokens of a Tab.
unfoldable pub tab_tokens : Text → List Text
unfolding ends_in_space
tab_tokens typed = elim (fields typed) [
  | [] ↦ [] ∷ []
  | tok ∷ tokens ↦ if ends_in_space typed then (tok ∷ tokens) ++ [] ∷ [] else tok ∷ tokens
]

abbrev pub on_unwrapped : Unwrapped → (List Text → Text → Changed) → Changed
on_unwrapped broken run = crashed
on_unwrapped endless run = unresolved
on_unwrapped (unwrapped words line_prefix) run = run words line_prefix

-- A Tab, by what stands before the cursor. The turns of the unwrapping are as many as there are
-- tokens.
unfoldable pub complete_typed : Env → TreeListener → Text → ℕ → Text → Changed
complete_typed env l line pos typed =
    on_unwrapped (unwrap_help_tokens (length (tab_tokens typed)) env (tab_tokens typed) [])
      (λ words line_prefix.
        on_outcome (resolve env.fuel env.tree words)
          (complete_result env l line pos typed words line_prefix))

unfoldable pub on_tab : Env → TreeListener → Text → ℕ → Changed
unfolding complete_typed
on_tab env l line pos = complete_typed env l line pos (take pos line)
