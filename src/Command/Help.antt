-- ===== src/Command/Help.antt =====
-- command/help.go: the lists of commands and the manual pages. A string is its runes, so its
-- display width is its length, and a width below zero is the width zero. `Translate` is `T` of the
-- translator without arguments, or nil; `to_upper` is `strings.ToUpper`. A result is `none` where the
-- source panics.
pub mod Layout
pub mod Names
pub mod Wrap
pub mod Order
pub mod Listing
use routercli.Base.{
  ℕ, suc, ◌+◌, Bool, true, false, not, ◌&&◌, Option, none, some, List, [], ◌∷◌, ◌++◌, ltb,
  if◌then◌else◌, length, get_elem?, Text, codes, text_eq, join,
}
use routercli.Command.Tree.{Command, command, Tree, nil, entry, find, subcommands, is_empty}
use routercli.Command.Args.{accepts_more_args}
use routercli.Command.Resolve.{ResolveResult, Outcome, returns, nil_dereference, no_fuel, resolve}
use routercli.Command.Help.Layout.{
  spaces, body_width, wrap_text, println, indented, wrap_and_indent, wrap_and_indent_paragraphs,
  indent_man_body, build_man_page_header, pad_right,
}
use routercli.Command.Help.Names.{
  Translate, ListOptions, resolved_desc, resolved_help, resolved_arg_help, sort_command_names,
  listable_names,
}

-- The length of the longest name.
unfoldable pub longest : List Text → ℕ
longest [] = 0
longest (n ∷ names) = let rest = longest names in if ltb rest (length n) then length n else rest

-- `tree[name].ResolvedDesc(t)`, for a name of the tree.
abbrev pub desc_of : Translate → Tree → Text → Text
desc_of t tree name = elim (find tree name) [ none ↦ [] | some c ↦ resolved_desc t c ]

-- `descLines[0]` and `descLines[1:]`.
abbrev pub entry_lines : Text → ℕ → Text → List Text → Option Text
entry_lines indent width name [] = none
entry_lines indent width name (line ∷ lines) = some (
    println (codes "  " ++ (pad_right width name ++ (codes "  " ++ line))) ++ indented indent lines)

-- One entry of a list.
unfoldable pub help_entry : Text → ℕ → ℕ → Text → Text → Option Text
unfolding wrap_text
help_entry indent width desc_width name desc =
    if text_eq desc []
    then some (println (codes "  " ++ name))
    else entry_lines indent width name (wrap_text desc desc_width)

abbrev pub append_text : Option Text → Option Text → Option Text
append_text none b = none
append_text (some a) none = none
append_text (some a) (some b) = some (a ++ b)

unfoldable pub help_entries : Text → ℕ → ℕ → (Text → Text) → List Text → Option Text
unfolding help_entry
help_entries indent width desc_width desc [] = some []
help_entries indent width desc_width desc (n ∷ names) =
    append_text (help_entry indent width desc_width n (desc n))
      (help_entries indent width desc_width desc names)

-- A heading, by its key.
abbrev pub heading : Translate → Text → Text → Text
heading none key literal = literal
heading (some translate) key literal = translate key

-- `HelpText`.
unfoldable pub help_text : Tree → Translate → ListOptions → ℕ → Option Text
unfolding listable_names sort_command_names longest body_width help_entries
help_text tree t opts width =
    let names = sort_command_names (listable_names tree) tree opts in
    let indent = spaces (2 + longest names + 2) in
    append_text (some (println (heading t (codes "help.header") (codes "Available commands:"))))
      (help_entries indent (longest names) (body_width width indent) (desc_of t tree) names)

pub data Shown : Type 0 where
  shows : Text → Shown
  panics : Shown
  out_of_fuel : Shown

abbrev pub shown : Option Text → Text → Shown
shown none after = panics
shown (some text) after = shows (text ++ after)

abbrev pub cr_line : Text → Bool → Text
cr_line line true = println line
cr_line line false = []

abbrev pub lines_of : Text → List Text → Text
lines_of indent [] = []
lines_of indent (n ∷ names) = println (indent ++ n) ++ lines_of indent names

abbrev pub tree_of : Option Tree → Tree
tree_of none = nil
tree_of (some t) = t

abbrev pub empty_at : List Text → ℕ → Bool
empty_at tokens i = elim (get_elem? tokens i) [ none ↦ false | some tok ↦ text_eq tok [] ]

abbrev pub is_some {ℓ} : {A : Type ℓ} → Option A → Bool
is_some none = false
is_some (some a) = true

-- The case of several candidates.
unfoldable pub help_ambiguous : Translate → ListOptions → ℕ → List Text → ResolveResult → Shown
unfolding help_text
help_ambiguous t opts width tokens res =
    let ambig_idx = if res.negated then suc res.ambig_at else res.ambig_at in
    if empty_at tokens ambig_idx && is_some res.ambiguous_tree
    then shown (help_text (tree_of res.ambiguous_tree) t opts width)
        (cr_line (codes "  <cr>") res.runnable)
    else shows (
        lines_of (codes " ") (sort_command_names res.ambiguous (tree_of res.ambiguous_tree) opts)
        ++ cr_line (codes " <cr>") res.runnable)

-- A command without subcommands: the hint for an argument where one more fits.
unfoldable pub help_leaf : Translate → ResolveResult → Command → Text
help_leaf t res cmd =
    let hint = if accepts_more_args (some cmd) res.args then resolved_arg_help t cmd else [] in
    if not (text_eq hint []) && res.runnable
    then println (codes " " ++ hint) ++ println (codes " <cr>")
    else if not (text_eq hint [])
    then println (codes " " ++ hint)
    else if res.runnable
    then println (codes " <cr>")
    else []

-- The `switch` of `HelpForPath`.
unfoldable pub help_result : Translate → ListOptions → ℕ → List Text → ResolveResult → Shown
unfolding help_ambiguous help_leaf
help_result t opts width tokens res = elim (res.ambiguous) [
  | name ∷ names ↦ help_ambiguous t opts width tokens res
  | [] ↦ elim (res.directives) [
    | none ↦ shows []
    | some cmd ↦
        if not (is_empty (subcommands cmd))
        then shown (help_text (subcommands cmd) t opts width)
            (cr_line (codes "  <cr>") res.runnable)
        else shows (help_leaf t res cmd)
  ]
]

abbrev pub or_empty_token : List Text → List Text
or_empty_token [] = [] ∷ []
or_empty_token (tok ∷ tokens) = tok ∷ tokens

abbrev pub on_outcome : Outcome ResolveResult → (ResolveResult → Shown) → Shown
on_outcome nil_dereference run = panics
on_outcome no_fuel run = out_of_fuel
on_outcome (returns res) run = run res

-- `HelpForPath`.
unfoldable pub help_for_path : ℕ → Tree → List Text → Translate → ListOptions → ℕ → Shown
unfolding help_result
help_for_path fuel tree tokens t opts width =
    on_outcome (resolve fuel tree (or_empty_token tokens))
      (help_result t opts width (or_empty_token tokens))

-- The line of a subcommand, with its description and the hint for its argument.
unfoldable pub subcommand_line : ℕ → Text → Text → Text → Text
subcommand_line width name desc hint =
    if text_eq desc [] && text_eq hint []
    then println name
    else if text_eq hint []
    then println (pad_right width name ++ (codes "  " ++ desc))
    else if text_eq desc []
    then println (pad_right width name ++ (codes "  (" ++ (hint ++ codes ")")))
    else println
        (pad_right width name ++ (codes "  " ++ (desc ++ (codes "  (" ++ (hint ++ codes ")")))))

abbrev pub hint_of : Translate → Tree → Text → Text
hint_of t tree name = elim (find tree name) [ none ↦ [] | some c ↦ resolved_arg_help t c ]

unfoldable pub subcommand_lines : ℕ → Translate → Tree → List Text → Text
unfolding subcommand_line
subcommand_lines width t tree [] = []
subcommand_lines width t tree (n ∷ names) =
    subcommand_line width n (desc_of t tree n) (hint_of t tree n)
    ++ subcommand_lines width t tree names

-- `subcommandDetailLines`.
unfoldable pub subcommand_detail_lines : Tree → Translate → ListOptions → Text
unfolding subcommand_lines longest
subcommand_detail_lines tree t opts =
    let names = sort_command_names (listable_names tree) tree opts in
    subcommand_lines (longest names) t tree names

-- `manSectionIndent`.
abbrev pub man_section_indent : Text
man_section_indent = codes "    "

-- A section that is left out where it has no text.
abbrev pub section : Bool → Text → Text → Text
section false header body = []
section true header body = println [] ++ (println header ++ body)

-- The manual page of a command.
unfoldable pub man_page : (Text → Text) → Translate → ListOptions → Text → ℕ → Text → Command → Text
unfolding subcommand_detail_lines wrap_and_indent wrap_and_indent_paragraphs indent_man_body
    build_man_page_header
man_page to_upper t opts product_name width name cmd =
    let desc = resolved_desc t cmd in
    let hint = resolved_arg_help t cmd in
    let help = resolved_help t cmd in
    let name_line = if not (text_eq desc []) then name ++ (codes " - " ++ desc) else name in
    let synopsis = wrap_and_indent (name ++ (codes " " ++ hint)) man_section_indent width in
    let description = wrap_and_indent_paragraphs help man_section_indent width in
    let listing =
      indent_man_body (subcommand_detail_lines (subcommands cmd) t opts) man_section_indent in
    println []
    ++ (println (build_man_page_header to_upper name product_name width)
        ++ (println []
            ++ (println (heading t (codes "help.section.name") (codes "NAME"))
                ++ (wrap_and_indent name_line man_section_indent width
                    ++ (section (not (text_eq hint []))
                          (heading t (codes "help.section.synopsis") (codes "SYNOPSIS")) synopsis
                        ++ (section (not (text_eq help []))
                              (heading t (codes "help.section.description") (codes "DESCRIPTION"))
                              description
                            ++ (section (not (is_empty (subcommands cmd)))
                                  (heading t (codes "help.section.subcommands")
                                    (codes "SUBCOMMANDS"))
                                  listing
                                ++ println [])))))))

unfoldable pub detailed_result :
    (Text → Text) → Translate → ListOptions → Text → ℕ → ResolveResult → Text
unfolding man_page
detailed_result to_upper t opts product_name width res = elim (res.ambiguous) [
  | name ∷ names ↦
      println
        (heading t (codes "help.ambiguous") (codes "Ambiguous; did you mean one of the following:"))
      ++ lines_of (codes "  ") (sort_command_names res.ambiguous (tree_of res.ambiguous_tree) opts)
  | [] ↦ elim (res.directives) [
    | none ↦ []
    | some cmd ↦ man_page to_upper t opts product_name width (join res.full_name (codes " ")) cmd
  ]
]

-- `DetailedHelp`.
unfoldable pub detailed_help :
    (Text → Text) → ℕ → Tree → List Text → Translate → ListOptions → Text → ℕ → Shown
unfolding detailed_result
detailed_help to_upper fuel tree tokens t opts product_name width =
    on_outcome (resolve fuel tree tokens)
      (λ res. shows (detailed_result to_upper t opts product_name width res))
