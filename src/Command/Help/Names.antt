-- ===== src/Command/Help/Names.antt =====
-- command/help.go: `SortCommandNames` and `listable`; command/model.go: `ListOptions`;
-- command/command.go: the texts of a command that are looked up where it has a key.
use routercli.Base.{
  ℕ, Bool, true, false, not, ◌&&◌, ◌||◌, Option, none, some, List, [], ◌∷◌, ltb, ◌==◌,
  if◌then◌else◌, Text, text_eq, text_leb,
}
use routercli.Command.Tree.{Command, Tree, nil, entry, fields, find}

pub record ListOptions : Type 0 where
  pub alphabetical : Bool
  pub merge_common : Bool
  pub authorized : Option (Command → Bool)

-- `DefaultListOptions`.
abbrev pub default_list_options : ListOptions
default_list_options = record { alphabetical = true; merge_common = true; authorized = none }

-- A translator, or nil.
abbrev pub Translate : Type 0
Translate = Option (Text → Text)

-- The text under a key, or the literal.
unfoldable pub resolved : Translate → Text → Text → Text
resolved none key literal = literal
resolved (some translate) key literal = if not (text_eq key []) then translate key else literal

-- `ResolvedDesc`.
abbrev pub resolved_desc : Translate → Command → Text
resolved_desc t c = resolved t (fields c).desc_key (fields c).desc

-- `ResolvedHelp`.
abbrev pub resolved_help : Translate → Command → Text
resolved_help t c = resolved t (fields c).help_key (fields c).help

-- `ResolvedArgHelp`.
abbrev pub resolved_arg_help : Translate → Command → Text
resolved_arg_help t c = resolved t (fields c).arg_help_key (fields c).arg_help

abbrev pub is_refused : ListOptions → Option Command → Bool
is_refused opts none = false
is_refused opts (some cmd) = elim (opts.authorized) [ none ↦ false | some ok ↦ not (ok cmd) ]

-- The loop that leaves the names out that the user may not run.
unfoldable pub authorized_names : Tree → ListOptions → List Text → List Text
authorized_names tree opts [] = []
authorized_names tree opts (n ∷ names) =
    let rest = authorized_names tree opts names in
    if is_refused opts (find tree n) then rest else n ∷ rest

abbrev pub is_common : Option Command → Bool
is_common none = false
is_common (some c) = (fields c).is_common_command

abbrev pub def_index : Option Command → ℕ
def_index none = 0
def_index (some c) = (fields c).def_index

abbrev pub eq_bool : Bool → Bool → Bool
eq_bool true b = b
eq_bool false b = not b

-- The comparison of `sort.SliceStable`.
unfoldable pub less : Tree → ListOptions → Text → Text → Bool
less tree opts ni nj =
    let ci = find tree ni in
    let cj = find tree nj in
    if (not opts.alphabetical || not opts.merge_common)
      && not (eq_bool (is_common ci) (is_common cj))
    then not (is_common ci)
    else if not opts.alphabetical && not (def_index ci == def_index cj)
    then ltb (def_index ci) (def_index cj)
    else not (text_leb nj ni)

-- A stable sort.
unfoldable pub insert_name : Tree → ListOptions → Text → List Text → List Text
unfolding less
insert_name tree opts a [] = a ∷ []
insert_name tree opts a (b ∷ l) =
    if less tree opts b a then b ∷ insert_name tree opts a l else a ∷ b ∷ l

unfoldable pub sort_names : Tree → ListOptions → List Text → List Text
unfolding insert_name
sort_names tree opts [] = []
sort_names tree opts (a ∷ l) = insert_name tree opts a (sort_names tree opts l)

-- `SortCommandNames`.
unfoldable pub sort_command_names : List Text → Tree → ListOptions → List Text
unfolding authorized_names sort_names
sort_command_names names tree opts = sort_names tree opts (authorized_names tree opts names)

-- `listable`, of a command that is not nil.
abbrev pub listable : Command → Bool
listable cmd = not (fields cmd).hidden

unfoldable pub listable_names : Tree → List Text
listable_names nil = []
listable_names (entry name cmd rest) =
    let names = listable_names rest in if listable cmd then name ∷ names else names
