-- ===== src/Command/Help/Listing.antt =====
-- When a list of commands can be shown.
use routercli.Base.{
  ℕ, ◌+◌, Option, none, some, List, [], ◌∷◌, ◌++◌, ◌≡◌, ◌≢◌, ◌↔◌, ◌⊎◌, arith, Text, codes,
  text_eq_iff,
}
use routercli.Command.Tree.{Tree}
use routercli.Command.Help.Layout.{
  spaces, body_width, fields, wrap_from, wrap_words, wrap_text, println,
}
use routercli.Command.Help.Names.{Translate, ListOptions, listable_names, sort_command_names}
use routercli.Command.Help.{
  longest, desc_of, entry_lines, help_entry, append_text, help_entries, heading, help_text,
}

-- A description that is there, but has no word.
abbrev pub IsBlank : Text → Type 0
IsBlank desc = (desc ≢ []) × (fields desc ≡ [])

abbrev pub AnyBlank : (Text → Text) → List Text → Type 0
AnyBlank desc [] = ⊥
AnyBlank desc (n ∷ names) = IsBlank (desc n) ⊎ AnyBlank desc names

wrap_from_some : (width : ℕ) (last : Text) (words : List Text) → wrap_from width last words ≢ []
unfolding wrap_from
wrap_from_some width last [] = λ h. cc
wrap_from_some width last (word ∷ words) =
    ground (arith, wrap_from_some width (last ++ (b' ' ∷ word)) words)

wrap_words-nil_iff : (width : ℕ) (words : List Text) → (wrap_words width words ≡ []) ↔ (words ≡ [])
wrap_words-nil_iff width [] = ground arith
wrap_words-nil_iff width (word ∷ words) = (λ h. absurd (wrap_from_some width word words h), λ h. cc)

entry_lines-none_iff :
    (indent : Text) (width : ℕ) (name : Text) (lines : List Text)
    → (entry_lines indent width name lines ≡ none) ↔ (lines ≡ [])
entry_lines-none_iff indent width name [] = ground arith
entry_lines-none_iff indent width name (line ∷ lines) = (λ h. cc, λ h. cc)

help_entry-none_iff :
    (indent : Text) (width desc_width : ℕ) (name desc : Text)
    → (help_entry indent width desc_width name desc ≡ none) ↔ IsBlank desc
unfolding help_entry wrap_text
help_entry-none_iff indent width desc_width name desc = ground (
  arith,
  text_eq_iff desc [],
  entry_lines-none_iff indent width name (wrap_words desc_width (fields desc)),
  wrap_words-nil_iff desc_width (fields desc),
)

append_text-none_iff : (a b : Option Text) → (append_text a b ≡ none) ↔ ((a ≡ none) ⊎ (b ≡ none))
append_text-none_iff none b = ground arith
append_text-none_iff (some a) none = ground arith
append_text-none_iff (some a) (some b) = ground arith

header-none_iff : (a : Text) (b : Option Text) → (append_text (some a) b ≡ none) ↔ (b ≡ none)
header-none_iff a none = ground arith
header-none_iff a (some b) = ground arith

help_entries-none_iff :
    (indent : Text) (width desc_width : ℕ) (desc : Text → Text) (names : List Text)
    → (help_entries indent width desc_width desc names ≡ none) ↔ AnyBlank desc names
unfolding help_entries
help_entries-none_iff indent width desc_width desc [] = ground arith
help_entries-none_iff indent width desc_width desc (n ∷ names) = ground (
  arith,
  append_text-none_iff (help_entry indent width desc_width n (desc n))
      (help_entries indent width desc_width desc names),
  help_entry-none_iff indent width desc_width n (desc n),
  help_entries-none_iff indent width desc_width desc names,
)

-- `HelpText` panics exactly where a command that it lists has a description that is not empty and
-- has white space alone: it then indexes the lines of the description, of which there are none.
pub help_text-none_iff :
    (tree : Tree) (t : Translate) (opts : ListOptions) (width : ℕ)
    → (help_text tree t opts width ≡ none)
      ↔ AnyBlank (desc_of t tree) (sort_command_names (listable_names tree) tree opts)
unfolding help_text
help_text-none_iff tree t opts width =
    let names = sort_command_names (listable_names tree) tree opts in
    let indent = spaces (2 + longest names + 2) in
    let header = println (heading t (codes "help.header") (codes "Available commands:")) in
    let entries =
      help_entries indent (longest names) (body_width width indent) (desc_of t tree) names in
    let blank =
      help_entries-none_iff indent (longest names) (body_width width indent) (desc_of t tree)
        names in
    (
      λ h. blank.0 ((header-none_iff header entries).0 h),
      λ h. (header-none_iff header entries).1 (blank.1 h),
    )
