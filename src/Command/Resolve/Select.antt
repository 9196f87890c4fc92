-- ===== src/Command/Resolve/Select.antt =====
-- What one token selects, against a description that does not sort and does not count.
use routercli.Base.{
  ◌≤◌, true, false, ◌&&◌, Option, none, some, List, [], ◌∷◌, ◌≡◌, ◌⊎◌, inl, inr, ◌↔◌, refl, sym,
  arith, Bool-cases, Option-cases, length, Text, text_eq, text_eq_iff, has_prefix, text_leb,
}
use routercli.Command.Tree.{Command, Tree, nil, entry, fields, find}
use routercli.Command.Args.{runnable_as_is}
use routercli.Command.Resolve.{
  prefix_matches, insert, sort_strings, candidates, Selection, picked, no_match, several,
  select_prefix, select,
}

abbrev pub In : Text → List Text → Type 0
In a [] = ⊥
In a (b ∷ l) = (a ≡ b) ⊎ In a l

-- `name` is a key of the map that begins with `tok`, of a command that is not hidden.
abbrev pub Visible : Tree → Text → Text → Type 0
Visible nil tok name = ⊥
Visible (entry key c rest) tok name =
    ((name ≡ key) × (has_prefix key tok ≡ true) × ((fields c).hidden ≡ false))
    ⊎ Visible rest tok name

module _ (n : Text) where
  In-insert : (a : Text) (l : List Text) → In n (insert a l) ↔ ((n ≡ a) ⊎ In n l)
  unfolding insert
  In-insert a [] = ground arith
  In-insert a (b ∷ l) = elim (Bool-cases (text_leb a b)) [
    | inl e ↦ rw e (ground arith)
    | inr e ↦ rw e (ground (arith, In-insert a l))
  ]

  In-sort_strings : (l : List Text) → In n (sort_strings l) ↔ In n l
  unfolding sort_strings
  In-sort_strings [] = ground arith
  In-sort_strings (a ∷ l) = ground (arith, In-insert a (sort_strings l), In-sort_strings l)

  In-prefix_matches : (t : Tree) (tok : Text) → In n (prefix_matches t tok) ↔ Visible t tok n
  unfolding prefix_matches
  In-prefix_matches nil tok = ground arith
  In-prefix_matches (entry key c rest) tok = ground (arith, In-prefix_matches rest tok)

  In-candidates : (t : Tree) (tok : Text) → In n (candidates t tok) ↔ Visible t tok n
  unfolding candidates
  In-candidates t tok =
      ground (arith, In-sort_strings (prefix_matches t tok), In-prefix_matches t tok)

  pub find-Visible : (t : Tree) (tok : Text) → Visible t tok n → (c : Command) × (find t n ≡ some c)
  unfolding find
  find-Visible nil tok v = absurd v
  find-Visible (entry key c rest) tok v = elim (Bool-cases (text_eq key n)) [
    | inl e ↦ (c, rw e)
    | inr e ↦ elim v [
      | inl here ↦ cc (e, (text_eq_iff key n).1 (sym here.0))
      | inr later ↦ rw e (find-Visible rest tok later)
    ]
  ]

-- What each selection means: a key picked is the token itself where the map has it, and otherwise
-- the only visible key that the token begins, unless nothing is typed and the command reached so
-- far can run; nothing is selected where there is no such key; and
-- several are all of them, two at least, or the only one in the case that was left out.
abbrev pub Selects : Tree → Option Command → Text → Selection → Type 0
Selects t directives tok (picked name cmd) =
    (find t name ≡ cmd)
    × (((c : Command) × (cmd ≡ some c) × (name ≡ tok))
        ⊎ ((find t tok ≡ none)
            × Visible t tok name
            × ((other : Text) → Visible t tok other → other ≡ name)
            × (tok ≡ [] → runnable_as_is directives [] ≡ false)))
Selects t directives tok no_match = (find t tok ≡ none) × ((name : Text) → ¬ Visible t tok name)
Selects t directives tok (several names) =
    (find t tok ≡ none)
    × ((name : Text) → In name names ↔ Visible t tok name)
    × ((2 ≤ length names) ⊎ ((tok ≡ []) × (runnable_as_is directives [] ≡ true)))

select_prefix-Selects :
    (t : Tree) (directives : Option Command) (tok : Text) (names : List Text)
    → find t tok ≡ none
    → ((name : Text) → In name names ↔ Visible t tok name)
    → Selects t directives tok (select_prefix t directives tok names)
unfolding select_prefix
select_prefix-Selects t directives tok [] f v = (f, λ n w. (v n).1 w)
select_prefix-Selects t directives tok (name ∷ []) f v =
    elim (Bool-cases (text_eq tok [] && runnable_as_is directives [])) [
      | inl e ↦ rw e (f, v, inr ground (arith, text_eq_iff tok []))
      | inr e ↦ rw e (
        refl,
        inr (
          f,
          (v name).0 (inl refl),
          λ n w. elim ((v n).1 w) [ inl q ↦ q | inr q ↦ absurd q ],
          λ q. ground (arith, text_eq_iff tok []),
        ),
      )
    ]
select_prefix-Selects t directives tok (a ∷ b ∷ more) f v = (f, v, inl (omega arith))

-- Whatever the map, the command reached so far and the token, what `Resolve` selects is what
-- `Selects` describes: a key that is typed in full is always taken, hidden or not; an abbreviation
-- is taken exactly where one visible key begins with it, and a hidden key never by abbreviation.
pub select-Selects :
    (t : Tree) (directives : Option Command) (tok : Text)
    → Selects t directives tok (select t directives tok)
unfolding select
select-Selects t directives tok = elim (Option-cases (find t tok)) [
  | inl f ↦
      rw (f, select)
        (select_prefix-Selects t directives tok (candidates t tok) f (λ n. In-candidates n t tok))
  | inr (c, f) ↦ rw (f, select) (f, inl (c, refl, refl))
]
