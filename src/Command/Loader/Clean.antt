-- ===== src/Command/Loader/Clean.antt =====
-- The texts of a tree that loads.
use routercli.Base.{Option, none, some, List, [], ◌∷◌, map, ◌≡◌, ◌↔◌, arith, Text, All}
use routercli.Sanitize.{rune}
use routercli.Sanitize.Validate.{IsSafe, validate_input_iff}
use routercli.Command.Tree.{command, Tree, nil, entry, Fields}
use routercli.Command.Loader.{
  path_of, first_error, texts_of, or_else, unusable_text, validate_tree_text,
}

-- No rune of the text is a control character.
abbrev pub IsClean : Text → Type 0
IsClean s = All IsSafe (map rune s)

-- The name and the three texts of every command of the tree are clean.
abbrev pub AreClean : Tree → Type 0
AreClean nil = Unit
AreClean (entry name (command f sub) rest) =
    (IsClean name × IsClean f.desc × IsClean f.help × IsClean f.arg_help)
    × AreClean sub
    × AreClean rest

AllClean : List (Text × Text) → Type 0
AllClean [] = Unit
AllClean ((label, value) ∷ texts) = IsClean value × AllClean texts

first_error_iff : (texts : List (Text × Text)) → (first_error texts ≡ none) ↔ AllClean texts
unfolding AllClean
first_error_iff [] = ground arith
first_error_iff ((label, value) ∷ texts) =
    ground (arith, first_error_iff texts, validate_input_iff (map rune value))

or_else-none_iff {ℓ} :
    {A : Type ℓ} (a b : Option A) → (or_else a b ≡ none) ↔ ((a ≡ none) × (b ≡ none))
or_else-none_iff none b = ground arith
or_else-none_iff (some a) b = ground arith

all_none_iff {ℓ} :
    {A : Type ℓ} (a b c : Option A) {P Q R : Type 0}
    → (a ≡ none) ↔ P
    → (b ≡ none) ↔ Q
    → (c ≡ none) ↔ R
    → (or_else a (or_else b c) ≡ none) ↔ (P × Q × R)
all_none_iff a b c p q r = (
  λ h.
      let (ha, hbc) = (or_else-none_iff a (or_else b c)).0 h in
      let (hb, hc) = (or_else-none_iff b c).0 hbc in (p.0 ha, q.0 hb, r.0 hc),
  λ h. (or_else-none_iff a (or_else b c)).1 (p.1 h.0, (or_else-none_iff b c).1 (q.1 h.1, r.1 h.2)),
)

unusable_text_iff :
    (full : Text) (name : Text) (f : Fields)
    → (unusable_text full (first_error (texts_of name f)) ≡ none)
      ↔ (IsClean name × IsClean f.desc × IsClean f.help × IsClean f.arg_help)
unfolding AllClean
unusable_text_iff full name f = ground (arith, first_error_iff (texts_of name f))

-- `validateTreeText` passes exactly the trees in which no name, description, help or argument help
-- of any command, at any depth, has a control character. A string is valid UTF-8.
validate_tree_text_iff :
    (t : Tree) (prefix : Text) → (validate_tree_text t prefix ≡ none) ↔ AreClean t
unfolding validate_tree_text
validate_tree_text_iff nil prefix = ground arith
validate_tree_text_iff (entry name (command f sub) rest) prefix =
    all_none_iff (unusable_text (path_of prefix name) (first_error (texts_of name f)))
      (validate_tree_text sub (path_of prefix name)) (validate_tree_text rest prefix)
      (unusable_text_iff (path_of prefix name) name f)
      (validate_tree_text_iff sub (path_of prefix name)) (validate_tree_text_iff rest prefix)
