-- ===== src/Command/Literal/Leads.antt =====
-- The path of a command leads to it.
use routercli.Base.{
  true, false, not, Option, none, some, List, [], ◌∷◌, ◌≡◌, ◌≢◌, inl, inr, refl, sym, subst,
  some-injective, none_and_some, if_true, if_false, arith, if◌then◌else◌, Text, text_eq,
  text_eq_iff, text_eq_refl, Bool-cases,
}
use routercli.Command.Tree.{command, Tree, nil, entry, Fields, find, is_empty}
use routercli.Command.Prune.Kept.{IsMap, lookup}
use routercli.Command.Literal.{literal_command_path, below_or}

-- The path leads to a command that `run_key` runs.
abbrev pub Leads : Tree → Text → List Text → Type 0
Leads t run_key [] = ⊥
Leads t run_key (name ∷ path) = (f : Fields) × (lookup t name path ≡ some f) × (f.run ≡ run_key)

-- No path does.
abbrev pub Absent : Tree → Text → Type 0
Absent t run_key =
    (name : Text) (path : List Text) (f : Fields) → lookup t name path ≡ some f → f.run ≢ run_key

-- What is promised of an answer.
abbrev pub IsAnswer : Tree → Text → Option (List Text) → Type 0
IsAnswer t run_key none = Absent t run_key
IsAnswer t run_key (some path) = Leads t run_key path

lookup-none :
    (t : Tree) (name : Text) (path : List Text) → find t name ≡ none → lookup t name path ≡ none
unfolding find
lookup-none nil name path h = refl
lookup-none (entry key (command f sub) rest) name path h =
    ground (arith, lookup-none rest name path)

not_run : {a b : Text} → text_eq a b ≡ false → a ≢ b
not_run {a = a} {b = b} e = ground (arith, text_eq_iff a b)

module _ (key : Text) (f : Fields) (sub rest : Tree) (run_key : Text) where
  Leads-later :
      (path : List Text)
      → find rest key ≡ none
      → Leads rest run_key path
      → Leads (entry key (command f sub) rest) run_key path
  Leads-later [] fresh h = absurd h
  Leads-later (name ∷ path) fresh (g, hg, hr) = elim (Bool-cases (text_eq key name)) [
    | inl e ↦
        none_and_some
          (lookup-none rest name path
            (subst (λ n. find rest n ≡ none) ((text_eq_iff key name).0 e) fresh))
          hg
    | inr e ↦ (g, rw e hg, hr)
  ]

  Leads-below :
      (path : List Text)
      → Leads sub run_key path
      → Leads (entry key (command f sub) rest) run_key (key ∷ path)
  Leads-below [] h = absurd h
  Leads-below (name ∷ path) (g, hg, hr) = (g, rw (text_eq_refl key) hg, hr)

  Absent-entry :
      f.run ≢ run_key
      → Absent sub run_key
      → Absent rest run_key
      → Absent (entry key (command f sub) rest) run_key
  Absent-entry hf hs hr name [] g h = elim (Bool-cases (text_eq key name)) [
    | inl e ↦ λ hg. hf (subst (λ x. x.run ≡ run_key) (sym (some-injective (if_true _ _ _ e h))) hg)
    | inr e ↦ hr name [] g (if_false _ _ _ e h)
  ]
  Absent-entry hf hs hr name (next ∷ more) g h = elim (Bool-cases (text_eq key name)) [
    | inl e ↦ hs next more g (if_true _ _ _ e h)
    | inr e ↦ hr name (next ∷ more) g (if_false _ _ _ e h)
  ]

Absent-nil : (run_key : Text) → Absent nil run_key
Absent-nil run_key name path f h = cc

Absent-empty : (t : Tree) (run_key : Text) → is_empty t ≡ true → Absent t run_key
Absent-empty nil run_key e = Absent-nil run_key
Absent-empty (entry key c rest) run_key e = cc

module _ (key : Text) (f : Fields) (sub rest : Tree) (run_key : Text)
    (fresh : find rest key ≡ none) where
  IsAnswer-later :
      (others : Option (List Text))
      → f.run ≢ run_key
      → Absent sub run_key
      → IsAnswer rest run_key others
      → IsAnswer (entry key (command f sub) rest) run_key others
  IsAnswer-later none hf hs hr = Absent-entry key f sub rest run_key hf hs hr
  IsAnswer-later (some path) hf hs hr = Leads-later key f sub rest run_key path fresh hr

  IsAnswer-below :
      (below others : Option (List Text))
      → f.run ≢ run_key
      → IsAnswer sub run_key below
      → IsAnswer rest run_key others
      → IsAnswer (entry key (command f sub) rest) run_key (below_or key below others)
  IsAnswer-below none others hf hs hr = IsAnswer-later others hf hs hr
  IsAnswer-below (some path) others hf hs hr = Leads-below key f sub rest run_key path hs

  IsAnswer-entry :
      (below others : Option (List Text))
      → IsAnswer sub run_key below
      → IsAnswer rest run_key others
      → IsAnswer (entry key (command f sub) rest) run_key (
          if text_eq f.run run_key
          then some (key ∷ [])
          else if not (is_empty sub)
          then below_or key below others
          else others)
  IsAnswer-entry below others hs hr = elim (Bool-cases (text_eq f.run run_key)) [
    | inl e ↦ rw e (f, rw (text_eq_refl key) refl, (text_eq_iff f.run run_key).0 e)
    | inr e ↦ rw e (elim (Bool-cases (is_empty sub)) [
      | inl g ↦ rw g (IsAnswer-later others (not_run e) (Absent-empty sub run_key g) hr)
      | inr g ↦ rw g (IsAnswer-below below others (not_run e) hs hr)
    ])
  ]

-- `LiteralCommandPath` returns a path that leads to a command with that `Run`, in a tree whose maps
-- have no key twice; where it returns none, no path leads to such a command.
literal_command_path-IsAnswer :
    (t : Tree) (run_key : Text) → IsMap t → IsAnswer t run_key (literal_command_path t run_key)
unfolding literal_command_path
literal_command_path-IsAnswer nil run_key m = λ name path f h. cc
literal_command_path-IsAnswer (entry key (command f sub) rest) run_key m =
    IsAnswer-entry key f sub rest run_key m.0 (literal_command_path sub run_key)
      (literal_command_path rest run_key) (literal_command_path-IsAnswer sub run_key m.1)
      (literal_command_path-IsAnswer rest run_key m.2)
