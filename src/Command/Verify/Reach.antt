-- ===== src/Command/Verify/Reach.antt =====
-- Which registered handlers nothing reaches.
use routercli.Base.{
  true, not, List, [], ◌∷◌, ◌++◌, ◌≡◌, ◌≢◌, ◌↔◌, ◌⊎◌, arith, if◌then◌else◌, Text, text_eq,
  text_eq_iff,
}
use routercli.Command.Tree.{command, Tree, nil, entry}
use routercli.Command.Context.{CommandLevel}
use routercli.Command.Registry.{Registry}
use routercli.Command.Roles.Gate.{Has}
use routercli.Command.Verify.{
  collect_run_names, referenced, has, unreferenced, insert_by, sort_by,
  verify_registered_commands_are_reachable,
}

-- A command of the tree, at any depth, runs the handler.
abbrev pub RunBy : Text → Tree → Type 0
RunBy name nil = ⊥
RunBy name (entry key (command f sub) rest) = (name ≡ f.run) ⊎ (RunBy name sub ⊎ RunBy name rest)

-- The handler enters or leaves a level, or a command of a level runs it.
abbrev pub IsReached : Text → List CommandLevel → Type 0
IsReached name [] = ⊥
IsReached name (level ∷ order) =
    (name ≡ level.enter_command)
    ⊎ ((name ≡ level.exit_command) ⊎ (RunBy name level.tree ⊎ IsReached name order))

Has-append : (r : Text) (a b : List Text) → Has r (a ++ b) ↔ (Has r a ⊎ Has r b)
Has-append r [] b = ground arith
Has-append r (x ∷ a) b = ground (arith, Has-append r a b)

Has-join :
    (r : Text) (a b : List Text) {P Q : Type 0}
    → Has r a ↔ P
    → Has r b ↔ Q
    → Has r (a ++ b) ↔ (P ⊎ Q)
Has-join r a b p q = ground (arith, Has-append r a b)

Has-name :
    (r name : Text) → r ≢ [] → Has r (if not (text_eq name []) then name ∷ [] else []) ↔ (r ≡ name)
Has-name r name h = ground (arith, text_eq_iff name [])

collect_run_names_iff : (r : Text) (t : Tree) → r ≢ [] → Has r (collect_run_names t) ↔ RunBy r t
unfolding collect_run_names
collect_run_names_iff r nil h = ground arith
collect_run_names_iff r (entry key (command f sub) rest) h =
    Has-join r (if not (text_eq f.run []) then f.run ∷ [] else [])
      (collect_run_names sub ++ collect_run_names rest) (Has-name r f.run h)
      (Has-join r (collect_run_names sub) (collect_run_names rest) (collect_run_names_iff r sub h)
        (collect_run_names_iff r rest h))

referenced_iff :
    (r : Text) (order : List CommandLevel) → r ≢ [] → Has r (referenced order) ↔ IsReached r order
unfolding referenced
referenced_iff r [] h = ground arith
referenced_iff r (level ∷ order) h =
    Has-join r (if not (text_eq level.enter_command []) then level.enter_command ∷ [] else []) _
      (Has-name r level.enter_command h)
      (Has-join r (if not (text_eq level.exit_command []) then level.exit_command ∷ [] else []) _
        (Has-name r level.exit_command h)
        (Has-join r (collect_run_names level.tree) (referenced order)
          (collect_run_names_iff r level.tree h) (referenced_iff r order h)))

has_iff : (names : List Text) (r : Text) → (has names r ≡ true) ↔ Has r names
unfolding has
has_iff [] r = ground arith
has_iff (n ∷ names) r = ground (arith, text_eq_iff n r, has_iff names r)

Has-insert_by :
    (message : Text → Text) (r a : Text) (l : List Text)
    → Has r (insert_by message a l) ↔ ((r ≡ a) ⊎ Has r l)
unfolding insert_by
Has-insert_by message r a [] = ground arith
Has-insert_by message r a (b ∷ l) = ground (arith, Has-insert_by message r a l)

Has-sort_by :
    (message : Text → Text) (r : Text) (l : List Text) → Has r (sort_by message l) ↔ Has r l
unfolding sort_by
Has-sort_by message r [] = ground arith
Has-sort_by message r (a ∷ l) =
    ground (arith, Has-sort_by message r l, Has-insert_by message r a (sort_by message l))

abbrev pub IsRegistered : Text → Registry → Type 0
IsRegistered name [] = ⊥
IsRegistered name ((key, f) ∷ registry) = (name ≡ key) ⊎ IsRegistered name registry

unreferenced_iff :
    (names : List Text) (r : Text) (registry : Registry)
    → Has r (unreferenced names registry) ↔ (IsRegistered r registry × ¬ Has r names)
unfolding unreferenced
unreferenced_iff names r [] = ground arith
unreferenced_iff names r ((key, f) ∷ registry) =
    ground (arith, unreferenced_iff names r registry, has_iff names key, has_iff names r)

-- A name is reported exactly where it is registered, no command of any level runs it at any depth,
-- and no level is entered or left by it. The name is not empty.
pub reachable_iff :
    (message : Text → Text) (registry : Registry) (order : List CommandLevel) (name : Text)
    → name ≢ []
    → Has name (verify_registered_commands_are_reachable message registry order)
      ↔ (IsRegistered name registry × ¬ IsReached name order)
unfolding verify_registered_commands_are_reachable
reachable_iff message registry order name h = ground (
  arith,
  Has-sort_by message name (unreferenced (referenced order) registry),
  unreferenced_iff (referenced order) name registry,
  referenced_iff name order h,
)
